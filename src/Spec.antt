-- ===== src/Spec.antt =====
-- society/runner/spec.py: the nodes of a run's graph.
use society_harness.Prelude.{Text, List, Option}

pub record NodeSpec : Type 0 where
  pub id : Text
  pub agent : Text
  pub task : Text
  pub depends_on : List Text
  pub inputs : List Text
  pub outputs : List Text
  pub tools : Option (List Text)
  pub workspace : Option Text

pub record DagSpec : Type 0 where
  pub goal : Text
  pub nodes : List NodeSpec
