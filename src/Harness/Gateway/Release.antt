-- ===== src/Harness/Gateway/Release.antt =====
-- society/harness/gateway.py: `release` with its bill, `note_verdict`, `run_start` and `run_end`. The
-- amounts of tokens of a call are whole tokens.
use society_harness.Prelude.{
  ℕ, ◌+◌, ◌-◌, ◌*◌, ◌/◌, Bool, true, false, not, ◌&&◌, ◌||◌, Text, codes, same, List, [], Option,
  none, some, if◌then◌else◌, ltb, leb,
}
use society_harness.Prelude.Dicts.{assign_at, assign}
use society_harness.Prelude.Int.{pos, pos_part, ◌+ℤ◌, ◌-ℤ◌, min_ℤ}
use society_harness.Prelude.Results.{Result, ok, ◌>>=◌}
use society_harness.Agentsim.Buckets.Tokens
use society_harness.Agentsim.Buckets.Budgets
use society_harness.Agentsim.Buckets.Budgets.{BudgetBucket}
use society_harness.Agentsim.Resource
use society_harness.Agentsim.Resource.Provider
use society_harness.Agentsim.Ledger.{set_session}
use society_harness.Harness.Gateway.{
  predicts, NodeRef, RunState, Grant, Gateway, Predictions, is_chat,
}
use society_harness.Harness.Gateway.Admission.{put_tpm, put_budget, put_res}
use society_harness.Harness.Gateway.Grants.{run_with, set_add, discard, dispatch_all}

abbrev pub ok_outcome : Text
ok_outcome = codes "ok"

abbrev pub after_call : Text → ℕ → ℕ → Bool → RunState → RunState
after_call node usd duration judged run = record run {
  spent = run.spent + usd;
  inflight = discard node run.inflight;
  service = assign node duration run.service;
  judging = if judged then set_add node run.judging else run.judging;
}

abbrev pub after_verdict : Text → Bool → RunState → RunState
after_verdict node approved run = record run {
  judging = discard node run.judging;
  done = if approved then set_add node run.done else discard node run.done;
}

abbrev pub reissued : Predictions → Text → Gateway → Gateway
reissued p run_id s =
    if predicts s.policy then record s { ledger = p.reissue run_id s.ledger } else s

unfoldable pub note_verdict : Predictions → Text → Text → Bool → Gateway → Gateway
note_verdict p run_id node approved s = elim (s.runs run_id) [
  | none ↦ s
  | some run ↦ reissued p run_id (run_with run_id (after_verdict node approved) s)
]

unfoldable pub run_start : Predictions → ℕ → Text → Text → List (Text × NodeRef) → Gateway → Gateway
run_start p now run_id tenant nodes s = reissued p run_id (record s {
  runs =
      assign_at run_id
        (some (record {
          run_id = run_id;
          tenant = tenant;
          nodes = nodes;
          started = now;
          done = [];
          attempts = [];
          spent = 0;
          inflight = [];
          judging = [];
          status = codes "running";
          gang_open = p.gang run_id;
          service = [];
        }))
        s.runs;
})

-- What a call used and how it ended.
pub record Usage : Type 0 where
  pub tokens_in : ℕ
  pub tokens_out : ℕ
  pub outcome : Text
  pub rejected : Bool

abbrev pub price_of : Usage → Option (ℕ × ℕ) → ℕ
price_of u none = 0
price_of u (some (price_in, price_out)) = u.tokens_in * price_in + u.tokens_out * price_out

abbrev pub reissue_running : Predictions → Text → Gateway → Gateway
reissue_running p run_id s = elim (s.runs run_id) [
  | none ↦ s
  | some run ↦ if same run.status (codes "running") then reissued p run_id s else s
]

abbrev pub ended : Text → RunState → RunState
ended status run = record run { status = status }

abbrev pub drop_leases : ℕ → Text → Gateway → Gateway
drop_leases now run_id s =
    if predicts s.policy then record s { ledger = (set_session run_id [] now s.ledger).0 } else s

module _ (minute hour second milli : ℕ) where
  -- The bill of a chat: the bucket afterwards, and whether the tenant could not pay it. A rest that is
  -- less than a unit stays in the bucket.
  unfoldable pub settle : ℕ → ℕ → ℕ → BudgetBucket → BudgetBucket × Bool
  settle now usd prepaid b =
      let b' = Budgets.refill hour now b in
      let due = usd - prepaid in
      let (asked, may) = Budgets.can_pay hour now due b in
      let paid = pos_part b'.level / hour in
      if leb usd prepaid
      then (
        record b' {
          level = min_ℤ (pos (b'.capacity * hour)) (b'.level +ℤ pos ((prepaid - usd) * hour));
          spent = b'.spent -ℤ pos (prepaid - usd);
        },
        false,
      )
      else if may
      then (Budgets.pay hour now due asked, false)
      else (
        (let poor = Budgets.pay hour now paid b' in record poor { refused = poor.refused + 1 }),
        true,
      )

  unfoldable pub debit_tokens : ℕ → Grant → ℕ → Gateway → Gateway
  debit_tokens now g tokens_in s =
      let name = (s.res g.res).name in
      elim (s.tpm name) [
        | none ↦ s
        | some b ↦
            put_tpm name (Tokens.debit minute (tokens_in * Provider.one - g.est_tokens) now b) s
      ]

  -- Nothing is settled for a call that costs nothing.
  unfoldable pub bill : ℕ → Grant → ℕ → Gateway → Gateway × Bool
  bill now g usd s = elim (s.budgets g.tenant) [
    | none ↦ (s, false)
    | some b ↦
        if ltb 0 usd
        then (let (b', failed) = settle now usd g.prepaid b in (put_budget g.tenant b' s, failed))
        else (s, false)
  ]

  -- The part of `release` that is for chats.
  unfoldable pub close_chat : Predictions → ℕ → Grant → Usage → Gateway → Gateway × (ℕ × Bool)
  close_chat p now g u s =
      let usd = price_of u (s.prices (s.res g.res).name) in
      let (s1, failed) = bill now g usd (debit_tokens now g u.tokens_in s) in
      let fine = same u.outcome ok_outcome && not failed in
      let s2 =
        run_with g.run_id (after_call g.node_id usd (now - g.t_start) (fine && not u.rejected))
          s1 in
      let s3 = if u.rejected || not fine then note_verdict p g.run_id g.node_id false s2 else s2 in
      (s3, (usd, failed))

  -- The new state, what was charged, and whether `ProviderError("budget")` is raised at the end.
  unfoldable pub release : Predictions → ℕ → Grant → Usage → Gateway → Result (Gateway × (ℕ × Bool))
  release p now g u s = do
    r ← Resource.give g.sid (some g.amt) (s.res g.res)
    let s1 = put_res g.res r s
    let (s2, charged) = close_chat p now g u s1
    ok (
        if is_chat g
        then (dispatch_all minute hour second milli p now (reissue_running p g.run_id s2), charged)
        else (dispatch_all minute hour second milli p now s1, (0, false)))

  unfoldable pub run_end : Predictions → ℕ → Text → Text → Gateway → Gateway
  run_end p now run_id status s = elim (s.runs run_id) [
    | none ↦ s
    | some run ↦
        let s1 = drop_leases now run_id (run_with run_id (ended status) s) in
        dispatch_all minute hour second milli p now
          (record s1 { tags = assign_at run_id none s1.tags })
  ]
