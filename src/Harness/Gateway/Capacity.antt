-- ===== src/Harness/Gateway/Capacity.antt =====
-- society/harness/gateway.py: the gateway hands out no more than a resource has.
use society_harness.Agentsim.Resource.{Resource}
use society_harness.Agentsim.Resource
use society_harness.Harness.Gateway.{Gateway}
