-- ===== src/Forge/Tests/ReversalTests.antt =====
-- A run of the handler of reversals.
use cavi_erp.Prelude.{false, string_eq, none, some, [], ◌∷◌}
use cavi_erp.Prelude.Int.{pos}
use cavi_erp.Json.{str, int, obj, of_dict}
use cavi_erp.Error.{Error}
use cavi_erp.Agent.Event.{Event}
use cavi_erp.Forge.Breaker.{CircuitBreaker}
use cavi_erp.Forge.Write.{WriteOperation, requested}
use cavi_erp.Forge.Write.Coordinator.{Office}
use cavi_erp.Forge.WriteAgent.Gate.{fresh_office}
use cavi_erp.Forge.Tests.NetSuiteTests.{create}

abbrev breaker : CircuitBreaker
breaker = record {
  threshold = 5;
  cooldown = 300;
  consecutive_failures = 0;
  opened_at = none;
  probing = false;
}

abbrev after_create : Office
after_create = record fresh_office {
  own = record fresh_office.own { completed_writes = ("w1", create) ∷ [] };
}

abbrev asked : Event
asked = record {
  subject = "forge.write.reverse";
  schema_version = pos 1;
  source = "n8n";
  payload =
      ("write_id", str "w1")
      ∷ ("operation", str "update")
      ∷ ("payload", obj (of_dict (("qty", int (pos 0)) ∷ [])))
      ∷ ("requested_by", str "bo")
      ∷ [];
  id = "e";
  correlation_id = none;
  tenant_id = none;
}

abbrev undo : WriteOperation
undo = record create {
  write_id = "id-0";
  operation = "update";
  payload = ("qty", int (pos 0)) ∷ [];
  requested_by = "bo";
  diff_preview = "(dry-run unavailable: no ERP reader configured)";
  state = requested;
  reverses = some "w1";
}
