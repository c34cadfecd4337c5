-- ===== src/Forge/Tests/WriteTests.antt =====
-- Runs of the ERP write path.
use cavi_erp.Prelude.{◌≡◌, refl, ◌↔◌, List, [], ◌∷◌, none, some, false, String, ◌<>◌, All}
use cavi_erp.Prelude.Int.{pos}
use cavi_erp.Json.{Object, str, int, obj, of_dict, same}
use cavi_erp.Dict.{get}
use cavi_erp.Error.{ok}
use cavi_erp.Fixtures.{services}
use cavi_erp.Agent.Event.{Event}
use cavi_erp.Forge.Breaker.{CircuitBreaker}
use cavi_erp.Forge.Write.{WriteOperation, requested, approved}
use cavi_erp.Forge.Write.Coordinator.{Erp, execute_batch}
use cavi_erp.Forge.Write.Diff.{
  Matches, or_empty, render_diff, render_diff-no_changes, header, no_changes,
}
use cavi_erp.Forge.Write.Batch.{Settles, execute_batch-Settles}
use cavi_erp.Forge.WriteAgent.Gate.{fresh_office, Cleared, ApprovedBy, office_after, approval_gate}

abbrev order : WriteOperation
order = record {
  write_id = "w1";
  tenant_id = "t";
  erp_platform = "netsuite";
  operation = "create";
  target_module = "salesOrder";
  payload = ("qty", int (pos 2)) ∷ ("memo", str "x") ∷ [];
  requested_by = "ana";
  diff_preview = "";
  state = requested;
  reverses = none;
  target_external_id = none;
}

abbrev confirming : Erp
confirming = record { apply = λ calls op. ok (("status_code", int (pos 200)) ∷ []); fetch = none }

abbrev breaker : CircuitBreaker
breaker = record {
  threshold = 5;
  cooldown = 300;
  consecutive_failures = 0;
  opened_at = none;
  probing = false;
}

abbrev event : String → Object → Event
event subject payload = record {
  subject = subject;
  schema_version = pos 1;
  source = "n8n";
  payload = payload;
  id = "e";
  correlation_id = none;
  tenant_id = none;
}

abbrev proposed : Event
proposed = event "forge.write.propose" (
    ("tenant_id", str "t")
    ∷ ("erp_platform", str "netsuite")
    ∷ ("operation", str "create")
    ∷ ("target_module", str "salesOrder")
    ∷ ("payload", obj (of_dict (("qty", int (pos 2)) ∷ [])))
    ∷ ("requested_by", str "ana")
    ∷ [])

abbrev approval : Event
approval =
    event "forge.write.decision"
      (("write_id", str "id-0") ∷ ("decision", str "approve") ∷ ("reviewer", str "bo") ∷ [])

abbrev history : List Event
history = proposed ∷ approval ∷ approval ∷ []

approval_gate_example :
    All (Cleared (ApprovedBy history)) (office_after services confirming breaker history).own.calls
approval_gate_example = approval_gate services confirming breaker history

abbrev held : Object
held = ("memo", str "x") ∷ ("qty", int (pos 2)) ∷ []

held-Matches : Matches held order.payload
unfolding get same
held-Matches = ((int (pos 2), refl, refl), ((str "x", refl, refl), tt))

render_diff-no_changes_example :
    (render_diff (some held) order ≡ header (some held) order <> "\n" <> no_changes)
    ↔ Matches (or_empty (some held)) order.payload
render_diff-no_changes_example = render_diff-no_changes (some held) order

shown_as_unchanged : render_diff (some held) order ≡ header (some held) order <> "\n" <> no_changes
shown_as_unchanged = (render_diff-no_changes (some held) order).1 held-Matches

abbrev two_writes : List WriteOperation
two_writes =
    record order { state = approved } ∷ record order { state = approved; write_id = "w2" } ∷ []

execute_batch-Settles_example :
    Settles confirming two_writes fresh_office
      (execute_batch services confirming two_writes fresh_office)
execute_batch-Settles_example = execute_batch-Settles services confirming two_writes fresh_office
