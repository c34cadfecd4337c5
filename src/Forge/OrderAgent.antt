-- ===== src/Forge/OrderAgent.antt =====
-- agents/forge/agent.py: the handler of `forge.workorder` events. The agent has no state of its own.
use cavi_erp.Prelude.{String, Bool, true, false, some, if◌then◌else◌}
use cavi_erp.Prelude.Int.{pos}
use cavi_erp.Error.{Error, Result, ok, err}
use cavi_erp.Exec.{Exec, pure, raise, lift, ◌>>=◌, ◌>>◌}
use cavi_erp.Services.{Services}
use cavi_erp.Agent.Event.{Event}
use cavi_erp.Agent.Runtime.{Agent, emit_new}
use cavi_erp.Forge.Orders.{WorkOrderState, created, order_of, start, complete, CompletionResult}

abbrev pub Stateless : Type 0
Stateless = Agent (Unit {0})

abbrev pub is_created : WorkOrderState → Bool
is_created created = true
is_created _ = false

abbrev is_illegal : Error → Bool
is_illegal (Error.invalid_transition _) = true
is_illegal _ = false

module _ (services : Services) (uuid5 : String → String) where
  -- The two emissions for a completed order; an order that cannot be completed is only logged.
  unfoldable pub announce : Event → Result CompletionResult → Exec Stateless (Unit {0})
  announce e (err reason) = if is_illegal reason then pure tt else raise reason
  announce e (ok result) = do
    emit_new services "forge" "forge.completed" (pos 1) e.correlation_id
        (some result.order.tenant_id) result.completed_event
    emit_new services "forge" "ledger.entry" (pos 1) e.correlation_id (some result.order.tenant_id)
        result.ledger_entry

  -- `handle`: an order that arrives as created is started first.
  unfoldable pub on_event : Event → Exec Stateless (Unit {0})
  on_event e = do
    arrived ← lift (order_of e.payload)
    order ← lift (if is_created arrived.state then start arrived else ok arrived)
    announce e (complete uuid5 order)
