-- ===== src/Ledger/PostingAgent.antt =====
-- agents/ledger/agent.py: the handler of `ledger.entry` events.
use cavi_erp.Prelude.{
  String, Bool, true, false, Option, none, some, [], ◌∷◌, ◌==◌, string_eq, if◌then◌else◌, nonempty,
}
use cavi_erp.Prelude.Int.{pos}
use cavi_erp.Json.{Object, str, int}
use cavi_erp.Error.{Error, Result, ok, err, message}
use cavi_erp.Exec.{Exec, pure, raise, lift, ◌>>=◌, attempt}
use cavi_erp.Services.{Services}
use cavi_erp.Agent.Event.{Event}
use cavi_erp.Agent.Runtime.{Agent, emit_new}
use cavi_erp.Ledger.Entry.{JournalEntry, from_payload, total_debits, total_credits}
use cavi_erp.Ledger.Store.{Books, PostResult, post}

abbrev pub rejected_payload : JournalEntry → String → Object
rejected_payload entry reason =
    ("entry_id", str entry.entry_id)
    ∷ ("currency", str entry.currency)
    ∷ ("reason", str reason)
    ∷ ("total_debits", int (total_debits entry))
    ∷ ("total_credits", int (total_credits entry))
    ∷ []

abbrev pub posted_payload : PostResult → Object
posted_payload result =
    ("entry_id", str result.entry_id)
    ∷ ("currency", str result.currency)
    ∷ ("total_minor", int result.total_minor)
    ∷ ("line_count", int (pos result.line_count))
    ∷ []

-- `except UnbalancedEntry`
abbrev pub is_unbalanced : Error → Bool
is_unbalanced (Error.unbalanced_entry _) = true
is_unbalanced _ = false

module _ (services : Services) where
  unfoldable pub report :
      Event → String → JournalEntry → Result PostResult → Exec (Agent Books) (Unit {0})
  report e tenant_id entry (err raised) =
      if is_unbalanced raised
      then emit_new services "ledger" "ledger.rejected" (pos 1) e.correlation_id (some tenant_id)
          (rejected_payload entry (message raised))
      else raise raised
  report e tenant_id entry (ok result) =
      if result.status == "duplicate"
      then pure tt
      else emit_new services "ledger" "ledger.posted" (pos 1) e.correlation_id (some tenant_id)
          (posted_payload result)

  unfoldable pub handle_for : Event → Option String → Exec (Agent Books) (Unit {0})
  handle_for e none = pure tt
  handle_for e (some tenant_id) =
      if nonempty tenant_id
      then (do
        entry ← lift (from_payload e.payload tenant_id)
        outcome ← attempt (post entry)
        report e tenant_id entry outcome)
      else pure tt

  -- `handle`: an entry without a tenant is logged and dropped.
  unfoldable pub on_event : Event → Exec (Agent Books) (Unit {0})
  on_event e = handle_for e e.tenant_id
