-- ===== src/Forge/WriteAgent/Gate.antt =====
-- The approval gate: what the writer is asked to apply has been approved by a decision event.
mod State
mod Execute
mod Propose
mod Decide
pub use State.{Approves, Cleared, IsGated}
use cavi_erp.Prelude.{
  ℕ, String, ◌≡◌, refl, sym, ap, ◌∙◌, ◌⊎◌, inl, inr, Bool, true, false, Bool-cases, Option, none,
  some, List, [], ◌∷◌, ◌++◌, ◌==◌, string_eq, eq_iff, if◌then◌else◌, arith, All, Any, All-append,
  beq_refl,
}
use cavi_erp.Dict.{Dict, get, put, pop}
use cavi_erp.Dict.Laws.{get-put-cases, get-pop-some}
use cavi_erp.Json.{Value, Object, str}
use cavi_erp.Error.{Error, Result, ok, err}
use cavi_erp.Error
use cavi_erp.Exec.{Exec, pure, raise, lift, gets, modify, ◌>>=◌, ◌>>◌, handle, attempt}
use cavi_erp.Exec.Triple
use cavi_erp.Exec.Triple.{
  Triple, Keeps, Yields, keeps_rules, Keeps-bind, Keeps-handle, Keeps-attempt, Keeps-if,
  Triple-bind, Triple-lift, Triple-pure, Triple-gets, Triple-attempt, Triple-given, Triple-if,
  Keeps-lift, Keeps-pure, Keeps-raise, Keeps-state,
}
use cavi_erp.Services.{Services}
use cavi_erp.Agent.Event.{Event, item, text, text_or_null, object}
use cavi_erp.Agent.Runtime.{fresh_runtime, run}
use cavi_erp.Agent.Frame.{
  Of, Keeps-count, Keeps-publish, Keeps-set_own, Keeps-mint, Keeps-now_iso, Keeps-monotonic,
  Keeps-new_event, Keeps-emit, Keeps-dead_letter, Keeps-run,
}
use cavi_erp.Forge.Breaker.{CircuitBreaker}
use cavi_erp.Forge.Write.{
  WriteOperation, WriteStep, WriteState, requested, approved, rejected, completed, transition_to,
}
use cavi_erp.Forge.Write.Coordinator.{
  Erp, Desk, Office, Proposal, preview, request, request_reversal, approve, reject, execute,
  apply_write, rendered, preview_by, reversal_from, is_erp_error, is_approved,
}
use cavi_erp.Forge.WriteAgent.{
  breaker_for, emit_step, escalate, on_failure, on_success, on_outcome, on_verdict, run_execute,
  record_proposal, propose, reverse_found, reverse, decide_approve, decide_reject, decide_by,
  decide_found, decide, on_event, on_illegal, set_breaker, set_pending, drop_pending, set_completed,
  is_approval, proposal, read_text,
}
use Decide.{Keeps-on_event}

abbrev pub fresh_desk : Desk
fresh_desk = record { pending = []; completed_writes = []; breakers = []; calls = [] }

abbrev pub fresh_office : Office
fresh_office = record { own = fresh_desk; runtime = fresh_runtime }

-- Some of the events approves the write.
abbrev pub ApprovedBy : List Event → String → Type 0
ApprovedBy events id = Any (λ e. Approves e id) events

ApprovedBy-All :
    (D : String → Type 0) (events : List Event)
    → ((id : String) → ApprovedBy events id → D id)
    → All (λ e. (id : String) → Approves e id → D id) events
ApprovedBy-All D [] h = tt
ApprovedBy-All D (e ∷ es) h = (λ id a. h id (inl a), ApprovedBy-All D es (λ id a. h id (inr a)))

module _ (services : Services) (erp : Erp) (factory : CircuitBreaker) where
  Keeps-All :
      (D : String → Type 0) (events : List Event)
      → All (λ e. (id : String) → Approves e id → D id) events
      → All (λ e. Keeps (Of (IsGated D)) (on_event services erp factory e)) events
  Keeps-All D [] h = tt
  Keeps-All D (e ∷ es) h = (Keeps-on_event D services erp factory e h.0, Keeps-All D es h.1)

  -- The state of the agent after these events, whether the loop still runs or has raised.
  abbrev pub office_after : List Event → Office
  office_after events = (run services "forge" (on_event services erp factory) events fresh_office).1

  -- Whatever events the bus delivers, and whatever the ERP and the registry answer, every write
  -- that the writer is asked to apply is in the state approved, and one of the delivered events is
  -- a decision that approves that very write.
  pub approval_gate :
      (events : List Event) → All (Cleared (ApprovedBy events)) (office_after events).own.calls
  unfolding get
  approval_gate events =
      (Keeps-state _ fresh_office
        (Keeps-run services (IsGated (ApprovedBy events)) "forge" _ events
          (Keeps-All (ApprovedBy events) events (ApprovedBy-All _ events (λ id a. a))))
        (record { held = λ id op h. cc; applied = tt })).applied
