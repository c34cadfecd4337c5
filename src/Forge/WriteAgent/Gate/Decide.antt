-- ===== src/Forge/WriteAgent/Gate/Decide.antt =====
-- Deciding keeps the approval gate: `_decide`, and with it every handler.
use cavi_erp.Prelude.{
  String, ◌≡◌, refl, ◌∙◌, inr, true, Option, none, some, ◌==◌, string_eq, eq_iff, arith,
}
use cavi_erp.Dict.{get}
use cavi_erp.Json.{Value}
use cavi_erp.Error.{Error, Result, ok, err}
use cavi_erp.Error
use cavi_erp.Exec.Triple.{
  Triple, Keeps, Keeps-bind, Keeps-handle, Triple-bind, Triple-lift, Triple-pure, Triple-gets,
  Triple-given, Triple-if, Keeps-lift, Keeps-pure,
}
use cavi_erp.Services.{Services}
use cavi_erp.Agent.Event.{Event, item, text}
use cavi_erp.Agent.Frame.{Of, Keeps-now_iso, Keeps-dead_letter}
use cavi_erp.Forge.Breaker.{CircuitBreaker}
use cavi_erp.Forge.Write.{WriteOperation, approved, transition_to}
use cavi_erp.Forge.Write.Coordinator.{Erp, Office, approve, reject, is_approved}
use cavi_erp.Forge.WriteAgent.{
  decide_approve, decide_reject, decide_by, decide_found, decide, on_event, on_illegal, is_approval,
}
use cavi_erp.Forge.WriteAgent.Gate.State.{Approves, Fits, IsGated, is_approved-eq}
use cavi_erp.Forge.WriteAgent.Gate.Execute.{
  gate_rules, Keeps-set_pending, Keeps-emit_step, Keeps-run_execute,
}
use cavi_erp.Forge.WriteAgent.Gate.Propose.{Keeps-propose, Keeps-reverse}

module _ (Decided : String → Type 0) (services : Services) (erp : Erp)
    (factory : CircuitBreaker) where
  abbrev Gated : Office → Type 0
  Gated = Of (IsGated Decided)

  pub transition_to-approved :
      (op new : WriteOperation)
      → transition_to approved op ≡ ok new
      → (new.write_id ≡ op.write_id) × (new.state ≡ approved)
  unfolding transition_to
  transition_to-approved op new h = ground arith

  pub Triple-approve :
      (op : WriteOperation) (by : String)
      → Triple Gated
          (approve services erp op by)
          (λ step s. Gated s × ((step.op.write_id ≡ op.write_id) × (step.op.state ≡ approved)))
          Gated
  unfolding approve
  Triple-approve op by = Triple-bind _ _ _ _ (Triple-lift (transition_to approved op)) λ new.
      Triple-given _ _ λ moved.
        Triple-bind _ _ (λ _. Gated) _ (Keeps-now_iso services (IsGated Decided))
          λ now. Triple-pure _ _ (λ s g. (g, transition_to-approved op new moved))

  pub Keeps-reject :
      (op : WriteOperation) (by : String) (reason : Option String)
      → Keeps Gated (reject services erp op by reason)
  unfolding reject
  Keeps-reject op by reason = search gate_rules

  pub Keeps-decide_approve :
      (id : String) (op : WriteOperation) (e : Event)
      → Fits Decided id op
      → Decided id
      → Keeps Gated (decide_approve services erp factory id op e)
  unfolding decide_approve
  Keeps-decide_approve id op e fits decided =
      Triple-if (is_approved op.state) _ _ _
        (λ again.
          Keeps-run_execute Decided services erp factory op e e.correlation_id
            (is_approved-eq op again, rw fits.0 decided))
        (λ first. Keeps-bind _ _ (Keeps-lift _) λ reviewer.
          Triple-bind _ _ _ _ (Triple-approve op reviewer) λ step.
            Triple-given _ _ λ (same, cleared).
              let now_decided : Decided step.op.write_id = rw (same, fits.0) decided in
              Keeps-bind _ _
                (Keeps-set_pending Decided services erp factory id step.op
                  (same ∙ fits.0, inr (cleared, now_decided)))
                λ _.
                  Keeps-bind _ _
                    (Keeps-emit_step Decided services erp factory step e.correlation_id)
                    λ _.
                      Keeps-run_execute Decided services erp factory step.op e e.correlation_id
                        (cleared, now_decided))

  pub Keeps-decide_reject :
      (id : String) (op : WriteOperation) (e : Event)
      → Keeps Gated (decide_reject services erp factory id op e)
  unfolding decide_reject
  Keeps-decide_reject id op e = search (gate_rules, Keeps-reject, Keeps-emit_step)

  pub Keeps-on_illegal :
      (e : Event) (reason : Error) → Keeps Gated (on_illegal services erp factory e reason)
  Keeps-on_illegal e (Error.invalid_transition m) =
      Keeps-dead_letter services (IsGated Decided) _ _ _
  Keeps-on_illegal e _ = record { at = λ s g. g }

  -- What is known of the write that a decision is about.
  abbrev pub Known : String → Option WriteOperation → Type 0
  Known id none = Unit
  Known id (some op) = Fits Decided id op

  module _ (e : Event) (granted : (id : String) → Approves e id → Decided id) where
    Keeps-decide_by :
        (decision : Value) (id : String) (op : WriteOperation)
        → Fits Decided id op
        → (is_approval decision ≡ true → Decided id)
        → Keeps Gated (decide_by services erp factory decision id op e)
    unfolding decide_by
    Keeps-decide_by decision id op fits decided =
        Triple-if (is_approval decision) _ _ _
          (λ yes'. Keeps-decide_approve id op e fits (decided yes'))
          (λ no'. Keeps-decide_reject id op e)

    Keeps-decide_found :
        (id : String) (found : Option WriteOperation)
        → Known id found
        → e.subject ≡ "forge.write.decision"
        → Error.◌>>=◌ (item "write_id" e.payload) text ≡ ok id
        → Keeps Gated (decide_found services erp factory id e found)
    unfolding decide_found
    Keeps-decide_found id none k here read = Keeps-pure _
    Keeps-decide_found id (some op) k here read =
        Keeps-handle _ _
          (Triple-bind _ _ _ _ (Triple-lift (item "decision" e.payload)) λ decision.
            Triple-given _ _ λ chosen.
              Keeps-decide_by decision id op k
                (λ yes'. granted id (decision, here, read, chosen, yes')))
          (Keeps-on_illegal e)

    known : (id : String) (s : Office) → Gated s → Known id (get id s.own.pending)
    known id s g =
        elim (get id s.own.pending) as (λ o. get id s.own.pending ≡ o → Known id o) [
          | none ↦ λ _. tt
          | some op ↦ λ found. g.held id op found
        ]
          refl

    Keeps-decide : e.subject ≡ "forge.write.decision" → Keeps Gated (decide services erp factory e)
    unfolding decide
    Keeps-decide here =
        Triple-bind _ _ _ _ (Triple-lift (Error.◌>>=◌ (item "write_id" e.payload) text)) λ id.
          Triple-given _ _ λ read.
            Triple-bind _ _ _ _ (Triple-gets _ (Known id) (known id))
              λ found. Triple-given _ _ λ k. Keeps-decide_found id found k here read

    -- Every handler keeps the gate.
    pub Keeps-on_event : Keeps Gated (on_event services erp factory e)
    unfolding on_event
    Keeps-on_event =
        Triple-if (e.subject == "forge.write.propose") _ _ _
          (λ _. Keeps-propose Decided services erp factory e)
          λ _.
            Triple-if (e.subject == "forge.write.decision") _ _ _
              (λ here. Keeps-decide ((eq_iff _ _).0 here))
              λ _.
                Triple-if (e.subject == "forge.write.reverse") _ _ _
                  (λ _. Keeps-reverse Decided services erp factory e) λ _. Keeps-pure _
