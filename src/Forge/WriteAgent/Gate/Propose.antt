-- ===== src/Forge/WriteAgent/Gate/Propose.antt =====
-- Proposing and reversing keep the approval gate: `_propose` and `_reverse`.
use cavi_erp.Prelude.{String, ◌≡◌, refl, inl, Option, none, some, List, string_eq}
use cavi_erp.Json.{Object}
use cavi_erp.Error.{Result, ok, err}
use cavi_erp.Exec.{lift}
use cavi_erp.Exec.Triple.{
  Triple, Keeps, Yields, Keeps-bind, Keeps-if, Triple-bind, Triple-pure, Triple-attempt,
  Triple-given, Keeps-lift, Keeps-pure, Keeps-raise,
}
use cavi_erp.Services.{Services}
use cavi_erp.Agent.Event.{Event}
use cavi_erp.Agent.Frame.{Of, Keeps-mint, Keeps-now_iso, Keeps-dead_letter}
use cavi_erp.Forge.Breaker.{CircuitBreaker}
use cavi_erp.Forge.Write.{WriteOperation, WriteStep, WriteState, requested, completed}
use cavi_erp.Forge.Write.Coordinator.{
  Erp, Office, Proposal, preview, request, request_reversal, rendered, preview_by, reversal_from,
  is_erp_error,
}
use cavi_erp.Forge.WriteAgent.{record_proposal, propose, reverse_found, reverse}
use cavi_erp.Forge.WriteAgent.Gate.State.{Fits, IsGated}
use cavi_erp.Forge.WriteAgent.Gate.Execute.{gate_rules, Keeps-set_pending, Keeps-emit_step}

module _ (Decided : String → Type 0) (services : Services) (erp : Erp)
    (factory : CircuitBreaker) where
  abbrev Gated : Office → Type 0
  Gated = Of (IsGated Decided)

  pub Keeps-rendered :
      (op : WriteOperation) (r : Result (Option Object))
      → Keeps Gated (lift (rendered services erp op r))
  Keeps-rendered op r = Keeps-lift _

  pub Keeps-preview_by :
      (fetch : Option (List WriteOperation → WriteOperation → Result (Option Object)))
      (asserted : Option String) (op : WriteOperation)
      → Keeps Gated (preview_by services erp fetch asserted op)
  Keeps-preview_by none asserted op = Keeps-pure _
  Keeps-preview_by (some fetch) asserted op = record {
    at = λ s g. (Keeps-rendered op (fetch s.own.calls op)).at s g;
  }

  pub Keeps-preview :
      (asserted : Option String) (op : WriteOperation)
      → Keeps Gated (preview services erp asserted op)
  unfolding preview
  Keeps-preview asserted op = Keeps-preview_by erp.fetch asserted op

  -- A proposal is in the state requested, however it came about.
  pub Triple-request :
      (p : Proposal)
      → Triple Gated
          (request services erp p)
          (λ step s. Gated s × (step.op.state ≡ requested))
          Gated
  unfolding request
  Triple-request p =
      Triple-bind _ _ (λ _. Gated) _ (Keeps-mint services (IsGated Decided))
        λ id.
          Triple-bind _ _ (λ _. Gated) _ (Keeps-preview _ _)
            λ shown.
              Triple-bind _ _ (λ _. Gated) _ (Keeps-now_iso services (IsGated Decided))
                λ now. Triple-pure _ _ (λ s g. (g, refl))

  pub Triple-reversal_from :
      (w : WriteState) (original : WriteOperation) (operation : String) (payload : Object)
      (by : String) (asserted target : Option String)
      → Triple Gated
          (reversal_from services erp w original operation payload by asserted target)
          (λ step s. Gated s × (step.op.state ≡ requested))
          Gated
  Triple-reversal_from completed original operation payload by asserted target = Triple-request _
  Triple-reversal_from _ original operation payload by asserted target = record { at = λ s g. g }

  pub Triple-request_reversal :
      (original : WriteOperation) (operation : String) (payload : Object) (by : String)
      (asserted target : Option String)
      → Triple Gated
          (request_reversal services erp original operation payload by asserted target)
          (λ step s. Gated s × (step.op.state ≡ requested))
          Gated
  unfolding request_reversal
  Triple-request_reversal original = Triple-reversal_from original.state original

  pub Fits-new : (op : WriteOperation) → op.state ≡ requested → Fits Decided op.write_id op
  Fits-new op h = (refl, inl h)

  pub Keeps-record_proposal :
      (e : Event) (r : Result WriteStep)
      → Yields (λ step. step.op.state ≡ requested) r
      → Keeps Gated (record_proposal services erp factory e r)
  unfolding record_proposal
  Keeps-record_proposal e (ok step) new =
      Keeps-bind _ _
        (Keeps-set_pending Decided services erp factory step.op.write_id step.op
          (Fits-new step.op new))
        λ _. Keeps-emit_step Decided services erp factory step e.correlation_id
  Keeps-record_proposal e (err reason) new =
      Keeps-if (is_erp_error reason) _ _ (Keeps-dead_letter services (IsGated Decided) _ _ _)
        (Keeps-raise reason)

  pub Keeps-propose : (e : Event) → Keeps Gated (propose services erp factory e)
  unfolding propose
  Keeps-propose e = Keeps-bind _ _ (Keeps-lift _) λ p.
      Triple-bind _ _ _ _ (Triple-attempt _ _ (Triple-request p))
        λ outcome. Triple-given _ _ (Keeps-record_proposal e outcome)

  pub Keeps-reverse_found :
      (e : Event) (id : String) (found : Option WriteOperation)
      → Keeps Gated (reverse_found services erp factory e id found)
  unfolding reverse_found
  Keeps-reverse_found e id none = Keeps-dead_letter services (IsGated Decided) _ _ _
  Keeps-reverse_found e id (some original) = Keeps-bind _ _ (Keeps-lift _) λ operation.
      Keeps-bind _ _ (Keeps-lift _) λ payload. Keeps-bind _ _ (Keeps-lift _) λ by.
        Keeps-bind _ _ (Keeps-lift _) λ asserted.
          Triple-bind _ _ _ _
            (Triple-attempt _ _
              (Triple-request_reversal original operation payload by asserted none))
            λ outcome. Triple-given _ _ (Keeps-record_proposal e outcome)

  pub Keeps-reverse : (e : Event) → Keeps Gated (reverse services erp factory e)
  unfolding reverse
  Keeps-reverse e = search (gate_rules, Keeps-reverse_found)
