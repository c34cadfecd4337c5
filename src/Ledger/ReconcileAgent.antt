-- ===== src/Ledger/ReconcileAgent.antt =====
-- agents/ledger/reconcile_agent.py: the handler of `ticker.reconciliation.due` events.
use cavi_erp.Prelude.{
  String, Bool, true, false, Option, none, some, List, [], ◌∷◌, ◌<>◌, if◌then◌else◌,
}
use cavi_erp.Prelude.Int.{pos}
use cavi_erp.Json.{Object}
use cavi_erp.Error
use cavi_erp.Error.{Error, Result, ok, err, message}
use cavi_erp.Exec.{Exec, pure, raise, lift, ◌>>=◌, ◌>>◌}
use cavi_erp.Services.{Services}
use cavi_erp.Agent.Event.{Event, item, text}
use cavi_erp.Agent.Runtime.{Agent, count, mint, now_iso, emit_new, dead_letter}
use cavi_erp.Ledger.Reconcile.{
  Records, Discrepancy, ReconciliationResult, reconcile, pass_payload, drift_payload,
}

abbrev pub Stateless : Type 0
Stateless = Agent (Unit {0})

-- The two state sources behind the agent.
pub record Sources : Type 0 where
  -- `ExpectedStateSource.records(tenant_id, scope)`
  pub expected : String → String → Result Records
  -- `ErpStateSource.records(tenant_id, erp_platform, scope)`
  pub actual : String → String → String → Result Records

-- `UnconfiguredSource`, as both sources.
abbrev pub unconfigured_sources : Sources
unconfigured_sources = record {
  expected = λ _ _. err (Error.source_unavailable "no reconciliation state source configured");
  actual = λ _ _ _. err (Error.source_unavailable "no reconciliation state source configured");
}

abbrev is_unavailable : Error → Bool
is_unavailable (Error.source_unavailable _) = true
is_unavailable _ = false

abbrev pub both_sides : Sources → String → String → String → Result (Records × Records)
both_sides sources tenant_id erp_platform scope =
    Error.◌>>=◌ (sources.expected tenant_id scope) λ expected.
      Error.◌>>=◌ (sources.actual tenant_id erp_platform scope) λ actual. ok (expected, actual)

module _ (services : Services) where
  unfoldable pub count_kinds : List Discrepancy → Exec Stateless (Unit {0})
  count_kinds [] = pure tt
  count_kinds (d ∷ ds) = do count "cavi_erp_drift_total" 1 (("kind", d.kind) ∷ []); count_kinds ds

  unfoldable pub emit_drift : Event → Option Object → Exec Stateless (Unit {0})
  emit_drift e none = pure tt
  emit_drift e (some drift) =
      emit_new services "ledger" "ledger.drift.detected" (pos 1) e.correlation_id none drift

  unfoldable pub publish_result : Event → ReconciliationResult → Exec Stateless (Unit {0})
  unfolding count_kinds emit_drift
  publish_result e result = do
    count "cavi_erp_reconciliations_total" 1 []
    count_kinds result.discrepancies
    emit_new services "ledger" "ledger.reconciliation.completed" (pos 1) e.correlation_id none
        (pass_payload result)
    emit_drift e (drift_payload result)

  unfoldable pub on_sides :
      Event → String → String → String → Result (Records × Records) → Exec Stateless (Unit {0})
  on_sides e tenant_id erp_platform scope (err reason) =
      if is_unavailable reason
      then dead_letter services "ledger" e ("reconciliation source unavailable: " <> message reason)
      else raise reason
  on_sides e tenant_id erp_platform scope (ok (expected, actual)) = do
    run_id ← mint services
    completed_at ← now_iso services
    publish_result e (reconcile tenant_id erp_platform scope expected actual run_id completed_at)

  -- `handle`
  unfoldable pub on_event : Sources → Event → Exec Stateless (Unit {0})
  on_event sources e = do
    tenant_id ← lift (Error.◌>>=◌ (item "tenant_id" e.payload) text)
    erp_platform ← lift (Error.◌>>=◌ (item "erp_platform" e.payload) text)
    scope ← lift (Error.◌>>=◌ (item "scope" e.payload) text)
    on_sides e tenant_id erp_platform scope (both_sides sources tenant_id erp_platform scope)
