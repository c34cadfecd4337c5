-- ===== src/Forge/WriteAgent.antt =====
-- agents/forge/write_agent.py: the handlers of `ForgeWriteAgent`. A reading of the clock serves a
-- breaker check and the text of its refusal.
pub mod Gate
use Prim.Native.Char.{code}
use Prim.Native.String
use cavi_erp.Prelude.{
  ℕ, ◌-◌, ◌≡◌, refl, String, Bool, true, false, Option, none, some, List, [], ◌∷◌, ◌<>◌, ◌==◌, eqb,
  string_eq, pair_eq, if◌then◌else◌, contains, ◌&&◌,
}
use cavi_erp.Prelude.Int.{ℤ}
use cavi_erp.Dict
use cavi_erp.Dict.{Dict, get, put, pop, keys}
use cavi_erp.Json.{Value, Object, str, same}
use cavi_erp.Error.{Error, Result, ok, err, message}
use cavi_erp.Error
use cavi_erp.Exec.{Exec, pure, raise, lift, gets, modify, ◌>>=◌, ◌>>◌, handle, attempt}
use cavi_erp.Services.{Services}
use cavi_erp.Agent.Event.{Event, item, text, text_or_null, object}
use cavi_erp.Agent.Runtime.{
  Agent, set_own, count, mint, now_iso, monotonic, new_event, emit, dead_letter,
}
use cavi_erp.Forge.Breaker.{CircuitBreaker, check, record_success, record_failure}
use cavi_erp.Forge.Write.{WriteOperation, WriteStep, WriteState, requested, approved}
use cavi_erp.Forge.Write.Coordinator.{
  Erp, Desk, Office, Proposal, request, request_reversal, approve, reject, execute, is_erp_error,
  is_approved,
}

-- `subject.rsplit(".", 1)[-1]`, from the characters since the last dot.
last_part : String → String → String
last_part part String.[] = part
last_part part (String.◌∷◌ c s) =
    last_part (if eqb (code c) 46 then "" else part <> String.◌∷◌ c "") s

unfoldable pub stage_of : String → String
unfolding last_part
stage_of subject = last_part "" subject

stage_of_requested : stage_of "forge.write.requested" ≡ "requested"
unfolding stage_of
stage_of_requested = refl

abbrev keywords : List String
keywords =
    "tenant_id" ∷ "erp_platform" ∷ "operation" ∷ "target_module" ∷ "payload" ∷ "requested_by"
    ∷ "diff_preview" ∷ "reverses" ∷ "target_external_id" ∷ []

known : List String → Bool
known [] = true
known (k ∷ ks) = contains k keywords && known ks

-- `request(**event.payload)`: every keyword is one of the parameters, and none without a default
-- is missing.
unfoldable pub proposal : Object → Result Proposal
unfolding item text text_or_null object known
proposal p =
    Error.◌>>=◌
      (Error.raise_if (if known (keys p) then false else true)
        (Error.type_error "request() got an unexpected keyword argument"))
      λ _. Error.◌>>=◌ (Error.◌>>=◌ (item "tenant_id" p) text) λ tenant_id.
        Error.◌>>=◌ (Error.◌>>=◌ (item "erp_platform" p) text) λ erp_platform.
          Error.◌>>=◌ (Error.◌>>=◌ (item "operation" p) text) λ operation.
            Error.◌>>=◌ (Error.◌>>=◌ (item "target_module" p) text) λ target_module.
              Error.◌>>=◌ (Error.◌>>=◌ (item "payload" p) object) λ payload.
                Error.◌>>=◌ (Error.◌>>=◌ (item "requested_by" p) text) λ requested_by.
                  Error.◌>>=◌ (text_or_null (get "diff_preview" p)) λ diff_preview.
                    Error.◌>>=◌ (text_or_null (get "reverses" p)) λ reverses.
                      Error.◌>>=◌ (text_or_null (get "target_external_id" p)) λ target_external_id.
                        ok (record {
                          tenant_id = tenant_id;
                          erp_platform = erp_platform;
                          operation = operation;
                          target_module = target_module;
                          payload = payload;
                          requested_by = requested_by;
                          diff_preview = diff_preview;
                          reverses = reverses;
                          target_external_id = target_external_id;
                        })

-- `event.payload[key]`, used as a text.
abbrev pub read_text : String → Object → Exec Office String
read_text key p = lift (Error.◌>>=◌ (item key p) text)

abbrev pub set_pending : String → WriteOperation → Exec Office (Unit {0})
set_pending id op = set_own (λ d. record d { pending = put id op d.pending })

abbrev pub drop_pending : String → Exec Office (Unit {0})
drop_pending id = set_own (λ d. record d { pending = pop id d.pending })

abbrev pub set_completed : String → WriteOperation → Exec Office (Unit {0})
set_completed id op = set_own (λ d. record d { completed_writes = put id op d.completed_writes })

abbrev pub breaker_key : WriteOperation → String × String
breaker_key op = (op.tenant_id, op.erp_platform)

abbrev pub set_breaker : WriteOperation → CircuitBreaker → Exec Office (Unit {0})
set_breaker op b = set_own (λ d. record d { breakers = put (breaker_key op) b d.breakers })

abbrev pub or_new : CircuitBreaker → Option CircuitBreaker → CircuitBreaker
or_new factory none = factory
or_new factory (some b) = b

-- `event.payload["decision"] == "approve"`
abbrev pub is_approval : Value → Bool
is_approval decision = same decision (str "approve")

-- `factory` is what `breaker_factory()` returns.
module _ (services : Services) (erp : Erp) (factory : CircuitBreaker) where
  -- `_breaker_for`
  unfoldable pub breaker_for : WriteOperation → Exec Office CircuitBreaker
  breaker_for op = do
    found ← gets (λ s. get (breaker_key op) s.own.breakers)
    set_breaker op (or_new factory found)
    pure (or_new factory found)

  -- `_emit`
  unfoldable pub emit_step : WriteStep → Option String → Exec Office (Unit {0})
  emit_step step correlation_id = do
    count "cavi_erp_writes_total" 1 (("stage", stage_of step.subject) ∷ [])
    e ← new_event services step.subject step.schema_version "forge" correlation_id none step.event
    emit services "forge" e

  -- The one moment to escalate: the transition of the breaker to open.
  unfoldable pub escalate : Bool → Event → Error → Exec Office (Unit {0})
  escalate opened cause e =
      if opened
      then (do
        count "cavi_erp_breaker_opens_total" 1 []
        dead_letter services "forge" cause ("circuit breaker opened; last error: " <> message e))
      else pure tt

  -- What `_execute` does with a failure of the ERP.
  unfoldable pub on_failure :
      WriteOperation → CircuitBreaker → Event → Error → Exec Office (Unit {0})
  on_failure op b cause e = do
    count "cavi_erp_write_failures_total" 1 (("reason", "erp_error") ∷ [])
    now ← monotonic services
    let (opened, b') = record_failure now b
    set_breaker op b'
    escalate opened cause e

  -- What `_execute` does once the ERP has confirmed.
  unfoldable pub on_success :
      WriteOperation → CircuitBreaker → ℕ → WriteStep → Option String → Exec Office (Unit {0})
  on_success op b started step correlation_id = do
    set_breaker op (record_success b)
    finished ← monotonic services
    count "cavi_erp_write_seconds_total" (finished - started) []
    drop_pending op.write_id
    set_completed step.op.write_id step.op
    emit_step step correlation_id

  unfoldable pub on_outcome :
      WriteOperation
      → CircuitBreaker
      → ℕ
      → Event
      → Option String
      → Result WriteStep
      → Exec Office (Unit {0})
  on_outcome op b started cause correlation_id (ok step) =
      on_success op b started step correlation_id
  on_outcome op b started cause correlation_id (err e) =
      if is_erp_error e then on_failure op b cause e else raise e

  -- `_execute` behind the breaker's check.
  unfoldable pub on_verdict :
      WriteOperation
      → CircuitBreaker
      → Event
      → Option String
      → Result (Unit {0})
      → Exec Office (Unit {0})
  on_verdict op b cause correlation_id (err refused) = do
    count "cavi_erp_write_failures_total" 1 (("reason", "breaker_open") ∷ [])
    dead_letter services "forge" cause (message refused)
  on_verdict op b cause correlation_id (ok _) = do
    started ← monotonic services
    outcome ← attempt (execute services erp op)
    on_outcome op b started cause correlation_id outcome

  -- `_execute`
  unfoldable pub run_execute : WriteOperation → Event → Option String → Exec Office (Unit {0})
  run_execute op cause correlation_id = do
    b ← breaker_for op
    now ← monotonic services
    let (verdict, b') = check now b
    set_breaker op b'
    on_verdict op b' cause correlation_id verdict

  -- A dry-run failure is quarantined; any other exception passes.
  unfoldable pub record_proposal : Event → Result WriteStep → Exec Office (Unit {0})
  record_proposal e (ok step) = do
    set_pending step.op.write_id step.op
    emit_step step e.correlation_id
  record_proposal e (err reason) =
      if is_erp_error reason
      then dead_letter services "forge" e ("dry-run failed: " <> message reason)
      else raise reason

  -- `_propose`
  unfoldable pub propose : Event → Exec Office (Unit {0})
  propose e = do
    p ← lift (proposal e.payload)
    outcome ← attempt (request services erp p)
    record_proposal e outcome

  -- `_reverse` once the original is looked up.
  unfoldable pub reverse_found : Event → String → Option WriteOperation → Exec Office (Unit {0})
  reverse_found e id none =
      dead_letter services "forge" e ("reversal target " <> id <> " is not a completed write")
  reverse_found e id (some original) = do
    operation ← read_text "operation" e.payload
    payload ← lift (Error.◌>>=◌ (item "payload" e.payload) object)
    requested_by ← read_text "requested_by" e.payload
    asserted ← lift (text_or_null (get "diff_preview" e.payload))
    outcome ←
        attempt
          (request_reversal services erp original operation payload requested_by asserted none)
    record_proposal e outcome

  -- `_reverse`
  unfoldable pub reverse : Event → Exec Office (Unit {0})
  reverse e = do
    id ← read_text "write_id" e.payload
    found ← gets (λ s. get id s.own.completed_writes)
    reverse_found e id found

  -- `event.payload.get("reason", "rejected")`: the default for a missing key only, not for a null.
  abbrev pub or_rejected : Option Value → Option Value
  or_rejected none = some (str "rejected")
  or_rejected (some reason) = some reason

  -- The two branches of `_decide`, inside its `try`.
  unfoldable pub decide_approve : String → WriteOperation → Event → Exec Office (Unit {0})
  decide_approve id op e = if is_approved op.state then run_execute op e e.correlation_id else (do
    reviewer ← read_text "reviewer" e.payload
    step ← approve services erp op reviewer
    set_pending id step.op
    emit_step step e.correlation_id
    run_execute step.op e e.correlation_id)

  unfoldable pub decide_reject : String → WriteOperation → Event → Exec Office (Unit {0})
  decide_reject id op e = do
    reviewer ← read_text "reviewer" e.payload
    reason ← lift (text_or_null (or_rejected (get "reason" e.payload)))
    step ← reject services erp op reviewer reason
    drop_pending id
    emit_step step e.correlation_id

  abbrev pub on_illegal : Event → Error → Exec Office (Unit {0})
  on_illegal e (Error.invalid_transition m) =
      dead_letter services "forge" e ("illegal decision: " <> m)
  on_illegal e other = raise other

  unfoldable pub decide_by : Value → String → WriteOperation → Event → Exec Office (Unit {0})
  decide_by decision id op e =
      if is_approval decision then decide_approve id op e else decide_reject id op e

  unfoldable pub decide_found : String → Event → Option WriteOperation → Exec Office (Unit {0})
  decide_found id e none = pure tt
  decide_found id e (some op) =
      handle (do decision ← lift (item "decision" e.payload); decide_by decision id op e)
        (on_illegal e)

  -- `_decide`: a decision on an unknown write is logged and ignored.
  unfoldable pub decide : Event → Exec Office (Unit {0})
  decide e = do
    id ← read_text "write_id" e.payload
    found ← gets (λ s. get id s.own.pending)
    decide_found id e found

  -- `handle`
  unfoldable pub on_event : Event → Exec Office (Unit {0})
  on_event e =
      if e.subject == "forge.write.propose"
      then propose e
      else if e.subject == "forge.write.decision"
      then decide e
      else if e.subject == "forge.write.reverse"
      then reverse e
      else pure tt
