-- ===== src/Forge/WriteAgent/Gate/Execute.antt =====
-- Executing a write keeps the approval gate: `_execute` and what it calls.
use cavi_erp.Prelude.{ℕ, String, Bool, Option, [], ◌∷◌, ◌++◌, string_eq, All-append}
use cavi_erp.Json.{Object}
use cavi_erp.Error.{Error, Result, ok, err}
use cavi_erp.Exec.Triple
use cavi_erp.Exec.Triple.{
  Triple, Keeps, Yields, keeps_rules, Keeps-bind, Keeps-handle, Keeps-attempt, Keeps-if,
  Triple-bind, Triple-lift, Triple-pure, Triple-gets, Triple-attempt, Triple-given, Triple-if,
  Keeps-lift, Keeps-pure, Keeps-raise, Keeps-state,
}
use cavi_erp.Services.{Services}
use cavi_erp.Agent.Event.{Event}
use cavi_erp.Agent.Frame.{
  Of, Keeps-count, Keeps-publish, Keeps-set_own, Keeps-mint, Keeps-now_iso, Keeps-monotonic,
  Keeps-new_event, Keeps-emit, Keeps-dead_letter, Keeps-run,
}
use cavi_erp.Forge.Breaker.{CircuitBreaker}
use cavi_erp.Forge.Write.{WriteOperation, WriteStep}
use cavi_erp.Forge.Write.Coordinator.{Erp, Office, execute, apply_write, is_erp_error, is_approved}
use cavi_erp.Forge.WriteAgent.{
  breaker_for, emit_step, escalate, on_failure, on_success, on_outcome, on_verdict, run_execute,
  set_breaker, set_pending, drop_pending, set_completed,
}
use cavi_erp.Forge.WriteAgent.Gate.State.{Fits, Cleared, IsGated, put-held, pop-held}

module _ (Decided : String → Type 0) (services : Services) (erp : Erp)
    (factory : CircuitBreaker) where
  abbrev pub Gated : Office → Type 0
  Gated = Of (IsGated Decided)

  pub Keeps-set_breaker :
      (op : WriteOperation) (b : CircuitBreaker) → Keeps Gated (set_breaker op b)
  Keeps-set_breaker op b =
      Keeps-set_own (IsGated Decided) _ (λ d g. record { held = g.held; applied = g.applied })

  pub Keeps-set_pending :
      (id : String) (op : WriteOperation) → Fits Decided id op → Keeps Gated (set_pending id op)
  Keeps-set_pending id op fits =
      Keeps-set_own (IsGated Decided) _
        (λ d g. record { held = put-held Decided d id op g fits; applied = g.applied })

  pub Keeps-drop_pending : (id : String) → Keeps Gated (drop_pending id)
  Keeps-drop_pending id =
      Keeps-set_own (IsGated Decided) _
        (λ d g. record { held = pop-held Decided d id g; applied = g.applied })

  pub Keeps-set_completed : (id : String) (op : WriteOperation) → Keeps Gated (set_completed id op)
  Keeps-set_completed id op =
      Keeps-set_own (IsGated Decided) _ (λ d g. record { held = g.held; applied = g.applied })

  pub Keeps-apply_write :
      (op : WriteOperation) → Cleared Decided op → Keeps Gated (apply_write services erp op)
  unfolding apply_write
  Keeps-apply_write op cleared = record { at = λ s g. kept (erp.apply s.own.calls op) s g }
    where
      kept :
          (r : Result Object) (s : Office)
          → Gated s
          → Triple.After
              (λ _. Gated)
              Gated
              (r, record s { own = record s.own { calls = s.own.calls ++ op ∷ [] } })
      kept (ok c) s g = record {
        held = g.held;
        applied = All-append (Cleared Decided) s.own.calls (op ∷ []) g.applied (cleared, tt);
      }
      kept (err e) s g = record {
        held = g.held;
        applied = All-append (Cleared Decided) s.own.calls (op ∷ []) g.applied (cleared, tt);
      }

  pub ruleset gate_rules = (
    keeps_rules, Keeps-set_breaker, Keeps-drop_pending, Keeps-set_completed, Keeps-count,
    Keeps-mint, Keeps-now_iso, Keeps-monotonic, Keeps-new_event, Keeps-emit, Keeps-dead_letter,
  )

  pub Keeps-breaker_for : (op : WriteOperation) → Keeps Gated (breaker_for services erp factory op)
  unfolding breaker_for
  Keeps-breaker_for op = search gate_rules

  pub Keeps-execute :
      (op : WriteOperation) → Cleared Decided op → Keeps Gated (execute services erp op)
  unfolding execute
  Keeps-execute op cleared =
      Keeps-if (is_approved op.state) _ _
        (Keeps-bind _ _ (Keeps-apply_write op cleared) λ _. search gate_rules) (Keeps-raise _)

  pub Keeps-emit_step :
      (step : WriteStep) (c : Option String)
      → Keeps (Of (IsGated Decided)) (emit_step services erp factory step c)
  unfolding emit_step
  Keeps-emit_step step c = search (gate_rules)

  pub Keeps-escalate :
      (opened : Bool) (cause : Event) (e : Error)
      → Keeps (Of (IsGated Decided)) (escalate services erp factory opened cause e)
  unfolding escalate
  Keeps-escalate opened cause e = search (gate_rules)

  pub Keeps-on_failure :
      (op : WriteOperation) (b : CircuitBreaker) (cause : Event) (e : Error)
      → Keeps (Of (IsGated Decided)) (on_failure services erp factory op b cause e)
  unfolding on_failure
  Keeps-on_failure op b cause e = search (gate_rules, Keeps-escalate)

  pub Keeps-on_success :
      (op : WriteOperation) (b : CircuitBreaker) (started : ℕ) (step : WriteStep)
      (c : Option String)
      → Keeps (Of (IsGated Decided)) (on_success services erp factory op b started step c)
  unfolding on_success
  Keeps-on_success op b started step c = search (gate_rules, Keeps-emit_step) depth 12

  pub Keeps-on_outcome :
      (op : WriteOperation) (b : CircuitBreaker) (started : ℕ) (cause : Event) (c : Option String)
      (r : Result WriteStep)
      → Keeps (Of (IsGated Decided)) (on_outcome services erp factory op b started cause c r)
  unfolding on_outcome
  Keeps-on_outcome op b started cause c (ok step) = Keeps-on_success op b started step c
  Keeps-on_outcome op b started cause c (err e) =
      Keeps-if (is_erp_error e) _ _ (Keeps-on_failure op b cause e) (Keeps-raise e)

  pub Keeps-checked :
      (op : WriteOperation) (b : CircuitBreaker) (cause : Event) (c : Option String)
      (verdict : Result (Unit {0}))
      → Cleared Decided op
      → Keeps Gated (on_verdict services erp factory op b cause c verdict)
  unfolding on_verdict
  Keeps-checked op b cause c (err refused) cleared = search gate_rules
  Keeps-checked op b cause c (ok _) cleared =
      Keeps-bind _ _ (Keeps-monotonic services (IsGated Decided)) λ started.
        Keeps-bind _ _ (Keeps-attempt _ (Keeps-execute op cleared))
          λ outcome. Keeps-on_outcome op b started cause c outcome

  pub Keeps-run_execute :
      (op : WriteOperation) (cause : Event) (c : Option String)
      → Cleared Decided op
      → Keeps Gated (run_execute services erp factory op cause c)
  unfolding run_execute
  Keeps-run_execute op cause c cleared = search (gate_rules, Keeps-breaker_for, Keeps-checked)
