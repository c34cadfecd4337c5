-- ===== src/Forge/Breaker.antt =====
-- agents/forge/breaker.py: the circuit breaker of the ERP write path. The clock is read by the
-- caller and passed in, in ticks of any fixed length.
pub mod Trips
use cavi_erp.Prelude.{
  ℕ, suc, ◌+◌, ◌-◌, String, Bool, true, false, not, ◌&&◌, ◌||◌, Option, none, some, ltb, leb,
  if◌then◌else◌, ◌<>◌,
}
use cavi_erp.Prelude.Int.{show_ℕ}
use cavi_erp.Error.{Error, Result, ok, err}

pub data BreakerState : Type 0 where
  closed open_state half_open : BreakerState

pub record CircuitBreaker : Type 0 where
  pub threshold : ℕ
  pub cooldown : ℕ
  pub consecutive_failures : ℕ
  pub opened_at : Option ℕ
  pub probing : Bool

-- `CircuitBreaker.__init__`
unfoldable pub new_breaker : ℕ → ℕ → Result CircuitBreaker
new_breaker threshold cooldown =
    if ltb threshold 1
    then err (Error.value_error "failure_threshold must be >= 1")
    else ok (record {
      threshold = threshold;
      cooldown = cooldown;
      consecutive_failures = 0;
      opened_at = none;
      probing = false;
    })

-- The property `state` at the clock reading `now`, which is not before `opened_at`.
unfoldable pub breaker_state : ℕ → CircuitBreaker → BreakerState
breaker_state now b = elim b.opened_at [
  | none ↦ closed
  | some at ↦ if leb b.cooldown (now - at) then half_open else open_state
]

abbrev remaining : ℕ → CircuitBreaker → ℕ
remaining now b = elim b.opened_at [ none ↦ 0 | some at ↦ b.cooldown - (now - at) ]

refusal : ℕ → CircuitBreaker → Error
refusal now b = Error.breaker_open (
    "circuit breaker open after "
    <> show_ℕ b.consecutive_failures
    <> " consecutive ERP write failures; retry in "
    <> show_ℕ (remaining now b)
    <> "s")

unfoldable pub check_in : BreakerState → ℕ → CircuitBreaker → Result (Unit {0}) × CircuitBreaker
unfolding refusal
check_in closed now b = (ok tt, b)
check_in half_open now b =
    if not b.probing then (ok tt, record b { probing = true }) else (err (refusal now b), b)
check_in open_state now b = (err (refusal now b), b)

-- `check`
unfoldable pub check : ℕ → CircuitBreaker → Result (Unit {0}) × CircuitBreaker
unfolding check_in breaker_state
check now b = check_in (breaker_state now b) now b

-- `record_success`
unfoldable pub record_success : CircuitBreaker → CircuitBreaker
record_success b = record b { consecutive_failures = 0; opened_at = none; probing = false }

abbrev pub is_open : CircuitBreaker → Bool
is_open b = elim b.opened_at [ none ↦ false | some _ ↦ true ]

-- `record_failure`: true on the transition to open.
unfoldable pub record_failure : ℕ → CircuitBreaker → Bool × CircuitBreaker
record_failure now b =
    let counted = record b { consecutive_failures = suc b.consecutive_failures; probing = false } in
    if leb b.threshold (suc b.consecutive_failures) || is_open b
    then (not (is_open b), record counted { opened_at = some now })
    else (false, counted)
