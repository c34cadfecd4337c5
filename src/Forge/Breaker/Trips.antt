-- ===== src/Forge/Breaker/Trips.antt =====
-- When the circuit breaker lets a write through, and when it trips.
use cavi_erp.Prelude.{
  ℕ, suc, ◌+◌, ◌-◌, ◌<◌, ◌≤◌, ◌≡◌, ◌∙◌, ap, refl, ◌↔◌, Bool, true, false, some, List, [], ◌∷◌,
  arith, ltb, if◌then◌else◌, length, All,
}
use cavi_erp.Error.{Result, ok, err}
use cavi_erp.Forge.Breaker.{
  CircuitBreaker, new_breaker, check, record_success, record_failure, is_open,
}

-- The breaker is open exactly when it has counted as many failures in a row as its threshold, and
-- a probe runs only while it is open.
pub record IsSound (b : CircuitBreaker) : Type 0 where
  pub threshold_pos : 1 ≤ b.threshold
  pub tripped : (is_open b ≡ true) ↔ (b.threshold ≤ b.consecutive_failures)
  pub probes_open : b.probing ≡ true → is_open b ≡ true

pub new_breaker-IsSound :
    (threshold cooldown : ℕ) (b : CircuitBreaker)
    → new_breaker threshold cooldown ≡ ok b
    → IsSound b
unfolding new_breaker
new_breaker-IsSound threshold cooldown b e = ground arith

-- What can happen to a breaker between two events: a check, a success or a failure.
pub data Call : Type 0 where
  checked : ℕ → Call
  succeeded : Call
  failed : ℕ → Call

abbrev pub after : Call → CircuitBreaker → CircuitBreaker
after (checked now) b = (check now b).1
after succeeded b = record_success b
after (failed now) b = (record_failure now b).1

abbrev pub run : List Call → CircuitBreaker → CircuitBreaker
run [] b = b
run (c ∷ calls) b = run calls (after c b)

pub after-IsSound : (c : Call) (b : CircuitBreaker) → IsSound b → IsSound (after c b)
unfolding check record_success record_failure
after-IsSound (checked now) b h = ground arith
after-IsSound succeeded b h = ground arith
after-IsSound (failed now) b h = ground arith

run-IsSound : (calls : List Call) (b : CircuitBreaker) → IsSound b → IsSound (run calls b)
run-IsSound [] b h = h
run-IsSound (c ∷ calls) b h = run-IsSound calls (after c b) (after-IsSound c b h)

new_breaker-fields :
    (threshold cooldown : ℕ) (b : CircuitBreaker)
    → new_breaker threshold cooldown ≡ ok b
    → (b.consecutive_failures ≡ 0) × (b.threshold ≡ threshold)
unfolding new_breaker
new_breaker-fields threshold cooldown b e = ground arith

-- The failures since the last success, of which there were `n` before.
abbrev pub failures_since : ℕ → List Call → ℕ
failures_since n [] = n
failures_since n (checked now ∷ calls) = failures_since n calls
failures_since n (succeeded ∷ calls) = failures_since 0 calls
failures_since n (failed now ∷ calls) = failures_since (suc n) calls

run-counts :
    (calls : List Call) (b : CircuitBreaker)
    → ((run calls b).consecutive_failures ≡ failures_since b.consecutive_failures calls)
      × ((run calls b).threshold ≡ b.threshold)
unfolding check record_success record_failure
run-counts [] b = (refl, refl)
run-counts (checked now ∷ calls) b = ground (arith, run-counts calls (check now b).1)
run-counts (succeeded ∷ calls) b = ground (arith, run-counts calls (record_success b))
run-counts (failed now ∷ calls) b = ground (arith, run-counts calls (record_failure now b).1)

abbrev pub Trips : ℕ → List Call → CircuitBreaker → Type 0
Trips threshold calls b =
    (b.consecutive_failures ≡ failures_since 0 calls)
    × ((is_open b ≡ true) ↔ (threshold ≤ failures_since 0 calls))
    × (b.probing ≡ true → is_open b ≡ true)

-- Whatever checks, successes and failures a new breaker goes through: its counter is the number of
-- failures since the last success, or of all if there was none; it is open exactly while that number
-- reaches the threshold it was made with; and it has a probe out only while it is open.
pub breaker-Trips :
    (threshold cooldown : ℕ) (b : CircuitBreaker) (calls : List Call)
    → new_breaker threshold cooldown ≡ ok b
    → Trips threshold calls (run calls b)
breaker-Trips threshold cooldown b calls e =
    let sound = run-IsSound calls b (new_breaker-IsSound threshold cooldown b e) in
    let (counts, kept) = run-counts calls b in
    let (start, given) = new_breaker-fields threshold cooldown b e in
    let counted : (run calls b).consecutive_failures ≡ failures_since 0 calls =
      counts ∙ ap (λ n. failures_since n calls) start in
    let threshold_is : (run calls b).threshold ≡ threshold = kept ∙ given in
    (counted, rw (← counted, ← threshold_is) sound.tripped, sound.probes_open)

abbrev let_through : Result (Unit {0}) → ℕ
let_through (ok _) = 1
let_through (err _) = 0

-- How many of a row of checks, made at these times with no report in between, pass.
abbrev pub admitted : List ℕ → CircuitBreaker → ℕ
admitted [] b = 0
admitted (now ∷ times) b = let_through (check now b).0 + admitted times (check now b).1

abbrev pub WithinCooldown : CircuitBreaker → ℕ → List ℕ → Type 0
WithinCooldown b at times = All (λ now. now - at < b.cooldown) times

abbrev pub PastCooldown : CircuitBreaker → ℕ → List ℕ → Type 0
PastCooldown b at times = All (λ now. b.cooldown ≤ now - at) times

-- Before the cooldown of an open breaker has passed, no check passes, however many are made.
pub admitted_within :
    (b : CircuitBreaker) (at : ℕ) (times : List ℕ)
    → b.opened_at ≡ some at
    → WithinCooldown b at times
    → admitted times b ≡ 0
unfolding check
admitted_within b at [] o w = refl
admitted_within b at (now ∷ times) o w = ground (arith, admitted_within b at times o w.1)

admitted_probing :
    (b : CircuitBreaker) (at : ℕ) (times : List ℕ)
    → b.opened_at ≡ some at
    → b.probing ≡ true
    → admitted times b ≡ 0
unfolding check
admitted_probing b at [] o w = refl
admitted_probing b at (now ∷ times) o w = ground (arith, admitted_probing b at times o w)

-- Once the cooldown has passed, of any number of checks exactly the first passes, until a report.
pub admitted_past :
    (b : CircuitBreaker) (at now : ℕ) (times : List ℕ)
    → b.opened_at ≡ some at
    → b.probing ≡ false
    → PastCooldown b at (now ∷ times)
    → admitted (now ∷ times) b ≡ 1
unfolding check
admitted_past b at now times o q w =
    ground (arith, admitted_probing (record b { probing = true }) at times o refl)

abbrev one_if : Bool → ℕ
one_if true = 1
one_if false = 0

-- How many of a row of failures report the transition to open.
abbrev pub escalations : List ℕ → CircuitBreaker → ℕ
escalations [] b = 0
escalations (now ∷ times) b =
    one_if (record_failure now b).0 + escalations times (record_failure now b).1

escalations_open :
    (b : CircuitBreaker) (times : List ℕ) → is_open b ≡ true → escalations times b ≡ 0
unfolding record_failure
escalations_open b [] o = refl
escalations_open b (now ∷ times) o = ground (arith, escalations_open (record_failure now b).1 times)

-- A row of failures with no success in between escalates once, when it brings a closed breaker to
-- its threshold, and never again.
pub escalations_once :
    (b : CircuitBreaker) (times : List ℕ)
    → is_open b ≡ false
    → b.consecutive_failures < b.threshold
    → escalations times b
      ≡ (if ltb (b.consecutive_failures + length times) b.threshold then 0 else 1)
unfolding record_failure
escalations_once b [] o h = ground arith
escalations_once b (now ∷ times) o h = ground (
  arith,
  escalations_once (record_failure now b).1 times,
  escalations_open (record_failure now b).1 times,
)
