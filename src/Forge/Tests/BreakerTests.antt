-- ===== src/Forge/Tests/BreakerTests.antt =====
-- Runs of the circuit breaker.
use cavi_erp.Prelude.{refl, false, [], ◌∷◌, none, some}
use cavi_erp.Forge.Breaker.{CircuitBreaker, new_breaker}
use cavi_erp.Forge.Breaker.Trips.{Trips, run, checked, failed, breaker-Trips}

abbrev fresh : CircuitBreaker
fresh = record {
  threshold = 2;
  cooldown = 300;
  consecutive_failures = 0;
  opened_at = none;
  probing = false;
}

abbrev tripped : CircuitBreaker
tripped = record fresh { consecutive_failures = 2; opened_at = some 10 }

breaker-Trips_example :
    Trips 2
      (failed 5 ∷ failed 10 ∷ checked 11 ∷ checked 310 ∷ [])
      (run (failed 5 ∷ failed 10 ∷ checked 11 ∷ checked 310 ∷ []) fresh)
unfolding new_breaker
breaker-Trips_example =
    breaker-Trips 2 300 fresh (failed 5 ∷ failed 10 ∷ checked 11 ∷ checked 310 ∷ []) refl
