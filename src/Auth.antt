-- ===== src/Auth.antt =====
-- shared/auth.py: comparison of shared secrets and of signatures, failing closed.
mod Tests
use cavi_erp.Prelude.{
  ◌≡◌, ◌≢◌, ◌↔◌, refl, String, Bool, true, false, not, ◌||◌, Option, none, some, ◌==◌, string_eq,
  nonempty, if◌then◌else◌, arith, eq_iff,
}

-- `constant_time_compare`
unfoldable pub constant_time_compare : String → String → Bool
constant_time_compare a b = a == b

abbrev provided_matches : Option String → String → Bool
provided_matches none expected = false
provided_matches (some provided) expected =
    if not (nonempty provided) then false else constant_time_compare provided expected

-- `verify_shared_secret`
unfoldable pub verify_shared_secret : Option String → String → Bool
unfolding constant_time_compare
verify_shared_secret provided expected =
    if not (nonempty expected) then false else provided_matches provided expected

-- `mac secret body` is the hexadecimal HMAC-SHA256 of `body` under `secret`.
module _ (mac : String → String → String) where
  unfoldable pub compute_signature : String → String → String
  compute_signature body secret = mac secret body

  unfoldable pub verify_signature : String → Option String → String → Bool
  unfolding compute_signature
  verify_signature body provided_sig secret =
      if not (nonempty secret)
      then false
      else provided_matches provided_sig (compute_signature body secret)

-- A request passes exactly when a secret is configured and the request carries that very secret.
pub verify_shared_secret_iff :
    (provided : Option String) (expected : String)
    → (verify_shared_secret provided expected ≡ true)
      ↔ ((nonempty expected ≡ true) × (provided ≡ some expected))
unfolding verify_shared_secret
verify_shared_secret_iff none expected = ground arith
verify_shared_secret_iff (some provided) expected = ground (arith, eq_iff provided expected)
