-- ===== src/Auth/Tests.antt =====
-- Runs of the secret comparison.
use cavi_erp.Prelude.{◌≡◌, refl, some, false}
use cavi_erp.Auth.{verify_shared_secret}

empty_secret_refuses : verify_shared_secret (some "") "" ≡ false
unfolding verify_shared_secret
empty_secret_refuses = refl
