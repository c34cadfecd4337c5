-- ===== src/Audit/Tests.antt =====
-- Runs of the hash chain on small logs.
use cavi_erp.Prelude.{◌≡◌, refl, String, List, [], ◌∷◌, ◌<>◌}
use cavi_erp.Json.{Object, str}
use cavi_erp.Json.Dumps.{dumps}
use cavi_erp.Fixtures.{services, digest_b, count-digest}
use cavi_erp.Audit.{verify_chain, chain_hash, genesis_hash}
use cavi_erp.Audit.Chain.{SameLog, newest_first, hashed_texts, verify_chain_binds}

abbrev log : List (Object × String)
log = (("id", str "1") ∷ [], "sha256:" <> digest_b) ∷ []

abbrev forged : List (Object × String)
forged = (("id", str "2") ∷ [], "sha256:" <> digest_b) ∷ []

log_verifies : verify_chain services log ≡ []
unfolding verify_chain chain_hash dumps
log_verifies = refl

forged_verifies : verify_chain services forged ≡ []
unfolding verify_chain chain_hash dumps
forged_verifies = refl

verify_chain_binds_example :
    SameLog services
      (newest_first log [])
      (hashed_texts genesis_hash log [])
      (newest_first forged [])
      (hashed_texts genesis_hash forged [])
verify_chain_binds_example =
    verify_chain_binds services count-digest log forged log_verifies forged_verifies refl
