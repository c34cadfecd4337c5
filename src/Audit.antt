-- ===== src/Audit.antt =====
-- shared/audit.py: the hash chain over recorded events, and its verification.
pub mod Chain
mod Tests
use cavi_erp.Prelude.{
  ℕ, ◌+◌, String, Bool, List, [], ◌∷◌, ◌<>◌, ◌==◌, string_eq, if◌then◌else◌, last_or,
}
use cavi_erp.Json.{Object, Value, obj, of_dict}
use cavi_erp.Json.Dumps.{dumps}
use cavi_erp.Services.{Services}

-- `"sha256:" + "0" * 64`
abbrev pub genesis_hash : String
genesis_hash = "sha256:0000000000000000000000000000000000000000000000000000000000000000"

abbrev pub canonical_event : Object → String
canonical_event event = dumps (obj (of_dict event))

-- A reported divergence: what the text of a problem names.
pub record Break : Type 0 where
  pub position : ℕ
  pub event : Object
  pub recorded : String
  pub expected : String

module _ (services : Services) where
  unfoldable pub chain_hash : String → Object → String
  chain_hash prev event =
      let material = prev <> "\n" <> canonical_event event in "sha256:" <> services.sha256 material

  -- The loop goes on from the recorded hash.
  pub verify_from : ℕ → String → List (Object × String) → List Break
  verify_from position prev [] = []
  verify_from position prev ((event, recorded) ∷ entries) =
      let expected = chain_hash prev event in
      let problems = verify_from (position + 1) recorded entries in
      if recorded == expected
      then problems
      else record { position = position; event = event; recorded = recorded; expected = expected }
        ∷ problems

  unfoldable pub verify_chain : List (Object × String) → List Break
  unfolding verify_from
  verify_chain entries = verify_from 0 genesis_hash entries
