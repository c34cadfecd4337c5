-- ===== src/Vault/Credentials.antt =====
-- agents/vault/vault.py: the stored credentials of the tenants, stored, rotated and revoked.
use cavi_erp.Prelude.{String, List, [], ◌∷◌, string_eq, pair_eq, if◌then◌else◌, ◌<>◌}
use cavi_erp.Dict.{Dict, get, put, pop, has_key}
use cavi_erp.Json.Dumps.{join}
use cavi_erp.Error.{Error, Result, ok, err, ◌>>=◌, or_raise}
use cavi_erp.Vault.Encoding.{strip, lower}

abbrev pub Credentials : Type 0
Credentials = Dict String String

-- `InMemoryCredentialStore._data`, by platform and tenant.
abbrev pub CredentialStore : Type 0
CredentialStore = Dict (String × String) Credentials

-- `_PLATFORM_ALIASES`
unfoldable pub platform_aliases : Dict String String
platform_aliases = ("netsuite", "netsuite") ∷ ("ns", "netsuite") ∷ ("netsuite_tba", "netsuite") ∷ []

-- `_REQUIRED_FIELDS["netsuite"]`, sorted; it is the one platform that the aliases lead to.
abbrev pub required_fields : List String
required_fields =
    "account_id" ∷ "consumer_key" ∷ "consumer_secret" ∷ "token_id" ∷ "token_secret" ∷ []

-- `_normalize_platform`
unfoldable pub normalize_platform : String → Result String
normalize_platform erp_platform =
    or_raise (get (lower (strip erp_platform)) platform_aliases)
      (Error.unsupported_platform ("unsupported ERP platform: '" <> erp_platform <> "'"))

unfoldable pub missing_fields : List String → Credentials → List String
missing_fields [] credentials = []
missing_fields (f ∷ fields) credentials =
    let rest = missing_fields fields credentials in if has_key f credentials then rest else f ∷ rest

abbrev pub complain : String → List String → Result (Unit {0})
complain platform [] = ok tt
complain platform (f ∷ fields) = err (
    Error.value_error
      (platform <> " credentials missing fields: ['" <> join "', '" (f ∷ fields) <> "']"))

-- `store_credentials`
unfoldable pub store_credentials :
    String → String → Credentials → CredentialStore → Result CredentialStore
store_credentials tenant_id erp_platform credentials store = do
  platform ← normalize_platform erp_platform
  complete ← complain platform (missing_fields required_fields credentials)
  ok (put (platform, tenant_id) credentials store)

abbrev pub not_found : String → String → Error
not_found platform tenant_id =
    Error.credential_not_found
      ("no " <> platform <> " credentials stored for tenant '" <> tenant_id <> "'")

-- `rotate_token`
unfoldable pub rotate_token :
    String → String → String → String → CredentialStore → Result CredentialStore
rotate_token tenant_id erp_platform token_id token_secret store = do
  platform ← normalize_platform erp_platform
  creds ← or_raise (get (platform, tenant_id) store) (not_found platform tenant_id)
  ok (
      put (platform, tenant_id) (put "token_secret" token_secret (put "token_id" token_id creds))
        store)

-- `revoke`
unfoldable pub revoke : String → String → CredentialStore → Result CredentialStore
revoke tenant_id erp_platform store = do
  platform ← normalize_platform erp_platform
  ok (pop (platform, tenant_id) store)
