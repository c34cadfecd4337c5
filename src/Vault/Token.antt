-- ===== src/Vault/Token.antt =====
-- agents/vault/vault.py: vended tokens and the header that one signs. Times and lifetimes are whole
-- seconds.
use cavi_erp.Prelude.{
  ℕ, ◌+◌, String, Bool, Option, none, some, List, [], ◌∷◌, ◌<>◌, string_eq, pair_eq, if◌then◌else◌,
  leb,
}
use cavi_erp.Dict.{Dict, get, put, merge}
use cavi_erp.Json.Dumps.{join, sort_keys}
use cavi_erp.Error.{Error, Result, ok, err, ◌>>=◌, or_raise}
use cavi_erp.Vault.Encoding.{percent, upper}
use cavi_erp.Vault.Credentials.{Credentials, CredentialStore, normalize_platform, not_found}

-- `creds[key]`
abbrev pub field_of : String → Credentials → Result String
field_of key creds = or_raise (get key creds) (Error.key_error key)

pairs : List (String × String) → List String
pairs [] = []
pairs ((k, v) ∷ l) = (percent k <> "=" <> percent v) ∷ pairs l

quoted_pairs : List (String × String) → List String
quoted_pairs [] = []
quoted_pairs ((k, v) ∷ l) = (percent k <> "=\"" <> percent v <> "\"") ∷ quoted_pairs l

-- `mac key text` is the base64 text of the HMAC-SHA256 of `text` under `key`.
module _ (mac : String → String → String) where
  -- `_oauth1a_authorization_header`
  unfoldable pub oauth_header :
      Credentials → String → String → Dict String String → String → String → Result String
  unfolding pairs quoted_pairs join sort_keys merge put
  oauth_header creds http_method url query_params nonce timestamp = do
    consumer_key ← field_of "consumer_key" creds
    token_id ← field_of "token_id" creds
    let oauth_params : Dict String String =
        ("oauth_consumer_key", consumer_key)
        ∷ ("oauth_token", token_id)
        ∷ ("oauth_signature_method", "HMAC-SHA256")
        ∷ ("oauth_timestamp", timestamp)
        ∷ ("oauth_nonce", nonce)
        ∷ ("oauth_version", "1.0")
        ∷ []
    let normalized = join "&" (pairs (sort_keys (merge query_params oauth_params)))
    let base_string = upper http_method <> "&" <> percent url <> "&" <> percent normalized
    consumer_secret ← field_of "consumer_secret" creds
    token_secret ← field_of "token_secret" creds
    let signature = mac (percent consumer_secret <> "&" <> percent token_secret) base_string
    account_id ← field_of "account_id" creds
    let realm = "realm=\"" <> percent (upper account_id) <> "\""
    let header_params = put "oauth_signature" signature oauth_params
    ok ("OAuth " <> join ", " (realm ∷ quoted_pairs (sort_keys header_params)))

-- `VendedToken`; `bound` are the credentials that its signing closure holds.
pub record VendedToken : Type 0 where
  pub tenant_id : String
  pub erp_platform : String
  pub realm : String
  pub consumer_key : String
  pub token_id : String
  pub scopes : List String
  pub issued_at : ℕ
  pub expires_at : ℕ
  pub bound : Credentials

abbrev pub signature_method : String
signature_method = "HMAC-SHA256"

-- `DEFAULT_TTL_SECONDS`
abbrev pub default_ttl : ℕ
default_ttl = 300

-- `_DEFAULT_SCOPES["netsuite"]`
abbrev pub default_scopes : List String
default_scopes = "netsuite:rest:read" ∷ "netsuite:rest:write" ∷ []

abbrev or_else {ℓ} : {A : Type ℓ} → Option A → A → A
or_else none d = d
or_else (some a) d = a

-- `vend_token`
unfoldable pub vend_token :
    String → String → Option (List String) → Option ℕ → ℕ → CredentialStore → Result VendedToken
vend_token tenant_id erp_platform scopes ttl now store = do
  platform ← normalize_platform erp_platform
  creds ← or_raise (get (platform, tenant_id) store) (not_found platform tenant_id)
  account_id ← field_of "account_id" creds
  consumer_key ← field_of "consumer_key" creds
  token_id ← field_of "token_id" creds
  ok (record {
    tenant_id = tenant_id;
    erp_platform = platform;
    realm = account_id;
    consumer_key = consumer_key;
    token_id = token_id;
    scopes = or_else scopes default_scopes;
    issued_at = now;
    expires_at = now + or_else ttl default_ttl;
    bound = creds;
  })

-- `is_expired`
unfoldable pub is_expired : ℕ → VendedToken → Bool
is_expired now token = leb token.expires_at now

-- `authorization_header`, with the nonce and the timestamp that it draws.
unfoldable pub authorization_header :
    (String → String → String)
    → String
    → String
    → Dict String String
    → String
    → String
    → ℕ
    → VendedToken
    → Result String
unfolding is_expired
authorization_header mac http_method url params nonce timestamp now token =
    if is_expired now token
    then err (
        Error.token_expired
          ("vended token for " <> token.tenant_id <> "/" <> token.erp_platform <> " expired"))
    else oauth_header mac token.bound http_method url params nonce timestamp
