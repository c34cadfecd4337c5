-- ===== src/Vault/Tests.antt =====
-- Runs of the vault.
use cavi_erp.Prelude.{
  ◌≡◌, refl, String, ◌<>◌, none, some, [], ◌∷◌, string_eq, pair_eq, if◌then◌else◌, Bool-cases, inl,
  inr, ◌==◌,
}
use cavi_erp.Dict.{get, put, pop}
use cavi_erp.Json.{Object, str}
use cavi_erp.Error.{ok, err}
use cavi_erp.Vault.Encoding.{strip, lower}
use cavi_erp.Vault.Credentials.{
  Credentials, CredentialStore, normalize_platform, platform_aliases, store_credentials,
  missing_fields, rotate_token, revoke, not_found,
}
use cavi_erp.Vault.Token.{VendedToken, vend_token, default_scopes}
use cavi_erp.Vault.Lifecycle.{same_account, vend_token-revoke, vend_token-issue}
use cavi_erp.Vault.Endpoint.{
  Handler, Draws, object, post, serve, serve_permitted, vend, vend_payload, on_body,
}
use cavi_erp.Auth.{verify_shared_secret}
use cavi_erp.Vault.Access.{IsAdmitted, post-IsAdmitted, SameButSecrets, vend_secrecy}

abbrev creds : Credentials
creds =
    ("account_id", "a1")
    ∷ ("consumer_key", "ck")
    ∷ ("consumer_secret", "cs")
    ∷ ("token_id", "ti")
    ∷ ("token_secret", "ts")
    ∷ []

abbrev store : CredentialStore
store = (("netsuite", "t1"), creds) ∷ []

ns_is_netsuite : normalize_platform "NS " ≡ ok "netsuite"
unfolding normalize_platform strip lower platform_aliases get
ns_is_netsuite = refl

netsuite_is_netsuite : normalize_platform "netsuite" ≡ ok "netsuite"
unfolding normalize_platform strip lower platform_aliases get
netsuite_is_netsuite = refl

revoked : revoke "t1" "NS " store ≡ ok []
unfolding revoke pop
revoked = rw ns_is_netsuite refl

vend_token-revoke_example : vend_token "t1" "netsuite" none none 7 [] ≡ (
    if same_account "t1" "netsuite" "t1" "netsuite"
    then err (not_found "netsuite" "t1")
    else vend_token "t1" "netsuite" none none 7 store)
vend_token-revoke_example =
    vend_token-revoke "t1" "t1" "NS " "netsuite" "netsuite" "netsuite" 7 store ns_is_netsuite
      netsuite_is_netsuite [] revoked

abbrev token : VendedToken
token = record {
  tenant_id = "t1";
  erp_platform = "netsuite";
  realm = "a1";
  consumer_key = "ck";
  token_id = "ti";
  scopes = default_scopes;
  issued_at = 7;
  expires_at = 307;
  bound = creds;
}

vended : vend_token "t1" "netsuite" none none 7 store ≡ ok token
unfolding get
vended =
    vend_token-issue "t1" "netsuite" "netsuite" 7 netsuite_is_netsuite store creds "a1" "ck" "ti"
      refl refl refl refl

abbrev rotated : CredentialStore
rotated =
    (
      ("netsuite", "t1"),
      ("account_id", "a1")
          ∷ ("consumer_key", "ck")
          ∷ ("consumer_secret", "cs")
          ∷ ("token_id", "t2")
          ∷ ("token_secret", "s2")
          ∷ [],
    )
    ∷ []

rotates : rotate_token "t1" "netsuite" "t2" "s2" store ≡ ok rotated
unfolding rotate_token get put
rotates = rw netsuite_is_netsuite refl

stores : store_credentials "t1" "netsuite" creds [] ≡ ok store
unfolding store_credentials missing_fields get put
stores = rw netsuite_is_netsuite refl

abbrev handler : Handler
handler = record { mac = λ key text. key <> text; api_secret = "s3"; tenant_allowlist = "t1" ∷ [] }

abbrev body : Object
body = ("tenant_id", str "t1") ∷ ("erp_platform", str "netsuite") ∷ []

abbrev draws : Draws
draws = record { vended_at = 7; used_at = 7; timestamp = "7"; nonce = "n" }

answers : post handler "/vend" (some "s3") (object body) draws store ≡ ok (200, vend_payload token)
unfolding post on_body serve vend verify_shared_secret get serve_permitted
answers = rw vended refl

post-IsAdmitted_example : IsAdmitted handler "/vend" (some "s3") (object body)
post-IsAdmitted_example =
    post-IsAdmitted handler "/vend" (some "s3") (object body) draws store (vend_payload token)
      answers

abbrev other_store : CredentialStore
other_store =
    (("netsuite", "t1"), put "token_secret" "another" (put "consumer_secret" "secret" creds)) ∷ []

other_store-SameButSecrets : SameButSecrets store other_store
unfolding get put
other_store-SameButSecrets key =
    elim (Bool-cases (◌==◌ {K = String × String} ("netsuite", "t1") key)) [
      | inl here ↦ rw here (refl, refl, refl)
      | inr elsewhere ↦ rw elsewhere tt
    ]

vend_secrecy_example : vend body 7 store ≡ vend body 7 other_store
vend_secrecy_example = vend_secrecy body 7 store other_store other_store-SameButSecrets
