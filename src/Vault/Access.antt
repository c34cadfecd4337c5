-- ===== src/Vault/Access.antt =====
-- Who gets an answer from the endpoints, and what an answer tells.
use cavi_erp.Prelude.{
  ℕ, ◌+◌, ◌≡◌, ◌≢◌, ◌⊎◌, refl, ap, String, Bool, true, false, ◌||◌, Bool-cases, inl, inr, Option,
  none, some, Option-cases, List, [], ◌∷◌, ◌==◌, string_eq, pair_eq, arith, eq_iff, nonempty,
  contains,
}
use cavi_erp.Dict.{get}
use cavi_erp.Json.{Value, Object, null, bool, int, str, arr, obj}
use cavi_erp.Error.{Result, ok, err, ◌>>=◌, or_raise}
use cavi_erp.Auth.{verify_shared_secret, verify_shared_secret_iff}
use cavi_erp.Vault.Credentials.{Credentials, CredentialStore, normalize_platform, not_found}
use cavi_erp.Vault.Token.{VendedToken, vend_token, field_of, default_scopes, default_ttl}
use cavi_erp.Vault.Endpoint.{
  Response, Handler, Body, malformed, object, no_object, Draws, post, on_body, serve_permitted,
  vend, permitted, is_empty, given_text, refusal, failure, vend_payload, vended, vend_given,
}

-- The request may be answered: it shows the configured secret, and its tenant is on the allowlist if
-- there is one.
pub record IsAdmitted (h : Handler) (path : String) (secret : Option String) (body : Body)
    : Type 0 where
  pub endpoint : (path ≡ "/vend") ⊎ (path ≡ "/sign")
  pub configured : nonempty h.api_secret ≡ true
  pub authentic : secret ≡ some h.api_secret
  pub request : Object
  pub carried : body ≡ object request
  pub tenant :
      (h.tenant_allowlist ≡ [])
      ⊎ ((tenant_id : String) × (get "tenant_id" request ≡ some (str tenant_id))
          × (contains tenant_id h.tenant_allowlist ≡ true))

module _ (h : Handler) (path : String) (secret : Option String) (body : Body) (draws : Draws)
    (store : CredentialStore) where
  refused :
      {G : Type 0} (n : ℕ) (reason : String) (payload : Object)
      → ok (failure n reason) ≡ ok (200, payload)
      → n ≢ 200
      → G
  refused n reason payload e other = absurd (other (ap status e))
    where
      status : Result Response → ℕ
      status (ok response) = response.0
      status (err _) = 0

  on_permitted :
      (allowed : Result Bool) (request : Object) (payload : Object)
      → (allowed >>= λ b. serve_permitted h b path request draws store) ≡ ok (200, payload)
      → allowed ≡ ok true
  unfolding serve_permitted
  on_permitted (err reason) request payload e = cc
  on_permitted (ok true) request payload e = refl
  on_permitted (ok false) request payload e = absurd (omega (arith, ap status e))
    where
      status : Result Response → ℕ
      status (ok response) = response.0
      status (err _) = 0

  permitted-tenant :
      (found : Option Value)
      → permitted h.tenant_allowlist found ≡ ok true
      → (tenant_id : String) × (found ≡ some (str tenant_id))
        × (contains tenant_id h.tenant_allowlist ≡ true)
  permitted-tenant none e = cc
  permitted-tenant (some null) e = cc
  permitted-tenant (some (bool b)) e = cc
  permitted-tenant (some (int n)) e = cc
  permitted-tenant (some (str s)) e = (s, refl, cc)
  permitted-tenant (some (arr xs)) e = cc
  permitted-tenant (some (obj fs)) e = cc

  answered :
      (body : Body)
      → (path ≡ "/vend") ⊎ (path ≡ "/sign")
      → (nonempty h.api_secret ≡ true) × (secret ≡ some h.api_secret)
      → (payload : Object) → on_body h body path draws store ≡ ok (200, payload)
      → IsAdmitted h path secret body
  unfolding on_body
  answered malformed there known payload e = refused 400 _ payload e (omega arith)
  answered no_object there known payload e = cc
  answered (object request) there known payload e = record {
    endpoint = there;
    configured = known.0;
    authentic = known.1;
    request = request;
    carried = refl;
    tenant = listed h.tenant_allowlist refl;
  }
    where
      listed :
          (l : List String)
          → h.tenant_allowlist ≡ l
          → (h.tenant_allowlist ≡ [])
            ⊎ ((tenant_id : String) × (get "tenant_id" request ≡ some (str tenant_id))
                × (contains tenant_id h.tenant_allowlist ≡ true))
      listed [] none' = inl none'
      listed (t ∷ ts) some' = inr (
          permitted-tenant (get "tenant_id" request) (
            on_permitted (permitted h.tenant_allowlist (get "tenant_id" request)) request payload
              (rw (ap is_empty some') at e)))

  -- A request that is answered with status 200 goes to one of the two endpoints, shows the secret
  -- that is configured, which is not empty, carries an object, and names a tenant on the allowlist
  -- unless the allowlist is empty.
  pub post-IsAdmitted :
      (payload : Object)
      → post h path secret body draws store ≡ ok (200, payload)
      → IsAdmitted h path secret body
  unfolding post
  post-IsAdmitted payload e = elim (Bool-cases (path == "/vend" || path == "/sign")) [
    | inr elsewhere ↦ refused 404 _ payload (rw elsewhere at e) (omega arith)
    | inl there ↦ elim (Bool-cases (nonempty h.api_secret)) [
      | inr open' ↦ refused 503 _ payload (rw (there, open') at e) (omega arith)
      | inl configured ↦ elim (Bool-cases (verify_shared_secret secret h.api_secret)) [
        | inr forged ↦ refused 401 _ payload (rw (there, configured, forged) at e) (omega arith)
        | inl authentic ↦
            answered body (ground (arith, there, eq_iff path "/vend", eq_iff path "/sign"))
              ((verify_shared_secret_iff secret h.api_secret).0 authentic) payload
              (rw (there, configured, authentic) at e)
      ]
    ]
  ]

-- Two stored credentials that differ at most in their secrets.
abbrev pub Alike : Option Credentials → Option Credentials → Type 0
Alike none none = Unit
Alike (some c) (some d) =
    (get "account_id" c ≡ get "account_id" d)
    × (get "consumer_key" c ≡ get "consumer_key" d)
    × (get "token_id" c ≡ get "token_id" d)
Alike _ _ = ⊥

-- Two stores that hold, for the same tenants and platforms, credentials alike.
abbrev pub SameButSecrets : CredentialStore → CredentialStore → Type 0
SameButSecrets store store' = (key : String × String) → Alike (get key store) (get key store')

module _ (tenant_id erp_platform : String) (now : ℕ) where
  abbrev issued_from : String → Option Credentials → Result VendedToken
  issued_from platform found = or_raise found (not_found platform tenant_id) >>= λ creds.
      field_of "account_id" creds >>= λ account_id.
      field_of "consumer_key" creds >>= λ consumer_key. field_of "token_id" creds >>= λ token_id.
      ok (record {
        tenant_id = tenant_id;
        erp_platform = platform;
        realm = account_id;
        consumer_key = consumer_key;
        token_id = token_id;
        scopes = default_scopes;
        issued_at = now;
        expires_at = now + default_ttl;
        bound = creds;
      })

  vended-Alike :
      (platform : String) (found found' : Option Credentials)
      → Alike found found'
      → vended (issued_from platform found) ≡ vended (issued_from platform found')
  unfolding refusal vend_payload
  vended-Alike platform none none alike = refl
  vended-Alike platform none (some d) alike = absurd alike
  vended-Alike platform (some c) none alike = absurd alike
  vended-Alike platform (some c) (some d) (account, consumer, token) =
      rw (account, consumer, token)
        (elim (Option-cases (get "account_id" d)) [
          | inl n ↦ rw n refl
          | inr (a, p) ↦ elim (Option-cases (get "consumer_key" d)) [
            | inl n ↦ rw (p, n) refl
            | inr (k, q) ↦ elim (Option-cases (get "token_id" d)) [
              | inl n ↦ rw (p, q, n) refl
              | inr (i, r) ↦ rw (p, q, r) refl
            ]
          ]
        ])

  vend_token-Alike :
      (store store' : CredentialStore)
      → SameButSecrets store store'
      → vended (vend_token tenant_id erp_platform none none now store)
        ≡ vended (vend_token tenant_id erp_platform none none now store')
  unfolding vend_token
  vend_token-Alike store store' same = named (normalize_platform erp_platform)
    where
      named :
          (platform : Result String)
          → vended (platform >>= λ p. issued_from p (get (p, tenant_id) store))
            ≡ vended (platform >>= λ p. issued_from p (get (p, tenant_id) store'))
      named (err reason) = refl
      named (ok p) = vended-Alike p _ _ (same (p, tenant_id))

-- The answer of `/vend` does not depend on the secrets: two stores that differ at most in the
-- consumer and token secrets, and in fields that are not credentials, give the same response to
-- every request.
pub vend_secrecy :
    (body : Object) (now : ℕ) (store store' : CredentialStore)
    → SameButSecrets store store'
    → vend body now store ≡ vend body now store'
unfolding vend
vend_secrecy body now store store' same =
    given (given_text (get "tenant_id" body)) (given_text (get "erp_platform" body))
  where
    given : (t p : Option String) → vend_given t p now store ≡ vend_given t p now store'
    given none p = refl
    given (some t) none = refl
    given (some t) (some p) = vend_token-Alike t p now store store' same
