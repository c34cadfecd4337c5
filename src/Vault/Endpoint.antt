-- ===== src/Vault/Endpoint.antt =====
-- agents/vault/service.py: the HTTP endpoints over a vault. What a request draws (clock readings, the
-- nonce) comes with it.
use cavi_erp.Prelude.{
  ℕ, String, Bool, true, false, not, ◌||◌, Option, none, some, List, [], ◌∷◌, ◌==◌, string_eq,
  if◌then◌else◌, nonempty, contains,
}
use cavi_erp.Prelude.Int.{pos, show_ℤ}
use cavi_erp.Dict.{Dict, get}
use cavi_erp.Json.{Value, null, bool, int, str, arr, obj, Object, of_list, to_dict, truthy}
use cavi_erp.Error.{Error, Result, ok, err, ◌>>=◌}
use cavi_erp.Auth.{verify_shared_secret}
use cavi_erp.Vault.Credentials.{CredentialStore}
use cavi_erp.Vault.Token.{
  VendedToken, vend_token, authorization_header, is_expired, signature_method,
}

-- The status and the JSON body of a response.
abbrev pub Response : Type 0
Response = ℕ × Object

abbrev pub failure : ℕ → String → Response
failure status reason = (status, ("error", str reason) ∷ [])

-- `isinstance(value, str) and value`
abbrev pub given_text : Option Value → Option String
given_text (some (str s)) = if nonempty s then some s else none
given_text _ = none

-- The `except` clauses of `vend` and `sign`; any other exception passes.
unfoldable pub refusal : Error → Result Response
refusal (Error.credential_not_found reason) = ok (failure 404 reason)
refusal (Error.unsupported_platform reason) = ok (failure 400 reason)
refusal (Error.token_expired reason) = ok (failure 400 reason)
refusal (Error.vault_error reason) = ok (failure 500 reason)
refusal other = err other

abbrev texts : List String → List Value
texts [] = []
texts (s ∷ l) = str s ∷ texts l

unfoldable pub vend_payload : VendedToken → Object
vend_payload token =
    ("tenant_id", str token.tenant_id)
    ∷ ("erp_platform", str token.erp_platform)
    ∷ ("realm", str token.realm)
    ∷ ("consumer_key", str token.consumer_key)
    ∷ ("token_id", str token.token_id)
    ∷ ("scopes", arr (of_list (texts token.scopes)))
    ∷ ("signature_method", str signature_method)
    ∷ ("expires_at", int (pos token.expires_at))
    ∷ []

abbrev pub vended : Result VendedToken → Result Response
vended (err reason) = refusal reason
vended (ok token) = ok (200, vend_payload token)

abbrev pub vend_given : Option String → Option String → ℕ → CredentialStore → Result Response
vend_given (some tenant_id) (some erp_platform) now store =
    vended (vend_token tenant_id erp_platform none none now store)
vend_given _ _ now store = ok (failure 400 "tenant_id and erp_platform are required")

-- `VaultService.vend`
unfoldable pub vend : Object → ℕ → CredentialStore → Result Response
unfolding refusal vend_payload
vend body now store =
    vend_given (given_text (get "tenant_id" body)) (given_text (get "erp_platform" body)) now store

-- `str(value)` of a query parameter: a text, a number, a truth value or nothing.
abbrev parameter_text : Value → Result String
parameter_text (str s) = ok s
parameter_text (int n) = ok (show_ℤ n)
parameter_text (bool true) = ok "True"
parameter_text (bool false) = ok "False"
parameter_text null = ok "None"
parameter_text _ = err (Error.type_error "query parameter")

parameters : Object → Result (Dict String String)
parameters [] = ok []
parameters ((k, v) ∷ body) = do
  text ← parameter_text v
  rest ← parameters body
  ok ((k, text) ∷ rest)

-- `params or {}`, spread into the signed parameters.
abbrev query_params : Option Value → Result (Dict String String)
query_params none = ok []
query_params (some (obj fields)) = parameters (to_dict fields)
query_params (some other) =
    if truthy other then err (Error.type_error "params is not a mapping") else ok []

-- What a signature draws: the clock when the token is vended and when it is used, and the nonce.
pub record Draws : Type 0 where
  pub vended_at : ℕ
  pub used_at : ℕ
  pub timestamp : String
  pub nonce : String

abbrev signed : Result Response → Result Response
signed (err reason) = refusal reason
signed (ok response) = ok response

module _ (mac : String → String → String) where
  sign_with :
      String → String → String → String → Option Value → Draws → CredentialStore → Result Response
  sign_with tenant_id erp_platform method url params draws store = do
    token ← vend_token tenant_id erp_platform none none draws.vended_at store
    query ← if is_expired draws.used_at token then ok [] else query_params params
    header ←
        authorization_header mac method url query draws.nonce draws.timestamp draws.used_at token
    ok (200, ("authorization_header", str header) ∷ ("expires_at", int (pos token.expires_at)) ∷ [])

  abbrev sign_given :
      Option String
      → Option String
      → Option String
      → Option String
      → Option Value
      → Draws
      → CredentialStore
      → Result Response
  sign_given (some tenant_id) (some erp_platform) (some method) (some url) params draws store =
      signed (sign_with tenant_id erp_platform method url params draws store)
  sign_given _ _ _ _ params draws store =
      ok (failure 400 "tenant_id, erp_platform, method, url are required")

  -- `VaultService.sign`
  unfoldable pub sign : Object → Draws → CredentialStore → Result Response
  unfolding sign_with parameters refusal
  sign body draws store =
      sign_given (given_text (get "tenant_id" body)) (given_text (get "erp_platform" body))
        (given_text (get "method" body)) (given_text (get "url" body)) (get "params" body) draws
        store

-- What the bytes of a request body are: no JSON, an object, or another JSON value.
pub data Body : Type 0 where
  malformed : Body
  object : Object → Body
  no_object : Body

-- `body.get("tenant_id") in tenant_allowlist`: a list or an object cannot be looked up in a set.
abbrev pub permitted : List String → Option Value → Result Bool
permitted allowlist (some (str s)) = ok (contains s allowlist)
permitted allowlist (some (arr _)) = err (Error.type_error "unhashable type")
permitted allowlist (some (obj _)) = err (Error.type_error "unhashable type")
permitted allowlist _ = ok false

-- The settings of the handler, and what a request draws.
pub record Handler : Type 0 where
  pub mac : String → String → String
  pub api_secret : String
  pub tenant_allowlist : List String

abbrev pub is_empty : List String → Bool
is_empty [] = true
is_empty (_ ∷ _) = false

module _ (h : Handler) where
  unfoldable pub serve : String → Object → Draws → CredentialStore → Result Response
  serve path body draws store =
      if path == "/vend" then vend body draws.vended_at store else sign h.mac body draws store

  unfoldable pub serve_permitted :
      Bool → String → Object → Draws → CredentialStore → Result Response
  serve_permitted true path body draws store = serve path body draws store
  serve_permitted false path body draws store = ok (failure 403 "tenant not permitted")

  unfoldable pub on_body : Body → String → Draws → CredentialStore → Result Response
  on_body malformed path draws store = ok (failure 400 "invalid JSON body")
  on_body no_object path draws store = err (Error.type_error "body has no attribute get")
  on_body (object body) path draws store =
      if is_empty h.tenant_allowlist
      then serve path body draws store
      else (permitted h.tenant_allowlist (get "tenant_id" body) >>= λ allowed.
          serve_permitted allowed path body draws store)

  -- `do_POST`
  unfoldable pub post : String → Option String → Body → Draws → CredentialStore → Result Response
  post path secret body draws store =
      if not (path == "/vend" || path == "/sign")
      then ok (failure 404 "not found")
      else if not (nonempty h.api_secret)
      then ok (failure 503 "vault authentication not configured")
      else if not (verify_shared_secret secret h.api_secret)
      then ok (failure 401 "unauthorized")
      else on_body body path draws store
