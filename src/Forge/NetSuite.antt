-- ===== src/Forge/NetSuite.antt =====
-- agents/forge/netsuite.py: the client that carries writes to NetSuite. The state is what it has sent,
-- in order; the HTTP transport, which may raise `httpx.HTTPError`, is a parameter, as is `repr`.
pub mod Session
pub mod Sending
pub mod Authorized
pub mod Outcomes
pub mod Records
pub mod Retries
pub mod Reversals
use Prim.Native.Nat.{ℕ}
use Prim.Native.Char.{Char}
use Prim.Native.String
use cavi_erp.Prelude.{
  zero, suc, String, Bool, true, false, not, ◌&&◌, ◌||◌, Option, none, some, List, [], ◌∷◌, ◌++◌,
  ◌<>◌, ◌==◌, string_eq, nat_eq, if◌then◌else◌, nonempty, leb, ltb,
}
use cavi_erp.Prelude.Int.{pos, show_ℕ}
use cavi_erp.Dict.{Dict, get}
use cavi_erp.Json.{Value, Object, null, str, int, obj, of_dict, to_dict, as_obj, truthy}
use cavi_erp.Error
use cavi_erp.Error.{Error, Result, ok, err, raise_if}
use cavi_erp.Exec.{Exec, pure, lift, ◌>>=◌, ◌>>◌}
use cavi_erp.Forge.Write.{WriteOperation, erp_address}

-- What the client hands to the transport; every request has the same timeout.
pub record Request : Type 0 where
  pub verb : String
  pub url : String
  pub headers : Dict String String
  pub json : Option Object

pub record Response : Type 0 where
  pub status_code : ℕ
  -- `response.json()`, or none where it raises
  pub body : Option Value
  pub text : String
  pub location : Option String

pub data Reply : Type 0 where
  answered : Response → Reply
  http_error : String → Reply

abbrev pub Wire : Type 0
Wire = List Request

-- The answer may depend on all that was sent before.
abbrev pub Transport : Type 0
Transport = Wire → Request → Reply

-- `text.rstrip("/")`
unfoldable pub rstrip_slash : String → String
rstrip_slash String.[] = ""
rstrip_slash (String.◌∷◌ c s) =
    let rest = rstrip_slash s in let whole = String.◌∷◌ c rest in if whole == "/" then "" else whole

-- The fields of a `NetSuiteClient`.
pub record Client : Type 0 where
  pub vault_url : String
  pub vault_secret : String
  pub base : String

-- `__init__`
unfoldable pub new_client : String → String → String → Client
unfolding rstrip_slash
new_client vault_url vault_api_secret netsuite_rest_url = record {
  vault_url = rstrip_slash vault_url;
  vault_secret = vault_api_secret;
  base = rstrip_slash netsuite_rest_url;
}

-- The names of the settings that are empty.
abbrev missing_of : List (String × String) → List String
missing_of [] = []
missing_of ((name, value) ∷ rest) =
    let later = missing_of rest in if nonempty value then later else name ∷ later

unfoldable pub missing : Client → List String
missing c = missing_of (
    ("VAULT_URL", c.vault_url)
    ∷ ("CAVI_VAULT_API_SECRET", c.vault_secret)
    ∷ ("NETSUITE_REST_URL", c.base)
    ∷ [])

abbrev joined : List String → String
joined [] = ""
joined (name ∷ []) = name
joined (name ∷ names) = name <> ", " <> joined names

abbrev refuse_missing : List String → Result (Unit {0})
refuse_missing [] = ok tt
refuse_missing (name ∷ names) = err (
    Error.erp_write_error (
      "NetSuite client not configured (missing "
      <> joined (name ∷ names)
      <> "); refusing to touch the ERP"))

-- `_require_configured`
unfoldable pub require_configured : Client → Result (Unit {0})
unfolding missing
require_configured c = refuse_missing (missing c)

-- `_record_url`
unfoldable pub record_url : Client → WriteOperation → String
record_url c op = c.base <> "/record/v1/" <> op.target_module <> "/eid:" <> erp_address op

-- `_json_of`
unfoldable pub json_of : Response → Option Object
json_of response = elim response.body [ none ↦ none | some v ↦ as_obj v ]

-- `text[:n]`
take : ℕ → String → String
take zero s = ""
take (suc n) String.[] = ""
take (suc n) (String.◌∷◌ c s) = String.◌∷◌ c (take n s)

abbrev or_later : Option Value → Value → Value
or_later none later = later
or_later (some v) later = if truthy v then v else later

abbrev pub is_success : Response → Bool
is_success response = leb 200 response.status_code && ltb response.status_code 300

unfoldable pub sign_request : Client → WriteOperation → String → String → Request
sign_request c op verb url = record {
  verb = "POST";
  url = c.vault_url <> "/sign";
  headers = ("X-Cavi-Vault-Secret", c.vault_secret) ∷ [];
  json = some (
      ("tenant_id", str op.tenant_id)
      ∷ ("erp_platform", str op.erp_platform)
      ∷ ("method", str verb)
      ∷ ("url", str url)
      ∷ []);
}

-- The header in Vault's answer. The transport refuses a header that is no text.
abbrev pub header_of : Option Value → Result String
header_of none = err (Error.erp_write_error "vault /sign returned no authorization_header")
header_of (some (str s)) =
    if nonempty s
    then ok s
    else err (Error.erp_write_error "vault /sign returned no authorization_header")
header_of (some v) =
    if truthy v
    then err (Error.type_error "header value must be str")
    else err (Error.erp_write_error "vault /sign returned no authorization_header")

abbrev pub header_in : Option Value → Result String
header_in none = err (Error.value_error "vault /sign returned no JSON")
header_in (some (obj fs)) = header_of (get "authorization_header" (to_dict fs))
header_in (some v) = err (Error.type_error "no attribute get")

module _ (repr : Value → String) where
  -- `str(value)`
  abbrev str_of : Value → String
  str_of (str s) = s
  str_of v = repr v

  abbrev error_in : Option Object → Response → String
  error_in none response = take 200 response.text
  error_in (some []) response = take 200 response.text
  error_in (some (entry ∷ body)) response =
      let fields = entry ∷ body in
      take 200 (
        str_of
          (or_later (get "error" fields) (or_later (get "title" fields) (obj (of_dict fields)))))

  -- `_error_of`
  unfoldable pub error_of : Response → String
  unfolding json_of take
  error_of response = error_in (json_of response) response

  -- The checks of `apply` before it sends anything.
  unfoldable pub addressable : WriteOperation → Option String → Result (Unit {0})
  addressable op target =
      if not (op.operation == "create" || op.operation == "update")
      then err (
          Error.erp_write_error (
            "unsupported NetSuite operation "
            <> repr (str op.operation)
            <> "; only create/update (external-id upsert) are implemented"))
      else if op.operation == "update"
      then elim target [
        | none ↦ err (
            Error.erp_write_error (
              "update of " <> op.target_module
              <> " refused: no target_external_id — cannot address the existing record"))
        | some _ ↦ ok tt
      ]
      else elim target [
        | none ↦ ok tt
        | some named ↦ err (
            Error.erp_write_error (
              "create of "
              <> op.target_module
              <> " refused: target_external_id "
              <> repr (str named)
              <> " set — a create addresses its own idempotency key; use operation 'update' to "
              <> "modify that record"))
      ]

  -- What `_sign` makes of the reply to its request.
  unfoldable pub signature : WriteOperation → String → String → Reply → Result String
  unfolding error_of
  signature op verb url (http_error reason) =
      err (Error.erp_write_error ("vault /sign unreachable: " <> reason))
  signature op verb url (answered response) =
      if response.status_code == 200
      then header_in response.body
      else err (
          Error.erp_write_error (
            "vault refused to sign "
            <> verb
            <> " "
            <> url
            <> " for tenant "
            <> op.tenant_id
            <> ": HTTP "
            <> show_ℕ response.status_code
            <> " "
            <> error_of response))
