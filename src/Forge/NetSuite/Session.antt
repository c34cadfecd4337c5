-- ===== src/Forge/NetSuite/Session.antt =====
-- `apply` and `fetch` of agents/forge/netsuite.py.
use cavi_erp.Prelude.{
  String, not, Option, none, some, [], ◌∷◌, ◌++◌, ◌<>◌, ◌==◌, nat_eq, if◌then◌else◌, nonempty,
}
use cavi_erp.Prelude.Int.{pos, show_ℕ}
use cavi_erp.Dict.{Dict}
use cavi_erp.Json.{Value, Object, str, int, obj, of_dict}
use cavi_erp.Error.{Error, Result, ok, err}
use cavi_erp.Exec.{Exec, lift, ◌>>=◌, ◌>>◌}
use cavi_erp.Forge.Write.{WriteOperation, erp_address}
use cavi_erp.Forge.NetSuite.{
  Request, Reply, answered, http_error, Wire, Transport, Client, require_configured, record_url,
  json_of, is_success, error_of, addressable, sign_request, signature,
}

abbrev pub bearing : String → Dict String String
bearing header = ("Authorization", header) ∷ []

unfoldable pub put_request : Client → WriteOperation → String → Request
put_request c op header = record {
  verb = "PUT";
  url = record_url c op;
  headers = ("Authorization", header) ∷ ("Content-Type", "application/json") ∷ [];
  json = some op.payload;
}

unfoldable pub get_request : Client → WriteOperation → String → Request
get_request c op header = record {
  verb = "GET";
  url = record_url c op;
  headers = bearing header;
  json = none;
}

abbrev with_location : Option String → Object
with_location none = []
with_location (some location) = if nonempty location then ("location", str location) ∷ [] else []

abbrev with_record : Option Object → Object
with_record none = []
with_record (some body) = ("record", obj (of_dict body)) ∷ []

unfoldable pub send : Transport → Request → Exec Wire Reply
send transport request sent = (ok (transport sent request), sent ++ request ∷ [])

module _ (repr : Value → String) where
  -- What `apply` makes of NetSuite's reply to the upsert.
  unfoldable pub confirmation : WriteOperation → Reply → Result Object
  unfolding error_of json_of
  confirmation op (http_error reason) =
      err (Error.erp_write_error ("netsuite upsert failed in transit: " <> reason))
  confirmation op (answered response) =
      if is_success response
      then ok (
          (("external_id", str (erp_address op))
            ∷ ("status_code", int (pos response.status_code))
            ∷ [])
          ++ (with_location response.location ++ with_record (json_of response)))
      else err (
          Error.erp_write_error (
            "netsuite rejected "
            <> op.operation
            <> " "
            <> op.target_module
            <> " eid:"
            <> erp_address op
            <> ": HTTP "
            <> show_ℕ response.status_code
            <> " "
            <> error_of repr response))

  abbrev json_record : WriteOperation → Option Object → Result (Option Object)
  json_record op (some body) = ok (some body)
  json_record op none = err (
      Error.erp_write_error (
        "netsuite fetch of "
        <> op.target_module
        <> " eid:"
        <> erp_address op
        <> " returned a non-JSON body"))

  -- What `fetch` makes of NetSuite's reply.
  unfoldable pub fetched : WriteOperation → Reply → Result (Option Object)
  unfolding error_of json_of
  fetched op (http_error reason) =
      err (Error.erp_write_error ("netsuite fetch failed in transit: " <> reason))
  fetched op (answered response) =
      if response.status_code == 404
      then ok none
      else if not (is_success response)
      then err (
          Error.erp_write_error (
            "netsuite fetch of "
            <> op.target_module
            <> " eid:"
            <> erp_address op
            <> " failed: HTTP "
            <> show_ℕ response.status_code
            <> " "
            <> error_of repr response))
      else json_record op (json_of response)

  module _ (transport : Transport) (c : Client) where
    -- `_sign`
    unfoldable pub sign : WriteOperation → String → String → Exec Wire String
    unfolding send sign_request signature
    sign op verb url = do
      reply ← send transport (sign_request c op verb url)
      lift (signature repr op verb url reply)

    -- `apply`
    unfoldable pub apply : WriteOperation → Exec Wire Object
    unfolding sign send put_request confirmation addressable require_configured
    apply op = do
      lift (require_configured c)
      lift (addressable repr op op.target_external_id)
      header ← sign op "PUT" (record_url c op)
      reply ← send transport (put_request c op header)
      lift (confirmation op reply)

    -- `fetch`
    unfoldable pub fetch : WriteOperation → Exec Wire (Option Object)
    unfolding sign send get_request fetched require_configured
    fetch op = do
      lift (require_configured c)
      header ← sign op "GET" (record_url c op)
      reply ← send transport (get_request c op header)
      lift (fetched op reply)
