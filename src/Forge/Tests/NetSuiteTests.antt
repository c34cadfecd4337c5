-- ===== src/Forge/Tests/NetSuiteTests.antt =====
-- Runs of the NetSuite client against a transport that signs and carries out everything.
use Prim.Native.Nat.{ℕ}
use cavi_erp.Prelude.{
  ◌≡◌, ◌⊎◌, refl, String, Bool, true, none, some, List, [], ◌∷◌, ◌++◌, ◌==◌, string_eq,
  if◌then◌else◌, All,
}
use cavi_erp.Prelude.Int.{pos}
use cavi_erp.Dict.{get}
use cavi_erp.Json.{Value, Object, str, int, obj, of_dict}
use cavi_erp.Error.{ok}
use cavi_erp.Exec.{◌>>=◌}
use cavi_erp.Forge.Write.{WriteOperation, completed, erp_address}
use cavi_erp.Forge.NetSuite.{
  Request, Response, answered, Wire, Transport, Client, new_client, record_url,
}
use cavi_erp.Forge.NetSuite.Session.{put_request, apply, fetch}
use cavi_erp.Forge.NetSuite.Authorized.{
  Call, applied, fetched_by, AllSigned, calls, calls-AllSigned,
}
use cavi_erp.Forge.NetSuite.Outcomes.{Succeeded, apply_confirms}
use cavi_erp.Forge.NetSuite.Records.{Written}
use cavi_erp.Forge.NetSuite.Retries.{Failed, held, retry, retry_converges}

abbrev pub client : Client
client = record { vault_url = "https://vault"; vault_secret = "s"; base = "https://erp" }

trims_slashes : new_client "https://vault//" "s" "https://erp/" ≡ client
unfolding new_client
trims_slashes = refl

abbrev pub repr : Value → String
repr v = "…"

abbrev response : ℕ → Object → Response
response status body = record {
  status_code = status;
  body = some (obj (of_dict body));
  text = "{}";
  location = none;
}

abbrev pub transport : Transport
transport sent r = answered (
    if r.verb == "POST"
    then response 200 (("authorization_header", str "OAuth x") ∷ [])
    else response 200 (("qty", int (pos 1)) ∷ []))

abbrev pub create : WriteOperation
create = record {
  write_id = "w1";
  tenant_id = "t";
  erp_platform = "netsuite";
  operation = "create";
  target_module = "salesOrder";
  payload = ("qty", int (pos 2)) ∷ [];
  requested_by = "ana";
  diff_preview = "";
  state = completed;
  reverses = none;
  target_external_id = none;
}

abbrev confirmed : Object
confirmed =
    ("external_id", str "cavi-w1")
    ∷ ("status_code", int (pos 200))
    ∷ ("record", obj (of_dict (("qty", int (pos 1)) ∷ [])))
    ∷ []

confirms : (apply repr transport client create []).0 ≡ ok confirmed
unfolding apply record_url erp_address get ◌>>=◌
confirms = refl

apply_confirms_example :
    (header : String) × (earlier : Wire) × (r : Response) × ((apply repr transport client create
        []).1
      ≡ earlier ++ put_request client create header ∷ [])
    × (transport earlier (put_request client create header) ≡ answered r)
    × Succeeded r
    × (get "external_id" confirmed ≡ some (str (erp_address create)))
    × (get "status_code" confirmed ≡ some (int (pos r.status_code)))
apply_confirms_example = apply_confirms repr transport client create [] confirmed confirms

finds : (fetch repr transport client create []).0 ≡ ok (some (("qty", int (pos 1)) ∷ []))
unfolding fetch record_url erp_address get ◌>>=◌
finds = refl

abbrev two_calls : List Call
two_calls = fetched_by create ∷ applied create ∷ []

calls-AllSigned_example : AllSigned repr transport client (calls repr transport client two_calls [])
calls-AllSigned_example = calls-AllSigned repr transport client two_calls [] tt

abbrev carries_all : Wire → Request → Bool
carries_all before r = true

retry_converges_example :
    (All
        (Failed repr transport client carries_all create [])
        (retry repr transport client carries_all create [] 2 []).0
      × (held repr transport client carries_all create []
            (retry repr transport client carries_all create [] 2 []).1
          ≡ held repr transport client carries_all create [] []))
    ⊎ Written
        (record_url client create)
        create.payload
        (held repr transport client carries_all create [] [])
        (held repr transport client carries_all create []
          (retry repr transport client carries_all create [] 2 []).1)
retry_converges_example =
    retry_converges repr transport client carries_all create [] (λ before r answer there good. refl)
      2 []

abbrev aimless : WriteOperation
aimless = record create { operation = "update"; target_external_id = some "" }
