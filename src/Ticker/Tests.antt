-- ===== src/Ticker/Tests.antt =====
-- Runs of the webhooks.
use cavi_erp.Prelude.{◌≡◌, ◌≢◌, ◌↔◌, refl, String, some, none, [], ◌∷◌, string_eq}
use cavi_erp.Dict.{get, Dict}
use cavi_erp.Json.{Object, null, str, obj, of_dict}
use cavi_erp.Error.{Error, ok, err}
use cavi_erp.Prelude.Int.{pos}
use cavi_erp.Agent.Event.{Event}
use cavi_erp.Agent.Runtime.{Agent, fresh_runtime}
use cavi_erp.Vault.Encoding.{strip}
use cavi_erp.Ticker.Webhook.{
  default_fallback, default_type_keys, Ingestor, event_type_of, first_type, type_in, new_ingestor,
}
use cavi_erp.Ticker.Webhook.Routing.{IsFirstName, event_type_of-IsFirstName}

abbrev webhook : Object
webhook = ("type", str "invoice.paid") ∷ ("event_type", str " ") ∷ []

blank_is_skipped : event_type_of default_type_keys webhook ≡ ok "invoice.paid"
unfolding event_type_of first_type type_in get strip
blank_is_skipped = refl

event_type_of-IsFirstName_example :
    (event_type_of default_type_keys webhook ≡ ok "invoice.paid")
    ↔ IsFirstName webhook "invoice.paid" default_type_keys
event_type_of-IsFirstName_example =
    event_type_of-IsFirstName default_type_keys webhook "invoice.paid"

abbrev routes : Dict String String
routes = ("invoice.paid", "ledger.query") ∷ []

abbrev ingestor : Ingestor
ingestor = record { routes = routes; fallback = default_fallback; type_keys = default_type_keys }

made : new_ingestor (some routes) default_fallback default_type_keys ≡ ok ingestor
unfolding new_ingestor
made = refl

abbrev target : String
target = "ledger.query"

solid : target ≢ ""
solid = λ e. cc

abbrev agent : Agent Ingestor
agent = record { own = ingestor; runtime = fresh_runtime }

abbrev blank : Object
blank = ("event_type", str " ") ∷ ("kind", null) ∷ []

blank_is_malformed :
    event_type_of default_type_keys blank
    ≡ err (
        Error.malformed_webhook
          "webhook has no event type in any of ('event_type', 'type', 'kind')")
unfolding event_type_of first_type type_in get strip
blank_is_malformed = refl

abbrev delivery : Event
delivery = record {
  subject = "ticker.webhook";
  schema_version = pos 1;
  source = "n8n";
  payload =
      ("tenant_id", str "t1")
      ∷ ("erp_platform", str "netsuite")
      ∷ ("raw_payload", obj (of_dict blank))
      ∷ [];
  id = "e1";
  correlation_id = none;
  tenant_id = none;
}
