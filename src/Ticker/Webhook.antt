-- ===== src/Ticker/Webhook.antt =====
-- agents/ticker/webhook.py, and the handler of agents/ticker/webhook_agent.py.
pub mod Routing
pub mod Handling
use cavi_erp.Prelude.{
  String, Bool, true, false, Option, none, some, List, [], ◌∷◌, ◌<>◌, ◌==◌, string_eq, not,
  if◌then◌else◌,
}
use cavi_erp.Prelude.Int.{pos}
use cavi_erp.Dict.{Dict, get}
use cavi_erp.Json.{Value, Object, str, obj, of_dict}
use cavi_erp.Error
use cavi_erp.Error.{Error, Result, ok, err}
use cavi_erp.Exec.{Exec, pure, raise, lift, attempt, gets, ◌>>=◌, ◌>>◌}
use cavi_erp.Services.{Services}
use cavi_erp.Agent.Event.{Event, item, object}
use cavi_erp.Agent.Runtime.{Agent, now_iso, emit_new}
use cavi_erp.Vault.Encoding.{strip}

-- `DEFAULT_ROUTES`
unfoldable pub default_routes : Dict String String
default_routes =
    ("invoice.paid", "ledger.query")
    ∷ ("invoice.updated", "mapper.transform")
    ∷ ("salesorder.created", "forge.write.propose")
    ∷ []

-- `DEFAULT_FALLBACK` and `DEFAULT_TYPE_KEYS`
abbrev pub default_fallback : String
default_fallback = "ticker.unrouted"

abbrev pub default_type_keys : List String
default_type_keys = "event_type" ∷ "type" ∷ "kind" ∷ []

-- The text of a tuple of names, as `str` gives it.
quoted_after : List String → String
quoted_after [] = ")"
quoted_after (k ∷ ks) = ", '" <> k <> "'" <> quoted_after ks

names_text : List String → String
unfolding quoted_after
names_text [] = "()"
names_text (k ∷ []) = "('" <> k <> "',)"
names_text (k ∷ ks) = "('" <> k <> "'" <> quoted_after ks

-- `isinstance(value, str) and value.strip()`
unfoldable pub type_in : Option Value → Option String
type_in (some (str s)) = if strip s == "" then none else some s
type_in _ = none

-- The loop of `event_type_of` over the keys.
unfoldable pub first_type : List String → Object → Option String
unfolding type_in
first_type [] raw_payload = none
first_type (k ∷ ks) raw_payload = elim (type_in (get k raw_payload)) [
  | some s ↦ some s
  | none ↦ first_type ks raw_payload
]

unfoldable pub event_type_of : List String → Object → Result String
unfolding names_text
event_type_of keys raw_payload = elim (first_type keys raw_payload) [
  | some s ↦ ok s
  | none ↦ err (Error.malformed_webhook ("webhook has no event type in any of " <> names_text keys))
]

-- The fields of a `WebhookIngestor`.
pub record Ingestor : Type 0 where
  pub routes : Dict String String
  pub fallback : String
  pub type_keys : List String

abbrev or_default : Option (Dict String String) → Dict String String
or_default none = default_routes
or_default (some routes) = routes

-- `__init__`
unfoldable pub new_ingestor : Option (Dict String String) → String → List String → Result Ingestor
new_ingestor routes fallback type_keys =
    if fallback == ""
    then err (Error.value_error "fallback route must be a non-empty subject")
    else ok (record { routes = or_default routes; fallback = fallback; type_keys = type_keys })

-- `route_for`
unfoldable pub route_for : Ingestor → String → String
route_for ingestor event_type = elim (get event_type ingestor.routes) [
  | none ↦ ingestor.fallback
  | some subject ↦ subject
]

-- The dictionary that `ingest` returns.
unfoldable pub received_payload : Ingestor → Value → Value → Object → String → String → Object
unfolding route_for
received_payload ingestor tenant_id erp_platform raw_payload event_type received_at =
    ("tenant_id", tenant_id)
    ∷ ("erp_platform", erp_platform)
    ∷ ("event_type", str event_type)
    ∷ ("raw_payload", obj (of_dict raw_payload))
    ∷ ("received_at", str received_at)
    ∷ ("routed_to", str (route_for ingestor event_type))
    ∷ []

abbrev pub is_malformed : Error → Bool
is_malformed (Error.malformed_webhook _) = true
is_malformed _ = false

module _ (services : Services) where
  -- `ingest`, which reads the clock after it has found the event type.
  unfoldable pub ingest : Value → Value → Object → Exec (Agent Ingestor) Object
  unfolding event_type_of received_payload
  ingest tenant_id erp_platform raw_payload = do
    ingestor ← gets (λ agent. agent.own)
    event_type ← lift (event_type_of ingestor.type_keys raw_payload)
    received_at ← now_iso services
    pure (received_payload ingestor tenant_id erp_platform raw_payload event_type received_at)

  unfoldable pub on_ingested : Event → Result Object → Exec (Agent Ingestor) (Unit {0})
  on_ingested e (err reason) = if is_malformed reason then pure tt else raise reason
  on_ingested e (ok payload) =
      emit_new services "ticker" "ticker.event.received" (pos 1) e.correlation_id none payload

  -- `TickerWebhookAgent.handle`
  unfoldable pub on_event : Event → Exec (Agent Ingestor) (Unit {0})
  unfolding ingest on_ingested
  on_event e = do
    tenant_id ← lift (item "tenant_id" e.payload)
    erp_platform ← lift (item "erp_platform" e.payload)
    raw_payload ← lift (Error.◌>>=◌ (item "raw_payload" e.payload) object)
    outcome ← attempt (ingest tenant_id erp_platform raw_payload)
    on_ingested e outcome
