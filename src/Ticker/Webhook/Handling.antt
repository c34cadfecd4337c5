-- ===== src/Ticker/Webhook/Handling.antt =====
-- What the agent does with a webhook.
use cavi_erp.Prelude.{◌≡◌, refl, inl, inr, String, Option-cases, string_eq}
use cavi_erp.Json.{Value, Object}
use cavi_erp.Error
use cavi_erp.Error.{Error, ok, err}
use cavi_erp.Exec.{attempt, ◌>>=◌}
use cavi_erp.Services.{Services}
use cavi_erp.Agent.Event.{Event, item, object}
use cavi_erp.Agent.Runtime.{Agent}
use cavi_erp.Ticker.Webhook.{first_type, event_type_of, Ingestor, ingest, on_ingested, on_event}
use cavi_erp.Ticker.Webhook.Routing.{IsFirstName, event_type_of-IsFirstName}

-- A webhook without an event type is dropped: the handler returns without an exception, and nothing
-- is recorded, published or counted, nor is the clock read.
pub on_event_dropped :
    (services : Services) (e : Event) (tenant_id erp_platform : Value) (raw_payload : Object)
    (agent : Agent Ingestor)
    → item "tenant_id" e.payload ≡ ok tenant_id
    → item "erp_platform" e.payload ≡ ok erp_platform
    → Error.◌>>=◌ (item "raw_payload" e.payload) object ≡ ok raw_payload
    → ((event_type : String) → ¬ IsFirstName raw_payload event_type agent.own.type_keys)
    → on_event services e agent ≡ (ok tt, agent)
unfolding on_event ingest on_ingested event_type_of attempt ◌>>=◌ first_type
on_event_dropped services e tenant_id erp_platform raw_payload agent has_tenant has_platform has_raw
      unnamed =
    elim (Option-cases (first_type agent.own.type_keys raw_payload)) [
      | inr (s, there) ↦ absurd (
          unnamed s (
            (event_type_of-IsFirstName agent.own.type_keys raw_payload s).0
              (rw (event_type_of, there) refl)))
      | inl gone ↦ rw (has_tenant, has_platform, has_raw, gone) refl
    ]
