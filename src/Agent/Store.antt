-- ===== src/Agent/Store.antt =====
-- shared/events.py: the append-only event log with its hash chain, and the dead letters.
pub mod Chain
pub mod Postgres
use cavi_erp.Prelude.{
  ℕ, String, Bool, true, false, Option, none, some, List, [], ◌∷◌, ◌++◌, ◌==◌, string_eq, nonempty,
  if◌then◌else◌, contains, last_or,
}
use cavi_erp.Dict.{get, put}
use cavi_erp.Json.{Value, Object, null, str, str_or_null}
use cavi_erp.Services.{Services}
use cavi_erp.Audit.{chain_hash, genesis_hash}
use cavi_erp.Agent.Event.{Event, to_envelope}

-- `InMemoryEventStore`
pub record EventStore : Type 0 where
  pub events : List Event
  pub chain_hashes : List String
  pub deadletters : List Object
  pub event_ids : List String
  pub deadletter_ids : List String

abbrev pub empty_store : EventStore
empty_store = record {
  events = [];
  chain_hashes = [];
  deadletters = [];
  event_ids = [];
  deadletter_ids = [];
}

-- `str(envelope.get("id"))` of an envelope that an event gave: its `id` is a text.
abbrev pub id_text : Option Value → String
id_text (some (str s)) = s
id_text _ = "None"

module _ (services : Services) where
  -- `_as_uuid` of an optional text, as the text that a UUID column gives back.
  unfoldable pub as_uuid : Option String → Option String
  as_uuid none = none
  as_uuid (some s) = if nonempty s then services.as_uuid s else none

  -- `{**event.to_dict(), "correlation_id": …}`
  unfoldable pub chain_envelope : Event → Object
  unfolding as_uuid put
  chain_envelope e = put "correlation_id" (str_or_null (as_uuid e.correlation_id)) (to_envelope e)

  -- `InMemoryEventStore.record_event`
  unfoldable pub record_event : Event → EventStore → EventStore
  record_event e s = if contains e.id s.event_ids then s else record s {
    event_ids = e.id ∷ s.event_ids;
    chain_hashes =
        s.chain_hashes
        ++ chain_hash services (last_or genesis_hash s.chain_hashes) (chain_envelope e) ∷ [];
    events = s.events ++ e ∷ [];
  }

-- `InMemoryEventStore.record_deadletter`
unfoldable pub record_deadletter : Object → EventStore → EventStore
record_deadletter envelope s =
    let key = id_text (get "id" envelope) in
    if contains key s.deadletter_ids then s else record s {
      deadletter_ids = key ∷ s.deadletter_ids;
      deadletters = s.deadletters ++ envelope ∷ [];
    }
