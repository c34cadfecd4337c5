-- ===== src/Agent/Runtime.antt =====
-- agents/base/agent.py: what an agent can change (the event store, the bus, the counters), and the
-- methods `emit`, `_dispatch` and `_dead_letter`.
use cavi_erp.Prelude.{ℕ, suc, String, Option, List, [], ◌∷◌, ◌++◌, ◌<>◌, string_eq}
use cavi_erp.Prelude.Int.{ℤ}
use cavi_erp.Dict.{put}
use cavi_erp.Json.{Object, str}
use cavi_erp.Error.{ok, err, message}
use cavi_erp.Exec.{Exec, pure, lift, modify, ◌>>=◌, ◌>>◌}
use cavi_erp.Services.{Services}
use cavi_erp.Metrics
use cavi_erp.Metrics.{Metrics}
use cavi_erp.Agent.Event.{Event, to_envelope}
use cavi_erp.Agent.Store.{EventStore, record_event, record_deadletter, empty_store}
use cavi_erp.Agent.Registry.{validate}

-- The surroundings of an agent. `bus` holds what was published, in order, each with its channel.
pub record Runtime : Type 0 where
  pub store : EventStore
  pub bus : List (String × Object)
  pub metrics : Metrics
  -- how many identifiers were minted, and how often a clock was read
  pub minted : ℕ
  pub ticks : ℕ

abbrev pub fresh_runtime : Runtime
fresh_runtime = record { store = empty_store; bus = []; metrics = []; minted = 0; ticks = 0 }

-- An agent: the fields of its class, and its surroundings.
pub record Agent (Own : Type 0) : Type 0 where
  pub own : Own
  pub runtime : Runtime
  pub open runtime use *

-- `{**event.to_dict(), "error": error}`
unfoldable pub dead_envelope : Event → String → Object
unfolding put to_envelope
dead_envelope e error = put "error" (str error) (to_envelope e)

module _ {Own : Type 0} where
  abbrev pub set_own : (Own → Own) → Exec (Agent Own) (Unit {0})
  set_own f = modify (λ s. record s { own = f s.own })

  unfoldable pub count : String → ℕ → List (String × String) → Exec (Agent Own) (Unit {0})
  count name amount labels = modify (λ s. record s {
    runtime = record s.runtime { metrics = Metrics.inc name amount labels s.metrics };
  })

  unfoldable pub publish : String → Object → Exec (Agent Own) (Unit {0})
  publish channel body =
      modify (λ s. record s { runtime = record s.runtime { bus = s.bus ++ (channel, body) ∷ [] } })

module _ (services : Services) {Own : Type 0} where
  -- A fresh `str(uuid.uuid4())`.
  unfoldable pub mint : Exec (Agent Own) String
  mint s = (
    ok (services.fresh_uuid s.minted),
    record s { runtime = record s.runtime { minted = suc s.minted } },
  )

  unfoldable pub now_iso : Exec (Agent Own) String
  now_iso s = (
    ok (services.now_iso s.ticks),
    record s { runtime = record s.runtime { ticks = suc s.ticks } },
  )

  unfoldable pub monotonic : Exec (Agent Own) ℕ
  monotonic s = (
    ok (services.monotonic s.ticks),
    record s { runtime = record s.runtime { ticks = suc s.ticks } },
  )

  -- `Event(…)` without an id.
  unfoldable pub new_event :
      String → ℤ → String → Option String → Option String → Object → Exec (Agent Own) Event
  unfolding mint
  new_event subject version source correlation_id tenant_id payload = do
    id ← mint
    pure (record {
      subject = subject;
      schema_version = version;
      source = source;
      payload = payload;
      id = id;
      correlation_id = correlation_id;
      tenant_id = tenant_id;
    })

  unfoldable pub record_in_log : Event → Exec (Agent Own) (Unit {0})
  record_in_log e =
      modify
        (λ s. record s { runtime = record s.runtime { store = record_event services e s.store } })

  -- `emit` of the agent called `name`.
  unfoldable pub emit : String → Event → Exec (Agent Own) (Unit {0})
  unfolding record_in_log publish count
  emit name e = do
    lift (validate services e.subject e.schema_version e.payload)
    record_in_log e
    publish e.subject (to_envelope e)
    count "cavi_events_emitted_total" 1 (("agent", name) ∷ ("subject", e.subject) ∷ [])

  -- `self.emit(Event(…))`, with the agent's name as the source.
  unfoldable pub emit_new :
      String → String → ℤ → Option String → Option String → Object → Exec (Agent Own) (Unit {0})
  emit_new name subject version correlation_id tenant_id payload = do
    e ← new_event subject version name correlation_id tenant_id payload
    emit name e

  -- `_dead_letter`: an invalid envelope is logged at error level, and published all the same.
  unfoldable pub dead_letter : String → Event → String → Exec (Agent Own) (Unit {0})
  unfolding publish count dead_envelope
  dead_letter name e error = do
    modify (λ s. record s {
      runtime = record s.runtime { store = record_deadletter (dead_envelope e error) s.store };
    })
    publish ("deadletter." <> e.subject) (dead_envelope e error)
    count "cavi_deadletters_total" 1 (("agent", name) ∷ ("subject", e.subject) ∷ [])

  -- `_dispatch`, whose `handle` is that of the agent's class.
  unfoldable pub dispatch :
      String → (Event → Exec (Agent Own) (Unit {0})) → Event → Exec (Agent Own) (Unit {0})
  unfolding dead_letter count
  dispatch name on_event e = elim (validate services e.subject e.schema_version e.payload) [
    | err reason ↦ dead_letter name e (message reason)
    | ok _ ↦
        count "cavi_events_dispatched_total" 1 (("agent", name) ∷ ("subject", e.subject) ∷ [])
        >> on_event e
  ]

  -- The loop of `run`, over the events that the bus delivers; an exception that `handle` lets
  -- through ends it.
  unfoldable pub run :
      String → (Event → Exec (Agent Own) (Unit {0})) → List Event → Exec (Agent Own) (Unit {0})
  run name on_event [] = pure tt
  run name on_event (e ∷ es) = dispatch name on_event e >> run name on_event es
