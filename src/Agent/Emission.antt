-- ===== src/Agent/Emission.antt =====
-- What `emit` and the dead letters put on the bus and on record.
use cavi_erp.Prelude.{
  String, ◌≡◌, ◌⊎◌, refl, true, false, Bool-cases, inl, inr, [], ◌∷◌, ◌++◌, ◌<>◌, string_eq,
  contains, last_or,
}
use cavi_erp.Dict.{put}
use cavi_erp.Json.{str}
use cavi_erp.Error.{Error, Result, ok, err, message}
use cavi_erp.Exec.{Exec, ◌>>=◌}
use cavi_erp.Services.{Services}
use cavi_erp.Agent.Event.{Event, to_envelope, from_envelope, from-to_envelope}
use cavi_erp.Agent.Registry.{validate}
use cavi_erp.Agent.Store.{EventStore, chain_envelope, record_event}
use cavi_erp.Audit.{chain_hash, genesis_hash}
use cavi_erp.Agent.Runtime.{
  Agent, emit, dispatch, dead_letter, dead_envelope, record_in_log, publish, count,
}

dead_envelope-append :
    (e : Event) (reason : String)
    → dead_envelope e reason ≡ to_envelope e ++ ("error", str reason) ∷ []
unfolding dead_envelope to_envelope put
dead_envelope-append e reason = refl

-- The event is in the log: its id was there and the log is as it was, or the event stands at its end,
-- with its id and with the hash that chains it onto the last one.
abbrev pub OnRecord : Services → Event → EventStore → EventStore → Type 0
OnRecord services e before after =
    ((contains e.id before.event_ids ≡ true) × (after ≡ before))
    ⊎ ((contains e.id before.event_ids ≡ false)
        × (after.events ≡ before.events ++ e ∷ [])
        × (after.event_ids ≡ e.id ∷ before.event_ids)
        × (after.chain_hashes
            ≡ before.chain_hashes
              ++ chain_hash services (last_or genesis_hash before.chain_hashes)
                  (chain_envelope services e)
                ∷ []))

record_event-OnRecord :
    (services : Services) (e : Event) (s : EventStore)
    → OnRecord services e s (record_event services e s)
unfolding record_event
record_event-OnRecord services e s = elim (Bool-cases (contains e.id s.event_ids)) [
  | inl old ↦ rw old (inl (refl, refl))
  | inr new ↦ rw new (inr (refl, refl, refl, refl))
]

module _ (services : Services) {Own : Type 0} (name : String) where
  -- The envelope of the event is on the bus, behind what was published, and the event is in the log.
  abbrev pub Emitted : Event → Agent Own → Agent Own → Type 0
  Emitted e before after =
      (after.bus ≡ before.bus ++ (e.subject, to_envelope e) ∷ [])
      × OnRecord services e before.store after.store

  -- How an emission may end: with the registry's refusal, or with the event emitted.
  abbrev pub Concluded : Event → Agent Own → Result (Unit {0}) × Agent Own → Type 0
  Concluded e s r =
      ((reason : Error) × (validate services e.subject e.schema_version e.payload ≡ err reason)
        × (r ≡ (err reason, s)))
      ⊎ ((validate services e.subject e.schema_version e.payload ≡ ok tt)
          × (r.0 ≡ ok tt)
          × Emitted e s r.1)

  -- An emission whose payload its schema refuses raises that refusal and changes nothing. Any other
  -- returns, and puts the envelope of the event on the bus, on the channel of its subject, after
  -- everything that was published before; and the event is in the log: if its id was there the log
  -- stays as it was, else the event is appended, with the hash that chains it onto the last one.
  pub emit-Concluded : (e : Event) (s : Agent Own) → Concluded e s (emit services name e s)
  unfolding emit record_in_log publish count ◌>>=◌
  emit-Concluded e s = checked (validate services e.subject e.schema_version e.payload) refl
    where
      checked :
          (r : Result (Unit {0}))
          → validate services e.subject e.schema_version e.payload ≡ r
          → Concluded e s (emit services name e s)
      checked (err reason) v = inl (reason, v, rw (v, emit) refl)
      checked (ok _) v =
          inr (v, rw (v, emit) refl, rw (v, emit) (refl, record_event-OnRecord services e s.store))

  -- A dead letter does not come to rest: an agent that receives one for an invalid payload reads it
  -- as the event that was refused, whatever its handler does refuses it again, and publishes the
  -- same dead letter on the channel that it came from. Its own fields stay as they are.
  pub dispatch-dead_envelope :
      (on_event : Event → Exec (Agent Own) (Unit {0})) (e received : Event) (reason : Error)
      (s : Agent Own)
      → validate services e.subject e.schema_version e.payload ≡ err reason
      → from_envelope (dead_envelope e (message reason)) ≡ ok received
      → ((dispatch services name on_event received s).1.bus
          ≡ s.bus ++ ("deadletter." <> e.subject, dead_envelope e (message reason)) ∷ [])
        × ((dispatch services name on_event received s).1.own ≡ s.own)
  unfolding dispatch dead_letter publish count ◌>>=◌
  dispatch-dead_envelope on_event e received reason s refused read =
      let same : received ≡ e = cc (
        dead_envelope-append e (message reason),
        from-to_envelope e (("error", str (message reason)) ∷ []),
      ) in
      rw same (rw (refused, dispatch) (refl, refl))
