-- ===== src/Agent/Store/Chain.antt =====
-- The event log keeps one verifiable hash for each event, whatever is recorded and however often.
use cavi_erp.Prelude.{
  String, ◌≡◌, refl, List, [], ◌∷◌, ◌++◌, ◌==◌, ◌||◌, string_eq, contains, last_or, arith,
  Bool-cases, inl, inr, length, length-append, eq_iff,
}
use cavi_erp.Json.{Object}
use cavi_erp.Services.{Services}
use cavi_erp.Audit.{chain_hash, genesis_hash, verify_chain}
use cavi_erp.Audit.Chain.{Links, verify_chain-Links}
use cavi_erp.Agent.Event.{Event}
use cavi_erp.Agent.Store.{EventStore, empty_store, chain_envelope, record_event}

module _ (services : Services) where
  -- The log as an export pairs it up: each persisted envelope with its recorded hash.
  abbrev pub entries : List Event → List String → List (Object × String)
  entries [] hs = []
  entries (e ∷ es) [] = []
  entries (e ∷ es) (h ∷ hs) = (chain_envelope services e, h) ∷ entries es hs

  abbrev pub ids : List Event → List String
  ids [] = []
  ids (e ∷ es) = e.id ∷ ids es

  pub record IsSound (s : EventStore) : Type 0 where
    pub paired : length s.events ≡ length s.chain_hashes
    pub linked : Links services genesis_hash (entries s.events s.chain_hashes)
    pub indexed : (k : String) → contains k s.event_ids ≡ contains k (ids s.events)

  Links-snoc :
      (prev : String) (es : List Event) (hs : List String) (e : Event)
      → length es ≡ length hs
      → Links services prev (entries es hs)
      → Links services prev (
          entries
            (es ++ e ∷ [])
            (hs ++ chain_hash services (last_or prev hs) (chain_envelope services e) ∷ []))
  Links-snoc prev [] [] e n links = (refl, tt)
  Links-snoc prev [] (h ∷ hs) e n links = absurd (omega arith)
  Links-snoc prev (d ∷ es) [] e n links = absurd (omega arith)
  Links-snoc prev (d ∷ es) (h ∷ hs) e n (link, links) =
      (link, Links-snoc h es hs e (omega arith) links)

  contains-ids-snoc :
      (k : String) (es : List Event) (e : Event)
      → contains k (ids (es ++ e ∷ [])) ≡ (k == e.id || contains k (ids es))
  contains-ids-snoc k [] e = refl
  contains-ids-snoc k (d ∷ es) e = ground (arith, contains-ids-snoc k es e)

  -- Recording an event keeps the log sound: one hash for each event, each hash chained onto the
  -- one before, and the set of seen ids that of the logged events.
  pub record_event-IsSound :
      (e : Event) (s : EventStore) → IsSound s → IsSound (record_event services e s)
  unfolding record_event
  record_event-IsSound e s sound = elim (Bool-cases (contains e.id s.event_ids)) [
    | inl old ↦ rw old sound
    | inr new ↦ rw new (record {
      paired =
          omega (arith, length-append {0} s.events, length-append {0} s.chain_hashes, sound.paired);
      linked = Links-snoc genesis_hash s.events s.chain_hashes e sound.paired sound.linked;
      indexed = λ k. ground (arith, contains-ids-snoc k s.events e, sound.indexed k);
    })
  ]

  -- An event whose id is in the log is not recorded again: redelivery changes nothing.
  pub record_event_again :
      (e d : Event) (s : EventStore)
      → e.id ≡ d.id
      → record_event services d (record_event services e s) ≡ record_event services e s
  unfolding record_event
  record_event_again e d s same_id = elim (Bool-cases (contains e.id s.event_ids)) [
    | inl old ↦ rw (old, ← same_id, old) refl
    | inr new ↦ rw (new, ← same_id, (eq_iff e.id e.id).1 refl) refl
  ]

  IsSound-empty : IsSound empty_store
  IsSound-empty = record { paired = refl; linked = tt; indexed = λ k. refl }

  -- Events recorded one after another.
  pub record_all : List Event → EventStore → EventStore
  record_all [] s = s
  record_all (e ∷ es) s = record_all es (record_event services e s)

  record_all-IsSound : (es : List Event) (s : EventStore) → IsSound s → IsSound (record_all es s)
  unfolding record_all
  record_all-IsSound [] s h = h
  record_all-IsSound (e ∷ es) s h = record_all-IsSound es _ (record_event-IsSound e s h)

  -- Whatever events are recorded, in whatever order and however often, the log verifies and has one
  -- hash for each of its events.
  pub record_all-verifies :
      (es : List Event)
      → let s = record_all es empty_store in
        (verify_chain services (entries s.events s.chain_hashes) ≡ [])
        × (length s.events ≡ length s.chain_hashes)
  record_all-verifies es =
      let sound = record_all-IsSound es empty_store IsSound-empty in
      ((verify_chain-Links services _).1 sound.linked, sound.paired)
