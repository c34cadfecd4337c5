-- ===== src/Agent/Store/Postgres/Verified.antt =====
-- An export of the log verifies, and it has every event that was recorded.
use cavi_erp.Prelude.{
  ◌≡◌, refl, ap, String, true, ◌||◌, ◌==◌, Bool-cases, inl, inr, some, List, [], ◌∷◌, ◌++◌,
  string_eq, if◌then◌else◌, contains, last_or, All, arith, beq_refl,
}
use cavi_erp.Dict.{put}
use cavi_erp.Services.{Services}
use cavi_erp.Audit.{chain_hash, genesis_hash}
use cavi_erp.Audit.Chain.{Links, verify_chain-Links}
use cavi_erp.Agent.Event.{Event, to_envelope}
use cavi_erp.Agent.Store.{as_uuid, chain_envelope}
use cavi_erp.Agent.Store.Postgres.{
  Row, EventLog, hashes, row_ids, export_row, export, exported, verify_export, row_of, insert_row,
  record_row, empty_log, record_rows,
}

contains-row_ids-snoc :
    (k : String) (rows : List Row) (row : Row)
    → contains k (row_ids (rows ++ row ∷ [])) ≡ (k == row.id || contains k (row_ids rows))
contains-row_ids-snoc k [] row = refl
contains-row_ids-snoc k (r ∷ rows) row = ground (arith, contains-row_ids-snoc k rows row)

module _ (services : Services) where
  -- The event's id is the text that the UUID column gives back.
  abbrev pub IsCanonical : String × Event → Type 0
  IsCanonical (_, e) = as_uuid services (some e.id) ≡ some e.id

  abbrev pub HasEvent : EventLog → String × Event → Type 0
  HasEvent log (_, e) = contains e.id (row_ids log.rows) ≡ true

  abbrev Verified : EventLog → Type 0
  Verified log = Links services genesis_hash (exported (export log.rows))

  Links-export_snoc :
      (prev : String) (rows : List Row) (row : Row)
      → Links services prev (exported (export rows))
      → row.chain_hash ≡ chain_hash services (last_or prev (hashes rows)) (export_row row).event
      → Links services prev (exported (export (rows ++ row ∷ [])))
  unfolding export_row
  Links-export_snoc prev [] row links new = (new, tt)
  Links-export_snoc prev (r ∷ rows) row (link, links) new =
      (link, Links-export_snoc r.chain_hash rows row links new)

  abbrev new_row : String × Event → EventLog → Row
  new_row (created_at, e) log =
      row_of services e e.id (last_or genesis_hash (hashes log.rows)) created_at log.next_seq

  abbrev after : String × Event → EventLog → EventLog
  after (created_at, e) log = (record_row services created_at e log).1

  -- The rows after an event with a canonical id: as they were, or with its row at the end.
  rows-after :
      (e : String × Event) (log : EventLog)
      → IsCanonical e
      → (after e log).rows
        ≡ (if contains e.1.id (row_ids log.rows) then log.rows else log.rows ++ new_row e log ∷ [])
  unfolding record_row
  rows-after (created_at, e) log canonical =
      ap (λ id. (insert_row services created_at e id log).1.rows) canonical

  after-Verified :
      (e : String × Event) (log : EventLog) → IsCanonical e → Verified log → Verified (after e log)
  unfolding export_row chain_envelope to_envelope put
  after-Verified e log canonical links = elim (Bool-cases (contains e.1.id (row_ids log.rows))) [
    | inl old ↦ rw (rows-after e log canonical, old) links
    | inr new ↦
        rw (rows-after e log canonical, new)
          (Links-export_snoc genesis_hash log.rows (new_row e log) links refl)
  ]

  after-HasEvent_self :
      (e : String × Event) (log : EventLog) → IsCanonical e → HasEvent (after e log) e
  after-HasEvent_self e log canonical = elim (Bool-cases (contains e.1.id (row_ids log.rows))) [
    | inl old ↦ rw (rows-after e log canonical, old) old
    | inr new ↦
        rw (rows-after e log canonical, new)
          (ground (arith, contains-row_ids-snoc e.1.id log.rows (new_row e log), beq_refl e.1.id))
  ]

  after-HasEvent :
      (e d : String × Event) (log : EventLog)
      → IsCanonical e
      → HasEvent log d
      → HasEvent (after e log) d
  after-HasEvent e d log canonical there = elim (Bool-cases (contains e.1.id (row_ids log.rows))) [
    | inl old ↦ rw (rows-after e log canonical, old) there
    | inr new ↦
        rw (rows-after e log canonical, new)
          (ground (arith, contains-row_ids-snoc d.1.id log.rows (new_row e log)))
  ]

  record_rows-Verified :
      (es : List (String × Event)) (log : EventLog)
      → All IsCanonical es
      → Verified log
      → Verified (record_rows services es log)
  unfolding record_rows
  record_rows-Verified [] log canonical links = links
  record_rows-Verified (e ∷ es) log (here, rest) links =
      record_rows-Verified es (after e log) rest (after-Verified e log here links)

  record_rows-HasEvent :
      (es : List (String × Event)) (d : String × Event) (log : EventLog)
      → All IsCanonical es
      → HasEvent log d
      → HasEvent (record_rows services es log) d
  unfolding record_rows
  record_rows-HasEvent [] d log canonical there = there
  record_rows-HasEvent (e ∷ es) d log (here, rest) there =
      record_rows-HasEvent es d (after e log) rest (after-HasEvent e d log here there)

  record_rows-HasEach :
      (es : List (String × Event)) (log : EventLog)
      → All IsCanonical es
      → All (HasEvent (record_rows services es log)) es
  unfolding record_rows
  record_rows-HasEach [] log canonical = tt
  record_rows-HasEach (e ∷ es) log (here, rest) = (
    record_rows-HasEvent es e (after e log) rest (after-HasEvent_self e log here),
    record_rows-HasEach es (after e log) rest,
  )

  -- Whatever events are recorded in the database, in whatever order and however often: the export of
  -- its log verifies, and it has a row for each of them. It is assumed that the id of each event is
  -- the text that its UUID column gives back.
  pub verify_export-record_rows :
      (es : List (String × Event))
      → All IsCanonical es
      → let log = record_rows services es empty_log in
        (verify_export services (export log.rows) ≡ []) × All (HasEvent log) es
  unfolding verify_export
  verify_export-record_rows es canonical = (
    (verify_chain-Links services _).1 (record_rows-Verified es empty_log canonical tt),
    record_rows-HasEach es empty_log canonical,
  )
