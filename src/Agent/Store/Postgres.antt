-- ===== src/Agent/Store/Postgres.antt =====
-- shared/events.py, `PostgresEventStore`, and the export of its log by scripts/audit_export.py. The
-- table's rows stand in the order of `seq`; the payload is read back as it was written. Rows from
-- before the chain, which have no hash, are left out of both queries and of the model. An event whose
-- subject and version are not in the table schema_registry, which a foreign key refuses, is left out.
pub mod Verified
use cavi_erp.Prelude.{
  ◌≡◌, refl, ℕ, suc, String, Bool, true, false, Bool-cases, Option-cases, inl, inr, Option, none,
  some, List, [], ◌∷◌, ◌++◌, string_eq, if◌then◌else◌, contains, last_or, All,
}
use cavi_erp.Prelude.Int.{ℤ}
use cavi_erp.Dict.{put}
use cavi_erp.Json.{Object, str, int, obj, of_dict, str_or_null}
use cavi_erp.Error.{Error, Result, ok, err}
use cavi_erp.Exec.{Exec}
use cavi_erp.Services.{Services}
use cavi_erp.Audit.{Break, chain_hash, genesis_hash, verify_chain}
use cavi_erp.Audit.Chain.{Links, last_hash, verify_chain-Links}
use cavi_erp.Agent.Event.{Event, to_envelope}
use cavi_erp.Agent.Store.{as_uuid, chain_envelope}

-- A row of `event_log`, whose UUID columns give back the canonical texts.
pub record Row : Type 0 where
  pub seq : ℕ
  pub id : String
  pub subject : String
  pub schema_version : ℤ
  pub source : String
  pub correlation_id : Option String
  pub tenant_id : Option String
  pub payload : Object
  pub chain_hash : String
  pub created_at : String

pub record EventLog : Type 0 where
  pub rows : List Row
  pub next_seq : ℕ

abbrev pub empty_log : EventLog
empty_log = record { rows = []; next_seq = 1 }

abbrev pub hashes : List Row → List String
hashes [] = []
hashes (r ∷ rows) = r.chain_hash ∷ hashes rows

abbrev pub row_ids : List Row → List String
row_ids [] = []
row_ids (r ∷ rows) = r.id ∷ row_ids rows

-- A line of the export.
pub record ExportLine : Type 0 where
  pub seq : ℕ
  pub event : Object
  pub chain_hash : String
  pub recorded_at : String

-- `export_row`
unfoldable pub export_row : Row → ExportLine
export_row r = record {
  seq = r.seq;
  event =
      ("id", str r.id)
      ∷ ("subject", str r.subject)
      ∷ ("schema_version", int r.schema_version)
      ∷ ("source", str r.source)
      ∷ ("correlation_id", str_or_null r.correlation_id)
      ∷ ("tenant_id", str_or_null r.tenant_id)
      ∷ ("payload", obj (of_dict r.payload))
      ∷ [];
  chain_hash = r.chain_hash;
  recorded_at = r.created_at;
}

-- The lines of `main`.
abbrev pub export : List Row → List ExportLine
export [] = []
export (r ∷ rows) = export_row r ∷ export rows

abbrev pub exported : List ExportLine → List (Object × String)
exported [] = []
exported (line ∷ lines) = (line.event, line.chain_hash) ∷ exported lines

module _ (services : Services) where
  -- `verify_export`
  unfoldable pub verify_export : List ExportLine → List Break
  verify_export lines = verify_chain services (exported lines)

  abbrev row_of : Event → String → String → String → ℕ → Row
  row_of e id prev created_at seq = record {
    seq = seq;
    id = id;
    subject = e.subject;
    schema_version = e.schema_version;
    source = e.source;
    correlation_id = as_uuid services e.correlation_id;
    tenant_id = e.tenant_id;
    payload = e.payload;
    chain_hash = chain_hash services prev (chain_envelope services e);
    created_at = created_at;
  }

  -- The insertion: an id that is no UUID is a null in a column that has none, and an id that is there
  -- does nothing. Each takes a number of the sequence.
  unfoldable pub insert_row : String → Event → Option String → Exec EventLog (Unit {0})
  insert_row created_at e none log = (
    err (Error.database_error "null value in column \"id\""),
    record log { next_seq = suc log.next_seq },
  )
  insert_row created_at e (some id) log =
      let prev = last_or genesis_hash (hashes log.rows) in
      (
        ok tt,
        record log {
          rows =
              if contains id (row_ids log.rows)
              then log.rows
              else log.rows ++ row_of e id prev created_at log.next_seq ∷ [];
          next_seq = suc log.next_seq;
        },
      )

  -- `PostgresEventStore.record_event`, at the database's clock reading.
  unfoldable pub record_row : String → Event → Exec EventLog (Unit {0})
  unfolding insert_row
  record_row created_at e = insert_row created_at e (as_uuid services (some e.id))

  -- Events recorded one after another, whichever of them raise.
  unfoldable pub record_rows : List (String × Event) → EventLog → EventLog
  record_rows [] log = log
  record_rows ((created_at, e) ∷ es) log = record_rows es (record_row created_at e log).1
