-- ===== src/Ledger/Postgres.antt =====
-- agents/ledger/ledger.py, `PostgresLedgerStore`: the entries as rows of two tables. What the columns'
-- types and checks refuse is a parameter; what they take, they give back as it was. The ids of entries
-- are of type UUID (schema_registry/migrations/0002_ledger.sql): the tables hold the canonical text of
-- each, to which the parameter `uuid` takes every spelling of it.
pub mod Rows
pub mod Refines
use cavi_erp.Prelude.{
  String, Bool, true, false, ◌&&◌, Option, none, some, List, [], ◌∷◌, ◌++◌, ◌==◌, string_eq,
  if◌then◌else◌,
}
use cavi_erp.Prelude.Int.{ℤ}
use cavi_erp.Error.{Error, Result, ok, err}
use cavi_erp.Exec.{Exec}
use cavi_erp.Ledger.Entry.{JournalEntry, JournalLine, total_debits}

-- A row of `journal_entry`.
pub record Head : Type 0 where
  pub entry_id : String
  pub tenant_id : String
  pub currency : String
  pub memo : Option String
  pub total_minor : ℤ

-- A row of `journal_line`; the rows stand in the order of their ids.
pub record LineRow : Type 0 where
  pub entry_id : String
  pub tenant_id : String
  pub line : JournalLine

pub record Tables : Type 0 where
  pub heads : List Head
  pub line_rows : List LineRow

abbrev pub empty_tables : Tables
empty_tables = record { heads = []; line_rows = [] }

-- `WHERE tenant_id = … AND entry_id = …`
unfoldable pub head_of : String → String → List Head → Option Head
head_of tenant_id entry_id [] = none
head_of tenant_id entry_id (h ∷ heads) =
    if h.tenant_id == tenant_id && h.entry_id == entry_id
    then some h
    else head_of tenant_id entry_id heads

unfoldable pub lines_with : String → String → List LineRow → List JournalLine
lines_with tenant_id entry_id [] = []
lines_with tenant_id entry_id (r ∷ rows) =
    let rest = lines_with tenant_id entry_id rows in
    if r.tenant_id == tenant_id && r.entry_id == entry_id then r.line ∷ rest else rest

abbrev pub entry_of : String → String → Option Head → List JournalLine → Option JournalEntry
entry_of tenant_id entry_id none lines = none
entry_of tenant_id entry_id (some h) lines = some (record {
  entry_id = entry_id;
  tenant_id = tenant_id;
  currency = h.currency;
  lines = lines;
  memo = h.memo;
})

-- The primary key of `journal_entry`.
unfoldable pub is_taken : String → List Head → Bool
is_taken entry_id [] = false
is_taken entry_id (h ∷ heads) = if h.entry_id == entry_id then true else is_taken entry_id heads

-- The row of an entry whose id has this canonical text.
abbrev pub head_row : String → JournalEntry → Head
head_row entry_id e = record {
  entry_id = entry_id;
  tenant_id = e.tenant_id;
  currency = e.currency;
  memo = e.memo;
  total_minor = total_debits e;
}

unfoldable pub line_rows_of : String → String → List JournalLine → List LineRow
line_rows_of entry_id tenant_id [] = []
line_rows_of entry_id tenant_id (l ∷ lines) =
    record { entry_id = entry_id; tenant_id = tenant_id; line = l }
    ∷ line_rows_of entry_id tenant_id lines

-- What the database refuses, with its message, and the canonical text of a UUID. A text that is no
-- UUID has none.
pub record Constraints : Type 0 where
  pub head : Head → Option String
  pub line : LineRow → Option String
  pub uuid : String → Option String

abbrev pub no_uuid : Error
no_uuid = Error.database_error "invalid input syntax for type uuid"

module _ (constraints : Constraints) where
  -- The two queries of `get`, for a canonical id; the entry has the id as it was asked for.
  abbrev selected : String → String → Tables → Option String → Result (Option JournalEntry)
  selected tenant_id entry_id tables none = err no_uuid
  selected tenant_id entry_id tables (some id) = ok (
      entry_of tenant_id entry_id (head_of tenant_id id tables.heads)
        (lines_with tenant_id id tables.line_rows))

  -- `get`
  unfoldable pub get_rows : String → String → Tables → Result (Option JournalEntry)
  unfolding head_of lines_with
  get_rows tenant_id entry_id tables =
      selected tenant_id entry_id tables (constraints.uuid entry_id)

  unfoldable pub refused_line : List LineRow → Option String
  refused_line [] = none
  refused_line (r ∷ rows) = elim (constraints.line r) [ some m ↦ some m | none ↦ refused_line rows ]

  abbrev pub written : String → Tables → JournalEntry → Option String → Result Bool × Tables
  written id tables e (some m) = (err (Error.database_error m), tables)
  written id tables e none = (
    ok true,
    record {
      heads = tables.heads ++ head_row id e ∷ [];
      line_rows = tables.line_rows ++ line_rows_of id e.tenant_id e.lines;
    },
  )

  abbrev pub checked : String → Tables → JournalEntry → Option String → Result Bool × Tables
  checked id tables e (some m) = (err (Error.database_error m), tables)
  checked id tables e none =
      if is_taken id tables.heads
      then (ok false, tables)
      else written id tables e (refused_line (line_rows_of id e.tenant_id e.lines))

  abbrev pub identified : Tables → JournalEntry → Option String → Result Bool × Tables
  identified tables e none = (err no_uuid, tables)
  identified tables e (some id) = checked id tables e (constraints.head (head_row id e))

  -- `insert_if_absent`, in one transaction: where a row is refused, none is written.
  unfoldable pub insert_rows : JournalEntry → Exec Tables Bool
  unfolding is_taken refused_line line_rows_of
  insert_rows e tables = identified tables e (constraints.uuid e.entry_id)
