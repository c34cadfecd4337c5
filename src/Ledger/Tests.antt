-- ===== src/Ledger/Tests.antt =====
-- Runs of the ledger and of the reconciliation.
use cavi_erp.Prelude.{
  ◌≡◌, ◌↔◌, ◌≤◌, refl, [], ◌∷◌, none, some, true, All, string_eq, eq_iff, false, ◌==◌,
  if◌then◌else◌,
}
use cavi_erp.Prelude.Int.{pos, ◌+ℤ◌}
use cavi_erp.Dict.{get}
use cavi_erp.Json.{Object, str, int, obj, arr, of_dict, of_list}
use cavi_erp.Error.{ok}
use cavi_erp.Fixtures.{services}
use cavi_erp.Agent.Event.{Event}
use cavi_erp.Agent.Runtime.{Agent, fresh_runtime, run}
use cavi_erp.Ledger.Entry.{JournalEntry, debit, credit, is_balanced, from_payload}
use cavi_erp.Ledger.Store.{Books, get_entry}
use cavi_erp.Ledger.Postgres.{Constraints, empty_tables, insert_rows}
use cavi_erp.Ledger.Postgres.Refines.{Simulates, insert_rows-Simulates}
use cavi_erp.Ledger.PostingAgent.{on_event}
use cavi_erp.Ledger.Books.{IsPosted, book_total, books_balance}
use cavi_erp.Ledger.Outcomes.{Carries, on_event_redelivered, foreign_duplicate}
use cavi_erp.Ledger.Reconcile.{Records, compare, drift_count, reconcile}
use cavi_erp.Ledger.Reconcile.Report.{InStep, IsExpected, compare-nil}
use cavi_erp.Ledger.Reconcile.Counts.{drift_count-le-checked}

abbrev posting : Object
posting =
    ("entry_id", str "e1")
    ∷ ("currency", str "EUR")
    ∷ (
      "lines",
      arr (
          of_list (
            obj (
              of_dict (
                ("account", str "1100")
                ∷ ("direction", str "debit")
                ∷ ("amount_minor", int (pos 5))
                ∷ []))
            ∷ obj (
                of_dict (
                  ("account", str "4000")
                  ∷ ("direction", str "credit")
                  ∷ ("amount_minor", int (pos 5))
                  ∷ []))
            ∷ [])),
    )
    ∷ []

abbrev entry_event : Event
entry_event = record {
  subject = "ledger.entry";
  schema_version = pos 1;
  source = "forge";
  payload = posting;
  id = "ev1";
  correlation_id = none;
  tenant_id = some "t1";
}

abbrev entry : JournalEntry
entry = record {
  entry_id = "e1";
  tenant_id = "t1";
  currency = "EUR";
  lines =
      record { account = "1100"; direction = debit; amount_minor = pos 5 }
      ∷ record { account = "4000"; direction = credit; amount_minor = pos 5 }
      ∷ [];
  memo = none;
}

abbrev empty : Agent Books
empty = record { own = []; runtime = fresh_runtime }

abbrev taken : Agent Books
taken = record { own = ("e1", record entry { tenant_id = "t2" }) ∷ []; runtime = fresh_runtime }

entry_event-Carries : Carries services entry_event "t1" entry
unfolding from_payload get
entry_event-Carries = record { tenant = refl; named = refl; parsed = refl }

entry-is_balanced : is_balanced entry ≡ true
unfolding is_balanced ◌+ℤ◌
entry-is_balanced = refl

books_balance_example :
    let books =
      (run services "ledger" (on_event services) (entry_event ∷ entry_event ∷ []) empty).1.own in
    All IsPosted books × (book_total debit books ≡ book_total credit books)
books_balance_example = books_balance services (entry_event ∷ entry_event ∷ []) fresh_runtime

on_event_redelivered_example :
    on_event services entry_event (on_event services entry_event empty).1
    ≡ (ok tt, (on_event services entry_event empty).1)
on_event_redelivered_example =
    on_event_redelivered services entry_event "t1" entry empty entry_event-Carries entry-is_balanced

foreign_duplicate_example :
    (on_event services entry_event taken ≡ (ok tt, taken)) × (get_entry "t1" "e1" taken.own ≡ none)
unfolding get
foreign_duplicate_example =
    foreign_duplicate services entry_event "t1" entry taken (record entry { tenant_id = "t2" })
      entry_event-Carries entry-is_balanced refl (λ same. cc ((eq_iff "t2" "t1").1 same))

abbrev expected : Records
expected = ("cavi-1", ("memo", str "x") ∷ []) ∷ ("cavi-2", []) ∷ []

abbrev actual : Records
actual = ("cavi-1", ("memo", str "y") ∷ ("owner", str "bo") ∷ []) ∷ ("cavi-3", []) ∷ []

compare-nil_example :
    (compare expected actual ≡ [])
    ↔ (All (InStep actual) expected × All (IsExpected expected) actual)
compare-nil_example = compare-nil expected actual

drift_count-le-checked_example :
    let r = reconcile "t1" "netsuite" "salesOrder" expected actual "run" "now" in
    drift_count r ≤ r.checked
drift_count-le-checked_example =
    drift_count-le-checked "t1" "netsuite" "salesOrder" "run" "now" expected actual
      (refl, (refl, tt)) (refl, (refl, tt))

-- A database that refuses a line of the account 9999.
abbrev constraints : Constraints
constraints = record {
  head = λ h. none;
  line = λ r. if r.line.account == "9999" then some "check constraint" else none;
  uuid = λ id. if id == "E1" then some "e1" else some id;
}

abbrev foreign : JournalEntry
foreign = record entry { tenant_id = "t2" }

inserted_once :
    (insert_rows constraints foreign (insert_rows constraints entry empty_tables).1).0 ≡ ok false
unfolding insert_rows
inserted_once = refl

insert_rows-Simulates_example : Simulates constraints (entry ∷ foreign ∷ entry ∷ []) empty_tables []
insert_rows-Simulates_example =
    insert_rows-Simulates constraints (entry ∷ foreign ∷ entry ∷ []) (refl, (refl, (refl, tt)))

-- Another spelling of an id that is taken is a duplicate in the tables.
inserted_by_another_spelling :
    (insert_rows constraints
      (record entry { entry_id = "E1" })
      (insert_rows constraints entry empty_tables).1).0
    ≡ ok false
unfolding insert_rows
inserted_by_another_spelling = refl
