-- ===== src/Migrations/Tests.antt =====
-- Runs of the migrations on a directory of three, one of which has a script for undoing it.
use cavi_erp.Prelude.{◌≡◌, refl, String, some, List, [], ◌∷◌, ◌==◌, string_eq, if◌then◌else◌}
use cavi_erp.Dict.{keys, get, pop}
use cavi_erp.Json.Dumps.{sort_keys}
use cavi_erp.Error.{Error, Result, ok, err}
use cavi_erp.Exec.{◌>>=◌}
use cavi_erp.Migrations.{
  Directory, Migration, discover_migrations, pending, Database, apply_one, apply_pending,
  rollback_last,
}
use cavi_erp.Migrations.Runs.{Ran, apply_pending-Ran}
use cavi_erp.Migrations.Progress.{Settled, apply_pending-Settled}
use cavi_erp.Migrations.Rollback.{RolledBack, rollback_last-RolledBack, rollback_last-apply_one}

-- The scripts that ran, the newest first.
abbrev Log : Type 0
Log = List String

abbrev dropped : Log → Result Log
dropped [] = err (Error.database_error "nothing to drop")
dropped (sql ∷ log) = ok log

abbrev script : String → Log → Result Log
script sql log = if sql == "drop" then dropped log else ok (sql ∷ log)

abbrev directory : Directory
directory =
    ("002_orders.sql", "orders")
    ∷ ("notes.sql", "notes")
    ∷ ("001_events.sql", "events")
    ∷ ("002_orders.down.sql", "drop")
    ∷ []

abbrev events : Migration
events = record { version = "001"; name = "events"; path = "001_events.sql" }

abbrev orders : Migration
orders = record { version = "002"; name = "orders"; path = "002_orders.sql" }

discovers : discover_migrations directory ≡ events ∷ orders ∷ []
unfolding discover_migrations sort_keys
discovers = refl

-- The order is that of the texts, not of the numbers.
ten_before_nine :
    discover_migrations (("9_b.sql", "b") ∷ ("10_a.sql", "a") ∷ [])
    ≡ record { version = "10"; name = "a"; path = "10_a.sql" }
      ∷ record { version = "9"; name = "b"; path = "9_b.sql" }
      ∷ []
unfolding discover_migrations sort_keys
ten_before_nine = refl

abbrev empty : Database Log script
empty = record { rows = []; schema = [] }

abbrev first : Database Log script
first = record { rows = ("001", "events") ∷ []; schema = "events" ∷ [] }

abbrev both : Database Log script
both = record {
  rows = ("001", "events") ∷ ("002", "orders") ∷ [];
  schema = "orders" ∷ "events" ∷ [];
}

applies_both : apply_pending Log script directory empty ≡ (ok ("001" ∷ "002" ∷ []), both)
unfolding apply_pending discover_migrations sort_keys ◌>>=◌ get
applies_both = refl

applies_orders : apply_one Log script directory orders first ≡ (ok tt, both)
unfolding apply_one ◌>>=◌ get
applies_orders = refl

rolls_back : rollback_last Log script directory both ≡ (ok (some "002"), first)
unfolding rollback_last discover_migrations sort_keys ◌>>=◌ get pop
rolls_back = refl

stuck :
    rollback_last Log script directory first
    ≡ (err (Error.system_exit "no down migration for 001; cannot roll back"), first)
unfolding rollback_last discover_migrations sort_keys ◌>>=◌ get pop
stuck = refl

apply_pending-Ran_example :
    Ran Log script directory
      (pending (discover_migrations directory) (keys empty.rows))
      empty
      (apply_pending Log script directory empty).1
      (apply_pending Log script directory empty).0
apply_pending-Ran_example = apply_pending-Ran Log script directory empty

apply_pending-Settled_example : Settled Log script directory empty ("001" ∷ "002" ∷ []) both
apply_pending-Settled_example =
    apply_pending-Settled Log script directory empty both ("001" ∷ "002" ∷ []) applies_both

rollback_last-RolledBack_example : RolledBack Log script directory both
rollback_last-RolledBack_example = rollback_last-RolledBack Log script directory both

rollback_last-apply_one_example : rollback_last Log script directory both ≡ (ok (some "002"), first)
unfolding discover_migrations sort_keys get
rollback_last-apply_one_example =
    rollback_last-apply_one Log script directory orders first both applies_orders (refl, tt)
      ("drop", refl, refl)
