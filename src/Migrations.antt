-- ===== src/Migrations.antt =====
-- scripts/migrate.py: discovering, applying and rolling back migrations. The directory is a dictionary
-- from file names to their texts; what a script does to the database's schema is a parameter.
pub mod Runs
pub mod Progress
pub mod Rollback
mod Tests
use Prim.Native.Char.{Char, code}
use Prim.Native.String
use cavi_erp.Prelude.{
  String, Bool, true, false, not, ◌&&◌, Option, none, some, List, [], ◌∷◌, ◌++◌, ◌<>◌, ◌==◌,
  string_eq, if◌then◌else◌, leb, contains, nonempty,
}
use cavi_erp.Dict.{Dict, get, has_key, pop, keys}
use cavi_erp.Json.Dumps.{sort_keys, text_le}
use cavi_erp.Error.{Error, Result, ok, err, or_raise}
use cavi_erp.Exec.{Exec, pure, raise, lift, gets, modify, ◌>>=◌, ◌>>◌}

abbrev pub Directory : Type 0
Directory = Dict String String

-- The text before a suffix.
unfoldable pub before_suffix : String → String → Option String
before_suffix suffix String.[] = if "" == suffix then some "" else none
before_suffix suffix (String.◌∷◌ c s) =
    let rest = before_suffix suffix s in
    if String.◌∷◌ c s == suffix
    then some ""
    else elim rest [ none ↦ none | some t ↦ some (String.◌∷◌ c t) ]

abbrev ends_with : String → String → Bool
ends_with suffix s = elim (before_suffix suffix s) [ none ↦ false | some _ ↦ true ]

is_digit : Char → Bool
is_digit c = leb 48 (code c) && leb (code c) 57

-- The digits at the start, and what follows.
unfoldable pub leading_digits : String → String × String
unfolding is_digit
leading_digits String.[] = ("", "")
leading_digits (String.◌∷◌ c s) =
    let (digits, rest) = leading_digits s in
    if is_digit c then (String.◌∷◌ c digits, rest) else ("", String.◌∷◌ c s)

abbrev named : String → Option String → Option (String × String)
named version none = none
named version (some name) = if nonempty version && nonempty name then some (version, name) else none

abbrev after_digits : String × String → Option (String × String)
after_digits (version, String.[]) = none
after_digits (version, String.◌∷◌ c s) =
    if String.◌∷◌ c "" == "_" then named version (before_suffix ".sql" s) else none

-- A match of `_UP`: the version and the name.
unfoldable pub up_match : String → Option (String × String)
unfolding leading_digits before_suffix
up_match file = after_digits (leading_digits file)

pub record Migration : Type 0 where
  pub version : String
  pub name : String
  pub path : String

-- `down_path`, whose file is there if `has_down`.
abbrev pub down_path : Migration → String
down_path m = m.version <> "_" <> m.name <> ".down.sql"

abbrev recognised : String → Option (String × String) → List Migration → List Migration
recognised file none rest = rest
recognised file (some (version, name)) rest =
    record { version = version; name = name; path = file } ∷ rest

discover_in : List String → List Migration
discover_in [] = []
discover_in (file ∷ files) =
    let rest = discover_in files in
    if ends_with ".sql" file && not (ends_with ".down.sql" file)
    then recognised file (up_match file) rest
    else rest

-- `discover_migrations`
unfoldable pub discover_migrations : Directory → List Migration
unfolding discover_in up_match before_suffix
discover_migrations directory = discover_in (keys (sort_keys directory))

-- `pending`
unfoldable pub pending : List Migration → List String → List Migration
pending [] applied_versions = []
pending (m ∷ ms) applied_versions =
    let rest = pending ms applied_versions in
    if contains m.version applied_versions then rest else m ∷ rest

abbrev pub versions : List Migration → List String
versions [] = []
versions (m ∷ ms) = m.version ∷ versions ms

abbrev pub duplicate_key : Error
duplicate_key = Error.database_error "duplicate key value violates unique constraint"

module _ (Schema : Type 0) (script : String → Schema → Result Schema) where
  -- The rows of `schema_migrations`, version and name, and the rest of the database.
  pub record Database : Type 0 where
    pub rows : Dict String String
    pub schema : Schema

  -- `with connection() as conn:` commits where the block returns, and rolls back where it raises.
  abbrev pub concluded : {A : Type 0} → Database → Result A × Database → Result A × Database
  concluded before (ok a, after) = (ok a, after)
  concluded before (err e, _) = (err e, before)

  unfoldable pub transaction : {A : Type 0} → Exec Database A → Exec Database A
  transaction block before = concluded before (block before)

  abbrev pub executed : Database → Result Schema → Result (Unit {0}) × Database
  executed db (ok schema) = (ok tt, record db { schema = schema })
  executed db (err e) = (err e, db)

  unfoldable pub execute : String → Exec Database (Unit {0})
  execute sql db = executed db (script sql db.schema)

  -- The version is the table's primary key.
  unfoldable pub insert_row : Migration → Exec Database (Unit {0})
  insert_row m db =
      if has_key m.version db.rows
      then (err duplicate_key, db)
      else (ok tt, record db { rows = db.rows ++ (m.version, m.name) ∷ [] })

  -- `path.read_text()`
  abbrev pub read_text : Directory → String → Result String
  read_text directory path =
      or_raise (get path directory) (Error.value_error ("No such file: " <> path))

  -- The block of a migration: its script, and its row.
  unfoldable pub apply_block : Directory → Migration → Exec Database (Unit {0})
  unfolding execute insert_row
  apply_block directory m = do sql ← lift (read_text directory m.path); execute sql; insert_row m

  unfoldable pub apply_one : Directory → Migration → Exec Database (Unit {0})
  unfolding transaction apply_block
  apply_one directory m = transaction (apply_block directory m)

  -- The loop of `apply_pending`, over the versions that were recorded before it.
  unfoldable pub apply_each : Directory → List String → List Migration → Exec Database (List String)
  unfolding apply_one
  apply_each directory done [] = pure []
  apply_each directory done (m ∷ ms) =
      let rest = apply_each directory done ms in
      if contains m.version done
      then rest
      else (do apply_one directory m; applied ← rest; pure (m.version ∷ applied))

  -- `apply_pending`
  unfoldable pub apply_pending : Directory → Exec Database (List String)
  unfolding apply_each
  apply_pending directory = do
    done ← gets (λ db. keys db.rows)
    apply_each directory done (discover_migrations directory)

  abbrev applied_of : List String → List Migration → List String
  applied_of done [] = []
  applied_of done (m ∷ ms) =
      let rest = applied_of done ms in if contains m.version done then m.version ∷ rest else rest

  abbrev paired : List String → List (String × Unit {0})
  paired [] = []
  paired (v ∷ vs) = (v, tt) ∷ paired vs

  -- The versions of the applied migrations, sorted.
  abbrev pub applied_sorted : Directory → List String → List String
  applied_sorted directory done =
      keys (sort_keys (paired (applied_of done (discover_migrations directory))))

  -- `status`
  unfoldable pub status : Directory → Exec Database (List String × List String)
  status directory = do
    done ← gets (λ db. keys db.rows)
    pure (applied_sorted directory done, versions (pending (discover_migrations directory) done))

  -- `ORDER BY version DESC LIMIT 1`
  abbrev pub greater : String × String → Option (String × String) → Option (String × String)
  greater row none = some row
  greater row (some other) = if text_le row.0 other.0 then some other else some row

  unfoldable pub last_row : Dict String String → Option (String × String)
  last_row [] = none
  last_row (row ∷ rows) = greater row (last_row rows)

  abbrev pub first_version : String → List Migration → Option Migration
  first_version version [] = none
  first_version version (m ∷ ms) = if m.version == version then some m else first_version version ms

  -- The migration of the version, with the text of its down script.
  abbrev pub down_script : Directory → Option Migration → Option String
  down_script directory none = none
  down_script directory (some m) = get (down_path m) directory

  unfoldable pub revert : String → Option String → Exec Database (Option String)
  unfolding transaction execute
  revert version none =
      raise (Error.system_exit ("no down migration for " <> version <> "; cannot roll back"))
  revert version (some sql) = do
    transaction (do execute sql; modify (λ db. record db { rows = pop version db.rows }))
    pure (some version)

  abbrev pub revert_row : Directory → Option (String × String) → Exec Database (Option String)
  revert_row directory none = pure none
  revert_row directory (some row) =
      revert row.0 (down_script directory (first_version row.0 (discover_migrations directory)))

  -- `rollback_last`
  unfoldable pub rollback_last : Directory → Exec Database (Option String)
  unfolding last_row revert
  rollback_last directory = do row ← gets (λ db. last_row db.rows); revert_row directory row
