-- ===== src/Migrations/Rollback.antt =====
-- What `rollback_last` does, and that it undoes the last migration.
use mathlib.Core.Path.{subst}
use cavi_erp.Prelude.{
  ◌≡◌, ◌≢◌, ◌⊎◌, ◌∙◌, refl, ap, String, true, Option-cases, Option, none, some, inl, inr, [], ◌∷◌,
  ◌++◌, ◌<>◌, beq_refl, string_eq, All, Any, Bool-cases, arith,
}
use cavi_erp.Dict.{Dict, get, pop}
use cavi_erp.Json.Dumps.{text_le}
use cavi_erp.Json.TextOrder.{text_le_trans, text_le_total, text_le_refl}
use cavi_erp.Error.{Error, Result, ok, err, Result-cases}
use cavi_erp.Exec.{◌>>=◌}
use cavi_erp.Migrations.{
  Directory, Migration, discover_migrations, Database, apply_one, transaction, execute, last_row,
  greater, first_version, down_script, revert, revert_row, rollback_last,
}
use cavi_erp.Migrations.Runs.{apply_one-Applies}

pop-absent : {V : Type 0} (k : String) (d : Dict String V) → get k d ≡ none → pop k d ≡ d
unfolding get pop
pop-absent k [] h = refl
pop-absent k ((j, w) ∷ d) h = ground (arith, pop-absent k d)

pop-snoc :
    {V : Type 0} (k : String) (v : V) (d : Dict String V)
    → get k d ≡ none
    → pop k (d ++ (k, v) ∷ []) ≡ d
unfolding get pop
pop-snoc k v [] h = ground (arith, beq_refl k)
pop-snoc k v ((j, w) ∷ d) h = ground (arith, pop-snoc k v d)

module _ (Schema : Type 0) (script : String → Schema → Result Schema) where
  last_row-snoc :
      (row : String × String) (rows : Dict String String)
      → All (λ (r : String × String). text_le r.0 row.0 ≡ true) rows
      → last_row Schema script (rows ++ row ∷ []) ≡ some row
  unfolding last_row
  last_row-snoc row [] all = refl
  last_row-snoc row (r ∷ rows) (here, rest) = rw (last_row-snoc row rows rest, here) refl

  revert-ok :
      (version sql : String) (db : Database Schema script) (schema : Schema)
      → script sql db.schema ≡ ok schema
      → revert Schema script version (some sql) db
        ≡ (ok (some version), record { rows = pop version db.rows; schema = schema })
  unfolding revert transaction execute ◌>>=◌
  revert-ok version sql db schema runs = rw runs refl

  revert-err :
      (version sql : String) (db : Database Schema script) (e : Error)
      → script sql db.schema ≡ err e
      → revert Schema script version (some sql) db ≡ (err e, db)
  unfolding revert transaction execute ◌>>=◌
  revert-err version sql db e raised = rw raised refl

  -- The script that the directory has for undoing a version.
  abbrev pub undoing : Directory → String → Option String
  undoing directory version =
      down_script Schema script directory
        (first_version Schema script version (discover_migrations directory))

  -- The directory's script for undoing the version takes the schema to this one.
  abbrev pub Undoes : Directory → String → Schema → Schema → Type 0
  Undoes directory version from to =
      (sql : String) × (undoing directory version ≡ some sql) × (script sql from ≡ ok to)

  abbrev Reverted :
      Directory
      → String
      → Database Schema script
      → Result (Option String) × Database Schema script
      → Type 0
  Reverted directory version db outcome =
      ((schema : Schema) × Undoes directory version db.schema schema
        × (outcome ≡ (ok (some version), record { rows = pop version db.rows; schema = schema })))
      ⊎ ((e : Error) × ((schema : Schema) → ¬ Undoes directory version db.schema schema)
          × (outcome ≡ (err e, db)))

  revert-Reverted :
      (directory : Directory) (version : String) (db : Database Schema script)
      → Reverted directory version db (revert Schema script version (undoing directory version) db)
  unfolding revert
  revert-Reverted directory version db = elim (Option-cases (undoing directory version)) [
    | inl missing ↦ inr (
      Error.system_exit ("no down migration for " <> version <> "; cannot roll back"),
      λ schema (_, there, _). cc (missing, there),
      ap (λ o. revert Schema script version o db) missing,
    )
    | inr (sql, there) ↦
        let found = ap (λ o. revert Schema script version o db) there in
        elim (Result-cases (script sql db.schema)) [
          | inl (e, raised) ↦ inr (
            e,
            λ schema (sql', there', runs).
                let same : sql ≡ sql' = cc in cc (ap (λ s. script s db.schema) same, raised, runs),
            found ∙ revert-err version sql db e raised,
          )
          | inr (schema, runs) ↦
              inl (schema, (sql, there, runs), found ∙ revert-ok version sql db schema runs)
        ]
  ]

  last_row-none : (rows : Dict String String) → last_row Schema script rows ≡ none → rows ≡ []
  unfolding last_row
  last_row-none [] h = refl
  last_row-none (row ∷ rows) h = absurd (greater-some row (last_row Schema script rows) h)
    where
      greater-some :
          (row : String × String) (o : Option (String × String))
          → greater Schema script row o ≢ none
      greater-some row none e = cc
      greater-some row (some other) e = ground arith

  -- The row that has the greatest version in the order of texts.
  abbrev pub IsGreatest : String × String → Dict String String → Type 0
  IsGreatest row rows =
      Any (λ (r : String × String). r ≡ row) rows
      × All (λ (r : String × String). text_le r.0 row.0 ≡ true) rows

  all_below :
      (other row : String × String) (rows : Dict String String)
      → text_le other.0 row.0 ≡ true
      → All (λ (r : String × String). text_le r.0 other.0 ≡ true) rows
      → All (λ (r : String × String). text_le r.0 row.0 ≡ true) rows
  all_below other row [] le all = tt
  all_below other row (r ∷ rows) le (h, all) =
      (text_le_trans r.0 other.0 row.0 h le, all_below other row rows le all)

  last_row-IsGreatest :
      (rows : Dict String String) (row : String × String)
      → last_row Schema script rows ≡ some row
      → IsGreatest row rows
  unfolding last_row
  last_row-IsGreatest [] row h = cc
  last_row-IsGreatest (r ∷ rows) row h = elim (Option-cases (last_row Schema script rows)) [
    | inl nothing ↦
        let alone : rows ≡ [] = last_row-none rows nothing in
        let same : r ≡ row = cc (rw nothing at h) in
        rw (alone, ← same) (inl refl, (text_le_refl r.0, tt))
    | inr (other, later) ↦
        let (among, all) = last_row-IsGreatest rows other later in
        elim (Bool-cases (text_le r.0 other.0)) [
          | inl below ↦
              let same : other ≡ row = cc (rw (later, greater, below) at h) in
              subst (λ x. IsGreatest x (r ∷ rows)) same (inr among, (below, all))
          | inr above ↦
              let same : r ≡ row = cc (rw (later, greater, above) at h) in
              subst (λ x. IsGreatest x (r ∷ rows)) same
                (
                  inl refl,
                  (text_le_refl r.0, all_below other r rows (text_le_total r.0 other.0 above) all),
                )
        ]
  ]

  abbrev pub RolledBack : Directory → Database Schema script → Type 0
  RolledBack directory db =
      ((db.rows ≡ []) × (rollback_last Schema script directory db ≡ (ok none, db)))
      ⊎ ((version name : String) × IsGreatest (version, name) db.rows
          × Reverted directory version db (rollback_last Schema script directory db))

  -- Rolling back ends in one of three ways. Where no migration is recorded, it returns none; where the
  -- directory's script for undoing the greatest recorded version, in the order of texts, runs, that
  -- version is returned, its row is gone and the schema is what the script makes of it; in every other case an error is raised. The
  -- first and the last leave the database as it was.
  pub rollback_last-RolledBack :
      (directory : Directory) (db : Database Schema script) → RolledBack directory db
  unfolding rollback_last ◌>>=◌
  rollback_last-RolledBack directory db = elim (Option-cases (last_row Schema script db.rows)) [
    | inl nothing ↦ inl (
      last_row-none db.rows nothing,
      ap (λ row. revert_row Schema script directory row db) nothing,
    )
    | inr ((version, name), last) ↦ inr (
      version,
      name,
      last_row-IsGreatest db.rows (version, name) last,
      rw last (revert-Reverted directory version db),
    )
  ]

  -- Rolling back undoes the migration that was applied last: the database is what it was before, rows
  -- and schema, and its version is returned. It is assumed that the versions that were recorded are not
  -- above its own in the order of texts, and that the directory has a script for undoing it, which
  -- takes the schema back to what it was.
  pub rollback_last-apply_one :
      (directory : Directory) (m : Migration) (before after : Database Schema script)
      → apply_one Schema script directory m before ≡ (ok tt, after)
      → All (λ (r : String × String). text_le r.0 m.version ≡ true) before.rows
      → Undoes directory m.version after.schema before.schema
      → rollback_last Schema script directory after ≡ (ok (some m.version), before)
  unfolding rollback_last ◌>>=◌
  rollback_last-apply_one directory m before after applied newest (sql, there, undoes) =
      let (_, schema, _, _, fresh, same) =
        apply_one-Applies Schema script directory m before after applied in
      let rows : after.rows ≡ before.rows ++ (m.version, m.name) ∷ [] =
        ap (λ (db : Database Schema script). db.rows) same in
      let absent : get m.version before.rows ≡ none = ground (arith, fresh) in
      let last : last_row Schema script after.rows ≡ some (m.version, m.name) =
        rw rows (last_row-snoc (m.version, m.name) before.rows newest) in
      ap (λ row. revert_row Schema script directory row after) last
      ∙ ap (λ o. revert Schema script m.version o after) there
      ∙ revert-ok m.version sql after before.schema undoes
      ∙ ap (λ rows. (ok (some m.version), record { rows = rows; schema = before.schema }))
          (ap (pop m.version) rows ∙ pop-snoc m.version m.name before.rows absent)
