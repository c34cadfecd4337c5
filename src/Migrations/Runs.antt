-- ===== src/Migrations/Runs.antt =====
-- The runs of `apply_pending` as steps: a migration that is applied whole, or one that fails and
-- leaves nothing.
use cavi_erp.Prelude.{
  ◌≡◌, refl, ap, ◌∙◌, sym, String, false, Bool-cases, inl, inr, some, List, [], ◌∷◌, ◌++◌, ◌<>◌,
  ◌⊎◌, Option-cases, string_eq, contains,
}
use cavi_erp.Dict.{get, has_key, keys}
use cavi_erp.Error.{Error, Result, ok, err, Result-cases}
use cavi_erp.Exec.{◌>>=◌, go_on, pure}
use cavi_erp.Migrations.{
  Directory, Migration, discover_migrations, pending, Database, apply_block, apply_one, apply_each,
  concluded, apply_pending, transaction, execute, insert_row, duplicate_key,
}

module _ (Schema : Type 0) (script : String → Schema → Result Schema) (directory : Directory) where
  -- The whole of a migration: its script is there and takes the schema to the new one, its version was
  -- not recorded, and it is recorded now, behind the others.
  abbrev pub Applies : Migration → Database Schema script → Database Schema script → Type 0
  Applies m before after =
      (sql : String) × (schema : Schema) × (get m.path directory ≡ some sql)
      × (script sql before.schema ≡ ok schema)
      × (has_key m.version before.rows ≡ false)
      × (after ≡ record before { rows = before.rows ++ (m.version, m.name) ∷ []; schema = schema })

  pub data Ran
      : List Migration
        → Database Schema script
        → Database Schema script
        → Result (List String)
        → Type 0 where
    finished : {db : Database Schema script} → Ran [] db db (ok [])
    stopped :
        {m : Migration} {ms : List Migration} {db : Database Schema script} {e : Error}
        → ((after : Database Schema script) → ¬ Applies m db after)
        → Ran (m ∷ ms) db db (err e)
    applied_then :
        {m : Migration} {ms : List Migration} {before mid after : Database Schema script}
        {vs : List String}
        → Applies m before mid
        → Ran ms mid after (ok vs)
        → Ran (m ∷ ms) before after (ok (m.version ∷ vs))
    applied_stopped :
        {m : Migration} {ms : List Migration} {before mid after : Database Schema script}
        {e : Error}
        → Applies m before mid
        → Ran ms mid after (err e)
        → Ran (m ∷ ms) before after (err e)

  -- What one migration does: it is applied whole, or it raises and the database is as it was.
  OneStep : Migration → Database Schema script → Type 0
  OneStep m db =
      ((after : Database Schema script) × Applies m db after
        × (apply_one Schema script directory m db ≡ (ok tt, after)))
      ⊎ ((e : Error) × ((after : Database Schema script) → ¬ Applies m db after)
          × (apply_one Schema script directory m db ≡ (err e, db)))

  apply_one-block :
      (m : Migration) (db : Database Schema script)
      (outcome : Result (Unit {0}) × Database Schema script)
      → apply_block Schema script directory m db ≡ outcome
      → apply_one Schema script directory m db ≡ concluded Schema script db outcome
  unfolding apply_one transaction
  apply_one-block m db outcome h = ap (concluded Schema script db) h

  apply_one-OneStep : (m : Migration) (db : Database Schema script) → OneStep m db
  unfolding OneStep apply_block execute insert_row ◌>>=◌
  apply_one-OneStep m db = elim (Option-cases (get m.path directory)) [
    | inl missing ↦
        let e : Error = Error.value_error ("No such file: " <> m.path) in
        inr (
          e,
          λ after (_, _, there, _, _, _). cc (missing, there),
          apply_one-block m db (err e, db) (rw (apply_block, missing) refl),
        )
    | inr (sql, there) ↦ elim (Result-cases (script sql db.schema)) [
      | inl (e, raised) ↦ inr (
        e,
        λ after (sql', schema, there', runs, _, _).
            let same : sql ≡ sql' = cc in cc (ap (λ s. script s db.schema) same, raised, runs),
        apply_one-block m db (err e, db) (rw (apply_block, there, raised) refl),
      )
      | inr (schema, runs) ↦ elim (Bool-cases (has_key m.version db.rows)) [
        | inl recorded ↦ inr (
          duplicate_key,
          λ after (_, _, _, _, new, _). cc (new, recorded),
          apply_one-block m db (err duplicate_key, record db { schema = schema })
              (rw (apply_block, there, runs, recorded) refl),
        )
        | inr fresh ↦
            let after : Database Schema script = record {
              rows = db.rows ++ (m.version, m.name) ∷ [];
              schema = schema;
            } in
            inl (
              after,
              (sql, schema, there, runs, fresh, refl),
              apply_one-block m db (ok tt, after) (rw (apply_block, there, runs, fresh) refl),
            )
      ]
    ]
  ]

  -- A migration that was applied without an error was applied whole.
  pub apply_one-Applies :
      (m : Migration) (before after : Database Schema script)
      → apply_one Schema script directory m before ≡ (ok tt, after)
      → Applies m before after
  unfolding OneStep
  apply_one-Applies m before after e = elim (apply_one-OneStep m before) [
    | inl (there, whole, runs) ↦
        let same : there ≡ after = ap (λ r. r.1) (sym runs ∙ e) in rw (← same) whole
    | inr (x, fails, raises) ↦ cc (raises, e)
  ]

  one_more :
      {m : Migration} {ms : List Migration} {before mid : Database Schema script}
      → Applies m before mid
      → (rest : Result (List String) × Database Schema script) → Ran ms mid rest.1 rest.0
      → Ran
          (m ∷ ms)
          before
          (go_on (λ vs. pure (m.version ∷ vs)) rest.0 rest.1).1
          (go_on (λ vs. pure (m.version ∷ vs)) rest.0 rest.1).0
  one_more whole (ok vs, after) ran = applied_then whole ran
  one_more whole (err e, after) ran = applied_stopped whole ran

  apply_each-Ran :
      (done : List String) (ms : List Migration) (db : Database Schema script)
      → Ran
          (pending ms done)
          db
          (apply_each Schema script directory done ms db).1
          (apply_each Schema script directory done ms db).0
  unfolding apply_each pending ◌>>=◌ OneStep
  apply_each-Ran done [] db = finished
  apply_each-Ran done (m ∷ ms) db = elim (Bool-cases (contains m.version done)) [
    | inl old ↦ rw old (apply_each-Ran done ms db)
    | inr new ↦ elim (apply_one-OneStep m db) [
      | inl (mid, whole, runs) ↦
          rw (new, runs)
            (one_more whole (apply_each Schema script directory done ms mid)
              (apply_each-Ran done ms mid))
      | inr (e, fails, raises) ↦ rw (new, raises) (stopped fails)
    ]
  ]

  -- Applying the pending migrations takes them in order, each one whole or not at all. Either all
  -- were applied, one after the other, and their versions are returned, or one could not be applied
  -- and its error is raised: the ones before it stand, and nothing of it or of the ones after it.
  pub apply_pending-Ran :
      (db : Database Schema script)
      → Ran
          (pending (discover_migrations directory) (keys db.rows))
          db
          (apply_pending Schema script directory db).1
          (apply_pending Schema script directory db).0
  unfolding apply_pending ◌>>=◌
  apply_pending-Ran db = apply_each-Ran (keys db.rows) (discover_migrations directory) db
