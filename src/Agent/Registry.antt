-- ===== src/Agent/Registry.antt =====
-- agents/base/registry.py: the client of the schema registry. The files do not change while a
-- process runs, so the cache of the documents read is not kept apart.
use cavi_erp.Prelude.{String, none, some, ◌<>◌}
use cavi_erp.Prelude.Int.{ℤ, show_ℤ}
use cavi_erp.Json.{Value, Object}
use cavi_erp.Error.{Error, Result, ok, err, ◌>>=◌}
use cavi_erp.Services.{Services}

module _ (services : Services) where
  abbrev pub schema_key : String → ℤ → String
  schema_key subject version = subject <> ".v" <> show_ℤ version

  -- `SchemaRegistry.get`
  unfoldable pub schema : String → ℤ → Result Value
  schema subject version = elim (services.schema_file (schema_key subject version <> ".json")) [
    | none ↦
        err (Error.schema_not_found ("No schema registered for " <> schema_key subject version))
    | some document ↦ ok document
  ]

  -- `jsonschema.validate`
  abbrev pub conform : Object → Value → Result (Unit {0})
  conform payload document = elim (services.violation document payload) [
    | none ↦ ok tt
    | some reason ↦ err (Error.validation_error reason)
  ]

  -- `SchemaRegistry.validate`
  unfoldable pub validate : String → ℤ → Object → Result (Unit {0})
  unfolding schema
  validate subject version payload = do document ← schema subject version; conform payload document
