-- ===== src/Services.antt =====
-- What the agents use and do not implement: hashing and UUID parsing of the platform, the schema
-- files with the third-party `jsonschema` validator, fresh identifiers and clock readings.
use cavi_erp.Prelude.{ℕ, String, Option}
use cavi_erp.Json.{Value, Object}

pub record Services : Type 0 where
  -- `hashlib.sha256(text.encode("utf-8")).hexdigest()`
  pub sha256 : String → String
  -- `str(uuid.UUID(text))`, or none where the text is no UUID
  pub as_uuid : String → Option String
  -- the document in the file of that name under `schema_registry/schemas`
  pub schema_file : String → Option Value
  -- the message of the `jsonschema.ValidationError`, if the instance violates the schema
  pub violation : Value → Object → Option String
  -- the n-th `str(uuid.uuid4())` of the process
  pub fresh_uuid : ℕ → String
  -- the n-th reading of the clock, as ISO-8601 text
  pub now_iso : ℕ → String
  -- the n-th reading of the monotonic clock
  pub monotonic : ℕ → ℕ
