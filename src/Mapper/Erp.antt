-- ===== src/Mapper/Erp.antt =====
-- agents/mapper/erp.py and the handler of erp_agent.py: records of one schema mapped to another, with
-- one event for the outcome.
pub mod Outcome
use cavi_erp.Prelude.{
  String, Bool, true, false, Option, none, some, List, [], ◌∷◌, ◌<>◌, ◌==◌, string_eq, pair_eq,
  if◌then◌else◌,
}
use cavi_erp.Prelude.Int.{pos}
use cavi_erp.Dict.{Dict, get, put}
use cavi_erp.Json.{Value, Object, str, obj, of_dict}
use cavi_erp.Json.Casts.{dict_of}
use cavi_erp.Json.Dumps.{dumps}
use cavi_erp.Error
use cavi_erp.Error.{Error, Result, ok, err, message}
use cavi_erp.Exec.{Exec, pure, raise, lift, gets, attempt, ◌>>=◌}
use cavi_erp.Services.{Services}
use cavi_erp.Agent.Event.{Event, item, text}
use cavi_erp.Agent.Runtime.{Agent, now_iso, emit_new}
use cavi_erp.Mapper.Records.{RecordMapping, apply}
use cavi_erp.Mapper.Records.Tables.{netsuite_record_mappings}

abbrev pub TransformFn : Type 0
TransformFn = Object → Result Object

-- The transforms of an `ErpTransformer`, by source and target schema.
abbrev pub Transformer : Type 0
Transformer = Dict (String × String) TransformFn

-- `register`
unfoldable pub register_transform : String → String → TransformFn → Transformer → Transformer
register_transform source_schema target_schema fn transforms =
    put (source_schema, target_schema) fn transforms

register_mappings : Dict String RecordMapping → Transformer → Transformer
unfolding register_transform
register_mappings [] transforms = transforms
register_mappings ((_, m) ∷ mappings) transforms =
    register_mappings mappings
      (register_transform m.source_schema m.target_schema (apply m) transforms)

-- `register_netsuite_mappings`
unfoldable pub register_netsuite_mappings : (Value → String) → Transformer → Transformer
unfolding register_mappings netsuite_record_mappings
register_netsuite_mappings repr = register_mappings (netsuite_record_mappings repr)

-- What the request of a transform names.
pub record Job : Type 0 where
  pub tenant_id : Value
  pub source_erp : Value
  pub source_schema : String
  pub target_schema : String
  pub source : Value

unfoldable pub failed_payload : Job → String → String → Object
failed_payload job reason failed_at =
    ("tenant_id", job.tenant_id)
    ∷ ("source_erp", job.source_erp)
    ∷ ("source_schema", str job.source_schema)
    ∷ ("reason", str reason)
    ∷ ("failed_at", str failed_at)
    ∷ []

abbrev pub schemas : Job → String
schemas job = job.source_schema <> " -> " <> job.target_schema

-- The call of the transform on `dict(record)`: any exception that either raises becomes an `ErpTransformError`.
abbrev pub guarded : Job → Result (Object × Object) → Result (Object × Object)
guarded job (ok made) = ok made
guarded job (err reason) =
    err (Error.transform_error ("transform " <> schemas job <> " failed: " <> message reason))

abbrev pub applied : TransformFn → Value → Result (Object × Object)
applied fn value =
    Error.◌>>=◌ (dict_of value) λ source. Error.◌>>=◌ (fn source) λ output. ok (source, output)

-- The record as a dictionary, and what the registered transform makes of it.
unfoldable pub output_of : Transformer → Job → Result (Object × Object)
output_of transforms job = elim (get (job.source_schema, job.target_schema) transforms) [
  | none ↦ err (Error.transform_error ("no transform registered for " <> schemas job))
  | some fn ↦ guarded job (applied fn job.source)
]

abbrev pub is_transform_error : Error → Bool
is_transform_error (Error.transform_error _) = true
is_transform_error _ = false

-- The fields of the request, in the order in which the handler reads them.
unfoldable pub read_job : Object → Result Job
read_job payload = Error.◌>>=◌ (item "tenant_id" payload) λ tenant_id.
    Error.◌>>=◌ (item "source_erp" payload) λ source_erp.
      Error.◌>>=◌ (Error.◌>>=◌ (item "source_schema" payload) text) λ source_schema.
        Error.◌>>=◌ (Error.◌>>=◌ (item "target_schema" payload) text) λ target_schema.
          Error.◌>>=◌ (item "record" payload) λ source. ok (record {
            tenant_id = tenant_id;
            source_erp = source_erp;
            source_schema = source_schema;
            target_schema = target_schema;
            source = source;
          })

module _ (services : Services) where
  unfoldable pub input_hash : Object → String
  input_hash source = "sha256:" <> services.sha256 (dumps (obj (of_dict source)))

  unfoldable pub transformed_payload : Job → Object → Object → String → Object
  unfolding input_hash
  transformed_payload job source output transformed_at =
      ("tenant_id", job.tenant_id)
      ∷ ("source_erp", job.source_erp)
      ∷ ("source_schema", str job.source_schema)
      ∷ ("target_schema", str job.target_schema)
      ∷ ("input_hash", str (input_hash source))
      ∷ ("output", obj (of_dict output))
      ∷ ("transformed_at", str transformed_at)
      ∷ []

  -- `ErpTransformer.transform`, which reads the clock once the output is there.
  unfoldable pub transform_record : Job → Exec (Agent Transformer) Object
  unfolding output_of transformed_payload
  transform_record job = do
    transforms ← gets (λ agent. agent.own)
    (source, output) ← lift (output_of transforms job)
    transformed_at ← now_iso services
    pure (transformed_payload job source output transformed_at)

  -- `ErpTransformer.failure`
  unfoldable pub failure_record : Job → String → Exec (Agent Transformer) Object
  unfolding failed_payload
  failure_record job reason = do
    failed_at ← now_iso services
    pure (failed_payload job reason failed_at)

  unfoldable pub publish_outcome : Event → Job → Result Object → Exec (Agent Transformer) (Unit {0})
  unfolding failure_record
  publish_outcome e job (ok payload) =
      emit_new services "mapper" "mapper.transform.completed" (pos 1) e.correlation_id none payload
  publish_outcome e job (err reason) =
      if is_transform_error reason
      then (do
        payload ← failure_record job (message reason)
        emit_new services "mapper" "mapper.transform.failed" (pos 1) e.correlation_id none payload)
      else raise reason

  -- `ErpMapperAgent.handle`
  unfoldable pub on_event : Event → Exec (Agent Transformer) (Unit {0})
  unfolding transform_record publish_outcome read_job
  on_event e = do
    job ← lift (read_job e.payload)
    outcome ← attempt (transform_record job)
    publish_outcome e job outcome
