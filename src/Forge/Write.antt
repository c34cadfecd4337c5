-- ===== src/Forge/Write.antt =====
-- agents/forge/write.py: the ERP write lifecycle, as data: states, operations, the diff that a
-- reviewer approves, and the payload of each event.
pub mod Diff
pub mod Coordinator
pub mod Batch
use cavi_erp.Prelude.{
  String, Bool, true, false, Option, none, some, List, [], ◌∷◌, ◌<>◌, if◌then◌else◌, nonempty,
}
use cavi_erp.Prelude.Int.{ℤ, pos}
use cavi_erp.Json.{Object, Value, str, obj, of_dict, str_or_null}
use cavi_erp.Error.{Error, Result, ok, err}

pub data WriteState : Type 0 where
  requested approved rejected completed : WriteState

abbrev pub state_value : WriteState → String
state_value requested = "requested"
state_value approved = "approved"
state_value rejected = "rejected"
state_value completed = "completed"

-- `_ALLOWED`
unfoldable pub allowed : WriteState → WriteState → Bool
allowed requested approved = true
allowed requested rejected = true
allowed approved completed = true
allowed _ _ = false

pub record WriteOperation : Type 0 where
  pub write_id : String
  pub tenant_id : String
  pub erp_platform : String
  pub operation : String
  pub target_module : String
  pub payload : Object
  pub requested_by : String
  pub diff_preview : String
  pub state : WriteState
  pub reverses : Option String
  pub target_external_id : Option String

abbrev pub idempotency_key : WriteOperation → String
idempotency_key op = "cavi-" <> op.write_id

-- `self.target_external_id or self.idempotency_key`
unfoldable pub erp_address : WriteOperation → String
erp_address op = elim op.target_external_id [
  | none ↦ idempotency_key op
  | some target ↦ if nonempty target then target else idempotency_key op
]

unfoldable pub transition_to : WriteState → WriteOperation → Result WriteOperation
unfolding allowed
transition_to new_state op =
    if allowed op.state new_state
    then ok (record op { state = new_state })
    else err (
        Error.invalid_transition (
          "write "
          <> op.write_id
          <> ": "
          <> state_value op.state
          <> " -> "
          <> state_value new_state))

-- The payloads of the four lifecycle events.
unfoldable pub requested_payload : WriteOperation → String → Object
requested_payload op requested_at =
    ("tenant_id", str op.tenant_id)
    ∷ ("erp_platform", str op.erp_platform)
    ∷ ("operation", str op.operation)
    ∷ ("target_module", str op.target_module)
    ∷ ("payload", obj (of_dict op.payload))
    ∷ ("requested_by", str op.requested_by)
    ∷ ("requested_at", str requested_at)
    ∷ ("diff_preview", str op.diff_preview)
    ∷ ("reverses", str_or_null op.reverses)
    ∷ ("target_external_id", str_or_null op.target_external_id)
    ∷ []

unfoldable pub approved_payload : WriteOperation → String → String → Object
approved_payload op approved_by approved_at =
    ("tenant_id", str op.tenant_id)
    ∷ ("erp_platform", str op.erp_platform)
    ∷ ("operation", str op.operation)
    ∷ ("approved_by", str approved_by)
    ∷ ("approved_at", str approved_at)
    ∷ ("write_id", str op.write_id)
    ∷ []

unfoldable pub rejected_payload : WriteOperation → String → Option String → String → Object
rejected_payload op rejected_by reason rejected_at =
    ("tenant_id", str op.tenant_id)
    ∷ ("erp_platform", str op.erp_platform)
    ∷ ("operation", str op.operation)
    ∷ ("rejected_by", str rejected_by)
    ∷ ("rejected_at", str rejected_at)
    ∷ ("reason", str_or_null reason)
    ∷ []

unfoldable pub completed_payload : WriteOperation → Object → String → Object
completed_payload op erp_confirmation completed_at =
    ("tenant_id", str op.tenant_id)
    ∷ ("erp_platform", str op.erp_platform)
    ∷ ("operation", str op.operation)
    ∷ ("write_id", str op.write_id)
    ∷ ("erp_confirmation", obj (of_dict erp_confirmation))
    ∷ ("completed_at", str completed_at)
    ∷ []

-- The new state of an operation, with the event to publish for it.
pub record WriteStep : Type 0 where
  pub op : WriteOperation
  pub subject : String
  pub event : Object
  pub schema_version : ℤ
