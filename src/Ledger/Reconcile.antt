-- ===== src/Ledger/Reconcile.antt =====
-- agents/ledger/reconcile.py: the records that Cavi expects against those that the ERP holds.
pub mod Report
pub mod Counts
use cavi_erp.Prelude.{
  ℕ, ◌≡◌, String, Bool, true, false, not, Option, none, some, List, [], ◌∷◌, ◌++◌, ◌==◌, string_eq,
  if◌then◌else◌, contains, length,
}
use cavi_erp.Prelude.Int.{ℤ, pos, ◌-ℤ◌}
use cavi_erp.Dict.{Dict, get, has_key, keys}
use cavi_erp.Json.{Value, Object, null, str, int, obj, arr, of_dict, of_list, same}
use cavi_erp.Json.Dumps.{sort_keys}

-- The records of one side, by external id.
abbrev pub Records : Type 0
Records = Dict String Object

abbrev pub missing_in_erp : String
missing_in_erp = "missing_in_erp"

abbrev pub unexpected_in_erp : String
unexpected_in_erp = "unexpected_in_erp"

abbrev pub field_mismatch : String
field_mismatch = "field_mismatch"

pub record Discrepancy : Type 0 where
  pub external_id : String
  pub kind : String
  pub fields : List Object

abbrev field_objects : List Object → List Value
field_objects [] = []
field_objects (f ∷ fields) = obj (of_dict f) ∷ field_objects fields

abbrev when_some : List Object → Object
when_some [] = []
when_some (f ∷ fields) = ("fields", arr (of_list (field_objects (f ∷ fields)))) ∷ []

-- `Discrepancy.to_payload`
unfoldable pub discrepancy_payload : Discrepancy → Object
discrepancy_payload d =
    ("external_id", str d.external_id) ∷ ("kind", str d.kind) ∷ when_some d.fields

abbrev pub or_null : Option Value → Value
or_null none = null
or_null (some v) = v

-- The managed fields that disagree; `current.get(name)` is None for a field that is absent.
unfoldable pub mismatches : Object → Object → List Object
mismatches current [] = []
mismatches current ((name, value) ∷ fields) =
    let rest = mismatches current fields in
    if not (same value (or_null (get name current)))
    then (("field", str name) ∷ ("expected", value) ∷ ("actual", or_null (get name current)) ∷ [])
      ∷ rest
    else rest

abbrev pub mismatch : String → List Object → List Discrepancy
mismatch id [] = []
mismatch id (f ∷ fields) =
    record { external_id = id; kind = field_mismatch; fields = f ∷ fields } ∷ []

abbrev pub against : String → Object → Option Object → List Discrepancy
against id expected none = record { external_id = id; kind = missing_in_erp; fields = [] } ∷ []
against id expected (some current) = mismatch id (mismatches current (sort_keys expected))

unfoldable pub of_expected : Records → Records → List Discrepancy
of_expected actual [] = []
of_expected actual ((id, expected) ∷ records) =
    against id expected (get id actual) ++ of_expected actual records

-- `set(actual) - set(expected)`
unfoldable pub not_among : Records → Records → Records
not_among expected [] = []
not_among expected ((id, current) ∷ records) =
    let rest = not_among expected records in
    if has_key id expected then rest else (id, current) ∷ rest

abbrev pub unexpected : Records → List Discrepancy
unexpected [] = []
unexpected ((id, current) ∷ records) =
    record { external_id = id; kind = unexpected_in_erp; fields = [] } ∷ unexpected records

unfoldable pub compare : Records → Records → List Discrepancy
unfolding mismatches of_expected not_among
compare expected actual =
    of_expected actual (sort_keys expected) ++ unexpected (sort_keys (not_among expected actual))

pub record ReconciliationResult : Type 0 where
  pub tenant_id : String
  pub erp_platform : String
  pub scope : String
  pub run_id : String
  pub checked : ℕ
  pub discrepancies : List Discrepancy
  pub completed_at : String

abbrev pub drift_count : ReconciliationResult → ℕ
drift_count r = length r.discrepancies

-- `ReconciliationResult.completed_payload`
unfoldable pub pass_payload : ReconciliationResult → Object
pass_payload r =
    ("tenant_id", str r.tenant_id)
    ∷ ("erp_platform", str r.erp_platform)
    ∷ ("scope", str r.scope)
    ∷ ("run_id", str r.run_id)
    ∷ ("checked", int (pos r.checked))
    ∷ ("matched", int (pos r.checked -ℤ pos (drift_count r)))
    ∷ ("drift_count", int (pos (drift_count r)))
    ∷ ("completed_at", str r.completed_at)
    ∷ []

abbrev payloads : List Discrepancy → List Value
payloads [] = []
payloads (d ∷ ds) = obj (of_dict (discrepancy_payload d)) ∷ payloads ds

abbrev drift_of : ReconciliationResult → List Discrepancy → Option Object
drift_of r [] = none
drift_of r (d ∷ ds) = some (
    ("tenant_id", str r.tenant_id)
    ∷ ("erp_platform", str r.erp_platform)
    ∷ ("scope", str r.scope)
    ∷ ("run_id", str r.run_id)
    ∷ ("discrepancies", arr (of_list (payloads (d ∷ ds))))
    ∷ ("detected_at", str r.completed_at)
    ∷ [])

-- `ReconciliationResult.drift_payload`
unfoldable pub drift_payload : ReconciliationResult → Option Object
unfolding discrepancy_payload
drift_payload r = drift_of r r.discrepancies

-- The distinct texts of a list that are not among those seen.
unfoldable pub as_set : List String → List String → List String
as_set seen [] = []
as_set seen (x ∷ xs) = elim (contains x seen) [
  | true ↦ as_set seen xs
  | false ↦ x ∷ as_set (x ∷ seen) xs
]

-- `Reconciler.run`, with the run id and the moment that its factories give.
unfoldable pub reconcile :
    String → String → String → Records → Records → String → String → ReconciliationResult
unfolding compare as_set
reconcile tenant_id erp_platform scope expected actual run_id completed_at = record {
  tenant_id = tenant_id;
  erp_platform = erp_platform;
  scope = scope;
  run_id = run_id;
  checked = length (as_set [] (keys expected ++ keys actual));
  discrepancies = compare expected actual;
  completed_at = completed_at;
}
