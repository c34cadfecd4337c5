-- ===== src/Mapper/Coercion.antt =====
-- `Mapper.transform` of agents/mapper/mapper.py, the transforms of transforms.py, and the handler of
-- agent.py. The dictionary of transforms is an association list in the order of registration.
pub mod Reach
use cavi_erp.Prelude.{
  String, Bool, true, false, Option, none, some, List, [], ◌∷◌, ◌<>◌, ◌==◌, ◌&&◌, string_eq,
  if◌then◌else◌,
}
use cavi_erp.Prelude.Int.{ℤ, pos, show_ℤ, eqb_ℤ, int_eq}
use cavi_erp.Dict.{get, put, pop}
use cavi_erp.Json.{Object, Value, null, str}
use cavi_erp.Error
use cavi_erp.Error.{Error, Result, ok, err}
use cavi_erp.Exec.{Exec, pure, lift, raise, ◌>>=◌}
use cavi_erp.Services.{Services}
use cavi_erp.Agent.Event.{Event, item, text, whole, object}
use cavi_erp.Agent.Registry.{validate}
use cavi_erp.Agent.Runtime.{Agent, emit_new}
use cavi_erp.Mapper.Paths.{Key, find_path}

-- `TransformFn`, which may raise.
abbrev pub TransformFn : Type 0
TransformFn = Object → Result Object

abbrev pub Transforms : Type 0
Transforms = List (Key × TransformFn)

abbrev pub same_key : Key → Key → Bool
same_key (s, a, b) (t, c, d) = s == t && eqb_ℤ a c && eqb_ℤ b d

-- `register`: a key that stands there keeps its place.
unfoldable pub register : Key → TransformFn → Transforms → Transforms
register key f [] = (key, f) ∷ []
register key f ((j, g) ∷ ts) =
    let rest = register key f ts in if same_key j key then (j, f) ∷ ts else (j, g) ∷ rest

abbrev pub registered_keys : Transforms → List Key
registered_keys [] = []
registered_keys ((key, _) ∷ ts) = key ∷ registered_keys ts

abbrev pub transform_at : Key → Transforms → Option TransformFn
transform_at key [] = none
transform_at key ((j, f) ∷ ts) =
    let rest = transform_at key ts in if same_key j key then some f else rest

-- The loop over the path; a step that has no transform is a `KeyError`.
unfoldable pub run_steps : Transforms → String → List (ℤ × ℤ) → Object → Result Object
run_steps ts subject [] payload = ok payload
run_steps ts subject ((a, b) ∷ steps) payload = elim (transform_at (subject, a, b) ts) [
  | none ↦ err (Error.key_error subject)
  | some f ↦ Error.◌>>=◌ (f payload) (run_steps ts subject steps)
]

unfoldable pub coerce : Transforms → String → ℤ → ℤ → Object → Result Object
coerce ts subject src dst payload =
    if eqb_ℤ src dst then ok payload else elim (find_path (registered_keys ts) subject src dst) [
      | none ↦ err (
          Error.no_transform_path
            ("no transform path for " <> subject <> " v" <> show_ℤ src <> " -> v" <> show_ℤ dst))
      | some path ↦ run_steps ts subject path payload
    ]

-- The mapper's fields.
pub record Mapper : Type 0 where
  pub transforms : Transforms
  pub validate_output : Bool

module _ (services : Services) where
  -- What `transform` does with the result.
  unfoldable pub checked : Mapper → String → ℤ → Object → Result Object
  checked mapper subject version result =
      if mapper.validate_output
      then (Error.◌>>=◌ (validate services subject version result) λ _. ok result)
      else ok result

  -- `transform`
  unfoldable pub transform : Mapper → String → ℤ → ℤ → Object → Result Object
  unfolding coerce checked
  transform mapper subject src dst payload =
      Error.◌>>=◌ (coerce mapper.transforms subject src dst payload) (checked mapper subject dst)

-- `ledger_entry_v1_to_v2`
unfoldable pub describe : Option Value → Object → Object
describe none out = out
describe (some null) out = out
describe (some memo) out = put "description" memo out

unfoldable pub ledger_entry_v1_to_v2 : TransformFn
unfolding describe
ledger_entry_v1_to_v2 payload =
    ok (describe (get "memo" payload) (put "entry_type" (str "sale") (pop "memo" payload)))

unfoldable pub forge_write_requested_v1_to_v2 : TransformFn
forge_write_requested_v1_to_v2 payload = ok (put "reverses" null payload)

unfoldable pub forge_write_requested_v2_to_v3 : TransformFn
forge_write_requested_v2_to_v3 payload = ok (put "target_external_id" null payload)

unfoldable pub register_all : Transforms → Transforms
unfolding register
register_all ts =
    register ("forge.write.requested", pos 2, pos 3) forge_write_requested_v2_to_v3
      (register ("forge.write.requested", pos 1, pos 2) forge_write_requested_v1_to_v2
        (register ("ledger.entry", pos 1, pos 2) ledger_entry_v1_to_v2 ts))

abbrev pub is_no_path : Error → Bool
is_no_path (Error.no_transform_path _) = true
is_no_path _ = false

module _ (services : Services) where
  unfoldable pub on_coerced : Event → String → ℤ → Result Object → Exec (Agent Mapper) (Unit {0})
  on_coerced e subject version (err reason) = if is_no_path reason then pure tt else raise reason
  on_coerced e subject version (ok coerced) =
      emit_new services "mapper" subject version e.correlation_id none coerced

  -- `MapperAgent.handle`
  unfoldable pub on_event : Event → Exec (Agent Mapper) (Unit {0})
  unfolding on_coerced transform
  on_event e = do
    subject ← lift (Error.◌>>=◌ (item "subject" e.payload) text)
    src ← lift (Error.◌>>=◌ (item "from_version" e.payload) whole)
    dst ← lift (Error.◌>>=◌ (item "to_version" e.payload) whole)
    payload ← lift (Error.◌>>=◌ (item "payload" e.payload) object)
    λ agent. on_coerced e subject dst (transform services agent.own subject src dst payload) agent
