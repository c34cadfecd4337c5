-- ===== src/Mapper/Tests.antt =====
-- Runs of the coercion.
use cavi_erp.Prelude.{◌≡◌, ◌↔◌, refl, none, some, [], ◌∷◌, List}
use cavi_erp.Prelude.Int.{ℤ, pos, int_eq}
use cavi_erp.Dict.{get, put, pop}
use cavi_erp.Json.{Object, str}
use cavi_erp.Error.{ok}
use cavi_erp.Mapper.Paths.{find_path, Key}
use cavi_erp.Mapper.Paths.Search.{Leads}
use cavi_erp.Mapper.Coercion.{
  Transforms, registered_keys, coerce, register_all, ledger_entry_v1_to_v2,
  forge_write_requested_v1_to_v2, forge_write_requested_v2_to_v3,
}
use cavi_erp.Mapper.Coercion.Reach.{AllTotal, coerce-Leads}

abbrev tangle : List Key
tangle =
    ("s", pos 1, pos 3)
    ∷ ("s", pos 1, pos 2)
    ∷ ("s", pos 2, pos 1)
    ∷ ("t", pos 1, pos 5)
    ∷ ("s", pos 3, pos 4)
    ∷ ("s", pos 2, pos 4)
    ∷ ("s", pos 4, pos 5)
    ∷ []

shortest :
    find_path tangle "s" (pos 1) (pos 5)
    ≡ some ((pos 1, pos 2) ∷ (pos 2, pos 4) ∷ (pos 4, pos 5) ∷ [])
unfolding find_path
shortest = refl

unreachable : find_path tangle "s" (pos 5) (pos 1) ≡ none
unfolding find_path
unreachable = refl

abbrev all_transforms : Transforms
all_transforms = register_all []

abbrev proposal : Object
proposal = ("write_id", str "w1") ∷ []

all_total : AllTotal all_transforms
unfolding register_all ledger_entry_v1_to_v2 forge_write_requested_v1_to_v2
    forge_write_requested_v2_to_v3
all_total = (λ p. (_, refl), (λ p. (_, refl), (λ p. (_, refl), tt)))

coerce-Leads_example :
    ((result : Object) × (coerce all_transforms "forge.write.requested" (pos 1) (pos 3) proposal
        ≡ ok result))
    ↔ ((steps : List (ℤ × ℤ)) × Leads
          (registered_keys all_transforms)
          "forge.write.requested"
          (pos 1)
          steps
          (pos 3))
coerce-Leads_example =
    coerce-Leads all_transforms "forge.write.requested" (pos 1) (pos 3) proposal all_total

renamed :
    ledger_entry_v1_to_v2 (("memo", str "m") ∷ ("entry_id", str "e") ∷ [])
    ≡ ok (("entry_id", str "e") ∷ ("entry_type", str "sale") ∷ ("description", str "m") ∷ [])
unfolding ledger_entry_v1_to_v2 get put pop
renamed = refl
