-- ===== src/Json/Sorted.antt =====
-- Sorting a dictionary by its keys keeps its entries.
use cavi_erp.Prelude.{
  ◌≡◌, ◌↔◌, refl, ◌∙◌, ap, String, Bool-cases, inl, inr, List, [], ◌∷◌, suc, All, length, arith,
}
use cavi_erp.Json.Dumps.{sort_keys, insert_sorted, text_le}

module _ {ℓ} {A : Type ℓ} (P : String × A → Type 0) where
  All-insert_sorted :
      (k : String) (v : A) (l : List (String × A))
      → All P (insert_sorted k v l) ↔ (P (k, v) × All P l)
  unfolding insert_sorted
  All-insert_sorted k v [] = (λ h. h, λ h. h)
  All-insert_sorted k v ((j, w) ∷ l) = elim (Bool-cases (text_le k j)) [
    | inl first ↦ rw first (λ h. h, λ h. h)
    | inr later ↦
        let (into, from) = All-insert_sorted k v l in
        rw later
          (λ h. let (here, rest) = into h.1 in (here, (h.0, rest)), λ h. (h.1.0, from (h.0, h.1.1)))
  ]

  pub All-sort_keys : (l : List (String × A)) → All P (sort_keys l) ↔ All P l
  unfolding sort_keys
  All-sort_keys [] = (λ h. h, λ h. h)
  All-sort_keys ((k, v) ∷ l) =
      let step = All-insert_sorted k v (sort_keys l) in
      let rest = All-sort_keys l in
      (λ h. let (here, later) = step.0 h in (here, rest.0 later), λ h. step.1 (h.0, rest.1 h.1))

module _ {ℓ} {A : Type ℓ} where
  length-insert_sorted :
      (k : String) (v : A) (l : List (String × A)) → length (insert_sorted k v l) ≡ suc (length l)
  unfolding insert_sorted
  length-insert_sorted k v [] = refl
  length-insert_sorted k v ((j, w) ∷ l) = ground (arith, length-insert_sorted k v l)

  pub length-sort_keys : (l : List (String × A)) → length (sort_keys l) ≡ length l
  unfolding sort_keys
  length-sort_keys [] = refl
  length-sort_keys ((k, v) ∷ l) =
      length-insert_sorted k v (sort_keys l) ∙ ap suc (length-sort_keys l)
