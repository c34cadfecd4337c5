-- ===== src/Dict/Laws.antt =====
-- Lookup laws of dictionaries, in a form with no side condition.
use cavi_erp.Prelude.{
  true, ◌≡◌, refl, none, some, [], ◌∷◌, Eq, ◌==◌, beq_refl, if◌then◌else◌, arith, ◌≢◌, ◌⊎◌, inl,
  inr, Bool-cases,
}
use cavi_erp.Dict.{Dict, get, put, has_key, pop}

module _ {ℓ κ} {K : Type ℓ} {V : Type κ} ⦃e : Eq K⦄ where
  pub get-put :
      (k j : K) (v : V) (d : Dict K V) → get j (put k v d) ≡ (if k == j then some v else get j d)
  unfolding get put
  get-put k j v [] = refl
  get-put k j v ((i, w) ∷ d) =
      ground (arith, e.beq_iff k j, e.beq_iff i k, e.beq_iff i j, get-put k j v d)

  pub get-pop : (k j : K) (d : Dict K V) → get j (pop k d) ≡ (if k == j then none else get j d)
  unfolding get pop
  get-pop k j [] = ground arith
  get-pop k j ((i, w) ∷ d) =
      ground (arith, e.beq_iff k j, e.beq_iff i k, e.beq_iff i j, get-pop k j d)

  pub get-put_self : (k : K) (v : V) (d : Dict K V) → get k (put k v d) ≡ some v
  get-put_self k v d = ground (arith, get-put k k v d, beq_refl k)

  pub get-pop_self : (k : K) (d : Dict K V) → get k (pop k d) ≡ none
  get-pop_self k d = ground (arith, get-pop k k d, beq_refl k)

  pub get-put-cases :
      (k j : K) (v w : V) (d : Dict K V)
      → get j (put k v d) ≡ some w
      → ((k ≡ j) × (v ≡ w)) ⊎ (get j d ≡ some w)
  get-put-cases k j v w d h = elim (Bool-cases (k == j)) [
    | inl same ↦ inl ((e.beq_iff k j).0 same, ground (arith, get-put k j v d))
    | inr other ↦ inr (ground (arith, get-put k j v d))
  ]

  pub get-pop-some :
      (k j : K) (w : V) (d : Dict K V) → get j (pop k d) ≡ some w → (k ≢ j) × (get j d ≡ some w)
  get-pop-some k j w d h =
      (λ same. ground (arith, get-pop k j d, (e.beq_iff k j).1 same), ground (arith, get-pop k j d))

  pub has_key-some : (k : K) (v : V) (d : Dict K V) → get k d ≡ some v → has_key k d ≡ true
  has_key-some k v d h = rw (h, has_key) refl

  pub has_key-put_self : (k : K) (v : V) (d : Dict K V) → has_key k (put k v d) ≡ true
  has_key-put_self k v d = has_key-some k v _ (get-put_self k v d)
