-- ===== src/Ledger/Reconcile/Counts.antt =====
-- The counts of a reconciliation pass: what drifted is at most what was checked.
use cavi_erp.Prelude.{
  suc, ◌+◌, ◌≤◌, ◌≡◌, refl, ap, ◌∙◌, inl, inr, String, true, false, ◌||◌, Bool-cases, Option, none,
  some, List, [], ◌∷◌, ◌++◌, string_eq, eq_iff, contains, length, length-append, arith, All,
}
use cavi_erp.Dict.{get, has_key, keys}
use cavi_erp.Json.{Object}
use cavi_erp.Json.Dumps.{sort_keys}
use cavi_erp.Json.Sorted.{length-sort_keys}
use cavi_erp.Ledger.Reconcile.{
  Records, against, mismatch, mismatches, of_expected, not_among, unexpected, compare, as_set,
  drift_count, reconcile,
}

-- The keys of a dictionary are distinct.
abbrev pub Distinct : List String → Type 0
Distinct [] = Unit
Distinct (k ∷ ks) = (contains k ks ≡ false) × Distinct ks

abbrev onto : List String → List String → List String
onto [] seen = seen
onto (x ∷ xs) seen = onto xs (x ∷ seen)

-- None of the first is among the second.
abbrev Apart : List String → List String → Type 0
Apart xs seen = All (λ x. contains x seen ≡ false) xs

Apart-cons :
    (x : String) (xs seen : List String)
    → contains x xs ≡ false
    → Apart xs seen
    → Apart xs (x ∷ seen)
Apart-cons x [] seen new apart = tt
Apart-cons x (y ∷ xs) seen new (here, later) =
    (ground (arith, eq_iff x y, eq_iff y x), Apart-cons x xs seen (ground arith) later)

Apart-nil : (xs : List String) → Apart xs []
Apart-nil [] = tt
Apart-nil (x ∷ xs) = (refl, Apart-nil xs)

length-keys : (d : Records) → length (keys d) ≡ length d
length-keys [] = refl
length-keys ((k, v) ∷ d) = ap suc (length-keys d)

as_set-old :
    (x : String) (seen xs : List String)
    → contains x seen ≡ true
    → as_set seen (x ∷ xs) ≡ as_set seen xs
unfolding as_set
as_set-old x seen xs h = rw (h, as_set) refl

as_set-new :
    (x : String) (seen xs : List String)
    → contains x seen ≡ false
    → as_set seen (x ∷ xs) ≡ x ∷ as_set (x ∷ seen) xs
unfolding as_set
as_set-new x seen xs h = rw (h, as_set) refl

as_set-fresh :
    (xs seen ys : List String)
    → Distinct xs
    → Apart xs seen
    → length (as_set seen (xs ++ ys)) ≡ length xs + length (as_set (onto xs seen) ys)
unfolding as_set
as_set-fresh [] seen ys d apart = omega arith
as_set-fresh (x ∷ xs) seen ys (new, d) (here, later) =
    rw (as_set-new x seen (xs ++ ys) here)
      (omega (arith, as_set-fresh xs (x ∷ seen) ys d (Apart-cons x xs seen new later)))

contains-onto :
    (k : String) (xs seen : List String)
    → contains k (onto xs seen) ≡ (contains k xs || contains k seen)
contains-onto k [] seen = refl
contains-onto k (x ∷ xs) seen = ground (arith, contains-onto k xs (x ∷ seen))

contains-keys : (k : String) (d : Records) → contains k (keys d) ≡ has_key k d
unfolding get
contains-keys k [] = refl
contains-keys k ((j, v) ∷ d) = ground (arith, contains-keys k d, eq_iff k j, eq_iff j k)

as_set-not_among :
    (expected records : Records) (seen added : List String)
    → ((k : String) → contains k seen ≡ (has_key k expected || contains k added))
    → Distinct (keys records)
    → Apart (keys records) added
    → length (as_set seen (keys records)) ≡ length (not_among expected records)
unfolding not_among as_set
as_set-not_among expected [] seen added same d apart = refl
as_set-not_among expected ((k, v) ∷ records) seen added same (new, d) (here, later) =
    elim (Bool-cases (has_key k expected)) [
      | inl old ↦
          let known : contains k seen ≡ true = same k ∙ rw old refl in
          rw (as_set-old k seen (keys records) known, old)
            (as_set-not_among expected records seen added same d later)
      | inr fresh ↦
          let unknown : contains k seen ≡ false = same k ∙ rw (fresh, here) refl in
          rw (as_set-new k seen (keys records) unknown, fresh)
            (ap suc (
              as_set-not_among expected records (k ∷ seen) (k ∷ added) (λ j. ground (arith, same j))
                d (Apart-cons k (keys records) added new later)))
    ]

against-le : (id : String) (e : Object) (o : Option Object) → length (against id e o) ≤ 1
against-le id e none = omega arith
against-le id e (some current) = one (mismatches current (sort_keys e))
  where
    one : (fields : List Object) → length (mismatch id fields) ≤ 1
    one [] = omega arith
    one (f ∷ fields) = omega arith

of_expected-le : (actual records : Records) → length (of_expected actual records) ≤ length records
unfolding of_expected
of_expected-le actual [] = omega arith
of_expected-le actual ((id, e) ∷ records) = omega (
  arith,
  length-append {0} (against id e (get id actual)),
  against-le id e (get id actual),
  of_expected-le actual records,
)

length-unexpected : (records : Records) → length (unexpected records) ≡ length records
length-unexpected [] = refl
length-unexpected ((id, e) ∷ records) = ap suc (length-unexpected records)

-- Where each side has one record for each id, a pass reports at most one discrepancy for each id
-- that it checked: the count of matched records is not negative.
pub drift_count-le-checked :
    (tenant_id erp_platform scope run_id completed_at : String) (expected actual : Records)
    → Distinct (keys expected)
    → Distinct (keys actual)
    → let r = reconcile tenant_id erp_platform scope expected actual run_id completed_at in
      drift_count r ≤ r.checked
unfolding reconcile compare
drift_count-le-checked tenant_id erp_platform scope run_id completed_at expected actual de da =
    let seen = onto (keys expected) [] in
    let known : (k : String) → contains k seen ≡ (has_key k expected || contains k []) =
      λ k. contains-onto k (keys expected) [] ∙ ap (λ b. b || false) (contains-keys k expected) in
    omega (
      arith,
      length-append {0} (of_expected actual (sort_keys expected))
          (unexpected (sort_keys (not_among expected actual))),
      of_expected-le actual (sort_keys expected),
      length-sort_keys {0} expected,
      length-unexpected (sort_keys (not_among expected actual)),
      length-sort_keys {0} (not_among expected actual),
      length-keys expected,
      as_set-fresh (keys expected) [] (keys actual) de (Apart-nil (keys expected)),
      as_set-not_among expected actual seen [] known da (Apart-nil (keys actual)),
    )
