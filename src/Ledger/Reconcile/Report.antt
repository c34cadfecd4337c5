-- ===== src/Ledger/Reconcile/Report.antt =====
-- What a reconciliation report says: when it is empty, what its findings mean, how many there are.
use cavi_erp.Prelude.{
  ◌≡◌, ◌≢◌, ◌↔◌, ◌⊎◌, refl, sym, ◌∙◌, inl, inr, String, true, false, Bool-cases, Option, none, some,
  List, [], ◌∷◌, ◌++◌, string_eq, length, All, Any, All-append, arith,
}
use mathlib.Core.Path.{subst}
use cavi_erp.Dict.{get, has_key}
use cavi_erp.Json.{Value, Object, same}
use cavi_erp.Json.Dumps.{sort_keys}
use cavi_erp.Json.Sorted.{All-sort_keys, length-sort_keys}
use cavi_erp.Ledger.Reconcile.{
  Records, Discrepancy, missing_in_erp, unexpected_in_erp, field_mismatch, or_null, mismatches,
  mismatch, against, of_expected, not_among, unexpected, compare,
}

-- The ERP record agrees with the expected value of a managed field; a field that the ERP record
-- does not have counts as null.
abbrev pub Agrees : Object → String × Value → Type 0
Agrees current (name, value) = same value (or_null (get name current)) ≡ true

-- The ERP holds a record under this id that agrees with every managed field.
abbrev pub InStep : Records → String × Object → Type 0
InStep actual (id, expected) =
    (current : Object) × (get id actual ≡ some current) × All (Agrees current) expected

abbrev pub IsExpected : Records → String × Object → Type 0
IsExpected expected (id, current) = has_key id expected ≡ true

append-eq-nil {ℓ} : {A : Type ℓ} (xs ys : List A) → (xs ++ ys ≡ []) ↔ ((xs ≡ []) × (ys ≡ []))
append-eq-nil [] ys = ground arith
append-eq-nil (x ∷ xs) ys = ground arith

mismatches-nil :
    (current fields : Object) → (mismatches current fields ≡ []) ↔ All (Agrees current) fields
unfolding mismatches
mismatches-nil current [] = (λ _. tt, λ _. refl)
mismatches-nil current ((name, value) ∷ fields) =
    let rest = mismatches-nil current fields in
    elim (Bool-cases (same value (or_null (get name current)))) [
      | inl equal ↦ rw equal (λ h. (refl, rest.0 h), λ h. rest.1 h.1)
      | inr other ↦ rw other (λ h. cc, λ h. cc)
    ]

mismatch-nil : (id : String) (fields : List Object) → (mismatch id fields ≡ []) ↔ (fields ≡ [])
mismatch-nil id [] = (λ _. refl, λ _. refl)
mismatch-nil id (f ∷ fields) = (λ h. cc, λ h. cc)

against-nil :
    (actual : Records) (id : String) (expected : Object)
    → (against id expected (get id actual) ≡ []) ↔ InStep actual (id, expected)
against-nil actual id expected = found (get id actual) refl
  where
    found :
        (o : Option Object)
        → get id actual ≡ o
        → (against id expected o ≡ []) ↔ InStep actual (id, expected)
    found none absent = (λ h. cc, λ (current, present, _). cc)
    found (some current) present =
        let one = mismatch-nil id (mismatches current (sort_keys expected)) in
        let fields = mismatches-nil current (sort_keys expected) in
        let sorted = All-sort_keys (Agrees current) expected in
        (
          λ h. (current, present, sorted.0 (fields.0 (one.0 h))),
          λ (c, p, agrees).
              let it : c ≡ current = cc in
              one.1 (fields.1 (sorted.1 (subst (λ x. All (Agrees x) expected) it agrees))),
        )

of_expected-nil :
    (actual records : Records) → (of_expected actual records ≡ []) ↔ All (InStep actual) records
unfolding of_expected
of_expected-nil actual [] = (λ _. tt, λ _. refl)
of_expected-nil actual ((id, expected) ∷ records) =
    let here = against-nil actual id expected in
    let rest = of_expected-nil actual records in
    let both = append-eq-nil (against id expected (get id actual)) (of_expected actual records) in
    (
      λ h. let (first, later) = both.0 h in (here.0 first, rest.0 later),
      λ (first, later). both.1 (here.1 first, rest.1 later),
    )

unexpected-nil : (records : Records) → (unexpected records ≡ []) ↔ (length records ≡ 0)
unexpected-nil [] = (λ h. refl, λ h. refl)
unexpected-nil ((id, current) ∷ records) = (λ h. cc, λ h. absurd (omega arith))

not_among-nil :
    (expected records : Records)
    → (length (not_among expected records) ≡ 0) ↔ All (IsExpected expected) records
unfolding not_among
not_among-nil expected [] = (λ _. tt, λ _. refl)
not_among-nil expected ((id, current) ∷ records) =
    let rest = not_among-nil expected records in
    elim (Bool-cases (has_key id expected)) [
      | inl known ↦ rw known (λ h. (refl, rest.0 h), λ h. rest.1 h.1)
      | inr new ↦ rw new (λ h. absurd (omega arith), λ h. cc)
    ]

-- A pass reports nothing exactly when the ERP holds, for every expected record, a record that
-- agrees with all its managed fields, and no record under an id that is not expected.
pub compare-nil :
    (expected actual : Records)
    → (compare expected actual ≡ [])
      ↔ (All (InStep actual) expected × All (IsExpected expected) actual)
unfolding compare
compare-nil expected actual =
    let sorted = All-sort_keys (InStep actual) expected in
    let first = of_expected-nil actual (sort_keys expected) in
    let rest = not_among-nil expected actual in
    let second = unexpected-nil (sort_keys (not_among expected actual)) in
    let both =
      append-eq-nil (of_expected actual (sort_keys expected))
        (unexpected (sort_keys (not_among expected actual))) in
    (
      λ h.
          let (a, b) = both.0 h in
          (
            sorted.0 (first.0 a),
            rest.0 (sym (length-sort_keys (not_among expected actual)) ∙ second.0 b),
          ),
      λ (a, b). both.1 (
        first.1 (sorted.1 a),
        second.1 (length-sort_keys (not_among expected actual) ∙ rest.1 b),
      ),
    )

-- What a reported discrepancy says of the two sides.
abbrev pub Reported : Records → Records → Discrepancy → Type 0
Reported expected actual d =
    ((record' : Object) × (d.kind ≡ missing_in_erp)
      × Any (λ p. p ≡ (d.external_id, record')) expected
      × (get d.external_id actual ≡ none))
    ⊎ ((record' current : Object) × (d.kind ≡ field_mismatch)
        × Any (λ p. p ≡ (d.external_id, record')) expected
        × (get d.external_id actual ≡ some current)
        × (d.fields ≡ mismatches current (sort_keys record'))
        × (d.fields ≢ []))
    ⊎ ((current : Object) × (d.kind ≡ unexpected_in_erp)
        × Any (λ p. p ≡ (d.external_id, current)) actual
        × (has_key d.external_id expected ≡ false))

All-Any :
    (all : Records) (l : Records)
    → ((p : String × Object) → Any (λ q. q ≡ p) l → Any (λ q. q ≡ p) all)
    → All (λ p. Any (λ q. q ≡ p) all) l
All-Any all [] within = tt
All-Any all (p ∷ l) within = (within p (inl refl), All-Any all l (λ q a. within q (inr a)))

module _ (expected actual : Records) where
  mismatch-Reported :
      (id : String) (record' current : Object)
      → Any (λ p. p ≡ (id, record')) expected
      → get id actual ≡ some current
      → (fields : List Object) → fields ≡ mismatches current (sort_keys record')
      → All (Reported expected actual) (mismatch id fields)
  mismatch-Reported id record' current known present [] e = tt
  mismatch-Reported id record' current known present (f ∷ fields) e =
      (inr (inl (record', current, refl, known, present, e, λ h. cc)), tt)

  against-Reported :
      (id : String) (record' : Object)
      → Any (λ p. p ≡ (id, record')) expected
      → (o : Option Object) → get id actual ≡ o
      → All (Reported expected actual) (against id record' o)
  against-Reported id record' known none absent = (inl (record', refl, known, absent), tt)
  against-Reported id record' known (some current) present =
      mismatch-Reported id record' current known present _ refl

  of_expected-Reported :
      (records : Records)
      → All (λ p. Any (λ q. q ≡ p) expected) records
      → All (Reported expected actual) (of_expected actual records)
  unfolding of_expected
  of_expected-Reported [] known = tt
  of_expected-Reported ((id, record') ∷ records) (here, later) =
      All-append _ (against id record' (get id actual)) _
        (against-Reported id record' here (get id actual) refl) (of_expected-Reported records later)

  abbrev IsExtra : String × Object → Type 0
  IsExtra (id, current) = Any (λ p. p ≡ (id, current)) actual × (has_key id expected ≡ false)

  not_among-IsExtra :
      (records : Records)
      → All (λ p. Any (λ q. q ≡ p) actual) records
      → All IsExtra (not_among expected records)
  unfolding not_among
  not_among-IsExtra [] known = tt
  not_among-IsExtra ((id, current) ∷ records) (here, later) =
      elim (Bool-cases (has_key id expected)) [
        | inl old ↦ rw old (not_among-IsExtra records later)
        | inr new ↦ rw new ((here, new), not_among-IsExtra records later)
      ]

  unexpected-Reported :
      (records : Records)
      → All IsExtra records
      → All (Reported expected actual) (unexpected records)
  unexpected-Reported [] all = tt
  unexpected-Reported ((id, current) ∷ records) ((known, new), all) =
      (inr (inr (current, refl, known, new)), unexpected-Reported records all)

  -- Every reported discrepancy says what is the case: an expected record whose id the ERP does not
  -- hold, an expected record and the ERP's with the managed fields that differ, or an ERP record
  -- under an id that is not expected.
  pub compare-Reported : All (Reported expected actual) (compare expected actual)
  unfolding compare
  compare-Reported =
      All-append _ (of_expected actual (sort_keys expected)) _
        (of_expected-Reported _
          ((All-sort_keys _ expected).1 (All-Any expected expected (λ p a. a))))
        (unexpected-Reported _ (
          (All-sort_keys IsExtra (not_among expected actual)).1
            (not_among-IsExtra actual (All-Any actual actual (λ p a. a)))))
