-- ===== src/Json/TextOrder.antt =====
-- The order of texts that sorting uses is total and transitive.
use Prim.Native.Nat.compare as compare_ℕ
use Prim.Native.Nat.{Ordering, compare as compare_ℕ}
use Prim.Native.Char.{code}
use Prim.Native.String
use Prim.Native.String.compare
use cavi_erp.Prelude.{◌≡◌, inl, inr, refl, true, false, String, ℕ, zero, suc, Bool-cases}
use cavi_erp.Json.Dumps.{text_le}

-- What the comparisons of m with n and of n with p tell about m and p.
abbrev Chained : Ordering → Ordering → Ordering → Type 0
Chained Ordering.lt Ordering.lt o = o ≡ Ordering.lt
Chained Ordering.lt Ordering.eq o = o ≡ Ordering.lt
Chained Ordering.lt Ordering.gt o = Unit
Chained Ordering.eq x o = o ≡ x
Chained Ordering.gt x o = Unit

compare_ℕ-Chained : (m n p : ℕ) → Chained (compare_ℕ m n) (compare_ℕ n p) (compare_ℕ m p)
compare_ℕ-Chained zero zero zero = rw compare_ℕ.zero-zero refl
compare_ℕ-Chained zero zero (suc p) = refl
compare_ℕ-Chained zero (suc n) zero = rw (compare_ℕ.zero-suc n, compare_ℕ.suc-zero n) tt
compare_ℕ-Chained zero (suc n) (suc p) =
    rw (compare_ℕ.zero-suc n, compare_ℕ.suc-suc n p, compare_ℕ.zero-suc p) (below (compare_ℕ n p))
  where
    below : (o : Ordering) → Chained Ordering.lt o Ordering.lt
    below Ordering.lt = refl
    below Ordering.eq = refl
    below Ordering.gt = tt
compare_ℕ-Chained (suc m) zero p = rw (compare_ℕ.suc-zero m) tt
compare_ℕ-Chained (suc m) (suc n) zero =
    rw (compare_ℕ.suc-suc m n, compare_ℕ.suc-zero n, compare_ℕ.suc-zero m) (above (compare_ℕ m n))
  where
    above : (o : Ordering) → Chained o Ordering.gt Ordering.gt
    above Ordering.lt = tt
    above Ordering.eq = refl
    above Ordering.gt = tt
compare_ℕ-Chained (suc m) (suc n) (suc p) =
    rw (compare_ℕ.suc-suc m n, compare_ℕ.suc-suc n p, compare_ℕ.suc-suc m p)
      (compare_ℕ-Chained m n p)

then-Chained :
    (a b c a' b' c' : Ordering)
    → Chained a b c
    → Chained a' b' c'
    → Chained (String.then a a') (String.then b b') (String.then c c')
then-Chained Ordering.lt Ordering.lt c a' b' c' h h' = rw h refl
then-Chained Ordering.lt Ordering.eq c a' Ordering.lt c' h h' = rw h refl
then-Chained Ordering.lt Ordering.eq c a' Ordering.eq c' h h' = rw h refl
then-Chained Ordering.lt Ordering.eq c a' Ordering.gt c' h h' = tt
then-Chained Ordering.lt Ordering.gt c a' b' c' h h' = tt
then-Chained Ordering.eq Ordering.lt c Ordering.lt b' c' h h' = rw h refl
then-Chained Ordering.eq Ordering.lt c Ordering.eq b' c' h h' = rw h refl
then-Chained Ordering.eq Ordering.lt c Ordering.gt b' c' h h' = tt
then-Chained Ordering.eq Ordering.eq c a' b' c' h h' = rw h h'
then-Chained Ordering.eq Ordering.gt c Ordering.lt b' c' h h' = tt
then-Chained Ordering.eq Ordering.gt c Ordering.eq b' c' h h' = rw h refl
then-Chained Ordering.eq Ordering.gt c Ordering.gt b' c' h h' = tt
then-Chained Ordering.gt b c a' b' c' h h' = tt

compare-Chained :
    (s t u : String) → Chained (String.compare s t) (String.compare t u) (String.compare s u)
compare-Chained String.[] String.[] String.[] = rw compare.nil-nil refl
compare-Chained String.[] String.[] (String.◌∷◌ e u) = refl
compare-Chained String.[] (String.◌∷◌ d t) String.[] =
    rw (compare.nil-cons d t, compare.cons-nil d t) tt
compare-Chained String.[] (String.◌∷◌ d t) (String.◌∷◌ e u) =
    rw (compare.nil-cons d t, compare.nil-cons e u)
      (below (String.compare (String.◌∷◌ d t) (String.◌∷◌ e u)))
  where
    below : (o : Ordering) → Chained Ordering.lt o Ordering.lt
    below Ordering.lt = refl
    below Ordering.eq = refl
    below Ordering.gt = tt
compare-Chained (String.◌∷◌ c s) String.[] u = rw (compare.cons-nil c s) tt
compare-Chained (String.◌∷◌ c s) (String.◌∷◌ d t) String.[] =
    rw (compare.cons-nil d t, compare.cons-nil c s)
      (above (String.compare (String.◌∷◌ c s) (String.◌∷◌ d t)))
  where
    above : (o : Ordering) → Chained o Ordering.gt Ordering.gt
    above Ordering.lt = tt
    above Ordering.eq = refl
    above Ordering.gt = tt
compare-Chained (String.◌∷◌ c s) (String.◌∷◌ d t) (String.◌∷◌ e u) =
    rw (compare.cons-cons c d s t, compare.cons-cons d e t u, compare.cons-cons c e s u)
      (then-Chained _ _ _ _ _ _ (compare_ℕ-Chained (code c) (code d) (code e))
        (compare-Chained s t u))

abbrev NotAbove : Ordering → Type 0
NotAbove o = elim o [ Ordering.gt ↦ false | _ ↦ true ] ≡ true

pub text_le_trans : (s t u : String) → text_le s t ≡ true → text_le t u ≡ true → text_le s u ≡ true
text_le_trans s t u =
    passed (String.compare s t) (String.compare t u) (String.compare s u) (compare-Chained s t u)
  where
    passed : (a b c : Ordering) → Chained a b c → NotAbove a → NotAbove b → NotAbove c
    passed Ordering.lt Ordering.lt c h _ _ = rw h refl
    passed Ordering.lt Ordering.eq c h _ _ = rw h refl
    passed Ordering.lt Ordering.gt c h _ above = cc
    passed Ordering.eq b c h _ below = rw h below
    passed Ordering.gt b c h above _ = cc

abbrev turned : Ordering → Ordering
turned Ordering.lt = Ordering.gt
turned Ordering.eq = Ordering.eq
turned Ordering.gt = Ordering.lt

compare_ℕ-turned : (m n : ℕ) → compare_ℕ n m ≡ turned (compare_ℕ m n)
compare_ℕ-turned zero zero = rw compare_ℕ.zero-zero refl
compare_ℕ-turned zero (suc n) = rw (compare_ℕ.zero-suc n, compare_ℕ.suc-zero n) refl
compare_ℕ-turned (suc m) zero = rw (compare_ℕ.zero-suc m, compare_ℕ.suc-zero m) refl
compare_ℕ-turned (suc m) (suc n) =
    rw (compare_ℕ.suc-suc m n, compare_ℕ.suc-suc n m) (compare_ℕ-turned m n)

then-turned : (a b : Ordering) → String.then (turned a) (turned b) ≡ turned (String.then a b)
then-turned Ordering.lt b = refl
then-turned Ordering.eq b = refl
then-turned Ordering.gt b = refl

compare-turned : (s t : String) → String.compare t s ≡ turned (String.compare s t)
compare-turned String.[] String.[] = rw compare.nil-nil refl
compare-turned String.[] (String.◌∷◌ d t) = rw (compare.nil-cons d t, compare.cons-nil d t) refl
compare-turned (String.◌∷◌ c s) String.[] = rw (compare.nil-cons c s, compare.cons-nil c s) refl
compare-turned (String.◌∷◌ c s) (String.◌∷◌ d t) =
    rw
      (
        compare.cons-cons c d s t,
        compare.cons-cons d c t s,
        compare_ℕ-turned (code c) (code d),
        compare-turned s t,
      )
      (then-turned (compare_ℕ (code c) (code d)) (String.compare s t))

pub text_le_total : (s t : String) → text_le s t ≡ false → text_le t s ≡ true
text_le_total s t h = rw (text_le, compare-turned s t) (other (String.compare s t) h)
  where
    other :
        (o : Ordering)
        → elim o [ Ordering.gt ↦ false | _ ↦ true ] ≡ false
        → elim (turned o) [ Ordering.gt ↦ false | _ ↦ true ] ≡ true
    other Ordering.lt h = cc
    other Ordering.eq h = cc
    other Ordering.gt h = refl

pub text_le_refl : (s : String) → text_le s s ≡ true
text_le_refl s = elim (Bool-cases (text_le s s)) [ inl h ↦ h | inr h ↦ text_le_total s s h ]
