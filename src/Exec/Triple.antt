-- ===== src/Exec/Triple.antt =====
-- What a method establishes, when it returns and when it raises: one rule for each way to build a
-- method.
use cavi_erp.Prelude.{◌≡◌, refl, Bool, true, false, if◌then◌else◌}
use cavi_erp.Error.{Error, Result, ok, err}
use cavi_erp.Exec
use cavi_erp.Exec.{Exec, pure, raise, lift, gets, modify, ◌>>=◌, handle, attempt}

-- `Q` of the value and the state after a return, `E` of the state after a raise.
abbrev pub After {ℓ} : {S A : Type ℓ} → (A → S → Type ℓ) → (S → Type ℓ) → Result A × S → Type ℓ
After Q E (ok a, s) = Q a s
After Q E (err e, s) = E s

pub record Triple {ℓ} {S A : Type ℓ} (P : S → Type ℓ) (m : Exec S A) (Q : A → S → Type ℓ)
    (E : S → Type ℓ) : Type ℓ where
  pub at : (s : S) → P s → After Q E (m s)

-- A method that keeps `P`, whether it returns or raises.
abbrev pub Keeps {ℓ} : {S A : Type ℓ} → (S → Type ℓ) → Exec S A → Type ℓ
Keeps P m = Triple P m (λ _. P) P

module _ {ℓ} {S A : Type ℓ} {P : S → Type ℓ} {E : S → Type ℓ} where
  pub Triple-pure : (Q : A → S → Type ℓ) (a : A) → ((s : S) → P s → Q a s) → Triple P (pure a) Q E
  Triple-pure Q a h = record { at = h }

  pub Triple-if :
      (b : Bool) (m n : Exec S A) (Q : A → S → Type ℓ)
      → (b ≡ true → Triple P m Q E)
      → (b ≡ false → Triple P n Q E)
      → Triple P (if b then m else n) Q E
  Triple-if true m n Q tm tn = tm refl
  Triple-if false m n Q tm tn = tn refl

module _ {ℓ} {S A : Type ℓ} {P : S → Type ℓ} where
  pub Keeps-raise : (error : Error) → Keeps P (raise {Obj = S} {Out = A} error)
  Keeps-raise error = record { at = λ obj p. p }

  pub Keeps-pure : (out : A) → Keeps P (pure {Obj = S} out)
  Keeps-pure out = record { at = λ obj p. p }

  pub Keeps-lift : (outcome : Result A) → Keeps P (lift {Obj = S} outcome)
  Keeps-lift (err error) = record { at = λ obj p. p }
  Keeps-lift (ok out) = record { at = λ obj p. p }

  pub Triple-lift : (r : Result A) → Triple P (lift r) (λ a s. P s × (r ≡ ok a)) P
  Triple-lift (ok a) = record { at = λ s h. (h, refl) }
  Triple-lift (err e) = record { at = λ s h. h }

  pub Keeps-if : (b : Bool) (m n : Exec S A) → Keeps P m → Keeps P n → Keeps P (if b then m else n)
  Keeps-if true m n km kn = km
  Keeps-if false m n km kn = kn

  pub Keeps-handle :
      (m : Exec S A) (h : Error → Exec S A)
      → Keeps P m
      → ((e : Error) → Keeps P (h e))
      → Keeps P (handle m h)
  unfolding handle
  Keeps-handle m h km kh = record { at = λ s p. rescued (m s) (km.at s p) }
    where
      rescued : (r : Result A × S) → After (λ _. P) P r → After (λ _. P) P (Exec.rescue h r)
      rescued (ok a, s) p = p
      rescued (err e, s) p = (kh e).at s p

  pub Keeps-attempt : (m : Exec S A) → Keeps P m → Keeps P (attempt m)
  unfolding attempt
  Keeps-attempt m km = record { at = λ s p. tried (m s) (km.at s p) }
    where
      tried : (r : Result A × S) → After (λ _. P) P r → P r.1
      tried (ok a, s) p = p
      tried (err e, s) p = p

module _ {ℓ} {S A B : Type ℓ} {P : S → Type ℓ} {E : S → Type ℓ} where
  pub Triple-bind :
      (m : Exec S A) (f : A → Exec S B) (R : A → S → Type ℓ) (Q : B → S → Type ℓ)
      → Triple P m R E
      → ((a : A) → Triple (R a) (f a) Q E)
      → Triple P (m >>= f) Q E
  unfolding ◌>>=◌
  Triple-bind m f R Q tm tf = record { at = λ s p. went_on (m s) (tm.at s p) }
    where
      went_on : (r : Result A × S) → After R E r → After Q E (Exec.go_on f r.0 r.1)
      went_on (ok a, s) p = (tf a).at s p
      went_on (err e, s) p = p

module _ {ℓ} {S A B : Type ℓ} {P : S → Type ℓ} where
  pub Keeps-bind :
      (m : Exec S A) (f : A → Exec S B) → Keeps P m → ((a : A) → Keeps P (f a)) → Keeps P (m >>= f)
  Keeps-bind m f km kf = Triple-bind m f (λ _. P) (λ _. P) km kf

pub ruleset keeps_rules =
    (Keeps-pure, Keeps-raise, Keeps-lift, Keeps-if, Keeps-handle, Keeps-attempt, Keeps-bind)

-- A fact about a returned value.
abbrev pub Yields {ℓ} : {A : Type ℓ} → (A → Type ℓ) → Result A → Type ℓ
Yields Y (ok a) = Y a
Yields Y (err e) = Unit

module _ {ℓ} {S A : Type ℓ} {P : S → Type ℓ} where
  pub Triple-gets :
      (f : S → A) (Y : A → Type ℓ)
      → ((s : S) → P s → Y (f s))
      → Triple P (gets f) (λ a s. P s × Y a) P
  Triple-gets f Y known = record { at = λ s p. (p, known s p) }

  pub Triple-attempt :
      (m : Exec S A) (Y : A → Type ℓ)
      → Triple P m (λ a s. P s × Y a) P
      → Triple P (attempt m) (λ r s. P s × Yields Y r) P
  unfolding attempt
  Triple-attempt m Y tm = record { at = λ s p. tried (m s) (tm.at s p) }
    where
      tried : (r : Result A × S) → After (λ a s. P s × Y a) P r → P r.1 × Yields Y r.0
      tried (ok a, s) p = p
      tried (err e, s) p = (p, tt)

  -- A fact about the value that the code goes on with may be used for the rest.
  pub Triple-given :
      {X : Type ℓ} (m : Exec S A) (Q : A → S → Type ℓ)
      → (X → Triple P m Q P)
      → Triple (λ s. P s × X) m Q P
  Triple-given m Q t = record { at = λ s (p, x). (t x).at s p }

  -- What a method keeps holds of the state that it leaves, however it ends.
  pub Keeps-state : (m : Exec S A) (s : S) → Keeps P m → P s → P (m s).1
  Keeps-state m s k p = left (m s) (k.at s p)
    where
      left : (r : Result A × S) → After (λ _. P) P r → P r.1
      left (ok a, s) p = p
      left (err e, s) p = p
