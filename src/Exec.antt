-- ===== src/Exec.antt =====
-- Methods on the state of an object, which may raise: a call gives the outcome and the state it
-- leaves, also where it raised halfway.
pub mod Triple
use cavi_erp.Prelude.{Option, Bool, true, false}
use cavi_erp.Error.{Error, Result, ok, err}

abbrev pub Exec {κ} : Type κ → Type κ → Type κ
Exec Obj Out = Obj → Result Out × Obj

module _ {κ} {Obj Out : Type κ} where
  -- A function that does not touch the state.
  abbrev pub lift : Result Out → Exec Obj Out
  lift outcome obj = (outcome, obj)

  abbrev pub pure : Out → Exec Obj Out
  pure out = lift (ok out)

  abbrev pub raise : Error → Exec Obj Out
  raise error = lift (err error)

  abbrev pub gets : (Obj → Out) → Exec Obj Out
  gets f obj = (ok (f obj), obj)

abbrev pub modify : {Obj : Type 0} → (Obj → Obj) → Exec Obj (Unit {0})
modify f obj = (ok tt, f obj)

module _ {κ} {Obj Out Next : Type κ} where
  abbrev pub go_on : (Out → Exec Obj Next) → Result Out → Obj → Result Next × Obj
  go_on next (err error) obj = (err error, obj)
  go_on next (ok out) obj = next out obj

  unfoldable pub ◌>>=◌ : Exec Obj Out → (Out → Exec Obj Next) → Exec Obj Next
  ◌>>=◌ method next obj = let (outcome, left) = method obj in go_on next outcome left

  infixl 5 ◌>>=◌
  abbrev pub ◌>>◌ : Exec Obj Out → Exec Obj Next → Exec Obj Next
  first >> second = first >>= λ _. second

  infixl 5 ◌>>◌

module _ {ℓ} {S A : Type ℓ} where
  -- `try: m except: h`, where `h` says what each exception leads to; it raises again what it does
  -- not handle.
  abbrev pub rescue : (Error → Exec S A) → Result A × S → Result A × S
  rescue h (ok a, s) = (ok a, s)
  rescue h (err e, s) = h e s

  unfoldable pub handle : Exec S A → (Error → Exec S A) → Exec S A
  handle m h s = rescue h (m s)

  -- A call under `try` whose outcome the code goes on to look at.
  unfoldable pub attempt : Exec S A → Exec S (Result A)
  attempt m s = (ok (m s).0, (m s).1)
