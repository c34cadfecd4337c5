-- ===== src/Mapper/Records/Targets.antt =====
-- The fields of a source arrive under their targets.
use cavi_erp.Prelude.{
  ◌≡◌, ◌≢◌, sym, ap, ◌∙◌, inl, inr, String, Option-cases, some, List, [], ◌∷◌, string_eq, eq_iff,
  All, arith,
}
use cavi_erp.Dict.{Dict, get, put, values}
use cavi_erp.Dict.Laws.{get-put, get-put_self}
use cavi_erp.Json.{Value, Object}
use cavi_erp.Error.{ok, >>=-eq-ok}
use cavi_erp.Mapper.Records.{Converter, LineMapping, converted, carried, carry}

-- The targets of a mapping: of its fields, and of its tables.
abbrev pub line_targets : Dict String LineMapping → List String
line_targets [] = []
line_targets ((_, m) ∷ tables) = m.target ∷ line_targets tables

abbrev pub Apart : String → List String → Type 0
Apart target targets = All (λ (t : String). t ≢ target) targets

-- No two targets are the same.
abbrev pub AllApart : List String → Type 0
AllApart [] = Unit
AllApart (t ∷ targets) = Apart t targets × AllApart targets

-- The field's value, if it is there and not null, stands converted under the target.
abbrev pub Arrives : Dict String Converter → Object → Object → String × String → Type 0
Arrives converters source out (src, target) =
    (v : Value)
    → carried (get src source) ≡ some v
    → (w : Value) × (converted (get src converters) v ≡ ok w) × (get target out ≡ some w)

pub carry-other :
    (converters : Dict String Converter) (fields : Dict String String) (source out left : Object)
    (target : String)
    → Apart target (values fields)
    → carry converters fields source out ≡ ok left
    → get target left ≡ get target out
unfolding carry
carry-other converters [] source out left target apart e = ap (get target) (sym (ok_inj e))
  where
    ok_inj : {A : Type 0} {a b : A} → ok a ≡ ok b → a ≡ b
    ok_inj e = cc
carry-other converters ((src, t) ∷ fields) source out left target (other, apart) e =
    elim (Option-cases (carried (get src source))) [
      | inl absent ↦
          carry-other converters fields source out left target apart (rw (carry, absent) at e)
      | inr (v, there) ↦
          let (w, _, rest) =
            >>=-eq-ok (converted (get src converters) v) _ (rw (carry, there) at e) in
          carry-other converters fields source (put t w out) left target apart rest
          ∙ get-put t target w out
          ∙ ground (arith, eq_iff t target)
    ]

pub carry-Arrives :
    (converters : Dict String Converter) (fields : Dict String String) (source out left : Object)
    → AllApart (values fields)
    → carry converters fields source out ≡ ok left
    → All (Arrives converters source left) fields
unfolding carry
carry-Arrives converters [] source out left apart e = tt
carry-Arrives converters ((src, t) ∷ fields) source out left (other, apart) e =
    elim (Option-cases (carried (get src source))) [
      | inl absent ↦ (
        (λ v there. cc (absent, there)),
        carry-Arrives converters fields source out left apart (rw (carry, absent) at e),
      )
      | inr (v, there) ↦
          let (w, made, rest) =
            >>=-eq-ok (converted (get src converters) v) _ (rw (carry, there) at e) in
          (
            (λ v' there'.
                let same : v ≡ v' = cc in
                (
                  w,
                  rw (← same) made,
                  carry-other converters fields source (put t w out) left t other rest
                      ∙ get-put_self t w out,
                )),
            carry-Arrives converters fields source (put t w out) left apart rest,
          )
    ]
