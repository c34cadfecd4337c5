-- ===== src/Json.antt =====
-- The values of JSON documents and of event payloads, Python's `==` on them, and `json.dumps`.
-- Numbers are integers: a time or a rate stands in a payload as a text or as an integer.
pub mod Casts
pub mod TextOrder
pub mod Dumps
pub mod Sorted
use cavi_erp.Prelude.{
  ℕ, suc, ◌≡◌, refl, ap, String, Bool, true, false, ◌&&◌, List, [], ◌∷◌, Option, none, some, ◌==◌,
  if◌then◌else◌, eqb, length, string_eq,
}
use cavi_erp.Prelude.Int.{ℤ, pos, eqb_ℤ}
use cavi_erp.Dict.{Dict, get}

mutual
  pub data Value : Type 0 where
    null : Value
    bool : Bool → Value
    int : ℤ → Value
    str : String → Value
    arr : Items → Value
    obj : Fields → Value

  pub data Fields : Type 0 where
    end : Fields
    field : String → Value → Fields → Fields

  pub data Items : Type 0 where
    nil : Items
    cons : Value → Items → Items

-- The payload of an event: a `dict` whose keys are texts.
abbrev pub Object : Type 0
Object = Dict String Value

abbrev pub to_dict : Fields → Object
to_dict end = []
to_dict (field k v fs) = (k, v) ∷ to_dict fs

abbrev pub of_dict : Object → Fields
of_dict [] = end
of_dict ((k, v) ∷ d) = field k v (of_dict d)

abbrev pub to_list : Items → List Value
to_list nil = []
to_list (cons v vs) = v ∷ to_list vs

abbrev pub of_list : List Value → Items
of_list [] = nil
of_list (v ∷ vs) = cons v (of_list vs)

-- A field that is a text or null.
abbrev pub str_or_null : Option String → Value
str_or_null none = null
str_or_null (some s) = str s

abbrev pub as_str : Value → Option String
as_str (str s) = some s
as_str _ = none

abbrev pub as_obj : Value → Option Object
as_obj (obj fs) = some (to_dict fs)
as_obj _ = none

-- Python's truth of a value: `if value:`.
abbrev pub truthy : Value → Bool
truthy null = false
truthy (bool b) = b
truthy (int n) = if eqb_ℤ n (pos 0) then false else true
truthy (str s) = if s == "" then false else true
truthy (arr nil) = false
truthy (arr (cons v vs)) = true
truthy (obj end) = false
truthy (obj (field k v fs)) = true

abbrev bit : Bool → ℤ
bit true = pos 1
bit false = pos 0

-- Python's `a == b`: `True == 1`, and the order of a dictionary's keys does not count.
unfoldable mutual
  pub same : Value → Value → Bool
  same null w = elim w [ null ↦ true | _ ↦ false ]
  same (bool a) w = elim w [ bool b ↦ eqb_ℤ (bit a) (bit b) | int n ↦ eqb_ℤ (bit a) n | _ ↦ false ]
  same (int m) w = elim w [ bool b ↦ eqb_ℤ m (bit b) | int n ↦ eqb_ℤ m n | _ ↦ false ]
  same (str s) w = elim w [ str t ↦ s == t | _ ↦ false ]
  same (arr xs) w = elim w [ arr ys ↦ same_items xs ys | _ ↦ false ]
  same (obj fs) w = elim w [
    | obj gs ↦ eqb (length (to_dict fs)) (length (to_dict gs)) && within fs gs
    | _ ↦ false
  ]

  pub same_items : Items → Items → Bool
  same_items nil ys = elim ys [ nil ↦ true | _ ↦ false ]
  same_items (cons x xs) ys = elim ys [ nil ↦ false | cons y ys' ↦ same x y && same_items xs ys' ]

  pub within : Fields → Fields → Bool
  within end gs = true
  within (field k v fs) gs =
      elim (get k (to_dict gs)) [ none ↦ false | some w ↦ same v w ] && within fs gs

same_keys_any_order :
    same
      (obj (field "a" null (field "b" (bool true) end)))
      (obj (field "b" (int (pos 1)) (field "a" null end)))
    ≡ true
unfolding same get
same_keys_any_order = refl

pub to_dict-of_dict : (d : Object) → to_dict (of_dict d) ≡ d
to_dict-of_dict [] = refl
to_dict-of_dict ((k, v) ∷ d) = λ i. (k, v) ∷ to_dict-of_dict d i

pub of_dict-to_dict : (fs : Fields) → of_dict (to_dict fs) ≡ fs
of_dict-to_dict end = refl
of_dict-to_dict (field k v fs) = ap (field k v) (of_dict-to_dict fs)
