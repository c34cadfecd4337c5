-- ===== src/Forge/NetSuite/Records.antt =====
-- The records that NetSuite holds, as its documented upsert by external id changes them. Which requests
-- it carries out is a parameter.
use mathlib.Core.List.{append_assoc, append-nil}
use cavi_erp.Prelude.{
  ◌≡◌, ◌≢◌, refl, sym, ◌∙◌, inl, inr, String, Bool, true, false, Option-cases, Option, none, some,
  [], ◌∷◌, ◌++◌, arith, ◌==◌, string_eq, eq_iff, if◌then◌else◌, ◌&&◌,
}
use cavi_erp.Dict.{Dict, get, put, merge}
use cavi_erp.Dict.Laws.{get-put, get-put_self}
use cavi_erp.Json.{Value, Object}
use cavi_erp.Forge.NetSuite.{Request, Wire}

-- The records, by the URL that they stand under.
abbrev pub Records : Type 0
Records = Dict String Object

abbrev pub or_empty : Option Object → Object
or_empty none = []
or_empty (some o) = o

-- An upsert sets the fields that the body names and leaves the others.
unfoldable pub upsert : String → Object → Records → Records
upsert url body records = put url (merge (or_empty (get url records)) body) records

module _ (accepts : Wire → Request → Bool) where
  unfoldable pub carry_out : Wire → Request → Records → Records
  unfolding upsert
  carry_out before r records =
      if r.verb == "PUT" && accepts before r
      then upsert r.url (or_empty r.json) records
      else records

  -- The records after these requests, of which the first comes after `before`.
  unfoldable pub records_after : Wire → Wire → Records → Records
  unfolding carry_out
  records_after before [] records = records
  records_after before (r ∷ rs) records =
      records_after (before ++ r ∷ []) rs (carry_out before r records)

  pub records_after-snoc :
      (before sent : Wire) (r : Request) (records : Records)
      → records_after before (sent ++ r ∷ []) records
        ≡ carry_out (before ++ sent) r (records_after before sent records)
  unfolding records_after
  records_after-snoc before [] r records = rw append-nil refl
  records_after-snoc before (x ∷ sent) r records =
      records_after-snoc (before ++ x ∷ []) sent r (carry_out before x records)
      ∙ rw append_assoc refl

abbrev first_of : Option Value → Option Value → Option Value
first_of none later = later
first_of (some v) later = some v

-- The value that the last entry for a key gives.
last_get : String → Object → Option Value
last_get k [] = none
last_get k ((j, v) ∷ b) = first_of (last_get k b) (if j == k then some v else none)

first_of-if :
    (b : Bool) (v : Value) (later : Option Value)
    → (if b then some v else later) ≡ first_of (if b then some v else none) later
first_of-if true v later = refl
first_of-if false v later = refl

get-merge : (k : String) (a b : Object) → get k (merge a b) ≡ first_of (last_get k b) (get k a)
unfolding merge last_get
get-merge k a [] = refl
get-merge k a ((j, v) ∷ b) = elim (Option-cases (last_get k b)) [
  | inl gone ↦
      rw gone
        (get-merge k (put j v a) b ∙ rw gone (get-put j k v a ∙ first_of-if (j == k) v (get k a)))
  | inr (w, there) ↦ rw there (get-merge k (put j v a) b ∙ rw there refl)
]

-- Two records that agree on every field.
abbrev pub SameRecord : Object → Object → Type 0
SameRecord a b = (k : String) → get k a ≡ get k b

-- Merging a body into a record that already has it changes no field.
merge_again : (r a b : Object) → SameRecord r (merge a b) → SameRecord (merge r b) (merge a b)
merge_again r a b has k = elim (Option-cases (last_get k b)) [
  | inl gone ↦ get-merge k r b ∙ rw gone (has k)
  | inr (w, there) ↦ get-merge k r b ∙ rw there (sym (get-merge k a b ∙ rw there refl))
]

module _ (url : String) (body : Object) where
  -- The later records are the earlier ones, with the body merged into the record under the URL.
  abbrev pub Written : Records → Records → Type 0
  Written start left =
      ((u : String) → url ≢ u → get u left ≡ get u start)
      × (stored : Object) × (get url left ≡ some stored)
      × SameRecord stored (merge (or_empty (get url start)) body)

  pub upsert-Written : (start : Records) → Written start (upsert url body start)
  unfolding upsert
  upsert-Written start = (
    λ u other. get-put url u _ start ∙ ground (arith, eq_iff url u),
    merge (or_empty (get url start)) body,
    get-put_self url _ start,
    λ k. refl,
  )

  pub Written-trans : (a b d : Records) → Written a b → Written b d → Written a d
  Written-trans a b d (others, stored, at_b, same) (others', stored', at_d, same') = (
    λ u other. others' u other ∙ others u other,
    stored',
    at_d,
    λ k. rw at_b at (same' k) ∙ merge_again stored (or_empty (get url a)) body same k,
  )
