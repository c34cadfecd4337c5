-- ===== src/Ticker/Webhook/Routing.antt =====
-- Which webhooks are accepted, and where they are sent.
use cavi_erp.Prelude.{
  ◌≡◌, ◌≢◌, ◌↔◌, refl, ap, ◌∙◌, inl, inr, String, Bool-cases, Option-cases, Option, none, some,
  List, [], ◌∷◌, ◌++◌, ◌==◌, string_eq, eq_iff, All,
}
use cavi_erp.Dict.{Dict, get, values}
use cavi_erp.Json.{Value, Object, null, bool, int, str, arr, obj}
use cavi_erp.Error.{ok}
use cavi_erp.Vault.Encoding.{strip}
use cavi_erp.Ticker.Webhook.{type_in, first_type, event_type_of, Ingestor, new_ingestor, route_for}

-- The payload holds a text under the key that is more than white space.
abbrev pub Names : Object → String → String → Type 0
Names raw_payload event_type k =
    (get k raw_payload ≡ some (str event_type)) × (strip event_type ≢ "")

-- The first of the keys under which the payload holds such a text.
abbrev pub IsFirstName : Object → String → List String → Type 0
IsFirstName raw_payload event_type keys =
    (before : List String) × (k : String) × (after : List String) × (keys ≡ before ++ k ∷ after)
    × Names raw_payload event_type k
    × All (λ j. (other : String) → ¬ Names raw_payload other j) before

type_in-some :
    (v : Option Value) (s : String) → (type_in v ≡ some s) ↔ ((v ≡ some (str s)) × (strip s ≢ ""))
unfolding type_in
type_in-some none s = (λ e. cc, λ (e, _). cc)
type_in-some (some (str t)) s = elim (Bool-cases (strip t == "")) [
  | inl blank ↦ (
    λ e. cc (rw blank at e),
    λ (e, solid).
        let same : t ≡ s = cc in absurd (solid (rw (← same) ((eq_iff (strip t) "").0 blank))),
  )
  | inr solid ↦ (
    λ e.
        let same : t ≡ s = cc (rw solid at e) in
        (cc, rw (← same) (λ b. cc (solid, (eq_iff (strip t) "").1 b))),
    λ (e, _). let same : t ≡ s = cc in rw solid (ap some same),
  )
]
type_in-some (some null) s = (λ e. cc, λ (e, _). cc)
type_in-some (some (bool b)) s = (λ e. cc, λ (e, _). cc)
type_in-some (some (int n)) s = (λ e. cc, λ (e, _). cc)
type_in-some (some (arr xs)) s = (λ e. cc, λ (e, _). cc)
type_in-some (some (obj fs)) s = (λ e. cc, λ (e, _). cc)

first_type-after :
    (raw_payload : Object) (s : String) (before : List String) (k : String) (after : List String)
    → Names raw_payload s k
    → All (λ j. (other : String) → ¬ Names raw_payload other j) before
    → first_type (before ++ k ∷ after) raw_payload ≡ some s
unfolding first_type
first_type-after raw_payload s [] k after names first =
    rw (first_type, (type_in-some (get k raw_payload) s).1 names) refl
first_type-after raw_payload s (j ∷ before) k after names (skipped, first) =
    elim (Option-cases (type_in (get j raw_payload))) [
      | inl gone ↦ rw (first_type, gone) (first_type-after raw_payload s before k after names first)
      | inr (t, there) ↦ absurd (skipped t ((type_in-some (get j raw_payload) t).0 there))
    ]

first_type-IsFirstName :
    (raw_payload : Object) (s : String) (keys : List String)
    → first_type keys raw_payload ≡ some s
    → IsFirstName raw_payload s keys
unfolding first_type
first_type-IsFirstName raw_payload s [] e = cc
first_type-IsFirstName raw_payload s (k ∷ ks) e =
    elim (Option-cases (type_in (get k raw_payload))) [
      | inr (t, there) ↦
          let same : t ≡ s = cc (rw (first_type, there) at e) in
          ([], k, ks, refl, (type_in-some (get k raw_payload) s).0 (there ∙ ap some same), tt)
      | inl gone ↦
          let (before, j, after, split, names, first) =
            first_type-IsFirstName raw_payload s ks (rw (first_type, gone) at e) in
          (
            k ∷ before,
            j,
            after,
            ap (λ l. k ∷ l) split,
            names,
            (λ other n. cc (gone, (type_in-some (get k raw_payload) other).1 n), first),
          )
    ]

-- The event type of a webhook is the text under the first of the keys under which there is a text
-- that is more than white space; where there is none, the webhook has no event type.
pub event_type_of-IsFirstName :
    (keys : List String) (raw_payload : Object) (event_type : String)
    → (event_type_of keys raw_payload ≡ ok event_type) ↔ IsFirstName raw_payload event_type keys
unfolding event_type_of
event_type_of-IsFirstName keys raw_payload event_type = (
  λ e. elim (Option-cases (first_type keys raw_payload)) [
    | inl gone ↦ cc (rw (event_type_of, gone) at e)
    | inr (s, there) ↦
        let same : s ≡ event_type = cc (rw (event_type_of, there) at e) in
        first_type-IsFirstName raw_payload event_type keys (there ∙ ap some same)
  ],
  λ (before, k, after, split, names, first).
      rw (split, event_type_of, first_type-after raw_payload event_type before k after names first)
        refl,
)

get-nonempty :
    (d : Dict String String) (k v : String)
    → All (λ subject. subject ≢ "") (values d)
    → get k d ≡ some v
    → v ≢ ""
unfolding get
get-nonempty [] k v all e = cc
get-nonempty ((j, w) ∷ d) k v (here, later) e = elim (Bool-cases (j == k)) [
  | inl same ↦ let it : w ≡ v = cc (rw same at e) in rw (← it) here
  | inr other ↦ get-nonempty d k v later (rw other at e)
]

-- An ingestor that could be constructed, over routes that name no empty subject, routes every event
-- type to a subject that is not empty.
pub route_for-nonempty :
    (routes : Dict String String) (fallback : String) (type_keys : List String)
    (ingestor : Ingestor) (event_type : String)
    → All (λ subject. subject ≢ "") (values routes)
    → new_ingestor (some routes) fallback type_keys ≡ ok ingestor
    → route_for ingestor event_type ≢ ""
unfolding new_ingestor route_for
route_for-nonempty routes fallback type_keys ingestor event_type all made =
    elim (Bool-cases (fallback == "")) [
      | inl blank ↦ cc (rw blank at made)
      | inr solid ↦
          let it : record { routes = routes; fallback = fallback; type_keys = type_keys }
              ≡ ingestor =
            cc (rw solid at made) in
          rw (← it) (elim (Option-cases (get event_type routes)) [
            | inl gone ↦ rw (route_for, gone) (λ b. cc (solid, (eq_iff fallback "").1 b))
            | inr (subject, there) ↦
                rw (route_for, there) (get-nonempty routes event_type subject all there)
          ])
    ]
