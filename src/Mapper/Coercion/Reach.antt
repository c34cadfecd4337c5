-- ===== src/Mapper/Coercion/Reach.antt =====
-- When a payload can be coerced.
use cavi_erp.Prelude.{
  ◌≡◌, ◌↔◌, refl, inl, inr, String, Bool-cases, Option-cases, some, List, [], ◌∷◌, string_eq, All,
  eq_iff,
}
use cavi_erp.Prelude.Int.{ℤ, eqb_ℤ, eqb_ℤ_iff, int_eq}
use cavi_erp.Json.{Object}
use cavi_erp.Error.{ok}
use cavi_erp.Mapper.Paths.{Key, find_path}
use cavi_erp.Mapper.Paths.Search.{Registered, Leads}
use cavi_erp.Mapper.Paths.Complete.{find_path-Leads, find_path_complete}
use cavi_erp.Mapper.Coercion.{
  TransformFn, Transforms, same_key, registered_keys, transform_at, run_steps, coerce,
}

-- The transform takes every payload, and raises on none.
abbrev pub IsTotal : TransformFn → Type 0
IsTotal f = (payload : Object) → (result : Object) × (f payload ≡ ok result)

abbrev pub AllTotal : Transforms → Type 0
AllTotal ts = All (λ (t : Key × TransformFn). IsTotal t.1) ts

Registered-transform :
    (ts : Transforms) (subject : String) (a b : ℤ)
    → AllTotal ts
    → Registered (registered_keys ts) subject a b
    → (f : TransformFn) × IsTotal f × (transform_at (subject, a, b) ts ≡ some f)
Registered-transform [] subject a b total r = elim r [ ]
Registered-transform (((s, x, y), f) ∷ ts) subject a b (total, _) (inl (se, xe, ye)) =
    (f, total, rw ((eq_iff s subject).1 se, (eqb_ℤ_iff x a).1 xe, (eqb_ℤ_iff y b).1 ye) refl)
Registered-transform (((s, x, y), f) ∷ ts) subject a b (total, totals) (inr later) =
    elim (Bool-cases (same_key (s, x, y) (subject, a, b))) [
      | inl same ↦ (f, total, rw same refl)
      | inr other ↦ rw other (Registered-transform ts subject a b totals later)
    ]

run_steps_total :
    (ts : Transforms) (subject : String) (src dst : ℤ) (steps : List (ℤ × ℤ)) (payload : Object)
    → AllTotal ts
    → Leads (registered_keys ts) subject src steps dst
    → (result : Object) × (run_steps ts subject steps payload ≡ ok result)
unfolding run_steps
run_steps_total ts subject src dst [] payload total leads = (payload, refl)
run_steps_total ts subject src dst ((a, b) ∷ steps) payload total (_, here, later) =
    let (f, f_total, at_step) = Registered-transform ts subject a b total here in
    let (next, goes) = f_total payload in
    rw (run_steps, at_step, goes) (run_steps_total ts subject b dst steps next total later)

-- A payload can be coerced from one version to another exactly when registered transforms of the
-- subject lead from the one to the other, in any number of steps, where no registered transform raises.
pub coerce-Leads :
    (ts : Transforms) (subject : String) (src dst : ℤ) (payload : Object)
    → AllTotal ts
    → ((result : Object) × (coerce ts subject src dst payload ≡ ok result))
      ↔ ((steps : List (ℤ × ℤ)) × Leads (registered_keys ts) subject src steps dst)
unfolding coerce
coerce-Leads ts subject src dst payload total = elim (Bool-cases (eqb_ℤ src dst)) [
  | inl same ↦ (λ _. ([], (eqb_ℤ_iff src dst).0 same), λ _. (payload, rw same refl))
  | inr differ ↦ (
    λ (result, e). elim (Option-cases (find_path (registered_keys ts) subject src dst)) [
      | inl gone ↦ cc (rw (differ, gone) at e)
      | inr (path, found) ↦ (path, find_path-Leads (registered_keys ts) subject src dst path found)
    ],
    λ (steps, leads).
        let (path, found) = find_path_complete (registered_keys ts) subject src dst steps leads in
        rw (differ, found)
          (run_steps_total ts subject src dst path payload total
            (find_path-Leads (registered_keys ts) subject src dst path found)),
  )
]
