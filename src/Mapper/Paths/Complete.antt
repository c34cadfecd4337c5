-- ===== src/Mapper/Paths/Complete.antt =====
-- The search finds a path whenever there is one.
use cavi_erp.Prelude.{
  ℕ, zero, suc, ◌≤◌, ◌≡◌, ◌≢◌, ◌⊎◌, refl, sym, ap, ◌∙◌, inl, inr, String, true, ◌||◌, Bool-cases,
  Option-cases, Option, none, some, List, [], ◌∷◌, ◌++◌, ◌==◌, string_eq, eq_iff, contains, length,
  Any, arith,
}
use cavi_erp.Prelude.Int.{ℤ, ltb_ℤ, int_eq, eqb_ℤ_iff}
use cavi_erp.Mapper.Paths.{Key, Trail, insert_version, next_versions, visit, explore, find_path}
use cavi_erp.Mapper.Paths.Search.{
  Registered, Leads, visit-old, visit-new, longer, explore_total, explore-Leads, unseen,
}

-- A version that the search has left behind: it is not the target, and every registered step from
-- it leads to a version that was seen.
abbrev Closed : List Key → String → ℤ → List ℤ → ℤ → Type 0
Closed keys subject dst seen v =
    (v ≢ dst) × ((w : ℤ) → Registered keys subject v w → contains w seen ≡ true)

abbrev Queued : ℤ → List Trail → Type 0
Queued v queue = Any (λ t. t.0 ≡ v) queue

contains-insert_version :
    (w v : ℤ) (vs : List ℤ) → contains w (insert_version v vs) ≡ (w == v || contains w vs)
unfolding insert_version
contains-insert_version w v [] = refl
contains-insert_version w v (x ∷ vs) = elim (Bool-cases (ltb_ℤ x v)) [
  | inl later ↦ rw later (ground (arith, contains-insert_version w v vs))
  | inr here ↦ rw here refl
]

visit-seen :
    (trail : Trail) (vs seen : List ℤ) (queue : List Trail) (w : ℤ)
    → contains w (visit trail vs seen queue).0 ≡ (contains w vs || contains w seen)
unfolding visit
visit-seen trail [] seen queue w = refl
visit-seen trail (v ∷ vs) seen queue w = elim (Bool-cases (contains v seen)) [
  | inl old ↦
      rw (visit-old trail v vs seen queue old)
        (visit-seen trail vs seen queue w ∙ ground (arith, old, eqb_ℤ_iff w v))
  | inr new ↦
      rw (visit-new trail v vs seen queue new)
        (visit-seen trail vs (v ∷ seen) (queue ++ longer trail v ∷ []) w ∙ ground arith)
]

contains-next_versions :
    (keys : List Key) (subject : String) (a w : ℤ)
    → Registered keys subject a w
    → contains w (next_versions keys subject a) ≡ true
unfolding next_versions
contains-next_versions [] subject a w r = elim r [ ]
contains-next_versions ((s, x, y) ∷ keys) subject a w (inl (se, xe, ye)) =
    rw ((eq_iff s subject).1 se, (eqb_ℤ_iff x a).1 xe)
      (contains-insert_version w y (next_versions keys subject a)
        ∙ ground (arith, (eqb_ℤ_iff w y).1 (sym ye)))
contains-next_versions ((s, x, y) ∷ keys) subject a w (inr later) =
    let rest = contains-next_versions keys subject a w later in
    elim (Bool-cases (s == subject)) [
      | inr other ↦ rw other rest
      | inl same ↦ elim (Bool-cases (x == a)) [
        | inr away ↦ rw (same, away) rest
        | inl from ↦
            rw (same, from)
              (contains-insert_version w y (next_versions keys subject a) ∙ ground (arith, rest))
      ]
    ]

Any-append {ℓ} :
    {A : Type ℓ} (P : A → Type 0) (xs ys : List A) → (Any P xs ⊎ Any P ys) → Any P (xs ++ ys)
Any-append P [] ys (inl h) = elim h [ ]
Any-append P [] ys (inr h) = h
Any-append P (x ∷ xs) ys (inl (inl h)) = inl h
Any-append P (x ∷ xs) ys (inl (inr h)) = inr (Any-append P xs ys (inl h))
Any-append P (x ∷ xs) ys (inr h) = inr (Any-append P xs ys (inr h))

visit-Queued :
    (trail : Trail) (vs seen : List ℤ) (queue : List Trail) (w : ℤ)
    → Queued w queue
    → Queued w (visit trail vs seen queue).1
unfolding visit
visit-Queued trail [] seen queue w q = q
visit-Queued trail (v ∷ vs) seen queue w q = elim (Bool-cases (contains v seen)) [
  | inl old ↦ rw (visit-old trail v vs seen queue old) (visit-Queued trail vs seen queue w q)
  | inr new ↦
      rw (visit-new trail v vs seen queue new)
        (visit-Queued trail vs (v ∷ seen) _ w (Any-append _ queue _ (inl q)))
]

-- What was not seen before the visit is queued after it.
visit-new-Queued :
    (trail : Trail) (vs seen : List ℤ) (queue : List Trail) (w : ℤ)
    → contains w (visit trail vs seen queue).0 ≡ true
    → (contains w seen ≡ true) ⊎ Queued w (visit trail vs seen queue).1
unfolding visit
visit-new-Queued trail [] seen queue w h = inl h
visit-new-Queued trail (v ∷ vs) seen queue w h = elim (Bool-cases (contains v seen)) [
  | inl old ↦
      rw (visit-old trail v vs seen queue old)
        (visit-new-Queued trail vs seen queue w (rw (visit-old trail v vs seen queue old) at h))
  | inr new ↦
      rw (visit-new trail v vs seen queue new)
        (elim (visit-new-Queued trail vs (v ∷ seen) (queue ++ longer trail v ∷ []) w
          (rw (visit-new trail v vs seen queue new) at h)) [
            | inr queued ↦ inr queued
            | inl before ↦ elim (Bool-cases (w == v)) [
              | inl same ↦ inr (
                  visit-Queued trail vs (v ∷ seen) (queue ++ longer trail v ∷ []) w
                    (Any-append _ queue _ (inr (inl (sym ((eqb_ℤ_iff w v).0 same))))))
              | inr other ↦ inl (rw other at before)
            ]
          ])
]

module _ (keys : List Key) (subject : String) where
  -- Every version that was seen is queued or closed.
  abbrev IsExplored : ℤ → List ℤ → List Trail → Type 0
  IsExplored dst seen queue =
      (v : ℤ) → contains v seen ≡ true → Queued v queue ⊎ Closed keys subject dst seen v

  IsExplored-step :
      (dst : ℤ) (trail : Trail) (seen : List ℤ) (queue : List Trail)
      → trail.0 ≢ dst
      → IsExplored dst seen (trail ∷ queue)
      → let left = visit trail (next_versions keys subject trail.0) seen queue in
        IsExplored dst left.0 left.1
  IsExplored-step dst trail seen queue not_yet explored v h =
      let vs = next_versions keys subject trail.0 in
      let grows : (w : ℤ)
          → contains w seen ≡ true
          → contains w (visit trail vs seen queue).0 ≡ true =
        λ w s. visit-seen trail vs seen queue w ∙ ground (arith, s) in
      elim (visit-new-Queued trail vs seen queue v h) [
        | inr queued ↦ inl queued
        | inl before ↦ elim (explored v before) [
          | inl (inl here) ↦ inr (
            rw (← here) not_yet,
            λ w r.
                visit-seen trail vs seen queue w
                ∙ ground (arith, contains-next_versions keys subject trail.0 w (rw here r)),
          )
          | inl (inr queued) ↦ inl (visit-Queued trail vs seen queue v queued)
          | inr (other, closed) ↦ inr (other, λ w r. grows w (closed w r))
        ]
      ]

  IsExplored-none :
      (dst : ℤ) (fuel : ℕ) (seen : List ℤ) (queue : List Trail)
      → IsExplored dst seen queue
      → explore keys subject dst fuel seen queue ≡ some none
      → (all : List ℤ) × ((v : ℤ) → contains v seen ≡ true → contains v all ≡ true)
        × IsExplored dst all []
  unfolding explore
  IsExplored-none dst zero seen queue explored e = cc
  IsExplored-none dst (suc fuel) seen [] explored e = (seen, λ v h. h, explored)
  IsExplored-none dst (suc fuel) seen (trail ∷ queue) explored e =
      let vs = next_versions keys subject trail.0 in
      elim (Bool-cases (trail.0 == dst)) [
        | inl there ↦ cc (rw there at e)
        | inr not_yet ↦
            let (all, more, closed) =
              IsExplored-none dst fuel _ _
                (IsExplored-step dst trail seen queue
                  (λ same. cc (not_yet, (eqb_ℤ_iff trail.0 dst).1 same)) explored)
                (rw not_yet at e) in
            (all, λ v h. more v (visit-seen trail vs seen queue v ∙ ground (arith, h)), closed)
      ]

  -- Steps from a closed set stay in it, and so never come to the target.
  closed_stays :
      (dst : ℤ) (all : List ℤ) (src : ℤ) (steps : List (ℤ × ℤ))
      → IsExplored dst all []
      → contains src all ≡ true
      → ¬ Leads keys subject src steps dst
  closed_stays dst all src [] closed h same = elim (closed src h) [
    | inl none_left ↦ none_left
    | inr (other, _) ↦ other same
  ]
  closed_stays dst all src ((a, b) ∷ steps) closed h (from, here, later) = elim (closed src h) [
    | inl none_left ↦ none_left
    | inr (_, next) ↦ closed_stays dst all b steps closed (next b (rw from here)) later
  ]

unseen-le-length : (keys : List Key) (seen : List ℤ) → unseen keys seen ≤ length keys
unfolding unseen
unseen-le-length [] seen = omega arith
unseen-le-length ((s, a, b) ∷ keys) seen = ground (arith, unseen-le-length keys seen)

IsExplored-start :
    (keys : List Key) (subject : String) (src dst : ℤ)
    → IsExplored keys subject dst (src ∷ []) ((src, []) ∷ [])
IsExplored-start keys subject src dst v h = elim (Bool-cases (v == src)) [
  | inl same ↦ inl (inl (sym ((eqb_ℤ_iff v src).0 same)))
  | inr other ↦ cc (rw other at h)
]

-- The search of `find_path` ends within its fuel.
find_path_ends :
    (keys : List Key) (subject : String) (src dst : ℤ)
    → (r : Option (List (ℤ × ℤ))) × (explore keys subject dst
          (suc (suc (length keys)))
          (src ∷ [])
          ((src, []) ∷ [])
        ≡ some r)
      × (find_path keys subject src dst ≡ r)
unfolding find_path
find_path_ends keys subject src dst =
    let (r, e) =
      explore_total keys subject dst (suc (suc (length keys))) (src ∷ []) ((src, []) ∷ [])
        (omega (arith, unseen-le-length keys (src ∷ []))) in
    (r, e, rw e refl)

-- A path that `find_path` gives leads from the version asked for to the other by registered steps.
pub find_path-Leads :
    (keys : List Key) (subject : String) (src dst : ℤ) (steps : List (ℤ × ℤ))
    → find_path keys subject src dst ≡ some steps
    → Leads keys subject src steps dst
find_path-Leads keys subject src dst steps found =
    let (r, e, same) = find_path_ends keys subject src dst in
    explore-Leads keys subject src dst _ _ _ steps (refl, tt) (e ∙ ap some (sym same ∙ found))

-- If any registered steps lead from the one version to the other, then `find_path` gives a path.
pub find_path_complete :
    (keys : List Key) (subject : String) (src dst : ℤ) (steps : List (ℤ × ℤ))
    → Leads keys subject src steps dst
    → (path : List (ℤ × ℤ)) × (find_path keys subject src dst ≡ some path)
find_path_complete keys subject src dst steps leads =
    let (r, e, same) = find_path_ends keys subject src dst in
    elim (Option-cases r) [
      | inr (path, there) ↦ (path, same ∙ there)
      | inl gone ↦
          let (all, more, closed) =
            IsExplored-none keys subject dst _ (src ∷ []) ((src, []) ∷ [])
              (IsExplored-start keys subject src dst) (e ∙ ap some gone) in
          absurd (
            closed_stays keys subject dst all src steps closed
              (more src (ground (arith, (eqb_ℤ_iff src src).1 refl))) leads)
    ]
