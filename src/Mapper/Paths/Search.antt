-- ===== src/Mapper/Paths/Search.antt =====
-- The search ends, finds only registered steps, and finds a path whenever there is one.
use cavi_erp.Prelude.{
  ℕ, zero, suc, ◌+◌, ◌<◌, ◌≤◌, ◌≡◌, ◌⊎◌, refl, inl, inr, String, true, false, Bool-cases, Option,
  none, some, List, [], ◌∷◌, ◌++◌, ◌==◌, string_eq, eq_iff, if◌then◌else◌, contains, length,
  length-append, All, All-append, arith,
}
use cavi_erp.Prelude.Int.{ℤ, ltb_ℤ, int_eq, eqb_ℤ_iff}
use cavi_erp.Mapper.Paths.{Key, Trail, insert_version, next_versions, visit, explore}

-- A transform is registered from `a` to `b`.
abbrev pub Registered : List Key → String → ℤ → ℤ → Type 0
Registered [] subject a b = ⊥
Registered ((s, x, y) ∷ keys) subject a b =
    ((s ≡ subject) × (x ≡ a) × (y ≡ b)) ⊎ Registered keys subject a b

-- The steps lead from one version to the other, and each is registered.
abbrev pub Leads : List Key → String → ℤ → List (ℤ × ℤ) → ℤ → Type 0
Leads keys subject src [] dst = src ≡ dst
Leads keys subject src ((a, b) ∷ steps) dst =
    (src ≡ a) × Registered keys subject a b × Leads keys subject b steps dst

Leads-snoc :
    (keys : List Key) (subject : String) (src a b : ℤ) (steps : List (ℤ × ℤ))
    → Leads keys subject src steps a
    → Registered keys subject a b
    → Leads keys subject src (steps ++ (a, b) ∷ []) b
Leads-snoc keys subject src a b [] l r = (l, r, refl)
Leads-snoc keys subject src a b ((x, y) ∷ steps) (e, here, later) r =
    (e, here, Leads-snoc keys subject y a b steps later r)

All-insert_version :
    (P : ℤ → Type 0) (v : ℤ) (vs : List ℤ) → P v → All P vs → All P (insert_version v vs)
unfolding insert_version
All-insert_version P v [] p all = (p, tt)
All-insert_version P v (w ∷ vs) p (q, all) = elim (Bool-cases (ltb_ℤ w v)) [
  | inl later ↦ rw later (q, All-insert_version P v vs p all)
  | inr here ↦ rw here (p, (q, all))
]

All-map :
    {A : Type 0} (P Q : A → Type 0) (xs : List A) → ((x : A) → P x → Q x) → All P xs → All Q xs
All-map P Q [] f all = tt
All-map P Q (x ∷ xs) f (p, all) = (f x p, All-map P Q xs f all)

pub next_versions-Registered :
    (keys : List Key) (subject : String) (node : ℤ)
    → All (Registered keys subject node) (next_versions keys subject node)
unfolding next_versions
next_versions-Registered [] subject node = tt
next_versions-Registered ((s, a, b) ∷ keys) subject node =
    let rest =
      All-map (Registered keys subject node) (Registered ((s, a, b) ∷ keys) subject node) _
        (λ v r. inr r) (next_versions-Registered keys subject node) in
    elim (Bool-cases (s == subject)) [
      | inr other ↦ rw other rest
      | inl same ↦ elim (Bool-cases (a == node)) [
        | inr away ↦ rw (same, away) rest
        | inl from ↦
            rw (same, from)
              (All-insert_version _ b _
                (inl ((eq_iff s subject).0 same, (eqb_ℤ_iff a node).0 from, refl)) rest)
      ]
    ]

pub visit-old :
    (trail : Trail) (v : ℤ) (vs seen : List ℤ) (queue : List Trail)
    → contains v seen ≡ true
    → visit trail (v ∷ vs) seen queue ≡ visit trail vs seen queue
unfolding visit
visit-old trail v vs seen queue h = rw (h, visit) refl

abbrev pub longer : Trail → ℤ → Trail
longer trail v = (v, trail.1 ++ (trail.0, v) ∷ [])

pub visit-new :
    (trail : Trail) (v : ℤ) (vs seen : List ℤ) (queue : List Trail)
    → contains v seen ≡ false
    → visit trail (v ∷ vs) seen queue ≡ visit trail vs (v ∷ seen) (queue ++ longer trail v ∷ [])
unfolding visit
visit-new trail v vs seen queue h = rw (h, visit) refl

module _ (keys : List Key) (subject : String) (src : ℤ) where
  abbrev pub IsTrail : Trail → Type 0
  IsTrail (node, steps) = Leads keys subject src steps node

  visit-IsTrail :
      (trail : Trail) (vs seen : List ℤ) (queue : List Trail)
      → IsTrail trail
      → All (Registered keys subject trail.0) vs
      → All IsTrail queue
      → All IsTrail (visit trail vs seen queue).1
  unfolding visit
  visit-IsTrail trail [] seen queue t r q = q
  visit-IsTrail trail (v ∷ vs) seen queue t (here, later) q = elim (Bool-cases (contains v seen)) [
    | inl old ↦
        rw (visit-old trail v vs seen queue old) (visit-IsTrail trail vs seen queue t later q)
    | inr new ↦ rw (visit-new trail v vs seen queue new) (
        visit-IsTrail trail vs (v ∷ seen) _ t later
          (All-append IsTrail queue _ q (Leads-snoc keys subject src trail.0 v trail.1 t here, tt)))
  ]

  pub explore-Leads :
      (dst : ℤ) (fuel : ℕ) (seen : List ℤ) (queue : List Trail) (steps : List (ℤ × ℤ))
      → All IsTrail queue
      → explore keys subject dst fuel seen queue ≡ some (some steps)
      → Leads keys subject src steps dst
  unfolding explore
  explore-Leads dst zero seen queue steps q e = cc
  explore-Leads dst (suc fuel) seen [] steps q e = cc
  explore-Leads dst (suc fuel) seen (trail ∷ queue) steps (t, q) e =
      elim (Bool-cases (trail.0 == dst)) [
        | inl there ↦
            let same : trail.1 ≡ steps = cc (rw there at e) in
            let arrived : trail.0 ≡ dst = (eqb_ℤ_iff trail.0 dst).0 there in
            rw (← same, ← arrived) t
        | inr not_yet ↦
            explore-Leads dst fuel _ _ steps
              (visit-IsTrail trail _ seen queue t (next_versions-Registered keys subject trail.0) q)
              (rw not_yet at e)
      ]

-- How many transforms lead to a version that was not seen.
unfoldable pub unseen : List Key → List ℤ → ℕ
unseen [] seen = 0
unseen ((s, a, b) ∷ keys) seen =
    let rest = unseen keys seen in if contains b seen then rest else suc rest

unseen-le : (keys : List Key) (v : ℤ) (seen : List ℤ) → unseen keys (v ∷ seen) ≤ unseen keys seen
unfolding unseen
unseen-le [] v seen = omega arith
unseen-le ((s, a, b) ∷ keys) v seen = ground (arith, unseen-le keys v seen)

unseen-lt :
    (keys : List Key) (subject : String) (a v : ℤ) (seen : List ℤ)
    → Registered keys subject a v
    → contains v seen ≡ false
    → unseen keys (v ∷ seen) < unseen keys seen
unfolding unseen
unseen-lt [] subject a v seen r new = elim r [ ]
unseen-lt ((s, x, y) ∷ keys) subject a v seen (inl (_, _, here)) new =
    ground (arith, unseen-le keys v seen, here, (eqb_ℤ_iff y v).1 here)
unseen-lt ((s, x, y) ∷ keys) subject a v seen (inr later) new =
    ground (arith, unseen-lt keys subject a v seen later new)

module _ (keys : List Key) (subject : String) where
  visit-measure :
      (trail : Trail) (vs seen : List ℤ) (queue : List Trail)
      → All (Registered keys subject trail.0) vs
      → length (visit trail vs seen queue).1 + unseen keys (visit trail vs seen queue).0
        ≤ length queue + unseen keys seen
  unfolding visit
  visit-measure trail [] seen queue r = omega arith
  visit-measure trail (v ∷ vs) seen queue (here, later) = elim (Bool-cases (contains v seen)) [
    | inl old ↦ rw (visit-old trail v vs seen queue old) (visit-measure trail vs seen queue later)
    | inr new ↦ rw (visit-new trail v vs seen queue new) (
        omega (
          arith,
          visit-measure trail vs (v ∷ seen) (queue ++ longer trail v ∷ []) later,
          length-append {0} queue (longer trail v ∷ []),
          unseen-lt keys subject trail.0 v seen here new,
        ))
  ]

  pub explore_total :
      (dst : ℤ) (fuel : ℕ) (seen : List ℤ) (queue : List Trail)
      → length queue + unseen keys seen < fuel
      → (r : Option (List (ℤ × ℤ))) × (explore keys subject dst fuel seen queue ≡ some r)
  unfolding explore
  explore_total dst zero seen queue enough = absurd (omega arith)
  explore_total dst (suc fuel) seen [] enough = (none, refl)
  explore_total dst (suc fuel) seen (trail ∷ queue) enough = elim (Bool-cases (trail.0 == dst)) [
    | inl there ↦ (some trail.1, rw there refl)
    | inr not_yet ↦ rw not_yet (
        explore_total dst fuel _ _ (
          omega (
            arith,
            visit-measure trail (next_versions keys subject trail.0) seen queue
                (next_versions-Registered keys subject trail.0),
          )))
  ]
