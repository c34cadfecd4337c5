-- ===== src/Mapper/Paths.antt =====
-- `Mapper._find_path` of agents/mapper/mapper.py: a breadth-first search over the registered version
-- steps of a subject. A trail is the node that it has come to with its steps.
pub mod Search
pub mod Complete
use cavi_erp.Prelude.{
  ℕ, zero, suc, ◌≡◌, String, Bool, true, false, Option, none, some, List, [], ◌∷◌, ◌++◌, ◌==◌,
  string_eq, if◌then◌else◌, contains, length,
}
use cavi_erp.Prelude.Int.{ℤ, ltb_ℤ, int_eq}

-- A registered transform's key: the subject and the two versions.
abbrev pub Key : Type 0
Key = String × ℤ × ℤ

abbrev pub Trail : Type 0
Trail = ℤ × List (ℤ × ℤ)

insert_version : ℤ → List ℤ → List ℤ
insert_version v [] = v ∷ []
insert_version v (w ∷ ws) =
    let rest = insert_version v ws in if ltb_ℤ w v then w ∷ rest else v ∷ w ∷ ws

-- `adjacency[node]` for the subject, sorted.
unfoldable pub next_versions : List Key → String → ℤ → List ℤ
unfolding insert_version
next_versions [] subject node = []
next_versions ((s, a, b) ∷ keys) subject node =
    let rest = next_versions keys subject node in
    if s == subject then (if a == node then insert_version b rest else rest) else rest

-- The loop over the next versions: what was seen, and what is queued.
unfoldable pub visit : Trail → List ℤ → List ℤ → List Trail → List ℤ × List Trail
visit trail [] seen queue = (seen, queue)
visit trail (v ∷ vs) seen queue = elim (contains v seen) [
  | true ↦ visit trail vs seen queue
  | false ↦ visit trail vs (v ∷ seen) (queue ++ (v, trail.1 ++ (trail.0, v) ∷ []) ∷ [])
]

-- The `while` loop, which makes at most `fuel` rounds; the outer `none` means that the fuel ran out.
unfoldable pub explore :
    List Key → String → ℤ → ℕ → List ℤ → List Trail → Option (Option (List (ℤ × ℤ)))
unfolding next_versions visit
explore keys subject dst zero seen queue = none
explore keys subject dst (suc fuel) seen [] = some none
explore keys subject dst (suc fuel) seen (trail ∷ queue) =
    let (seen', queue') = visit trail (next_versions keys subject trail.0) seen queue in
    let rest = explore keys subject dst fuel seen' queue' in
    if trail.0 == dst then some (some trail.1) else rest

abbrev or_none {ℓ} : {A : Type ℓ} → Option (Option A) → Option A
or_none none = none
or_none (some a) = a

-- `_find_path`: one round more than there are transforms is enough.
unfoldable pub find_path : List Key → String → ℤ → ℤ → Option (List (ℤ × ℤ))
unfolding explore
find_path keys subject src dst =
    or_none (explore keys subject dst (suc (suc (length keys))) (src ∷ []) ((src, []) ∷ []))
