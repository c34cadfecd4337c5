-- ===== src/Migrations/Progress.antt =====
-- What a run of `apply_pending` that returns has done, and what is left for the next.
use mathlib.Core.List.{append-nil, append_assoc}
use cavi_erp.Prelude.{
  ◌≡◌, refl, sym, ap, ◌∙◌, String, true, Bool-cases, inl, inr, List, [], ◌∷◌, ◌++◌, beq_refl,
  string_eq, contains, All, arith,
}
use cavi_erp.Dict.{Dict, keys}
use cavi_erp.Error.{Result, ok}
use cavi_erp.Exec.{◌>>=◌}
use cavi_erp.Migrations.{
  Directory, Migration, discover_migrations, pending, versions, Database, apply_each, apply_pending,
  status, applied_sorted,
}
use cavi_erp.Migrations.Runs.{Ran, finished, applied_then, apply_pending-Ran}

-- Every one of the migrations has its version in the list.
abbrev AllRecorded : List String → List Migration → Type 0
AllRecorded done = All λ m. contains m.version done ≡ true

contains-append_left :
    (x : String) (xs ys : List String) → contains x xs ≡ true → contains x (xs ++ ys) ≡ true
contains-append_left x [] ys h = cc
contains-append_left x (y ∷ xs) ys h = ground (arith, contains-append_left x xs ys)

contains-append_right :
    (x : String) (xs ys : List String) → contains x ys ≡ true → contains x (xs ++ ys) ≡ true
contains-append_right x [] ys h = h
contains-append_right x (y ∷ xs) ys h = ground (arith, contains-append_right x xs ys h)

keys-snoc :
    {V : Type 0} (d : Dict String V) (k : String) (v : V)
    → keys (d ++ (k, v) ∷ []) ≡ keys d ++ k ∷ []
keys-snoc [] k v = refl
keys-snoc ((j, w) ∷ d) k v = ap (λ ks. j ∷ ks) (keys-snoc d k v)

-- Whatever contains the versions of before and the pending ones contains all.
covered :
    (all done : List String) (ms : List Migration)
    → ((x : String) → contains x done ≡ true → contains x all ≡ true)
    → ((x : String) → contains x (versions (pending ms done)) ≡ true → contains x all ≡ true)
    → AllRecorded all ms
unfolding pending
covered all done [] old new = tt
covered all done (m ∷ ms) old new = elim (Bool-cases (contains m.version done)) [
  | inl there ↦ (old m.version there, covered all done ms old (rw there at new))
  | inr fresh ↦
      let news : (x : String)
          → contains x (m.version ∷ versions (pending ms done)) ≡ true
          → contains x all ≡ true =
        rw fresh at new in
      (
        news m.version (ground (arith, beq_refl m.version)),
        covered all done ms old (λ x h. news x (ground arith)),
      )
]

pending-recorded :
    (done : List String) (ms : List Migration) → AllRecorded done ms → pending ms done ≡ []
unfolding pending
pending-recorded done [] all = refl
pending-recorded done (m ∷ ms) (here, rest) = rw here (pending-recorded done ms rest)

module _ (Schema : Type 0) (script : String → Schema → Result Schema) (directory : Directory) where
  apply_each-recorded :
      (done : List String) (ms : List Migration) (db : Database Schema script)
      → AllRecorded done ms
      → apply_each Schema script directory done ms db ≡ (ok [], db)
  unfolding apply_each
  apply_each-recorded done [] db all = refl
  apply_each-recorded done (m ∷ ms) db (here, rest) = rw here (apply_each-recorded done ms db rest)

  Ran-ok :
      {ms : List Migration} {before after : Database Schema script} {vs : List String}
      → Ran Schema script directory ms before after (ok vs)
      → (vs ≡ versions ms) × (keys after.rows ≡ keys before.rows ++ versions ms)
  Ran-ok finished = (refl, sym (append-nil _))
  Ran-ok (applied_then {m = m} {ms = ms} {before = before} (_, _, _, _, _, recorded) ran) =
      let (returned, rows) = Ran-ok ran in
      (
        ap (λ l. m.version ∷ l) returned,
        rows
            ∙ ap (λ (db : Database Schema script). keys db.rows ++ versions ms) recorded
            ∙ ap (λ l. l ++ versions ms) (keys-snoc before.rows m.version m.name)
            ∙ append_assoc (keys before.rows) (m.version ∷ []) (versions ms),
      )

  abbrev pub Settled : Database Schema script → List String → Database Schema script → Type 0
  Settled before vs after =
      ((was : List String) × (status Schema script directory before ≡ (ok (was, vs), before)))
      × ((all : List String) × (status Schema script directory after ≡ (ok (all, []), after)))
      × (apply_pending Schema script directory after ≡ (ok [], after))

  -- A run that returns has applied the versions that the status showed as pending, in that order;
  -- afterwards the status shows none, and running it again applies nothing and changes nothing.
  pub apply_pending-Settled :
      (before after : Database Schema script) (vs : List String)
      → apply_pending Schema script directory before ≡ (ok vs, after)
      → Settled before vs after
  unfolding status apply_pending ◌>>=◌
  apply_pending-Settled before after vs e =
      let shown : Database Schema script → List String =
        λ db. applied_sorted Schema script directory (keys db.rows) in
      let ms = discover_migrations directory in
      let done = keys before.rows in
      let (returned, rows) = Ran-ok (rw e at (apply_pending-Ran Schema script directory before)) in
      let all : AllRecorded (keys after.rows) ms = rw rows (
        covered (done ++ versions (pending ms done)) done ms (λ x. contains-append_left x done _)
          (λ x. contains-append_right x done _)) in
      (
        (shown before, ap (λ l. (ok (shown before, l), before)) (sym returned)),
        (
          shown after,
          ap (λ (l : List Migration). (ok (shown after, versions l), after))
              (pending-recorded (keys after.rows) ms all),
        ),
        apply_each-recorded (keys after.rows) ms after all,
      )
