-- ===== src/Audit/Chain.antt =====
-- What a verified hash chain says: the recorded hashes are those of the events in order, and the
-- last one binds the whole log, or a collision of the hash function is at hand.
use Prim.Native.String
use text.Mathlib.TextLemmas.{length-append, append_cancel_left, append_inj}
use cavi_erp.Prelude.{
  ℕ, ◌+◌, String, ◌≡◌, refl, sym, ap, ◌∙◌, ◌↔◌, ◌⊎◌, inl, inr, ◌≢◌, List, [], ◌∷◌, ◌<>◌, ◌==◌,
  string_eq, eq_iff, arith, Bool-cases, map, Any,
}
use cavi_erp.Json.{Object}
use cavi_erp.Services.{Services}
use cavi_erp.Audit.{canonical_event, genesis_hash, chain_hash, verify_from, verify_chain}

module _ (services : Services) where
  -- The recorded hash of each entry is the hash of its event chained onto the entry before it.
  abbrev pub Links : String → List (Object × String) → Type 0
  Links prev [] = Unit
  Links prev ((event, recorded) ∷ entries) =
      (recorded ≡ chain_hash services prev event) × Links recorded entries

  verify-Links :
      (position : ℕ) (prev : String) (entries : List (Object × String))
      → (verify_from services position prev entries ≡ []) ↔ Links prev entries
  unfolding verify_from
  verify-Links position prev [] = ground arith
  verify-Links position prev ((event, recorded) ∷ entries) = ground (
    arith,
    eq_iff recorded (chain_hash services prev event),
    verify-Links (position + 1) recorded entries,
  )

-- The text that is hashed for an event behind the hash `prev`.
abbrev pub hashed_text : String → Object → String
hashed_text prev event = prev <> "\n" <> canonical_event event

abbrev pub Among : String → List String → Type 0
Among a texts = Any (λ (t : String). a ≡ t) texts

-- Two texts, one of those that were hashed for each log, that differ and have one digest.
abbrev pub Collision : Services → List String → List String → Type 0
Collision services ts us =
    (a b : String) × Among a ts × Among b us × (a ≢ b) × (services.sha256 a ≡ services.sha256 b)

-- One of the texts that were hashed has the public anchor of the chain as its hash.
abbrev pub GenesisPreimage : Services → List String → Type 0
GenesisPreimage services ts =
    (a : String) × Among a ts × ("sha256:" <> services.sha256 a ≡ genesis_hash)

-- `h` is the hash of the newest of the events, which are listed newest first with the texts hashed.
data Chained (services : Services) : List Object → List String → String → Type 0 where
  start : {h : String} → h ≡ genesis_hash → Chained services [] [] h
  link :
      {prev h : String} {es : List Object} {ts : List String} (e : Object)
      → Chained services es ts prev
      → h ≡ chain_hash services prev e
      → Chained services (e ∷ es) (hashed_text prev e ∷ ts) h

-- What two logs that end in one hash have in common.
abbrev pub SameLog : Services → List Object → List String → List Object → List String → Type 0
SameLog services xs ts ys us =
    (map canonical_event xs ≡ map canonical_event ys)
    ⊎ (Collision services ts us ⊎ (GenesisPreimage services ts ⊎ GenesisPreimage services us))

module _ (services : Services)
    (digest_length : (m : String) → String.count (services.sha256 m) ≡ 64) where
  abbrev digest_text : String → String
  digest_text m = "sha256:" <> services.sha256 m

  count-digest : (m : String) → String.count (digest_text m) ≡ 71
  count-digest m = length-append "sha256:" (services.sha256 m) ∙ ap (λ n. 7 + n) (digest_length m)

  count-Chained :
      {es : List Object} {ts : List String} {h : String}
      → Chained services es ts h
      → String.count h ≡ 71
  unfolding chain_hash
  count-Chained (start p) = ap String.count p
  count-Chained (link e c p) = ap String.count p ∙ count-digest _

  -- One digest under two links: their texts are the same, or they collide.
  same_material :
      (p q c d : String)
      → String.count p ≡ String.count q
      → digest_text (p <> "\n" <> c) ≡ digest_text (q <> "\n" <> d)
      → ((p ≡ q) × (c ≡ d))
        ⊎ ((p <> "\n" <> c ≢ q <> "\n" <> d)
            × (services.sha256 (p <> "\n" <> c) ≡ services.sha256 (q <> "\n" <> d)))
  same_material p q c d n e = elim (Bool-cases (p <> "\n" <> c == q <> "\n" <> d)) [
    | inl equal ↦ inl (split ((eq_iff _ _).0 equal))
    | inr differ ↦ inr ((λ f. cc (differ, (eq_iff _ _).1 f)), append_cancel_left "sha256:" _ _ e)
  ]
    where
      split : p <> "\n" <> c ≡ q <> "\n" <> d → (p ≡ q) × (c ≡ d)
      split f =
          let (heads, tails) =
            append_inj f (omega (arith, length-append p "\n", length-append q "\n", n)) in
          ((append_inj heads n).0, tails)

  SameLog-cons :
      (x y : Object) (t u : String) (xs ys : List Object) (ts us : List String)
      → canonical_event x ≡ canonical_event y
      → SameLog services xs ts ys us
      → SameLog services (x ∷ xs) (t ∷ ts) (y ∷ ys) (u ∷ us)
  SameLog-cons x y t u xs ys ts us e (inl f) = inl (cc)
  SameLog-cons x y t u xs ys ts us e (inr (inl (a, b, in_ts, in_us, differ, one))) =
      inr (inl (a, b, inr in_ts, inr in_us, differ, one))
  SameLog-cons x y t u xs ys ts us e (inr (inr (inl (a, in_ts, anchor)))) =
      inr (inr (inl (a, inr in_ts, anchor)))
  SameLog-cons x y t u xs ys ts us e (inr (inr (inr (a, in_us, anchor)))) =
      inr (inr (inr (a, inr in_us, anchor)))

  -- A shared last hash binds the logs.
  Chained-SameLog :
      {xs ys : List Object} {ts us : List String} {g h : String}
      → g ≡ h
      → Chained services xs ts g
      → Chained services ys us h
      → SameLog services xs ts ys us
  unfolding chain_hash
  Chained-SameLog e (start p) (start q) = inl refl
  Chained-SameLog e (start p) (link y d q) = inr (inr (inr (_, inl refl, sym q ∙ sym e ∙ p)))
  Chained-SameLog e (link x c p) (start q) = inr (inr (inl (_, inl refl, sym p ∙ e ∙ q)))
  Chained-SameLog e (link {prev = g} x c p) (link {prev = h} y d q) =
      elim (same_material g h _ _ (count-Chained c ∙ sym (count-Chained d)) (sym p ∙ e ∙ q)) [
        | inl (gh, xy) ↦ SameLog-cons x y _ _ _ _ _ _ xy (Chained-SameLog gh c d)
        | inr (differ, one) ↦ inr (inl (_, _, inl refl, inl refl, differ, one))
      ]

-- The events of a log in front of `es`, the newest first.
abbrev pub newest_first : List (Object × String) → List Object → List Object
newest_first [] es = es
newest_first ((event, recorded) ∷ entries) es = newest_first entries (event ∷ es)

-- The texts that are hashed for the log's entries, the newest first, in front of `ts`.
abbrev pub hashed_texts : String → List (Object × String) → List String → List String
hashed_texts prev [] ts = ts
hashed_texts prev ((event, recorded) ∷ entries) ts =
    hashed_texts recorded entries (hashed_text prev event ∷ ts)

abbrev pub last_hash : String → List (Object × String) → String
last_hash prev [] = prev
last_hash prev ((event, recorded) ∷ entries) = last_hash recorded entries

module _ (services : Services) where
  Links-Chained :
      (prev : String) {es : List Object} {ts : List String} (entries : List (Object × String))
      → Links services prev entries
      → Chained services es ts prev
      → Chained services
          (newest_first entries es)
          (hashed_texts prev entries ts)
          (last_hash prev entries)
  Links-Chained prev [] links c = c
  Links-Chained prev ((event, recorded) ∷ entries) (p, links) c =
      Links-Chained recorded entries links (link event c p)

  -- A log verifies exactly when each recorded hash is that of its event chained onto the hash
  -- recorded before it, the first onto the public anchor.
  pub verify_chain-Links :
      (entries : List (Object × String))
      → (verify_chain services entries ≡ []) ↔ Links services genesis_hash entries
  unfolding verify_chain
  verify_chain-Links entries = verify-Links services 0 genesis_hash entries

  -- Where digests have 64 characters, two logs that both verify and whose last recorded hash is the
  -- same hold the same canonical events in the same order, unless the digest fails on the very texts
  -- that were hashed for them: a text of the one log and a text of the other that differ and have one
  -- digest, or a text of either whose hash is the public anchor. The text of an entry is the hash
  -- recorded before it, a line break and its canonical event.
  pub verify_chain_binds :
      (digest_length : (m : String) → String.count (services.sha256 m) ≡ 64)
      (xs ys : List (Object × String))
      → verify_chain services xs ≡ []
      → verify_chain services ys ≡ []
      → last_hash genesis_hash xs ≡ last_hash genesis_hash ys
      → SameLog services
          (newest_first xs [])
          (hashed_texts genesis_hash xs [])
          (newest_first ys [])
          (hashed_texts genesis_hash ys [])
  verify_chain_binds digest_length xs ys vx vy e =
      Chained-SameLog services digest_length e
        (Links-Chained genesis_hash xs ((verify_chain-Links xs).0 vx) (start refl))
        (Links-Chained genesis_hash ys ((verify_chain-Links ys).0 vy) (start refl))
