-- ===== src/Beacon/Dedup.antt =====
-- Which alerts are sent, and which are suppressed.
use cavi_erp.Prelude.{
  ℕ, ◌+◌, ◌-◌, ◌<◌, ◌≡◌, refl, sym, ◌∙◌, ◌<>◌, String, Bool, true, false, Option, none, some, List,
  [], ◌∷◌, ◌==◌, string_eq, eq_iff, if◌then◌else◌, arith, All, Bool-cases, inl, inr,
}
use cavi_erp.Dict.{Dict, get, put}
use cavi_erp.Dict.Laws.{get-put, get-put_self}
use cavi_erp.Json.{Object, str}
use cavi_erp.Beacon.Alerts.{
  Display, Desk, identity, classify, notify, on_verdict, is_duplicate, dedup_window,
}

-- One question to the dedup store: is an alert with this key, at this moment, a duplicate?
abbrev pub Question : Type 0
Question = String × ℕ

-- How many of a row of questions about `key` are answered with "not a duplicate".
unfoldable pub sent_for : String → ℕ → List Question → Dict String ℕ → ℕ
sent_for key window [] last_sent = 0
sent_for key window ((k, now) ∷ questions) last_sent =
    let (duplicate, left) = is_duplicate k window now last_sent in
    let rest = sent_for key window questions left in
    if duplicate then rest else if k == key then rest + 1 else rest

-- Every question is asked before `window` has passed since `since`.
abbrev pub Within : ℕ → ℕ → List Question → Type 0
Within since window questions = All (λ q. q.1 - since < window) questions

is_duplicate_recent :
    (key : String) (window since now : ℕ) (last_sent : Dict String ℕ)
    → get key last_sent ≡ some since
    → now - since < window
    → is_duplicate key window now last_sent ≡ (true, last_sent)
unfolding is_duplicate
is_duplicate_recent key window since now last_sent known soon =
    rw known (ground (arith, known, soon))

is_duplicate_new :
    (key : String) (window now : ℕ) (last_sent : Dict String ℕ)
    → get key last_sent ≡ none
    → is_duplicate key window now last_sent ≡ (false, put key now last_sent)
unfolding is_duplicate
is_duplicate_new key window now last_sent unknown = rw unknown refl

get-is_duplicate :
    (k key : String) (window now : ℕ) (last_sent : Dict String ℕ)
    → (k == key) ≡ false
    → get key (is_duplicate k window now last_sent).1 ≡ get key last_sent
unfolding is_duplicate
get-is_duplicate k key window now last_sent other =
    ground (arith, get-put k key now last_sent, other)

silent :
    (key : String) (window since : ℕ) (questions : List Question) (last_sent : Dict String ℕ)
    → get key last_sent ≡ some since
    → Within since window questions
    → sent_for key window questions last_sent ≡ 0
unfolding sent_for is_duplicate
silent key window since [] last_sent known within = refl
silent key window since ((k, now) ∷ questions) last_sent known (here, later) =
    elim (Bool-cases (k == key)) [
      | inl same ↦
          let it : k ≡ key = (eq_iff k key).0 same in
          rw (is_duplicate_recent k window since now last_sent (rw it known) here)
            (silent key window since questions last_sent known later)
      | inr other ↦ rw other (
          passed (is_duplicate k window now last_sent).0 (
            silent key window since questions _
              (get-is_duplicate k key window now last_sent other ∙ known) later))
    ]
  where
    passed : (b : Bool) {n : ℕ} → n ≡ 0 → (if b then n else n) ≡ 0
    passed true e = e
    passed false e = e

-- Of any number of alerts with one key, mixed with alerts with other keys, that arrive within a
-- window after the first, exactly the first is sent, if none with that key was sent before.
pub sent_once :
    (key : String) (window now : ℕ) (questions : List Question) (last_sent : Dict String ℕ)
    → get key last_sent ≡ none
    → Within now window questions
    → sent_for key window ((key, now) ∷ questions) last_sent ≡ 1
unfolding sent_for is_duplicate
sent_once key window now questions last_sent unknown within =
    rw (is_duplicate_new key window now last_sent unknown, (eq_iff key key).1 refl)
      (omega (
        arith,
        silent key window now questions (put key now last_sent) (get-put_self key now last_sent)
            within,
      ))

-- A payload with none of the fields by which alerts are told apart.
abbrev pub Unidentified : Object → Type 0
Unidentified p =
    (get "entry_id" p ≡ none)
    × (get "work_order_id" p ≡ none)
    × (get "run_id" p ≡ none)
    × (get "id" p ≡ none)

identity-Unidentified : (p : Object) → Unidentified p → identity p ≡ str ""
unfolding identity
identity-Unidentified p (a, b, c, d) = rw (a, b, c, d) refl

module _ (display : Display) (channels : List String) where
  dedup_key-Unidentified :
      (subject : String) (p : Object) (correlation_id : Option String)
      → Unidentified p
      → (classify display subject p correlation_id).dedup_key ≡ subject <> ":" <> ""
  unfolding classify
  dedup_key-Unidentified subject p correlation_id h = rw (identity-Unidentified p h) refl

  -- Two events of one subject whose payloads have none of the fields `entry_id`, `work_order_id`,
  -- `run_id` and `id`, as the decisions on two different ERP writes, count as one failure: if the
  -- second arrives less than 300 seconds after an alert for the first was sent, no channel hears of
  -- it.
  pub notify-Unidentified :
      (subject : String) (p q : Object) (c d : Option String) (since now : ℕ) (desk : Desk)
      → Unidentified p
      → Unidentified q
      → get (classify display subject p c).dedup_key desk.last_sent ≡ some since
      → now - since < dedup_window
      → notify display channels subject q d now desk ≡ (none, desk)
  unfolding notify on_verdict
  notify-Unidentified subject p q c d since now desk hp hq known soon =
      let same_key : (classify display subject p c).dedup_key
          ≡ (classify display subject q d).dedup_key =
        dedup_key-Unidentified subject p c hp ∙ sym (dedup_key-Unidentified subject q d hq) in
      rw
        (is_duplicate_recent (classify display subject q d).dedup_key dedup_window since now
          desk.last_sent (rw (← same_key) known) soon)
        refl
