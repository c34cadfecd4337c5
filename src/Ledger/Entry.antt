-- ===== src/Ledger/Entry.antt =====
-- agents/ledger/ledger.py: journal entries, and how one is read from the payload of an event.
use cavi_erp.Prelude.{
  String, Bool, true, false, ◌&&◌, Option, List, [], ◌∷◌, ◌==◌, string_eq, if◌then◌else◌, nonempty,
  ◌<>◌,
}
use cavi_erp.Prelude.Int.{ℤ, pos, ◌+ℤ◌, eqb_ℤ, ltb_ℤ}
use cavi_erp.Dict.{get}
use cavi_erp.Json.{Value, Object, Items, nil, cons, arr}
use cavi_erp.Error.{Error, Result, ok, err, ◌>>=◌}
use cavi_erp.Agent.Event.{item, text, text_or_null, whole, object}

pub data Direction : Type 0 where
  debit credit : Direction

pub record JournalLine : Type 0 where
  pub account : String
  pub direction : Direction
  pub amount_minor : ℤ

pub record JournalEntry : Type 0 where
  pub entry_id : String
  pub tenant_id : String
  pub currency : String
  pub lines : List JournalLine
  pub memo : Option String

abbrev pub same_direction : Direction → Direction → Bool
same_direction debit debit = true
same_direction credit credit = true
same_direction _ _ = false

-- The sum of the amounts of the lines in one direction.
abbrev pub total : Direction → List JournalLine → ℤ
total d [] = pos 0
total d (l ∷ lines) =
    let rest = total d lines in
    if same_direction l.direction d then l.amount_minor +ℤ rest else rest

unfoldable pub total_debits : JournalEntry → ℤ
total_debits e = total debit e.lines

unfoldable pub total_credits : JournalEntry → ℤ
total_credits e = total credit e.lines

unfoldable pub is_balanced : JournalEntry → Bool
unfolding total_debits total_credits
is_balanced e = eqb_ℤ (total_debits e) (total_credits e) && ltb_ℤ (pos 0) (total_debits e)

-- `Direction(text)`
unfoldable pub direction_of : String → Result Direction
direction_of s =
    if s == "debit"
    then ok debit
    else if s == "credit"
    then ok credit
    else err (Error.value_error (s <> " is not a valid Direction"))

unfoldable pub items : Value → Result Items
items (arr xs) = ok xs
items _ = err (Error.type_error "list")

unfoldable pub line_of : Value → Result JournalLine
unfolding item text whole object direction_of
line_of v = do
  line ← object v
  account ← (item "account" line >>= text)
  direction ← (item "direction" line >>= text >>= direction_of)
  amount_minor ← (item "amount_minor" line >>= whole)
  ok (record { account = account; direction = direction; amount_minor = amount_minor })

unfoldable pub lines_of : Items → Result (List JournalLine)
unfolding line_of
lines_of nil = ok []
lines_of (cons v vs) = do line ← line_of v; lines ← lines_of vs; ok (line ∷ lines)

-- `JournalEntry.from_payload`
unfoldable pub from_payload : Object → String → Result JournalEntry
unfolding item text text_or_null items lines_of
from_payload payload tenant_id =
    if nonempty tenant_id
    then (do
      lines ← (item "lines" payload >>= items >>= lines_of)
      entry_id ← (item "entry_id" payload >>= text)
      currency ← (item "currency" payload >>= text)
      memo ← text_or_null (get "memo" payload)
      ok (record {
        entry_id = entry_id;
        tenant_id = tenant_id;
        currency = currency;
        lines = lines;
        memo = memo;
      }))
    else err (Error.ledger_error "ledger entry requires a non-empty tenant_id")
