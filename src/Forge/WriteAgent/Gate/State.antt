-- ===== src/Forge/WriteAgent/Gate/State.antt =====
-- The invariant of the approval gate, over the fields of `ForgeWriteAgent`.
use cavi_erp.Prelude.{String, ◌≡◌, ◌⊎◌, inl, inr, true, some, string_eq, arith, All}
use cavi_erp.Dict.{get, put, pop}
use cavi_erp.Dict.Laws.{get-put-cases, get-pop-some}
use cavi_erp.Json.{Value}
use cavi_erp.Error.{Error, Result, ok, err}
use cavi_erp.Error
use cavi_erp.Agent.Event.{Event, item, text}
use cavi_erp.Forge.Write.{WriteOperation, requested, approved}
use cavi_erp.Forge.Write.Coordinator.{Desk, is_approved}
use cavi_erp.Forge.WriteAgent.{is_approval}

-- The event is a decision that approves the write `id`.
abbrev pub Approves : Event → String → Type 0
Approves e id =
    (decision : Value) × (e.subject ≡ "forge.write.decision")
    × (Error.◌>>=◌ (item "write_id" e.payload) text ≡ ok id)
    × (item "decision" e.payload ≡ ok decision)
    × (is_approval decision ≡ true)

pub is_approved-eq : (op : WriteOperation) → is_approved op.state ≡ true → op.state ≡ approved
is_approved-eq op h = ground arith

-- `Decided id`: the write `id` has been approved.
module _ (Decided : String → Type 0) where
  -- What a pending write looks like under its key.
  abbrev pub Fits : String → WriteOperation → Type 0
  Fits id op =
      (op.write_id ≡ id) × ((op.state ≡ requested) ⊎ ((op.state ≡ approved) × Decided op.write_id))

  -- What the writer may be asked to apply.
  abbrev pub Cleared : WriteOperation → Type 0
  Cleared op = (op.state ≡ approved) × Decided op.write_id

  pub record IsGated (d : Desk) : Type 0 where
    pub held : (id : String) (op : WriteOperation) → get id d.pending ≡ some op → Fits id op
    pub applied : All Cleared d.calls

  pub put-held :
      (d : Desk) (id : String) (op : WriteOperation)
      → IsGated d
      → Fits id op
      → (k : String) (o : WriteOperation) → get k (put id op d.pending) ≡ some o
      → Fits k o
  put-held d id op g fits k o h = elim (get-put-cases id k op o d.pending h) [
    | inl (here, same) ↦ rw (← here, ← same) fits
    | inr before ↦ g.held k o before
  ]

  pub pop-held :
      (d : Desk) (id : String)
      → IsGated d
      → (k : String) (o : WriteOperation) → get k (pop id d.pending) ≡ some o
      → Fits k o
  pop-held d id g k o h = g.held k o (get-pop-some id k o d.pending h).1
