-- ===== src/Forge/Write/Batch.antt =====
-- What a batch of ERP writes does to the ERP, and what it reports.
use cavi_erp.Prelude.{
  String, ◌≡◌, refl, ap, sym, ◌∙◌, ◌⊎◌, true, false, Bool-cases, Option, none, some, List, [], ◌∷◌,
  ◌++◌, map, arith, if◌then◌else◌, inl, inr, Option-cases, ◌<>◌,
}
use mathlib.Core.List.{append_assoc, append-nil, map-append}
use mathlib.Core.Path.{subst}
use cavi_erp.Error.{Error, Result, ok, err, message}
use cavi_erp.Services.{Services}
use cavi_erp.Exec.{Exec, raise, ◌>>=◌}
use cavi_erp.Agent.Runtime.{now_iso}
use cavi_erp.Json.{Object}
use cavi_erp.Forge.Write.{WriteOperation, WriteStep, transition_to, allowed, completed, state_value}
use cavi_erp.Forge.Write.Coordinator.{
  Erp, Office, BatchExecution, execute, run_batch, execute_batch, is_erp_error, first_unapproved,
  is_approved, apply_write,
}

abbrev pub step_id : WriteStep → String
step_id step = step.op.write_id

abbrev pub op_id : WriteOperation → String
op_id op = op.write_id

abbrev pub to_list : Option WriteOperation → List WriteOperation
to_list none = []
to_list (some op) = op ∷ []

-- The ERP confirmed these writes one after the other, each after the calls made before it.
abbrev pub Confirmed : Erp → List WriteOperation → List WriteOperation → Type 0
Confirmed erp calls [] = Unit
Confirmed erp calls (op ∷ ops) =
    (c : Object) × (erp.apply calls op ≡ ok c) × Confirmed erp (calls ++ op ∷ []) ops

-- Why a batch ended: it was done, or the ERP answered its next write with an error.
abbrev pub Stopped : Erp → List WriteOperation → BatchExecution → Type 0
Stopped erp calls b =
    ((b.failed ≡ none) × (b.not_attempted ≡ []))
    ⊎ ((op : WriteOperation) × (e : Error) × (b.failed ≡ some op)
        × (b.error ≡ some (message e))
        × (erp.apply calls op ≡ err e)
        × (is_erp_error e ≡ true))

-- The report on a batch `ops`, to a caller that has `done` to report already and has made `calls`.
pub record Accounts (erp : Erp) (done : List WriteStep) (ops calls : List WriteOperation)
    (b : BatchExecution) (s : Office) : Type 0 where
  pub confirmed : List WriteOperation
  pub all_ops : ops ≡ confirmed ++ (to_list b.failed ++ b.not_attempted)
  pub called : s.own.calls ≡ calls ++ (confirmed ++ to_list b.failed)
  pub reported : map step_id b.steps ≡ map step_id done ++ map op_id confirmed
  pub answered : Confirmed erp calls confirmed
  pub stopped : Stopped erp (calls ++ confirmed) b

-- The ERP answered the write `op` with an exception that is no failure of the ERP.
pub record Broken (erp : Erp) (ops calls : List WriteOperation) (e : Error) (s : Office)
    : Type 0 where
  pub confirmed : List WriteOperation
  pub op : WriteOperation
  pub rest : List WriteOperation
  pub all_ops : ops ≡ confirmed ++ op ∷ rest
  pub called : s.own.calls ≡ calls ++ (confirmed ++ op ∷ [])
  pub answered : Confirmed erp calls confirmed
  pub raised : erp.apply (calls ++ confirmed) op ≡ err e
  pub other : is_erp_error e ≡ false

abbrev Ends :
    Erp
    → List WriteStep
    → List WriteOperation
    → List WriteOperation
    → Result BatchExecution × Office
    → Type 0
Ends erp done ops calls (ok b, s) = Accounts erp done ops calls b s
Ends erp done ops calls (err e, s) = Broken erp ops calls e s

-- How a batch may end that was started in the state `before`.
abbrev pub Settles : Erp → List WriteOperation → Office → Result BatchExecution × Office → Type 0
Settles erp ops before (ok b, s) =
    (first_unapproved ops ≡ none) × Accounts erp [] ops before.own.calls b s
Settles erp ops before (err e, s) =
    ((op : WriteOperation) × (first_unapproved ops ≡ some op) × (s ≡ before))
    ⊎ ((first_unapproved ops ≡ none) × Broken erp ops before.own.calls e s)

allowed-completed :
    (op : WriteOperation) → is_approved op.state ≡ true → allowed op.state completed ≡ true
unfolding allowed
allowed-completed op h = ground arith

Ends-cons :
    (erp : Erp) (done : List WriteStep) (step : WriteStep) (op : WriteOperation)
    (ops calls : List WriteOperation) (r : Result BatchExecution × Office) (c : Object)
    → step.op.write_id ≡ op.write_id
    → erp.apply calls op ≡ ok c
    → Ends erp (done ++ step ∷ []) ops (calls ++ op ∷ []) r
    → Ends erp done (op ∷ ops) calls r
Ends-cons erp done step op ops calls (ok b, s) c same confirmed a = record {
  confirmed = op ∷ a.confirmed;
  all_ops = ap (λ l. op ∷ l) a.all_ops;
  called = a.called ∙ append_assoc calls (op ∷ []) (a.confirmed ++ to_list b.failed);
  reported = a.reported ∙ rw (map-append, same, append_assoc) refl;
  answered = (c, confirmed, a.answered);
  stopped = subst (λ l. Stopped erp l b) (append_assoc calls (op ∷ []) a.confirmed) a.stopped;
}
Ends-cons erp done step op ops calls (err e, s) c same confirmed a = record {
  confirmed = op ∷ a.confirmed;
  op = a.op;
  rest = a.rest;
  all_ops = ap (λ l. op ∷ l) a.all_ops;
  called = a.called ∙ append_assoc calls (op ∷ []) _;
  answered = (c, confirmed, a.answered);
  raised =
      subst (λ l. erp.apply l a.op ≡ err e) (append_assoc calls (op ∷ []) a.confirmed) a.raised;
  other = a.other;
}

module _ (services : Services) (erp : Erp) where
  abbrev Answered : WriteOperation → Office → Result WriteStep → Type 0
  Answered op s (ok step) =
      (step.op.write_id ≡ op.write_id) × (c : Object) × (erp.apply s.own.calls op ≡ ok c)
  Answered op s (err e) = erp.apply s.own.calls op ≡ err e

  abbrev Handed : WriteOperation → Office → Result WriteStep × Office → Type 0
  Handed op s r = (r.1.own.calls ≡ s.own.calls ++ op ∷ []) × Answered op s r.0

  -- An approved write is handed to the ERP once, and the ERP's answer comes back.
  execute_lem :
      (op : WriteOperation) (s : Office)
      → is_approved op.state ≡ true
      → Handed op s (execute services erp op s)
  unfolding execute apply_write transition_to ◌>>=◌ now_iso
  execute_lem op s h = answered (erp.apply s.own.calls op) refl
    where
      answered :
          (r : Result Object)
          → erp.apply s.own.calls op ≡ r
          → Handed op s (execute services erp op s)
      answered (ok c) e = rw (h, e, allowed-completed op h) (refl, (refl, c, e))
      answered (err x) e = rw (h, e) (refl, e)

  raised_after :
      (op : WriteOperation) (calls : List WriteOperation) (r : Result Object)
      → erp.apply calls op ≡ r
      → erp.apply (calls ++ []) op ≡ r
  raised_after op calls r e = rw (append-nil calls) e

  run_batch_lem :
      (ops : List WriteOperation) (done : List WriteStep) (s : Office)
      → first_unapproved ops ≡ none
      → Ends erp done ops s.own.calls (run_batch services erp ops done s)
  unfolding run_batch
  run_batch_lem [] done s h = record {
    confirmed = [];
    all_ops = refl;
    called = sym (append-nil _);
    reported = sym (append-nil _);
    answered = tt;
    stopped = inl (refl, refl);
  }
  run_batch_lem (op ∷ ops) done s h = elim (Bool-cases (is_approved op.state)) [
    | inl a ↦
        went_on (execute services erp op s) (execute_lem op s a)
          λ step s'. run_batch_lem ops (done ++ step ∷ []) s' (rw a at h)
    | inr n ↦ absurd (cc)
  ]
    where
      went_on :
          (r : Result WriteStep × Office)
          → Handed op s r
          → ((step : WriteStep) (s' : Office)
              → Ends erp
                  (done ++ step ∷ [])
                  ops
                  s'.own.calls
                  (run_batch services erp ops (done ++ step ∷ []) s'))
          → Ends erp done (op ∷ ops) s.own.calls (elim r.0 [
            | ok step ↦ run_batch services erp ops (done ++ step ∷ []) r.1
            | err e ↦
                if is_erp_error e
                then (
                  ok (record {
                    steps = done;
                    failed = some op;
                    error = some (message e);
                    not_attempted = ops;
                  }),
                  r.1,
                )
                else (err e, r.1)
          ])
      went_on (ok step, s') (called, (same, c, confirmed)) rest =
          Ends-cons erp done step op ops s.own.calls _ c same confirmed (
            subst
              (λ calls.
                Ends erp (done ++ step ∷ []) ops calls
                  (run_batch services erp ops (done ++ step ∷ []) s'))
              called (rest step s'))
      went_on (err e, s') (called, raised) rest = elim (Bool-cases (is_erp_error e)) [
        | inl erp_error ↦
            rw (erp_error, Ends)
              (record {
                confirmed = [];
                all_ops = refl;
                called = called;
                reported = sym (append-nil _);
                answered = tt;
                stopped =
                    inr (op, e, refl, refl, raised_after op s.own.calls (err e) raised, erp_error);
              })
        | inr other ↦
            rw (other, Ends)
              (record {
                confirmed = [];
                op = op;
                rest = ops;
                all_ops = refl;
                called = called;
                answered = tt;
                raised = raised_after op s.own.calls (err e) raised;
                other = other;
              })
      ]

  abbrev judged : List WriteOperation → Option WriteOperation → Exec Office BatchExecution
  judged ops none = run_batch services erp ops []
  judged ops (some op) = raise (
      Error.invalid_transition (
        "batch refused: write "
        <> op.write_id
        <> " is "
        <> state_value op.state
        <> ", not approved — no write in the batch was executed"))

  execute_batch-judged :
      (ops : List WriteOperation) (s : Office)
      → execute_batch services erp ops s ≡ judged ops (first_unapproved ops) s
  unfolding execute_batch
  execute_batch-judged ops s = elim (Option-cases (first_unapproved ops)) [
    | inl n ↦ rw (n, execute_batch) refl
    | inr (op, e) ↦ rw (e, execute_batch) refl
  ]

  -- A batch with a write that is not approved changes nothing. Any other batch hands its writes to
  -- the ERP in order, each once, as long as the ERP confirms them: the steps it reports are, by
  -- their ids, the writes that the ERP confirmed, and with the failed write and the writes reported
  -- as not attempted they are the whole batch. A write is reported as failed, with the error's
  -- message, exactly when the ERP answered it with an ERP error; without one every write was
  -- confirmed. Where the ERP raised another exception, the batch ends with that exception, after
  -- writes that were all confirmed.
  pub execute_batch-Settles :
      (ops : List WriteOperation) (s : Office)
      → Settles erp ops s (execute_batch services erp ops s)
  execute_batch-Settles ops s =
      subst (Settles erp ops s) (sym (execute_batch-judged ops s))
        (settled (first_unapproved ops) refl)
    where
      returned :
          (r : Result BatchExecution × Office)
          → first_unapproved ops ≡ none
          → Ends erp [] ops s.own.calls r
          → Settles erp ops s r
      returned (ok b, s') n a = (n, a)
      returned (err e, s') n b = inr (n, b)

      settled :
          (o : Option WriteOperation)
          → first_unapproved ops ≡ o
          → Settles erp ops s (judged ops o s)
      settled none n = returned (run_batch services erp ops [] s) n (run_batch_lem ops [] s n)
      settled (some op) e = inl (op, e, refl)
