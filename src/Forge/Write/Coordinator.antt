-- ===== src/Forge/Write/Coordinator.antt =====
-- `WriteCoordinator` of agents/forge/write.py. Its methods act on the state of the agent that owns
-- it: what the writer was asked to apply, in order, and the agent's own fields.
use cavi_erp.Prelude.{
  String, Bool, true, false, Option, none, some, List, [], ◌∷◌, ◌++◌, ◌<>◌, if◌then◌else◌,
}
use cavi_erp.Prelude.Int.{pos}
use cavi_erp.Json.{Object}
use cavi_erp.Error.{Error, Result, ok, err, message}
use cavi_erp.Exec.{Exec, pure, raise, lift, ◌>>=◌}
use cavi_erp.Services.{Services}
use cavi_erp.Dict.{Dict}
use cavi_erp.Agent.Runtime.{Agent, mint, now_iso}
use cavi_erp.Forge.Breaker.{CircuitBreaker}
use cavi_erp.Forge.Write.{
  WriteState, WriteOperation, WriteStep, requested, approved, rejected, completed, state_value,
  transition_to, requested_payload, approved_payload, rejected_payload, completed_payload,
}
use cavi_erp.Forge.Write.Diff.{render_diff, no_dry_run_preview}

-- The ERP behind the injected writer and reader. An answer may depend on all that was applied
-- before and on the moment.
pub record Erp : Type 0 where
  -- `ErpWriter.apply`, after these applications
  pub apply : List WriteOperation → WriteOperation → Result Object
  -- `ErpReader.fetch`, if a reader is configured
  pub fetch : Option (List WriteOperation → WriteOperation → Result (Option Object))

-- `UnconfiguredErpWriter`, and no reader.
abbrev pub unconfigured : Erp
unconfigured = record {
  apply = λ _ op. err (
      Error.erp_write_error
        ("no ERP writer configured for '" <> op.erp_platform <> "'; inject an ErpWriter"));
  fetch = none;
}

-- The fields of `ForgeWriteAgent`, and the applications that the writer has received.
pub record Desk : Type 0 where
  pub pending : Dict String WriteOperation
  pub completed_writes : Dict String WriteOperation
  pub breakers : Dict (String × String) CircuitBreaker
  pub calls : List WriteOperation

abbrev pub Office : Type 0
Office = Agent Desk

-- The keyword arguments of `request`.
pub record Proposal : Type 0 where
  pub tenant_id : String
  pub erp_platform : String
  pub operation : String
  pub target_module : String
  pub payload : Object
  pub requested_by : String
  pub diff_preview : Option String
  pub reverses : Option String
  pub target_external_id : Option String

abbrev or_default : Option String → String → String
or_default none d = d
or_default (some s) d = s

abbrev pub is_approved : WriteState → Bool
is_approved approved = true
is_approved _ = false

module _ (services : Services) (erp : Erp) where
  abbrev pub rendered : WriteOperation → Result (Option Object) → Result String
  rendered op (ok before) = ok (render_diff before op)
  rendered op (err e) = err e

  abbrev pub preview_by :
      Option (List WriteOperation → WriteOperation → Result (Option Object))
      → Option String
      → WriteOperation
      → Exec Office String
  preview_by none asserted op s = (ok (or_default asserted no_dry_run_preview), s)
  preview_by (some fetch) asserted op s = (rendered op (fetch s.own.calls op), s)

  -- The preview: derived from the record that the ERP holds, where a reader is configured.
  unfoldable pub preview : Option String → WriteOperation → Exec Office String
  preview asserted op = preview_by erp.fetch asserted op

  unfoldable pub request : Proposal → Exec Office WriteStep
  request p = do
    write_id ← mint services
    let op : WriteOperation = record {
      write_id = write_id;
      tenant_id = p.tenant_id;
      erp_platform = p.erp_platform;
      operation = p.operation;
      target_module = p.target_module;
      payload = p.payload;
      requested_by = p.requested_by;
      diff_preview = "";
      state = requested;
      reverses = p.reverses;
      target_external_id = p.target_external_id;
    }
    shown ← preview p.diff_preview op
    now ← now_iso services
    let proposed : WriteOperation = record op { diff_preview = shown }
    pure (record {
      op = proposed;
      subject = "forge.write.requested";
      event = requested_payload proposed now;
      schema_version = pos 3;
    })

  abbrev pub reversal_from :
      WriteState
      → WriteOperation
      → String
      → Object
      → String
      → Option String
      → Option String
      → Exec Office WriteStep
  reversal_from completed original operation payload requested_by diff_preview target =
      request (record {
        tenant_id = original.tenant_id;
        erp_platform = original.erp_platform;
        operation = operation;
        target_module = original.target_module;
        payload = payload;
        requested_by = requested_by;
        diff_preview = diff_preview;
        reverses = some original.write_id;
        target_external_id = target;
      })
  reversal_from other original operation payload requested_by diff_preview target = raise (
      Error.invalid_transition (
        "write "
        <> original.write_id
        <> ": cannot reverse from "
        <> state_value other
        <> " (only a completed write is reversible)"))

  unfoldable pub request_reversal :
      WriteOperation
      → String
      → Object
      → String
      → Option String
      → Option String
      → Exec Office WriteStep
  request_reversal original = reversal_from original.state original

  unfoldable pub approve : WriteOperation → String → Exec Office WriteStep
  approve op approved_by = do
    cleared ← lift (transition_to approved op)
    now ← now_iso services
    pure (record {
      op = cleared;
      subject = "forge.write.approved";
      event = approved_payload cleared approved_by now;
      schema_version = pos 1;
    })

  unfoldable pub reject : WriteOperation → String → Option String → Exec Office WriteStep
  reject op rejected_by reason = do
    refused ← lift (transition_to rejected op)
    now ← now_iso services
    pure (record {
      op = refused;
      subject = "forge.write.rejected";
      event = rejected_payload refused rejected_by reason now;
      schema_version = pos 1;
    })

  -- `self._writer.apply(op)`: the application is on record whether the ERP confirms it or not.
  unfoldable pub apply_write : WriteOperation → Exec Office Object
  apply_write op s =
      (erp.apply s.own.calls op, record s { own = record s.own { calls = s.own.calls ++ op ∷ [] } })

  unfoldable pub execute : WriteOperation → Exec Office WriteStep
  execute op =
      if is_approved op.state
      then (do
        confirmation ← apply_write op
        done ← lift (transition_to completed op)
        now ← now_iso services
        pure (record {
          op = done;
          subject = "forge.write.completed";
          event = completed_payload done confirmation now;
          schema_version = pos 1;
        }))
      else raise (
          Error.invalid_transition
            ("write " <> op.write_id <> ": cannot execute from " <> state_value op.state))

-- `except ErpWriteError`: the class and its subclass `BreakerOpen`.
abbrev pub is_erp_error : Error → Bool
is_erp_error (Error.erp_write_error _) = true
is_erp_error (Error.breaker_open _) = true
is_erp_error _ = false

pub record BatchExecution : Type 0 where
  pub steps : List WriteStep
  pub failed : Option WriteOperation
  pub error : Option String
  pub not_attempted : List WriteOperation

-- The first write of a batch that is not approved.
abbrev pub first_unapproved : List WriteOperation → Option WriteOperation
first_unapproved [] = none
first_unapproved (op ∷ ops) = if is_approved op.state then first_unapproved ops else some op

module _ (services : Services) (erp : Erp) where
  -- The loop of `execute_batch`; `done` are the steps that went through.
  unfoldable pub run_batch : List WriteOperation → List WriteStep → Exec Office BatchExecution
  run_batch [] done s =
      (ok (record { steps = done; failed = none; error = none; not_attempted = [] }), s)
  run_batch (op ∷ ops) done s =
      let (r, s') = execute services erp op s in
      elim r [
        | ok step ↦ run_batch ops (done ++ step ∷ []) s'
        | err e ↦
            if is_erp_error e
            then (
              ok (record {
                steps = done;
                failed = some op;
                error = some (message e);
                not_attempted = ops;
              }),
              s',
            )
            else (err e, s')
      ]

  unfoldable pub execute_batch : List WriteOperation → Exec Office BatchExecution
  execute_batch ops = elim (first_unapproved ops) [
    | some op ↦ raise (
        Error.invalid_transition (
          "batch refused: write "
          <> op.write_id
          <> " is "
          <> state_value op.state
          <> ", not approved — no write in the batch was executed"))
    | none ↦ run_batch ops []
  ]
