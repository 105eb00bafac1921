-- ===== src/Executor.antt =====
-- app/runtime/action_executor.py: `ActionExecutor` turns an approval into a queued Bitable write,
-- once for each proposal. The payload of the write is in the module Payload.
pub mod Payload
pub mod Checks
pub mod Queueing
pub mod Gate
pub mod Writes
pub mod Accepts
use headhunt_agent.Prelude.{
  String, Bool, true, false, Option, none, some, ◌==◌, str_eq, if◌then◌else◌, ◌<>◌, update_where,
  ◌||◌, ◌&&◌, not, ◌∷◌, [],
}
use headhunt_agent.Tx.{
  throw, pure, gets, require, guard, modify, ◌>>=◌, ◌>>◌, action_execution, value_error, Error,
}
use headhunt_agent.Value.{Value, Fields, get, text_of, truthy, str, uuid, entries_of, field, end}
use headhunt_agent.Codec.{Codec, text_form}
use headhunt_agent.Storage.Models.{
  Uuid, ActionProposal, ProposalStatus, GraphThread, ThreadStatus, Database, bitable_write,
  approved,
}
use headhunt_agent.Storage.Tables.{Session, get_proposal}
use headhunt_agent.Storage.Payloads.{get_json_payload}
use headhunt_agent.Storage.Writer.{enqueue_json}
use headhunt_agent.Executor.Payload.{BitableSettings, build_bitable_outbox_payload, required_str}

-- `ActionExecutionResult.status`; the field `message` repeats it in words.
pub data ExecutionStatus : Type 0 where
  queued rejected already_approved already_executed already_rejected : ExecutionStatus

pub record ActionExecutionResult : Type 0 where
  pub status : ExecutionStatus
  pub action_id : Uuid
  pub decision : String
  pub outbox_payload_ref : Option String

-- An approval that fits its proposal
pub record Checked : Type 0 where
  pub proposal : ActionProposal
  pub decision : String

abbrev pub result : Checked → ExecutionStatus → Option String → ActionExecutionResult
result checked status ref = record {
  status = status;
  action_id = checked.proposal.id;
  decision = checked.decision;
  outbox_payload_ref = ref;
}

-- The status of a proposal that was handled before
unfoldable pub already : ProposalStatus → Option ExecutionStatus
already ProposalStatus.pending = none
already ProposalStatus.approved = some already_approved
already ProposalStatus.rejected = some already_rejected
already ProposalStatus.executed = some already_executed

unfoldable pub status_text : ProposalStatus → String
status_text ProposalStatus.pending = "pending"
status_text ProposalStatus.approved = "approved"
status_text ProposalStatus.rejected = "rejected"
status_text ProposalStatus.executed = "executed"

abbrev pub set_status : ProposalStatus → ActionProposal → ActionProposal
set_status status p = record p { status = status }

abbrev pub has_proposal_id : Uuid → ActionProposal → Bool
has_proposal_id action_id p = p.id == action_id

module _ (c : Codec) where
  abbrev complete_thread : ActionProposal → ProposalStatus → GraphThread → GraphThread
  complete_thread proposal status thread = record thread {
    status = ThreadStatus.completed;
    state_summary = field "last_action_id" (str (c.uuid_text proposal.id)) (
        field "last_action_status" (str (status_text status))
          (field "last_action_type" (str proposal.action_type) end));
  }

  -- `_mark_proposal`
  abbrev pub mark_proposal : ActionProposal → ProposalStatus → Database → Database
  mark_proposal proposal status db = record db {
    action_proposals =
        update_where (has_proposal_id proposal.id) (set_status status) db.action_proposals;
    graph_threads =
        update_where (λ t. t.id == proposal.thread_id) (complete_thread proposal status)
          db.graph_threads;
  }

  parsed_uuid : Option Uuid → Session Uuid
  parsed_uuid found = require found value_error

  uuid_of : Value → Session Uuid
  unfolding parsed_uuid
  uuid_of (uuid u) = pure u
  uuid_of (str s) = if str_eq s "" then throw action_execution else parsed_uuid (c.parse_uuid s)
  uuid_of _ = throw action_execution

  -- `_required_uuid`
  required_uuid : Fields → String → Session Uuid
  unfolding uuid_of
  required_uuid payload key = uuid_of (get key payload)

  fits_interrupt : ActionProposal → Value → Bool
  unfolding text_form truthy
  fits_interrupt proposal interrupt_id =
      not (truthy interrupt_id)
      || str_eq (c.uuid_text proposal.interrupt_id) (text_form c interrupt_id)

  -- The checks of `execute`, up to the proposal's key
  unfoldable pub check_approval : Fields → Session Checked
  unfolding required_uuid fits_interrupt
  check_approval approval = do
    action_id ← required_uuid approval "action_id"
    thread_id ← required_uuid approval "thread_id"
    decision ← required_str approval "decision"
    found ← gets (get_proposal action_id)
    proposal ← require found action_execution
    guard (proposal.thread_id == thread_id) action_execution
    guard (fits_interrupt proposal (get "interrupt_id" approval)) action_execution
    idempotency_key ← required_str approval "idempotency_key"
    guard (str_eq proposal.idempotency_key idempotency_key) action_execution
    pure (record { proposal = proposal; decision = decision })

  abbrev pub bitable_key : ActionProposal → String
  bitable_key proposal = "bitable:" <> proposal.idempotency_key <> ":" <> c.uuid_text proposal.id

  -- decision is approve, or edit with a payload
  unfoldable pub may_write : Fields → String → Bool
  unfolding entries_of
  may_write approval decision =
      str_eq decision "approve"
      || str_eq decision "edit"
        && elim (entries_of (get "edited_payload" approval)) [ none ↦ false | some d ↦ true ]

  module _ (settings : BitableSettings) where
    pub queue_write : Checked → Fields → Session ActionExecutionResult
    queue_write checked approval = do
      proposal_payload ← get_json_payload checked.proposal.payload_ref
      outbox_payload ←
          build_bitable_outbox_payload c settings checked.proposal proposal_payload approval
      ref ←
          enqueue_json c bitable_write (bitable_key checked.proposal) outbox_payload
            (some checked.proposal.thread_id) none
      modify (mark_proposal checked.proposal approved)
      pure (result checked queued (some ref))

    -- `rejects` tells whether the decision is reject.
    execute_pending : Fields → Checked → Bool → Session ActionExecutionResult
    unfolding queue_write may_write
    execute_pending approval checked true = do
      modify (mark_proposal checked.proposal ProposalStatus.rejected)
      pure (result checked ExecutionStatus.rejected none)
    execute_pending approval checked false = do
      guard (may_write approval checked.decision) action_execution
      queue_write checked approval

    execute_unless_handled :
        Fields → Checked → Option ExecutionStatus → Session ActionExecutionResult
    unfolding execute_pending
    execute_unless_handled approval checked (some status) = pure (result checked status none)
    execute_unless_handled approval checked none =
        execute_pending approval checked (str_eq checked.decision "reject")

    execute_checked : Fields → Checked → Session ActionExecutionResult
    unfolding execute_unless_handled already
    execute_checked approval checked =
        execute_unless_handled approval checked (already checked.proposal.status)

    unfoldable pub execute : Fields → Session ActionExecutionResult
    unfolding check_approval execute_checked
    execute approval = do checked ← check_approval approval; execute_checked approval checked
