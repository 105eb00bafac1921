-- ===== src/Approvals.antt =====
-- app/runtime/approvals.py: `ApprovalService` records the human decision on a proposed action. The
-- payloads and `submit_decision` are in the modules below.
pub mod Payload
pub mod Submit
use headhunt_agent.Prelude.{
  String, Bool, true, false, not, Option, none, some, List, if◌then◌else◌, ◌∷◌, ltb, find, ◌==◌, [],
}
use headhunt_agent.Value.{Fields, is_empty}
use headhunt_agent.Storage.Models.{
  Uuid, Datetime, ProposalStatus, ApprovalDecision, approve, edit, reject, ActionProposal, Database,
  HumanApproval,
}
use headhunt_agent.Storage.Tables.{Session, has_approval_key}
use headhunt_agent.Tx.{◌>>=◌, gets, require, approval_not_found, pure}

-- `ApprovalDecisionRequest` of app/schemas/approval.py
pub record ApprovalDecisionRequest : Type 0 where
  pub decision : ApprovalDecision
  pub approver : Fields
  pub edited_payload : Option Fields

abbrev pub has_entries : Option Fields → Bool
has_entries none = false
has_entries (some fields) = not (is_empty fields)

-- `require_edited_payload_for_edit`: the requests that validation lets through
unfoldable pub is_valid_request : ApprovalDecisionRequest → Bool
is_valid_request request = elim request.decision [
  | edit ↦ has_entries request.edited_payload
  | _ ↦ true
]

-- The values of the field `status` of `ApprovalDecisionResponse`
pub data ResponseStatus : Type 0 where
  queued duplicate already_approved already_rejected already_executed : ResponseStatus

pub record ApprovalDecisionResponse : Type 0 where
  pub status : ResponseStatus
  pub action_id : Uuid
  pub interrupt_id : Uuid
  pub thread_id : Uuid
  pub decision : ApprovalDecision
  pub idempotency_key : String
  pub outbox_payload_ref : Option String

pub record ApprovalDetailResponse : Type 0 where
  pub action_id : Uuid
  pub interrupt_id : Uuid
  pub thread_id : Uuid
  pub action_type : String
  pub payload_summary : String
  pub payload_ref : String
  pub idempotency_key : String
  pub status : ProposalStatus
  pub created_at : Datetime
  pub can_decide : Bool

-- `ApprovalDecision.value`
unfoldable pub decision_text : ApprovalDecision → String
decision_text approve = "approve"
decision_text edit = "edit"
decision_text reject = "reject"

abbrev pub is_pending : ProposalStatus → Bool
is_pending ProposalStatus.pending = true
is_pending _ = false

abbrev pub same_decision : ApprovalDecision → ApprovalDecision → Bool
same_decision approve approve = true
same_decision edit edit = true
same_decision reject reject = true
same_decision _ _ = false

-- `order_by(desc(created_at)).limit(1)` over the proposals of an interrupt
newer : ActionProposal → Option ActionProposal → Option ActionProposal
newer p none = some p
newer p (some q) = if ltb p.created_at q.created_at then some q else some p

latest_proposal : Uuid → List ActionProposal → Option ActionProposal
unfolding newer
latest_proposal interrupt_id [] = none
latest_proposal interrupt_id (p ∷ rest) =
    if p.interrupt_id == interrupt_id
    then newer p (latest_proposal interrupt_id rest)
    else latest_proposal interrupt_id rest

-- `_proposal_for_interrupt`
unfoldable pub proposal_for_interrupt : Uuid → Database → Option ActionProposal
unfolding latest_proposal
proposal_for_interrupt interrupt_id db = latest_proposal interrupt_id db.action_proposals

-- `_existing_human_approval`
unfoldable pub existing_human_approval : String → Database → Option HumanApproval
existing_human_approval key db = find (has_approval_key key) db.human_approvals

-- `_detail_response`
detail_response : ActionProposal → ApprovalDetailResponse
detail_response proposal = record {
  action_id = proposal.id;
  interrupt_id = proposal.interrupt_id;
  thread_id = proposal.thread_id;
  action_type = proposal.action_type;
  payload_summary = proposal.payload_summary;
  payload_ref = proposal.payload_ref;
  idempotency_key = proposal.idempotency_key;
  status = proposal.status;
  created_at = proposal.created_at;
  can_decide = is_pending proposal.status;
}

unfoldable pub get_approval : Uuid → Session ApprovalDetailResponse
unfolding detail_response
get_approval interrupt_id = do
  found ← gets (proposal_for_interrupt interrupt_id)
  proposal ← require found approval_not_found
  pure (detail_response proposal)

abbrev pub response :
    ActionProposal → ApprovalDecision → ResponseStatus → Option String → ApprovalDecisionResponse
response proposal decision status outbox_payload_ref = record {
  status = status;
  action_id = proposal.id;
  interrupt_id = proposal.interrupt_id;
  thread_id = proposal.thread_id;
  decision = decision;
  idempotency_key = proposal.idempotency_key;
  outbox_payload_ref = outbox_payload_ref;
}

-- The `status_map` of `_already_handled_response`, and its default.
abbrev pub handled_status : ProposalStatus → ResponseStatus
handled_status ProposalStatus.approved = already_approved
handled_status ProposalStatus.rejected = already_rejected
handled_status _ = already_executed
