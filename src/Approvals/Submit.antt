-- ===== src/Approvals/Submit.antt =====
-- app/runtime/approvals.py: `submit_decision`. The conflict errors of the outbox and of the
-- database's constraints become ApprovalConflictError after the rollback.
pub mod Outcomes
pub mod Contract
pub mod Quiet
use headhunt_agent.Prelude.{
  if◌then◌else◌, Option, String, some, ◌<>◌, none, Bool, str_eq, true, false,
}
use headhunt_agent.Tx.{
  ◌>>=◌, ◌>>◌, Error, approval_conflict, guard, pure, gets, map_error, transaction, require,
  key_error, outbox_payload_conflict, approval_not_found, unique_violation, foreign_key_violation,
}
use headhunt_agent.Storage.Models.{
  ActionProposal, HumanApproval, Uuid, ApprovalDecision, resume, edit,
}
use headhunt_agent.Codec.{Codec}
use headhunt_agent.Approvals.{
  ApprovalDecisionRequest, ApprovalDecisionResponse, is_pending, same_decision,
  existing_human_approval, response, proposal_for_interrupt, duplicate, handled_status, queued,
}
use headhunt_agent.Approvals.Payload.{approver_of, build_resume_payload, extract_edited_payload}
use headhunt_agent.Storage.Tables.{Session, insert_approval}
use headhunt_agent.Value.{Fields, same_fields}
use headhunt_agent.Storage.Writer.{enqueue_json}
use headhunt_agent.Storage.Payloads.{get_json_payload}

module _ (c : Codec) where
  -- KeyError becomes ApprovalConflictError, as in `_existing_edit_payload`.
  abbrev unavailable : Error → Error
  unavailable key_error = approval_conflict
  unavailable e = e

  existing_edit_payload : Option String → Session (Option Fields)
  existing_edit_payload none = pure none
  existing_edit_payload (some edited_payload_ref) =
      if str_eq edited_payload_ref "" then pure none else do
        payload ← map_error unavailable (get_json_payload edited_payload_ref)
        pure (extract_edited_payload c payload)

  -- `existing_payload != requested_edited_payload`, the other way round
  same_payload : Option Fields → Option Fields → Bool
  same_payload none none = true
  same_payload (some d) (some e) = same_fields d e
  same_payload _ _ = false

  -- `_ensure_existing_edit_payload_matches`
  ensure_existing_edit_payload_matches : HumanApproval → Option Fields → Session (Unit {0})
  unfolding existing_edit_payload same_payload
  ensure_existing_edit_payload_matches existing_approval requested = do
    existing_payload ← existing_edit_payload existing_approval.edited_payload_ref
    guard (same_payload existing_payload requested) approval_conflict

  ensure_same_edit : HumanApproval → ApprovalDecisionRequest → Session (Unit {0})
  unfolding ensure_existing_edit_payload_matches
  ensure_same_edit existing request = elim request.decision [
    | edit ↦ ensure_existing_edit_payload_matches existing request.edited_payload
    | _ ↦ pure tt
  ]

  abbrev ref_if_edit : ApprovalDecision → String → Option String
  ref_if_edit edit ref = some ref
  ref_if_edit _ ref = none

  abbrev pub new_approval : ActionProposal → ApprovalDecisionRequest → String → HumanApproval
  new_approval proposal request ref = record {
    id = 0;
    interrupt_id = proposal.interrupt_id;
    action_id = proposal.id;
    thread_id = proposal.thread_id;
    approver = approver_of request;
    decision = request.decision;
    edited_payload_ref = ref_if_edit request.decision ref;
    idempotency_key = proposal.idempotency_key;
  }

  abbrev pub resume_key : ActionProposal → String
  resume_key proposal = "resume:" <> proposal.idempotency_key

  -- A first decision: the resume item and the approval row.
  record_decision : ActionProposal → ApprovalDecisionRequest → Session ApprovalDecisionResponse
  record_decision proposal request = do
    outbox_payload_ref ←
        enqueue_json c resume (resume_key proposal) (build_resume_payload c proposal request)
          (some proposal.thread_id) none
    insert_approval (new_approval proposal request outbox_payload_ref)
    pure (response proposal request.decision queued (some outbox_payload_ref))

  -- A repeated decision
  repeat_decision :
      ActionProposal → ApprovalDecisionRequest → HumanApproval → Session ApprovalDecisionResponse
  unfolding ensure_same_edit
  repeat_decision proposal request existing = do
    guard (same_decision existing.decision request.decision) approval_conflict
    ensure_same_edit existing request
    pure (response proposal request.decision duplicate none)

  decide_unless_recorded :
      ActionProposal
      → ApprovalDecisionRequest
      → Option HumanApproval
      → Session ApprovalDecisionResponse
  unfolding repeat_decision record_decision
  decide_unless_recorded proposal request (some existing) =
      repeat_decision proposal request existing
  decide_unless_recorded proposal request none = record_decision proposal request

  decide : ActionProposal → ApprovalDecisionRequest → Session ApprovalDecisionResponse
  unfolding decide_unless_recorded
  decide proposal request =
      if is_pending proposal.status
      then (do
        existing ← gets (existing_human_approval proposal.idempotency_key)
        decide_unless_recorded proposal request existing)
      else pure (response proposal request.decision (handled_status proposal.status) none)

  -- OutboxPayloadConflictError and IntegrityError become ApprovalConflictError.
  abbrev pub to_approval_conflict : Error → Error
  to_approval_conflict outbox_payload_conflict = approval_conflict
  to_approval_conflict unique_violation = approval_conflict
  to_approval_conflict foreign_key_violation = approval_conflict
  to_approval_conflict e = e

  submit_block : Uuid → ApprovalDecisionRequest → Session ApprovalDecisionResponse
  unfolding decide
  submit_block interrupt_id request = do
    found ← gets (proposal_for_interrupt interrupt_id)
    proposal ← require found approval_not_found
    decide proposal request

  unfoldable pub submit_decision : Uuid → ApprovalDecisionRequest → Session ApprovalDecisionResponse
  unfolding submit_block
  submit_decision interrupt_id request =
      map_error to_approval_conflict (transaction (submit_block interrupt_id request))
