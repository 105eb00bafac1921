-- ===== src/CardActions.antt =====
-- `FeishuCardActionRepository` of app/storage/repositories.py: a button on an approval card records
-- the decision and queues the resumption. `BitableSyncRepository` checks the approval.
pub mod Once
use headhunt_agent.Prelude.{
  String, Bool, true, false, Option, none, some, ◌==◌, str_eq, ◌<>◌, ◌||◌, ◌∷◌, [],
}
use headhunt_agent.Tx.{
  Error, pure, gets, require, guard, map_error, ◌>>=◌, ◌>>◌, invalid_human_approval,
  duplicate_card_action, unique_violation, bitable_action_not_approved,
}
use headhunt_agent.Value.{Fields}
use headhunt_agent.Storage.Models.{
  Uuid, ActionProposal, ApprovalDecision, HumanApproval, FeishuCardAction, CardActionStatus,
  OutboxKind, ProposalStatus,
}
use headhunt_agent.Storage.Tables.{
  Session, get_proposal, insert_card_action, insert_approval, insert_outbox,
}

-- The arguments of `record_action_and_enqueue_resume`
pub record CardAction : Type 0 where
  pub event_id : String
  pub thread_id : Uuid
  pub action_id : Uuid
  pub interrupt_id : Uuid
  pub idempotency_key : String
  pub open_message_id : Option String
  pub open_chat_id : Option String
  pub card_update_token_ref : String
  pub operator_open_id : Option String
  pub decision : ApprovalDecision
  pub edited_payload_ref : Option String
  pub payload_ref : String
  pub approver : Fields

unfoldable pub is_open : ProposalStatus → Bool
is_open ProposalStatus.pending = true
is_open _ = false

abbrev pub card_row : CardAction → FeishuCardAction
card_row action = record {
  id = 0;
  event_id = action.event_id;
  thread_id = action.thread_id;
  action_id = action.action_id;
  interrupt_id = some action.interrupt_id;
  idempotency_key = action.idempotency_key;
  open_message_id = action.open_message_id;
  open_chat_id = action.open_chat_id;
  card_update_token_ref = some action.card_update_token_ref;
  operator_open_id = action.operator_open_id;
  decision = action.decision;
  edited_payload_ref = action.edited_payload_ref;
  status = CardActionStatus.queued;
}

abbrev pub approval_row : CardAction → HumanApproval
approval_row action = record {
  id = 0;
  interrupt_id = action.interrupt_id;
  action_id = action.action_id;
  thread_id = action.thread_id;
  approver = action.approver;
  decision = action.decision;
  edited_payload_ref = action.edited_payload_ref;
  idempotency_key = action.idempotency_key;
}

-- `_is_unique_violation`, in the `except IntegrityError`
abbrev pub to_duplicate : Error → Error
to_duplicate unique_violation = duplicate_card_action
to_duplicate e = e

unfoldable pub insert_rows : CardAction → Session (Unit {0})
unfolding insert_card_action insert_approval insert_outbox
insert_rows action = do
  insert_card_action (card_row action)
  insert_approval (approval_row action)
  insert_outbox OutboxKind.resume ("resume:" <> action.idempotency_key) (some action.thread_id)
      action.payload_ref

unfoldable pub record_action_and_enqueue_resume : CardAction → Session (Unit {0})
unfolding is_open insert_rows
record_action_and_enqueue_resume action = do
  found ← gets (get_proposal action.action_id)
  proposal ← require found invalid_human_approval
  guard (proposal.thread_id == action.thread_id) invalid_human_approval
  guard (proposal.interrupt_id == action.interrupt_id) invalid_human_approval
  guard (str_eq proposal.idempotency_key action.idempotency_key) invalid_human_approval
  guard (is_open proposal.status) duplicate_card_action
  map_error to_duplicate (insert_rows action)

unfoldable pub is_approved : ProposalStatus → Bool
is_approved ProposalStatus.approved = true
is_approved ProposalStatus.executed = true
is_approved _ = false

-- `BitableSyncRepository.ensure_action_approved`
unfoldable pub ensure_action_approved : Uuid → Session (Unit {0})
unfolding is_approved
ensure_action_approved action_id = do
  found ← gets (get_proposal action_id)
  proposal ← require found bitable_action_not_approved
  guard (is_approved proposal.status) bitable_action_not_approved
