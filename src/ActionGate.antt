-- ===== src/ActionGate.antt =====
-- app/runtime/action_gate.py: `ActionGate` proposes an action and interrupts its thread. The notifier
-- of the war room is a parameter: what it does in the session for the proposed action.
pub mod Answers
pub mod Repeats
use headhunt_agent.Prelude.{
  String, Bool, true, false, Option, none, some, List, ◌==◌, find, ◌<>◌, if◌then◌else◌,
  update_where, [], ◌∷◌,
}
use headhunt_agent.Tx.{pure, gets, modify, ◌>>=◌, ◌>>◌}
use headhunt_agent.Value.{Value, Items, Fields, str, dict, list, field, end}
use headhunt_agent.Codec.{Codec}
use headhunt_agent.Storage.Models.{
  Uuid, ActionProposal, ProposalStatus, GraphThread, ThreadStatus, Database,
}
use headhunt_agent.Storage.Tables.{Session, uuid4, has_proposal_key, insert_proposal_or_ignore}
use headhunt_agent.Storage.Payloads.{store_json_payload}

pub record ProposedAction : Type 0 where
  pub action_id : Uuid
  pub interrupt_id : Uuid
  pub payload_ref : String
  pub idempotency_key : String

-- The arguments of `propose_action`, without those for the notifier
pub record ActionRequest : Type 0 where
  pub thread_id : Uuid
  pub action_type : String
  pub payload_summary : String
  pub payload : Fields
  pub idempotency_key : String
  pub artifact_refs : Items

abbrev pub proposed : ActionProposal → ProposedAction
proposed row = record {
  action_id = row.id;
  interrupt_id = row.interrupt_id;
  payload_ref = row.payload_ref;
  idempotency_key = row.idempotency_key;
}

-- `_existing_action`
unfoldable pub existing_action : String → Database → Option ActionProposal
existing_action key db = find (has_proposal_key key) db.action_proposals

module _ (c : Codec) (notify : Option (ProposedAction → Session (Unit {0}))) where
  abbrev pub proposal_row : ActionRequest → Uuid → Uuid → String → ActionProposal
  proposal_row request action_id interrupt_id payload_ref = record {
    id = action_id;
    thread_id = request.thread_id;
    interrupt_id = interrupt_id;
    action_type = request.action_type;
    payload_summary = request.payload_summary;
    payload_ref = payload_ref;
    idempotency_key = request.idempotency_key;
    status = ProposalStatus.pending;
    created_at = 0;
  }

  payload_with_refs : ActionRequest → Value
  payload_with_refs request = dict (
      field "action_type" (str request.action_type) (
        field "payload_summary" (str request.payload_summary) (
          field "payload" (dict request.payload)
            (field "artifact_refs" (list request.artifact_refs) end))))

  interrupt_thread : ActionRequest → ProposedAction → Database → Database
  interrupt_thread request action db = record db {
    graph_threads =
        update_where (λ t. t.id == request.thread_id)
          (λ t. record t {
            status = ThreadStatus.interrupted;
            state_summary = field "pending_action_id" (str (c.uuid_text action.action_id)) (
                field "pending_interrupt_id" (str (c.uuid_text action.interrupt_id)) (
                  field "pending_action_type" (str request.action_type)
                    (field "payload_summary" (str request.payload_summary) end)));
          })
          db.graph_threads;
  }

  notify_room : Option (ProposedAction → Session (Unit {0})) → ProposedAction → Session (Unit {0})
  notify_room none action = pure tt
  notify_room (some enqueue_approval_card) action = enqueue_approval_card action

  interrupt : ActionRequest → ProposedAction → Session ProposedAction
  unfolding interrupt_thread notify_room
  interrupt request action = do
    modify (interrupt_thread request action)
    notify_room notify action
    pure action

  -- Another session may have inserted a proposal under the key.
  interrupt_unless_other :
      ActionRequest → ProposedAction → Option ActionProposal → Session ProposedAction
  unfolding interrupt
  interrupt_unless_other request action none = interrupt request action
  interrupt_unless_other request action (some persisted) =
      if persisted.id == action.action_id
      then interrupt request action
      else pure (proposed persisted)

  propose_new : ActionRequest → Session ProposedAction
  unfolding payload_with_refs interrupt_unless_other insert_proposal_or_ignore existing_action
  propose_new request = do
    action_id ← uuid4
    interrupt_id ← uuid4
    now ← gets (λ db. db.now)
    store_json_payload ("artifact://action-proposal/" <> c.uuid_text action_id <> "/payload/v1")
        (payload_with_refs request) (c.dumps (payload_with_refs request))
        (c.sha256 (c.dumps (payload_with_refs request)))
    insert_proposal_or_ignore
        (record (proposal_row request action_id interrupt_id
          ("artifact://action-proposal/" <> c.uuid_text action_id <> "/payload/v1")) {
            created_at = now;
          })
    persisted ← gets (existing_action request.idempotency_key)
    interrupt_unless_other request
        (proposed (
          proposal_row request action_id interrupt_id
            ("artifact://action-proposal/" <> c.uuid_text action_id <> "/payload/v1")))
        persisted

  propose_unless_found : ActionRequest → Option ActionProposal → Session ProposedAction
  unfolding propose_new
  propose_unless_found request none = propose_new request
  propose_unless_found request (some existing) = pure (proposed existing)

  unfoldable pub propose_action : ActionRequest → Session ProposedAction
  unfolding propose_unless_found existing_action
  propose_action request = do
    existing ← gets (existing_action request.idempotency_key)
    propose_unless_found request existing
