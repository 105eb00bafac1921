-- ===== src/Events.antt =====
-- `FeishuEventRepository`, `FeishuTaskConfirmationRepository` and `FeishuModelSetupRepository` of
-- app/storage/repositories.py: what arrives from Feishu is logged once.
pub mod Once
use headhunt_agent.Prelude.{
  String, Bool, true, false, Option, none, some, List, [], ◌∷◌, ◌++◌, str_eq, any, ◌||◌, ◌&&◌,
  or_text, is_some, if◌then◌else◌,
}
use headhunt_agent.Tx.{
  Error, Result, ok, raise, Tx, map_error, ◌>>=◌, ◌>>◌, unique_violation, duplicate_event,
  duplicate_card_action,
}
use headhunt_agent.Storage.Models.{
  Uuid, OutboxKind, FeishuEventLog, EventStatus, FeishuCardAction, CardActionStatus,
  ApprovalDecision, Database,
}
use headhunt_agent.Storage.Tables.{Session, insert_outbox, insert_card_action}

abbrev same_text : Option String → Option String → Bool
same_text (some a) (some b) = str_eq a b
same_text _ _ = false

-- The UNIQUE constraints of the table: a null is distinct from every value.
unfoldable pub clashes : FeishuEventLog → FeishuEventLog → Bool
clashes row old =
    str_eq old.event_id row.event_id
    || (str_eq old.dedupe_key row.dedupe_key
        || (str_eq old.idempotency_key row.idempotency_key
            || same_text old.tenant_key row.tenant_key
              && (str_eq old.event_type row.event_type && same_text old.message_id row.message_id)))

unfoldable pub insert_event : FeishuEventLog → Session (Unit {0})
unfolding clashes
insert_event row db =
    if any (clashes row) db.feishu_event_logs
    then (raise unique_violation, db)
    else (ok tt, record db { feishu_event_logs = db.feishu_event_logs ++ row ∷ [] })

abbrev to_duplicate_event : Error → Error
to_duplicate_event unique_violation = duplicate_event
to_duplicate_event e = e

abbrev to_duplicate_action : Error → Error
to_duplicate_action unique_violation = duplicate_card_action
to_duplicate_action e = e

-- The event row has the status queued.
unfoldable pub record_event_and_enqueue :
    FeishuEventLog → OutboxKind → Option String → Option Uuid → Session (Unit {0})
unfolding insert_event insert_outbox
record_event_and_enqueue event outbox_kind outbox_payload_ref thread_id =
    map_error to_duplicate_event (do
      insert_event (record event { status = EventStatus.queued })
      insert_outbox outbox_kind event.idempotency_key thread_id
          (or_text outbox_payload_ref event.payload_ref))

-- The arguments that a confirmation and a model setup share
pub record CardClick : Type 0 where
  pub event_id : String
  pub thread_id : Uuid
  pub idempotency_key : String
  pub open_message_id : Option String
  pub open_chat_id : Option String
  pub card_update_token_ref : String
  pub operator_open_id : Option String

abbrev pub click_row :
    CardClick → Uuid → ApprovalDecision → Option String → CardActionStatus → FeishuCardAction
click_row click action_id decision edited_payload_ref status = record {
  id = 0;
  event_id = click.event_id;
  thread_id = click.thread_id;
  action_id = action_id;
  interrupt_id = none;
  idempotency_key = click.idempotency_key;
  open_message_id = click.open_message_id;
  open_chat_id = click.open_chat_id;
  card_update_token_ref = some click.card_update_token_ref;
  operator_open_id = click.operator_open_id;
  decision = decision;
  edited_payload_ref = edited_payload_ref;
  status = status;
}

unfoldable pub record_confirmation :
    CardClick → Uuid → ApprovalDecision → CardActionStatus → Session (Unit {0})
unfolding insert_card_action
record_confirmation click task_id decision status =
    map_error to_duplicate_action
      (insert_card_action (click_row click task_id decision none status))

unfoldable pub record_setup : CardClick → Uuid → String → Session (Unit {0})
unfolding insert_card_action
record_setup click profile_id payload_ref = map_error to_duplicate_action (
    insert_card_action (
      click_row click profile_id ApprovalDecision.approve (some payload_ref)
        CardActionStatus.received))

-- `FeishuModelSetupRepository.is_duplicate`
unfoldable pub is_duplicate : String → Database → Bool
is_duplicate key db = any (λ c. str_eq c.idempotency_key key) db.feishu_card_actions
