-- ===== src/Storage/Models.antt =====
-- app/storage/models.py: the rows of the tables that the task, approval and outbox flow uses, and
-- the database as the tables together. CHECK constraints are data types here.
--
-- A UUID is a number, and `next_uuid` is the source of fresh ones: `gen_random_uuid()` and `uuid4()`
-- never return a value twice. A `datetime` is a number of seconds, and `now` is the server's clock.
use headhunt_agent.Prelude.{ℕ, String, Option, List, []}
use headhunt_agent.Value.{Value, Fields}

abbrev pub Uuid : Type 0
Uuid = ℕ

abbrev pub Datetime : Type 0
Datetime = ℕ

pub data OutboxKind : Type 0 where
  graph_dispatch card_send card_update bitable_write resume task_confirmation_prepare : OutboxKind

pub data OutboxStatus : Type 0 where
  pending claimed succeeded failed dead_letter : OutboxStatus

pub record FeishuOutbox : Type 0 where
  pub id : Uuid
  pub kind : OutboxKind
  pub idempotency_key : String
  pub thread_id : Option Uuid
  pub payload_ref : String
  pub status : OutboxStatus
  pub attempt_count : ℕ
  pub next_attempt_at : Datetime
  pub claimed_by : Option String
  pub claimed_at : Option Datetime
  pub claim_expires_at : Option Datetime
  pub last_error : Option String
  pub created_at : Datetime

pub record ArtifactBlob : Type 0 where
  pub content_ref : String
  pub media_type : String
  pub content_json : Value
  pub content_text : String
  pub sha256 : String

pub data ThreadStatus : Type 0 where
  queued running interrupted completed failed : ThreadStatus

pub record GraphThread : Type 0 where
  pub id : Uuid
  pub source : String
  pub source_ref : Option String
  pub task_type : String
  pub council_mode : Option String
  pub mode_reason : Option String
  pub status : ThreadStatus
  pub state_summary : Fields

pub data ProposalStatus : Type 0 where
  pending approved rejected executed : ProposalStatus

pub record ActionProposal : Type 0 where
  pub id : Uuid
  pub thread_id : Uuid
  pub interrupt_id : Uuid
  pub action_type : String
  pub payload_summary : String
  pub payload_ref : String
  pub idempotency_key : String
  pub status : ProposalStatus
  pub created_at : Datetime

-- The three values of the column `decision`, and of `ApprovalDecision` in app/schemas/approval.py.
pub data ApprovalDecision : Type 0 where
  approve edit reject : ApprovalDecision

pub record HumanApproval : Type 0 where
  pub id : Uuid
  pub interrupt_id : Uuid
  pub action_id : Uuid
  pub thread_id : Uuid
  pub approver : Fields
  pub decision : ApprovalDecision
  pub edited_payload_ref : Option String
  pub idempotency_key : String

pub data CardActionStatus : Type 0 where
  received queued resumed duplicate failed : CardActionStatus

pub record FeishuCardAction : Type 0 where
  pub id : Uuid
  pub event_id : String
  pub thread_id : Uuid
  pub action_id : Uuid
  pub interrupt_id : Option Uuid
  pub idempotency_key : String
  pub open_message_id : Option String
  pub open_chat_id : Option String
  pub card_update_token_ref : Option String
  pub operator_open_id : Option String
  pub decision : ApprovalDecision
  pub edited_payload_ref : Option String
  pub status : CardActionStatus

pub data EventStatus : Type 0 where
  received queued duplicate failed : EventStatus

pub record FeishuEventLog : Type 0 where
  pub event_id : String
  pub event_type : String
  pub tenant_key : Option String
  pub app_id : Option String
  pub message_id : Option String
  pub dedupe_key : String
  pub idempotency_key : String
  pub payload_hash : String
  pub payload_ref : String
  pub status : EventStatus

pub record Database : Type 0 where
  pub feishu_event_logs : List FeishuEventLog
  pub artifact_blobs : List ArtifactBlob
  pub feishu_outbox : List FeishuOutbox
  pub graph_threads : List GraphThread
  pub action_proposals : List ActionProposal
  pub human_approvals : List HumanApproval
  pub feishu_card_actions : List FeishuCardAction
  pub next_uuid : Uuid
  pub now : Datetime

abbrev pub empty_database : Database
empty_database = record {
  feishu_event_logs = [];
  artifact_blobs = [];
  feishu_outbox = [];
  graph_threads = [];
  action_proposals = [];
  human_approvals = [];
  feishu_card_actions = [];
  next_uuid = 0;
  now = 0;
}
