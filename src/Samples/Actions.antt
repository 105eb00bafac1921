-- ===== src/Samples/Actions.antt =====
-- The same task: its cards, its execution, its events and some memories.
use headhunt_agent.Samples.{codec, db}
use headhunt_agent.Prelude.{
  true, false, none, some, [], ◌∷◌, ◌≡◌, refl, All, length, ◌+◌, ◌≤◌, count_where,
}
use headhunt_agent.Tx.{ok, raise, ◌>>=◌, map_error, duplicate_event, bitable_action_not_approved}
use headhunt_agent.Value.{Value, Fields, Items, str, uuid, dict, list, nil, field, end, null}
use headhunt_agent.Storage.Models.{
  Database, ApprovalDecision, OutboxKind, FeishuEventLog, EventStatus, ArtifactBlob,
}
use headhunt_agent.Storage.Tables.{get_proposal, get_blob, uuid4}
use headhunt_agent.CardActions.{
  CardAction, record_action_and_enqueue_resume, ensure_action_approved,
}
use headhunt_agent.CardActions.Once.{IsOpen, record_action-IsOpen}
use headhunt_agent.Executor.Writes.{execute-ensure_action_approved}
use headhunt_agent.Executor.{execute, ActionExecutionResult, ExecutionStatus}
use headhunt_agent.Executor.Payload.{
  BitableSettings, required_str, build_bitable_outbox_payload, table_id_for_business_kind,
}
use headhunt_agent.Executor.Gate.{IsAllowed, execute-IsAllowed}
use headhunt_agent.Events.{record_event_and_enqueue}
use headhunt_agent.Events.Once.{record_event_once, by_dedupe_key}
use headhunt_agent.ActionGate.{propose_action, existing_action, ActionRequest, ProposedAction}
use headhunt_agent.ActionGate.Repeats.{propose_action_once}
use headhunt_agent.Retention.{MemoryItem, MemoryStatus, retain, run, is_managed}
use headhunt_agent.Retention.Summary.{run_summary}
use headhunt_agent.Retention.Counted.{run_summary-run, is_unmanaged}
use headhunt_agent.Retention.Runs.{IsRetained, run-IsRetained, IsDue, retain-IsDue}
use headhunt_agent.Storage.Payloads.{get_json_payload, store_json_payload}
use headhunt_agent.Storage.Writer.{enqueue_json}
use headhunt_agent.Codec.{stable_hash}
use headhunt_agent.UrlSafety.{NetText}
use headhunt_agent.Sops.{SopRecord, resolve, Node}
use headhunt_agent.Sops.Limits.{length-resolve}

abbrev action : CardAction
action = record {
  event_id = "e1";
  thread_id = 1;
  action_id = 2;
  interrupt_id = 7;
  idempotency_key = "k";
  open_message_id = none;
  open_chat_id = none;
  card_update_token_ref = "ref:token";
  operator_open_id = none;
  decision = ApprovalDecision.approve;
  edited_payload_ref = none;
  payload_ref = "ref:resume";
  approver = end;
}

action_recorded : (record_action_and_enqueue_resume action db).0 ≡ ok tt
unfolding record_action_and_enqueue_resume ◌>>=◌ get_proposal map_error
action_recorded = refl

record_action-IsOpen_example : IsOpen action db
record_action-IsOpen_example = record_action-IsOpen action db action_recorded

abbrev settings : BitableSettings
settings = record {
  feishu_bitable_app_token = some "app";
  feishu_bitable_requisition_table_id = some "t1";
  feishu_bitable_candidate_table_id = some "t2";
  feishu_bitable_talent_map_table_id = some "t3";
  feishu_bitable_report_table_id = some "t4";
}

abbrev approval : Fields
approval = field "action_id" (uuid 2) (
    field "thread_id" (uuid 1)
      (field "decision" (str "approve") (field "idempotency_key" (str "k") end)))

abbrev proposal_blob : ArtifactBlob
proposal_blob = record {
  content_ref = "ref:p";
  media_type = "application/json";
  content_json = dict (
      field "payload"
        (dict (
          field "business_kind" (str "ReportDraft")
            (field "client_token" (str "token") (field "record_fields" (dict end) end))))
        end);
  content_text = "{}";
  sha256 = "{}";
}

abbrev write_db : Database
write_db = record db { artifact_blobs = proposal_blob ∷ [] }

abbrev executed : ActionExecutionResult
executed = record {
  status = ExecutionStatus.queued;
  action_id = 2;
  decision = "approve";
  outbox_payload_ref = some "artifact://outbox/{}";
}

write_queued : (execute codec settings approval write_db).0 ≡ ok executed
unfolding execute ◌>>=◌ headhunt_agent.Value.get required_str get_proposal get_json_payload get_blob
    build_bitable_outbox_payload table_id_for_business_kind enqueue_json store_json_payload
    stable_hash
write_queued = refl

execute-IsAllowed_example :
    IsAllowed codec settings approval write_db executed (execute codec settings approval write_db).1
execute-IsAllowed_example =
    execute-IsAllowed codec settings approval write_db executed write_queued refl

execute-ensure_action_approved_example :
    (ensure_action_approved 2 write_db ≡ (raise bitable_action_not_approved, write_db))
    × (ensure_action_approved 2 (execute codec settings approval write_db).1
        ≡ (ok tt, (execute codec settings approval write_db).1))
execute-ensure_action_approved_example =
    execute-ensure_action_approved codec settings approval write_db executed write_queued refl

abbrev event : FeishuEventLog
event = record {
  event_id = "e1";
  event_type = "im.message";
  tenant_key = none;
  app_id = none;
  message_id = none;
  dedupe_key = "d1";
  idempotency_key = "ev:1";
  payload_hash = "h";
  payload_ref = "ref:e";
  status = EventStatus.queued;
}

-- The same message again, under other ids
abbrev again : FeishuEventLog
again = record event { event_id = "e2"; idempotency_key = "ev:2" }

event_logged : (record_event_and_enqueue event OutboxKind.graph_dispatch none (some 1) db).0 ≡ ok tt
unfolding record_event_and_enqueue map_error ◌>>=◌
event_logged = refl

record_event_once_example :
    record_event_and_enqueue again OutboxKind.card_send none none
      (record_event_and_enqueue event OutboxKind.graph_dispatch none (some 1) db).1
    ≡ (
      raise duplicate_event,
      (record_event_and_enqueue event OutboxKind.graph_dispatch none (some 1) db).1,
    )
record_event_once_example =
    record_event_once event again OutboxKind.graph_dispatch OutboxKind.card_send none none (some 1)
      none db event_logged (by_dedupe_key refl)

abbrev action_request : ActionRequest
action_request = record {
  thread_id = 1;
  action_type = "bitable_write";
  payload_summary = "another";
  payload = end;
  idempotency_key = "k";
  artifact_refs = nil;
}

abbrev new_request : ActionRequest
new_request = record action_request { idempotency_key = "k2" }

abbrev answered : ProposedAction
answered = record {
  action_id = 20;
  interrupt_id = 21;
  payload_ref = "artifact://action-proposal/2/payload/v1";
  idempotency_key = "k2";
}

newly_proposed : (propose_action codec none new_request db).0 ≡ ok answered
unfolding propose_action ◌>>=◌ existing_action store_json_payload get_blob uuid4
newly_proposed = refl

-- The second request under the key says something else.
propose_action_once_example :
    propose_action codec none
      (record new_request { payload_summary = "other" })
      (propose_action codec none new_request db).1
    ≡ (ok answered, (propose_action codec none new_request db).1)
propose_action_once_example =
    propose_action_once codec none new_request (record new_request { payload_summary = "other" }) db
      answered tt newly_proposed refl

abbrev memory : MemoryItem
memory = record {
  id = 1;
  scope = "RunMemory";
  owner_agent = none;
  summary = "the calibration";
  content_ref = "ref:m1";
  embedding_ref = none;
  tenant_id = none;
  guild_id = some "g1";
  user_id = none;
  project_id = none;
  requisition_id = none;
  candidate_id = none;
  thread_id = some 1;
  pii_level = "low";
  confidence = 500;
  version = 1;
  status = MemoryStatus.active;
  metadata = null;
  created_at = some 0;
  updated_at = 0;
  expires_at = none;
}

run-IsRetained_example : All (IsRetained codec 3000000) (run codec 3000000 false (memory ∷ []))
run-IsRetained_example = run-IsRetained codec 3000000 (memory ∷ [])

memory_managed : is_managed memory.status ≡ true
unfolding is_managed
memory_managed = refl

memory_expired : is_managed (retain codec 3000000 memory).status ≡ false
unfolding retain headhunt_agent.Value.get
memory_expired = refl

retain-IsDue_example : IsDue codec 3000000 memory
retain-IsDue_example = retain-IsDue codec 3000000 memory memory_managed memory_expired

abbrev net : NetText
net = record {
  urlparse = λ s. record {
    scheme = "https";
    hostname = s;
    username = "";
    password = "";
    query = "";
    fragment = "";
  };
  ip_address = λ s. none;
}

abbrev node : Node
node = record {
  agent_name = "StrategyDraftAgent";
  node_name = "draft";
  task_type = "review";
  output_artifact_type = "ReportDraft";
  writable = true;
}

abbrev sop_record : SopRecord
sop_record = record {
  sop_id = "s1";
  version = "v1";
  title = "Drafts";
  scope = "business.draft";
  trigger_policy = "always";
  content_ref = "ref:s1";
  summary = "how to draft";
  status = "active";
  path = none;
}

length-resolve_example : length (resolve 1 2 node (sop_record ∷ sop_record ∷ [])) ≤ 1 + 2
length-resolve_example = length-resolve 1 2 node (sop_record ∷ sop_record ∷ [])

run_summary-run_example :
    count_where (is_unmanaged codec 3000000) (run codec 3000000 false (memory ∷ []))
    ≡ count_where (is_unmanaged codec 3000000) (memory ∷ [])
      + (run_summary codec 3000000 true (memory ∷ [])).expired_count
run_summary-run_example = run_summary-run codec 3000000 true (memory ∷ [])
