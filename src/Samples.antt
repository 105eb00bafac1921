-- ===== src/Samples.antt =====
-- A small task with one proposed action, and the theorems of the library at it.
pub mod Artifacts
pub mod Actions
pub mod Memories
pub mod Users
pub mod Tasks
pub mod Graphs
pub mod Writes
use headhunt_agent.Prelude.{
  String, Bool, false, none, some, [], ◌∷◌, ◌≡◌, ◌≢◌, refl, if◌then◌else◌, ◌==◌, All, inl, inr, ◌+◌,
  ◌<◌, arith, true,
}
use headhunt_agent.Tx.{
  ok, raise, outbox_payload_conflict, approval_not_found, approval_conflict, ◌>>=◌, transaction,
  map_error,
}
use headhunt_agent.Value.{Value, str, end}
use headhunt_agent.Codec.{Codec, stable_hash}
use headhunt_agent.Storage.Models.{
  Uuid, card_send, OutboxStatus, FeishuOutbox, ArtifactBlob, GraphThread, ThreadStatus,
  ActionProposal, ProposalStatus, ApprovalDecision, approve, reject, Database, empty_database,
}
use headhunt_agent.Storage.Tables.{get_blob, insert_approval}
use headhunt_agent.Storage.Writer.{enqueue_json, existing_outbox}
use headhunt_agent.Storage.Writer.Once.{enqueue_json_idem, enqueue_json_refuses}
use headhunt_agent.Storage.Claims.{
  claim_next, next_candidate, claim_row, is_claimable, comes_before, lex, priority,
}
use headhunt_agent.Storage.Claims.Ranking.{next_candidate-IsNext, IsNext}
use headhunt_agent.Storage.Claims.Lease.{claim_exclusive, IsHeld}
use headhunt_agent.Approvals.{
  ApprovalDecisionRequest, ApprovalDecisionResponse, ResponseStatus, proposal_for_interrupt,
  existing_human_approval,
}
use headhunt_agent.Approvals.Submit.{submit_decision}
use headhunt_agent.Approvals.Submit.Contract.{
  submit_decision_once, submit_decision-FirstDecision, FirstDecision,
}
use headhunt_agent.Approvals.Submit.Quiet.{submit_decision-HasNoSideEffect, HasNoSideEffect}
use headhunt_agent.Dispatcher.{
  dispatch_once, FeishuOutboxDispatcher, OutboxHandler, dispatch_error, retry_delay,
}
use headhunt_agent.Dispatcher.Budget.{
  dispatch_once-InBudget, HasUniqueIds, InBudget, RespectsBudget,
}
use headhunt_agent.Dispatcher.Retry.{
  dispatch_once_rolls_back, dispatch_once-IsHeld, failure_at, with_failure,
}
use headhunt_agent.Storage.Payloads.{store_json_payload}
use headhunt_agent.Approvals.Payload.{build_resume_payload}

abbrev plain_dumps : Value → String
plain_dumps (str s) = s
plain_dumps _ = "{}"

abbrev codec : Codec
codec = record {
  dumps = plain_dumps;
  dumps_spaced = plain_dumps;
  loads = λ s. none;
  sha256 = λ s. s;
  text_of_other = λ v. "other";
  uuid_text = λ u. if u == 1 then "1" else "2";
  parse_uuid = λ s. some 1;
  uuid5 = λ s. 9;
}

abbrev thread : GraphThread
thread = record {
  id = 1;
  source = "discord";
  source_ref = some "m1";
  task_type = "review";
  council_mode = none;
  mode_reason = none;
  status = ThreadStatus.interrupted;
  state_summary = end;
}

abbrev proposal : ActionProposal
proposal = record {
  id = 2;
  thread_id = 1;
  interrupt_id = 7;
  action_type = "bitable_write";
  payload_summary = "one record";
  payload_ref = "ref:p";
  idempotency_key = "k";
  status = ProposalStatus.pending;
  created_at = 5;
}

abbrev item : FeishuOutbox
item = record {
  id = 3;
  kind = card_send;
  idempotency_key = "card:1";
  thread_id = some 1;
  payload_ref = "ref:card";
  status = OutboxStatus.pending;
  attempt_count = 0;
  next_attempt_at = 10;
  claimed_by = none;
  claimed_at = none;
  claim_expires_at = none;
  last_error = none;
  created_at = 10;
}

abbrev card_blob : ArtifactBlob
card_blob = record {
  content_ref = "ref:card";
  media_type = "application/json";
  content_json = str "hello";
  content_text = "hello";
  sha256 = "hello";
}

abbrev db : Database
db = record empty_database {
  artifact_blobs = card_blob ∷ [];
  feishu_outbox = item ∷ [];
  graph_threads = thread ∷ [];
  action_proposals = proposal ∷ [];
  next_uuid = 20;
  now = 12;
}

abbrev request : ApprovalDecision → ApprovalDecisionRequest
request decision = record { decision = decision; approver = end; edited_payload = none }

abbrev first_response : ApprovalDecisionResponse
first_response = record {
  status = ResponseStatus.queued;
  action_id = 2;
  interrupt_id = 7;
  thread_id = 1;
  decision = approve;
  idempotency_key = "k";
  outbox_payload_ref = some "artifact://outbox/{}";
}

submitted : (submit_decision codec 7 (request approve) db).0 ≡ ok first_response
unfolding submit_decision map_error transaction ◌>>=◌ proposal_for_interrupt existing_human_approval
    enqueue_json store_json_payload get_blob stable_hash build_resume_payload insert_approval
submitted = refl

missing : (submit_decision codec 8 (request approve) db).0 ≡ raise approval_not_found
unfolding submit_decision map_error transaction ◌>>=◌ proposal_for_interrupt
missing = refl

queued_ref :
    (enqueue_json codec card_send "card:2" (str "new") (some 1) (some "ref:new") db).0
    ≡ ok "ref:new"
unfolding enqueue_json ◌>>=◌ store_json_payload get_blob stable_hash
queued_ref = refl

item_found : existing_outbox "card:1" db ≡ some item
unfolding existing_outbox
item_found = refl

other_payload :
    (blob : ArtifactBlob)
    → get_blob item.payload_ref db ≡ some blob
    → blob.sha256 ≢ stable_hash codec (str "new")
unfolding get_blob stable_hash
other_payload blob found same = cc

abbrev approved_once : Database
approved_once = (submit_decision codec 7 (request approve) db).1

submit_decision_once_example :
    (ApprovalDecision.reject ≡ ApprovalDecision.approve
      → ApprovalDecision.reject ≢ ApprovalDecision.edit
      → submit_decision codec 7 (request reject) approved_once ≡ (
        ok (record first_response { status = ResponseStatus.duplicate; outbox_payload_ref = none }),
        approved_once,
      ))
    × (ApprovalDecision.reject ≢ ApprovalDecision.approve
        → submit_decision codec 7 (request reject) approved_once
          ≡ (raise approval_conflict, approved_once))
submit_decision_once_example =
    submit_decision_once codec 7 (request approve) (request reject) db first_response submitted refl

submit_decision-FirstDecision_example :
    FirstDecision codec 7 (request approve) db first_response approved_once
submit_decision-FirstDecision_example =
    submit_decision-FirstDecision codec 7 (request approve) db first_response submitted refl

submit_decision-HasNoSideEffect_example : HasNoSideEffect db approved_once
submit_decision-HasNoSideEffect_example =
    submit_decision-HasNoSideEffect codec 7 (request approve) db

abbrev queued_card : Database
queued_card = (enqueue_json codec card_send "card:2" (str "new") (some 1) (some "ref:new") db).1

enqueue_json_idem_example :
    enqueue_json codec card_send "card:2" (str "new") none none queued_card
    ≡ (ok "ref:new", queued_card)
enqueue_json_idem_example =
    enqueue_json_idem codec card_send card_send "card:2" (str "new") (some 1) none (some "ref:new")
      none db queued_ref

enqueue_json_refuses_example :
    enqueue_json codec card_send "card:1" (str "new") (some 1) none db
    ≡ (raise outbox_payload_conflict, db)
enqueue_json_refuses_example =
    enqueue_json_refuses codec card_send "card:1" (str "new") (some 1) none db item item_found
      other_payload

abbrev unlocked : Uuid → Bool
unlocked outbox_id = false

next_candidate-IsNext_example :
    IsNext 12 unlocked db.feishu_outbox (next_candidate 12 unlocked db.feishu_outbox)
next_candidate-IsNext_example = next_candidate-IsNext 12 unlocked db.feishu_outbox

-- A second item, due later
abbrev late_item : FeishuOutbox
late_item = record item { id = 4; idempotency_key = "card:3"; next_attempt_at = 11 }

abbrev two_items : Database
two_items = record db { feishu_outbox = item ∷ late_item ∷ [] }

abbrev claimed_item : FeishuOutbox
claimed_item = claim_row "w1" 12 72 item

first_claim : (claim_next "w1" 60 12 unlocked two_items).0 ≡ some claimed_item
unfolding claim_next next_candidate is_claimable comes_before lex priority
first_claim = refl

second_claim :
    (claim_next "w2" 60 13 unlocked (claim_next "w1" 60 12 unlocked two_items).1).0
    ≡ some (claim_row "w2" 13 73 late_item)
unfolding claim_next next_candidate is_claimable comes_before lex priority
second_claim = refl

claim_exclusive_example : (claim_row "w2" 13 73 late_item).id ≢ claimed_item.id
claim_exclusive_example =
    claim_exclusive "w1" "w2" 60 60 12 13 unlocked unlocked two_items claimed_item
      (claim_row "w2" 13 73 late_item) first_claim (omega arith) second_claim

abbrev dispatcher : FeishuOutboxDispatcher
dispatcher = record {
  worker_id = "w1";
  max_attempts = 5;
  base_retry_seconds = 30;
  claim_lease_seconds = 60;
}

-- A handler that stores a payload, and fails
abbrev failing : OutboxHandler
failing row s = (
  dispatch_error "503" none,
  record s { artifact_blobs = record card_blob { content_ref = "ref:x" } ∷ s.artifact_blobs },
)

unique_ids : HasUniqueIds db.feishu_outbox
unique_ids x y (inl e) (inl e') h = cc
unique_ids x y (inr m) n h = elim m [ ]
unique_ids x y m (inr n) h = elim n [ ]

in_budget : All (InBudget 5) db.feishu_outbox
in_budget = ((λ _. omega arith), tt)

failing-RespectsBudget : RespectsBudget 5 failing
failing-RespectsBudget row s h = h

item_chosen : next_candidate 12 unlocked db.feishu_outbox ≡ some item
unfolding next_candidate is_claimable
item_chosen = refl

item_fails : failure_at dispatcher 12 unlocked failing db item ≡ some ("503", none)
item_fails = refl

dispatch_once-InBudget_example :
    All (InBudget 5) (dispatch_once dispatcher 12 unlocked failing db).1.feishu_outbox
dispatch_once-InBudget_example =
    dispatch_once-InBudget dispatcher 12 unlocked failing db unique_ids in_budget
      failing-RespectsBudget

dispatch_once_rolls_back_example :
    (dispatch_once dispatcher 12 unlocked failing db).1
    ≡ with_failure dispatcher 12 unlocked failing db item "503" none
dispatch_once_rolls_back_example =
    dispatch_once_rolls_back dispatcher 12 unlocked failing db item "503" none item_chosen
      item_fails

before_retry : 41 < 12 + retry_delay none 30 1
unfolding retry_delay
before_retry = omega arith

dispatch_once-IsHeld_example :
    All (IsHeld 41 3) (dispatch_once dispatcher 12 unlocked failing db).1.feishu_outbox
dispatch_once-IsHeld_example =
    dispatch_once-IsHeld dispatcher 12 unlocked failing db item "503" none item_chosen item_fails 41
      before_retry
