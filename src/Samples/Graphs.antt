-- ===== src/Samples/Graphs.antt =====
-- A run of the graph, a review in it, and a decision on the sample proposal.
use headhunt_agent.Samples.{db, proposal, request}
use headhunt_agent.Samples.Tasks.{timed}
use headhunt_agent.Prelude.{true, false, none, some, [], ◌∷◌, ◌≡◌, ◌≢◌, refl, arith}
use headhunt_agent.Tx.{ok, ◌>>=◌}
use headhunt_agent.Value.{Fields, str, dict, int, end, field, dict_value, get}
use headhunt_agent.Storage.Models.{approve}
use headhunt_agent.Storage.Tables.{get_proposal}
use headhunt_agent.Graph.{RecruitmentState, Node}
use headhunt_agent.Graph.Reviewing.{review_latest_artifact, route_from_review_gate, reviewed_state}
use headhunt_agent.Graph.Reviewed.{Routed, review_latest_artifact-Routed}
use headhunt_agent.Graph.Run.{GraphParts, invoke, recursion_limit}
use headhunt_agent.Graph.Ends.{invoke_ends}
use headhunt_agent.Graph.Actions.{normalize_human_approval}
use headhunt_agent.Graph.Approval.{decision_reaches_executor}
use headhunt_agent.Review.{
  ArtifactRef, Validated, valid, review_artifact, text_or_else, all_findings, artifact_findings,
  evidence_findings, practicality_findings, context_budget_findings, forbidden_key_findings,
  memory_ref_findings, token_findings, safety_findings, pii_findings, side_effect_findings,
  review_status,
}
use headhunt_agent.Outbox.{feishu_card_payload_to_human_approval}
use headhunt_agent.Outbox.Resumed.{HasTexts}
use headhunt_agent.Approvals.{decision_text, is_valid_request}
use headhunt_agent.Approvals.Payload.{build_resume_payload}
use headhunt_agent.ActionGate.{proposed}
use headhunt_agent.Executor.{check_approval}

abbrev state : RecruitmentState
state = record {
  thread_id = "1";
  source = "api";
  source_ref = "r1";
  user_input = "a search";
  feishu_context = end;
  model_profile_id = "";
  model_owner_user_id = "";
  model_guild_id = "";
  model_tenant_id = "";
  embedding_profile_id = "";
  task_type = "";
  task_plan = none;
  council_mode = "lite";
  mode_reason = "";
  council_decision = none;
  department_opinions = [];
  human_questions = [];
  ready_to_execute = true;
  artifacts = field "kind" (str "ReportDraft") (field "summary" (str "short") end) ∷ [];
  memory_refs = [];
  review_result = none;
  review_fix_attempts = 0;
  approval_required = false;
  action_proposal = none;
  human_approval = end;
  feishu_write_result = end;
  node_history = [];
  errors = [];
}

abbrev ref : ArtifactRef
ref = record {
  artifact_id = 1;
  kind = "ReportDraft";
  summary = "short";
  content_ref = "ref:a";
  evidence_refs = "ref:e" ∷ [];
  source_refs = [];
  pii_level = "none";
  version = 1;
  size_tokens_estimate = 1;
}

abbrev always_valid : Fields → Validated
always_valid artifact = valid ref

abbrev parts : GraphParts
parts = record {
  codec = timed;
  validate = always_valid;
  agent_harness = none;
  action_gate = false;
  notify = none;
  action_executor = none;
}

invoke_ends_example : (invoke parts 25 Node.receive_user_input none state db).0 ≢ ok recursion_limit
invoke_ends_example = invoke_ends parts 25 Node.receive_user_input none state db (omega arith)

abbrev context : Fields
context = field "thread_id" (str "1") (
    field "source" (str "api") (
      field "source_ref" (str "r1") (
        field "council_mode" (str "lite") (
          field "artifact_count" (int 1) (
            field "memory_ref_count" (int 0)
              (field "total_tokens_estimate" (int 0) (field "pii_level" (str "none") end)))))))

abbrev after_review : RecruitmentState
after_review = reviewed_state timed always_valid state (
    review_artifact timed always_valid 12
      (field "kind" (str "ReportDraft") (field "summary" (str "short") end)) context 0)

reviewed : (review_latest_artifact timed always_valid state db).0 ≡ ok after_review
unfolding review_latest_artifact ◌>>=◌ get text_or_else
reviewed = refl

routed_to_repair : route_from_review_gate after_review ≡ Node.repair_artifact
unfolding route_from_review_gate review_artifact all_findings artifact_findings evidence_findings
    practicality_findings context_budget_findings forbidden_key_findings memory_ref_findings get
    token_findings safety_findings pii_findings side_effect_findings review_status timed
    text_or_else
routed_to_repair = refl

review_latest_artifact-Routed_example :
    Routed timed always_valid state (route_from_review_gate after_review)
review_latest_artifact-Routed_example =
    review_latest_artifact-Routed timed always_valid state db after_review reviewed

named : HasTexts timed proposal
unfolding timed
named = record {
  thread_id = λ e. absurd (cc (e));
  action_id = λ e. absurd (cc (e));
  interrupt_id = λ e. absurd (cc (e));
  idempotency_key = λ e. absurd (cc (e));
}

action_read : timed.parse_uuid (timed.uuid_text 2) ≡ some 2
unfolding timed
action_read = refl

thread_read : timed.parse_uuid (timed.uuid_text 1) ≡ some 1
unfolding timed
thread_read = refl

approves : is_valid_request (request approve) ≡ true
unfolding is_valid_request
approves = refl

in_thread : state.thread_id ≡ timed.uuid_text 1
unfolding timed
in_thread = refl

proposal_found : get_proposal 2 db ≡ some proposal
unfolding get_proposal
proposal_found = refl

decision_reaches_executor_example :
    (approval : Fields) × (human_approval : Fields) × (feishu_card_payload_to_human_approval timed
        (dict_value (build_resume_payload timed proposal (request approve)))
        db
      ≡ (ok approval, db))
    × (normalize_human_approval timed (dict approval) state (proposed proposal) db
        ≡ (ok human_approval, db))
    × (check_approval timed human_approval db
        ≡ (ok (record { proposal = proposal; decision = decision_text approve }), db))
decision_reaches_executor_example =
    decision_reaches_executor timed proposal (request approve) db state named action_read
      thread_read approves in_thread proposal_found
