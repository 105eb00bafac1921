-- ===== src/Graph/Actions.antt =====
-- app/graphs/war_room.py: the proposal of the business action, the interrupt that waits for its
-- approval, and the execution.
use headhunt_agent.Graph.{
  RecruitmentState, with_history, latest_business_artifact, action_type_for_business_kind,
}
use headhunt_agent.Graph.Reviewing.{review_findings_summary}
use headhunt_agent.Graph.Agents.{ref_items, artifact_refs_from_state}
use headhunt_agent.Review.{Validated}
use headhunt_agent.Prelude.{
  String, Bool, true, false, not, ◌&&◌, ◌||◌, Option, none, some, List, [], ◌∷◌, ◌++◌,
  if◌then◌else◌, str_eq, ◌<>◌, length, or_text,
}
use headhunt_agent.Tx.{
  Result, ok, raise, pure, require, guard, ◌>>=◌, ◌>>◌, value_error, key_error, action_execution,
}
use headhunt_agent.Value.{
  Value, Items, Fields, get, put, has_key, text_of, fields_of, dict_value, truthy, str, int, dict,
  list, nil, cons, field, end, null,
}
use headhunt_agent.Codec.{Codec, text_form}
use headhunt_agent.Review.{
  ReviewGateResult, ReviewGateStatus, ReviewFinding, pass, needs_fix, needs_human, Severity, fix,
  human, text_or_else,
}
use headhunt_agent.ActionGate.{ProposedAction, ActionRequest, propose_action}
use headhunt_agent.Executor.{execute, ActionExecutionResult, ExecutionStatus}
use headhunt_agent.Executor.Payload.{BitableSettings}
use headhunt_agent.Storage.Models.{Uuid}
use headhunt_agent.Storage.Tables.{Session, uuid4}
use headhunt_agent.Outbox.{with_edited}

abbrev pub review_status_text : ReviewGateStatus → String
review_status_text pass = "pass"
review_status_text needs_fix = "needs_fix"
review_status_text needs_human = "needs_human"

abbrev severity_text : Severity → String
severity_text fix = "fix"
severity_text human = "human"

abbrev or_null : Option String → Value
or_null none = null
or_null (some s) = str s

abbrev finding_items : List ReviewFinding → Items
finding_items [] = nil
finding_items (f ∷ fs) =
    cons
      (dict (
        field "reviewer" (str f.reviewer) (
          field "severity" (str (severity_text f.severity))
            (field "message" (str f.message) (field "path" (or_null f.path) end)))))
      (finding_items fs)

-- `_matching_value`
unfoldable pub matching_value : Fields → String → String → Session String
matching_value payload key expected = do
  value ← require (text_of (get key payload)) value_error
  guard (str_eq value expected) value_error
  pure value

abbrev pub is_decision : String → Bool
is_decision d = str_eq d "approve" || str_eq d "edit" || str_eq d "reject"

-- The checked fields of an approval, with its edited payload if that is a dict
unfoldable pub normalized_fields :
    String → String → String → String → String → Value → Value → Fields
unfolding dict_value
normalized_fields thread_id action_id interrupt_id idempotency_key decision approver edited =
    with_edited edited (
      field "thread_id" (str thread_id) (
        field "action_id" (str action_id) (
          field "interrupt_id" (str interrupt_id) (
            field "idempotency_key" (str idempotency_key) (
              field "decision" (str decision)
                (field "approver" (dict (dict_value approver)) end))))))

module _ (c : Codec) where
  abbrev id_or_null : Option Uuid → Value
  id_or_null none = null
  id_or_null (some u) = str (c.uuid_text u)

  -- `model_dump` of a review, its time as a number
  result_fields : ReviewGateResult → Fields
  result_fields result = field "status" (str (review_status_text result.status)) (
      field "artifact_id" (id_or_null result.artifact_id) (
        field "artifact_kind" (or_null result.artifact_kind) (
          field "findings" (list (finding_items result.findings)) (
            field "repair_attempts" (int result.repair_attempts)
              (field "reviewed_at" (int result.reviewed_at) end)))))

  abbrev status_of : Option ReviewGateResult → String
  status_of none = ""
  status_of (some result) = review_status_text result.status

  abbrev findings_of : Option ReviewGateResult → List ReviewFinding
  findings_of none = []
  findings_of (some result) = result.findings

  -- `_record_fields_for_artifact`
  unfoldable pub record_fields_for_artifact : RecruitmentState → Fields → Fields
  unfolding text_form text_or_else
  record_fields_for_artifact state artifact = field "thread_id" (str state.thread_id) (
      field "artifact_id" (str (text_form c (get "artifact_id" artifact))) (
        field "artifact_kind" (str (text_form c (get "kind" artifact))) (
          field "summary" (str (text_or_else c (get "summary" artifact) "")) (
            field "content_ref" (str (text_or_else c (get "content_ref" artifact) "")) (
              field "council_mode" (str state.council_mode) (
                field "mode_reason" (str state.mode_reason) (
                  field "source" (str (or_text (some state.source) "runtime")) (
                    field "source_ref" (str state.source_ref) (
                      field "review_gate_status" (str (status_of state.review_result)) (
                        field "review_gate_findings"
                          (int (length (findings_of state.review_result))) end))))))))))

  abbrev version_text : Fields → String
  unfolding has_key text_form
  version_text artifact =
      if has_key "version" artifact then text_form c (get "version" artifact) else "1"

  -- `_action_idempotency_key`
  unfoldable pub action_idempotency_key : RecruitmentState → String → Fields → String
  unfolding text_form version_text
  action_idempotency_key state action_type artifact =
      "action:"
      <> state.thread_id
      <> ":"
      <> action_type
      <> ":"
      <> text_form c (get "artifact_id" artifact)
      <> ":v"
      <> version_text artifact

  with_review : Option ReviewGateResult → Fields → Fields
  unfolding put result_fields review_findings_summary
  with_review none payload = payload
  with_review (some result) payload =
      let reviewed = put "review_result" (dict (result_fields result)) payload in
      if str_eq (review_findings_summary (some result)) ""
      then reviewed
      else put "review_findings_summary" (str (review_findings_summary (some result))) reviewed

  review_note : Option ReviewGateResult → String
  unfolding review_findings_summary
  review_note none = ""
  review_note (some result) =
      if str_eq (review_status_text result.status) "pass"
      then ""
      else " | ReviewGate="
        <> review_status_text result.status
        <> (if str_eq (review_findings_summary (some result)) ""
            then ""
            else ": " <> review_findings_summary (some result))

  action_payload : RecruitmentState → Fields → Uuid → Fields
  unfolding with_review record_fields_for_artifact
  action_payload state artifact token = with_review state.review_result (
      field "business_kind" (get "kind" artifact) (
        field "record_fields" (dict (record_fields_for_artifact state artifact)) (
          field "entity_refs"
            (list (
              cons
                (dict (
                  field "entity_type" (get "kind" artifact)
                    (field "entity_id" (get "artifact_id" artifact) end)))
                nil))
            (field "client_token" (str (c.uuid_text token)) end))))

  action_request : RecruitmentState → Fields → Items → Uuid → Uuid → ActionRequest
  unfolding action_payload review_note action_idempotency_key text_form
      action_type_for_business_kind
  action_request state artifact refs thread_id token =
      let action_type = action_type_for_business_kind (text_form c (get "kind" artifact)) in
      record {
        thread_id = thread_id;
        action_type = action_type;
        payload_summary =
            action_type
            <> ": "
            <> text_form c (get "summary" artifact)
            <> review_note state.review_result;
        payload = action_payload state artifact token;
        idempotency_key = action_idempotency_key state action_type artifact;
        artifact_refs = refs;
      }

  has_parts : Fields → Bool
  unfolding has_key
  has_parts artifact =
      has_key "kind" artifact && (has_key "summary" artifact && has_key "artifact_id" artifact)

  module _ (validate : Fields → Validated)
      (notify : Option (ProposedAction → Session (Unit {0}))) where
    -- `_propose_business_action`
    unfoldable pub propose_business_action : RecruitmentState → Session ProposedAction
    unfolding has_parts action_request latest_business_artifact ref_items artifact_refs_from_state
    propose_business_action state = do
      let artifact = latest_business_artifact c state
      guard (has_parts artifact) key_error
      token ← uuid4
      thread_id ← require (c.parse_uuid state.thread_id) value_error
      propose_action c notify (
          action_request state artifact
            (ref_items c (artifact_refs_from_state validate state.artifacts)) thread_id token)

  -- `_normalize_human_approval`
  unfoldable pub normalize_human_approval :
      Value → RecruitmentState → ProposedAction → Session Fields
  unfolding matching_value normalized_fields truthy text_or_else
  normalize_human_approval resumed state action = do
    approval ← require (fields_of resumed) value_error
    thread_id ← matching_value approval "thread_id" state.thread_id
    action_id ← matching_value approval "action_id" (c.uuid_text action.action_id)
    interrupt_id ← matching_value approval "interrupt_id" (c.uuid_text action.interrupt_id)
    idempotency_key ← matching_value approval "idempotency_key" action.idempotency_key
    let decision = text_or_else c (get "decision" approval) ""
    guard (is_decision decision) value_error
    guard (not (str_eq decision "edit") || truthy (get "edited_payload" approval)) value_error
    pure (
        normalized_fields thread_id action_id interrupt_id idempotency_key decision
          (get "approver" approval) (get "edited_payload" approval))

abbrev pub execution_text : ExecutionStatus → String
execution_text ExecutionStatus.queued = "queued"
execution_text ExecutionStatus.rejected = "rejected"
execution_text ExecutionStatus.already_approved = "already_approved"
execution_text ExecutionStatus.already_executed = "already_executed"
execution_text ExecutionStatus.already_rejected = "already_rejected"

module _ (c : Codec) where
  -- `to_dict` of the result, without its message
  abbrev written : ActionExecutionResult → Fields
  written result = field "status" (str (execution_text result.status)) (
      field "action_id" (str (c.uuid_text result.action_id)) (
        field "decision" (str result.decision)
          (field "outbox_payload_ref" (or_null result.outbox_payload_ref) end)))

  abbrev failed_execution : RecruitmentState → RecruitmentState
  failed_execution state =
      with_history "execute_approved_action" "action execution failed" (record state {
        errors = state.errors ++ field "node" (str "execute_approved_action") end ∷ [];
      })

  -- except ActionExecutionError: what the execution wrote before stays in the session.
  abbrev recorded : RecruitmentState → Result ActionExecutionResult → Result RecruitmentState
  recorded state (ok result) = ok (
      with_history "execute_approved_action"
        ("action execution status=" <> execution_text result.status)
        (record state { feishu_write_result = written result }))
  recorded state (raise action_execution) = ok (failed_execution state)
  recorded state (raise e) = raise e

  has_approval : Fields → Bool
  has_approval end = false
  has_approval (field k v rest) = true

  unfoldable pub execute_approved_action :
      Option BitableSettings → RecruitmentState → Session RecruitmentState
  unfolding has_approval execute
  execute_approved_action none state db =
      (ok (with_history "execute_approved_action" "no approval or executor is not wired" state), db)
  execute_approved_action (some settings) state db =
      if has_approval state.human_approval
      then (
        recorded state (execute c settings state.human_approval db).0,
        (execute c settings state.human_approval db).1,
      )
      else (ok (with_history "execute_approved_action" "no human approval to execute" state), db)
