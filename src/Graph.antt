-- ===== src/Graph.antt =====
-- app/graphs/war_room.py: the state of `headhunter_war_room_graph` and the helpers of its nodes.
-- Pydantic's dumps of plans, decisions and reviews are kept as records. The times in `node_history` and
-- the fields that no node reads are left out, and the numbers in its texts. A missing text is empty.
pub mod Agents
pub mod Nodes
pub mod Reviewing
pub mod Actions
pub mod Approval
pub mod Run
pub mod Ends
pub mod Reviewed
use headhunt_agent.Prelude.{
  ℕ, ◌+◌, ◌-◌, ◌*◌, String, Bool, true, false, ◌||◌, Option, none, some, List, [], ◌∷◌, ◌++◌,
  if◌then◌else◌, str_eq, ◌<>◌, any, leb, length, or_text,
}
use headhunt_agent.Value.{
  Value, Items, Fields, get, has_key, or_value, str, int, negative, list, dict, nil, cons, field,
  end,
}
use headhunt_agent.Codec.{Codec, text_form}
use headhunt_agent.Policy.{TaskPlan, CouncilDecision}
use headhunt_agent.Review.{ReviewGateResult, ReviewFinding, text_or_else, int_of, is_schema_finding}
use headhunt_agent.ActionGate.{ProposedAction}

pub record RecruitmentState : Type 0 where
  pub thread_id : String
  pub source : String
  pub source_ref : String
  pub user_input : String
  pub feishu_context : Fields
  pub model_profile_id : String
  pub model_owner_user_id : String
  pub model_guild_id : String
  pub model_tenant_id : String
  pub embedding_profile_id : String
  pub task_type : String
  pub task_plan : Option TaskPlan
  pub council_mode : String
  pub mode_reason : String
  pub council_decision : Option CouncilDecision
  pub department_opinions : List Fields
  pub human_questions : List String
  pub ready_to_execute : Bool
  pub artifacts : List Fields
  pub memory_refs : List Fields
  pub review_result : Option ReviewGateResult
  pub review_fix_attempts : ℕ
  pub approval_required : Bool
  pub action_proposal : Option ProposedAction
  pub human_approval : Fields
  pub feishu_write_result : Fields
  pub node_history : List (String × String)
  pub errors : List Fields

-- The nodes that `build_headhunter_war_room_graph` adds
pub data Node : Type 0 where
  receive_user_input create_task_plan_and_policy council_deliberation_graph : Node
  dispatch_from_council ask_user_for_missing_info reject_with_reason save_as_case_data : Node
  intake_calibration_graph talent_mapping_graph candidate_screening_graph : Node
  outreach_and_report_graph followup_review_graph : Node
  review_gate repair_artifact reject_review_gate interrupt_human_approval : Node
  execute_approved_action record_agent_run : Node

-- `_history`, appended as the annotation of `node_history` says
abbrev pub with_history : String → String → RecruitmentState → RecruitmentState
with_history node summary state = record state {
  node_history = state.node_history ++ (node, summary) ∷ [];
}

-- `_content_ref`
abbrev pub content_ref : String → String → String → String
content_ref thread_id kind identity =
    "artifact://graph/" <> thread_id <> "/" <> kind <> "/" <> identity <> "/v1"

-- A kind that `_latest_business_artifact` passes over
abbrev is_council_kind : Value → Bool
is_council_kind (str s) = str_eq s "CouncilDecision" || str_eq s "CouncilOpinion"
is_council_kind _ = false

abbrev later_or : Option Fields → Option Fields → Option Fields
later_or none earlier = earlier
later_or (some artifact) earlier = some artifact

-- The last artifact of another kind
unfoldable pub last_business : List Fields → Option Fields
last_business [] = none
last_business (artifact ∷ artifacts) =
    later_or (last_business artifacts)
      (if is_council_kind (get "kind" artifact) then none else some artifact)

module _ (c : Codec) where
  abbrev action_draft : String → Fields
  action_draft thread_id =
      field "artifact_id" (str (c.uuid_text (c.uuid5 (thread_id <> ":action:v1")))) (
        field "kind" (str "CaseDataDraft") (
          field "summary" (str "业务动作草稿") (
            field "content_ref" (str (content_ref thread_id "action" "v1"))
              (field "version" (int 1) end))))

  abbrev or_draft : RecruitmentState → Option Fields → Fields
  or_draft state none = action_draft state.thread_id
  or_draft state (some artifact) = artifact

  -- `_latest_business_artifact`
  unfoldable pub latest_business_artifact : RecruitmentState → Fields
  unfolding last_business
  latest_business_artifact state = or_draft state (last_business state.artifacts)

-- `_action_type_for_business_kind`
unfoldable pub action_type_for_business_kind : String → String
action_type_for_business_kind kind =
    if str_eq kind "RequisitionCalibrationDraft"
    then "requisition_write"
    else if str_eq kind "TalentMapDraft"
    then "talent_map_write"
    else if str_eq kind "CandidateMatchDraft"
    then "candidate_write"
    else if str_eq kind "ReportDraft"
    then "report_write"
    else if str_eq kind "FollowupReviewDraft"
    then "followup_write"
    else if str_eq kind "CaseDataDraft"
    then "case_data_write"
    else "business_write"

-- `_review_gate_has_schema_error`
unfoldable pub review_gate_has_schema_error : ReviewGateResult → Bool
review_gate_has_schema_error result = any is_schema_finding result.findings

-- A sum of integers as what is added and what is taken away
abbrev plus_int : Option Value → ℕ × ℕ → Option (ℕ × ℕ)
plus_int (some (int n)) (p, q) = some (p + n, q)
plus_int (some (negative n)) (p, q) = some (p, q + n + 1)
plus_int _ total = none

abbrev plus_size : Fields → Option (ℕ × ℕ) → Option (ℕ × ℕ)
unfolding int_of or_value
plus_size artifact none = none
plus_size artifact (some total) =
    plus_int (int_of (or_value (get "size_tokens_estimate" artifact) (int 0))) total

-- The sum of the token estimates, none where an estimate is no number
unfoldable pub total_tokens_estimate : List Fields → Option (ℕ × ℕ)
unfolding plus_size
total_tokens_estimate [] = some (0, 0)
total_tokens_estimate (artifact ∷ artifacts) = plus_size artifact (total_tokens_estimate artifacts)

abbrev difference : ℕ × ℕ → Value
difference (p, q) = if leb q p then int (p - q) else negative (q - p - 1)

module _ (c : Codec) where
  context_fields : RecruitmentState → Value → Fields
  unfolding latest_business_artifact
  context_fields state total = field "thread_id" (str state.thread_id) (
      field "source" (str (or_text (some state.source) "runtime")) (
        field "source_ref" (str state.source_ref) (
          field "council_mode" (str state.council_mode) (
            field "artifact_count" (int (length state.artifacts)) (
              field "memory_ref_count" (int (length state.memory_refs)) (
                field "total_tokens_estimate" total (
                  field "pii_level"
                    (str
                      (text_or_else c (get "pii_level" (latest_business_artifact c state)) "none"))
                    end)))))))

  context_from : RecruitmentState → Option (ℕ × ℕ) → Option Fields
  unfolding context_fields
  context_from state none = none
  context_from state (some total) = some (context_fields state (difference total))

  -- `_review_context_from_state`, none where it raises
  unfoldable pub review_context_from_state : RecruitmentState → Option Fields
  unfolding context_from total_tokens_estimate
  review_context_from_state state = context_from state (total_tokens_estimate state.artifacts)
