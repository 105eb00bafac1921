-- ===== src/Graph/Agents.antt =====
-- app/graphs/war_room.py: the task that a node gives the harness. app/schemas/agent.py has its types.
use headhunt_agent.Graph.{RecruitmentState}
use headhunt_agent.Prelude.{
  ℕ, String, Bool, false, Option, none, some, List, [], ◌∷◌, if◌then◌else◌, str_eq, or_text,
}
use headhunt_agent.Value.{Items, Fields, get, text_of, str, int, list, dict, nil, cons, field, end}
use headhunt_agent.Codec.{Codec}
use headhunt_agent.Policy.{TaskPlan, CouncilMode}
use headhunt_agent.Review.{ArtifactRef, Validated, valid, invalid}
use headhunt_agent.Storage.Models.{Uuid}

pub record AgentPolicy : Type 0 where
  pub agent_name : String
  pub allowed_artifact_types_read : List String
  pub allowed_artifact_types_write : List String
  pub allowed_memory_scopes : List String
  pub max_memory_items : ℕ
  pub max_context_tokens : ℕ
  pub max_output_tokens : ℕ
  pub can_read_memory_content : Bool
  pub can_read_artifact_content : Bool
  pub pii_access_level : String
  pub allowed_side_effects : List String

pub record AgentTask : Type 0 where
  pub thread_id : Uuid
  pub node_name : String
  pub agent_name : String
  pub node_goal : String
  pub task_brief : String
  pub council_mode : CouncilMode
  pub mode_reason : String
  pub output_artifact_type : String
  pub source : String
  pub source_ref : String
  pub task_type : String
  pub feishu_chat_id : Option String
  pub artifact_refs : List ArtifactRef
  pub model_profile_id : Option Uuid
  pub model_owner_user_id : Option String
  pub model_guild_id : Option String
  pub model_tenant_id : Option String
  pub embedding_profile_id : Option Uuid
  pub policy : AgentPolicy

-- `_default_agent_policy`
unfoldable pub default_agent_policy : String → String → AgentPolicy
default_agent_policy agent_name output_artifact_type = record {
  agent_name = agent_name;
  allowed_artifact_types_read =
      "CouncilOpinion" ∷ "CouncilDecision" ∷ "RequisitionCalibrationDraft" ∷ "TalentMapDraft"
      ∷ "CandidateMatchDraft" ∷ "ReportDraft" ∷ "FollowupReviewDraft" ∷ [];
  allowed_artifact_types_write = output_artifact_type ∷ [];
  allowed_memory_scopes = "RunMemory" ∷ "ProjectMemory" ∷ "CaseMemory" ∷ [];
  max_memory_items = 5;
  max_context_tokens = 3500;
  max_output_tokens = 1200;
  can_read_memory_content = false;
  can_read_artifact_content = false;
  pii_access_level = if str_eq agent_name "CandidateJudgementAgent" then "medium" else "low";
  allowed_side_effects = "audit_write" ∷ "run_memory_write" ∷ "war_room_card" ∷ [];
}

abbrev keep_valid : Validated → List ArtifactRef → List ArtifactRef
keep_valid (valid ref) refs = ref ∷ refs
keep_valid (invalid message) refs = refs

-- `_artifact_refs_from_state`: the artifacts that pydantic accepts
unfoldable pub artifact_refs_from_state : (Fields → Validated) → List Fields → List ArtifactRef
artifact_refs_from_state validate [] = []
artifact_refs_from_state validate (artifact ∷ artifacts) =
    keep_valid (validate artifact) (artifact_refs_from_state validate artifacts)

abbrev texts : List String → Items
texts [] = nil
texts (s ∷ rest) = cons (str s) (texts rest)

-- `_optional_str`
unfoldable pub optional_str : String → Option String
optional_str s = if str_eq s "" then none else some s

module _ (c : Codec) where
  -- `model_dump(mode="json")` of artifact references
  unfoldable pub ref_items : List ArtifactRef → Items
  ref_items [] = nil
  ref_items (ref ∷ refs) =
      cons
        (dict (
          field "artifact_id" (str (c.uuid_text ref.artifact_id)) (
            field "kind" (str ref.kind) (
              field "summary" (str ref.summary) (
                field "content_ref" (str ref.content_ref) (
                  field "evidence_refs" (list (texts ref.evidence_refs)) (
                    field "source_refs" (list (texts ref.source_refs)) (
                      field "pii_level" (str ref.pii_level) (
                        field "version" (int ref.version)
                          (field "size_tokens_estimate" (int ref.size_tokens_estimate) end))))))))))
        (ref_items refs)

  -- `_optional_uuid`: no value where the text is empty, and none of all where `UUID` raises
  unfoldable pub optional_uuid : String → Option (Option Uuid)
  optional_uuid s =
      if str_eq s ""
      then some none
      else elim (c.parse_uuid s) [ none ↦ none | some u ↦ some (some u) ]

  task_with :
      RecruitmentState
      → TaskPlan
      → String
      → String
      → String
      → String
      → List ArtifactRef
      → Option (Option Uuid)
      → Option (Option Uuid)
      → Option AgentTask
  unfolding optional_str default_agent_policy text_of
  task_with state plan agent node goal output refs (some profile) (some embedding) = some (record {
    thread_id = plan.thread_id;
    node_name = node;
    agent_name = agent;
    node_goal = goal;
    task_brief = or_text (some state.user_input) plan.request_text;
    council_mode = plan.council_mode;
    mode_reason = plan.mode_reason;
    output_artifact_type = output;
    source = or_text (some state.source) "runtime";
    source_ref = state.source_ref;
    task_type = plan.task_type;
    feishu_chat_id = text_of (get "chat_id" state.feishu_context);
    artifact_refs = refs;
    model_profile_id = profile;
    model_owner_user_id = optional_str state.model_owner_user_id;
    model_guild_id = optional_str state.model_guild_id;
    model_tenant_id = optional_str state.model_tenant_id;
    embedding_profile_id = embedding;
    policy = default_agent_policy agent output;
  })
  task_with state plan agent node goal output refs _ _ = none

  -- `_agent_task_from_state`, none where it raises
  unfoldable pub agent_task_from_state :
      RecruitmentState
      → TaskPlan
      → String
      → String
      → String
      → String
      → List ArtifactRef
      → Option AgentTask
  unfolding task_with optional_uuid
  agent_task_from_state state plan agent node goal output refs =
      task_with state plan agent node goal output refs (optional_uuid state.model_profile_id)
        (optional_uuid state.embedding_profile_id)
