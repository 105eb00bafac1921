-- ===== src/Policy.antt =====
-- app/policy/engine.py and app/schemas/council.py: the plan of a task from its text, and the decision of
-- the council from the plan. The ids that `uuid4` gives are arguments.
pub mod Agents
use headhunt_agent.Prelude.{
  ℕ, String, Bool, true, false, ◌||◌, Option, some, none, List, [], ◌∷◌, if◌then◌else◌, ltb,
  or_default,
}
use headhunt_agent.Texts.{contains, contains_any, strip, text_length, take_text}
use headhunt_agent.Storage.Models.{Uuid}

pub data CouncilMode : Type 0 where
  triage lite standard full_council : CouncilMode

pub record CouncilDeliberateRequest : Type 0 where
  pub request_text : String
  pub source : String
  pub thread_id : Option Uuid

pub record TaskPlan : Type 0 where
  pub task_id : Uuid
  pub thread_id : Uuid
  pub request_text : String
  pub task_type : String
  pub council_mode : CouncilMode
  pub mode_reason : String
  pub required_agents : List String
  pub optional_agents : List String
  pub user_forced_full_council : Bool
  pub allowed_gateways : List String
  pub token_budget : ℕ

-- FULL_COUNCIL_TRIGGERS
abbrev pub full_council_triggers : List String
full_council_triggers = "三省六部" ∷ "完整会审" ∷ "全量会审" ∷ "full council" ∷ []

-- HIGH_RISK_TERMS
abbrev pub high_risk_terms : List String
high_risk_terms = "外部触达" ∷ "推荐结论" ∷ "批量" ∷ "敏感" ∷ "联系方式" ∷ []

-- FULL_COUNCIL_AGENTS
abbrev full_council_agents : List String
full_council_agents =
    "CandidateJudgementAgent" ∷ "MarketCompAgent" ∷ "OutreachValueAgent" ∷ "SourcingMappingAgent"
    ∷ "ComplianceRiskAgent" ∷ "DataAutomationAgent" ∷ "ChallengeReviewAgent"
    ∷ "CouncilSynthesizerAgent" ∷ []

-- The mode that the conditions of `create_task_plan` choose
unfoldable pub mode_of : String → CouncilMode
unfolding strip
mode_of text =
    if contains_any full_council_triggers text
    then full_council
    else if ltb (text_length (strip text)) 20
    then triage
    else if contains_any high_risk_terms text
    then standard
    else lite

-- What the branches of `create_task_plan` give each mode
abbrev pub reason_of : CouncilMode → String
reason_of full_council = "用户明确要求三省六部或完整会审"
reason_of triage = "输入信息不足，先快速分流和追问"
reason_of standard = "任务涉及较高风险动作，加入挑战和合规审查"
reason_of lite = "简单或常规任务，使用 lite 会审以降低 token 消耗"

unfoldable pub required_agents_of : CouncilMode → List String
required_agents_of full_council = full_council_agents
required_agents_of triage =
    "IntentRouterAgent" ∷ "ComplianceRiskAgent" ∷ "CouncilSynthesizerAgent" ∷ []
required_agents_of standard =
    "IntentRouterAgent" ∷ "StrategyDraftAgent" ∷ "ComplianceRiskAgent" ∷ "ChallengeReviewAgent"
    ∷ "CouncilSynthesizerAgent" ∷ []
required_agents_of lite =
    "IntentRouterAgent" ∷ "StrategyDraftAgent" ∷ "ComplianceRiskAgent" ∷ "CouncilSynthesizerAgent"
    ∷ []

abbrev pub optional_agents_of : CouncilMode → List String
optional_agents_of full_council = []
optional_agents_of triage = "StrategyDraftAgent" ∷ []
optional_agents_of standard = "DataAutomationAgent" ∷ "SourcingMappingAgent" ∷ []
optional_agents_of lite = "SourcingMappingAgent" ∷ []

-- `_classify_task`
unfoldable pub classify_task : String → String
classify_task text =
    if contains "人才地图" text || contains "Mapping" text || contains "mapping" text
    then "talent_mapping"
    else if contains "新建岗位" text || contains "岗位校准" text
    then "requisition_calibration"
    else if contains "候选人" text || contains "筛选" text
    then "candidate_screening"
    else if contains "报告" text || contains "话术" text
    then "report_draft"
    else if contains "复盘" text || contains "记忆" text
    then "review"
    else "requisition_calibration"

unfoldable pub create_task_plan : Uuid → Uuid → CouncilDeliberateRequest → TaskPlan
unfolding mode_of required_agents_of classify_task
create_task_plan fresh_task fresh_thread request = record {
  task_id = fresh_task;
  thread_id = or_default request.thread_id fresh_thread;
  request_text = request.request_text;
  task_type = classify_task request.request_text;
  council_mode = mode_of request.request_text;
  mode_reason = reason_of (mode_of request.request_text);
  required_agents = required_agents_of (mode_of request.request_text);
  optional_agents = optional_agents_of (mode_of request.request_text);
  user_forced_full_council = contains_any full_council_triggers request.request_text;
  allowed_gateways = "ArtifactStore" ∷ "MemoryGateway" ∷ "LLMGateway" ∷ "FeishuGateway" ∷ [];
  token_budget = 8000;
}

-- A confidence is in thousandths.
pub record CouncilDecision : Type 0 where
  pub decision_id : Uuid
  pub thread_id : Uuid
  pub council_mode : CouncilMode
  pub mode_reason : String
  pub intent_summary : String
  pub risk_flags : List String
  pub recommended_business_subgraph : String
  pub required_agents : List String
  pub optional_agents : List String
  pub next_questions : List String
  pub confidence : ℕ

unfoldable pub from_task_plan : Uuid → TaskPlan → CouncilDecision
unfolding take_text
from_task_plan fresh_id task_plan = record {
  decision_id = fresh_id;
  thread_id = task_plan.thread_id;
  council_mode = task_plan.council_mode;
  mode_reason = task_plan.mode_reason;
  intent_summary = take_text 240 task_plan.request_text;
  risk_flags = [];
  recommended_business_subgraph = task_plan.task_type;
  required_agents = task_plan.required_agents;
  optional_agents = task_plan.optional_agents;
  next_questions = [];
  confidence = 700;
}

abbrev pub mode_text : CouncilMode → String
mode_text triage = "triage"
mode_text lite = "lite"
mode_text standard = "standard"
mode_text full_council = "full_council"
