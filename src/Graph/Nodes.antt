-- ===== src/Graph/Nodes.antt =====
-- app/graphs/war_room.py: the nodes up to the review. A node is a function on the state that the graph
-- has after its update. The harness that runs agents is a parameter.
use headhunt_agent.Graph.{RecruitmentState, with_history, content_ref}
use headhunt_agent.Graph.Agents.{AgentTask, agent_task_from_state, artifact_refs_from_state}
use headhunt_agent.Review.{Validated}
use headhunt_agent.Prelude.{
  ◌/◌, max, String, Bool, true, false, not, Option, none, some, List, [], ◌∷◌, ◌++◌, str_eq, ◌<>◌,
  select, map, or_text,
}
use headhunt_agent.Tx.{pure, require, ◌>>=◌, value_error, key_error}
use headhunt_agent.Texts.{text_length}
use headhunt_agent.Value.{Fields, get, str, int, list, nil, field, end}
use headhunt_agent.Codec.{Codec}
use headhunt_agent.Policy.{
  TaskPlan, CouncilDecision, CouncilMode, create_task_plan, from_task_plan, mode_text,
}
use headhunt_agent.Storage.Models.{Uuid}
use headhunt_agent.Storage.Tables.{Session, uuid4}

-- `run_agent`: the dict of the artifact that the agent makes
abbrev pub Harness : Type 0
Harness = AgentTask → Session Fields

abbrev pub artifact_dict : String → String → String → String → Fields
artifact_dict artifact_id kind summary ref = field "artifact_id" (str artifact_id) (
    field "kind" (str kind) (
      field "summary" (str summary) (
        field "content_ref" (str ref) (
          field "evidence_refs" (list nil) (
            field "source_refs" (list nil) (
              field "pii_level" (str "none") (
                field "version" (int 1)
                  (field "size_tokens_estimate" (int (max 1 (text_length summary / 4))) end))))))))

module _ (c : Codec) where
  -- `receive_user_input`
  unfoldable pub received : RecruitmentState → Session RecruitmentState
  received state = do
    fresh ← uuid4
    pure (
        with_history "receive_user_input" "received summarized user input"
          (record state { thread_id = or_text (some state.thread_id) (c.uuid_text fresh) }))

  plan_of : RecruitmentState → Uuid → Uuid → TaskPlan
  unfolding create_task_plan
  plan_of state task_id thread_id = create_task_plan task_id thread_id (record {
    request_text = or_text (some state.user_input) "空任务";
    source = or_text (some state.source) "runtime";
    thread_id = some thread_id;
  })

  -- `create_task_plan_and_policy`
  unfoldable pub planned : RecruitmentState → Session RecruitmentState
  unfolding plan_of
  planned state = do
    thread_id ← require (c.parse_uuid state.thread_id) value_error
    task_id ← uuid4
    let plan = plan_of state task_id thread_id
    pure (
        with_history "create_task_plan_and_policy" ("selected " <> mode_text plan.council_mode)
          (record state {
            thread_id = c.uuid_text plan.thread_id;
            task_type = plan.task_type;
            task_plan = some plan;
            council_mode = mode_text plan.council_mode;
            mode_reason = plan.mode_reason;
          }))

  abbrev council_agents : TaskPlan → List String
  council_agents plan =
      select (λ agent. not (str_eq agent "CouncilSynthesizerAgent")) plan.required_agents

  abbrev planned_opinion : RecruitmentState → TaskPlan → String → Fields
  planned_opinion state plan agent = field "agent_name" (str agent) (
      field "artifact_type" (str "CouncilOpinion") (
        field "summary" (str (agent <> " planned for " <> plan.task_type)) (
          field "content_ref" (str (content_ref state.thread_id "council_opinion" agent))
            (field "council_mode" (str (mode_text plan.council_mode)) end))))

  abbrev harness_opinion : TaskPlan → String → Fields → Fields
  unfolding get
  harness_opinion plan agent artifact = field "agent_name" (str agent) (
      field "artifact_type" (str "CouncilOpinion") (
        field "summary" (get "summary" artifact) (
          field "content_ref" (get "content_ref" artifact)
            (field "council_mode" (str (mode_text plan.council_mode)) end))))

  run_agents : Harness → RecruitmentState → TaskPlan → List String → Session RecruitmentState
  unfolding harness_opinion agent_task_from_state
  run_agents harness state plan [] = pure state
  run_agents harness state plan (agent ∷ agents) = do
    task ←
        require
          (agent_task_from_state c state plan agent "collect_council_opinions" (agent <> " 生成会审意见")
            "CouncilOpinion" [])
          value_error
    artifact ← harness task
    run_agents harness
        (record state {
          artifacts = state.artifacts ++ artifact ∷ [];
          department_opinions =
              state.department_opinions ++ harness_opinion plan agent artifact ∷ [];
        })
        plan agents

  -- `collect_council_opinions`
  unfoldable pub collected : Option Harness → RecruitmentState → TaskPlan → Session RecruitmentState
  unfolding run_agents
  collected none state plan = pure (
      with_history "collect_council_opinions" "planned council opinions" (record state {
        department_opinions =
            state.department_opinions ++ map (planned_opinion state plan) (council_agents plan);
      }))
  collected (some harness) state plan = do
    after ← run_agents harness state plan (council_agents plan)
    pure (with_history "collect_council_opinions" "harness ran council opinions" after)

  abbrev questions_of : CouncilMode → List String
  questions_of CouncilMode.triage = "请补充岗位目标、候选人范围或期望输出。" ∷ []
  questions_of _ = []

  abbrev is_empty_list : List String → Bool
  is_empty_list [] = true
  is_empty_list (x ∷ xs) = false

  -- `synthesize_council_decision`
  unfoldable pub synthesized : RecruitmentState → TaskPlan → Session RecruitmentState
  unfolding from_task_plan
  synthesized state plan = do
    decision_id ← uuid4
    let decision = from_task_plan decision_id plan
    let questions = questions_of plan.council_mode
    pure (
        with_history "synthesize_council_decision" "synthesized" (record state {
          council_decision = some (record decision { next_questions = questions });
          human_questions = questions;
          ready_to_execute = is_empty_list questions;
          artifacts =
              state.artifacts
              ++ artifact_dict (c.uuid_text decision_id) "CouncilDecision" decision.intent_summary
                  (content_ref state.thread_id "council_decision" "v1")
                ∷ [];
        }))

  -- `invoke_council_deliberation_graph`: the two nodes of the subgraph, whose lists are appended
  unfoldable pub deliberated : Option Harness → RecruitmentState → Session RecruitmentState
  unfolding collected synthesized
  deliberated harness state = do
    plan ← require state.task_plan key_error
    heard ← collected harness state plan
    synthesized heard plan

  -- `save_as_case_data`
  unfoldable pub case_data_saved : RecruitmentState → RecruitmentState
  case_data_saved state =
      with_history "save_as_case_data" "case data route selected" (record state {
        ready_to_execute = true;
        artifacts =
            state.artifacts
            ++ field "artifact_id"
                (str (c.uuid_text (c.uuid5 (state.thread_id <> ":case_data:v1"))))
                (field "kind" (str "CaseDataDraft") (
                  field "summary" (str "保存为案例数据草稿，等待人工确认后写入业务数据底座。") (
                    field "content_ref" (str (content_ref state.thread_id "case_data" "v1")) (
                      field "evidence_refs" (list nil) (
                        field "source_refs" (list nil) (
                          field "pii_level" (str "none") (
                            field "version" (int 1)
                              (field "size_tokens_estimate" (int 20) end))))))))
              ∷ [];
      })

  decision_text_id : Option CouncilDecision → String
  decision_text_id none = "decision"
  decision_text_id (some decision) = c.uuid_text decision.decision_id

  -- The artifact of a business node, without a harness
  unfoldable pub business_artifact : String → String → String → RecruitmentState → Fields
  unfolding decision_text_id
  business_artifact node kind prefix state =
      let artifact_id = c.uuid_text (
        c.uuid5
          (state.thread_id <> ":" <> node <> ":" <> decision_text_id state.council_decision)) in
      artifact_dict artifact_id kind
        (prefix <> "；会审模式 " <> state.council_mode <> "，原因：" <> state.mode_reason)
        (content_ref state.thread_id node artifact_id)

  artifact_from :
      (Fields → Validated)
      → Option Harness
      → String
      → String
      → String
      → String
      → RecruitmentState
      → Session Fields
  unfolding business_artifact agent_task_from_state artifact_refs_from_state
  artifact_from validate none node agent kind prefix state =
      pure (business_artifact node kind prefix state)
  artifact_from validate (some harness) node agent kind prefix state = do
    plan ← require state.task_plan value_error
    task ←
        require
          (agent_task_from_state c state plan agent node (agent <> " 生成 " <> kind) kind
            (artifact_refs_from_state validate state.artifacts))
          value_error
    harness task

  -- `invoke_business_subgraph` around `create_business_artifact_ref`: the review starts anew.
  unfoldable pub drafted :
      (Fields → Validated)
      → Option Harness
      → String
      → String
      → String
      → String
      → RecruitmentState
      → Session RecruitmentState
  unfolding artifact_from
  drafted validate harness node agent kind prefix state = do
    artifact ← artifact_from validate harness node agent kind prefix state
    pure (
        with_history node ("created " <> kind) (record state {
          artifacts = state.artifacts ++ artifact ∷ [];
          review_result = none;
          review_fix_attempts = 0;
        }))
