-- ===== src/Graph/Run.antt =====
-- app/graphs/war_room.py: the compiled graph. `invoke` runs nodes along the edges until the end, or
-- until `interrupt` suspends it; a resumed run starts at the suspended node, with the approval. The
-- code has no bound on the steps but LangGraph's recursion limit, of 25, which stands for the fuel.
use headhunt_agent.Graph.{RecruitmentState, Node, with_history}
use headhunt_agent.Graph.Nodes.{Harness, received, planned, deliberated, case_data_saved, drafted}
use headhunt_agent.Graph.Reviewing.{
  review_latest_artifact, route_from_review_gate, route_from_council, reject_review_gate,
  repair_artifact_after_review,
}
use headhunt_agent.Graph.Actions.{
  propose_business_action, normalize_human_approval, execute_approved_action,
}
use headhunt_agent.Prelude.{
  ℕ, zero, suc, String, Bool, true, false, Option, none, some, [], ◌∷◌, ◌++◌,
}
use headhunt_agent.Tx.{pure, ◌>>=◌}
use headhunt_agent.Value.{Value, Fields, str, field, end}
use headhunt_agent.Codec.{Codec}
use headhunt_agent.Review.{Validated}
use headhunt_agent.ActionGate.{ProposedAction}
use headhunt_agent.Executor.Payload.{BitableSettings}
use headhunt_agent.Storage.Tables.{Session}

-- The arguments of `build_headhunter_war_room_graph`, and pydantic's validation
pub record GraphParts : Type 0 where
  pub codec : Codec
  pub validate : Fields → Validated
  pub agent_harness : Option Harness
  pub action_gate : Bool
  pub notify : Option (ProposedAction → Session (Unit {0}))
  pub action_executor : Option BitableSettings

-- What a node does: it goes on with a state, or waits for the approval of an action.
pub data Outcome : Type 0 where
  continued : RecruitmentState → Outcome
  suspended : RecruitmentState → ProposedAction → Outcome

abbrev unsupported : RecruitmentState → RecruitmentState
unsupported state = with_history "reject_with_reason" "unsupported route" (record state {
  ready_to_execute = false;
  errors =
      state.errors
      ++ field "node" (str "reject_with_reason")
          (field "message" (str "No supported business subgraph matched the council decision.") end)
        ∷ [];
})

unfoldable pub go_on : Session RecruitmentState → Session Outcome
go_on node = do after ← node; pure (continued after)

module _ (parts : GraphParts) where
  resumed_with : RecruitmentState → ProposedAction → Option Value → Session Outcome
  unfolding normalize_human_approval
  resumed_with state action none = pure (suspended state action)
  resumed_with state action (some approval) = do
    normalized ← normalize_human_approval parts.codec approval state action
    pure (
        continued (
          with_history "interrupt_human_approval" "resumed with human decision" (record state {
            approval_required = true;
            action_proposal = some action;
            human_approval = normalized;
          })))

  -- `interrupt_human_approval`, which runs again from its start when the graph is resumed
  interrupt_human_approval : Bool → Option Value → RecruitmentState → Session Outcome
  unfolding propose_business_action resumed_with
  interrupt_human_approval false resume state = pure (
      continued (
        with_history "interrupt_human_approval" "approval gate skipped"
          (record state { approval_required = false })))
  interrupt_human_approval true resume state = do
    action ← propose_business_action parts.codec parts.validate parts.notify state
    resumed_with state action resume

  abbrev draft : String → String → String → String → RecruitmentState → Session Outcome
  unfolding drafted go_on
  draft node agent kind prefix state =
      go_on (drafted parts.codec parts.validate parts.agent_harness node agent kind prefix state)

  unfoldable pub run_node : Node → Option Value → RecruitmentState → Session Outcome
  unfolding draft go_on received planned deliberated case_data_saved review_latest_artifact
      interrupt_human_approval repair_artifact_after_review reject_review_gate
      execute_approved_action
  run_node Node.receive_user_input resume state = go_on (received parts.codec state)
  run_node Node.create_task_plan_and_policy resume state = go_on (planned parts.codec state)
  run_node Node.council_deliberation_graph resume state =
      go_on (deliberated parts.codec parts.agent_harness state)
  run_node Node.dispatch_from_council resume state =
      pure (continued (with_history "dispatch_from_council" "route" state))
  run_node Node.ask_user_for_missing_info resume state = pure (
      continued (
        with_history "ask_user_for_missing_info" "waiting for required information"
          (record state { ready_to_execute = false })))
  run_node Node.reject_with_reason resume state = pure (continued (unsupported state))
  run_node Node.save_as_case_data resume state =
      pure (continued (case_data_saved parts.codec state))
  run_node Node.intake_calibration_graph resume state =
      draft "intake_calibration_graph" "StrategyDraftAgent" "RequisitionCalibrationDraft" "岗位校准草稿"
        state
  run_node Node.talent_mapping_graph resume state =
      draft "talent_mapping_graph" "SourcingMappingAgent" "TalentMapDraft" "人才地图草稿" state
  run_node Node.candidate_screening_graph resume state =
      draft "candidate_screening_graph" "CandidateJudgementAgent" "CandidateMatchDraft" "候选人筛选草稿"
        state
  run_node Node.outreach_and_report_graph resume state =
      draft "outreach_and_report_graph" "OutreachValueAgent" "ReportDraft" "报告/触达草稿" state
  run_node Node.followup_review_graph resume state =
      draft "followup_review_graph" "DataAutomationAgent" "FollowupReviewDraft" "复盘跟进草稿" state
  run_node Node.review_gate resume state =
      go_on (review_latest_artifact parts.codec parts.validate state)
  run_node Node.repair_artifact resume state =
      go_on (repair_artifact_after_review parts.codec state)
  run_node Node.reject_review_gate resume state =
      pure (continued (reject_review_gate parts.codec state))
  run_node Node.interrupt_human_approval resume state =
      interrupt_human_approval parts.action_gate resume state
  run_node Node.execute_approved_action resume state =
      go_on (execute_approved_action parts.codec parts.action_executor state)
  run_node Node.record_agent_run resume state =
      pure (continued (with_history "record_agent_run" "recorded run summary" state))

-- The edges
unfoldable pub next_node : Node → RecruitmentState → Option Node
unfolding route_from_council route_from_review_gate
next_node Node.receive_user_input state = some Node.create_task_plan_and_policy
next_node Node.create_task_plan_and_policy state = some Node.council_deliberation_graph
next_node Node.council_deliberation_graph state = some Node.dispatch_from_council
next_node Node.dispatch_from_council state = some (route_from_council state)
next_node Node.ask_user_for_missing_info state = some Node.record_agent_run
next_node Node.reject_with_reason state = some Node.record_agent_run
next_node Node.save_as_case_data state = some Node.review_gate
next_node Node.intake_calibration_graph state = some Node.review_gate
next_node Node.talent_mapping_graph state = some Node.review_gate
next_node Node.candidate_screening_graph state = some Node.review_gate
next_node Node.outreach_and_report_graph state = some Node.review_gate
next_node Node.followup_review_graph state = some Node.review_gate
next_node Node.review_gate state = some (route_from_review_gate state)
next_node Node.repair_artifact state = some Node.review_gate
next_node Node.reject_review_gate state = some Node.record_agent_run
next_node Node.interrupt_human_approval state = some Node.execute_approved_action
next_node Node.execute_approved_action state = some Node.record_agent_run
next_node Node.record_agent_run state = none

pub data Invocation : Type 0 where
  finished : RecruitmentState → Invocation
  interrupted : RecruitmentState → ProposedAction → Invocation
  recursion_limit : Invocation

abbrev pub along :
    (Node → RecruitmentState → Session Invocation)
    → Option Node
    → RecruitmentState
    → Session Invocation
along rest none state = pure (finished state)
along rest (some node) state = rest node state

unfoldable pub after_node :
    (Node → RecruitmentState → Session Invocation) → Node → Outcome → Session Invocation
unfolding next_node
after_node rest node (suspended state action) = pure (interrupted state action)
after_node rest node (continued state) = along rest (next_node node state) state

-- graph.invoke(...), from a node on
unfoldable pub invoke : GraphParts → ℕ → Node → Option Value → RecruitmentState → Session Invocation
unfolding run_node after_node
invoke parts zero node resume state = pure recursion_limit
invoke parts (suc steps) node resume state = do
  outcome ← run_node parts node resume state
  after_node (λ next after. invoke parts steps next resume after) node outcome
