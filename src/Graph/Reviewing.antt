-- ===== src/Graph/Reviewing.antt =====
-- app/graphs/war_room.py: the nodes around the review gate, and the routes of the graph.
use headhunt_agent.Graph.{
  RecruitmentState, Node, with_history, latest_business_artifact, review_context_from_state,
  review_gate_has_schema_error,
}
use headhunt_agent.Prelude.{
  ℕ, ◌+◌, String, Bool, true, false, ◌&&◌, Option, none, some, List, [], ◌∷◌, ◌++◌, if◌then◌else◌,
  str_eq, ◌<>◌, ltb, ◌-◌,
}
use headhunt_agent.Tx.{pure, gets, require, ◌>>=◌, value_error}
use headhunt_agent.Texts.{strip, join_words, take_text}
use headhunt_agent.Value.{Fields, get, str, field, end}
use headhunt_agent.Codec.{Codec}
use headhunt_agent.Policy.{CouncilDecision}
use headhunt_agent.Review.{
  ReviewGateResult, ReviewGateStatus, ReviewFinding, Validated, review_artifact, needs_fix,
  text_or_else,
}
use headhunt_agent.Review.Repair.{repair_artifact_for_review}
use headhunt_agent.Storage.Tables.{Session}

module _ (c : Codec) (validate : Fields → Validated) where
  abbrev pub reviewed_state : RecruitmentState → ReviewGateResult → RecruitmentState
  reviewed_state state result =
      with_history "review_gate" "ReviewGate" (record state { review_result = some result })

  -- `review_latest_artifact`
  unfoldable pub review_latest_artifact : RecruitmentState → Session RecruitmentState
  unfolding latest_business_artifact review_context_from_state review_artifact
  review_latest_artifact state = do
    context ← require (review_context_from_state c state) value_error
    now ← gets (λ db. db.now)
    pure (
        reviewed_state state (
          review_artifact c validate now (latest_business_artifact c state) context
            state.review_fix_attempts))

abbrev pub is_needs_fix : ReviewGateStatus → Bool
is_needs_fix needs_fix = true
is_needs_fix _ = false

unfoldable pub route_of_result : ReviewGateResult → ℕ → Node
unfolding review_gate_has_schema_error
route_of_result result attempts =
    if review_gate_has_schema_error result
    then Node.reject_review_gate
    else if is_needs_fix result.status && ltb attempts 1
    then Node.repair_artifact
    else Node.interrupt_human_approval

-- `route_from_review_gate`
unfoldable pub route_from_review_gate : RecruitmentState → Node
unfolding route_of_result
route_from_review_gate state = elim state.review_result [
  | none ↦ Node.interrupt_human_approval
  | some result ↦ route_of_result result state.review_fix_attempts
]

-- The route of a subgraph's name, by the map of `route_from_council`
abbrev pub business_route : String → Node
business_route subgraph =
    if str_eq subgraph "requisition_calibration"
    then Node.intake_calibration_graph
    else if str_eq subgraph "talent_mapping"
    then Node.talent_mapping_graph
    else if str_eq subgraph "candidate_screening"
    then Node.candidate_screening_graph
    else if str_eq subgraph "report_draft"
    then Node.outreach_and_report_graph
    else if str_eq subgraph "review"
    then Node.followup_review_graph
    else if str_eq subgraph "save_as_case_data"
    then Node.save_as_case_data
    else Node.reject_with_reason

abbrev pub subgraph_of : Option CouncilDecision → String
subgraph_of none = ""
subgraph_of (some decision) = decision.recommended_business_subgraph

abbrev pub asks : List String → Bool
asks [] = false
asks (x ∷ xs) = true

unfoldable pub route_from_council : RecruitmentState → Node
route_from_council state =
    if asks state.human_questions
    then Node.ask_user_for_missing_info
    else business_route (subgraph_of state.council_decision)

-- The part of `_review_findings_summary` for one finding: its reviewer, its path and its message
abbrev finding_part : ReviewFinding → String
unfolding join_words strip
finding_part item =
    prefix (strip (elim item.path [ none ↦ "" | some p ↦ p ])) <> ": " <> join_words item.message
  where
    reviewer : String
    reviewer = if str_eq item.reviewer "" then "ReviewGate" else item.reviewer

    prefix : String → String
    prefix path = if str_eq path "" then reviewer else reviewer <> "/" <> path

abbrev joined_parts : List String → String
joined_parts [] = ""
joined_parts (s ∷ []) = s
joined_parts (s ∷ t ∷ rest) = s <> " | " <> joined_parts (t ∷ rest)

-- The parts of the first findings that have a message, `limit` at most
unfoldable pub summary_parts : ℕ → List ReviewFinding → List String
unfolding finding_part join_words
summary_parts limit [] = []
summary_parts limit (item ∷ items) =
    let more = summary_parts (limit - 1) items in
    let same = summary_parts limit items in
    if ltb 0 limit
    then (if str_eq (join_words item.message) "" then same else finding_part item ∷ more)
    else []

-- `_review_findings_summary`
unfoldable pub review_findings_summary : Option ReviewGateResult → String
unfolding summary_parts take_text
review_findings_summary none = ""
review_findings_summary (some result) =
    take_text 500 (joined_parts (summary_parts 3 result.findings))

module _ (c : Codec) where
  abbrev rejection : RecruitmentState → String
  unfolding review_findings_summary
  rejection state =
      "ReviewGate rejected malformed artifact before action proposal"
      <> (if str_eq (review_findings_summary state.review_result) ""
          then "."
          else ": " <> review_findings_summary state.review_result)

  unfoldable pub reject_review_gate : RecruitmentState → RecruitmentState
  unfolding latest_business_artifact rejection text_or_else
  reject_review_gate state =
      with_history "reject_review_gate" "blocked malformed artifact before action proposal"
        (record state {
          ready_to_execute = false;
          approval_required = false;
          errors =
              state.errors
              ++ field "node" (str "review_gate") (
                  field "message" (str (rejection state)) (
                    field "artifact_id"
                      (str
                        (text_or_else c (get "artifact_id" (latest_business_artifact c state)) ""))
                      (field "artifact_kind"
                        (str (text_or_else c (get "kind" (latest_business_artifact c state)) ""))
                        end)))
                ∷ [];
        })

  -- `repair_artifact_after_review`
  unfoldable pub repair_artifact_after_review : RecruitmentState → Session RecruitmentState
  unfolding latest_business_artifact repair_artifact_for_review
  repair_artifact_after_review state = do
    repaired ← require (repair_artifact_for_review c (latest_business_artifact c state)) value_error
    pure (
        with_history "repair_artifact" "repaired after ReviewGate needs_fix" (record state {
          artifacts = state.artifacts ++ repaired ∷ [];
          review_fix_attempts = state.review_fix_attempts + 1;
        }))
