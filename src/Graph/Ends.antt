-- ===== src/Graph/Ends.antt =====
-- The graph always ends: no node but the review gate and the repair comes twice, and these at most two
-- times.
use headhunt_agent.Graph.{
  Node, RecruitmentState, review_context_from_state, latest_business_artifact,
  review_gate_has_schema_error,
}
use headhunt_agent.Graph.Reviewing.{
  business_route, route_from_council, route_from_review_gate, route_of_result, subgraph_of,
  review_latest_artifact, asks, repair_artifact_after_review, is_needs_fix,
}
use headhunt_agent.Prelude.{
  ℕ, ◌≤◌, ◌<◌, String, Bool, arith, ◌==◌, if◌then◌else◌, ltb, ◌&&◌, inr, false, ◌+◌, subst, ◌≡◌,
  inl, true, Option-cases, some, suc, zero, ◌≢◌, Option,
}
use headhunt_agent.Graph.Run.{
  GraphParts, go_on, continued, invoke, run_node, next_node, after_node, recursion_limit, suspended,
}
use headhunt_agent.Tx.{◌>>=◌, ok, outcome_cases}
use headhunt_agent.Storage.Models.{Database}
use headhunt_agent.Review.Repair.{repair_artifact_for_review}
use headhunt_agent.Storage.Tables.{Session}
use headhunt_agent.Value.{Value}

-- How many nodes are left at most, with the node itself
abbrev rank : Node → ℕ → ℕ
rank Node.receive_user_input attempts = 11
rank Node.create_task_plan_and_policy attempts = 10
rank Node.council_deliberation_graph attempts = 9
rank Node.dispatch_from_council attempts = 8
rank Node.save_as_case_data attempts = 7
rank Node.intake_calibration_graph attempts = 7
rank Node.talent_mapping_graph attempts = 7
rank Node.candidate_screening_graph attempts = 7
rank Node.outreach_and_report_graph attempts = 7
rank Node.followup_review_graph attempts = 7
rank Node.review_gate attempts = if attempts == 0 then 6 else 4
rank Node.repair_artifact attempts = 5
rank Node.interrupt_human_approval attempts = 3
rank Node.execute_approved_action attempts = 2
rank Node.ask_user_for_missing_info attempts = 2
rank Node.reject_with_reason attempts = 2
rank Node.reject_review_gate attempts = 2
rank Node.record_agent_run attempts = 1

rank_bounds : (node : Node) (attempts : ℕ) → (0 < rank node attempts) × (rank node attempts ≤ 11)
rank_bounds Node.review_gate attempts = (ground arith, ground arith)
rank_bounds Node.receive_user_input attempts = (omega arith, omega arith)
rank_bounds Node.create_task_plan_and_policy attempts = (omega arith, omega arith)
rank_bounds Node.council_deliberation_graph attempts = (omega arith, omega arith)
rank_bounds Node.dispatch_from_council attempts = (omega arith, omega arith)
rank_bounds Node.save_as_case_data attempts = (omega arith, omega arith)
rank_bounds Node.intake_calibration_graph attempts = (omega arith, omega arith)
rank_bounds Node.talent_mapping_graph attempts = (omega arith, omega arith)
rank_bounds Node.candidate_screening_graph attempts = (omega arith, omega arith)
rank_bounds Node.outreach_and_report_graph attempts = (omega arith, omega arith)
rank_bounds Node.followup_review_graph attempts = (omega arith, omega arith)
rank_bounds Node.repair_artifact attempts = (omega arith, omega arith)
rank_bounds Node.interrupt_human_approval attempts = (omega arith, omega arith)
rank_bounds Node.execute_approved_action attempts = (omega arith, omega arith)
rank_bounds Node.ask_user_for_missing_info attempts = (omega arith, omega arith)
rank_bounds Node.reject_with_reason attempts = (omega arith, omega arith)
rank_bounds Node.reject_review_gate attempts = (omega arith, omega arith)
rank_bounds Node.record_agent_run attempts = (omega arith, omega arith)

business_rank : (s : String) (attempts : ℕ) → rank (business_route s) attempts ≤ 7
business_rank s attempts = ground arith

review_rank :
    (b schema : Bool) (attempts : ℕ)
    → rank
        (if schema
          then Node.reject_review_gate
          else if b && ltb attempts 1
          then Node.repair_artifact
          else Node.interrupt_human_approval)
        attempts
      < rank Node.review_gate attempts
review_rank b schema attempts = ground arith

at_next : {m n : Node} (a k : ℕ) → some m ≡ some n → rank m a < k → rank n a < k
at_next a k e h = subst (λ x. rank x a < k) (cc e) h

council_rank : (s : RecruitmentState) (attempts : ℕ) → rank (route_from_council s) attempts < 8
unfolding route_from_council
council_rank s attempts = go (asks s.human_questions)
  where
    go :
        (b : Bool)
        → rank
            (if b
              then Node.ask_user_for_missing_info
              else business_route (subgraph_of s.council_decision))
            attempts
          < 8
    go true = omega arith
    go false = omega (arith, business_rank (subgraph_of s.council_decision) attempts)

review_route_rank :
    (s : RecruitmentState)
    → rank (route_from_review_gate s) s.review_fix_attempts
      < rank Node.review_gate s.review_fix_attempts
unfolding route_from_review_gate route_of_result
review_route_rank s = elim (Option-cases s.review_result) [
  | inl none_yet ↦ rw none_yet (waits s.review_fix_attempts)
  | inr (result, there) ↦ rw there (
      review_rank (is_needs_fix result.status) (review_gate_has_schema_error result)
        s.review_fix_attempts)
]
  where
    waits : (a : ℕ) → 3 < rank Node.review_gate a
    waits a = ground arith

-- A node that only returns a state
gone_on :
    (m : Session RecruitmentState) (s : RecruitmentState) (db db' : Database)
    → go_on m db ≡ (ok (continued s), db')
    → (m db).0 ≡ ok s
unfolding go_on ◌>>=◌
gone_on m s db db' h = elim (outcome_cases (m db)) [
  | inl (t, x, out) ↦ cc (rw out at h, out)
  | inr (e, x, out) ↦ absurd (cc (rw out at h))
]

module _ (parts : GraphParts) (s t : RecruitmentState) (db : Database) where
  review_keeps :
      (review_latest_artifact parts.codec parts.validate s db).0 ≡ ok t
      → t.review_fix_attempts ≡ s.review_fix_attempts
  unfolding review_latest_artifact ◌>>=◌
  review_keeps h = elim (Option-cases (review_context_from_state parts.codec s)) [
    | inl absent ↦ absurd (cc (rw absent at h))
    | inr (context, there) ↦ cc (rw there at h)
  ]

  repair_counts :
      (repair_artifact_after_review parts.codec s db).0 ≡ ok t
      → t.review_fix_attempts ≡ s.review_fix_attempts + 1
  unfolding repair_artifact_after_review ◌>>=◌
  repair_counts h =
      elim (Option-cases
        (repair_artifact_for_review parts.codec (latest_business_artifact parts.codec s))) [
          | inl absent ↦ absurd (cc (rw absent at h))
          | inr (artifact, there) ↦ cc (rw there at h)
        ]

below_business : (a : ℕ) → rank Node.review_gate a < 7
below_business a = ground arith

repaired : (a b : ℕ) → a ≡ b + 1 → rank Node.review_gate a < 5
repaired a b h = ground arith

no_room : (node : Node) (a : ℕ) → rank node a ≤ 0 → ⊥
no_room node a h = omega (arith, h, (rank_bounds node a).0)

step_rank :
    (parts : GraphParts) (node next : Node) (resume : Option Value) (s t : RecruitmentState)
    (db db' : Database)
    → run_node parts node resume s db ≡ (ok (continued t), db')
    → next_node node t ≡ some next
    → rank next t.review_fix_attempts < rank node s.review_fix_attempts
unfolding run_node next_node
step_rank parts Node.receive_user_input next resume s t db db' h e = at_next _ _ e (omega arith)
step_rank parts Node.create_task_plan_and_policy next resume s t db db' h e =
    at_next _ _ e (omega arith)
step_rank parts Node.council_deliberation_graph next resume s t db db' h e =
    at_next _ _ e (omega arith)
step_rank parts Node.dispatch_from_council next resume s t db db' h e =
    at_next _ _ e (council_rank t t.review_fix_attempts)
step_rank parts Node.ask_user_for_missing_info next resume s t db db' h e =
    at_next _ _ e (omega arith)
step_rank parts Node.reject_with_reason next resume s t db db' h e = at_next _ _ e (omega arith)
step_rank parts Node.save_as_case_data next resume s t db db' h e =
    at_next _ _ e (below_business t.review_fix_attempts)
step_rank parts Node.intake_calibration_graph next resume s t db db' h e =
    at_next _ _ e (below_business t.review_fix_attempts)
step_rank parts Node.talent_mapping_graph next resume s t db db' h e =
    at_next _ _ e (below_business t.review_fix_attempts)
step_rank parts Node.candidate_screening_graph next resume s t db db' h e =
    at_next _ _ e (below_business t.review_fix_attempts)
step_rank parts Node.outreach_and_report_graph next resume s t db db' h e =
    at_next _ _ e (below_business t.review_fix_attempts)
step_rank parts Node.followup_review_graph next resume s t db db' h e =
    at_next _ _ e (below_business t.review_fix_attempts)
step_rank parts Node.review_gate next resume s t db db' h e =
    let kept = review_keeps parts s t db (gone_on _ t db db' h) in
    at_next _ _ e (
      subst (λ a. rank (route_from_review_gate t) t.review_fix_attempts < rank Node.review_gate a)
        kept (review_route_rank t))
step_rank parts Node.repair_artifact next resume s t db db' h e =
    let counted = repair_counts parts s t db (gone_on _ t db db' h) in
    at_next _ _ e (repaired t.review_fix_attempts s.review_fix_attempts counted)
step_rank parts Node.reject_review_gate next resume s t db db' h e = at_next _ _ e (omega arith)
step_rank parts Node.interrupt_human_approval next resume s t db db' h e =
    at_next _ _ e (omega arith)
step_rank parts Node.execute_approved_action next resume s t db db' h e =
    at_next _ _ e (omega arith)
step_rank parts Node.record_agent_run next resume s t db db' h e = absurd (cc (e))

ends_within :
    (parts : GraphParts) (steps : ℕ) (node : Node) (resume : Option Value) (s : RecruitmentState)
    (db : Database)
    → rank node s.review_fix_attempts ≤ steps
    → (invoke parts steps node resume s db).0 ≢ ok recursion_limit
unfolding invoke after_node ◌>>=◌
ends_within parts zero node resume s db h = λ e. no_room node s.review_fix_attempts h
ends_within parts (suc steps) node resume s db h =
    elim (outcome_cases (run_node parts node resume s db)) [
      | inr (e, db', out) ↦ rw out (λ q. absurd (cc (q)))
      | inl (suspended t action, db', out) ↦ rw out (λ q. absurd (cc (q)))
      | inl (continued t, db', out) ↦ elim (Option-cases (next_node node t)) [
        | inl last ↦ rw out (rw last (λ q. absurd (cc (q))))
        | inr (next, more) ↦ rw out (
            rw more (
              ends_within parts steps next resume t db'
                (omega (arith, h, step_rank parts node next resume s t db db' out more))))
      ]
    ]

-- From every node and state, 11 nodes are enough: within LangGraph's limit of 25, a run ends, waits for
-- an approval or raises.
pub invoke_ends :
    (parts : GraphParts) (steps : ℕ) (node : Node) (resume : Option Value) (s : RecruitmentState)
    (db : Database)
    → 11 ≤ steps
    → (invoke parts steps node resume s db).0 ≢ ok recursion_limit
invoke_ends parts steps node resume s db h =
    ends_within parts steps node resume s db
      (omega (arith, h, (rank_bounds node s.review_fix_attempts).1))
