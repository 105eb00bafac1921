-- ===== src/Policy/Agents.antt =====
-- Which agents a plan requires, whatever the text.
use headhunt_agent.Policy.{
  CouncilMode, triage, lite, standard, full_council, CouncilDeliberateRequest, create_task_plan,
  mode_of, required_agents_of, high_risk_terms, full_council_triggers,
}
use headhunt_agent.Prelude.{
  String, Bool, true, false, ◌≡◌, refl, ltb, ◌<◌, ◌⊎◌, if◌then◌else◌, any, str_eq, List, Bool-cases,
  inl, inr, arith, ℕ,
}
use headhunt_agent.Texts.{strip, text_length, contains_any}
use headhunt_agent.Storage.Models.{Uuid}

-- An agent among the required ones
abbrev pub requires : String → List String → Bool
requires agent agents = any (str_eq agent) agents

always_required :
    (mode : CouncilMode)
    → (requires "ComplianceRiskAgent" (required_agents_of mode) ≡ true)
      × (requires "CouncilSynthesizerAgent" (required_agents_of mode) ≡ true)
unfolding required_agents_of
always_required triage = (refl, refl)
always_required lite = (refl, refl)
always_required standard = (refl, refl)
always_required full_council = (refl, refl)

in_both :
    (requires "ChallengeReviewAgent" (required_agents_of full_council) ≡ true)
    × (requires "ChallengeReviewAgent" (required_agents_of standard) ≡ true)
unfolding required_agents_of
in_both = (refl, refl)

challenged :
    (text : String)
    → contains_any high_risk_terms text ≡ true
    → ltb (text_length (strip text)) 20 ≡ false
    → requires "ChallengeReviewAgent" (required_agents_of (mode_of text)) ≡ true
unfolding mode_of
challenged text risky long =
    rw long (rw risky (forced_or_not (contains_any full_council_triggers text)))
  where
    forced_or_not :
        (forced : Bool)
        → requires "ChallengeReviewAgent"
            (required_agents_of (if forced then full_council else standard))
          ≡ true
    forced_or_not true = in_both.0
    forced_or_not false = in_both.1

-- Every plan requires the compliance agent and the synthesizer. It requires the challenge agent too,
-- unless the text has no term of high risk or has fewer than 20 characters without the space around it.
pub create_task_plan-IsSupervised :
    (fresh_task fresh_thread : Uuid) (request : CouncilDeliberateRequest)
    → (requires "ComplianceRiskAgent"
          (create_task_plan fresh_task fresh_thread request).required_agents
        ≡ true)
      × (requires "CouncilSynthesizerAgent"
            (create_task_plan fresh_task fresh_thread request).required_agents
          ≡ true)
      × ((requires "ChallengeReviewAgent"
              (create_task_plan fresh_task fresh_thread request).required_agents
            ≡ true)
          ⊎ (contains_any high_risk_terms request.request_text ≡ false)
          ⊎ (text_length (strip request.request_text) < 20))
unfolding create_task_plan
create_task_plan-IsSupervised fresh_task fresh_thread request =
    let text = request.request_text in
    let (compliance, synthesizer) = always_required (mode_of text) in
    (
      compliance,
      synthesizer,
      elim (Bool-cases (contains_any high_risk_terms text)) [
        | inr safe ↦ inr (inl safe)
        | inl risky ↦ elim (Bool-cases (ltb (text_length (strip text)) 20)) [
          | inl short ↦ inr (inr (is_less (text_length (strip text)) short))
          | inr long ↦ inl (challenged text risky long)
        ]
      ],
    )
  where
    is_less : (n : ℕ) → ltb n 20 ≡ true → n < 20
    is_less n h = ground arith
