-- ===== src/Graph/Reviewed.antt =====
-- Where the graph goes after a review.
use headhunt_agent.Graph.{
  RecruitmentState, Node, latest_business_artifact, review_gate_has_schema_error,
  review_context_from_state,
}
use headhunt_agent.Graph.Reviewing.{
  route_of_result, is_needs_fix, review_latest_artifact, route_from_review_gate, reviewed_state,
}
use headhunt_agent.Review.{
  Validated, valid, invalid, ArtifactRef, review_artifact, review_status, all_findings,
  has_severity, human,
}
use headhunt_agent.Review.Status.{schema_findings, fix_findings, is_invalid, is_short}
use headhunt_agent.Prelude.{
  ℕ, ◌<◌, String, Bool, not, ◌&&◌, ◌||◌, ◌≡◌, refl, if◌then◌else◌, ltb, leb, any, arith,
  Option-cases, Bool-cases, subst, inl, true, inr,
}
use headhunt_agent.Texts.{strip, text_length}
use headhunt_agent.Value.{Fields}
use headhunt_agent.Codec.{Codec}
use headhunt_agent.Storage.Models.{Datetime, Database}
use headhunt_agent.Tx.{◌>>=◌, ok}

module _ (c : Codec) (validate : Fields → Validated) (s : RecruitmentState) where
  -- Where the graph goes: an artifact that is not valid is rejected. A valid one is repaired where
  -- its summary is short and it was not repaired before, with no finding for a human; else its action
  -- is proposed.
  pub data Routed (route : Node) : Type 0 where
    rejected :
        (message : String)
        → validate (latest_business_artifact c s) ≡ invalid message
        → route ≡ Node.reject_review_gate
        → Routed route
    repaired :
        (ref : ArtifactRef)
        → validate (latest_business_artifact c s) ≡ valid ref
        → text_length (strip ref.summary) < 12
        → s.review_fix_attempts ≡ 0
        → route ≡ Node.repair_artifact
        → Routed route
    proposed :
        (ref : ArtifactRef)
        → validate (latest_business_artifact c s) ≡ valid ref
        → route ≡ Node.interrupt_human_approval
        → Routed route

  status_bits : (humans fixes later : Bool) → Bool
  status_bits humans fixes later = not (humans || (fixes && later)) && fixes

  needs_fix_bits :
      (artifact context : Fields) (n : ℕ)
      → is_needs_fix (review_status (all_findings c validate artifact context) n)
        ≡ status_bits
            (any (has_severity human) (all_findings c validate artifact context))
            (is_short (validate artifact))
            (leb 1 n)
  unfolding review_status status_bits
  needs_fix_bits artifact context n = ground (arith, fix_findings c validate artifact context)

  route_bits :
      (artifact context : Fields) (now : Datetime) (n : ℕ)
      → route_of_result (review_artifact c validate now artifact context n) n ≡ (
          if is_invalid (validate artifact)
          then Node.reject_review_gate
          else if status_bits
                (any (has_severity human) (all_findings c validate artifact context))
                (is_short (validate artifact))
                (leb 1 n)
              && ltb n 1
          then Node.repair_artifact
          else Node.interrupt_human_approval)
  unfolding route_of_result review_artifact review_gate_has_schema_error
  route_bits artifact context now n =
      rw (schema_findings c validate artifact context) (rw (needs_fix_bits artifact context n) refl)

  routed_from :
      (v : Validated) (humans : Bool) (route : Node)
      → validate (latest_business_artifact c s) ≡ v
      → route ≡ (
          if is_invalid v
          then Node.reject_review_gate
          else if status_bits humans (is_short v) (leb 1 s.review_fix_attempts)
              && ltb s.review_fix_attempts 1
          then Node.repair_artifact
          else Node.interrupt_human_approval)
      → Routed route
  unfolding status_bits is_short
  routed_from (invalid message) humans route e h = rejected message e h
  routed_from (valid ref) humans route e h =
      elim (Bool-cases (fixing humans (text_length (strip ref.summary)) s.review_fix_attempts)) [
        | inr not_now ↦ proposed ref e (rw not_now at h)
        | inl now ↦
            let (short, first) =
              bounds humans (text_length (strip ref.summary)) s.review_fix_attempts now in
            repaired ref e short first (rw now at h)
      ]
    where
      fixing : Bool → ℕ → ℕ → Bool
      fixing humans n k = status_bits humans (ltb n 12) (leb 1 k) && ltb k 1

      bounds : (humans : Bool) (n k : ℕ) → fixing humans n k ≡ true → (n < 12) × (k ≡ 0)
      bounds humans n k q = (ground arith, ground arith)

  -- After a review, the graph rejects an artifact that is not valid, and only such a one. It repairs a
  -- valid artifact only if its summary has fewer than 12 characters and it was not repaired before.
  -- Otherwise it proposes the action.
  pub review_latest_artifact-Routed :
      (db : Database) (t : RecruitmentState)
      → (review_latest_artifact c validate s db).0 ≡ ok t
      → Routed (route_from_review_gate t)
  unfolding review_latest_artifact ◌>>=◌ route_from_review_gate
  review_latest_artifact-Routed db t h = elim (Option-cases (review_context_from_state c s)) [
    | inl absent ↦ absurd (cc (rw absent at h))
    | inr (context, there) ↦
        let artifact = latest_business_artifact c s in
        let result = review_artifact c validate db.now artifact context s.review_fix_attempts in
        subst (λ x. Routed (route_from_review_gate x))
          (ok_at (reviewed_state c validate s result) t (rw there at h))
          (routed_from (validate artifact)
            (any (has_severity human) (all_findings c validate artifact context)) _ refl
            (route_bits artifact context db.now s.review_fix_attempts))
  ]
    where
      ok_at : (a b : RecruitmentState) → ok a ≡ ok b → a ≡ b
      ok_at a b e = cc
