-- ===== src/Review/Status.antt =====
-- Which findings a review can have, and when an artifact is to be fixed.
use headhunt_agent.Review.{
  ReviewFinding, human, finding, one_if, context_budget_findings, safety_findings,
  forbidden_key_findings, pii_findings, side_effect_findings, memory_ref_findings, token_findings,
  Validated, artifact_findings, valid, has_severity, is_schema_finding, all_findings, invalid, fix,
  ArtifactRef, evidence_findings, practicality_findings, lacks_evidence, practicality_finding,
  evidence_finding,
}
use headhunt_agent.Prelude.{
  String, Bool, true, false, ◌||◌, List, [], ◌∷◌, ◌++◌, ◌≡◌, refl, any, arith, ltb, ◌∙◌,
}
use headhunt_agent.Value.{Fields}
use headhunt_agent.Codec.{Codec}
use headhunt_agent.Texts.{strip, text_length}

any-append :
    {A : Type 0} (p : A → Bool) (xs ys : List A) → any p (xs ++ ys) ≡ (any p xs || any p ys)
any-append p [] ys = refl
any-append p (x ∷ xs) ys = ground (arith, any-append p xs ys)

any-one_if :
    (p : ReviewFinding → Bool) (b : Bool) (f : ReviewFinding)
    → p f ≡ false
    → any p (one_if b f) ≡ false
any-one_if p true f h = rw h refl
any-one_if p false f h = refl

none-append :
    (p : ReviewFinding → Bool) (xs ys : List ReviewFinding)
    → any p xs ≡ false
    → any p ys ≡ false
    → any p (xs ++ ys) ≡ false
none-append p xs ys h i = ground (arith, any-append p xs ys, h, i)

-- The findings that need no parsed artifact are neither on the schema nor to be fixed.
module _ (c : Codec) (p : ReviewFinding → Bool)
    (budget : (message path : String)
      → p (finding "ContextBudgetReviewer" human message path) ≡ false)
    (safety : (message path : String)
      → p (finding "SafetyReviewer" human message path) ≡ false) where
  on_keys : (context : Fields) → any p (forbidden_key_findings context) ≡ false
  unfolding forbidden_key_findings
  on_keys context = any-one_if p _ _ (budget _ _)

  on_refs : (context : Fields) → any p (memory_ref_findings context) ≡ false
  unfolding memory_ref_findings
  on_refs context = any-one_if p _ _ (budget _ _)

  on_tokens : (context : Fields) → any p (token_findings context) ≡ false
  unfolding token_findings
  on_tokens context = any-one_if p _ _ (budget _ _)

  on_pii : (artifact context : Fields) → any p (pii_findings c artifact context) ≡ false
  unfolding pii_findings
  on_pii artifact context = any-one_if p _ _ (safety _ _)

  on_side_effects : (artifact : Fields) → any p (side_effect_findings c artifact) ≡ false
  unfolding side_effect_findings
  on_side_effects artifact = any-one_if p _ _ (safety _ _)

  on_budget : (context : Fields) → any p (context_budget_findings context) ≡ false
  unfolding context_budget_findings
  on_budget context =
      none-append p (forbidden_key_findings context)
        (memory_ref_findings context ++ token_findings context) (on_keys context)
        (none-append p (memory_ref_findings context) (token_findings context) (on_refs context)
          (on_tokens context))

  on_safety : (artifact context : Fields) → any p (safety_findings c artifact context) ≡ false
  unfolding safety_findings
  on_safety artifact context =
      none-append p (pii_findings c artifact context) (side_effect_findings c artifact)
        (on_pii artifact context) (on_side_effects artifact)

  other_findings :
      (artifact context : Fields)
      → any p (context_budget_findings context ++ safety_findings c artifact context) ≡ false
  other_findings artifact context =
      none-append p (context_budget_findings context) (safety_findings c artifact context)
        (on_budget context) (on_safety artifact context)

abbrev pub is_invalid : Validated → Bool
is_invalid (valid ref) = false
is_invalid (invalid message) = true

unfoldable pub is_short : Validated → Bool
unfolding strip
is_short (valid ref) = ltb (text_length (strip ref.summary)) 12
is_short (invalid message) = false

on_artifact :
    (p : ReviewFinding → Bool) (a b : List ReviewFinding)
    → any p b ≡ false
    → any p (a ++ b) ≡ any p a
on_artifact p a b h = ground (arith, any-append p a b, h)

evidence : (ref : ArtifactRef) → any is_schema_finding (evidence_findings ref) ≡ false
unfolding evidence_findings
evidence ref = any-one_if is_schema_finding (lacks_evidence ref) evidence_finding refl

practicality : (ref : ArtifactRef) → any is_schema_finding (practicality_findings ref) ≡ false
unfolding practicality_findings
practicality ref =
    any-one_if is_schema_finding (ltb (text_length (strip ref.summary)) 12) practicality_finding
      refl

evidence_fix : (ref : ArtifactRef) → any (has_severity fix) (evidence_findings ref) ≡ false
unfolding evidence_findings
evidence_fix ref = any-one_if (has_severity fix) (lacks_evidence ref) evidence_finding refl

any-found :
    (p : ReviewFinding → Bool) (b : Bool) (f : ReviewFinding) → p f ≡ true → any p (one_if b f) ≡ b
any-found p true f h = rw h refl
any-found p false f h = refl

practicality_fix :
    (ref : ArtifactRef)
    → any (has_severity fix) (practicality_findings ref) ≡ ltb (text_length (strip ref.summary)) 12
unfolding practicality_findings
practicality_fix ref =
    any-found (has_severity fix) (ltb (text_length (strip ref.summary)) 12) practicality_finding
      refl

schema_of : (v : Validated) → any is_schema_finding (artifact_findings v) ≡ is_invalid v
unfolding artifact_findings
schema_of (invalid message) = refl
schema_of (valid ref) =
    none-append is_schema_finding (evidence_findings ref) (practicality_findings ref) (evidence ref)
      (practicality ref)

in_second :
    (p : ReviewFinding → Bool) (a b : List ReviewFinding)
    → any p a ≡ false
    → any p (a ++ b) ≡ any p b
in_second p a b h = ground (arith, any-append p a b, h)

fix_of : (v : Validated) → any (has_severity fix) (artifact_findings v) ≡ is_short v
unfolding artifact_findings is_short
fix_of (invalid message) = refl
fix_of (valid ref) =
    in_second (has_severity fix) (evidence_findings ref) (practicality_findings ref)
      (evidence_fix ref)
    ∙ practicality_fix ref

module _ (c : Codec) (validate : Fields → Validated) where
  -- A finding on the schema is there just for an artifact that is not valid.
  pub schema_findings :
      (artifact context : Fields)
      → any is_schema_finding (all_findings c validate artifact context)
        ≡ is_invalid (validate artifact)
  unfolding all_findings
  schema_findings artifact context =
      on_artifact is_schema_finding (artifact_findings (validate artifact)) _
        (other_findings c is_schema_finding (λ m q. refl) (λ m q. refl) artifact context)
      ∙ schema_of (validate artifact)

  -- A finding to be fixed is there just for a valid artifact with a short summary.
  pub fix_findings :
      (artifact context : Fields)
      → any (has_severity fix) (all_findings c validate artifact context)
        ≡ is_short (validate artifact)
  unfolding all_findings
  fix_findings artifact context =
      on_artifact (has_severity fix) (artifact_findings (validate artifact)) _
        (other_findings c (has_severity fix) (λ m q. refl) (λ m q. refl) artifact context)
      ∙ fix_of (validate artifact)
