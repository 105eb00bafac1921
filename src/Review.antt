-- ===== src/Review.antt =====
-- app/runtime/review_gate.py: `ReviewGate.review_artifact` for an artifact that is a dict. The validation
-- of `ArtifactRef`, which is pydantic's, is a parameter.
pub mod Repair
pub mod Status
use Prim.Native.Char.{code}
use Prim.Native.String.{String}
use mathlib.Core.Option
use headhunt_agent.Prelude.{
  ℕ, zero, suc, ◌==◌, ◌≡◌, refl, Bool, true, false, not, ◌&&◌, ◌||◌, Option, none, some, List, [],
  ◌∷◌, ◌++◌, if◌then◌else◌, str_eq, ◌<>◌, any, leb, ltb, select, map, or_default, Option, String,
}
use headhunt_agent.Texts.{lower, strip, text_length, contains, contains_any, int_digits}
use headhunt_agent.Value.{
  Value, Items, Fields, get, has_key, or_value, or_null, str, int, uuid, null, list, dict, nil,
  cons, field, end, bool, negative, truthy,
}
use headhunt_agent.Codec.{Codec, text_form}
use headhunt_agent.Storage.Models.{Uuid, Datetime}

-- `ArtifactRef` of app/schemas/artifacts.py
pub record ArtifactRef : Type 0 where
  pub artifact_id : Uuid
  pub kind : String
  pub summary : String
  pub content_ref : String
  pub evidence_refs : List String
  pub source_refs : List String
  pub pii_level : String
  pub version : ℕ
  pub size_tokens_estimate : ℕ

-- What `model_validate` does: it returns the model, or raises with a message.
pub data Validated : Type 0 where
  valid : ArtifactRef → Validated
  invalid : String → Validated

pub data Severity : Type 0 where
  fix human : Severity

-- `ReviewFinding` of app/schemas/review.py
pub record ReviewFinding : Type 0 where
  pub reviewer : String
  pub severity : Severity
  pub message : String
  pub path : Option String

pub data ReviewGateStatus : Type 0 where
  pass needs_fix needs_human : ReviewGateStatus

pub record ReviewGateResult : Type 0 where
  pub status : ReviewGateStatus
  pub artifact_id : Option Uuid
  pub artifact_kind : Option String
  pub findings : List ReviewFinding
  pub repair_attempts : ℕ
  pub reviewed_at : Datetime

abbrev pub finding : String → Severity → String → String → ReviewFinding
finding reviewer severity message path = record {
  reviewer = reviewer;
  severity = severity;
  message = message;
  path = some path;
}

-- BUSINESS_ARTIFACT_KINDS
abbrev pub business_artifact_kinds : List String
business_artifact_kinds =
    "RequisitionCalibrationDraft" ∷ "TalentMapDraft" ∷ "CandidateMatchDraft" ∷ "ReportDraft"
    ∷ "FollowupReviewDraft" ∷ "CaseDataDraft" ∷ []

-- FORBIDDEN_CONTEXT_KEYS, sorted
abbrev forbidden_context_keys : List String
forbidden_context_keys =
    "agent_runs" ∷ "all_artifacts" ∷ "all_memories" ∷ "chat_history" ∷ "full_sop_body" ∷ "messages"
    ∷ "node_history" ∷ "raw_prompt" ∷ "recruitment_state" ∷ []

-- SIDE_EFFECT_PHRASES, which are in lower case
abbrev side_effect_phrases : List String
side_effect_phrases =
    "已发送" ∷ "已经发送" ∷ "已触达" ∷ "已经触达" ∷ "已联系" ∷ "已经联系" ∷ "已写入" ∷ "已经写入" ∷ "sent to candidate"
    ∷ "contacted candidate" ∷ "wrote to bitable" ∷ []

abbrev pub one_if : Bool → ReviewFinding → List ReviewFinding
one_if true f = f ∷ []
one_if false f = []

abbrev pub no_text : List String → Bool
no_text [] = true
no_text (x ∷ xs) = false

abbrev joined : List String → String
joined [] = ""
joined (s ∷ []) = s
joined (s ∷ t ∷ rest) = s <> ", " <> joined (t ∷ rest)

abbrev pub lacks_evidence : ArtifactRef → Bool
lacks_evidence artifact =
    any (str_eq artifact.kind) business_artifact_kinds
    && (no_text artifact.evidence_refs && no_text artifact.source_refs)

abbrev pub evidence_finding : ReviewFinding
evidence_finding =
    finding "EvidenceConsistencyReviewer" human
      "Business artifact has no evidence_refs or source_refs to support the conclusion."
      "evidence_refs"

-- `_evidence_findings`
unfoldable pub evidence_findings : ArtifactRef → List ReviewFinding
evidence_findings artifact = one_if (lacks_evidence artifact) evidence_finding

abbrev pub practicality_finding : ReviewFinding
practicality_finding =
    finding "PracticalityReviewer" fix "Artifact summary is too short to be actionable." "summary"

-- `_practicality_findings`
unfoldable pub practicality_findings : ArtifactRef → List ReviewFinding
unfolding strip
practicality_findings artifact =
    one_if (ltb (text_length (strip artifact.summary)) 12) practicality_finding

abbrev minus : ℕ → Value
minus zero = int 0
minus (suc n) = negative n

-- int(s) of a text in ASCII, none where it raises
unfoldable pub int_of_text : String → Option Value
unfolding int_digits strip
int_of_text s = signed (strip s)
  where
    signed : String → Option Value
    signed String.[] = none
    signed (String.◌∷◌ c t) =
        if code c == 45
        then Option.map minus (int_digits false 0 t)
        else if code c == 43
        then Option.map int (int_digits false 0 t)
        else Option.map int (int_digits false 0 (String.◌∷◌ c t))

int_runs :
    (int_of_text " 1_20 " ≡ some (int 120))
    × (int_of_text "-7" ≡ some (negative 6))
    × (int_of_text "1__2" ≡ none)
unfolding int_of_text
int_runs = (refl, refl, refl)

-- int(value), none where it raises
unfoldable pub int_of : Value → Option Value
unfolding int_of_text
int_of (int n) = some (int n)
int_of (negative n) = some (negative n)
int_of (bool b) = some (int (if b then 1 else 0))
int_of (str s) = int_of_text s
int_of _ = none

abbrev natural : Option Value → ℕ
natural (some (int n)) = n
natural _ = 0

-- `_int_value`, 0 where the code has a negative number
unfoldable pub int_value : Value → ℕ
unfolding int_of or_value
int_value v = natural (int_of (or_value v (int 0)))

-- The three parts of `_context_budget_findings`
unfoldable pub forbidden_key_findings : Fields → List ReviewFinding
unfolding has_key
forbidden_key_findings context =
    let forbidden = select (λ key. has_key key context) forbidden_context_keys in
    one_if (not (no_text forbidden)) (
      finding "ContextBudgetReviewer" human
        ("Review context contains forbidden raw context keys: " <> joined forbidden <> ".")
        "review_context")

unfoldable pub memory_ref_findings : Fields → List ReviewFinding
unfolding int_value
memory_ref_findings context = one_if (ltb 10 (int_value (get "memory_ref_count" context))) (
    finding "ContextBudgetReviewer" human
      "Review context contains too many memory refs for artifact-level review."
      "review_context.memory_ref_count")

unfoldable pub token_findings : Fields → List ReviewFinding
unfolding int_value
token_findings context = one_if (ltb 3500 (int_value (get "total_tokens_estimate" context))) (
    finding "ContextBudgetReviewer" human
      "Review context token estimate exceeds the artifact-level budget."
      "review_context.total_tokens_estimate")

unfoldable pub context_budget_findings : Fields → List ReviewFinding
context_budget_findings context =
    forbidden_key_findings context ++ (memory_ref_findings context ++ token_findings context)

module _ (c : Codec) where
  -- str(a or b)
  unfoldable pub text_or_else : Value → String → String
  unfolding text_form or_value
  text_or_else v default = text_form c (or_value v (str default))

  -- The two parts of `_safety_findings`
  unfoldable pub pii_findings : Fields → Fields → List ReviewFinding
  unfolding or_value text_or_else
  pii_findings artifact context =
      one_if
        (str_eq
          (text_or_else (or_value (get "pii_level" artifact) (get "pii_level" context)) "none")
          "high")
        (finding "SafetyReviewer" human
          "High-PII artifact requires human review before any side effect." "pii_level")

  unfoldable pub side_effect_findings : Fields → List ReviewFinding
  unfolding lower text_or_else
  side_effect_findings artifact =
      one_if (contains_any side_effect_phrases (lower (text_or_else (get "summary" artifact) ""))) (
        finding "SafetyReviewer" human
          "Artifact summary implies an external side effect already happened." "summary")

  unfoldable pub safety_findings : Fields → Fields → List ReviewFinding
  safety_findings artifact context = pii_findings artifact context ++ side_effect_findings artifact

abbrev pub has_severity : Severity → ReviewFinding → Bool
has_severity human f = elim f.severity [ human ↦ true | fix ↦ false ]
has_severity fix f = elim f.severity [ human ↦ false | fix ↦ true ]

-- The reviewer of a finding on the schema
abbrev pub is_schema_finding : ReviewFinding → Bool
is_schema_finding item = str_eq item.reviewer "SchemaValidator"

-- The status for some findings
unfoldable pub review_status : List ReviewFinding → ℕ → ReviewGateStatus
review_status findings repair_attempts =
    if any (has_severity human) findings || any (has_severity fix) findings && leb 1 repair_attempts
    then needs_human
    else if any (has_severity fix) findings
    then needs_fix
    else pass

-- The findings on the schema, and those that need the parsed artifact
unfoldable pub artifact_findings : Validated → List ReviewFinding
artifact_findings (valid artifact) = evidence_findings artifact ++ practicality_findings artifact
artifact_findings (invalid message) =
    finding "SchemaValidator" human
      ("ArtifactRef schema validation failed; artifact is not eligible for action proposal: "
        <> message)
      "artifact"
    ∷ []

module _ (c : Codec) (validate : Fields → Validated) where
  unfoldable pub all_findings : Fields → Fields → List ReviewFinding
  all_findings artifact context =
      artifact_findings (validate artifact)
      ++ (context_budget_findings context ++ safety_findings c artifact context)

  -- `_optional_uuid` and `_optional_str`
  abbrev pub id_of : Validated → Fields → Option Uuid
  unfolding truthy text_form
  id_of (valid ref) artifact = some ref.artifact_id
  id_of (invalid message) artifact =
      if truthy (get "artifact_id" artifact)
      then c.parse_uuid (text_form c (get "artifact_id" artifact))
      else none

  abbrev pub text_unless_null : Value → Option String
  unfolding text_form
  text_unless_null null = none
  text_unless_null v = some (text_form c v)

  abbrev pub kind_of : Validated → Fields → Option String
  kind_of (valid ref) artifact = some ref.kind
  kind_of (invalid message) artifact = text_unless_null (get "kind" artifact)

  unfoldable pub review_artifact : Datetime → Fields → Fields → ℕ → ReviewGateResult
  review_artifact now artifact context repair_attempts = record {
    status = review_status (all_findings artifact context) repair_attempts;
    artifact_id = id_of (validate artifact) artifact;
    artifact_kind = kind_of (validate artifact) artifact;
    findings = all_findings artifact context;
    repair_attempts = repair_attempts;
    reviewed_at = now;
  }
