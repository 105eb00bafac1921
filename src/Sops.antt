-- ===== src/Sops.antt =====
-- app/sops/registry.py: `AgentSOPRegistry.resolve` picks the SOP references of a node. the
-- registry's records, already validated, are a list.
pub mod Limits
use headhunt_agent.Prelude.{
  ℕ, String, Bool, true, false, not, Option, none, some, List, [], ◌∷◌, ◌++◌, if◌then◌else◌, str_eq,
  ◌&&◌, ◌||◌, length, ltb, ◌<>◌, ◌/◌, max,
}
use headhunt_agent.Texts.{starts_with, translate, lower, text_length, contains}

-- A record that `_validate_record` has let through
pub record SopRecord : Type 0 where
  pub sop_id : String
  pub version : String
  pub title : String
  pub scope : String
  pub trigger_policy : String
  pub content_ref : String
  pub summary : String
  pub status : String
  pub path : Option String

pub record SopRef : Type 0 where
  pub source : SopRecord
  pub trigger_reason : String
  pub tokens_estimate : ℕ

-- s.replace("-", "_")
abbrev underscored : String → String
underscored s = translate "-" "_" s

-- The arguments of `resolve`; `writable` tells whether the policy names artifact types to write.
pub record Node : Type 0 where
  pub agent_name : String
  pub node_name : String
  pub task_type : String
  pub output_artifact_type : String
  pub writable : Bool

module _ (max_primary_sops max_review_sops : ℕ) (node : Node) where
  -- `_matches_task_intake`
  unfoldable pub matches_task_intake : Bool
  matches_task_intake =
      let searchable =
        underscored (lower (node.agent_name <> " " <> node.node_name <> " " <> node.task_type)) in
      contains "task_intake" searchable
      || (contains "double_check" searchable
          || (contains "confirmation" searchable || contains "taskintakeparser" searchable))

  -- `_estimate_ref_tokens`
  unfoldable pub estimate_ref_tokens : SopRecord → ℕ
  estimate_ref_tokens r = max 1 (
      text_length
        (r.sop_id <> " " <> r.title <> " " <> r.scope <> " " <> r.summary <> " " <> r.content_ref)
      / 4)

  sop_ref : SopRecord → String → SopRef
  unfolding estimate_ref_tokens
  sop_ref r reason = record {
    source = r;
    trigger_reason = reason;
    tokens_estimate = estimate_ref_tokens r;
  }

  -- `_resolve_record`
  unfoldable pub resolve_record : SopRecord → Option SopRef
  unfolding matches_task_intake sop_ref
  resolve_record r =
      if str_eq r.scope "business.task_intake"
      then (if matches_task_intake
          then some (sop_ref r "matched task intake or double-check node")
          else none)
      else if str_eq r.scope "review.artifact_quality"
      then (if str_eq node.output_artifact_type "" && not node.writable
          then none
          else some (sop_ref r "matched artifact-producing agent node"))
      else some (sop_ref r ("matched registry scope " <> r.scope))

  unfoldable pub add_below : ℕ → SopRef → List SopRef → List SopRef
  add_below limit ref refs = if ltb (length refs) limit then refs ++ ref ∷ [] else refs

  -- One turn of the loop, on the primary and the review references so far
  unfoldable pub add_record :
      SopRecord → Option SopRef → List SopRef × List SopRef → List SopRef × List SopRef
  unfolding add_below
  add_record r none (primary, review) = (primary, review)
  add_record r (some ref) (primary, review) =
      if starts_with "review." r.scope
      then (primary, add_below max_review_sops ref review)
      else (add_below max_primary_sops ref primary, review)

  unfoldable pub resolve_all :
      List SopRecord → List SopRef × List SopRef → List SopRef × List SopRef
  unfolding add_record resolve_record
  resolve_all [] refs = refs
  resolve_all (r ∷ records) refs = resolve_all records (add_record r (resolve_record r) refs)

  unfoldable pub resolve : List SopRecord → List SopRef
  unfolding resolve_all
  resolve records = let (primary, review) = resolve_all records ([], []) in primary ++ review
