-- ===== src/Memory/Retrieve.antt =====
-- app/memory/gateway.py: `PostgresMemoryGateway.retrieve`, with a database session. The embedding of a
-- query is in the parameter `distance`, and the gateway for it is taken to answer.
pub mod Answers
use headhunt_agent.Memory.{
  MemoryRef, intersect_scopes, scopes_allowed_by_filters, select_refs, Selection,
}
use headhunt_agent.Memory.Search.{SearchFilters, search}
use headhunt_agent.Retention.{MemoryItem}
use headhunt_agent.Prelude.{
  ℕ, ◌+◌, ◌*◌, max, min, String, Bool, true, false, ◌||◌, Option, List, [], ◌∷◌, ◌++◌,
  if◌then◌else◌, ◌==◌, or_text, or_default, map, some, none,
}
use headhunt_agent.Value.{Value, Fields}
use headhunt_agent.Codec.{Codec}
use headhunt_agent.Storage.Models.{Uuid, Datetime}
use headhunt_agent.Tx.{Tx, pure, gets, modify, ◌>>=◌, ◌>>◌}

pub data ReviewStatus : Type 0 where
  pending approved rejected : ReviewStatus

pub data ProposalType : Type 0 where
  create revoke : ProposalType

-- `MemoryUpdateProposal` of app/storage/models.py
pub record MemoryUpdateProposal : Type 0 where
  pub id : Uuid
  pub memory_id : Uuid
  pub proposal_type : ProposalType
  pub payload_ref : String
  pub status : ReviewStatus
  pub approver : Option Fields
  pub decision_reason : Option String
  pub decided_at : Option Datetime

-- `MemoryRetrievalAudit` of app/storage/models.py
pub record MemoryRetrievalAudit : Type 0 where
  pub agent_name : String
  pub task_brief_hash : String
  pub allowed_scopes : List String
  pub filters : Fields
  pub candidate_memory_ids : List String
  pub selected_memory_refs : List MemoryRef
  pub excluded_reason : List String
  pub token_estimate : ℕ

pub record MemoryStore : Type 0 where
  pub items : List MemoryItem
  pub proposals : List MemoryUpdateProposal
  pub audits : List MemoryRetrievalAudit
  pub next_uuid : Uuid
  pub now : Datetime

-- The keys of the policy dict that `retrieve` reads, none where the key is missing
pub record RetrievalPolicy : Type 0 where
  pub agent_name : Option String
  pub allowed_memory_scopes : List String
  pub max_memory_items : Option ℕ
  pub max_context_tokens : Option ℕ
  pub pii_access_level : Option String
  pub max_pii_level : Option String

-- `_policy_pii_level`
unfoldable pub policy_pii_level : RetrievalPolicy → String
policy_pii_level policy = or_text policy.pii_access_level (or_text policy.max_pii_level "none")

abbrev total_tokens : List MemoryRef → ℕ
total_tokens [] = 0
total_tokens (ref ∷ refs) = ref.tokens_estimate + total_tokens refs

abbrev pub is_nil : List String → Bool
is_nil [] = true
is_nil (x ∷ xs) = false

-- The arguments of `retrieve`; `now` is filters.get("now") or the clock.
pub record Retrieval : Type 0 where
  pub agent_name : String
  pub task_brief : String
  pub memory_scopes : List String
  pub filters : Fields
  pub now : Option Datetime
  pub top_k : ℕ
  pub max_tokens : ℕ
  pub policy : RetrievalPolicy

module _ (c : Codec) (json_contains : Value → Value → Bool)
    (distance : String → MemoryItem → Option ℕ) where
  unfoldable pub audit :
      Retrieval
      → List String
      → List MemoryRef
      → List MemoryRef
      → List String
      → MemoryStore
      → MemoryStore
  audit r allowed_scopes candidates selected excluded s = record s {
    audits =
        s.audits
        ++ (record {
          agent_name = r.agent_name;
          task_brief_hash = c.sha256 r.task_brief;
          allowed_scopes = allowed_scopes;
          filters = r.filters;
          candidate_memory_ids = map (λ ref. c.uuid_text ref.memory_id) candidates;
          selected_memory_refs = selected;
          excluded_reason = excluded;
          token_estimate = total_tokens selected;
        })
          ∷ [];
  }

  abbrev pub effective_top_k : Retrieval → ℕ
  effective_top_k r = min r.top_k (or_default r.policy.max_memory_items r.top_k)

  abbrev pub effective_max_tokens : Retrieval → ℕ
  effective_max_tokens r = min r.max_tokens (or_default r.policy.max_context_tokens r.max_tokens)

  abbrev pub search_filters : Retrieval → List String → Datetime → SearchFilters
  search_filters r scopes clock = record {
    allowed_scopes = scopes;
    max_pii_level = policy_pii_level r.policy;
    agent_memory_owner = or_text r.policy.agent_name r.agent_name;
    now = or_default r.now clock;
    filters = r.filters;
  }

  unfoldable pub found_refs : Retrieval → List String → MemoryStore → List MemoryRef
  found_refs r scopes s =
      search json_contains (distance r.task_brief) (search_filters r scopes s.now)
        (max (effective_top_k r * 3) (effective_top_k r)) s.items

  unfoldable pub chosen : Retrieval → List String → List MemoryRef → Selection
  chosen r scopes candidates =
      select_refs c.uuid_text scopes (policy_pii_level r.policy) (effective_top_k r)
        (effective_max_tokens r) candidates

  unfoldable pub answer_nothing :
      Retrieval → List String → List String → Tx MemoryStore (List MemoryRef)
  unfolding audit
  answer_nothing r scopes excluded = do modify (audit r scopes [] [] excluded); pure []

  unfoldable pub retrieve_within :
      Retrieval → List String → List String → Tx MemoryStore (List MemoryRef)
  unfolding audit found_refs chosen
  retrieve_within r scopes exclusions = do
    candidates ← gets (found_refs r scopes)
    modify (
        audit r scopes candidates (chosen r scopes candidates).selected
          (exclusions ++ (chosen r scopes candidates).excluded))
    pure (chosen r scopes candidates).selected

  unfoldable pub retrieve_scoped :
      Retrieval → List String → List String × List String → Tx MemoryStore (List MemoryRef)
  unfolding answer_nothing retrieve_within
  retrieve_scoped r allowed (scoped, exclusions) =
      if is_nil scoped
      then answer_nothing r allowed exclusions
      else retrieve_within r scoped exclusions

  unfoldable pub retrieve : Retrieval → Tx MemoryStore (List MemoryRef)
  unfolding retrieve_scoped answer_nothing intersect_scopes scopes_allowed_by_filters
  retrieve r =
      let allowed = intersect_scopes r.memory_scopes r.policy.allowed_memory_scopes in
      if is_nil allowed || (effective_top_k r == 0 || effective_max_tokens r == 0)
      then answer_nothing r allowed ("no_allowed_scope_or_budget" ∷ [])
      else retrieve_scoped r allowed (scopes_allowed_by_filters r.filters allowed)
