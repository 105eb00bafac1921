-- ===== src/Samples/Memories.antt =====
-- A stored memory, searched, proposed and revoked.
use headhunt_agent.Samples.{codec}
use headhunt_agent.Prelude.{
  Bool, true, false, none, some, [], ◌∷◌, ◌≡◌, refl, find, All, length, ◌≤◌, List,
}
use headhunt_agent.Tx.{ok, raise, ◌>>=◌, foreign_key_violation}
use headhunt_agent.Value.{Value, str, null, field, end, get}
use headhunt_agent.Retention.{MemoryItem, MemoryStatus}
use headhunt_agent.Memory.{MemoryRef, select_refs}
use headhunt_agent.Memory.Search.{SearchFilters, is_visible, search}
use headhunt_agent.Memory.Retrieve.{MemoryStore, Retrieval, policy_pii_level, retrieve}
use headhunt_agent.Memory.Retrieve.Answers.{retrieve_bounds, retrieve-IsPermitted, IsPermitted}
use headhunt_agent.Memory.Updates.{revoke_update, propose_update, has_memory_id}
use headhunt_agent.Memory.Updates.Visible.{revoke_update-is_visible, propose_update_conflict}

abbrev case_memory : MemoryItem
case_memory = record {
  id = 1;
  scope = "CaseMemory";
  owner_agent = none;
  summary = "the calibration";
  content_ref = "ref:m1";
  embedding_ref = none;
  tenant_id = none;
  guild_id = some "g1";
  user_id = none;
  project_id = none;
  requisition_id = none;
  candidate_id = none;
  thread_id = none;
  pii_level = "low";
  confidence = 500;
  version = 1;
  status = MemoryStatus.active;
  metadata = null;
  created_at = some 0;
  updated_at = 0;
  expires_at = none;
}

abbrev store : MemoryStore
store = record { items = case_memory ∷ []; proposals = []; audits = []; next_uuid = 5; now = 7 }

abbrev contains : Value → Value → Bool
contains metadata wanted = true

abbrev request : Retrieval
request = record {
  agent_name = "scout";
  task_brief = "a search";
  memory_scopes = "CaseMemory" ∷ "RunMemory" ∷ [];
  filters = field "guild_id" (str "g1") end;
  now = none;
  top_k = 3;
  max_tokens = 100;
  policy = record {
    agent_name = none;
    allowed_memory_scopes = "CaseMemory" ∷ "RunMemory" ∷ [];
    max_memory_items = some 2;
    max_context_tokens = none;
    pii_access_level = some "low";
    max_pii_level = none;
  };
}

abbrev found : List MemoryRef
found =
    record {
      memory_id = 1;
      scope = "CaseMemory";
      summary = "the calibration";
      content_ref = "ref:m1";
      relevance_score = 600000;
      tokens_estimate = 3;
      pii_level = "low";
    }
    ∷ []

retrieved : (retrieve codec contains (λ brief row. some 400000) request store).0 ≡ ok found
unfolding retrieve ◌>>=◌ get select_refs search policy_pii_level
retrieved = refl

retrieve_bounds_example : (length found ≤ 2) × (3 ≤ 100)
retrieve_bounds_example =
    retrieve_bounds codec contains (λ brief row. some 400000) request store found retrieved

retrieve-IsPermitted_example :
    All
      (λ ref.
        (row : MemoryItem) × IsPermitted codec contains (λ brief row. some 400000) request store row
        × (ref.memory_id ≡ row.id)
        × (ref.scope ≡ row.scope))
      found
retrieve-IsPermitted_example =
    retrieve-IsPermitted codec contains (λ brief row. some 400000) request store found retrieved

revoked_now : (revoke_update codec 1 "r" "old" store).0 ≡ ok tt
unfolding revoke_update ◌>>=◌
revoked_now = refl

abbrev filters : SearchFilters
filters = record {
  allowed_scopes = "CaseMemory" ∷ [];
  max_pii_level = "low";
  agent_memory_owner = "";
  now = 7;
  filters = field "guild_id" (str "g1") end;
}

revoke_update-is_visible_example :
    (row : MemoryItem) × (find (has_memory_id 1) (revoke_update codec 1 "r" "old" store).1.items
      ≡ some row)
    × (is_visible contains filters row ≡ false)
revoke_update-is_visible_example =
    revoke_update-is_visible codec 1 "r" "old" store contains filters revoked_now

abbrev rewritten : MemoryItem
rewritten = record case_memory { id = 2; summary = "a new text" }

propose_update_conflict_example :
    (propose_update codec "scout" rewritten store).0 ≡ raise foreign_key_violation
propose_update_conflict_example =
    propose_update_conflict codec "scout" rewritten store refl refl refl
