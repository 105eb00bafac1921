-- ===== src/Memory/Search.antt =====
-- app/memory/vector_store.py: `PostgresVectorMemoryStore.search`. The distance of a memory's embedding
-- to the query, in millionths, is pgvector's; a memory without an embedding has none.
use headhunt_agent.Memory.{MemoryRef, is_in, pii_rank}
use headhunt_agent.Retention.{MemoryItem, MemoryStatus}
use headhunt_agent.Prelude.{
  ℕ, zero, suc, ◌-◌, ◌/◌, max, String, Bool, true, false, not, ◌&&◌, ◌||◌, Option, none, some, List,
  [], ◌∷◌, if◌then◌else◌, str_eq, ◌==◌, leb, ltb, map,
}
use headhunt_agent.Texts.{text_length}
use headhunt_agent.Value.{Value, Fields, get, str, int, uuid, null, dict}
use headhunt_agent.Storage.Models.{Datetime, Uuid}

-- The arguments of a search, as `retrieve` fills them in. `filters` has the boundaries, and the
-- optional filters owner_agent, min_confidence and metadata_contains.
pub record SearchFilters : Type 0 where
  pub allowed_scopes : List String
  pub max_pii_level : String
  pub agent_memory_owner : String
  pub now : Datetime
  pub filters : Fields

-- column == value or column IS NULL, and the second alone where there is no value
unfoldable pub fits_boundary : Value → Option String → Bool
fits_boundary null none = true
fits_boundary null (some column) = false
fits_boundary value none = true
fits_boundary (str s) (some column) = str_eq column s
fits_boundary _ (some column) = false

-- The thread of the filters is a UUID, as the harness passes it. What the driver does with a text
-- there is not modelled: it matches no thread.
unfoldable pub fits_thread : Value → String → Option Uuid → Bool
fits_thread null scope none = true
fits_thread null scope (some thread_id) = false
fits_thread (uuid u) scope (some thread_id) = thread_id == u
fits_thread value scope none = not (str_eq scope "RunMemory")
fits_thread _ scope (some thread_id) = false

-- `_apply_scope_boundary_filters`
unfoldable pub within_boundaries : Fields → MemoryItem → Bool
unfolding fits_boundary fits_thread
within_boundaries filters row =
    fits_boundary (get "tenant_id" filters) row.tenant_id
    && (fits_boundary (get "guild_id" filters) row.guild_id
        && (fits_boundary (get "user_id" filters) row.user_id
            && (fits_boundary (get "project_id" filters) row.project_id
                && (fits_boundary (get "requisition_id" filters) row.requisition_id
                    && (fits_boundary (get "candidate_id" filters) row.candidate_id
                        && fits_thread (get "thread_id" filters) row.scope row.thread_id)))))

-- The level is one of `_allowed_pii_levels`.
unfoldable pub pii_listed : String → String → Bool
unfolding pii_rank
pii_listed level max_pii_level = elim (pii_rank max_pii_level) [
  | none ↦ str_eq level "none"
  | some most ↦ elim (pii_rank level) [ none ↦ false | some rank ↦ leb rank most ]
]

abbrev pub is_live : Datetime → MemoryItem → Bool
is_live now row =
    elim row.status [ MemoryStatus.active ↦ true | _ ↦ false ]
    && elim row.expires_at [ none ↦ true | some t ↦ ltb now t ]

abbrev pub owned_by : String → Option String → Bool
owned_by owner none = true
owned_by owner (some agent) = str_eq agent owner

abbrev fits_owner : Value → Option String → Bool
fits_owner (str s) owner = str_eq s "" || owned_by s owner
fits_owner _ owner = true

-- A least confidence is in thousandths, as the column is; every row has a confidence.
abbrev fits_confidence : Value → ℕ → Bool
fits_confidence (int n) confidence = leb n confidence
fits_confidence _ confidence = true

module _ (json_contains : Value → Value → Bool) where
  abbrev fits_metadata : Value → Value → Bool
  fits_metadata (dict d) metadata = json_contains metadata (dict d)
  fits_metadata _ metadata = true

  -- The `where` of `build_memory_search_query`
  unfoldable pub is_visible : SearchFilters → MemoryItem → Bool
  unfolding within_boundaries pii_listed
  is_visible f row =
      is_live f.now row
      && (is_in row.scope f.allowed_scopes
          && (pii_listed row.pii_level f.max_pii_level
              && (within_boundaries f.filters row
                  && (fits_owner (get "owner_agent" f.filters) row.owner_agent
                      && ((str_eq f.agent_memory_owner ""
                            || not (str_eq row.scope "AgentMemory")
                            || owned_by f.agent_memory_owner row.owner_agent)
                          && (fits_confidence (get "min_confidence" f.filters) row.confidence
                              && fits_metadata (get "metadata_contains" f.filters)
                                  row.metadata))))))

  module _ (distance : MemoryItem → Option ℕ) where
    -- The visible rows that have an embedding, with their distances
    unfoldable pub hits : SearchFilters → List MemoryItem → List (MemoryItem × ℕ)
    unfolding is_visible
    hits f [] = []
    hits f (row ∷ rows) =
        let rest = hits f rows in
        if is_visible f row
        then elim (distance row) [ none ↦ rest | some d ↦ (row, d) ∷ rest ]
        else rest

    unfoldable pub insert_hit : MemoryItem × ℕ → List (MemoryItem × ℕ) → List (MemoryItem × ℕ)
    insert_hit hit [] = hit ∷ []
    insert_hit hit (other ∷ rest) =
        if ltb other.1 hit.1 then other ∷ insert_hit hit rest else hit ∷ other ∷ rest

    -- order_by(distance.asc())
    unfoldable pub nearest_first : List (MemoryItem × ℕ) → List (MemoryItem × ℕ)
    unfolding insert_hit
    nearest_first [] = []
    nearest_first (hit ∷ rest) = insert_hit hit (nearest_first rest)

    -- limit(top_k)
    abbrev pub limit : ℕ → List (MemoryItem × ℕ) → List (MemoryItem × ℕ)
    limit zero rows = []
    limit (suc n) [] = []
    limit (suc n) (row ∷ rows) = row ∷ limit n rows

    -- `_clamp_score` of 1.0 - distance, and `_estimate_tokens`
    abbrev pub memory_ref : MemoryItem × ℕ → MemoryRef
    memory_ref (row, d) = record {
      memory_id = row.id;
      scope = row.scope;
      summary = row.summary;
      content_ref = row.content_ref;
      relevance_score = 1000000 - d;
      tokens_estimate = max 1 (text_length row.summary / 4);
      pii_level = row.pii_level;
    }

    unfoldable pub search : SearchFilters → ℕ → List MemoryItem → List MemoryRef
    unfolding hits nearest_first
    search f top_k rows = map memory_ref (limit top_k (nearest_first (hits f rows)))
