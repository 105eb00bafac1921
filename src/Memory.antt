-- ===== src/Memory.antt =====
-- app/memory/gateway.py: the scopes that a retrieval may use, and the choice among what the search
-- finds. A relevance is in millionths.
pub mod Search
pub mod Retrieve
pub mod Updates
pub mod Budget
pub mod Isolation
pub mod Visible
use headhunt_agent.Prelude.{
  ℕ, ◌+◌, String, Bool, true, false, not, ◌&&◌, ◌||◌, Option, none, some, List, [], ◌∷◌, ◌++◌,
  if◌then◌else◌, str_eq, ◌<>◌, any, length, leb, ltb,
}
use headhunt_agent.Value.{Value, Fields, get, truthy}
use headhunt_agent.Storage.Models.{Uuid}

-- `MemoryRef` of app/schemas/memory.py: what a search returns of a memory
pub record MemoryRef : Type 0 where
  pub memory_id : Uuid
  pub scope : String
  pub summary : String
  pub content_ref : String
  pub relevance_score : ℕ
  pub tokens_estimate : ℕ
  pub pii_level : String

-- value in values
abbrev pub is_in : String → List String → Bool
is_in value values = any (λ v. str_eq v value) values

-- `_intersect_scopes`
unfoldable pub intersect_scopes : List String → List String → List String
intersect_scopes [] allowed = []
intersect_scopes (scope ∷ requested) allowed =
    let rest = intersect_scopes requested allowed in
    if is_in scope allowed then scope ∷ rest else rest

-- LONG_TERM_SCOPE_FILTERS
abbrev pub long_term_scope_filters : List String
long_term_scope_filters =
    "tenant_id" ∷ "guild_id" ∷ "user_id" ∷ "project_id" ∷ "requisition_id" ∷ "candidate_id" ∷ []

abbrev pub has_long_term_boundary : Fields → Bool
has_long_term_boundary filters = any (λ key. truthy (get key filters)) long_term_scope_filters

module _ (filters : Fields) where
  -- Whether a scope has the filter that bounds it
  unfoldable pub is_bounded : String → Bool
  unfolding truthy
  is_bounded scope =
      if str_eq scope "RunMemory"
      then truthy (get "thread_id" filters)
      else has_long_term_boundary filters

  abbrev missing_filter : String → String
  missing_filter scope =
      if str_eq scope "RunMemory"
      then "RunMemory:missing_thread_id_scope_filter"
      else scope <> ":missing_tenant_or_business_scope_filter"

  -- `_scopes_allowed_by_filters`
  unfoldable pub scopes_allowed_by_filters : List String → List String × List String
  unfolding is_bounded
  scopes_allowed_by_filters [] = ([], [])
  scopes_allowed_by_filters (scope ∷ scopes) =
      let (scoped, excluded) = scopes_allowed_by_filters scopes in
      if is_bounded scope
      then (scope ∷ scoped, excluded)
      else (scoped, missing_filter scope ∷ excluded)

-- PII_ORDER.index(level)
unfoldable pub pii_rank : String → Option ℕ
pii_rank level =
    if str_eq level "none"
    then some 0
    else if str_eq level "low"
    then some 1
    else if str_eq level "medium"
    then some 2
    else if str_eq level "high"
    then some 3
    else none

abbrev pub rank_allowed : Option ℕ → Option ℕ → Bool → Bool
rank_allowed (some actual) (some most) is_none = leb actual most
rank_allowed _ _ is_none = is_none

-- `_pii_allowed`
unfoldable pub pii_allowed : String → String → Bool
unfolding pii_rank
pii_allowed actual max_pii_level =
    rank_allowed (pii_rank actual) (pii_rank max_pii_level) (str_eq actual "none")

-- The state of the loop of `_select_refs`
pub record Selection : Type 0 where
  pub selected : List MemoryRef
  pub excluded : List String
  pub seen : List String
  pub token_total : ℕ

abbrev pub no_selection : Selection
no_selection = record { selected = []; excluded = []; seen = []; token_total = 0 }

module _ (uuid_text : Uuid → String) (allowed_scopes : List String) (max_pii_level : String)
    (top_k max_tokens : ℕ) where
  abbrev exclude : MemoryRef → String → Selection → Selection
  exclude ref reason s = record s {
    excluded = s.excluded ++ (uuid_text ref.memory_id <> reason) ∷ [];
  }

  abbrev pub choose : MemoryRef → Selection → Selection
  choose ref s = record s {
    selected = s.selected ++ ref ∷ [];
    seen = ref.content_ref ∷ s.seen;
    token_total = s.token_total + ref.tokens_estimate;
  }

  -- One turn of the loop
  unfoldable pub consider : MemoryRef → Selection → Selection
  unfolding pii_allowed
  consider ref s =
      if not (is_in ref.scope allowed_scopes)
      then exclude ref ":scope_not_allowed" s
      else if not (pii_allowed ref.pii_level max_pii_level)
      then exclude ref ":pii_not_allowed" s
      else if is_in ref.content_ref s.seen
      then exclude ref ":duplicate" s
      else if ltb max_tokens (s.token_total + ref.tokens_estimate)
      then exclude ref ":token_budget_exceeded" s
      else choose ref s

  -- The loop stops once it has chosen enough, which only a choice can bring about.
  unfoldable pub select_loop : List MemoryRef → Selection → Selection
  unfolding consider
  select_loop [] s = s
  select_loop (ref ∷ refs) s =
      let next = consider ref s in
      let rest = select_loop refs next in
      if ltb (length s.selected) (length next.selected) && leb top_k (length next.selected)
      then next
      else rest

  -- sorted(candidates, key=relevance, reverse=True), which is stable
  unfoldable pub insert_ref : MemoryRef → List MemoryRef → List MemoryRef
  insert_ref ref [] = ref ∷ []
  insert_ref ref (other ∷ rest) =
      if ltb ref.relevance_score other.relevance_score
      then other ∷ insert_ref ref rest
      else ref ∷ other ∷ rest

  unfoldable pub by_relevance : List MemoryRef → List MemoryRef
  unfolding insert_ref
  by_relevance [] = []
  by_relevance (ref ∷ refs) = insert_ref ref (by_relevance refs)

  unfoldable pub select_refs : List MemoryRef → Selection
  unfolding select_loop by_relevance
  select_refs candidates = select_loop (by_relevance candidates) no_selection
