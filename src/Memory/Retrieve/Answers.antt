-- ===== src/Memory/Retrieve/Answers.antt =====
-- What `retrieve` answers: within the policy's limits, and only memories that the caller may see.
use headhunt_agent.Memory.Retrieve.{
  MemoryStore, Retrieval, retrieve, retrieve_within, retrieve_scoped, answer_nothing, found_refs,
  chosen, search_filters, effective_top_k, effective_max_tokens, is_nil, policy_pii_level,
}
use headhunt_agent.Memory.{
  MemoryRef, is_in, is_bounded, intersect_scopes, scopes_allowed_by_filters,
}
use headhunt_agent.Memory.Search.{is_visible}
use headhunt_agent.Memory.Budget.{select_refs-IsWithin, total_tokens}
use headhunt_agent.Memory.Isolation.{search-All, select_refs-All}
use headhunt_agent.Retention.{MemoryItem}
use headhunt_agent.Prelude.{
  ℕ, ◌≤◌, ◌<◌, ◌==◌, ◌≡◌, refl, String, Bool, true, false, ◌||◌, Option, List, [], ◌∷◌, length,
  arith, Bool-cases, inl, inr, All, All-of_Has, All-mono, Has, or_text, or_default, All-Has,
}
use headhunt_agent.Value.{Value}
use headhunt_agent.Codec.{Codec}
use headhunt_agent.Tx.{ok, ◌>>=◌}
use headhunt_agent.Memory.Visible.{
  IsBounded, is_visible-IsOpenTo, is_in-Has, IsOpenTo, is_bounded-IsBounded,
}

-- The scope was asked for, the policy allows it, and the filters bound it.
pub record IsOpenScope (r : Retrieval) (scope : String) : Type 0 where
  pub requested : Has scope r.memory_scopes
  pub permitted : Has scope r.policy.allowed_memory_scopes
  pub bounded : IsBounded r.filters scope

intersected :
    (requested allowed : List String)
    → All
        (λ scope. Has scope requested × (is_in scope allowed ≡ true))
        (intersect_scopes requested allowed)
unfolding intersect_scopes
intersected [] allowed = tt
intersected (scope ∷ requested) allowed =
    let rest =
      All-mono (λ x. Has x requested × (is_in x allowed ≡ true))
        (λ x. Has x (scope ∷ requested) × (is_in x allowed ≡ true)) (λ x h. (inr h.0, h.1)) _
        (intersected requested allowed) in
    elim (Bool-cases (is_in scope allowed)) [
      | inl inside ↦ rw inside ((inl refl, inside), rest)
      | inr outside ↦ rw outside rest
    ]

scoped_open :
    (r : Retrieval) (scopes : List String)
    → All
        (λ scope. Has scope r.memory_scopes × (is_in scope r.policy.allowed_memory_scopes ≡ true))
        scopes
    → All (IsOpenScope r) (scopes_allowed_by_filters r.filters scopes).0
unfolding scopes_allowed_by_filters
scoped_open r [] h = tt
scoped_open r (scope ∷ scopes) h = elim (Bool-cases (is_bounded r.filters scope)) [
  | inl bounded ↦ rw bounded (
    record {
      requested = h.0.0;
      permitted = is_in-Has scope r.policy.allowed_memory_scopes h.0.1;
      bounded = is_bounded-IsBounded r.filters scope bounded;
    },
    scoped_open r scopes h.1,
  )
  | inr unbounded ↦ rw unbounded (scoped_open r scopes h.1)
]

module _ (c : Codec) (json_contains : Value → Value → Bool)
    (distance : String → MemoryItem → Option ℕ) (r : Retrieval) (s : MemoryStore) where
  -- A retrieval answers with nothing, or with a selection of open scopes.
  pub data Answering (refs : List MemoryRef) : Type 0 where
    nothing : refs ≡ [] → Answering refs
    selected :
        (scopes : List String)
        → All (IsOpenScope r) scopes
        → 0 < effective_top_k c json_contains distance r
        → refs
          ≡ (chosen c json_contains distance r scopes
              (found_refs c json_contains distance r scopes s)).selected
        → Answering refs

  answer_nothing_lem :
      (allowed excluded : List String) {refs : List MemoryRef}
      → (answer_nothing c json_contains distance r allowed excluded s).0 ≡ ok refs
      → refs ≡ []
  unfolding answer_nothing ◌>>=◌
  answer_nothing_lem allowed excluded h = cc

  within_lem :
      (scopes exclusions : List String) {refs : List MemoryRef}
      → (retrieve_within c json_contains distance r scopes exclusions s).0 ≡ ok refs
      → refs
        ≡ (chosen c json_contains distance r scopes
            (found_refs c json_contains distance r scopes s)).selected
  unfolding retrieve_within ◌>>=◌
  within_lem scopes exclusions h = cc

  scoped_cases :
      (allowed scopes exclusions : List String) (refs : List MemoryRef)
      → All (IsOpenScope r) scopes
      → 0 < effective_top_k c json_contains distance r
      → (retrieve_scoped c json_contains distance r allowed (scopes, exclusions) s).0 ≡ ok refs
      → Answering refs
  unfolding retrieve_scoped
  scoped_cases allowed [] exclusions refs all_open some_room h =
      nothing (answer_nothing_lem allowed exclusions h)
  scoped_cases allowed (scope ∷ scopes) exclusions refs all_open some_room h =
      selected (scope ∷ scopes) all_open some_room (within_lem (scope ∷ scopes) exclusions h)

  pub retrieve_cases :
      (refs : List MemoryRef) → (retrieve c json_contains distance r s).0 ≡ ok refs → Answering refs
  unfolding retrieve
  retrieve_cases refs h =
      let allowed = intersect_scopes r.memory_scopes r.policy.allowed_memory_scopes in
      let k = effective_top_k c json_contains distance r in
      let m = effective_max_tokens c json_contains distance r in
      elim (Bool-cases (is_nil allowed || (k == 0 || m == 0))) [
        | inl closed ↦ nothing (answer_nothing_lem allowed _ (rw closed at h))
        | inr free ↦
            scoped_cases allowed _ _ refs
              (scoped_open r allowed (intersected r.memory_scopes r.policy.allowed_memory_scopes))
              (room (is_nil allowed) k m free) (rw free at h)
      ]
    where
      room : (b : Bool) (k m : ℕ) → (b || (k == 0 || m == 0)) ≡ false → 0 < k
      room b k m h = ground arith

  -- A retrieval returns no more references than the caller's and the policy's limits allow, and
  -- their token estimates sum to no more than both budgets.
  pub retrieve_bounds :
      (refs : List MemoryRef)
      → (retrieve c json_contains distance r s).0 ≡ ok refs
      → (length refs ≤ effective_top_k c json_contains distance r)
        × (total_tokens refs ≤ effective_max_tokens c json_contains distance r)
  unfolding chosen
  retrieve_bounds refs h = go (retrieve_cases refs h)
    where
      go :
          Answering refs
          → (length refs ≤ effective_top_k c json_contains distance r)
            × (total_tokens refs ≤ effective_max_tokens c json_contains distance r)
      go (nothing e) = rw e (omega arith, omega arith)
      go (selected scopes all_open some_room e) =
          let within =
            select_refs-IsWithin c.uuid_text scopes (policy_pii_level r.policy)
              (effective_top_k c json_contains distance r)
              (effective_max_tokens c json_contains distance r)
              (found_refs c json_contains distance r scopes s) some_room in
          rw e (within.count, omega (arith, within.total, within.tokens))

  -- A stored memory that the caller may see, of a scope that was requested, that the policy permits,
  -- and that the filters bound
  pub record IsPermitted (row : MemoryItem) : Type 0 where
    pub stored : Has row s.items
    pub scope : IsOpenScope r row.scope
    pub is_open :
        IsOpenTo r.filters
          (or_default r.now s.now)
          (or_text r.policy.agent_name r.agent_name)
          (policy_pii_level r.policy)
          row

  permits :
      (scopes : List String) (row : MemoryItem)
      → All (IsOpenScope r) scopes
      → Has row s.items
      → is_visible json_contains (search_filters c json_contains distance r scopes s.now) row ≡ true
      → IsPermitted row
  permits scopes row all_open stored visible =
      let (inside, is_open) = is_visible-IsOpenTo json_contains _ row visible in
      record {
        stored = stored;
        scope =
            All-Has (IsOpenScope r) row.scope scopes all_open (is_in-Has row.scope scopes inside);
        is_open = is_open;
      }

  -- Every reference that a retrieval returns is to a stored memory that is active and not expired,
  -- has no tenant, guild, user, project, requisition, candidate or thread other than the one of the
  -- filters, has personal data of an allowed level, and is no agent's memory of another agent. Its
  -- scope was requested, is permitted by the policy, and is bounded: RunMemory by a thread, and any
  -- other scope by one of the six owners.
  pub retrieve-IsPermitted :
      (refs : List MemoryRef)
      → (retrieve c json_contains distance r s).0 ≡ ok refs
      → All
          (λ ref.
            (row : MemoryItem) × IsPermitted row
            × (ref.memory_id ≡ row.id)
            × (ref.scope ≡ row.scope))
          refs
  unfolding chosen found_refs
  retrieve-IsPermitted refs h = go (retrieve_cases refs h)
    where
      go :
          Answering refs
          → All
              (λ ref.
                (row : MemoryItem) × IsPermitted row
                × (ref.memory_id ≡ row.id)
                × (ref.scope ≡ row.scope))
              refs
      go (nothing e) = rw e tt
      go (selected scopes all_open some_room e) =
          let f = search_filters c json_contains distance r scopes s.now in
          rw e (
            select_refs-All c.uuid_text scopes (policy_pii_level r.policy)
              (effective_top_k c json_contains distance r)
              (effective_max_tokens c json_contains distance r) _ _
              (search-All json_contains (distance r.task_brief) f IsPermitted _ s.items (
                All-of_Has _ s.items
                  (λ row stored visible. permits scopes row all_open stored visible))))
