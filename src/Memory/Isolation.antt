-- ===== src/Memory/Isolation.antt =====
-- Which memories a retrieval can return.
use headhunt_agent.Memory.{
  MemoryRef, Selection, consider, select_loop, select_refs, by_relevance, insert_ref,
}
use headhunt_agent.Memory.Search.{
  SearchFilters, search, hits, nearest_first, insert_hit, limit, memory_ref, is_visible,
}
use headhunt_agent.Memory.Budget.{Considered, considered, excluded, chosen as chosen_ref}
use headhunt_agent.Retention.{MemoryItem}
use headhunt_agent.Prelude.{
  ℕ, zero, suc, ◌≡◌, refl, String, Bool, true, ◌&&◌, Option, List, [], ◌∷◌, length, Bool-cases,
  Option-cases, inl, inr, ltb, leb, All, All-append, map,
}
use headhunt_agent.Value.{Value}
use headhunt_agent.Storage.Models.{Uuid}

module _ (json_contains : Value → Value → Bool) (distance : MemoryItem → Option ℕ)
    (f : SearchFilters) (P : MemoryItem → Type 0) where
  hits-All :
      (rows : List MemoryItem)
      → All (λ row. is_visible json_contains f row ≡ true → P row) rows
      → All (λ hit. P hit.0) (hits json_contains distance f rows)
  unfolding hits
  hits-All [] h = tt
  hits-All (row ∷ rows) h = elim (Bool-cases (is_visible json_contains f row)) [
    | inr hidden ↦ rw hidden (hits-All rows h.1)
    | inl visible ↦ elim (Option-cases (distance row)) [
      | inl none_there ↦ rw visible (rw none_there (hits-All rows h.1))
      | inr (d, there) ↦ rw visible (rw there (h.0 visible, hits-All rows h.1))
    ]
  ]

  insert_hit-All :
      (hit : MemoryItem × ℕ) (rest : List (MemoryItem × ℕ))
      → P hit.0
      → All (λ x. P x.0) rest
      → All (λ x. P x.0) (insert_hit json_contains distance hit rest)
  unfolding insert_hit
  insert_hit-All hit [] p h = (p, tt)
  insert_hit-All hit (other ∷ rest) p h = elim (Bool-cases (ltb other.1 hit.1)) [
    | inl after ↦ rw after (h.0, insert_hit-All hit rest p h.1)
    | inr before ↦ rw before (p, h)
  ]

  nearest_first-All :
      (rows : List (MemoryItem × ℕ))
      → All (λ x. P x.0) rows
      → All (λ x. P x.0) (nearest_first json_contains distance rows)
  unfolding nearest_first
  nearest_first-All [] h = tt
  nearest_first-All (hit ∷ rest) h = insert_hit-All hit _ h.0 (nearest_first-All rest h.1)

  limit-All :
      (n : ℕ) (rows : List (MemoryItem × ℕ))
      → All (λ x. P x.0) rows
      → All (λ x. P x.0) (limit json_contains distance n rows)
  limit-All zero rows h = tt
  limit-All (suc n) [] h = tt
  limit-All (suc n) (row ∷ rows) h = (h.0, limit-All n rows h.1)

  -- A reference to a row of which `P` holds
  abbrev pub RefersTo : MemoryRef → Type 0
  RefersTo ref = (row : MemoryItem) × P row × (ref.memory_id ≡ row.id) × (ref.scope ≡ row.scope)

  refs-All :
      (rows : List (MemoryItem × ℕ))
      → All (λ x. P x.0) rows
      → All RefersTo (map (memory_ref json_contains distance) rows)
  refs-All [] h = tt
  refs-All ((row, d) ∷ rows) h = ((row, h.0, refl, refl), refs-All rows h.1)

  pub search-All :
      (n : ℕ) (rows : List MemoryItem)
      → All (λ row. is_visible json_contains f row ≡ true → P row) rows
      → All RefersTo (search json_contains distance f n rows)
  unfolding search
  search-All n rows h = refs-All _ (limit-All n _ (nearest_first-All _ (hits-All rows h)))

module _ (uuid_text : Uuid → String) (allowed_scopes : List String) (max_pii_level : String)
    (top_k max_tokens : ℕ) (P : MemoryRef → Type 0) where
  insert_ref-All :
      (ref : MemoryRef) (rest : List MemoryRef)
      → P ref
      → All P rest
      → All P (insert_ref uuid_text allowed_scopes max_pii_level top_k max_tokens ref rest)
  unfolding insert_ref
  insert_ref-All ref [] p h = (p, tt)
  insert_ref-All ref (other ∷ rest) p h =
      elim (Bool-cases (ltb ref.relevance_score other.relevance_score)) [
        | inl after ↦ rw after (h.0, insert_ref-All ref rest p h.1)
        | inr before ↦ rw before (p, h)
      ]

  by_relevance-All :
      (refs : List MemoryRef)
      → All P refs
      → All P (by_relevance uuid_text allowed_scopes max_pii_level top_k max_tokens refs)
  unfolding by_relevance
  by_relevance-All [] h = tt
  by_relevance-All (ref ∷ refs) h = insert_ref-All ref _ h.0 (by_relevance-All refs h.1)

  considered-All :
      (ref : MemoryRef) (s next : Selection)
      → P ref
      → All P s.selected
      → Considered uuid_text allowed_scopes max_pii_level top_k max_tokens ref s next
      → All P next.selected
  considered-All ref s next p h (excluded same tokens) = rw same h
  considered-All ref s next p h (chosen_ref fits small e) =
      rw e (All-append P s.selected (ref ∷ []) h (p, tt))

  select_loop-All :
      (refs : List MemoryRef) (s : Selection)
      → All P refs
      → All P s.selected
      → All P (select_loop uuid_text allowed_scopes max_pii_level top_k max_tokens refs s).selected
  unfolding select_loop
  select_loop-All [] s hr hs = hs
  select_loop-All (ref ∷ refs) s hr hs =
      let turn = consider uuid_text allowed_scopes max_pii_level top_k max_tokens ref s in
      let kept =
        considered-All ref s turn hr.0 hs
          (considered uuid_text allowed_scopes max_pii_level top_k max_tokens ref s) in
      elim (Bool-cases
        (ltb (length s.selected) (length turn.selected) && leb top_k (length turn.selected))) [
          | inl enough ↦ rw enough kept
          | inr left ↦ rw left (select_loop-All refs turn hr.1 kept)
        ]

  pub select_refs-All :
      (candidates : List MemoryRef)
      → All P candidates
      → All P
          (select_refs uuid_text allowed_scopes max_pii_level top_k max_tokens candidates).selected
  unfolding select_refs
  select_refs-All candidates h = select_loop-All _ _ (by_relevance-All candidates h) tt
