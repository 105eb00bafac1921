-- ===== src/Memory/Budget.antt =====
-- What a retrieval may return at most.
use headhunt_agent.Memory.{
  MemoryRef, Selection, consider, choose, select_loop, select_refs, by_relevance, is_in,
  pii_allowed, no_selection,
}
use headhunt_agent.Prelude.{
  ℕ, ◌+◌, ◌≤◌, ◌<◌, ◌≡◌, refl, String, true, false, ◌&&◌, List, [], ◌∷◌, ◌++◌, length,
  length-append, arith, Bool-cases, inl, inr, leb, ltb, All, All-append, if◌then◌else◌,
}
use headhunt_agent.Storage.Models.{Uuid}

abbrev pub total_tokens : List MemoryRef → ℕ
total_tokens [] = 0
total_tokens (ref ∷ refs) = ref.tokens_estimate + total_tokens refs

total_tokens-append :
    (xs ys : List MemoryRef) → total_tokens (xs ++ ys) ≡ total_tokens xs + total_tokens ys
total_tokens-append [] ys = omega arith
total_tokens-append (x ∷ xs) ys = omega (arith, total_tokens-append xs ys)

module _ (uuid_text : Uuid → String) (allowed_scopes : List String) (max_pii_level : String)
    (top_k max_tokens : ℕ) where
  -- A reference of an allowed scope and level
  abbrev pub IsAllowed : MemoryRef → Type 0
  IsAllowed ref =
      (is_in ref.scope allowed_scopes ≡ true) × (pii_allowed ref.pii_level max_pii_level ≡ true)

  -- The selection is within its limits, and counts its tokens.
  pub record IsWithin (s : Selection) : Type 0 where
    pub count : length s.selected ≤ top_k
    pub tokens : s.token_total ≤ max_tokens
    pub total : total_tokens s.selected ≡ s.token_total
    pub allowed : All IsAllowed s.selected

  -- What a turn of the loop does
  pub data Considered (ref : MemoryRef) (s next : Selection) : Type 0 where
    excluded : next.selected ≡ s.selected → next.token_total ≡ s.token_total → Considered ref s next
    chosen :
        IsAllowed ref
        → s.token_total + ref.tokens_estimate ≤ max_tokens
        → next ≡ choose uuid_text allowed_scopes max_pii_level top_k max_tokens ref s
        → Considered ref s next

  pub considered :
      (ref : MemoryRef) (s : Selection)
      → Considered ref s (consider uuid_text allowed_scopes max_pii_level top_k max_tokens ref s)
  unfolding consider
  considered ref s = elim (Bool-cases (is_in ref.scope allowed_scopes)) [
    | inr out ↦ rw out (excluded refl refl)
    | inl scoped ↦ elim (Bool-cases (pii_allowed ref.pii_level max_pii_level)) [
      | inr high ↦ rw scoped (rw high (excluded refl refl))
      | inl low ↦ elim (Bool-cases (is_in ref.content_ref s.seen)) [
        | inl again ↦ rw scoped (rw low (rw again (excluded refl refl)))
        | inr fresh ↦ elim (Bool-cases (ltb max_tokens (s.token_total + ref.tokens_estimate))) [
          | inl over ↦ rw scoped (rw low (rw fresh (rw over (excluded refl refl))))
          | inr fits ↦
              rw scoped (rw low (rw fresh (rw fits (chosen (scoped, low) (ground arith) refl))))
        ]
      ]
    ]
  ]

  room_left : (a b : ℕ) → b ≡ a + 1 → (ltb a b && leb top_k b) ≡ false → b < top_k
  room_left a b e h = ground arith

  -- What is left of the loop after a turn
  turn-IsWithin :
      (ref : MemoryRef) (s next rest : Selection)
      → IsWithin s
      → length s.selected < top_k
      → (IsWithin next → length next.selected < top_k → IsWithin rest)
      → Considered ref s next
      → IsWithin (
          if ltb (length s.selected) (length next.selected) && leb top_k (length next.selected)
          then next
          else rest)
  turn-IsWithin ref s next rest h room go (excluded same tokens) =
      let stays : (ltb (length s.selected) (length next.selected)
            && leb top_k (length next.selected))
          ≡ false =
        rw same (ground arith) in
      rw stays (
        go
          (record {
            count = rw same h.count;
            tokens = rw tokens h.tokens;
            total = rw same (rw tokens h.total);
            allowed = rw same h.allowed;
          })
          (rw same room))
  turn-IsWithin ref s next rest h room go (chosen fits small e) =
      let more : length (s.selected ++ ref ∷ []) ≡ length s.selected + 1 =
        length-append s.selected (ref ∷ []) in
      let within : IsWithin next = rw e (record {
        count = omega (arith, more, room);
        tokens = small;
        total = omega (arith, total_tokens-append s.selected (ref ∷ []), h.total);
        allowed = All-append IsAllowed s.selected (ref ∷ []) h.allowed (fits, tt);
      }) in
      elim (Bool-cases
        (ltb (length s.selected) (length next.selected) && leb top_k (length next.selected))) [
          | inl enough ↦ rw enough within
          | inr left ↦
              let many : length next.selected ≡ length s.selected + 1 = rw e more in
              rw left (go within (room_left _ _ many left))
        ]

  loop-IsWithin :
      (refs : List MemoryRef) (s : Selection)
      → IsWithin s
      → length s.selected < top_k
      → IsWithin (select_loop uuid_text allowed_scopes max_pii_level top_k max_tokens refs s)
  unfolding select_loop
  loop-IsWithin [] s h room = h
  loop-IsWithin (ref ∷ refs) s h room =
      turn-IsWithin ref s (consider uuid_text allowed_scopes max_pii_level top_k max_tokens ref s)
        (select_loop uuid_text allowed_scopes max_pii_level top_k max_tokens refs
          (consider uuid_text allowed_scopes max_pii_level top_k max_tokens ref s))
        h room (loop-IsWithin refs _) (considered ref s)

  -- A selection has `top_k` references at most, whose token estimates sum to `max_tokens` at most,
  -- and each is of an allowed scope and personal-data level, if `top_k` is not 0.
  pub select_refs-IsWithin :
      (candidates : List MemoryRef)
      → 0 < top_k
      → IsWithin (select_refs uuid_text allowed_scopes max_pii_level top_k max_tokens candidates)
  unfolding select_refs
  select_refs-IsWithin candidates some_room =
      loop-IsWithin
        (by_relevance uuid_text allowed_scopes max_pii_level top_k max_tokens candidates)
        no_selection
        (record { count = omega arith; tokens = omega arith; total = refl; allowed = tt }) some_room
