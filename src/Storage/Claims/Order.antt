-- ===== src/Storage/Claims/Order.antt =====
-- Which item a claim takes: one that is due and free, with no such item before it.
use headhunt_agent.Storage.Claims.{
  next_candidate, lex, comes_before, is_candidate, earlier, expires_before,
}
use headhunt_agent.Prelude.{
  true, none, ◌∷◌, ◌≡◌, false, [], ℕ, arith, List, some, Bool, All, Option, inl, refl, Bool-cases,
  Has, inr,
}
use headhunt_agent.Storage.Models.{Uuid, FeishuOutbox}

-- One key of the order: where neither pair is out of order, the outer pair is not.
lex_step :
    (a b c : ℕ) (x y z : Bool)
    → lex b a x ≡ false
    → lex c b y ≡ false
    → (x ≡ false → y ≡ false → z ≡ false)
    → lex c a z ≡ false
unfolding lex
lex_step a b c x y z p q r = ground arith

lex_asym : (a b : ℕ) (x y : Bool) → lex a b x ≡ true → (x ≡ true → y ≡ false) → lex b a y ≡ false
unfolding lex
lex_asym a b x y p r = ground arith

expires_before_trans :
    (a b c : FeishuOutbox)
    → expires_before b a ≡ false
    → expires_before c b ≡ false
    → expires_before c a ≡ false
unfolding expires_before
expires_before_trans a b c p q =
    lex_step _ _ _ _ _ _ p q λ p' q'. lex_step _ _ _ _ _ _ p' q' λ u v. ground arith

comes_before_trans :
    (a b c : FeishuOutbox)
    → comes_before b a ≡ false
    → comes_before c b ≡ false
    → comes_before c a ≡ false
unfolding comes_before
comes_before_trans a b c p q =
    lex_step _ _ _ _ _ _ p q λ p' q'. lex_step _ _ _ _ _ _ p' q' (expires_before_trans a b c)

expires_before_asym : (a b : FeishuOutbox) → expires_before a b ≡ true → expires_before b a ≡ false
unfolding expires_before
expires_before_asym a b p = lex_asym _ _ _ _ p λ p'. lex_asym _ _ _ _ p' λ u. ground arith

comes_before_asym : (a b : FeishuOutbox) → comes_before a b ≡ true → comes_before b a ≡ false
unfolding comes_before
comes_before_asym a b p = lex_asym _ _ _ _ p λ p'. lex_asym _ _ _ _ p' (expires_before_asym a b)

lex_irrefl : (a : ℕ) (x : Bool) → x ≡ false → lex a a x ≡ false
unfolding lex
lex_irrefl a x p = ground arith

comes_before_irrefl : (a : FeishuOutbox) → comes_before a a ≡ false
unfolding comes_before expires_before
comes_before_irrefl a =
    lex_irrefl _ _ (lex_irrefl _ _ (lex_irrefl _ _ (lex_irrefl _ _ (ground arith))))

module _ (current_time : ℕ) (locked : Uuid → Bool) where
  -- No candidate in the list comes before the row.
  abbrev pub IsFirst : FeishuOutbox → List FeishuOutbox → Type 0
  IsFirst first =
      All (λ row. is_candidate current_time locked row ≡ true → comes_before row first ≡ false)

  -- What a query returns: nothing if there is no candidate, or a first one.
  abbrev pub Chosen : List FeishuOutbox → Option FeishuOutbox → Type 0
  Chosen rows none = All (λ row. is_candidate current_time locked row ≡ false) rows
  Chosen rows (some first) =
      Has first rows × (is_candidate current_time locked first ≡ true) × IsFirst first rows

  earlier-IsFirst :
      (row best : FeishuOutbox) (rows : List FeishuOutbox)
      → IsFirst best rows
      → comes_before best row ≡ false
      → IsFirst row rows
  earlier-IsFirst row best [] h p = tt
  earlier-IsFirst row best (x ∷ xs) h p =
      (λ c. comes_before_trans row best x p (h.0 c), earlier-IsFirst row best xs h.1 p)

  not_candidates :
      (row : FeishuOutbox) (rows : List FeishuOutbox)
      → All (λ r. is_candidate current_time locked r ≡ false) rows
      → IsFirst row rows
  not_candidates row [] h = tt
  not_candidates row (x ∷ xs) h = ((λ c. absurd (cc (c, h.0))), not_candidates row xs h.1)

  candidate_found :
      (row : FeishuOutbox) (rows : List FeishuOutbox) (best : Option FeishuOutbox)
      → is_candidate current_time locked row ≡ true
      → Chosen rows best
      → Chosen (row ∷ rows) (earlier row best)
  unfolding earlier
  candidate_found row rows none c h =
      (inl refl, c, ((λ _. comes_before_irrefl row), not_candidates row rows h))
  candidate_found row rows (some best) c (m, d, first) = elim (Bool-cases (comes_before best row)) [
    | inl wins ↦ rw wins (inr m, d, ((λ _. comes_before_asym best row wins), first))
    | inr loses ↦
        rw loses
          (inl refl, c, ((λ _. comes_before_irrefl row), earlier-IsFirst row best rows first loses))
  ]

  candidate_passed :
      (row : FeishuOutbox) (rows : List FeishuOutbox) (best : Option FeishuOutbox)
      → is_candidate current_time locked row ≡ false
      → Chosen rows best
      → Chosen (row ∷ rows) best
  candidate_passed row rows none c h = (c, h)
  candidate_passed row rows (some best) c (m, d, first) =
      (inr m, d, ((λ e. absurd (cc (c, e))), first))

  -- The query returns nothing exactly where no row is due and free; what it returns is a row of the
  -- table that is due and free, and no such row comes before it.
  pub next_candidate-Chosen :
      (rows : List FeishuOutbox) → Chosen rows (next_candidate current_time locked rows)
  unfolding next_candidate
  next_candidate-Chosen [] = tt
  next_candidate-Chosen (row ∷ rows) = elim (Bool-cases (is_candidate current_time locked row)) [
    | inl c ↦ rw c (candidate_found row rows _ c (next_candidate-Chosen rows))
    | inr c ↦ rw c (candidate_passed row rows _ c (next_candidate-Chosen rows))
  ]
