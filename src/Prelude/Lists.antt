-- ===== src/Prelude/Lists.antt =====
-- Lists as the rows of a table: search, update, and predicates over all the rows.
use Prim.Native.Nat.{ℕ, suc, ◌+◌, ◌≤◌}
use mathlib.Core.Path.{◌≡◌, refl, subst, sym}
use mathlib.Core.Bool.{Bool, true, false, ◌||◌, ◌&&◌}
use mathlib.Core.Option.{Option, none, some, some-injective}
use mathlib.Core.List.{List, [], ◌∷◌, ◌++◌}
use native.Mathlib.Omega.{arith}
use mathlib.Core.Logic.{◌⊎◌, inl, inr}
use headhunt_agent.Prelude.Tests.{if◌then◌else◌, Bool-cases}

module _ {ℓ} {A : Type ℓ} where
  abbrev pub length : List A → ℕ
  length [] = 0
  length (x ∷ xs) = suc (length xs)

  -- The first row that passes the test, as a query with a limit of one returns it.
  abbrev pub find : (A → Bool) → List A → Option A
  find p [] = none
  find p (x ∷ xs) = if p x then some x else find p xs

  abbrev pub any : (A → Bool) → List A → Bool
  any p [] = false
  any p (x ∷ xs) = p x || any p xs

  abbrev pub all : (A → Bool) → List A → Bool
  all p [] = true
  all p (x ∷ xs) = p x && all p xs

  -- All rows that pass the test, in their order.
  abbrev pub select : (A → Bool) → List A → List A
  select p [] = []
  select p (x ∷ xs) = if p x then x ∷ select p xs else select p xs

  -- `update(...).where(p).values(f)`
  abbrev pub update_where : (A → Bool) → (A → A) → List A → List A
  update_where p f [] = []
  update_where p f (x ∷ xs) = (if p x then f x else x) ∷ update_where p f xs

  abbrev pub All {κ} : (A → Type κ) → List A → Type κ
  All P [] = Unit
  All P (x ∷ xs) = P x × All P xs

  pub length-append : (xs ys : List A) → length (xs ++ ys) ≡ length xs + length ys
  length-append [] ys = omega arith
  length-append (x ∷ xs) ys = omega (arith, length-append xs ys)

module _ {ℓ} {A : Type ℓ} (p : A → Bool) where
  pub length-update_where : (f : A → A) (xs : List A) → length (update_where p f xs) ≡ length xs
  length-update_where f [] = refl
  length-update_where f (x ∷ xs) = omega (arith, length-update_where f xs)

  -- What a search finds passes its test.
  pub find_passes : (xs : List A) (x : A) → find p xs ≡ some x → p x ≡ true
  find_passes [] x h = ground arith
  find_passes (y ∷ ys) x h = ground (arith, find_passes ys x)

  pub any-eq-false_of_find : (xs : List A) → find p xs ≡ none → any p xs ≡ false
  any-eq-false_of_find [] h = refl
  any-eq-false_of_find (y ∷ ys) h = ground (arith, any-eq-false_of_find ys)

  pub find-eq-none_of_any : (xs : List A) → any p xs ≡ false → find p xs ≡ none
  find-eq-none_of_any [] h = refl
  find-eq-none_of_any (y ∷ ys) h = ground (arith, find-eq-none_of_any ys)

  -- A row that is appended is found if no row before it is.
  pub find-append_new :
      (xs : List A) (x : A) → find p xs ≡ none → p x ≡ true → find p (xs ++ x ∷ []) ≡ some x
  find-append_new [] x h e = ground arith
  find-append_new (y ∷ ys) x h e = ground (arith, find-append_new ys x)

  -- A row that is found is found still after an insertion.
  pub find-append_old : (xs ys : List A) (x : A) → find p xs ≡ some x → find p (xs ++ ys) ≡ some x
  find-append_old [] ys x h = ground arith
  find-append_old (z ∷ zs) ys x h = ground (arith, find-append_old zs ys x)

  pub find-append_other : (xs : List A) (x : A) → p x ≡ false → find p (xs ++ x ∷ []) ≡ find p xs
  find-append_other [] x e = ground arith
  find-append_other (y ∷ ys) x e = ground (arith, find-append_other ys x)

module _ {ℓ κ} {A : Type ℓ} (P : A → Type κ) where
  pub All-append : (xs ys : List A) → All P xs → All P ys → All P (xs ++ ys)
  All-append [] ys hx hy = hy
  All-append (x ∷ xs) ys hx hy = (hx.0, All-append xs ys hx.1 hy)

  pub All-find : (p : A → Bool) (xs : List A) (x : A) → All P xs → find p xs ≡ some x → P x
  All-find p [] x h e = absurd (cc)
  All-find p (y ∷ ys) x h e = elim (Bool-cases (p y)) [
    | inl hit ↦ subst P (some-injective y x (rw hit at e)) h.0
    | inr miss ↦ All-find p ys x h.1 (rw miss at e)
  ]

module _ {ℓ κ μ} {A : Type ℓ} (P : A → Type κ) (Q : A → Type μ) where
  pub All-mono : ((x : A) → P x → Q x) → (xs : List A) → All P xs → All Q xs
  All-mono f [] h = tt
  All-mono f (x ∷ xs) h = (f x h.0, All-mono f xs h.1)

  pub All-update_where :
      (p : A → Bool) (f : A → A)
      → ((x : A) → P x → p x ≡ true → Q (f x))
      → ((x : A) → P x → p x ≡ false → Q x)
      → (xs : List A) → All P xs
      → All Q (update_where p f xs)
  All-update_where p f hit miss [] h = tt
  All-update_where p f hit miss (x ∷ xs) h = (row (p x) refl, All-update_where p f hit miss xs h.1)
    where
      row : (b : Bool) → p x ≡ b → Q (if b then f x else x)
      row true e = hit x h.0 e
      row false e = miss x h.0 e

-- The row stands in the table.
abbrev pub Has : {A : Type 0} → A → List A → Type 0
Has x [] = ⊥
Has x (y ∷ ys) = (x ≡ y) ⊎ Has x ys

pub All-Has {κ} : {A : Type 0} (P : A → Type κ) (x : A) (xs : List A) → All P xs → Has x xs → P x
All-Has P x [] h m = elim m [ ]
All-Has P x (y ∷ ys) h (inl e) = subst P (sym e) h.0
All-Has P x (y ∷ ys) h (inr m) = All-Has P x ys h.1 m

pub All-of_Has {κ} :
    {A : Type 0} (P : A → Type κ) (xs : List A) → ((x : A) → Has x xs → P x) → All P xs
All-of_Has P [] f = tt
All-of_Has P (x ∷ xs) f = (f x (inl refl), All-of_Has P xs (λ y m. f y (inr m)))

-- Two updates of the same rows are one.
pub update_where-update_where {ℓ} :
    {A : Type ℓ} (p : A → Bool) (f g : A → A)
    → ((x : A) → p (f x) ≡ p x)
    → (xs : List A) → update_where p g (update_where p f xs) ≡ update_where p (λ x. g (f x)) xs
update_where-update_where p f g keep [] = refl
update_where-update_where p f g keep (x ∷ xs) =
    ground (arith, keep x, update_where-update_where p f g keep xs)

-- How many rows pass the test
abbrev pub count_where {ℓ} : {A : Type ℓ} → (A → Bool) → List A → ℕ
count_where p [] = 0
count_where p (x ∷ xs) = if p x then suc (count_where p xs) else count_where p xs

-- A change of the row that a search finds
abbrev pub update_first {ℓ} : {A : Type ℓ} → (A → Bool) → (A → A) → List A → List A
update_first p f [] = []
update_first p f (x ∷ xs) = if p x then f x ∷ xs else x ∷ update_first p f xs

module _ {ℓ} {A : Type ℓ} where
  pub count_where-append :
      (p : A → Bool) (xs ys : List A)
      → count_where p (xs ++ ys) ≡ count_where p xs + count_where p ys
  count_where-append p [] ys = omega arith
  count_where-append p (x ∷ xs) ys = ground (arith, count_where-append p xs ys)

  -- A change that no row newly passes after
  pub count_where-update_where-le :
      (p q : A → Bool) (f : A → A)
      → ((x : A) → q x ≡ true → p (f x) ≡ true → p x ≡ true)
      → (xs : List A) → count_where p (update_where q f xs) ≤ count_where p xs
  count_where-update_where-le p q f keep [] = omega arith
  count_where-update_where-le p q f keep (x ∷ xs) =
      ground (arith, keep x, count_where-update_where-le p q f keep xs)

  pub count_where-update_where-zero :
      (p q : A → Bool) (f : A → A)
      → ((x : A) → q x ≡ true → p (f x) ≡ false)
      → ((x : A) → q x ≡ false → p x ≡ false)
      → (xs : List A) → count_where p (update_where q f xs) ≡ 0
  count_where-update_where-zero p q f hit miss [] = refl
  count_where-update_where-zero p q f hit miss (x ∷ xs) =
      ground (arith, hit x, miss x, count_where-update_where-zero p q f hit miss xs)

  pub count_where-update_first-le :
      (p q : A → Bool) (f : A → A)
      → ((x : A) → q x ≡ true → p (f x) ≡ true → p x ≡ true)
      → (xs : List A) → count_where p (update_first q f xs) ≤ count_where p xs
  count_where-update_first-le p q f keep [] = omega arith
  count_where-update_first-le p q f keep (x ∷ xs) =
      ground (arith, keep x, count_where-update_first-le p q f keep xs)

  -- One changed row adds one at most.
  pub count_where-update_first-suc :
      (p q : A → Bool) (f : A → A) (xs : List A)
      → count_where p (update_first q f xs) ≤ suc (count_where p xs)
  count_where-update_first-suc p q f [] = omega arith
  count_where-update_first-suc p q f (x ∷ xs) =
      ground (arith, count_where-update_first-suc p q f xs)

  pub find-update_first :
      (q : A → Bool) (f : A → A)
      → ((x : A) → q (f x) ≡ q x)
      → (xs : List A) (x : A) → find q xs ≡ some x
      → find q (update_first q f xs) ≡ some (f x)
  find-update_first q f keep [] x h = absurd (cc)
  find-update_first q f keep (y ∷ ys) x h = elim (Bool-cases (q y)) [
    | inl hit ↦ rw hit (rw (keep y) (rw hit (cc (rw hit at h))))
    | inr miss ↦ rw miss (rw miss (find-update_first q f keep ys x (rw miss at h)))
  ]

  -- The change of a row that newly passes for none
  pub count_where-update_first-found :
      (p q : A → Bool) (f : A → A) (xs : List A) (x : A)
      → find q xs ≡ some x
      → (p (f x) ≡ true → p x ≡ true)
      → count_where p (update_first q f xs) ≤ count_where p xs
  count_where-update_first-found p q f [] x h keep = absurd (cc)
  count_where-update_first-found p q f (y ∷ ys) x h keep = elim (Bool-cases (q y)) [
    | inl hit ↦
        let same = some-injective y x (rw hit at h) in
        rw hit (rw same (hit_case (p (f x)) (p x) keep))
    | inr miss ↦
        let rest = count_where-update_first-found p q f ys x (rw miss at h) keep in
        rw miss (ground (arith, rest))
  ]
    where
      hit_case :
          (a b : Bool)
          → (a ≡ true → b ≡ true)
          → (if a then suc (count_where p ys) else count_where p ys)
            ≤ (if b then suc (count_where p ys) else count_where p ys)
      hit_case a b keep = ground arith

  pub find-update_where :
      (q r : A → Bool) (f : A → A)
      → ((x : A) → q (f x) ≡ q x)
      → (xs : List A) (x : A) → find q xs ≡ some x
      → find q (update_where r f xs) ≡ some (if r x then f x else x)
  find-update_where q r f keep [] x h = absurd (cc)
  find-update_where q r f keep (y ∷ ys) x h =
      ground (arith, keep y, find-update_where q r f keep ys x)

  pub any-update_first :
      (p q : A → Bool) (f : A → A)
      → ((x : A) → p (f x) ≡ p x)
      → (xs : List A) → any p (update_first q f xs) ≡ any p xs
  any-update_first p q f keep [] = refl
  any-update_first p q f keep (y ∷ ys) = ground (arith, keep y, any-update_first p q f keep ys)
