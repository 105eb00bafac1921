-- ===== src/Tx/Keeps.antt =====
-- Predicates on the session that an action keeps, whether it returns or raises: a rule for each
-- way to build an action.
use headhunt_agent.Prelude.{
  ◌≡◌, refl, Bool, true, false, Option, none, some, if◌then◌else◌, inr, inl, ◌⊎◌,
}
use headhunt_agent.Tx.{
  Error, Result, ok, raise, Tx, pure, throw, lift, gets, modify, ◌>>=◌, and_then, restore,
  transaction, map_error, guard, require,
}

restored :
    {S A : Type 0} (P : S → Type 0) (s : S) (out : Result A × S)
    → P s
    → P out.1
    → P (restore s out.0 out.1).1
restored P s (ok a, s') h k = k
restored P s (raise e, s') h k = h

pub record Keeps {S A : Type 0} (P : S → Type 0) (m : Tx S A) : Type 0 where
  pub at : (before : S) → P before → P (m before).1

module _ {S A : Type 0} {P : S → Type 0} where
  pub Keeps-throw : (error : Error) → Keeps P (throw {A = A} error)
  unfolding throw
  Keeps-throw error = record { at = λ db held. held }

  pub Keeps-pure : (value : A) → Keeps P (pure value)
  unfolding pure
  Keeps-pure value = record { at = λ db held. held }

  pub Keeps-require : (o : Option A) (e : Error) → Keeps P (require o e)
  unfolding require
  Keeps-require none e = record { at = λ s h. h }
  Keeps-require (some a) e = record { at = λ s h. h }

  pub Keeps-lift : (given : Result A) → Keeps P (lift given)
  unfolding lift
  Keeps-lift given = record { at = λ db held. held }

  pub Keeps-if :
      (test : Bool) (first second : Tx S A)
      → (test ≡ true → Keeps P first)
      → (test ≡ false → Keeps P second)
      → Keeps P (if test then first else second)
  Keeps-if true first second keep_first keep_second = keep_first refl
  Keeps-if false first second keep_first keep_second = keep_second refl

  pub Keeps-gets : (read : S → A) → Keeps P (gets read)
  unfolding gets
  Keeps-gets read = record { at = λ s h. h }

  pub Keeps-transaction : (m : Tx S A) → Keeps P m → Keeps P (transaction m)
  unfolding transaction
  Keeps-transaction m km = record { at = λ s h. restored P s (m s) h (km.at s h) }

  pub Keeps-map_error : (f : Error → Error) (m : Tx S A) → Keeps P m → Keeps P (map_error f m)
  unfolding map_error
  Keeps-map_error f m km = record { at = km.at }

module _ {S : Type 0} {P : S → Type 0} where
  pub Keeps-modify : (f : S → S) → ((s : S) → P s → P (f s)) → Keeps P (modify f)
  unfolding modify
  Keeps-modify f kf = record { at = kf }

  pub Keeps-guard : (b : Bool) (e : Error) → Keeps P (guard b e)
  unfolding guard
  Keeps-guard true e = record { at = λ s h. h }
  Keeps-guard false e = record { at = λ s h. h }

module _ {S A B : Type 0} {P : S → Type 0} where
  kept :
      (f : A → Tx S B) (r : Result A) (s : S)
      → ((a : A) → Keeps P (f a))
      → P s
      → P (and_then r f s).1
  kept f (ok a) s kf h = (kf a).at s h
  kept f (raise e) s kf h = h

  pub Keeps-bind :
      (first : Tx S A) (next : A → Tx S B)
      → Keeps P first
      → ((value : A) → Keeps P (next value))
      → Keeps P (first >>= next)
  unfolding ◌>>=◌
  Keeps-bind first next keep_first keep_next = record {
    at = λ s h. let (r, s') = first s in kept next r s' keep_next (keep_first.at s h);
  }

pub ruleset keeps_rules = (
  Keeps-pure, Keeps-throw, Keeps-lift, Keeps-gets, Keeps-require, Keeps-if, Keeps-guard,
  Keeps-transaction, Keeps-map_error, Keeps-bind,
)

-- A transaction that raises has changed nothing.
pub transaction_atomic :
    {S A : Type 0} (m : Tx S A) (s : S) (e : Error)
    → (transaction m s).0 ≡ raise e
    → (transaction m s).1 ≡ s
unfolding transaction
transaction_atomic {S} {A} m s e h = go (m s) h
  where
    go : (out : Result A × S) → (restore s out.0 out.1).0 ≡ raise e → (restore s out.0 out.1).1 ≡ s
    go (ok a, s') q = cc
    go (raise d, s') q = refl

-- What an action that only reads has done: the state is as it was.
pub reading_cases :
    {S A : Type 0} (m : Tx S A) (s : S)
    → Keeps (λ t. t ≡ s) m
    → ((a : A) × (m s ≡ (ok a, s))) ⊎ ((e : Error) × (m s ≡ (raise e, s)))
reading_cases {S} {A} m s k = go (m s) (k.at s refl)
  where
    go :
        (out : Result A × S)
        → out.1 ≡ s
        → ((a : A) × (out ≡ (ok a, s))) ⊎ ((e : Error) × (out ≡ (raise e, s)))
    go (ok a, t) q = inl (a, rw q)
    go (raise e, t) q = inr (e, rw q)
