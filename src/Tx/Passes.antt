-- ===== src/Tx/Passes.antt =====
-- What a block that returned has passed: its guards held, and its rows were there.
use headhunt_agent.Prelude.{Bool, true, false, Option, none, some, ◌≡◌, refl, subst}
use headhunt_agent.Tx.{Error, ok, Tx, gets, require, guard, ◌>>=◌, Result, and_then, raise, pure}
use headhunt_agent.Tx.Keeps.{Keeps}

module _ {S A B : Type 0} where
  pub gets_passed :
      (g : S → A) (f : A → Tx S B) (s : S) {b : B}
      → ((gets g >>= f) s).0 ≡ ok b
      → (f (g s) s).0 ≡ ok b
  unfolding ◌>>=◌
  gets_passed g f s h = h

  pub require_passed :
      (o : Option A) (e : Error) (f : A → Tx S B) (s : S) {b : B}
      → ((require o e >>= f) s).0 ≡ ok b
      → (a : A) × (o ≡ some a) × ((f a s).0 ≡ ok b)
  unfolding ◌>>=◌
  require_passed none e f s h = absurd (cc)
  require_passed (some a) e f s h = (a, refl, h)

module _ {S B : Type 0} where
  pub guard_passed :
      (test : Bool) (e : Error) (rest : Unit {0} → Tx S B) (s : S) {b : B}
      → ((guard test e >>= rest) s).0 ≡ ok b
      → (test ≡ true) × ((rest tt s).0 ≡ ok b)
  unfolding ◌>>=◌
  guard_passed true e rest s h = (refl, h)
  guard_passed false e rest s h = absurd (cc)

module _ {S : Type 0} where
  pub guard_holds :
      (test : Bool) (e : Error) (s : S) {u : Unit {0}} → (guard test e s).0 ≡ ok u → test ≡ true
  unfolding guard
  guard_holds true e s h = refl
  guard_holds false e s h = absurd (cc)

module _ {S A B : Type 0} where
  pub bind_passed :
      (m : Tx S A) (f : A → Tx S B) (s : S) {b : B}
      → ((m >>= f) s).0 ≡ ok b
      → (a : A) × (s' : S) × (m s ≡ (ok a, s')) × ((f a s').0 ≡ ok b)
  unfolding ◌>>=◌
  bind_passed m f s {b} h = go (m s) refl h
    where
      go :
          (out : Result A × S)
          → m s ≡ out
          → (and_then out.0 f out.1).0 ≡ ok b
          → (a : A) × (s' : S) × (m s ≡ (ok a, s')) × ((f a s').0 ≡ ok b)
      go (ok a, s') e k = (a, s', e, k)
      go (raise x, s') e k = absurd (cc)

module _ {S A B : Type 0} where
  -- What holds of a block that returned, from what holds after its first action
  pub bind_holds :
      (P : B → S → Type 0) (m : Tx S A) (f : A → Tx S B) (s : S)
      → ((a : A) (s' : S) (b : B) → m s ≡ (ok a, s') → (f a s').0 ≡ ok b → P b (f a s').1)
      → (b : B) → ((m >>= f) s).0 ≡ ok b
      → P b ((m >>= f) s).1
  unfolding ◌>>=◌
  bind_holds P m f s step b h = go (m s) refl h
    where
      go :
          (out : Result A × S)
          → m s ≡ out
          → (and_then out.0 f out.1).0 ≡ ok b
          → P b (and_then out.0 f out.1).1
      go (ok a, s') e k = step a s' b e k
      go (raise x, s') e k = absurd (cc)

module _ {S A : Type 0} where
  -- What an action keeps holds after it.
  pub kept_after :
      {P : S → Type 0} (m : Tx S A) (s s' : S) (a : A) → Keeps P m → m s ≡ (ok a, s') → P s → P s'
  kept_after {P} m s s' a k e h = subst (λ out. P out.1) e (k.at s h)

module _ {S A : Type 0} where
  pub pure_passed : (a b : A) (s : S) → (pure a s).0 ≡ ok b → a ≡ b
  unfolding pure
  pure_passed a b s h = cc
