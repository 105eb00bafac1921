-- ===== src/Tx.antt =====
-- The code's exceptions as values, and the actions of a service on its database session.
-- A session keeps what was written before an exception, until the transaction is rolled back.
pub mod Keeps
pub mod Passes
use headhunt_agent.Prelude.{
  Bool, true, false, Option, none, some, ◌⊎◌, inl, ◌∷◌, [], ◌≡◌, if◌then◌else◌, inr, refl, all,
}

-- The exception classes of the modelled code. A message is kept where the code stores it.
pub data Error : Type 0 where
  key_error value_error : Error
  unique_violation foreign_key_violation : Error
  outbox_payload_conflict : Error
  approval_not_found approval_conflict : Error
  action_execution : Error
  task_authorization_conflict : Error
  invalid_human_approval duplicate_card_action duplicate_event : Error
  bitable_client_token_conflict bitable_action_not_approved : Error
  model_profile_not_found model_profile_access : Error
  memory_policy base_url_safety multiple_results : Error
  runtime_not_ready content_access_denied : Error

pub data Result (A : Type 0) : Type 0 where
  ok : A → Result A
  raise : Error → Result A

-- An action on a session with state `S`.
abbrev pub Tx : Type 0 → Type 0 → Type 0
Tx S A = S → Result A × S

module _ {S A : Type 0} where
  unfoldable pub pure : A → Tx S A
  pure a s = (ok a, s)

  unfoldable pub throw : Error → Tx S A
  throw e s = (raise e, s)

  unfoldable pub lift : Result A → Tx S A
  lift r s = (r, s)

  unfoldable pub gets : (S → A) → Tx S A
  gets f s = (ok (f s), s)

  -- A row that has to be there.
  unfoldable pub require : Option A → Error → Tx S A
  require none e s = (raise e, s)
  require (some a) e s = (ok a, s)

module _ {S : Type 0} where
  unfoldable pub modify : (S → S) → Tx S (Unit {0})
  modify f s = (ok tt, f s)

  unfoldable pub guard : Bool → Error → Tx S (Unit {0})
  guard true e s = (ok tt, s)
  guard false e s = (raise e, s)

module _ {S A B : Type 0} where
  abbrev pub and_then : Result A → (A → Tx S B) → Tx S B
  and_then (ok a) f s = f a s
  and_then (raise e) f s = (raise e, s)

  infixl 5 ◌>>=◌ ◌>>◌
  -- To open this is to open the actions above too.
  unfoldable pub ◌>>=◌ : Tx S A → (A → Tx S B) → Tx S B
  unfolding pure throw lift gets require modify guard
  ◌>>=◌ m f s = let (r, s') = m s in and_then r f s'

  abbrev pub ◌>>◌ : Tx S A → Tx S B → Tx S B
  m >> n = m >>= λ _. n

abbrev pub rethrow : {A : Type 0} → (Error → Error) → Result A → Result A
rethrow f (ok a) = ok a
rethrow f (raise e) = raise (f e)

module _ {S A : Type 0} where
  abbrev pub restore : S → Result A → S → Result A × S
  restore before (ok a) s = (ok a, s)
  restore before (raise e) s = (raise e, before)

  -- `with session.begin():` commits, or rolls all back when an exception leaves the block.
  unfoldable pub transaction : Tx S A → Tx S A
  transaction m s = let (r, s') = m s in restore s r s'

  -- `except E as exc: raise F from exc`, for each exception that `f` changes.
  unfoldable pub map_error : (Error → Error) → Tx S A → Tx S A
  map_error f m s = let (r, s') = m s in (rethrow f r, s')

-- To split on what an action did, and keep the equation.
pub outcome_cases :
    {S A : Type 0} (out : Result A × S)
    → ((a : A) × (s : S) × (out ≡ (ok a, s))) ⊎ ((e : Error) × (s : S) × (out ≡ (raise e, s)))
outcome_cases (ok a, s) = inl (a, s, refl)
outcome_cases (raise e, s) = inr (e, s, refl)
