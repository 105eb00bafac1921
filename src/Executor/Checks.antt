-- ===== src/Executor/Checks.antt =====
-- What the checks of `execute` ask of an approval.
use headhunt_agent.Prelude.{
  Bool, true, some, ◌≡◌, refl, str_eq, inl, ◌==◌, String, find_passes, arith, ◌⊎◌, ◌∙◌, Bool-cases,
  inr, subst, eq_iff, ap, sym, not, ◌||◌,
}
use headhunt_agent.Tx.{pure, ok, ◌>>=◌, value_error, action_execution}
use headhunt_agent.Tx.Passes.{guard_passed, require_passed, gets_passed}
use headhunt_agent.Value.{
  Fields, text_of, get, Value, str, truthy, uuid, bool, int, negative, list, dict, null,
}
use headhunt_agent.Codec.{Codec, text_form}
use headhunt_agent.Storage.Models.{Database, ActionProposal, Uuid}
use headhunt_agent.Executor.{
  check_approval, Checked, fits_interrupt, uuid_of, required_uuid, parsed_uuid,
}
use headhunt_agent.Executor.Payload.{required_str}
use headhunt_agent.Storage.Tables.{Session, get_proposal}
use headhunt_agent.Tx.Keeps.{Keeps, Keeps-pure, keeps_rules, Keeps-if, Keeps-throw, Keeps-require}

-- A value names an id: as a UUID or as its text.
abbrev pub Names : Codec → Value → Uuid → Type 0
Names c v u = (v ≡ uuid u) ⊎ ((s : String) × (v ≡ str s) × (c.parse_uuid s ≡ some u))

text_of-some : (v : Value) (s : String) → text_of v ≡ some s → v ≡ str s
unfolding text_of
text_of-some (str x) s h = elim (Bool-cases (str_eq x "")) [
  | inl empty ↦ absurd (cc (rw empty at h))
  | inr some_text ↦ cc (rw some_text at h)
]
text_of-some null s h = absurd (cc)
text_of-some (bool b) s h = absurd (cc)
text_of-some (int n) s h = absurd (cc)
text_of-some (negative n) s h = absurd (cc)
text_of-some (uuid u) s h = absurd (cc)
text_of-some (list xs) s h = absurd (cc)
text_of-some (dict d) s h = absurd (cc)

required_str_passed :
    {B : Type 0} (payload : Fields) (key : String) (f : String → Session B) (db : Database) {b : B}
    → ((required_str payload key >>= f) db).0 ≡ ok b
    → (s : String) × (get key payload ≡ str s) × ((f s db).0 ≡ ok b)
unfolding required_str
required_str_passed payload key f db h =
    let (s, found, k) = require_passed _ _ f db h in (s, text_of-some (get key payload) s found, k)

module _ (c : Codec) where
  uuid_of_passed :
      {B : Type 0} (v : Value) (f : Uuid → Session B) (db : Database) {b : B}
      → ((uuid_of c v >>= f) db).0 ≡ ok b
      → (u : Uuid) × Names c v u × ((f u db).0 ≡ ok b)
  unfolding uuid_of parsed_uuid ◌>>=◌
  uuid_of_passed (uuid u) f db h = (u, inl refl, h)
  uuid_of_passed (str s) f db h = elim (Bool-cases (str_eq s "")) [
    | inl empty ↦ absurd (cc (rw empty at h))
    | inr some_text ↦
        let (u, read, k) = require_passed (c.parse_uuid s) value_error f db (rw some_text at h) in
        (u, inr (s, refl, read), k)
  ]
  uuid_of_passed null f db h = absurd (cc)
  uuid_of_passed (bool b) f db h = absurd (cc)
  uuid_of_passed (int n) f db h = absurd (cc)
  uuid_of_passed (negative n) f db h = absurd (cc)
  uuid_of_passed (list xs) f db h = absurd (cc)
  uuid_of_passed (dict d) f db h = absurd (cc)

  required_uuid_passed :
      {B : Type 0} (payload : Fields) (key : String) (f : Uuid → Session B) (db : Database) {b : B}
      → ((required_uuid c payload key >>= f) db).0 ≡ ok b
      → (u : Uuid) × Names c (get key payload) u × ((f u db).0 ≡ ok b)
  unfolding required_uuid
  required_uuid_passed payload key f db h = uuid_of_passed (get key payload) f db h

module _ (c : Codec) (approval : Fields) (db : Database) where
  -- The approval is one of the proposal: by its ids, its key, and its interrupt where it names one.
  pub record IsFor (p : ActionProposal) : Type 0 where
    pub stored : get_proposal p.id db ≡ some p
    pub action : Names c (get "action_id" approval) p.id
    pub thread : Names c (get "thread_id" approval) p.thread_id
    pub key : get "idempotency_key" approval ≡ str p.idempotency_key
    pub interrupt :
        truthy (get "interrupt_id" approval) ≡ true
        → text_form c (get "interrupt_id" approval) ≡ c.uuid_text p.interrupt_id

  found_by_id : (u : Uuid) (p : ActionProposal) → get_proposal u db ≡ some p → p.id ≡ u
  unfolding get_proposal
  found_by_id u p found =
      let passes = find_passes (λ q. q.id == u) db.action_proposals p found in ground arith

  interrupt_fits :
      (p : ActionProposal) (v : Value)
      → fits_interrupt c p v ≡ true
      → truthy v ≡ true
      → text_form c v ≡ c.uuid_text p.interrupt_id
  unfolding fits_interrupt
  interrupt_fits p v h t = sym (
      (eq_iff (c.uuid_text p.interrupt_id) (text_form c v)).0
        (second (truthy v) (str_eq (c.uuid_text p.interrupt_id) (text_form c v)) h t))
    where
      second : (a b : Bool) → (not a || b) ≡ true → a ≡ true → b ≡ true
      second a b e f = ground arith

  fits_proposal :
      (action_id thread_id : Uuid) (key : String) (p : ActionProposal)
      → Names c (get "action_id" approval) action_id
      → Names c (get "thread_id" approval) thread_id
      → get_proposal action_id db ≡ some p
      → (p.thread_id == thread_id) ≡ true
      → fits_interrupt c p (get "interrupt_id" approval) ≡ true
      → get "idempotency_key" approval ≡ str key
      → str_eq p.idempotency_key key ≡ true
      → IsFor p
  fits_proposal action_id thread_id key p action thread found same_thread fits has_key same_key =
      let same_id : p.id ≡ action_id = found_by_id action_id p found in
      let same_thread_id : p.thread_id ≡ thread_id = ground arith in
      record {
        stored = subst (λ u. get_proposal u db ≡ some p) (sym same_id) found;
        action = subst (Names c (get "action_id" approval)) (sym same_id) action;
        thread = subst (Names c (get "thread_id" approval)) (sym same_thread_id) thread;
        key = has_key ∙ ap str (sym ((eq_iff p.idempotency_key key).0 same_key));
        interrupt = interrupt_fits p (get "interrupt_id" approval) fits;
      }

  -- What passed the checks
  pub checks_passed :
      (checked : Checked) (s : Database)
      → check_approval c approval db ≡ (ok checked, s)
      → IsFor checked.proposal × (get "decision" approval ≡ str checked.decision)
  unfolding check_approval pure
  checks_passed checked s h =
      let (action_id, action, h1) =
        required_uuid_passed c approval "action_id" _ db (ap (λ o. o.0) h) in
      let (thread_id, thread, h2) = required_uuid_passed c approval "thread_id" _ db h1 in
      let (decision, decides, h3) = required_str_passed approval "decision" _ db h2 in
      let (p, found, h4) = require_passed _ _ _ db (gets_passed _ _ db h3) in
      let (same_thread, h5) = guard_passed _ _ _ db h4 in
      let (fits, h6) = guard_passed _ _ _ db h5 in
      let (key, has_key, h7) = required_str_passed approval "idempotency_key" _ db h6 in
      let (same_key, h8) = guard_passed _ _ _ db h7 in
      let same : record { proposal = p; decision = decision } ≡ checked = cc (h8) in
      subst (λ x. IsFor x.proposal × (get "decision" approval ≡ str x.decision)) same
        (
          fits_proposal action_id thread_id key p action thread found same_thread fits has_key
              same_key,
          decides,
        )

  uuid_of_reads : (v : Value) → Keeps (λ t. t ≡ db) (uuid_of c v)
  unfolding uuid_of parsed_uuid
  uuid_of_reads (uuid u) = Keeps-pure u
  uuid_of_reads (str s) =
      Keeps-if (str_eq s "") _ _ (λ _. Keeps-throw action_execution) (λ _. Keeps-require _ _)
  uuid_of_reads null = Keeps-throw action_execution
  uuid_of_reads (bool b) = Keeps-throw action_execution
  uuid_of_reads (int n) = Keeps-throw action_execution
  uuid_of_reads (negative n) = Keeps-throw action_execution
  uuid_of_reads (list xs) = Keeps-throw action_execution
  uuid_of_reads (dict d) = Keeps-throw action_execution

  -- The checks change nothing.
  pub check_reads : Keeps (λ t. t ≡ db) (check_approval c approval)
  unfolding check_approval required_uuid required_str
  check_reads = search (keeps_rules, uuid_of_reads) depth 20
