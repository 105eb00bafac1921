-- ===== src/Executor/Accepts.antt =====
-- The approvals that the executor's checks let through.
use headhunt_agent.Executor.{check_approval, required_uuid, uuid_of, parsed_uuid, fits_interrupt}
use headhunt_agent.Executor.Payload.{required_str}
use headhunt_agent.Prelude.{
  String, Bool, true, false, not, ◌||◌, some, ◌≡◌, ◌≢◌, refl, str_eq, str_eq-eq-false, eq_refl,
  ◌==◌, ℕ, arith,
}
use headhunt_agent.Tx.{ok, ◌>>=◌, require}
use headhunt_agent.Value.{Value, Fields, get, str, truthy}
use headhunt_agent.Value.Dicts.{text_of-str}
use headhunt_agent.Codec.{Codec, text_form}
use headhunt_agent.Storage.Models.{ActionProposal, Uuid, Database}
use headhunt_agent.Storage.Tables.{get_proposal}

str_passes :
    (payload : Fields) (key s : String) (db : Database)
    → get key payload ≡ str s
    → s ≢ ""
    → required_str payload key db ≡ (ok s, db)
unfolding required_str require
str_passes payload key s db e h = rw e (rw (text_of-str s h) refl)

module _ (c : Codec) where
  uuid_passes :
      (payload : Fields) (key : String) (u : Uuid) (db : Database)
      → get key payload ≡ str (c.uuid_text u)
      → c.uuid_text u ≢ ""
      → c.parse_uuid (c.uuid_text u) ≡ some u
      → required_uuid c payload key db ≡ (ok u, db)
  unfolding required_uuid uuid_of parsed_uuid require
  uuid_passes payload key u db e h read = rw e (rw (str_eq-eq-false h) (rw read refl))

  same_interrupt :
      (p : ActionProposal) (v : Value)
      → v ≡ str (c.uuid_text p.interrupt_id)
      → fits_interrupt c p v ≡ true
  unfolding fits_interrupt text_form truthy
  same_interrupt p v e =
      rw e (
        rw (eq_refl (c.uuid_text p.interrupt_id))
          (or_true (str_eq (c.uuid_text p.interrupt_id) "")))
    where
      or_true : (b : Bool) → (not (not b) || true) ≡ true
      or_true true = refl
      or_true false = refl

  -- An approval with the ids, the interrupt and the key of a proposal in the database
  pub check_passes :
      (approval : Fields) (p : ActionProposal) (d : String) (db : Database)
      → get "action_id" approval ≡ str (c.uuid_text p.id)
      → get "thread_id" approval ≡ str (c.uuid_text p.thread_id)
      → get "interrupt_id" approval ≡ str (c.uuid_text p.interrupt_id)
      → get "idempotency_key" approval ≡ str p.idempotency_key
      → get "decision" approval ≡ str d
      → c.uuid_text p.id ≢ ""
      → c.uuid_text p.thread_id ≢ ""
      → p.idempotency_key ≢ ""
      → d ≢ ""
      → c.parse_uuid (c.uuid_text p.id) ≡ some p.id
      → c.parse_uuid (c.uuid_text p.thread_id) ≡ some p.thread_id
      → get_proposal p.id db ≡ some p
      → check_approval c approval db ≡ (ok (record { proposal = p; decision = d }), db)
  unfolding check_approval ◌>>=◌
  check_passes approval p d db action thread interrupt key decision a t k n read_a read_t found =
      rw (uuid_passes approval "action_id" p.id db action a read_a) (
        rw (uuid_passes approval "thread_id" p.thread_id db thread t read_t) (
          rw (str_passes approval "decision" d db decision n) (
            rw found (
              rw (same_id p.thread_id) (
                rw (same_interrupt p (get "interrupt_id" approval) interrupt) (
                  rw (str_passes approval "idempotency_key" p.idempotency_key db key k)
                    (rw (eq_refl p.idempotency_key) refl)))))))
    where
      same_id : (n : ℕ) → (n == n) ≡ true
      same_id n = ground arith
