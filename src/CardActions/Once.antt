-- ===== src/CardActions/Once.antt =====
-- A card decides a proposal once.
use headhunt_agent.Prelude.{true, some, ◌≡◌, arith, eq_iff}
use headhunt_agent.Tx.{ok}
use headhunt_agent.Storage.Models.{Database, ActionProposal}
use headhunt_agent.Storage.Tables.{get_proposal}
use headhunt_agent.CardActions.{CardAction, record_action_and_enqueue_resume, is_open}
use headhunt_agent.Tx.Passes.{require_passed, gets_passed, guard_passed}

-- The proposal that the action names, waiting for a decision
pub record IsOpen (action : CardAction) (db : Database) : Type 0 where
  pub proposal : ActionProposal
  pub found : get_proposal action.action_id db ≡ some proposal
  pub same_thread : proposal.thread_id ≡ action.thread_id
  pub same_interrupt : proposal.interrupt_id ≡ action.interrupt_id
  pub same_key : proposal.idempotency_key ≡ action.idempotency_key
  pub is_pending : is_open proposal.status ≡ true

module _ (action : CardAction) (db : Database) where
  -- An action that is recorded was the decision on a pending proposal with the same thread,
  -- interrupt and key.
  pub record_action-IsOpen :
      (record_action_and_enqueue_resume action db).0 ≡ ok tt → IsOpen action db
  unfolding record_action_and_enqueue_resume
  record_action-IsOpen h =
      let (p, found, h1) = require_passed _ _ _ db (gets_passed _ _ db h) in
      let (thread, h2) = guard_passed _ _ _ db h1 in
      let (interrupt, h3) = guard_passed _ _ _ db h2 in
      let (key, h4) = guard_passed _ _ _ db h3 in
      let (waiting, h5) = guard_passed _ _ _ db h4 in
      record {
        proposal = p;
        found = found;
        same_thread = ground arith;
        same_interrupt = ground arith;
        same_key = (eq_iff p.idempotency_key action.idempotency_key).0 key;
        is_pending = waiting;
      }
