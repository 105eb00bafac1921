-- ===== src/Executor/Writes.antt =====
-- What the executor and the check before a Bitable write (`ensure_action_approved` of
-- app/storage/repositories.py) say of one action.
use headhunt_agent.Prelude.{◌≡◌, false, Bool, refl, some, true}
use headhunt_agent.CardActions.{ensure_action_approved, is_approved}
use headhunt_agent.Executor.Gate.{execute-IsAllowed}
use headhunt_agent.Executor.{execute, ActionExecutionResult, ExecutionStatus}
use headhunt_agent.Tx.{guard, ◌>>=◌, ok, bitable_action_not_approved, raise}
use headhunt_agent.Codec.{Codec}
use headhunt_agent.Storage.Models.{Uuid, Database, ActionProposal, ProposalStatus}
use headhunt_agent.Executor.Payload.{BitableSettings}
use headhunt_agent.Value.{Fields}
use headhunt_agent.Storage.Tables.{get_proposal}

ensure_state :
    (action_id : Uuid) (db : Database) (p : ActionProposal) (b : Bool)
    → get_proposal action_id db ≡ some p
    → is_approved p.status ≡ b
    → ensure_action_approved action_id db ≡ guard b bitable_action_not_approved db
unfolding ensure_action_approved ◌>>=◌
ensure_state action_id db p b found e = rw found (rw e refl)

-- Where an execution queues a write, the check before the write refuses that action in the database
-- before the execution, and passes it in the one after; neither check changes anything.
pub execute-ensure_action_approved :
    (c : Codec) (settings : BitableSettings) (approval : Fields) (db : Database)
    (r : ActionExecutionResult)
    → (execute c settings approval db).0 ≡ ok r
    → r.status ≡ ExecutionStatus.queued
    → (ensure_action_approved r.action_id db ≡ (raise bitable_action_not_approved, db))
      × (ensure_action_approved r.action_id (execute c settings approval db).1
          ≡ (ok tt, (execute c settings approval db).1))
unfolding is_approved guard
execute-ensure_action_approved c settings approval db r h q =
    let allowed = execute-IsAllowed c settings approval db r h q in
    let p = allowed.proposal in
    let after = (execute c settings approval db).1 in
    rw allowed.is_approved.answer (
      ensure_state p.id db p false allowed.is_for.stored (rw allowed.was_pending refl),
      ensure_state p.id after (record p { status = ProposalStatus.approved }) true
          allowed.is_approved.marked refl,
    )
