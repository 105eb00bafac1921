-- ===== src/Executor/Gate.antt =====
-- Which approvals reach the Bitable queue, and what the database holds then.
use headhunt_agent.Prelude.{
  Bool, true, false, Option, none, some, ◌≡◌, ◌≢◌, refl, str_eq, subst, sym,
}
use headhunt_agent.Tx.{pure, ok, ◌>>=◌, ◌>>◌, guard, action_execution, Error}
use headhunt_agent.Tx.Passes.{guard_passed, bind_holds, kept_after}
use headhunt_agent.Value.{Fields, get, str}
use headhunt_agent.Codec.{Codec}
use headhunt_agent.Storage.Models.{Database, ProposalStatus, ActionProposal}
use headhunt_agent.Executor.{
  execute, execute_checked, execute_pending, execute_unless_handled, check_approval, may_write,
  already, Checked, ActionExecutionResult, ExecutionStatus, queue_write,
}
use headhunt_agent.Executor.Payload.{BitableSettings}
use headhunt_agent.Storage.Tables.{Session}
use headhunt_agent.Executor.Checks.{IsFor, checks_passed, check_reads}
use headhunt_agent.Executor.Queueing.{IsApproved, Decides, may_write-Decides, written}

already-ne-queued : (s : ProposalStatus) → already s ≢ some ExecutionStatus.queued
unfolding already
already-ne-queued ProposalStatus.pending e = cc
already-ne-queued ProposalStatus.approved e = cc
already-ne-queued ProposalStatus.rejected e = cc
already-ne-queued ProposalStatus.executed e = cc

module _ (c : Codec) (settings : BitableSettings) (approval : Fields) (db : Database) where
  -- The approval is for a pending proposal, which it approves or edits, and which is approved now.
  pub record IsAllowed (r : ActionExecutionResult) (after : Database) : Type 0 where
    pub proposal : ActionProposal
    pub is_for : IsFor c approval db proposal
    pub was_pending : proposal.status ≡ ProposalStatus.pending
    pub decides : Decides approval
    pub is_approved : IsApproved c proposal r after

  -- A result with the status queued is allowed.
  abbrev Fair : ActionExecutionResult → Database → Type 0
  Fair r after = r.status ≡ ExecutionStatus.queued → IsAllowed r after

  rejected_status :
      (checked : Checked) (s : Database) (r : ActionExecutionResult)
      → (execute_pending c settings approval checked true s).0 ≡ ok r
      → r.status ≡ ExecutionStatus.rejected
  unfolding execute_pending ◌>>=◌
  rejected_status checked s r k = cc

  guard_result :
      {B : Type 0} (test : Bool) (e : Error) (rest : Session B)
      → test ≡ true
      → (guard test e >> rest) db ≡ rest db
  unfolding ◌>>=◌ guard
  guard_result test e rest h = rw h refl

  pending_case :
      (checked : Checked) (r : ActionExecutionResult)
      → IsFor c approval db checked.proposal
      → get "decision" approval ≡ str checked.decision
      → checked.proposal.status ≡ ProposalStatus.pending
      → (b : Bool) → (execute_pending c settings approval checked b db).0 ≡ ok r
      → Fair r (execute_pending c settings approval checked b db).1
  unfolding execute_pending
  pending_case checked r is_for decision e true k queued_status =
      absurd (cc (queued_status, rejected_status checked db r k))
  pending_case checked r is_for decision e false k queued_status =
      let (writes, k') = guard_passed _ _ _ db k in
      record {
        proposal = checked.proposal;
        is_for = is_for;
        was_pending = e;
        decides = may_write-Decides c approval checked.decision decision writes;
        is_approved =
            subst (λ out. IsApproved c checked.proposal r out.1)
              (sym (
                guard_result (may_write c approval checked.decision) action_execution
                  (queue_write c settings checked approval) writes))
              (written c settings approval checked db r is_for.stored k');
      }

  already-pending : (s : ProposalStatus) → already s ≡ none → s ≡ ProposalStatus.pending
  unfolding already
  already-pending ProposalStatus.pending e = refl
  already-pending ProposalStatus.approved e = absurd (cc (e))
  already-pending ProposalStatus.rejected e = absurd (cc (e))
  already-pending ProposalStatus.executed e = absurd (cc (e))

  unless_handled_case :
      (checked : Checked) (r : ActionExecutionResult)
      → IsFor c approval db checked.proposal
      → get "decision" approval ≡ str checked.decision
      → (o : Option ExecutionStatus) → already checked.proposal.status ≡ o
      → (execute_unless_handled c settings approval checked o db).0 ≡ ok r
      → Fair r (execute_unless_handled c settings approval checked o db).1
  unfolding execute_unless_handled pure
  unless_handled_case checked r is_for decision (some status) e k queued_status =
      absurd (already-ne-queued checked.proposal.status (cc (e, queued_status, k)))
  unless_handled_case checked r is_for decision none e k queued_status =
      pending_case checked r is_for decision (already-pending checked.proposal.status e)
        (str_eq checked.decision "reject") k queued_status

  -- A result with the status queued comes only from an approval of a stored proposal that was
  -- pending: it names the proposal's id and thread, has its key, has its interrupt where it names
  -- one, and approves it or edits it with entries. Afterwards the proposal is approved, and the write
  -- is in the outbox under the proposal's key and id, with the answered reference.
  pub execute-IsAllowed :
      (r : ActionExecutionResult)
      → (execute c settings approval db).0 ≡ ok r
      → r.status ≡ ExecutionStatus.queued
      → IsAllowed r (execute c settings approval db).1
  unfolding execute execute_checked
  execute-IsAllowed r h =
      bind_holds Fair (check_approval c approval) (execute_checked c settings approval) db
        (λ checked s b e k.
          let (is_for, decision) = checks_passed c approval db checked s e in
          let same : s ≡ db =
            kept_after (check_approval c approval) db s checked (check_reads c approval db) e
              refl in
          subst
            (λ t.
              (execute_checked c settings approval checked t).0 ≡ ok b
              → Fair b (execute_checked c settings approval checked t).1)
            (sym same) (unless_handled_case checked b is_for decision _ refl) k)
        r h
