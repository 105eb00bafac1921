-- ===== src/Approvals/Submit/Contract.antt =====
-- What `submit_decision` promises: atomic, once for each proposal, and no business side effect.
use headhunt_agent.Approvals.Submit.Outcomes.{
  Decided, submit_decision_cases, with_approval, refused, handled, repeated, recorded, submit_again,
  submit_other, same_decision-eq-false,
}
use headhunt_agent.Prelude.{
  String, ◌≡◌, some, none, true, ◌≢◌, refl, eq_refl, find-append_new, subst, ◌∙◌, sym,
}
use headhunt_agent.Codec.{Codec, stable_hash}
use headhunt_agent.Storage.Models.{
  Uuid, ActionProposal, Database, HumanApproval, resume, ProposalStatus, edit,
}
use headhunt_agent.Approvals.{
  ApprovalDecisionRequest, existing_human_approval, ApprovalDecisionResponse, ResponseStatus,
  proposal_for_interrupt, is_pending, response, handled_status,
}
use headhunt_agent.Tx.{Result, ok, raise, approval_conflict}
use headhunt_agent.Approvals.Submit.{submit_decision, resume_key, new_approval}
use headhunt_agent.Storage.Writer.{enqueue_json}
use headhunt_agent.Storage.Writer.Once.{IsQueued, IsQueued-same, enqueue_json-IsQueued}
use headhunt_agent.Approvals.Payload.{build_resume_payload}
use headhunt_agent.Storage.Writer.Frame.{enqueue_json-SameTables}
use headhunt_agent.Storage.Tables.{has_approval_key}

handled_status-ne-queued : (s : ProposalStatus) → handled_status s ≢ ResponseStatus.queued
handled_status-ne-queued ProposalStatus.approved e = cc
handled_status-ne-queued _ e = cc

-- The decision on a proposal is recorded, and its resume item is queued under the reference.
pub record IsRecorded (c : Codec) (request : ApprovalDecisionRequest) (proposal : ActionProposal)
    (ref : String) (db : Database) : Type 0 where
  pub approval : HumanApproval
  pub approval_found : existing_human_approval proposal.idempotency_key db ≡ some approval
  pub decided_as : approval.decision ≡ request.decision
  pub is_queued :
      IsQueued
        (resume_key c proposal)
        (stable_hash c (build_resume_payload c proposal request))
        ref
        db

IsRecorded-after :
    (c : Codec) (request : ApprovalDecisionRequest) (db : Database) (proposal : ActionProposal)
    (ref : String) (db' : Database)
    → existing_human_approval proposal.idempotency_key db ≡ none
    → enqueue_json c resume
        (resume_key c proposal)
        (build_resume_payload c proposal request)
        (some proposal.thread_id)
        none
        db
      ≡ (ok ref, db')
    → IsRecorded c request proposal ref (with_approval (new_approval c proposal request ref) db')
unfolding existing_human_approval
IsRecorded-after c request db proposal ref db' absent queueing =
    let payload = build_resume_payload c proposal request in
    let key = resume_key c proposal in
    let kept = enqueue_json-SameTables c resume key payload (some proposal.thread_id) none db in
    record {
      approval = record (new_approval c proposal request ref) { id = db'.next_uuid };
      approval_found =
          find-append_new (has_approval_key proposal.idempotency_key) db'.human_approvals _
            (cc (kept.human_approvals, queueing, absent)) (eq_refl proposal.idempotency_key);
      decided_as = refl;
      is_queued =
          IsQueued-same (with_approval (new_approval c proposal request ref) db')
            (subst (λ out. IsQueued key (stable_hash c payload) ref out.1) queueing
              (enqueue_json-IsQueued c resume key payload (some proposal.thread_id) none db
                (cc queueing)))
            refl refl;
    }

proposals_kept :
    (c : Codec) (request : ApprovalDecisionRequest) (db : Database) (proposal : ActionProposal)
    (ref : String) (db' : Database)
    → enqueue_json c resume
        (resume_key c proposal)
        (build_resume_payload c proposal request)
        (some proposal.thread_id)
        none
        db
      ≡ (ok ref, db')
    → db'.action_proposals ≡ db.action_proposals
proposals_kept c request db proposal ref db' queueing =
    let kept =
      enqueue_json-SameTables c resume (resume_key c proposal)
        (build_resume_payload c proposal request) (some proposal.thread_id) none db in
    cc (kept.action_proposals, queueing)

-- `r` answers the first decision on the interrupt's latest proposal.
pub record FirstDecision (c : Codec) (interrupt_id : Uuid) (request : ApprovalDecisionRequest)
    (db : Database) (r : ApprovalDecisionResponse) (db' : Database) : Type 0 where
  pub proposal : ActionProposal
  pub ref : String
  pub found : proposal_for_interrupt interrupt_id db ≡ some proposal
  pub was_pending : is_pending proposal.status ≡ true
  pub was_open : existing_human_approval proposal.idempotency_key db ≡ none
  pub answer : r ≡ response proposal request.decision ResponseStatus.queued (some ref)
  pub is_recorded : IsRecorded c request proposal ref db'
  pub proposals : db'.action_proposals ≡ db.action_proposals

module _ (c : Codec) (interrupt_id : Uuid) (request : ApprovalDecisionRequest) where
  queued_case :
      (db : Database) (out : Result ApprovalDecisionResponse × Database)
      (r : ApprovalDecisionResponse)
      → Decided c interrupt_id request db out
      → out.0 ≡ ok r
      → r.status ≡ ResponseStatus.queued
      → FirstDecision c interrupt_id request db r out.1
  queued_case db out r (refused d q) h e = absurd (cc)
  queued_case db out r (handled p found closed q) h e =
      absurd (handled_status-ne-queued p.status (cc))
  queued_case db out r (repeated p x found waiting old agree q) h e = absurd (cc)
  queued_case db out r (recorded p ref db' found waiting absent queueing q) h e = record {
    proposal = p;
    ref = ref;
    found = found;
    was_pending = waiting;
    was_open = absent;
    answer = cc;
    is_recorded = rw q (IsRecorded-after c request db p ref db' absent queueing);
    proposals = rw q (proposals_kept c request db p ref db' queueing);
  }

  -- A submission answered as queued was the first one for a pending proposal. Afterwards its
  -- decision is recorded, and the resume payload is queued under `resume:<idempotency_key>`.
  pub submit_decision-FirstDecision :
      (db : Database) (r : ApprovalDecisionResponse)
      → (submit_decision c interrupt_id request db).0 ≡ ok r
      → r.status ≡ ResponseStatus.queued
      → FirstDecision c interrupt_id request db r (submit_decision c interrupt_id request db).1
  submit_decision-FirstDecision db r h e =
      queued_case db _ r (submit_decision_cases c interrupt_id request db) h e

-- A second decision on a proposal that is still pending writes nothing: it is answered as a
-- duplicate if it agrees with the first one and is no edit, and is a conflict if it differs.
pub submit_decision_once :
    (c : Codec) (interrupt_id : Uuid) (request request' : ApprovalDecisionRequest) (db : Database)
    (r : ApprovalDecisionResponse)
    → (submit_decision c interrupt_id request db).0 ≡ ok r
    → r.status ≡ ResponseStatus.queued
    → (request'.decision ≡ request.decision
        → request'.decision ≢ edit
        → submit_decision c interrupt_id request' (submit_decision c interrupt_id request db).1 ≡ (
          ok (record r { status = ResponseStatus.duplicate; outbox_payload_ref = none }),
          (submit_decision c interrupt_id request db).1,
        ))
      × (request'.decision ≢ request.decision
          → submit_decision c interrupt_id request' (submit_decision c interrupt_id request db).1
            ≡ (raise approval_conflict, (submit_decision c interrupt_id request db).1))
unfolding proposal_for_interrupt
submit_decision_once c interrupt_id request request' db r h e =
    let first = submit_decision-FirstDecision c interrupt_id request db r h e in
    let db' = (submit_decision c interrupt_id request db).1 in
    let p = first.proposal in
    let old = first.is_recorded in
    let found : proposal_for_interrupt interrupt_id db' ≡ some p = rw first.proposals first.found in
    (
      λ agree plain.
          rw
            (submit_again c interrupt_id request' db' p found old.approval first.was_pending
              old.approval_found (old.decided_as ∙ sym agree) plain)
            (rw first.answer (rw agree)),
      λ other.
          submit_other c interrupt_id request' db' p found old.approval first.was_pending
            old.approval_found
            (same_decision-eq-false old.approval.decision request'.decision
              (λ q. other (cc (q, old.decided_as)))),
    )
