-- ===== src/Approvals/Submit/Outcomes.antt =====
-- The outcomes of `submit_decision`, on every branch.
use headhunt_agent.Approvals.Submit.{
  submit_decision, insert_approval, resume_key, to_approval_conflict, new_approval,
  ensure_same_edit, existing_edit_payload, ensure_existing_edit_payload_matches,
}
use headhunt_agent.Storage.Tables.{insert_approval, has_approval_key, has_thread}
use headhunt_agent.Storage.Payloads.{get_json_payload_reads}
use headhunt_agent.Tx.{
  ◌>>=◌, ok, map_error, transaction, raise, Error, Result, transaction, map_error,
  approval_conflict, outcome_cases, approval_not_found, pure,
}
use headhunt_agent.Storage.Writer.{enqueue_json}
use headhunt_agent.Storage.Models.{
  resume, HumanApproval, Uuid, Database, ActionProposal, ApprovalDecision, edit, approve, reject,
}
use headhunt_agent.Approvals.{
  queued, duplicate, ApprovalDecisionRequest, ApprovalDecisionResponse, proposal_for_interrupt,
  is_pending, response, existing_human_approval, handled_status, same_decision,
}
use headhunt_agent.Prelude.{
  ◌++◌, String, none, inl, ◌+◌, true, [], Bool-cases, false, ◌∷◌, inr, ◌≡◌, some, Option, refl,
  any-eq-false_of_find, Option-cases, ◌&&◌, any, ◌==◌, ◌≢◌,
}
use headhunt_agent.Codec.{Codec}
use headhunt_agent.Approvals.Payload.{build_resume_payload}
use headhunt_agent.Tx.Keeps.{reading_cases, Keeps, keeps_rules}
use headhunt_agent.Storage.Writer.Frame.{enqueue_json-SameTables}

abbrev pub with_approval : HumanApproval → Database → Database
with_approval row db = record db {
  human_approvals = db.human_approvals ++ record row { id = db.next_uuid } ∷ [];
  next_uuid = db.next_uuid + 1;
}

same_decision_refl : (d : ApprovalDecision) → same_decision d d ≡ true
same_decision_refl approve = refl
same_decision_refl edit = refl
same_decision_refl reject = refl

pub same_decision-eq-false : (a b : ApprovalDecision) → a ≢ b → same_decision a b ≡ false
same_decision-eq-false approve approve h = absurd (h refl)
same_decision-eq-false edit edit h = absurd (h refl)
same_decision-eq-false reject reject h = absurd (h refl)
same_decision-eq-false _ _ h = refl

same_decision_of_eq : {a b : ApprovalDecision} → a ≡ b → same_decision a b ≡ true
same_decision_of_eq {a} {b} e = rw e (same_decision_refl b)

module _ (c : Codec) (interrupt_id : Uuid) (request : ApprovalDecisionRequest) where
  -- How a submission may end. An error comes with the database as it was.
  pub data Decided (db : Database) (out : Result ApprovalDecisionResponse × Database) : Type 0 where
    refused : (e : Error) → out ≡ (raise e, db) → Decided db out
    handled :
        (proposal : ActionProposal)
        → proposal_for_interrupt interrupt_id db ≡ some proposal
        → is_pending proposal.status ≡ false
        → out ≡ (ok (response proposal request.decision (handled_status proposal.status) none), db)
        → Decided db out
    repeated :
        (proposal : ActionProposal) (existing : HumanApproval)
        → proposal_for_interrupt interrupt_id db ≡ some proposal
        → is_pending proposal.status ≡ true
        → existing_human_approval proposal.idempotency_key db ≡ some existing
        → same_decision existing.decision request.decision ≡ true
        → out ≡ (ok (response proposal request.decision duplicate none), db)
        → Decided db out
    recorded :
        (proposal : ActionProposal) (ref : String) (db' : Database)
        → proposal_for_interrupt interrupt_id db ≡ some proposal
        → is_pending proposal.status ≡ true
        → existing_human_approval proposal.idempotency_key db ≡ none
        → enqueue_json c resume
            (resume_key c proposal)
            (build_resume_payload c proposal request)
            (some proposal.thread_id)
            none
            db
          ≡ (ok ref, db')
        → out ≡ (
          ok (response proposal request.decision queued (some ref)),
          with_approval (new_approval c proposal request ref) db',
        )
        → Decided db out

  -- A repeated decision only reads.
  existing_edit_payload_reads :
      {P : Database → Type 0} (ref : Option String) → Keeps P (existing_edit_payload c ref)
  unfolding existing_edit_payload
  existing_edit_payload_reads none = search keeps_rules
  existing_edit_payload_reads (some ref) = search (keeps_rules, get_json_payload_reads)

  ensure_same_edit_reads :
      {P : Database → Type 0} (existing : HumanApproval)
      → (d : ApprovalDecision) → request.decision ≡ d
      → Keeps P (ensure_same_edit c existing request)
  unfolding ensure_same_edit ensure_existing_edit_payload_matches
  ensure_same_edit_reads existing edit e = rw e (search (keeps_rules, existing_edit_payload_reads))
  ensure_same_edit_reads existing approve e = rw e (search keeps_rules)
  ensure_same_edit_reads existing reject e = rw e (search keeps_rules)

  ensure_same_edit_plain :
      (existing : HumanApproval) (db : Database)
      → (d : ApprovalDecision) → request.decision ≡ d
      → d ≢ edit
      → ensure_same_edit c existing request db ≡ (ok tt, db)
  unfolding ensure_same_edit pure
  ensure_same_edit_plain existing db edit e plain = absurd (plain refl)
  ensure_same_edit_plain existing db approve e plain = rw e
  ensure_same_edit_plain existing db reject e plain = rw e

  module _ (db : Database) (proposal : ActionProposal)
      (found : proposal_for_interrupt interrupt_id db ≡ some proposal) where
    -- Queueing leaves the approvals alone.
    approvals_unused :
        (ref : String) (db' : Database)
        → existing_human_approval proposal.idempotency_key db ≡ none
        → enqueue_json c resume
            (resume_key c proposal)
            (build_resume_payload c proposal request)
            (some proposal.thread_id)
            none
            db
          ≡ (ok ref, db')
        → any (has_approval_key proposal.idempotency_key) db'.human_approvals ≡ false
    unfolding existing_human_approval
    approvals_unused ref db' absent out =
        let kept =
          enqueue_json-SameTables c resume (resume_key c proposal)
            (build_resume_payload c proposal request) (some proposal.thread_id) none db in
        any-eq-false_of_find (has_approval_key proposal.idempotency_key) db'.human_approvals
          (cc (kept.human_approvals, out, absent))

    submit_handled :
        is_pending proposal.status ≡ false → Decided db (submit_decision c interrupt_id request db)
    unfolding submit_decision transaction map_error ◌>>=◌
    submit_handled closed = handled proposal found closed (rw found (rw closed))

    -- A second decision that differs from the recorded one
    pub submit_other :
        (existing : HumanApproval)
        → is_pending proposal.status ≡ true
        → existing_human_approval proposal.idempotency_key db ≡ some existing
        → same_decision existing.decision request.decision ≡ false
        → submit_decision c interrupt_id request db ≡ (raise approval_conflict, db)
    unfolding submit_decision transaction map_error ◌>>=◌
    submit_other existing waiting old other = rw found (rw waiting (rw old (rw other)))

    -- The same decision again, where no edited payload is to be compared
    pub submit_again :
        (existing : HumanApproval)
        → is_pending proposal.status ≡ true
        → existing_human_approval proposal.idempotency_key db ≡ some existing
        → existing.decision ≡ request.decision
        → request.decision ≢ edit
        → submit_decision c interrupt_id request db
          ≡ (ok (response proposal request.decision duplicate none), db)
    unfolding submit_decision transaction map_error ◌>>=◌
    submit_again existing waiting old agree plain =
        let agreed = same_decision_of_eq agree in
        let unedited = ensure_same_edit_plain existing db request.decision refl plain in
        rw found (rw waiting (rw old (rw agreed (rw unedited))))

    submit_existing :
        (existing : HumanApproval)
        → is_pending proposal.status ≡ true
        → existing_human_approval proposal.idempotency_key db ≡ some existing
        → Decided db (submit_decision c interrupt_id request db)
    unfolding submit_decision transaction map_error ◌>>=◌
    submit_existing existing waiting old =
        elim (Bool-cases (same_decision existing.decision request.decision)) [
          | inr other ↦ refused approval_conflict (rw found (rw waiting (rw old (rw other))))
          | inl agree ↦
              elim (reading_cases (ensure_same_edit c existing request) db
                (ensure_same_edit_reads existing request.decision refl)) [
                  | inl (a, out) ↦
                      repeated proposal existing found waiting old agree
                        (rw found (rw waiting (rw old (rw agree (rw out)))))
                  | inr (e, out) ↦
                      refused (to_approval_conflict c e)
                        (rw found (rw waiting (rw old (rw agree (rw out)))))
                ]
        ]

    submit_first :
        is_pending proposal.status ≡ true
        → existing_human_approval proposal.idempotency_key db ≡ none
        → Decided db (submit_decision c interrupt_id request db)
    unfolding submit_decision transaction map_error insert_approval ◌>>=◌
    submit_first waiting absent =
        let payload = build_resume_payload c proposal request in
        elim (outcome_cases (
          enqueue_json c resume (resume_key c proposal) payload (some proposal.thread_id) none
            db)) [
              | inr (e, db', out) ↦
                  refused (to_approval_conflict c e) (rw found (rw waiting (rw absent (rw out))))
              | inl (ref, db', out) ↦
                  let unused = approvals_unused ref db' absent out in
                  elim (Bool-cases (
                    any (λ p. p.id == proposal.id) db'.action_proposals
                    && has_thread proposal.thread_id db'.graph_threads)) [
                      | inl linked ↦
                          recorded proposal ref db' found waiting absent out
                            (rw found (rw waiting (rw absent (rw out (rw unused (rw linked))))))
                      | inr broken ↦
                          refused approval_conflict
                            (rw found (rw waiting (rw absent (rw out (rw unused (rw broken))))))
                    ]
            ]

    submit_found : Decided db (submit_decision c interrupt_id request db)
    submit_found = elim (Bool-cases (is_pending proposal.status)) [
      | inr closed ↦ submit_handled closed
      | inl waiting ↦ elim (Option-cases (existing_human_approval proposal.idempotency_key db)) [
        | inl absent ↦ submit_first waiting absent
        | inr (existing, old) ↦ submit_existing existing waiting old
      ]
    ]

  submit_missing :
      (db : Database)
      → proposal_for_interrupt interrupt_id db ≡ none
      → Decided db (submit_decision c interrupt_id request db)
  unfolding submit_decision transaction map_error ◌>>=◌
  submit_missing db absent = refused approval_not_found (rw absent)

  pub submit_decision_cases :
      (db : Database) → Decided db (submit_decision c interrupt_id request db)
  submit_decision_cases db = elim (Option-cases (proposal_for_interrupt interrupt_id db)) [
    | inl absent ↦ submit_missing db absent
    | inr (proposal, found) ↦ submit_found db proposal found
  ]
