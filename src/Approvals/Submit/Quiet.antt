-- ===== src/Approvals/Submit/Quiet.antt =====
-- `submit_decision` executes nothing itself: it only records and queues the resumption.
use headhunt_agent.Approvals.Submit.Outcomes.{
  Decided, refused, handled, repeated, recorded, submit_decision_cases, with_approval,
}
use headhunt_agent.Storage.Writer.Frame.{
  GrowsBy, same, enqueue_json-GrowsBy, enqueue_json-SameTables,
}
use headhunt_agent.Storage.Models.{resume, Database, Uuid, ActionProposal}
use headhunt_agent.Prelude.{◌≡◌, none, subst, some, refl, String}
use headhunt_agent.Codec.{Codec}
use headhunt_agent.Approvals.{ApprovalDecisionRequest, ApprovalDecisionResponse}
use headhunt_agent.Approvals.Submit.{submit_decision, resume_key, new_approval}
use headhunt_agent.Tx.{Result, ok}
use headhunt_agent.Storage.Writer.{enqueue_json}
use headhunt_agent.Approvals.Payload.{build_resume_payload}

-- The proposals, the threads and the card actions stay, and the outbox grows by at most one
-- item, a pending resume item.
pub record HasNoSideEffect (db db' : Database) : Type 0 where
  pub proposals : db'.action_proposals ≡ db.action_proposals
  pub threads : db'.graph_threads ≡ db.graph_threads
  pub card_actions : db'.feishu_card_actions ≡ db.feishu_card_actions
  pub key : String
  pub outbox : GrowsBy resume key db.feishu_outbox db'.feishu_outbox

HasNoSideEffect-refl : (db : Database) → HasNoSideEffect db db
HasNoSideEffect-refl db = record {
  proposals = refl;
  threads = refl;
  card_actions = refl;
  key = "";
  outbox = same refl;
}

quiet_after :
    (c : Codec) (request : ApprovalDecisionRequest) (db : Database) (proposal : ActionProposal)
    (ref : String) (db' : Database)
    → enqueue_json c resume
        (resume_key c proposal)
        (build_resume_payload c proposal request)
        (some proposal.thread_id)
        none
        db
      ≡ (ok ref, db')
    → HasNoSideEffect db (with_approval (new_approval c proposal request ref) db')
quiet_after c request db proposal ref db' queueing =
    let payload = build_resume_payload c proposal request in
    let key = resume_key c proposal in
    let kept = enqueue_json-SameTables c resume key payload (some proposal.thread_id) none db in
    record {
      proposals = cc (kept.action_proposals, queueing);
      threads = cc (kept.graph_threads, queueing);
      card_actions = cc (kept.feishu_card_actions, queueing);
      key = key;
      outbox =
          subst (λ out. GrowsBy resume key db.feishu_outbox out.1.feishu_outbox) queueing
            (enqueue_json-GrowsBy c resume key payload (some proposal.thread_id) none db);
    }

module _ (c : Codec) (interrupt_id : Uuid) (request : ApprovalDecisionRequest) where
  quiet_case :
      (db : Database) (out : Result ApprovalDecisionResponse × Database)
      → Decided c interrupt_id request db out
      → HasNoSideEffect db out.1
  quiet_case db out (refused d q) = rw q (HasNoSideEffect-refl db)
  quiet_case db out (handled p found closed q) = rw q (HasNoSideEffect-refl db)
  quiet_case db out (repeated p x found waiting old agree q) = rw q (HasNoSideEffect-refl db)
  quiet_case db out (recorded p ref db' found waiting absent queueing q) =
      rw q (quiet_after c request db p ref db' queueing)

  -- No submission changes a proposal, a thread or a card action, and none queues anything but one
  -- pending resume item.
  pub submit_decision-HasNoSideEffect :
      (db : Database) → HasNoSideEffect db (submit_decision c interrupt_id request db).1
  submit_decision-HasNoSideEffect db =
      quiet_case db _ (submit_decision_cases c interrupt_id request db)
