-- ===== src/Graph/Approval.antt =====
-- The way of a decision: the payload that `submit_decision` queues, the handler that resumes the graph,
-- the interrupted node, and the checks of the executor.
use headhunt_agent.Graph.{RecruitmentState}
use headhunt_agent.Graph.Actions.{
  normalize_human_approval, matching_value, normalized_fields, is_decision,
}
use headhunt_agent.Outbox.Resumed.{
  Approves, HasTexts, edited_value, get-with_edited, edited_kept, decision_text-ne,
  resume_payload_round_trip,
}
use headhunt_agent.Approvals.{ApprovalDecisionRequest, decision_text, is_valid_request}
use headhunt_agent.ActionGate.{proposed}
use headhunt_agent.Review.{text_or_else}
use headhunt_agent.Prelude.{
  String, true, not, ◌||◌, Option, none, some, ◌≡◌, ◌≢◌, refl, str_eq, str_eq-eq-false, eq_refl,
}
use headhunt_agent.Tx.{ok, ◌>>=◌}
use headhunt_agent.Value.{
  Value, Fields, str, dict, get, truthy, field, end, or_value, fields_of, dict_value,
}
use headhunt_agent.Value.Dicts.{text_of-str}
use headhunt_agent.Codec.{Codec, text_form}
use headhunt_agent.Storage.Models.{
  ActionProposal, ApprovalDecision, approve, edit, reject, Database,
}
use headhunt_agent.Storage.Tables.{get_proposal}
use headhunt_agent.Outbox.{feishu_card_payload_to_human_approval}
use headhunt_agent.Approvals.Payload.{build_resume_payload}
use headhunt_agent.Executor.{check_approval}
use headhunt_agent.Executor.Accepts.{check_passes}

matches :
    (payload : Fields) (key s : String) (db : Database)
    → get key payload ≡ str s
    → s ≢ ""
    → matching_value payload key s db ≡ (ok s, db)
unfolding matching_value ◌>>=◌
matches payload key s db e h = rw e (rw (text_of-str s h) (rw (eq_refl s) refl))

module _ (c : Codec) where
  decision_read : (v : Value) (d : String) → v ≡ str d → d ≢ "" → text_or_else c v "" ≡ d
  unfolding text_or_else or_value text_form truthy
  decision_read v d e h = rw e (rw (str_eq-eq-false h) refl)

is_decision_text : (d : ApprovalDecision) → is_decision (decision_text d) ≡ true
unfolding decision_text
is_decision_text approve = refl
is_decision_text edit = refl
is_decision_text reject = refl

edit_has_payload :
    (d : ApprovalDecision) (r : ApprovalDecisionRequest)
    → is_valid_request (record r { decision = d }) ≡ true
    → (not (str_eq (decision_text d) "edit") || truthy (edited_value r.edited_payload)) ≡ true
unfolding decision_text is_valid_request truthy
edit_has_payload approve r h = refl
edit_has_payload reject r h = refl
edit_has_payload edit r h = go r.edited_payload h
  where
    go :
        (e : Option Fields)
        → is_valid_request (record r { decision = edit; edited_payload = e }) ≡ true
        → truthy (edited_value e) ≡ true
    go none h = absurd (cc (h))
    go (some end) h = absurd (cc (h))
    go (some (field k v rest)) h = refl

module _ (c : Codec) (p : ActionProposal) (r : ApprovalDecisionRequest) (db : Database) where
  abbrev normal : Fields → Fields
  normal approval =
      normalized_fields (c.uuid_text p.thread_id) (c.uuid_text p.id) (c.uuid_text p.interrupt_id)
        p.idempotency_key (decision_text r.decision) (get "approver" approval)
        (get "edited_payload" approval)

  normal-Approves : (approval : Fields) → Approves c p r approval → Approves c p r (normal approval)
  unfolding normalized_fields get
  normal-Approves approval a = record {
    thread_id = get-with_edited "thread_id" _ _ refl;
    action_id = get-with_edited "action_id" _ _ refl;
    interrupt_id = get-with_edited "interrupt_id" _ _ refl;
    idempotency_key = get-with_edited "idempotency_key" _ _ refl;
    decision = get-with_edited "decision" _ _ refl;
    edited_payload = rw a.edited_payload (edited_kept r.edited_payload _ refl);
  }

  normalizes :
      (approval : Fields) (s : RecruitmentState)
      → Approves c p r approval
      → HasTexts c p
      → is_valid_request r ≡ true
      → s.thread_id ≡ c.uuid_text p.thread_id
      → normalize_human_approval c (dict approval) s (proposed p) db ≡ (ok (normal approval), db)
  unfolding normalize_human_approval ◌>>=◌ fields_of
  normalizes approval s a texts valid thread = rw thread (
      rw (matches approval "thread_id" (c.uuid_text p.thread_id) db a.thread_id texts.thread_id) (
        rw (matches approval "action_id" (c.uuid_text p.id) db a.action_id texts.action_id) (
          rw
            (matches approval "interrupt_id" (c.uuid_text p.interrupt_id) db a.interrupt_id
              texts.interrupt_id)
            (rw
              (matches approval "idempotency_key" p.idempotency_key db a.idempotency_key
                texts.idempotency_key)
              (rw (decision_read c _ _ a.decision (decision_text-ne r.decision)) (
                rw (is_decision_text r.decision)
                  (rw a.edited_payload (rw (edit_has_payload r.decision r valid) refl))))))))

  -- A valid decision on a proposal in the database reaches the executor: the payload that it queues is
  -- read back as an approval, the node that waits for that proposal in its thread accepts the approval,
  -- and the executor's checks let it through, for that proposal and decision. The key of the proposal
  -- and the texts of its ids are not empty, and the ids can be read back from their texts.
  pub decision_reaches_executor :
      (s : RecruitmentState)
      → HasTexts c p
      → c.parse_uuid (c.uuid_text p.id) ≡ some p.id
      → c.parse_uuid (c.uuid_text p.thread_id) ≡ some p.thread_id
      → is_valid_request r ≡ true
      → s.thread_id ≡ c.uuid_text p.thread_id
      → get_proposal p.id db ≡ some p
      → (approval : Fields) × (human_approval : Fields) × (feishu_card_payload_to_human_approval c
            (dict_value (build_resume_payload c p r))
            db
          ≡ (ok approval, db))
        × (normalize_human_approval c (dict approval) s (proposed p) db ≡ (ok human_approval, db))
        × (check_approval c human_approval db
            ≡ (ok (record { proposal = p; decision = decision_text r.decision }), db))
  decision_reaches_executor s texts read_action read_thread valid thread found =
      let (approval, a, back) = resume_payload_round_trip c p r db texts valid in
      let n = normal-Approves approval a in
      (
        approval,
        normal approval,
        back,
        normalizes approval s a texts valid thread,
        check_passes c (normal approval) p (decision_text r.decision) db n.action_id n.thread_id
            n.interrupt_id n.idempotency_key n.decision texts.action_id texts.thread_id
            texts.idempotency_key (decision_text-ne r.decision) read_action read_thread found,
      )
