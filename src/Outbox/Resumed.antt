-- ===== src/Outbox/Resumed.antt =====
-- The payload that `submit_decision` queues, read back by the handler that resumes the graph.
use headhunt_agent.Outbox.{
  required_str, with_edited, with_payload_ref, direct_human_approval_payload, approval_fields,
  put_if_dict, put_if_text, has_edit_if_edit, internal, feishu_card_payload_to_human_approval,
}
use headhunt_agent.Approvals.{ApprovalDecisionRequest, decision_text, is_valid_request}
use headhunt_agent.Prelude.{
  String, ◌≡◌, ◌≢◌, refl, str_eq-eq-false, str_eq, none, some, false, Option, true, ◌∙◌,
}
use headhunt_agent.Tx.{ok, require, ◌>>=◌}
use headhunt_agent.Value.{
  Fields, str, get, text_of, Value, null, field, dict, fields_of, end, put, dict_value, entries_of,
}
use headhunt_agent.Codec.{Codec}
use headhunt_agent.Storage.Models.{
  ActionProposal, Database, ApprovalDecision, approve, reject, edit,
}
use headhunt_agent.Value.Dicts.{get-put-other, get-put-same}
use headhunt_agent.Approvals.Payload.{with_edited_payload, approver_of, build_resume_payload}

-- The edited payload in an approval; an empty one counts as none.
abbrev pub edited_value : Option Fields → Value
edited_value none = null
edited_value (some end) = null
edited_value (some (field key v rest)) = dict (field key v rest)

-- The approval names the proposal and has the decision of the request, with its payload if it is an
-- edit.
pub record Approves (c : Codec) (proposal : ActionProposal) (request : ApprovalDecisionRequest)
    (approval : Fields) : Type 0 where
  pub thread_id : get "thread_id" approval ≡ str (c.uuid_text proposal.thread_id)
  pub action_id : get "action_id" approval ≡ str (c.uuid_text proposal.id)
  pub interrupt_id : get "interrupt_id" approval ≡ str (c.uuid_text proposal.interrupt_id)
  pub idempotency_key : get "idempotency_key" approval ≡ str proposal.idempotency_key
  pub decision : get "decision" approval ≡ str (decision_text request.decision)
  pub edited_payload : get "edited_payload" approval ≡ edited_value request.edited_payload

-- The texts that an approval needs are not empty.
pub record HasTexts (c : Codec) (proposal : ActionProposal) : Type 0 where
  pub thread_id : c.uuid_text proposal.thread_id ≢ ""
  pub action_id : c.uuid_text proposal.id ≢ ""
  pub interrupt_id : c.uuid_text proposal.interrupt_id ≢ ""
  pub idempotency_key : proposal.idempotency_key ≢ ""

required_passes :
    (payload : Fields) (key s : String) (db : Database)
    → get key payload ≡ str s
    → s ≢ ""
    → required_str payload key db ≡ (ok s, db)
unfolding required_str text_of require
required_passes payload key s db e h = rw e (rw (str_eq-eq-false h) refl)

pub get-with_edited :
    (k : String) (v : Value) (d : Fields)
    → str_eq "edited_payload" k ≡ false
    → get k (with_edited v d) ≡ get k d
unfolding with_edited
get-with_edited k v d h = go (fields_of v)
  where
    go : (o : Option Fields) → get k (put_if_dict "edited_payload" o d) ≡ get k d
    go none = refl
    go (some e) = get-put-other k "edited_payload" (dict e) d h

get-with_payload_ref :
    (k : String) (v : Value) (d : Fields)
    → str_eq "payload_ref" k ≡ false
    → get k (with_payload_ref v d) ≡ get k d
unfolding with_payload_ref
get-with_payload_ref k v d h = go (text_of v)
  where
    go : (o : Option String) → get k (put_if_text "payload_ref" o d) ≡ get k d
    go none = refl
    go (some s) = get-put-other k "payload_ref" (str s) d h

get-finished :
    (k : String) (ref edited : Value) (d : Fields)
    → str_eq "payload_ref" k ≡ false
    → str_eq "edited_payload" k ≡ false
    → get k (with_payload_ref ref (with_edited edited d)) ≡ get k d
get-finished k ref edited d h i =
    get-with_payload_ref k ref (with_edited edited d) h ∙ get-with_edited k edited d i

abbrev direct_result : Fields → String → String → String → String → String → Fields
direct_result payload thread_id action_id interrupt_id idempotency_key decision =
    with_payload_ref (get "payload_ref" payload) (
      with_edited (get "edited_payload" payload) (
        approval_fields thread_id action_id interrupt_id idempotency_key decision
          (internal (fields_of (get "approver" payload)))))

direct_reads :
    (payload : Fields) (t a i k d : String) (db : Database)
    → required_str payload "decision" db ≡ (ok d, db)
    → required_str payload "thread_id" db ≡ (ok t, db)
    → required_str payload "action_id" db ≡ (ok a, db)
    → required_str payload "interrupt_id" db ≡ (ok i, db)
    → required_str payload "idempotency_key" db ≡ (ok k, db)
    → has_edit_if_edit d (get "edited_payload" payload) ≡ true
    → direct_human_approval_payload payload db ≡ (ok (direct_result payload t a i k d), db)
unfolding direct_human_approval_payload ◌>>=◌
direct_reads payload t a i k d db hd ht ha hi hk he =
    rw hd (rw ht (rw ha (rw hi (rw hk (rw he refl)))))

pub decision_text-ne : (d : ApprovalDecision) → decision_text d ≢ ""
unfolding decision_text
decision_text-ne approve e = absurd (cc)
decision_text-ne edit e = absurd (cc)
decision_text-ne reject e = absurd (cc)

valid_edit :
    (d : ApprovalDecision) (r : ApprovalDecisionRequest)
    → is_valid_request (record r { decision = d }) ≡ true
    → has_edit_if_edit (decision_text d) (edited_value r.edited_payload) ≡ true
unfolding has_edit_if_edit decision_text is_valid_request entries_of
valid_edit approve r h = refl
valid_edit reject r h = refl
valid_edit edit r h = go r.edited_payload h
  where
    go :
        (e : Option Fields)
        → is_valid_request (record r { decision = edit; edited_payload = e }) ≡ true
        → has_edit_if_edit "edit" (edited_value e) ≡ true
    go none h = absurd (cc (h))
    go (some end) h = absurd (cc (h))
    go (some (field k v rest)) h = refl

pub edited_kept :
    (e : Option Fields) (d : Fields)
    → get "edited_payload" d ≡ null
    → get "edited_payload" (with_edited (edited_value e) d) ≡ edited_value e
unfolding with_edited fields_of put_if_dict
edited_kept none d h = h
edited_kept (some end) d h = h
edited_kept (some (field k v rest)) d h = get-put-same "edited_payload" (dict (field k v rest)) d

module _ (c : Codec) (p : ActionProposal) where
  -- The approval in a resume payload, without an edited payload
  abbrev base : ApprovalDecisionRequest → Fields
  unfolding decision_text
  base r = field "thread_id" (str (c.uuid_text p.thread_id)) (
      field "action_id" (str (c.uuid_text p.id)) (
        field "interrupt_id" (str (c.uuid_text p.interrupt_id)) (
          field "idempotency_key" (str p.idempotency_key) (
            field "decision" (str (decision_text r.decision)) (
              field "approver" (dict (approver_of r))
                (field "payload_ref" (str p.payload_ref) end))))))

  sent : ApprovalDecisionRequest → Fields
  unfolding base with_edited_payload
  sent r = with_edited_payload r.edited_payload (base r)

  sent-Approves : (r : ApprovalDecisionRequest) → Approves c p r (sent r)
  unfolding sent with_edited_payload get put
  sent-Approves r = go r.edited_payload
    where
      go :
          (e : Option Fields)
          → Approves c p (record r { edited_payload = e }) (with_edited_payload e (base r))
      go none = record {
        thread_id = refl;
        action_id = refl;
        interrupt_id = refl;
        idempotency_key = refl;
        decision = refl;
        edited_payload = refl;
      }
      go (some end) = record {
        thread_id = refl;
        action_id = refl;
        interrupt_id = refl;
        idempotency_key = refl;
        decision = refl;
        edited_payload = refl;
      }
      go (some (field k v rest)) = record {
        thread_id = refl;
        action_id = refl;
        interrupt_id = refl;
        idempotency_key = refl;
        decision = refl;
        edited_payload = refl;
      }

  read_as_direct :
      (r : ApprovalDecisionRequest) (db : Database)
      → feishu_card_payload_to_human_approval c (dict_value (build_resume_payload c p r)) db
        ≡ direct_human_approval_payload (sent r) db
  unfolding feishu_card_payload_to_human_approval build_resume_payload dict_value sent get put
      with_edited_payload entries_of
  read_as_direct r db = go r.edited_payload
    where
      go :
          (e : Option Fields)
          → feishu_card_payload_to_human_approval c
              (dict_value (build_resume_payload c p (record r { edited_payload = e })))
              db
            ≡ direct_human_approval_payload (sent (record r { edited_payload = e })) db
      go none = refl
      go (some end) = refl
      go (some (field k v rest)) = refl

  result-Approves :
      (r : ApprovalDecisionRequest) (payload : Fields)
      → get "edited_payload" payload ≡ edited_value r.edited_payload
      → Approves c p r (
          direct_result payload
            (c.uuid_text p.thread_id)
            (c.uuid_text p.id)
            (c.uuid_text p.interrupt_id)
            p.idempotency_key
            (decision_text r.decision))
  unfolding get
  result-Approves r payload h = record {
    thread_id = get-finished "thread_id" _ _ _ refl refl;
    action_id = get-finished "action_id" _ _ _ refl refl;
    interrupt_id = get-finished "interrupt_id" _ _ _ refl refl;
    idempotency_key = get-finished "idempotency_key" _ _ _ refl refl;
    decision = get-finished "decision" _ _ _ refl refl;
    edited_payload =
        get-with_payload_ref "edited_payload" _ _ refl ∙ rw h (edited_kept r.edited_payload _ refl);
  }

  -- The payload that a valid decision queues is read back as the approval of that proposal and
  -- decision, with its edited payload, if no text that it needs is empty.
  pub resume_payload_round_trip :
      (r : ApprovalDecisionRequest) (db : Database)
      → HasTexts c p
      → is_valid_request r ≡ true
      → (approval : Fields) × Approves c p r approval
        × (feishu_card_payload_to_human_approval c (dict_value (build_resume_payload c p r)) db
            ≡ (ok approval, db))
  resume_payload_round_trip r db texts valid =
      let s = sent-Approves r in
      (
        direct_result (sent r) (c.uuid_text p.thread_id) (c.uuid_text p.id)
            (c.uuid_text p.interrupt_id) p.idempotency_key (decision_text r.decision),
        result-Approves r (sent r) s.edited_payload,
        read_as_direct r db
            ∙ direct_reads (sent r) _ _ _ _ _ db
                (required_passes (sent r) "decision" _ db s.decision (decision_text-ne r.decision))
                (required_passes (sent r) "thread_id" _ db s.thread_id texts.thread_id)
                (required_passes (sent r) "action_id" _ db s.action_id texts.action_id)
                (required_passes (sent r) "interrupt_id" _ db s.interrupt_id texts.interrupt_id)
                (required_passes (sent r) "idempotency_key" _ db s.idempotency_key
                  texts.idempotency_key)
                (rw s.edited_payload (valid_edit r.decision r valid)),
      )
