-- ===== src/ActionGate/Answers.antt =====
-- What a proposal answers is stored under its key.
use headhunt_agent.Prelude.{
  ◌≡◌, ◌==◌, if◌then◌else◌, ◌∷◌, none, Option, String, List, ◌∙◌, [], some, false, true, ◌+◌, inr,
  inl, refl, find-append_new, find, ℕ, ap, arith, sym, subst, ◌++◌, Bool-cases, eq_refl,
  any-eq-false_of_find, ◌<>◌, any,
}
use headhunt_agent.Tx.{ok, ◌>>=◌, ◌>>◌, pure, gets, modify}
use headhunt_agent.ActionGate.{
  propose_action, existing_action, ActionRequest, ProposedAction, proposed, propose_new,
  propose_unless_found, interrupt_unless_other, interrupt, notify_room, proposal_row,
  interrupt_thread, payload_with_refs,
}
use headhunt_agent.Tx.Passes.{bind_holds, kept_after, pure_passed}
use headhunt_agent.Storage.Models.{Database, ActionProposal, Uuid, Datetime}
use headhunt_agent.Codec.{Codec}
use headhunt_agent.Storage.Tables.{
  Session, uuid4, insert_proposal_or_ignore, has_proposal_key, has_thread,
}
use headhunt_agent.Value.{Value}
use headhunt_agent.Tx.Keeps.{Keeps, Keeps-pure, Keeps-modify}
use headhunt_agent.Storage.Payloads.{
  store_json_payload, Storing, json_blob, fresh, kept, clash, store_json_payload_cases,
}

-- The proposal under the key answers as `a`.
abbrev pub Answers : String → ProposedAction → Database → Type 0
Answers key a t = (row : ActionProposal) × (existing_action key t ≡ some row) × (proposed row ≡ a)

-- No notifier, or one that proposes nothing and changes no proposal
abbrev pub LeavesProposals : Option (ProposedAction → Session (Unit {0})) → Type 0
LeavesProposals none = Unit {0}
LeavesProposals (some enqueue_approval_card) =
    (action : ProposedAction) (t : Database)
    → (enqueue_approval_card action t).1.action_proposals ≡ t.action_proposals

same_existing :
    (key : String) (t t' : Database) (o : Option ActionProposal)
    → existing_action key t ≡ o
    → t'.action_proposals ≡ t.action_proposals
    → existing_action key t' ≡ o
unfolding existing_action
same_existing key t t' o found same = rw same found

module _ (c : Codec) (notify : Option (ProposedAction → Session (Unit {0}))) where
  notify_room-Keeps :
      (o : Option (ProposedAction → Session (Unit {0})))
      → LeavesProposals o
      → (rows : List ActionProposal) (action : ProposedAction)
      → Keeps (λ t. t.action_proposals ≡ rows) (notify_room c notify o action)
  unfolding notify_room
  notify_room-Keeps none leaves rows action = Keeps-pure tt
  notify_room-Keeps (some n) leaves rows action = record { at = λ t h. leaves action t ∙ h }

  interrupt-Answers :
      (request : ActionRequest) (a : ProposedAction) (key : String) (t : Database)
      → LeavesProposals notify
      → Answers key a t
      → (b : ProposedAction) → (interrupt c notify request a t).0 ≡ ok b
      → Answers key b (interrupt c notify request a t).1
  unfolding interrupt interrupt_thread pure
  interrupt-Answers request a key t leaves (row, found, same) b h =
      bind_holds (Answers key) (modify (interrupt_thread c notify request a))
        (λ _. notify_room c notify notify a >> pure a) t
        (λ u t1 b1 e1 h1.
          bind_holds (Answers key) (notify_room c notify notify a) (λ _. pure a) t1
            (λ v t2 b2 e2 h2. (
              row,
              same_existing key t t2 (some row) found (
                  kept_after (notify_room c notify notify a) t1 t2 v
                    (notify_room-Keeps notify leaves t.action_proposals a) e2
                    (kept_after (modify (interrupt_thread c notify request a)) t t1 u
                      (Keeps-modify {P = λ s. s.action_proposals ≡ t.action_proposals} _ (λ s k. k))
                      e1 refl)),
              same ∙ pure_passed a b2 t2 h2,
            ))
            b1 h1)
        b h

  store_json_payload-Keeps :
      (rows : List ActionProposal) (ref : String) (v : Value) (raw hash : String)
      → Keeps (λ t. t.action_proposals ≡ rows) (store_json_payload ref v raw hash)
  store_json_payload-Keeps rows ref v raw hash = record {
    at = λ t h. go t h (store_json_payload_cases ref v raw hash t);
  }
    where
      go :
          (t : Database)
          → t.action_proposals ≡ rows
          → Storing ref hash (json_blob ref v raw hash) t (store_json_payload ref v raw hash t)
          → (store_json_payload ref v raw hash t).1.action_proposals ≡ rows
      go t h (fresh absent q) = rw q h
      go t h (kept existing found same q) = rw q h
      go t h (clash existing found other q) = rw q h

  same_id : (n : ℕ) → (n == n) ≡ true
  same_id n = ground arith

  -- What follows the insertion finds the row that was inserted.
  interrupt_unless_other-Answers :
      (request : ActionRequest) (row : ActionProposal) (t : Database)
      → LeavesProposals notify
      → existing_action request.idempotency_key t ≡ some row
      → (b : ProposedAction)
      → (interrupt_unless_other c notify request (proposed row) (some row) t).0 ≡ ok b
      → Answers request.idempotency_key b
          (interrupt_unless_other c notify request (proposed row) (some row) t).1
  unfolding interrupt_unless_other
  interrupt_unless_other-Answers request row t leaves found b h =
      subst
        (λ x.
          ((if x then interrupt c notify request (proposed row) else pure (proposed row)) t).0
            ≡ ok b
          → Answers request.idempotency_key b
              ((if x then interrupt c notify request (proposed row) else pure (proposed row)) t).1)
        (sym (same_id row.id))
        (interrupt-Answers request (proposed row) request.idempotency_key t leaves
          (row, found, refl) b)
        h

  inserted :
      (key : String) (row : ActionProposal) (t t' : Database) (u : Unit {0})
      → row.idempotency_key ≡ key
      → existing_action key t ≡ none
      → insert_proposal_or_ignore row t ≡ (ok u, t')
      → existing_action key t' ≡ some row
  unfolding existing_action insert_proposal_or_ignore
  inserted key row t t' u same absent h =
      let new : any (has_proposal_key row.idempotency_key) t.action_proposals ≡ false =
        rw same (any-eq-false_of_find (has_proposal_key key) t.action_proposals absent) in
      elim (Bool-cases (has_thread row.thread_id t.graph_threads)) [
        | inr unlinked ↦ absurd (cc (rw unlinked at (rw new at h)))
        | inl linked ↦
            let ends = rw linked at (rw new at h) in
            let after : t.action_proposals ++ row ∷ [] ≡ t'.action_proposals =
              ap (λ o. o.1.action_proposals) ends in
            subst (λ rows. find (has_proposal_key key) rows ≡ some row) after
              (find-append_new (has_proposal_key key) t.action_proposals row absent
                (rw same (eq_refl key)))
      ]

  persisted_found :
      (request : ActionRequest) (row : ActionProposal) (t : Database)
      → LeavesProposals notify
      → existing_action request.idempotency_key t ≡ some row
      → (b : ProposedAction)
      → ((gets (existing_action request.idempotency_key)
            >>= interrupt_unless_other c notify request (proposed row))
          t).0
        ≡ ok b
      → Answers request.idempotency_key b
          ((gets (existing_action request.idempotency_key)
              >>= interrupt_unless_other c notify request (proposed row))
            t).1
  unfolding ◌>>=◌ gets
  persisted_found request row t leaves found b k =
      subst
        (λ o.
          (interrupt_unless_other c notify request (proposed row) o t).0 ≡ ok b
          → Answers request.idempotency_key b
              (interrupt_unless_other c notify request (proposed row) o t).1)
        (sym found) (interrupt_unless_other-Answers request row t leaves found b) k

  insert_and_interrupt-Answers :
      (request : ActionRequest) (row : ActionProposal) (t : Database)
      → LeavesProposals notify
      → row.idempotency_key ≡ request.idempotency_key
      → existing_action request.idempotency_key t ≡ none
      → (b : ProposedAction)
      → ((insert_proposal_or_ignore row
            >> (gets (existing_action request.idempotency_key)
                >>= interrupt_unless_other c notify request (proposed row)))
          t).0
        ≡ ok b
      → Answers request.idempotency_key b
          ((insert_proposal_or_ignore row
              >> (gets (existing_action request.idempotency_key)
                  >>= interrupt_unless_other c notify request (proposed row)))
            t).1
  insert_and_interrupt-Answers request row t leaves key absent b h =
      bind_holds (Answers request.idempotency_key) (insert_proposal_or_ignore row)
        (λ _.
          gets (existing_action request.idempotency_key)
          >>= interrupt_unless_other c notify request (proposed row))
        t
        (λ u t1 b1 e1 h1.
          persisted_found request row t1 leaves
            (inserted request.idempotency_key row t t1 u key absent e1) b1 h1)
        b h

  abbrev payload_ref_of : Uuid → String
  payload_ref_of action_id = "artifact://action-proposal/" <> c.uuid_text action_id <> "/payload/v1"

  abbrev new_row : ActionRequest → Uuid → Uuid → Datetime → ActionProposal
  new_row request action_id interrupt_id now =
      record (proposal_row c notify request action_id interrupt_id (payload_ref_of action_id)) {
        created_at = now;
      }

  abbrev insert_and_interrupt : ActionRequest → ActionProposal → Session ProposedAction
  insert_and_interrupt request row =
      insert_proposal_or_ignore row
      >> (gets (existing_action request.idempotency_key)
          >>= interrupt_unless_other c notify request (proposed row))

  abbrev store_payload : ActionRequest → Uuid → Session String
  store_payload request action_id =
      store_json_payload (payload_ref_of action_id) (payload_with_refs c notify request)
        (c.dumps (payload_with_refs c notify request))
        (c.sha256 (c.dumps (payload_with_refs c notify request)))

  store_payload-Answers :
      (request : ActionRequest) (action_id interrupt_id : Uuid) (now : Datetime) (t : Database)
      → LeavesProposals notify
      → existing_action request.idempotency_key t ≡ none
      → (b : ProposedAction)
      → ((store_payload request action_id
            >> insert_and_interrupt request (new_row request action_id interrupt_id now))
          t).0
        ≡ ok b
      → Answers request.idempotency_key b
          ((store_payload request action_id
              >> insert_and_interrupt request (new_row request action_id interrupt_id now))
            t).1
  store_payload-Answers request action_id interrupt_id now t leaves absent b h =
      let row = new_row request action_id interrupt_id now in
      bind_holds (Answers request.idempotency_key) (store_payload request action_id)
        (λ _. insert_and_interrupt request row) t
        (λ ref t1 b1 e1 h1.
          insert_and_interrupt-Answers request row t1 leaves refl
            (same_existing request.idempotency_key t t1 none absent (
              kept_after (store_payload request action_id) t t1 ref
                (store_json_payload-Keeps t.action_proposals _ _ _ _) e1 refl))
            b1 h1)
        b h

  propose_new-Answers :
      (request : ActionRequest) (t : Database)
      → LeavesProposals notify
      → existing_action request.idempotency_key t ≡ none
      → (b : ProposedAction) → (propose_new c notify request t).0 ≡ ok b
      → Answers request.idempotency_key b (propose_new c notify request t).1
  unfolding propose_new uuid4 ◌>>=◌ gets existing_action
  propose_new-Answers request t leaves absent b h =
      store_payload-Answers request t.next_uuid (t.next_uuid + 1) t.now
        (record t { next_uuid = t.next_uuid + 1 + 1 }) leaves absent b h

  propose_unless_found-Answers :
      (request : ActionRequest) (t : Database) (o : Option ActionProposal)
      → LeavesProposals notify
      → existing_action request.idempotency_key t ≡ o
      → (b : ProposedAction) → (propose_unless_found c notify request o t).0 ≡ ok b
      → Answers request.idempotency_key b (propose_unless_found c notify request o t).1
  unfolding propose_unless_found pure
  propose_unless_found-Answers request t none leaves absent b h =
      propose_new-Answers request t leaves absent b h
  propose_unless_found-Answers request t (some row) leaves found b h = (row, found, cc)

  -- What a proposal answers is then stored under its key.
  pub propose_action-Answers :
      (request : ActionRequest) (t : Database) (b : ProposedAction)
      → LeavesProposals notify
      → (propose_action c notify request t).0 ≡ ok b
      → Answers request.idempotency_key b (propose_action c notify request t).1
  unfolding propose_action ◌>>=◌ gets
  propose_action-Answers request t b leaves h =
      propose_unless_found-Answers request t _ leaves refl b h
