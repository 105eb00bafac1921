-- ===== src/Executor/Queueing.antt =====
-- What queueing a write leaves: the item, and the approved proposal.
use headhunt_agent.Prelude.{
  true, false, Option, none, some, ◌≡◌, refl, str_eq, find-update_where, ◌∙◌, inr, inl, eq_iff,
  ◌<>◌, ap, String, Bool-cases, arith, ◌==◌, ℕ, List, subst,
}
use headhunt_agent.Tx.{pure, ok, ◌>>=◌, modify, ◌>>◌, modify}
use headhunt_agent.Tx.Passes.{bind_holds, kept_after}
use headhunt_agent.Value.{
  Fields, entries_of, get, Value, str, dict, field, bool, int, negative, uuid, list, null, end,
}
use headhunt_agent.Codec.{Codec, stable_hash}
use headhunt_agent.Storage.Models.{
  Database, ProposalStatus, ActionProposal, OutboxKind, Uuid, bitable_write,
}
use headhunt_agent.Executor.{
  may_write, Checked, ActionExecutionResult, ExecutionStatus, queue_write, mark_proposal,
  has_proposal_id, set_status, bitable_key, result,
}
use headhunt_agent.Executor.Payload.{BitableSettings, build_bitable_outbox_payload, client_token}
use headhunt_agent.Storage.Tables.{get_proposal, uuid4, Session}
use headhunt_agent.Tx.Keeps.{Keeps, keeps_rules, Keeps-bind, Keeps-pure}
use headhunt_agent.Storage.Writer.Once.{IsQueued, enqueue_json-IsQueued, IsQueued-same}
use headhunt_agent.Storage.Writer.{enqueue_json}
use headhunt_agent.Storage.Writer.Frame.{enqueue_json-SameTables}
use headhunt_agent.Storage.Payloads.{get_json_payload, get_json_payload_reads}

-- The decision approves, or it is an edit that has entries.
pub data Decides (approval : Fields) : Type 0 where
  approves : get "decision" approval ≡ str "approve" → Decides approval
  edits :
      (key : String) (value : Value) (rest : Fields)
      → get "decision" approval ≡ str "edit"
      → get "edited_payload" approval ≡ dict (field key value rest)
      → Decides approval

pub may_write-Decides :
    (c : Codec) (approval : Fields) (decision : String)
    → get "decision" approval ≡ str decision
    → may_write c approval decision ≡ true
    → Decides approval
unfolding may_write entries_of
may_write-Decides c approval decision e h = elim (Bool-cases (str_eq decision "approve")) [
  | inl is_approve ↦ approves (e ∙ ap str ((eq_iff decision "approve").0 is_approve))
  | inr no_approve ↦ elim (Bool-cases (str_eq decision "edit")) [
    | inr other ↦ absurd (cc (rw other at (rw no_approve at h)))
    | inl is_edit ↦
        entries (get "edited_payload" approval) refl
          (e ∙ ap str ((eq_iff decision "edit").0 is_edit)) (rw is_edit at (rw no_approve at h))
  ]
]
  where
    entries :
        (v : Value)
        → get "edited_payload" approval ≡ v
        → get "decision" approval ≡ str "edit"
        → elim (entries_of v) [ none ↦ false | some d ↦ true ] ≡ true
        → Decides approval
    entries (dict (field key value rest)) f d k = edits key value rest d f
    entries (dict end) f d k = absurd (cc)
    entries null f d k = absurd (cc)
    entries (bool b) f d k = absurd (cc)
    entries (int n) f d k = absurd (cc)
    entries (negative n) f d k = absurd (cc)
    entries (str s) f d k = absurd (cc)
    entries (uuid u) f d k = absurd (cc)
    entries (list xs) f d k = absurd (cc)

-- The proposal is approved, and its write waits in the outbox under the proposal's key and id.
pub record IsApproved (c : Codec) (p : ActionProposal) (r : ActionExecutionResult)
    (after : Database) : Type 0 where
  pub answer : r.action_id ≡ p.id
  pub marked : get_proposal p.id after ≡ some (record p { status = ProposalStatus.approved })
  pub payload : Value
  pub ref : String
  pub answered_ref : r.outbox_payload_ref ≡ some ref
  pub is_queued :
      IsQueued
        ("bitable:" <> p.idempotency_key <> ":" <> c.uuid_text p.id)
        (stable_hash c payload)
        ref
        after

module _ (c : Codec) (settings : BitableSettings) (approval : Fields) where
  -- Neither the payload nor the queue changes a proposal.
  abbrev HasProposals : List ActionProposal → Database → Type 0
  HasProposals rows t = t.action_proposals ≡ rows

  client_token-Keeps :
      (rows : List ActionProposal) (o : Option String)
      → Keeps (HasProposals rows) (client_token c o)
  unfolding client_token uuid4
  client_token-Keeps rows none = Keeps-bind uuid4 _ (record { at = λ t h. h }) (λ u. Keeps-pure _)
  client_token-Keeps rows (some s) = Keeps-pure s

  build-Keeps :
      (rows : List ActionProposal) (p : ActionProposal) (proposal_payload : Fields)
      → Keeps
          (HasProposals rows)
          (build_bitable_outbox_payload c settings p proposal_payload approval)
  unfolding build_bitable_outbox_payload
  build-Keeps rows p proposal_payload = search (keeps_rules, client_token-Keeps) depth 24

  enqueue_json-Keeps :
      (rows : List ActionProposal) (kind : OutboxKind) (key : String) (v : Value)
      (thread_id : Option Uuid) (ref : Option String)
      → Keeps (HasProposals rows) (enqueue_json c kind key v thread_id ref)
  enqueue_json-Keeps rows kind key v thread_id ref = record {
    at = λ t h. (enqueue_json-SameTables c kind key v thread_id ref t).action_proposals ∙ h;
  }

  marked_lem :
      (p : ActionProposal) (s : Database)
      → get_proposal p.id s ≡ some p
      → get_proposal p.id (mark_proposal c p ProposalStatus.approved s)
        ≡ some (record p { status = ProposalStatus.approved })
  unfolding get_proposal
  marked_lem p s found =
      let updated =
        find-update_where (has_proposal_id p.id) (has_proposal_id p.id)
          (set_status ProposalStatus.approved) (λ x. refl) s.action_proposals p found in
      rw (same_id p.id) at updated
    where
      same_id : (n : ℕ) → (n == n) ≡ true
      same_id n = ground arith

  abbrev HasProposal : ActionProposal → Database → Type 0
  HasProposal p t = get_proposal p.id t ≡ some p

  still_there :
      (p : ActionProposal) (s s' : Database)
      → HasProposal p s
      → s'.action_proposals ≡ s.action_proposals
      → HasProposal p s'
  unfolding get_proposal
  still_there p s s' found same = rw same found

  abbrev enqueue_write : Checked → Value → Session String
  enqueue_write checked payload =
      enqueue_json c bitable_write (bitable_key c checked.proposal) payload
        (some checked.proposal.thread_id) none

  abbrev finish : Checked → String → Session ActionExecutionResult
  finish checked ref =
      modify (mark_proposal c checked.proposal ProposalStatus.approved)
      >> pure (result checked ExecutionStatus.queued (some ref))

  end_approves :
      (checked : Checked) (payload : Value) (ref : String) (s s' : Database)
      (r : ActionExecutionResult)
      → enqueue_write checked payload s ≡ (ok ref, s')
      → HasProposal checked.proposal s'
      → (finish checked ref s').0 ≡ ok r
      → IsApproved c checked.proposal r (finish checked ref s').1
  unfolding ◌>>=◌ pure modify
  end_approves checked payload ref s s' r queueing found h =
      let p = checked.proposal in
      let queued_after : IsQueued (bitable_key c p) (stable_hash c payload) ref s' =
        subst (λ out. IsQueued (bitable_key c p) (stable_hash c payload) ref out.1) queueing
          (enqueue_json-IsQueued c bitable_write (bitable_key c p) payload (some p.thread_id) none s
            (ap (λ o. o.0) queueing)) in
      record {
        answer = cc (h);
        marked = marked_lem p s' found;
        payload = payload;
        ref = ref;
        answered_ref = cc (h);
        is_queued =
            IsQueued-same (mark_proposal c p ProposalStatus.approved s') queued_after refl refl;
      }

  enqueued :
      (checked : Checked) (payload : Value) (s : Database) (r : ActionExecutionResult)
      → HasProposal checked.proposal s
      → ((enqueue_write checked payload >>= finish checked) s).0 ≡ ok r
      → IsApproved c checked.proposal r ((enqueue_write checked payload >>= finish checked) s).1
  enqueued checked payload s r found h =
      bind_holds (IsApproved c checked.proposal) (enqueue_write checked payload) (finish checked) s
        (λ ref s' b e k.
          end_approves checked payload ref s s' b e
            (still_there checked.proposal s s' found (
              kept_after (enqueue_write checked payload) s s' ref
                (enqueue_json-Keeps s.action_proposals bitable_write
                  (bitable_key c checked.proposal) payload (some checked.proposal.thread_id) none)
                e refl))
            k)
        r h

  abbrev build : Checked → Fields → Session Value
  build checked proposal_payload =
      build_bitable_outbox_payload c settings checked.proposal proposal_payload approval

  built :
      (checked : Checked) (proposal_payload : Fields) (s : Database) (r : ActionExecutionResult)
      → HasProposal checked.proposal s
      → ((build checked proposal_payload >>= λ payload.
            enqueue_write checked payload >>= finish checked)
          s).0
        ≡ ok r
      → IsApproved c checked.proposal r
          ((build checked proposal_payload >>= λ payload.
              enqueue_write checked payload >>= finish checked)
            s).1
  built checked proposal_payload s r found h =
      bind_holds (IsApproved c checked.proposal) (build checked proposal_payload)
        (λ payload. enqueue_write checked payload >>= finish checked) s
        (λ payload s' b e k.
          enqueued checked payload s' b
            (still_there checked.proposal s s' found (
              kept_after (build checked proposal_payload) s s' payload
                (build-Keeps s.action_proposals checked.proposal proposal_payload) e refl))
            k)
        r h

  pub written :
      (checked : Checked) (s : Database) (r : ActionExecutionResult)
      → HasProposal checked.proposal s
      → (queue_write c settings checked approval s).0 ≡ ok r
      → IsApproved c checked.proposal r (queue_write c settings checked approval s).1
  unfolding queue_write
  written checked s r found h =
      bind_holds (IsApproved c checked.proposal) (get_json_payload checked.proposal.payload_ref)
        (λ proposal_payload. build checked proposal_payload >>= λ payload.
          enqueue_write checked payload >>= finish checked)
        s
        (λ proposal_payload s' b e k.
          built checked proposal_payload s' b
            (still_there checked.proposal s s' found (
              kept_after {P = λ t. t.action_proposals ≡ s.action_proposals}
                (get_json_payload checked.proposal.payload_ref) s s' proposal_payload
                (get_json_payload_reads checked.proposal.payload_ref) e refl))
            k)
        r h
