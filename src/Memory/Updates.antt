-- ===== src/Memory/Updates.antt =====
-- app/memory/gateway.py: proposing, approving and revoking a memory, with a database session, and the
-- row that app/memory/vector_store.py upserts for a proposed one. Its embedding is left out.
pub mod Visible
use headhunt_agent.Memory.Retrieve.{MemoryStore, MemoryUpdateProposal, ProposalType, ReviewStatus}
use headhunt_agent.Retention.{
  MemoryItem, MemoryStatus, is_permanent_memory, default_memory_expires_at,
}
use headhunt_agent.Prelude.{
  ℕ, ◌+◌, String, Bool, true, false, ◌&&◌, Option, none, some, List, [], ◌∷◌, ◌++◌, if◌then◌else◌,
  str_eq, ◌==◌, any, find, update_first, or_text, or_default,
}
use headhunt_agent.Value.{Value, Fields, dict_value, field, str, end}
use headhunt_agent.Codec.{Codec}
use headhunt_agent.Storage.Models.{Uuid, Datetime}
use headhunt_agent.Tx.{
  Tx, ok, raise, pure, gets, require, modify, ◌>>=◌, ◌>>◌, key_error, foreign_key_violation,
  unique_violation,
}

abbrev pub has_memory_id : Uuid → MemoryItem → Bool
has_memory_id memory_id row = row.id == memory_id

abbrev pub same_content : MemoryItem → MemoryItem → Bool
same_content item row = str_eq row.content_ref item.content_ref && row.version == item.version

-- on_conflict_do_update(index_elements=["content_ref", "version"]): the row keeps its id, its scope,
-- its owner and its time of creation.
abbrev pub updated_row : MemoryItem → MemoryItem → MemoryItem
updated_row item row = record row {
  summary = item.summary;
  embedding_ref = item.embedding_ref;
  pii_level = item.pii_level;
  status = item.status;
  confidence = item.confidence;
  expires_at = item.expires_at;
  tenant_id = item.tenant_id;
  guild_id = item.guild_id;
  user_id = item.user_id;
  project_id = item.project_id;
  requisition_id = item.requisition_id;
  candidate_id = item.candidate_id;
  thread_id = item.thread_id;
  metadata = item.metadata;
}

-- The statement on memory_items of `PostgresVectorMemoryStore.upsert`. The item comes with its
-- reference to the embedding; the default one for an item without is not modelled.
unfoldable pub upsert_item : MemoryItem → Tx MemoryStore (Unit {0})
upsert_item item s =
    if any (same_content item) s.items
    then (ok tt, record s { items = update_first (same_content item) (updated_row item) s.items })
    else if any (has_memory_id item.id) s.items
    then (raise unique_violation, s)
    else (ok tt, record s { items = s.items ++ item ∷ [] })

-- A new proposal, with the foreign key of its memory
unfoldable pub insert_proposal : MemoryUpdateProposal → Tx MemoryStore Uuid
insert_proposal proposal s =
    if any (has_memory_id proposal.memory_id) s.items
    then (
      ok s.next_uuid,
      record s {
        proposals = s.proposals ++ record proposal { id = s.next_uuid } ∷ [];
        next_uuid = s.next_uuid + 1;
      },
    )
    else (raise foreign_key_violation, s)

abbrev pub set_proposal :
    Uuid → (MemoryUpdateProposal → MemoryUpdateProposal) → MemoryStore → MemoryStore
set_proposal id f s = record s { proposals = update_first (λ p. p.id == id) f s.proposals }

abbrev pub set_item : Uuid → (MemoryItem → MemoryItem) → MemoryStore → MemoryStore
set_item id f s = record s { items = update_first (has_memory_id id) f s.items }

module _ (c : Codec) where
  -- `_expires_at_for_memory_item`
  unfoldable pub expires_at_for_memory_item : Datetime → MemoryItem → Option Datetime
  unfolding is_permanent_memory default_memory_expires_at dict_value
  expires_at_for_memory_item created_at item =
      if is_permanent_memory c (dict_value item.metadata) then none else elim item.expires_at [
        | some t ↦ some t
        | none ↦
            default_memory_expires_at c created_at item.scope (some created_at)
              (dict_value item.metadata)
      ]

  abbrev pub is_run_memory : MemoryItem → Bool
  is_run_memory item = str_eq item.scope "RunMemory"

  -- The item as it is stored
  abbrev pub stored_item : String → MemoryItem → Datetime → MemoryItem
  unfolding expires_at_for_memory_item
  stored_item agent_name item now = record item {
    owner_agent = some (or_text item.owner_agent agent_name);
    status = if is_run_memory item then MemoryStatus.active else MemoryStatus.pending_review;
    expires_at = expires_at_for_memory_item now item;
    created_at = some now;
    updated_at = now;
  }

  abbrev pub create_proposal : MemoryItem → MemoryUpdateProposal
  create_proposal item = record {
    id = 0;
    memory_id = item.id;
    proposal_type = ProposalType.create;
    payload_ref = item.content_ref;
    status = ReviewStatus.pending;
    approver = none;
    decision_reason = none;
    decided_at = none;
  }

  record_proposal : Bool → MemoryItem → Tx MemoryStore Uuid
  unfolding insert_proposal
  record_proposal true item = pure item.id
  record_proposal false item = insert_proposal (create_proposal item)

  -- The id that comes back is a text in the code.
  unfoldable pub propose_update : String → MemoryItem → Tx MemoryStore Uuid
  unfolding record_proposal upsert_item
  propose_update agent_name item = do
    now ← gets (λ s. s.now)
    upsert_item (stored_item agent_name item now)
    record_proposal (is_run_memory item) item

  abbrev pub approved_proposal : String → Datetime → MemoryUpdateProposal → MemoryUpdateProposal
  approved_proposal reviewer now p = record p {
    status = ReviewStatus.approved;
    approver = some (field "reviewer" (str reviewer) end);
    decided_at = some now;
  }

  -- An approved memory is active, with the expiry of its scope from now on, or with none if it is
  -- permanent.
  abbrev pub approved_item : Datetime → MemoryItem → MemoryItem
  unfolding is_permanent_memory default_memory_expires_at dict_value
  approved_item now row = record row {
    status = MemoryStatus.active;
    expires_at =
        if is_permanent_memory c (dict_value row.metadata)
        then none
        else default_memory_expires_at c now row.scope (some now) (dict_value row.metadata);
  }

  unfoldable pub approve_update : Uuid → String → Tx MemoryStore (Unit {0})
  approve_update proposal_id reviewer = do
    found ← gets (λ s. find (λ p. p.id == proposal_id) s.proposals)
    proposal ← require found key_error
    there ← gets (λ s. find (has_memory_id proposal.memory_id) s.items)
    memory ← require there key_error
    modify (λ s. set_proposal proposal_id (approved_proposal reviewer s.now) s)
    modify (λ s. set_item memory.id (approved_item s.now) s)

  abbrev pub revoked_item : MemoryItem → MemoryItem
  revoked_item row = record row { status = MemoryStatus.revoked }

  abbrev pub revoke_proposal : MemoryItem → String → String → Datetime → MemoryUpdateProposal
  revoke_proposal memory reviewer reason now = record {
    id = 0;
    memory_id = memory.id;
    proposal_type = ProposalType.revoke;
    payload_ref = memory.content_ref;
    status = ReviewStatus.approved;
    approver = some (field "reviewer" (str reviewer) end);
    decision_reason = some reason;
    decided_at = some now;
  }

  unfoldable pub revoke_update : Uuid → String → String → Tx MemoryStore (Unit {0})
  unfolding insert_proposal
  revoke_update memory_id reviewer reason = do
    found ← gets (λ s. find (has_memory_id memory_id) s.items)
    memory ← require found key_error
    modify (set_item memory_id revoked_item)
    now ← gets (λ s. s.now)
    insert_proposal (revoke_proposal memory reviewer reason now)
    pure tt
