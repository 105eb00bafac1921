-- ===== src/Memory/Updates/Visible.antt =====
-- Which of the proposed memories a search can see.
use headhunt_agent.Memory.Updates.{
  has_memory_id, same_content, upsert_item, insert_proposal, propose_update, record_proposal,
  revoke_update, revoked_item, stored_item, is_run_memory, create_proposal, updated_row,
}
use headhunt_agent.Memory.Retrieve.{MemoryStore, MemoryUpdateProposal}
use headhunt_agent.Memory.Search.{SearchFilters, is_visible, is_live}
use headhunt_agent.Retention.{MemoryItem}
use headhunt_agent.Prelude.{
  String, Bool, true, false, some, ◌≡◌, refl, any, find, find-update_first, inl, inr, Option-cases,
  Bool-cases, update_first, any-update_first,
}
use headhunt_agent.Value.{Value}
use headhunt_agent.Codec.{Codec}
use headhunt_agent.Storage.Models.{Uuid}
use headhunt_agent.Tx.{ok, raise, ◌>>=◌, foreign_key_violation}

-- Only an active memory is visible.
hidden_unless_active :
    (json_contains : Value → Value → Bool) (f : SearchFilters) (row : MemoryItem)
    → is_live f.now row ≡ false
    → is_visible json_contains f row ≡ false
unfolding is_visible
hidden_unless_active json_contains f row h = rw h refl

module _ (c : Codec) (memory_id : Uuid) (reviewer reason : String) (s : MemoryStore) where
  revoke_case :
      (row : MemoryItem)
      → find (has_memory_id memory_id) s.items ≡ some row
      → find (has_memory_id memory_id) (revoke_update c memory_id reviewer reason s).1.items
        ≡ some (revoked_item c row)
  unfolding revoke_update ◌>>=◌
  revoke_case row found =
      let changed = update_first (has_memory_id memory_id) (revoked_item c) s.items in
      let there =
        find-update_first (has_memory_id memory_id) (revoked_item c) (λ x. refl) s.items row
          found in
      elim (Bool-cases (any (has_memory_id row.id) changed)) [
        | inl known ↦ rw found (rw known there)
        | inr unknown ↦ rw found (rw unknown there)
      ]

  -- After a revocation the memory is there, and no search sees it.
  pub revoke_update-is_visible :
      (json_contains : Value → Value → Bool) (f : SearchFilters)
      → (revoke_update c memory_id reviewer reason s).0 ≡ ok tt
      → (row : MemoryItem) × (find
            (has_memory_id memory_id)
            (revoke_update c memory_id reviewer reason s).1.items
          ≡ some row)
        × (is_visible json_contains f row ≡ false)
  unfolding revoke_update ◌>>=◌
  revoke_update-is_visible json_contains f h =
      elim (Option-cases (find (has_memory_id memory_id) s.items)) [
        | inl absent ↦ absurd (cc (rw absent at h))
        | inr (row, found) ↦ (
          revoked_item c row,
          revoke_case row found,
          hidden_unless_active json_contains f (revoked_item c row) refl,
        )
      ]

-- On a conflict no row is added, and each keeps its id.
upsert_found :
    (item : MemoryItem) (s : MemoryStore)
    → any (same_content item) s.items ≡ true
    → upsert_item item s
      ≡ (ok tt, record s { items = update_first (same_content item) (updated_row item) s.items })
unfolding upsert_item
upsert_found item s stored = rw stored refl

proposes_unknown :
    (proposal : MemoryUpdateProposal) (s : MemoryStore)
    → any (has_memory_id proposal.memory_id) s.items ≡ false
    → insert_proposal proposal s ≡ (raise foreign_key_violation, s)
unfolding insert_proposal
proposes_unknown proposal s unknown = rw unknown refl

conflicting :
    (c : Codec) (item row : MemoryItem) (run : Bool) (s : MemoryStore)
    → run ≡ false
    → any (same_content row) s.items ≡ true
    → any (has_memory_id item.id) s.items ≡ false
    → ((upsert_item row >>= λ _. record_proposal c run item) s).0 ≡ raise foreign_key_violation
unfolding ◌>>=◌ record_proposal
conflicting c item row run s long stored unknown =
    let still =
      any-update_first (has_memory_id item.id) (same_content row) (updated_row row) (λ x. refl)
        s.items in
    rw (upsert_found row s stored) (
      rw long (
        rw
          (proposes_unknown (create_proposal c item)
            (record s { items = update_first (same_content row) (updated_row row) s.items })
            (rw still unknown))
          refl))

-- A long-term memory whose content and version are stored already under another id cannot be
-- proposed: the proposal names an id that is in no row.
pub propose_update_conflict :
    (c : Codec) (agent_name : String) (item : MemoryItem) (s : MemoryStore)
    → is_run_memory c item ≡ false
    → any (same_content item) s.items ≡ true
    → any (has_memory_id item.id) s.items ≡ false
    → (propose_update c agent_name item s).0 ≡ raise foreign_key_violation
unfolding propose_update ◌>>=◌ stored_item
propose_update_conflict c agent_name item s long stored unknown =
    conflicting c item (stored_item c agent_name item s.now) (is_run_memory c item) s long stored
      unknown
