-- ===== src/Dispatcher/Progress.antt =====
-- A dispatch that finds an item to take settles one that was due.
use headhunt_agent.Dispatcher.{
  dispatch_once, FeishuOutboxDispatcher, OutboxHandler, HandlerOutcome, handled, dispatch_error,
  other_error, handle_failure, settle, dispatch_claimed, attempts_of, OutboxDispatchResult,
  DispatchStatus, retry_delay,
}
use headhunt_agent.Storage.Claims.{
  claim_next, claim_next_cases, Claiming, claim_row, nothing, taken, mark_dead_letter,
  mark_succeeded, has_id, release_for_retry, succeed_row, dead_letter_row, retry_row,
}
use headhunt_agent.Storage.Claims.Ranking.{next_candidate-IsNext, IsNext, IsFree}
use headhunt_agent.Prelude.{
  ℕ, String, Bool, false, Option, none, ◌≡◌, ◌≢◌, Has, All-Has, inl, inr, Bool-cases, leb, subst,
  ◌+◌, ◌∷◌, some, ◌==◌, update_where, refl, [], All, arith, List,
}
use headhunt_agent.Storage.Models.{Uuid, FeishuOutbox, Database, OutboxStatus}

-- How a settled row stands in the table: its claim is over, and its status is that of the dispatch.
pub data Ended (row : FeishuOutbox) : DispatchStatus → Type 0 where
  done :
      row.status ≡ OutboxStatus.succeeded
      → row.claim_expires_at ≡ none
      → Ended row DispatchStatus.succeeded
  waiting :
      row.status ≡ OutboxStatus.pending
      → row.claim_expires_at ≡ none
      → Ended row DispatchStatus.retrying
  given_up :
      row.status ≡ OutboxStatus.dead_letter
      → row.claim_expires_at ≡ none
      → Ended row DispatchStatus.dead_letter

-- The result names the item, and the item's row stands as the result says.
pub record IsSettled (item_id : Uuid) (r : OutboxDispatchResult) (db : Database) : Type 0 where
  pub named : r.outbox_id ≡ some item_id
  pub rows : All (λ row. row.id ≡ item_id → Ended row r.status) db.feishu_outbox

updated_rows :
    (item_id : Uuid) (status : DispatchStatus) (f : FeishuOutbox → FeishuOutbox)
    → ((row : FeishuOutbox) → Ended (f row) status)
    → (rows : List FeishuOutbox)
    → All (λ row. row.id ≡ item_id → Ended row status) (update_where (has_id item_id) f rows)
updated_rows item_id status f ends [] = tt
updated_rows item_id status f ends (row ∷ rows) = elim (Bool-cases (has_id item_id row)) [
  | inl hit ↦ rw hit ((λ _. ends row), updated_rows item_id status f ends rows)
  | inr miss ↦
      rw miss ((λ e. absurd (differs row.id miss e)), updated_rows item_id status f ends rows)
]
  where
    differs : (id : ℕ) → (id == item_id) ≡ false → id ≢ item_id
    differs id miss e = ground arith

module _ (d : FeishuOutboxDispatcher) (now : ℕ) where
  failure_settles :
      (item : FeishuOutbox) (error : String) (retry_after : Option ℕ) (db : Database)
      → IsSettled item.id
          (handle_failure d now item error retry_after db).0
          (handle_failure d now item error retry_after db).1
  unfolding handle_failure mark_dead_letter release_for_retry
  failure_settles item error retry_after db =
      elim (Bool-cases (leb d.max_attempts (attempts_of item.attempt_count))) [
        | inl last ↦ rw last (record {
          named = refl;
          rows = updated_rows item.id _ (dead_letter_row error) (λ row. given_up refl refl) _;
        })
        | inr more ↦ rw more (record {
          named = refl;
          rows =
              updated_rows item.id _
                (retry_row
                  (now
                    + retry_delay retry_after d.base_retry_seconds (attempts_of item.attempt_count))
                  error)
                (λ row. waiting refl refl) _;
        })
      ]

  settles :
      (item : FeishuOutbox) (committed db : Database) (outcome : HandlerOutcome)
      → IsSettled item.id
          (settle d now item committed outcome db).0
          (settle d now item committed outcome db).1
  unfolding settle mark_succeeded
  settles item committed db handled = record {
    named = refl;
    rows = updated_rows item.id _ succeed_row (λ row. done refl refl) _;
  }
  settles item committed db (dispatch_error error retry_after) =
      failure_settles item error retry_after committed
  settles item committed db (other_error error) = failure_settles item error none committed

  -- If an item is due, by its time or an ended lease, and free, a dispatch settles such an item, whatever the handler does: the result
  -- names it, and every row with its id in the table ends without a claim, as succeeded, waiting for
  -- a retry or a dead letter, as the result says.
  pub dispatch_once_progress :
      (locked : Uuid → Bool) (handle : OutboxHandler) (db : Database) (row : FeishuOutbox)
      → Has row db.feishu_outbox
      → IsFree now locked row
      → (item : FeishuOutbox) × Has item db.feishu_outbox
        × IsFree now locked item
        × IsSettled item.id
            (dispatch_once d now locked handle db).0
            (dispatch_once d now locked handle db).1
  unfolding dispatch_once dispatch_claimed
  dispatch_once_progress locked handle db row there due =
      go (claim_next_cases d.worker_id d.claim_lease_seconds now locked db)
    where
      go :
          Claiming d.worker_id d.claim_lease_seconds now locked db
            (claim_next d.worker_id d.claim_lease_seconds now locked db)
          → (item : FeishuOutbox) × Has item db.feishu_outbox
            × IsFree now locked item
            × IsSettled item.id
                (dispatch_once d now locked handle db).0
                (dispatch_once d now locked handle db).1
      go (nothing none_due out) =
          let none_free : IsNext now locked db.feishu_outbox none =
            subst (IsNext now locked db.feishu_outbox) none_due
              (next_candidate-IsNext now locked db.feishu_outbox) in
          absurd (All-Has (λ r. ¬ (IsFree now locked r)) row db.feishu_outbox none_free there due)
      go (taken item found out) =
          let first : IsNext now locked db.feishu_outbox (some item) =
            subst (IsNext now locked db.feishu_outbox) found
              (next_candidate-IsNext now locked db.feishu_outbox) in
          (
            item,
            first.0,
            first.1,
            rw out (settles (claim_row d.worker_id now (now + d.claim_lease_seconds) item) _ _ _),
          )
