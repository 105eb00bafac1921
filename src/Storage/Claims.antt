-- ===== src/Storage/Claims.antt =====
-- `FeishuOutboxRepository` of app/storage/repositories.py: workers claim outbox items for a lease.
-- `locked` tells which rows another transaction holds: SKIP LOCKED passes over them.
pub mod Order
pub mod Ranking
pub mod Lease
use headhunt_agent.Storage.Models.{
  Uuid, OutboxKind, card_send, card_update, task_confirmation_prepare, bitable_write, resume,
  OutboxStatus, pending, claimed, succeeded, dead_letter, FeishuOutbox, Database,
}
use headhunt_agent.Prelude.{
  none, not, ◌∷◌, false, ◌+◌, ◌&&◌, List, Option, ◌||◌, true, ◌==◌, if◌then◌else◌, String, [], ℕ,
  leb, update_where, ltb, some, Bool, inr, ◌≡◌, inl, Option-cases,
}

is_pending : OutboxStatus → Bool
is_pending pending = true
is_pending _ = false

is_claimed : OutboxStatus → Bool
is_claimed claimed = true
is_claimed _ = false

-- claim_expires_at.is_not(None) and claim_expires_at <= current_time
abbrev is_due : Option ℕ → ℕ → Bool
is_due none current_time = false
is_due (some expires_at) current_time = leb expires_at current_time

-- The `where` of `build_claimable_outbox_query`
unfoldable pub is_claimable : ℕ → FeishuOutbox → Bool
unfolding is_pending is_claimed
is_claimable current_time row =
    is_pending row.status && leb row.next_attempt_at current_time
    || is_claimed row.status && is_due row.claim_expires_at current_time

-- The `case` of its `order_by`
unfoldable pub priority : OutboxKind → ℕ
priority card_send = 0
priority card_update = 0
priority task_confirmation_prepare = 0
priority bitable_write = 1
priority resume = 1
priority _ = 2

-- Ascending, and the first key that differs decides.
unfoldable pub lex : ℕ → ℕ → Bool → Bool
lex a b later = if a == b then later else ltb a b

abbrev null_rank : Option ℕ → ℕ
null_rank none = 1
null_rank (some t) = 0

abbrev time_or_zero : Option ℕ → ℕ
time_or_zero none = 0
time_or_zero (some t) = t

-- The last two keys of the `order_by`: claim_expires_at with its nulls last, and created_at.
unfoldable pub expires_before : FeishuOutbox → FeishuOutbox → Bool
expires_before a b = lex (null_rank a.claim_expires_at) (null_rank b.claim_expires_at) (
    lex (time_or_zero a.claim_expires_at) (time_or_zero b.claim_expires_at)
      (ltb a.created_at b.created_at))

-- The whole `order_by`: does `a` come strictly before `b`?
unfoldable pub comes_before : FeishuOutbox → FeishuOutbox → Bool
comes_before a b =
    lex (priority a.kind) (priority b.kind)
      (lex a.next_attempt_at b.next_attempt_at (expires_before a b))

unfoldable pub earlier : FeishuOutbox → Option FeishuOutbox → Option FeishuOutbox
earlier row none = some row
earlier row (some best) = if comes_before best row then some best else some row

module _ (current_time : ℕ) (locked : Uuid → Bool) where
  abbrev pub is_candidate : FeishuOutbox → Bool
  is_candidate row = is_claimable current_time row && not (locked row.id)

  -- `build_claimable_outbox_query` with its limit of one
  unfoldable pub next_candidate : List FeishuOutbox → Option FeishuOutbox
  unfolding earlier
  next_candidate [] = none
  next_candidate (row ∷ rows) =
      let rest = next_candidate rows in if is_candidate row then earlier row rest else rest

abbrev pub has_id : Uuid → FeishuOutbox → Bool
has_id outbox_id row = row.id == outbox_id

abbrev pub claim_row : String → ℕ → ℕ → FeishuOutbox → FeishuOutbox
claim_row worker_id current_time lease_until row = record row {
  status = claimed;
  claimed_by = some worker_id;
  claimed_at = some current_time;
  claim_expires_at = some lease_until;
  attempt_count = row.attempt_count + 1;
}

abbrev update_outbox : Uuid → (FeishuOutbox → FeishuOutbox) → Database → Database
update_outbox outbox_id f db = record db {
  feishu_outbox = update_where (has_id outbox_id) f db.feishu_outbox;
}

module _ (worker_id : String) (lease_seconds current_time : ℕ) where
  claim_found : Option FeishuOutbox → Database → Option FeishuOutbox × Database
  claim_found none db = (none, db)
  claim_found (some item) db =
      let claim = claim_row worker_id current_time (current_time + lease_seconds) in
      (some (claim item), update_outbox item.id claim db)

  -- The item comes back as the session holds it after the update.
  unfoldable pub claim_next : (Uuid → Bool) → Database → Option FeishuOutbox × Database
  unfolding claim_found
  claim_next locked db = claim_found (next_candidate current_time locked db.feishu_outbox) db

abbrev pub succeed_row : FeishuOutbox → FeishuOutbox
succeed_row row = record row {
  status = succeeded;
  claimed_by = none;
  claimed_at = none;
  claim_expires_at = none;
  last_error = none;
}

abbrev pub retry_row : ℕ → String → FeishuOutbox → FeishuOutbox
retry_row next_attempt_at error row = record row {
  status = pending;
  next_attempt_at = next_attempt_at;
  claimed_by = none;
  claimed_at = none;
  claim_expires_at = none;
  last_error = some error;
}

abbrev pub dead_letter_row : String → FeishuOutbox → FeishuOutbox
dead_letter_row error row = record row {
  status = dead_letter;
  claimed_by = none;
  claimed_at = none;
  claim_expires_at = none;
  last_error = some error;
}

unfoldable pub mark_succeeded : Uuid → Database → Database
mark_succeeded outbox_id = update_outbox outbox_id succeed_row

unfoldable pub release_for_retry : Uuid → ℕ → String → Database → Database
release_for_retry outbox_id next_attempt_at error =
    update_outbox outbox_id (retry_row next_attempt_at error)

unfoldable pub mark_dead_letter : Uuid → String → Database → Database
mark_dead_letter outbox_id error = update_outbox outbox_id (dead_letter_row error)

module _ (worker_id : String) (lease_seconds now : ℕ) (locked : Uuid → Bool) (db : Database) where
  abbrev pub claimed_db : FeishuOutbox → Database
  claimed_db row = record db {
    feishu_outbox =
        update_where (has_id row.id) (claim_row worker_id now (now + lease_seconds))
          db.feishu_outbox;
  }

  pub data Claiming (out : Option FeishuOutbox × Database) : Type 0 where
    nothing : next_candidate now locked db.feishu_outbox ≡ none → out ≡ (none, db) → Claiming out
    taken :
        (row : FeishuOutbox)
        → next_candidate now locked db.feishu_outbox ≡ some row
        → out ≡ (some (claim_row worker_id now (now + lease_seconds) row), claimed_db row)
        → Claiming out

  pub claim_next_cases : Claiming (claim_next worker_id lease_seconds now locked db)
  unfolding claim_next
  claim_next_cases = elim (Option-cases (next_candidate now locked db.feishu_outbox)) [
    | inl e ↦ nothing e (rw e)
    | inr (row, e) ↦ taken row e (rw e)
  ]
