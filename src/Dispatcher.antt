-- ===== src/Dispatcher.antt =====
-- app/feishu/dispatcher.py: a worker claims one outbox item, hands it to the handler, and settles
-- it: succeeded, back for a retry, or a dead letter. A rollback returns to the committed claim.
pub mod Settling
pub mod Budget
pub mod Retry
pub mod Progress
use headhunt_agent.Storage.Claims.{claim_next, mark_succeeded, release_for_retry, mark_dead_letter}
use headhunt_agent.Storage.Models.{Uuid, OutboxKind, FeishuOutbox, Database}
use headhunt_agent.Prelude.{
  ◌^◌, ◌*◌, Bool, ◌+◌, if◌then◌else◌, leb, zero, none, any, false, true, ◌∷◌, Option, [], String,
  some, ◌-◌, ℕ, suc,
}

pub record FeishuOutboxDispatcher : Type 0 where
  pub worker_id : String
  pub max_attempts : ℕ
  pub base_retry_seconds : ℕ
  pub claim_lease_seconds : ℕ

-- How a handler ends: an OutboxDispatchError has its own delay or none, and any other exception is
-- wrapped without one. The texts are those of `str(exc)`.
pub data HandlerOutcome : Type 0 where
  handled : HandlerOutcome
  dispatch_error : String → Option ℕ → HandlerOutcome
  other_error : String → HandlerOutcome

-- `OutboxHandler`: what it does in the session, and how it ends
abbrev pub OutboxHandler : Type 0
OutboxHandler = FeishuOutbox → Database → HandlerOutcome × Database

pub data DispatchStatus : Type 0 where
  idle succeeded retrying dead_letter : DispatchStatus

pub record OutboxDispatchResult : Type 0 where
  pub outbox_id : Option Uuid
  pub kind : Option OutboxKind
  pub status : DispatchStatus

abbrev settled : FeishuOutbox → DispatchStatus → OutboxDispatchResult
settled item status = record { outbox_id = some item.id; kind = some item.kind; status = status }

-- attempts = item.attempt_count or 1
abbrev pub attempts_of : ℕ → ℕ
attempts_of zero = 1
attempts_of (suc n) = suc n

-- exc.retry_after_seconds or base_retry_seconds * (2 ** (attempts - 1))
unfoldable pub retry_delay : Option ℕ → ℕ → ℕ → ℕ
retry_delay none base attempts = base * 2 ^ (attempts - 1)
retry_delay (some zero) base attempts = base * 2 ^ (attempts - 1)
retry_delay (some (suc seconds)) base attempts = suc seconds

module _ (d : FeishuOutboxDispatcher) (current_time : ℕ) where
  -- `_handle_failure`, from the state after the rollback
  handle_failure : FeishuOutbox → String → Option ℕ → Database → OutboxDispatchResult × Database
  handle_failure item error retry_after db =
      let attempts = attempts_of item.attempt_count in
      if leb d.max_attempts attempts
      then (settled item dead_letter, mark_dead_letter item.id error db)
      else (
        settled item retrying,
        release_for_retry item.id
            (current_time + retry_delay retry_after d.base_retry_seconds attempts) error db,
      )

  -- What follows the handler, from the claimed state and the handler's
  settle : FeishuOutbox → Database → HandlerOutcome → Database → OutboxDispatchResult × Database
  unfolding handle_failure
  settle item committed handled db = (settled item succeeded, mark_succeeded item.id db)
  settle item committed (dispatch_error error retry_after) db =
      handle_failure item error retry_after committed
  settle item committed (other_error error) db = handle_failure item error none committed

  dispatch_claimed :
      OutboxHandler → Option FeishuOutbox → Database → OutboxDispatchResult × Database
  unfolding settle
  dispatch_claimed handle none db = (record { outbox_id = none; kind = none; status = idle }, db)
  dispatch_claimed handle (some item) db =
      let (outcome, db') = handle item db in settle item db outcome db'

  unfoldable pub dispatch_once :
      (Uuid → Bool) → OutboxHandler → Database → OutboxDispatchResult × Database
  unfolding dispatch_claimed
  dispatch_once locked handle db =
      let (item, claimed) = claim_next d.worker_id d.claim_lease_seconds current_time locked db in
      dispatch_claimed handle item claimed
