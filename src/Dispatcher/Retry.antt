-- ===== src/Dispatcher/Retry.antt =====
-- What a failure leaves behind: the handler's writes are undone, and the item waits.
use headhunt_agent.Dispatcher.{
  dispatch_once, FeishuOutboxDispatcher, OutboxHandler, OutboxDispatchResult, retry_delay,
}
use headhunt_agent.Dispatcher.Settling.{
  dispatch_once_cases, Dispatching, idled, done, failed, failure_of, failed_row,
}
use headhunt_agent.Storage.Claims.{claim_row, claimed_db, has_id, next_candidate, is_claimable}
use headhunt_agent.Storage.Claims.Lease.{IsHeld}
use headhunt_agent.Storage.Models.{Uuid, FeishuOutbox, Database}
use headhunt_agent.Prelude.{
  update_where, Bool, none, All-update_where, inl, All, Option, some, leb, ◌+◌, arith, ℕ, ◌<◌,
  String, inr, Bool-cases, ◌≡◌, refl, All-of_Has, subst,
}

failed_row-IsHeld :
    (d : FeishuOutboxDispatcher) (now time : ℕ) (error : String) (retry_after : Option ℕ)
    (attempts : ℕ) (item_id : Uuid) (x : FeishuOutbox)
    → time < now + retry_delay retry_after d.base_retry_seconds attempts
    → IsHeld time item_id (failed_row d now error retry_after attempts x)
unfolding is_claimable
failed_row-IsHeld d now time error retry_after attempts item_id x early =
    elim (Bool-cases (leb d.max_attempts attempts)) [
      | inl spent ↦ rw spent (λ _. refl)
      | inr left ↦ rw left (λ _. ground arith)
    ]

same_row : {o : Option FeishuOutbox} {x y : FeishuOutbox} → o ≡ some x → o ≡ some y → x ≡ y
same_row p q = cc

same_pair :
    {o : Option (String × Option ℕ)} {a a' : String} {b b' : Option ℕ}
    → o ≡ some (a, b)
    → o ≡ some (a', b')
    → (a ≡ a') × (b ≡ b')
same_pair p q = (cc, cc)

module _ (d : FeishuOutboxDispatcher) (now : ℕ) (locked : Uuid → Bool) (handle : OutboxHandler)
    (db : Database) where
  -- How the handler fails on a row, if it does
  abbrev pub failure_at : FeishuOutbox → Option (String × Option ℕ)
  failure_at row =
      failure_of
        (handle (claim_row d.worker_id now (now + d.claim_lease_seconds) row)
          (claimed_db d.worker_id d.claim_lease_seconds now locked db row)).0

  abbrev pub with_failure : FeishuOutbox → String → Option ℕ → Database
  with_failure row error retry_after = record db {
    feishu_outbox =
        update_where (has_id row.id) (failed_row d now error retry_after (row.attempt_count + 1))
          db.feishu_outbox;
  }

module _ (d : FeishuOutboxDispatcher) (now : ℕ) (locked : Uuid → Bool) (handle : OutboxHandler)
    (db : Database) (row : FeishuOutbox) (error : String) (retry_after : Option ℕ)
    (chosen : next_candidate now locked db.feishu_outbox ≡ some row)
    (fails : failure_at d now locked handle db row ≡ some (error, retry_after)) where
  rolled_back :
      (out : OutboxDispatchResult × Database)
      → Dispatching d now locked handle db out
      → out.1 ≡ with_failure d now locked handle db row error retry_after
  rolled_back out (idled e q) = absurd (cc)
  rolled_back out (done row' db' e ran q s) =
      let again =
        subst (λ r. failure_at d now locked handle db r ≡ some (error, retry_after))
          (same_row chosen e) fails in
      let none_at : failure_at d now locked handle db row' ≡ none = rw ran in
      absurd (cc (again, none_at))
  rolled_back out (failed row' error' retry_after' e ran q) =
      let again =
        subst (λ r. failure_at d now locked handle db r ≡ some (error, retry_after))
          (same_row chosen e) fails in
      let (same_error, same_delay) = same_pair ran again in
      rw q (rw same_error (rw same_delay (rw (same_row e chosen))))

  -- Where the handler of the chosen item fails, with or without a delay of its own, nothing that it
  -- wrote remains: the item alone changes. With its attempts spent it is a dead letter, else it
  -- waits for the delay; its attempts are one more.
  pub dispatch_once_rolls_back :
      (dispatch_once d now locked handle db).1
      ≡ with_failure d now locked handle db row error retry_after
  dispatch_once_rolls_back = rolled_back _ (dispatch_once_cases d now locked handle db)

  -- After a failure no item with that id can be claimed before the delay ends.
  pub dispatch_once-IsHeld :
      (time : ℕ)
      → time < now + retry_delay retry_after d.base_retry_seconds (row.attempt_count + 1)
      → All (IsHeld time row.id) (dispatch_once d now locked handle db).1.feishu_outbox
  dispatch_once-IsHeld time early = rw dispatch_once_rolls_back (
      All-update_where (λ x. x ≡ x) (IsHeld time row.id) (has_id row.id)
        (failed_row d now error retry_after (row.attempt_count + 1))
        (λ x k i.
          failed_row-IsHeld d now time error retry_after (row.attempt_count + 1) row.id x early)
        (λ x k i j. absurd (cc (i, j))) db.feishu_outbox
        (All-of_Has (λ x. x ≡ x) db.feishu_outbox (λ x m. refl)))
