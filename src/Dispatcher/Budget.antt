-- ===== src/Dispatcher/Budget.antt =====
-- The retry budget of an item, and the delay before its next attempt.
use headhunt_agent.Dispatcher.{
  dispatch_once, FeishuOutboxDispatcher, OutboxHandler, OutboxDispatchResult,
}
use headhunt_agent.Dispatcher.Settling.{
  dispatch_once_cases, Dispatching, idled, done, failed, failed_row,
}
use headhunt_agent.Storage.Claims.{claim_row, claimed_db, has_id, succeed_row}
use headhunt_agent.Storage.Claims.Lease.{Chosen-of}
use headhunt_agent.Storage.Models.{Uuid, FeishuOutbox, Database, OutboxStatus}
use headhunt_agent.Prelude.{
  Option, String, inr, arith, All-Has, leb, ◌+◌, Bool, ◌≡◌, ◌<◌, List, Bool-cases, ℕ, All-of_Has,
  subst, inl, All-update_where, true, All, Has,
}

-- An item that waits has attempts left.
abbrev pub InBudget : ℕ → FeishuOutbox → Type 0
InBudget max_attempts row = row.status ≡ OutboxStatus.pending → row.attempt_count < max_attempts

-- The primary key
abbrev pub HasUniqueIds : List FeishuOutbox → Type 0
HasUniqueIds rows = (x y : FeishuOutbox) → Has x rows → Has y rows → x.id ≡ y.id → x ≡ y

-- A handler that queues no item beyond the budget
abbrev pub RespectsBudget : ℕ → OutboxHandler → Type 0
RespectsBudget max_attempts handle =
    (item : FeishuOutbox) (db : Database)
    → All (InBudget max_attempts) db.feishu_outbox
    → All (InBudget max_attempts) (handle item db).1.feishu_outbox

failed_row-InBudget :
    (d : FeishuOutboxDispatcher) (now : ℕ) (error : String) (retry_after : Option ℕ)
    (row : FeishuOutbox)
    → InBudget d.max_attempts (failed_row d now error retry_after (row.attempt_count + 1) row)
failed_row-InBudget d now error retry_after row =
    elim (Bool-cases (leb d.max_attempts (row.attempt_count + 1))) [
      | inl spent ↦ rw spent (λ h. absurd (cc))
      | inr left ↦ rw left (λ _. ground arith)
    ]

id_eq : (row x : FeishuOutbox) → has_id row.id x ≡ true → row.id ≡ x.id
id_eq row x h = ground arith

module _ (d : FeishuOutboxDispatcher) (now : ℕ) (locked : Uuid → Bool) (handle : OutboxHandler)
    (db : Database) where
  claimed-InBudget :
      (row : FeishuOutbox)
      → All (InBudget d.max_attempts) db.feishu_outbox
      → All
          (InBudget d.max_attempts)
          (claimed_db d.worker_id d.claim_lease_seconds now locked db row).feishu_outbox
  claimed-InBudget row h =
      All-update_where (InBudget d.max_attempts) (InBudget d.max_attempts) (has_id row.id)
        (claim_row d.worker_id now (now + d.claim_lease_seconds)) (λ x k e q. absurd (cc))
        (λ x k e. k) db.feishu_outbox h

  budget_case :
      (out : OutboxDispatchResult × Database)
      → HasUniqueIds db.feishu_outbox
      → All (InBudget d.max_attempts) db.feishu_outbox
      → RespectsBudget d.max_attempts handle
      → Dispatching d now locked handle db out
      → All (InBudget d.max_attempts) out.1.feishu_outbox
  budget_case out unique h keep (idled e q) = rw q h
  budget_case out unique h keep (done row db' e ran q s) = rw q (
      All-update_where (InBudget d.max_attempts) (InBudget d.max_attempts) (has_id row.id)
        succeed_row (λ x k i p. absurd (cc)) (λ x k i. k) db'.feishu_outbox
        (subst (λ r. All (InBudget d.max_attempts) r.1.feishu_outbox) ran
          (keep _ _ (claimed-InBudget row h))))
  budget_case out unique h keep (failed row error retry_after e ran q) =
      let found = (Chosen-of now locked db.feishu_outbox row e).0 in
      let P : FeishuOutbox → Type 0 = λ x. Has x db.feishu_outbox × InBudget d.max_attempts x in
      rw q (
        All-update_where P (InBudget d.max_attempts) (has_id row.id)
          (failed_row d now error retry_after (row.attempt_count + 1))
          (λ x k i.
            subst
              (λ y.
                InBudget d.max_attempts
                  (failed_row d now error retry_after (row.attempt_count + 1) y))
              (unique row x found k.0 (id_eq row x i))
              (failed_row-InBudget d now error retry_after row))
          (λ x k i. k.1) db.feishu_outbox
          (All-of_Has P db.feishu_outbox
            (λ x m. (m, All-Has (InBudget d.max_attempts) x db.feishu_outbox h m))))

  -- Where the ids are unique and the handler queues nothing beyond the budget, a dispatch keeps it
  -- so that every pending item has been attempted fewer than `max_attempts` times.
  pub dispatch_once-InBudget :
      HasUniqueIds db.feishu_outbox
      → All (InBudget d.max_attempts) db.feishu_outbox
      → RespectsBudget d.max_attempts handle
      → All (InBudget d.max_attempts) (dispatch_once d now locked handle db).1.feishu_outbox
  dispatch_once-InBudget unique h keep =
      budget_case _ unique h keep (dispatch_once_cases d now locked handle db)
