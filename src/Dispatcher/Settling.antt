-- ===== src/Dispatcher/Settling.antt =====
-- How one dispatch settles the item that it claims.
use headhunt_agent.Dispatcher.{
  dispatch_once, HandlerOutcome, handled, dispatch_error, other_error, FeishuOutboxDispatcher,
  OutboxHandler, attempts_of, OutboxDispatchResult, retry_delay, DispatchStatus, handle_failure,
  settle,
}
use headhunt_agent.Storage.Claims.{
  claim_next_cases, nothing, taken, claim_next, dead_letter_row, retry_row, next_candidate,
  claim_row, claimed_db, has_id, succeed_row, mark_dead_letter, mark_succeeded, release_for_retry,
}
use headhunt_agent.Prelude.{
  ◌+◌, ◌≡◌, none, leb, String, some, if◌then◌else◌, update_where, Option, Bool, ℕ, inl,
  update_where-update_where, Bool-cases, arith, inr, refl, fun_ext, ap,
}
use headhunt_agent.Storage.Models.{Uuid, FeishuOutbox, Database}

-- What a failure makes of a claimed row, after so many attempts.
abbrev pub failed_row :
    FeishuOutboxDispatcher → ℕ → String → Option ℕ → ℕ → FeishuOutbox → FeishuOutbox
failed_row d now error retry_after attempts row =
    if leb d.max_attempts attempts
    then record (dead_letter_row error row) { attempt_count = row.attempt_count + 1 }
    else record (retry_row (now + retry_delay retry_after d.base_retry_seconds attempts) error
        row) { attempt_count = row.attempt_count + 1 }

-- An outcome as a failure, if it is one
abbrev pub failure_of : HandlerOutcome → Option (String × Option ℕ)
failure_of handled = none
failure_of (dispatch_error error retry_after) = some (error, retry_after)
failure_of (other_error error) = some (error, none)

module _ (d : FeishuOutboxDispatcher) (now : ℕ) (locked : Uuid → Bool) (handle : OutboxHandler)
    (db : Database) where
  abbrev claim : Option FeishuOutbox × Database
  claim = claim_next d.worker_id d.claim_lease_seconds now locked db

  -- What a dispatch does: nothing, or it settles a claimed row after the handler.
  pub data Dispatching (out : OutboxDispatchResult × Database) : Type 0 where
    idled :
        next_candidate now locked db.feishu_outbox ≡ none
        → out ≡ (record { outbox_id = none; kind = none; status = DispatchStatus.idle }, db)
        → Dispatching out
    done :
        (row : FeishuOutbox) (db' : Database)
        → next_candidate now locked db.feishu_outbox ≡ some row
        → handle
            (claim_row d.worker_id now (now + d.claim_lease_seconds) row)
            (claimed_db d.worker_id d.claim_lease_seconds now locked db row)
          ≡ (handled, db')
        → out.1 ≡ record db' {
          feishu_outbox = update_where (has_id row.id) succeed_row db'.feishu_outbox;
        }
        → out.0.status ≡ DispatchStatus.succeeded
        → Dispatching out
    failed :
        (row : FeishuOutbox) (error : String) (retry_after : Option ℕ)
        → next_candidate now locked db.feishu_outbox ≡ some row
        → failure_of
            (handle
              (claim_row d.worker_id now (now + d.claim_lease_seconds) row)
              (claimed_db d.worker_id d.claim_lease_seconds now locked db row)).0
          ≡ some (error, retry_after)
        → out.1 ≡ record db {
          feishu_outbox =
              update_where
                (has_id row.id)
                (failed_row d now error retry_after (row.attempt_count + 1))
                db.feishu_outbox;
        }
        → Dispatching out

  with_rows :
      (p : FeishuOutbox → Bool) (f g : FeishuOutbox → FeishuOutbox)
      → ((x : FeishuOutbox) → f x ≡ g x)
      → ◌≡◌ {A = Database}
          (record db { feishu_outbox = update_where p f db.feishu_outbox })
          (record db { feishu_outbox = update_where p g db.feishu_outbox })
  with_rows p f g e =
      ap (λ h. record db { feishu_outbox = update_where p h db.feishu_outbox }) (fun_ext e)

  failure_updates :
      (row : FeishuOutbox) (error : String) (retry_after : Option ℕ)
      → (handle_failure d now
          (claim_row d.worker_id now (now + d.claim_lease_seconds) row)
          error
          retry_after
          (claimed_db d.worker_id d.claim_lease_seconds now locked db row)).1
        ≡ record db {
          feishu_outbox =
              update_where
                (has_id row.id)
                (failed_row d now error retry_after (row.attempt_count + 1))
                db.feishu_outbox;
        }
  unfolding handle_failure mark_dead_letter release_for_retry
  failure_updates row error retry_after =
      let lease = now + d.claim_lease_seconds in
      let attempts : attempts_of (row.attempt_count + 1) ≡ row.attempt_count + 1 = ground arith in
      elim (Bool-cases (leb d.max_attempts (row.attempt_count + 1))) [
        | inl spent ↦ rw attempts (
            rw spent (
              rw
                (update_where-update_where (has_id row.id) (claim_row d.worker_id now lease) _
                  (λ x. refl) db.feishu_outbox)
                (with_rows (has_id row.id)
                  (λ x. dead_letter_row error (claim_row d.worker_id now lease x))
                  (failed_row d now error retry_after (row.attempt_count + 1)) (λ x. rw spent))))
        | inr left ↦ rw attempts (
            rw left (
              rw
                (update_where-update_where (has_id row.id) (claim_row d.worker_id now lease) _
                  (λ x. refl) db.feishu_outbox)
                (with_rows (has_id row.id)
                  (λ x.
                    retry_row
                      (now + retry_delay retry_after d.base_retry_seconds (row.attempt_count + 1))
                      error (claim_row d.worker_id now lease x))
                  (failed_row d now error retry_after (row.attempt_count + 1)) (λ x. rw left))))
      ]

  settle_cases :
      (row : FeishuOutbox) (outcome : HandlerOutcome) (db' : Database)
      → next_candidate now locked db.feishu_outbox ≡ some row
      → handle
          (claim_row d.worker_id now (now + d.claim_lease_seconds) row)
          (claimed_db d.worker_id d.claim_lease_seconds now locked db row)
        ≡ (outcome, db')
      → Dispatching (
          settle d now
            (claim_row d.worker_id now (now + d.claim_lease_seconds) row)
            (claimed_db d.worker_id d.claim_lease_seconds now locked db row)
            outcome
            db')
  unfolding settle mark_succeeded
  settle_cases row handled db' e h = done row db' e h refl refl
  settle_cases row (dispatch_error error retry_after) db' e h =
      failed row error retry_after e (rw h) (failure_updates row error retry_after)
  settle_cases row (other_error error) db' e h =
      failed row error none e (rw h) (failure_updates row error none)

  pub dispatch_once_cases : Dispatching (dispatch_once d now locked handle db)
  unfolding dispatch_once
  dispatch_once_cases = elim (claim_next_cases d.worker_id d.claim_lease_seconds now locked db) [
    | nothing e q ↦ idled e (rw q)
    | taken row e q ↦ rw q (settle_cases row _ _ e refl)
  ]
