-- ===== src/Events/Once.antt =====
-- An event is logged and queued once.
use headhunt_agent.Prelude.{
  String, Bool, true, Option, List, [], ◌∷◌, ◌++◌, ◌≡◌, any, inl, inr, Bool-cases, arith, ◌||◌,
  str_eq, eq_refl, some, refl,
}
use headhunt_agent.Tx.{ok, raise, map_error, ◌>>=◌, duplicate_event}
use headhunt_agent.Storage.Models.{Uuid, OutboxKind, FeishuEventLog, Database, EventStatus}
use headhunt_agent.Storage.Tables.{has_thread, insert_outbox, has_outbox_key, fits_thread}
use headhunt_agent.Events.{
  record_event_and_enqueue, clashes, record_setup, is_duplicate, CardClick, insert_event,
}

any-append_last :
    {A : Type 0} (p : A → Bool) (xs : List A) (x : A) → p x ≡ true → any p (xs ++ x ∷ []) ≡ true
any-append_last p [] x h = ground arith
any-append_last p (y ∷ ys) x h = ground (arith, any-append_last p ys x h)

-- Two deliveries of one event, by any of the four keys of the log. A message has its key only with a
-- tenant and a message id.
pub data SameEvent (a b : FeishuEventLog) : Type 0 where
  by_event_id : a.event_id ≡ b.event_id → SameEvent a b
  by_dedupe_key : a.dedupe_key ≡ b.dedupe_key → SameEvent a b
  by_idempotency_key : a.idempotency_key ≡ b.idempotency_key → SameEvent a b
  by_message :
      (tenant message : String)
      → a.tenant_key ≡ some tenant
      → b.tenant_key ≡ some tenant
      → a.event_type ≡ b.event_type
      → a.message_id ≡ some message
      → b.message_id ≡ some message
      → SameEvent a b

SameEvent-clashes :
    (a b : FeishuEventLog) (status : EventStatus)
    → SameEvent a b
    → clashes b (record a { status = status }) ≡ true
unfolding clashes
SameEvent-clashes a b status (by_event_id e) = rw e (rw (eq_refl b.event_id) refl)
SameEvent-clashes a b status (by_dedupe_key e) =
    rw e (rw (eq_refl b.dedupe_key) (second (str_eq a.event_id b.event_id)))
  where
    second : (x : Bool) → (x || true) ≡ true
    second x = ground arith
SameEvent-clashes a b status (by_idempotency_key e) = rw e (
    rw (eq_refl b.idempotency_key)
      (third (str_eq a.event_id b.event_id) (str_eq a.dedupe_key b.dedupe_key)))
  where
    third : (x y : Bool) → (x || (y || true)) ≡ true
    third x y = ground arith
SameEvent-clashes a b status (by_message tenant message ta tb e ma mb) = rw ta (
    rw tb (
      rw e (
        rw ma (
          rw mb (
            rw (eq_refl tenant) (
              rw (eq_refl b.event_type) (
                rw (eq_refl message) (
                  fourth (str_eq a.event_id b.event_id) (str_eq a.dedupe_key b.dedupe_key)
                    (str_eq a.idempotency_key b.idempotency_key)))))))))
  where
    fourth : (x y z : Bool) → (x || (y || (z || true))) ≡ true
    fourth x y z = ground arith

module _ (event : FeishuEventLog) (kind : OutboxKind) (payload_ref : Option String)
    (thread_id : Option Uuid) (db : Database) where
  event_is_logged :
      (record_event_and_enqueue event kind payload_ref thread_id db).0 ≡ ok tt
      → (record_event_and_enqueue event kind payload_ref thread_id db).1.feishu_event_logs
        ≡ db.feishu_event_logs ++ record event { status = EventStatus.queued } ∷ []
  unfolding record_event_and_enqueue map_error ◌>>=◌ insert_event insert_outbox
  event_is_logged h = elim (Bool-cases (any (clashes event) db.feishu_event_logs)) [
    | inl clash ↦ absurd (cc (rw clash at h))
    | inr new ↦ elim (Bool-cases (any (has_outbox_key event.idempotency_key) db.feishu_outbox)) [
      | inl used ↦ absurd (cc (rw used at (rw new at h)))
      | inr free ↦ elim (Bool-cases (fits_thread thread_id db.graph_threads)) [
        | inl fits ↦ rw new (rw free (rw fits refl))
        | inr wrong ↦ absurd (cc (rw wrong at (rw free at (rw new at h))))
      ]
    ]
  ]

  refuses :
      any (clashes event) db.feishu_event_logs ≡ true
      → record_event_and_enqueue event kind payload_ref thread_id db ≡ (raise duplicate_event, db)
  unfolding record_event_and_enqueue map_error ◌>>=◌ insert_event
  refuses h = rw h

-- Once an event is recorded, a second delivery of it, which agrees with the first in its event id,
-- its dedupe key, its idempotency key or its tenant, type and message, raises DuplicateEventError
-- and writes nothing.
pub record_event_once :
    (event again : FeishuEventLog) (kind kind' : OutboxKind)
    (payload_ref payload_ref' : Option String) (thread_id thread_id' : Option Uuid) (db : Database)
    → (record_event_and_enqueue event kind payload_ref thread_id db).0 ≡ ok tt
    → SameEvent event again
    → record_event_and_enqueue again kind' payload_ref' thread_id'
        (record_event_and_enqueue event kind payload_ref thread_id db).1
      ≡ (raise duplicate_event, (record_event_and_enqueue event kind payload_ref thread_id db).1)
record_event_once event again kind kind' payload_ref payload_ref' thread_id thread_id' db h same =
    refuses again kind' payload_ref' thread_id'
      (record_event_and_enqueue event kind payload_ref thread_id db).1
      (rw (event_is_logged event kind payload_ref thread_id db h) (
        any-append_last (clashes again) db.feishu_event_logs _
          (SameEvent-clashes event again EventStatus.queued same)))

-- Once the setup of a model is recorded, its key counts as a duplicate.
record_setup-is_duplicate :
    (click : CardClick) (profile_id : Uuid) (payload_ref : String) (db : Database)
    → (record_setup click profile_id payload_ref db).0 ≡ ok tt
    → is_duplicate click.idempotency_key (record_setup click profile_id payload_ref db).1 ≡ true
unfolding record_setup map_error is_duplicate
record_setup-is_duplicate click profile_id payload_ref db h =
    elim (Bool-cases (
      any (λ c. str_eq c.event_id click.event_id || str_eq c.idempotency_key click.idempotency_key)
        db.feishu_card_actions)) [
          | inl used ↦ absurd (cc (rw used at h))
          | inr fresh ↦ elim (Bool-cases (has_thread click.thread_id db.graph_threads)) [
            | inr broken ↦ absurd (cc (rw broken at (rw fresh at h)))
            | inl linked ↦ rw fresh (
                rw linked (
                  any-append_last (λ c. str_eq c.idempotency_key click.idempotency_key)
                    db.feishu_card_actions _ (eq_refl click.idempotency_key)))
          ]
        ]
