-- ===== src/Storage/Tables.antt =====
-- The statements that the repositories execute, with the primary keys, UNIQUE constraints and
-- foreign keys of app/storage/models.py.
use headhunt_agent.Prelude.{
  ◌+◌, String, Bool, true, ◌&&◌, ◌||◌, Option, none, some, List, [], ◌∷◌, ◌++◌, ◌==◌, str_eq, find,
  any, if◌then◌else◌,
}
use headhunt_agent.Tx.{foreign_key_violation, unique_violation, Tx, ok, raise}
use headhunt_agent.Storage.Models.{
  Uuid, OutboxKind, OutboxStatus, FeishuOutbox, ArtifactBlob, GraphThread, ActionProposal,
  HumanApproval, FeishuCardAction, Database,
}

abbrev pub Session : Type 0 → Type 0
Session = Tx Database

-- uuid4(), and the server default gen_random_uuid()
unfoldable pub uuid4 : Session Uuid
uuid4 db = (ok db.next_uuid, record db { next_uuid = db.next_uuid + 1 })

abbrev pub has_blob_ref : String → ArtifactBlob → Bool
has_blob_ref content_ref b = str_eq b.content_ref content_ref

abbrev pub has_outbox_key : String → FeishuOutbox → Bool
has_outbox_key key row = str_eq row.idempotency_key key

abbrev pub has_approval_key : String → HumanApproval → Bool
has_approval_key key row = str_eq row.idempotency_key key

abbrev pub has_proposal_key : String → ActionProposal → Bool
has_proposal_key key row = str_eq row.idempotency_key key

abbrev pub has_thread : Uuid → List GraphThread → Bool
has_thread thread_id threads = any (λ t. t.id == thread_id) threads

-- The foreign key of an optional thread.
abbrev pub fits_thread : Option Uuid → List GraphThread → Bool
fits_thread none threads = true
fits_thread (some thread_id) threads = has_thread thread_id threads

-- session.get(ArtifactBlob, content_ref)
unfoldable pub get_blob : String → Database → Option ArtifactBlob
get_blob content_ref db = find (has_blob_ref content_ref) db.artifact_blobs

-- session.get(ActionProposal, action_id)
unfoldable pub get_proposal : Uuid → Database → Option ActionProposal
get_proposal action_id db = find (λ p. p.id == action_id) db.action_proposals

-- A row as the server completes it: its id, status, counters and times are column defaults.
abbrev pub new_outbox : OutboxKind → String → Option Uuid → String → Database → FeishuOutbox
new_outbox kind key thread_id payload_ref db = record {
  id = db.next_uuid;
  kind = kind;
  idempotency_key = key;
  thread_id = thread_id;
  payload_ref = payload_ref;
  status = OutboxStatus.pending;
  attempt_count = 0;
  next_attempt_at = db.now;
  claimed_by = none;
  claimed_at = none;
  claim_expires_at = none;
  last_error = none;
  created_at = db.now;
}

abbrev pub add_outbox : OutboxKind → String → Option Uuid → String → Database → Database
add_outbox kind key thread_id payload_ref db = record db {
  feishu_outbox = db.feishu_outbox ++ new_outbox kind key thread_id payload_ref db ∷ [];
  next_uuid = db.next_uuid + 1;
}

-- insert(FeishuOutbox).values(...)
unfoldable pub insert_outbox : OutboxKind → String → Option Uuid → String → Session (Unit {0})
insert_outbox kind key thread_id payload_ref db =
    if any (has_outbox_key key) db.feishu_outbox
    then (raise unique_violation, db)
    else if fits_thread thread_id db.graph_threads
    then (ok tt, add_outbox kind key thread_id payload_ref db)
    else (raise foreign_key_violation, db)

-- pg_insert(FeishuOutbox).values(...).on_conflict_do_nothing(index_elements=["idempotency_key"])
unfoldable pub insert_outbox_or_ignore :
    OutboxKind → String → Option Uuid → String → Session (Unit {0})
insert_outbox_or_ignore kind key thread_id payload_ref db =
    if any (has_outbox_key key) db.feishu_outbox
    then (ok tt, db)
    else if fits_thread thread_id db.graph_threads
    then (ok tt, add_outbox kind key thread_id payload_ref db)
    else (raise foreign_key_violation, db)

-- pg_insert(ArtifactBlob).values(...).on_conflict_do_nothing(index_elements=["content_ref"])
unfoldable pub insert_blob_or_ignore : ArtifactBlob → Session (Unit {0})
insert_blob_or_ignore blob db =
    if any (has_blob_ref blob.content_ref) db.artifact_blobs
    then (ok tt, db)
    else (ok tt, record db { artifact_blobs = db.artifact_blobs ++ blob ∷ [] })

-- insert(HumanApproval).values(...), the id by default
unfoldable pub insert_approval : HumanApproval → Session (Unit {0})
insert_approval row db =
    if any (has_approval_key row.idempotency_key) db.human_approvals
    then (raise unique_violation, db)
    else if any (λ p. p.id == row.action_id) db.action_proposals
        && has_thread row.thread_id db.graph_threads
    then (
      ok tt,
      record db {
        human_approvals = db.human_approvals ++ record row { id = db.next_uuid } ∷ [];
        next_uuid = db.next_uuid + 1;
      },
    )
    else (raise foreign_key_violation, db)

-- insert(FeishuCardAction).values(...), the id by default
unfoldable pub insert_card_action : FeishuCardAction → Session (Unit {0})
insert_card_action row db =
    if any (λ c. str_eq c.event_id row.event_id || str_eq c.idempotency_key row.idempotency_key)
      db.feishu_card_actions
    then (raise unique_violation, db)
    else if has_thread row.thread_id db.graph_threads
    then (
      ok tt,
      record db {
        feishu_card_actions = db.feishu_card_actions ++ record row { id = db.next_uuid } ∷ [];
        next_uuid = db.next_uuid + 1;
      },
    )
    else (raise foreign_key_violation, db)

-- pg_insert(ActionProposal).values(...).on_conflict_do_nothing(index_elements=["idempotency_key"])
unfoldable pub insert_proposal_or_ignore : ActionProposal → Session (Unit {0})
insert_proposal_or_ignore row db =
    if any (has_proposal_key row.idempotency_key) db.action_proposals
    then (ok tt, db)
    else if has_thread row.thread_id db.graph_threads
    then (ok tt, record db { action_proposals = db.action_proposals ++ row ∷ [] })
    else (raise foreign_key_violation, db)
