-- ===== src/Storage/Writer.antt =====
-- `FeishuOutboxWriteRepository` of app/storage/repositories.py: an outbox item is queued once for
-- each idempotency key, and a second payload under the same key is refused.
pub mod Once
pub mod Frame
use headhunt_agent.Prelude.{
  ◌≡◌, ◌≢◌, refl, String, Bool, true, false, Option, none, some, List, ◌<>◌, or_text, str_eq, find,
  if◌then◌else◌, inl, inr, Option-cases, Bool-cases, eq_refl, str_eq-eq-false, str_eq-cases,
  find-append_new, any-eq-false_of_find,
}
use headhunt_agent.Tx.{
  Result, ok, raise, outbox_payload_conflict, foreign_key_violation, pure, gets, guard, ◌>>=◌, ◌>>◌,
}
use headhunt_agent.Value.{Value}
use headhunt_agent.Codec.{Codec, stable_hash}
use headhunt_agent.Storage.Models.{Uuid, OutboxKind, FeishuOutbox, ArtifactBlob, Database}
use headhunt_agent.Storage.Tables.{
  Session, has_blob_ref, has_outbox_key, fits_thread, get_blob, add_outbox, new_outbox,
  insert_outbox_or_ignore,
}
use headhunt_agent.Storage.Payloads.{
  json_blob, store_json_payload, store_json_payload_cases, Storing, fresh, kept, clash,
}

-- `_existing_outbox`
unfoldable pub existing_outbox : String → Database → Option FeishuOutbox
existing_outbox key db = find (has_outbox_key key) db.feishu_outbox

payload_matches : Option ArtifactBlob → String → Bool
payload_matches none expected_sha256 = false
payload_matches (some existing) expected_sha256 = str_eq existing.sha256 expected_sha256

-- `_ensure_existing_payload_matches`
ensure_existing_payload_matches : String → String → Session (Unit {0})
unfolding payload_matches
ensure_existing_payload_matches existing_payload_ref expected_sha256 = do
  existing_payload ← gets (get_blob existing_payload_ref)
  guard (payload_matches existing_payload expected_sha256) outbox_payload_conflict

-- The end of `enqueue_json`: the reference of the item that is there now.
persisted_ref : String → String → Option FeishuOutbox → Session String
unfolding ensure_existing_payload_matches
persisted_ref ref sha256 none = pure ref
persisted_ref ref sha256 (some persisted) =
    if str_eq persisted.payload_ref ref
    then pure ref
    else do ensure_existing_payload_matches persisted.payload_ref sha256; pure persisted.payload_ref

module _ (c : Codec) (kind : OutboxKind) (key : String) (payload : Value)
    (thread_id : Option Uuid) where
  enqueue_unless_found : String → Option FeishuOutbox → Session String
  unfolding ensure_existing_payload_matches insert_outbox_or_ignore existing_outbox persisted_ref
  enqueue_unless_found ref (some existing) = do
    ensure_existing_payload_matches existing.payload_ref (stable_hash c payload)
    pure existing.payload_ref
  enqueue_unless_found ref none = do
    store_json_payload ref payload (c.dumps payload) (stable_hash c payload)
    insert_outbox_or_ignore kind key thread_id ref
    persisted ← gets (existing_outbox key)
    persisted_ref ref (stable_hash c payload) persisted

  unfoldable pub enqueue_json : Option String → Session String
  unfolding enqueue_unless_found
  enqueue_json content_ref = do
    existing ← gets (existing_outbox key)
    enqueue_unless_found (or_text content_ref ("artifact://outbox/" <> stable_hash c payload))
        existing

  -- What `enqueue_json` does with the reference `ref`.
  pub data Enqueuing (ref : String) (db : Database) (out : Result String × Database) : Type 0 where
    replayed :
        (row : FeishuOutbox) (blob : ArtifactBlob)
        → existing_outbox key db ≡ some row
        → get_blob row.payload_ref db ≡ some blob
        → blob.sha256 ≡ stable_hash c payload
        → out ≡ (ok row.payload_ref, db)
        → Enqueuing ref db out
    mismatched :
        (row : FeishuOutbox)
        → existing_outbox key db ≡ some row
        → ((blob : ArtifactBlob)
            → get_blob row.payload_ref db ≡ some blob
            → blob.sha256 ≢ stable_hash c payload)
        → out ≡ (raise outbox_payload_conflict, db)
        → Enqueuing ref db out
    clashed :
        (blob : ArtifactBlob)
        → existing_outbox key db ≡ none
        → get_blob ref db ≡ some blob
        → blob.sha256 ≢ stable_hash c payload
        → out ≡ (raise outbox_payload_conflict, db)
        → Enqueuing ref db out
    queued :
        (blobs : List ArtifactBlob) (blob : ArtifactBlob)
        → existing_outbox key db ≡ none
        → find (has_blob_ref ref) blobs ≡ some blob
        → blob.sha256 ≡ stable_hash c payload
        → fits_thread thread_id db.graph_threads ≡ true
        → out ≡ (ok ref, add_outbox kind key thread_id ref (record db { artifact_blobs = blobs }))
        → Enqueuing ref db out
    unlinked :
        (blobs : List ArtifactBlob)
        → existing_outbox key db ≡ none
        → fits_thread thread_id db.graph_threads ≡ false
        → out ≡ (raise foreign_key_violation, record db { artifact_blobs = blobs })
        → Enqueuing ref db out

  found_cases :
      (ref : String) (db : Database) (row : FeishuOutbox)
      → existing_outbox key db ≡ some row
      → (o : Option ArtifactBlob) → get_blob row.payload_ref db ≡ o
      → Enqueuing ref db (enqueue_unless_found ref (some row) db)
  unfolding enqueue_unless_found ◌>>=◌
  found_cases ref db row e none absent =
      mismatched row e (λ blob found. absurd (cc (found, absent))) (rw absent)
  found_cases ref db row e (some blob) found =
      elim (str_eq-cases blob.sha256 (stable_hash c payload)) [
        | inl same ↦ replayed row blob e found same (rw found (rw same (rw eq_refl)))
        | inr other ↦
            mismatched row e (λ b q. subst_ne blob b (found_unique q) other)
              (rw found (rw (str_eq-eq-false other)))
      ]
    where
      found_unique : {b : ArtifactBlob} → get_blob row.payload_ref db ≡ some b → blob ≡ b
      found_unique q = cc (found, q)

      subst_ne :
          (x y : ArtifactBlob)
          → x ≡ y
          → x.sha256 ≢ stable_hash c payload
          → y.sha256 ≢ stable_hash c payload
      subst_ne x y q h s = h (rw q s)

  -- Once the payload is stored, the item is inserted if its thread is there.
  insert_cases :
      (ref : String) (db : Database) (blobs : List ArtifactBlob) (blob : ArtifactBlob)
      → existing_outbox key db ≡ none
      → find (has_blob_ref ref) blobs ≡ some blob
      → blob.sha256 ≡ stable_hash c payload
      → store_json_payload ref payload (c.dumps payload) (stable_hash c payload) db
        ≡ (ok ref, record db { artifact_blobs = blobs })
      → Enqueuing ref db (enqueue_unless_found ref none db)
  unfolding enqueue_unless_found ◌>>=◌
  insert_cases ref db blobs blob unused found same stored =
      let row : FeishuOutbox = new_outbox kind key thread_id ref db in
      let added = find-append_new (has_outbox_key key) db.feishu_outbox row unused (eq_refl key) in
      let fresh_key = any-eq-false_of_find (has_outbox_key key) db.feishu_outbox unused in
      elim (Bool-cases (fits_thread thread_id db.graph_threads)) [
        | inl linked ↦
            queued blobs blob unused found same linked
              (rw stored (rw fresh_key (rw linked (rw (added, persisted_ref) (rw eq_refl)))))
        | inr broken ↦ unlinked blobs unused broken (rw stored (rw fresh_key (rw broken)))
      ]

  new_cases :
      (ref : String) (db : Database)
      → existing_outbox key db ≡ none
      → Storing ref
          (stable_hash c payload)
          (json_blob ref payload (c.dumps payload) (stable_hash c payload))
          db
          (store_json_payload ref payload (c.dumps payload) (stable_hash c payload) db)
      → Enqueuing ref db (enqueue_unless_found ref none db)
  unfolding enqueue_unless_found get_blob ◌>>=◌
  new_cases ref db unused (fresh absent out) =
      insert_cases ref db _ _ unused
        (find-append_new (has_blob_ref ref) db.artifact_blobs _ absent (eq_refl ref)) refl out
  new_cases ref db unused (kept blob found same out) =
      insert_cases ref db db.artifact_blobs blob unused found same out
  new_cases ref db unused (clash blob found other out) = clashed blob unused found other (rw out)

  pub enqueue_json_cases :
      (content_ref : Option String) (db : Database)
      → Enqueuing
          (or_text content_ref ("artifact://outbox/" <> stable_hash c payload))
          db
          (enqueue_json content_ref db)
  unfolding enqueue_json ◌>>=◌
  enqueue_json_cases content_ref db = elim (Option-cases (existing_outbox key db)) [
    | inr (row, e) ↦ rw e (found_cases _ db row e (get_blob row.payload_ref db) refl)
    | inl unused ↦ rw unused (
        new_cases (or_text content_ref ("artifact://outbox/" <> stable_hash c payload)) db unused
          (store_json_payload_cases _ payload (c.dumps payload) (stable_hash c payload) db))
  ]
