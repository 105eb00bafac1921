-- ===== src/Storage/Writer/Once.antt =====
-- Queueing under an idempotency key: what a success leaves behind, and what a repetition does.
use headhunt_agent.Prelude.{◌≡◌, ◌≢◌, subst, String, Option, some, eq_refl, find-append_new}
use headhunt_agent.Tx.{Result, ok, raise, outbox_payload_conflict}
use headhunt_agent.Value.{Value}
use headhunt_agent.Codec.{Codec, stable_hash}
use headhunt_agent.Storage.Models.{Uuid, OutboxKind, FeishuOutbox, ArtifactBlob, Database}
use headhunt_agent.Storage.Tables.{has_outbox_key, get_blob, new_outbox}
use headhunt_agent.Storage.Writer.{
  existing_outbox, enqueue_json, enqueue_json_cases, Enqueuing, replayed, mismatched, clashed,
  queued, unlinked,
}

-- The outbox has an item under the key, and its payload is stored under the reference.
pub record IsQueued (key hash ref : String) (db : Database) : Type 0 where
  pub row : FeishuOutbox
  pub blob : ArtifactBlob
  pub row_found : existing_outbox key db ≡ some row
  pub row_ref : row.payload_ref ≡ ref
  pub blob_found : get_blob ref db ≡ some blob
  pub blob_hash : blob.sha256 ≡ hash

found_ref :
    {x y : String} {out : Result String × Database} {db : Database}
    → out ≡ (ok x, db)
    → out.0 ≡ ok y
    → x ≡ y
found_ref q h = cc

module _ (c : Codec) (kind : OutboxKind) (key : String) (payload : Value)
    (thread_id : Option Uuid) where
  IsQueued-after :
      (r ref : String) (db : Database) (out : Result String × Database)
      → Enqueuing c kind key payload thread_id r db out
      → out.0 ≡ ok ref
      → IsQueued key (stable_hash c payload) ref out.1
  unfolding existing_outbox get_blob
  IsQueued-after r ref db out (replayed row blob e found same q) h = record {
    row = row;
    blob = blob;
    row_found = cc;
    row_ref = cc;
    blob_found = subst (λ x. get_blob x out.1 ≡ some blob) (found_ref q h) (rw q found);
    blob_hash = same;
  }
  IsQueued-after r ref db out (mismatched row e other q) h = absurd (cc)
  IsQueued-after r ref db out (clashed blob e found other q) h = absurd (cc)
  IsQueued-after r ref db out (queued blobs blob e found same linked q) h = record {
    row = new_outbox kind key thread_id r db;
    blob = blob;
    row_found = rw q (find-append_new (has_outbox_key key) db.feishu_outbox _ e (eq_refl key));
    row_ref = cc;
    blob_found = subst (λ x. get_blob x out.1 ≡ some blob) (found_ref q h) (rw q found);
    blob_hash = same;
  }
  IsQueued-after r ref db out (unlinked blobs e broken q) h = absurd (cc)

  pub enqueue_json-IsQueued :
      (content_ref : Option String) (db : Database) {ref : String}
      → (enqueue_json c kind key payload thread_id content_ref db).0 ≡ ok ref
      → IsQueued key
          (stable_hash c payload)
          ref
          (enqueue_json c kind key payload thread_id content_ref db).1
  enqueue_json-IsQueued content_ref db h =
      IsQueued-after _ _ db _ (enqueue_json_cases c kind key payload thread_id content_ref db) h

  replay_case :
      (r ref : String) (db : Database) (out : Result String × Database)
      → IsQueued key (stable_hash c payload) ref db
      → Enqueuing c kind key payload thread_id r db out
      → out ≡ (ok ref, db)
  replay_case r ref db out h (replayed row blob e found same q) = cc (q, e, h.row_found, h.row_ref)
  replay_case r ref db out h (mismatched row e other q) =
      absurd (other h.blob (cc (e, h.row_found, h.row_ref, h.blob_found)) h.blob_hash)
  replay_case r ref db out h (clashed blob e found other q) = absurd (cc (e, h.row_found))
  replay_case r ref db out h (queued blobs blob e found same linked q) =
      absurd (cc (e, h.row_found))
  replay_case r ref db out h (unlinked blobs e broken q) = absurd (cc (e, h.row_found))

  -- Queueing what is queued already returns its reference and changes nothing.
  pub enqueue_json_replay :
      (content_ref : Option String) (db : Database) {ref : String}
      → IsQueued key (stable_hash c payload) ref db
      → enqueue_json c kind key payload thread_id content_ref db ≡ (ok ref, db)
  enqueue_json_replay content_ref db h =
      replay_case _ _ db _ h (enqueue_json_cases c kind key payload thread_id content_ref db)

  refuse_case :
      (r : String) (db : Database) (out : Result String × Database) (row : FeishuOutbox)
      → existing_outbox key db ≡ some row
      → ((blob : ArtifactBlob)
          → get_blob row.payload_ref db ≡ some blob
          → blob.sha256 ≢ stable_hash c payload)
      → Enqueuing c kind key payload thread_id r db out
      → out ≡ (raise outbox_payload_conflict, db)
  refuse_case r db out row h other (replayed row' blob e found same q) =
      absurd (other blob (cc (e, h, found)) same)
  refuse_case r db out row h other (mismatched row' e other' q) = q
  refuse_case r db out row h other (clashed blob e found other' q) = q
  refuse_case r db out row h other (queued blobs blob e found same linked q) = absurd (cc (e, h))
  refuse_case r db out row h other (unlinked blobs e broken q) = absurd (cc (e, h))

  -- A key that is in use for another payload is refused, and nothing changes.
  pub enqueue_json_refuses :
      (content_ref : Option String) (db : Database) (row : FeishuOutbox)
      → existing_outbox key db ≡ some row
      → ((blob : ArtifactBlob)
          → get_blob row.payload_ref db ≡ some blob
          → blob.sha256 ≢ stable_hash c payload)
      → enqueue_json c kind key payload thread_id content_ref db
        ≡ (raise outbox_payload_conflict, db)
  enqueue_json_refuses content_ref db row h other =
      refuse_case _ db _ row h other
        (enqueue_json_cases c kind key payload thread_id content_ref db)

-- A success, repeated under the same key with the same payload, returns the same reference and
-- leaves the database as it is, whatever else the second request says.
pub enqueue_json_idem :
    (c : Codec) (kind kind' : OutboxKind) (key : String) (payload : Value)
    (thread_id thread_id' : Option Uuid) (content_ref content_ref' : Option String) (db : Database)
    {ref : String}
    → (enqueue_json c kind key payload thread_id content_ref db).0 ≡ ok ref
    → enqueue_json c kind' key payload thread_id' content_ref'
        (enqueue_json c kind key payload thread_id content_ref db).1
      ≡ (ok ref, (enqueue_json c kind key payload thread_id content_ref db).1)
enqueue_json_idem c kind kind' key payload thread_id thread_id' content_ref content_ref' db h =
    enqueue_json_replay c kind' key payload thread_id' content_ref' _
      (enqueue_json-IsQueued c kind key payload thread_id content_ref db h)

-- What is queued stays so where the outbox and the payloads stay.
pub IsQueued-same :
    {key hash ref : String} {db : Database} (db' : Database)
    → IsQueued key hash ref db
    → db'.feishu_outbox ≡ db.feishu_outbox
    → db'.artifact_blobs ≡ db.artifact_blobs
    → IsQueued key hash ref db'
unfolding existing_outbox get_blob
IsQueued-same {key} {hash} {ref} db' h outbox blobs = record {
  row = h.row;
  blob = h.blob;
  row_found = rw outbox h.row_found;
  row_ref = h.row_ref;
  blob_found = rw blobs h.blob_found;
  blob_hash = h.blob_hash;
}
