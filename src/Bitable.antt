-- ===== src/Bitable.antt =====
-- `BitableSyncRepository` of app/storage/repositories.py: the chunks of records that were written to
-- Feishu's Bitable, and the map from entities to records, in their own two tables.
pub mod Final
use headhunt_agent.Prelude.{
  ℕ, ◌+◌, String, Bool, true, false, not, ◌&&◌, ◌||◌, Option, none, some, List, [], ◌∷◌, ◌++◌,
  if◌then◌else◌, str_eq, ◌==◌, any, all, find, length, update_first, or_text, is_some, map,
}
use headhunt_agent.Tx.{
  Tx, ok, raise, pure, throw, gets, require, guard, ◌>>=◌, ◌>>◌, value_error, unique_violation,
  foreign_key_violation, bitable_client_token_conflict,
}
use headhunt_agent.Value.{Value, Items, Fields, get, text_of, list, dict, nil, cons}
use headhunt_agent.Codec.{Codec, stable_hash}
use headhunt_agent.Storage.Models.{Uuid, Datetime}

pub data ChunkStatus : Type 0 where
  pending succeeded failed conflict dead_letter : ChunkStatus

-- `FeishuBitableWriteChunk` of app/storage/models.py
pub record WriteChunk : Type 0 where
  pub id : Uuid
  pub action_id : Option Uuid
  pub outbox_id : Option Uuid
  pub app_token : String
  pub table_id : String
  pub chunk_index : ℕ
  pub payload_hash : String
  pub client_token : String
  pub status : ChunkStatus
  pub record_ids : List String
  pub last_error : Option String

-- `FeishuBitableRecordMap` of app/storage/models.py
pub record RecordMap : Type 0 where
  pub entity_type : String
  pub entity_id : Uuid
  pub app_token : String
  pub table_id : String
  pub record_id : String
  pub last_sync_at : Datetime

pub record BitableStore : Type 0 where
  pub chunks : List WriteChunk
  pub record_maps : List RecordMap
  pub outbox_ids : List Uuid
  pub next_uuid : Uuid
  pub now : Datetime

-- The arguments of `record_chunk_success` and `record_chunk_failure`
pub record ChunkCall : Type 0 where
  pub client_token : String
  pub app_token : String
  pub table_id : String
  pub records : List Fields
  pub outbox_id : Option Uuid
  pub action_id : Option Uuid
  pub chunk_index : ℕ
  pub payload_hash : Option String

abbrev pub has_token : String → WriteChunk → Bool
has_token client_token chunk = str_eq chunk.client_token client_token

-- Two values that a UNIQUE constraint compares; NULL differs from every value.
abbrev same_uuid : Option Uuid → Option Uuid → Bool
same_uuid (some a) (some b) = a == b
same_uuid _ _ = false

abbrev pub same_identity : WriteChunk → WriteChunk → Bool
same_identity a b =
    same_uuid a.action_id b.action_id
    && (str_eq a.table_id b.table_id
        && (a.chunk_index == b.chunk_index && str_eq a.payload_hash b.payload_hash))

abbrev fits_outbox : Option Uuid → List Uuid → Bool
fits_outbox none ids = true
fits_outbox (some outbox_id) ids = any (λ id. id == outbox_id) ids

abbrev pub renewed : WriteChunk → (WriteChunk → WriteChunk) → List WriteChunk → List WriteChunk
renewed chunk f chunks = update_first (has_token chunk.client_token) f chunks

unfoldable pub upsert_from :
    WriteChunk → (WriteChunk → WriteChunk) → Option WriteChunk → Tx BitableStore (Unit {0})
upsert_from chunk f (some existing) s =
    if any (λ other. same_identity (f existing) other && not (has_token chunk.client_token other))
      s.chunks
    then (raise unique_violation, s)
    else (ok tt, record s { chunks = renewed chunk f s.chunks })
upsert_from chunk f none s =
    if any (same_identity chunk) s.chunks
    then (raise unique_violation, s)
    else if fits_outbox chunk.outbox_id s.outbox_ids
    then (
      ok tt,
      record s {
        chunks = s.chunks ++ record chunk { id = s.next_uuid } ∷ [];
        next_uuid = s.next_uuid + 1;
      },
    )
    else (raise foreign_key_violation, s)

-- pg_insert(...).on_conflict_do_update(index_elements=["client_token"]), where `f` sets the columns. The
-- update must not meet another row of the same identity.
unfoldable pub upsert_chunk : WriteChunk → (WriteChunk → WriteChunk) → Tx BitableStore (Unit {0})
unfolding upsert_from
upsert_chunk chunk f s = upsert_from chunk f (find (has_token chunk.client_token) s.chunks) s

abbrev items_of : List Fields → Items
items_of [] = nil
items_of (d ∷ rest) = cons (dict d) (items_of rest)

abbrev pub failed_chunk : ChunkStatus → String → WriteChunk → WriteChunk
failed_chunk status error chunk = record chunk { status = status; last_error = some error }

abbrev pub succeeded_chunk : String → List String → WriteChunk → WriteChunk
succeeded_chunk payload_hash record_ids chunk = record chunk {
  status = succeeded;
  payload_hash = payload_hash;
  record_ids = record_ids;
  last_error = none;
}

module _ (c : Codec) where
  -- payload_hash or _stable_hash(records)
  abbrev pub hash_of : ChunkCall → String
  unfolding stable_hash
  hash_of call = or_text call.payload_hash (stable_hash c (list (items_of call.records)))

  abbrev pub new_chunk : ChunkCall → WriteChunk
  unfolding hash_of
  new_chunk call = record {
    id = 0;
    action_id = call.action_id;
    outbox_id = call.outbox_id;
    app_token = call.app_token;
    table_id = call.table_id;
    chunk_index = call.chunk_index;
    payload_hash = hash_of call;
    client_token = call.client_token;
    status = ChunkStatus.pending;
    record_ids = [];
    last_error = none;
  }

  unfoldable pub record_chunk_failure :
      ChunkCall → String → ChunkStatus → Tx BitableStore (Unit {0})
  unfolding new_chunk
  record_chunk_failure call error status =
      upsert_chunk (failed_chunk status error (new_chunk call)) (failed_chunk status error)

abbrev pub same_ids : List String → List String → Bool
same_ids [] [] = true
same_ids (x ∷ xs) (y ∷ ys) = str_eq x y && same_ids xs ys
same_ids _ _ = false

abbrev pub is_written : List String → Bool
is_written [] = false
is_written (x ∷ xs) = true

-- The reason for an existing chunk
abbrev pub conflict_with : String → List String → Option WriteChunk → Option String
conflict_with payload_hash record_ids none = none
conflict_with payload_hash record_ids (some existing) =
    if str_eq existing.payload_hash payload_hash
    then (if is_written existing.record_ids && not (same_ids existing.record_ids record_ids)
        then some "Bitable client_token already exists with different record_ids"
        else none)
    else some "Bitable client_token already exists with a different payload_hash"

-- `_client_token_conflict_reason`
unfoldable pub client_token_conflict_reason :
    String → String → List String → BitableStore → Option String
client_token_conflict_reason client_token payload_hash record_ids s =
    conflict_with payload_hash record_ids (find (has_token client_token) s.chunks)

abbrev has_text : String → Fields → Bool
unfolding text_of
has_text key d = is_some (text_of (get key d))

-- `_validate_bitable_result_lengths` raises unless this holds.
unfoldable pub fits_lengths : List Fields → List String → List Fields → Bool
unfolding has_text
fits_lengths records record_ids entity_refs =
    length record_ids == length records
    && ((length entity_refs == 0 || length entity_refs == length records)
        && all (λ d. has_text "entity_type" d && has_text "entity_id" d) entity_refs)

abbrev pub same_entity : RecordMap → RecordMap → Bool
same_entity a b =
    str_eq a.entity_type b.entity_type
    && (a.entity_id == b.entity_id
        && (str_eq a.app_token b.app_token && str_eq a.table_id b.table_id))

abbrev pub same_record : RecordMap → RecordMap → Bool
same_record a b =
    str_eq a.app_token b.app_token
    && (str_eq a.table_id b.table_id && str_eq a.record_id b.record_id)

abbrev pub synced : RecordMap → RecordMap → RecordMap
synced row old = record old { record_id = row.record_id; last_sync_at = row.last_sync_at }

-- pg_insert(FeishuBitableRecordMap)..., on the entity in its table, with the constraint on records
unfoldable pub upsert_record_map : RecordMap → Tx BitableStore (Unit {0})
upsert_record_map row s =
    if any (λ other. same_record row other && not (same_entity row other)) s.record_maps
    then (raise unique_violation, s)
    else if any (same_entity row) s.record_maps
    then (
      ok tt,
      record s { record_maps = update_first (same_entity row) (synced row) s.record_maps },
    )
    else (ok tt, record s { record_maps = s.record_maps ++ row ∷ [] })

module _ (c : Codec) where
  unfoldable pub upsert_entity : String → String → Fields → String → Tx BitableStore (Unit {0})
  unfolding upsert_record_map
  upsert_entity app_token table_id entity_ref record_id = do
    entity_id ← require (text_of (get "entity_id" entity_ref)) value_error
    entity_type ← require (text_of (get "entity_type" entity_ref)) value_error
    id ← require (c.parse_uuid entity_id) value_error
    now ← gets (λ s. s.now)
    upsert_record_map (record {
      entity_type = entity_type;
      entity_id = id;
      app_token = app_token;
      table_id = table_id;
      record_id = record_id;
      last_sync_at = now;
    })

  -- `_upsert_record_maps`: zip with strict=True raises where the lengths differ.
  unfoldable pub upsert_record_maps :
      String → String → List String → List Fields → Tx BitableStore (Unit {0})
  unfolding upsert_entity
  upsert_record_maps app_token table_id [] [] = pure tt
  upsert_record_maps app_token table_id (record_id ∷ record_ids) (entity_ref ∷ entity_refs) = do
    upsert_entity app_token table_id entity_ref record_id
    upsert_record_maps app_token table_id record_ids entity_refs
  upsert_record_maps app_token table_id _ _ = throw value_error

  unfoldable pub maps_if_any :
      String → String → List String → List Fields → Tx BitableStore (Unit {0})
  unfolding upsert_record_maps
  maps_if_any app_token table_id record_ids [] = pure tt
  maps_if_any app_token table_id record_ids (entity_ref ∷ entity_refs) =
      upsert_record_maps app_token table_id record_ids (entity_ref ∷ entity_refs)

  unfoldable pub unless_conflict :
      ChunkCall → List String → List Fields → Option String → Tx BitableStore (Unit {0})
  unfolding record_chunk_failure maps_if_any new_chunk hash_of
  unless_conflict call record_ids entity_refs (some conflict_reason) = do
    record_chunk_failure c call conflict_reason ChunkStatus.conflict
    throw bitable_client_token_conflict
  unless_conflict call record_ids entity_refs none = do
    upsert_chunk (succeeded_chunk (hash_of c call) record_ids (new_chunk c call))
        (succeeded_chunk (hash_of c call) record_ids)
    maps_if_any call.app_token call.table_id record_ids entity_refs

  unfoldable pub record_chunk_success :
      ChunkCall → List String → List Fields → Tx BitableStore (Unit {0})
  unfolding unless_conflict client_token_conflict_reason hash_of
  record_chunk_success call record_ids entity_refs = do
    guard (fits_lengths call.records record_ids entity_refs) value_error
    conflict_reason ←
        gets (client_token_conflict_reason call.client_token (hash_of c call) record_ids)
    unless_conflict call record_ids entity_refs conflict_reason
