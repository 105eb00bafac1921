-- ===== src/Samples/Writes.antt =====
-- A dispatch that has an item to take, and a chunk of records that was written.
use headhunt_agent.Samples.{db, item, dispatcher, unlocked, failing, codec}
use headhunt_agent.Prelude.{none, some, [], ◌∷◌, ◌≡◌, refl, inl, Has, arith}
use headhunt_agent.Dispatcher.{dispatch_once}
use headhunt_agent.Dispatcher.Progress.{dispatch_once_progress, IsSettled}
use headhunt_agent.Storage.Claims.Ranking.{IsFree, waiting}
use headhunt_agent.Bitable.{
  WriteChunk, ChunkStatus, BitableStore, ChunkCall, record_chunk_success, fits_lengths,
  upsert_chunk,
}
use headhunt_agent.Bitable.Final.{HasWritten, record_chunk_success_final}
use headhunt_agent.Value.{end}
use headhunt_agent.Tx.{raise, ◌>>=◌, bitable_client_token_conflict}
use headhunt_agent.Storage.Models.{FeishuOutbox}

item_due : IsFree 12 unlocked item
item_due = (waiting refl (omega arith), refl)

dispatch_once_progress_example :
    (taken : FeishuOutbox) × Has taken db.feishu_outbox
    × IsFree 12 unlocked taken
    × IsSettled taken.id
        (dispatch_once dispatcher 12 unlocked failing db).0
        (dispatch_once dispatcher 12 unlocked failing db).1
dispatch_once_progress_example =
    dispatch_once_progress dispatcher 12 unlocked failing db item (inl refl) item_due

abbrev chunk : WriteChunk
chunk = record {
  id = 1;
  action_id = none;
  outbox_id = none;
  app_token = "app";
  table_id = "t";
  chunk_index = 0;
  payload_hash = "h1";
  client_token = "c1";
  status = ChunkStatus.succeeded;
  record_ids = "rec1" ∷ [];
  last_error = none;
}

abbrev sheet : BitableStore
sheet = record { chunks = chunk ∷ []; record_maps = []; outbox_ids = []; next_uuid = 2; now = 5 }

-- The same token with another payload
abbrev call : ChunkCall
call = record {
  client_token = "c1";
  app_token = "app";
  table_id = "t";
  records = end ∷ [];
  outbox_id = none;
  action_id = none;
  chunk_index = 0;
  payload_hash = some "h2";
}

refused :
    (record_chunk_success codec call ("rec2" ∷ []) [] sheet).0 ≡ raise bitable_client_token_conflict
unfolding record_chunk_success ◌>>=◌ fits_lengths upsert_chunk
refused = refl

record_chunk_success_final_example :
    HasWritten "c1" "h1" ("rec1" ∷ []) (record_chunk_success codec call ("rec2" ∷ []) [] sheet).1
record_chunk_success_final_example =
    record_chunk_success_final codec call ("rec2" ∷ []) [] sheet chunk refl refl
