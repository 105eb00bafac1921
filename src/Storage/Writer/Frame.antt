-- ===== src/Storage/Writer/Frame.antt =====
-- What queueing leaves alone: every table but the payloads and the outbox.
use headhunt_agent.Storage.Writer.{
  queued, Enqueuing, enqueue_json, replayed, enqueue_json_cases, mismatched, clashed, unlinked,
}
use headhunt_agent.Prelude.{arith, ◌∷◌, [], ◌≡◌, List, Option, ◌++◌, String, refl}
use headhunt_agent.Codec.{Codec}
use headhunt_agent.Storage.Models.{pending, FeishuOutbox, Database, OutboxKind, Uuid}
use headhunt_agent.Value.{Value}
use headhunt_agent.Tx.{Result}
use headhunt_agent.Storage.Tables.{new_outbox}

pub record SameTables (db db' : Database) : Type 0 where
  pub graph_threads : db'.graph_threads ≡ db.graph_threads
  pub action_proposals : db'.action_proposals ≡ db.action_proposals
  pub human_approvals : db'.human_approvals ≡ db.human_approvals
  pub feishu_card_actions : db'.feishu_card_actions ≡ db.feishu_card_actions
  pub now : db'.now ≡ db.now

-- At most one item is appended to the outbox: a pending one of the given kind and key.
pub data GrowsBy (kind : OutboxKind) (key : String) (rows after : List FeishuOutbox) : Type 0 where
  same : after ≡ rows → GrowsBy kind key rows after
  more :
      (item : FeishuOutbox)
      → item.kind ≡ kind
      → item.idempotency_key ≡ key
      → item.status ≡ pending
      → after ≡ rows ++ item ∷ []
      → GrowsBy kind key rows after

module _ (c : Codec) (kind : OutboxKind) (key : String) (payload : Value)
    (thread_id : Option Uuid) where
  frame_case :
      (r : String) (db : Database) (out : Result String × Database)
      → Enqueuing c kind key payload thread_id r db out
      → SameTables db out.1
  frame_case r db out (replayed row blob e found _ q) = ground arith
  frame_case r db out (mismatched row e other q) = ground arith
  frame_case r db out (clashed blob e found other q) = ground arith
  frame_case r db out (queued blobs blob e found _ linked q) = ground arith
  frame_case r db out (unlinked blobs e broken q) = ground arith

  pub enqueue_json-SameTables :
      (content_ref : Option String) (db : Database)
      → SameTables db (enqueue_json c kind key payload thread_id content_ref db).1
  enqueue_json-SameTables content_ref db =
      frame_case _ db _ (enqueue_json_cases c kind key payload thread_id content_ref db)

  growth_case :
      (r : String) (db : Database) (out : Result String × Database)
      → Enqueuing c kind key payload thread_id r db out
      → GrowsBy kind key db.feishu_outbox out.1.feishu_outbox
  growth_case r db out (replayed row blob e found _ q) = same (rw q)
  growth_case r db out (mismatched row e other q) = same (rw q)
  growth_case r db out (clashed blob e found other q) = same (rw q)
  growth_case r db out (queued blobs blob e found _ linked q) =
      more (new_outbox kind key thread_id r db) refl refl refl (rw q)
  growth_case r db out (unlinked blobs e broken q) = same (rw q)

  pub enqueue_json-GrowsBy :
      (content_ref : Option String) (db : Database)
      → GrowsBy kind key db.feishu_outbox
          (enqueue_json c kind key payload thread_id content_ref db).1.feishu_outbox
  enqueue_json-GrowsBy content_ref db =
      growth_case _ db _ (enqueue_json_cases c kind key payload thread_id content_ref db)
