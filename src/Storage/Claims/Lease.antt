-- ===== src/Storage/Claims/Lease.antt =====
-- A claim holds for its lease: until then no worker is given the item again.
use headhunt_agent.Storage.Claims.{
  claim_next, is_claimable, next_candidate, claim_found, has_id, claim_row,
}
use headhunt_agent.Storage.Claims.Order.{next_candidate-Chosen, Chosen}
use headhunt_agent.Prelude.{
  [], ◌≡◌, ◌<◌, List, All, Bool, ◌+◌, update_where, ◌≢◌, refl, ℕ, none, arith, if◌then◌else◌, ◌∷◌,
  some, false, Option, true, String, All-Has, ◌&&◌, subst, not,
}
use headhunt_agent.Storage.Models.{Uuid, Database, FeishuOutbox}

-- Not to be claimed at a time, if it is this item
abbrev pub IsHeld : ℕ → Uuid → FeishuOutbox → Type 0
IsHeld time item_id row = has_id item_id row ≡ true → is_claimable time row ≡ false

IsHeld-after_claim :
    (worker_id : String) (now lease_until time : ℕ) (item_id : Uuid) (rows : List FeishuOutbox)
    → time < lease_until
    → All
        (IsHeld time item_id)
        (update_where (has_id item_id) (claim_row worker_id now lease_until) rows)
unfolding is_claimable
IsHeld-after_claim worker_id now lease_until time item_id [] h = tt
IsHeld-after_claim worker_id now lease_until time item_id (row ∷ rows) h = (
  held_row (has_id item_id row) refl,
  IsHeld-after_claim worker_id now lease_until time item_id rows h,
)
  where
    held_row :
        (b : Bool)
        → has_id item_id row ≡ b
        → IsHeld time item_id (if b then claim_row worker_id now lease_until row else row)
    held_row true e = λ _. ground arith
    held_row false e = λ q. absurd (cc (e, q))

module _ (worker_id : String) (lease_seconds now : ℕ) (locked : Uuid → Bool) (db : Database) where
  -- The row that a claim hands out
  claimed_from :
      (o : Option FeishuOutbox) {item : FeishuOutbox}
      → (claim_found worker_id lease_seconds now o db).0 ≡ some item
      → (row : FeishuOutbox) × (o ≡ some row)
        × (item ≡ claim_row worker_id now (now + lease_seconds) row)
        × ((claim_found worker_id lease_seconds now o db).1.feishu_outbox
            ≡ update_where
                (has_id row.id)
                (claim_row worker_id now (now + lease_seconds))
                db.feishu_outbox)
  unfolding claim_found
  claimed_from none h = absurd (cc)
  claimed_from (some row) h = (row, refl, cc, refl)

  IsHeld-after :
      (item : FeishuOutbox) (time : ℕ)
      → (claim_next worker_id lease_seconds now locked db).0 ≡ some item
      → time < now + lease_seconds
      → All (IsHeld time item.id) (claim_next worker_id lease_seconds now locked db).1.feishu_outbox
  unfolding claim_next
  IsHeld-after item time h early =
      let (row, o, e, outbox) = claimed_from (next_candidate now locked db.feishu_outbox) h in
      rw outbox (
        rw e (
          IsHeld-after_claim worker_id now (now + lease_seconds) time row.id db.feishu_outbox
            early))

pub Chosen-of :
    (time : ℕ) (locked : Uuid → Bool) (rows : List FeishuOutbox) (row : FeishuOutbox)
    → next_candidate time locked rows ≡ some row
    → Chosen time locked rows (some row)
Chosen-of time locked rows row e =
    subst (Chosen time locked rows) e (next_candidate-Chosen time locked rows)

-- Until the lease ends no worker's claim returns the item, in the state that the claim left.
pub claim_exclusive :
    (worker_id worker_id' : String) (lease_seconds lease_seconds' now time : ℕ)
    (locked locked' : Uuid → Bool) (db : Database) (item item' : FeishuOutbox)
    → (claim_next worker_id lease_seconds now locked db).0 ≡ some item
    → time < now + lease_seconds
    → (claim_next worker_id' lease_seconds' time locked'
        (claim_next worker_id lease_seconds now locked db).1).0
      ≡ some item'
    → item'.id ≢ item.id
unfolding claim_next
claim_exclusive worker_id worker_id' lease_seconds lease_seconds' now time locked locked' db item
      item' h early h' same =
    let db' = (claim_next worker_id lease_seconds now locked db).1 in
    let (row, o, e, outbox) =
      claimed_from worker_id' lease_seconds' time locked' db'
        (next_candidate time locked' db'.feishu_outbox) h' in
    let (found, candidate, first) = Chosen-of time locked' db'.feishu_outbox row o in
    let held =
      All-Has (IsHeld time item.id) row db'.feishu_outbox
        (IsHeld-after worker_id lease_seconds now locked db item time h early) found in
    clash (is_claimable time row) (not (locked' row.id)) candidate (held (ground arith))
  where
    clash : (a b : Bool) → (a && b) ≡ true → a ≡ false → ⊥
    clash a b p q = ground arith
