-- ===== src/Storage/Claims/Ranking.antt =====
-- The order in which due items are taken, described without the query.
use headhunt_agent.Prelude.{
  ◌≡◌, ◌≤◌, ℕ, some, Bool, Option, refl, false, none, true, arith, All, leb, not, ltb, ap, sym, Has,
  ◌&&◌, ◌||◌, List, All-mono,
}
use headhunt_agent.Storage.Models.{OutboxKind, OutboxStatus, FeishuOutbox, Uuid}
use headhunt_agent.Storage.Claims.{
  next_candidate, lex, comes_before, is_candidate, is_claimable, expires_before, priority,
  is_pending, is_claimed, is_due, null_rank, time_or_zero,
}
use headhunt_agent.Storage.Claims.Order.{next_candidate-Chosen, Chosen}

-- Cards are shown first, then what was decided is carried out, and new graphs start last.
pub data Urgency : OutboxKind → ℕ → Type 0 where
  shown_card : Urgency OutboxKind.card_send 0
  shown_update : Urgency OutboxKind.card_update 0
  shown_confirmation : Urgency OutboxKind.task_confirmation_prepare 0
  decided_write : Urgency OutboxKind.bitable_write 1
  decided_resume : Urgency OutboxKind.resume 1
  new_graph : Urgency OutboxKind.graph_dispatch 2

priority-Urgency : (kind : OutboxKind) (n : ℕ) → Urgency kind n → priority kind ≡ n
unfolding priority
priority-Urgency kind n shown_card = refl
priority-Urgency kind n shown_update = refl
priority-Urgency kind n shown_confirmation = refl
priority-Urgency kind n decided_write = refl
priority-Urgency kind n decided_resume = refl
priority-Urgency kind n new_graph = refl

-- An item waits for its time, or the lease of its worker has run out.
pub data IsDue (now : ℕ) (row : FeishuOutbox) : Type 0 where
  waiting : row.status ≡ OutboxStatus.pending → row.next_attempt_at ≤ now → IsDue now row
  abandoned :
      (expires_at : ℕ)
      → row.status ≡ OutboxStatus.claimed
      → row.claim_expires_at ≡ some expires_at
      → expires_at ≤ now
      → IsDue now row

-- `first` is taken no later than `row`: the more urgent kind, then the earlier attempt, then the
-- earlier end of a lease with no lease last, then the older item.
pub record IsNoLater (first row : FeishuOutbox) : Type 0 where
  pub urgent : (m n : ℕ) → Urgency first.kind m → Urgency row.kind n → m ≤ n
  pub attempt :
      (n : ℕ)
      → Urgency first.kind n
      → Urgency row.kind n
      → first.next_attempt_at ≤ row.next_attempt_at
  pub lease :
      (n t : ℕ)
      → Urgency first.kind n
      → Urgency row.kind n
      → first.next_attempt_at ≡ row.next_attempt_at
      → row.claim_expires_at ≡ some t
      → (s : ℕ) × (first.claim_expires_at ≡ some s) × (s ≤ t)
  pub age :
      (n : ℕ)
      → Urgency first.kind n
      → Urgency row.kind n
      → first.next_attempt_at ≡ row.next_attempt_at
      → first.claim_expires_at ≡ row.claim_expires_at
      → first.created_at ≤ row.created_at

lex_le : (a b : ℕ) (x : Bool) → lex a b x ≡ false → b ≤ a
unfolding lex
lex_le a b x h = ground arith

lex_next : (a b : ℕ) (x : Bool) → lex a b x ≡ false → a ≡ b → x ≡ false
unfolding lex
lex_next a b x h e = ground arith

module _ (first row : FeishuOutbox) (h : comes_before row first ≡ false) where
  after_kind :
      (n : ℕ)
      → Urgency first.kind n
      → Urgency row.kind n
      → lex row.next_attempt_at first.next_attempt_at (expires_before row first) ≡ false
  unfolding comes_before
  after_kind n a b =
      lex_next _ _ _ h (cc (priority-Urgency first.kind n a, priority-Urgency row.kind n b))

  after_attempt :
      (n : ℕ)
      → Urgency first.kind n
      → Urgency row.kind n
      → first.next_attempt_at ≡ row.next_attempt_at
      → expires_before row first ≡ false
  after_attempt n a b e = lex_next _ _ _ (after_kind n a b) (cc (e))

  leased :
      (t : ℕ) (o : Option ℕ)
      → expires_before row first ≡ false
      → row.claim_expires_at ≡ some t
      → first.claim_expires_at ≡ o
      → (s : ℕ) × (o ≡ some s) × (s ≤ t)
  unfolding expires_before lex
  leased t none k e f = absurd (cc (rw f at (rw e at k)))
  leased t (some s) k e f = (s, refl, lex_le t s _ (lex_next 0 0 _ (rw f at (rw e at k)) refl))

  oldest :
      expires_before row first ≡ false
      → first.claim_expires_at ≡ row.claim_expires_at
      → first.created_at ≤ row.created_at
  unfolding expires_before
  oldest k c =
      let newer : ltb row.created_at first.created_at ≡ false =
        lex_next (time_or_zero row.claim_expires_at) (time_or_zero first.claim_expires_at) _
          (lex_next (null_rank row.claim_expires_at) (null_rank first.claim_expires_at) _ k
            (ap null_rank (sym c)))
          (ap time_or_zero (sym c)) in
      ground arith

  comes_before-IsNoLater : IsNoLater first row
  unfolding comes_before
  comes_before-IsNoLater = record {
    urgent = λ m n a b.
        omega
          (arith, priority-Urgency first.kind m a, priority-Urgency row.kind n b, lex_le _ _ _ h);
    attempt = λ n a b. lex_le _ _ _ (after_kind n a b);
    lease = λ n t a b e r. leased t first.claim_expires_at (after_attempt n a b e) r refl;
    age = λ n a b e c. oldest (after_attempt n a b e) c;
  }

module _ (now : ℕ) (row : FeishuOutbox) where
  claimable-IsDue : is_claimable now row ≡ true → IsDue now row
  unfolding is_claimable is_pending is_claimed
  claimable-IsDue h = go row.status row.claim_expires_at refl refl h
    where
      go :
          (s : OutboxStatus) (o : Option ℕ)
          → row.status ≡ s
          → row.claim_expires_at ≡ o
          → (is_pending s && leb row.next_attempt_at now || is_claimed s && is_due o now) ≡ true
          → IsDue now row
      go OutboxStatus.pending o e f k = waiting e (ground arith)
      go OutboxStatus.claimed none e f k = absurd (cc (k))
      go OutboxStatus.claimed (some t) e f k = abandoned t e f (ground arith)
      go OutboxStatus.succeeded o e f k = absurd (cc (k))
      go OutboxStatus.failed o e f k = absurd (cc (k))
      go OutboxStatus.dead_letter o e f k = absurd (cc (k))

  IsDue-claimable : IsDue now row → is_claimable now row ≡ true
  unfolding is_claimable is_pending is_claimed
  IsDue-claimable (waiting s le) = rw s (or_false (leb row.next_attempt_at now) (ground arith))
    where
      or_false : (b : Bool) → b ≡ true → (b || false) ≡ true
      or_false b e = ground arith
  IsDue-claimable (abandoned t s e le) = rw s (rw e (ground arith))

module _ (now : ℕ) (locked : Uuid → Bool) where
  -- Due, and held by no other transaction
  abbrev pub IsFree : FeishuOutbox → Type 0
  IsFree row = IsDue now row × (locked row.id ≡ false)

  -- What a query for the next item should return: none where no item is due and free, and else a
  -- due and free item of the table that no such item precedes.
  abbrev pub IsNext : List FeishuOutbox → Option FeishuOutbox → Type 0
  IsNext rows none = All (λ row. ¬ (IsFree row)) rows
  IsNext rows (some first) =
      Has first rows × IsFree first × All (λ row. IsFree row → IsNoLater first row) rows

  is_candidate-of_IsFree : (row : FeishuOutbox) → IsFree row → is_candidate now locked row ≡ true
  is_candidate-of_IsFree row (due, unlocked) = rw (IsDue-claimable now row due) (rw unlocked refl)

  is_candidate-IsFree : (row : FeishuOutbox) → is_candidate now locked row ≡ true → IsFree row
  is_candidate-IsFree row h =
      let (claimable, unlocked) = parts (is_claimable now row) (locked row.id) h in
      (claimable-IsDue now row claimable, unlocked)
    where
      parts : (a b : Bool) → (a && not b) ≡ true → (a ≡ true) × (b ≡ false)
      parts a b e = (ground arith, ground arith)

  Chosen-IsNext :
      (rows : List FeishuOutbox) (o : Option FeishuOutbox)
      → Chosen now locked rows o
      → IsNext rows o
  Chosen-IsNext rows none h =
      All-mono _ _ (λ row no free. absurd (cc (is_candidate-of_IsFree row free, no))) rows h
  Chosen-IsNext rows (some first) (there, candidate, before) = (
    there,
    is_candidate-IsFree first candidate,
    All-mono _ _
        (λ row earliest free.
          comes_before-IsNoLater first row (earliest (is_candidate-of_IsFree row free)))
        rows before,
  )

  -- The query returns none exactly where no item is due and free. Else it returns a due and free
  -- item of the table: none of a more urgent kind is due and free, and among those of its urgency
  -- none with an earlier time, then lease, then age.
  pub next_candidate-IsNext :
      (rows : List FeishuOutbox) → IsNext rows (next_candidate now locked rows)
  next_candidate-IsNext rows =
      Chosen-IsNext rows (next_candidate now locked rows) (next_candidate-Chosen now locked rows)
