-- ===== src/Retention/Runs.antt =====
-- What a run of the retention service achieves.
use headhunt_agent.Prelude.{
  true, false, Option, none, some, List, [], ◌∷◌, ◌≡◌, refl, All, inl, inr, Bool-cases, leb, arith,
  ◌<◌, ◌≤◌, ◌≢◌,
}
use headhunt_agent.Value.{dict_value}
use headhunt_agent.Storage.Models.{Datetime}
use headhunt_agent.Retention.{
  MemoryItem, run, retain, expiry, with_expiry, expire_if_due, keep_forever, is_managed,
  is_permanent_memory, MemoryStatus,
}
use headhunt_agent.Codec.{Codec}

module _ (c : Codec) (now : Datetime) where
  -- Whatever stays managed is permanent and has no expiry, or is not permanent and has no retention
  -- window or expires later.
  pub data IsRetained (row : MemoryItem) : Type 0 where
    unmanaged :
        row.status ≢ MemoryStatus.active → row.status ≢ MemoryStatus.pending_review → IsRetained row
    permanent :
        is_permanent_memory c (dict_value row.metadata) ≡ true
        → row.expires_at ≡ none
        → IsRetained row
    unlimited :
        is_permanent_memory c (dict_value row.metadata) ≡ false
        → expiry c now row ≡ none
        → IsRetained row
    later :
        (t : Datetime)
        → is_permanent_memory c (dict_value row.metadata) ≡ false
        → row.expires_at ≡ some t
        → now < t
        → IsRetained row

  is_managed-unmanaged : (row : MemoryItem) → is_managed row.status ≡ false → IsRetained row
  unfolding is_managed
  is_managed-unmanaged row h = unmanaged (differs row.status h) (differs' row.status h)
    where
      differs : (s : MemoryStatus) → is_managed s ≡ false → s ≢ MemoryStatus.active
      differs s h e = absurd (cc (h, e))

      differs' : (s : MemoryStatus) → is_managed s ≡ false → s ≢ MemoryStatus.pending_review
      differs' s h e = absurd (cc (h, e))

  metadata-with_expiry :
      (row : MemoryItem) (o : Option Datetime) → (with_expiry c now o row).metadata ≡ row.metadata
  unfolding with_expiry
  metadata-with_expiry row none = refl
  metadata-with_expiry row (some t) = ground arith

  expires_at-with_expiry :
      (row : MemoryItem) (t : Datetime) (o : Option Datetime)
      → row.expires_at ≡ o
      → expiry c now row ≡ some t
      → (with_expiry c now (some t) row).expires_at ≡ some t
  unfolding with_expiry expiry
  expires_at-with_expiry row t none e h = rw e refl
  expires_at-with_expiry row t (some old) e h = rw e (rw e at h)

  retain-IsRetained : (row : MemoryItem) → IsRetained (retain c now row)
  unfolding retain
  retain-IsRetained row = elim (Bool-cases (is_managed row.status)) [
    | inr other ↦ rw other (is_managed-unmanaged row other)
    | inl managed ↦ elim (Bool-cases (is_permanent_memory c (dict_value row.metadata))) [
      | inl forever ↦ rw managed (rw forever (kept row.expires_at refl forever))
      | inr limited ↦ rw managed (rw limited (due (expiry c now row) limited refl))
    ]
  ]
    where
      kept :
          (o : Option Datetime)
          → row.expires_at ≡ o
          → is_permanent_memory c (dict_value row.metadata) ≡ true
          → IsRetained (keep_forever c now row)
      kept none e forever = rw e (permanent forever refl)
      kept (some t) e forever = rw e (permanent forever refl)

      due :
          (o : Option Datetime)
          → is_permanent_memory c (dict_value row.metadata) ≡ false
          → expiry c now row ≡ o
          → IsRetained (expire_if_due c now o (with_expiry c now o row))
      due none limited e = unlimited limited e
      due (some t) limited e = elim (Bool-cases (leb t now)) [
        | inl past ↦ rw past (unmanaged (λ e. absurd (cc (e))) (λ e. absurd (cc (e))))
        | inr ahead ↦ rw ahead (
            later t (rw (metadata-with_expiry row (some t)) limited)
              (expires_at-with_expiry row t row.expires_at refl e) (ground arith))
      ]

  -- After a run that is no dry run, every memory is neither active nor pending review, or permanent and
  -- without an expiry, or not permanent and without an expiry of its own and a default one, or not
  -- permanent and expires after `now`.
  pub run-IsRetained : (rows : List MemoryItem) → All IsRetained (run c now false rows)
  unfolding run
  run-IsRetained [] = tt
  run-IsRetained (row ∷ rows) = (retain-IsRetained row, run-IsRetained rows)

  -- Why a memory is expired
  pub record IsDue (row : MemoryItem) : Type 0 where
    pub time : Datetime
    pub expires : expiry c now row ≡ some time
    pub past : time ≤ now
    pub limited : is_permanent_memory c (dict_value row.metadata) ≡ false

  pub status-with_expiry :
      (row : MemoryItem) (o : Option Datetime) → (with_expiry c now o row).status ≡ row.status
  unfolding with_expiry
  status-with_expiry row none = refl
  status-with_expiry row (some t) = ground arith

  pub status-keep_forever : (row : MemoryItem) → (keep_forever c now row).status ≡ row.status
  unfolding keep_forever
  status-keep_forever row = ground arith

  -- A managed memory is expired only where it is not permanent and its own or default expiry is not
  -- after `now`.
  pub retain-IsDue :
      (row : MemoryItem)
      → is_managed row.status ≡ true
      → is_managed (retain c now row).status ≡ false
      → IsDue row
  unfolding retain
  retain-IsDue row managed h = elim (Bool-cases (is_permanent_memory c (dict_value row.metadata))) [
    | inl forever ↦ absurd (cc (rw managed at (rw forever at h), status-keep_forever row, managed))
    | inr limited ↦ due (expiry c now row) refl limited (rw managed at (rw limited at h))
  ]
    where
      due :
          (o : Option Datetime)
          → expiry c now row ≡ o
          → is_permanent_memory c (dict_value row.metadata) ≡ false
          → is_managed (expire_if_due c now o (with_expiry c now o row)).status ≡ false
          → IsDue row
      due none e limited k = absurd (cc (k, managed))
      due (some t) e limited k = elim (Bool-cases (leb t now)) [
        | inl past ↦ record { time = t; expires = e; past = ground arith; limited = limited }
        | inr ahead ↦ absurd (cc (rw ahead at k, status-with_expiry row (some t), managed))
      ]
