-- ===== src/Retention/Counted.antt =====
-- A run counts the memories that it expires, and a dry run counts those that it would expire.
use headhunt_agent.Prelude.{
  ◌≡◌, some, count_where, ◌+◌, false, inl, Bool, Option, arith, List, refl, Bool-cases, none, true,
  inr, ◌∷◌, [], not, leb, ap,
}
use headhunt_agent.Retention.{MemoryItem, run, retain, expiry, is_managed, is_permanent_memory}
use headhunt_agent.Retention.Runs.{status-with_expiry, status-keep_forever}
use headhunt_agent.Retention.Summary.{
  MemoryRetentionSummary, count_default, count_row, count_rows, no_counts, run_summary, count_if,
}
use headhunt_agent.Codec.{Codec}
use headhunt_agent.Storage.Models.{Datetime}
use headhunt_agent.Value.{dict_value}

module _ (c : Codec) (now : Datetime) where
  abbrev pub is_unmanaged : MemoryItem → Bool
  is_unmanaged row = not (is_managed row.status)

  expired-count_default :
      (o e : Option Datetime) (s : MemoryRetentionSummary)
      → (count_default c now o e s).expired_count ≡ s.expired_count
  unfolding count_default
  expired-count_default none none s = refl
  expired-count_default none (some t) s = refl
  expired-count_default (some t) e s = refl

  -- A turn counts an expiry exactly where it takes the row out of the managed ones.
  data Turn (row : MemoryItem) (s : MemoryRetentionSummary) : Type 0 where
    stays :
        is_managed (retain c now row).status ≡ true
        → (count_row c now row s).expired_count ≡ s.expired_count
        → Turn row s
    expires :
        is_managed (retain c now row).status ≡ false
        → (count_row c now row s).expired_count ≡ s.expired_count + 1
        → Turn row s

  retain_unmanaged : (row : MemoryItem) → is_managed row.status ≡ false → retain c now row ≡ row
  unfolding retain
  retain_unmanaged row other = rw other refl

  turn : (row : MemoryItem) (s : MemoryRetentionSummary) → is_managed row.status ≡ true → Turn row s
  unfolding retain count_row
  turn row s managed = elim (Bool-cases (is_permanent_memory c (dict_value row.metadata))) [
    | inl forever ↦
        stays (rw managed (rw forever (rw (status-keep_forever c now row) managed)))
          (rw forever refl)
    | inr limited ↦ due (expiry c now row) refl limited
  ]
    where
      scanned : MemoryRetentionSummary
      scanned = record s { scanned_count = s.scanned_count + 1 }

      due :
          (o : Option Datetime)
          → expiry c now row ≡ o
          → is_permanent_memory c (dict_value row.metadata) ≡ false
          → Turn row s
      due none e limited =
          stays (rw managed (rw limited (rw e (rw (status-with_expiry c now row none) managed))))
            (rw limited (rw e (expired-count_default row.expires_at none scanned)))
      due (some t) e limited = elim (Bool-cases (leb t now)) [
        | inl past ↦ expires (rw managed (rw limited (rw e (rw past refl)))) (
            rw limited (
              rw e (
                rw past (ap (λ n. n + 1) (expired-count_default row.expires_at (some t) scanned)))))
        | inr ahead ↦
            stays
              (rw managed
                (rw limited (rw e (rw ahead (rw (status-with_expiry c now row (some t)) managed)))))
              (rw limited (rw e (rw ahead (expired-count_default row.expires_at (some t) scanned))))
      ]

  next_managed :
      (row : MemoryItem) (rows : List MemoryItem) (s : MemoryRetentionSummary)
      → is_managed row.status ≡ true
      → (count_rows c now (row ∷ rows) s).expired_count
        ≡ (count_rows c now rows (count_row c now row s)).expired_count
  unfolding count_rows count_if
  next_managed row rows s managed =
      ap (λ b. (count_rows c now rows (count_if c now b row s)).expired_count) managed

  next_other :
      (row : MemoryItem) (rows : List MemoryItem) (s : MemoryRetentionSummary)
      → is_managed row.status ≡ false
      → (count_rows c now (row ∷ rows) s).expired_count ≡ (count_rows c now rows s).expired_count
  unfolding count_rows count_if
  next_other row rows s other =
      ap (λ b. (count_rows c now rows (count_if c now b row s)).expired_count) other

  counted_none :
      (s : MemoryRetentionSummary) → 0 + s.expired_count ≡ 0 + (count_rows c now [] s).expired_count
  unfolding count_rows
  counted_none s = refl

  counted :
      (rows : List MemoryItem) (s : MemoryRetentionSummary)
      → count_where is_unmanaged (run c now false rows) + s.expired_count
        ≡ count_where is_unmanaged rows + (count_rows c now rows s).expired_count
  unfolding run
  counted [] s = counted_none s
  counted (row ∷ rows) s = elim (Bool-cases (is_managed row.status)) [
    | inr other ↦
        rw (retain_unmanaged row other)
          (rw other (omega (arith, counted rows s, next_other row rows s other)))
    | inl managed ↦ elim (turn row s managed) [
      | stays a b ↦ rw a (
          rw managed (
            omega
              (arith, counted rows (count_row c now row s), b, next_managed row rows s managed)))
      | expires a b ↦ rw a (
          rw managed (
            omega
              (arith, counted rows (count_row c now row s), b, next_managed row rows s managed)))
    ]
  ]

  -- By as many as the summary counts as expired, dry run or not, a run that is no dry run raises the
  -- number of memories outside the managed statuses.
  pub run_summary-run :
      (dry_run : Bool) (rows : List MemoryItem)
      → count_where is_unmanaged (run c now false rows)
        ≡ count_where is_unmanaged rows + (run_summary c now dry_run rows).expired_count
  unfolding run_summary
  run_summary-run dry_run rows = omega (arith, counted rows (no_counts c now dry_run))
