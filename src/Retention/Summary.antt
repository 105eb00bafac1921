-- ===== src/Retention/Summary.antt =====
-- `MemoryRetentionSummary` of app/memory/retention.py: what a run counts, and what it changes.
use headhunt_agent.Prelude.{
  Bool, ◌∷◌, ◌+◌, some, leb, ℕ, Option, none, if◌then◌else◌, List, [], String, false, true,
}
use headhunt_agent.Retention.{MemoryItem, expiry, is_managed, is_permanent_memory}
use headhunt_agent.Codec.{Codec}
use headhunt_agent.Storage.Models.{Datetime}
use headhunt_agent.Value.{dict_value}

pub record MemoryRetentionSummary : Type 0 where
  pub status : String
  pub scanned_count : ℕ
  pub default_expiry_count : ℕ
  pub expired_count : ℕ
  pub permanent_count : ℕ
  pub skipped_count : ℕ
  pub dry_run : Bool
  pub now : Datetime

module _ (c : Codec) (now : Datetime) where
  -- A default expiry counts where the row has none of its own.
  unfoldable pub count_default :
      Option Datetime → Option Datetime → MemoryRetentionSummary → MemoryRetentionSummary
  count_default none (some t) s = record s { default_expiry_count = s.default_expiry_count + 1 }
  count_default _ _ s = s

  unfoldable pub count_expiry : Option Datetime → MemoryRetentionSummary → MemoryRetentionSummary
  count_expiry none s = record s { skipped_count = s.skipped_count + 1 }
  count_expiry (some t) s =
      if leb t now then record s { expired_count = s.expired_count + 1 } else s

  -- The counters of one turn of the loop
  unfoldable pub count_row : MemoryItem → MemoryRetentionSummary → MemoryRetentionSummary
  unfolding count_default count_expiry is_permanent_memory expiry
  count_row row s =
      let scanned = record s { scanned_count = s.scanned_count + 1 } in
      if is_permanent_memory c (dict_value row.metadata)
      then record scanned { permanent_count = s.permanent_count + 1 }
      else count_expiry (expiry c now row) (count_default row.expires_at (expiry c now row) scanned)

  unfoldable pub count_if : Bool → MemoryItem → MemoryRetentionSummary → MemoryRetentionSummary
  unfolding count_row
  count_if true row s = count_row row s
  count_if false row s = s

  -- The loop over the rows that the query selects
  unfoldable pub count_rows : List MemoryItem → MemoryRetentionSummary → MemoryRetentionSummary
  unfolding count_if is_managed
  count_rows [] s = s
  count_rows (row ∷ rows) s = count_rows rows (count_if (is_managed row.status) row s)

  abbrev pub no_counts : Bool → MemoryRetentionSummary
  no_counts dry_run = record {
    status = "ok";
    scanned_count = 0;
    default_expiry_count = 0;
    expired_count = 0;
    permanent_count = 0;
    skipped_count = 0;
    dry_run = dry_run;
    now = now;
  }

  unfoldable pub run_summary : Bool → List MemoryItem → MemoryRetentionSummary
  unfolding count_rows
  run_summary dry_run rows = count_rows rows (no_counts dry_run)
