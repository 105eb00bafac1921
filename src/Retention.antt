-- ===== src/Retention.antt =====
-- app/memory/retention.py: `MemoryRetentionService` gives memories their default expiry and expires
-- those that are past it. A `datetime` is a number of seconds in UTC.
pub mod Runs
pub mod Counted
pub mod Summary
use headhunt_agent.Prelude.{
  ℕ, String, Bool, true, false, Option, none, some, List, [], ◌∷◌, if◌then◌else◌, str_eq, ◌||◌, ◌+◌,
  ◌*◌, leb, is_some, or_default, not,
}
use headhunt_agent.Codec.{Codec, text_form}
use headhunt_agent.Value.{Value, Fields, get, dict_value, null}
use headhunt_agent.Storage.Models.{Datetime, Uuid}
use headhunt_agent.Texts.{lower, strip}

pub data MemoryStatus : Type 0 where
  draft pending_review active revoked expired : MemoryStatus

-- `MemoryItem` of app/storage/models.py, without the run that it came from. The confidence is in
-- thousandths.
pub record MemoryItem : Type 0 where
  pub id : Uuid
  pub scope : String
  pub owner_agent : Option String
  pub summary : String
  pub content_ref : String
  pub embedding_ref : Option String
  pub tenant_id : Option String
  pub guild_id : Option String
  pub user_id : Option String
  pub project_id : Option String
  pub requisition_id : Option String
  pub candidate_id : Option String
  pub thread_id : Option Uuid
  pub pii_level : String
  pub confidence : ℕ
  pub version : ℕ
  pub status : MemoryStatus
  pub metadata : Value
  pub created_at : Option Datetime
  pub updated_at : Datetime
  pub expires_at : Option Datetime

abbrev pub days : ℕ → ℕ
days n = n * 86400

-- A policy that `_retention_window` knows by name, or the window of the scope
unfoldable pub retention_window : String → Option String → Option ℕ
retention_window scope policy =
    let by_scope =
      if str_eq scope "RunMemory"
      then some (days 30)
      else if str_eq scope "ProjectMemory"
          || str_eq scope "AgentMemory"
          || str_eq scope "CaseMemory"
          || str_eq scope "UserCorrectionMemory"
      then some (days 90)
      else none in
    elim policy [
      | none ↦ by_scope
      | some name ↦
          if str_eq name "30d"
          then some (days 30)
          else if str_eq name "90d"
          then some (days 90)
          else by_scope
    ]

-- policy in PERMANENT_POLICY_ALIASES
unfoldable pub is_permanent_policy : Option String → Bool
is_permanent_policy none = false
is_permanent_policy (some policy) = str_eq policy "permanent" || str_eq policy "forever"

-- RETENTION_MANAGED_STATUSES
unfoldable pub is_managed : MemoryStatus → Bool
is_managed active = true
is_managed pending_review = true
is_managed _ = false

-- str(value).strip().lower()
abbrev normal_text : Codec → Value → String
normal_text c v = lower (strip (text_form c v))

module _ (c : Codec) where
  abbrev policy_text : Value → Option String
  policy_text null = none
  policy_text v = if str_eq (normal_text c v) "" then none else some (normal_text c v)

  unfoldable pub retention_policy : Fields → Option String
  retention_policy metadata = policy_text (get "retention_policy" metadata)

  unfoldable pub is_permanent_memory : Fields → Bool
  unfolding retention_policy is_permanent_policy
  is_permanent_memory metadata = is_permanent_policy (retention_policy metadata)

  -- `now` stands for the clock too, which is read only for a row without a time of creation.
  unfoldable pub default_memory_expires_at :
      Datetime → String → Option Datetime → Fields → Option Datetime
  unfolding retention_policy is_permanent_policy retention_window
  default_memory_expires_at now scope created_at metadata =
      if is_permanent_policy (retention_policy metadata)
      then none
      else elim (retention_window scope (retention_policy metadata)) [
        | none ↦ none
        | some ttl ↦ some (or_default created_at now + ttl)
      ]

  module _ (now : Datetime) where
    -- The expiry that counts for a row: its own, or the default one.
    unfoldable pub expiry : MemoryItem → Option Datetime
    unfolding default_memory_expires_at dict_value
    expiry row = elim row.expires_at [
      | some t ↦ some t
      | none ↦ default_memory_expires_at now row.scope row.created_at (dict_value row.metadata)
    ]

    -- The default expiry is written to a row that has none.
    unfoldable pub with_expiry : Option Datetime → MemoryItem → MemoryItem
    with_expiry none row = row
    with_expiry (some t) row = elim row.expires_at [
      | some old ↦ row
      | none ↦ record row { expires_at = some t; updated_at = now }
    ]

    unfoldable pub expire_if_due : Option Datetime → MemoryItem → MemoryItem
    expire_if_due none row = row
    expire_if_due (some t) row =
        if leb t now then record row { status = expired; updated_at = now } else row

    unfoldable pub keep_forever : MemoryItem → MemoryItem
    keep_forever row = elim row.expires_at [
      | none ↦ row
      | some t ↦ record row { expires_at = none; updated_at = now }
    ]

    -- One turn of the loop, not a dry run
    unfoldable pub retain : MemoryItem → MemoryItem
    unfolding is_managed is_permanent_memory dict_value expiry with_expiry expire_if_due
        keep_forever
    retain row =
        if is_managed row.status
        then (if is_permanent_memory (dict_value row.metadata)
            then keep_forever row
            else expire_if_due (expiry row) (with_expiry (expiry row) row))
        else row

    unfoldable pub run : Bool → List MemoryItem → List MemoryItem
    unfolding retain
    run dry_run [] = []
    run dry_run (row ∷ rows) = (if dry_run then row else retain row) ∷ run dry_run rows
