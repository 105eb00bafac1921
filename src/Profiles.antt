-- ===== src/Profiles.antt =====
-- app/model_profiles/repository.py: `ModelProfileRepository` keeps the users' model profiles, with one
-- default for each owner and usage. The API key is kept encrypted, as the caller passes it.
pub mod Access
pub mod Usable
pub mod Defaults
use headhunt_agent.Prelude.{
  ℕ, ◌+◌, String, Bool, true, false, not, ◌&&◌, ◌||◌, Option, none, some, List, [], ◌∷◌, ◌++◌,
  if◌then◌else◌, str_eq, ◌==◌, ltb, any, find, select, count_where, update_where, update_first,
  or_text, ◌<>◌, map,
}
use headhunt_agent.Tx.{
  Tx, Error, Result, ok, raise, pure, throw, gets, require, guard, modify, ◌>>=◌, ◌>>◌,
  model_profile_not_found, model_profile_access, unique_violation, multiple_results,
}
use headhunt_agent.Storage.Models.{Uuid, Datetime}

pub data ModelUsage : Type 0 where
  chat embedding : ModelUsage

pub data ProfileStatus : Type 0 where
  active revoked : ProfileStatus

pub data TestStatus : Type 0 where
  untested passed failed : TestStatus

-- `UserModelProfile` of app/storage/models.py
pub record UserModelProfile : Type 0 where
  pub id : Uuid
  pub tenant_id : Option String
  pub guild_id : String
  pub user_id : String
  pub provider : String
  pub model_name : String
  pub display_name : String
  pub encrypted_api_key : Option String
  pub base_url : Option String
  pub usage : ModelUsage
  pub status : ProfileStatus
  pub is_default : Bool
  pub last_test_status : TestStatus
  pub last_used_at : Option Datetime
  pub created_at : Datetime
  pub updated_at : Datetime

pub record Profiles : Type 0 where
  pub rows : List UserModelProfile
  pub next_uuid : Uuid
  pub now : Datetime

-- `CreateModelProfileRequest` of app/schemas/model_profiles.py, without the plain API key
pub record CreateModelProfileRequest : Type 0 where
  pub provider : String
  pub model_name : String
  pub display_name : Option String
  pub base_url : Option String
  pub usage : ModelUsage
  pub make_default : Bool

-- `ModelProfileSummary`: every column but the key
pub record ModelProfileSummary : Type 0 where
  pub id : Uuid
  pub tenant_id : Option String
  pub guild_id : String
  pub user_id : String
  pub provider : String
  pub model_name : String
  pub display_name : String
  pub base_url : Option String
  pub usage : ModelUsage
  pub status : ProfileStatus
  pub is_default : Bool
  pub last_test_status : TestStatus
  pub last_used_at : Option Datetime
  pub created_at : Datetime
  pub updated_at : Datetime

unfoldable pub model_profile_summary : UserModelProfile → ModelProfileSummary
model_profile_summary profile = record {
  id = profile.id;
  tenant_id = profile.tenant_id;
  guild_id = profile.guild_id;
  user_id = profile.user_id;
  provider = profile.provider;
  model_name = profile.model_name;
  display_name = profile.display_name;
  base_url = profile.base_url;
  usage = profile.usage;
  status = profile.status;
  is_default = profile.is_default;
  last_test_status = profile.last_test_status;
  last_used_at = profile.last_used_at;
  created_at = profile.created_at;
  updated_at = profile.updated_at;
}

abbrev pub same_usage : ModelUsage → ModelUsage → Bool
same_usage chat chat = true
same_usage embedding embedding = true
same_usage _ _ = false

abbrev pub is_active : UserModelProfile → Bool
is_active p = elim p.status [ active ↦ true | revoked ↦ false ]

-- Whose profile it is, and for which usage
abbrev pub belongs : String → String → ModelUsage → UserModelProfile → Bool
belongs guild_id user_id usage p =
    str_eq p.guild_id guild_id && (str_eq p.user_id user_id && same_usage p.usage usage)

-- The rows of the index uq_user_model_profiles_default_usage for one owner and usage
abbrev pub is_default_of : String → String → ModelUsage → UserModelProfile → Bool
is_default_of guild_id user_id usage p =
    belongs guild_id user_id usage p && (is_active p && p.is_default)

abbrev pub has_profile_id : Uuid → UserModelProfile → Bool
has_profile_id profile_id p = p.id == profile_id

-- A key that is there and not empty
abbrev pub has_key : UserModelProfile → Bool
has_key p = elim p.encrypted_api_key [ none ↦ false | some key ↦ not (str_eq key "") ]

usage_text : ModelUsage → String
usage_text chat = "chat"
usage_text embedding = "embedding"

-- `_has_active_profile`
unfoldable pub has_active_profile : String → String → ModelUsage → Profiles → Bool
has_active_profile guild_id user_id usage s =
    any (λ p. belongs guild_id user_id usage p && is_active p) s.rows

abbrev pub undefault : Datetime → UserModelProfile → UserModelProfile
undefault now p = record p { is_default = false; updated_at = now }

-- `_clear_default`
unfoldable pub clear_default : String → String → ModelUsage → Profiles → Profiles
clear_default guild_id user_id usage s = record s {
  rows = update_where (belongs guild_id user_id usage) (undefault s.now) s.rows;
}

-- The flush of a new row, with the table's two unique constraints
unfoldable pub insert_profile : UserModelProfile → Tx Profiles (Unit {0})
insert_profile p s =
    if any
      (λ q.
        str_eq q.guild_id p.guild_id
        && (str_eq q.user_id p.user_id && str_eq q.display_name p.display_name))
      s.rows
    then (raise unique_violation, s)
    else if is_default_of p.guild_id p.user_id p.usage p
        && ltb 0 (count_where (is_default_of p.guild_id p.user_id p.usage) s.rows)
    then (raise unique_violation, s)
    else (ok tt, record s { rows = s.rows ++ p ∷ []; next_uuid = s.next_uuid + 1 })

module _ (tenant_id : Option String) (guild_id user_id : String)
    (request : CreateModelProfileRequest) (encrypted_api_key : String) where
  abbrev pub new_profile : Bool → Profiles → UserModelProfile
  unfolding usage_text
  new_profile make_default s = record {
    id = s.next_uuid;
    tenant_id = tenant_id;
    guild_id = guild_id;
    user_id = user_id;
    provider = request.provider;
    model_name = request.model_name;
    display_name =
        or_text request.display_name
          (usage_text request.usage <> ":" <> request.provider <> ":" <> request.model_name);
    encrypted_api_key = some encrypted_api_key;
    base_url = request.base_url;
    usage = request.usage;
    status = active;
    is_default = make_default;
    last_test_status = untested;
    last_used_at = none;
    created_at = s.now;
    updated_at = s.now;
  }

  add_profile : Bool → Tx Profiles ModelProfileSummary
  unfolding insert_profile
  add_profile make_default = do
    profile ← gets (new_profile make_default)
    insert_profile profile
    pure (model_profile_summary profile)

  create_as : Bool → Tx Profiles ModelProfileSummary
  unfolding add_profile clear_default
  create_as true = do modify (clear_default guild_id user_id request.usage); add_profile true
  create_as false = add_profile false

  unfoldable pub create_profile : Tx Profiles ModelProfileSummary
  unfolding create_as has_active_profile
  create_profile = do
    has_active ← gets (has_active_profile guild_id user_id request.usage)
    create_as (request.make_default || not has_active)

-- The filters of `list_profiles`; the newest row comes first.
abbrev fits_usage : Option ModelUsage → UserModelProfile → Bool
fits_usage none p = true
fits_usage (some usage) p = same_usage p.usage usage

insert_newest : UserModelProfile → List UserModelProfile → List UserModelProfile
insert_newest p [] = p ∷ []
insert_newest p (q ∷ rest) =
    if ltb p.created_at q.created_at then q ∷ insert_newest p rest else p ∷ q ∷ rest

newest_first : List UserModelProfile → List UserModelProfile
unfolding insert_newest
newest_first [] = []
newest_first (p ∷ rest) = insert_newest p (newest_first rest)

unfoldable pub list_profiles :
    String → String → Option ModelUsage → Bool → Profiles → List ModelProfileSummary
unfolding newest_first
list_profiles guild_id user_id usage include_revoked s = map model_profile_summary (
    newest_first (
      select
        (λ p.
          str_eq p.guild_id guild_id
          && (str_eq p.user_id user_id && (fits_usage usage p && (include_revoked || is_active p))))
        s.rows))
