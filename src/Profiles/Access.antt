-- ===== src/Profiles/Access.antt =====
-- app/model_profiles/repository.py: the lookups with their checks, and the changes of a profile.
use headhunt_agent.Profiles.{
  ModelUsage, UserModelProfile, Profiles, ModelProfileSummary, TestStatus, revoked,
  model_profile_summary, same_usage, is_active, is_default_of, has_profile_id, has_key,
  clear_default,
}
use headhunt_agent.Prelude.{
  String, Bool, true, false, ◌&&◌, Option, none, some, if◌then◌else◌, str_eq, ltb, find,
  count_where, update_where, update_first,
}
use headhunt_agent.Tx.{
  Tx, pure, throw, gets, require, guard, modify, ◌>>=◌, ◌>>◌, model_profile_not_found,
  model_profile_access, multiple_results,
}
use headhunt_agent.Storage.Models.{Uuid, Datetime}

-- A check that None switches off
abbrev pub fits : Option String → String → Bool
fits none value = true
fits (some expected) value = str_eq value expected

abbrev pub fits_usage : Option ModelUsage → UserModelProfile → Bool
fits_usage none p = true
fits_usage (some usage) p = same_usage p.usage usage

-- profile.tenant_id in {None, tenant_id}
abbrev pub fits_tenant : Option String → Option String → Bool
fits_tenant none owner = true
fits_tenant (some tenant_id) none = true
fits_tenant (some tenant_id) (some owner) = str_eq owner tenant_id

-- session.get(UserModelProfile, profile_id)
unfoldable pub get_profile : Uuid → Profiles → Option UserModelProfile
get_profile profile_id s = find (has_profile_id profile_id) s.rows

module _ (profile_id : Uuid) where
  unfoldable pub get_active_profile :
      Option String
      → Option String
      → Option String
      → Option ModelUsage
      → Tx Profiles UserModelProfile
  unfolding get_profile
  get_active_profile guild_id user_id tenant_id usage = do
    found ← gets (get_profile profile_id)
    profile ← require found model_profile_not_found
    guard (is_active profile) model_profile_not_found
    guard (fits_usage usage profile) model_profile_not_found
    guard (fits guild_id profile.guild_id) model_profile_access
    guard (fits user_id profile.user_id) model_profile_access
    guard (fits_tenant tenant_id profile.tenant_id) model_profile_access
    guard (has_key profile) model_profile_not_found
    pure profile

  -- A change of the row that the session holds, flushed
  abbrev pub change : (UserModelProfile → UserModelProfile) → Profiles → Profiles
  change f s = record s { rows = update_first (has_profile_id profile_id) f s.rows }

  abbrev pub as_default : Datetime → UserModelProfile → UserModelProfile
  as_default now p = record p { is_default = true; updated_at = now }

  abbrev pub as_revoked : Datetime → UserModelProfile → UserModelProfile
  as_revoked now p = record p {
    status = revoked;
    is_default = false;
    encrypted_api_key = none;
    updated_at = now;
  }

  unfoldable pub set_default : String → String → ModelUsage → Tx Profiles ModelProfileSummary
  unfolding get_active_profile clear_default
  set_default guild_id user_id usage = do
    profile ← get_active_profile (some guild_id) (some user_id) none (some usage)
    modify (clear_default guild_id user_id usage)
    modify (λ s. change (as_default s.now) s)
    now ← gets (λ s. s.now)
    pure (model_profile_summary (as_default now profile))

  unfoldable pub revoke : String → String → Tx Profiles ModelProfileSummary
  unfolding get_active_profile
  revoke guild_id user_id = do
    profile ← get_active_profile (some guild_id) (some user_id) none none
    modify (λ s. change (as_revoked s.now) s)
    now ← gets (λ s. s.now)
    pure (model_profile_summary (as_revoked now profile))

  unfoldable pub mark_test_result : TestStatus → Profiles → Profiles
  mark_test_result status s = record s {
    rows =
        update_where (has_profile_id profile_id)
          (λ p. record p { last_test_status = status; updated_at = s.now }) s.rows;
  }

  unfoldable pub mark_used : Profiles → Profiles
  mark_used s = record s {
    rows =
        update_where (has_profile_id profile_id)
          (λ p. record p { last_used_at = some s.now; updated_at = s.now }) s.rows;
  }

-- scalar_one_or_none(), which raises MultipleResultsFound on a second row
unfoldable pub one_or_none :
    (UserModelProfile → Bool) → Profiles → Tx Profiles (Option UserModelProfile)
one_or_none test s =
    if ltb 1 (count_where test s.rows) then throw multiple_results else pure (find test s.rows)

unfoldable pub get_default_profile : String → String → ModelUsage → Tx Profiles UserModelProfile
unfolding one_or_none
get_default_profile guild_id user_id usage = do
  s ← gets (λ s. s)
  found ← one_or_none (is_default_of guild_id user_id usage) s
  require found model_profile_not_found

unfoldable pub get_active_profile_by_display_name :
    String → String → String → Option ModelUsage → Tx Profiles UserModelProfile
unfolding one_or_none
get_active_profile_by_display_name guild_id user_id display_name usage = do
  s ← gets (λ s. s)
  found ←
      one_or_none
        (λ p.
          str_eq p.guild_id guild_id
          && (str_eq p.user_id user_id
              && (str_eq p.display_name display_name && (is_active p && fits_usage usage p))))
        s
  profile ← require found model_profile_not_found
  guard (has_key profile) model_profile_not_found
  pure profile
