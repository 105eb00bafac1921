-- ===== src/Samples/Users.antt =====
-- A user with one profile, and the operations on it.
use headhunt_agent.Prelude.{true, none, some, [], ◌∷◌, ◌≡◌, ◌≢◌, refl}
use headhunt_agent.Tx.{ok, raise, ◌>>=◌, model_profile_not_found, multiple_results}
use headhunt_agent.Profiles.{
  UserModelProfile, Profiles, ProfileStatus, TestStatus, chat, CreateModelProfileRequest,
  ModelProfileSummary, create_profile, model_profile_summary,
}
use headhunt_agent.Profiles.Access.{get_active_profile, revoke, get_default_profile, as_revoked}
use headhunt_agent.Profiles.Usable.{revoke_final}
use headhunt_agent.Profiles.Defaults.{HasOneDefault}
use headhunt_agent.Profiles.Defaults.Reached.{
  default_unambiguous, after_revoke, after_create, no_profiles,
}

abbrev profile : UserModelProfile
profile = record {
  id = 1;
  tenant_id = none;
  guild_id = "g1";
  user_id = "u1";
  provider = "p";
  model_name = "m";
  display_name = "mine";
  encrypted_api_key = some "sealed";
  base_url = none;
  usage = chat;
  status = ProfileStatus.active;
  is_default = true;
  last_test_status = TestStatus.untested;
  last_used_at = none;
  created_at = 0;
  updated_at = 0;
}

abbrev users : Profiles
users = record { rows = profile ∷ []; next_uuid = 2; now = 5 }

abbrev summary : ModelProfileSummary
unfolding model_profile_summary
summary = model_profile_summary (as_revoked 1 5 profile)

gone : (revoke 1 "g1" "u1" users).0 ≡ ok summary
unfolding revoke ◌>>=◌ summary
gone = refl

revoke_final_example :
    get_active_profile 1 none none none (some chat) (revoke 1 "g1" "u1" users).1
    ≡ (raise model_profile_not_found, (revoke 1 "g1" "u1" users).1)
revoke_final_example = revoke_final 1 "g1" "u1" users summary none none none (some chat) gone

abbrev new_request : CreateModelProfileRequest
new_request = record {
  provider = "p";
  model_name = "m2";
  display_name = none;
  base_url = none;
  usage = chat;
  make_default = true;
}

abbrev fresh : Profiles
fresh = record { rows = []; next_uuid = 2; now = 5 }

-- A profile is created as the default, then revoked.
abbrev revoked_users : Profiles
revoked_users = (revoke 2 "g1" "u1" (create_profile none "g1" "u1" new_request "sealed" fresh).1).1

default_unambiguous_example :
    HasOneDefault revoked_users
    × ((get_default_profile "g1" "u1" chat revoked_users).0 ≢ raise multiple_results)
default_unambiguous_example = default_unambiguous revoked_users "g1" "u1" chat (
    after_revoke _ 2 "g1" "u1"
      (after_create fresh none "g1" "u1" new_request "sealed" (no_profiles 2 5)))
