-- ===== src/Profiles/Defaults/Reached.antt =====
-- The tables of profiles that the operations can bring about.
use headhunt_agent.Prelude.{String, [], arith, ◌≢◌, Option}
use headhunt_agent.Profiles.Access.{set_default, revoke, get_default_profile}
use headhunt_agent.Profiles.{ModelUsage, Profiles, CreateModelProfileRequest, create_profile}
use headhunt_agent.Profiles.Defaults.{HasOneDefault}
use headhunt_agent.Profiles.Defaults.Kept.{
  create_profile-HasOneDefault, set_default-HasOneDefault, get_default_profile-ne-multiple,
  revoke-HasOneDefault,
}
use headhunt_agent.Tx.{raise, multiple_results}
use headhunt_agent.Storage.Models.{Uuid, Datetime}

-- What comes of no profiles by the repository's operations, each of which may be refused, at any time
pub data IsReachable : Profiles → Type 0 where
  no_profiles :
      (next_uuid : Uuid) (now : Datetime)
      → IsReachable (record { rows = []; next_uuid = next_uuid; now = now })
  later : (s : Profiles) (now : Datetime) → IsReachable s → IsReachable (record s { now = now })
  after_create :
      (s : Profiles) (tenant_id : Option String) (guild_id user_id : String)
      (request : CreateModelProfileRequest) (encrypted_api_key : String)
      → IsReachable s
      → IsReachable (create_profile tenant_id guild_id user_id request encrypted_api_key s).1
  after_set_default :
      (s : Profiles) (profile_id : Uuid) (guild_id user_id : String) (usage : ModelUsage)
      → IsReachable s
      → IsReachable (set_default profile_id guild_id user_id usage s).1
  after_revoke :
      (s : Profiles) (profile_id : Uuid) (guild_id user_id : String)
      → IsReachable s
      → IsReachable (revoke profile_id guild_id user_id s).1

reachable-HasOneDefault : (s : Profiles) → IsReachable s → HasOneDefault s
reachable-HasOneDefault s (no_profiles next_uuid now) = λ g u k. omega arith
reachable-HasOneDefault s (later t now r) = reachable-HasOneDefault t r
reachable-HasOneDefault s (after_create t tenant guild_id user_id request sealed r) =
    create_profile-HasOneDefault tenant guild_id user_id request sealed t
      (reachable-HasOneDefault t r)
reachable-HasOneDefault s (after_set_default t profile_id guild_id user_id usage r) =
    set_default-HasOneDefault profile_id guild_id user_id t usage (reachable-HasOneDefault t r)
reachable-HasOneDefault s (after_revoke t profile_id guild_id user_id r) =
    revoke-HasOneDefault profile_id guild_id user_id t (reachable-HasOneDefault t r)

-- After any creations, revocations and changes of defaults, an owner has one default at most for each
-- usage, and the lookup of the default never finds several.
pub default_unambiguous :
    (s : Profiles) (guild_id user_id : String) (usage : ModelUsage)
    → IsReachable s
    → HasOneDefault s × ((get_default_profile guild_id user_id usage s).0 ≢ raise multiple_results)
default_unambiguous s guild_id user_id usage r =
    let one = reachable-HasOneDefault s r in
    (one, get_default_profile-ne-multiple guild_id user_id usage s one)
