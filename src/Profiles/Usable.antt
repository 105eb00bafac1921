-- ===== src/Profiles/Usable.antt =====
-- Which profiles a caller gets, and that a revoked one is never used again.
use headhunt_agent.Profiles.{
  ModelUsage, UserModelProfile, Profiles, is_active, has_profile_id, has_key, ModelProfileSummary,
}
use headhunt_agent.Profiles.Access.{
  get_active_profile, get_profile, fits, fits_usage, fits_tenant, revoke, change, as_revoked,
}
use headhunt_agent.Prelude.{
  String, true, false, Option, none, some, ◌≡◌, refl, find-update_first, inl, inr, subst,
}
use headhunt_agent.Tx.{ok, raise, pure, model_profile_not_found, ◌>>=◌, Error}
use headhunt_agent.Tx.Passes.{gets_passed, require_passed, guard_passed}
use headhunt_agent.Tx.Keeps.{Keeps, keeps_rules, reading_cases}
use headhunt_agent.Storage.Models.{Uuid, Datetime}

-- The row is there and active, is the caller's, and has its key.
pub record IsUsable (profile_id : Uuid) (guild_id user_id tenant_id : Option String)
    (usage : Option ModelUsage) (s : Profiles) (p : UserModelProfile) : Type 0 where
  pub found : get_profile profile_id s ≡ some p
  pub active : is_active p ≡ true
  pub has_usage : fits_usage usage p ≡ true
  pub in_guild : fits guild_id p.guild_id ≡ true
  pub of_user : fits user_id p.user_id ≡ true
  pub of_tenant : fits_tenant tenant_id p.tenant_id ≡ true
  pub keyed : has_key p ≡ true

ok_value : {S A : Type 0} {a b : A} (s : S) → (pure a s).0 ≡ ok b → a ≡ b
unfolding pure
ok_value s h = cc

module _ (profile_id : Uuid) (guild_id user_id tenant_id : Option String)
    (usage : Option ModelUsage) (s : Profiles) where
  pub get_active_profile-IsUsable :
      (p : UserModelProfile)
      → (get_active_profile profile_id guild_id user_id tenant_id usage s).0 ≡ ok p
      → IsUsable profile_id guild_id user_id tenant_id usage s p
  unfolding get_active_profile
  get_active_profile-IsUsable p h =
      let (q, found, h1) = require_passed _ _ _ s (gets_passed _ _ s h) in
      let (is_on, h2) = guard_passed _ _ _ s h1 in
      let (has_usage, h3) = guard_passed _ _ _ s h2 in
      let (in_guild, h4) = guard_passed _ _ _ s h3 in
      let (of_user, h5) = guard_passed _ _ _ s h4 in
      let (of_tenant, h6) = guard_passed _ _ _ s h5 in
      let (keyed, h7) = guard_passed _ _ _ s h6 in
      subst (IsUsable profile_id guild_id user_id tenant_id usage s) (ok_value s h7) (record {
        found = found;
        active = is_on;
        has_usage = has_usage;
        in_guild = in_guild;
        of_user = of_user;
        of_tenant = of_tenant;
        keyed = keyed;
      })

  pub get_active_profile_reads :
      {P : Profiles → Type 0}
      → Keeps P (get_active_profile profile_id guild_id user_id tenant_id usage)
  unfolding get_active_profile
  get_active_profile_reads = search keeps_rules depth 24

-- A profile that is not active is not found, whoever asks.
get_inactive :
    (profile_id : Uuid) (guild_id user_id tenant_id : Option String) (usage : Option ModelUsage)
    (s : Profiles) (p : UserModelProfile)
    → get_profile profile_id s ≡ some p
    → is_active p ≡ false
    → get_active_profile profile_id guild_id user_id tenant_id usage s
      ≡ (raise model_profile_not_found, s)
unfolding get_active_profile ◌>>=◌
get_inactive profile_id guild_id user_id tenant_id usage s p found off = rw found (rw off)

pub revoke_raises :
    (profile_id : Uuid) (guild_id user_id : String) (s : Profiles) (e : Error)
    → get_active_profile profile_id (some guild_id) (some user_id) none none s ≡ (raise e, s)
    → revoke profile_id guild_id user_id s ≡ (raise e, s)
unfolding revoke ◌>>=◌
revoke_raises profile_id guild_id user_id s e out = rw out refl

-- What a revocation does once the profile is found
pub revoked_state :
    (profile_id : Uuid) (guild_id user_id : String) (s : Profiles) (p : UserModelProfile)
    → get_active_profile profile_id (some guild_id) (some user_id) none none s ≡ (ok p, s)
    → (revoke profile_id guild_id user_id s).1 ≡ change profile_id (as_revoked profile_id s.now) s
unfolding revoke ◌>>=◌
revoked_state profile_id guild_id user_id s p out = rw out refl

revoked_found :
    (profile_id : Uuid) (now : Datetime) (s : Profiles) (p : UserModelProfile)
    → get_profile profile_id s ≡ some p
    → get_profile profile_id (change profile_id (as_revoked profile_id now) s)
      ≡ some (as_revoked profile_id now p)
unfolding get_profile
revoked_found profile_id now s p found =
    find-update_first (has_profile_id profile_id) (as_revoked profile_id now) (λ x. refl) s.rows p
      found

-- After a profile is revoked, no caller gets it, for any usage.
pub revoke_final :
    (profile_id : Uuid) (guild_id user_id : String) (s : Profiles) (r : ModelProfileSummary)
    (guild_id' user_id' tenant_id' : Option String) (usage' : Option ModelUsage)
    → (revoke profile_id guild_id user_id s).0 ≡ ok r
    → get_active_profile profile_id guild_id' user_id' tenant_id' usage'
        (revoke profile_id guild_id user_id s).1
      ≡ (raise model_profile_not_found, (revoke profile_id guild_id user_id s).1)
revoke_final profile_id guild_id user_id s r guild_id' user_id' tenant_id' usage' h =
    elim (reading_cases (get_active_profile profile_id (some guild_id) (some user_id) none none) s
      (get_active_profile_reads profile_id (some guild_id) (some user_id) none none s)) [
        | inl (p, out) ↦
            let usable =
              get_active_profile-IsUsable profile_id (some guild_id) (some user_id) none none s p
                (cc out) in
            rw (revoked_state profile_id guild_id user_id s p out) (
              get_inactive profile_id guild_id' user_id' tenant_id' usage' _ _
                (revoked_found profile_id s.now s p usable.found) refl)
        | inr (e, out) ↦ absurd (cc (revoke_raises profile_id guild_id user_id s e out, h))
      ]
