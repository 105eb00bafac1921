-- ===== src/Profiles/Defaults/Kept.antt =====
-- The operations keep one default for each owner and usage.
use headhunt_agent.Profiles.Defaults.{
  HasOneDefault, default_set, cleared_le, and_false, same_usage-eq,
}
use headhunt_agent.Profiles.{
  ModelUsage, UserModelProfile, Profiles, CreateModelProfileRequest, belongs, is_default_of,
  has_profile_id, clear_default, insert_profile, add_profile, create_as, create_profile, same_usage,
}
use headhunt_agent.Profiles.Access.{
  set_default, revoke, change, as_default, as_revoked, get_active_profile, get_profile,
  get_default_profile, one_or_none,
}
use headhunt_agent.Profiles.Usable.{
  get_active_profile-IsUsable, get_active_profile_reads, revoked_state, revoke_raises,
}
use headhunt_agent.Prelude.{
  ℕ, String, Bool, true, false, not, ◌&&◌, ◌||◌, Option, none, some, [], ◌∷◌, ◌++◌, ◌≡◌, ◌≢◌, ◌≤◌,
  ◌+◌, refl, arith, count_where, count_where-append, count_where-update_first-le, str_eq, ltb, inl,
  inr, Bool-cases, any, eq_iff, find, Option-cases, subst, sym,
}
use headhunt_agent.Tx.{Error, ok, raise, modify, gets, ◌>>=◌, multiple_results}
use headhunt_agent.Tx.Keeps.{Keeps, reading_cases, Keeps-modify, Keeps-bind, Keeps-gets, Keeps-pure}
use headhunt_agent.Storage.Models.{Uuid}

module _ (profile_id : Uuid) (guild_id user_id : String) (s : Profiles) where
  set_default_state :
      (usage : ModelUsage) (p : UserModelProfile)
      → get_active_profile profile_id (some guild_id) (some user_id) none (some usage) s ≡ (ok p, s)
      → (set_default profile_id guild_id user_id usage s).1
        ≡ change profile_id (as_default profile_id s.now) (clear_default guild_id user_id usage s)
  unfolding set_default ◌>>=◌
  set_default_state usage p out = rw out refl

  set_default_raises :
      (usage : ModelUsage) (e : Error)
      → get_active_profile profile_id (some guild_id) (some user_id) none (some usage) s
        ≡ (raise e, s)
      → (set_default profile_id guild_id user_id usage s).1 ≡ s
  unfolding set_default ◌>>=◌
  set_default_raises usage e out = rw out refl

  -- Making a profile the default leaves one default for each owner and usage.
  pub set_default-HasOneDefault :
      (usage : ModelUsage)
      → HasOneDefault s
      → HasOneDefault (set_default profile_id guild_id user_id usage s).1
  unfolding get_profile
  set_default-HasOneDefault usage h =
      elim (reading_cases
        (get_active_profile profile_id (some guild_id) (some user_id) none (some usage)) s
        (get_active_profile_reads profile_id (some guild_id) (some user_id) none (some usage) s)) [
          | inr (e, out) ↦ rw (set_default_raises usage e out) h
          | inl (p, out) ↦
              let usable =
                get_active_profile-IsUsable profile_id (some guild_id) (some user_id) none
                  (some usage) s p (cc out) in
              rw (set_default_state usage p out) (
                default_set guild_id user_id usage profile_id s p usable.found
                  (all_three (str_eq p.guild_id guild_id) (str_eq p.user_id user_id)
                    (same_usage p.usage usage) usable.in_guild usable.of_user usable.has_usage)
                  h)
        ]
    where
      all_three : (a b c : Bool) → a ≡ true → b ≡ true → c ≡ true → (a && (b && c)) ≡ true
      all_three a b c x y z = ground arith

  -- Revoking a profile leaves one default at most for each owner and usage.
  pub revoke-HasOneDefault :
      HasOneDefault s → HasOneDefault (revoke profile_id guild_id user_id s).1
  revoke-HasOneDefault h =
      elim (reading_cases (get_active_profile profile_id (some guild_id) (some user_id) none none) s
        (get_active_profile_reads profile_id (some guild_id) (some user_id) none none s)) [
          | inr (e, out) ↦ rw (revoke_raises profile_id guild_id user_id s e out) h
          | inl (p, out) ↦ rw (revoked_state profile_id guild_id user_id s p out) (λ g u k. omega (
            arith,
            h g u k,
            count_where-update_first-le (is_default_of g u k) (has_profile_id profile_id)
                (as_revoked profile_id s.now)
                (λ x i q. absurd (cc (q, and_false (belongs g u k x) false))) s.rows,
          ))
        ]

-- The owner of a row, as the constraint reads it
abbrev own_default : UserModelProfile → UserModelProfile → Bool
own_default p = is_default_of p.guild_id p.user_id p.usage

owner_of :
    (g u : String) (k : ModelUsage) (p : UserModelProfile)
    → is_default_of g u k p ≡ true
    → (p.guild_id ≡ g) × (p.user_id ≡ u) × (p.usage ≡ k)
owner_of g u k p h =
    let (a, b, c) = parts _ _ _ _ h in
    ((eq_iff p.guild_id g).0 a, (eq_iff p.user_id u).0 b, same_usage-eq p.usage k c)
  where
    parts : (a b c d : Bool) → ((a && (b && c)) && d) ≡ true → (a ≡ true) × (b ≡ true) × (c ≡ true)
    parts a b c d q = (ground arith, ground arith, ground arith)

inserted :
    (p : UserModelProfile) (s : Profiles) → HasOneDefault s → HasOneDefault (insert_profile p s).1
unfolding insert_profile
inserted p s h g u k =
    elim (Bool-cases (
      any
        (λ q.
          str_eq q.guild_id p.guild_id
          && (str_eq q.user_id p.user_id && str_eq q.display_name p.display_name))
        s.rows)) [
          | inl used ↦ rw used (h g u k)
          | inr unused ↦
              elim (Bool-cases (
                is_default_of p.guild_id p.user_id p.usage p
                && ltb 0 (count_where (is_default_of p.guild_id p.user_id p.usage) s.rows))) [
                  | inl clash ↦ rw unused (rw clash (h g u k))
                  | inr free ↦ rw unused (
                      rw free (
                        appended (is_default_of g u k p) refl
                          (count_where-append (is_default_of g u k) s.rows (p ∷ [])) free))
                ]
        ]
  where
    no_other : (b : Bool) (n : ℕ) → b ≡ true → (b && ltb 0 n) ≡ false → n ≡ 0
    no_other b n e q = ground arith

    appended :
        (b : Bool)
        → is_default_of g u k p ≡ b
        → (count_where (is_default_of g u k) (s.rows ++ p ∷ [])
            ≡ count_where (is_default_of g u k) s.rows + count_where (is_default_of g u k) (p ∷ []))
        → (is_default_of p.guild_id p.user_id p.usage p
            && ltb 0 (count_where (is_default_of p.guild_id p.user_id p.usage) s.rows))
          ≡ false
        → count_where (is_default_of g u k) (s.rows ++ p ∷ []) ≤ 1
    appended false e sum free = omega (arith, rw e at sum, h g u k)
    appended true e sum free =
        let (a, b, c) = owner_of g u k p e in
        let own_e : own_default p p ≡ true =
          subst (λ x. is_default_of x p.user_id p.usage p ≡ true) (sym a)
            (subst (λ x. is_default_of g x p.usage p ≡ true) (sym b)
              (subst (λ x. is_default_of g u x p ≡ true) (sym c) e)) in
        let own_zero = no_other (own_default p p) (count_where (own_default p) s.rows) own_e free in
        let none_yet : count_where (is_default_of g u k) s.rows ≡ 0 =
          subst (λ x. count_where (is_default_of x u k) s.rows ≡ 0) a
            (subst (λ x. count_where (is_default_of p.guild_id x k) s.rows ≡ 0) b
              (subst (λ x. count_where (is_default_of p.guild_id p.user_id x) s.rows ≡ 0) c
                own_zero)) in
        omega (arith, rw e at sum, none_yet)

module _ (tenant_id : Option String) (guild_id user_id : String)
    (request : CreateModelProfileRequest) (encrypted_api_key : String) where
  added :
      (make_default : Bool) (s : Profiles)
      → HasOneDefault s
      → HasOneDefault
          (add_profile tenant_id guild_id user_id request encrypted_api_key make_default s).1
  unfolding add_profile
  added make_default s h =
      (Keeps-bind {P = HasOneDefault} (gets _) _ (Keeps-gets _) (λ p.
          Keeps-bind (insert_profile p) _ (record { at = λ t k. inserted p t k })
            (λ _. Keeps-pure _))).at
        s h

  cleared :
      (s : Profiles)
      → HasOneDefault s
      → HasOneDefault (clear_default guild_id user_id request.usage s)
  cleared s h g u k = omega (arith, h g u k, cleared_le guild_id user_id request.usage g u k s)

  -- A new profile leaves one default at most for each owner and usage, also where it is refused.
  pub create_profile-HasOneDefault :
      (s : Profiles)
      → HasOneDefault s
      → HasOneDefault (create_profile tenant_id guild_id user_id request encrypted_api_key s).1
  unfolding create_profile create_as
  create_profile-HasOneDefault s h =
      (Keeps-bind {P = HasOneDefault} (gets _) _ (Keeps-gets _)
          (λ has_active. by_default (request.make_default || not has_active))).at
        s h
    where
      by_default :
          (b : Bool)
          → Keeps HasOneDefault (create_as tenant_id guild_id user_id request encrypted_api_key b)
      by_default true =
          Keeps-bind (modify _) _ (Keeps-modify _ cleared)
            (λ _. record { at = λ s h. added true s h })
      by_default false = record { at = λ s h. added false s h }

-- Where there is one default at most, the lookup of the default never finds several.
pub get_default_profile-ne-multiple :
    (guild_id user_id : String) (usage : ModelUsage) (s : Profiles)
    → HasOneDefault s
    → (get_default_profile guild_id user_id usage s).0 ≢ raise multiple_results
unfolding get_default_profile one_or_none ◌>>=◌
get_default_profile-ne-multiple guild_id user_id usage s h e =
    let few : ltb 1 (count_where (is_default_of guild_id user_id usage) s.rows) ≡ false =
      at_most_one _ (h guild_id user_id usage) in
    elim (Option-cases (find (is_default_of guild_id user_id usage) s.rows)) [
      | inl absent ↦ absurd (cc (rw absent at (rw few at e)))
      | inr (p, found) ↦ absurd (cc (rw found at (rw few at e)))
    ]
  where
    at_most_one : (n : ℕ) → n ≤ 1 → ltb 1 n ≡ false
    at_most_one n h = ground arith
