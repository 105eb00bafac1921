-- ===== src/Profiles/Defaults.antt =====
-- One default profile for each owner and usage, after every operation.
pub mod Kept
pub mod Reached
use headhunt_agent.Profiles.{
  ModelUsage, UserModelProfile, Profiles, is_active, belongs, is_default_of, has_profile_id,
  undefault, clear_default, same_usage, chat, embedding,
}
use headhunt_agent.Profiles.Access.{change, as_default}
use headhunt_agent.Prelude.{
  String, Bool, true, false, ◌&&◌, some, ◌≡◌, ◌≤◌, refl, arith, find, find-update_where,
  count_where, count_where-update_where-le, count_where-update_where-zero,
  count_where-update_first-suc, count_where-update_first-found, inl, inr, Bool-cases, eq_iff, ◌∷◌,
  none, [],
}
use headhunt_agent.Storage.Models.{Uuid}

-- The table has one default at most for each owner and usage.
abbrev pub HasOneDefault : Profiles → Type 0
HasOneDefault s =
    (guild_id user_id : String) (usage : ModelUsage)
    → count_where (is_default_of guild_id user_id usage) s.rows ≤ 1

and_false : (a b : Bool) → (a && (b && false)) ≡ false
and_false a b = ground arith

and_first : (a b c : Bool) → a ≡ false → (a && (b && c)) ≡ false
and_first a b c h = ground arith

same_usage-eq : (a b : ModelUsage) → same_usage a b ≡ true → a ≡ b
same_usage-eq chat chat h = refl
same_usage-eq embedding embedding h = refl
same_usage-eq chat embedding h = absurd (cc)
same_usage-eq embedding chat h = absurd (cc)

module _ (g u : String) (k : ModelUsage) where
  cleared_le :
      (g' u' : String) (k' : ModelUsage) (s : Profiles)
      → count_where (is_default_of g' u' k') (clear_default g u k s).rows
        ≤ count_where (is_default_of g' u' k') s.rows
  unfolding clear_default
  cleared_le g' u' k' s =
      count_where-update_where-le (is_default_of g' u' k') (belongs g u k) (undefault s.now)
        (λ x i h. absurd (cc (h, and_false (belongs g' u' k' x) (is_active x)))) s.rows

  cleared_zero : (s : Profiles) → count_where (is_default_of g u k) (clear_default g u k s).rows ≡ 0
  unfolding clear_default
  cleared_zero s =
      count_where-update_where-zero (is_default_of g u k) (belongs g u k) (undefault s.now)
        (λ x i. and_false (belongs g u k x) (is_active x))
        (λ x i. and_first (belongs g u k x) (is_active x) x.is_default i) s.rows

  -- A row that belongs to two owners shows that they are one.
  same_owner :
      (g' u' : String) (k' : ModelUsage) (p : UserModelProfile)
      → belongs g u k p ≡ true
      → belongs g' u' k' p ≡ true
      → (g' ≡ g) × (u' ≡ u) × (k' ≡ k)
  same_owner g' u' k' p h h' =
      let (a, b, c) = parts _ _ _ h in
      let (a', b', c') = parts _ _ _ h' in
      let ga = (eq_iff p.guild_id g).0 a in
      let ga' = (eq_iff p.guild_id g').0 a' in
      let ub = (eq_iff p.user_id u).0 b in
      let ub' = (eq_iff p.user_id u').0 b' in
      let kc = same_usage-eq p.usage k c in
      let kc' = same_usage-eq p.usage k' c' in (cc (ga, ga'), cc (ub, ub'), cc (kc, kc'))
    where
      parts : (a b c : Bool) → (a && (b && c)) ≡ true → (a ≡ true) × (b ≡ true) × (c ≡ true)
      parts a b c q = (ground arith, ground arith, ground arith)

  -- The row that becomes the default is its owner's only one.
  default_set :
      (id : Uuid) (s : Profiles) (p : UserModelProfile)
      → find (has_profile_id id) s.rows ≡ some p
      → belongs g u k p ≡ true
      → HasOneDefault s
      → HasOneDefault (change id (as_default id s.now) (clear_default g u k s))
  unfolding clear_default
  default_set id s p found owner h g' u' k' = elim (Bool-cases (belongs g' u' k' p)) [
    | inl mine ↦
        let (a, b, c) = same_owner g' u' k' p owner mine in
        rw a (
          rw b (
            rw c (
              omega (
                arith,
                cleared_zero s,
                count_where-update_first-suc (is_default_of g u k) (has_profile_id id)
                    (as_default id s.now) (clear_default g u k s).rows,
              ))))
    | inr other ↦
        let found' =
          find-update_where (has_profile_id id) (belongs g u k) (undefault s.now) (λ x. refl) s.rows
            p found in
        omega (
          arith,
          h g' u' k',
          cleared_le g' u' k' s,
          count_where-update_first-found (is_default_of g' u' k') (has_profile_id id)
              (as_default id s.now) (clear_default g u k s).rows (undefault s.now p)
              (rw owner at found')
              (λ q. absurd (cc (q, and_first (belongs g' u' k' p) (is_active p) true other))),
        )
  ]
