-- ===== src/Sops/Limits.antt =====
-- How many references a node gets.
use headhunt_agent.Prelude.{
  ℕ, true, Option, none, some, List, [], ◌∷◌, length, length-append, ◌≤◌, ◌+◌, arith, inl, inr,
  Bool-cases, ltb, ◌≡◌, ◌<◌,
}
use headhunt_agent.Sops.{SopRecord, SopRef, Node, add_below, add_record, resolve_all, resolve}
use headhunt_agent.Texts.{starts_with}

module _ (max_primary_sops max_review_sops : ℕ) (node : Node) where
  abbrev IsWithin : List SopRef × List SopRef → Type 0
  IsWithin refs = (length refs.0 ≤ max_primary_sops) × (length refs.1 ≤ max_review_sops)

  length-add_below :
      (limit : ℕ) (ref : SopRef) (refs : List SopRef)
      → length refs ≤ limit
      → length (add_below max_primary_sops max_review_sops node limit ref refs) ≤ limit
  unfolding add_below
  length-add_below limit ref refs h = elim (Bool-cases (ltb (length refs) limit)) [
    | inl room ↦ rw room (omega (arith, length-append refs (ref ∷ []), small room))
    | inr full ↦ rw full h
  ]
    where
      small : ltb (length refs) limit ≡ true → length refs < limit
      small room = ground arith

  add_record-IsWithin :
      (r : SopRecord) (o : Option SopRef) (refs : List SopRef × List SopRef)
      → IsWithin refs
      → IsWithin (add_record max_primary_sops max_review_sops node r o refs)
  unfolding add_record
  add_record-IsWithin r none (primary, review) h = h
  add_record-IsWithin r (some ref) (primary, review) h =
      elim (Bool-cases (starts_with "review." r.scope)) [
        | inl reviews ↦ rw reviews (h.0, length-add_below max_review_sops ref review h.1)
        | inr other ↦ rw other (length-add_below max_primary_sops ref primary h.0, h.1)
      ]

  resolve_all-IsWithin :
      (records : List SopRecord) (refs : List SopRef × List SopRef)
      → IsWithin refs
      → IsWithin (resolve_all max_primary_sops max_review_sops node records refs)
  unfolding resolve_all
  resolve_all-IsWithin [] refs h = h
  resolve_all-IsWithin (r ∷ records) refs h =
      resolve_all-IsWithin records _ (add_record-IsWithin r _ refs h)

  -- A node gets at most `max_primary_sops` and `max_review_sops` references together, however many
  -- records match.
  pub length-resolve :
      (records : List SopRecord)
      → length (resolve max_primary_sops max_review_sops node records)
        ≤ max_primary_sops + max_review_sops
  unfolding resolve
  length-resolve records =
      let refs = resolve_all max_primary_sops max_review_sops node records ([], []) in
      let within = resolve_all-IsWithin records ([], []) (omega arith, omega arith) in
      omega (arith, length-append refs.0 refs.1, within.0, within.1)
