-- ===== src/Bitable/Final.antt =====
-- What was written under a client token stays so.
use headhunt_agent.Bitable.{
  WriteChunk, BitableStore, has_token, upsert_chunk, same_identity, upsert_record_map, same_ids,
  upsert_entity, ChunkCall, RecordMap, upsert_record_maps, maps_if_any, unless_conflict,
  same_record, new_chunk, record_chunk_failure, same_entity, failed_chunk, hash_of, ChunkStatus,
  succeeded_chunk, record_chunk_success, client_token_conflict_reason, is_written, fits_lengths,
}
use headhunt_agent.Tx.Keeps.{Keeps, Keeps-bind, Keeps-pure, Keeps-throw, Keeps-require, Keeps-gets}
use headhunt_agent.Prelude.{
  String, not, ◌&&◌, some, List, ◌≡◌, refl, find, any, find-update_first, update_first, inl, inr,
  Bool-cases, str_eq, none, arith, Bool, eq_iff, true, [], ◌∷◌, sym, Option-cases,
}
use headhunt_agent.Codec.{Codec}
use headhunt_agent.Value.{Fields}
use headhunt_agent.Tx.{value_error, ◌>>=◌}

-- The chunk of a token has these ids and this hash.
pub record HasWritten (token hash : String) (ids : List String) (s : BitableStore) : Type 0 where
  pub chunk : WriteChunk
  pub found : find (has_token token) s.chunks ≡ some chunk
  pub ids_kept : chunk.record_ids ≡ ids
  pub hash_kept : chunk.payload_hash ≡ hash

module _ (token hash : String) (ids : List String) where
  Keeps-upsert :
      (new : WriteChunk) (f : WriteChunk → WriteChunk)
      → new.client_token ≡ token
      → ((x : WriteChunk) → (f x).client_token ≡ x.client_token)
      → ((x : WriteChunk) → x.record_ids ≡ ids → (f x).record_ids ≡ ids)
      → ((x : WriteChunk) → x.payload_hash ≡ hash → (f x).payload_hash ≡ hash)
      → Keeps (HasWritten token hash ids) (upsert_chunk new f)
  unfolding upsert_chunk
  Keeps-upsert new f same keeps_token keeps_ids keeps_hash = record { at = λ s h. at s h }
    where
      updated :
          (s : BitableStore)
          → HasWritten token hash ids s
          → HasWritten token hash ids
              (record s { chunks = update_first (has_token token) f s.chunks })
      updated s h = record {
        chunk = f h.chunk;
        found =
            find-update_first (has_token token) f (λ x. rw (keeps_token x) refl) s.chunks h.chunk
              h.found;
        ids_kept = keeps_ids h.chunk h.ids_kept;
        hash_kept = keeps_hash h.chunk h.hash_kept;
      }

      at :
          (s : BitableStore)
          → HasWritten token hash ids s
          → HasWritten token hash ids (upsert_chunk new f s).1
      at s h = rw same (
          rw h.found
            (elim (Bool-cases (
              any (λ other. same_identity (f h.chunk) other && not (has_token token other))
                s.chunks)) [ inl taken ↦ rw taken h | inr free ↦ rw free (updated s h) ]))

  Keeps-upsert_record_map :
      (row : RecordMap) → Keeps (HasWritten token hash ids) (upsert_record_map row)
  unfolding upsert_record_map
  Keeps-upsert_record_map row = record { at = λ s h. at s h }
    where
      with_maps :
          (s : BitableStore) (maps : List RecordMap)
          → HasWritten token hash ids s
          → HasWritten token hash ids (record s { record_maps = maps })
      with_maps s maps h = record {
        chunk = h.chunk;
        found = h.found;
        ids_kept = h.ids_kept;
        hash_kept = h.hash_kept;
      }

      at :
          (s : BitableStore)
          → HasWritten token hash ids s
          → HasWritten token hash ids (upsert_record_map row s).1
      at s h =
          elim (Bool-cases
            (any (λ other. same_record row other && not (same_entity row other)) s.record_maps)) [
              | inl taken ↦ rw taken h
              | inr free ↦ elim (Bool-cases (any (same_entity row) s.record_maps)) [
                | inl old ↦ rw free (rw old (with_maps s _ h))
                | inr new ↦ rw free (rw new (with_maps s _ h))
              ]
            ]

  module _ (c : Codec) (app_token table_id : String) where
    Keeps-upsert_entity :
        (entity_ref : Fields) (record_id : String)
        → Keeps
            (HasWritten token hash ids)
            (upsert_entity c app_token table_id entity_ref record_id)
    unfolding upsert_entity
    Keeps-upsert_entity entity_ref record_id = Keeps-bind _ _ (Keeps-require _ _) λ entity_id.
        Keeps-bind _ _ (Keeps-require _ _) λ entity_type.
          Keeps-bind _ _ (Keeps-require _ _)
            λ id. Keeps-bind _ _ (Keeps-gets _) λ now. Keeps-upsert_record_map _

    Keeps-upsert_record_maps :
        (record_ids : List String) (entity_refs : List Fields)
        → Keeps
            (HasWritten token hash ids)
            (upsert_record_maps c app_token table_id record_ids entity_refs)
    unfolding upsert_record_maps
    Keeps-upsert_record_maps [] [] = Keeps-pure tt
    Keeps-upsert_record_maps (record_id ∷ record_ids) (entity_ref ∷ entity_refs) =
        Keeps-bind _ _ (Keeps-upsert_entity entity_ref record_id)
          λ done. Keeps-upsert_record_maps record_ids entity_refs
    Keeps-upsert_record_maps [] (entity_ref ∷ entity_refs) = Keeps-throw value_error
    Keeps-upsert_record_maps (record_id ∷ record_ids) [] = Keeps-throw value_error

    Keeps-maps_if_any :
        (record_ids : List String) (entity_refs : List Fields)
        → Keeps
            (HasWritten token hash ids)
            (maps_if_any c app_token table_id record_ids entity_refs)
    unfolding maps_if_any
    Keeps-maps_if_any record_ids [] = Keeps-pure tt
    Keeps-maps_if_any record_ids (entity_ref ∷ entity_refs) =
        Keeps-upsert_record_maps record_ids (entity_ref ∷ entity_refs)

same_ids-eq : (xs ys : List String) → same_ids xs ys ≡ true → xs ≡ ys
same_ids-eq [] [] h = refl
same_ids-eq (x ∷ xs) (y ∷ ys) h =
    let (a, b) = both (str_eq x y) (same_ids xs ys) h in cc ((eq_iff x y).0 a, same_ids-eq xs ys b)
  where
    both : (a b : Bool) → (a && b) ≡ true → (a ≡ true) × (b ≡ true)
    both a b q = (ground arith, ground arith)
same_ids-eq [] (y ∷ ys) h = absurd (cc (h))
same_ids-eq (x ∷ xs) [] h = absurd (cc (h))

module _ (c : Codec) (call : ChunkCall) (ids : List String) (hash : String) where
  conflicting :
      (record_ids : List String) (entity_refs : List Fields) (reason : String)
      → Keeps
          (HasWritten call.client_token hash ids)
          (unless_conflict c call record_ids entity_refs (some reason))
  unfolding unless_conflict record_chunk_failure new_chunk
  conflicting record_ids entity_refs reason =
      Keeps-bind _ _
        (Keeps-upsert call.client_token hash ids _ (failed_chunk ChunkStatus.conflict reason) refl
          (λ x. refl) (λ x h. h) (λ x h. h))
        λ done. Keeps-throw _

  agreeing :
      (record_ids : List String) (entity_refs : List Fields)
      → hash_of c call ≡ hash
      → record_ids ≡ ids
      → Keeps
          (HasWritten call.client_token hash ids)
          (unless_conflict c call record_ids entity_refs none)
  unfolding unless_conflict new_chunk
  agreeing record_ids entity_refs h i =
      Keeps-bind _ _
        (Keeps-upsert call.client_token hash ids _ (succeeded_chunk (hash_of c call) record_ids)
          refl (λ x. refl) (λ x e. i) (λ x e. h))
        λ done.
          Keeps-maps_if_any call.client_token hash ids c call.app_token call.table_id record_ids
            entity_refs

-- A token that is in use has no conflict only with the same payload and the same records.
no_conflict :
    (token hash : String) (ids : List String) (s : BitableStore) (chunk : WriteChunk)
    → find (has_token token) s.chunks ≡ some chunk
    → is_written chunk.record_ids ≡ true
    → client_token_conflict_reason token hash ids s ≡ none
    → (hash ≡ chunk.payload_hash) × (ids ≡ chunk.record_ids)
unfolding client_token_conflict_reason
no_conflict token hash ids s chunk found written h =
    elim (Bool-cases (str_eq chunk.payload_hash hash)) [
      | inr other ↦ absurd (cc (rw other at (rw found at h)))
      | inl same ↦ elim (Bool-cases (same_ids chunk.record_ids ids)) [
        | inr others ↦ absurd (cc (rw others at (rw written at (rw same at (rw found at h)))))
        | inl equal ↦ (
          sym ((eq_iff chunk.payload_hash hash).0 same),
          sym (same_ids-eq chunk.record_ids ids equal),
        )
      ]
    ]

-- Once records were written under a client token, no later report under that token, whether it is
-- accepted or refused, changes the ids of its records or the hash of its payload.
pub record_chunk_success_final :
    (c : Codec) (call : ChunkCall) (record_ids : List String) (entity_refs : List Fields)
    (s : BitableStore) (chunk : WriteChunk)
    → find (has_token call.client_token) s.chunks ≡ some chunk
    → is_written chunk.record_ids ≡ true
    → HasWritten call.client_token chunk.payload_hash chunk.record_ids
        (record_chunk_success c call record_ids entity_refs s).1
unfolding record_chunk_success ◌>>=◌
record_chunk_success_final c call record_ids entity_refs s chunk found written =
    elim (Bool-cases (fits_lengths call.records record_ids entity_refs)) [
      | inr unfit ↦ rw unfit before
      | inl fit ↦
          elim (Option-cases
            (client_token_conflict_reason call.client_token (hash_of c call) record_ids s)) [
              | inr (reason, clash) ↦ rw fit (
                  rw clash (
                    (conflicting c call chunk.record_ids chunk.payload_hash record_ids entity_refs
                        reason).at
                      s before))
              | inl agrees ↦
                  let (same_hash, same_records) =
                    no_conflict call.client_token (hash_of c call) record_ids s chunk found written
                      agrees in
                  rw fit (
                    rw agrees (
                      (agreeing c call chunk.record_ids chunk.payload_hash record_ids entity_refs
                          same_hash same_records).at
                        s before))
            ]
    ]
  where
    before : HasWritten call.client_token chunk.payload_hash chunk.record_ids s
    before = record { chunk = chunk; found = found; ids_kept = refl; hash_kept = refl }
