-- ===== src/Artifacts/Stored.antt =====
-- What is read is what was written.
use mathlib.Core.Option.{some-injective}
use headhunt_agent.Prelude.{
  ◌≡◌, String, inl, ◌∷◌, inr, find, some, true, eq_refl, find-eq-none_of_any, any, List,
  update_where, refl, [], find-append_new, Bool-cases, ◌==◌, ◌⊎◌, find-update_where, subst,
  any-eq-false_of_find, Option-cases, sym, ap, ◌∙◌,
}
use headhunt_agent.Artifacts.{
  Payload, payload_value, blob_content, find_blob, ArtifactTables, json, has_blob, text, Artifact,
  has_content, read_content, permits, ArtifactRow, find_artifact,
}
use headhunt_agent.Artifacts.Write.{
  put_blob, payload_blob, upsert_artifact, write, write_payload, write_blob, fits_keys,
  artifact_row, updated_row,
}
use headhunt_agent.Codec.{Codec}
use headhunt_agent.Storage.Models.{ArtifactBlob}
use headhunt_agent.Value.{Fields, get, Value}
use headhunt_agent.Tx.{
  ok, ◌>>=◌, Error, raise, content_access_denied, pure, Result, guard, and_then,
}
use headhunt_agent.Artifacts.Reads.{
  IsKeyError, read_content-Reading, Reading, granted, denied, missing, unaudited,
}

content-payload_blob :
    (c : Codec) (ref : String) (p : Payload) (media_type : String)
    → blob_content (payload_blob c ref p media_type) ≡ payload_value p
unfolding blob_content
content-payload_blob c ref (json d) media_type = refl
content-payload_blob c ref (text s) media_type = refl

find-replaced :
    (blob : ArtifactBlob) (blobs : List ArtifactBlob)
    → any (has_blob blob.content_ref) blobs ≡ true
    → find
        (has_blob blob.content_ref)
        (update_where (has_blob blob.content_ref) (λ old. blob) blobs)
      ≡ some blob
find-replaced blob [] h = absurd (cc)
find-replaced blob (b ∷ blobs) h = elim (Bool-cases (has_blob blob.content_ref b)) [
  | inl same ↦ rw same (rw (eq_refl blob.content_ref) refl)
  | inr other ↦ rw other (rw other (find-replaced blob blobs (rw other at h)))
]

find-put_blob :
    (blob : ArtifactBlob) (t : ArtifactTables)
    → find_blob blob.content_ref (put_blob blob t) ≡ some blob
find-put_blob blob t = elim (Bool-cases (any (has_blob blob.content_ref) t.blobs)) [
  | inl there ↦ rw there (find-replaced blob t.blobs there)
  | inr new ↦ rw new (
      find-append_new (has_blob blob.content_ref) t.blobs blob
        (find-eq-none_of_any (has_blob blob.content_ref) t.blobs new) (eq_refl blob.content_ref))
]

module _ (c : Codec) (a : Artifact) where
  abbrev HasRow : ArtifactTables → Type 0
  HasRow t = (row : ArtifactRow) × (find_artifact a.content_ref t ≡ some row)

  updated :
      (rows : List ArtifactRow)
      → any (has_content a.content_ref) rows ≡ true
      → (row : ArtifactRow) × (find
            (has_content a.content_ref)
            (update_where (has_content a.content_ref) (updated_row c a) rows)
          ≡ some row)
  updated rows h = elim (Option-cases (find (has_content a.content_ref) rows)) [
    | inl none_there ↦
        absurd (cc (any-eq-false_of_find (has_content a.content_ref) rows none_there))
    | inr (row, there) ↦ (
      _,
      find-update_where (has_content a.content_ref) (has_content a.content_ref) (updated_row c a)
          (λ x. refl) rows row there,
    )
  ]

  -- An upsert that returns leaves a row for the reference, and the contents as they were.
  abbrev Upserted : ArtifactTables → Result (Unit {0}) × ArtifactTables → Type 0
  Upserted t (ok u, s) = HasRow s × (s.blobs ≡ t.blobs)
  Upserted t (raise e, s) = Unit {0}

  upsert-Upserted : (t : ArtifactTables) → Upserted t (upsert_artifact c a t)
  unfolding upsert_artifact
  upsert-Upserted t = elim (Bool-cases (any (has_content a.content_ref) t.artifacts)) [
    | inl old ↦ rw old (updated t.artifacts old, refl)
    | inr new ↦ elim (Bool-cases (any (λ row. row.id == a.artifact_id) t.artifacts)) [
      | inl taken ↦ rw new (rw taken tt)
      | inr free ↦ elim (Bool-cases (fits_keys c a t)) [
        | inl fits ↦ rw new (
            rw free (
              rw fits (
                (
                  artifact_row c a,
                  find-append_new (has_content a.content_ref) t.artifacts (artifact_row c a)
                      (find-eq-none_of_any (has_content a.content_ref) t.artifacts new)
                      (eq_refl a.content_ref),
                ),
                refl,
              )))
        | inr wrong ↦ rw new (rw free (rw wrong tt))
      ]
    ]
  ]

  -- What is in the tables once the payload is written
  abbrev Holds : Payload → String → ArtifactTables → Type 0
  Holds p media_type t =
      HasRow t × (find_blob a.content_ref t ≡ some (payload_blob c a.content_ref p media_type))

  write_tail :
      (p : Payload) (media_type : String) (t t' : ArtifactTables) (ref : String)
      (out : Result (Unit {0}) × ArtifactTables)
      → Upserted (put_blob (payload_blob c a.content_ref p media_type) t) out
      → and_then out.0 (λ u s. (ok a.content_ref, s)) out.1 ≡ (ok ref, t')
      → Holds p media_type t'
  write_tail p media_type t t' ref (raise e, s) u h = absurd (cc)
  write_tail p media_type t t' ref (ok x, s) (there, same) h =
      let here : s ≡ t' = ap (λ o. o.1) h in
      subst (Holds p media_type) here
        (there, rw same (find-put_blob (payload_blob c a.content_ref p media_type) t))

  write-Holds :
      (policy : Fields) (p : Payload) (media_type : String) (t t' : ArtifactTables) (ref : String)
      → write c a policy (some p) media_type t ≡ (ok ref, t')
      → Holds p media_type t'
  unfolding write write_payload write_blob ◌>>=◌ pure guard
  write-Holds policy p media_type t t' ref h =
      elim (Bool-cases (permits (get "allowed_artifact_types_write" policy) a.artifact_type)) [
        | inr refused ↦ absurd (cc (rw refused at h))
        | inl permitted ↦
            let later = rw permitted at h in
            write_tail p media_type t t' ref _
              (upsert-Upserted (put_blob (payload_blob c a.content_ref p media_type) t)) later
      ]

  -- What a reading of the written reference can be
  read_outcome :
      (policy' : Fields) (purpose : String) (p : Payload) (media_type : String)
      (t s : ArtifactTables) (r : Result Value)
      → Holds p media_type t
      → Reading c a.content_ref policy' purpose t r s
      → (r ≡ ok (payload_value p))
        ⊎ ((e : Error) × (r ≡ raise e) × ((e ≡ content_access_denied) ⊎ IsKeyError e))
  read_outcome policy' purpose p media_type t s r (row', held) (granted row blob f g permitted) =
      let same : blob ≡ payload_blob c a.content_ref p media_type =
        some-injective _ _ (sym g ∙ held) in
      inl (rw same (ap ok (content-payload_blob c a.content_ref p media_type)))
  read_outcome policy' purpose p media_type t s r held (denied row reason f g) =
      inr (content_access_denied, refl, inl refl)
  read_outcome policy' purpose p media_type t s r ((row, there), held) (missing (inl gone)) =
      absurd (cc)
  read_outcome policy' purpose p media_type t s r ((row, there), held) (missing (inr gone)) =
      absurd (cc)
  read_outcome policy' purpose p media_type t s r held (unaudited e key) = inr (e, refl, inr key)

-- After a payload is written, a read of its reference returns that payload and no other content, and
-- never finds it missing: it may only be refused, or its audit have a wrong key.
pub write_read :
    (c : Codec) (a : Artifact) (policy : Fields) (p : Payload) (media_type : String)
    (t t' : ArtifactTables) (ref : String) (policy' : Fields) (purpose : String)
    → write c a policy (some p) media_type t ≡ (ok ref, t')
    → ((read_content c a.content_ref policy' purpose t').0 ≡ ok (payload_value p))
      ⊎ ((e : Error) × ((read_content c a.content_ref policy' purpose t').0 ≡ raise e)
          × ((e ≡ content_access_denied) ⊎ IsKeyError e))
write_read c a policy p media_type t t' ref policy' purpose h =
    read_outcome c a policy' purpose p media_type t' _ _
      (write-Holds c a policy p media_type t t' ref h)
      (read_content-Reading c a.content_ref policy' purpose t')
