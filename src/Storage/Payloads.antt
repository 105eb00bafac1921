-- ===== src/Storage/Payloads.antt =====
-- `PayloadRepository` of app/storage/repositories.py: payloads are stored once, by reference.
use headhunt_agent.Prelude.{
  ◌≡◌, String, Option, none, some, [], ◌∷◌, ◌++◌, str_eq, any, if◌then◌else◌, inl, inr,
  Option-cases, eq_refl, str_eq-eq-false, str_eq-cases, ◌≢◌, find-append_new, any-eq-false_of_find,
  arith, sym, subst, refl,
}
use headhunt_agent.Tx.Keeps.{Keeps}
use headhunt_agent.Tx.{
  throw, Result, ok, raise, key_error, outbox_payload_conflict, pure, throw, gets, guard, ◌>>=◌,
  ◌>>◌,
}
use headhunt_agent.Value.{Value, Fields, fields_of}
use headhunt_agent.Storage.Models.{ArtifactBlob, Database}
use headhunt_agent.Storage.Tables.{Session, has_blob_ref, get_blob, insert_blob_or_ignore}

-- `_ensure_artifact_payload_matches`
unfoldable pub ensure_artifact_payload_matches : String → String → Session (Unit {0})
ensure_artifact_payload_matches existing_sha256 expected_sha256 =
    guard (str_eq existing_sha256 expected_sha256) outbox_payload_conflict

ensure_stored_matches : Option ArtifactBlob → String → Session (Unit {0})
unfolding ensure_artifact_payload_matches
ensure_stored_matches none sha256 = pure tt
ensure_stored_matches (some existing) sha256 =
    ensure_artifact_payload_matches existing.sha256 sha256

store_unless_found : Option ArtifactBlob → ArtifactBlob → Session String
unfolding ensure_stored_matches insert_blob_or_ignore
store_unless_found (some existing) blob = do
  ensure_artifact_payload_matches existing.sha256 blob.sha256
  pure blob.content_ref
store_unless_found none blob = do
  insert_blob_or_ignore blob
  existing ← gets (get_blob blob.content_ref)
  ensure_stored_matches existing blob.sha256
  pure blob.content_ref

abbrev pub json_blob : String → Value → String → String → ArtifactBlob
json_blob content_ref payload raw_text sha256 = record {
  content_ref = content_ref;
  media_type = "application/json";
  content_json = payload;
  content_text = raw_text;
  sha256 = sha256;
}

unfoldable pub store_json_payload : String → Value → String → String → Session String
unfolding store_unless_found
store_json_payload content_ref payload raw_text sha256 = do
  existing ← gets (get_blob content_ref)
  store_unless_found existing (json_blob content_ref payload raw_text sha256)

stored_fields : Option ArtifactBlob → Session Fields
unfolding fields_of
stored_fields none = throw key_error
stored_fields (some blob) = elim (fields_of blob.content_json) [
  | none ↦ throw key_error
  | some fields ↦ pure fields
]

unfoldable pub get_json_payload : String → Session Fields
unfolding stored_fields
get_json_payload content_ref = do payload ← gets (get_blob content_ref); stored_fields payload

-- What a store does to the database.
abbrev pub stored : ArtifactBlob → Database → Database
stored blob db =
    if any (has_blob_ref blob.content_ref) db.artifact_blobs
    then db
    else record db { artifact_blobs = db.artifact_blobs ++ blob ∷ [] }

module _ (content_ref : String) (payload : Value) (raw_text sha256 : String) (db : Database) where
  abbrev blob : ArtifactBlob
  blob = json_blob content_ref payload raw_text sha256

  pub store_new :
      get_blob content_ref db ≡ none
      → store_json_payload content_ref payload raw_text sha256 db
        ≡ (ok content_ref, record db { artifact_blobs = db.artifact_blobs ++ blob ∷ [] })
  unfolding store_json_payload get_blob ◌>>=◌
  store_new absent =
      let unused = any-eq-false_of_find (has_blob_ref content_ref) db.artifact_blobs absent in
      let added =
        find-append_new (has_blob_ref content_ref) db.artifact_blobs blob absent
          (eq_refl content_ref) in
      rw absent (rw unused (rw added (rw eq_refl)))

  pub store_same :
      (existing : ArtifactBlob)
      → get_blob content_ref db ≡ some existing
      → existing.sha256 ≡ sha256
      → store_json_payload content_ref payload raw_text sha256 db ≡ (ok content_ref, db)
  unfolding store_json_payload ◌>>=◌
  store_same existing found same = rw found (rw same (rw eq_refl))

  pub store_clash :
      (existing : ArtifactBlob)
      → get_blob content_ref db ≡ some existing
      → existing.sha256 ≢ sha256
      → store_json_payload content_ref payload raw_text sha256 db
        ≡ (raise outbox_payload_conflict, db)
  unfolding store_json_payload ◌>>=◌
  store_clash existing found other = rw found (rw (str_eq-eq-false other))

-- The three outcomes of a store.
pub data Storing (ref sha256 : String) (blob : ArtifactBlob) (db : Database)
    (out : Result String × Database) : Type 0 where
  fresh :
      get_blob ref db ≡ none
      → out ≡ (ok ref, record db { artifact_blobs = db.artifact_blobs ++ blob ∷ [] })
      → Storing ref sha256 blob db out
  kept :
      (existing : ArtifactBlob)
      → get_blob ref db ≡ some existing
      → existing.sha256 ≡ sha256
      → out ≡ (ok ref, db)
      → Storing ref sha256 blob db out
  clash :
      (existing : ArtifactBlob)
      → get_blob ref db ≡ some existing
      → existing.sha256 ≢ sha256
      → out ≡ (raise outbox_payload_conflict, db)
      → Storing ref sha256 blob db out

pub store_json_payload_cases :
    (ref : String) (payload : Value) (raw_text sha256 : String) (db : Database)
    → Storing ref sha256
        (json_blob ref payload raw_text sha256)
        db
        (store_json_payload ref payload raw_text sha256 db)
store_json_payload_cases ref payload raw_text sha256 db = elim (Option-cases (get_blob ref db)) [
  | inl absent ↦ fresh absent (store_new ref payload raw_text sha256 db absent)
  | inr (existing, found) ↦ elim (str_eq-cases existing.sha256 sha256) [
    | inl same ↦
        kept existing found same (store_same ref payload raw_text sha256 db existing found same)
    | inr other ↦
        clash existing found other (store_clash ref payload raw_text sha256 db existing found other)
  ]
]

-- Reading a payload changes nothing.
stored_fields_reads : (o : Option ArtifactBlob) (db : Database) → (stored_fields o db).1 ≡ db
unfolding stored_fields throw pure
stored_fields_reads none db = refl
stored_fields_reads (some blob) db = ground arith

pub get_json_payload_reads :
    {P : Database → Type 0} (content_ref : String) → Keeps P (get_json_payload content_ref)
unfolding get_json_payload ◌>>=◌
get_json_payload_reads {P} content_ref = record {
  at = λ db h. subst P (sym (stored_fields_reads (get_blob content_ref db) db)) h;
}
