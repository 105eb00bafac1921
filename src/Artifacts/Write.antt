-- ===== src/Artifacts/Write.antt =====
-- `write` of app/artifacts/repository.py: the upserts of a content and of its artifact.
use headhunt_agent.Prelude.{
  String, Bool, true, ◌&&◌, Option, none, some, List, [], ◌∷◌, ◌++◌, if◌then◌else◌, ◌==◌, any,
  update_where,
}
use headhunt_agent.Tx.{
  ok, raise, pure, guard, ◌>>◌, unique_violation, foreign_key_violation, content_access_denied,
}
use headhunt_agent.Value.{Value, Fields, get, null, dict}
use headhunt_agent.Codec.{Codec}
use headhunt_agent.Storage.Models.{Uuid, ArtifactBlob}
use headhunt_agent.Artifacts.{
  Artifact, ArtifactRow, ArtifactTables, Store, Payload, json, text, has_content, has_blob, permits,
}

abbrev pub put_blob : ArtifactBlob → ArtifactTables → ArtifactTables
put_blob blob t = record t {
  blobs =
      if any (has_blob blob.content_ref) t.blobs
      then update_where (has_blob blob.content_ref) (λ old. blob) t.blobs
      else t.blobs ++ blob ∷ [];
}

module _ (c : Codec) where
  abbrev pub payload_text : Payload → String
  payload_text (json d) = c.dumps (dict d)
  payload_text (text s) = s

  abbrev pub payload_json : Payload → Value
  payload_json (json d) = dict d
  payload_json (text s) = null

  abbrev pub payload_blob : String → Payload → String → ArtifactBlob
  payload_blob content_ref payload media_type = record {
    content_ref = content_ref;
    media_type = media_type;
    content_json = payload_json payload;
    content_text = payload_text payload;
    sha256 = c.sha256 (payload_text payload);
  }

  -- `_write_blob`
  unfoldable pub write_blob : String → Payload → String → Store (Unit {0})
  write_blob content_ref payload media_type t =
      (ok tt, put_blob (payload_blob content_ref payload media_type) t)

  unfoldable pub write_payload : String → Option Payload → String → Store (Unit {0})
  unfolding write_blob
  write_payload content_ref none media_type = pure tt
  write_payload content_ref (some payload) media_type = write_blob content_ref payload media_type

  abbrev pub artifact_row : Artifact → ArtifactRow
  artifact_row artifact = record {
    id = artifact.artifact_id;
    thread_id = artifact.thread_id;
    run_id = artifact.run_id;
    kind = artifact.artifact_type;
    summary = artifact.summary;
    content_ref = artifact.content_ref;
    evidence_refs = artifact.evidence_refs;
    source_refs = artifact.source_refs;
    pii_level = artifact.pii_level;
    version = artifact.version;
    size_tokens_estimate = artifact.size_tokens_estimate;
  }

  -- What a conflict on the content's reference sets
  abbrev pub updated_row : Artifact → ArtifactRow → ArtifactRow
  updated_row artifact old = record old {
    summary = artifact.summary;
    evidence_refs = artifact.evidence_refs;
    source_refs = artifact.source_refs;
    pii_level = artifact.pii_level;
    version = artifact.version;
    size_tokens_estimate = artifact.size_tokens_estimate;
  }

  abbrev pub fits_run : Option Uuid → List Uuid → Bool
  fits_run none run_ids = true
  fits_run (some u) run_ids = any (λ r. r == u) run_ids

  abbrev pub fits_keys : Artifact → ArtifactTables → Bool
  fits_keys artifact t =
      any (λ u. u == artifact.thread_id) t.thread_ids && fits_run artifact.run_id t.run_ids

  unfoldable pub upsert_artifact : Artifact → Store (Unit {0})
  upsert_artifact artifact t =
      if any (has_content artifact.content_ref) t.artifacts
      then (
        ok tt,
        record t {
          artifacts =
              update_where (has_content artifact.content_ref) (updated_row artifact) t.artifacts;
        },
      )
      else if any (λ row. row.id == artifact.artifact_id) t.artifacts
      then (raise unique_violation, t)
      else if fits_keys artifact t
      then (ok tt, record t { artifacts = t.artifacts ++ artifact_row artifact ∷ [] })
      else (raise foreign_key_violation, t)

  -- `write`
  unfoldable pub write : Artifact → Fields → Option Payload → String → Store String
  unfolding write_payload upsert_artifact permits
  write artifact policy payload media_type = do
    guard (permits (get "allowed_artifact_types_write" policy) artifact.artifact_type)
        content_access_denied
    write_payload artifact.content_ref payload media_type
    upsert_artifact artifact
    pure artifact.content_ref
