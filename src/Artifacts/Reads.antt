-- ===== src/Artifacts/Reads.antt =====
-- Who reads the content of an artifact, and what the audit then holds.
use headhunt_agent.Prelude.{
  ◌≡◌, true, false, ◌<>◌, ◌==◌, not, List, ◌⊎◌, some, Bool, none, refl, any, if◌then◌else◌, inl,
  subst, inr, String, Option,
}
use headhunt_agent.Value.{
  Value, Fields, bool, truthy, get, int, negative, str, list, dict, uuid, null,
}
use headhunt_agent.Artifacts.{
  ArtifactRow, ArtifactTables, ContentAccessAudit, artifact_access_denial_reason, audit_row,
  added_audit, add_unless, audit_error, run_error, read_content, content_of, content_unless,
  allowed_content, blob_content, find_artifact, find_blob, add_audit, permits, pii_text, text_or,
}
use headhunt_agent.Storage.Models.{Uuid, ArtifactBlob}
use headhunt_agent.Tx.{
  content_access_denied, ok, foreign_key_violation, Error, raise, key_error, value_error, Result,
  ◌>>=◌,
}
use headhunt_agent.Codec.{Codec}
use headhunt_agent.Memory.{pii_allowed}

-- The access that a policy gives to an artifact
pub record IsPermitted (c : Codec) (policy : Fields) (row : ArtifactRow) : Type 0 where
  pub reads_content : truthy (get "can_read_artifact_content" policy) ≡ true
  pub reads_kind : permits (get "allowed_artifact_types_read" policy) row.kind ≡ true
  pub reads_level :
      pii_allowed (pii_text row.pii_level) (text_or c "pii_access_level" "none" policy) ≡ true

denial-IsPermitted :
    (c : Codec) (row : ArtifactRow) (policy : Fields)
    → artifact_access_denial_reason c row policy ≡ none
    → IsPermitted c policy row
unfolding artifact_access_denial_reason
denial-IsPermitted c row policy h =
    go (truthy (get "can_read_artifact_content" policy)) _ _ refl refl refl h
  where
    go :
        (a b d : Bool)
        → truthy (get "can_read_artifact_content" policy) ≡ a
        → permits (get "allowed_artifact_types_read" policy) row.kind ≡ b
        → pii_allowed (pii_text row.pii_level) (text_or c "pii_access_level" "none" policy) ≡ d
        → (if not a
            then some "policy does not allow artifact content reads"
            else if not b
            then some ("policy cannot read artifact type " <> row.kind)
            else if not d
            then some ("policy cannot read artifact pii_level " <> pii_text row.pii_level)
            else none)
          ≡ none
        → IsPermitted c policy row
    go true true true p q r h = record { reads_content = p; reads_kind = q; reads_level = r }
    go false b d p q r h = absurd (cc)
    go true false d p q r h = absurd (cc)
    go true true false p q r h = absurd (cc)

-- What stops an audit row: a key that refers to no row, or a run that is no UUID
abbrev pub IsKeyError : Error → Type 0
IsKeyError e = (e ≡ foreign_key_violation) ⊎ (e ≡ value_error)

-- An option of an error, none or a wrong key
abbrev IsKeyCheck : Option Error → Type 0
IsKeyCheck o = (o ≡ none) ⊎ ((e : Error) × (o ≡ some e) × IsKeyError e)

if_known : (b : Bool) → IsKeyCheck (if b then none else some foreign_key_violation)
if_known true = inl refl
if_known false = inr (foreign_key_violation, refl, inl refl)

run_error_check : (v : Value) (run_ids : List Uuid) → IsKeyCheck (run_error v run_ids)
run_error_check null run_ids = inl refl
run_error_check (bool b) run_ids = inr (value_error, refl, inr refl)
run_error_check (int n) run_ids = inr (value_error, refl, inr refl)
run_error_check (negative n) run_ids = inr (value_error, refl, inr refl)
run_error_check (str s) run_ids = inr (value_error, refl, inr refl)
run_error_check (list xs) run_ids = inr (value_error, refl, inr refl)
run_error_check (dict d) run_ids = inr (value_error, refl, inr refl)
run_error_check (uuid u) run_ids = if_known (any (λ r. r == u) run_ids)

audit_error_check :
    (audit : ContentAccessAudit) (t : ArtifactTables) → IsKeyCheck (audit_error audit t)
audit_error_check audit t = go (any (λ u. u == audit.thread_id) t.thread_ids)
  where
    go :
        (b : Bool)
        → IsKeyCheck (if b then run_error audit.run_id t.run_ids else some foreign_key_violation)
    go true = run_error_check audit.run_id t.run_ids
    go false = inr (foreign_key_violation, refl, inl refl)

-- An audit row is added, or nothing is.
added_cases :
    (audit : ContentAccessAudit) (t : ArtifactTables)
    → (add_audit audit t ≡ (ok tt, added_audit audit t))
      ⊎ ((e : Error) × (add_audit audit t ≡ (raise e, t)) × IsKeyError e)
unfolding add_audit
added_cases audit t = go (audit_error audit t) (audit_error_check audit t)
  where
    go :
        (o : Option Error)
        → IsKeyCheck o
        → (add_unless o audit t ≡ (ok tt, added_audit audit t))
          ⊎ ((e : Error) × (add_unless o audit t ≡ (raise e, t)) × IsKeyError e)
    go none h = inl refl
    go (some e) (inl h) = absurd (cc)
    go (some e) (inr (d, same, k)) = inr (e, refl, subst IsKeyError (cc) k)

-- What a read has returned and left behind: content only to a policy that permits it, with an
-- audit of the access; a refusal with an audit of its reason; otherwise neither.
pub data Reading (c : Codec) (content_ref : String) (policy : Fields) (purpose : String)
    (t : ArtifactTables) : Result Value → ArtifactTables → Type 0 where
  granted :
      (row : ArtifactRow) (blob : ArtifactBlob)
      → find_artifact content_ref t ≡ some row
      → find_blob content_ref t ≡ some blob
      → IsPermitted c policy row
      → Reading c content_ref policy purpose t
          (ok (blob_content blob))
          (added_audit (audit_row c row content_ref policy purpose true none) t)
  denied :
      (row : ArtifactRow) (reason : String)
      → find_artifact content_ref t ≡ some row
      → artifact_access_denial_reason c row policy ≡ some reason
      → Reading c content_ref policy purpose t
          (raise content_access_denied)
          (added_audit (audit_row c row content_ref policy purpose false (some reason)) t)
  missing :
      (find_artifact content_ref t ≡ none) ⊎ (find_blob content_ref t ≡ none)
      → Reading c content_ref policy purpose t (raise key_error) t
  unaudited : (e : Error) → IsKeyError e → Reading c content_ref policy purpose t (raise e) t

module _ (c : Codec) (content_ref : String) (policy : Fields) (purpose : String)
    (t : ArtifactTables) where
  abbrev Read : Result Value × ArtifactTables → Type 0
  Read out = Reading c content_ref policy purpose t out.0 out.1

  with_blob :
      (row : ArtifactRow) (found : Option ArtifactBlob)
      → find_artifact content_ref t ≡ some row
      → find_blob content_ref t ≡ found
      → IsPermitted c policy row
      → Read (allowed_content c row content_ref policy purpose found t)
  unfolding allowed_content ◌>>=◌
  with_blob row none a b permitted = missing (inr b)
  with_blob row (some blob) a b permitted =
      elim (added_cases (audit_row c row content_ref policy purpose true none) t) [
        | inl added ↦ rw added (granted row blob a b permitted)
        | inr (e, failed, key) ↦ rw failed (unaudited e key)
      ]

  with_reason :
      (row : ArtifactRow) (reason : Option String)
      → find_artifact content_ref t ≡ some row
      → artifact_access_denial_reason c row policy ≡ reason
      → Read (content_unless c reason row content_ref policy purpose t)
  unfolding content_unless ◌>>=◌
  with_reason row none a h =
      with_blob row (find_blob content_ref t) a refl (denial-IsPermitted c row policy h)
  with_reason row (some reason) a h =
      elim (added_cases (audit_row c row content_ref policy purpose false (some reason)) t) [
        | inl added ↦ rw added (denied row reason a h)
        | inr (e, failed, key) ↦ rw failed (unaudited e key)
      ]

  with_artifact :
      (found : Option ArtifactRow)
      → find_artifact content_ref t ≡ found
      → Read (content_of c found content_ref policy purpose t)
  unfolding content_of ◌>>=◌
  with_artifact none h = missing (inl h)
  with_artifact (some row) h = with_reason row (artifact_access_denial_reason c row policy) h refl

-- A read returns a content only to a policy that permits it, and leaves an audit of the access. A
-- refusal for the policy leaves an audit of its reason. Any other outcome changes nothing: the
-- artifact or its content is missing, or the audit has a wrong key.
pub read_content-Reading :
    (c : Codec) (content_ref : String) (policy : Fields) (purpose : String) (t : ArtifactTables)
    → Reading c content_ref policy purpose t
        (read_content c content_ref policy purpose t).0
        (read_content c content_ref policy purpose t).1
unfolding read_content ◌>>=◌
read_content-Reading c content_ref policy purpose t =
    with_artifact c content_ref policy purpose t (find_artifact content_ref t) refl
