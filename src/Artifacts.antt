-- ===== src/Artifacts.antt =====
-- `PostgresArtifactStore` of app/artifacts/repository.py over its own tables: artifacts, their contents,
-- and the audit of who read one. A policy is the dict that `AgentPolicy` dumps, so that the types it
-- allows are null or a list of texts.
pub mod Write
pub mod Stored
pub mod Reads
pub mod Redacted
use headhunt_agent.Prelude.{
  ℕ, ◌+◌, String, Bool, true, false, not, ◌||◌, Option, none, some, List, [], ◌∷◌, ◌++◌,
  if◌then◌else◌, str_eq, ◌<>◌, ◌==◌, any, find, update_where,
}
use headhunt_agent.Tx.{
  Error, Tx, ok, raise, pure, throw, gets, require, guard, ◌>>=◌, ◌>>◌, key_error, value_error,
  unique_violation, foreign_key_violation, content_access_denied,
}
use headhunt_agent.Value.{
  Value, Items, Fields, get, put, has_key, truthy, or_value, null, bool, int, negative, str, uuid,
  list, dict, nil, cons, field, end,
}
use headhunt_agent.Codec.{Codec, text_form}
use headhunt_agent.Texts.{lower, ends_with}
use headhunt_agent.Memory.{pii_allowed}
use headhunt_agent.Storage.Models.{Uuid, ArtifactBlob}

-- `PiiLevel` of app/schemas/common.py; `no_pii` is its value none
pub data PiiLevel : Type 0 where
  no_pii low medium high : PiiLevel

abbrev pub pii_text : PiiLevel → String
pii_text PiiLevel.no_pii = "none"
pii_text PiiLevel.low = "low"
pii_text PiiLevel.medium = "medium"
pii_text PiiLevel.high = "high"

-- `AgentArtifact` of app/schemas/artifacts.py
pub record Artifact : Type 0 where
  pub artifact_id : Uuid
  pub run_id : Option Uuid
  pub thread_id : Uuid
  pub producer_agent : String
  pub artifact_type : String
  pub summary : String
  pub content_ref : String
  pub evidence_refs : List String
  pub source_refs : List String
  pub pii_level : PiiLevel
  pub version : ℕ
  pub size_tokens_estimate : ℕ

-- `AgentArtifact` of app/storage/models.py
pub record ArtifactRow : Type 0 where
  pub id : Uuid
  pub thread_id : Uuid
  pub run_id : Option Uuid
  pub kind : String
  pub summary : String
  pub content_ref : String
  pub evidence_refs : List String
  pub source_refs : List String
  pub pii_level : PiiLevel
  pub version : ℕ
  pub size_tokens_estimate : ℕ

-- `ContentAccessAudit` of app/storage/models.py
pub record ContentAccessAudit : Type 0 where
  pub id : Uuid
  pub content_ref : String
  pub content_kind : String
  pub actor_type : String
  pub actor_id : Option String
  pub agent_name : Option String
  pub thread_id : Uuid
  pub run_id : Value
  pub pii_level : String
  pub purpose : String
  pub policy_decision : Fields

-- The tables of the store, with the keys of the tables that they refer to.
pub record ArtifactTables : Type 0 where
  pub artifacts : List ArtifactRow
  pub blobs : List ArtifactBlob
  pub audits : List ContentAccessAudit
  pub thread_ids : List Uuid
  pub run_ids : List Uuid
  pub next_uuid : Uuid

abbrev pub Store : Type 0 → Type 0
Store = Tx ArtifactTables

abbrev pub has_content : String → ArtifactRow → Bool
has_content content_ref row = str_eq row.content_ref content_ref

abbrev pub has_blob : String → ArtifactBlob → Bool
has_blob content_ref blob = str_eq blob.content_ref content_ref

abbrev pub find_artifact : String → ArtifactTables → Option ArtifactRow
find_artifact content_ref t = find (has_content content_ref) t.artifacts

abbrev pub find_blob : String → ArtifactTables → Option ArtifactBlob
find_blob content_ref t = find (has_blob content_ref) t.blobs

-- value in set(items)
unfoldable pub in_items : String → Items → Bool
in_items value nil = false
in_items value (cons (str s) rest) = str_eq s value || in_items value rest
in_items value (cons _ rest) = in_items value rest

-- allowed is None or kind in set(allowed)
unfoldable pub permits : Value → String → Bool
permits null kind = true
permits (list items) kind = in_items kind items
permits (dict d) kind = has_key kind d
permits _ kind = false

-- key.lower().endswith(("secret", "token", "key"))
abbrev pub is_secret : String → Bool
is_secret key =
    ends_with "secret" (lower key) || (ends_with "token" (lower key) || ends_with "key" (lower key))

abbrev pub with_reason : Option String → Fields → Fields
with_reason none decision = decision
with_reason (some reason) decision =
    if str_eq reason "" then decision else put "denied_reason" (str reason) decision

abbrev pub run_or_null : Option Uuid → Value
run_or_null none = null
run_or_null (some u) = uuid u

module _ (c : Codec) where
  -- str(policy.get(key, default))
  abbrev pub text_or : String → String → Fields → String
  text_or key default policy = if has_key key policy then text_form c (get key policy) else default

  -- `_optional_str`
  unfoldable pub optional_text : Value → Option String
  optional_text null = none
  optional_text v = some (text_form c v)

  -- `_artifact_access_denial_reason`
  unfoldable pub artifact_access_denial_reason : ArtifactRow → Fields → Option String
  artifact_access_denial_reason artifact policy =
      if not (truthy (get "can_read_artifact_content" policy))
      then some "policy does not allow artifact content reads"
      else if not (permits (get "allowed_artifact_types_read" policy) artifact.kind)
      then some ("policy cannot read artifact type " <> artifact.kind)
      else if not
          (pii_allowed (pii_text artifact.pii_level) (text_or "pii_access_level" "none" policy))
      then some ("policy cannot read artifact pii_level " <> pii_text artifact.pii_level)
      else none

  abbrev pub safe_item : Value → Value
  safe_item (uuid u) = str (c.uuid_text u)
  safe_item v = v

  abbrev pub safe_items : Items → Items
  safe_items nil = nil
  safe_items (cons v rest) = cons (safe_item v) (safe_items rest)

  unfoldable pub safe_value : Value → Value
  safe_value (uuid u) = str (c.uuid_text u)
  safe_value (list items) = list (safe_items items)
  safe_value (dict d) = str (text_form c (dict d))
  safe_value v = v

  -- `_json_safe_policy`
  unfoldable pub json_safe_policy : Fields → Fields
  json_safe_policy end = end
  json_safe_policy (field key value rest) =
      field key (if is_secret key then str "<redacted>" else safe_value value)
        (json_safe_policy rest)

  unfoldable pub decision_of : Fields → Bool → Option String → Fields
  decision_of policy allowed denied_reason =
      with_reason denied_reason (put "allowed" (bool allowed) (json_safe_policy policy))

  abbrev pub audit_row :
      ArtifactRow → String → Fields → String → Bool → Option String → ContentAccessAudit
  audit_row artifact content_ref policy purpose allowed denied_reason = record {
    id = 0;
    content_ref = content_ref;
    content_kind = "artifact";
    actor_type = text_or "actor_type" "agent" policy;
    actor_id = optional_text (get "actor_id" policy);
    agent_name = optional_text (get "agent_name" policy);
    thread_id = artifact.thread_id;
    run_id = or_value (run_or_null artifact.run_id) (get "run_id" policy);
    pii_level = pii_text artifact.pii_level;
    purpose = purpose;
    policy_decision = decision_of policy allowed denied_reason;
  }

-- What is wrong with a reference to a run: a null is none, and what is no UUID cannot be bound.
abbrev pub run_error : Value → List Uuid → Option Error
run_error null run_ids = none
run_error (uuid u) run_ids = if any (λ r. r == u) run_ids then none else some foreign_key_violation
run_error _ run_ids = some value_error

abbrev pub added_audit : ContentAccessAudit → ArtifactTables → ArtifactTables
added_audit audit t = record t {
  audits = t.audits ++ record audit { id = t.next_uuid } ∷ [];
  next_uuid = t.next_uuid + 1;
}

abbrev pub audit_error : ContentAccessAudit → ArtifactTables → Option Error
audit_error audit t =
    if any (λ u. u == audit.thread_id) t.thread_ids
    then run_error audit.run_id t.run_ids
    else some foreign_key_violation

abbrev pub add_unless : Option Error → ContentAccessAudit → Store (Unit {0})
add_unless none audit t = (ok tt, added_audit audit t)
add_unless (some e) audit t = (raise e, t)

-- session.add(audit), session.flush()
unfoldable pub add_audit : ContentAccessAudit → Store (Unit {0})
add_audit audit t = add_unless (audit_error audit t) audit t

-- A payload: `dict[str, Any] | str`
pub data Payload : Type 0 where
  json : Fields → Payload
  text : String → Payload

abbrev pub payload_value : Payload → Value
payload_value (json d) = dict d
payload_value (text s) = str s

-- blob.content_json if it is not None, and the text otherwise
unfoldable pub blob_content : ArtifactBlob → Value
blob_content blob = from blob.content_json
  where
    from : Value → Value
    from null = str blob.content_text
    from v = v

module _ (c : Codec) where
  -- What follows once the access is allowed
  unfoldable pub allowed_content :
      ArtifactRow → String → Fields → String → Option ArtifactBlob → Store Value
  unfolding add_audit
  allowed_content artifact content_ref policy purpose none = throw key_error
  allowed_content artifact content_ref policy purpose (some blob) = do
    add_audit (audit_row c artifact content_ref policy purpose true none)
    pure (blob_content blob)

  unfoldable pub content_unless :
      Option String → ArtifactRow → String → Fields → String → Store Value
  unfolding allowed_content add_audit
  content_unless none artifact content_ref policy purpose = do
    blob ← gets (find_blob content_ref)
    allowed_content artifact content_ref policy purpose blob
  content_unless (some reason) artifact content_ref policy purpose = do
    add_audit (audit_row c artifact content_ref policy purpose false (some reason))
    throw content_access_denied

  unfoldable pub content_of : Option ArtifactRow → String → Fields → String → Store Value
  unfolding content_unless
  content_of none content_ref policy purpose = throw key_error
  content_of (some artifact) content_ref policy purpose =
      content_unless (artifact_access_denial_reason c artifact policy) artifact content_ref policy
        purpose

  -- `read_content`
  unfoldable pub read_content : String → Fields → String → Store Value
  unfolding content_of
  read_content content_ref policy purpose = do
    artifact ← gets (find_artifact content_ref)
    content_of artifact content_ref policy purpose

  -- `_artifact_from_record`
  abbrev pub artifact_from_record : ArtifactRow → Artifact
  artifact_from_record row = record {
    artifact_id = row.id;
    run_id = row.run_id;
    thread_id = row.thread_id;
    producer_agent = "ArtifactStore";
    artifact_type = row.kind;
    summary = row.summary;
    content_ref = row.content_ref;
    evidence_refs = row.evidence_refs;
    source_refs = row.source_refs;
    pii_level = row.pii_level;
    version = row.version;
    size_tokens_estimate = row.size_tokens_estimate;
  }

  -- `read_summary`
  unfoldable pub read_summary : Uuid → Fields → Store Artifact
  unfolding permits
  read_summary artifact_id policy = do
    found ← gets (λ t. find (λ row. row.id == artifact_id) t.artifacts)
    row ← require found key_error
    guard (permits (get "allowed_artifact_types_read" policy) row.kind) content_access_denied
    pure (artifact_from_record row)
