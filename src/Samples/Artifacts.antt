-- ===== src/Samples/Artifacts.antt =====
-- An artifact that is written and read, by a policy with a token.
use headhunt_agent.Samples.{codec}
use headhunt_agent.Prelude.{◌≡◌, refl, true, some, ◌∷◌, none, ◌⊎◌, []}
use headhunt_agent.Artifacts.{
  Artifact, ArtifactTables, PiiLevel, read_content, decision_of, permits, in_items, text, is_secret,
}
use headhunt_agent.Artifacts.Write.{write, write_payload, upsert_artifact}
use headhunt_agent.Artifacts.Reads.{Reading, IsKeyError, read_content-Reading}
use headhunt_agent.Artifacts.Stored.{write_read}
use headhunt_agent.Artifacts.Redacted.{decision_redacted}
use headhunt_agent.Tx.{◌>>=◌, ok, pure, guard, Error, raise, content_access_denied}
use headhunt_agent.Value.{Fields, has_key, get, str, field, bool, list, end, cons, nil}
use headhunt_agent.Texts.{lower, ends_with}

abbrev drafted_artifact : Artifact
drafted_artifact = record {
  artifact_id = 4;
  run_id = some 3;
  thread_id = 1;
  producer_agent = "ReportAgent";
  artifact_type = "ReportDraft";
  summary = "a report";
  content_ref = "artifact://r";
  evidence_refs = [];
  source_refs = [];
  pii_level = PiiLevel.low;
  version = 1;
  size_tokens_estimate = 2;
}

abbrev writer : Fields
writer = field "allowed_artifact_types_write" (list (cons (str "ReportDraft") nil)) end

abbrev reader : Fields
reader =
    field "can_read_artifact_content" (bool true)
      (field "pii_access_level" (str "low") (field "Api_Token" (str "t0") end))

abbrev tables : ArtifactTables
tables = record {
  artifacts = [];
  blobs = [];
  audits = [];
  thread_ids = 1 ∷ [];
  run_ids = 3 ∷ [];
  next_uuid = 9;
}

written : write codec drafted_artifact writer (some (text "hello")) "text/plain" tables ≡ (
  ok "artifact://r",
  (write codec drafted_artifact writer (some (text "hello")) "text/plain" tables).1,
)
unfolding write write_payload upsert_artifact permits in_items ◌>>=◌ pure guard get
written = refl

write_read_example :
    let after = (write codec drafted_artifact writer (some (text "hello")) "text/plain" tables).1 in
    ((read_content codec "artifact://r" reader "review" after).0 ≡ ok (str "hello"))
    ⊎ ((e : Error) × ((read_content codec "artifact://r" reader "review" after).0 ≡ raise e)
        × ((e ≡ content_access_denied) ⊎ IsKeyError e))
write_read_example =
    write_read codec drafted_artifact writer (text "hello") "text/plain" tables _ _ reader "review"
      written

read_content-Reading_example :
    Reading codec "artifact://r" reader "review" tables
      (read_content codec "artifact://r" reader "review" tables).0
      (read_content codec "artifact://r" reader "review" tables).1
read_content-Reading_example = read_content-Reading codec "artifact://r" reader "review" tables

token_secret : is_secret "Api_Token" ≡ true
unfolding lower ends_with
token_secret = refl

token_there : has_key "Api_Token" reader ≡ true
unfolding has_key
token_there = refl

decision_redacted_example : get "Api_Token" (decision_of codec reader true none) ≡ str "<redacted>"
decision_redacted_example =
    decision_redacted codec "Api_Token" reader true none token_secret token_there
