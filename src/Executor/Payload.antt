-- ===== src/Executor/Payload.antt =====
-- app/runtime/action_executor.py: `_build_bitable_outbox_payload` and the settings that it reads.
use headhunt_agent.Prelude.{String, Bool, Option, none, some, str_eq, if◌then◌else◌, false, true}
use headhunt_agent.Tx.{pure, require, ◌>>=◌, action_execution}
use headhunt_agent.Value.{
  Value, Fields, get, put, text_of, fields_of, str, int, list, dict, nil, cons, field, end,
}
use headhunt_agent.Codec.{Codec}
use headhunt_agent.Storage.Models.{ActionProposal}
use headhunt_agent.Storage.Tables.{Session, uuid4}

-- The Bitable fields of `Settings` in app/core/config.py
pub record BitableSettings : Type 0 where
  pub feishu_bitable_app_token : Option String
  pub feishu_bitable_requisition_table_id : Option String
  pub feishu_bitable_candidate_table_id : Option String
  pub feishu_bitable_talent_map_table_id : Option String
  pub feishu_bitable_report_table_id : Option String

-- `_required_str`
unfoldable pub required_str : Fields → String → Session String
unfolding text_of
required_str payload key = require (text_of (get key payload)) action_execution

-- `_table_id_for_business_kind`
unfoldable pub table_id_for_business_kind : BitableSettings → String → Option String
table_id_for_business_kind settings kind =
    if str_eq kind "RequisitionCalibrationDraft"
    then settings.feishu_bitable_requisition_table_id
    else if str_eq kind "TalentMapDraft"
    then settings.feishu_bitable_talent_map_table_id
    else if str_eq kind "CandidateMatchDraft"
    then settings.feishu_bitable_candidate_table_id
    else if str_eq kind "ReportDraft"
    then settings.feishu_bitable_report_table_id
    else if str_eq kind "FollowupReviewDraft"
    then settings.feishu_bitable_report_table_id
    else if str_eq kind "CaseDataDraft"
    then settings.feishu_bitable_requisition_table_id
    else none

-- A setting that is there and not empty
abbrev configured : Option String → Option String
configured none = none
configured (some s) = if str_eq s "" then none else some s

abbrev list_or_empty : Value → Value
list_or_empty (list xs) = list xs
list_or_empty _ = list nil

-- approval.get("decision") == "edit"
abbrev is_edit : Value → Bool
is_edit (str s) = str_eq s "edit"
is_edit _ = false

module _ (c : Codec) where
  edited_fields : Fields → Fields → Fields
  unfolding fields_of put
  edited_fields approval record_fields = elim (is_edit (get "decision" approval)) [
    | true ↦ elim (fields_of (get "edited_payload" approval)) [
      | some edited ↦ put "人工编辑" (str (c.dumps_spaced (dict edited))) record_fields
      | none ↦ record_fields
    ]
    | false ↦ record_fields
  ]

  -- The payload's own token, or a new one
  unfoldable pub client_token : Option String → Session String
  client_token (some token) = pure token
  client_token none = do fresh ← uuid4; pure (c.uuid_text fresh)

  write_request : ActionProposal → String → String → String → Value → Value → Value
  write_request proposal app_token table_id token records entity_refs = dict (
      field "app_token" (str app_token) (
        field "table_id" (str table_id) (
          field "client_token" (str token) (
            field "records" records (
              field "entity_refs" entity_refs (
                field "action_id" (str (c.uuid_text proposal.id)) (
                  field "chunk_index" (int 0)
                    (field "payload_hash" (str (c.sha256 (c.dumps records))) end))))))))

  unfoldable pub build_bitable_outbox_payload :
      BitableSettings → ActionProposal → Fields → Fields → Session Value
  unfolding edited_fields client_token write_request fields_of text_of required_str
  build_bitable_outbox_payload settings proposal proposal_payload approval = do
    payload ← require (fields_of (get "payload" proposal_payload)) action_execution
    business_kind ← required_str payload "business_kind"
    app_token ← require (configured settings.feishu_bitable_app_token) action_execution
    table_id ←
        require (configured (table_id_for_business_kind settings business_kind)) action_execution
    record_fields ← require (fields_of (get "record_fields" payload)) action_execution
    token ← client_token (text_of (get "client_token" payload))
    pure (
        write_request proposal app_token table_id token
          (list
            (cons (dict (field "fields" (dict (edited_fields approval record_fields)) end)) nil))
          (list_or_empty (get "entity_refs" payload)))
