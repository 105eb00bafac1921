-- ===== src/Outbox.antt =====
-- app/runtime/outbox.py: `LangGraphOutboxHandler` starts or resumes the graph for an outbox item. The
-- compiled graph is a parameter. The state and the approval are the dicts that it gets.
pub mod Handler
pub mod Resumed
use headhunt_agent.Prelude.{
  String, Bool, true, false, not, ◌&&◌, ◌||◌, Option, none, some, List, [], ◌∷◌, if◌then◌else◌,
  str_eq, ◌<>◌, is_some, or_default,
}
use headhunt_agent.Tx.{
  pure, throw, require, guard, ◌>>=◌, ◌>>◌, value_error, runtime_not_ready, key_error,
}
use headhunt_agent.Value.{
  Value, Fields, get, put, text_of, fields_of, entries_of, dict_value, or_value, or_null, str, dict,
  field, end, truthy,
}
use headhunt_agent.Codec.{Codec, text_form}
use headhunt_agent.Storage.Models.{Uuid}
use headhunt_agent.Storage.Tables.{Session}
use headhunt_agent.Approvals.Payload.{coerce_action_value}

abbrev pub first_of : Option String → Option String → Option String
first_of none rest = rest
first_of (some s) rest = some s

-- `_first_str`
unfoldable pub first_str : List Value → Option String
first_str [] = none
first_str (v ∷ values) = first_of (text_of v) (first_str values)

-- `_required_str`
unfoldable pub required_str : Fields → String → Session String
required_str payload key = require (text_of (get key payload)) value_error

abbrev pub text_at : String → Fields → Value
unfolding first_str
text_at key payload = or_null (first_str (get key payload ∷ []))

unfoldable pub put_if_dict : String → Option Fields → Fields → Fields
unfolding put
put_if_dict key none approval = approval
put_if_dict key (some d) approval = put key (dict d) approval

unfoldable pub put_if_text : String → Option String → Fields → Fields
unfolding put
put_if_text key none approval = approval
put_if_text key (some s) approval = put key (str s) approval

-- The edited payload of an approval, and its reference if it has one
unfoldable pub with_edited : Value → Fields → Fields
unfolding put_if_dict
with_edited edited_payload approval =
    put_if_dict "edited_payload" (fields_of edited_payload) approval

unfoldable pub with_payload_ref : Value → Fields → Fields
unfolding put_if_text
with_payload_ref payload_ref approval = put_if_text "payload_ref" (text_of payload_ref) approval

-- An edit needs a dict with an entry.
unfoldable pub has_edit_if_edit : String → Value → Bool
unfolding entries_of
has_edit_if_edit decision edited_payload =
    not (str_eq decision "edit") || is_some (entries_of edited_payload)

abbrev pub approval_fields : String → String → String → String → String → Fields → Fields
approval_fields thread_id action_id interrupt_id idempotency_key decision approver =
    field "thread_id" (str thread_id) (
      field "action_id" (str action_id) (
        field "interrupt_id" (str interrupt_id) (
          field "idempotency_key" (str idempotency_key)
            (field "decision" (str decision) (field "approver" (dict approver) end)))))

abbrev pub internal : Option Fields → Fields
internal (some approver) = approver
internal none = field "source" (str "internal") end

-- `_direct_human_approval_payload`
unfoldable pub direct_human_approval_payload : Fields → Session Fields
unfolding with_edited with_payload_ref has_edit_if_edit
direct_human_approval_payload payload = do
  decision ← required_str payload "decision"
  thread_id ← required_str payload "thread_id"
  action_id ← required_str payload "action_id"
  interrupt_id ← required_str payload "interrupt_id"
  idempotency_key ← required_str payload "idempotency_key"
  guard (has_edit_if_edit decision (get "edited_payload" payload)) value_error
  pure (
      with_payload_ref (get "payload_ref" payload) (
        with_edited (get "edited_payload" payload) (
          approval_fields thread_id action_id interrupt_id idempotency_key decision
            (internal (fields_of (get "approver" payload))))))

module _ (c : Codec) where
  card_approver : Fields → Fields
  card_approver operator = field "source" (str "feishu") (
      field "open_id" (text_at "open_id" operator) (
        field "union_id" (text_at "union_id" operator)
          (field "user_id" (text_at "user_id" operator) end)))

  card_approval : Fields → Fields → Session Fields
  unfolding card_approver required_str with_edited with_payload_ref has_edit_if_edit or_value
  card_approval value operator = do
    thread_id ← required_str value "thread_id"
    decision ← required_str value "decision"
    action_id ← required_str value "action_id"
    interrupt_id ← required_str value "interrupt_id"
    idempotency_key ← required_str value "idempotency_key"
    let edited_payload = or_value (get "edited_payload" value) (get "form_value" value)
    guard (has_edit_if_edit decision edited_payload) value_error
    pure (
        with_payload_ref (get "payload_ref" value) (
          with_edited edited_payload (
            approval_fields thread_id action_id interrupt_id idempotency_key decision
              (card_approver operator))))

  unfoldable pub feishu_card_payload_to_human_approval : Fields → Session Fields
  unfolding direct_human_approval_payload card_approval entries_of dict_value coerce_action_value
  feishu_card_payload_to_human_approval payload = elim (entries_of (get "human_approval" payload)) [
    | some direct_approval ↦ direct_human_approval_payload direct_approval
    | none ↦
        let event = dict_value (get "event" payload) in
        card_approval (coerce_action_value c (get "value" (dict_value (get "action" event))))
          (dict_value (get "operator" event))
  ]

  parsed_text : Fields → Option Value → String → Option String
  unfolding first_str fields_of
  parsed_text message none content = some content
  parsed_text message (some parsed) content = elim (fields_of parsed) [
    | some d ↦ first_str (get "text" d ∷ get "content" d ∷ [])
    | none ↦ first_str (get "text" message ∷ get "content" message ∷ [])
  ]

  -- `_extract_message_text`
  unfoldable pub extract_message_text : Fields → String
  unfolding parsed_text first_str
  extract_message_text message = or_default (text_in (get "content" message)) ""
    where
      text_in : Value → Option String
      text_in (str content) = parsed_text message (c.loads content) content
      text_in _ = first_str (get "text" message ∷ get "content" message ∷ [])
