-- ===== src/Approvals/Payload.antt =====
-- app/runtime/approvals.py: the resume payload, and the edited payload found in a stored one.
use headhunt_agent.Prelude.{if◌then◌else◌, Option, none, some}
use headhunt_agent.Approvals.{ApprovalDecisionRequest, decision_text}
use headhunt_agent.Codec.{Codec}
use headhunt_agent.Value.{
  Fields, set_default, fields_of, Value, str, get, end, field, dict, is_empty, or_value, dict_value,
  put,
}
use headhunt_agent.Storage.Models.{ActionProposal}

-- The approver dict, its source set if it has none.
abbrev pub approver_of : ApprovalDecisionRequest → Fields
approver_of request = set_default "source" (str "internal") request.approver

unfoldable pub with_edited_payload : Option Fields → Fields → Fields
with_edited_payload none approval = approval
with_edited_payload (some edited) approval =
    if is_empty edited then approval else put "edited_payload" (dict edited) approval

-- `_coerce_action_value`
module _ (c : Codec) where
  parsed_fields : Option Value → Fields
  parsed_fields none = end
  parsed_fields (some parsed) = dict_value parsed

  unfoldable pub coerce_action_value : Value → Fields
  unfolding parsed_fields
  coerce_action_value (dict d) = d
  coerce_action_value (str s) = parsed_fields (c.loads s)
  coerce_action_value _ = end

  -- The last lookups of `_extract_edited_payload`: the card action in an event.
  edited_in_action : Option Fields → Option Fields
  edited_in_action none = none
  edited_in_action (some action) =
      let value = coerce_action_value (get "value" action) in
      fields_of (or_value (get "edited_payload" value) (get "form_value" value))

  edited_in_event : Option Fields → Option Fields
  unfolding edited_in_action
  edited_in_event none = none
  edited_in_event (some event) = edited_in_action (fields_of (get "action" event))

  edited_in_approval : Fields → Option Fields → Option Fields
  unfolding edited_in_event
  edited_in_approval payload none = edited_in_event (fields_of (get "event" payload))
  edited_in_approval payload (some edited) = some edited

  -- `_extract_edited_payload`
  unfoldable pub extract_edited_payload : Fields → Option Fields
  unfolding edited_in_approval
  extract_edited_payload payload = elim (fields_of (get "edited_payload" payload)) [
    | some direct ↦ some direct
    | none ↦
        edited_in_approval payload
          (fields_of (get "edited_payload" (dict_value (get "human_approval" payload))))
  ]

  -- `_build_resume_payload`
  unfoldable pub build_resume_payload : ActionProposal → ApprovalDecisionRequest → Value
  unfolding with_edited_payload decision_text
  build_resume_payload proposal request =
      let approval = field "thread_id" (str (c.uuid_text proposal.thread_id)) (
        field "action_id" (str (c.uuid_text proposal.id)) (
          field "interrupt_id" (str (c.uuid_text proposal.interrupt_id)) (
            field "idempotency_key" (str proposal.idempotency_key) (
              field "decision" (str (decision_text request.decision)) (
                field "approver" (dict (approver_of request))
                  (field "payload_ref" (str proposal.payload_ref) end)))))) in
      dict (field "human_approval" (dict (with_edited_payload request.edited_payload approval)) end)
