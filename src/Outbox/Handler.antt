-- ===== src/Outbox/Handler.antt =====
-- app/runtime/outbox.py: the initial state for a dispatched item, and the two handlers.
use headhunt_agent.Prelude.{
  ◌≡◌, refl, String, Bool, false, not, ◌&&◌, ◌||◌, some, [], ◌∷◌, str_eq, ◌<>◌, or_text, or_default,
  Option,
}
use headhunt_agent.Tx.{pure, require, guard, ◌>>=◌, ◌>>◌, value_error, runtime_not_ready}
use headhunt_agent.Value.{
  Value, Fields, get, text_of, dict_value, or_null, str, dict, field, end, truthy,
}
use headhunt_agent.Codec.{Codec, text_form}
use headhunt_agent.Storage.Tables.{Session}
use headhunt_agent.Outbox.{
  feishu_card_payload_to_human_approval, text_at, first_str, extract_message_text,
}

-- What a handler gives the graph: a new state, or the approval that resumes it.
pub data GraphInput : Type 0 where
  initial resumed : Fields → GraphInput

-- The parts that are wired into the runtime, as `_dispatch_runtime_ready` and `_resume_runtime_ready`
-- read them
pub record Wiring : Type 0 where
  pub agent_harness : Bool
  pub action_gate : Bool
  pub action_executor : Bool
  pub allow_minimal_runtime : Bool
  pub allow_resume_without_interrupt : Bool

unfoldable pub dispatch_runtime_ready : Wiring → Bool
dispatch_runtime_ready w = w.allow_minimal_runtime || w.agent_harness

unfoldable pub resume_runtime_ready : Wiring → Bool
resume_runtime_ready w =
    w.allow_resume_without_interrupt || (w.agent_harness && (w.action_gate && w.action_executor))

unfoldable pub text_or : String → Fields → String → Value
unfolding first_str
text_or key payload default = str (or_default (first_str (get key payload ∷ [])) default)

-- The state of a task whose thread and input are known, with what else the payload says
unfoldable pub task_state : Fields → String → String → Fields
task_state payload thread_id user_input = field "thread_id" (str thread_id) (
    field "source" (text_or "source" payload "runtime") (
      field "source_ref" (text_or "source_ref" payload "unknown") (
        field "user_input" (str user_input) (
          field "task_type" (text_or "task_type" payload "unknown") (
            field "council_mode" (text_at "council_mode" payload) (
              field "mode_reason" (text_at "mode_reason" payload) (
                field "model_profile_id" (text_at "model_profile_id" payload) (
                  field "model_owner_user_id" (text_at "model_owner_user_id" payload) (
                    field "model_guild_id" (text_at "model_guild_id" payload) (
                      field "model_tenant_id" (text_at "model_tenant_id" payload) (
                        field "embedding_profile_id" (text_at "embedding_profile_id" payload)
                          end)))))))))))

module _ (c : Codec) where
  -- The state of a message that Feishu delivered
  message_state : Fields → Fields
  unfolding first_str extract_message_text dict_value
  message_state payload =
      let header = dict_value (get "header" payload) in
      let event = dict_value (get "event" payload) in
      let message = dict_value (get "message" event) in
      let sender_id = dict_value (get "sender_id" (dict_value (get "sender" event))) in
      let event_type =
        first_str (get "event_type" header ∷ get "event_type" payload ∷ get "type" payload ∷ []) in
      let event_id =
        first_str (get "event_id" header ∷ get "event_id" payload ∷ get "uuid" payload ∷ []) in
      let message_id = first_str (get "message_id" message ∷ get "open_message_id" message ∷ []) in
      let source_ref = or_default message_id (or_default event_id "unknown") in
      field "thread_id" (str (c.uuid_text (c.uuid5 ("feishu:" <> source_ref)))) (
        field "source" (str "feishu") (
          field "source_ref" (str source_ref) (
            field "user_input"
              (str (
                or_text (some (extract_message_text c message))
                  ("飞书事件：" <> or_default event_type "unknown")))
              (field "feishu_context"
                (dict (
                  field "event_type" (or_null event_type) (
                    field "event_id" (or_null event_id) (
                      field "message_id" (or_null message_id) (
                        field "chat_id"
                          (or_null (first_str (get "chat_id" message ∷ get "chat_id" event ∷ [])))
                          (field "open_id"
                            (or_null
                              (first_str (get "open_id" sender_id ∷ get "open_id" event ∷ [])))
                            end))))))
                end))))

  state_from : Fields → Option String → Option String → Fields
  unfolding task_state message_state
  state_from payload (some thread_id) (some user_input) = task_state payload thread_id user_input
  state_from payload _ _ = message_state payload

  unfoldable pub feishu_payload_to_initial_state : Fields → Fields
  unfolding state_from
  feishu_payload_to_initial_state payload =
      state_from payload (text_of (get "thread_id" payload)) (text_of (get "user_input" payload))

  pub initial_state_of_task :
      (payload : Fields) (thread_id user_input : String)
      → text_of (get "thread_id" payload) ≡ some thread_id
      → text_of (get "user_input" payload) ≡ some user_input
      → feishu_payload_to_initial_state payload ≡ task_state payload thread_id user_input
  unfolding feishu_payload_to_initial_state
  initial_state_of_task payload thread_id user_input h i = rw h (rw i refl)

  -- `_require_feishu_task_intake_ready` raises unless this holds.
  unfoldable pub feishu_task_intake_ready : Fields → Bool
  unfolding truthy
  feishu_task_intake_ready state =
      not (is_feishu (get "source" state))
      || (truthy (get "model_profile_id" state)
          && (truthy (get "model_owner_user_id" state) && truthy (get "model_guild_id" state)))
    where
      is_feishu : Value → Bool
      is_feishu (str s) = str_eq s "feishu"
      is_feishu _ = false

  -- `_thread_config`: the id as `UUID` writes it
  unfoldable pub thread_config : Value → Session String
  unfolding text_form
  thread_config thread_id = do
    id ← require (c.parse_uuid (text_form c thread_id)) value_error
    pure (c.uuid_text id)

  module _ (w : Wiring) (graph : GraphInput → String → Session (Unit {0})) where
    unfoldable pub dispatch_graph : Fields → Session (Unit {0})
    unfolding feishu_payload_to_initial_state feishu_task_intake_ready thread_config
        dispatch_runtime_ready
    dispatch_graph payload = do
      guard (dispatch_runtime_ready w) runtime_not_ready
      let state = feishu_payload_to_initial_state payload
      guard (feishu_task_intake_ready state) runtime_not_ready
      config ← thread_config (get "thread_id" state)
      graph (initial state) config

    unfoldable pub resume_graph : Fields → Session (Unit {0})
    unfolding feishu_card_payload_to_human_approval thread_config resume_runtime_ready
    resume_graph payload = do
      guard (resume_runtime_ready w) runtime_not_ready
      approval ← feishu_card_payload_to_human_approval c payload
      config ← thread_config (get "thread_id" approval)
      graph (resumed approval) config
