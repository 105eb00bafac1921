-- ===== src/Tasks/Started.antt =====
-- The item of an authorized task starts the graph of its thread, in app/runtime/outbox.py.
use headhunt_agent.Tasks.{TaskAuthorizeRequest, build_graph_dispatch_payload}
use headhunt_agent.Outbox.{first_str}
use headhunt_agent.Outbox.Handler.{
  text_or, feishu_payload_to_initial_state, initial_state_of_task, task_state, thread_config,
  feishu_task_intake_ready, Wiring, GraphInput, dispatch_graph, dispatch_runtime_ready, initial,
}
use headhunt_agent.Prelude.{String, ◌∷◌, [], some, ◌≡◌, ◌≢◌, refl, ◌∷◌, [], true, false, str_eq}
use headhunt_agent.Value.{Fields, str, get}
use headhunt_agent.Value.Dicts.{text_of-str}
use headhunt_agent.Codec.{Codec, text_form}
use headhunt_agent.Policy.{TaskPlan}
use headhunt_agent.Storage.Models.{Datetime, Uuid, Database}
use headhunt_agent.Tx.{◌>>=◌, ok}
use headhunt_agent.Storage.Tables.{Session}

first_text : (s : String) → s ≢ "" → first_str (str s ∷ []) ≡ some s
unfolding first_str
first_text s h = rw (text_of-str s h) refl

-- The state has the thread and the input of the plan, its source and its type.
pub record StartsAs (c : Codec) (request : TaskAuthorizeRequest) (plan : TaskPlan) (state : Fields)
    : Type 0 where
  pub thread_id : get "thread_id" state ≡ str (c.uuid_text plan.thread_id)
  pub source : get "source" state ≡ str request.source
  pub user_input : get "user_input" state ≡ str plan.request_text
  pub task_type : get "task_type" state ≡ str plan.task_type

module _ (c : Codec) (request : TaskAuthorizeRequest) (plan : TaskPlan) (source_ref : String)
    (now : Datetime) where
  starts :
      c.uuid_text plan.thread_id ≢ ""
      → plan.request_text ≢ ""
      → request.source ≢ ""
      → plan.task_type ≢ ""
      → StartsAs c request plan (
          feishu_payload_to_initial_state c
            (build_graph_dispatch_payload c request plan source_ref now))
  unfolding build_graph_dispatch_payload get task_state text_or
  starts thread_id text source type =
      rw
        (initial_state_of_task c (build_graph_dispatch_payload c request plan source_ref now)
          (c.uuid_text plan.thread_id) plan.request_text
          (text_of-str (c.uuid_text plan.thread_id) thread_id) (text_of-str plan.request_text text))
        (fields_of_state source type)
    where
      fields_of_state :
          request.source ≢ ""
          → plan.task_type ≢ ""
          → StartsAs c request plan (
              task_state
                (build_graph_dispatch_payload c request plan source_ref now)
                (c.uuid_text plan.thread_id)
                plan.request_text)
      fields_of_state source type = record {
        thread_id = refl;
        source = rw (first_text request.source source) refl;
        user_input = refl;
        task_type = rw (first_text plan.task_type type) refl;
      }

not_feishu :
    (c : Codec) (state : Fields) (s : String)
    → get "source" state ≡ str s
    → str_eq s "feishu" ≡ false
    → feishu_task_intake_ready c state ≡ true
unfolding feishu_task_intake_ready
not_feishu c state s source other = rw source (rw other refl)

config_of :
    (c : Codec) (state : Fields) (u : Uuid) (db : Database)
    → get "thread_id" state ≡ str (c.uuid_text u)
    → c.parse_uuid (c.uuid_text u) ≡ some u
    → thread_config c (get "thread_id" state) db ≡ (ok (c.uuid_text u), db)
unfolding thread_config text_form ◌>>=◌
config_of c state u db thread_id read = rw thread_id (rw read refl)

module _ (c : Codec) (w : Wiring) (graph : GraphInput → String → Session (Unit {0})) where
  dispatched :
      (payload : Fields) (s : String) (u : Uuid) (db : Database)
      → dispatch_runtime_ready w ≡ true
      → get "source" (feishu_payload_to_initial_state c payload) ≡ str s
      → str_eq s "feishu" ≡ false
      → get "thread_id" (feishu_payload_to_initial_state c payload) ≡ str (c.uuid_text u)
      → c.parse_uuid (c.uuid_text u) ≡ some u
      → dispatch_graph c w graph payload db
        ≡ graph (initial (feishu_payload_to_initial_state c payload)) (c.uuid_text u) db
  unfolding dispatch_graph ◌>>=◌
  dispatched payload s u db ready source other thread_id read =
      let state = feishu_payload_to_initial_state c payload in
      rw ready
        (rw (not_feishu c state s source other) (rw (config_of c state u db thread_id read) refl))

  -- Where the runtime is ready, the item that an authorization queues starts the graph in the thread
  -- of the plan, with a state that has the thread, the source, the text and the type of the task. The
  -- source is not Feishu, these texts are not empty, and the id of the thread can be read back.
  pub dispatch_graph_starts :
      (request : TaskAuthorizeRequest) (plan : TaskPlan) (source_ref : String) (now : Datetime)
      (db : Database)
      → dispatch_runtime_ready w ≡ true
      → c.uuid_text plan.thread_id ≢ ""
      → plan.request_text ≢ ""
      → request.source ≢ ""
      → plan.task_type ≢ ""
      → str_eq request.source "feishu" ≡ false
      → c.parse_uuid (c.uuid_text plan.thread_id) ≡ some plan.thread_id
      → (state : Fields) × StartsAs c request plan state
        × (dispatch_graph c w graph (build_graph_dispatch_payload c request plan source_ref now) db
            ≡ graph (initial state) (c.uuid_text plan.thread_id) db)
  dispatch_graph_starts request plan source_ref now db ready thread_id text source type other read =
      let payload = build_graph_dispatch_payload c request plan source_ref now in
      let s = starts c request plan source_ref now thread_id text source type in
      (
        feishu_payload_to_initial_state c payload,
        s,
        dispatched payload request.source plan.thread_id db ready s.source other s.thread_id read,
      )
