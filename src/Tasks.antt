-- ===== src/Tasks.antt =====
-- app/runtime/task_authorization.py: `TaskAuthorizationService.authorize` plans a task and, if it is
-- approved, queues the item that starts its graph. The time in the payload is a number here.
pub mod Authorized
pub mod Answers
pub mod Started
use headhunt_agent.Prelude.{
  String, Bool, true, false, Option, none, some, List, [], ◌∷◌, ◌++◌, if◌then◌else◌, str_eq, ◌==◌,
  ◌<>◌, ◌&&◌, find, any, or_default,
}
use headhunt_agent.Tx.{
  Error, Result, ok, pure, gets, guard, modify, transaction, map_error, outbox_payload_conflict,
  task_authorization_conflict, ◌>>=◌, ◌>>◌,
}
use headhunt_agent.Texts.{take_text, join_words}
use headhunt_agent.Value.{
  Value, Items, Fields, str, int, bool, null, or_null, list, dict, nil, cons, field, end,
}
use headhunt_agent.Codec.{Codec}
use headhunt_agent.Policy.{
  CouncilMode, TaskPlan, CouncilDeliberateRequest, create_task_plan, mode_text,
}
use headhunt_agent.Storage.Models.{
  Uuid, Datetime, GraphThread, ThreadStatus, Database, graph_dispatch,
}
use headhunt_agent.Storage.Tables.{Session, has_thread}
use headhunt_agent.Storage.Writer.{enqueue_json}

-- `TaskAuthorizeRequest` and `TaskAuthorizeResponse` of app/schemas/tasks.py
pub record TaskAuthorizeRequest : Type 0 where
  pub request_text : String
  pub source : String
  pub source_ref : Option String
  pub thread_id : Option Uuid
  pub model_profile_id : Option Uuid
  pub model_owner_user_id : Option String
  pub model_guild_id : Option String
  pub model_tenant_id : Option String
  pub embedding_profile_id : Option Uuid
  pub approved : Bool
  pub approver : Fields

pub data AuthorizationStatus : Type 0 where
  queued rejected : AuthorizationStatus

-- The response, its plan in one field; `next_actions` is the same in words.
pub record TaskAuthorizeResponse : Type 0 where
  pub status : AuthorizationStatus
  pub plan : TaskPlan
  pub source_ref : String
  pub model_profile_id : Option Uuid
  pub idempotency_key : Option String
  pub outbox_payload_ref : Option String

abbrev pub texts : List String → Items
texts [] = nil
texts (s ∷ rest) = cons (str s) (texts rest)

-- session.get(GraphThread, thread_id)
unfoldable pub get_thread : Uuid → Database → Option GraphThread
get_thread thread_id db = find (λ t. t.id == thread_id) db.graph_threads

-- pg_insert(GraphThread).values(...).on_conflict_do_nothing(index_elements=["id"])
unfoldable pub insert_thread_or_ignore : GraphThread → Database → Database
insert_thread_or_ignore row db =
    if has_thread row.id db.graph_threads
    then db
    else record db { graph_threads = db.graph_threads ++ row ∷ [] }

module _ (c : Codec) where
  abbrev pub id_text : Option Uuid → Value
  id_text none = null
  id_text (some u) = str (c.uuid_text u)

  seed : TaskAuthorizeRequest → Value
  unfolding join_words
  seed request = dict (
      field "request_text" (str (join_words request.request_text))
        (field "source" (str request.source) (field "thread_id" (id_text request.thread_id) end)))

  -- `_resolve_source_ref`
  unfoldable pub resolve_source_ref : TaskAuthorizeRequest → String
  unfolding seed take_text
  resolve_source_ref request =
      let generated = "request:" <> take_text 24 (c.sha256 (c.dumps (seed request))) in
      elim request.source_ref [
        | none ↦ generated
        | some source_ref ↦ if str_eq source_ref "" then generated else source_ref
      ]

  -- The plan with the ids of the authorization
  unfoldable pub authorized_plan : TaskAuthorizeRequest → String → TaskPlan
  unfolding create_task_plan
  authorized_plan request source_ref =
      create_task_plan
        (c.uuid5 ("lietou:task-authorization:task:" <> request.source <> ":" <> source_ref)) 0
        (record {
          request_text = request.request_text;
          source = request.source;
          thread_id = some (
              or_default request.thread_id (
                c.uuid5
                  ("lietou:task-authorization:thread:" <> request.source <> ":" <> source_ref)));
        })

  -- `_build_graph_dispatch_payload`
  unfoldable pub build_graph_dispatch_payload :
      TaskAuthorizeRequest → TaskPlan → String → Datetime → Fields
  build_graph_dispatch_payload request task_plan source_ref now =
      field "thread_id" (str (c.uuid_text task_plan.thread_id)) (
        field "task_id" (str (c.uuid_text task_plan.task_id)) (
          field "source" (str request.source) (
            field "source_ref" (str source_ref) (
              field "user_input" (str task_plan.request_text) (
                field "task_type" (str task_plan.task_type) (
                  field "council_mode" (str (mode_text task_plan.council_mode)) (
                    field "mode_reason" (str task_plan.mode_reason) (
                      field "required_agents" (list (texts task_plan.required_agents)) (
                        field "optional_agents" (list (texts task_plan.optional_agents)) (
                          field "user_forced_full_council" (bool task_plan.user_forced_full_council)
                            (profile_fields request now)))))))))))
    where
      profile_fields : TaskAuthorizeRequest → Datetime → Fields
      profile_fields r t = field "model_profile_id" (id_text r.model_profile_id) (
          field "model_owner_user_id" (or_null r.model_owner_user_id) (
            field "model_guild_id" (or_null r.model_guild_id) (
              field "model_tenant_id" (or_null r.model_tenant_id) (
                field "embedding_profile_id" (id_text r.embedding_profile_id) (
                  field "authorization"
                    (dict (
                      field "status" (str "authorized")
                        (field "approver" (dict r.approver) (field "authorized_at" (int t) end))))
                    end)))))

  -- `_ensure_thread_can_be_used` raises unless this holds.
  unfoldable pub thread_can_be_used : String → String → Option GraphThread → Bool
  thread_can_be_used source source_ref none = true
  thread_can_be_used source source_ref (some existing) =
      str_eq existing.source source
      && elim existing.source_ref [ none ↦ false | some r ↦ str_eq r source_ref ]

  abbrev pub thread_row : TaskAuthorizeRequest → TaskPlan → String → GraphThread
  unfolding take_text
  thread_row request task_plan source_ref = record {
    id = task_plan.thread_id;
    source = request.source;
    source_ref = some source_ref;
    task_type = task_plan.task_type;
    council_mode = some (mode_text task_plan.council_mode);
    mode_reason = some task_plan.mode_reason;
    status = ThreadStatus.queued;
    state_summary = field "authorization_status" (str "authorized") (
        field "task_id" (str (c.uuid_text task_plan.task_id)) (
          field "request_summary" (str (take_text 240 task_plan.request_text)) (
            field "council_mode" (str (mode_text task_plan.council_mode)) (
              field "mode_reason" (str task_plan.mode_reason)
                (field "approver" (dict request.approver) end)))));
  }

  abbrev pub authorize_key : TaskAuthorizeRequest → String → String
  authorize_key request source_ref = "task_authorize:" <> request.source <> ":" <> source_ref

  abbrev pub content_ref : TaskPlan → String
  content_ref plan =
      "artifact://task-authorization/"
      <> c.uuid_text plan.thread_id
      <> "/"
      <> c.uuid_text plan.task_id
      <> "/v1"

  abbrev pub conflict : Error → Error
  conflict outbox_payload_conflict = task_authorization_conflict
  conflict e = e

  -- The block of the transaction
  unfoldable pub queue_task : TaskAuthorizeRequest → TaskPlan → String → Session String
  unfolding get_thread thread_can_be_used insert_thread_or_ignore build_graph_dispatch_payload
  queue_task request plan source_ref = do
    existing ← gets (get_thread plan.thread_id)
    guard (thread_can_be_used request.source source_ref existing) task_authorization_conflict
    modify (insert_thread_or_ignore (thread_row request plan source_ref))
    now ← gets (λ db. db.now)
    enqueue_json c graph_dispatch (authorize_key request source_ref)
        (dict (build_graph_dispatch_payload request plan source_ref now)) (some plan.thread_id)
        (some (content_ref plan))

  unfoldable pub authorization : TaskAuthorizeRequest → Option String → TaskAuthorizeResponse
  unfolding resolve_source_ref authorized_plan
  authorization request none = record {
    status = rejected;
    plan = authorized_plan request (resolve_source_ref request);
    source_ref = resolve_source_ref request;
    model_profile_id = request.model_profile_id;
    idempotency_key = none;
    outbox_payload_ref = none;
  }
  authorization request (some ref) = record {
    status = queued;
    plan = authorized_plan request (resolve_source_ref request);
    source_ref = resolve_source_ref request;
    model_profile_id = request.model_profile_id;
    idempotency_key = some (authorize_key request (resolve_source_ref request));
    outbox_payload_ref = some ref;
  }

  unfoldable pub authorize_as : Bool → TaskAuthorizeRequest → Session TaskAuthorizeResponse
  unfolding queue_task resolve_source_ref authorized_plan
  authorize_as false request = pure (authorization request none)
  authorize_as true request = do
    let source_ref = resolve_source_ref request
    ref ←
        map_error conflict
          (transaction (queue_task request (authorized_plan request source_ref) source_ref))
    pure (authorization request (some ref))

  unfoldable pub authorize : TaskAuthorizeRequest → Session TaskAuthorizeResponse
  unfolding authorize_as
  authorize request = authorize_as request.approved request
