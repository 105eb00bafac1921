-- ===== src/Tasks/Authorized.antt =====
-- What queueing a task leaves behind, and what repeating it does.
use headhunt_agent.Tasks.{
  TaskAuthorizeRequest, queue_task, authorize_key, build_graph_dispatch_payload, get_thread,
  thread_can_be_used, thread_row, insert_thread_or_ignore, content_ref,
}
use headhunt_agent.Prelude.{
  String, Bool, true, false, some, ◌≡◌, refl, inl, inr, Bool-cases, ◌&&◌, str_eq, eq_iff,
  find-append_new, eq_refl, find, any, ℕ, ◌⊎◌, find-eq-none_of_any, arith, any-eq-false_of_find,
  Option-cases, ◌==◌, arith,
}
use headhunt_agent.Tx.{ok, raise, ◌>>=◌, task_authorization_conflict}
use headhunt_agent.Value.{dict}
use headhunt_agent.Codec.{Codec, stable_hash}
use headhunt_agent.Policy.{TaskPlan}
use headhunt_agent.Storage.Models.{Datetime, Database, GraphThread, graph_dispatch}
use headhunt_agent.Storage.Tables.{Session, has_thread}
use headhunt_agent.Storage.Writer.{enqueue_json}
use headhunt_agent.Storage.Writer.Frame.{enqueue_json-SameTables}
use headhunt_agent.Storage.Writer.Once.{IsQueued, enqueue_json-IsQueued}

-- The thread of a task stays as it is, or is the task's own.
pub inserted_now :
    (row : GraphThread) (db : Database) → (insert_thread_or_ignore row db).now ≡ db.now
unfolding insert_thread_or_ignore
inserted_now row db = elim (Bool-cases (has_thread row.id db.graph_threads)) [
  | inl there ↦ rw there refl
  | inr new ↦ rw new refl
]

-- Unless another task has the thread, it is the task's once the row is inserted.
inserted_thread :
    (c : Codec) (request : TaskAuthorizeRequest) (plan : TaskPlan) (source_ref : String)
    (db : Database)
    → thread_can_be_used c request.source source_ref (get_thread plan.thread_id db) ≡ true
    → (row : GraphThread) × (get_thread plan.thread_id
          (insert_thread_or_ignore (thread_row c request plan source_ref) db)
        ≡ some row)
      × (thread_can_be_used c request.source source_ref (some row) ≡ true)
unfolding insert_thread_or_ignore get_thread thread_can_be_used thread_row
inserted_thread c request plan source_ref db usable =
    let row = thread_row c request plan source_ref in
    elim (Option-cases (find (λ t. t.id == plan.thread_id) db.graph_threads)) [
      | inl new ↦ (
        row,
        rw (any-eq-false_of_find (λ t. t.id == plan.thread_id) db.graph_threads new) (
            find-append_new (λ t. t.id == plan.thread_id) db.graph_threads row new
              (same_id plan.thread_id)),
        own request.source source_ref,
      )
      | inr (old, found) ↦ (
        old,
        rw (there (Bool-cases (any (λ t. t.id == plan.thread_id) db.graph_threads)) found) found,
        rw found at usable,
      )
    ]
  where
    same_id : (n : ℕ) → (n == n) ≡ true
    same_id n = ground arith

    there :
        {old : GraphThread}
        → (any (λ t. t.id == plan.thread_id) db.graph_threads ≡ true)
          ⊎ (any (λ t. t.id == plan.thread_id) db.graph_threads ≡ false)
        → find (λ t. t.id == plan.thread_id) db.graph_threads ≡ some old
        → any (λ t. t.id == plan.thread_id) db.graph_threads ≡ true
    there (inl known) found = known
    there (inr unknown) found =
        absurd
          (cc (find-eq-none_of_any (λ t. t.id == plan.thread_id) db.graph_threads unknown, found))

    own : (s r : String) → (str_eq s s && str_eq r r) ≡ true
    own s r = rw (eq_refl s) (eq_refl r)

module _ (c : Codec) (request : TaskAuthorizeRequest) (plan : TaskPlan) (source_ref : String) where
  abbrev pub hash_at : Datetime → String
  hash_at now = stable_hash c (dict (build_graph_dispatch_payload c request plan source_ref now))

  -- The item that starts the graph is queued, and the thread is the task's.
  pub record HasTask (ref : String) (now : Datetime) (db : Database) : Type 0 where
    pub queued : IsQueued (authorize_key c request source_ref) (hash_at now) ref db
    pub thread : GraphThread
    pub thread_found : get_thread plan.thread_id db ≡ some thread
    pub thread_source : thread.source ≡ request.source
    pub thread_source_ref : thread.source_ref ≡ some source_ref

  owned :
      (row : GraphThread)
      → thread_can_be_used c request.source source_ref (some row) ≡ true
      → (row.source ≡ request.source) × (row.source_ref ≡ some source_ref)
  unfolding thread_can_be_used
  owned row h = elim (Option-cases row.source_ref) [
    | inl absent ↦ absurd (cc (rw absent at h, and_false (str_eq row.source request.source)))
    | inr (r, there) ↦
        let (a, b) =
          both (str_eq row.source request.source) (str_eq r source_ref) (rw there at h) in
        ((eq_iff row.source request.source).0 a, cc (there, (eq_iff r source_ref).0 b))
  ]
    where
      and_false : (a : Bool) → (a && false) ≡ false
      and_false a = ground arith

      both : (a b : Bool) → (a && b) ≡ true → (a ≡ true) × (b ≡ true)
      both a b q = (ground arith, ground arith)

  abbrev pub enqueue_at : Datetime → Session String
  enqueue_at now =
      enqueue_json c graph_dispatch (authorize_key c request source_ref)
        (dict (build_graph_dispatch_payload c request plan source_ref now)) (some plan.thread_id)
        (some (content_ref c plan))

  pub usable_case :
      (db : Database)
      → thread_can_be_used c request.source source_ref (get_thread plan.thread_id db) ≡ true
      → queue_task c request plan source_ref db
        ≡ enqueue_at db.now (insert_thread_or_ignore (thread_row c request plan source_ref) db)
  unfolding queue_task ◌>>=◌
  usable_case db usable =
      rw usable (rw (inserted_now (thread_row c request plan source_ref) db) refl)

  pub other_case :
      (db : Database)
      → thread_can_be_used c request.source source_ref (get_thread plan.thread_id db) ≡ false
      → queue_task c request plan source_ref db ≡ (raise task_authorization_conflict, db)
  unfolding queue_task ◌>>=◌
  other_case db other = rw other refl

  pub queued_by :
      (db : Database) (ref : String)
      → (queue_task c request plan source_ref db).0 ≡ ok ref
      → HasTask ref db.now (queue_task c request plan source_ref db).1
  unfolding get_thread
  queued_by db ref h =
      elim (Bool-cases
        (thread_can_be_used c request.source source_ref (get_thread plan.thread_id db))) [
          | inr other ↦ absurd (cc (other_case db other, h))
          | inl usable ↦
              rw (usable_case db usable) (task_in db ref usable (rw (usable_case db usable) at h))
        ]
    where
      task_in :
          (db : Database) (ref : String)
          → thread_can_be_used c request.source source_ref (get_thread plan.thread_id db) ≡ true
          → (enqueue_at db.now
              (insert_thread_or_ignore (thread_row c request plan source_ref) db)).0
            ≡ ok ref
          → HasTask ref db.now
              (enqueue_at db.now
                (insert_thread_or_ignore (thread_row c request plan source_ref) db)).1
      task_in db ref usable h =
          let (t, found, mine) = inserted_thread c request plan source_ref db usable in
          let (same_source, same_ref) = owned t mine in
          let kept =
            enqueue_json-SameTables c graph_dispatch (authorize_key c request source_ref)
              (dict (build_graph_dispatch_payload c request plan source_ref db.now))
              (some plan.thread_id) (some (content_ref c plan))
              (insert_thread_or_ignore (thread_row c request plan source_ref) db) in
          record {
            queued = enqueue_json-IsQueued c graph_dispatch _ _ _ _ _ h;
            thread = t;
            thread_found = rw kept.graph_threads found;
            thread_source = same_source;
            thread_source_ref = same_ref;
          }
