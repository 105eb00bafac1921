-- ===== src/Tasks/Answers.antt =====
-- What `authorize` answers, and what it answers a second time.
use headhunt_agent.Tasks.{
  TaskAuthorizeRequest, TaskAuthorizeResponse, authorize, authorize_as, queue_task,
  resolve_source_ref, authorized_plan, authorize_key, get_thread, thread_can_be_used, thread_row,
  insert_thread_or_ignore, conflict, authorization, build_graph_dispatch_payload, content_ref,
}
use headhunt_agent.Tasks.Authorized.{HasTask, hash_at, usable_case, other_case, queued_by}
use headhunt_agent.Prelude.{
  String, Bool, true, false, none, some, ◌≡◌, ◌≢◌, refl, inl, inr, Bool-cases, subst,
}
use headhunt_agent.Tx.{
  Error, Result, ok, raise, ◌>>=◌, transaction, map_error, task_authorization_conflict, pure,
  outbox_payload_conflict, outcome_cases,
}
use headhunt_agent.Value.{dict}
use headhunt_agent.Codec.{Codec}
use headhunt_agent.Storage.Models.{Datetime, Database, GraphThread, graph_dispatch}
use headhunt_agent.Storage.Tables.{Session, has_thread}
use headhunt_agent.Storage.Writer.Once.{IsQueued-same, enqueue_json_refuses}

inserted_tables :
    (row : GraphThread) (db : Database)
    → ((insert_thread_or_ignore row db).feishu_outbox ≡ db.feishu_outbox)
      × ((insert_thread_or_ignore row db).artifact_blobs ≡ db.artifact_blobs)
unfolding insert_thread_or_ignore
inserted_tables row db = elim (Bool-cases (has_thread row.id db.graph_threads)) [
  | inl there ↦ rw there (refl, refl)
  | inr new ↦ rw new (refl, refl)
]

ok_at :
    {out : Result String × Database} {r : String} {s : Database} → out ≡ (ok r, s) → out.0 ≡ ok r
ok_at e = cc

module _ (c : Codec) (request : TaskAuthorizeRequest) where
  -- An authorized task
  pub record IsAuthorized (ref : String) (now : Datetime) (after : Database) : Type 0 where
    pub approved : request.approved ≡ true
    pub task :
        HasTask c request
          (authorized_plan c request (resolve_source_ref c request))
          (resolve_source_ref c request)
          ref
          now
          after

  queue : Session String
  queue =
      queue_task c request (authorized_plan c request (resolve_source_ref c request))
        (resolve_source_ref c request)

  queued_case :
      (db s : Database) (r : String)
      → queue db ≡ (ok r, s)
      → authorize_as c true request db ≡ (ok (authorization c request (some r)), s)
  unfolding authorize_as ◌>>=◌ map_error transaction queue
  queued_case db s r out = rw out refl

  failed_case :
      (db s : Database) (e : Error)
      → queue db ≡ (raise e, s)
      → authorize_as c true request db ≡ (raise (conflict c e), db)
  unfolding authorize_as ◌>>=◌ map_error transaction queue
  failed_case db s e out = rw out refl

  refused_case :
      (db : Database) → authorize_as c false request db ≡ (ok (authorization c request none), db)
  unfolding authorize_as pure
  refused_case db = refl

  answered :
      (b : Bool) (db : Database) (response : TaskAuthorizeResponse) (ref : String)
      → (authorize_as c b request db).0 ≡ ok response
      → response.outbox_payload_ref ≡ some ref
      → request.approved ≡ b
      → IsAuthorized ref db.now (authorize_as c b request db).1
  unfolding queue authorization
  answered false db response ref h q e = absurd (cc (h, q, refused_case db))
  answered true db response ref h q e = elim (outcome_cases (queue db)) [
    | inr (e, s, out) ↦ absurd (cc (failed_case db s e out, h))
    | inl (r, s, out) ↦
        let same_ref : r ≡ ref = cc (queued_case db s r out, h, q) in
        let task =
          queued_by c request (authorized_plan c request (resolve_source_ref c request))
            (resolve_source_ref c request) db r (ok_at out) in
        rw (queued_case db s r out) (record {
          approved = e;
          task =
              subst
                (λ x.
                  HasTask c request (authorized_plan c request (resolve_source_ref c request))
                    (resolve_source_ref c request) x db.now s)
                same_ref (rw out at task);
        })
  ]

  -- An authorization that is answered with a queued payload was approved. Its item is queued under the
  -- key of its source, with the payload of that time, and its thread is in the database, under that
  -- source and reference.
  pub authorize-IsAuthorized :
      (db : Database) (response : TaskAuthorizeResponse) (ref : String)
      → (authorize c request db).0 ≡ ok response
      → response.outbox_payload_ref ≡ some ref
      → IsAuthorized ref db.now (authorize c request db).1
  unfolding authorize
  authorize-IsAuthorized db response ref h q = answered request.approved db response ref h q refl

  refuses :
      (ref : String) (before : Datetime) (db : Database)
      → IsAuthorized ref before db
      → hash_at c request
          (authorized_plan c request (resolve_source_ref c request))
          (resolve_source_ref c request)
          db.now
        ≢ hash_at c request
            (authorized_plan c request (resolve_source_ref c request))
            (resolve_source_ref c request)
            before
      → (s : Database) × (e : Error) × (queue db ≡ (raise e, s))
        × (conflict c e ≡ task_authorization_conflict)
  unfolding queue authorization
  refuses ref before db authorized other =
      let plan = authorized_plan c request (resolve_source_ref c request) in
      let source_ref = resolve_source_ref c request in
      elim (Bool-cases
        (thread_can_be_used c request.source source_ref (get_thread plan.thread_id db))) [
          | inr taken ↦
              (db, task_authorization_conflict, other_case c request plan source_ref db taken, refl)
          | inl usable ↦
              let db' = insert_thread_or_ignore (thread_row c request plan source_ref) db in
              let (outbox, blobs) = inserted_tables (thread_row c request plan source_ref) db in
              let queued = IsQueued-same db' authorized.task.queued outbox blobs in
              (
                db',
                outbox_payload_conflict,
                rw (usable_case c request plan source_ref db usable) (
                    enqueue_json_refuses c graph_dispatch (authorize_key c request source_ref)
                      (dict (build_graph_dispatch_payload c request plan source_ref db.now))
                      (some plan.thread_id) (some (content_ref c plan)) db' queued.row
                      queued.row_found
                      (λ blob found same.
                        other
                          (cc (same, found, queued.blob_found, queued.row_ref, queued.blob_hash)))),
                refl,
              )
        ]

  repeated :
      (b : Bool) (ref : String) (before : Datetime) (db : Database)
      → request.approved ≡ b
      → IsAuthorized ref before db
      → hash_at c request
          (authorized_plan c request (resolve_source_ref c request))
          (resolve_source_ref c request)
          db.now
        ≢ hash_at c request
            (authorized_plan c request (resolve_source_ref c request))
            (resolve_source_ref c request)
            before
      → authorize_as c b request db ≡ (raise task_authorization_conflict, db)
  repeated false ref before db e authorized other = absurd (cc (e, authorized.approved))
  repeated true ref before db e authorized other =
      let (s, e, out, known) = refuses ref before db authorized other in
      rw (failed_case db s e out) (rw known refl)

  at_later :
      (ref : String) (before later : Datetime) (db : Database)
      → IsAuthorized ref before db
      → IsAuthorized ref before (record db { now = later })
  unfolding get_thread
  at_later ref before later db done = record {
    approved = done.approved;
    task = record {
      queued = IsQueued-same (record db { now = later }) done.task.queued refl refl;
      thread = done.task.thread;
      thread_found = done.task.thread_found;
      thread_source = done.task.thread_source;
      thread_source_ref = done.task.thread_source_ref;
    };
  }

  -- The same request, sent again at a time for which the payload has another hash, is refused as a
  -- conflict and changes nothing.
  pub authorize_repeat_conflicts :
      (db : Database) (response : TaskAuthorizeResponse) (ref : String) (later : Datetime)
      → (authorize c request db).0 ≡ ok response
      → response.outbox_payload_ref ≡ some ref
      → hash_at c request
          (authorized_plan c request (resolve_source_ref c request))
          (resolve_source_ref c request)
          later
        ≢ hash_at c request
            (authorized_plan c request (resolve_source_ref c request))
            (resolve_source_ref c request)
            db.now
      → authorize c request (record (authorize c request db).1 { now = later })
        ≡ (raise task_authorization_conflict, record (authorize c request db).1 { now = later })
  unfolding authorize
  authorize_repeat_conflicts db response ref later h q other =
      let done = answered request.approved db response ref h q refl in
      repeated request.approved ref db.now _ refl (at_later ref db.now later _ done) other
