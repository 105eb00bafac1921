-- ===== src/Samples/Tasks.antt =====
-- A task that is authorized, and a decision on its way to the executor.
use headhunt_agent.Prelude.{
  String, true, false, none, some, ◌≡◌, ◌≢◌, refl, if◌then◌else◌, str_eq, ◌==◌, ◌⊎◌, ◌<◌,
}
use headhunt_agent.Tx.{ok, raise, ◌>>=◌, task_authorization_conflict, pure, map_error, transaction}
use headhunt_agent.Value.{Value, Fields, str, dict, int, end, get, dict_value}
use headhunt_agent.Codec.{Codec, stable_hash}
use headhunt_agent.Storage.Writer.{enqueue_json}
use headhunt_agent.Storage.Payloads.{store_json_payload}
use headhunt_agent.Storage.Models.{empty_database}
use headhunt_agent.Storage.Tables.{get_blob, Session}
use headhunt_agent.Policy.{CouncilDeliberateRequest, create_task_plan, high_risk_terms}
use headhunt_agent.Policy.Agents.{create_task_plan-IsSupervised, requires}
use headhunt_agent.Tasks.{
  TaskAuthorizeRequest, TaskAuthorizeResponse, authorize, authorization, authorized_plan,
  resolve_source_ref, build_graph_dispatch_payload,
}
use headhunt_agent.Tasks.Answers.{IsAuthorized, authorize-IsAuthorized, authorize_repeat_conflicts}
use headhunt_agent.Tasks.Started.{StartsAs, dispatch_graph_starts}
use headhunt_agent.Outbox.Handler.{
  Wiring, GraphInput, initial, dispatch_graph, dispatch_runtime_ready,
}
use headhunt_agent.Texts.{strip, text_length, contains_any}
use headhunt_agent.Tasks.Authorized.{hash_at}

abbrev time_text : Value → String
unfolding get
time_text (int n) = if n == 0 then "early" else "late"
time_text _ = "{}"

abbrev dumps_time : Value → String
unfolding get dict_value
dumps_time (str s) = s
dumps_time (dict d) = time_text (get "authorized_at" (dict_value (get "authorization" d)))
dumps_time _ = "{}"

-- As the other one, but the dumps differ with the time
unfoldable pub timed : Codec
unfolding dumps_time
timed = record {
  dumps = dumps_time;
  dumps_spaced = dumps_time;
  loads = λ s. none;
  sha256 = λ s. s;
  text_of_other = λ v. "other";
  uuid_text = λ u. if u == 1 then "1" else "2";
  parse_uuid = λ s. if str_eq s "1" then some 1 else some 2;
  uuid5 = λ s. 2;
}

abbrev task : TaskAuthorizeRequest
task = record {
  request_text = "请帮我筛选候选人并给出推荐结论，注意敏感信息的处理和合规";
  source = "api";
  source_ref = some "r1";
  thread_id = some 1;
  model_profile_id = none;
  model_owner_user_id = none;
  model_guild_id = none;
  model_tenant_id = none;
  embedding_profile_id = none;
  approved = true;
  approver = end;
}

abbrev task_request : CouncilDeliberateRequest
task_request = record { request_text = task.request_text; source = "api"; thread_id = some 1 }

create_task_plan-IsSupervised_example :
    (requires "ComplianceRiskAgent" (create_task_plan 2 3 task_request).required_agents ≡ true)
    × (requires "CouncilSynthesizerAgent" (create_task_plan 2 3 task_request).required_agents
        ≡ true)
    × ((requires "ChallengeReviewAgent" (create_task_plan 2 3 task_request).required_agents ≡ true)
        ⊎ (contains_any high_risk_terms task_request.request_text ≡ false)
        ⊎ (text_length (strip task_request.request_text) < 20))
create_task_plan-IsSupervised_example = create_task_plan-IsSupervised 2 3 task_request

task_challenged :
    requires "ChallengeReviewAgent" (create_task_plan 2 3 task_request).required_agents ≡ true
unfolding create_task_plan
task_challenged = refl

abbrev answer : TaskAuthorizeResponse
unfolding authorization
answer = authorization timed task (some "artifact://task-authorization/1/2/v1")

task_queued : (authorize timed task empty_database).0 ≡ ok answer
unfolding authorize ◌>>=◌ answer map_error transaction enqueue_json store_json_payload get_blob
    timed stable_hash
task_queued = refl

ref_answered : answer.outbox_payload_ref ≡ some "artifact://task-authorization/1/2/v1"
unfolding answer
ref_answered = refl

authorize-IsAuthorized_example :
    IsAuthorized timed task "artifact://task-authorization/1/2/v1" 0
      (authorize timed task empty_database).1
authorize-IsAuthorized_example =
    authorize-IsAuthorized timed task empty_database answer "artifact://task-authorization/1/2/v1"
      task_queued ref_answered

hashes_differ :
    hash_at timed task
      (authorized_plan timed task (resolve_source_ref timed task))
      (resolve_source_ref timed task)
      5
    ≢ hash_at timed task
        (authorized_plan timed task (resolve_source_ref timed task))
        (resolve_source_ref timed task)
        0
unfolding timed stable_hash build_graph_dispatch_payload
hashes_differ e = late e
  where
    late : ◌≢◌ {A = String} "late" "early"
    late q = absurd (cc (q))

authorize_repeat_conflicts_example :
    authorize timed task (record (authorize timed task empty_database).1 { now = 5 }) ≡ (
      raise task_authorization_conflict,
      record (authorize timed task empty_database).1 { now = 5 },
    )
authorize_repeat_conflicts_example =
    authorize_repeat_conflicts timed task empty_database answer
      "artifact://task-authorization/1/2/v1" 5 task_queued ref_answered hashes_differ

abbrev wiring : Wiring
wiring = record {
  agent_harness = true;
  action_gate = true;
  action_executor = true;
  allow_minimal_runtime = false;
  allow_resume_without_interrupt = false;
}

abbrev graph : GraphInput → String → Session (Unit {0})
graph input config = pure tt

ready : dispatch_runtime_ready wiring ≡ true
unfolding dispatch_runtime_ready
ready = refl

id_text_there : timed.uuid_text 1 ≢ ""
unfolding timed
id_text_there e = absurd (cc (e))

id_read : timed.parse_uuid (timed.uuid_text 1) ≡ some 1
unfolding timed
id_read = refl

typed : (create_task_plan 2 3 task_request).task_type ≢ ""
unfolding create_task_plan
typed e = absurd (cc (e))

text_there : (create_task_plan 2 3 task_request).request_text ≢ ""
unfolding create_task_plan
text_there e = absurd (cc (e))

source_there : task.source ≢ ""
source_there e = absurd (cc (e))

dispatch_graph_starts_example :
    (state : Fields) × StartsAs timed task (create_task_plan 2 3 task_request) state
    × (dispatch_graph timed wiring graph
          (build_graph_dispatch_payload timed task (create_task_plan 2 3 task_request) "r1" 0)
          empty_database
        ≡ graph (initial state) (timed.uuid_text 1) empty_database)
unfolding create_task_plan
dispatch_graph_starts_example =
    dispatch_graph_starts timed wiring graph task (create_task_plan 2 3 task_request) "r1" 0
      empty_database ready id_text_there (λ e. absurd (cc (e))) (λ e. absurd (cc (e)))
      (λ e. absurd (cc (e))) refl id_read
