-- ===== src/Lib.antt =====
-- The verification library of headhunt-agent: the durable outbox, the approvals of proposed
-- actions, the dispatcher of outbox items and the executor of approved actions.
--
-- The parts, and the files that model them:
-- - Storage/Models, Storage/Tables: the tables of app/storage/models.py as lists of records in one
--   `Database`, and the statements on them with their keys and constraints. A session is the
--   monad `Tx Database` of Tx.antt: it returns or raises, and passes the database on.
-- - Storage/Payloads: `PayloadRepository` of app/storage/repositories.py.
-- - Storage/Writer: `FeishuOutboxWriteRepository`, whose `enqueue_json` queues items.
-- - Storage/Claims: `FeishuOutboxRepository`, whose `claim_next` hands items to workers.
-- - Approvals: `ApprovalService` of app/runtime/approvals.py. `submit_decision` reads the proposal,
--   queues a resume item by `enqueue_json` and records the approval, in one transaction.
-- - Dispatcher: `FeishuOutboxDispatcher` of app/feishu/dispatcher.py. `dispatch_once` claims an item,
--   runs the handler, which is a parameter, and settles the item.
-- - Executor: `ActionExecutor` of app/runtime/action_executor.py, which the graph calls with an
--   approval; it queues the Bitable write and marks the proposal.
-- - CardActions, Events: the other repositories of app/storage/repositories.py, by which Feishu's
--   callbacks record an event, a card action, a confirmation or a model setup.
-- - Bitable: `BitableSyncRepository` of the same file, which records what was written to Feishu's Bitable.
-- - ActionGate: `propose_action` of app/runtime/action_gate.py, with the notifier as a parameter.
-- - Policy, Tasks: app/policy/engine.py and `TaskAuthorizationService` of
--   app/runtime/task_authorization.py, which queues the item that starts the graph of a task.
-- - Outbox: app/runtime/outbox.py, which turns payloads into the graph's input.
-- - Review: app/runtime/review_gate.py.
-- - Graph: app/graphs/war_room.py. The nodes are functions on one state, in Graph/Nodes (with the
--   tasks for the harness in Graph/Agents),
--   Graph/Reviewing and Graph/Actions; Graph/Run has the edges and `invoke`. The interrupted node
--   proposes by `propose_action`, and the node after it calls the executor.
-- - Profiles: `ModelProfileRepository` of app/model_profiles/repository.py over its own table, with
--   the lookups and changes in Profiles/Access.
-- - Memory: `PostgresMemoryGateway` of app/memory/gateway.py. Memory/Search has the query of
--   app/memory/vector_store.py, Memory/Retrieve the retrieval that bounds and audits it, and
--   Memory/Updates the proposing, approving and revoking of memories.
-- - Artifacts: `PostgresArtifactStore` of app/artifacts/repository.py over its own tables, the upserts
--   in Artifacts/Write.
-- - Retention: `MemoryRetentionService` of app/memory/retention.py, row by row, with the
--   counters of a run in Retention/Summary.
-- - Sops: `AgentSOPRegistry.resolve` of app/sops/registry.py.
-- - UrlSafety: app/gateways/url_safety.py, with URL and address parsing as parameters.
-- - Texts: the methods of Python's `str` that the code calls.
-- - Value, Codec: the Python values in payloads, and json, hashlib and uuid as parameters.
--
-- Only `invoke` of Graph/Run runs on fuel, which stands for LangGraph's recursion limit of 25; the
-- other loops of the code are queries over finite tables, and the models recur on the list.
-- Python's numbers are unbounded, so nothing wraps. A time is a number of seconds.
--
-- Not modelled: the HTTP API, the Feishu and Discord gateways, cards and callbacks, the language
-- model and embedding clients, the harness that runs agents and LangGraph's checkpoints, the rows
-- of embeddings and their default references, the keys of model profiles, readiness checks and
-- migrations. They are input and output, calls of other libraries, or other subsystems.
pub mod Prelude
pub mod Texts
pub mod Tx
pub mod Outbox
pub mod Artifacts
pub mod Bitable
pub mod Graph
pub mod Policy
pub mod Tasks
pub mod Review
pub mod Value
pub mod Storage
pub mod Codec
pub mod ActionGate
pub mod Approvals
pub mod Dispatcher
pub mod Executor
pub mod CardActions
pub mod Events
pub mod Memory
pub mod Profiles
pub mod Retention
pub mod Samples
pub mod Sops
pub mod UrlSafety
