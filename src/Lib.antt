-- ===== src/Lib.antt =====
-- Verification of Cyrene Exchange: the outbox of the integration hub, the credentials, audits, quotas
-- and routes of Exchange Product, and the gateway that answers chat requests over those routes.
--
-- The integration hub (product/src/cyrene_exchange_product/integrations) turns webhook events,
-- REST requests and WeCom commands into operations and outbox jobs. Workers claim a job under a
-- lease and a fencing token, ask Authority for an approval where the job needs one, mark the job
-- as sent, call the provider and record its outcome; a worker that dies leaves a lease that
-- another worker's claim recovers. All of this state is in SQLite, and store.py is the only code
-- that writes it. Exchange Product (product/src/cyrene_exchange_product) keeps the bearer
-- credentials, the routes, the request audits and the tenant quotas that the gateway of
-- src/cyrene_exchange consults. The gateway authenticates a chat request, asks the quota guard and
-- the route planner, tries the planned providers in order, assembles or streams their chunks, and
-- tells an observer of every admission and outcome, which Product stores as the request audit.
--
-- The files, and what they model:
--   Prelude      lists over the native numbers, texts, ids and times; `fetchone` and `select` are
--                a SELECT with `fetchone()` and `fetchall()`
--   Outbox       integrations/store.py from `claim_job` to `retry_readonly_job`, with
--                `resolve_unknown_operation`; a method is a function from its arguments and the
--                tables (`Db`) to its result and the new tables
--     Results      the exceptions, and `_transaction`: a body that raises leaves the tables as
--                  they were
--     Models       the records and states of integrations/models.py
--     Tables       the tables, `_insert_job` with the unique index, `_persist_job`,
--                  `_update_operation_state`
--     Commands     `render_issue_command_result` of integrations/commands.py
--     Replies      `_enqueue_command_reply` and `_enqueue_reply_for_operation`
--     Claim, Recover   `claim_job`, `mark_sending`, `recover_expired_claims`
--     Fail, Finish, Retry   `fail_claimed_job`, `finish_job`, `retry_readonly_job`
--     Authority, Execute   the four methods that wait for Authority, and
--                  `begin_authorized_execution`
--     Reconcile    `resolve_unknown_operation`
--     Lifecycle    what any method may do to a row of `outbox_jobs`, and that each does no more
--     History      sequences of calls by any workers, and what holds after one
--     Selection, Retries, Duplicates   which job is claimed; the bounds of a retry; the second
--                  reply to one operation
--   Product      store.py and quota.py of product/src/cyrene_exchange_product
--     Tables, Credentials, Keys, Audits, Quotas   the operations
--     Replay, Isolation, Distinct, Usage, Admissions   the theorems on them
--     KeyService, Secrets   the keys of service.py, and what it discloses of them
--     Resources    the endpoints, routes and grants of domain.py and their rows
--     Routes       the endpoint and route methods of store.py (Stored, Listing), the service over
--                  them (Service, Drafts) and the planner of routing.py (Planner); the other modules
--                  prove the version check (Versions), what stays true while other requests commit
--                  (Concurrent, Projected, Mirrored, Confirm), the admission of drafts (Admitted,
--                  Retried), the rows that a query reads (Order, Partition) and the tenancy of plans
--                  (Plan, Tenants)
--   Gateway      gateway.py and capabilities.py of src/cyrene_exchange
--     Usage, Messages   the merge of usage reports, and the completed message
--     Stream, Chat   `_stream_body` and `handle_openai_chat`: the run of a generator is the list of
--                  its items and observer calls, and a handler's result its answer and events
--     Embeddings   `handle_openai_embeddings`, with the same answers of the world
--     Recorder     the observer of Product, audit.py, which writes the tables of Product
--     Fragments, StreamAudit, Attempts, Handled, Bounds, Consumed, Recorded, Embedded
--                  the theorems on them; Recorded joins the gateway and the tables of Product
--
-- How the model stands for the code. A row is its document where every statement writes the other
-- columns from the same document; a row of `gateway_routes` has its columns beside the document. SQLite's BEGIN IMMEDIATE serializes the transactions, so that
-- an interleaving of workers is a sequence of calls; `claim_job` is two transactions, and its
-- model runs them one after the other. A time is a number of microseconds (milliseconds in
-- store.py of Product), and the clock and every `uuid4()` are arguments, so that a theorem holds
-- for any clock and any ids, equal ones included. The keys of Product have microseconds, and
-- their rows milliseconds. A JSON value is a text, a number, a Boolean,
-- null, or any other value by its text. SHA-256 is an argument, as are `str.strip`, `fnmatchcase`
-- and pydantic's `model_dump_json`. No function needs fuel: every loop of the code runs over the rows
-- of one SELECT, a list of candidates, or the chunks of a provider. A service method reads outside the
-- transaction of its write; its model runs both at once, and Confirm treats them apart, with any
-- changes between a read and the next one or the write. What the gateway asks of the world (the router, the providers, the cancel event,
-- the observer) is the record `World`, and a theorem holds for every such record;
-- the exceptions of the quota checker, the parser and the media resolver that the handler does not
-- catch are among the answers. A provider's
-- iterator is a finite list of chunks with its end; the consumer of a stream is the number of items
-- that it asks for.
--
-- Not modelled: the methods that take in events and commands, the parsing of
-- requests, headers and media by the gateway, the connector invocations,
-- the authorization observations and renewals, the clients of remote services, the HTTP and
-- command-line surfaces, the `max_length` of the fields of a document, and the columns that neither the methods above nor their guards read. A
-- SELECT without ORDER BY gives the rows in the order of their insertion.
pub mod Gateway
pub mod Outbox
pub mod Prelude
pub mod Product
