-- ===== src/Lib.antt =====
-- RepoInfo backend: a service that keeps accounts, lets their owners add Git repositories by address,
-- analyzes each repository in a worker, and shows the results.
--
-- The parts and how they meet. A request reaches a route (app/api/v1), which resolves the caller
-- (app/dependencies/auth.py), calls one method of a service (app/services) and commits. A service
-- reads and writes the tables of app/models through the repositories of app/repositories. Adding a
-- repository sends a message to a broker; a worker then runs app/workers/tasks/repository.py, which
-- writes the results in several transactions and moves the stages that the views show.
--
-- Which module models which code:
--   Prelude           names of the libraries, equality of keys as an interface, the queries on a
--                     table (`find?`, `filter`, `update`, `count`) and their lemmas, texts
--   Models.Enums      app/models/enums.py, one data type for each class, with its labels
--   Core.Errors       app/core/exceptions.py, app/core/error_handlers.py: exceptions and envelopes
--   Core.Config       app/core/config.py: the settings that the modelled code reads
--   Core.Security     app/core/security.py: tokens, digests, one-time codes
--   Database.Session  app/database/session.py: actions on a state, and the rollback of a request
--   Database.Times    app/database/base.py: times with and without a zone, and their comparison
--   Database.Pages    app/dependencies/pagination.py and the page of app/repositories/base.py
--   Auth.Tables       app/models/user.py, and the tables of audit and notifications
--   Auth.Repositories app/repositories/user.py, the writes of audit.py and notification.py
--   Auth.Issue, Auth.Registration, Auth.Login, Auth.Passwords, Auth.Sessions
--                     app/services/auth_service.py, each method under its own name
--   Auth.Access       app/dependencies/auth.py
--   Auth.Permissions  app/permissions/rbac.py, app/models/rbac.py
--   Catalog.Tables    app/models/repository.py
--   Catalog.GitUrl    app/utils/git.py
--   Catalog.Queries   app/repositories/repository.py
--   Catalog.Service   app/services/repository_service.py
--   Analysis.Indexing, Analysis.Statistics, Analysis.Architecture, Analysis.Pipeline, Analysis.Stores,
--   Analysis.Run      app/workers/tasks/repository.py: the helpers, the stages and the whole run
--   Chat.Tables       app/models/chat.py, with the usage of app/models/audit.py
--   Chat.Queries      app/repositories/chat.py
--   Chat.Service, Chat.Streaming, Chat.Generator
--                     app/services/chat_service.py: conversations, questions, the streaming of answers
--   Catalog.Trees     app/services/repository_service.py: the tree of `get_tree`
--   Auth.Usernames, Auth.Callback
--                     app/services/oauth_service.py: the callback of a provider
--   Exports.Tables, Exports.Jobs
--                     app/models/export.py, app/repositories/export.py, app/workers/tasks/export.py,
--                     the expiry of app/workers/tasks/cleanup.py, and `request_export`
--   Billing.Tables, Billing.Queries, Billing.Service
--                     app/models/billing.py, app/repositories/billing.py, app/services/billing_service.py
--   Catalog.Views     app/services/repository_service.py: metrics, architecture, dependencies, security
--   Workspace.Notifications
--                     app/services/notification_service.py, app/repositories/notification.py
--   Workspace.ApiKeys app/services/user_service.py: API keys
--   Auth.Cleanup      app/workers/tasks/cleanup.py: the purge of codes and refresh tokens
--   Http.Middleware   app/middlewares/csrf.py, security_headers.py, request_context.py
--   Workspace.Projects
--                     app/services/project_service.py, app/models/project.py
--   Ai.Chunking       app/ai/embeddings/service.py: the windows of a text
--   Ai.Errors         app/ai/providers/errors.py
--   Ai.Providers      app/ai/providers: what each provider yields from the events of its client
--   Ai.Agent          app/ai/agents/rag_agent.py
-- The other modules hold proofs, by what they prove: Tokens,
-- Rotation, Continuity, Credentials, Recovery, Verification, Revocation, Bearer, Scopes, UsernameSearch,
-- CallbackStates, CallbackUsers and CleanupEffects of accounts;
-- Segments, RoundTrip, Lifecycle, Ownership, Toggles, RowOrder, TreeCounts, TreeRows and
-- Reports of the catalog; Stages, Success, Outcomes, Rerun, Tree,
-- Directories and Languages of an analysis; Answers, Responses and
-- Privacy of the chat; Coverage, Fallback, Serving and Provenance of the agent;
-- Lifecycle and Results of the exports; Current, Shown, Changes, Rows, Single and Cancellation of billing;
-- Inbox, Slugs, Keys, Requests and KeyLife of the workspace;
-- Protection of the middlewares, in the order of app/main.py. Tests, SampleTests,
-- AccessTests, CallbackTests, CleanupTests, ViewTests, KeyTests and Cases run the code on small states.
--
-- How the state is kept. A table is the list of its rows, and a query that the source ends with
-- `scalar_one_or_none` takes the first row that matches: its column is unique, or the statement has a
-- limit of one. An id is a number that stands for a UUID: `next_id` counts, since `uuid4` does not
-- repeat. Times are in seconds, and the clock stands still during one handler. Where the code compares
-- a column with its clock, the model keeps whether each has a time zone, since Python refuses to compare the two. A service method is an
-- `Action`, from a state to a result or an exception, and the state comes back in both cases:
-- `in_transaction` then undoes the tables after an exception, as `get_db` does, while mail, entries of
-- Redis, stored objects and messages to the broker remain. A session of billing keeps the relationships
-- that it has loaded. In SQL a comparison with `NULL` is not true, and the model
-- of app/permissions/rbac.py writes that out.
--
-- Numbers and texts. A Python text is the list of its code points. Scores and percentages are whole
-- numbers. A path is the list of its names, the innermost first. The order in which Python goes through
-- a set is a function `iterate` of the caller. Sizes and counts are natural numbers.
--
-- What is outside. pyjwt, passlib, hashlib and the secrets module are the record `Crypto`, and what
-- the code relies on is the record `CryptoLaws`; the tests fill both with functions. `str.lower`, the
-- random digits, the clone of a repository, the broker and the agent that answers a question are
-- arguments. A generator is read to its end. Of the passwords the laws cover those without a null
-- character, which bcrypt refuses. An exception that no handler takes is written with its class.
--
-- Bounds. Loops are structural, but for the windows of `chunk_text`, and the search for a
-- username, which take one unit of fuel for a round: one more than the tokens is enough, since a round moves
-- by a token at least, and one more than the users, since the names tried are different. The limit of `_index_tree` on files is its
-- argument `max_files`, as in the source.
--
-- Not modelled: the clients of the AI providers and the prompts, the lists of conversations and of repositories with their search,
-- profiles, settings, search, uploads, analytics and mail templates, whose logic is mostly calls of libraries and
-- services; rate limits, logging, schemas, routes and migrations, which only wire the rest; and of
-- the worker the progress messages, the search index, the embeddings and the readers of manifest files,
-- whose result is an argument of the run.
pub mod Prelude
pub mod Models
pub mod Core
pub mod Database
pub mod Auth
pub mod Catalog
pub mod Analysis
pub mod Chat
pub mod Ai
pub mod Billing
pub mod Workspace
pub mod Exports
pub mod Http
