-- ===== src/Lib.antt =====
-- Verification of Relayflow (b2b_app), a multi-tenant service that runs workflows: a webhook, a
-- schedule or an application event starts a run, and the run takes the event's payload through a
-- graph of filters, transforms and actions.
--
-- The parts and their files, with the code that each one models:
--
--   Workflow    lib/dag/schema.ts, the types: nodes, edges and their configurations.
--   Graph       lib/dag/schema.ts, validateGraph and topoSort. The errors are a data type where the
--               source builds messages. The maps and sets of the source are association lists and
--               lists of keys in the order of their insertion.
--   Json        the values of JavaScript that a workflow meets, and what the code uses of the
--               language's own library (the interface Js).
--   JsonPath    lib/path.ts: tokenize, getPath, hasPath and setPath.
--   Runner      lib/dag/runner.ts: runWorkflow and summarizeRun. Runner/Steps has the records,
--               Runner/Conditions evaluateConditions and applyTransform, Runner/Attempts
--               executeActionWithRetry.
--   RateLimit   lib/ratelimit.ts: the script of the token bucket and the functions around it.
--   Execute     lib/execute.ts: executeWorkflowRun, and the functions of lib/data/runs.ts that it
--               writes with.
--   Sessions    lib/data/sessions.ts: issue, resolve, revoke and prune sessions.
--   Invitations lib/data/invitations.ts: create, resolve, accept and revoke invitations.
--   Signature   lib/sig.ts: verifyWebhookSignature.
--   Schema      lib/dag/schema.ts: safeParseWorkflowGraph, over the parser of zod.
--   Schedules   lib/scheduler.ts: the ids of schedules, and the upserts and removals of job schedulers.
--   Worker      lib/workers.ts: processJob.
--   Passwords   lib/passwords.ts: hashPassword and verifyPassword.
--   Totp        lib/totp.ts: base32, generateTotpCode and verifyTotpCode.
--   Secrets     lib/crypto.ts: encryptSecret, decryptSecret and maskSecret.
--   Accounts    lib/data/auth.ts: login with MFA and recovery codes, passwords and their reset, API keys.
--   Repository  lib/data/workflows.ts: workflows and the triggers, actions and endpoints of their graphs.
--   Credentials lib/data/credentials.ts: create, decrypt and delete credentials.
--   Database    a table of the database, as the code reaches it through Prisma.
--   Prelude     what the parts share: Boolean tests on native numbers, list lemmas, integers,
--               association lists, permutations, and the result type of code that throws.
--
-- The runner sorts a graph with topoSort, which validates it first, and takes its values apart with
-- getPath and setPath. It calls out through the interface World: the dispatcher of actions, sleep,
-- the clock and the random numbers. The limiter calls out to Redis through the interface Redis.
-- A workflow is saved only with a graph that safeParseWorkflowGraph accepts; its webhook triggers get
-- endpoints with encrypted secrets, and only active workflows are scheduled and run.
-- A login reads the user's row, asks verifyPassword, and with MFA enabled decrypts the secret under the
-- organization's key and asks verifyTotpCode, or uses up a recovery code; a password's reset revokes
-- the rows of the sessions that resolveLiveSession reads.
-- The scheduler registers one job scheduler with the queue for each schedule trigger of an active
-- workflow; each job that one of them makes reaches processJob, which reads the workflow from the
-- job's data or name and calls executeWorkflowRun.
-- A job of the queue is carried out by executeWorkflowRun, which looks for an earlier run of the same
-- execution id, creates a row, calls runWorkflow and records the end. Rows are read and written
-- through the interface Table, whose laws say what each of Prisma's methods does to the list of rows.
-- A webhook's delivery is checked by verifyWebhookSignature before it becomes a job.
-- An exception is a value: an Option of a failure beside the state that it leaves, or a Result.
--
-- Bounds and fuel. Kahn's algorithm takes one unit of fuel for each node, and the walk from
-- the trigger one for each edge and one for its start; Graph.Sorting.topo_sort_total says that
-- neither ever runs out. The loop over attempts is a recursion on the attempts that are left. Tokens
-- are counted in units of 1/60000, in which the refill of the limiter's script is exact; its floating
-- point arithmetic in Lua is not modelled. Redis lets a key expire by its server's clock, which may
-- differ from the caller's. The arithmetic of doubles on the times of one-time passwords is a parameter
-- that is exact below a bound (Totp.Doubles). Numbers of a payload are a parameter.
--
-- Not modelled: the step logs that are streamed while a run goes on; the metadata of audit entries;
-- plain queries for the dashboard; the parsing by zod and the limits it checks on single fields;
-- the key __proto__ in a path; the dashboard; the connections to Redis, BullMQ and PostgreSQL; the primitives of
-- cryptography; the dispatchers, which call outside services.
mod Prelude
pub mod RateLimit
pub mod Json
pub mod JsonPath
pub mod Workflow
pub mod Graph
pub mod Runner
pub mod Database
pub mod Sessions
pub mod Signature
pub mod Invitations
pub mod Schema
pub mod Execute
pub mod Schedules
pub mod Worker
pub mod Passwords
pub mod Totp
pub mod Secrets
pub mod Accounts
pub mod Repository
pub mod Credentials
