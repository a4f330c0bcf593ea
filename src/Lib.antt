-- ===== src/Lib.antt =====
-- A verification library of the TypeScript parts of Rochallor Engine, a workflow engine with an
-- editor for workflow definitions (workflow-modeller), a monitor, and libraries for workers.
--
-- The program's parts. A workflow definition is a JSON document: steps of nine types that name
-- each other by id. The modeller's store (workflow-modeller/src/store/workflowStore.ts) holds one
-- definition, its drawing and what the validator (domain/validate.ts) says of it; its actions add,
-- rename and delete steps, import and export definitions (io) and exchange them with the engine.
-- The engine hands the jobs of running steps to workers. A worker of the Node library
-- (workflow-sdk-node/src) runs a registered handler and delivers its outcome, with retries, to the
-- engine.
--
-- The files and what they model:
--   Base: lists, strings, maps as association lists, tests; Base/Text has the string functions of
--     the language (equality, trim, UTF-16 length, decimal notation).
--   Modeller/Types: workflow-modeller/src/domain/types.ts and schema.ts.
--   Modeller/Graph: domain/graph.ts (toNodes, toEdges, indexSteps).
--   Modeller/Validate: domain/validate.ts. Its children hold the checks: Format (ids, names, types),
--     Shape (checkStepVariantShape), Duration (the duration pattern), Refs (references, boundary
--     events, joins), Expressions, Outgoing (outgoingTargets, allOutgoing), Walk (the worklist loop
--     that two checks share), Reach (checkReachability, checkNestedParallel), Cycle
--     (checkGraphCycle), Unknown (checkUnknownFields). Validate/Laws puts the checks together.
--   Modeller/Expression: domain/expression/parser.ts and lint.ts.
--   Modeller/Rename: domain/rename.ts.
--   Modeller/Store: store/workflowStore.ts. State (the state), Scrub (scrubRefs), NewStep
--     (uniqueStepId, newStep), Actions (the actions, each a function from a state to the next),
--     Editing (sessions of actions that change the steps, as a step relation).
--   Modeller/Io: io/drafts.ts, io/import.ts, io/export.ts, and extractEmbeddedModeller of the store.
--   Modeller/References: panels/DeleteStepDialog.tsx (findReferences, rewriteRefs), and its button
--     that replaces and deletes (Dialog).
--   Sdk/Backoff: workflow-sdk-node/src/retry/backoff.ts.
--   Sdk/Dedup: runner/deduplication_cache.ts.
--   Sdk/Registry: handler/registry.ts.
--   Sdk/Callback: runner/callback.ts.
--   Sdk/Heartbeat: runner/heartbeat.ts, the renewal of a lease.
--   Sdk/Runner: runner/runner.ts, the settings, the poll loop, and what it does with a job.
--   Sdk/Kafka: runner/kafka_runner.ts, the consumer of one topic.
-- The monitor's back end, workflow-monitor-bff/src:
--   Monitor/Request: common/utils/utc-timestamp.ts, and what the queries share.
--   Monitor/Sql, Monitor/Paging: the building of conditions with placeholders, and of pages.
--   Monitor/Instances (Cursor, Query): modules/process-instances/process-instance.queries.ts, the
--     list of process instances with its filters and cursors.
--   Monitor/Executions: listStepExecutions of process-instance.queries.ts, the history of one
--     instance.
--   Monitor/Incidents: modules/incidents/incident.queries.ts, the list of incidents and one of them.
--   Monitor/Detail: detail of process-instance.queries.ts, one instance in a transaction.
--   Monitor/Variables: modules/process-variables/process-variable.queries.ts.
--   Monitor/Overview (Steps): modules/overview/overview.queries.ts.
--   Monitor/Context: modules/process-instances/execution-context.ts.
-- Modeller/Samples and Monitor/Samples hold a sample definition and a sample platform, and the
-- modules called Tests (with Modeller/Tests/* and Monitor/Tests/*) apply the theorems at concrete
-- inputs.
--
-- Conventions. A field of the source has its name in snake case. Diagnostics are returned in the
-- order in which the source pushes them. An object with string keys is the list of its entries in
-- the order of enumeration, and a Map or Set is a list as well; that integer-like keys are
-- enumerated first by the language is not represented. Keys that the schema passes through stand in
-- `extras`, behind the known ones. A JSON number is kept as its text, since the modelled code only
-- looks at its type and whether it is 0. An exception is a constructor of a result type (`thrown`)
-- or `none`.
--
-- What is an argument. The generated expression parser (domain/expression/parser.generated.ts) is
-- the function `parse`; JSON.parse with the zod schema is a function from texts to decoded
-- definitions, so a definition whose step types the schema refuses is not represented; JSON.stringify,
-- Date.now, the ids of new drafts and localStorage are arguments too. The drafts assume of
-- localStorage and JSON what the record IsLawful of Modeller/Io/Drafts/Laws states. Math.random is a
-- fraction draw / scale, and the delay is computed exactly, where the source uses floating point. The
-- engine's answers, the state of the abort signal and the draws of a delivery are a list of attempts;
-- a delivery that has used them all is still pending. The counters of a delivery are those under its
-- own labels.
--
-- The runners are functions on a state and an event, where an event is what runs between two awaits:
-- a callback of the Kafka client or of a timer, or the end of a call. A run is a list of events, so a
-- theorem about all lists is one about all interleavings. Abort controllers and promises are numbers.
-- The clock is an argument of each event. Decoding a Kafka record and parsing its payload are
-- arguments. The expiry timer of a heartbeat is an abort that counts a lost lease.
--
-- The SQL of the monitor is read, not parsed: the text of a condition is a constructor of a data type
-- with the numbers of its placeholders, whose meaning is written down once, and the rows of a table
-- stand in the order of the statement's ORDER BY. `new Date`, `Number`, `toISOString`, the database's
-- cast of texts to timestamps, the digest and the encoding of cursors are the record Platform of
-- Monitor/Request, and IsPlatform states what the code relies on. The columns of the database hold
-- microseconds, a Date milliseconds. A transaction reads one snapshot, and each call of the client
-- fails or not as a function of its place says.
--
-- Bounds and fuel. The worklist loop runs on as many rounds as there are ids on the stack at the
-- start and edges in the graph, since a round takes one id off and opens the edges of a step that
-- was not visited (see Validate/Walk/Ends). The cycle search recurses at most as deep as there are
-- steps, since each call paints a white step gray (see Validate/Cycle/Descent). The search for a
-- free id tries as many numbers as there are steps, since one of one more is free. The decimal
-- notation of n has at most n + 1 digits. A reader of all pages is given one page more than there are
-- items.
--
-- Not modelled: React components, the canvas and the layout library, the persistence and undo
-- middleware, the HTTP client of the engine, the user interface of the monitor, the transports of
-- the worker library, the logging of the runners, the metrics but for those named, the joins of the
-- rebalance callback with a commit under way, the timeout of a shutdown, and everything in other
-- languages.
pub mod Base
pub mod Modeller
pub mod Monitor
pub mod Sdk
