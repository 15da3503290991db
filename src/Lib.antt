-- ===== src/Lib.antt =====
-- OpenSynapse: a load-testing control plane that starts k6 instances, steers them while they run,
-- and aggregates what they measure. This library models the engine of the control plane, its accounts
-- and access control, its compiler, plans, WebSocket server and request security, and parts of its
-- runs API (apps/control-plane/internal), as well as the output
-- extension of k6 that reports to it (apps/k6-output), and proves what they promise.
--
-- Parts and how they interact:
-- - Engine.Schedule (engine/schedule.go): load schedules and the hard time bound of a run.
-- - Engine.Process (engine/engine.go): `RunProcess` is runProcess; `tick` is what a round of `loop`
--   does to it (driveSchedule, then enforceDeadline); `patch_status`, `apply_vus` and `request_stop`
--   talk to the k6 instances, whose REST APIs are the parameter `Backend` and see the calls made so
--   far and the moments gone by. Process.Control holds the methods of a live run (SetVUs, SetPaused, SetDuration and so on)
--   and Process.Events puts all of them into one step function. Process.Frames says what each of
--   them leaves alone; Invariant, Clock, Stop, Manual and Deadline are named for what they prove.
-- - Engine.Outcome (engine/engine.go): combineExitCodes, failureMessage, the switch of complete.
-- - Engine.Histogram (engine/histogram.go): the log-bucketed histogram and the percentiles.
-- - Engine.Instances and Engine.Errors (engine/aggregator.go): the VU counts and the progress of the
--   instances, with watermark and emitUpTo, and the error log.
-- - Engine.Aggregator (engine/aggregator.go, engine/ingest.go): what the samples of a run add up to.
--   Samples counts the lines of k6's JSON output, Batches merges those of cluster workers, Emission
--   publishes a point per second; Streams, Bounds and Watermark are about any sequence of them, and
--   Balance, Conservation and Limits hold their lemmas.
-- - Engine.Registry (engine/engine.go): `Engine`, the map of active runs, and its methods.
-- - Auth.Users (db/users.go, db/auth.go): users, sessions and API tokens as tables.
-- - Auth.Access (auth/auth.go): authentication, the roles that routes require, and the middleware,
--   which asks Auth.Users for the user of a token.
-- - Runs.Control and Runs.Parameters (handlers/runs.go): the handlers Control, Stop and Kill, which
--   call the engine's methods through Engine.Registry, and validateParameters.
-- - K6Output (apps/k6-output/output.go): the output extension of k6, which folds samples into batches
--   and posts them. Sending is flush, Stop and sendLocked; Wire is the JSON shape of a batch; Counts,
--   Merged, Ingested and SameCounts compare a batch that is merged with lines that are ingested, and
--   Delivery is about any sequence of flushes.
-- - Runs.Start (handlers/runs.go): the handler Start, from the request to the run in the engine and its
--   row; it asks the compiler for the profile and the engine to start. Spec and Outcome are its laws.
-- - Compiler (compiler/compiler.go): Quoting is how text of a plan gets into the JavaScript of a script,
--   with Literals, Templates and References on how JavaScript reads it back and Names on identifiers;
--   Profiles is profileFor, applyNativeOverrides and the managed branch of emitScenario; Scenarios is
--   the choice of the managed scenario and the keys of all of them.
-- - Httpx (httpx/security.go): the hosts and origins that may send requests; its middleware stands before
--   that of Auth.Access.
-- - WsServer (wsserver/wsserver.go): one client's connection; History compares it with what the client
--   sent before.
-- - Plans (db/plans.go): plans and their versions; Versions is about any calls one after the other, Race
--   about two updates at once, and Listing is List.
-- - Runs.Store (db/runs.go): the status of the runs in the database.
-- - Prelude: shared names, Boolean tests, lists, signed integers, association lists.
-- - Float64: Go's float64 as a type with operations and IEEE 754 facts, a parameter throughout.
-- - Examples: concrete inputs and the theorems at them.
--
-- Times are integers of nanoseconds (time.Duration and time.Time), or seconds where the code uses
-- Unix seconds. Where a request can make an int64 overflow, in SetDuration, validateParameters
-- and the compiler's profiles, products and sums wrap (`wrap64`); the other sums of times and counts are not wrapped. Goroutines
-- are sequences of steps, each of which is one call of a method: what happens while a method waits
-- for a k6 instance is not split further, but for a round of the schedule in Engine.Process.Manual and
-- the deletion of users in Auth.Users.Admins, where it matters. Recursion is structural; the loop of snapshots runs for
-- `rounds` seconds, the number of iterations that the code makes.
--
-- Not modelled: JSON decoding, the raw sample archive, subprocesses and Kubernetes (the backends),
-- password hashing, reading HTTP headers, the summary of a run, and the other components of the
-- control plane (other handlers, the emission of the compiler's single node types, crawler, importer,
-- statistics, stores of other data). Go's parsers of durations, k6's JSON output and JavaScript itself
-- are not part of the repository: parameters, or a reader written after ECMA-262.
mod Prelude
pub mod Float64
pub mod Engine
pub mod Auth
pub mod Runs
pub mod K6Output
pub mod Compiler
pub mod WsServer
pub mod Httpx
pub mod Plans
mod Examples
