-- ===== src/Lib.antt =====
-- The parts of ai-model-arena that decide: how tasks are queued and retried, when a provider is cut
-- off, what a model may spend, and how a conversation with tools runs. A run is dispatched as tasks
-- on a queue after a budget is reserved for it; a task runs the turn loop, whose model calls go
-- through a circuit breaker and whose hooks check the budget; its costs are booked, and its
-- reservations released, at the end.
--
-- Common: shared names, Boolean tests, lists measured by native numbers, and the maps with text keys.
--
-- Queue (src/queue/in-memory.ts, src/queue/types.ts): the class InMemoryQueue as a record, each
-- method as a function of the time and the queue. A promise that dequeue returns is a ticket: it waits
-- in `waiters`, or is listed in `resolved` with its answer. The timer of a waiting promise is the
-- operation `expires`. `step` is one operation and `run` a history.
--
-- CircuitBreaker (src/providers/circuit-breaker.ts): the breaker's fields as a record; `exec` is one
-- whole call, its result given as an outcome; `enters` and `settles` are the two halves of a call, so
-- that calls overlap in any order. `for_model` and `cleanup` are the static methods on the map of
-- breakers.
--
-- Ledger and Budget (src/cost-tracking/budget.ts, src/cost-tracking/types.ts): the content of the
-- state file as a record. A time carries its milliseconds, its day key and its month key. Amounts are
-- natural numbers of one unit, where the program has floating-point dollars, and the program's
-- comparison of a percentage with the threshold is multiplied out: a limit of zero is exceeded by any
-- positive amount and, as 0 / 0 is no number, by no zero amount.
--
-- Chat, LoopState and TurnLoop (src/types.ts, src/agent-loop/turn-loop.ts): the messages, the options
-- and the state of the loop, and the loop itself. The model, the tools, the hooks and the hardening of
-- tool results are parameters of the model. The loop runs on the number of rounds left,
-- `max_turns + 1 - start_turn`, which is the number of turns that its condition allows, so this is no
-- fuel that can run out.
--
-- Compaction (src/agent-loop/loop.ts, compactMessages): the window of messages that an agent keeps in
-- its context. The outer loop runs on one unit of fuel for each message; a round that drops messages
-- is the last one that does, so this is enough.
--
-- Outbox (src/notifications/outbox.ts): the life of one row of the notifications table. Each UPDATE is a
-- function of the row, guarded by its WHERE clause; `deliver` is one row of a sweep, and `step` is one
-- UPDATE of any of the overlapping sweeps, each known by the time at which it started.
--
-- Pricing (src/cost-tracking/pricing.ts): the cost of one request and of a list of them. The catalog,
-- which the program reads from its database, is a parameter. A cost is in millionths of the price
-- unit, where the program divides floating-point numbers.
--
-- Access (src/auth/rbac.ts): the role gates as Boolean functions of the user's role, if there is a
-- user, and of the permissions of the key, if there is one.
--
-- Scheduler (src/scheduler/tick.ts, src/db/query/schedules.ts): one tick over the rows that are due,
-- with the states in memory. The cron parser, the JSON parser and the start of a run are parameters.
--
-- Fallback (src/providers/fallback.ts): the next target of a chain of models and the bound on hops.
--
-- Runs (src/db/query/runs.ts, src/db/runs.ts, src/orchestrator/finalize/aggregate.ts,
-- src/orchestrator/run-signals.ts): the rows that the database keeps of one run, and its cancel signal.
-- An UPDATE with its WHERE clause is one function, so that its test and its write are one step.
--
-- RunLifecycle (src/orchestrator/run-lifecycle.ts, src/dashboard-server/live.ts): registration, stop,
-- restart, the gate before a finalization and the recovery of dead runners. `Steps.step` is one update
-- or read by any of the processes and `Steps.run` a history of them, each with its time. A call that reads
-- the record and upserts all of it later (updateRun, registerRun) is two steps with any others in between,
-- so that it can write an old status back; the upsert of the run and those of its rows are one step. Where
-- the finalization or a restart is modelled by itself, nothing comes between its read and its upsert.
--
-- Finalize (src/orchestrator/finalize/aggregate.ts, src/orchestrator/run-lifecycle.ts,
-- src/db/query/costs.ts): the claim, the entries, the cost ledger, the release of the reservations and the
-- completion, over the tables of Runs and the budget of Budget. The result files are a parameter.
--
-- StartRun (src/orchestrator/run-lifecycle.ts): the start of a run, which uses Budget for its
-- reservations, Runs for its registration and Queue for its tasks, with a new in-memory queue in each
-- call, as createQueue of src/queue/index.ts makes it. The estimates, the paths and the hash
-- are parameters.
--
-- Runner (src/runner.ts, src/runner/limits.ts): what the worker's loop does to the tables and to the
-- queue for one task, for each of the ways in which its execution ends, the shutdown that abandons it
-- included.
--
-- RedisQueue (src/queue/redis.ts): the operations of the class over the commands of the server, which
-- are a record of parameters; RedisQueue.Laws states what is assumed of them and RedisQueue.Server has
-- an instance. RedisQueue.Contract is the contract that both queues keep, on bags of tasks.
-- `dequeue_loop` recurses on the rotations left before the cap of eight.
--
-- BudgetLock (src/cost-tracking/budget.ts, tryAcquireLock and releaseLock): the lock file between
-- processes that run at once. `step` is one call of the file system by one process, `run` a history of
-- them. A lock file's content always parses, and a failed call has no other effect.
--
-- RateLimit (src/dashboard-server/auth-api.ts): the in-memory rate limiter of the API keys and the timer
-- that prunes its counters. The limits of the keys are a parameter.
--
-- CharSets and RegexShape (src/tools/executors.ts, from complementCharSet to findCatastrophicRegexShape):
-- the guard of the code search against regular expressions that backtrack exponentially. CharSets has the
-- sets of UTF-16 code units with their complement, disjointness and case folding, whose case mappings are a
-- parameter. RegexShape.Syntax and RegexShape.Quantifiers read the pieces at an index, RegexShape.Group is the
-- state of an open group, and `RegexShape.step` one round of the scan. The scan and the loop over a class
-- run on one unit of fuel for each code unit, and each round moves on, so this is enough.
--
-- EditFile (src/tools/executors.ts, editFile): the single replacement and the replacement of all
-- occurrences in the content of a file.
--
-- Conversation (src/logger/conversation-parser.ts): the tool calls of a recorded conversation, and the
-- search for calls that repeat one after another, which the anomaly detection uses.
--
-- IpRanges (src/providers/ip-ranges.ts, src/providers/url-validator.ts): the guard against requests to
-- private addresses. IpRanges matches and normalizes addresses, IpRanges.Hosts has the host names, the
-- answers of the resolver and the two gates. Texts are lists of UTF-16 code units. The URL parser, the
-- resolver, trimming and the lower case are parameters.
--
-- Times are natural numbers of milliseconds. Keys of maps that the program keeps in plain objects are
-- compared as texts; the names that every JavaScript object inherits are not modelled.
--
-- Not modelled: the reading and writing of the budget's state file, the adapters of the
-- model services, the database library and the listings, the dashboard's routes, the sandbox and most
-- tools, which are input and output or calls of third-party libraries; the jobs after a finalization
-- (anomalies, judge, notifications), which write other tables; and the other detectors of anomalies.
pub mod Access
pub mod Budget
pub mod BudgetLock
pub mod CharSets
pub mod Chat
pub mod CircuitBreaker
pub mod Common
pub mod Compaction
pub mod Conversation
pub mod EditFile
pub mod Fallback
pub mod Finalize
pub mod IpRanges
pub mod Ledger
pub mod LoopState
pub mod Outbox
pub mod Pricing
pub mod Queue
pub mod RateLimit
pub mod RedisQueue
pub mod RegexShape
pub mod RunLifecycle
pub mod Runner
pub mod Runs
pub mod Scheduler
pub mod StartRun
pub mod TurnLoop
