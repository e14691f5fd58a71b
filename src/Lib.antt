-- ===== src/Lib.antt =====
-- Zoo runs sandboxes for AI agents; this library models the API server of it (apps/server).
--
-- Base holds what the parts share: Boolean tests on the native numbers, lists, the interface of
-- types with a decided equality, and Python's dict as an association list in insertion order.
--
-- Limits is apps/server/limits.py, the sliding-window rate limits. Times are whole ticks of
-- time.monotonic(), a number of ticks to the second being a constant of the model; Limits/Window
-- counts what a window holds, Limits/Spec relates the object to a log that forgets nothing,
-- Limits/Bound and Limits/Retry state what clients see.
--
-- Jobs is apps/server/jobs.py, the persistent queue of lifecycle work, with the statements of
-- db/generated/query.py on the jobs table (Jobs/Table). Jobs/Queue has the methods that enqueue,
-- claim, run and settle a job, Jobs/Loop the sweeps and loops. A handler is given: what its run
-- does to the system and how it ends. Jobs/Threads interleaves the critical sections of the
-- threads of one process, and the deletion of sandboxes, which takes their jobs with it, as steps
-- of a relation; a thread stands before or behind the section that settles its run. Jobs/Closed
-- and Jobs/Inversion carry the proofs about sections, and Jobs/Attempts, Flight, History, Sweeps,
-- Expiry and Retry state what holds. drain is the loop of the source on fuel, with none where the
-- fuel runs out. What is left out: logging, metrics, the event that wakes the loop, and failures
-- of the database itself.
--
-- Labels is apps/server/labels.py, the labels of sandboxes and the selectors of API keys, with
-- the statements on the two label tables. Labels/Keys reads the pattern of keys, Labels/Scope
-- says what a selector asks and what scoped grants, Labels/Rows what put leaves to read and
-- Labels/Filters what parse_filters reads. Not modelled: parse_selector, which is a call of the
-- json library, and of_workspace, a join with the table of sandboxes.
--
-- Cache is apps/server/cache.py, the cache of request lookups. get is cut where it awaits its
-- loader: begin comes before, finish behind. Cache/Runs interleaves lookups, commits of the
-- database, notifications and the listener's connection as steps of a relation. A commit may
-- change what the database holds for any keys and send any notifications; the keys whose old
-- value none of its notifications reaches are recorded with the database as unannounced, since
-- the triggers of db/migrations do not notify every change of what the caches hold. Cache/Cases,
-- Coherent and Steps carry the proofs, Cache/Fresh states what lookups get, Cache/Bound how many
-- entries there are. The values, and the workspace that a value names, are parameters. Left out:
-- the retries of connect and logging.
--
-- Leases is apps/server/workers.py, the leases under which processes do singleton work. The clock
-- of the database and those of the processes are taken for one. Leases/Rows has what hold and
-- release do to a row, Leases/Exclusive interleaves the processes as steps of a relation that
-- also keeps what each of them believes. ROLE, works and WORKER_ID are configuration.
--
-- Tickets is apps/server/tickets.py, the single-use tickets of websocket URLs, with the
-- statements on their table. The hash and the fresh ticket are parameters; Tickets/Single says
-- how often and for what a ticket works.
--
-- Pages is apps/server/pages.py, cursor pagination, with the statements that select a page.
-- Pages/Cursor reads cursors back, Pages/Table has the rows before a cursor, Pages/Collect says
-- what the loop of collect returns for any way of fetching, Pages/Walk follows the cursors and
-- Pages/Cover joins them. The loop is on fuel, one unit for each batch; more fuel than rows is
-- enough, since each further batch is shorter by at least one row.
--
-- Quotas is apps/server/quotas.py and sizes.py: what a workspace and the sandboxes with one label
-- value may use, with the statements that measure it. Quotas/Sums follows the sums as rows come
-- and change, Quotas/Bounds and Quotas/Admitted follow usage behind a check, and Quotas/Refusals
-- reads refusals.
--
-- Sandboxes is the part of apps/server/sandbox_api.py that starts, stops, deletes, upgrades,
-- relabels, moves and creates sandboxes and keeps their snapshots; it joins Quotas, Labels and
-- Jobs. A request is one session of the database, which is committed or rolled back.
-- Sandboxes/Create and Sandboxes/Snapshots have routes of their own, Sandboxes/Serving a run of
-- requests. Sandboxes/Requests says what a request that returned went through, Sandboxes/Queued
-- counts queued jobs, Sandboxes/Kept what each route keeps, Sandboxes/Order and Sandboxes/Limits
-- state what holds. Creation is modelled where no pooled sandbox is claimed; what it refuses for
-- the role, the image, the kind, the size, the placement, the profiles and the secrets is a
-- parameter, and so is what the JSON of a sandbox's configuration says.
--
-- Writer is apps/server/writer.py, the queue of log entries. Writer/Statements has the statements
-- of persist on the tables that they change, Writer/Totals what they add to usage, Writer/Pending
-- interleaves threads that put entries with the batches as steps of a relation, and Writer/Close
-- follows the batches of close, on fuel: a batch takes at least one entry, so that more fuel than
-- entries is enough.
--
-- Idempotency is apps/server/idempotency.py, the keys under which a POST runs once, with its
-- statements. A request is cut where the application runs. Idempotency/Keys has what the
-- statements do to rows, Idempotency/Alone interleaves requests as steps of a relation, and
-- Idempotency/Replay follows a response that is kept.
--
-- Errors is apps/server/errors.py, the error format of the API: its tables, the code of an
-- exception and the handlers. Errors/Known states what every answer keeps.
--
-- Webhooks is the delivery loop of apps/server/webhooks.py, with its statements. Webhooks/Claims
-- has the rows that a claim takes, Webhooks/Sending interleaves workers as steps of a relation,
-- and Webhooks/Exclusive states what they keep.
--
-- Pool is apps/server/pool.py, the warm pool, with its statements. Pool/Demand has what recent
-- creates ask for, Pool/Filling what a refill discards and starts, Pool/Entries draining and the
-- status. Pool/Steps interleaves claims, boots and refills as steps of a relation; Pool/Rows and
-- Pool/Kept carry the proofs, Pool/Single states who gets a sandbox, and Pool/Counts and
-- Pool/Sized how many a refill starts.
--
-- Events is apps/server/events.py, the events of a workspace in pages and as a stream, with its
-- statements. Events/Sorted has tables in the order of seq, Events/Seen what a member may see,
-- Events/Sent what the frames of a stream keep, Events/Rounds and Events/Turns a turn of its
-- loop, and Events/Stream interleaves the turns with transactions that commit events out of
-- order.
pub mod Base
pub mod Jobs
pub mod Leases
pub mod Tickets
pub mod Limits
pub mod Labels
pub mod Quotas
pub mod Sandboxes
pub mod Idempotency
pub mod Cache
pub mod Pages
pub mod Errors
pub mod Writer
pub mod Pool
pub mod Events
pub mod Webhooks
