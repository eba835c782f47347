-- ===== src/Lib.antt =====
-- Circus, a continuous integration server for Nix, in the parts that decide what is built, where and
-- when. The server stores projects, jobsets, evaluations and builds in PostgreSQL; the evaluator adds
-- builds; the queue runner takes the pending builds of each cycle and either ends them at once, leaves
-- them pending, or gives them to a venue: a connected agent, an SSH builder or its own host.
--
-- The files, and the code that they are about (paths from the repository's root):
--   Types, Types/*: crates/types/src/lib.rs. One file for each enum: `as_str` and `FromStr`, whose arms
--     are tried in order.
--   Models, Models/*: crates/common/src/models.rs. The enums of the database columns, `BuildStatus`
--     with its codes and classes, `PaginationParams`, and the columns of `Build`, `Evaluation` and
--     `Jobset` that the queue runner reads.
--   Rpc/Slots: crates/queue-runner/src/rpc/pool.rs, `AgentMeta::try_acquire_slot` and the `Drop` of
--     `SlotGuard` as steps of contending tasks on one atomic counter; a schedule is any list of steps.
--   Rpc/Agent, Rpc/Pool: the same file. An `Arc<AgentMeta>` is a handle into a heap, so that two pool
--     entries, commands and guards may share an agent; `AgentPool` maps machines to handles.
--   Dispatch/Capacity, Dispatch/Trust, Dispatch/Select, Dispatch/Venue, Dispatch/Caps:
--     crates/queue-runner/src/dispatch.rs, caps.rs and psi.rs. `select_and_reserve_agent` is a chain of
--     filters, a stable sort and the first successful reservation; `reserve_venue` falls back on the
--     runner's host and the SSH builders.
--   RunnerLoop, RunnerLoop/*: crates/queue-runner/src/runner_loop.rs. Each stage of the loop's body
--     returns the effects with which it ends the body, or passes the build on; a cycle carries the
--     cache of fixed outputs from build to build.
--   Builds, Builds/*: crates/common/src/repo/builds.rs and queries/builds.sql. The table is the list of
--     its rows, and each query one step on it. `start` is given the snapshot that it reads and whether
--     the advisory lock and the row are free; Builds/Starts has the steps of which that statement is made
--     (snapshot, locks, commit or failure), taken by sessions that contend.
--   Worker, Worker/*: crates/queue-runner/src/worker.rs, features.rs and dispatch.rs, `run_on_agent`.
--     `run_build` returns its result, the table and its other effects in order; Worker/Features has the
--     features that a build is scheduled on, Worker/Execute runs the build on its venue, Worker/Outputs
--     names, signs and pushes the outputs, and Worker/Record records the outcome. Worker/Run/Verdict has
--     the abstract view of a row that a run refines. Between the start of the build and its outcome,
--     others may change the table in any way (`meanwhile`).
--   Rpc/LogSink: crates/queue-runner/src/rpc/log_sink.rs. `write` and `close` on the state behind the
--     mutex, with the contents of the log file.
--   Rpc/ResultSink: crates/queue-runner/src/rpc/result_sink.rs and server.rs, `dispatch_one`: the reports
--     of an agent, and what becomes of the first.
--   Rpc/OutputSink: crates/queue-runner/src/rpc/output_sink.rs. The calls on the state behind the mutex,
--     with the inputs that the import is given.
--   Rpc/UploadVerify: crates/queue-runner/src/rpc/upload_verify.rs. The loop over the reads of an upload, and
--     the checks of what was declared; digests and their texts are parameters.
--   Server/Permissions: crates/server/src/permissions.rs.
--   Evaluator/Claim: crates/evaluator/src/evaluation_state.rs and queries/evaluations.sql. The calls of
--     `claim_existing` by several evaluators are phases; each query is a step on the shared row.
--   Evaluator/Graph, Evaluator/JobName, Evaluator/Edges, Evaluator/Describe, Evaluator/Create,
--     Evaluator/Inputs: crates/evaluator/src/builds.rs and what it calls of crates/common/src/repo. The jobs of an
--     evaluation are expanded by the derivations below them, and their builds and edges are created in
--     one transaction on the same table of builds.
--   Systems: crates/common/src/systems.rs.
--   Nix/StorePath, Nix/NixHash, Nix/Base32, Nix/Expression: crates/nix/src/store.rs, base32.rs and
--     validate.rs, on texts as lists of bytes.
--   Glob: crates/common/src/glob.rs, on the bytes of the texts.
--   Common, Common/*: what the parts share: Boolean tests, lists, texts, integers, stable insertion
--     sort for `sort_by`, and the operations of floats that the scheduler uses.
--   Tests, Tests/*: concrete runs.
--
-- Numbers are natural numbers. A `u32` that can wrap has its modulus written out; `saturating_add`
-- and `clamp` have their bounds; an `i64` that can be negative is an integer. A `Uuid` is the
-- number that its bits spell. Recursion is on the lists at hand, except that `expand_queued` has
-- fuel for one round more than the jobs and the derivations have inputs, each of which is queued
-- once at most, that `chunks` has fuel for one chunk for each path, that `cancel_cascade` has fuel
-- for two rounds more than there are rows to cancel, of which every round but one uses up at least
-- one, and that the index of an output is written with the twenty digits that a `usize` can have.
-- What the database, the nix commands and the clock answer is an argument, for every call at the
-- time that it is made; a float is a parameter of which nothing is assumed.
--
-- Not modelled: input and output around these decisions (RPC, HTTP, processes, the SQL of other tables),
-- the path and the arguments that a run passes to nix, the narinfos of a closure, the binary cache,
-- an adaptation of other libraries, and the parts of the program that are listed in the manifest.
pub mod Common
pub mod Types
pub mod Models
pub mod Builds
pub mod Dispatch
pub mod Evaluator
pub mod Glob
pub mod Nix
pub mod Rpc
pub mod RunnerLoop
pub mod Server
pub mod Systems
pub mod Worker
pub mod Tests
