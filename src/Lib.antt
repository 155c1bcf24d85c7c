-- ===== src/Lib.antt =====
-- A verification library for the inference server kir-ai: models of the parts that decide who is
-- served, when, and from which cache blocks, and the theorems that make them correct.
--
-- A request comes into crates/llm-server. The rate limiter decides by client whether it goes on;
-- the scheduler of its model then gives it a slot at once, or a ticket in one of two queues,
-- prefill and decode; a prefill may give its slot up between chunks. The tokens that are computed
-- are kept in the paged cache of crates/llm-kv-cache, whose pool shares blocks among sessions. The
-- parts meet only in the requests that pass through them, and each keeps its state under one lock,
-- so each is modelled alone, with its history as a list of the operations that take the lock.
--
-- Files:
--   Prelude: tests on numbers, lists, options, 64-bit words, and maps with numbers for keys.
--   Scheduler, for crates/llm-server/src/engine/scheduler.rs: State is ModelSchedulerState;
--     Permit and Ticket are SchedulerPermit and QueuedSchedulerTicket with their drops;
--     Admission holds the methods of ModelScheduler that lock the state once; Acquire has the
--     asynchronous acquire and yield_prefill_chunk, cut at each await; World interleaves any
--     number of callers by events (request, poll, wake, abandon, yield, begin_decode, finish).
--     Estimate and Prompt are the estimated tokens, by which a request is classified; Digits and
--     Volume are about them. Invariant relates the counters and queues to the callers, and
--     Capacity, Fairness and Order use it.
--   RateLimit, for crates/llm-server/src/engine/rate_limit.rs: Key, Log, Buckets and Limiter are
--     PublicInferenceClientKey, ClientRequestLog, the map of logs, and acquire_at with its
--     cleanup; History, Bound and Retry compare the limiter with all requests that were
--     accepted.
--   KvCache, for crates/llm-kv-cache/src: Block and Contents are block_id.rs and block.rs;
--     Table is block_table.rs; Pool, Sessions, Eviction, CopyOnWrite and Prefixes are
--     block_pool.rs; Budget is KvCacheBudget of lib.rs; History has the operations of the pool
--     as commands. FreeList, Keyed, Tokens, Prefixes.Lookup, Prefixes.Registered and
--     Eviction.Ends hold the proofs.
--   Json has the values of serde_json, and texts.
--   Api, for crates/llm-api/src: Error and Types are the errors and requests; Checks is
--     limits.rs and the checks of one value; Messages and Tools are the rest of
--     validation/helpers.rs, and Request is validation.rs. Size is its JsonByteCounter.
--     Messages.Dialogue says what a dialogue is and Messages.Sized which sizes and names are
--     allowed, apart from the code; Messages.Sound, Messages.Complete, Size.Exact, Tools.Depth
--     and Request.Served hold the proofs. The scheduler's Prompt reads the same requests.
--   Runtime, for crates/llm-runtime/src: Stop is stop.rs; Usage holds the counts, reasons and the
--     check of progress; Completion is complete_text of completions.rs and
--     streaming_completion_stream of streaming.rs. Completion.Collect is a client that reads the
--     stream, Reading what the stream has read by the end; Ending, Rounds, Loop and Equal
--     compare the two, and Validated does so for a request that Api has checked.
--   Hub, for crates/llm-hub/src: Prune is prune_plan of prune.rs, on the snapshots and aliases
--     that the store reads from disk. Prune.Sorted, Prune.Groups, Prune.Ranked, Prune.Firsts,
--     Prune.Safe and Prune.Reasons hold the lemmas on sorting, groups and reasons; Prune.Kept,
--     Prune.Exact and Prune.Parts are about its plans.
--   Tests: runs of the models, and each theorem at an input.
--
-- Conventions. A method that changes its object takes the object last and returns it after. `u64`
-- and `usize` have 64 bits: `+` wraps at 2 ^ 64 as in a release build, and saturating_add and
-- saturating_sub are written so. Theorems on counters bound the number of events below 2 ^ 64. An
-- instant is a number of nanoseconds, given as an argument where the source reads a clock. A
-- HashMap is an association list, whose order is that of a walk, and a HashSet is a list; no
-- theorem depends on the order. A cancellation token is read as a Boolean wherever the code reads
-- it. A CacheBlockHash is its 32 bytes as one number, and an f32 its bit pattern, since the cache
-- only copies and compares them; a sampling control is its sign and the other bits, which order
-- it. A path of the hub is a number by its order. The message of an API error is a constructor
-- with what the text shows. The strong count of an Arc of storage is a field of the block. Fuel is
-- given to four loops: the eviction loop of the pool has the number of sessions, one of which
-- leaves in each round that goes on, and decimal_digits has 19 rounds, since a 64-bit number has
-- 20 digits at most; the byte counter has one round for each frame, and the check of a schema one
-- for each level up to the limit and one more. A text is the list of its characters, and a JSON
-- number what serde_json answers of it. A poisoned lock of the pool is recovered with its state,
-- and is not told apart.
--
-- In the commands of the pool, the reference that block_mut gives is used to append a token or
-- to set the content hash; that a caller clears the block or changes its reference count through
-- it is left out.
--
-- In the scheduler a step runs from one await to the next, so that the sections of the lock in
-- it are one: try_acquire_immediate and enqueue are, and so are the admission and the drop of
-- its ticket. The notifications are left out: a round of the loop of acquire may come at any
-- time, also where no notify_waiters wakes the task, so nothing follows on when a waiting call
-- is admitted.
--
-- Not modelled: notify_waiters, SharedSchedulerPermit, and the snapshots and metrics that are
-- only reported; the retained storage of blocks; the layers of the cache and their quantised
-- formats; the chat completions and their stream, tool calls, the tool parsers, and the rest of
-- the model hub; the HTTP routers, the command line and the bridges, which are input and output;
-- the numeric kernels, the sampler and the Metal code, which compute with floating point; and
-- the tokenizer and chat template, which call libraries.
mod Prelude
pub mod Scheduler
pub mod RateLimit
pub mod Json
pub mod Api
pub mod KvCache
pub mod Hub
pub mod Runtime
mod Tests
