-- ===== src/Lib.antt =====
-- A verification library of the MiniCode agent runtime, a Python runtime for chat agents.
--
-- The runtime. A message comes over a channel and the bus (bus/queue.py) to the agent.
-- agent/core/reasoner.py takes the history of the session (session/), asks a model, runs the tools
-- that the model calls, and asks again until it replies. agent/tools/registry.py keeps the tools
-- and finds them, agent/tool_hooks/ wraps every call of a tool in hooks, agent/provider_router.py
-- chooses the model, and agent/tools/checkpoint.py keeps files before tools change them.
-- agent/looping/consolidation.py archives the older messages of a session into the files of
-- agent/memory.py and a vector store. Beside the messages agent/scheduler.py fires timed jobs,
-- proactive_v2/ lets the agent speak unasked within a quota, memory2/ decides what is remembered,
-- and core/observe/stream_hub.py passes events on to those who watch.
--
-- The files.
--   Prelude: numbers, tests, lists, texts and Python's dict, shared by all parts.
--   ToolHooks: agent/tool_hooks/types.py and base.py. ToolHooks/Executor is
--     agent/tool_hooks/executor.py (`ToolExecutor.execute` as `execute`, its phases as
--     `run_pre_hooks` and `run_post_hooks`); RiskGuard and ShellRm are the two hooks of
--     agent/tool_hooks/builtin.py. A hook and the tool are functions of a world that may raise.
--   Tools: agent/tools/registry.py (Registry), agent/tools/search_backend.py (Search),
--     agent/tools/checkpoint.py (Checkpoint, on a map of files), and
--     `ToolDiscoveryState` of agent/core/runtime_support.py (Discovery).
--   Router: agent/provider_router.py; Router/Limits is about the token bucket, Router/Dispatch has
--     `_select`, `_record_cost` and `chat`, Fallback and Turns its order and its round robin.
--   Scheduler: agent/scheduler.py; Advance is `_advance_every`, Service the ticks, runs and
--     cancellations with their interleavings as the relation `Step`, Recovery `load_and_recover`.
--   Memory: memory2/dedup_decider.py, from the search for similar items to the verdict.
--   Proactive: Quota is proactive_v2/anyaction.py, `QuotaStore` and `AnyActionGate`; State is
--     proactive_v2/state.py, the tables of `ProactiveStateStore`.
--   Session: session/manager.py and session/store.py. History is `Session.get_history`, Store the
--     tables `sessions` and `messages` of `SessionStore` with its edits, Manager `SessionManager`
--     with its cache.
--   Agent: agent/core/reasoner.py with agent/tool_runtime.py. Agent/Reasoner is `run`: Calls one
--     tool call, Finish the texts and the ends, Loop the iterations; Protocol, Visible and Guarded
--     are about the messages, the visible tools and the hooks. Agent/Turn is `run_turn` with the
--     plans of agent/prompting/budget.py, and Retry the attempts. The messages of a session, the
--     registry, the discovery state and the hooks are those of the other files. Agent/Memory is
--     agent/memory.py, `MemoryStore`: Files has its plain reads and writes, Once and Settled are
--     about the appends under a reference, Pending about the snapshot of PENDING.md.
--     Agent/Consolidation is agent/looping/consolidation.py: the windows, Entries what is admitted
--     of an answer, Context and Snapshot RECENT_CONTEXT.md, Ports and Service `consolidate`, and
--     Runtime the manual trigger with `TurnScheduler` of agent/looping/ports.py. It takes the
--     sessions of Session and the files of Agent/Memory.
--   Policies: agent/policies/history_route.py, `HistoryRoutePolicy.decide`.
--   Bus: bus/queue.py, the queues between channels and agent, and the dispatch of replies.
--   Rag: agent/rag/chunker.py, on texts as lists of characters.
--   Streams: core/observe/stream_hub.py, with calls from other threads as scheduled steps.
--   Tests: samples, runs at concrete inputs, and the theorems at inputs that meet their hypotheses.
--
-- State and errors. An object that the code mutates is a record that a function takes and returns;
-- an exception is a value, beside the state that was reached. Between two awaits a task is one
-- step; `consolidate` is one step too, and what other coroutines do in the awaits of a manual
-- consolidation is an argument. Objects that the code shares (queues, the buckets of routes) are
-- numbers into a store.
--
-- Numbers. Instants and spans are natural numbers of the unit that a file names; floats appear as
-- integers in a unit fine enough to be exact (tokens of a bucket, prices) or as parameters.
--
-- Fuel. `advance_past` of Scheduler runs on fuel, `suc after` steps for an instant `after`: each
-- step adds a positive interval, so that many are enough. `iterate` of the reasoner runs over the
-- iterations that the settings allow, as the code does. All other loops are structural.
--
-- Parameters. APScheduler and `_next_cron_fire_fallback`, the quantile of the latencies, time
-- zones, clocks, the exponential and the random draws, shlex, the vector search, the model's
-- replies, and what the tool search uses of `str` and `re` are arguments of the definitions. So
-- are the model's provider and the sinks of a turn, the context builder, json, and the reading of
-- media files. The consolidation takes the replies of its models, their parsers, the memory port,
-- the digest, the changes of case and what its regular expressions find.
--
-- Files. A text file is a list of code points, or none while it does not exist; errors of the file
-- system and of sqlite are not modelled, a crash between a file and its index is.
--
-- Not modelled. Log messages; the passive turn around the reasoner and its context, the texts of
-- prompts, the sections of NOW.md, the facade before the consolidation, the filtered lists of
-- sessions and the full-text search, the channels, the bus events, MCP, sub-agents, retrieval, the
-- rest of memory2 and of proactive_v2, the dashboard and the start-up, which are other components;
-- `parse_duration`, `compute_fire_at`, `_next_cron_fire_fallback` and `_execute` of the scheduler.
pub mod Agent
pub mod Bus
pub mod Session
pub mod Prelude
pub mod ToolHooks
pub mod Memory
pub mod Proactive
pub mod Rag
pub mod Policies
pub mod Router
pub mod Scheduler
pub mod Streams
pub mod Tools
mod Tests
