-- ===== src/Lib.antt =====
-- Verification of funera, a Rust library for agents: a loop that streams answers of a language model,
-- runs the tools that it asks for, and keeps the conversation.
--
-- The parts, and the files that model them. A path is from the root of the repository; a definition
-- has the name of the function, method or type that it models.
--
-- * The ReAct loop, funera_core/src/re_act.rs. ReAct.Stream is `process_token_stream`, a fold of token
--   events into the text, the reasoning and the tool calls of a turn. ReAct.Finish is
--   `handle_turn_finish`, which sends the calls to the tool bus and gathers the answers. ReAct.Loop is
--   `ReActLoop::run` with `filter_and_store` and `emit_event`: a `Loop` is everything that the loop
--   writes to, a `Step` says whether an iteration goes on, stops or fails, and a `Turn` is what the
--   world does in one iteration: the watched values, the provider's answer, the tools' answers, and
--   the first check of the cancellation token that finds it fired. ReAct.Executor is the pool of
--   workers behind the tool bus, re_act/tool_executor.rs: a `Move` is a send, a receive, a poll of a
--   worker or the close of the queue, and a list of moves is an interleaving.
-- * The middleware, funera_core/src/middleware.rs: Middleware. The loop takes a chain and passes every
--   event through it before the event is stored or emitted.
-- * Messages and sessions, funera_core/src/chat/: Chat.Message and Chat.Session, the actor as a
--   function from its messages and a command to its messages and a reply.
-- * What the buses carry, funera_core/src/event_bus/: Events.
-- * The events of an agent, funera-orchestrate/src/event.rs: Orchestrate.Event, an instance of the
--   interface `MiddlewareEvent` over which the loop is written. Orchestrate.Turns puts the loop and
--   this instance together. Orchestrate.Response is response.rs and the aggregation of send_handle.rs,
--   Orchestrate.Agent the agent of agent.rs with the `wait` of its handles, and Orchestrate.Builder with
--   Builder.Runtime the `AgentRuntimeBuilder` of runtime.rs. Orchestrate.Runtime has the methods of the
--   `AgentRuntime` that it builds: a runtime is the environment, if its actor lives, with the commands that
--   the actor has not received. Orchestrate.Dispatcher is dispatcher.rs beside it, which forwards the
--   events of the environment and the approvals that the tools ask for.
-- * Tools, funera_core/src/re_act/tool.rs: Tool.Error and Tool.Registry. Dict is the map under them.
-- * The guarded registry, funera_core/src/security/: Security.Registry is its state and
--   Security.Registry.Call its `call_tool`, which asks Security.Policy and Security.Shell (policy.rs),
--   then Security.Boundary (boundary.rs) with Security.PathGuard (path_guard.rs) and Security.Sandbox
--   (sandbox.rs), then the user, and reports to the bus of Security.Audit (audit.rs). Security.Sandbox.Runner
--   runs a command under the capabilities of a policy (sandbox.rs), and Security.WinSandbox is the
--   sandbox on Windows (sandbox_win.rs), with the open handles as its state and every call that may fail
--   as an answer of Windows.
-- * The environment, funera_core/src/env.rs, env_actor.rs and re_act/skills.rs: Env.State with its
--   watch channels, Env.Build with the constructors, Env.Actor with the commands, Env.Watcher with
--   the reads of the loop, between which the actor may handle commands, Env.Disposers with the
--   teardown, Env.Skills with the registry of skills and Env.Skills.Load with the files that they are
--   read from.
-- * The providers, funera_core/src/provider.rs and provider/: Provider.Request and Provider.Merge build
--   the requests, Provider.Chunk reads the events off a chunk that ReAct.Stream folds.
-- * The built-in tools, funera_builtin_tools/src/: BuiltinTools.Hashline, Read, Edit and Write, over
--   what they use of `str` in BuiltinTools.Str; BuiltinTools.Shell runs commands by
--   Security.Sandbox.Runner, and BuiltinTools.Register is the crate's lib.rs.
--
-- Conventions. State is passed explicitly, and a handler gives the new state with its reply. An error
-- is a value of `Result`, a panic a constructor of its own. A watch channel is the value last sent, a
-- broadcast is the list of what was sent. Hash maps and sets are lists with no key twice. Sizes are
-- natural numbers; where the code subtracts with `saturating_sub` so does the model, and where it
-- underflows the model panics. Texts of errors are written out. The features `tool`, `skill`,
-- `security`, `sandbox` and `regex` are on; what differs without one is an argument (`Patterns`, and
-- `check_boundary_unfenced`).
--
-- Bounds and fuel. `run` recurses on the iterations that are left, which is the `max_iteration` of the
-- code, so no other fuel is needed. All other recursion is on a list or on a text.
--
-- Parameters, each a record or an argument of the definitions that use it: serde_json (`JsonOps`,
-- `Values`), serde_yaml (`from_yaml`), the regex crate (`Patterns`), floating point (`Floats`), the
-- file system (`FileSystem`, `Files`, `Disk`, `SkillFiles`), the processes of the operating system
-- and the nono crate (`Processes`, `Nono`), Windows (`TokenCalls`, `LaunchCalls`), the process
-- environment (`Surroundings`), the hash of twox-hash, the answers of the provider and of the tool
-- bus, the decimal print of a number. Clocks and fresh ids are fields of the call that reads them.
--
-- Not modelled: tokio's tasks and channels beyond the order of what they deliver, the HTTP clients of
-- the providers, secrets, the text of a Windows SID and the console mode, the variants of the
-- code without a feature; ids and timestamps of messages, which nothing reads. Inspectors, which the code
-- runs in tasks of their own, are run at once. The tools of a turn run concurrently; since `join_all`
-- keeps the order of the calls, their answers are a function of the call.
-- A tool whose future is never ready is told by `Call` in the guarded registry and by the moves of the
-- executor; in the loop a `Turn` gives the answers of the tools, so a turn that waits for a tool for
-- ever, or for a provider, is not modelled.
pub mod Prelude
pub mod Json
pub mod Chat
pub mod Events
pub mod Dict
pub mod Tool
pub mod Security
pub mod Env
pub mod Provider
pub mod BuiltinTools
pub mod Middleware
pub mod ReAct
pub mod Orchestrate
mod Tests
