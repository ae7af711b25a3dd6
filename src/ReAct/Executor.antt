-- ===== src/ReAct/Executor.antt =====
-- `ToolExecutor` of funera_core/src/re_act/tool_executor.rs and its command, event_bus/tool_bus.rs:
-- workers that take commands off one shared queue. What the runtime does is a sequence of moves; a
-- sender that waits for room in the queue sends when it finds it. A tool that panics is not modelled,
-- nor is a requester that has gone.
use funera.Prelude.{
  [], ◌∷◌, ◌++◌, true, false, none, some, zero, suc, List, Option, Bool, ℕ, String, if◌then◌else◌,
  max, get_elem?,
}
use funera.Events.{Result, err}
use funera.Tool.Error.{ToolCallError, tool_unavailable}
use funera.Security.Registry.{GuardedToolRegistry, set_react_bus}
use funera.Security.Registry.Call.{World, Call, call_tool}
pub mod Laws
pub mod Shutdown
pub mod Work
pub mod Ends

-- The one-shot sender is a number. The command's token is read where the worker is polled.
pub record ToolExecCommand (Json : Type 0) : Type 0 where
  pub resp_tx : ℕ
  pub call_id : String
  pub name : String
  pub args : Json
  pub react_bus : Bool

-- where a worker is in its loop: at `recv`, in the `select!`, or behind the `break`
pub data Worker (Json : Type 0) : Type 0 where
  waiting : Worker Json
  executing : ToolExecCommand Json → Worker Json
  ended : Worker Json

-- `closed`: the last sender of the queue is gone
pub record ToolExecutor (Json : Type 0) : Type 0 where
  pub exec_rx : List (ToolExecCommand Json)
  pub closed : Bool
  pub workers : List (Worker Json)
  pub answers : List (ℕ × Result String (ToolCallError Json))

-- A poll says which worker is polled, whether its token has fired, the registry of which it has the
-- snapshot, and what the call meets.
pub data Move (Json F64 : Type 0) : Type 0 where
  send : ToolExecCommand Json → Move Json F64
  close : Move Json F64
  receive : ℕ → Move Json F64
  poll : ℕ → Bool → GuardedToolRegistry Json F64 → Call Json → Move Json F64

module _ {Json : Type 0} where
  abbrev pub set_at : ℕ → Worker Json → List (Worker Json) → List (Worker Json)
  set_at i w [] = []
  set_at zero w (v ∷ ws) = w ∷ ws
  set_at (suc i) w (v ∷ ws) = v ∷ set_at i w ws

  abbrev pub replicate : ℕ → Worker Json → List (Worker Json)
  replicate zero w = []
  replicate (suc n) w = w ∷ replicate n w

  -- `for _ in 0..max_concurrent_tools.max(1)`
  unfoldable pub spawn : ℕ → ToolExecutor Json
  spawn max_concurrent_tools = record {
    exec_rx = [];
    closed = false;
    workers = replicate (max max_concurrent_tools 1) waiting;
    answers = [];
  }

  -- no sender is left to send over a closed queue
  abbrev pub enqueue : ToolExecCommand Json → ToolExecutor Json → ToolExecutor Json
  enqueue cmd s = if s.closed then s else record s { exec_rx = s.exec_rx ++ cmd ∷ [] }

  -- `recv().await` and `let Some(cmd) = cmd else { break }`
  unfoldable pub on_recv :
      ℕ → Option (Worker Json) → List (ToolExecCommand Json) → ToolExecutor Json → ToolExecutor Json
  on_recv i (some waiting) (cmd ∷ rest) s = record s {
    exec_rx = rest;
    workers = set_at i (executing cmd) s.workers;
  }
  on_recv i (some waiting) [] s =
      if s.closed then record s { workers = set_at i ended s.workers } else s
  on_recv i (some (executing cmd)) queue s = s
  on_recv i (some ended) queue s = s
  on_recv i none queue s = s

  -- the `select!`, biased to the token: nothing while neither branch is ready
  abbrev pub select :
      Bool
      → Option (Result String (ToolCallError Json))
      → Option (Result String (ToolCallError Json))
  select true completed = some (err (tool_unavailable "cancelled"))
  select false completed = completed

  -- `resp_tx.send(result)`, and the loop goes on
  unfoldable pub respond :
      ℕ
      → ToolExecCommand Json
      → Option (Result String (ToolCallError Json))
      → ToolExecutor Json
      → ToolExecutor Json
  respond i cmd none s = s
  respond i cmd (some result) s = record s {
    workers = set_at i waiting s.workers;
    answers = s.answers ++ (cmd.resp_tx, result) ∷ [];
  }

module _ {Json F64 : Type 0} (world : World Json F64) where
  -- no result: the call waits for the user or for its tool
  unfoldable pub execute_command :
      GuardedToolRegistry Json F64
      → Call Json
      → ToolExecCommand Json
      → Option (Result String (ToolCallError Json))
  execute_command registry call cmd =
      (call_tool world (set_react_bus cmd.react_bus registry)
        (record call { name = cmd.name; args = cmd.args })).result

  unfoldable pub on_poll :
      ℕ
      → Bool
      → GuardedToolRegistry Json F64
      → Call Json
      → Option (Worker Json)
      → ToolExecutor Json
      → ToolExecutor Json
  on_poll i cancelled registry call (some (executing cmd)) s =
      respond i cmd (select cancelled (execute_command registry call cmd)) s
  on_poll i cancelled registry call (some waiting) s = s
  on_poll i cancelled registry call (some ended) s = s
  on_poll i cancelled registry call none s = s

  abbrev pub step : Move Json F64 → ToolExecutor Json → ToolExecutor Json
  step (send cmd) s = enqueue cmd s
  step close s = record s { closed = true }
  step (receive i) s = on_recv i (get_elem? s.workers i) s.exec_rx s
  step (poll i cancelled registry call) s =
      on_poll i cancelled registry call (get_elem? s.workers i) s

  unfoldable pub run : List (Move Json F64) → ToolExecutor Json → ToolExecutor Json
  run [] s = s
  run (m ∷ ms) s = run ms (step m s)
