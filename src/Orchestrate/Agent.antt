-- ===== src/Orchestrate/Agent.antt =====
-- `AgentBuilder` and `Agent` of funera-orchestrate/src/agent.rs, the handles of send_handle.rs, and
-- `FuneraSession::react_loop` of funera_core/src/chat/session.rs. What the spawned task does is done at
-- once; `wait` takes what the task's end and the receiver give it.
use funera.Prelude.{
  [], ◌∷◌, ◌++◌, true, false, none, some, if◌then◌else◌, List, Option, Bool, ℕ, String, map,
}
use mathlib.Core.Option
use funera.Json.{JsonOps}
use funera.Events.{Result, ok, err, FinishReason}
use funera.Chat.Message.{FuneraMessage, Role, MsgVariant}
use funera.Chat.Session.{push_messages, clear}
use funera.Chat.Session
use funera.Env.Actor.{EnvStateEvent, session_start, session_closed}
use funera.Middleware.{MiddlewareChain}
use funera.ReAct.Loop.{Loop, Turn, Wiring}
use funera.ReAct.Loop
use funera.Orchestrate.Event.{
  AgentEvent, agent_events, text, tool_call_request, tool_call_result, turn_start, turn_end, done,
}
use funera.Orchestrate.Dispatcher.{CallbackRegistry, Received, event, lagged, closed, dispatch}
use funera.Orchestrate.Dispatcher
use funera.Orchestrate.Response.{ChatResponse, aggregate_from_broadcast}
pub mod Laws
pub mod Prompt

pub record Agent (Json World : Type 0) : Type 0 where
  pub system_prompt : Option String
  pub callbacks : CallbackRegistry Json World

-- the builder has the same fields, and `build` passes them on
module _ {Json World : Type 0} where
  abbrev pub new : Agent Json World
  new = record { system_prompt = none; callbacks = [] }

  abbrev pub system_prompt : String → Agent Json World → Agent Json World
  system_prompt prompt a = record a { system_prompt = some prompt }

  abbrev pub on_event : (AgentEvent Json → World → World) → Agent Json World → Agent Json World
  on_event f a = record a { callbacks = Dispatcher.add f a.callbacks }

  abbrev pub if_text : (String → World → World) → AgentEvent Json → World → World
  if_text f (text t) world = f t world
  if_text f _ world = world

  abbrev pub on_token : (String → World → World) → Agent Json World → Agent Json World
  on_token f = on_event (if_text f)

  abbrev if_tool_call : (String → Json → World → World) → AgentEvent Json → World → World
  if_tool_call f (tool_call_request index call_id name args) world = f name args world
  if_tool_call f _ world = world

  abbrev pub on_tool_call : (String → Json → World → World) → Agent Json World → Agent Json World
  on_tool_call f = on_event (if_tool_call f)

  abbrev if_tool_result :
      (String → Result String String → World → World) → AgentEvent Json → World → World
  if_tool_result f (tool_call_result call_id name result) world = f name result world
  if_tool_result f _ world = world

  abbrev pub on_tool_result :
      (String → Result String String → World → World) → Agent Json World → Agent Json World
  on_tool_result f = on_event (if_tool_result f)

  abbrev if_turn_start : (World → World) → AgentEvent Json → World → World
  if_turn_start f turn_start world = f world
  if_turn_start f _ world = world

  abbrev pub on_turn_start : (World → World) → Agent Json World → Agent Json World
  on_turn_start f = on_event (if_turn_start f)

  abbrev if_turn_end : (World → World) → AgentEvent Json → World → World
  if_turn_end f (turn_end reason usage) world = f world
  if_turn_end f _ world = world

  abbrev pub on_turn_end : (World → World) → Agent Json World → Agent Json World
  on_turn_end f = on_event (if_turn_end f)

  -- the closure of `build_event_sender`: the callbacks, then the broadcast
  unfoldable pub build_event_sender :
      CallbackRegistry Json World
      → AgentEvent Json
      → World × List (AgentEvent Json)
      → World × List (AgentEvent Json)
  build_event_sender callbacks e (world, event_tx) =
      (dispatch callbacks e world, event_tx ++ e ∷ [])

module _ {Json : Type 0} where
  -- The task that feeds the stream of a call: `while let Ok(event)`, until `Done` has been passed on.
  unfoldable pub relay_broadcast_to_mpsc :
      List (Received (AgentEvent Json)) → List (AgentEvent Json)
  relay_broadcast_to_mpsc [] = []
  relay_broadcast_to_mpsc (event done ∷ rest) = done ∷ []
  relay_broadcast_to_mpsc (event e ∷ rest) = e ∷ relay_broadcast_to_mpsc rest
  relay_broadcast_to_mpsc (lagged ∷ rest) = []
  relay_broadcast_to_mpsc (closed ∷ rest) = []

  abbrev pub text_message : Role → String → FuneraMessage Json
  text_message role content = record {
    role = role;
    msg_variant = MsgVariant.text (record { text = content; reasoning_content = none });
  }

-- one call, and what the world does in it
pub record Call (Json : Type 0) : Type 0 where
  pub message : String
  pub max_iterations : ℕ
  pub middleware : Option (MiddlewareChain (AgentEvent Json))
  pub turns : ℕ → Turn Json

-- what a call leaves behind: the loop's writes, its error, and what is sent on the env-state bus
pub record Called (Json : Type 0) : Type 0 where
  pub loop : Loop Json (AgentEvent Json)
  pub failure : Option String
  pub env_events : List EnvStateEvent

module _ {Json : Type 0} where
  abbrev pub wiring : Call Json → Wiring (AgentEvent Json)
  wiring c = record { middleware = c.middleware; event_sender = true; session_tx = true }

  abbrev pub at_session : List (FuneraMessage Json) → Loop Json (AgentEvent Json)
  at_session msgs = record { session = msgs; emitted = []; react = []; requests = []; errors = [] }

module _ {Json : Type 0} (json : JsonOps Json) (debug : FinishReason → String) where
  abbrev pub push_message :
      FuneraMessage Json → List (FuneraMessage Json) → List (FuneraMessage Json)
  push_message m msgs = (Session.handle json msgs (push_messages (m ∷ []))).0

  -- `loop_handle.task.await??`, and `SessionClosed` if the loop succeeds
  abbrev pub close_session : Loop Json (AgentEvent Json) × Option String → Called Json
  close_session (l, none) = record {
    loop = l;
    failure = none;
    env_events = session_start ∷ session_closed ∷ [];
  }
  close_session (l, some e) = record { loop = l; failure = some e; env_events = session_start ∷ [] }

  unfoldable pub react_loop :
      FuneraMessage Json → Call Json → List (FuneraMessage Json) → Called Json
  react_loop init_msg c msgs = close_session (
      Loop.run json agent_events debug (wiring c) c.max_iterations c.turns
        (at_session (push_message init_msg msgs)))

  abbrev push_system : Option String → List (FuneraMessage Json) → List (FuneraMessage Json)
  push_system none msgs = msgs
  push_system (some sys) msgs = push_message (text_message Role.system sys) msgs

  -- the check of `send`, which finds out by the context
  abbrev push_system_once : Option String → List (FuneraMessage Json) → List (FuneraMessage Json)
  push_system_once none msgs = msgs
  push_system_once (some sys) [] = push_message (text_message Role.system sys) []
  push_system_once (some sys) (m ∷ msgs) = m ∷ msgs

  abbrev start : Called Json → Called Json
  start called = record called { env_events = session_start ∷ called.env_events }

  -- a session of its own, which is dropped with the call
  unfoldable pub fire : Option String → Call Json → Called Json
  fire system_prompt c =
      start (react_loop (text_message Role.user c.message) c (push_system system_prompt []))

  -- the runtime's session, with what the earlier calls have left in it
  unfoldable pub send : Option String → Call Json → List (FuneraMessage Json) → Called Json
  send system_prompt c msgs =
      start (react_loop (text_message Role.user c.message) c (push_system_once system_prompt msgs))

  -- `AgentRuntime::reset`
  unfoldable pub reset : List (FuneraMessage Json) → List (FuneraMessage Json)
  reset msgs = (Session.handle json msgs clear).0

-- funera-orchestrate/src/error.rs
pub data OrchestrateError : Type 0 where
  config session llm : String → OrchestrateError
  cancelled : OrchestrateError

-- the end of the spawned task: it was aborted, or the loop has ended
pub data Joined : Type 0 where
  aborted : Joined
  ended : Option String → Joined

module _ {Json : Type 0} where
  abbrev answered :
      Bool
      → List (Received (AgentEvent Json))
      → Option (Result (ChatResponse Json) OrchestrateError)
  answered true event_rx = some (err cancelled)
  answered false event_rx = Option.map (λ r. ok r) (aggregate_from_broadcast event_rx)

  -- `wait` of every handle, with what it sends on the env-state bus; it does not return while the
  -- receiver waits
  unfoldable pub wait :
      Joined
      → Bool
      → List (Received (AgentEvent Json))
      → List EnvStateEvent × Option (Result (ChatResponse Json) OrchestrateError)
  wait aborted is_cancelled event_rx = ([], some (err cancelled))
  wait (ended (some e)) is_cancelled event_rx = ([], some (err (session e)))
  wait (ended none) is_cancelled event_rx = (session_closed ∷ [], answered is_cancelled event_rx)
