-- ===== src/Orchestrate/Dispatcher.antt =====
-- funera-orchestrate/src/dispatcher.rs: the registry of callbacks, and the listener that forwards the
-- events of the environment and the approvals that a turn asks for. A receiver of tokio's broadcast
-- channel is the list of what its `recv` gives; behind the end of the list it waits.
use funera.Prelude.{[], ◌∷◌, ◌++◌, ℕ, List, length, none, some, Option, Bool, is_empty}
use funera.Events.{ReactEvent}
use funera.Env.Actor.{EnvStateEvent, session_closed, per_turn_bus_ready}
use funera.Orchestrate.Event.{AgentEvent, done}
pub mod Laws

-- `Ok`, `RecvError::Lagged` and `RecvError::Closed`
pub data Received {ℓ} (E : Type ℓ) : Type ℓ where
  event : E → Received E
  lagged : Received E
  closed : Received E

-- a callback is what it does to a state of the world
abbrev pub CallbackRegistry : Type 0 → Type 0 → Type 0
CallbackRegistry Json World = List (AgentEvent Json → World → World)

module _ {Json World : Type 0} where
  abbrev pub add :
      (AgentEvent Json → World → World) → CallbackRegistry Json World → CallbackRegistry Json World
  add f callbacks = callbacks ++ f ∷ []

  unfoldable pub dispatch : CallbackRegistry Json World → AgentEvent Json → World → World
  dispatch [] e world = world
  dispatch (f ∷ callbacks) e world = dispatch callbacks e (f e world)

  abbrev pub combine :
      CallbackRegistry Json World → CallbackRegistry Json World → CallbackRegistry Json World
  combine callbacks other = callbacks ++ other

-- what the listener sends: on the raw channel, on the event channel itself, and on the event channel
-- from each of the tasks that it starts, one for every turn
pub record Dispatched (Json : Type 0) : Type 0 where
  pub raw : List EnvStateEvent
  pub own : List (AgentEvent Json)
  pub spawned : List (List (AgentEvent Json))

module _ {Json : Type 0} where
  abbrev pub approval : ReactEvent Json → List (AgentEvent Json)
  approval (ReactEvent.tool_approval_required call_id tool_name paths reason) =
      AgentEvent.tool_approval_required call_id tool_name reason ∷ []
  approval _ = []

  -- the task of one turn: `while let Ok(event)`
  unfoldable pub forward_approvals : List (Received (ReactEvent Json)) → List (AgentEvent Json)
  forward_approvals [] = []
  forward_approvals (event e ∷ rest) = approval e ++ forward_approvals rest
  forward_approvals (lagged ∷ rest) = []
  forward_approvals (closed ∷ rest) = []

  abbrev pub nothing_sent : Dispatched Json
  nothing_sent = record { raw = []; own = []; spawned = [] }

  -- `react_rx` gives what a turn's subscription to its react bus receives
  module _ (react_rx : ℕ → List (Received (ReactEvent Json))) where
    abbrev pub on_env_event : EnvStateEvent → Dispatched Json → Dispatched Json
    on_env_event session_closed rest = record {
      raw = session_closed ∷ [];
      own = done ∷ [];
      spawned = [];
    }
    on_env_event (per_turn_bus_ready n) rest = record rest {
      raw = per_turn_bus_ready n ∷ rest.raw;
      spawned = forward_approvals (react_rx n) ∷ rest.spawned;
    }
    on_env_event other rest = record rest { raw = other ∷ rest.raw }

    unfoldable pub listen_env_state : List (Received EnvStateEvent) → Dispatched Json
    listen_env_state [] = nothing_sent
    listen_env_state (event e ∷ rest) = on_env_event e (listen_env_state rest)
    listen_env_state (lagged ∷ rest) = listen_env_state rest
    listen_env_state (closed ∷ rest) = nothing_sent
