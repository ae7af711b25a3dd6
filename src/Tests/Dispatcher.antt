-- ===== src/Tests/Dispatcher.antt =====
-- A session of two turns of which the second misses an event, forwarded by the dispatcher.
use funera.Events.{ReactEvent}
use funera.Prelude.{[], ◌∷◌, ◌≡◌, refl, List, ℕ, String, zero, suc}
use funera.Env.Actor.{EnvStateEvent, session_closed, per_turn_bus_ready, session_start}
use funera.Orchestrate.Event.{AgentEvent, done}
use funera.Orchestrate.Dispatcher.{Received, event, lagged, listen_env_state, forward_approvals}
use funera.Orchestrate.Dispatcher.Laws.{
  listen_env_state-dispatched, dispatched, until_closed, arrived,
}

abbrev asks : String → Received (ReactEvent String)
asks call_id = event (ReactEvent.tool_approval_required call_id "write" ("/etc" ∷ []) "outside")

abbrev react_rx : ℕ → List (Received (ReactEvent String))
react_rx zero = event ReactEvent.turn_start ∷ asks "a" ∷ event ReactEvent.turn_end ∷ []
react_rx (suc n) = asks "b" ∷ lagged ∷ asks "c" ∷ []

abbrev env_rx : List (Received EnvStateEvent)
env_rx =
    event session_start
    ∷ event (per_turn_bus_ready 0)
    ∷ lagged
    ∷ event (per_turn_bus_ready 1)
    ∷ event session_closed
    ∷ event (per_turn_bus_ready 2)
    ∷ []

abbrev asked : String → AgentEvent String
asked call_id = AgentEvent.tool_approval_required call_id "write" "outside"

two_turns : listen_env_state react_rx env_rx ≡ record {
  raw = session_start ∷ per_turn_bus_ready 0 ∷ per_turn_bus_ready 1 ∷ session_closed ∷ [];
  own = done ∷ [];
  spawned = (asked "a" ∷ []) ∷ (asked "b" ∷ []) ∷ [];
}
unfolding listen_env_state forward_approvals
two_turns = refl

listen_env_state-dispatched_example :
    listen_env_state react_rx env_rx ≡ dispatched react_rx (until_closed (arrived env_rx))
listen_env_state-dispatched_example = listen_env_state-dispatched react_rx env_rx
