-- ===== src/Tests/Response.antt =====
-- The response of a call, gathered from its events.
use funera.Events.{ok}
use funera.Orchestrate.Dispatcher.{Received, event, lagged}
use funera.Prelude.{[], ◌∷◌, ◌≡◌, ◌⊎◌, none, some, refl, List, String, inr}
use funera.Tests.Data.{text_json}
use funera.Tests.ReAct.{call_stream, call_turn, empty_loop, debug, reaches_tools}
use funera.ReAct.Loop.{not_cancelled, run_turn}
use funera.ReAct.Loop.Writes.{loop_of}
use funera.Orchestrate.Ids.{unfiltered}
use funera.Orchestrate.Event.{
  turn_end, AgentEvent, agent_events, turn_start, tool_call_request, tool_call_result, done,
}
use funera.Orchestrate.Response.{nothing_gathered, aggregate_from_broadcast, ChatResponse}
use funera.Orchestrate.Response.Laws.{gather}
use funera.Orchestrate.Response.Turns.{run_turn-turn_response, turn_response, unanswered}
use funera.Orchestrate.Response.Summary.{aggregate-Summarises, Summarises}
use funera.Orchestrate.Response.Laws.{until_end}

run_turn-turn_response_example :
    gather
      (loop_of (
        run_turn text_json agent_events debug unfiltered
          (call_turn not_cancelled)
          empty_loop)).emitted
      nothing_gathered
    ≡ record {
      response =
          turn_response text_json debug
            (call_turn not_cancelled)
            call_stream
            nothing_gathered.response;
      pending = unanswered text_json debug (call_turn not_cancelled) call_stream;
    }
unfolding gather
run_turn-turn_response_example =
    run_turn-turn_response text_json debug (call_turn not_cancelled) call_stream empty_loop
      nothing_gathered.response (reaches_tools not_cancelled (inr refl)) refl refl

abbrev received : List (Received (AgentEvent String))
received =
    event turn_start
    ∷ event (tool_call_request 0 "a" "read" "{}")
    ∷ lagged
    ∷ event (tool_call_result "a" "read" (ok "text"))
    ∷ event (turn_end (some "Stop") none)
    ∷ event done
    ∷ event turn_start
    ∷ []

aggregate-Summarises_example :
    ((until_end received ≡ none) × (aggregate_from_broadcast received ≡ none))
    ⊎ ((es : List (AgentEvent String)) × (r : ChatResponse String) × (until_end received ≡ some es)
        × (aggregate_from_broadcast received ≡ some r)
        × Summarises es r)
aggregate-Summarises_example = aggregate-Summarises received
