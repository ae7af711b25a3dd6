-- ===== src/Tests/ReAct.antt =====
-- The ReAct loop on a turn with two interleaved tool calls, finished and cancelled.
use funera.ReAct.Loop.Cancel.{run_cancelled}
use funera.Tests.Data.{text_json}
use funera.ReAct.Finish.{sorted}
use funera.Orchestrate.Event.{AgentEvent, agent_events}
use funera.ReAct.Stream.Laws.{heard}
use funera.ReAct.Loop.Store.{IsStored, passed, filter_and_store-IsStored}
use funera.ReAct.Loop.Bounds.{run-Writes}
use funera.ReAct.Loop.Writes.{Writes, loop_of}
use funera.Orchestrate.Turns.{TurnIds, ReachesTools, run_turn-TurnIds}
use funera.Orchestrate.Ids.{call_ids, unfiltered}
use funera.ReAct.Loop.{
  CancelPoint, Loop, Turn, Watched, during_tools, medium, not_cancelled, run, during_stream,
  filter_and_store, run_turn,
}
use funera.ReAct.Stream.Accumulators.{lookup, assembled, deltas, process-assembled}
use funera.ReAct.Stream.Summary.{IsSummary, first_failure, process-IsSummary}
use funera.Prelude.{
  [], ◌∷◌, ◌≡◌, ◌⊎◌, ◌≤◌, ◌+◌, none, some, refl, zero, suc, List, ℕ, String, inl, length,
}
use funera.Events.{FinishReason, text, tool_delta, finish, TokenEvent, ok}
use funera.ReAct.Stream.{Arrival, chunk, process_token_stream}

abbrev call_tokens : List TokenEvent
call_tokens =
    text "Let me look."
    ∷ tool_delta 1 "b" (some "shell") (some "{\"x\":")
    ∷ tool_delta 0 "a" (some "read") (some "{}")
    ∷ tool_delta 1 "" none (some "1}")
    ∷ finish FinishReason.tool_calls
    ∷ []

abbrev pub call_stream : List (Arrival String)
call_stream = chunk call_tokens ∷ []

process-IsSummary_example :
    IsSummary (process_token_stream {Json = String} call_stream).0
    × ((process_token_stream {Json = String} call_stream).0.tokens ≡ heard call_stream)
    × ((process_token_stream {Json = String} call_stream).1 ≡ first_failure call_stream)
process-IsSummary_example = process-IsSummary call_stream

process-assembled_example :
    lookup 1 (process_token_stream {Json = String} call_stream).0.tool_call_accums
    ≡ assembled 1 (deltas 1 call_tokens)
process-assembled_example = process-assembled String call_stream 1

abbrev watched : Watched String
watched = record {
  client = 0;
  tools_json = "[]";
  model = "m";
  reasoning_level = medium;
  skill_content = "";
}

abbrev pub call_turn : CancelPoint → Turn String
call_turn c = record {
  watched = watched;
  response = ok call_stream;
  answer = λ call_id name args. ok args;
  cancel = c;
}

abbrev pub empty_loop : Loop String (AgentEvent String)
empty_loop = record { session = []; emitted = []; react = []; requests = []; errors = [] }

abbrev pub debug : FinishReason → String
debug reason = "ToolCalls"

pub reaches_tools :
    (c : CancelPoint)
    → (c ≡ during_tools) ⊎ (c ≡ not_cancelled)
    → ReachesTools (call_turn c) call_stream
unfolding process_token_stream
reaches_tools c late = record { answered = refl; unbroken = refl; uncancelled = refl; late = late }

run_turn-TurnIds_example :
    TurnIds
      (call_ids (sorted (process_token_stream {Json = String} call_stream).0.tool_call_accums))
      []
      empty_loop
      (loop_of
        (run_turn text_json agent_events debug unfiltered (call_turn during_tools) empty_loop))
run_turn-TurnIds_example =
    run_turn-TurnIds text_json debug (call_turn during_tools) call_stream
      (reaches_tools during_tools (inl refl)) empty_loop

abbrev turns : ℕ → Turn String
turns zero = call_turn not_cancelled
turns (suc n) = call_turn during_stream

run-Writes_example :
    Writes 3 empty_loop (run text_json agent_events debug unfiltered 3 turns empty_loop).0
run-Writes_example = run-Writes text_json agent_events debug unfiltered 3 turns empty_loop

run_cancelled_example :
    length (run text_json agent_events debug unfiltered 5 turns empty_loop).0.requests ≤ 0 + 1 + 1
run_cancelled_example =
    run_cancelled text_json agent_events debug unfiltered 5 turns 1 empty_loop (λ e. cc e)

filter_and_store-IsStored_example :
    IsStored agent_events unfiltered
      (passed unfiltered (AgentEvent.text "hi" ∷ []))
      empty_loop
      (filter_and_store agent_events unfiltered (AgentEvent.text "hi" ∷ []) empty_loop)
filter_and_store-IsStored_example =
    filter_and_store-IsStored agent_events unfiltered (AgentEvent.text "hi" ∷ []) empty_loop
