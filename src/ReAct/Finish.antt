-- ===== src/ReAct/Finish.antt =====
-- `handle_turn_finish` of funera_core/src/re_act.rs, with the `tool` feature. The tool bus is a
-- parameter: `answer` is what `tool_bus.execute` returns for a call. The calls run concurrently, and
-- `join_all` gives their results in the order of the calls.
use funera.Prelude.{
  [], ◌∷◌, ◌++◌, true, false, none, some, List, Option, Bool, String, get_or, map, sort_by_key,
}
use funera.Json.{JsonOps}
use funera.Events.{FinishReason, Result, ok, err, ReactEvent, tool_exec_request, tool_exec_response}
use funera.Tool.Error.{ToolCallError, error_text}
use funera.ReAct.Stream.{ToolCallAccumulator}

pub record ToolExecResult : Type 0 where
  pub call_id : String
  pub name : String
  pub result : Result String String

-- whether the loop goes on, the results, and the events sent on the react bus
pub record TurnFinish (Json : Type 0) : Type 0 where
  pub should_continue : Bool
  pub tool_results : List ToolExecResult
  pub sent : List (ReactEvent Json)

abbrev pub sorted : List ToolCallAccumulator → List ToolCallAccumulator
sorted accums = sort_by_key (λ (a : ToolCallAccumulator). a.index) accums

module _ {Json : Type 0} (json : JsonOps Json) where
  -- `serde_json::from_str(&acc.args).unwrap_or(JsonValue::Null)`
  abbrev pub parsed_args : ToolCallAccumulator → Json
  parsed_args acc = get_or (json.from_str acc.args) json.null

  abbrev pub request_event : ToolCallAccumulator → ReactEvent Json
  request_event acc =
      tool_exec_request (record {
        index = acc.index;
        call_id = acc.call_id;
        name = acc.name;
        args = parsed_args acc;
      })

  module _ (answer : String → String → Json → Result String (ToolCallError Json)) where
    abbrev pub answer_to : ToolCallAccumulator → Result String (ToolCallError Json)
    answer_to acc = answer acc.call_id acc.name (parsed_args acc)

    abbrev response_event :
        ToolCallAccumulator → Result String (ToolCallError Json) → ReactEvent Json
    response_event acc (ok response) =
        tool_exec_response
          (ok (record { call_id = acc.call_id; name = acc.name; result = response }))
    response_event acc (err e) =
        tool_exec_response
          (err (record { call_id = acc.call_id; name = acc.name; error = error_text json e }))

    abbrev pub result_of : Result String (ToolCallError Json) → Result String String
    result_of (ok response) = ok response
    result_of (err e) = err (error_text json e)

    -- the loop over the calls and their results
    unfoldable pub respond : List ToolCallAccumulator → List ToolExecResult × List (ReactEvent Json)
    respond [] = ([], [])
    respond (acc ∷ accums) =
        let r = answer_to acc in
        let (results, events) = respond accums in
        (
          record { call_id = acc.call_id; name = acc.name; result = result_of r } ∷ results,
          response_event acc r ∷ events,
        )

    run_tools : List ToolCallAccumulator → TurnFinish Json
    unfolding respond
    run_tools accums =
        let (results, events) = respond accums in
        record {
          should_continue = true;
          tool_results = results;
          sent = map request_event accums ++ events;
        }

    unfoldable pub handle_turn_finish :
        Option FinishReason → List ToolCallAccumulator → TurnFinish Json
    unfolding run_tools
    handle_turn_finish none accums = record {
      should_continue = false;
      tool_results = [];
      sent = [];
    }
    handle_turn_finish (some FinishReason.tool_calls) accums = run_tools (sorted accums)
    handle_turn_finish (some FinishReason.length) accums = run_tools (sorted accums)
    handle_turn_finish (some _) accums = record {
      should_continue = false;
      tool_results = [];
      sent = [];
    }
