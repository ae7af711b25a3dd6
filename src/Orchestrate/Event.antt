-- ===== src/Orchestrate/Event.antt =====
-- `AgentEvent` of funera-orchestrate/src/event.rs, the events that the ReAct loop is run with.
use funera.Prelude.{none, some, Option, ℕ, String, push_str}
use funera.Events.{TokenUsage, Result, ok, err}
use funera.Chat.Message.{Role, assistant, tool, MsgVariant, tool_request, tool_response}
use funera.ReAct.Loop.{MiddlewareEvent}

pub data AgentEvent (Json : Type 0) : Type 0 where
  text : String → AgentEvent Json
  reasoning : String → AgentEvent Json
  tool_call_request : ℕ → String → String → Json → AgentEvent Json
  tool_call_result : String → String → Result String String → AgentEvent Json
  turn_start : AgentEvent Json
  turn_end : Option String → Option TokenUsage → AgentEvent Json
  error : String → AgentEvent Json
  tool_approval_required : String → String → String → AgentEvent Json
  cancelled : AgentEvent Json
  done : AgentEvent Json

-- `result.unwrap_or_else(|e| format!("tool call failed: {e}"))`
abbrev pub result_text : Result String String → String
result_text (ok s) = s
result_text (err e) = push_str "tool call failed: " e

module _ {Json : Type 0} where
  abbrev pub into_session_message : AgentEvent Json → Option (Role × MsgVariant Json)
  into_session_message (text t) =
      some (assistant, MsgVariant.text (record { text = t; reasoning_content = none }))
  into_session_message (tool_call_request index call_id name args) = some (
    assistant,
    tool_request (record {
      tool_call_id = call_id;
      function_name = name;
      function_args = args;
      reasoning_content = none;
    }),
  )
  into_session_message (tool_call_result call_id name result) =
      some (tool, tool_response (record { tool_call_id = call_id; result = result_text result }))
  into_session_message _ = none

-- `impl MiddlewareEvent for AgentEvent`
abbrev pub agent_events : {Json : Type 0} → MiddlewareEvent Json (AgentEvent Json)
agent_events = record {
  assistant_text = λ content reasoning. text content;
  tool_call_request = λ call_id name args. tool_call_request 0 call_id name args;
  tool_response = λ call_id name result. tool_call_result call_id name result;
  turn_start = turn_start;
  turn_end = λ finish_reason usage. turn_end finish_reason usage;
  done = done;
  cancelled = cancelled;
  into_session_message = into_session_message;
}
