-- ===== src/Orchestrate/Response.antt =====
-- funera-orchestrate/src/response.rs, and `aggregate_from_broadcast` of funera-orchestrate/src/send_handle.rs:
-- what the caller of an agent gets, gathered from the events of a call.
use funera.Prelude.{[], ◌∷◌, ◌++◌, ◌+◌, none, some, if◌then◌else◌, List, Option, ℕ, String, str_eq}
use mathlib.Core.Option
use funera.Events.{TokenUsage, Result}
use funera.Orchestrate.Event.{
  AgentEvent, text, tool_call_request, tool_call_result, turn_start, turn_end, done,
}
use funera.Orchestrate.Dispatcher.{Received, event, lagged, closed}
pub mod Laws
pub mod Calls
pub mod Answered
pub mod Summary
pub mod Events
pub mod Turns

pub record ToolCallInfo (Json : Type 0) : Type 0 where
  pub name : String
  pub args : Json
  pub result : Result String String

pub record ChatResponse (Json : Type 0) : Type 0 where
  pub content : String
  pub tool_calls : List (ToolCallInfo Json)
  pub iterations : ℕ
  pub finish_reason : Option String
  pub usage : Option TokenUsage

-- the id, the name and the arguments of a call that has no result yet
abbrev pub Pending : Type 0 → Type 0
Pending Json = String × String × Json

-- the variables of the loop
pub record Gathered (Json : Type 0) : Type 0 where
  pub response : ChatResponse Json
  pub pending : List (Pending Json)

module _ {Json : Type 0} where
  abbrev pub nothing_gathered : Gathered Json
  nothing_gathered = record {
    response = record {
      content = "";
      tool_calls = [];
      iterations = 0;
      finish_reason = none;
      usage = none;
    };
    pending = [];
  }

  abbrev pub keep :
      Pending Json → Pending Json × List (Pending Json) → Pending Json × List (Pending Json)
  keep p (found, rest) = (found, p ∷ rest)

  -- `pending.iter().position(…)`, and `pending.remove(pos)`
  unfoldable pub take_pending :
      String → List (Pending Json) → Option (Pending Json × List (Pending Json))
  take_pending id [] = none
  take_pending id (p ∷ pending) =
      if str_eq p.0 id then some (p, pending) else Option.map (keep p) (take_pending id pending)

  abbrev pub answer :
      Result String String
      → Option (Pending Json × List (Pending Json))
      → Gathered Json
      → Gathered Json
  answer result none g = g
  answer result (some ((id, name, args), rest)) g = record {
    response = record (g.response) {
      tool_calls =
          g.response.tool_calls ++ record { name = name; args = args; result = result } ∷ [];
    };
    pending = rest;
  }

  -- the arms of the `match`, less the two that end the loop
  unfoldable pub gather_event : AgentEvent Json → Gathered Json → Gathered Json
  gather_event (text t) g = record g { response = record (g.response) { content = t } }
  gather_event (tool_call_request index call_id name args) g = record g {
    pending = g.pending ++ (call_id, name, args) ∷ [];
  }
  gather_event (tool_call_result call_id name result) g =
      answer result (take_pending call_id g.pending) g
  gather_event turn_start g = record g {
    response = record (g.response) { iterations = g.response.iterations + 1 };
  }
  gather_event (turn_end finish_reason usage) g = record g {
    response = record (g.response) { finish_reason = finish_reason; usage = usage };
  }
  gather_event _ g = g

  -- The loop; there is no response while the receiver waits.
  unfoldable pub aggregate_from :
      List (Received (AgentEvent Json)) → Gathered Json → Option (ChatResponse Json)
  aggregate_from [] g = none
  aggregate_from (event done ∷ rest) g = some g.response
  aggregate_from (event e ∷ rest) g = aggregate_from rest (gather_event e g)
  aggregate_from (lagged ∷ rest) g = aggregate_from rest g
  aggregate_from (closed ∷ rest) g = some g.response

  unfoldable pub aggregate_from_broadcast :
      List (Received (AgentEvent Json)) → Option (ChatResponse Json)
  unfolding aggregate_from
  aggregate_from_broadcast event_rx = aggregate_from event_rx nothing_gathered
