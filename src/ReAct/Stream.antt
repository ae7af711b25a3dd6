-- ===== src/ReAct/Stream.antt =====
-- `process_token_stream` of funera_core/src/re_act.rs: one LLM stream folded into the turn's text,
-- reasoning, tool calls, finish reason and usage. The accumulators, a map from an index, are a list
-- in the order of first insertion with no index twice.
pub mod Laws
pub mod Summary
pub mod Accumulators
use funera.Prelude.{
  ℕ, zero, suc, String, Bool, Option, none, some, List, [], ◌∷◌, ◌++◌, ◌==◌, if◌then◌else◌,
  is_empty, push_str,
}
use funera.Chat.Message.{FuneraMessage, assistant, MsgVariant}
use funera.Events.{
  FinishReason, TokenUsage, TokenEvent, text, tool_delta, finish, reasoning, usage, ReactEvent,
  message_queued,
}

pub record ToolCallAccumulator : Type 0 where
  pub index : ℕ
  pub call_id : String
  pub name : String
  pub args : String

-- the loop's variables, and what has been sent on the token bus and on the react bus
pub record StreamState (Json : Type 0) : Type 0 where
  pub assistant_content : String
  pub reasoning_content : String
  pub tool_call_accums : List ToolCallAccumulator
  pub turn_finish_reason : Option FinishReason
  pub turn_usage : Option TokenUsage
  pub tokens : List TokenEvent
  pub sent : List (ReactEvent Json)

abbrev pub empty_accumulator : ℕ → ToolCallAccumulator
empty_accumulator i = record { index = i; call_id = ""; name = ""; args = "" }

-- the three `if`s on an entry
unfoldable pub apply_delta :
    String → Option String → Option String → ToolCallAccumulator → ToolCallAccumulator
apply_delta call_id name args_chunk acc = record acc {
  call_id = if is_empty call_id then acc.call_id else call_id;
  name = elim name [ none ↦ acc.name | some n ↦ n ];
  args = elim args_chunk [ none ↦ acc.args | some chunk ↦ push_str acc.args chunk ];
}

-- `entry(index).or_insert_with(…)`, then `f` on the entry
unfoldable pub update_entry :
    ℕ
    → (ToolCallAccumulator → ToolCallAccumulator)
    → List ToolCallAccumulator
    → List ToolCallAccumulator
update_entry i f [] = f (empty_accumulator i) ∷ []
update_entry i f (a ∷ accs) =
    let rest = update_entry i f accs in if a.index == i then f a ∷ accs else a ∷ rest

module _ {Json : Type 0} where
  abbrev pub start : StreamState Json
  start = record {
    assistant_content = "";
    reasoning_content = "";
    tool_call_accums = [];
    turn_finish_reason = none;
    turn_usage = none;
    tokens = [];
    sent = [];
  }

  abbrev pub queued : String → ReactEvent Json
  queued t = message_queued (record {
    role = assistant;
    msg_variant = MsgVariant.text (record { text = t; reasoning_content = none });
  })

  unfoldable pub on_event : TokenEvent → StreamState Json → StreamState Json
  unfolding update_entry apply_delta
  on_event (text t) s = record s {
    assistant_content = push_str s.assistant_content t;
    sent = s.sent ++ queued t ∷ [];
  }
  on_event (reasoning r) s = record s { reasoning_content = push_str s.reasoning_content r }
  on_event (tool_delta index call_id name args_chunk) s = record s {
    tool_call_accums = update_entry index (apply_delta call_id name args_chunk) s.tool_call_accums;
  }
  on_event (finish reason) s = record s { turn_finish_reason = some reason }
  on_event (usage u) s = record s { turn_usage = some u }

  -- `TokenBus::recv` broadcasts the events of a chunk before it returns them
  abbrev pub broadcast : List TokenEvent → StreamState Json → StreamState Json
  broadcast events s = record s { tokens = s.tokens ++ events }

  unfoldable pub on_events : List TokenEvent → StreamState Json → StreamState Json
  on_events [] s = s
  on_events (e ∷ es) s = on_events es (on_event e s)

-- What `token_bus.recv()` gives in turn, up to the end of the stream. `cancelled` stands where the
-- token fires first: the `select!` is biased, and the loop stops there.
pub data Arrival (Error : Type 0) : Type 0 where
  chunk : List TokenEvent → Arrival Error
  failed : Error → Arrival Error
  cancelled : Arrival Error

module _ {Json Error : Type 0} where
  -- the error, if the stream failed, beside what the variables and the buses held
  unfoldable pub receive : List (Arrival Error) → StreamState Json → StreamState Json × Option Error
  receive [] s = (s, none)
  receive (chunk events ∷ rest) s = receive rest (on_events events (broadcast events s))
  receive (failed e ∷ rest) s = (s, some e)
  receive (cancelled ∷ rest) s = (s, none)

  unfoldable pub process_token_stream : List (Arrival Error) → StreamState Json × Option Error
  unfolding receive
  process_token_stream arrivals = receive arrivals start
