-- ===== src/ReAct/Loop.antt =====
-- `ReActLoop::run`, `filter_and_store` and `emit_event` of funera_core/src/re_act.rs. What the world
-- does in one iteration is a `Turn`: the watched values, the provider's answer, what the tool bus
-- answers, and where the cancellation token fires, if it does.
pub mod Store
pub mod Bounds
pub mod Writes
pub mod Cancel
pub mod Invariant
pub mod Requests
use funera.Prelude.{
  [], ◌∷◌, ◌++◌, ◌+◌, ◌||◌, true, false, none, some, zero, suc, if◌then◌else◌, List, Option, Bool,
  ℕ, String, is_empty, map,
}
use mathlib.Core.Option
use funera.Json.{JsonOps}
use funera.Chat.Message.{Role, MsgVariant, FuneraMessage, format_json}
use funera.Events.{FinishReason, TokenUsage, Result, ok, err, ReactEvent, turn_start, turn_end}
use funera.Middleware.{MiddlewareChain, InspectorError, MiddlewareBlocked, process}
use funera.Tool.Error.{ToolCallError}
use funera.ReAct.Stream.{
  ToolCallAccumulator, Arrival, chunk, failed, cancelled, StreamState, process_token_stream,
}
use funera.ReAct.Finish.{ToolExecResult, sorted, parsed_args, TurnFinish, handle_turn_finish}

-- the trait `MiddlewareEvent` of funera_core/src/middleware.rs; `tool_response` takes the error's
-- text, which the loop turns into the event's error type
pub record MiddlewareEvent (Json Evt : Type 0) : Type 0 where
  pub assistant_text : String → Option String → Evt
  pub tool_call_request : String → String → Json → Evt
  pub tool_response : String → String → Result String String → Evt
  pub turn_start : Evt
  pub turn_end : Option String → Option TokenUsage → Evt
  pub done : Evt
  pub cancelled : Evt
  pub into_session_message : Evt → Option (Role × MsgVariant Json)

pub data ReasoningLevel : Type 0 where
  off minimal low medium high xhigh max : ReasoningLevel

-- the values that the watchers give; a client is known by a number
pub record Watched (Json : Type 0) : Type 0 where
  pub client : ℕ
  pub tools_json : Json
  pub model : String
  pub reasoning_level : ReasoningLevel
  pub skill_content : String

-- what `build_request_json` and `create_stream` are given
pub record Request (Json : Type 0) : Type 0 where
  pub watched : Watched Json
  pub history : List Json

-- the first check of the token that finds it fired
pub data CancelPoint : Type 0 where
  before_turn during_request during_stream during_tools not_cancelled : CancelPoint

pub record Turn (Json : Type 0) : Type 0 where
  pub watched : Watched Json
  pub response : Result (List (Arrival String)) String
  pub answer : String → String → Json → Result String (ToolCallError Json)
  pub cancel : CancelPoint

-- the loop's middleware, and whether it has an event sender and a session
pub record Wiring (Evt : Type 0) : Type 0 where
  pub middleware : Option (MiddlewareChain Evt)
  pub event_sender : Bool
  pub session_tx : Bool

-- everything that the loop writes to, in the order of the writes
pub record Loop (Json Evt : Type 0) : Type 0 where
  pub session : List (FuneraMessage Json)
  pub emitted : List Evt
  pub react : List (ReactEvent Json)
  pub requests : List (Request Json)
  pub errors : List InspectorError

pub data Step (Json Evt : Type 0) : Type 0 where
  go_on : Loop Json Evt → Step Json Evt
  stop : Loop Json Evt → Step Json Evt
  abort : Loop Json Evt → String → Step Json Evt

module _ {Evt : Type 0} where
  -- the chain's verdict on an event, or the event itself
  unfoldable pub filter :
      Option (MiddlewareChain Evt) → Evt → Result Evt MiddlewareBlocked × List InspectorError
  filter none e = (ok e, [])
  filter (some chain) e = process chain e

module _ {Json Evt : Type 0} where
  -- `break`, `?` and `iteration += 1` at the end of an iteration
  unfoldable pub advance :
      (Loop Json Evt → Loop Json Evt × Option String)
      → Step Json Evt
      → Loop Json Evt × Option String
  advance rest (go_on next) = rest next
  advance rest (stop final) = (final, none)
  advance rest (abort final e) = (final, some e)

-- the `if let Some(s) = sender` of `emit_event`
module _ {Json Evt : Type 0} (w : Wiring Evt) where
  unfoldable pub emit_event : Evt → Loop Json Evt → Loop Json Evt
  emit_event e l = record l { emitted = if w.event_sender then l.emitted ++ e ∷ [] else l.emitted }

module _ {Json Evt : Type 0} (events : MiddlewareEvent Json Evt) where
  -- the messages that an event adds to the session
  abbrev pub stored : Evt → List (FuneraMessage Json)
  stored e = elim (events.into_session_message e) [
    | none ↦ []
    | some (r, v) ↦ record { role = r; msg_variant = v } ∷ []
  ]

  abbrev pub response_event : ToolExecResult → Evt
  response_event r = events.tool_response r.call_id r.name r.result

  module _ (w : Wiring Evt) where
    -- a blocked event is dropped; another goes to the session and to the event sender
    unfoldable pub store_verdict :
        Result Evt MiddlewareBlocked × List InspectorError → Loop Json Evt → Loop Json Evt
    unfolding emit_event
    store_verdict (err b, errors) l = record l { errors = l.errors ++ errors }
    store_verdict (ok filtered, errors) l = emit_event w filtered (record l {
      session = if w.session_tx then l.session ++ stored filtered else l.session;
      errors = l.errors ++ errors;
    })

    -- one round of `filter_and_store`
    unfoldable pub store_event : Evt → Loop Json Evt → Loop Json Evt
    unfolding store_verdict
    store_event e l = store_verdict (filter w.middleware e) l

    unfoldable pub filter_and_store : List Evt → Loop Json Evt → Loop Json Evt
    unfolding store_event
    filter_and_store [] l = l
    filter_and_store (e ∷ es) l = filter_and_store es (store_event e l)

-- whether the stream loop was left because the token fired
abbrev pub stream_cancelled : List (Arrival String) → Bool
stream_cancelled [] = false
stream_cancelled (chunk es ∷ rest) = stream_cancelled rest
stream_cancelled (failed e ∷ rest) = false
stream_cancelled (cancelled ∷ rest) = true

abbrev pub is_before_turn : CancelPoint → Bool
is_before_turn before_turn = true
is_before_turn _ = false

abbrev pub is_during_request : CancelPoint → Bool
is_during_request during_request = true
is_during_request _ = false

abbrev pub is_during_stream : CancelPoint → Bool
is_during_stream during_stream = true
is_during_stream _ = false

abbrev pub is_during_tools : CancelPoint → Bool
is_during_tools during_tools = true
is_during_tools _ = false

module _ {Json Evt : Type 0} where
  abbrev pub send : List (ReactEvent Json) → Loop Json Evt → Loop Json Evt
  send es l = record l { react = l.react ++ es }

module _ {Json Evt : Type 0} (json : JsonOps Json) (events : MiddlewareEvent Json Evt) where
  -- the events of a turn: its text, then its tool calls in the order of their indices
  abbrev pub text_events : StreamState Json → List Evt
  text_events s =
      if is_empty s.assistant_content
      then []
      else events.assistant_text s.assistant_content
          (if is_empty s.reasoning_content then none else some s.reasoning_content)
        ∷ []

  abbrev pub call_event : ToolCallAccumulator → Evt
  call_event a = events.tool_call_request a.call_id a.name (parsed_args json a)

  abbrev pub turn_events : StreamState Json → List Evt
  turn_events s = text_events s ++ map call_event (sorted s.tool_call_accums)

module _ {Json Evt : Type 0} (json : JsonOps Json) (events : MiddlewareEvent Json Evt)
    (debug : FinishReason → String) (w : Wiring Evt) where
  unfoldable pub cancel_loop : Loop Json Evt → Step Json Evt
  cancel_loop l = stop (filter_and_store events w (events.cancelled ∷ []) l)

  -- after the results: store them, close the turn
  unfoldable pub end_turn : StreamState Json → TurnFinish Json → Loop Json Evt → Step Json Evt
  end_turn s f l =
      let answered = filter_and_store events w (map (response_event events) f.tool_results) l in
      let closed = send (turn_end ∷ []) (
        emit_event w (events.turn_end (Option.map debug s.turn_finish_reason) s.turn_usage)
          answered) in
      if f.should_continue then go_on closed else stop closed

  unfoldable pub finish_turn : Turn Json → StreamState Json → Loop Json Evt → Step Json Evt
  finish_turn t s l =
      let called = filter_and_store events w (turn_events json events s) l in
      let f = handle_turn_finish json t.answer s.turn_finish_reason s.tool_call_accums in
      if is_during_tools t.cancel
      then cancel_loop (send f.sent called)
      else end_turn s f (send f.sent called)

  -- what `process_token_stream(…).await?` and the check of the token behind it do
  unfoldable pub after_stream :
      Turn Json
      → List (Arrival String)
      → StreamState Json
      → Option String
      → Loop Json Evt
      → Step Json Evt
  after_stream t arrivals s (some e) l = abort l e
  after_stream t arrivals s none l =
      if is_during_stream t.cancel || stream_cancelled arrivals
      then cancel_loop l
      else finish_turn t s l

  unfoldable pub read_stream : Turn Json → List (Arrival String) → Loop Json Evt → Step Json Evt
  unfolding after_stream
  read_stream t arrivals l =
      let (s, failure) = process_token_stream {Json = Json} arrivals in
      after_stream t arrivals s failure (send s.sent l)

  -- the turn is announced, with the request built from the history before it
  unfoldable pub begin_turn : Turn Json → Loop Json Evt → Loop Json Evt
  begin_turn t l = emit_event w events.turn_start (record l {
    react = l.react ++ turn_start ∷ [];
    requests =
        l.requests
        ++ record {
          watched = t.watched;
          history = if w.session_tx then map (format_json json) l.session else [];
        }
          ∷ [];
  })

  -- `create_stream(…) => s?`
  unfoldable pub on_response :
      Turn Json → Result (List (Arrival String)) String → Loop Json Evt → Step Json Evt
  on_response t (err e) l = abort l e
  on_response t (ok arrivals) l = read_stream t arrivals l

  -- one iteration of the `while`
  unfoldable pub run_turn : Turn Json → Loop Json Evt → Step Json Evt
  unfolding on_response
  run_turn t l =
      if is_before_turn t.cancel
      then cancel_loop l
      else if is_during_request t.cancel
      then cancel_loop (begin_turn t l)
      else on_response t t.response (begin_turn t l)

  -- The loop, with the iterations that are left; its `Err` is the error's text.
  unfoldable pub run_from : ℕ → (ℕ → Turn Json) → ℕ → Loop Json Evt → Loop Json Evt × Option String
  unfolding advance
  run_from zero turns iteration l = (l, none)
  run_from (suc left) turns iteration l =
      advance (run_from left turns (iteration + 1)) (run_turn (turns iteration) l)

  unfoldable pub run : ℕ → (ℕ → Turn Json) → Loop Json Evt → Loop Json Evt × Option String
  unfolding run_from
  run max_iteration turns l = run_from max_iteration turns 0 l
