-- ===== src/Orchestrate/Turns.antt =====
-- What a turn of the loop (funera_core/src/re_act.rs) leaves in the session when it is run with
-- `AgentEvent` (funera-orchestrate/src/event.rs) and no middleware: which tool calls are answered.
use funera.Orchestrate.Ids.{
  call_ids, request_ids, result_messages, unfiltered, response_ids, session-filter_and_store,
  ids-respond, ids-turn_events,
}
use funera.ReAct.Loop.Writes.{loop_of}
use funera.Tool.Error.{ToolCallError}
use funera.ReAct.Finish.{sorted, TurnFinish, handle_turn_finish}
use funera.ReAct.Loop.{
  turn_events, response_event, Turn, cancel_loop, end_turn, finish_turn, Loop, emit_event,
  is_during_tools, filter_and_store, send, run_turn, read_stream, stream_cancelled, begin_turn,
  during_tools, not_cancelled, CancelPoint, is_before_turn, is_during_request, on_response,
  is_during_stream, after_stream,
}
use funera.Orchestrate.Event.{agent_events, AgentEvent, cancelled}
use funera.ReAct.Loop.Store.{all_stored}
use funera.ReAct.Stream.{StreamState, ToolCallAccumulator, Arrival, process_token_stream}
use funera.Prelude.{
  [], ◌∷◌, ◌≡◌, ◌++◌, ◌∙◌, refl, List, String, ap, map, sym, append_assoc, inl, inr, Bool-cases,
  true, none, if◌then◌else◌, append-nil, ◌⊎◌, false, some, Option, Bool, ◌||◌,
}
use funera.Json.{JsonOps}
use funera.Events.{FinishReason, Result, ok}
use funera.Chat.Message.{FuneraMessage}

module _ {Json : Type 0} (json : JsonOps Json) (debug : FinishReason → String) where
  abbrev turn_messages : Turn Json → StreamState Json → List (FuneraMessage Json)
  turn_messages t s =
      all_stored agent_events (turn_events json agent_events s)
      ++ (if is_during_tools t.cancel
          then []
          else result_messages json
              (handle_turn_finish json t.answer s.turn_finish_reason
                s.tool_call_accums).tool_results)

  session-cancel_loop :
      (l : Loop Json (AgentEvent Json))
      → (loop_of (cancel_loop json agent_events debug unfiltered l)).session ≡ l.session
  unfolding cancel_loop
  session-cancel_loop l = session-filter_and_store (cancelled ∷ []) l ∙ append-nil l.session

  session-end_turn :
      (s : StreamState Json) (f : TurnFinish Json) (l : Loop Json (AgentEvent Json))
      → (loop_of (end_turn json agent_events debug unfiltered s f l)).session
        ≡ l.session ++ result_messages json f.tool_results
  unfolding end_turn emit_event
  session-end_turn s f l = elim (Bool-cases f.should_continue) [
    | inl more ↦
        rw more (session-filter_and_store (map (response_event agent_events) f.tool_results) l)
    | inr enough ↦
        rw enough (session-filter_and_store (map (response_event agent_events) f.tool_results) l)
  ]

  session-finish_turn :
      (t : Turn Json) (s : StreamState Json) (l : Loop Json (AgentEvent Json))
      → (loop_of (finish_turn json agent_events debug unfiltered t s l)).session
        ≡ l.session ++ turn_messages t s
  unfolding finish_turn
  session-finish_turn t s l = elim (Bool-cases (is_during_tools t.cancel)) [
    | inl fired ↦ rw fired (
        session-cancel_loop (send f.sent called)
        ∙ session-filter_and_store (turn_events json agent_events s) l
        ∙ ap (λ ms. l.session ++ ms) (sym (append-nil own)))
    | inr quiet ↦ rw quiet (
        session-end_turn s f (send f.sent called)
        ∙ ap (λ ms. ms ++ result_messages json f.tool_results)
            (session-filter_and_store (turn_events json agent_events s) l)
        ∙ append_assoc l.session own (result_messages json f.tool_results))
  ]
    where
      own : List (FuneraMessage Json)
      own = all_stored agent_events (turn_events json agent_events s)

      f : TurnFinish Json
      f = handle_turn_finish json t.answer s.turn_finish_reason s.tool_call_accums

      called : Loop Json (AgentEvent Json)
      called = filter_and_store agent_events unfiltered (turn_events json agent_events s) l

abbrev pub continues : Option FinishReason → Bool
continues (some FinishReason.tool_calls) = true
continues (some FinishReason.length) = true
continues _ = false

module _ {Json : Type 0} (json : JsonOps Json)
    (answer : String → String → Json → Result String (ToolCallError Json))
    (accs : List ToolCallAccumulator) where
  abbrev results : Option FinishReason → List (FuneraMessage Json)
  results reason = result_messages json (handle_turn_finish json answer reason accs).tool_results

  -- the calls are answered exactly for the finish reasons on which the loop goes on
  ids-results :
      (reason : Option FinishReason)
      → (request_ids (results reason) ≡ [])
        × (response_ids (results reason)
            ≡ (if continues reason then call_ids (sorted accs) else []))
  unfolding handle_turn_finish
  ids-results (some FinishReason.tool_calls) = ids-respond json answer (sorted accs)
  ids-results (some FinishReason.length) = ids-respond json answer (sorted accs)
  ids-results none = (refl, refl)
  ids-results (some _) = (refl, refl)

-- the stream of a turn is read to its end, and the token fires in the tools at the earliest
pub record ReachesTools {Json : Type 0} (t : Turn Json) (arrivals : List (Arrival String))
    : Type 0 where
  pub answered : t.response ≡ ok arrivals
  pub unbroken : (process_token_stream {Json = Json} arrivals).1 ≡ none
  pub uncancelled : stream_cancelled arrivals ≡ false
  pub late : (t.cancel ≡ during_tools) ⊎ (t.cancel ≡ not_cancelled)

module _ {Json : Type 0} (json : JsonOps Json) (debug : FinishReason → String) (t : Turn Json)
    (arrivals : List (Arrival String)) (h : ReachesTools t arrivals)
    (l : Loop Json (AgentEvent Json)) where
  abbrev stream : StreamState Json
  stream = (process_token_stream arrivals).0

  pub run_turn-finish_turn :
      run_turn json agent_events debug unfiltered t l
      ≡ finish_turn json agent_events debug unfiltered t stream
          (send stream.sent (begin_turn json agent_events debug unfiltered t l))
  unfolding run_turn read_stream
  run_turn-finish_turn =
      by_cancel t.cancel h.late
      ∙ ap (λ r. on_response json agent_events debug unfiltered t r begun) h.answered
      ∙ ap (λ e. after_stream json agent_events debug unfiltered t arrivals stream e heard)
          h.unbroken
      ∙ by_check t.cancel h.late (stream_cancelled arrivals) h.uncancelled
    where
      begun : Loop Json (AgentEvent Json)
      begun = begin_turn json agent_events debug unfiltered t l

      heard : Loop Json (AgentEvent Json)
      heard = send stream.sent begun

      by_cancel :
          (c : CancelPoint)
          → (c ≡ during_tools) ⊎ (c ≡ not_cancelled)
          → (if is_before_turn c
              then cancel_loop json agent_events debug unfiltered l
              else if is_during_request c
              then cancel_loop json agent_events debug unfiltered begun
              else on_response json agent_events debug unfiltered t t.response begun)
            ≡ on_response json agent_events debug unfiltered t t.response begun
      by_cancel c (inl e) = rw e
      by_cancel c (inr e) = rw e

      by_check :
          (c : CancelPoint)
          → (c ≡ during_tools) ⊎ (c ≡ not_cancelled)
          → (b : Bool) → b ≡ false
          → (if is_during_stream c || b
              then cancel_loop json agent_events debug unfiltered heard
              else finish_turn json agent_events debug unfiltered t stream heard)
            ≡ finish_turn json agent_events debug unfiltered t stream heard
      by_check c (inl e) b p = rw (e, p)
      by_check c (inr e) b p = rw (e, p)

  -- the turn adds its own messages and those of its results to the session
  session-run_turn :
      (loop_of (run_turn json agent_events debug unfiltered t l)).session
      ≡ l.session ++ turn_messages json debug t stream
  unfolding begin_turn emit_event
  session-run_turn =
      ap (λ step. (loop_of step).session) run_turn-finish_turn
      ∙ session-finish_turn json debug t stream
          (send stream.sent (begin_turn json agent_events debug unfiltered t l))

-- A turn adds the requests of the calls to the session, and the answers behind all of them.
pub record TurnIds {Json : Type 0} (calls answers : List String)
    (before after : Loop Json (AgentEvent Json)) : Type 0 where
  pub requests : List (FuneraMessage Json)
  pub responses : List (FuneraMessage Json)
  pub session : after.session ≡ before.session ++ (requests ++ responses)
  pub called : request_ids requests ≡ calls
  pub none_answered : response_ids requests ≡ []
  pub none_called : request_ids responses ≡ []
  pub answered : response_ids responses ≡ answers

-- A turn whose stream is read to its end, run with `AgentEvent`, a session and no middleware,
-- appends to the session one request for each tool call of the stream, in the order of the calls'
-- indices. Behind all of them follow their answers, one for each call and in the same order, if the token has not
-- fired by the end of the tools and the finish reason is `ToolCalls` or `Length`; in every other
-- case (no finish reason, another one, or a cancellation during the tools) there is no answer.
pub run_turn-TurnIds :
    {Json : Type 0} (json : JsonOps Json) (debug : FinishReason → String) (t : Turn Json)
    (arrivals : List (Arrival String))
    → ReachesTools t arrivals
    → (l : Loop Json (AgentEvent Json))
    → (let s : StreamState Json = (process_token_stream arrivals).0 in
        let calls = call_ids (sorted s.tool_call_accums) in
        TurnIds calls
          (if is_during_tools t.cancel
            then []
            else if continues s.turn_finish_reason
            then calls
            else [])
          l
          (loop_of (run_turn json agent_events debug unfiltered t l)))
run_turn-TurnIds {Json} json debug t arrivals h l = record {
  requests = all_stored agent_events (turn_events json agent_events s);
  responses = from_tools (is_during_tools t.cancel);
  session = session-run_turn json debug t arrivals h l;
  called = (ids-turn_events json s).0;
  none_answered = (ids-turn_events json s).1;
  none_called = none_called (is_during_tools t.cancel);
  answered = all_answered (is_during_tools t.cancel);
}
  where
    s : StreamState Json
    s = (process_token_stream arrivals).0

    calls : List String
    calls = call_ids (sorted s.tool_call_accums)

    from_tools : Bool → List (FuneraMessage Json)
    from_tools b = if b then [] else results json t.answer s.tool_call_accums s.turn_finish_reason

    none_called : (b : Bool) → request_ids (from_tools b) ≡ []
    none_called true = refl
    none_called false = (ids-results json t.answer s.tool_call_accums s.turn_finish_reason).0

    all_answered :
        (b : Bool)
        → response_ids (from_tools b)
          ≡ (if b then [] else if continues s.turn_finish_reason then calls else [])
    all_answered true = refl
    all_answered false = (ids-results json t.answer s.tool_call_accums s.turn_finish_reason).1
