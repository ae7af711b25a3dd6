-- ===== src/Orchestrate/Response/Turns.antt =====
-- What a turn of the loop (funera_core/src/re_act.rs) adds to the response that is gathered from its
-- events (funera-orchestrate/src/send_handle.rs).
use funera.Orchestrate.Response.Events.{
  info_of, pending_of, gather-results, gather-text_events, gather-call_events,
}
use funera.ReAct.Loop.Writes.{loop_of}
use funera.ReAct.Loop.Store.{filter_and_store-IsStored}
use funera.Orchestrate.Ids.{unfiltered, passed-unfiltered}
use funera.Orchestrate.Turns.{ReachesTools, run_turn-finish_turn, continues}
use funera.ReAct.Loop.{
  response_event, Turn, Loop, end_turn, filter_and_store, finish_turn, turn_events, begin_turn,
  emit_event, run_turn, is_during_tools, send, text_events,
}
use funera.ReAct.Finish.{TurnFinish, handle_turn_finish, sorted}
use funera.Events.{FinishReason}
use mathlib.Core.Option
use funera.Orchestrate.Response.{gather_event, ChatResponse, Pending, nothing_gathered}
use funera.ReAct.Stream.{ToolCallAccumulator, Arrival, StreamState, process_token_stream}
use funera.Json.{JsonOps}
use funera.Prelude.{
  [], ◌∷◌, ◌≡◌, ◌++◌, ◌∙◌, List, String, map, ap, append_assoc, inl, inr, Bool-cases, false, ◌+◌,
  if◌then◌else◌, is_empty,
}
use funera.Orchestrate.Response.Laws.{gather, gather-append}
use funera.Orchestrate.Event.{agent_events, AgentEvent, turn_start, turn_end}
use funera.ReAct.Loop.{call_event}

module _ {Json : Type 0} (json : JsonOps Json) (debug : FinishReason → String) (t : Turn Json)
    (arrivals : List (Arrival String)) where
  abbrev pub stream : StreamState Json
  stream = (process_token_stream arrivals).0

  abbrev pub finished : TurnFinish Json
  finished = handle_turn_finish json t.answer stream.turn_finish_reason stream.tool_call_accums

  abbrev pub own : List (AgentEvent Json)
  own = turn_events json agent_events stream

  abbrev pub replies : List (AgentEvent Json)
  replies = map (response_event agent_events) finished.tool_results

  abbrev pub closing : AgentEvent Json
  closing = turn_end (Option.map debug stream.turn_finish_reason) stream.turn_usage

  -- all that the turn emits
  abbrev pub emissions : List (AgentEvent Json)
  emissions = turn_start ∷ (own ++ (replies ++ closing ∷ []))

  emitted-filter_and_store :
      (es : List (AgentEvent Json)) (m : Loop Json (AgentEvent Json))
      → (filter_and_store agent_events unfiltered es m).emitted ≡ m.emitted ++ es
  emitted-filter_and_store es m =
      (filter_and_store-IsStored agent_events unfiltered es m).emitted
      ∙ ap (λ xs. m.emitted ++ xs) (passed-unfiltered es)

  emitted-end_turn :
      (m : Loop Json (AgentEvent Json))
      → (loop_of (end_turn json agent_events debug unfiltered stream finished m)).emitted
        ≡ m.emitted ++ (replies ++ closing ∷ [])
  unfolding end_turn emit_event
  emitted-end_turn m =
      let e =
        ap (λ es. es ++ closing ∷ []) (emitted-filter_and_store replies m)
        ∙ append_assoc m.emitted replies (closing ∷ []) in
      elim (Bool-cases finished.should_continue) [ inl more ↦ rw more e | inr enough ↦ rw enough e ]

  emitted-finish_turn :
      (m : Loop Json (AgentEvent Json))
      → is_during_tools t.cancel ≡ false
      → (loop_of (finish_turn json agent_events debug unfiltered t stream m)).emitted
        ≡ m.emitted ++ (own ++ (replies ++ closing ∷ []))
  unfolding finish_turn
  emitted-finish_turn m quiet = rw quiet (
      emitted-end_turn (send finished.sent (filter_and_store agent_events unfiltered own m))
      ∙ ap (λ es. es ++ (replies ++ closing ∷ [])) (emitted-filter_and_store own m)
      ∙ append_assoc m.emitted own (replies ++ closing ∷ []))

  emitted-run_turn :
      (l : Loop Json (AgentEvent Json))
      → ReachesTools t arrivals
      → is_during_tools t.cancel ≡ false
      → (loop_of (run_turn json agent_events debug unfiltered t l)).emitted ≡ l.emitted ++ emissions
  unfolding begin_turn emit_event
  emitted-run_turn l h quiet =
      ap (λ step. (loop_of step).emitted) (run_turn-finish_turn json debug t arrivals h l)
      ∙ emitted-finish_turn (send stream.sent (begin_turn json agent_events debug unfiltered t l))
          quiet
      ∙ append_assoc l.emitted (turn_start ∷ []) (own ++ (replies ++ closing ∷ []))

  abbrev pub calls : List ToolCallAccumulator
  calls = sorted stream.tool_call_accums

  -- what the turn makes of the response so far
  abbrev pub turn_response : ChatResponse Json → ChatResponse Json
  turn_response r = record {
    content = if is_empty stream.assistant_content then r.content else stream.assistant_content;
    tool_calls =
        r.tool_calls
        ++ (if continues stream.turn_finish_reason then map (info_of json t.answer) calls else []);
    iterations = r.iterations + 1;
    finish_reason = Option.map debug stream.turn_finish_reason;
    usage = stream.turn_usage;
  }

  abbrev pub unanswered : List (Pending Json)
  unanswered = if continues stream.turn_finish_reason then [] else map (pending_of json) calls

  abbrev pub begun : ChatResponse Json → ChatResponse Json
  begun r = record r { iterations = r.iterations + 1 }

  abbrev pub told : ChatResponse Json → ChatResponse Json
  told r = record r {
    content = if is_empty stream.assistant_content then r.content else stream.assistant_content;
  }

  gather-own :
      (r : ChatResponse Json)
      → gather own (record { response = r; pending = [] })
        ≡ record { response = told r; pending = map (pending_of json) calls }
  gather-own r =
      gather-append (text_events json agent_events stream)
        (map (call_event json agent_events) calls) (record { response = r; pending = [] })
      ∙ ap (λ g. gather (map (call_event json agent_events) calls) g)
          (gather-text_events json stream r [])
      ∙ gather-call_events json calls (told r) []

  gather-turn :
      (r : ChatResponse Json)
      → gather emissions (record { response = r; pending = [] })
        ≡ record { response = turn_response r; pending = unanswered }
  unfolding gather gather_event
  gather-turn r =
      gather-append own (replies ++ closing ∷ []) (record { response = begun r; pending = [] })
      ∙ ap (λ g. gather (replies ++ closing ∷ []) g) (gather-own (begun r))
      ∙ gather-append replies (closing ∷ [])
          (record { response = told (begun r); pending = map (pending_of json) calls })
      ∙ ap (λ g. gather (closing ∷ []) g)
          (gather-results json t.answer stream.turn_finish_reason stream.tool_call_accums
            (told (begun r)))

-- A turn whose stream is read to its end and that is not cancelled, run with `AgentEvent`, a session
-- and no middleware, changes the response gathered from the events of the loop as follows, if no
-- earlier call is without a result. The text is the turn's, if it has one. For the finish reasons
-- `ToolCalls` and `Length` there is one more tool call for each call of the stream, in the order of
-- the indices, with its name, its arguments and the tool's own answer to it; for another reason, or
-- none, there is no more tool call, and the calls stay without a result. There is one iteration more,
-- and the finish reason and the usage are the turn's.
pub run_turn-turn_response :
    {Json : Type 0} (json : JsonOps Json) (debug : FinishReason → String) (t : Turn Json)
    (arrivals : List (Arrival String)) (l : Loop Json (AgentEvent Json)) (r : ChatResponse Json)
    → ReachesTools t arrivals
    → is_during_tools t.cancel ≡ false
    → gather l.emitted nothing_gathered ≡ record { response = r; pending = [] }
    → gather (loop_of (run_turn json agent_events debug unfiltered t l)).emitted nothing_gathered
      ≡ record {
        response = turn_response json debug t arrivals r;
        pending = unanswered json debug t arrivals;
      }
run_turn-turn_response json debug t arrivals l r h quiet before =
    ap (λ es. gather es nothing_gathered) (emitted-run_turn json debug t arrivals l h quiet)
    ∙ gather-append l.emitted (emissions json debug t arrivals) nothing_gathered
    ∙ ap (λ g. gather (emissions json debug t arrivals) g) before
    ∙ gather-turn json debug t arrivals r
