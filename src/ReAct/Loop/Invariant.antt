-- ===== src/ReAct/Loop/Invariant.antt =====
-- The invariant rule of the loop of funera_core/src/re_act.rs: what holds at the start of a run and is
-- kept by each kind of write holds at its end.
use funera.ReAct.Loop.{
  MiddlewareEvent, FinishReason, Wiring, Loop, StreamState, ToolCallAccumulator, ToolExecResult,
  after_stream, cancel_loop, end_turn, filter_and_store, finish_turn, on_response, run, run_from,
  run_turn, ReactEvent, Turn, TurnFinish, read_stream, text_events, Arrival, Result, Step,
  call_event, handle_turn_finish, response_event, send, advance, begin_turn, err, is_before_turn,
  is_during_stream, parsed_args, sorted, turn_end, TokenUsage, go_on, is_during_request, ok,
  stream_cancelled, turn_events, emit_event, is_during_tools, process_token_stream, stop, abort,
}
use funera.Json.{JsonOps}
use mathlib.Core.Option
use funera.ReAct.Loop.Writes.{loop_of}
use funera.Prelude.{
  All, All-append, [], ◌∷◌, ◌+◌, ◌||◌, none, some, zero, suc, List, Option, ℕ, String, inl, inr,
  map, Bool-cases, is_empty,
}

module _ {ℓ} {Json Evt : Type 0} (json : JsonOps Json) (events : MiddlewareEvent Json Evt)
    (debug : FinishReason → String) (w : Wiring Evt) where
  -- `Q` holds of the events that go through the middleware
  pub record IsKept (P : Loop Json Evt → Type ℓ) (Q : Evt → Type 0) : Type ℓ where
    pub stored :
        (es : List Evt) (l : Loop Json Evt) → All Q es → P l → P (filter_and_store events w es l)
    pub sent : (es : List (ReactEvent Json)) (l : Loop Json Evt) → P l → P (send es l)
    pub begun : (t : Turn Json) (l : Loop Json Evt) → P l → P (begin_turn json events debug w t l)
    pub ended :
        (reason : Option String) (usage : Option TokenUsage) (l : Loop Json Evt)
        → P l
        → P (emit_event w (events.turn_end reason usage) l)
    pub cancelled : Q events.cancelled
    pub text :
        (content : String) (reasoning : Option String) → Q (events.assistant_text content reasoning)
    pub request :
        (call_id name : String) (args : Json) → Q (events.tool_call_request call_id name args)
    pub response :
        (call_id name : String) (r : Result String String) → Q (events.tool_response call_id name r)

  module _ {P : Loop Json Evt → Type ℓ} {Q : Evt → Type 0} (kept : IsKept P Q) where
    All-text_events : (s : StreamState Json) → All Q (text_events json events s)
    All-text_events s = elim (Bool-cases (is_empty s.assistant_content)) [
      | inl silent ↦ rw silent tt
      | inr spoken ↦ rw spoken (kept.text s.assistant_content _, tt)
    ]

    All-calls : (accs : List ToolCallAccumulator) → All Q (map (call_event json events) accs)
    All-calls [] = tt
    All-calls (a ∷ accs) = (kept.request a.call_id a.name (parsed_args json a), All-calls accs)

    All-responses : (rs : List ToolExecResult) → All Q (map (response_event events) rs)
    All-responses [] = tt
    All-responses (r ∷ rs) = (kept.response r.call_id r.name r.result, All-responses rs)

    cancel_loop-kept : (l : Loop Json Evt) → P l → P (loop_of (cancel_loop json events debug w l))
    unfolding cancel_loop
    cancel_loop-kept l h = kept.stored (events.cancelled ∷ []) l (kept.cancelled, tt) h

    end_turn-kept :
        (s : StreamState Json) (f : TurnFinish Json) (l : Loop Json Evt)
        → P l
        → P (loop_of (end_turn json events debug w s f l))
    unfolding end_turn
    end_turn-kept s f l h =
        let answered =
          kept.stored (map (response_event events) f.tool_results) l (All-responses f.tool_results)
            h in
        let closed =
          kept.sent (turn_end ∷ []) _
            (kept.ended (Option.map debug s.turn_finish_reason) s.turn_usage _ answered) in
        elim (Bool-cases f.should_continue) [
          | inl more ↦ rw more closed
          | inr enough ↦ rw enough closed
        ]

    finish_turn-kept :
        (t : Turn Json) (s : StreamState Json) (l : Loop Json Evt)
        → P l
        → P (loop_of (finish_turn json events debug w t s l))
    unfolding finish_turn
    finish_turn-kept t s l h =
        let f = handle_turn_finish json t.answer s.turn_finish_reason s.tool_call_accums in
        let own =
          All-append Q (text_events json events s)
            (map (call_event json events) (sorted s.tool_call_accums)) (All-text_events s)
            (All-calls (sorted s.tool_call_accums)) in
        let called = kept.sent f.sent _ (kept.stored (turn_events json events s) l own h) in
        elim (Bool-cases (is_during_tools t.cancel)) [
          | inl fired ↦ rw fired (cancel_loop-kept _ called)
          | inr quiet ↦ rw quiet (end_turn-kept s f _ called)
        ]

    after_stream-kept :
        (t : Turn Json) (arrivals : List (Arrival String)) (s : StreamState Json)
        (failure : Option String) (l : Loop Json Evt)
        → P l
        → P (loop_of (after_stream json events debug w t arrivals s failure l))
    unfolding after_stream
    after_stream-kept t arrivals s (some e) l h = h
    after_stream-kept t arrivals s none l h =
        elim (Bool-cases (is_during_stream t.cancel || stream_cancelled arrivals)) [
          | inl fired ↦ rw fired (cancel_loop-kept l h)
          | inr quiet ↦ rw quiet (finish_turn-kept t s l h)
        ]

    on_response-kept :
        (t : Turn Json) (r : Result (List (Arrival String)) String) (l : Loop Json Evt)
        → P l
        → P (loop_of (on_response json events debug w t r l))
    unfolding on_response read_stream
    on_response-kept t (err e) l h = h
    on_response-kept t (ok arrivals) l h =
        let (s, failure) = process_token_stream {Json = Json} arrivals in
        after_stream-kept t arrivals s failure (send s.sent l) (kept.sent s.sent l h)

    run_turn-kept :
        (t : Turn Json) (l : Loop Json Evt) → P l → P (loop_of (run_turn json events debug w t l))
    unfolding run_turn
    run_turn-kept t l h =
        let begun = kept.begun t l h in
        elim (Bool-cases (is_before_turn t.cancel)) [
          | inl fired ↦ rw fired (cancel_loop-kept l h)
          | inr later ↦ rw later (elim (Bool-cases (is_during_request t.cancel)) [
            | inl fired ↦ rw fired (cancel_loop-kept _ begun)
            | inr quiet ↦ rw quiet (on_response-kept t t.response _ begun)
          ])
        ]

    run_from-kept :
        (left : ℕ) (turns : ℕ → Turn Json) (i : ℕ) (l : Loop Json Evt)
        → P l
        → P (run_from json events debug w left turns i l).0
    unfolding run_from
    run_from-kept zero turns i l h = h
    run_from-kept (suc left) turns i l h =
        advance-kept (run_from-kept left turns (i + 1)) (run_turn json events debug w (turns i) l)
          (run_turn-kept (turns i) l h)
      where
        advance-kept :
            ((m : Loop Json Evt) → P m → P (run_from json events debug w left turns (i + 1) m).0)
            → (s : Step Json Evt) → P (loop_of s)
            → P (advance (run_from json events debug w left turns (i + 1)) s).0
        advance-kept rest (go_on m) k = rest m k
        advance-kept rest (stop m) k = k
        advance-kept rest (abort m e) k = k

    pub run-kept :
        (max_iteration : ℕ) (turns : ℕ → Turn Json) (l : Loop Json Evt)
        → P l
        → P (run json events debug w max_iteration turns l).0
    unfolding run
    run-kept max_iteration turns l h = run_from-kept max_iteration turns 0 l h
