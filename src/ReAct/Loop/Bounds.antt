-- ===== src/ReAct/Loop/Bounds.antt =====
-- `ReActLoop::run` of funera_core/src/re_act.rs only adds to what it writes, and asks the provider
-- at most `max_iteration` times.
use funera.ReAct.Loop.Writes.{
  Writes, Extends-if, Extends-refl, Grows-refl, loop_of, Extends-append, Writes-trans,
}
use funera.ReAct.Loop.{
  Loop, MiddlewareEvent, Step, Wiring, go_on, abort, cancel_loop, emit_event, end_turn,
  filter_and_store, StreamState, send, TurnFinish, finish_turn, Turn, response_event,
  handle_turn_finish, turn_events, is_during_tools, begin_turn, read_stream, run, run_from,
  run_turn, Arrival, CancelPoint, process_token_stream, is_before_turn, is_during_stream,
  is_during_request, stream_cancelled, before_turn, during_request, during_stream, during_tools,
  not_cancelled, after_stream, on_response, advance,
}
use mathlib.Core.Option
use funera.Prelude.{
  [], ◌∷◌, ◌+◌, ◌∙◌, refl, arith, if◌then◌else◌, List, ℕ, String, sym, append-nil, Option, inl, inr,
  map, Bool-cases, ◌||◌, none, some, zero, suc, length-append,
}
use funera.Json.{JsonOps}
use funera.ReAct.Loop.{go_on, stop, abort}
use funera.Events.{FinishReason, Result, ok, err, ReactEvent, turn_end, turn_start}
use funera.ReAct.Loop.Store.{filter_and_store-IsStored, passed, all_stored}

module _ {Json Evt : Type 0} where
  pub advance-Writes :
      (n : ℕ) (rest : Loop Json Evt → Loop Json Evt × Option String) (step : Step Json Evt)
      {l : Loop Json Evt}
      → Writes 1 l (loop_of step)
      → ((next : Loop Json Evt) → Writes n next (rest next).0)
      → Writes (suc n) l (advance rest step).0
  unfolding advance
  advance-Writes n rest (go_on next) h later =
      let all = Writes-trans 1 n h (later next) in
      record { grows = all.grows; bound = omega (arith, all.bound) }
  advance-Writes n rest (stop final) h later = record {
    grows = h.grows;
    bound = omega (arith, h.bound);
  }
  advance-Writes n rest (abort final e) h later = record {
    grows = h.grows;
    bound = omega (arith, h.bound);
  }

module _ {Json Evt : Type 0} (json : JsonOps Json) (events : MiddlewareEvent Json Evt)
    (debug : FinishReason → String) (w : Wiring Evt) where
  filter_and_store-Writes :
      (es : List Evt) (l : Loop Json Evt) → Writes 0 l (filter_and_store events w es l)
  filter_and_store-Writes es l =
      let k = filter_and_store-IsStored events w es l in
      let after = filter_and_store events w es l in
      record {
        grows = record {
          session =
              Extends-if w.session_tx l.session (all_stored events (passed w es)) after.session
                k.session;
          emitted = Extends-if w.event_sender l.emitted (passed w es) after.emitted k.emitted;
          react = record { added = []; split = k.react ∙ sym (append-nil l.react) };
          requests = record { added = []; split = k.requests ∙ sym (append-nil l.requests) };
        };
        bound = rw k.requests (omega arith);
      }

  emit_event-Writes : (e : Evt) (l : Loop Json Evt) → Writes 0 l (emit_event w e l)
  unfolding emit_event
  emit_event-Writes e l = record {
    grows = record {
      session = Extends-refl l.session;
      emitted = Extends-if w.event_sender l.emitted (e ∷ []) _ refl;
      react = Extends-refl l.react;
      requests = Extends-refl l.requests;
    };
    bound = omega arith;
  }

  send-Writes : (es : List (ReactEvent Json)) (l : Loop Json Evt) → Writes 0 l (send es l)
  send-Writes es l = record {
    grows = record {
      session = Extends-refl l.session;
      emitted = Extends-refl l.emitted;
      react = Extends-append l.react es;
      requests = Extends-refl l.requests;
    };
    bound = omega arith;
  }

  pub cancel_loop-Writes :
      (l : Loop Json Evt) → Writes 0 l (loop_of (cancel_loop json events debug w l))
  unfolding cancel_loop
  cancel_loop-Writes l = filter_and_store-Writes (events.cancelled ∷ []) l

  end_turn-Writes :
      (s : StreamState Json) (f : TurnFinish Json) (l : Loop Json Evt)
      → Writes 0 l (loop_of (end_turn json events debug w s f l))
  unfolding end_turn
  end_turn-Writes s f l =
      let answers = map (response_event events) f.tool_results in
      let answered = filter_and_store events w answers l in
      let last = events.turn_end (Option.map debug s.turn_finish_reason) s.turn_usage in
      let ended = emit_event w last answered in
      let written =
        Writes-trans 0 0 (filter_and_store-Writes answers l) (
          Writes-trans 0 0 (emit_event-Writes last answered) (send-Writes (turn_end ∷ []) ended)) in
      elim (Bool-cases f.should_continue) [
        | inl more ↦ rw more written
        | inr enough ↦ rw enough written
      ]

  finish_turn-Writes :
      (t : Turn Json) (s : StreamState Json) (l : Loop Json Evt)
      → Writes 0 l (loop_of (finish_turn json events debug w t s l))
  unfolding finish_turn
  finish_turn-Writes t s l =
      let f = handle_turn_finish json t.answer s.turn_finish_reason s.tool_call_accums in
      let called = filter_and_store events w (turn_events json events s) l in
      let sent = send f.sent called in
      let before =
        Writes-trans 0 0 (filter_and_store-Writes (turn_events json events s) l)
          (send-Writes f.sent called) in
      elim (Bool-cases (is_during_tools t.cancel)) [
        | inl fired ↦ rw fired (Writes-trans 0 0 before (cancel_loop-Writes sent))
        | inr quiet ↦ rw quiet (Writes-trans 0 0 before (end_turn-Writes s f sent))
      ]

  after_stream-Writes :
      (t : Turn Json) (arrivals : List (Arrival String)) (s : StreamState Json)
      (failure : Option String) (l : Loop Json Evt)
      → Writes 0 l (loop_of (after_stream json events debug w t arrivals s failure l))
  unfolding after_stream
  after_stream-Writes t arrivals s (some e) l = record { grows = Grows-refl l; bound = omega arith }
  after_stream-Writes t arrivals s none l =
      elim (Bool-cases (is_during_stream t.cancel || stream_cancelled arrivals)) [
        | inl fired ↦ rw fired (cancel_loop-Writes l)
        | inr quiet ↦ rw quiet (finish_turn-Writes t s l)
      ]

  pub on_response-Writes :
      (t : Turn Json) (r : Result (List (Arrival String)) String) (l : Loop Json Evt)
      → Writes 0 l (loop_of (on_response json events debug w t r l))
  unfolding on_response read_stream
  on_response-Writes t (err e) l = record { grows = Grows-refl l; bound = omega arith }
  on_response-Writes t (ok arrivals) l =
      let (s, failure) = process_token_stream arrivals in
      Writes-trans 0 0 (send-Writes s.sent l)
        (after_stream-Writes t arrivals s failure (send s.sent l))

  begin_turn-Writes :
      (t : Turn Json) (l : Loop Json Evt) → Writes 1 l (begin_turn json events debug w t l)
  unfolding begin_turn emit_event
  begin_turn-Writes t l = record {
    grows = record {
      session = Extends-refl l.session;
      emitted = Extends-if w.event_sender l.emitted (events.turn_start ∷ []) _ refl;
      react = Extends-append l.react (turn_start ∷ []);
      requests = Extends-append l.requests _;
    };
    bound = omega (arith, length-append {0} l.requests);
  }

  pub run_turn-Writes :
      (t : Turn Json) (l : Loop Json Evt) → Writes 1 l (loop_of (run_turn json events debug w t l))
  unfolding run_turn
  run_turn-Writes t l = by_cancel t.cancel
    where
      begun : Loop Json Evt
      begun = begin_turn json events debug w t l

      answered : Step Json Evt
      answered = on_response json events debug w t t.response begun

      whole : Writes 1 l (loop_of answered)
      whole = Writes-trans 1 0 (begin_turn-Writes t l) (on_response-Writes t t.response begun)

      by_cancel :
          (c : CancelPoint)
          → Writes 1 l (
              loop_of (
                if is_before_turn c
                then cancel_loop json events debug w l
                else if is_during_request c
                then cancel_loop json events debug w begun
                else answered))
      by_cancel before_turn =
          Writes-trans 0 1 (cancel_loop-Writes l)
            (record { grows = Grows-refl _; bound = omega arith })
      by_cancel during_request = Writes-trans 1 0 (begin_turn-Writes t l) (cancel_loop-Writes begun)
      by_cancel during_stream = whole
      by_cancel during_tools = whole
      by_cancel not_cancelled = whole

  run_from-Writes :
      (left : ℕ) (turns : ℕ → Turn Json) (iteration : ℕ) (l : Loop Json Evt)
      → Writes left l (run_from json events debug w left turns iteration l).0
  unfolding run_from
  run_from-Writes zero turns iteration l = record { grows = Grows-refl l; bound = omega arith }
  run_from-Writes (suc left) turns iteration l =
      advance-Writes left (run_from json events debug w left turns (iteration + 1))
        (run_turn json events debug w (turns iteration) l) (run_turn-Writes (turns iteration) l)
        (run_from-Writes left turns (iteration + 1))

  -- However the provider, the tools, the middleware and the cancellation behave, a run asks the
  -- provider at most `max_iteration` times, and the session, the emitted events and the react bus
  -- only grow: nothing that was there before is changed, dropped or reordered.
  pub run-Writes :
      (max_iteration : ℕ) (turns : ℕ → Turn Json) (l : Loop Json Evt)
      → Writes max_iteration l (run json events debug w max_iteration turns l).0
  unfolding run
  run-Writes max_iteration turns l = run_from-Writes max_iteration turns 0 l
