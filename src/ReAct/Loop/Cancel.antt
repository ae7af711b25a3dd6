-- ===== src/ReAct/Loop/Cancel.antt =====
-- The cancellation token in `ReActLoop::run` of funera_core/src/re_act.rs: the iteration in which it
-- fires is the last.
use funera.Json.{JsonOps}
use funera.Prelude.{
  length, ◌≡◌, ◌≢◌, ◌⊎◌, ◌≤◌, ◌+◌, ◌||◌, true, false, none, some, refl, arith, zero, suc,
  if◌then◌else◌, List, Option, Bool, ℕ, String, inl, inr, Bool-cases, ap,
}
use funera.Events.{FinishReason, Result, ok, err}
use funera.ReAct.Loop.{
  go_on, stop, abort, MiddlewareEvent, Step, Wiring, after_stream, on_response, run_from, run_turn,
  Turn, cancel_loop, finish_turn, read_stream, Arrival, Loop, StreamState, is_during_stream,
  not_cancelled, CancelPoint, is_during_tools, is_before_turn, process_token_stream,
  is_during_request, send, stream_cancelled, begin_turn, before_turn, during_request, during_stream,
  during_tools, advance, run,
}
use funera.ReAct.Loop.Bounds.{run_turn-Writes}
use funera.ReAct.Loop.Writes.{Writes, loop_of}

module _ {Json Evt : Type 0} where
  abbrev pub is_last : Step Json Evt → Bool
  is_last (go_on l) = false
  is_last (stop l) = true
  is_last (abort l e) = true

module _ {Json Evt : Type 0} {l : Loop Json Evt}
    (rest : Loop Json Evt → Loop Json Evt × Option String) where
  advance_last :
      (step : Step Json Evt)
      → Writes 1 l (loop_of step)
      → is_last step ≡ true
      → length (advance rest step).0.requests ≤ length l.requests + 1
  unfolding advance
  advance_last (go_on next) h last = cc
  advance_last (stop final) h last = h.bound
  advance_last (abort final e) h last = h.bound

  advance_bound :
      (k : ℕ) (step : Step Json Evt)
      → Writes 1 l (loop_of step)
      → ((next : Loop Json Evt) → length (rest next).0.requests ≤ length next.requests + k + 1)
      → length (advance rest step).0.requests ≤ length l.requests + suc k + 1
  unfolding advance
  advance_bound k (go_on next) h later = omega (arith, h.bound, later next)
  advance_bound k (stop final) h later = omega (arith, h.bound)
  advance_bound k (abort final e) h later = omega (arith, h.bound)

module _ {Json Evt : Type 0} (json : JsonOps Json) (events : MiddlewareEvent Json Evt)
    (debug : FinishReason → String) (w : Wiring Evt) where
  after_stream-is_last :
      (t : Turn Json) (arrivals : List (Arrival String)) (s : StreamState Json)
      (failure : Option String) (l : Loop Json Evt)
      → (is_during_stream t.cancel ≡ true) ⊎ (is_during_tools t.cancel ≡ true)
      → is_last (after_stream json events debug w t arrivals s failure l) ≡ true
  unfolding after_stream finish_turn cancel_loop
  after_stream-is_last t arrivals s (some e) l h = refl
  after_stream-is_last t arrivals s none l (inl e) = rw e
  after_stream-is_last t arrivals s none l (inr e) =
      elim (Bool-cases (is_during_stream t.cancel || stream_cancelled arrivals)) [
        | inl fired ↦ rw fired
        | inr quiet ↦ rw quiet (rw e)
      ]

  on_response-is_last :
      (t : Turn Json) (r : Result (List (Arrival String)) String) (l : Loop Json Evt)
      → (is_during_stream t.cancel ≡ true) ⊎ (is_during_tools t.cancel ≡ true)
      → is_last (on_response json events debug w t r l) ≡ true
  unfolding on_response read_stream
  on_response-is_last t (err e) l h = refl
  on_response-is_last t (ok arrivals) l h =
      let (s, failure) = process_token_stream arrivals in
      after_stream-is_last t arrivals s failure (send s.sent l) h

  run_turn-is_last :
      (t : Turn Json) (l : Loop Json Evt)
      → t.cancel ≢ not_cancelled
      → is_last (run_turn json events debug w t l) ≡ true
  unfolding run_turn cancel_loop
  run_turn-is_last t l h = by_cancel t.cancel refl h
    where
      by_cancel :
          (c : CancelPoint)
          → t.cancel ≡ c
          → c ≢ not_cancelled
          → is_last (
              if is_before_turn c
              then cancel_loop json events debug w l
              else if is_during_request c
              then cancel_loop json events debug w (begin_turn json events debug w t l)
              else on_response json events debug w t t.response
                  (begin_turn json events debug w t l))
            ≡ true
      by_cancel before_turn e n = refl
      by_cancel during_request e n = refl
      by_cancel during_stream e n = on_response-is_last t t.response _ (inl (ap is_during_stream e))
      by_cancel during_tools e n = on_response-is_last t t.response _ (inr (ap is_during_tools e))
      by_cancel not_cancelled e n = absurd (n refl)

  run_from_cancelled :
      (left : ℕ) (turns : ℕ → Turn Json) (iteration k : ℕ) (l : Loop Json Evt)
      → (turns (iteration + k)).cancel ≢ not_cancelled
      → length (run_from json events debug w left turns iteration l).0.requests
        ≤ length l.requests + k + 1
  unfolding run_from
  run_from_cancelled zero turns iteration k l h = omega arith
  run_from_cancelled (suc left) turns iteration zero l h =
      let step = run_turn json events debug w (turns iteration) l in
      let i : iteration + 0 ≡ iteration = omega arith in
      let last = run_turn-is_last (turns iteration) l (λ e. h (rw i e)) in
      omega (
        arith,
        advance_last (run_from json events debug w left turns (iteration + 1)) step
            (run_turn-Writes json events debug w (turns iteration) l) last,
      )
  run_from_cancelled (suc left) turns iteration (suc k) l h =
      let i : iteration + suc k ≡ iteration + 1 + k = omega arith in
      advance_bound (run_from json events debug w left turns (iteration + 1)) k
        (run_turn json events debug w (turns iteration) l)
        (run_turn-Writes json events debug w (turns iteration) l)
        (λ next. run_from_cancelled left turns (iteration + 1) k next (λ e. h (rw i e)))

  -- If the token fires in iteration `k` or before the loop gets there, the provider is asked at
  -- most `k + 1` times: no request is made after the iteration in which the token has fired,
  -- whatever the middleware does with the cancellation event.
  pub run_cancelled :
      (max_iteration : ℕ) (turns : ℕ → Turn Json) (k : ℕ) (l : Loop Json Evt)
      → (turns k).cancel ≢ not_cancelled
      → length (run json events debug w max_iteration turns l).0.requests
        ≤ length l.requests + k + 1
  unfolding run
  run_cancelled max_iteration turns k l h =
      run_from_cancelled max_iteration turns 0 k l
        (let i : 0 + k ≡ k = omega arith in λ e. h (rw i at e))
