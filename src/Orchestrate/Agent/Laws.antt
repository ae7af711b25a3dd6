-- ===== src/Orchestrate/Agent/Laws.antt =====
-- The response of a call against the loop's requests, and the stream of a call against its response
-- (funera-orchestrate/src/agent.rs, send_handle.rs).
use funera.Orchestrate.Response.{
  nothing_gathered, aggregate_from, Gathered, gather_event, aggregate_from_broadcast,
}
use funera.Orchestrate.Agent.{
  Call, wiring, agent_events, Received, fire, react_loop, FuneraMessage, relay_broadcast_to_mpsc,
  send, at_session, event, lagged, push_message, close_session,
}
use funera.Orchestrate.Event.{AgentEvent, turn_start, done}
use funera.ReAct.Loop.Invariant.{IsKept, run-kept}
use funera.ReAct.Loop.{Loop, filter, filter_and_store, run, begin_turn, emit_event}
use funera.ReAct.Loop.Store.{filter_and_store-IsStored, verdict_events, passed}
use funera.Orchestrate.Response.Laws.{starts, gather, gather-iterations}
use funera.ReAct.Loop.Bounds.{run-Writes}
use funera.Events.{FinishReason}
use funera.Json.{JsonOps}
use funera.Prelude.{
  length, All, [], ◌∷◌, ◌≡◌, ◌++◌, ◌+◌, ◌∙◌, true, false, refl, arith, List, Bool, String, ◌≤◌,
  none, some, Option, ap, map, sym, length-append,
}

module _ {Json : Type 0} where
  abbrev pub is_start : AgentEvent Json → Bool
  is_start turn_start = true
  is_start _ = false

  pub starts-append : (xs ys : List (AgentEvent Json)) → starts (xs ++ ys) ≡ starts xs + starts ys
  starts-append [] ys = omega arith
  starts-append (turn_start ∷ xs) ys = omega (arith, starts-append xs ys)
  starts-append (x ∷ xs) ys = starts-append xs ys

module _ {Json : Type 0} (json : JsonOps Json) (debug : FinishReason → String) (c : Call Json) where
  -- the middleware makes no other event into the start of a turn
  abbrev pub MakesNoStart : Type 0
  MakesNoStart =
      (e : AgentEvent Json)
      → is_start e ≡ false
      → starts (verdict_events (filter c.middleware e).0) ≡ 0

  module _ (plain : MakesNoStart) where
    passed-starts :
        (es : List (AgentEvent Json))
        → All (λ e. is_start e ≡ false) es
        → starts (passed (wiring c) es) ≡ 0
    passed-starts [] h = refl
    passed-starts (e ∷ es) (h, hs) =
        starts-append (verdict_events (filter c.middleware e).0) (passed (wiring c) es)
        ∙ omega (arith, plain e h, passed-starts es hs)

    abbrev Counted : Loop Json (AgentEvent Json) → Type 0
    Counted l = starts l.emitted ≡ length l.requests

    Counted-kept : IsKept json agent_events debug (wiring c) Counted (λ e. is_start e ≡ false)
    unfolding begin_turn emit_event
    Counted-kept = record {
      stored = λ es l own h. store es l own h;
      sent = λ es l h. h;
      begun = λ t l h. rw starts-append (rw length-append (omega arith));
      ended = λ reason usage l h. rw starts-append (omega arith);
      cancelled = refl;
      text = λ content reasoning. refl;
      request = λ call_id name args. refl;
      response = λ call_id name r. refl;
    }
      where
        store :
            (es : List (AgentEvent Json)) (l : Loop Json (AgentEvent Json))
            → All (λ e. is_start e ≡ false) es
            → Counted l
            → Counted (filter_and_store agent_events (wiring c) es l)
        store es l own h =
            let k = filter_and_store-IsStored agent_events (wiring c) es l in
            ap starts k.emitted
            ∙ starts-append l.emitted (passed (wiring c) es)
            ∙ omega (arith, passed-starts es own)
            ∙ ap length (sym k.requests)

  -- the turns that the response counts are the requests, of which there are not too many
  pub record CountsRequests (l : Loop Json (AgentEvent Json)) : Type 0 where
    pub iterations : (gather l.emitted nothing_gathered).response.iterations ≡ length l.requests
    pub bound : length l.requests ≤ c.max_iterations

  react_loop-CountsRequests :
      MakesNoStart
      → (init_msg : FuneraMessage Json) (msgs : List (FuneraMessage Json))
      → CountsRequests (react_loop json debug init_msg c msgs).loop
  unfolding react_loop
  react_loop-CountsRequests plain init_msg msgs =
      by_end (run json agent_events debug (wiring c) c.max_iterations c.turns opened) (record {
        iterations = omega (
          arith,
          gather-iterations final.emitted nothing_gathered,
          run-kept json agent_events debug (wiring c) (Counted-kept plain) c.max_iterations c.turns
              opened refl,
        );
        bound = omega (
          arith,
          (run-Writes json agent_events debug (wiring c) c.max_iterations c.turns opened).bound,
        );
      })
    where
      opened : Loop Json (AgentEvent Json)
      opened = at_session (push_message json debug init_msg msgs)

      final : Loop Json (AgentEvent Json)
      final = (run json agent_events debug (wiring c) c.max_iterations c.turns opened).0

      by_end :
          (r : Loop Json (AgentEvent Json) × Option String)
          → CountsRequests r.0
          → CountsRequests (close_session json debug r).loop
      by_end (l, none) k = k
      by_end (l, some e) k = k

  -- The `iterations` of the response gathered from the events of a call is the number of requests
  -- that the call made to the provider, and it is at most `max_iterations`, for a one-shot call and
  -- for one in a session, however the call ends, if no middleware makes another event into a
  -- `TurnStart`.
  pub fire-send-CountsRequests :
      (system_prompt : Option String) (msgs : List (FuneraMessage Json))
      → MakesNoStart
      → CountsRequests (fire json debug system_prompt c).loop
        × CountsRequests (send json debug system_prompt c msgs).loop
  unfolding fire send
  fire-send-CountsRequests system_prompt msgs plain =
      (react_loop-CountsRequests plain _ _, react_loop-CountsRequests plain _ _)

-- where the stream of a call and its response part
module _ {Json : Type 0} where
  abbrev pub delivered : List (AgentEvent Json) → List (Received (AgentEvent Json))
  delivered es = map event es

  abbrev pub is_done : AgentEvent Json → Bool
  is_done done = true
  is_done _ = false

  relay_gap :
      (es : List (AgentEvent Json)) (rest : List (Received (AgentEvent Json)))
      → All (λ e. is_done e ≡ false) es
      → relay_broadcast_to_mpsc (delivered es ++ lagged ∷ rest) ≡ es
  unfolding relay_broadcast_to_mpsc
  relay_gap [] rest h = refl
  relay_gap (done ∷ es) rest h = absurd cc
  relay_gap (e ∷ es) rest h = ap (λ l. e ∷ l) (relay_gap es rest h.1)

  aggregate_gap :
      (es : List (AgentEvent Json)) (rest : List (Received (AgentEvent Json))) (g : Gathered Json)
      → aggregate_from (delivered es ++ lagged ∷ rest) g ≡ aggregate_from (delivered es ++ rest) g
  unfolding aggregate_from
  aggregate_gap [] rest g = refl
  aggregate_gap (done ∷ es) rest g = refl
  aggregate_gap (e ∷ es) rest g = aggregate_gap es rest (gather_event e g)

  -- A receiver that misses an event in the middle of a call ends the stream of the call: it has the
  -- events before the gap and none of those behind it, also no `Done`. The response of the same call
  -- is gathered as if the missed event had not been there.
  pub relay-append_lagged :
      (es : List (AgentEvent Json)) (rest : List (Received (AgentEvent Json)))
      → All (λ e. is_done e ≡ false) es
      → (relay_broadcast_to_mpsc (delivered es ++ lagged ∷ rest) ≡ es)
        × (aggregate_from_broadcast (delivered es ++ lagged ∷ rest)
            ≡ aggregate_from_broadcast (delivered es ++ rest))
  unfolding aggregate_from_broadcast
  relay-append_lagged es rest h = (relay_gap es rest h, aggregate_gap es rest nothing_gathered)
