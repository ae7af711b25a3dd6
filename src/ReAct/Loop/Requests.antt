-- ===== src/ReAct/Loop/Requests.antt =====
-- Which watched values the requests of `ReActLoop::run` of funera_core/src/re_act.rs carry.
use funera.ReAct.Loop.{
  Loop, Watched, Request, Turn, Step, go_on, stop, abort, MiddlewareEvent, Wiring, begin_turn,
  run_turn, run_from, run, advance, emit_event, cancel_loop, is_before_turn, is_during_request,
  on_response,
}
use funera.ReAct.Loop.Writes.{Writes, loop_of}
use funera.ReAct.Loop.Bounds.{cancel_loop-Writes, on_response-Writes}
use funera.Events.{FinishReason}
use funera.Json.{JsonOps}
use funera.Prelude.{
  [], ◌∷◌, ◌≡◌, ◌++◌, ◌+◌, zero, suc, List, ℕ, String, Option, refl, arith, length, length-append,
  append-nil, append_assoc, Bool-cases, inl, inr, ap, sym, ◌∙◌, ◌≤◌,
}

-- what is written without a request leaves the requests as they were
module _ {A : Type 0} where
  same_length : (l xs m : List A) → m ≡ l ++ xs → length m ≤ length l + 0 → xs ≡ []
  same_length l [] m e h = refl
  same_length l (x ∷ xs) m e h =
      let longer = ap (λ (q : List A). length q) e in
      absurd omega (arith, h, longer, length-append {0} l (x ∷ xs))

module _ {Json Evt : Type 0} where
  pub Writes-requests : {l m : Loop Json Evt} → Writes 0 l m → m.requests ≡ l.requests
  Writes-requests {l} {m} w =
      let e = w.grows.requests in
      e.split
      ∙ ap (λ xs. l.requests ++ xs) (same_length l.requests e.added m.requests e.split w.bound)
      ∙ append-nil l.requests

module _ {Json : Type 0} (C : ℕ → Watched Json → Type 0) where
  -- `C` holds of the watched values of the requests, which are made in the iterations from `i` on
  abbrev pub Each : ℕ → List (Request Json) → Type 0
  Each i [] = Unit
  Each i (r ∷ rs) = C i r.watched × Each (i + 1) rs

  -- the requests that a run adds, one in each iteration
  pub record Asks {Evt : Type 0} (i : ℕ) (before l : Loop Json Evt) : Type 0 where
    pub added : List (Request Json)
    pub split : l.requests ≡ before.requests ++ added
    pub each : Each i added

  Asks-none : {Evt : Type 0} (i : ℕ) (l m : Loop Json Evt) → m.requests ≡ l.requests → Asks i l m
  Asks-none i l m h = record { added = []; split = h ∙ sym (append-nil l.requests); each = tt }

  advance-Asks :
      {Evt : Type 0} (i : ℕ) (l : Loop Json Evt) (r : Request Json)
      (rest : Loop Json Evt → Loop Json Evt × Option String) (s : Step Json Evt)
      → C i r.watched
      → (loop_of s).requests ≡ l.requests ++ r ∷ []
      → ((next : Loop Json Evt) → Asks (i + 1) next (rest next).0)
      → Asks i l (advance rest s).0
  unfolding advance
  advance-Asks i l r rest (go_on m) c h later =
      let k = later m in
      record {
        added = r ∷ k.added;
        split = k.split ∙ ap (λ q. q ++ k.added) h ∙ append_assoc l.requests (r ∷ []) k.added;
        each = (c, k.each);
      }
  advance-Asks i l r rest (stop m) c h later = record { added = r ∷ []; split = h; each = (c, tt) }
  advance-Asks i l r rest (abort m e) c h later = record {
    added = r ∷ [];
    split = h;
    each = (c, tt);
  }

  module _ {Evt : Type 0} (json : JsonOps Json) (events : MiddlewareEvent Json Evt)
      (debug : FinishReason → String) (w : Wiring Evt) (turns : ℕ → Turn Json)
      (current : (i : ℕ) → C i (turns i).watched) where
    run_from-Asks :
        (left i : ℕ) (l : Loop Json Evt) → Asks i l (run_from json events debug w left turns i l).0
    unfolding run_from run_turn cancel_loop begin_turn emit_event
    run_from-Asks zero i l = Asks-none i l l refl
    run_from-Asks (suc left) i l =
        let t = turns i in
        let rest = run_from json events debug w left turns (i + 1) in
        let begun = begin_turn json events debug w t l in
        let later = run_from-Asks left (i + 1) in
        elim (Bool-cases (is_before_turn t.cancel)) [
          | inl fired ↦
              rw fired
                (Asks-none i l _ (Writes-requests (cancel_loop-Writes json events debug w l)))
          | inr quiet ↦ rw quiet (elim (Bool-cases (is_during_request t.cancel)) [
            | inl fired ↦ rw fired (
                advance-Asks i l _ rest (cancel_loop json events debug w begun) (current i)
                  (Writes-requests (cancel_loop-Writes json events debug w begun)) later)
            | inr later_on ↦ rw later_on (
                advance-Asks i l _ rest (on_response json events debug w t t.response begun)
                  (current i)
                  (Writes-requests (on_response-Writes json events debug w t t.response begun))
                  later)
          ])
        ]

    -- The requests of a run are those before it and, for each iteration that asked the provider, one that
    -- carries the values watched in that iteration.
    pub run-Asks :
        (max_iteration : ℕ) (l : Loop Json Evt)
        → Asks 0 l (run json events debug w max_iteration turns l).0
    unfolding run
    run-Asks max_iteration l = run_from-Asks max_iteration 0 l
