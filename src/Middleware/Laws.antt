-- ===== src/Middleware/Laws.antt =====
-- What a chain of `funera_core/src/middleware.rs` lets through, and who blocks.
use funera.Prelude.{[], ◌∷◌, ◌≡◌, ◌++◌, refl, arith, List, Bool, ◌∙◌, sym, ap, String}
use funera.Events.{Result, ok, err}
use funera.Middleware.{
  MutatorMiddleware, MutatorAction, pass, modify, block, MiddlewareLayer, inspector, mutator,
  MiddlewareBlocked, MiddlewareChain, InspectorError, run_mutators, process_layers, process,
}

module _ {Evt : Type 0} where
  -- every mutator of the chain, in the order of registration, whatever the layers
  abbrev pub all_mutators : List (MiddlewareLayer Evt) → List (MutatorMiddleware Evt)
  all_mutators [] = []
  all_mutators (inspector is ∷ layers) = all_mutators layers
  all_mutators (mutator ms ∷ layers) = ms ++ all_mutators layers

  abbrev and_then :
      Result Evt MiddlewareBlocked
      → (Evt → Result Evt MiddlewareBlocked)
      → Result Evt MiddlewareBlocked
  and_then (ok e) k = k e
  and_then (err b) k = err b

  run_mutators-append :
      (ms ns : List (MutatorMiddleware Evt)) (e : Evt)
      → run_mutators (ms ++ ns) e ≡ and_then (run_mutators ms e) (run_mutators ns)
  unfolding run_mutators
  run_mutators-append [] ns e = refl
  run_mutators-append (m ∷ ms) ns e = by_action (m.process e) (run_mutators-append ms ns)
    where
      by_action :
          (a : MutatorAction Evt)
          → ((x : Evt) → run_mutators (ms ++ ns) x ≡ and_then (run_mutators ms x) (run_mutators ns))
          → (elim a [
            | pass ↦ run_mutators (ms ++ ns) e
            | modify x ↦ run_mutators (ms ++ ns) x
            | block reason ↦ err (record { middleware_name = m.name; reason = reason })
          ])
            ≡ and_then
                (elim a [
                  | pass ↦ run_mutators ms e
                  | modify x ↦ run_mutators ms x
                  | block reason ↦ err (record { middleware_name = m.name; reason = reason })
                ])
                (run_mutators ns)
      by_action pass ih = ih e
      by_action (modify x) ih = ih x
      by_action (block reason) ih = refl

  process_layers-run_mutators :
      (tx : Bool) (layers : List (MiddlewareLayer Evt)) (e : Evt)
      → (process_layers tx layers e).0 ≡ run_mutators (all_mutators layers) e
  unfolding process_layers
  process_layers-run_mutators tx [] e = refl
  process_layers-run_mutators tx (inspector is ∷ layers) e = process_layers-run_mutators tx layers e
  process_layers-run_mutators tx (mutator ms ∷ layers) e =
      by_result (run_mutators ms e) (process_layers-run_mutators tx layers)
      ∙ sym (run_mutators-append ms (all_mutators layers) e)
    where
      by_result :
          (r : Result Evt MiddlewareBlocked)
          → ((x : Evt) → (process_layers tx layers x).0 ≡ run_mutators (all_mutators layers) x)
          → (let next : Result Evt MiddlewareBlocked × List InspectorError = elim r [
            | ok x ↦ process_layers tx layers x
            | err b ↦ (err b, [])
          ] in
              next.0)
            ≡ and_then r (run_mutators (all_mutators layers))
      by_result (ok x) ih = ih x
      by_result (err b) ih = refl

  -- A chain's verdict is that of all its mutators run in the order of registration: it depends on
  -- no inspector, on no grouping into layers, and not on the error channel.
  pub process-run_mutators :
      (c : MiddlewareChain Evt) (e : Evt) → (process c e).0 ≡ run_mutators (all_mutators c.layers) e
  unfolding process
  process-run_mutators c e = process_layers-run_mutators c.error_tx c.layers e

  -- who blocked: what the mutators before it have made of the event
  pub record IsBlocker (ms : List (MutatorMiddleware Evt)) (e : Evt) (b : MiddlewareBlocked)
      : Type 0 where
    pub earlier : List (MutatorMiddleware Evt)
    pub middleware : MutatorMiddleware Evt
    pub later : List (MutatorMiddleware Evt)
    pub split : ms ≡ earlier ++ middleware ∷ later
    pub seen : Evt
    pub passed : run_mutators earlier e ≡ ok seen
    pub action : middleware.process seen ≡ block b.reason
    pub named : middleware.name ≡ b.middleware_name

  run_mutators-pass :
      (m : MutatorMiddleware Evt) (ms : List (MutatorMiddleware Evt)) (e : Evt)
      → m.process e ≡ pass
      → run_mutators (m ∷ ms) e ≡ run_mutators ms e
  unfolding run_mutators
  run_mutators-pass m ms e h = rw h refl

  run_mutators-modify :
      (m : MutatorMiddleware Evt) (ms : List (MutatorMiddleware Evt)) (e x : Evt)
      → m.process e ≡ modify x
      → run_mutators (m ∷ ms) e ≡ run_mutators ms x
  unfolding run_mutators
  run_mutators-modify m ms e x h = rw h refl

  run_mutators-block :
      (m : MutatorMiddleware Evt) (ms : List (MutatorMiddleware Evt)) (e : Evt) (reason : String)
      → m.process e ≡ block reason
      → run_mutators (m ∷ ms) e ≡ err (record { middleware_name = m.name; reason = reason })
  unfolding run_mutators
  run_mutators-block m ms e reason h = rw h refl

  IsBlocker-cons :
      (m : MutatorMiddleware Evt) (ms : List (MutatorMiddleware Evt)) (e x : Evt)
      (b : MiddlewareBlocked)
      → ((ns : List (MutatorMiddleware Evt)) → run_mutators (m ∷ ns) e ≡ run_mutators ns x)
      → IsBlocker ms x b
      → IsBlocker (m ∷ ms) e b
  IsBlocker-cons m ms e x b h f = record {
    earlier = m ∷ f.earlier;
    middleware = f.middleware;
    later = f.later;
    split = ap (λ l. m ∷ l) f.split;
    seen = f.seen;
    passed = h f.earlier ∙ f.passed;
    action = f.action;
    named = f.named;
  }

  run_mutators-nil : (e : Evt) → run_mutators [] e ≡ ok e
  unfolding run_mutators
  run_mutators-nil e = refl

  run_mutators-IsBlocker :
      (ms : List (MutatorMiddleware Evt)) (e : Evt) (b : MiddlewareBlocked)
      → run_mutators ms e ≡ err b
      → IsBlocker ms e b
  run_mutators-IsBlocker [] e b h = absurd (ok-ne-err (sym (run_mutators-nil e) ∙ h))
    where
      ok-ne-err : ok e ≡ err b → ⊥
      ok-ne-err h = cc
  run_mutators-IsBlocker (m ∷ ms) e b h =
      by_action (m.process e) refl (λ x k. run_mutators-IsBlocker ms x b k)
    where
      by_action :
          (a : MutatorAction Evt)
          → m.process e ≡ a
          → ((x : Evt) → run_mutators ms x ≡ err b → IsBlocker ms x b)
          → IsBlocker (m ∷ ms) e b
      by_action pass p ih =
          IsBlocker-cons m ms e e b (λ ns. run_mutators-pass m ns e p)
            (ih e (sym (run_mutators-pass m ms e p) ∙ h))
      by_action (modify x) p ih =
          IsBlocker-cons m ms e x b (λ ns. run_mutators-modify m ns e x p)
            (ih x (sym (run_mutators-modify m ms e x p) ∙ h))
      by_action (block reason) p ih =
          let k = sym (run_mutators-block m ms e reason p) ∙ h in
          record {
            earlier = [];
            middleware = m;
            later = ms;
            split = refl;
            seen = e;
            passed = run_mutators-nil e;
            action = p ∙ ap block (ground (arith, k));
            named = ground (arith, k);
          }

  -- A blocked event names a mutator of the chain that did block, for the reason that is reported,
  -- what the mutators before it, in the order of registration, had made of the event.
  pub process-IsBlocker :
      (c : MiddlewareChain Evt) (e : Evt) (b : MiddlewareBlocked)
      → (process c e).0 ≡ err b
      → IsBlocker (all_mutators c.layers) e b
  process-IsBlocker c e b h =
      run_mutators-IsBlocker (all_mutators c.layers) e b (sym (process-run_mutators c e) ∙ h)
