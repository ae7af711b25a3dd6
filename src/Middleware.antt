-- ===== src/Middleware.antt =====
-- The middleware chain (funera_core/src/middleware.rs). An inspector's error is its message, and its
-- task is taken to run at once; a chain with its error channel active has `error_tx = true`.
pub mod Laws
use funera.Prelude.{
  [], ◌∷◌, ◌++◌, true, false, none, some, if◌then◌else◌, List, Option, Bool, String,
}
use funera.Events.{Result, ok, err}

pub record InspectorMiddleware (Evt : Type 0) : Type 0 where
  pub name : String
  pub inspect : Evt → Option String

pub data MutatorAction (Evt : Type 0) : Type 0 where
  pass : MutatorAction Evt
  modify : Evt → MutatorAction Evt
  block : String → MutatorAction Evt

pub record MutatorMiddleware (Evt : Type 0) : Type 0 where
  pub name : String
  pub process : Evt → MutatorAction Evt

pub data MiddlewareLayer (Evt : Type 0) : Type 0 where
  inspector : List (InspectorMiddleware Evt) → MiddlewareLayer Evt
  mutator : List (MutatorMiddleware Evt) → MiddlewareLayer Evt

pub record MiddlewareBlocked : Type 0 where
  pub middleware_name : String
  pub reason : String

pub record MiddlewareChain (Evt : Type 0) : Type 0 where
  pub layers : List (MiddlewareLayer Evt)
  pub error_tx : Bool

-- what an inspector sends on the error channel: its name and its error
abbrev pub InspectorError : Type 0
InspectorError = String × String

module _ {Evt : Type 0} where
  abbrev pub new : MiddlewareChain Evt
  new = record { layers = []; error_tx = false }

  abbrev pub activate_error_channel : MiddlewareChain Evt → MiddlewareChain Evt
  activate_error_channel c = record { layers = c.layers; error_tx = true }

  push_layer : MiddlewareLayer Evt → MiddlewareChain Evt → MiddlewareChain Evt
  push_layer l c = record c { layers = c.layers ++ l ∷ [] }

  pub with_inspector : InspectorMiddleware Evt → MiddlewareChain Evt → MiddlewareChain Evt
  unfolding push_layer
  with_inspector i c = push_layer (inspector (i ∷ [])) c

  -- the tuple and the iterator variants: an empty group adds no layer
  pub with_inspectors : List (InspectorMiddleware Evt) → MiddlewareChain Evt → MiddlewareChain Evt
  unfolding push_layer
  with_inspectors [] c = c
  with_inspectors (i ∷ is) c = push_layer (inspector (i ∷ is)) c

  pub with_mutator : MutatorMiddleware Evt → MiddlewareChain Evt → MiddlewareChain Evt
  unfolding push_layer
  with_mutator m c = push_layer (mutator (m ∷ [])) c

  pub with_mutators : List (MutatorMiddleware Evt) → MiddlewareChain Evt → MiddlewareChain Evt
  unfolding push_layer
  with_mutators [] c = c
  with_mutators (m ∷ ms) c = push_layer (mutator (m ∷ ms)) c

  unfoldable pub run_mutators : List (MutatorMiddleware Evt) → Evt → Result Evt MiddlewareBlocked
  run_mutators [] current = ok current
  run_mutators (m ∷ ms) current = elim (m.process current) [
    | pass ↦ run_mutators ms current
    | modify e ↦ run_mutators ms e
    | block reason ↦ err (record { middleware_name = m.name; reason = reason })
  ]

  -- The event goes on as it came; the errors are sent if the channel is there.
  unfoldable pub run_inspectors : Bool → List (InspectorMiddleware Evt) → Evt → List InspectorError
  run_inspectors error_tx [] event = []
  run_inspectors error_tx (i ∷ is) event =
      let rest = run_inspectors error_tx is event in
      elim (i.inspect event) [
        | none ↦ rest
        | some e ↦ if error_tx then (i.name, e) ∷ rest else rest
      ]

  -- the loop of `process`, with the errors that the inspectors have sent
  unfoldable pub process_layers :
      Bool → List (MiddlewareLayer Evt) → Evt → Result Evt MiddlewareBlocked × List InspectorError
  unfolding run_mutators run_inspectors
  process_layers error_tx [] current = (ok current, [])
  process_layers error_tx (inspector is ∷ layers) current =
      let (r, errors) = process_layers error_tx layers current in
      (r, run_inspectors error_tx is current ++ errors)
  process_layers error_tx (mutator ms ∷ layers) current = elim (run_mutators ms current) [
    | ok e ↦ process_layers error_tx layers e
    | err b ↦ (err b, [])
  ]

  unfoldable pub process :
      MiddlewareChain Evt → Evt → Result Evt MiddlewareBlocked × List InspectorError
  unfolding process_layers
  process c event = process_layers c.error_tx c.layers event
