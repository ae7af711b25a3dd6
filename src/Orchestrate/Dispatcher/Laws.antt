-- ===== src/Orchestrate/Dispatcher/Laws.antt =====
-- What the listener of funera-orchestrate/src/dispatcher.rs delivers.
use funera.Prelude.{[], ◌∷◌, ◌++◌, ◌≡◌, ℕ, List, refl, ap, map}
use funera.Events.{ReactEvent}
use funera.Env.Actor.{EnvStateEvent, session_closed, per_turn_bus_ready}
use funera.Orchestrate.Event.{AgentEvent, done}
use funera.Orchestrate.Dispatcher.{
  Received, event, lagged, closed, approval, forward_approvals, listen_env_state, Dispatched,
  on_env_event,
}

-- the events that arrive before the channel is closed
abbrev pub arrived : {E : Type 0} → List (Received E) → List E
arrived [] = []
arrived (event e ∷ rest) = e ∷ arrived rest
arrived (lagged ∷ rest) = arrived rest
arrived (closed ∷ rest) = []

-- the events that arrive before one is missed
abbrev pub unbroken : {E : Type 0} → List (Received E) → List E
unbroken [] = []
unbroken (event e ∷ rest) = e ∷ unbroken rest
unbroken (lagged ∷ rest) = []
unbroken (closed ∷ rest) = []

-- the events up to the end of the session and with it
abbrev pub until_closed : List EnvStateEvent → List EnvStateEvent
until_closed [] = []
until_closed (session_closed ∷ es) = session_closed ∷ []
until_closed (e ∷ es) = e ∷ until_closed es

-- the turns that are announced
abbrev pub turns : List EnvStateEvent → List ℕ
turns [] = []
turns (per_turn_bus_ready n ∷ es) = n ∷ turns es
turns (e ∷ es) = turns es

module _ {Json : Type 0} where
  -- one `Done` for each end of a session
  abbrev pub dones : List EnvStateEvent → List (AgentEvent Json)
  dones [] = []
  dones (session_closed ∷ es) = done ∷ dones es
  dones (e ∷ es) = dones es

  abbrev pub approvals : List (ReactEvent Json) → List (AgentEvent Json)
  approvals [] = []
  approvals (e ∷ es) = approval e ++ approvals es

  pub forward-approvals :
      (xs : List (Received (ReactEvent Json))) → forward_approvals xs ≡ approvals (unbroken xs)
  unfolding forward_approvals
  forward-approvals [] = refl
  forward-approvals (event e ∷ rest) = ap (λ l. approval e ++ l) (forward-approvals rest)
  forward-approvals (lagged ∷ rest) = refl
  forward-approvals (closed ∷ rest) = refl

  -- A turn's task forwards nothing of what it would receive after an event that it missed: the
  -- approvals it sends are those that it would have sent without what follows.
  pub forward_approvals-append_lagged :
      (xs ys : List (Received (ReactEvent Json)))
      → forward_approvals (xs ++ lagged ∷ ys) ≡ forward_approvals xs
  unfolding forward_approvals
  forward_approvals-append_lagged [] ys = refl
  forward_approvals-append_lagged (event e ∷ rest) ys =
      ap (λ l. approval e ++ l) (forward_approvals-append_lagged rest ys)
  forward_approvals-append_lagged (lagged ∷ rest) ys = refl
  forward_approvals-append_lagged (closed ∷ rest) ys = refl

  module _ (react_rx : ℕ → List (Received (ReactEvent Json))) where
    abbrev pub dispatched : List EnvStateEvent → Dispatched Json
    dispatched es = record {
      raw = es;
      own = dones es;
      spawned = map (λ n. approvals (unbroken (react_rx n))) (turns es);
    }

    step-dispatched :
        (e : EnvStateEvent) (es : List EnvStateEvent)
        → on_env_event react_rx e (dispatched (until_closed es))
          ≡ dispatched (until_closed (e ∷ es))
    step-dispatched session_closed es = refl
    step-dispatched (per_turn_bus_ready n) es = rw (forward-approvals (react_rx n)) refl
    step-dispatched _ es = refl

    -- The raw channel gets every event that arrives before the channel is closed, in order, up to the
    -- end of the session and with it. `Done` is sent once, with that end, and not at all without
    -- one. Each announced turn up to there has a task of its own, which sends the approvals that the
    -- turn's bus delivers before an event is missed, in order, and no other event.
    pub listen_env_state-dispatched :
        (rs : List (Received EnvStateEvent))
        → listen_env_state react_rx rs ≡ dispatched (until_closed (arrived rs))
    unfolding listen_env_state
    listen_env_state-dispatched [] = refl
    listen_env_state-dispatched (event e ∷ rest) =
        rw (listen_env_state-dispatched rest) (step-dispatched e (arrived rest))
    listen_env_state-dispatched (lagged ∷ rest) = listen_env_state-dispatched rest
    listen_env_state-dispatched (closed ∷ rest) = refl
