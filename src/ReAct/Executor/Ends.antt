-- ===== src/ReAct/Executor/Ends.antt =====
-- The workers of funera_core/src/re_act/tool_executor.rs end once the queue has no sender.
use funera.Prelude.{
  All, [], ◌∷◌, ◌++◌, ◌+◌, ◌≡◌, ◌≤◌, ◌⊎◌, inl, inr, true, false, none, some, refl, arith, zero, suc,
  List, Bool, ℕ, length, get_elem?, all, max, is_some, ap, ◌∙◌, if◌then◌else◌,
}
use funera.ReAct.Executor.{
  ToolExecCommand, Worker, ToolExecutor, Move, waiting, executing, ended, send, close, receive,
  poll, on_recv, on_poll, select, execute_command, step, run, spawn,
}
use funera.ReAct.Executor.Shutdown.{is_ended}
use funera.Security.Registry.Call.{World}
use funera.ReAct.Executor.Work.{
  work, IsLess, Some, run-IsLess, Some-map, on_recv-waiting, respond-executing, weights,
}
use funera.ReAct.Executor.Shutdown.{run-Keeps, any-replicate, length-replicate, IsOrderly}

module _ {Json F64 : Type 0} (world : World Json F64) where
  -- the runtime polls the worker at `recv`
  abbrev pub Receives : ℕ → Move Json F64 → Type 0
  Receives i (receive j) = j ≡ i
  Receives i _ = ⊥

  -- it polls the worker in the `select!`, with the token fired or the call at its end, whatever the
  -- command is
  abbrev pub Finishes : ℕ → Move Json F64 → Type 0
  Finishes i (poll j cancelled registry call) =
      (j ≡ i)
      × ((c : ToolExecCommand Json)
          → is_some (select cancelled (execute_command world registry call c)) ≡ true)
  Finishes i _ = ⊥

  Receives-IsLess :
      (i : ℕ) (s : ToolExecutor Json)
      → s.closed ≡ true
      → get_elem? s.workers i ≡ some waiting
      → (m : Move Json F64) → Receives i m
      → IsLess s (step world m s)
  Receives-IsLess i s shut h (receive j) e = rw (e, h) (on_recv-waiting i s.exec_rx s refl shut h)
  Receives-IsLess i s shut h (send c) e = absurd e
  Receives-IsLess i s shut h close e = absurd e
  Receives-IsLess i s shut h (poll j cancelled registry call) e = absurd e

  Finishes-IsLess :
      (i : ℕ) (c : ToolExecCommand Json) (s : ToolExecutor Json)
      → s.closed ≡ true
      → get_elem? s.workers i ≡ some (executing c)
      → (m : Move Json F64) → Finishes i m
      → IsLess s (step world m s)
  unfolding on_poll
  Finishes-IsLess i c s shut h (poll j cancelled registry call) (e, done) =
      rw (e, h)
        (respond-executing i c (select cancelled (execute_command world registry call c)) s shut h
          (done c))
  Finishes-IsLess i c s shut h (send d) e = absurd e
  Finishes-IsLess i c s shut h close e = absurd e
  Finishes-IsLess i c s shut h (receive j) e = absurd e

  -- every worker is polled, wherever it is in its loop
  abbrev pub IsRound : ℕ → List (Move Json F64) → Type 0
  IsRound n ms = (i : ℕ) → i + 1 ≤ n → Some (Receives i) ms × Some (Finishes i) ms

  -- a worker that has not ended
  abbrev AtWork : List (Worker Json) → ℕ → Type 0
  AtWork ws i =
      (get_elem? ws i ≡ some waiting)
      ⊎ ((c : ToolExecCommand Json) × (get_elem? ws i ≡ some (executing c)))

  at_work :
      (ws : List (Worker Json))
      → (all is_ended ws ≡ true) ⊎ ((i : ℕ) × (i + 1 ≤ length ws) × AtWork ws i)
  at_work [] = inl refl
  at_work (waiting ∷ ws) = inr (0, omega arith, inl refl)
  at_work (executing c ∷ ws) = inr (0, omega arith, inr (c, refl))
  at_work (ended ∷ ws) = elim (at_work ws) [
    | inl h ↦ inl h
    | inr (i, p, h) ↦ inr (suc i, omega arith, h)
  ]

  round-IsLess :
      (n : ℕ) (ms : List (Move Json F64)) (s : ToolExecutor Json)
      → s.closed ≡ true
      → length s.workers ≡ n
      → IsRound n ms
      → (all is_ended s.workers ≡ true) ⊎ IsLess s (run world ms s)
  round-IsLess n ms s shut len round = elim (at_work s.workers) [
    | inl h ↦ inl h
    | inr (i, p, inl h) ↦ inr (
        run-IsLess world ms s shut
          (Some-map (Receives-IsLess i s shut h) ms (round i (omega (arith, p, len))).0))
    | inr (i, p, inr (c, h)) ↦ inr (
        run-IsLess world ms s shut
          (Some-map (Finishes-IsLess i c s shut h) ms (round i (omega (arith, p, len))).1))
  ]

module _ {Json F64 : Type 0} (world : World Json F64) where
  get_elem?-ended :
      (i : ℕ) (ws : List (Worker Json))
      → all is_ended ws ≡ true
      → (get_elem? ws i ≡ none) ⊎ (get_elem? ws i ≡ some ended)
  get_elem?-ended i [] h = inl refl
  get_elem?-ended zero (ended ∷ ws) h = inr refl
  get_elem?-ended (suc i) (ended ∷ ws) h = get_elem?-ended i ws h
  get_elem?-ended i (waiting ∷ ws) h = absurd cc
  get_elem?-ended i (executing c ∷ ws) h = absurd cc

  step-ended :
      (m : Move Json F64) (s : ToolExecutor Json)
      → all is_ended s.workers ≡ true
      → (step world m s).workers ≡ s.workers
  unfolding on_recv on_poll
  step-ended (send c) s h = if-workers s.closed
    where
      if-workers :
          (b : Bool)
          → (if b then s else record s { exec_rx = s.exec_rx ++ c ∷ [] }).workers ≡ s.workers
      if-workers true = refl
      if-workers false = refl
  step-ended close s h = refl
  step-ended (receive i) s h = elim (get_elem?-ended i s.workers h) [
    | inl e ↦ rw e refl
    | inr e ↦ rw e refl
  ]
  step-ended (poll i cancelled registry call) s h = elim (get_elem?-ended i s.workers h) [
    | inl e ↦ rw e refl
    | inr e ↦ rw e refl
  ]

  run-ended :
      (ms : List (Move Json F64)) (s : ToolExecutor Json)
      → all is_ended s.workers ≡ true
      → all is_ended (run world ms s).workers ≡ true
  unfolding run
  run-ended [] s h = h
  run-ended (m ∷ ms) s h = run-ended ms (step world m s) (ap (all is_ended) (step-ended m s h) ∙ h)

  abbrev pub run_rounds : List (List (Move Json F64)) → ToolExecutor Json → ToolExecutor Json
  run_rounds [] s = s
  run_rounds (r ∷ rounds) s = run_rounds rounds (run world r s)

  run_rounds-ended :
      (rounds : List (List (Move Json F64))) (s : ToolExecutor Json)
      → all is_ended s.workers ≡ true
      → all is_ended (run_rounds rounds s).workers ≡ true
  run_rounds-ended [] s h = h
  run_rounds-ended (r ∷ rounds) s h = run_rounds-ended rounds (run world r s) (run-ended r s h)

  none_left : (ws : List (Worker Json)) → weights ws ≤ 0 → all is_ended ws ≡ true
  none_left [] h = refl
  none_left (ended ∷ ws) h = none_left ws (omega (arith, h))
  none_left (waiting ∷ ws) h = absurd (omega arith)
  none_left (executing c ∷ ws) h = absurd (omega arith)

  rounds-ended :
      (n : ℕ) (rounds : List (List (Move Json F64))) (s : ToolExecutor Json)
      → s.closed ≡ true
      → IsOrderly s
      → length s.workers ≡ n
      → All (IsRound world n) rounds
      → work s ≤ length rounds
      → all is_ended (run_rounds rounds s).workers ≡ true
  rounds-ended n [] s shut tidy len each bound = none_left s.workers (omega (arith, bound))
  rounds-ended n (r ∷ rounds) s shut tidy len (round, each) bound =
      elim (round-IsLess world n r s shut len round) [
        | inl h ↦ run_rounds-ended rounds (run world r s) (run-ended r s h)
        | inr (less, shut_after) ↦
            let kept = run-Keeps world r s tidy in
            rounds-ended n rounds (run world r s) shut_after kept.1 (kept.0 ∙ len) each
              (omega (arith, less, bound))
      ]

  -- Once the last sender of the queue is gone, whatever the workers were doing, they have all ended
  -- after as many rounds as there is work: two for each command in the queue and for each that is
  -- executed, and one for each worker that waits. In a round every worker is polled at least once at
  -- `recv` and once in its `select!`, in any order and with any other moves in between, with its token
  -- fired or its call at its end.
  pub run_rounds-is_ended :
      (max_concurrent_tools : ℕ) (ms : List (Move Json F64)) (rounds : List (List (Move Json F64)))
      → (run world ms (spawn max_concurrent_tools)).closed ≡ true
      → All (IsRound world (max max_concurrent_tools 1)) rounds
      → work (run world ms (spawn max_concurrent_tools)) ≤ length rounds
      → all is_ended (run_rounds rounds (run world ms (spawn max_concurrent_tools))).workers ≡ true
  unfolding spawn
  run_rounds-is_ended n ms rounds shut each bound =
      let kept = run-Keeps world ms (spawn n) (inl (any-replicate world (max n 1))) in
      rounds-ended (max n 1) rounds (run world ms (spawn n)) shut kept.1
        (kept.0 ∙ length-replicate {Json = Json} (max n 1) waiting) each bound
