-- ===== src/ReAct/Executor/Work.antt =====
-- The work that is left for the workers of funera_core/src/re_act/tool_executor.rs once the queue has no
-- sender, and which moves do some of it.
use funera.Prelude.{
  [], ◌∷◌, ◌+◌, ◌≡◌, ◌≤◌, ◌⊎◌, inl, inr, true, none, some, refl, arith, zero, suc, List, Option,
  Bool, ℕ, String, length, get_elem?, is_some, ap, ◌∙◌,
}
use funera.ReAct.Executor.{
  ToolExecCommand, Worker, ToolExecutor, Move, waiting, executing, ended, send, close, receive,
  poll, set_at, on_recv, on_poll, respond, select, execute_command, step, run, enqueue,
}
use funera.Events.{Result}
use funera.Tool.Error.{ToolCallError}
use funera.Security.Registry.{GuardedToolRegistry}
use funera.Security.Registry.Call.{World, Call}

module _ {Json : Type 0} where
  -- the moves that a worker has ahead of it, and those for a command in the queue
  abbrev pub weight : Worker Json → ℕ
  weight waiting = 1
  weight (executing c) = 2
  weight ended = 0

  abbrev pub weights : List (Worker Json) → ℕ
  weights [] = 0
  weights (w ∷ ws) = weight w + weights ws

  abbrev pub work : ToolExecutor Json → ℕ
  work s = length s.exec_rx + length s.exec_rx + weights s.workers

  weights-set_at :
      (i : ℕ) (v w : Worker Json) (ws : List (Worker Json))
      → get_elem? ws i ≡ some v
      → weights (set_at i w ws) + weight v ≡ weights ws + weight w
  weights-set_at i v w [] h = absurd cc
  weights-set_at zero v w (u ∷ ws) h = rw (is_some-eq u v h) (omega arith)
    where
      is_some-eq : (u v : Worker Json) → some u ≡ some v → u ≡ v
      is_some-eq u v h = cc
  weights-set_at (suc i) v w (u ∷ ws) h = omega (arith, weights-set_at i v w ws h)

  -- a move changes nothing, or there is less work after it
  abbrev pub Progress : ToolExecutor Json → ToolExecutor Json → Type 0
  Progress s t = (t ≡ s) ⊎ ((work t + 1 ≤ work s) × (t.closed ≡ true))

  pub on_recv-waiting :
      (i : ℕ) (q : List (ToolExecCommand Json)) (s : ToolExecutor Json)
      → s.exec_rx ≡ q
      → s.closed ≡ true
      → get_elem? s.workers i ≡ some waiting
      → (work (on_recv i (some waiting) q s) + 1 ≤ work s)
        × ((on_recv i (some waiting) q s).closed ≡ true)
  unfolding on_recv
  on_recv-waiting i (c ∷ q) s e shut h =
      let queue = ap (λ (l : List (ToolExecCommand Json)). length l) e in
      (omega (arith, queue, weights-set_at i waiting (executing c) s.workers h), shut)
  on_recv-waiting i [] s e shut h =
      rw shut (omega (arith, weights-set_at i waiting ended s.workers h), refl)

  pub respond-executing :
      (i : ℕ) (c : ToolExecCommand Json) (r : Option (Result String (ToolCallError Json)))
      (s : ToolExecutor Json)
      → s.closed ≡ true
      → get_elem? s.workers i ≡ some (executing c)
      → is_some r ≡ true
      → (work (respond i c r s) + 1 ≤ work s) × ((respond i c r s).closed ≡ true)
  unfolding respond
  respond-executing i c none s shut h e = absurd cc
  respond-executing i c (some r) s shut h e =
      (omega (arith, weights-set_at i (executing c) waiting s.workers h), shut)

  on_recv-Progress :
      (i : ℕ) (o : Option (Worker Json)) (s : ToolExecutor Json)
      → s.closed ≡ true
      → get_elem? s.workers i ≡ o
      → Progress s (on_recv i o s.exec_rx s)
  unfolding on_recv
  on_recv-Progress i (some waiting) s shut h = inr (on_recv-waiting i s.exec_rx s refl shut h)
  on_recv-Progress i (some (executing c)) s shut h = inl refl
  on_recv-Progress i (some ended) s shut h = inl refl
  on_recv-Progress i none s shut h = inl refl

  respond-Progress :
      (i : ℕ) (c : ToolExecCommand Json) (r : Option (Result String (ToolCallError Json)))
      (s : ToolExecutor Json)
      → s.closed ≡ true
      → get_elem? s.workers i ≡ some (executing c)
      → Progress s (respond i c r s)
  unfolding respond
  respond-Progress i c none s shut h = inl refl
  respond-Progress i c (some r) s shut h = inr (respond-executing i c (some r) s shut h refl)

  enqueue-closed :
      (c : ToolExecCommand Json) (s : ToolExecutor Json) → s.closed ≡ true → enqueue c s ≡ s
  enqueue-closed c s shut = rw shut refl

  close-closed : (s : ToolExecutor Json) → s.closed ≡ true → record s { closed = true } ≡ s
  close-closed s shut = rw shut refl

  abbrev pub IsLess : ToolExecutor Json → ToolExecutor Json → Type 0
  IsLess s t = (work t + 1 ≤ work s) × (t.closed ≡ true)

module _ {Json F64 : Type 0} where
  -- some move of the list
  abbrev pub Some : (Move Json F64 → Type 0) → List (Move Json F64) → Type 0
  Some P [] = ⊥
  Some P (m ∷ ms) = P m ⊎ Some P ms

  pub Some-map :
      {P Q : Move Json F64 → Type 0}
      → ((m : Move Json F64) → P m → Q m)
      → (ms : List (Move Json F64)) → Some P ms
      → Some Q ms
  Some-map f [] h = h
  Some-map f (m ∷ ms) (inl h) = inl (f m h)
  Some-map f (m ∷ ms) (inr h) = inr (Some-map f ms h)

module _ {Json F64 : Type 0} (world : World Json F64) where
  on_poll-Progress :
      (i : ℕ) (cancelled : Bool) (registry : GuardedToolRegistry Json F64) (call : Call Json)
      (o : Option (Worker Json)) (s : ToolExecutor Json)
      → s.closed ≡ true
      → get_elem? s.workers i ≡ o
      → Progress s (on_poll world i cancelled registry call o s)
  unfolding on_poll
  on_poll-Progress i cancelled registry call (some (executing c)) s shut h =
      respond-Progress i c (select cancelled (execute_command world registry call c)) s shut h
  on_poll-Progress i cancelled registry call (some waiting) s shut h = inl refl
  on_poll-Progress i cancelled registry call (some ended) s shut h = inl refl
  on_poll-Progress i cancelled registry call none s shut h = inl refl

  step-Progress :
      (m : Move Json F64) (s : ToolExecutor Json) → s.closed ≡ true → Progress s (step world m s)
  step-Progress (send c) s shut = inl (enqueue-closed c s shut)
  step-Progress close s shut = inl (close-closed s shut)
  step-Progress (receive i) s shut = on_recv-Progress i (get_elem? s.workers i) s shut refl
  step-Progress (poll i cancelled registry call) s shut =
      on_poll-Progress i cancelled registry call (get_elem? s.workers i) s shut refl

  Progress-trans : (s t u : ToolExecutor Json) → Progress s t → Progress t u → Progress s u
  Progress-trans s t u (inl e) (inl k) = inl (k ∙ e)
  Progress-trans s t u (inl e) (inr k) =
      inr (omega (arith, k.0, ap (λ (x : ToolExecutor Json). work x) e), k.1)
  Progress-trans s t u (inr h) (inl k) = inr (
    omega (arith, h.0, ap (λ (x : ToolExecutor Json). work x) k),
    ap (λ (x : ToolExecutor Json). x.closed) k ∙ h.1,
  )
  Progress-trans s t u (inr h) (inr k) = inr (omega (arith, h.0, k.0), k.1)

  Progress-closed : (s t : ToolExecutor Json) → s.closed ≡ true → Progress s t → t.closed ≡ true
  Progress-closed s t shut (inl e) = ap (λ (x : ToolExecutor Json). x.closed) e ∙ shut
  Progress-closed s t shut (inr h) = h.1

  run-Progress :
      (ms : List (Move Json F64)) (s : ToolExecutor Json)
      → s.closed ≡ true
      → Progress s (run world ms s)
  unfolding run
  run-Progress [] s shut = inl refl
  run-Progress (m ∷ ms) s shut =
      let now = step-Progress m s shut in
      Progress-trans s (step world m s) (run world ms (step world m s)) now
        (run-Progress ms (step world m s) (Progress-closed s (step world m s) shut now))

  IsLess-Progress : (s t u : ToolExecutor Json) → IsLess s t → Progress t u → IsLess s u
  IsLess-Progress s t u h (inl e) = (
    omega (arith, h.0, ap (λ (x : ToolExecutor Json). work x) e),
    ap (λ (x : ToolExecutor Json). x.closed) e ∙ h.1,
  )
  IsLess-Progress s t u h (inr k) = (omega (arith, h.0, k.0), k.1)

  run-same :
      (ms : List (Move Json F64)) (s t : ToolExecutor Json)
      → t ≡ s
      → IsLess s (run world ms s)
      → IsLess s (run world ms t)
  run-same ms s t e h = rw e h

  -- a run in which some move would be work at its start is work
  pub run-IsLess :
      (ms : List (Move Json F64)) (s : ToolExecutor Json)
      → s.closed ≡ true
      → Some (λ m. IsLess s (step world m s)) ms
      → IsLess s (run world ms s)
  unfolding run
  run-IsLess [] s shut h = absurd h
  run-IsLess (m ∷ ms) s shut (inl h) =
      IsLess-Progress s (step world m s) (run world ms (step world m s)) h
        (run-Progress ms (step world m s) h.1)
  run-IsLess (m ∷ ms) s shut (inr h) = elim (step-Progress m s shut) [
    | inl e ↦ run-same ms s (step world m s) e (run-IsLess ms s shut h)
    | inr k ↦
        IsLess-Progress s (step world m s) (run world ms (step world m s)) k
          (run-Progress ms (step world m s) k.1)
  ]
