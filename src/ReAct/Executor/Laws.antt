-- ===== src/ReAct/Executor/Laws.antt =====
-- What becomes of the commands that are sent to `ToolExecutor`.
use funera.Prelude.{
  [], ◌∷◌, ◌++◌, ◌≡◌, ap, inl, inr, Bool-cases, ◌+◌, ◌==◌, true, false, none, some, refl, arith,
  zero, suc, List, Option, Bool, ℕ, get_elem?, max, String,
}
use funera.ReAct.Executor.{
  ToolExecCommand, Worker, ToolExecutor, Move, waiting, executing, ended, send, close, receive,
  poll, set_at, on_recv, on_poll, respond, select, execute_command, run, spawn, enqueue, replicate,
  GuardedToolRegistry, Call,
}
use funera.Events.{Result}
use funera.Tool.Error.{ToolCallError}
use funera.Security.Registry.Call.{World}

abbrev pub one : Bool → ℕ
one true = 1
one false = 0

module _ {Json : Type 0} (k : ℕ) where
  -- how often a command is in the queue, in the hands of the workers, and answered
  abbrev pub queued : List (ToolExecCommand Json) → ℕ
  queued [] = 0
  queued (c ∷ cs) = one (c.resp_tx == k) + queued cs

  abbrev pub weight : Worker Json → ℕ
  weight waiting = 0
  weight (executing c) = one (c.resp_tx == k)
  weight ended = 0

  abbrev pub busy : List (Worker Json) → ℕ
  busy [] = 0
  busy (w ∷ ws) = weight w + busy ws

  abbrev pub answered : List (ℕ × Result String (ToolCallError Json)) → ℕ
  answered [] = 0
  answered ((i, r) ∷ l) = one (i == k) + answered l

  abbrev pub held : ToolExecutor Json → ℕ
  held s = answered s.answers + busy s.workers + queued s.exec_rx

  queued-append :
      (cs : List (ToolExecCommand Json)) (c : ToolExecCommand Json)
      → queued (cs ++ c ∷ []) ≡ queued cs + one (c.resp_tx == k)
  queued-append [] c = omega arith
  queued-append (d ∷ cs) c = omega (arith, queued-append cs c)

  answered-append :
      (l : List (ℕ × Result String (ToolCallError Json))) (i : ℕ)
      (r : Result String (ToolCallError Json))
      → answered (l ++ (i, r) ∷ []) ≡ answered l + one (i == k)
  answered-append [] i r = omega arith
  answered-append ((j, q) ∷ l) i r = omega (arith, answered-append l i r)

  weight-eq :
      (v w : Worker Json) → Path (Option (Worker Json)) (some v) (some w) → weight v ≡ weight w
  weight-eq v w h = ap weight cc

  busy-set_at :
      (i : ℕ) (v w : Worker Json) (ws : List (Worker Json))
      → get_elem? ws i ≡ some v
      → busy (set_at i w ws) + weight v ≡ busy ws + weight w
  busy-set_at i v w [] h = cc
  busy-set_at zero v w (u ∷ ws) h = omega (arith, weight-eq u v h)
  busy-set_at (suc i) v w (u ∷ ws) h = omega (arith, busy-set_at i v w ws h)

  on_recv-held :
      (i : ℕ) (o : Option (Worker Json)) (q : List (ToolExecCommand Json)) (s : ToolExecutor Json)
      → get_elem? s.workers i ≡ o
      → s.exec_rx ≡ q
      → held (on_recv i o q s) ≡ held s
  unfolding on_recv
  on_recv-held i (some waiting) (c ∷ q) s h e =
      rw e (omega (arith, busy-set_at i waiting (executing c) s.workers h))
  on_recv-held i (some waiting) [] s h e = elim (Bool-cases s.closed) [
    | inl c ↦ rw c (omega (arith, busy-set_at i waiting ended s.workers h))
    | inr c ↦ rw c refl
  ]
  on_recv-held i (some (executing c)) q s h e = refl
  on_recv-held i (some ended) q s h e = refl
  on_recv-held i none q s h e = refl

  respond-held :
      (i : ℕ) (c : ToolExecCommand Json) (r : Option (Result String (ToolCallError Json)))
      (s : ToolExecutor Json)
      → get_elem? s.workers i ≡ some (executing c)
      → held (respond i c r s) ≡ held s
  unfolding respond
  respond-held i c none s h = refl
  respond-held i c (some r) s h = omega (
    arith,
    answered-append s.answers c.resp_tx r,
    busy-set_at i (executing c) waiting s.workers h,
  )

module _ {Json F64 : Type 0} where
  -- the commands that are sent while the queue has a sender, in order
  abbrev pub accepted : Bool → List (Move Json F64) → List (ToolExecCommand Json)
  accepted closed [] = []
  accepted true (send cmd ∷ ms) = accepted true ms
  accepted false (send cmd ∷ ms) = cmd ∷ accepted false ms
  accepted closed (close ∷ ms) = accepted true ms
  accepted closed (receive i ∷ ms) = accepted closed ms
  accepted closed (poll i cancelled registry call ∷ ms) = accepted closed ms

module _ {Json : Type 0} where
  on_recv-closed :
      (i : ℕ) (o : Option (Worker Json)) (q : List (ToolExecCommand Json)) (s : ToolExecutor Json)
      → (on_recv i o q s).closed ≡ s.closed
  unfolding on_recv
  on_recv-closed i (some waiting) (c ∷ q) s = refl
  on_recv-closed i (some waiting) [] s = elim (Bool-cases s.closed) [
    | inl c ↦ rw c refl
    | inr c ↦ rw c refl
  ]
  on_recv-closed i (some (executing c)) q s = refl
  on_recv-closed i (some ended) q s = refl
  on_recv-closed i none q s = refl

  respond-closed :
      (i : ℕ) (c : ToolExecCommand Json) (r : Option (Result String (ToolCallError Json)))
      (s : ToolExecutor Json)
      → (respond i c r s).closed ≡ s.closed
  unfolding respond
  respond-closed i c none s = refl
  respond-closed i c (some r) s = refl

  enqueue-closed :
      (c : ToolExecCommand Json) (s : ToolExecutor Json) → (enqueue c s).closed ≡ s.closed
  enqueue-closed c s = elim (Bool-cases s.closed) [
    | inl shut ↦ rw shut refl
    | inr at_work ↦ rw at_work refl
  ]

  -- what sending a command adds
  abbrev fresh : ℕ → ToolExecCommand Json → Bool → ℕ
  fresh k c true = 0
  fresh k c false = one (c.resp_tx == k)

  enqueue-held :
      (k : ℕ) (c : ToolExecCommand Json) (s : ToolExecutor Json)
      → held k (enqueue c s) ≡ held k s + fresh k c s.closed
  enqueue-held k c s = elim (Bool-cases s.closed) [
    | inl shut ↦ rw shut (omega arith)
    | inr at_work ↦ rw at_work (omega (arith, queued-append k s.exec_rx c))
  ]

module _ {Json F64 : Type 0} (world : World Json F64) where
  on_poll-closed :
      (i : ℕ) (cancelled : Bool) (registry : GuardedToolRegistry Json F64) (call : Call Json)
      (o : Option (Worker Json)) (s : ToolExecutor Json)
      → (on_poll world i cancelled registry call o s).closed ≡ s.closed
  unfolding on_poll
  on_poll-closed i cancelled registry call (some (executing c)) s =
      respond-closed i c (select cancelled (execute_command world registry call c)) s
  on_poll-closed i cancelled registry call (some waiting) s = refl
  on_poll-closed i cancelled registry call (some ended) s = refl
  on_poll-closed i cancelled registry call none s = refl

  on_poll-held :
      (k i : ℕ) (cancelled : Bool) (registry : GuardedToolRegistry Json F64) (call : Call Json)
      (o : Option (Worker Json)) (s : ToolExecutor Json)
      → get_elem? s.workers i ≡ o
      → held k (on_poll world i cancelled registry call o s) ≡ held k s
  unfolding on_poll
  on_poll-held k i cancelled registry call (some (executing c)) s h =
      respond-held k i c (select cancelled (execute_command world registry call c)) s h
  on_poll-held k i cancelled registry call (some waiting) s h = refl
  on_poll-held k i cancelled registry call (some ended) s h = refl
  on_poll-held k i cancelled registry call none s h = refl

  accepted-send :
      (k : ℕ) (c : ToolExecCommand Json) (closed : Bool) (ms : List (Move Json F64))
      → queued k (accepted closed (send c ∷ ms)) ≡ fresh k c closed + queued k (accepted closed ms)
  accepted-send k c true ms = omega arith
  accepted-send k c false ms = refl

  pub run-held :
      (k : ℕ) (ms : List (Move Json F64)) (s : ToolExecutor Json)
      → held k (run world ms s) ≡ held k s + queued k (accepted s.closed ms)
  unfolding run
  run-held k [] s = omega arith
  run-held k (send c ∷ ms) s =
      rw (run-held k ms (enqueue c s))
        (rw (enqueue-closed c s) (omega (arith, enqueue-held k c s, accepted-send k c s.closed ms)))
  run-held k (close ∷ ms) s = run-held k ms (record s { closed = true })
  run-held k (receive i ∷ ms) s =
      rw (run-held k ms (on_recv i (get_elem? s.workers i) s.exec_rx s)) (
        rw (on_recv-held k i (get_elem? s.workers i) s.exec_rx s refl refl)
          (rw (on_recv-closed i (get_elem? s.workers i) s.exec_rx s) refl))
  run-held k (poll i cancelled registry call ∷ ms) s =
      rw (run-held k ms (on_poll world i cancelled registry call (get_elem? s.workers i) s)) (
        rw (on_poll-held k i cancelled registry call (get_elem? s.workers i) s refl)
          (rw (on_poll-closed i cancelled registry call (get_elem? s.workers i) s) refl))

  busy-replicate : (k m : ℕ) → busy {Json = Json} k (replicate m waiting) ≡ 0
  busy-replicate k zero = refl
  busy-replicate k (suc m) = omega (arith, busy-replicate k m)

  -- However the moves of the runtime interleave the workers, and whatever the tools answer, each
  -- command that is sent while the queue has a sender is at all times in the queue, in the hands of a
  -- worker, or answered: counted over its one-shot sender, these are together as many as were sent.
  pub run-accepted :
      (max_concurrent_tools : ℕ) (ms : List (Move Json F64)) (k : ℕ)
      → held k (run world ms (spawn max_concurrent_tools)) ≡ queued k (accepted false ms)
  unfolding spawn
  run-accepted n ms k = omega (arith, run-held k ms (spawn n), busy-replicate k (max n 1))
