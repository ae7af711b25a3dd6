-- ===== src/ReAct/Executor/Shutdown.antt =====
-- The end of the workers of funera_core/src/re_act/tool_executor.rs.
use funera.Prelude.{
  [], ◌∷◌, if◌then◌else◌, ◌++◌, ◌∙◌, ◌≡◌, ◌≤◌, ◌⊎◌, ap, inl, inr, true, false, none, some, refl,
  arith, zero, suc, List, Option, Bool, ℕ, length, get_elem?, all, any, max, ◌∙◌, String,
}
use funera.ReAct.Executor.{
  ToolExecCommand, Worker, ToolExecutor, Move, waiting, executing, ended, send, close, receive,
  poll, set_at, on_recv, on_poll, respond, select, execute_command, step, run, spawn, enqueue,
  replicate,
}
use funera.ReAct.Executor.Laws.{queued, busy, answered, accepted, run-accepted}
use funera.Events.{Result}
use funera.Tool.Error.{ToolCallError}
use funera.Security.Registry.{GuardedToolRegistry}
use funera.Security.Registry.Call.{World, Call}

module _ {Json : Type 0} where
  abbrev pub is_ended : Worker Json → Bool
  is_ended waiting = false
  is_ended (executing c) = false
  is_ended ended = true

  -- a worker ends only behind the last command of a closed queue
  abbrev pub IsOrderly : ToolExecutor Json → Type 0
  IsOrderly s = (any is_ended s.workers ≡ false) ⊎ ((s.closed ≡ true) × (s.exec_rx ≡ []))

  any-set_at :
      (i : ℕ) (w : Worker Json) (ws : List (Worker Json))
      → any is_ended ws ≡ false
      → is_ended w ≡ false
      → any is_ended (set_at i w ws) ≡ false
  any-set_at i w [] h e = refl
  any-set_at zero w (v ∷ ws) h e = ground arith
  any-set_at (suc i) w (v ∷ ws) h e = ground (arith, any-set_at i w ws)

  length-set_at :
      (i : ℕ) (w : Worker Json) (ws : List (Worker Json)) → length (set_at i w ws) ≡ length ws
  length-set_at i w [] = refl
  length-set_at zero w (v ∷ ws) = refl
  length-set_at (suc i) w (v ∷ ws) = ap suc (length-set_at i w ws)

  -- what a move keeps: the number of the workers, and the order of the shutdown
  abbrev pub Keeps : ToolExecutor Json → ToolExecutor Json → Type 0
  Keeps s t = (length t.workers ≡ length s.workers) × IsOrderly t

  if-Keeps :
      (s : ToolExecutor Json) (b : Bool) (t u : ToolExecutor Json)
      → (b ≡ true → Keeps s t)
      → (b ≡ false → Keeps s u)
      → Keeps s (if b then t else u)
  if-Keeps s true t u h k = h refl
  if-Keeps s false t u h k = k refl

  respond-Keeps :
      (i : ℕ) (c : ToolExecCommand Json) (r : Option (Result String (ToolCallError Json)))
      (s : ToolExecutor Json)
      → IsOrderly s
      → Keeps s (respond i c r s)
  unfolding respond
  respond-Keeps i c none s h = (refl, h)
  respond-Keeps i c (some r) s (inl h) =
      (length-set_at i waiting s.workers, inl (any-set_at i waiting s.workers h refl))
  respond-Keeps i c (some r) s (inr h) = (length-set_at i waiting s.workers, inr h)

  on_recv-Keeps :
      (i : ℕ) (o : Option (Worker Json)) (q : List (ToolExecCommand Json)) (s : ToolExecutor Json)
      → s.exec_rx ≡ q
      → IsOrderly s
      → Keeps s (on_recv i o q s)
  unfolding on_recv
  on_recv-Keeps i (some waiting) (c ∷ q) s e (inl h) =
      (length-set_at i (executing c) s.workers, inl (any-set_at i (executing c) s.workers h refl))
  on_recv-Keeps i (some waiting) (c ∷ q) s e (inr (shut, h)) = absurd cc
  on_recv-Keeps i (some waiting) [] s e h =
      if-Keeps s s.closed (record s { workers = set_at i ended s.workers }) s
        (λ shut. (length-set_at i ended s.workers, inr (shut, e))) (λ at_work. (refl, h))
  on_recv-Keeps i (some (executing c)) q s e h = (refl, h)
  on_recv-Keeps i (some ended) q s e h = (refl, h)
  on_recv-Keeps i none q s e h = (refl, h)

  enqueue-Keeps :
      (c : ToolExecCommand Json) (s : ToolExecutor Json) → IsOrderly s → Keeps s (enqueue c s)
  enqueue-Keeps c s h =
      if-Keeps s s.closed s (record s { exec_rx = s.exec_rx ++ c ∷ [] }) (λ shut. (refl, h))
        (λ at_work. (refl, elim h [ inl none_ended ↦ inl none_ended | inr (shut, e) ↦ absurd cc ]))

  all-any-ended :
      (ws : List (Worker Json)) → 1 ≤ length ws → all is_ended ws ≡ true → any is_ended ws ≡ true
  all-any-ended [] p h = absurd (omega arith)
  all-any-ended (w ∷ ws) p h = ground arith

  busy-ended : (k : ℕ) (ws : List (Worker Json)) → all is_ended ws ≡ true → busy k ws ≡ 0
  busy-ended k [] h = refl
  busy-ended k (ended ∷ ws) h = omega (arith, busy-ended k ws h)
  busy-ended k (waiting ∷ ws) h = absurd cc
  busy-ended k (executing c ∷ ws) h = absurd cc

  queue-ended :
      (k : ℕ) (s : ToolExecutor Json)
      → IsOrderly s
      → 1 ≤ length s.workers
      → all is_ended s.workers ≡ true
      → queued k s.exec_rx ≡ 0
  queue-ended k s (inl none_ended) p h = let some_ended = all-any-ended s.workers p h in absurd cc
  queue-ended k s (inr (shut, e)) p h = rw e refl

  pub length-replicate : (m : ℕ) (w : Worker Json) → length (replicate m w) ≡ m
  length-replicate zero w = refl
  length-replicate (suc m) w = ap suc (length-replicate m w)

module _ {Json F64 : Type 0} (world : World Json F64) where
  on_poll-Keeps :
      (i : ℕ) (cancelled : Bool) (registry : GuardedToolRegistry Json F64) (call : Call Json)
      (o : Option (Worker Json)) (s : ToolExecutor Json)
      → IsOrderly s
      → Keeps s (on_poll world i cancelled registry call o s)
  unfolding on_poll
  on_poll-Keeps i cancelled registry call (some (executing c)) s h =
      respond-Keeps i c (select cancelled (execute_command world registry call c)) s h
  on_poll-Keeps i cancelled registry call (some waiting) s h = (refl, h)
  on_poll-Keeps i cancelled registry call (some ended) s h = (refl, h)
  on_poll-Keeps i cancelled registry call none s h = (refl, h)

  step-Keeps : (m : Move Json F64) (s : ToolExecutor Json) → IsOrderly s → Keeps s (step world m s)
  step-Keeps (send c) s h = enqueue-Keeps c s h
  step-Keeps close s (inl h) = (refl, inl h)
  step-Keeps close s (inr h) = (refl, inr (refl, h.1))
  step-Keeps (receive i) s h = on_recv-Keeps i (get_elem? s.workers i) s.exec_rx s refl h
  step-Keeps (poll i cancelled registry call) s h =
      on_poll-Keeps i cancelled registry call (get_elem? s.workers i) s h

  pub run-Keeps :
      (ms : List (Move Json F64)) (s : ToolExecutor Json) → IsOrderly s → Keeps s (run world ms s)
  unfolding run
  run-Keeps [] s h = (refl, h)
  run-Keeps (m ∷ ms) s h =
      let k = step-Keeps m s h in
      let rest = run-Keeps ms (step world m s) k.1 in (rest.0 ∙ k.0, rest.1)

  pub any-replicate : (m : ℕ) → any is_ended (replicate {Json = Json} m waiting) ≡ false
  any-replicate zero = refl
  any-replicate (suc m) = any-replicate m

  -- In every interleaving of the workers, once all of them have ended each command that was sent
  -- while the queue had a sender has been answered exactly as often as it was sent, counted over its
  -- one-shot sender: none is left behind in the queue or lost with a cancelled call.
  pub run-answered :
      (max_concurrent_tools : ℕ) (ms : List (Move Json F64)) (k : ℕ)
      → all is_ended (run world ms (spawn max_concurrent_tools)).workers ≡ true
      → answered k (run world ms (spawn max_concurrent_tools)).answers
        ≡ queued k (accepted false ms)
  unfolding spawn
  run-answered n ms k h =
      let final = run world ms (spawn n) in
      let kept = run-Keeps ms (spawn n) (inl (any-replicate (max n 1))) in
      let workers = length-replicate {Json = Json} (max n 1) waiting in
      omega (
        arith,
        run-accepted world n ms k,
        busy-ended k final.workers h,
        queue-ended k final kept.1 (omega (arith, kept.0, workers)) h,
      )
