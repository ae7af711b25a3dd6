-- ===== src/Tests/Executor.antt =====
-- Two workers and three commands: two are cancelled, one is stopped by the policy.
use funera.ReAct.Executor.Work.{work}
use funera.ReAct.Executor.Ends.{IsRound, run_rounds, run_rounds-is_ended}
use funera.Prelude.{
  All, inl, inr, zero, suc, arith, [], ◌∷◌, ◌≡◌, true, false, refl, List, ℕ, String, all,
}
use funera.Events.{err}
use funera.Tool.Error.{tool_unavailable}
use funera.Tests.Security.{world, registry, agreed}
use funera.Security.Registry.{GuardedToolRegistry}
use funera.Security.Registry.Call.{call_tool, check_policy, denial}
use funera.Security.Policy.{default, check_tool_allowed}
use funera.Security.Error.{tool_denied}
use funera.ReAct.Executor.{
  ToolExecCommand, Move, send, close, receive, poll, run, spawn, on_recv, on_poll, respond,
  execute_command,
}
use funera.ReAct.Executor.Laws.{queued, answered, accepted}
use funera.ReAct.Executor.Shutdown.{is_ended, run-answered}

-- the policy stops every call of `echo`
abbrev denying : GuardedToolRegistry String ℕ
denying = record registry { policy = record (default 300) { denied_tools = "echo" ∷ [] } }

abbrev command : ℕ → ToolExecCommand String
command i = record {
  resp_tx = i;
  call_id = "c";
  name = "echo";
  args = "filePath";
  react_bus = false;
}

abbrev moves : List (Move String ℕ)
moves =
    send (command 0)
    ∷ receive 1
    ∷ send (command 1)
    ∷ send (command 2)
    ∷ receive 0
    ∷ poll 0 true denying agreed
    ∷ poll 1 false denying agreed
    ∷ close
    ∷ receive 1
    ∷ receive 0
    ∷ poll 1 true denying agreed
    ∷ receive 1
    ∷ []

moves-ended : all is_ended (run world moves (spawn 2)).workers ≡ true
unfolding run spawn on_recv on_poll respond execute_command call_tool check_policy
    check_tool_allowed
moves-ended = refl

moves-answers :
    (run world moves (spawn 2)).answers
    ≡ (1, err (tool_unavailable "cancelled"))
      ∷ (0, err (tool_unavailable (denial world (tool_denied "echo"))))
      ∷ (2, err (tool_unavailable "cancelled"))
      ∷ []
unfolding run spawn on_recv on_poll respond execute_command call_tool check_policy
    check_tool_allowed
moves-answers = refl

run-answered_example :
    answered 2 (run world moves (spawn 2)).answers ≡ queued 2 (accepted false moves)
run-answered_example = run-answered world 2 moves 2 moves-ended

-- two commands wait when the last sender goes
abbrev last_sends : List (Move String ℕ)
last_sends = send (command 0) ∷ receive 0 ∷ send (command 1) ∷ send (command 2) ∷ close ∷ []

-- both workers are polled, with the tokens fired
abbrev round : List (Move String ℕ)
round = receive 1 ∷ poll 1 true denying agreed ∷ poll 0 true denying agreed ∷ receive 0 ∷ []

round-IsRound : IsRound world 2 round
round-IsRound zero h = (inr (inr (inr (inl refl))), inr (inr (inl (refl, λ c. refl))))
round-IsRound (suc zero) h = (inl refl, inr (inl (refl, λ c. refl)))
round-IsRound (suc (suc i)) h = absurd (omega arith)

last_sends-closed : (run world last_sends (spawn 2)).closed ≡ true
unfolding run spawn on_recv
last_sends-closed = refl

last_sends-work : work (run world last_sends (spawn 2)) ≡ 7
unfolding run spawn on_recv
last_sends-work = refl

abbrev rounds : List (List (Move String ℕ))
rounds = round ∷ round ∷ round ∷ round ∷ round ∷ round ∷ round ∷ []

rounds-IsRound : All (IsRound world 2) rounds
rounds-IsRound = let r = round-IsRound in (r, (r, (r, (r, (r, (r, (r, tt)))))))

run_rounds-is_ended_example :
    all is_ended (run_rounds world rounds (run world last_sends (spawn 2))).workers ≡ true
run_rounds-is_ended_example =
    run_rounds-is_ended world 2 last_sends rounds last_sends-closed rounds-IsRound
      (omega (arith, last_sends-work))
