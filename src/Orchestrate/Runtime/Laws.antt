-- ===== src/Orchestrate/Runtime/Laws.antt =====
-- The methods of `AgentRuntime` in funera-orchestrate/src/runtime.rs act on the environment in the order
-- of the calls, whenever the actor works.
use funera.Env.State.{FuneraEnv}
use funera.Env.Actor.{EnvCmd, EnvStateEvent, Answer, handle, run}
use funera.Orchestrate.Runtime.{Runtime, send_cmd, actor_round, answer_after, ask}
use funera.Json.{JsonOps}
use funera.Prelude.{
  [], ◌∷◌, ◌++◌, ◌≡◌, ◌∙◌, some, List, Option, refl, ap, sym, append-nil, append_assoc,
}

-- what may happen to a runtime: its user sends a command, or its actor receives one
pub data Move (Json : Type 0) : Type 0 where
  sends : EnvCmd Json → Move Json
  works : Move Json

abbrev pub sent : {Json : Type 0} → List (Move Json) → List (EnvCmd Json)
sent [] = []
sent (sends cmd ∷ moves) = cmd ∷ sent moves
sent (works ∷ moves) = sent moves

module _ {Json F64 : Type 0} (json : JsonOps Json) where
  abbrev pub moved : Move Json → Runtime Json F64 → Runtime Json F64
  moved (sends cmd) rt = send_cmd cmd rt
  moved works rt = actor_round json rt

  abbrev pub moved_by : List (Move Json) → Runtime Json F64 → Runtime Json F64
  moved_by [] rt = rt
  moved_by (m ∷ moves) rt = moved_by moves (moved m rt)

  -- what the commands broadcast, one after another
  abbrev pub told : List (EnvCmd Json) → FuneraEnv Json F64 → List EnvStateEvent
  told [] env = []
  told (cmd ∷ cmds) env = (handle json cmd env).1 ++ told cmds (handle json cmd env).0

  abbrev pub live : FuneraEnv Json F64 → List (EnvCmd Json) → List EnvStateEvent → Runtime Json F64
  live env cmds events = record { env = some env; env_cmd_tx = cmds; env_events = events }

  -- the answer to a command behind others, and the runtime after it, without a channel
  abbrev pub in_order :
      List (EnvCmd Json)
      → EnvCmd Json
      → FuneraEnv Json F64
      → List EnvStateEvent
      → Option Answer × Runtime Json F64
  in_order cmds cmd env events =
      let (after, last, answer) = handle json cmd (run json cmds env) in
      (some answer, live after [] (events ++ (told cmds env ++ last)))

  answer_after-in_order :
      (cmds : List (EnvCmd Json)) (cmd : EnvCmd Json) (env : FuneraEnv Json F64)
      (events : List EnvStateEvent)
      → answer_after json cmds cmd env events ≡ in_order cmds cmd env events
  unfolding answer_after run
  answer_after-in_order [] cmd env events = refl
  answer_after-in_order (first ∷ cmds) cmd env events =
      let now = (handle json first env).1 in
      let after = (handle json first env).0 in
      let (last_env, last, answer) = handle json cmd (run json cmds after) in
      answer_after-in_order cmds cmd after (events ++ now)
      ∙ ap (λ l. (some answer, live last_env [] l))
          (append_assoc events now (told cmds after ++ last)
            ∙ ap (λ l. events ++ l) (sym (append_assoc now (told cmds after) last)))

  ask-answer_after :
      (moves : List (Move Json)) (waiting : List (EnvCmd Json)) (cmd : EnvCmd Json)
      (env : FuneraEnv Json F64) (events : List EnvStateEvent)
      → ask json cmd (moved_by moves (live env waiting events))
        ≡ answer_after json (waiting ++ sent moves) cmd env events
  unfolding ask send_cmd actor_round answer_after
  ask-answer_after [] waiting cmd env events = rw (append-nil waiting) refl
  ask-answer_after (sends c ∷ moves) waiting cmd env events =
      ask-answer_after moves (waiting ++ c ∷ []) cmd env events
      ∙ ap (λ l. answer_after json l cmd env events) (append_assoc waiting (c ∷ []) (sent moves))
  ask-answer_after (works ∷ moves) [] cmd env events = ask-answer_after moves [] cmd env events
  ask-answer_after (works ∷ moves) (first ∷ waiting) cmd env events =
      ask-answer_after moves waiting cmd (handle json first env).0
        (events ++ (handle json first env).1)

  -- A question to a live runtime is answered, and what it then holds and has broadcast is the same,
  -- as if the commands that were waiting, those that were sent since and the question had been handled
  -- at once and in this order, whenever the actor has received them.
  pub ask-in_order :
      (moves : List (Move Json)) (waiting : List (EnvCmd Json)) (cmd : EnvCmd Json)
      (env : FuneraEnv Json F64) (events : List EnvStateEvent)
      → ask json cmd (moved_by moves (live env waiting events))
        ≡ in_order (waiting ++ sent moves) cmd env events
  ask-in_order moves waiting cmd env events =
      ask-answer_after moves waiting cmd env events
      ∙ answer_after-in_order (waiting ++ sent moves) cmd env events
