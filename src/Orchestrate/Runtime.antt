-- ===== src/Orchestrate/Runtime.antt =====
-- The methods of `AgentRuntime` in funera-orchestrate/src/runtime.rs, which send commands to the actor of
-- funera_core/src/env_actor.rs and wait for what it answers.
use funera.Env.State.{FuneraEnv}
use funera.Env.Actor.{EnvCmd, EnvStateEvent, Answer, handle}
use funera.Env.Actor
use funera.Env.Skills.{Skill}
use funera.Tool.Registry.{Tool}
use funera.Json.{JsonOps}
use funera.ReAct.Loop.{ReasoningLevel}
use funera.ReAct.Loop
use funera.Events.{Result, err, ok}
use funera.Prelude.{[], ◌∷◌, ◌++◌, none, some, zero, suc, List, Option, Bool, ℕ, String, false}
pub mod Fresh
pub mod Laws
pub mod Simulation
pub mod Last
pub mod Methods

-- The actor's environment, the commands that it has not received, and what it has broadcast. There is
-- no environment once the actor is dead.
pub record Runtime (Json : Type 0) (F64 : Type 0) : Type 0 where
  pub env : Option (FuneraEnv Json F64)
  pub env_cmd_tx : List (EnvCmd Json)
  pub env_events : List EnvStateEvent

-- `unwrap_or_default`
abbrev pub text_or_default : Option Answer → String
text_or_default (some (Answer.text s)) = s
text_or_default _ = ""

abbrev pub level_or_default : Option Answer → ReasoningLevel
level_or_default (some (Answer.level l)) = l
level_or_default _ = Loop.medium

abbrev pub names_or_default : Option Answer → List String
names_or_default (some (Answer.names ns)) = ns
names_or_default _ = []

abbrev pub flag_or_false : Option Answer → Bool
flag_or_false (some (Answer.flag b)) = b
flag_or_false _ = false

abbrev pub outcome_or_dead : Option Answer → Result (Unit {0}) String
outcome_or_dead (some (Answer.outcome r)) = r
outcome_or_dead _ = err "env actor died"

module _ {Json F64 : Type 0} where
  abbrev pub send_if_alive :
      EnvCmd Json → Option (FuneraEnv Json F64) → Runtime Json F64 → Runtime Json F64
  send_if_alive cmd none rt = rt
  send_if_alive cmd (some env) rt = record rt { env_cmd_tx = rt.env_cmd_tx ++ cmd ∷ [] }

  -- `let _ = self.env_cmd_tx.send(cmd)`
  unfoldable pub send_cmd : EnvCmd Json → Runtime Json F64 → Runtime Json F64
  send_cmd cmd rt = send_if_alive cmd rt.env rt

  abbrev pub set_model : String → Runtime Json F64 → Runtime Json F64
  set_model model = send_cmd (Actor.set_model model)

  abbrev pub set_reasoning_level : ReasoningLevel → Runtime Json F64 → Runtime Json F64
  set_reasoning_level level = send_cmd (Actor.set_reasoning_level level)

  abbrev pub set_client : ℕ → Runtime Json F64 → Runtime Json F64
  set_client client = send_cmd (Actor.set_client client)

  abbrev pub add_tool : Tool Json → Runtime Json F64 → Runtime Json F64
  add_tool t = send_cmd (Actor.add_tool t)

  abbrev pub remove_tool : String → Runtime Json F64 → Runtime Json F64
  remove_tool name = send_cmd (Actor.remove_tool name)

  abbrev pub set_tool_availability : String → Bool → Runtime Json F64 → Runtime Json F64
  set_tool_availability name available = send_cmd (Actor.set_tool_availability name available)

  abbrev pub add_skill : Skill → Runtime Json F64 → Runtime Json F64
  add_skill skill = send_cmd (Actor.add_skill skill)

  abbrev pub remove_skill : String → Runtime Json F64 → Runtime Json F64
  remove_skill name = send_cmd (Actor.remove_skill name)

  abbrev pub set_skill_prompt : String → Runtime Json F64 → Runtime Json F64
  set_skill_prompt prompt = send_cmd (Actor.set_skill_prompt prompt)

  module _ (json : JsonOps Json) where
    abbrev pub receive :
        Option (FuneraEnv Json F64) → List (EnvCmd Json) → List EnvStateEvent → Runtime Json F64
    receive none cmds events = record { env = none; env_cmd_tx = cmds; env_events = events }
    receive (some env) [] events = record { env = some env; env_cmd_tx = []; env_events = events }
    receive (some env) (cmd ∷ cmds) events =
        let (after, told, answer) = handle json cmd env in
        record { env = some after; env_cmd_tx = cmds; env_events = events ++ told }

    -- one round of the actor's loop
    unfoldable pub actor_round : Runtime Json F64 → Runtime Json F64
    actor_round rt = receive rt.env rt.env_cmd_tx rt.env_events

    -- the actor handles the commands that are waiting, and then the one that is asked
    unfoldable pub answer_after :
        List (EnvCmd Json)
        → EnvCmd Json
        → FuneraEnv Json F64
        → List EnvStateEvent
        → Option Answer × Runtime Json F64
    answer_after [] cmd env events =
        let (after, told, answer) = handle json cmd env in
        (some answer, record { env = some after; env_cmd_tx = []; env_events = events ++ told })
    answer_after (first ∷ cmds) cmd env events =
        let (after, told, answer) = handle json first env in
        answer_after cmds cmd after (events ++ told)

    abbrev pub ask_if_alive :
        EnvCmd Json
        → Option (FuneraEnv Json F64)
        → Runtime Json F64
        → Option Answer × Runtime Json F64
    ask_if_alive cmd none rt = (none, rt)
    ask_if_alive cmd (some env) rt = answer_after rt.env_cmd_tx cmd env rt.env_events

    -- a command with a one-shot channel, and `rx.await`
    unfoldable pub ask : EnvCmd Json → Runtime Json F64 → Option Answer × Runtime Json F64
    ask cmd rt = ask_if_alive cmd rt.env rt

    abbrev pub model : Runtime Json F64 → String × Runtime Json F64
    model rt = let (answer, after) = ask Actor.get_model rt in (text_or_default answer, after)

    abbrev pub reasoning_level : Runtime Json F64 → ReasoningLevel × Runtime Json F64
    reasoning_level rt =
        let (answer, after) = ask Actor.get_reasoning_level rt in (level_or_default answer, after)

    abbrev pub tool_names : Runtime Json F64 → List String × Runtime Json F64
    tool_names rt =
        let (answer, after) = ask Actor.get_tool_names rt in (names_or_default answer, after)

    abbrev pub activate_skill : String → Runtime Json F64 → Bool × Runtime Json F64
    activate_skill name rt =
        let (answer, after) = ask (Actor.activate_skill name) rt in (flag_or_false answer, after)

    abbrev pub deactivate_skill : String → Runtime Json F64 → Bool × Runtime Json F64
    deactivate_skill name rt =
        let (answer, after) = ask (Actor.deactivate_skill name) rt in (flag_or_false answer, after)

    abbrev pub skill_prompt : Runtime Json F64 → String × Runtime Json F64
    skill_prompt rt =
        let (answer, after) = ask Actor.get_skill_prompt rt in (text_or_default answer, after)

    abbrev pub approve_tool_call :
        String → Bool → Runtime Json F64 → Result (Unit {0}) String × Runtime Json F64
    approve_tool_call call_id approved rt =
        let (answer, after) = ask (Actor.approve_tool_call call_id approved) rt in
        (outcome_or_dead answer, after)
