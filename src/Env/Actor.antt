-- ===== src/Env/Actor.antt =====
-- The command loop of the env actor, funera_core/src/env_actor.rs: the state after a command, what is
-- broadcast, and what is answered. The channels that a subscription or the ReAct configuration hands
-- out are not part of the state.
use funera.Tool.Registry.{Tool}
use funera.Security.Registry.{GuardedToolRegistry}
use funera.Events.{Result}
use funera.Json.{JsonOps}
use funera.ReAct.Loop.{ReasoningLevel}
use funera.Prelude.{[], ◌∷◌, true, false, List, Bool, ℕ, String, Option}
use funera.Env.State
use funera.Env.State.{FuneraEnv}
use funera.Env.Skills.{Skill}
use funera.Security.Registry

-- `EnvCmd`, less the queries that hand out channels
pub data EnvCmd (Json : Type 0) : Type 0 where
  set_model : String → EnvCmd Json
  set_client : ℕ → EnvCmd Json
  set_reasoning_level : ReasoningLevel → EnvCmd Json
  add_tool : Tool Json → EnvCmd Json
  remove_tool : String → EnvCmd Json
  set_tool_availability : String → Bool → EnvCmd Json
  add_skill : Skill → EnvCmd Json
  remove_skill activate_skill deactivate_skill set_skill_prompt : String → EnvCmd Json
  get_skill_prompt get_model get_reasoning_level get_tool_names : EnvCmd Json
  approve_tool_call : String → Bool → EnvCmd Json

-- `EnvStateEvent` of funera_core/src/event_bus/env_state_bus.rs
-- a turn's buses are known by a number
pub data EnvStateEvent : Type 0 where
  session_start session_closed : EnvStateEvent
  llm_changed tool_added tool_removed skill_added skill_removed skill_activated skill_deactivated :
      String → EnvStateEvent
  reasoning_level_changed : ReasoningLevel → EnvStateEvent
  tool_availability : String → Bool → EnvStateEvent
  per_turn_bus_ready : ℕ → EnvStateEvent

-- what goes over the one-shot channel of a command
pub data Answer : Type 0 where
  nothing : Answer
  text : String → Answer
  level : ReasoningLevel → Answer
  names : List String → Answer
  flag : Bool → Answer
  outcome : Result (Unit {0}) String → Answer

abbrev pub keys : {V : Type 0} → List (String × V) → List String
keys [] = []
keys ((k, v) ∷ d) = k ∷ keys d

module _ {Json F64 : Type 0} where
  abbrev pub flagged :
      EnvStateEvent → FuneraEnv Json F64 × Bool → FuneraEnv Json F64 × List EnvStateEvent × Answer
  flagged event (env, true) = (env, event ∷ [], flag true)
  flagged event (env, false) = (env, [], flag false)

  abbrev quietly : FuneraEnv Json F64 → FuneraEnv Json F64 × List EnvStateEvent × Answer
  quietly env = (env, [], nothing)

  abbrev telling :
      EnvStateEvent → FuneraEnv Json F64 → FuneraEnv Json F64 × List EnvStateEvent × Answer
  telling event env = (env, event ∷ [], nothing)

  abbrev approved_by :
      FuneraEnv Json F64
      → Result (Unit {0}) String × Option Bool × GuardedToolRegistry Json F64
      → FuneraEnv Json F64 × List EnvStateEvent × Answer
  approved_by env (result, sent, r) = (record env { tool_registry = r }, [], outcome result)

  -- one round of the loop
  unfoldable pub handle :
      JsonOps Json
      → EnvCmd Json
      → FuneraEnv Json F64
      → FuneraEnv Json F64 × List EnvStateEvent × Answer
  handle json (set_model model) env = telling (llm_changed model) (State.set_model model env)
  handle json (set_client client) env = quietly (State.set_client client env)
  handle json (set_reasoning_level l) env =
      telling (reasoning_level_changed l) (State.set_reasoning_level l env)
  handle json (add_tool t) env = telling (tool_added t.name) (State.add_tool json t env)
  handle json (remove_tool name) env = telling (tool_removed name) (State.remove_tool json name env)
  handle json (set_tool_availability name available) env =
      telling (tool_availability name available)
        (State.set_tool_availability json name available env)
  handle json (add_skill skill) env = telling (skill_added skill.name) (State.add_skill skill env)
  handle json (remove_skill name) env = telling (skill_removed name) (State.remove_skill name env)
  handle json (activate_skill name) env =
      flagged (skill_activated name) (State.activate_skill name env)
  handle json (deactivate_skill name) env =
      flagged (skill_deactivated name) (State.deactivate_skill name env)
  handle json (set_skill_prompt prompt) env = quietly (State.set_skill_prompt prompt env)
  handle json get_skill_prompt env = (env, [], text env.channels.skill_tx)
  handle json get_model env = (env, [], text env.model)
  handle json get_reasoning_level env = (env, [], level env.reasoning_level)
  handle json get_tool_names env = (env, [], names (keys env.tool_registry.inner.tools))
  handle json (approve_tool_call call_id approved) env =
      approved_by env (Registry.approve_tool_call call_id approved env.tool_registry)

  unfoldable pub run : JsonOps Json → List (EnvCmd Json) → FuneraEnv Json F64 → FuneraEnv Json F64
  run json [] env = env
  run json (cmd ∷ cmds) env = run json cmds (handle json cmd env).0
