-- ===== src/Env/State.antt =====
-- `FuneraEnv` of funera_core/src/env.rs: its fields and the operations that the actor calls. A watch
-- channel is the value last sent; a client is known by a number.
use funera.Tool.Registry.{Tool, available_tools}
use funera.Json.{JsonOps}
use funera.ReAct.Loop.{ReasoningLevel}
use funera.Prelude.{true, false, Bool, ℕ, String}
use funera.Env.Skills.{Skill, SkillRegistry, get_active_skills_prompt}
use funera.Security.Registry.{GuardedToolRegistry}

-- what the watcher sees
pub record Channels (Json : Type 0) : Type 0 where
  pub tool_tx : Json
  pub client_tx : ℕ
  pub model_tx : String
  pub reasoning_tx : ReasoningLevel
  pub skill_tx : String

pub record FuneraEnv (Json : Type 0) (F64 : Type 0) : Type 0 where
  pub tool_registry : GuardedToolRegistry Json F64
  pub skill_registry : SkillRegistry
  pub llm_client : ℕ
  pub model : String
  pub reasoning_level : ReasoningLevel
  pub channels : Channels Json

module _ {Json F64 : Type 0} (json : JsonOps Json) where
  abbrev pub available_tools_json : GuardedToolRegistry Json F64 → Json
  available_tools_json r = json.array (available_tools r.inner)

  -- `self.tool_tx.send(registry.available_tools_json())`
  abbrev pub send_tools : GuardedToolRegistry Json F64 → FuneraEnv Json F64 → FuneraEnv Json F64
  send_tools r env = record env {
    tool_registry = r;
    channels = record env.channels { tool_tx = available_tools_json r };
  }

  unfoldable pub add_tool : Tool Json → FuneraEnv Json F64 → FuneraEnv Json F64
  add_tool t env = send_tools (funera.Security.Registry.add_tool t env.tool_registry) env

  unfoldable pub remove_tool : String → FuneraEnv Json F64 → FuneraEnv Json F64
  remove_tool name env =
      send_tools (funera.Security.Registry.remove_tool name env.tool_registry) env

  abbrev pub send_if : GuardedToolRegistry Json F64 × Bool → FuneraEnv Json F64 → FuneraEnv Json F64
  send_if (r, true) env = send_tools r env
  send_if (r, false) env = record env { tool_registry = r }

  unfoldable pub remove_tool_if_same :
      String → Tool Json → FuneraEnv Json F64 → FuneraEnv Json F64 × Bool
  remove_tool_if_same name t env =
      let r = funera.Security.Registry.remove_tool_if_same name t env.tool_registry in
      (send_if r env, r.1)

  unfoldable pub set_tool_availability : String → Bool → FuneraEnv Json F64 → FuneraEnv Json F64
  set_tool_availability name available env =
      send_if (funera.Security.Registry.set_tool_availability name available env.tool_registry) env

module _ {Json F64 : Type 0} where
  unfoldable pub set_client : ℕ → FuneraEnv Json F64 → FuneraEnv Json F64
  set_client client env = record env {
    llm_client = client;
    channels = record env.channels { client_tx = client };
  }

  unfoldable pub set_model : String → FuneraEnv Json F64 → FuneraEnv Json F64
  set_model model env = record env {
    model = model;
    channels = record env.channels { model_tx = model };
  }

  unfoldable pub set_reasoning_level : ReasoningLevel → FuneraEnv Json F64 → FuneraEnv Json F64
  set_reasoning_level level env = record env {
    reasoning_level = level;
    channels = record env.channels { reasoning_tx = level };
  }

  unfoldable pub set_skill_prompt : String → FuneraEnv Json F64 → FuneraEnv Json F64
  set_skill_prompt prompt env = record env { channels = record env.channels { skill_tx = prompt } }

  abbrev pub send_skills : SkillRegistry → FuneraEnv Json F64 → FuneraEnv Json F64
  send_skills r env = record env {
    skill_registry = r;
    channels = record env.channels { skill_tx = get_active_skills_prompt r };
  }

  unfoldable pub add_skill : Skill → FuneraEnv Json F64 → FuneraEnv Json F64
  add_skill skill env = send_skills (funera.Env.Skills.add skill env.skill_registry) env

  unfoldable pub remove_skill : String → FuneraEnv Json F64 → FuneraEnv Json F64
  remove_skill name env = send_skills (funera.Env.Skills.remove name env.skill_registry).0 env

  abbrev pub send_skills_if : SkillRegistry × Bool → FuneraEnv Json F64 → FuneraEnv Json F64
  send_skills_if (r, true) env = send_skills r env
  send_skills_if (r, false) env = record env { skill_registry = r }

  unfoldable pub activate_skill : String → FuneraEnv Json F64 → FuneraEnv Json F64 × Bool
  activate_skill name env =
      let r = funera.Env.Skills.activate name env.skill_registry in (send_skills_if r env, r.1)

  unfoldable pub deactivate_skill : String → FuneraEnv Json F64 → FuneraEnv Json F64 × Bool
  deactivate_skill name env =
      let r = funera.Env.Skills.deactivate name env.skill_registry in (send_skills_if r env, r.1)
