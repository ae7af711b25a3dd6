-- ===== src/Env/Build.antt =====
-- The constructors of `FuneraEnv`, funera_core/src/env.rs: `new` and the `with_` methods.
use funera.Prelude.{[], ℕ, String}
use funera.Json.{JsonOps}
use funera.ReAct.Loop.{ReasoningLevel, medium}
use funera.Security.Registry.{GuardedToolRegistry}
use funera.Security.Registry
use funera.Security.Policy.{ToolPolicy}
use funera.Env.Skills.{SkillRegistry, get_active_skills_prompt}
use funera.Env.Skills
use funera.Env.State.{FuneraEnv, available_tools_json}

module _ {Json F64 : Type 0} (json : JsonOps Json) where
  -- `policy` is the default policy of the empty registry
  unfoldable pub new : ToolPolicy F64 → ℕ → String → FuneraEnv Json F64
  new policy client model = record {
    tool_registry = Registry.new_from_policy policy;
    skill_registry = Skills.new;
    llm_client = client;
    model = model;
    reasoning_level = medium;
    channels = record {
      tool_tx = json.array [];
      client_tx = client;
      model_tx = model;
      reasoning_tx = medium;
      skill_tx = "";
    };
  }

  unfoldable pub with_tool_registry :
      GuardedToolRegistry Json F64 → FuneraEnv Json F64 → FuneraEnv Json F64
  with_tool_registry r env = record env {
    tool_registry = r;
    channels = record (env.channels) { tool_tx = available_tools_json json r };
  }

module _ {Json F64 : Type 0} where
  unfoldable pub with_skill_registry : SkillRegistry → FuneraEnv Json F64 → FuneraEnv Json F64
  with_skill_registry r env = record env {
    skill_registry = r;
    channels = record (env.channels) { skill_tx = get_active_skills_prompt r };
  }

  unfoldable pub with_reasoning_level : ReasoningLevel → FuneraEnv Json F64 → FuneraEnv Json F64
  with_reasoning_level level env = record env {
    reasoning_level = level;
    channels = record (env.channels) { reasoning_tx = level };
  }
