-- ===== src/Orchestrate/Builder.antt =====
-- `AgentRuntimeBuilder` of funera-orchestrate/src/runtime.rs, with all features. The process
-- environment, the default skills and the four built-in tools are given; a client of the async-openai
-- crate is known by a number, or by the key and the base URL that it is made of.
use funera.Prelude.{
  [], ◌∷◌, ◌++◌, ◌&&◌, ◌||◌, true, false, none, some, if◌then◌else◌, List, Option, Bool, ℕ, String,
  not, get_or,
}
use funera.Json.{JsonOps}
use funera.Events.{Result, ok, err}
use funera.ReAct.Loop.{ReasoningLevel}
use funera.Middleware.{MiddlewareChain}
use funera.Tool.Registry.{Tool}
use funera.BuiltinTools.Register.{BuiltinTools}
use funera.Env.Skills.{Skill, SkillRegistry}
use funera.Env.Skills
use funera.Env.State.{FuneraEnv}
use funera.Env.Build
use funera.Security.PathGuard.{PathBuf, PathGuard, FileSystem}
use funera.Security.PathGuard
use funera.Security.Sandbox.{SandboxPolicy}
use funera.Security.Policy.{ToolPolicy}
use funera.Security.Registry.{GuardedToolRegistry}
use funera.Security.Registry
use funera.Orchestrate.Event.{AgentEvent}
use funera.Orchestrate.Agent.{OrchestrateError, config}
pub mod Runtime
pub mod Last
pub mod Laws
pub mod Start
pub mod Activation

-- `std::env::var`, and `Skill::from_default_path`
pub record Surroundings : Type 0 where
  pub openai_api_key : Option String
  pub openai_model : Option String
  pub default_skills : List Skill

pub record AgentRuntimeBuilder (Json F64 : Type 0) : Type 0 where
  pub api_key : Option String
  pub base_url : Option String
  pub client : Option ℕ
  pub model : Option String
  pub reasoning_level : Option ReasoningLevel
  pub max_iterations : ℕ
  pub channel_buffer : ℕ
  pub max_concurrent_tools : ℕ
  pub tools : List (Tool Json)
  pub skills : List Skill
  pub skill_names_to_activate : List String
  pub load_default_skills : Bool
  pub sandbox_policy : Option SandboxPolicy
  pub tool_policy : Option (ToolPolicy F64)
  pub secure_api_key : Option String
  -- whether there is a callback, and a limit on the wait
  pub approval_callback : Bool
  pub approval_timeout : Bool
  pub middleware_bundle : Option (MiddlewareChain (AgentEvent Json))

module _ {Json F64 : Type 0} where
  abbrev pub new : AgentRuntimeBuilder Json F64
  new = record {
    api_key = none;
    base_url = none;
    client = none;
    model = none;
    reasoning_level = none;
    max_iterations = 10;
    channel_buffer = 32;
    max_concurrent_tools = 4;
    tools = [];
    skills = [];
    skill_names_to_activate = [];
    load_default_skills = false;
    sandbox_policy = none;
    tool_policy = none;
    secure_api_key = none;
    approval_callback = false;
    approval_timeout = false;
    middleware_bundle = none;
  }

  abbrev pub api_key : String → AgentRuntimeBuilder Json F64 → AgentRuntimeBuilder Json F64
  api_key key b = record b { secure_api_key = some key; api_key = some key }

  abbrev pub model : String → AgentRuntimeBuilder Json F64 → AgentRuntimeBuilder Json F64
  model name b = record b { model = some name }

  abbrev pub reasoning_level :
      ReasoningLevel → AgentRuntimeBuilder Json F64 → AgentRuntimeBuilder Json F64
  reasoning_level level b = record b { reasoning_level = some level }

  abbrev pub client : ℕ → AgentRuntimeBuilder Json F64 → AgentRuntimeBuilder Json F64
  client c b = record b { client = some c }

  abbrev pub max_iterations : ℕ → AgentRuntimeBuilder Json F64 → AgentRuntimeBuilder Json F64
  max_iterations n b = record b { max_iterations = n }

  abbrev pub channel_buffer : ℕ → AgentRuntimeBuilder Json F64 → AgentRuntimeBuilder Json F64
  channel_buffer n b = record b { channel_buffer = n }

  abbrev pub max_concurrent_tools : ℕ → AgentRuntimeBuilder Json F64 → AgentRuntimeBuilder Json F64
  max_concurrent_tools n b = record b { max_concurrent_tools = n }

  abbrev pub with_skill_active :
      String → AgentRuntimeBuilder Json F64 → AgentRuntimeBuilder Json F64
  with_skill_active name b = record b {
    skill_names_to_activate = b.skill_names_to_activate ++ name ∷ [];
  }

  abbrev pub with_tool_instance :
      Tool Json → AgentRuntimeBuilder Json F64 → AgentRuntimeBuilder Json F64
  with_tool_instance tool b = record b { tools = b.tools ++ tool ∷ [] }

  abbrev pub with_middleware_bundle :
      MiddlewareChain (AgentEvent Json)
      → AgentRuntimeBuilder Json F64
      → AgentRuntimeBuilder Json F64
  with_middleware_bundle chain b = record b { middleware_bundle = some chain }

  abbrev pub with_sandbox_policy :
      SandboxPolicy → AgentRuntimeBuilder Json F64 → AgentRuntimeBuilder Json F64
  with_sandbox_policy policy b = record b { sandbox_policy = some policy }

  abbrev pub with_tool_policy :
      ToolPolicy F64 → AgentRuntimeBuilder Json F64 → AgentRuntimeBuilder Json F64
  with_tool_policy policy b = record b { tool_policy = some policy }

  abbrev pub base_url : Option String → AgentRuntimeBuilder Json F64 → AgentRuntimeBuilder Json F64
  base_url none b = b
  base_url (some u) b = record b { base_url = some u }

  abbrev pub with_skill :
      String → String → String → AgentRuntimeBuilder Json F64 → AgentRuntimeBuilder Json F64
  with_skill name description content b = record b {
    skills =
        b.skills
        ++ record {
          name = name;
          description = description;
          content = content;
          disable_model_invocation = false;
          source_path = none;
        }
          ∷ [];
  }

  -- what `Skill::from_file` gives for the path; an error is only printed
  abbrev pub with_skill_file :
      Result Skill String → AgentRuntimeBuilder Json F64 → AgentRuntimeBuilder Json F64
  with_skill_file (ok skill) b = record b { skills = b.skills ++ skill ∷ [] }
  with_skill_file (err e) b = b

  -- what `Skill::from_dir` gives for the path
  abbrev pub with_skills_dir :
      Result (List Skill) String → AgentRuntimeBuilder Json F64 → AgentRuntimeBuilder Json F64
  with_skills_dir (ok skills) b = record b { skills = b.skills ++ skills }
  with_skills_dir (err e) b = b

  abbrev pub with_skills_default_path : AgentRuntimeBuilder Json F64 → AgentRuntimeBuilder Json F64
  with_skills_default_path b = record b { load_default_skills = true }

  abbrev pub on_approval_required : AgentRuntimeBuilder Json F64 → AgentRuntimeBuilder Json F64
  on_approval_required b = record b { approval_callback = true }

  abbrev pub with_approval_timeout : AgentRuntimeBuilder Json F64 → AgentRuntimeBuilder Json F64
  with_approval_timeout b = record b { approval_timeout = true }

  -- the shell tool takes the sandbox policy that the builder has at this point
  unfoldable pub with_builtin_tools :
      BuiltinTools Json → AgentRuntimeBuilder Json F64 → AgentRuntimeBuilder Json F64
  with_builtin_tools builtin b = record b {
    tools =
        b.tools
        ++ builtin.read ∷ builtin.write ∷ builtin.edit ∷ builtin.shell b.sandbox_policy ∷ [];
  }
