-- ===== src/Orchestrate/Builder/Runtime.antt =====
-- `build_with` of funera-orchestrate/src/runtime.rs: the client, the tool policy, the registries and the
-- environment that a configured builder gives.
use funera.Prelude.{
  [], ◌∷◌, ◌++◌, ◌&&◌, ◌||◌, true, false, none, some, if◌then◌else◌, List, Option, Bool, ℕ, String,
  not, get_or,
}
use funera.Json.{JsonOps}
use funera.Events.{Result, ok, err}
use funera.ReAct.Loop.{ReasoningLevel}
use funera.Middleware.{MiddlewareChain}
use funera.Tool.Registry.{Tool}
use funera.Env.Skills.{Skill, SkillRegistry}
use funera.Env.Skills
use funera.Env.State.{FuneraEnv}
use funera.Env.Build
use funera.Security.PathGuard.{PathBuf, PathGuard, FileSystem}
use funera.Security.PathGuard
use funera.Security.Sandbox.{SandboxPolicy}
use funera.Security.Policy.{ToolPolicy}
use funera.Security.Registry.{GuardedToolRegistry}
use funera.Security.Registry
use funera.Orchestrate.Event.{AgentEvent}
use funera.Orchestrate.Agent.{OrchestrateError, config}
use funera.Orchestrate.Builder.{AgentRuntimeBuilder, Surroundings}

-- `Client::with_config` of a key and a base URL, or a client that was given
pub data Client : Type 0 where
  given : ℕ → Client
  made : String → Option String → Client

-- The fields of the runtime and of the environment that its actor owns. The registry of the
-- environment's first moment is not kept, and the session is empty.
pub record AgentRuntime (Json F64 : Type 0) : Type 0 where
  pub client : Client
  pub env : FuneraEnv Json F64
  pub sandbox_policy : SandboxPolicy
  pub tool_policy : ToolPolicy F64
  pub max_iterations : ℕ
  pub channel_buffer : ℕ
  pub max_concurrent_tools : ℕ
  pub middleware_chain : MiddlewareChain (AgentEvent Json)

abbrev pub or_else : {A : Type 0} → Option A → Option A → Option A
or_else none o = o
or_else (some a) o = some a

abbrev pub client_with : Option ℕ → Option String → Option String → Result Client OrchestrateError
client_with (some c) key url = ok (given c)
client_with none (some key) url = ok (made key url)
client_with none none url = err (config "no API key; set OPENAI_API_KEY or call .api_key()")

module _ {Json F64 : Type 0} (surroundings : Surroundings) where
  abbrev pub found_key : AgentRuntimeBuilder Json F64 → Option String
  found_key b = or_else b.secure_api_key (or_else b.api_key surroundings.openai_api_key)

  abbrev pub found_model : AgentRuntimeBuilder Json F64 → String
  found_model b = get_or (or_else b.model surroundings.openai_model) "gpt-4o"

  unfoldable pub find_client : AgentRuntimeBuilder Json F64 → Result Client OrchestrateError
  find_client b = client_with b.client (found_key b) b.base_url

module _ {F64 : Type 0} (default_policy : ToolPolicy F64) where
  abbrev from_sandbox : Option (ToolPolicy F64) → Option SandboxPolicy → Option (ToolPolicy F64)
  from_sandbox (some p) sandbox = some p
  from_sandbox none (some sp) = some (record default_policy { sandbox = sp })
  from_sandbox none none = none

abbrev is_nil : List PathBuf → Bool
is_nil [] = true
is_nil (p ∷ l) = false

module _ {Json F64 : Type 0} where
  abbrev pub add_tools :
      List (Tool Json) → GuardedToolRegistry Json F64 → GuardedToolRegistry Json F64
  add_tools [] r = r
  add_tools (t ∷ ts) r = add_tools ts (Registry.add_tool t r)

module _ {Json F64 : Type 0} (fs : FileSystem) where
  abbrev pub guard_paths :
      SandboxPolicy → GuardedToolRegistry Json F64 → GuardedToolRegistry Json F64
  guard_paths sp r =
      if sp.enabled && (not (is_nil sp.read_paths) || not (is_nil sp.read_write_paths))
      then Registry.set_path_guard (PathGuard.new fs (sp.read_paths ++ sp.read_write_paths)) r
      else r

  abbrev pub fence :
      Option SandboxPolicy → GuardedToolRegistry Json F64 → GuardedToolRegistry Json F64
  fence none r = r
  fence (some sp) r =
      Registry.set_sandbox_paths sp.read_paths sp.read_write_paths (guard_paths sp r)

module _ {Json F64 : Type 0} (fs : FileSystem) (default_policy : ToolPolicy F64) where
  -- the sandbox policy goes into the tool policy if only the sandbox was configured
  unfoldable pub effective_policy : AgentRuntimeBuilder Json F64 → Option (ToolPolicy F64)
  effective_policy b = from_sandbox default_policy b.tool_policy b.sandbox_policy

  abbrev approval :
      AgentRuntimeBuilder Json F64 → GuardedToolRegistry Json F64 → GuardedToolRegistry Json F64
  approval b r = record r {
    approval_callback = b.approval_callback || r.approval_callback;
    approval_timeout = b.approval_timeout || r.approval_timeout;
  }

  unfoldable pub build_registry : AgentRuntimeBuilder Json F64 → GuardedToolRegistry Json F64
  unfolding effective_policy
  build_registry b = approval b (
      fence fs b.sandbox_policy (
        Registry.set_audit_bus (
          add_tools b.tools
            (Registry.new_from_policy (get_or (effective_policy b) default_policy)))))

abbrev pub add_skills : List Skill → SkillRegistry → SkillRegistry
add_skills [] r = r
add_skills (s ∷ ss) r = add_skills ss (Skills.add s r)

abbrev pub activate_all : List String → SkillRegistry → SkillRegistry
activate_all [] r = r
activate_all (name ∷ names) r = activate_all names (Skills.activate name r).0

abbrev pub names_of : List Skill → List String
names_of [] = []
names_of (s ∷ ss) = s.name ∷ names_of ss

module _ {Json F64 : Type 0} where
  abbrev pub defaults : Surroundings → AgentRuntimeBuilder Json F64 → List Skill
  defaults surroundings b = if b.load_default_skills then surroundings.default_skills else []

  -- the default skills are added first and activated last
  unfoldable pub build_skills : Surroundings → AgentRuntimeBuilder Json F64 → SkillRegistry
  build_skills surroundings b =
      activate_all (b.skill_names_to_activate ++ names_of (defaults surroundings b))
        (add_skills b.skills (add_skills (defaults surroundings b) Skills.new))

module _ {Json F64 : Type 0} where
  abbrev pub with_level : Option ReasoningLevel → FuneraEnv Json F64 → FuneraEnv Json F64
  with_level none env = env
  with_level (some level) env = Build.with_reasoning_level level env

module _ {Json : Type 0} where
  abbrev chain_of : Option (MiddlewareChain (AgentEvent Json)) → MiddlewareChain (AgentEvent Json)
  chain_of none = funera.Middleware.activate_error_channel funera.Middleware.new
  chain_of (some chain) = chain

module _ {Json F64 : Type 0} (json : JsonOps Json) (fs : FileSystem)
    (default_policy : ToolPolicy F64) (number : Client → ℕ) (surroundings : Surroundings) where
  unfoldable pub build_env : AgentRuntimeBuilder Json F64 → Client → FuneraEnv Json F64
  build_env b client = Build.with_skill_registry (build_skills surroundings b) (
      Build.with_tool_registry json (build_registry fs default_policy b) (
        with_level b.reasoning_level
          (Build.new json default_policy (number client) (found_model surroundings b))))

  abbrev runtime : AgentRuntimeBuilder Json F64 → Client → AgentRuntime Json F64
  runtime b client = record {
    client = client;
    env = build_env b client;
    sandbox_policy = get_or b.sandbox_policy funera.Security.Sandbox.default;
    tool_policy = get_or (effective_policy fs default_policy b) default_policy;
    max_iterations = b.max_iterations;
    channel_buffer = b.channel_buffer;
    max_concurrent_tools = b.max_concurrent_tools;
    middleware_chain = chain_of b.middleware_bundle;
  }

  abbrev pub build_from :
      AgentRuntimeBuilder Json F64
      → Result Client OrchestrateError
      → Result (AgentRuntime Json F64) OrchestrateError
  build_from b (err e) = err e
  build_from b (ok client) = ok (runtime b client)

  unfoldable pub build_with :
      AgentRuntimeBuilder Json F64 → Result (AgentRuntime Json F64) OrchestrateError
  build_with b = build_from b (find_client surroundings b)
