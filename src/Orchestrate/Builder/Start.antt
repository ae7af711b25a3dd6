-- ===== src/Orchestrate/Builder/Start.antt =====
-- The environment that `build_with` of funera-orchestrate/src/runtime.rs starts an actor with, and when it
-- fails.
use funera.Events.{is_ok}
use funera.Env.Skills.{SkillRegistry, get_active_skills_prompt, active_skills}
use funera.Env.Synced.{keeps_prompt, IsSynced, run-IsSynced}
use funera.Env.Actor.{EnvCmd, run}
use funera.Orchestrate.Builder.{JsonOps, Surroundings, FuneraEnv, ReasoningLevel}
use funera.Orchestrate.Builder.Runtime.{
  Client, build_env, build_with, find_client, with_level, client_with, build_from,
}
use funera.Tool.Registry.{available_tools}
use funera.Orchestrate.Builder.{FileSystem, GuardedToolRegistry, ToolPolicy, AgentRuntimeBuilder}
use funera.Env.Build
use funera.Orchestrate.Builder.Runtime.{or_else}
use funera.Prelude.{◌≡◌, none, some, refl, List, Option, String, true, false, ◌↔◌, ℕ, all, arith}

module _ {Json F64 : Type 0} (json : JsonOps Json) where
  new-IsSynced :
      (policy : ToolPolicy F64) (client : ℕ) (model : String)
      → IsSynced json (Build.new json policy client model)
  unfolding Build.new available_tools get_active_skills_prompt active_skills
  new-IsSynced policy client model = (refl, refl, refl, refl, refl)

  with_level-IsSynced :
      (o : Option ReasoningLevel) (env : FuneraEnv Json F64)
      → IsSynced json env
      → IsSynced json (with_level o env)
  unfolding Build.with_reasoning_level
  with_level-IsSynced none env h = h
  with_level-IsSynced (some level) env (a, c, d, e, f) = (a, c, d, refl, f)

  with_tool_registry-IsSynced :
      (r : GuardedToolRegistry Json F64) (env : FuneraEnv Json F64)
      → IsSynced json env
      → IsSynced json (Build.with_tool_registry json r env)
  unfolding Build.with_tool_registry
  with_tool_registry-IsSynced r env (a, c, d, e, f) = (refl, c, d, e, f)

  with_skill_registry-IsSynced :
      (r : SkillRegistry) (env : FuneraEnv Json F64)
      → IsSynced json env
      → IsSynced json (Build.with_skill_registry r env)
  unfolding Build.with_skill_registry
  with_skill_registry-IsSynced r env (a, c, d, e, f) = (a, c, d, e, refl)

module _ {Json F64 : Type 0} (json : JsonOps Json) (fs : FileSystem) (policy : ToolPolicy F64)
    (number : Client → ℕ) (surroundings : Surroundings) where
  -- From the environment of any built runtime, after any run of commands of which none sets a prompt by
  -- hand, the watch channels show the available tools, the client, the model, the reasoning level and
  -- the prompt of the active skills.
  pub run-build_env-IsSynced :
      (b : AgentRuntimeBuilder Json F64) (client : Client) (cmds : List (EnvCmd Json))
      → all keeps_prompt cmds ≡ true
      → IsSynced json (run json cmds (build_env json fs policy number surroundings b client))
  unfolding build_env
  run-build_env-IsSynced b client cmds k =
      run-IsSynced json cmds (build_env json fs policy number surroundings b client) k (
        with_skill_registry-IsSynced json _ _ (
          with_tool_registry-IsSynced json _ _
            (with_level-IsSynced json b.reasoning_level _ (new-IsSynced json policy _ _))))

  no_client :
      (b : AgentRuntimeBuilder Json F64) (c : Option ℕ) (s k e : Option String)
      → (is_ok (
            build_from json fs policy number surroundings b
              (client_with c (or_else s (or_else k e)) b.base_url))
          ≡ false)
        ↔ ((c ≡ none) × (s ≡ none) × (k ≡ none) × (e ≡ none))
  no_client b (some c) s k e = ground arith
  no_client b none (some s) k e = ground arith
  no_client b none none (some k) e = ground arith
  no_client b none none none (some e) = ground arith
  no_client b none none none none = (λ h. (refl, refl, refl, refl), λ h. refl)

  -- `build_with` fails exactly if no client was given and a key stands neither in the builder nor in
  -- the process environment.
  pub build_with-find_client :
      (b : AgentRuntimeBuilder Json F64)
      → (is_ok (build_with json fs policy number surroundings b) ≡ false) ↔ (
          (b.client ≡ none)
          × (b.secure_api_key ≡ none)
          × (b.api_key ≡ none)
          × (surroundings.openai_api_key ≡ none))
  unfolding build_with find_client
  build_with-find_client b =
      no_client b b.client b.secure_api_key b.api_key surroundings.openai_api_key
