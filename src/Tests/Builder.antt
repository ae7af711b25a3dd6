-- ===== src/Tests/Builder.antt =====
-- A builder with two tools of one name, a skill and the built-in tools.
use funera.Dict.{mem}
use funera.Events.{ok}
use funera.Tool.Registry.{Tool, get_tool_arc}
use funera.Security.PathGuard.{FileSystem}
use funera.Security.Sandbox.{SandboxPolicy}
use funera.Prelude.{
  [], ◌∷◌, ◌≡◌, ◌++◌, ◌&&◌, ◌||◌, true, false, none, some, refl, Option, ℕ, String, is_some,
}
use funera.Security.Policy
use funera.Dict
use funera.Security.Sandbox
use funera.Orchestrate.Builder
use funera.Orchestrate.Builder.{
  with_skill, with_skill_active, with_tool_instance, with_builtin_tools, with_sandbox_policy,
  Surroundings, AgentRuntimeBuilder,
}
use funera.Orchestrate.Builder.Runtime.{build_registry, build_skills, defaults, names_of}
use funera.Orchestrate.Builder.Laws.{with_sandbox_policy-with_builtin_tools}
use funera.Orchestrate.Builder.Activation.{build_skills-last_skill, last_skill}
use funera.BuiltinTools.Register.{BuiltinTools}

abbrev pub fs : FileSystem
fs = record {
  parse = λ s. s ∷ [];
  display = λ p. "path";
  exists = λ p. true;
  canonicalize = λ p. ok p;
}

abbrev tool : ℕ → String → Tool String
tool n name = record {
  identity = n;
  name = name;
  schema = name;
  is_shell_tool = false;
  execute = λ args. ok args;
}

abbrev is_sandboxed : Option SandboxPolicy → ℕ
is_sandboxed none = 13
is_sandboxed (some p) = 14

abbrev builtin : BuiltinTools String
builtin = record {
  read = tool 10 "read";
  write = tool 11 "write";
  edit = tool 12 "edit";
  shell = λ o. tool (is_sandboxed o) "shell";
}

abbrev pub surroundings : Surroundings
surroundings = record { openai_api_key = none; openai_model = none; default_skills = [] }

abbrev pub builder : AgentRuntimeBuilder String ℕ
builder = with_tool_instance (tool 2 "grep") (
    with_tool_instance (tool 1 "grep")
      (with_skill_active "rust" (with_skill "rust" "" "Write Rust." Builder.new)))

with_sandbox_policy-with_builtin_tools_example :
    (get_tool_arc "shell"
        (build_registry fs
          (Policy.default 300)
          (with_builtin_tools builtin (with_sandbox_policy Sandbox.default builder))).inner
      ≡ some (tool 14 "shell"))
    × (get_tool_arc "shell"
          (build_registry fs
            (Policy.default 300)
            (with_sandbox_policy Sandbox.default (with_builtin_tools builtin builder))).inner
        ≡ some (tool 13 "shell"))
with_sandbox_policy-with_builtin_tools_example =
    with_sandbox_policy-with_builtin_tools fs (Policy.default 300) builtin Sandbox.default builder
      (refl, refl, refl, λ o. refl) refl

build_skills-last_skill_example :
    (Dict.get "rust" (build_skills surroundings builder).skills
      ≡ last_skill "rust" (defaults surroundings builder ++ builder.skills))
    × (mem "rust" (build_skills surroundings builder).active ≡ (
        (mem "rust" builder.skill_names_to_activate
          || mem "rust" (names_of (defaults surroundings builder)))
        && is_some (last_skill "rust" (defaults surroundings builder ++ builder.skills))))
build_skills-last_skill_example = build_skills-last_skill surroundings builder "rust"
