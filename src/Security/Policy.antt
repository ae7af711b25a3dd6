-- ===== src/Security/Policy.antt =====
-- `ToolPolicy` of funera_core/src/security/policy.rs. Floating point is a parameter of the model.
pub mod Laws
use funera.Tool.Registry.{Tool}
use funera.Security.Error.{
  PolicyError, timeout_exceeded, tool_denied, args_too_large, tool_not_allowed, workdir_denied,
}
use funera.Dict.{mem}
use funera.Security.Sandbox.{SandboxPolicy}
use funera.Json.{JsonOps}
use funera.Events.{Result, err, ok}
use funera.Security.Shell.{ShellPolicy, Patterns, check_command}
use funera.Prelude.{
  [], ◌∷◌, ◌*◌, true, false, none, some, if◌then◌else◌, List, Option, Bool, ℕ, String, not, get_or,
  any, ltb, starts_with,
}

pub record Floats (Json : Type 0) (F64 : Type 0) : Type 0 where
  -- `v.get(key).and_then(|v| v.as_f64())`, `a > b`, and the text of a number
  pub get_f64 : Json → String → Option F64
  pub gt : F64 → F64 → Bool
  pub display : F64 → String

pub record ToolPolicy (F64 : Type 0) : Type 0 where
  pub allowed_tools : Option (List String)
  pub denied_tools : List String
  pub max_args_size : ℕ
  pub max_timeout_secs : F64
  pub shell_policy : Option ShellPolicy
  pub allowed_workdirs : List String
  pub sandbox : SandboxPolicy

-- `minutes` is 300.0
abbrev pub default : {F64 : Type 0} → F64 → ToolPolicy F64
default minutes = record {
  allowed_tools = none;
  denied_tools = [];
  max_args_size = 1024 * 1024;
  max_timeout_secs = minutes;
  shell_policy = some funera.Security.Shell.permissive;
  allowed_workdirs = [];
  sandbox = funera.Security.Sandbox.default;
}

abbrev pub strict : {F64 : Type 0} → F64 → ToolPolicy F64
strict minutes = record (default minutes) {
  allowed_tools = some [];
  shell_policy = some funera.Security.Shell.strict;
}

abbrev pub is_excluded : Option (List String) → String → Bool
is_excluded none name = false
is_excluded (some allowed) name = not (mem name allowed)

abbrev pub is_nil : List String → Bool
is_nil [] = true
is_nil (x ∷ l) = false

-- `if let Some(v) = value { check(v)?; }`
abbrev pub when_some :
    {A : Type 0} → Option A → (A → Result (Unit {0}) PolicyError) → Result (Unit {0}) PolicyError
when_some none check = ok tt
when_some (some v) check = check v

module _ {F64 : Type 0} where
  unfoldable pub check_tool_allowed : ToolPolicy F64 → String → Result (Unit {0}) PolicyError
  check_tool_allowed policy name =
      if mem name policy.denied_tools
      then err (tool_denied name)
      else if is_excluded policy.allowed_tools name
      then err (tool_not_allowed name)
      else ok tt

  unfoldable pub check_workdir : ToolPolicy F64 → String → Result (Unit {0}) PolicyError
  check_workdir policy workdir =
      if is_nil policy.allowed_workdirs
      then ok tt
      else if not (any (λ root. starts_with workdir root) policy.allowed_workdirs)
      then err (workdir_denied workdir)
      else ok tt

abbrev pub size_of : {Json : Type 0} → JsonOps Json → Json → ℕ
size_of json args = get_or (json.vec_len args) 0

module _ {Json F64 : Type 0} (json : JsonOps Json) where
  unfoldable pub check_args : ToolPolicy F64 → Json → Result (Unit {0}) PolicyError
  check_args policy args =
      if ltb policy.max_args_size (size_of json args)
      then err (args_too_large (size_of json args) policy.max_args_size)
      else ok tt

  unfoldable pub check_shell_command :
      Patterns → ToolPolicy F64 → Tool Json → Json → Result (Unit {0}) PolicyError
  check_shell_command patterns policy tool args = when_some policy.shell_policy λ shell.
      if not tool.is_shell_tool
      then ok tt
      else when_some (json.get_str args "command") λ command. check_command patterns shell command

module _ {Json F64 : Type 0} (floats : Floats Json F64) where
  unfoldable pub check_timeout : ToolPolicy F64 → F64 → Result (Unit {0}) PolicyError
  check_timeout policy timeout =
      if floats.gt timeout policy.max_timeout_secs
      then err (timeout_exceeded (floats.display timeout) (floats.display policy.max_timeout_secs))
      else ok tt
