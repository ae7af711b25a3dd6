-- ===== src/BuiltinTools/Shell.antt =====
-- `ShellTool` of funera_builtin_tools/src/shell.rs, on a platform other than Windows: the arguments, the
-- limit on the time, the two ways to run a command, and the text that shows its output. Durations are
-- the `f64` seconds they are made of.
use funera.Tool.Error.{ToolCallError, parameter_mismatch, tool_execution_error}
use funera.Events.{Result, err, ok}
use funera.Security.PathGuard.{FileSystem}
use funera.Json.{JsonOps}
use funera.Security.Sandbox.{SandboxPolicy}
use funera.Prelude.{
  [], ◌∷◌, false, none, some, if◌then◌else◌, Option, Bool, String, get_or, ℤ, is_zero, not,
  is_empty, push_str, concat, negsuc,
}
use funera.Security.Sandbox.Runner.{
  null, Output, Processes, Nono, Started, Command, execute_unix_sandbox, output_within,
  format_triple_output,
}
pub mod Laws
pub mod Outcomes

-- what the tool uses of `f64`: the argument, `<`, three constants, and `{:.1}`
pub record Seconds (Json Secs : Type 0) : Type 0 where
  pub get_f64 : Json → String → Option Secs
  pub lt : Secs → Secs → Bool
  pub one : Secs
  pub thirty : Secs
  pub three_hundred : Secs
  pub display : Secs → String

pub record ShellTool : Type 0 where
  pub sandbox_policy : Option SandboxPolicy

abbrev pub new : ShellTool
new = record { sandbox_policy = none }

abbrev pub with_sandbox : SandboxPolicy → ShellTool
with_sandbox policy = record { sandbox_policy = some policy }

module _ {Json Secs : Type 0} (seconds : Seconds Json Secs) where
  -- `f64::clamp`
  abbrev pub clamp : Secs → Secs → Secs → Secs
  clamp t low high = if seconds.lt t low then low else if seconds.lt high t then high else t

  unfoldable pub timeout_of : Json → Secs
  timeout_of args =
      clamp (get_or (seconds.get_f64 args "timeout") seconds.thirty) seconds.one
        seconds.three_hundred

-- `status.success()`
abbrev pub success : Option ℤ → Bool
success none = false
success (some code) = is_zero code

module _ (show_i32 : ℤ → String) where
  abbrev push_stdout : Output → String → String
  push_stdout output result =
      if not (is_empty output.stdout)
      then push_str (push_str result "stdout:\n") output.stdout
      else result

  abbrev push_break : String → String
  push_break result = if not (is_empty result) then push_str result "\n" else result

  abbrev push_stderr : Output → String → String
  push_stderr output result =
      if not (is_empty output.stderr)
      then push_str (push_str (push_break result) "stderr:\n") output.stderr
      else result

  abbrev push_status : Output → String → String
  push_status output result =
      if success output.code
      then (if is_empty result
          then push_str result "(command completed with no output)"
          else result)
      else push_str result
          (concat ("\n(exit code: " ∷ show_i32 (get_or output.code (negsuc 0)) ∷ ")" ∷ []))

  unfoldable pub format_output : Output → String
  format_output output = push_status output (push_stderr output (push_stdout output ""))

module _ {Json Caps Secs : Type 0} (json : JsonOps Json) (seconds : Seconds Json Secs)
    (processes : Processes Caps Secs) (nono : Nono Caps) (fs : FileSystem) where
  abbrev failure : String → Result String (ToolCallError Json)
  failure e = err (tool_execution_error e)

  abbrev answer : Secs → Option (Result Output String) → Result String (ToolCallError Json)
  answer limit none =
      failure (concat ("command timed out after " ∷ seconds.display limit ∷ "s" ∷ []))
  answer limit (some (err e)) = failure (push_str "failed to execute command: " e)
  answer limit (some (ok output)) = ok (format_output processes.show_i32 output)

  unfoldable pub execute_normal :
      String
      → String
      → String
      → Option String
      → Secs
      → Started Caps
      → Result String (ToolCallError Json) × Started Caps
  execute_normal shell shell_flag command_str workdir limit s =
      let c : Command = record {
        program = shell;
        flag = shell_flag;
        command = command_str;
        current_dir = workdir;
        stdin = null;
      } in
      let r = output_within processes c none limit s in (answer limit r.0, r.1)

  abbrev answer_triple : Result (String × String × ℤ) String → Result String (ToolCallError Json)
  answer_triple (err e) = failure (push_str "sandboxed command failed: " e)
  answer_triple (ok (stdout, stderr, exit_code)) =
      ok (format_triple_output processes.show_i32 stdout stderr exit_code)

  -- `Sandbox::new` does not fail here
  unfoldable pub execute_sandboxed :
      Option SandboxPolicy
      → String
      → String
      → String
      → Option String
      → Secs
      → Started Caps
      → Result String (ToolCallError Json) × Started Caps
  execute_sandboxed none shell shell_flag command_str workdir limit s =
      (failure "sandbox policy missing", s)
  execute_sandboxed (some policy) shell shell_flag command_str workdir limit s =
      let r =
        execute_unix_sandbox processes nono fs policy shell shell_flag command_str workdir limit
          s in
      (answer_triple r.0, r.1)

  abbrev is_enabled : Option SandboxPolicy → Bool
  is_enabled none = false
  is_enabled (some policy) = policy.enabled

  abbrev run_shell :
      ShellTool
      → Json
      → Option String
      → Started Caps
      → Result String (ToolCallError Json) × Started Caps
  run_shell tool args none s =
      (err (parameter_mismatch (json.object (("error", json.string "missing command") ∷ []))), s)
  run_shell tool args (some command_str) s =
      if is_enabled tool.sandbox_policy
      then execute_sandboxed tool.sandbox_policy "sh" "-c" command_str (json.get_str args "workdir")
          (timeout_of seconds args) s
      else execute_normal "sh" "-c" command_str (json.get_str args "workdir")
          (timeout_of seconds args) s

  unfoldable pub execute :
      ShellTool → Json → Started Caps → Result String (ToolCallError Json) × Started Caps
  execute tool args s = run_shell tool args (json.get_str args "command") s
