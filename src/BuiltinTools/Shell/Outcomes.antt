-- ===== src/BuiltinTools/Shell/Outcomes.antt =====
-- The processes that a call of `ShellTool` in funera_builtin_tools/src/shell.rs starts, what confines
-- them, and what it leaves behind.

use funera.Prelude.{
  ◌∷◌, ◌≡◌, ◌&&◌, true, false, none, some, Option, Bool, String, refl, if◌then◌else◌,
}
use funera.Security.Sandbox.Runner.{
  output_within, execute_unix_sandbox, capabilities, confined_output, Nono, Started, Processes,
  Command, Output, elapsed, applied, run_command, triple,
}
use funera.BuiltinTools.Shell.{
  Seconds, ShellTool, execute, execute_normal, execute_sandboxed, answer, answer_triple, FileSystem,
  Result, SandboxPolicy, ToolCallError, err, ok, tool_execution_error, JsonOps, run_shell,
}

-- What a call may do to the processes: it starts none; it starts one, waits for its end and answers; or
-- it starts one, gives up and leaves it running, which is an error.
pub data Outcome {Json Caps : Type 0} (P : Option Caps → Type 0) (s : Started Caps)
    : Result String (ToolCallError Json) → Started Caps → Type 0 where
  idle : (r : Result String (ToolCallError Json)) → Outcome P s r s
  ended :
      (c : Command) (o : Option Caps)
      → P o
      → (r : Result String (ToolCallError Json))
      → Outcome P s r (record { started = (c, o) ∷ s.started; abandoned = s.abandoned })
  left :
      (c : Command) (o : Option Caps)
      → P o
      → (e : String)
      → Outcome P s
          (err (tool_execution_error e))
          (record { started = (c, o) ∷ s.started; abandoned = c ∷ s.abandoned })

module _ {Caps : Type 0} (nono : Nono Caps) (fs : FileSystem) where
  abbrev pub IsConfined : Bool → SandboxPolicy → Option Caps → Type 0
  IsConfined true policy o =
      (caps : Caps) × (o ≡ some caps) × (capabilities nono fs policy ≡ ok caps)
  IsConfined false policy o = o ≡ none

  -- an enabled policy confines to its capabilities, where the platform can
  abbrev pub Confines : Option SandboxPolicy → Option Caps → Type 0
  Confines none o = o ≡ none
  Confines (some policy) o = IsConfined (policy.enabled && nono.is_supported) policy o

outcome_if :
    {Json Caps A : Type 0} (Q : Bool → Option Caps → Type 0)
    (f : A → Result String (ToolCallError Json)) (b : Bool) (x y : A × Started Caps)
    (s : Started Caps)
    → Outcome (Q true) s (f x.0) x.1
    → Outcome (Q false) s (f y.0) y.1
    → Outcome (Q b) s (f (if b then x else y).0) (if b then x else y).1
outcome_if Q f true x y s h e = h
outcome_if Q f false x y s h e = e

module _ {Json Caps Secs : Type 0} (processes : Processes Caps Secs) where
  elapsed-Outcome :
      (P : Option Caps → Type 0)
      (f : Option (Result Output String) → Result String (ToolCallError Json)) (e : String)
      (c : Command) (o : Option Caps) (r : Option (Result Output String)) (s : Started Caps)
      → f none ≡ err (tool_execution_error e)
      → P o
      → Outcome P s (f (elapsed processes c o r s).0) (elapsed processes c o r s).1
  elapsed-Outcome P f e c o none s t p = rw t (left c o p e)
  elapsed-Outcome P f e c o (some r) s t p = ended c o p (f (some r))

  module _ (nono : Nono Caps) where
    applied-Outcome :
        (f : Option (Result Output String) → Result String (ToolCallError Json)) (e : String)
        (fs : FileSystem) (policy : SandboxPolicy) (c : Command) (caps : Caps) (limit : Secs)
        (r : Result (Unit {0}) String) (s : Started Caps)
        → f none ≡ err (tool_execution_error e)
        → capabilities nono fs policy ≡ ok caps
        → Outcome
            (IsConfined nono fs true policy)
            s
            (f (applied processes nono c caps limit r s).0)
            (applied processes nono c caps limit r s).1
    unfolding output_within
    applied-Outcome f e fs policy c caps limit (ok u) s t built =
        elapsed-Outcome (IsConfined nono fs true policy) f e c (some caps) _ s t (caps, refl, built)
    applied-Outcome f e fs policy c caps limit (err x) s t built = idle _

    confined_output-Outcome :
        (f : Option (Result Output String) → Result String (ToolCallError Json)) (e : String)
        (fs : FileSystem) (policy : SandboxPolicy) (c : Command) (caps : Caps) (limit : Secs)
        (s : Started Caps)
        → f none ≡ err (tool_execution_error e)
        → capabilities nono fs policy ≡ ok caps
        → Outcome
            (IsConfined nono fs nono.is_supported policy)
            s
            (f (confined_output processes nono c caps limit s).0)
            (confined_output processes nono c caps limit s).1
    unfolding output_within
    confined_output-Outcome f e fs policy c caps limit s t built =
        outcome_if (λ b. IsConfined nono fs b policy) f nono.is_supported _ _ s
          (applied-Outcome f e fs policy c caps limit (nono.apply_auto caps) s t built)
          (elapsed-Outcome (λ o. o ≡ none) f e c none _ s t refl)

module _ {Json Caps Secs : Type 0} (json : JsonOps Json) (seconds : Seconds Json Secs)
    (processes : Processes Caps Secs) (nono : Nono Caps) (fs : FileSystem) where
  execute_normal-Outcome :
      (shell shell_flag command_str : String) (workdir : Option String) (limit : Secs)
      (s : Started Caps)
      → Outcome
          (λ o. o ≡ none)
          s
          (execute_normal json seconds processes nono fs shell shell_flag command_str workdir limit
            s).0
          (execute_normal json seconds processes nono fs shell shell_flag command_str workdir limit
            s).1
  unfolding execute_normal output_within
  execute_normal-Outcome shell shell_flag command_str workdir limit s =
      elapsed-Outcome processes (λ o. o ≡ none) (answer json seconds processes nono fs limit) _ _
        none _ s refl refl

  built-Outcome :
      (policy : SandboxPolicy) (shell shell_flag command_str : String) (workdir : Option String)
      (limit : Secs) (caps : Result Caps String) (s : Started Caps)
      → capabilities nono fs policy ≡ caps
      → Outcome
          (IsConfined nono fs nono.is_supported policy)
          s
          (answer_triple json seconds processes nono fs
            (run_command processes nono shell shell_flag command_str workdir limit caps s).0)
          (run_command processes nono shell shell_flag command_str workdir limit caps s).1
  built-Outcome policy shell shell_flag command_str workdir limit (err e) s built = idle _
  built-Outcome policy shell shell_flag command_str workdir limit (ok caps) s built =
      confined_output-Outcome processes nono
        (λ r. answer_triple json seconds processes nono fs (triple processes nono r)) _ fs policy _
        caps limit s refl built

  execute_sandboxed-Outcome :
      (policy : SandboxPolicy) (shell shell_flag command_str : String) (workdir : Option String)
      (limit : Secs) (s : Started Caps)
      → Outcome
          (IsConfined nono fs nono.is_supported policy)
          s
          (execute_sandboxed json seconds processes nono fs
            (some policy)
            shell
            shell_flag
            command_str
            workdir
            limit
            s).0
          (execute_sandboxed json seconds processes nono fs
            (some policy)
            shell
            shell_flag
            command_str
            workdir
            limit
            s).1
  unfolding execute_sandboxed execute_unix_sandbox
  execute_sandboxed-Outcome policy shell shell_flag command_str workdir limit s =
      built-Outcome policy shell shell_flag command_str workdir limit (capabilities nono fs policy)
        s refl

  run_shell-Outcome :
      (o : Option SandboxPolicy) (args : Json) (command : Option String) (s : Started Caps)
      → Outcome
          (Confines nono fs o)
          s
          (run_shell json seconds processes nono fs
            (record { sandbox_policy = o })
            args
            command
            s).0
          (run_shell json seconds processes nono fs
            (record { sandbox_policy = o })
            args
            command
            s).1
  run_shell-Outcome o args none s = idle _
  run_shell-Outcome none args (some command) s = execute_normal-Outcome _ _ command _ _ s
  run_shell-Outcome (some policy) args (some command) s =
      outcome_if (λ b. IsConfined nono fs (b && nono.is_supported) policy) (λ r. r) policy.enabled _
        _ s (execute_sandboxed-Outcome policy "sh" "-c" command _ _ s)
        (execute_normal-Outcome "sh" "-c" command _ _ s)

  -- A call of the shell tool starts at most one command. With a policy that is enabled, on a platform that
  -- can confine, it runs under exactly the capabilities of the policy and of the system's paths, and
  -- otherwise under none: a policy that cannot be applied there is never replaced by a run without it,
  -- and where the platform cannot confine, nothing of the policy is in force, its restriction of the
  -- network included. A command that is left running is always reported as an error, and a call leaves
  -- none when it answers with an output.
  pub execute-Outcome :
      (tool : ShellTool) (args : Json) (s : Started Caps)
      → Outcome
          (Confines nono fs tool.sandbox_policy)
          s
          (execute json seconds processes nono fs tool args s).0
          (execute json seconds processes nono fs tool args s).1
  unfolding execute
  execute-Outcome tool args s =
      run_shell-Outcome tool.sandbox_policy args (json.get_str args "command") s
