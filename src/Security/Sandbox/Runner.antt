-- ===== src/Security/Sandbox/Runner.antt =====
-- `Sandbox`, `SandboxPolicy::to_capability_set`, `execute_unix_sandbox` and `format_triple_output` of
-- funera_core/src/security/sandbox.rs, on a platform other than Windows. The `nono` crate and the
-- processes of the operating system are given.
use funera.Security.Sandbox.{SandboxPolicy}
use funera.Security.PathGuard.{FileSystem, PathBuf}
use funera.Prelude.{
  [], ◌∷◌, none, some, if◌then◌else◌, List, Option, Bool, String, push_str, ℤ, get_or, is_empty,
  is_zero, map, concat, negsuc,
}
use funera.Events.{Result, ok, err, ◌>>=◌}

pub data AccessMode : Type 0 where
  read read_write : AccessMode

-- the `nono` crate: `CapabilitySet`, and `Sandbox`, whose errors are their texts
pub record Nono (Caps : Type 0) : Type 0 where
  pub empty : Caps
  pub allow_path : PathBuf → AccessMode → Caps → Result Caps String
  pub block_network : Caps → Caps
  pub is_supported : Bool
  pub apply_auto : Caps → Result (Unit {0}) String

pub data Stdin : Type 0 where
  null inherited : Stdin

-- a command with its output in pipes
pub record Command : Type 0 where
  pub program : String
  pub flag : String
  pub command : String
  pub current_dir : Option String
  pub stdin : Stdin

-- The bytes as `from_utf8_lossy` shows them, and `status.code()`.
pub record Output : Type 0 where
  pub stdout : String
  pub stderr : String
  pub code : Option ℤ

-- The operating system: what `output()` gives, if it is done within the time, for a command that runs
-- under the capabilities, if there are any.
pub record Processes (Caps Secs : Type 0) : Type 0 where
  pub output : Command → Option Caps → Secs → Option (Result Output String)
  pub show_i32 : ℤ → String

-- The commands that were started, the last first, and those of them that nobody waits for any more:
-- tokio lets a child run on when its handle is dropped, unless `kill_on_drop` was set.
pub record Started (Caps : Type 0) : Type 0 where
  pub started : List (Command × Option Caps)
  pub abandoned : List Command

abbrev pub system_sandbox_read_paths : FileSystem → List PathBuf
system_sandbox_read_paths fs = map fs.parse ("/usr" ∷ "/bin" ∷ "/lib" ∷ "/lib64" ∷ "/etc" ∷ [])

-- `.map_err(f)`
abbrev pub map_err : {A : Type 0} → (String → String) → Result A String → Result A String
map_err f (ok a) = ok a
map_err f (err e) = err (f e)

module _ {Caps : Type 0} (nono : Nono Caps) where
  -- the `for` loops over the paths
  abbrev pub allow_paths :
      AccessMode → (PathBuf → String → String) → List PathBuf → Caps → Result Caps String
  allow_paths mode explain [] caps = ok caps
  allow_paths mode explain (path ∷ paths) caps =
      map_err (explain path) (nono.allow_path path mode caps) >>= allow_paths mode explain paths

  unfoldable pub to_capability_set : SandboxPolicy → Result Caps String
  to_capability_set policy =
      allow_paths read (λ path e. e) policy.read_paths nono.empty
      >>= (λ c. allow_paths read_write (λ path e. e) policy.read_write_paths c)
      >>= (λ c. allow_paths read (λ path e. e) policy.execute_paths c)
      >>= λ c. ok (if policy.block_network then nono.block_network c else c)

  -- the capabilities of the policy and of the system's paths
  unfoldable pub capabilities : FileSystem → SandboxPolicy → Result Caps String
  capabilities fs policy =
      map_err (push_str "failed to build sandbox capability set: ") (to_capability_set policy)
      >>= allow_paths read
          (λ path e. concat ("failed to allow system path " ∷ fs.display path ∷ ": " ∷ e ∷ []))
          (system_sandbox_read_paths fs)

module _ {Caps Secs : Type 0} (processes : Processes Caps Secs) where
  abbrev pub elapsed :
      Command
      → Option Caps
      → Option (Result Output String)
      → Started Caps
      → Option (Result Output String) × Started Caps
  elapsed c confined none s =
      (none, record { started = (c, confined) ∷ s.started; abandoned = c ∷ s.abandoned })
  elapsed c confined (some r) s = (some r, record s { started = (c, confined) ∷ s.started })

  -- `timeout(limit, cmd.output())`: none when the time is up; the future is dropped then
  unfoldable pub output_within :
      Command → Option Caps → Secs → Started Caps → Option (Result Output String) × Started Caps
  output_within c confined limit s = elapsed c confined (processes.output c confined limit) s

  module _ (nono : Nono Caps) where
    abbrev pub applied :
        Command
        → Caps
        → Secs
        → Result (Unit {0}) String
        → Started Caps
        → Option (Result Output String) × Started Caps
    applied c caps limit (ok u) s = output_within c (some caps) limit s
    applied c caps limit (err e) s = (some (err (push_str "sandbox apply failed: " e)), s)

    -- `pre_exec` runs in the child before the program; its error is the one of the start
    abbrev pub confined_output :
        Command → Caps → Secs → Started Caps → Option (Result Output String) × Started Caps
    confined_output c caps limit s =
        if nono.is_supported
        then applied c caps limit (nono.apply_auto caps) s
        else output_within c none limit s

    abbrev pub triple : Option (Result Output String) → Result (String × String × ℤ) String
    triple none = err "command timed out"
    triple (some (err e)) = err (push_str "command failed: " e)
    triple (some (ok o)) = ok (o.stdout, o.stderr, get_or o.code (negsuc 0))

    abbrev pub run_command :
        String
        → String
        → String
        → Option String
        → Secs
        → Result Caps String
        → Started Caps
        → Result (String × String × ℤ) String × Started Caps
    run_command shell shell_flag command workdir limit (err e) s = (err e, s)
    run_command shell shell_flag command workdir limit (ok caps) s =
        let c : Command = record {
          program = shell;
          flag = shell_flag;
          command = command;
          current_dir = workdir;
          stdin = inherited;
        } in
        let r = confined_output c caps limit s in (triple r.0, r.1)

    -- `Sandbox::execute`
    unfoldable pub execute_unix_sandbox :
        FileSystem
        → SandboxPolicy
        → String
        → String
        → String
        → Option String
        → Secs
        → Started Caps
        → Result (String × String × ℤ) String × Started Caps
    execute_unix_sandbox fs policy shell shell_flag command workdir limit s =
        run_command shell shell_flag command workdir limit (capabilities nono fs policy) s

abbrev section : String → String → String → String
section label text result = if is_empty text then result else push_str (push_str result label) text

-- a line break, if something stands before
abbrev line_break : String → String
line_break result = if is_empty result then result else push_str result "\n"

abbrev pub sections : String → String → String
sections stdout stderr =
    let first = section "stdout:\n" stdout "" in
    if is_empty stderr then first else section "stderr:\n" stderr (line_break first)

module _ (show_i32 : ℤ → String) where
  abbrev exit_line : Bool → ℤ → String → String
  exit_line success code result =
      if success
      then (if is_empty result then "(command completed with no output)" else result)
      else push_str result (concat ("\n(exit code: " ∷ show_i32 code ∷ ")" ∷ []))

  unfoldable pub format_triple_output : String → String → ℤ → String
  format_triple_output stdout stderr exit_code =
      exit_line (is_zero exit_code) exit_code (sections stdout stderr)
