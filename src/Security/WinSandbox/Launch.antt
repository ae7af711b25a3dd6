-- ===== src/Security/WinSandbox/Launch.antt =====
-- `launch_restricted`, `PipeGuard`, `try_full_sandbox`, `execute_fallback` and `WindowsSandbox::execute` of
-- funera_core/src/security/sandbox_win.rs. An answer of Windows that is none is an error with its text.
use funera.Events.{Result, err, ok}
use funera.Security.WinSandbox.Token.{
  Handle, TokenCalls, Win, stdout_read, close_handle, create_write_restricted_token, stdout_write,
  opened, stderr_read, stdin_write, stderr_write, stdin_read, thread, process,
}
use funera.Prelude.{
  [], ◌∷◌, ◌++◌, true, false, none, some, if◌then◌else◌, List, Option, Bool, String, ℤ, pos,
  push_str, get_or, negsuc,
}
use funera.Security.Sandbox.Runner.{Output}

pub record LaunchCalls : Type 0 where
  pub create_stdout_pipe : Option String
  pub create_stderr_pipe : Option String
  pub create_stdin_pipe : Option String
  pub set_stdout_information : Option String
  pub set_stderr_information : Option String
  pub get_std_handle : Option String
  pub create_process_as_user : Option String
  -- whether `WaitForSingleObject` saw the end, and `GetExitCodeProcess`
  pub wait_object : Bool
  pub exit_code_process : Option ℤ
  -- what the child wrote, up to the end of the pipe
  pub read_pipe : Handle → String

-- what is done with the child, the last first
pub data Step : Type 0 where
  started waited terminated : Step
  read_to_end : Handle → Step

-- none where the handle was nulled
pub record PipeGuard : Type 0 where
  pub stdout_read : Handle
  pub stdout_write : Option Handle
  pub stderr_read : Handle
  pub stderr_write : Option Handle
  pub committed : Bool

abbrev close_if : Option Handle → Win → Win
close_if none w = w
close_if (some h) w = close_handle h w

unfoldable pub close_write_ends : PipeGuard → Win → PipeGuard × Win
close_write_ends g w = (
  record g { stdout_write = none; stderr_write = none },
  close_if g.stderr_write (close_if g.stdout_write w),
)

-- `drop`
unfoldable pub drop_guard : PipeGuard → Win → Win
drop_guard g w =
    if g.committed
    then w
    else close_if g.stderr_write
        (close_handle g.stderr_read (close_if g.stdout_write (close_handle g.stdout_read w)))

abbrev pub new_guard : PipeGuard
new_guard = record {
  stdout_read = stdout_read;
  stdout_write = some stdout_write;
  stderr_read = stderr_read;
  stderr_write = some stderr_write;
  committed = false;
}

abbrev pub Launched : Type 0
Launched = Result (String × String × ℤ) String × Win × List Step

module _ (calls : LaunchCalls) where
  -- the exit code of the child that has ended, or of the one that is terminated
  abbrev pub finish : Bool → Option ℤ → ℤ × List Step
  finish true none = (pos 1, [])
  finish true (some code) = (code, [])
  finish false code = (pos 1, terminated ∷ [])

  -- the pipes are read to their ends before a child that is late is terminated
  abbrev pub run_child : Win → Launched
  run_child w =
      let end = finish calls.wait_object calls.exit_code_process in
      (
        ok (calls.read_pipe stdout_read, calls.read_pipe stderr_read, end.0),
        close_handle thread
            (close_handle process (close_handle stderr_read (close_handle stdout_read w))),
        end.1 ++ read_to_end stderr_read ∷ read_to_end stdout_read ∷ waited ∷ started ∷ [],
      )

  abbrev pub after_create : PipeGuard → Option String → Win → Launched
  after_create g (some e) w =
      let (closed, v) = close_write_ends g w in
      (
        err (push_str "CreateProcessAsUserW failed: " e),
        drop_guard closed (close_handle stdin_read v),
        [],
      )
  after_create g none w =
      run_child (close_handle stdin_read (close_write_ends g (opened (thread ∷ process ∷ []) w)).1)

  abbrev pub after_std_handle : PipeGuard → Option String → Win → Launched
  after_std_handle g (some e) w = (err e, drop_guard g w, [])
  after_std_handle g none w = after_create g calls.create_process_as_user w

  abbrev pub after_stdin_pipe : PipeGuard → Option String → Win → Launched
  after_stdin_pipe g (some e) w = (err e, drop_guard g w, [])
  after_stdin_pipe g none w =
      after_std_handle g calls.get_std_handle
        (close_handle stdin_write (opened (stdin_write ∷ stdin_read ∷ []) w))

  abbrev pub after_information : PipeGuard → Option String → Option String → Win → Launched
  after_information g (some e) f w = (err e, drop_guard g w, [])
  after_information g none (some e) w = (err e, drop_guard g w, [])
  after_information g none none w = after_stdin_pipe g calls.create_stdin_pipe w

  -- the guard is there once both pipes are
  abbrev pub after_stderr_pipe : Option String → Win → Launched
  after_stderr_pipe (some e) w = (err e, w, [])
  after_stderr_pipe none w =
      after_information new_guard calls.set_stdout_information calls.set_stderr_information
        (opened (stderr_write ∷ stderr_read ∷ []) w)

  abbrev pub after_stdout_pipe : Option String → Win → Launched
  after_stdout_pipe (some e) w = (err e, w, [])
  after_stdout_pipe none w =
      after_stderr_pipe calls.create_stderr_pipe (opened (stdout_write ∷ stdout_read ∷ []) w)

  unfoldable pub launch_restricted : Win → Launched
  launch_restricted w = after_stdout_pipe calls.create_stdout_pipe w

  abbrev pub launch_with : Result Handle String × Win → Launched
  launch_with (err e, w) = (err e, w, [])
  launch_with (ok token, w) =
      let (result, v, steps) = launch_restricted w in (result, close_handle token v, steps)

  unfoldable pub try_full_sandbox : TokenCalls → Win → Launched
  try_full_sandbox token_calls w = launch_with (create_write_restricted_token token_calls w)

-- what becomes of the command that is started without the token, with the variables that block the
-- network or without: none when its time is up
abbrev fallback_of : Option (Result Output String) → Result (String × String × ℤ) String
fallback_of none = err "command timed out"
fallback_of (some (err e)) = err (push_str "command failed: " e)
fallback_of (some (ok o)) = ok (o.stdout, o.stderr, get_or o.code (negsuc 0))

unfoldable pub execute_fallback :
    (Bool → Option (Result Output String)) → Bool → Result (String × String × ℤ) String
execute_fallback output block_network = fallback_of (output block_network)

abbrev pub or_fallback : (Bool → Option (Result Output String)) → Bool → Launched → Launched
or_fallback output block_network (ok r, w, steps) = (ok r, w, steps)
or_fallback output block_network (err e, w, steps) =
    (execute_fallback output block_network, w, steps)

unfoldable pub execute :
    LaunchCalls → TokenCalls → (Bool → Option (Result Output String)) → Bool → Win → Launched
execute calls token_calls output block_network w =
    or_fallback output block_network (try_full_sandbox calls token_calls w)
