-- ===== src/Tests/WinSandbox.antt =====
-- A run of the Windows sandbox where the second pipe cannot be made, and a small environment.
use funera.Events.{ok}
use funera.Prelude.{[], ◌∷◌, ◌≡◌, ◌++◌, true, none, some, refl, List, String, all, any}
use funera.Security.WinSandbox.{build_net_blocked_env_block}
use funera.Security.WinSandbox.Laws.{build_net_blocked_env_block-is_poisoned, is_poisoned, is_pair}
use funera.Security.WinSandbox.Token.{TokenCalls, Win, create_write_restricted_token}
use funera.Security.WinSandbox.Launch.{LaunchCalls, try_full_sandbox}
use funera.Security.WinSandbox.Handles.{try_full_sandbox-leaked, leaked, got_token, misfrees}

-- both bits of a logon SID, in one group
abbrev token_calls : TokenCalls
token_calls = record {
  open_process_token = none;
  token_groups = ok (record { attributes = 3221225472; to_text = none; to_sid = true } ∷ []);
  allocate = λ sid. none;
  create_restricted_token = none;
}

abbrev launch_calls : LaunchCalls
launch_calls = record {
  create_stdout_pipe = none;
  create_stderr_pipe = some "no pipe";
  create_stdin_pipe = none;
  set_stdout_information = none;
  set_stderr_information = none;
  get_std_handle = none;
  create_process_as_user = none;
  wait_object = true;
  exit_code_process = none;
  read_pipe = λ h. "";
}

abbrev win : Win
win = record { handles = []; sids = []; misfreed = [] }

try_full_sandbox-leaked_example : (try_full_sandbox launch_calls token_calls win).1 ≡ record win {
  handles = got_token (create_write_restricted_token token_calls win).0 (leaked launch_calls) ++ [];
  misfreed = misfrees token_calls ++ [];
}
try_full_sandbox-leaked_example = try_full_sandbox-leaked launch_calls token_calls win

abbrev vars : List (String × String)
vars = ("HTTP_PROXY", "http://proxy:8080") ∷ ("HOME", "/root") ∷ []

build_net_blocked_env_block-is_poisoned_example :
    (all (is_poisoned (λ s. s)) (build_net_blocked_env_block (λ s. s) vars) ≡ true)
    × (any (is_pair "HOME" "/root") (build_net_blocked_env_block (λ s. s) vars) ≡ true)
build_net_blocked_env_block-is_poisoned_example =
    build_net_blocked_env_block-is_poisoned (λ s. s) vars "HOME" "/root" refl refl
