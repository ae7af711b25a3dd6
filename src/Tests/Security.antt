-- ===== src/Tests/Security.antt =====
-- A registry with one tool behind a guard, a sandbox and a time limit.
use funera.Security.Boundary.Laws.{check_boundary-tier, IsTiered, IsTrusted}
use funera.Security.Shell.Laws.{passes, check_command-eq-ok}
use funera.Security.PathGuard.Laws.{verify-eq-ok}
use funera.Security.Registry.Checks.{check_policy-eq-ok}
use funera.Security.Registry.Ends.{
  waits_for_user, waits_for_tool, asks, later, call_tool-approve_tool_call, call_tool-is_some,
}
use funera.Security.Shell.{check_command, substring, with_allowed, dangerous}
use funera.Security.Boundary.{tier, check_boundary, is_trusted, reject_first}
use funera.Security.Registry.Reports.{verdicts, verdict_on, call_tool-verdicts}
use funera.Security.Registry.Runs.{runs, is_permitted, lets_run, call_tool-runs}
use funera.Events.{err, ok}
use funera.Security.Sandbox.{SandboxPolicy, is_within_boundary, within_any}
use funera.Tool.Registry.{Tool, get_tool, get_tool_arc}
use funera.Tests.Data.{text_json}
use funera.Security.PathGuard.{
  PathBuf, FileSystem, PathGuard, verify, path_starts_with, canonical_or_same,
}
use funera.Security.Policy.{
  Floats, ToolPolicy, check_tool_allowed, check_workdir, check_args, check_shell_command,
}
use funera.Prelude.{
  ◌||◌, List, All, [], ◌∷◌, ◌≡◌, ◌↔◌, ◌≤◌, true, false, none, some, refl, if◌then◌else◌, ℕ, String,
  is_some, any, concat, ltb, not,
}
use funera.Security.Registry.{GuardedToolRegistry, approve_tool_call}
use funera.Security.Registry.Call.{
  World, Call, silence, answered, check_policy, check_shell, boundary_decision,
  extract_paths_from_args, is_inside, run_of, call_tool,
}

abbrev floats : Floats String ℕ
floats = record { get_f64 = λ v key. none; gt = λ a b. ltb b a; display = λ a. "1" }

-- every path exists and is its own resolution
abbrev fs : FileSystem
fs = record {
  parse = λ s. s ∷ [];
  display = λ p. concat p;
  exists = λ p. true;
  canonicalize = λ p. ok p;
}

abbrev pub world : World String ℕ
world = record { json = text_json; floats = floats; patterns = substring; fs = fs; show = λ n. "0" }

abbrev echo : Tool String
echo = record {
  identity = 1;
  name = "echo";
  schema = "{}";
  is_shell_tool = false;
  execute = λ args. ok args;
}

abbrev sandbox_here : SandboxPolicy
sandbox_here = record funera.Security.Sandbox.default { read_paths = ("filePath" ∷ []) ∷ [] }

abbrev guard : PathGuard
guard = record { allowed_roots = ("home" ∷ []) ∷ [] }

abbrev policy : ToolPolicy ℕ
policy = record (funera.Security.Policy.default 300) {
  allowed_workdirs = "/tmp/allowed" ∷ [];
  sandbox = sandbox_here;
}

abbrev pub registry : GuardedToolRegistry String ℕ
registry = record {
  inner = record { tools = ("echo", record { tool = echo; available = true }) ∷ [] };
  policy = policy;
  path_guard = some guard;
  audit_bus = true;
  sandbox_paths = (("filePath" ∷ []) ∷ [], []);
  pending_approvals = [];
  approval_timeout = true;
  approval_callback = true;
  react_bus = false;
}

abbrev unanswered : Call String
unanswered = record {
  name = "echo";
  args = "filePath";
  call_id = "id";
  response = silence;
  never_ready = false;
  duration_ms = 5;
  sandbox_at = 1;
  denied_at = 2;
  executed_at = 3;
}

abbrev pub agreed : Call String
agreed = record unanswered { response = answered true }

asks-unanswered : asks world registry unanswered ≡ true
unfolding check_policy check_tool_allowed check_args check_workdir check_shell_command get_tool
    funera.Dict.get boundary_decision extract_paths_from_args check_boundary is_trusted verify
    reject_first is_inside within_any canonical_or_same path_starts_with
asks-unanswered = refl

call_tool-approve_tool_call_example :
    ((call_tool world registry unanswered).result
      ≡ some (err (funera.Tool.Error.rejected "tool call rejected by user")))
    × ((approve_tool_call "id" true (later world registry (call_tool world registry unanswered))).0
        ≡ ok tt)
call_tool-approve_tool_call_example =
    call_tool-approve_tool_call world registry unanswered true asks-unanswered refl refl

call_tool-runs_example : runs (call_tool world registry agreed).effects ≡ (
    if is_permitted world registry agreed
    then run_of world agreed (get_tool_arc "echo" registry.inner)
    else [])
call_tool-runs_example = call_tool-runs world registry agreed

-- the user says yes to a tool that never returns
abbrev stuck : Call String
stuck = record agreed { never_ready = true }

call_tool-is_some_example :
    is_some (call_tool world registry stuck).result
    ≡ not (waits_for_user world registry stuck || waits_for_tool world registry stuck)
call_tool-is_some_example = call_tool-is_some world registry stuck

call_tool-verdicts_example :
    verdicts (call_tool world registry agreed).effects
    ≡ verdict_on world registry agreed
        (check_policy world registry "echo" "filePath")
        (lets_run registry agreed (tier (boundary_decision world registry agreed)))
call_tool-verdicts_example = call_tool-verdicts world registry agreed

check_policy-eq-ok_example : (check_policy world registry "echo" "filePath" ≡ ok tt) ↔ (
    (true ≡ true)
    × (2 ≤ 1048576)
    × (true ≡ true)
    × (true ≡ true)
    × (check_shell world registry "filePath" (get_tool "echo" registry.inner) ≡ ok tt))
check_policy-eq-ok_example = check_policy-eq-ok world registry "echo" "filePath"

abbrev etc : List PathBuf
etc = ("etc" ∷ []) ∷ []

check_boundary-tier_example :
    IsTiered
      (IsTrusted fs etc (some guard))
      (All (λ p. false ≡ true) etc)
      true
      (tier (check_boundary fs "echo" etc (some guard) true (λ p. false)))
check_boundary-tier_example = check_boundary-tier fs "echo" (λ p. false) etc (some guard) true

verify-eq-ok_example : (verify fs guard ("home" ∷ "a" ∷ []) ≡ ok ("home" ∷ "a" ∷ [])) ↔ (
    (true ≡ true)
    × (fs.canonicalize ("home" ∷ "a" ∷ []) ≡ ok ("home" ∷ "a" ∷ []))
    × (any (path_starts_with ("home" ∷ "a" ∷ [])) guard.allowed_roots ≡ true))
verify-eq-ok_example = verify-eq-ok fs guard ("home" ∷ "a" ∷ []) ("home" ∷ "a" ∷ [])

check_command-eq-ok_example :
    (check_command substring (with_allowed ("git" ∷ [])) "gitk --all" ≡ ok tt)
    ↔ ((true ≡ true) × (passes substring "gitk --all" (dangerous substring) ≡ true) × (true ≡ true))
check_command-eq-ok_example = check_command-eq-ok substring (with_allowed ("git" ∷ [])) "gitk --all"
