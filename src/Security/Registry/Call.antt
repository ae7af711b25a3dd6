-- ===== src/Security/Registry/Call.antt =====
-- `GuardedToolRegistry::call_tool` of funera_core/src/security/registry.rs, built with the features
-- `regex` and `sandbox`. What arrives while the call waits for the user is an argument.
use funera.Events.{is_ok}
use funera.Security.PathGuard.{FileSystem}
use funera.Security.Shell.{Patterns}
use funera.Security.Sandbox.{summary, within_any}
use funera.Security.Policy.{
  Floats, check_tool_allowed, when_some, check_args, check_shell_command, check_timeout,
  check_workdir,
}
use funera.Tool.Error.{ToolCallError, tool_unavailable}
use funera.Security.Boundary.{BoundaryDecision, check_boundary, requires_approval, auto_approved}
use funera.Tool.Registry.{ToolRegistryEntry, get_tool_arc, get_tool}
use funera.Json.{JsonOps}
use funera.Security.Audit.{AuditEvent, sandbox_applied, tool_denied, sandbox_skipped, tool_executed}
use funera.Prelude.{
  [], ◌∷◌, ◌++◌, true, false, none, some, if◌then◌else◌, List, Option, Bool, ℕ, String, not,
  push_str, ◌&&◌, is_some,
}
use funera.Security.Registry.{GuardedToolRegistry, remove_id, PathBuf, Result, Tool, err, ok}
use funera.Security.Error.{PolicyError}
use funera.Events.{◌>>◌}

-- what a call does besides its answer, in order
pub data Effect (Json : Type 0) : Type 0 where
  audited : AuditEvent → Effect Json
  notified : String → String → String → List PathBuf → Effect Json
  broadcast : String → String → List PathBuf → String → Effect Json
  executed : String → Json → Effect Json

-- what arrives at the wait: an answer by `approve_tool_call`, the loss of the sender, or nothing
pub data Response : Type 0 where
  answered : Bool → Response
  dropped silence : Response

-- one call as the world shows itself to it: the new id, whether the tool's future is never ready,
-- and the clock at the reports
pub record Call (Json : Type 0) : Type 0 where
  pub name : String
  pub args : Json
  pub call_id : String
  pub response : Response
  pub never_ready : Bool
  pub duration_ms : ℕ
  pub sandbox_at : ℕ
  pub denied_at : ℕ
  pub executed_at : ℕ

-- no result: the call waits for an answer that never comes, or for a tool that never returns
pub record Outcome (Json : Type 0) : Type 0 where
  pub effects : List (Effect Json)
  pub pending : List String
  pub result : Option (Result String (ToolCallError Json))

pub record World (Json : Type 0) (F64 : Type 0) : Type 0 where
  pub json : JsonOps Json
  pub floats : Floats Json F64
  pub patterns : Patterns
  pub fs : FileSystem
  -- `usize` in decimal
  pub show : ℕ → String

module _ {Json F64 : Type 0} (world : World Json F64) where
  abbrev pub check_shell :
      GuardedToolRegistry Json F64
      → Json
      → Option (ToolRegistryEntry Json)
      → Result (Unit {0}) PolicyError
  check_shell r args entry =
      when_some entry λ e. check_shell_command world.json world.patterns r.policy e.tool args

  -- the closure `policy_result`, less its report
  unfoldable pub check_policy :
      GuardedToolRegistry Json F64 → String → Json → Result (Unit {0}) PolicyError
  check_policy r name args = do
    check_tool_allowed r.policy name
    check_args world.json r.policy args
    when_some (world.floats.get_f64 args "timeout") λ t. check_timeout world.floats r.policy t
    when_some (world.json.get_str args "workdir") λ d. check_workdir r.policy d
    check_shell r args (get_tool name r.inner)

  abbrev pub audit : GuardedToolRegistry Json F64 → AuditEvent → List (Effect Json)
  audit r event = if r.audit_bus then audited event ∷ [] else []

  unfoldable pub audit_sandbox : GuardedToolRegistry Json F64 → Call Json → List (Effect Json)
  audit_sandbox r call = audit r (
      if r.policy.sandbox.enabled
      then sandbox_applied call.name (summary world.fs r.policy.sandbox) call.sandbox_at
      else sandbox_skipped call.name call.sandbox_at)

  abbrev one_path : Option String → List PathBuf
  one_path none = []
  one_path (some s) = world.fs.parse s ∷ []

  unfoldable pub extract_paths_from_args : Json → List PathBuf
  extract_paths_from_args args = one_path (world.json.get_str args "filePath")

  -- the closure that `call_tool` passes for the fence
  unfoldable pub is_inside : GuardedToolRegistry Json F64 → PathBuf → Bool
  is_inside r p = within_any world.fs (r.sandbox_paths.0 ++ r.sandbox_paths.1) p

  unfoldable pub boundary_decision : GuardedToolRegistry Json F64 → Call Json → BoundaryDecision
  boundary_decision r call =
      check_boundary world.fs call.name (extract_paths_from_args call.args) r.path_guard
        r.policy.sandbox.enabled (is_inside r)

  abbrev pub finished :
      List (Effect Json) → List String → Result String (ToolCallError Json) → Outcome Json
  finished effects pending result = record {
    effects = effects;
    pending = pending;
    result = some result;
  }

  -- `From<PolicyError>` makes a `ToolUnavailable`, whose text goes into another one
  unfoldable pub denial : PolicyError → String
  denial e =
      funera.Tool.Error.error_text world.json
        (tool_unavailable (funera.Security.Error.error_text world.show e))

  abbrev pub error_of : Result String (ToolCallError Json) → Option String
  error_of (ok s) = none
  error_of (err e) = some (funera.Tool.Error.error_text world.json e)

  abbrev pub run_of : Call Json → Option (Tool Json) → List (Effect Json)
  run_of call none = []
  run_of call (some t) = executed call.name call.args ∷ []

  -- the tool that runs, if it is there and available, is never ready
  abbrev pub hangs : GuardedToolRegistry Json F64 → Call Json → Bool
  hangs r call = is_some (get_tool_arc call.name r.inner) && call.never_ready

  -- the tool itself, and behind its `await` the report
  unfoldable pub execute :
      GuardedToolRegistry Json F64
      → Call Json
      → List (Effect Json) × Option (Result String (ToolCallError Json))
  execute r call =
      let ran = run_of call (get_tool_arc call.name r.inner) in
      let result = funera.Tool.Registry.call_tool call.name call.args r.inner in
      if hangs r call then (ran, none) else (
        ran
            ++ audit r (
                tool_executed call.name call.duration_ms (is_ok result) (error_of result)
                  call.executed_at),
        some result,
      )

  -- the end of a call that runs
  abbrev pub executed_after :
      List (Effect Json)
      → List String
      → List (Effect Json) × Option (Result String (ToolCallError Json))
      → Outcome Json
  executed_after before pending (effects, result) = record {
    effects = before ++ effects;
    pending = pending;
    result = result;
  }

  abbrev pub request :
      GuardedToolRegistry Json F64 → Call Json → String → List PathBuf → List (Effect Json)
  request r call reason paths =
      notified call.call_id call.name reason paths
      ∷ (if r.react_bus then broadcast call.call_id call.name paths reason ∷ [] else [])

  -- what the wait yields, if it ends
  abbrev pub await : Bool → Response → Option Bool
  await limit (answered b) = some b
  await limit dropped = some false
  await limit silence = if limit then some false else none

  -- `approve_tool_call` takes the entry out, and a sender is lost only with its entry
  abbrev pub left_pending : Call Json → List String → Response → List String
  left_pending call pending (answered b) = remove_id call.call_id pending
  left_pending call pending dropped = remove_id call.call_id pending
  left_pending call pending silence = call.call_id ∷ remove_id call.call_id pending

  abbrev pub after_wait :
      GuardedToolRegistry Json F64 → Call Json → List (Effect Json) → Option Bool → Outcome Json
  after_wait r call before none = record {
    effects = before;
    pending = left_pending call r.pending_approvals call.response;
    result = none;
  }
  after_wait r call before (some false) =
      finished before (left_pending call r.pending_approvals call.response)
        (err (funera.Tool.Error.rejected "tool call rejected by user"))
  after_wait r call before (some true) =
      executed_after before (left_pending call r.pending_approvals call.response) (execute r call)

  abbrev pub decide :
      GuardedToolRegistry Json F64
      → Call Json
      → List (Effect Json)
      → BoundaryDecision
      → Outcome Json
  decide r call before auto_approved = executed_after before r.pending_approvals (execute r call)
  decide r call before (funera.Security.Boundary.rejected tool_name paths reason) =
      finished before r.pending_approvals (err (funera.Tool.Error.rejected reason))
  decide r call before (requires_approval tool_name paths reason) =
      if not r.approval_callback
      then finished before r.pending_approvals (
          err (
            funera.Tool.Error.rejected
              (push_str "tool call requires approval but no handler registered: " reason)))
      else after_wait r call (before ++ request r call reason paths)
          (await r.approval_timeout call.response)

  abbrev pub after_policy :
      GuardedToolRegistry Json F64 → Call Json → Result (Unit {0}) PolicyError → Outcome Json
  after_policy r call (err e) =
      finished (audit r (tool_denied call.name (denial e) call.denied_at)) r.pending_approvals
        (err (tool_unavailable (denial e)))
  after_policy r call (ok u) = decide r call (audit_sandbox r call) (boundary_decision r call)

  unfoldable pub call_tool : GuardedToolRegistry Json F64 → Call Json → Outcome Json
  call_tool r call = after_policy r call (check_policy r call.name call.args)
