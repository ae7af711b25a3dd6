-- ===== src/Security/Registry.antt =====
-- `GuardedToolRegistry` of funera_core/src/security/registry.rs: its state, its setters and the answer
-- to a call that waits. Of the buses, the callback and the limit on the wait it counts here whether
-- they are set; the one-shot channels are the ids of the calls that wait.
pub mod Call
pub mod Runs
pub mod Ends
pub mod Checks
pub mod Reports
use funera.Security.PathGuard.{PathBuf, PathGuard}
use funera.Security.Policy.{ToolPolicy}
use funera.Dict.{mem}
use funera.Events.{Result, ok, err}
use funera.Tool.Registry.{RawToolRegistry, Tool}
use funera.Prelude.{
  [], ◌∷◌, false, none, some, if◌then◌else◌, List, Option, Bool, String, str_eq, push_str, true,
}

pub record GuardedToolRegistry (Json : Type 0) (F64 : Type 0) : Type 0 where
  pub inner : RawToolRegistry Json
  pub policy : ToolPolicy F64
  pub path_guard : Option PathGuard
  -- whether there is an audit bus, a limit on the wait, a callback, a bus of the turn
  pub audit_bus : Bool
  pub sandbox_paths : List PathBuf × List PathBuf
  pub pending_approvals : List String
  pub approval_timeout : Bool
  pub approval_callback : Bool
  pub react_bus : Bool

abbrev pub remove_id : String → List String → List String
remove_id k [] = []
remove_id k (j ∷ l) = let rest = remove_id k l in if str_eq j k then rest else j ∷ rest

-- `map.remove(call_id)`, what goes over its channel to the call that waits, and the answer
unfoldable pub approve_tool_call :
    {Json F64 : Type 0}
    → String
    → Bool
    → GuardedToolRegistry Json F64
    → Result (Unit {0}) String × Option Bool × GuardedToolRegistry Json F64
approve_tool_call call_id approved r =
    if mem call_id r.pending_approvals
    then (
      ok tt,
      some approved,
      record r { pending_approvals = remove_id call_id r.pending_approvals },
    )
    else (err (push_str "no pending approval for call_id " call_id), none, r)

-- `is_pending_approval`: none for an id that is unknown or answered
unfoldable pub is_pending_approval :
    {Json F64 : Type 0} → String → GuardedToolRegistry Json F64 → Option Bool
is_pending_approval call_id r = if mem call_id r.pending_approvals then some false else none

module _ {Json F64 : Type 0} where
  abbrev pub new_from_policy : ToolPolicy F64 → GuardedToolRegistry Json F64
  new_from_policy policy = record {
    inner = funera.Tool.Registry.new;
    policy = policy;
    path_guard = none;
    audit_bus = false;
    sandbox_paths = ([], []);
    pending_approvals = [];
    approval_timeout = false;
    approval_callback = false;
    react_bus = false;
  }

  abbrev pub set_path_guard :
      PathGuard → GuardedToolRegistry Json F64 → GuardedToolRegistry Json F64
  set_path_guard guard r = record r { path_guard = some guard }

  abbrev pub set_sandbox_paths :
      List PathBuf → List PathBuf → GuardedToolRegistry Json F64 → GuardedToolRegistry Json F64
  set_sandbox_paths read_paths read_write_paths r = record r {
    sandbox_paths = (read_paths, read_write_paths);
  }

  abbrev pub set_audit_bus : GuardedToolRegistry Json F64 → GuardedToolRegistry Json F64
  set_audit_bus r = record r { audit_bus = true }

  abbrev pub set_approval_timeout :
      Bool → GuardedToolRegistry Json F64 → GuardedToolRegistry Json F64
  set_approval_timeout limit r = record r { approval_timeout = limit }

  abbrev pub set_approval_callback : GuardedToolRegistry Json F64 → GuardedToolRegistry Json F64
  set_approval_callback r = record r { approval_callback = true }

  abbrev pub set_react_bus : Bool → GuardedToolRegistry Json F64 → GuardedToolRegistry Json F64
  set_react_bus bus r = record r { react_bus = bus }

  unfoldable pub add_tool : Tool Json → GuardedToolRegistry Json F64 → GuardedToolRegistry Json F64
  add_tool t r = record r { inner = funera.Tool.Registry.add_tool t r.inner }

  unfoldable pub remove_tool : String → GuardedToolRegistry Json F64 → GuardedToolRegistry Json F64
  remove_tool name r = record r { inner = funera.Tool.Registry.remove_tool name r.inner }

  unfoldable pub set_tool_availability :
      String → Bool → GuardedToolRegistry Json F64 → GuardedToolRegistry Json F64 × Bool
  set_tool_availability name available r = (
    record r { inner = (funera.Tool.Registry.set_tool_availability name available r.inner).0 },
    (funera.Tool.Registry.set_tool_availability name available r.inner).1,
  )

  unfoldable pub remove_tool_if_same :
      String → Tool Json → GuardedToolRegistry Json F64 → GuardedToolRegistry Json F64 × Bool
  remove_tool_if_same name t r = (
    record r { inner = (funera.Tool.Registry.remove_tool_if_same name t r.inner).0 },
    (funera.Tool.Registry.remove_tool_if_same name t r.inner).1,
  )
