-- ===== src/BuiltinTools/Register.antt =====
-- `register_all_tools` and `register_all_tools_with_sandbox` of funera_builtin_tools/src/lib.rs.
use funera.Prelude.{Option, none, some, ◌≡◌}
use funera.Tool.Registry.{Tool, RawToolRegistry, add_tool}
use funera.Security.Sandbox.{SandboxPolicy}

-- what `Arc::new` makes of the four tools
pub record BuiltinTools (Json : Type 0) : Type 0 where
  pub read : Tool Json
  pub write : Tool Json
  pub edit : Tool Json
  -- `ShellTool::new`, and `ShellTool::with_sandbox`
  pub shell : Option SandboxPolicy → Tool Json

module _ {Json : Type 0} (builtin : BuiltinTools Json) where
  -- the names that the tools' schemas give
  abbrev pub IsNamed : Type 0
  IsNamed =
      (builtin.read.name ≡ "read")
      × (builtin.write.name ≡ "write")
      × (builtin.edit.name ≡ "edit")
      × ((o : Option SandboxPolicy) → (builtin.shell o).name ≡ "shell")

  unfoldable pub register_all_tools : RawToolRegistry Json → RawToolRegistry Json
  register_all_tools r =
      add_tool (builtin.shell none)
        (add_tool builtin.edit (add_tool builtin.write (add_tool builtin.read r)))

  unfoldable pub register_all_tools_with_sandbox :
      SandboxPolicy → RawToolRegistry Json → RawToolRegistry Json
  register_all_tools_with_sandbox policy r =
      add_tool (builtin.shell (some policy))
        (add_tool builtin.edit (add_tool builtin.write (add_tool builtin.read r)))
