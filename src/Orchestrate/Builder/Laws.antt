-- ===== src/Orchestrate/Builder/Laws.antt =====
-- What `build_with` of funera-orchestrate/src/runtime.rs makes of the tools and of the skills.
use funera.Dict.{get-insert, get}
use funera.BuiltinTools.Register.{BuiltinTools, IsNamed}
use funera.Orchestrate.Builder.{with_builtin_tools, with_sandbox_policy}
use funera.Orchestrate.Builder.Last.{last_by, last_by-append, or_else-none}
use funera.Orchestrate.Builder.Runtime.{add_tools, build_registry, fence, guard_paths}
use funera.Tool.Registry.{
  get_tool_arc, get_tool, ToolRegistryEntry, if_available, new_available, available_tools,
}
use funera.Orchestrate.Builder.{
  FileSystem, GuardedToolRegistry, Tool, PathGuard, SandboxPolicy, ToolPolicy, AgentRuntimeBuilder,
}
use funera.Security.Registry
use funera.Orchestrate.Builder.Runtime.{or_else, fence, guard_paths, add_tools, build_registry}
use funera.Prelude.{
  [], ◌∷◌, ◌≡◌, ◌++◌, none, some, refl, if◌then◌else◌, List, Option, String, ◌∙◌, true, false, Bool,
  str_eq, ap,
}

abbrev pub last_named : {Json : Type 0} → String → List (Tool Json) → Option (Tool Json)
last_named = last_by (λ t. t.name)

same_inner :
    {Json F64 : Type 0} (b : Bool) (r : GuardedToolRegistry Json F64) (guard : PathGuard)
    → (if b then Registry.set_path_guard guard r else r).inner ≡ r.inner
same_inner true r guard = refl
same_inner false r guard = refl

found_or_added :
    {Json : Type 0} (o : Option (Tool Json)) (b : Bool) (t : Tool Json)
    (e : Option (ToolRegistryEntry Json))
    → or_else o (if_available (if b then some (new_available t) else e))
      ≡ or_else (or_else o (if b then some t else none)) (if_available e)
found_or_added (some u) b t e = refl
found_or_added none true t e = refl
found_or_added none false t e = refl

module _ {Json F64 : Type 0} (name : String) where
  get_tool_arc-add_tools :
      (ts : List (Tool Json)) (r : GuardedToolRegistry Json F64)
      → get_tool_arc name (add_tools ts r).inner
        ≡ or_else (last_named name ts) (get_tool_arc name r.inner)
  unfolding last_by get_tool_arc get_tool Registry.add_tool funera.Tool.Registry.add_tool
  get_tool_arc-add_tools [] r = refl
  get_tool_arc-add_tools (t ∷ ts) r = rw (get_tool_arc-add_tools ts (Registry.add_tool t r)) (
      rw (get-insert t.name name (new_available t) r.inner.tools)
        (found_or_added (last_named name ts) (str_eq t.name name) t (get name r.inner.tools)))

module _ {Json F64 : Type 0} (fs : FileSystem) where
  inner-guard_paths :
      (sp : SandboxPolicy) (r : GuardedToolRegistry Json F64)
      → (guard_paths fs sp r).inner ≡ r.inner
  inner-guard_paths sp r = same_inner _ r _

  inner-fence :
      (o : Option SandboxPolicy) (r : GuardedToolRegistry Json F64) → (fence fs o r).inner ≡ r.inner
  inner-fence none r = refl
  inner-fence (some sp) r = inner-guard_paths sp r

module _ {Json : Type 0} (builtin : BuiltinTools Json) (named : IsNamed builtin) where
  last_named-builtin :
      (ts : List (Tool Json)) (o : Option SandboxPolicy)
      → last_named "shell"
          (ts ++ builtin.read ∷ builtin.write ∷ builtin.edit ∷ builtin.shell o ∷ [])
        ≡ some (builtin.shell o)
  unfolding last_by
  last_named-builtin ts o =
      rw
        (last_by-append (λ t. t.name) "shell" ts
          (builtin.read ∷ builtin.write ∷ builtin.edit ∷ builtin.shell o ∷ []))
        (rw (named.3 o) refl)

module _ {Json F64 : Type 0} (fs : FileSystem) (policy : ToolPolicy F64) where
  -- In the registry that a builder makes, a name finds the last tool that was added with it, and it is
  -- available; a name that no tool has finds none.
  pub get_tool_arc-build_registry :
      (name : String) (b : AgentRuntimeBuilder Json F64)
      → get_tool_arc name (build_registry fs policy b).inner ≡ last_named name b.tools
  unfolding build_registry get_tool_arc get_tool get
  get_tool_arc-build_registry name b =
      rw (inner-fence fs b.sandbox_policy)
        (rw (get_tool_arc-add_tools name b.tools) (or_else-none (last_named name b.tools)))

  -- The shell tool of a builder's runtime is sandboxed exactly if the sandbox policy was set before the
  -- built-in tools were added: set afterwards, the policy is the runtime's, but the shell that a call
  -- finds runs without one.
  pub with_sandbox_policy-with_builtin_tools :
      (builtin : BuiltinTools Json) (sp : SandboxPolicy) (b : AgentRuntimeBuilder Json F64)
      → IsNamed builtin
      → b.sandbox_policy ≡ none
      → (get_tool_arc "shell"
            (build_registry fs policy (with_builtin_tools builtin (with_sandbox_policy sp b))).inner
          ≡ some (builtin.shell (some sp)))
        × (get_tool_arc "shell"
              (build_registry fs policy
                (with_sandbox_policy sp (with_builtin_tools builtin b))).inner
            ≡ some (builtin.shell none))
  unfolding with_builtin_tools
  with_sandbox_policy-with_builtin_tools builtin sp b named unset = (
    get_tool_arc-build_registry "shell" _ ∙ last_named-builtin builtin named b.tools (some sp),
    get_tool_arc-build_registry "shell" _
        ∙ last_named-builtin builtin named b.tools b.sandbox_policy
        ∙ ap (λ o. some (builtin.shell o)) unset,
  )
