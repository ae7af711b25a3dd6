-- ===== src/Tool/Registry.antt =====
-- `Tool`, `ToolRegistryEntry` and `RawToolRegistry` of funera_core/src/re_act/tool.rs. An `Arc<dyn Tool>`
-- is the tool's behaviour with the identity that `Arc::ptr_eq` compares. `execute` is what its future
-- yields when it is ready; that it never is ready is said by the call, in Security.Registry.Call.
use funera.Prelude.{
  [], ◌∷◌, ◌==◌, true, false, none, some, if◌then◌else◌, List, Option, Bool, ℕ, String, is_some,
  length, not, bool_eq,
}
pub mod Laws
use funera.Dict
use funera.Dict.{Dict}
use funera.Events.{Result, ok, err}
use funera.Tool.Error.{ToolCallError, tool_unavailable, tool_not_found}

pub record Tool (Json : Type 0) : Type 0 where
  pub identity : ℕ
  pub name : String
  pub schema : Json
  pub is_shell_tool : Bool
  pub execute : Json → Result String (ToolCallError Json)

pub record ToolRegistryEntry (Json : Type 0) : Type 0 where
  pub tool : Tool Json
  pub available : Bool

pub record RawToolRegistry (Json : Type 0) : Type 0 where
  pub tools : Dict (ToolRegistryEntry Json)

module _ {Json : Type 0} where
  abbrev pub new : RawToolRegistry Json
  new = record { tools = [] }

  abbrev pub new_available : Tool Json → ToolRegistryEntry Json
  new_available t = record { tool = t; available = true }

  unfoldable pub add_tool : Tool Json → RawToolRegistry Json → RawToolRegistry Json
  add_tool t r = record { tools = Dict.insert t.name (new_available t) r.tools }

  unfoldable pub get_tool : String → RawToolRegistry Json → Option (ToolRegistryEntry Json)
  get_tool name r = Dict.get name r.tools

  abbrev pub if_available : Option (ToolRegistryEntry Json) → Option (Tool Json)
  if_available none = none
  if_available (some e) = if e.available then some e.tool else none

  unfoldable pub get_tool_arc : String → RawToolRegistry Json → Option (Tool Json)
  unfolding get_tool
  get_tool_arc name r = if_available (get_tool name r)

  unfoldable pub remove_tool : String → RawToolRegistry Json → RawToolRegistry Json
  remove_tool name r = record { tools = Dict.remove name r.tools }

  abbrev pub set_availability :
      String
      → Bool
      → RawToolRegistry Json
      → Option (ToolRegistryEntry Json)
      → RawToolRegistry Json × Bool
  set_availability name available r none = (r, false)
  set_availability name available r (some e) =
      if bool_eq e.available available
      then (r, false)
      else (record { tools = Dict.insert name (record e { available = available }) r.tools }, true)

  unfoldable pub set_tool_availability :
      String → Bool → RawToolRegistry Json → RawToolRegistry Json × Bool
  set_tool_availability name available r = set_availability name available r (Dict.get name r.tools)

  abbrev remove_if :
      String
      → Tool Json
      → RawToolRegistry Json
      → Option (ToolRegistryEntry Json)
      → RawToolRegistry Json × Bool
  remove_if name t r none = (r, false)
  remove_if name t r (some e) =
      if e.tool.identity == t.identity
      then (record { tools = Dict.remove name r.tools }, true)
      else (r, false)

  unfoldable pub remove_tool_if_same :
      String → Tool Json → RawToolRegistry Json → RawToolRegistry Json × Bool
  remove_tool_if_same name t r = remove_if name t r (Dict.get name r.tools)

  unfoldable pub tool_exists : String → RawToolRegistry Json → Bool
  tool_exists name r = is_some (Dict.get name r.tools)

  pub tool_count : RawToolRegistry Json → ℕ
  tool_count r = length r.tools

  abbrev schemas : Dict (ToolRegistryEntry Json) → List Json
  schemas [] = []
  schemas ((name, e) ∷ d) =
      let rest = schemas d in if e.available then e.tool.schema ∷ rest else rest

  -- the array's elements, in the order of iteration
  unfoldable pub available_tools : RawToolRegistry Json → List Json
  available_tools r = schemas r.tools

  abbrev call_entry :
      String → Json → Option (ToolRegistryEntry Json) → Result String (ToolCallError Json)
  call_entry name args none = err (tool_not_found name)
  call_entry name args (some e) =
      if e.available then e.tool.execute args else err (tool_unavailable name)

  unfoldable pub call_tool :
      String → Json → RawToolRegistry Json → Result String (ToolCallError Json)
  unfolding get_tool
  call_tool name args r = call_entry name args (get_tool name r)
