-- ===== src/Tests/Tool.antt =====
-- A registry of tools in which one name is taken over by another tool.
use funera.Tool.Registry.Laws.{get_tool-remove_tool_if_same}
use funera.Events.{ok}
use funera.Prelude.{◌≢◌, arith, [], ◌∷◌, ◌≡◌, true, false, refl, ℕ, String}
use funera.Tool.Registry.{
  RawToolRegistry, Tool, get_tool, remove_tool_if_same, tool_exists, add_tool,
}

abbrev tool_of : ℕ → String → Tool String
tool_of n name = record {
  identity = n;
  name = name;
  schema = "{}";
  is_shell_tool = false;
  execute = λ args. ok args;
}

abbrev tools : RawToolRegistry String
tools = record { tools = ("read", record { tool = tool_of 1 "read"; available = false }) ∷ [] }

edit_free : tool_exists "edit" tools ≡ false
unfolding tool_exists funera.Dict.get
edit_free = refl

four-ne-three : (tool_of 4 "edit").identity ≢ (tool_of 3 "edit").identity
four-ne-three e = absurd (omega (arith, e))

get_tool-remove_tool_if_same_example :
    (((remove_tool_if_same "edit" (tool_of 3 "edit") (add_tool (tool_of 3 "edit") tools)).1 ≡ true)
      × (get_tool "read"
            (remove_tool_if_same "edit" (tool_of 3 "edit") (add_tool (tool_of 3 "edit") tools)).0
          ≡ get_tool "read" tools))
    × (remove_tool_if_same "edit"
          (tool_of 3 "edit")
          (add_tool (tool_of 4 "edit") (add_tool (tool_of 3 "edit") tools))
        ≡ (add_tool (tool_of 4 "edit") (add_tool (tool_of 3 "edit") tools), false))
get_tool-remove_tool_if_same_example =
    get_tool-remove_tool_if_same (tool_of 3 "edit") (tool_of 4 "edit") tools "read" edit_free refl
      four-ne-three
