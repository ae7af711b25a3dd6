-- ===== src/Tool/Registry/Laws.antt =====
-- What `RawToolRegistry` of funera_core/src/re_act/tool.rs promises: which tool a call runs, and what
-- the safe inverse of a registration undoes.
use funera.Tool.Registry.{
  Tool, ToolRegistryEntry, call_tool, remove_tool_if_same, set_tool_availability, RawToolRegistry,
  add_tool, call_entry, get_tool, get_tool_arc, new_available, remove_if, tool_exists, if_available,
  set_availability,
}
use funera.Prelude.{
  ◌≡◌, ◌≢◌, true, false, none, some, refl, arith, if◌then◌else◌, Option, Bool, String, inl, inr,
  is_some, str_eq, ne→==, str_eq_iff, ==_refl, Bool-cases, ◌∙◌, bool_eq, ap, eq_of_bool_eq,
}
use funera.Dict
use funera.Dict.{Dict, get-insert_self, get-insert, get-remove}
use funera.Events.{Result, err}
use funera.Tool.Error.{ToolCallError, tool_unavailable, tool_not_found}

module _ {Json : Type 0} where
  -- the call of a tool that was looked up first, as the executor makes it
  abbrev pub call_found :
      String → Json → Bool → Option (Tool Json) → Result String (ToolCallError Json)
  call_found name args known (some t) = t.execute args
  call_found name args known none =
      if known then err (tool_unavailable name) else err (tool_not_found name)

  call_entry-call_found :
      (name : String) (args : Json) (o : Option (ToolRegistryEntry Json))
      → call_entry name args o ≡ call_found name args (is_some o) (if_available o)
  call_entry-call_found name args none = refl
  call_entry-call_found name args (some e) = elim (Bool-cases e.available) [
    | inl there ↦ rw there
    | inr disabled ↦ rw disabled
  ]

  -- A call runs exactly the tool that `get_tool_arc` hands out for the name, that is the registered
  -- and available one; otherwise no tool runs, and the error tells an unavailable tool from an
  -- unknown name.
  pub call_tool-get_tool_arc :
      (name : String) (args : Json) (r : RawToolRegistry Json)
      → call_tool name args r ≡ call_found name args (tool_exists name r) (get_tool_arc name r)
  unfolding call_tool get_tool_arc tool_exists
  call_tool-get_tool_arc name args r = call_entry-call_found name args (Dict.get name r.tools)

  remove_if_other :
      (name : String) (t : Tool Json) (e : ToolRegistryEntry Json) (r : RawToolRegistry Json)
      → e.tool.identity ≢ t.identity
      → remove_if name t r (some e) ≡ (r, false)
  remove_if_other name t e r h = rw (ne→== e.tool.identity t.identity h)

  -- A stale disposer does not remove a tool that has replaced its own under the same name: the
  -- registry is left as it is, and `false` is returned.
  remove_tool_if_same-add_tool :
      (t t' : Tool Json) (r : RawToolRegistry Json)
      → t.name ≡ t'.name
      → t'.identity ≢ t.identity
      → remove_tool_if_same t.name t (add_tool t' r) ≡ (add_tool t' r, false)
  unfolding remove_tool_if_same add_tool
  remove_tool_if_same-add_tool t t' r same other = rw same (
      rw (get-insert_self t'.name (new_available t') r.tools)
        (remove_if_other t'.name t (new_available t') (add_tool t' r) other))

  undo-add_tool :
      (t : Tool Json) (r : RawToolRegistry Json) (j : String)
      → tool_exists t.name r ≡ false
      → ((remove_tool_if_same t.name t (add_tool t r)).1 ≡ true)
        × (get_tool j (remove_tool_if_same t.name t (add_tool t r)).0 ≡ get_tool j r)
  unfolding remove_tool_if_same add_tool get_tool tool_exists
  undo-add_tool t r j free =
      rw (get-insert_self t.name (new_available t) r.tools) (rw (==_refl t.identity) (refl, undone))
    where
      undone :
          Dict.get j (Dict.remove t.name (Dict.insert t.name (new_available t) r.tools))
          ≡ Dict.get j r.tools
      undone = ground (
        arith,
        get-remove t.name j (Dict.insert t.name (new_available t) r.tools),
        get-insert t.name j (new_available t) r.tools,
        str_eq_iff t.name j,
      )

  -- The disposer of a registration under a free name undoes it: it returns `true`, and every name
  -- is looked up as before the registration. If another tool has been registered under the name since,
  -- the disposer leaves the registry with that tool as it is, and returns `false`.
  pub get_tool-remove_tool_if_same :
      (t t' : Tool Json) (r : RawToolRegistry Json) (j : String)
      → tool_exists t.name r ≡ false
      → t.name ≡ t'.name
      → t'.identity ≢ t.identity
      → (((remove_tool_if_same t.name t (add_tool t r)).1 ≡ true)
          × (get_tool j (remove_tool_if_same t.name t (add_tool t r)).0 ≡ get_tool j r))
        × (remove_tool_if_same t.name t (add_tool t' (add_tool t r))
            ≡ (add_tool t' (add_tool t r), false))
  get_tool-remove_tool_if_same t t' r j free same other =
      (undo-add_tool t r j free, remove_tool_if_same-add_tool t t' (add_tool t r) same other)

  abbrev pub with_availability :
      Bool → Option (ToolRegistryEntry Json) → Option (ToolRegistryEntry Json)
  with_availability available none = none
  with_availability available (some e) = some (record e { available = available })

  get-set_availability :
      (name : String) (available : Bool) (r : RawToolRegistry Json) (j : String)
      (o : Option (ToolRegistryEntry Json))
      → Dict.get name r.tools ≡ o
      → Dict.get j (set_availability name available r o).0.tools
        ≡ (if str_eq name j then with_availability available o else Dict.get j r.tools)
  get-set_availability name available r j none p = elim (Bool-cases (str_eq name j)) [
    | inl same ↦ rw same (rw (← (str_eq_iff name j).0 same) p)
    | inr other ↦ rw other
  ]
  get-set_availability name available r j (some e) p =
      elim (Bool-cases (bool_eq e.available available)) [
        | inl unchanged ↦ rw unchanged (elim (Bool-cases (str_eq name j)) [
          | inl same ↦ rw same (
              rw (← (str_eq_iff name j).0 same) (
                p
                ∙ ap (λ a. some (record e { available = a }))
                    (eq_of_bool_eq e.available available unchanged)))
          | inr other ↦ rw other
        ])
        | inr changed ↦ rw changed (get-insert name j (record e { available = available }) r.tools)
      ]

  -- Setting a tool's availability gives a registered tool that availability, keeps the tool itself,
  -- registers nothing for an unknown name, and touches no other name.
  pub get_tool-set_tool_availability :
      (name : String) (available : Bool) (r : RawToolRegistry Json) (j : String)
      → get_tool j (set_tool_availability name available r).0
        ≡ (if str_eq name j then with_availability available (get_tool name r) else get_tool j r)
  unfolding set_tool_availability get_tool
  get_tool-set_tool_availability name available r j =
      get-set_availability name available r j (Dict.get name r.tools) refl
