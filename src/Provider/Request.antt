-- ===== src/Provider/Request.antt =====
-- `build_standard_request_json` of funera_core/src/provider.rs, and the parts of `build_request_json`
-- of provider/openai.rs and provider/deepseek.rs that set a field. A request, an object, is the map
-- of its fields. The accessors of serde_json are parameters, with what they are documented to do.
use funera.ReAct.Loop.{ReasoningLevel, off, high, minimal, low, medium, xhigh}
use funera.Prelude.{
  [], ◌∷◌, ◌≡◌, ◌++◌, true, none, some, if◌then◌else◌, List, Option, Bool, String, is_empty,
}
use funera.Dict
use funera.Dict.{Dict}

pub record Values (Json : Type 0) : Type 0 where
  pub null : Json
  pub bool : Bool → Json
  pub string : String → Json
  pub array : List Json → Json
  pub object : List (String × Json) → Json
  -- `v.get(key)`, `v.as_str()`, `v.as_array()`
  pub field : Json → String → Option Json
  pub as_str : Json → Option String
  pub as_array : Json → Option (List Json)
  -- `v.as_object_mut().unwrap().insert(key, value)`
  pub insert : Json → String → Json → Json

-- a value reads back as what it was made of
pub record IsLawful {Json : Type 0} (v : Values Json) : Type 0 where
  pub field-object :
      (fs : List (String × Json)) (k : String) → v.field (v.object fs) k ≡ Dict.get k fs
  pub as_str-string : (s : String) → v.as_str (v.string s) ≡ some s
  pub as_array-array : (l : List Json) → v.as_array (v.array l) ≡ some l

module _ {Json : Type 0} (v : Values Json) where
  -- the messages, and the skills as a system message behind them
  unfoldable pub with_skill : List Json → String → List Json
  with_skill messages skill_content =
      if is_empty skill_content
      then messages
      else messages
        ++ (v.object (("role", v.string "system") ∷ ("content", v.string skill_content) ∷ []) ∷ [])

  abbrev add_tools : Json → Option (List Json) → Dict Json → Dict Json
  add_tools tools_json none req = req
  add_tools tools_json (some []) req = req
  add_tools tools_json (some (x ∷ l)) req = Dict.insert "tools" tools_json req

  unfoldable pub build_standard_request_json : String → List Json → String → Json → Dict Json
  unfolding with_skill
  build_standard_request_json model messages skill_content tools_json =
      add_tools tools_json (v.as_array tools_json) (
        Dict.insert "stream_options" (v.object (("include_usage", v.bool true) ∷ [])) (
          ("model", v.string model)
          ∷ ("messages", v.array (with_skill messages skill_content))
          ∷ ("stream", v.bool true)
          ∷ []))

  abbrev openai_effort : ReasoningLevel → Option String
  openai_effort off = none
  openai_effort minimal = some "minimal"
  openai_effort low = some "low"
  openai_effort medium = some "medium"
  openai_effort high = some "high"
  openai_effort xhigh = some "high"
  openai_effort ReasoningLevel.max = some "high"

  abbrev set_effort : Option String → Dict Json → Dict Json
  set_effort none req = req
  set_effort (some e) req = Dict.insert "reasoning_effort" (v.string e) req

  -- `OpenAIProvider::build_request_json`
  unfoldable pub build_openai : String → List Json → String → Json → ReasoningLevel → Dict Json
  build_openai model messages skill_content tools_json level =
      set_effort (openai_effort level)
        (build_standard_request_json model messages skill_content tools_json)

  abbrev thinking : String → Dict Json → Dict Json
  thinking kind req = Dict.insert "thinking" (v.object (("type", v.string kind) ∷ [])) req

  unfoldable pub set_thinking : ReasoningLevel → Dict Json → Dict Json
  set_thinking off req = thinking "disabled" req
  set_thinking high req = set_effort (some "high") (thinking "enabled" req)
  set_thinking ReasoningLevel.max req = set_effort (some "max") (thinking "enabled" req)
  set_thinking _ req = thinking "enabled" req
