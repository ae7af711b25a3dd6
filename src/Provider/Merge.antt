-- ===== src/Provider/Merge.antt =====
-- `DeepSeekProvider::build_request_json` of funera_core/src/provider/deepseek.rs: assistant messages
-- with tool calls that follow each other become one. The two nested loops are one pass that carries
-- the group that the inner loop gathers.
pub mod Laws
use funera.ReAct.Loop.{ReasoningLevel}
use funera.Prelude.{
  [], ◌∷◌, ◌++◌, ◌&&◌, true, false, none, some, if◌then◌else◌, List, Option, Bool, String, get_or,
  is_some, str_eq, not,
}
use funera.Provider.Request.{Values, with_skill, build_standard_request_json, set_thinking}
use funera.Dict
use funera.Dict.{Dict}

-- `if reasoning.is_none() { reasoning = … }`
abbrev pub or_else : Option String → Option String → Option String
or_else none r = r
or_else (some r) r' = some r

module _ {Json : Type 0} (v : Values Json) where
  abbrev pub text_of : Option Json → Option String
  text_of none = none
  text_of (some x) = v.as_str x

  abbrev pub list_of : Option Json → Option (List Json)
  list_of none = none
  list_of (some x) = v.as_array x

  -- `msg["role"].as_str() == Some("assistant")`
  abbrev pub is_assistant : Option String → Bool
  is_assistant none = false
  is_assistant (some role) = str_eq role "assistant"

  abbrev pub tool_calls : Json → Option (List Json)
  tool_calls msg = list_of (v.field msg "tool_calls")

  unfoldable pub is_call : Json → Bool
  is_call msg = is_assistant (text_of (v.field msg "role")) && is_some (tool_calls msg)

  unfoldable pub calls_in : Json → List Json
  calls_in msg = get_or (tool_calls msg) []

  abbrev pub reasoning_in : Json → Option String
  reasoning_in msg = text_of (v.field msg "reasoning_content")

  abbrev with_reasoning : Option String → List (String × Json)
  with_reasoning none = []
  with_reasoning (some r) = ("reasoning_content", v.string r) ∷ []

  unfoldable pub merged_msg : List Json → Option String → Json
  merged_msg combined_calls reasoning = v.object (
      ("role", v.string "assistant")
      ∷ ("content", v.null)
      ∷ ("tool_calls", v.array combined_calls)
      ∷ with_reasoning reasoning)

  abbrev pub is_cons : List Json → Bool
  is_cons [] = false
  is_cons (x ∷ l) = true

  -- the other branch: an assistant message with calls and no content gets a null content
  unfoldable pub other_msg : Json → Json
  other_msg msg =
      if is_assistant (text_of (v.field msg "role"))
        && is_cons (get_or (tool_calls msg) [])
        && not (is_some (v.field msg "content"))
      then v.insert msg "content" v.null
      else msg

  unfoldable pub merge : Option (List Json × Option String) → List Json → List Json
  merge none [] = []
  merge (some (calls, reasoning)) [] = merged_msg calls reasoning ∷ []
  merge none (msg ∷ msgs) = elim (is_call msg) [
    | true ↦ merge (some (calls_in msg, reasoning_in msg)) msgs
    | false ↦ other_msg msg ∷ merge none msgs
  ]
  merge (some (calls, reasoning)) (msg ∷ msgs) = elim (is_call msg) [
    | true ↦ merge (some (calls ++ calls_in msg, or_else reasoning (reasoning_in msg))) msgs
    | false ↦ merged_msg calls reasoning ∷ other_msg msg ∷ merge none msgs
  ]

  -- `DeepSeekProvider::build_request_json`
  unfoldable pub build_deepseek : String → List Json → String → Json → ReasoningLevel → Dict Json
  build_deepseek model messages skill_content tools_json level = set_thinking v level (
      Dict.insert "messages" (v.array (merge none (with_skill v messages skill_content)))
        (build_standard_request_json v model messages skill_content tools_json))
