-- ===== src/Chat/Message.antt =====
-- funera_core/src/chat/message.rs. A message's `id` and `timestamp` come from the uuid and chrono
-- crates and are read by no code of the loop; a message here is its role and its variant.
use funera.Prelude.{String, Option, none, some, List, [], ◌∷◌, concat, get_or}
use funera.Json.{JsonOps}

pub data Role : Type 0 where
  user assistant system tool : Role

abbrev pub role_name : Role → String
role_name user = "user"
role_name assistant = "assistant"
role_name system = "system"
role_name tool = "tool"

pub record TextMessage : Type 0 where
  pub text : String
  pub reasoning_content : Option String

pub record ToolRequestMessage (Json : Type 0) : Type 0 where
  pub tool_call_id : String
  pub function_name : String
  pub function_args : Json
  pub reasoning_content : Option String

pub record ToolResponseMessage : Type 0 where
  pub tool_call_id : String
  pub result : String

pub data MsgVariant (Json : Type 0) : Type 0 where
  text : TextMessage → MsgVariant Json
  tool_request : ToolRequestMessage Json → MsgVariant Json
  tool_response : ToolResponseMessage → MsgVariant Json

pub record FuneraMessage (Json : Type 0) : Type 0 where
  pub role : Role
  pub msg_variant : MsgVariant Json

abbrev pub response_content : ToolResponseMessage → String
response_content m =
    concat ("Tool Response -> tool_call_id: " ∷ m.tool_call_id ∷ ", result: " ∷ m.result ∷ [])

module _ {Json : Type 0} (json : JsonOps Json) where
  -- `obj.insert("reasoning_content", …)` where the message has reasoning
  abbrev with_reasoning : Option String → List (String × Json)
  with_reasoning none = []
  with_reasoning (some r) = ("reasoning_content", json.string r) ∷ []

  abbrev format_variant : Role → MsgVariant Json → Json
  format_variant r (text m) = json.object (
      ("role", json.string (role_name r))
      ∷ ("content", json.string m.text)
      ∷ with_reasoning m.reasoning_content)
  format_variant r (tool_request m) = json.object (
      ("role", json.string (role_name r))
      ∷ (
        "tool_calls",
        json.array (
            json.object (
              ("id", json.string m.tool_call_id)
              ∷ ("type", json.string "function")
              ∷ (
                "function",
                json.object (
                    ("name", json.string m.function_name)
                    ∷ ("arguments", json.string (get_or (json.to_str m.function_args) ""))
                    ∷ []),
              )
              ∷ [])
            ∷ []),
      )
      ∷ with_reasoning m.reasoning_content)
  format_variant r (tool_response m) = json.object (
      ("role", json.string (role_name r))
      ∷ ("tool_call_id", json.string m.tool_call_id)
      ∷ ("content", json.string (response_content m))
      ∷ [])

  pub format_json : FuneraMessage Json → Json
  format_json m = format_variant m.role m.msg_variant
