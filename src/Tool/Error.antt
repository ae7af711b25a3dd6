-- ===== src/Tool/Error.antt =====
-- `ToolCallError` of funera_core/src/re_act/tool.rs and the text that `thiserror` derives for it. An
-- `anyhow::Error` is its message.
use funera.Prelude.{[], ◌∷◌, String, push_str, concat}
use funera.Json.{JsonOps}

pub data ToolCallError (Json : Type 0) : Type 0 where
  parameter_mismatch : Json → ToolCallError Json
  tool_execution_error : String → ToolCallError Json
  tool_unavailable : String → ToolCallError Json
  tool_not_found : String → ToolCallError Json
  approval_required : String → String → String → ToolCallError Json
  rejected : String → ToolCallError Json

module _ {Json : Type 0} (json : JsonOps Json) where
  unfoldable pub error_text : ToolCallError Json → String
  error_text (parameter_mismatch v) = push_str "parameter mismatch: " (json.display v)
  error_text (tool_execution_error e) = push_str "tool execution error: " e
  error_text (tool_unavailable s) = push_str "tool unavailable: " s
  error_text (tool_not_found s) = push_str "tool not found: " s
  error_text (approval_required call_id tool_name reason) =
      concat ("approval required for " ∷ tool_name ∷ ": " ∷ reason ∷ [])
  error_text (rejected reason) = push_str "tool call rejected: " reason
