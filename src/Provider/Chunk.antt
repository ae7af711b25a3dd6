-- ===== src/Provider/Chunk.antt =====
-- `extract_events` of funera_core/src/provider.rs, for the chunks of OpenAI, and of
-- provider/deepseek.rs. A chunk holds here what is read of it.
pub mod Laws
use funera.Prelude.{
  [], ◌∷◌, ◌++◌, none, some, if◌then◌else◌, List, Option, ℕ, String, get_or, is_empty, map,
}
use funera.Events.{FinishReason, TokenUsage, TokenEvent, text, tool_delta, finish, reasoning, usage}

pub record ToolCallChunk : Type 0 where
  pub index : ℕ
  pub id : Option String
  -- the name and the arguments of `function`
  pub function : Option (Option String × Option String)

pub record Delta : Type 0 where
  pub content : Option String
  pub reasoning_content : Option String
  pub tool_calls : Option (List ToolCallChunk)

pub record Choice : Type 0 where
  pub delta : Delta
  pub finish_reason : Option FinishReason

pub record StreamChunk : Type 0 where
  pub choices : List Choice
  pub usage : Option TokenUsage

abbrev name_of : Option (Option String × Option String) → Option String
name_of none = none
name_of (some f) = f.0

abbrev args_of : Option (Option String × Option String) → Option String
args_of none = none
args_of (some f) = f.1

abbrev pub call_event : ToolCallChunk → TokenEvent
call_event tc = tool_delta tc.index (get_or tc.id "") (name_of tc.function) (args_of tc.function)

abbrev pub text_event : String → List TokenEvent
text_event t = if is_empty t then [] else text t ∷ []

-- the `match` on the content and the tool calls
unfoldable pub content_events : Option String → Option (List ToolCallChunk) → List TokenEvent
content_events (some t) (some tool_calls) = text_event t ++ map call_event tool_calls
content_events (some t) none = text_event t
content_events none (some tool_calls) = map call_event tool_calls
content_events none none = []

abbrev pub finish_event : Option FinishReason → List TokenEvent
finish_event none = []
finish_event (some r) = finish r ∷ []

abbrev pub usage_event : Option TokenUsage → List TokenEvent
usage_event none = []
usage_event (some u) = usage u ∷ []

abbrev pub reasoning_event : Option String → List TokenEvent
reasoning_event none = []
reasoning_event (some r) = if is_empty r then [] else reasoning r ∷ []

unfoldable pub openai_choice : Choice → List TokenEvent
openai_choice c = finish_event c.finish_reason ++ content_events c.delta.content c.delta.tool_calls

unfoldable pub deepseek_choice : Choice → List TokenEvent
deepseek_choice c =
    finish_event c.finish_reason
    ++ (reasoning_event c.delta.reasoning_content
        ++ content_events c.delta.content c.delta.tool_calls)

abbrev pub each : (Choice → List TokenEvent) → List Choice → List TokenEvent
each f [] = []
each f (c ∷ cs) = f c ++ each f cs

-- the usage comes first
unfoldable pub extract_openai : StreamChunk → List TokenEvent
extract_openai chunk = usage_event chunk.usage ++ each openai_choice chunk.choices

-- the usage comes last
unfoldable pub extract_deepseek : StreamChunk → List TokenEvent
extract_deepseek chunk = each deepseek_choice chunk.choices ++ usage_event chunk.usage
