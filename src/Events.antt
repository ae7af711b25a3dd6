-- ===== src/Events.antt =====
-- What the buses carry (funera_core/src/event_bus/): the token events of one LLM stream, the events
-- of the per-turn bus. `FinishReason` is the enum of the async-openai crate.
use funera.Prelude.{ℕ, String, Option, List, true, false, Bool, ◌≡◌, ◌↔◌, refl}
use funera.Chat.Message.{FuneraMessage}

pub data FinishReason : Type 0 where
  stop length tool_calls content_filter function_call : FinishReason

-- The counters are 32-bit words that the loop only passes on.
pub record TokenUsage : Type 0 where
  pub prompt_tokens : ℕ
  pub completion_tokens : ℕ
  pub total_tokens : ℕ
  pub cache_read_tokens : ℕ
  pub cache_write_tokens : ℕ

pub data TokenEvent : Type 0 where
  text : String → TokenEvent
  tool_delta : ℕ → String → Option String → Option String → TokenEvent
  finish : FinishReason → TokenEvent
  reasoning : String → TokenEvent
  usage : TokenUsage → TokenEvent

-- `Ok` and `Err` of Rust's `Result`
pub data Result {ℓ κ} (A : Type ℓ) (E : Type κ) : Type (ℓ ⊔ κ) where
  ok : A → Result A E
  err : E → Result A E

module _ {ℓ κ} {A : Type ℓ} {E : Type κ} where
  abbrev pub is_ok : Result A E → Bool
  is_ok (ok a) = true
  is_ok (err e) = false

  pub ok_inj : {a b : A} → Path (Result A E) (ok a) (ok b) → a ≡ b
  ok_inj h = cc

-- `?`, on a value and on a check
infixl 5 ◌>>=◌ ◌>>◌
abbrev pub ◌>>=◌ {ℓ} : {A B : Type ℓ} {E : Type ℓ} → Result A E → (A → Result B E) → Result B E
ok a >>= f = f a
err e >>= f = err e

abbrev pub ◌>>◌ : {B E : Type 0} → Result (Unit {0}) E → Result B E → Result B E
m >> k = m >>= λ _. k

-- a chain of checks passes exactly if each of them does
pub >>-eq-ok :
    {E : Type 0} (m k : Result (Unit {0}) E) → ((m >> k) ≡ ok tt) ↔ ((m ≡ ok tt) × (k ≡ ok tt))
>>-eq-ok (ok a) k = (λ h. (refl, h), λ h. h.1)
>>-eq-ok (err e) k = (λ h. cc, λ h. cc)

pub record ToolCallRequest (Json : Type 0) : Type 0 where
  pub index : ℕ
  pub call_id : String
  pub name : String
  pub args : Json

pub record ToolCallResponse : Type 0 where
  pub call_id : String
  pub name : String
  pub result : String

pub record ToolCallErrorInfo : Type 0 where
  pub call_id : String
  pub name : String
  pub error : String

pub data ReactEvent (Json : Type 0) : Type 0 where
  turn_start turn_end : ReactEvent Json
  message_queued : FuneraMessage Json → ReactEvent Json
  tool_exec_request : ToolCallRequest Json → ReactEvent Json
  tool_exec_response : Result ToolCallResponse ToolCallErrorInfo → ReactEvent Json
  tool_approval_required : String → String → List String → String → ReactEvent Json
