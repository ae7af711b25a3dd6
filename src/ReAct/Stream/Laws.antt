-- ===== src/ReAct/Stream/Laws.antt =====
-- What `process_token_stream` (funera_core/src/re_act.rs) makes of a stream, against descriptions
-- that read the list of broadcast tokens alone.
use funera.Prelude.{
  String, Option, some, List, [], ◌∷◌, ◌++◌, ◌≡◌, refl, ap, sym, ◌∙◌, push_str, concat, append-nil,
  append_assoc, push_str_assoc, push_str-nil,
}
use mathlib.Core.Path.{◌≡⟨◌⟩◌, ◌∎}
use funera.Events.{FinishReason, TokenUsage, TokenEvent, text, tool_delta, finish, reasoning, usage}
use funera.ReAct.Stream.{
  StreamState, on_event, on_events, Arrival, chunk, failed, cancelled, receive, broadcast,
}

-- the texts, the reasonings, the last finish reason and the last usage among the tokens
abbrev pub texts : List TokenEvent → List String
texts [] = []
texts (text t ∷ es) = t ∷ texts es
texts (_ ∷ es) = texts es

abbrev pub reasonings : List TokenEvent → List String
reasonings [] = []
reasonings (reasoning r ∷ es) = r ∷ reasonings es
reasonings (_ ∷ es) = reasonings es

abbrev pub last_finish : Option FinishReason → List TokenEvent → Option FinishReason
last_finish o [] = o
last_finish o (finish r ∷ es) = last_finish (some r) es
last_finish o (_ ∷ es) = last_finish o es

abbrev pub last_usage : Option TokenUsage → List TokenEvent → Option TokenUsage
last_usage o [] = o
last_usage o (usage u ∷ es) = last_usage (some u) es
last_usage o (_ ∷ es) = last_usage o es

module _ {Json : Type 0} where
  pub content-on_events :
      (es : List TokenEvent) (s : StreamState Json)
      → (on_events es s).assistant_content ≡ push_str s.assistant_content (concat (texts es))
  unfolding on_events on_event
  content-on_events [] s = sym (push_str-nil s.assistant_content)
  content-on_events (text t ∷ es) s =
      content-on_events es _ ∙ push_str_assoc s.assistant_content t (concat (texts es))
  content-on_events (tool_delta _ _ _ _ ∷ es) s = content-on_events es _
  content-on_events (finish _ ∷ es) s = content-on_events es _
  content-on_events (reasoning _ ∷ es) s = content-on_events es _
  content-on_events (usage _ ∷ es) s = content-on_events es _

  pub reasoning-on_events :
      (es : List TokenEvent) (s : StreamState Json)
      → (on_events es s).reasoning_content ≡ push_str s.reasoning_content (concat (reasonings es))
  unfolding on_events on_event
  reasoning-on_events [] s = sym (push_str-nil s.reasoning_content)
  reasoning-on_events (reasoning r ∷ es) s =
      reasoning-on_events es _ ∙ push_str_assoc s.reasoning_content r (concat (reasonings es))
  reasoning-on_events (text _ ∷ es) s = reasoning-on_events es _
  reasoning-on_events (tool_delta _ _ _ _ ∷ es) s = reasoning-on_events es _
  reasoning-on_events (finish _ ∷ es) s = reasoning-on_events es _
  reasoning-on_events (usage _ ∷ es) s = reasoning-on_events es _

  pub finish-on_events :
      (es : List TokenEvent) (s : StreamState Json)
      → (on_events es s).turn_finish_reason ≡ last_finish s.turn_finish_reason es
  unfolding on_events on_event
  finish-on_events [] s = refl
  finish-on_events (text _ ∷ es) s = finish-on_events es _
  finish-on_events (tool_delta _ _ _ _ ∷ es) s = finish-on_events es _
  finish-on_events (finish _ ∷ es) s = finish-on_events es _
  finish-on_events (reasoning _ ∷ es) s = finish-on_events es _
  finish-on_events (usage _ ∷ es) s = finish-on_events es _

  pub usage-on_events :
      (es : List TokenEvent) (s : StreamState Json)
      → (on_events es s).turn_usage ≡ last_usage s.turn_usage es
  unfolding on_events on_event
  usage-on_events [] s = refl
  usage-on_events (text _ ∷ es) s = usage-on_events es _
  usage-on_events (tool_delta _ _ _ _ ∷ es) s = usage-on_events es _
  usage-on_events (finish _ ∷ es) s = usage-on_events es _
  usage-on_events (reasoning _ ∷ es) s = usage-on_events es _
  usage-on_events (usage _ ∷ es) s = usage-on_events es _

  pub tokens-on_events :
      (es : List TokenEvent) (s : StreamState Json) → (on_events es s).tokens ≡ s.tokens
  unfolding on_events on_event
  tokens-on_events [] s = refl
  tokens-on_events (text _ ∷ es) s = tokens-on_events es _
  tokens-on_events (tool_delta _ _ _ _ ∷ es) s = tokens-on_events es _
  tokens-on_events (finish _ ∷ es) s = tokens-on_events es _
  tokens-on_events (reasoning _ ∷ es) s = tokens-on_events es _
  tokens-on_events (usage _ ∷ es) s = tokens-on_events es _

  on_event-broadcast :
      (e : TokenEvent) (l : List TokenEvent) (s : StreamState Json)
      → on_event e (broadcast l s) ≡ broadcast l (on_event e s)
  unfolding on_event
  on_event-broadcast (text _) l s = refl
  on_event-broadcast (tool_delta _ _ _ _) l s = refl
  on_event-broadcast (finish _) l s = refl
  on_event-broadcast (reasoning _) l s = refl
  on_event-broadcast (usage _) l s = refl

  on_events-broadcast :
      (es l : List TokenEvent) (s : StreamState Json)
      → on_events es (broadcast l s) ≡ broadcast l (on_events es s)
  unfolding on_events
  on_events-broadcast [] l s = refl
  on_events-broadcast (e ∷ es) l s =
      ap (on_events es) (on_event-broadcast e l s) ∙ on_events-broadcast es l (on_event e s)

  on_events-append :
      (xs ys : List TokenEvent) (s : StreamState Json)
      → on_events (xs ++ ys) s ≡ on_events ys (on_events xs s)
  unfolding on_events
  on_events-append [] ys s = refl
  on_events-append (x ∷ xs) ys s = on_events-append xs ys (on_event x s)

module _ {Error : Type 0} where
  -- the tokens that arrive before the stream ends, fails or is cancelled, whatever their chunks
  abbrev pub heard : List (Arrival Error) → List TokenEvent
  heard [] = []
  heard (chunk events ∷ rest) = events ++ heard rest
  heard (failed e ∷ rest) = []
  heard (cancelled ∷ rest) = []

module _ {Json Error : Type 0} where
  -- the loop is a fold over the tokens that were heard
  pub receive-on_events :
      (arrivals : List (Arrival Error)) (s : StreamState Json)
      → (receive arrivals s).0 ≡ broadcast (heard arrivals) (on_events (heard arrivals) s)
  unfolding receive on_events
  receive-on_events [] s = ap (λ l. record s { tokens = l }) (sym (append-nil s.tokens))
  receive-on_events (failed e ∷ rest) s =
      ap (λ l. record s { tokens = l }) (sym (append-nil s.tokens))
  receive-on_events (cancelled ∷ rest) s =
      ap (λ l. record s { tokens = l }) (sym (append-nil s.tokens))
  receive-on_events (chunk events ∷ rest) s =
      let all = events ++ heard rest in
      (receive (chunk events ∷ rest) s).0
      ≡⟨ receive-on_events rest (on_events events (broadcast events s)) ⟩
        broadcast (heard rest) (on_events (heard rest) (on_events events (broadcast events s)))
      ≡⟨ ap (broadcast (heard rest))
          (sym (on_events-append events (heard rest) (broadcast events s))) ⟩
        broadcast (heard rest) (on_events all (broadcast events s))
      ≡⟨ ap (broadcast (heard rest)) (on_events-broadcast all events s) ⟩
        broadcast (heard rest) (broadcast events (on_events all s))
      ≡⟨ ap (λ l. record (on_events all s) { tokens = l })
          (append_assoc (on_events all s).tokens events (heard rest)) ⟩
        broadcast all (on_events all s) ∎
