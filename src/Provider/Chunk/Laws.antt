-- ===== src/Provider/Chunk/Laws.antt =====
-- What the token loop of funera_core/src/re_act.rs makes of a chunk of a provider.
use funera.Prelude.{
  [], ◌∷◌, ◌≡◌, ◌++◌, ◌∙◌, none, some, refl, List, Option, String, inl, inr, ap, concat, get_or,
  map, Bool-cases, append-nil, push_str, is_empty, sym, nil-push_str, str_eq_iff, push_str-nil,
  push_str_assoc,
}
use funera.Events.{FinishReason, TokenUsage, TokenEvent, text, tool_delta, finish, reasoning, usage}
use funera.Provider.Chunk.{
  Choice, StreamChunk, ToolCallChunk, call_event, text_event, content_events, finish_event,
  usage_event, reasoning_event, deepseek_choice, each, extract_deepseek,
}
use funera.ReAct.Stream.{StreamState, on_events}
use funera.ReAct.Stream.Laws.{
  texts, reasonings, last_usage, content-on_events, reasoning-on_events, usage-on_events,
}

concat-append : (k l : List String) → concat (k ++ l) ≡ push_str (concat k) (concat l)
concat-append [] l = sym (nil-push_str (concat l))
concat-append (s ∷ k) l =
    ap (push_str s) (concat-append k l) ∙ sym (push_str_assoc s (concat k) (concat l))

texts-append : (k l : List TokenEvent) → texts (k ++ l) ≡ texts k ++ texts l
texts-append [] l = refl
texts-append (text t ∷ k) l = ap (λ x. t ∷ x) (texts-append k l)
texts-append (tool_delta _ _ _ _ ∷ k) l = texts-append k l
texts-append (finish _ ∷ k) l = texts-append k l
texts-append (reasoning _ ∷ k) l = texts-append k l
texts-append (usage _ ∷ k) l = texts-append k l

reasonings-append : (k l : List TokenEvent) → reasonings (k ++ l) ≡ reasonings k ++ reasonings l
reasonings-append [] l = refl
reasonings-append (reasoning t ∷ k) l = ap (λ x. t ∷ x) (reasonings-append k l)
reasonings-append (tool_delta _ _ _ _ ∷ k) l = reasonings-append k l
reasonings-append (finish _ ∷ k) l = reasonings-append k l
reasonings-append (text _ ∷ k) l = reasonings-append k l
reasonings-append (usage _ ∷ k) l = reasonings-append k l

last_usage-append :
    (o : Option TokenUsage) (k l : List TokenEvent)
    → last_usage o (k ++ l) ≡ last_usage (last_usage o k) l
last_usage-append o [] l = refl
last_usage-append o (usage u ∷ k) l = last_usage-append (some u) k l
last_usage-append o (text _ ∷ k) l = last_usage-append o k l
last_usage-append o (tool_delta _ _ _ _ ∷ k) l = last_usage-append o k l
last_usage-append o (finish _ ∷ k) l = last_usage-append o k l
last_usage-append o (reasoning _ ∷ k) l = last_usage-append o k l

-- the text and the reasoning that events add, where they leave the usage alone
abbrev pub IsSaid : List TokenEvent → String → String → Type 0
IsSaid es t r =
    (concat (texts es) ≡ t)
    × (concat (reasonings es) ≡ r)
    × ((o : Option TokenUsage) → last_usage o es ≡ o)

IsSaid-append :
    (k l : List TokenEvent) {t u r q : String}
    → IsSaid k t r
    → IsSaid l u q
    → IsSaid (k ++ l) (push_str t u) (push_str r q)
IsSaid-append k l (a, b, c) (d, e, f) = (
  ap concat (texts-append k l) ∙ concat-append (texts k) (texts l) ∙ both a d,
  ap concat (reasonings-append k l) ∙ concat-append (reasonings k) (reasonings l) ∙ both b e,
  λ o. last_usage-append o k l ∙ ap (λ x. last_usage x l) (c o) ∙ f o,
)
  where
    both : {w x y z : String} → w ≡ x → y ≡ z → push_str w y ≡ push_str x z
    both p q = λ i. push_str (p i) (q i)

calls-IsSaid : (tcs : List ToolCallChunk) → IsSaid (map call_event tcs) "" ""
calls-IsSaid [] = (refl, refl, λ o. refl)
calls-IsSaid (tc ∷ tcs) = calls-IsSaid tcs

text_event-IsSaid : (t : String) → IsSaid (text_event t) t ""
text_event-IsSaid t = elim (Bool-cases (is_empty t)) [
  | inl blank ↦ rw blank (sym ((str_eq_iff t "").0 blank), refl, λ o. refl)
  | inr full ↦ rw full (push_str-nil t, refl, λ o. refl)
]

reasoning_event-IsSaid : (o : Option String) → IsSaid (reasoning_event o) "" (get_or o "")
reasoning_event-IsSaid none = (refl, refl, λ o. refl)
reasoning_event-IsSaid (some t) = elim (Bool-cases (is_empty t)) [
  | inl blank ↦ rw blank (refl, sym ((str_eq_iff t "").0 blank), λ o. refl)
  | inr full ↦ rw full (refl, push_str-nil t, λ o. refl)
]

finish_event-IsSaid : (o : Option FinishReason) → IsSaid (finish_event o) "" ""
finish_event-IsSaid none = (refl, refl, λ o. refl)
finish_event-IsSaid (some r) = (refl, refl, λ o. refl)

content_events-IsSaid :
    (o : Option String) (tcs : Option (List ToolCallChunk))
    → IsSaid (content_events o tcs) (get_or o "") ""
unfolding content_events
content_events-IsSaid (some t) (some tcs) =
    let (a, b, c) =
      IsSaid-append (text_event t) (map call_event tcs) (text_event-IsSaid t) (calls-IsSaid tcs) in
    (a ∙ push_str-nil t, b ∙ push_str-nil "", c)
content_events-IsSaid (some t) none = text_event-IsSaid t
content_events-IsSaid none (some tcs) = calls-IsSaid tcs
content_events-IsSaid none none = (refl, refl, λ o. refl)

-- what a choice says and thinks
abbrev pub said : Choice → String
said c = get_or c.delta.content ""

abbrev pub thought : Choice → String
thought c = get_or c.delta.reasoning_content ""

deepseek_choice-IsSaid : (c : Choice) → IsSaid (deepseek_choice c) (said c) (thought c)
unfolding deepseek_choice
deepseek_choice-IsSaid c =
    let (a, b, d) =
      IsSaid-append (finish_event c.finish_reason) _ (finish_event-IsSaid c.finish_reason) (
        IsSaid-append (reasoning_event c.delta.reasoning_content) _
          (reasoning_event-IsSaid c.delta.reasoning_content)
          (content_events-IsSaid c.delta.content c.delta.tool_calls)) in
    (
      a ∙ nil-push_str (push_str "" (said c)) ∙ nil-push_str (said c),
      b ∙ nil-push_str (push_str (thought c) "") ∙ push_str-nil (thought c),
      d,
    )

each-IsSaid :
    (cs : List Choice)
    → IsSaid (each deepseek_choice cs) (concat (map said cs)) (concat (map thought cs))
each-IsSaid [] = (refl, refl, λ o. refl)
each-IsSaid (c ∷ cs) =
    IsSaid-append (deepseek_choice c) (each deepseek_choice cs) (deepseek_choice-IsSaid c)
      (each-IsSaid cs)

-- the chunk's usage, or the one before
abbrev pub newer : Option TokenUsage → Option TokenUsage → Option TokenUsage
newer none before = before
newer (some u) before = some u

usage_event-quiet :
    (u : Option TokenUsage) → (texts (usage_event u) ≡ []) × (reasonings (usage_event u) ≡ [])
usage_event-quiet none = (refl, refl)
usage_event-quiet (some u) = (refl, refl)

usage_event-newer : (u o : Option TokenUsage) → last_usage o (usage_event u) ≡ newer u o
usage_event-newer none o = refl
usage_event-newer (some u) o = refl

module _ {Json : Type 0} where
  -- A chunk of DeepSeek adds the contents of its choices to the turn's text and their reasonings to
  -- its reasoning, in order, and sets the usage if it has one.
  pub extract_deepseek-on_events :
      (chunk : StreamChunk) (s : StreamState Json)
      → ((on_events (extract_deepseek chunk) s).assistant_content
          ≡ push_str s.assistant_content (concat (map said chunk.choices)))
        × ((on_events (extract_deepseek chunk) s).reasoning_content
            ≡ push_str s.reasoning_content (concat (map thought chunk.choices)))
        × ((on_events (extract_deepseek chunk) s).turn_usage ≡ newer chunk.usage s.turn_usage)
  unfolding extract_deepseek
  extract_deepseek-on_events chunk s =
      let es = each deepseek_choice chunk.choices in
      let u = usage_event chunk.usage in
      let (a, b, c) = each-IsSaid chunk.choices in
      (
        content-on_events (es ++ u) s
            ∙ ap (λ l. push_str s.assistant_content (concat l))
                (texts-append es u
                  ∙ ap (λ l. texts es ++ l) (usage_event-quiet chunk.usage).0
                  ∙ append-nil (texts es))
            ∙ ap (push_str s.assistant_content) a,
        reasoning-on_events (es ++ u) s
            ∙ ap (λ l. push_str s.reasoning_content (concat l))
                (reasonings-append es u
                  ∙ ap (λ l. reasonings es ++ l) (usage_event-quiet chunk.usage).1
                  ∙ append-nil (reasonings es))
            ∙ ap (push_str s.reasoning_content) b,
        usage-on_events (es ++ u) s
            ∙ last_usage-append s.turn_usage es u
            ∙ ap (λ o. last_usage o u) (c s.turn_usage)
            ∙ usage_event-newer chunk.usage s.turn_usage,
      )
