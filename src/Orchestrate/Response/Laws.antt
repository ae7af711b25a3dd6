-- ===== src/Orchestrate/Response/Laws.antt =====
-- What `aggregate_from_broadcast` of funera-orchestrate/src/send_handle.rs makes of the events that it
-- receives.
use funera.Prelude.{
  [], ◌∷◌, ◌++◌, ◌≡◌, refl, List, ℕ, ◌∙◌, none, some, suc, Option, String, ap, ◌+◌, arith,
}
use funera.Orchestrate.Event.{AgentEvent, done, text, turn_start, tool_call_result, turn_end}
use funera.Orchestrate.Dispatcher.{Received, event, lagged, closed}
use mathlib.Core.Option
use funera.Orchestrate.Response.{
  Gathered, gather_event, aggregate_from, ChatResponse, Result, TokenUsage, Pending, answer,
  take_pending,
}

module _ {Json : Type 0} where
  unfoldable pub gather : List (AgentEvent Json) → Gathered Json → Gathered Json
  gather [] g = g
  gather (e ∷ es) g = gather es (gather_event e g)

  pub gather-append :
      (xs ys : List (AgentEvent Json)) (g : Gathered Json)
      → gather (xs ++ ys) g ≡ gather ys (gather xs g)
  unfolding gather
  gather-append [] ys g = refl
  gather-append (x ∷ xs) ys g = gather-append xs ys (gather_event x g)

  -- The events up to the first `Done` or the end of the channel, less the missed ones; none if the
  -- receiver still waits.
  abbrev pub until_end : List (Received (AgentEvent Json)) → Option (List (AgentEvent Json))
  until_end [] = none
  until_end (event done ∷ rest) = some []
  until_end (event e ∷ rest) = Option.map (λ es. e ∷ es) (until_end rest)
  until_end (lagged ∷ rest) = until_end rest
  until_end (closed ∷ rest) = some []

  abbrev pub response_of : Gathered Json → List (AgentEvent Json) → ChatResponse Json
  response_of g es = (gather es g).response

  map-cons :
      (e : AgentEvent Json) (g : Gathered Json) (o : Option (List (AgentEvent Json)))
      → Option.map (response_of (gather_event e g)) o
        ≡ Option.map (response_of g) (Option.map (λ es. e ∷ es) o)
  unfolding gather
  map-cons e g none = refl
  map-cons e g (some es) = refl

  pub aggregate_from-gather :
      (rs : List (Received (AgentEvent Json))) (g : Gathered Json)
      → aggregate_from rs g ≡ Option.map (response_of g) (until_end rs)
  unfolding aggregate_from gather
  aggregate_from-gather [] g = refl
  aggregate_from-gather (event done ∷ rest) g = refl
  aggregate_from-gather (event e ∷ rest) g =
      aggregate_from-gather rest (gather_event e g) ∙ map-cons e g (until_end rest)
  aggregate_from-gather (lagged ∷ rest) g = aggregate_from-gather rest g
  aggregate_from-gather (closed ∷ rest) g = refl

  -- the last of each kind, or what was there before
  abbrev pub last_text : String → List (AgentEvent Json) → String
  last_text d [] = d
  last_text d (text t ∷ es) = last_text t es
  last_text d (e ∷ es) = last_text d es

  abbrev pub last_end :
      Option String × Option TokenUsage → List (AgentEvent Json) → Option String × Option TokenUsage
  last_end d [] = d
  last_end d (turn_end reason usage ∷ es) = last_end (reason, usage) es
  last_end d (e ∷ es) = last_end d es

  abbrev pub starts : List (AgentEvent Json) → ℕ
  starts [] = 0
  starts (turn_start ∷ es) = suc (starts es)
  starts (e ∷ es) = starts es

  answer-content :
      (r : Result String String) (o : Option (Pending Json × List (Pending Json)))
      (g : Gathered Json)
      → (answer r o g).response.content ≡ g.response.content
  answer-content r none g = refl
  answer-content r (some p) g = refl

  pub gather-content :
      (es : List (AgentEvent Json)) (g : Gathered Json)
      → (gather es g).response.content ≡ last_text g.response.content es
  unfolding gather gather_event
  gather-content [] g = refl
  gather-content (text t ∷ es) g = gather-content es (gather_event (text t) g)
  gather-content (tool_call_result call_id name r ∷ es) g =
      gather-content es (gather_event (tool_call_result call_id name r) g)
      ∙ ap (λ d. last_text d es) (answer-content r (take_pending call_id g.pending) g)
  gather-content (e ∷ es) g = gather-content es (gather_event e g)

  answer-iterations :
      (r : Result String String) (o : Option (Pending Json × List (Pending Json)))
      (g : Gathered Json)
      → (answer r o g).response.iterations ≡ g.response.iterations
  answer-iterations r none g = refl
  answer-iterations r (some p) g = refl

  pub gather-iterations :
      (es : List (AgentEvent Json)) (g : Gathered Json)
      → (gather es g).response.iterations ≡ g.response.iterations + starts es
  unfolding gather gather_event
  gather-iterations [] g = omega arith
  gather-iterations (turn_start ∷ es) g =
      omega (arith, gather-iterations es (gather_event turn_start g))
  gather-iterations (tool_call_result call_id name r ∷ es) g =
      gather-iterations es (gather_event (tool_call_result call_id name r) g)
      ∙ ap (λ (n : ℕ). n + starts es) (answer-iterations r (take_pending call_id g.pending) g)
  gather-iterations (e ∷ es) g = gather-iterations es (gather_event e g)

  abbrev pub ending : Gathered Json → Option String × Option TokenUsage
  ending g = (g.response.finish_reason, g.response.usage)

  answer-ending :
      (r : Result String String) (o : Option (Pending Json × List (Pending Json)))
      (g : Gathered Json)
      → ending (answer r o g) ≡ ending g
  answer-ending r none g = refl
  answer-ending r (some p) g = refl

  pub gather-ending :
      (es : List (AgentEvent Json)) (g : Gathered Json)
      → ending (gather es g) ≡ last_end (ending g) es
  unfolding gather gather_event
  gather-ending [] g = refl
  gather-ending (turn_end reason usage ∷ es) g =
      gather-ending es (gather_event (turn_end reason usage) g)
  gather-ending (tool_call_result call_id name r ∷ es) g =
      gather-ending es (gather_event (tool_call_result call_id name r) g)
      ∙ ap (λ d. last_end d es) (answer-ending r (take_pending call_id g.pending) g)
  gather-ending (e ∷ es) g = gather-ending es (gather_event e g)
