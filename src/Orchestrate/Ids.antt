-- ===== src/Orchestrate/Ids.antt =====
-- The ids of the tool calls and of the answers among the messages that a turn of
-- funera_core/src/re_act.rs stores for the events of funera-orchestrate/src/event.rs.
use funera.Tool.Error.{ToolCallError}
use funera.ReAct.Finish.{respond, sorted, ToolExecResult}
use funera.ReAct.Loop.{
  call_event, text_events, turn_events, response_event, Wiring, filter, Loop, filter_and_store,
}
use funera.Orchestrate.Event.{agent_events, AgentEvent}
use funera.ReAct.Loop.Store.{all_stored, all_stored-append, passed, filter_and_store-IsStored}
use funera.ReAct.Stream.{StreamState, ToolCallAccumulator}
use funera.Prelude.{
  [], ◌∷◌, ◌≡◌, ◌++◌, ◌∙◌, refl, List, String, ap, map, sym, append_assoc, inl, inr, Bool-cases,
  is_empty, true, none,
}
use funera.Json.{JsonOps}
use funera.Events.{Result}
use funera.Chat.Message.{FuneraMessage, MsgVariant, tool_request, tool_response}

module _ {Json : Type 0} where
  abbrev pub variant_request : MsgVariant Json → List String
  variant_request (tool_request m) = m.tool_call_id ∷ []
  variant_request _ = []

  abbrev pub variant_response : MsgVariant Json → List String
  variant_response (tool_response m) = m.tool_call_id ∷ []
  variant_response _ = []

  -- the ids that are called, and those that are answered, in order
  abbrev pub request_ids : List (FuneraMessage Json) → List String
  request_ids [] = []
  request_ids (m ∷ ms) = variant_request m.msg_variant ++ request_ids ms

  abbrev pub response_ids : List (FuneraMessage Json) → List String
  response_ids [] = []
  response_ids (m ∷ ms) = variant_response m.msg_variant ++ response_ids ms

  pub request_ids-append :
      (xs ys : List (FuneraMessage Json))
      → request_ids (xs ++ ys) ≡ request_ids xs ++ request_ids ys
  request_ids-append [] ys = refl
  request_ids-append (x ∷ xs) ys =
      ap (λ l. variant_request x.msg_variant ++ l) (request_ids-append xs ys)
      ∙ sym (append_assoc (variant_request x.msg_variant) (request_ids xs) (request_ids ys))

  pub response_ids-append :
      (xs ys : List (FuneraMessage Json))
      → response_ids (xs ++ ys) ≡ response_ids xs ++ response_ids ys
  response_ids-append [] ys = refl
  response_ids-append (x ∷ xs) ys =
      ap (λ l. variant_response x.msg_variant ++ l) (response_ids-append xs ys)
      ∙ sym (append_assoc (variant_response x.msg_variant) (response_ids xs) (response_ids ys))

abbrev pub call_ids : List ToolCallAccumulator → List String
call_ids accs = map (λ (a : ToolCallAccumulator). a.call_id) accs

module _ {Json : Type 0} (json : JsonOps Json) where
  pub request_ids-calls :
      (accs : List ToolCallAccumulator)
      → (request_ids (all_stored agent_events (map (call_event json agent_events) accs))
          ≡ call_ids accs)
        × (response_ids (all_stored agent_events (map (call_event json agent_events) accs)) ≡ [])
  request_ids-calls [] = (refl, refl)
  request_ids-calls (a ∷ accs) =
      let ih = request_ids-calls accs in (ap (λ l. a.call_id ∷ l) ih.0, ih.1)

  pub ids-text :
      (s : StreamState Json)
      → (request_ids (all_stored agent_events (text_events json agent_events s)) ≡ [])
        × (response_ids (all_stored agent_events (text_events json agent_events s)) ≡ [])
  ids-text s = elim (Bool-cases (is_empty s.assistant_content)) [
    | inl silent ↦ rw silent (refl, refl)
    | inr spoken ↦ rw spoken (refl, refl)
  ]

  -- a turn's own events: its text calls nothing, and nothing is answered yet
  pub ids-turn_events :
      (s : StreamState Json)
      → (request_ids (all_stored agent_events (turn_events json agent_events s))
          ≡ call_ids (sorted s.tool_call_accums))
        × (response_ids (all_stored agent_events (turn_events json agent_events s)) ≡ [])
  ids-turn_events s =
      let calls = map (call_event json agent_events) (sorted s.tool_call_accums) in
      let k = request_ids-calls (sorted s.tool_call_accums) in
      let t = ids-text s in
      rw (all_stored-append agent_events (text_events json agent_events s) calls) (
        request_ids-append (all_stored agent_events (text_events json agent_events s)) _
            ∙ ap (λ l. l ++ request_ids (all_stored agent_events calls)) t.0
            ∙ k.0,
        response_ids-append (all_stored agent_events (text_events json agent_events s)) _
            ∙ ap (λ l. l ++ response_ids (all_stored agent_events calls)) t.1
            ∙ k.1,
      )

  -- the messages of the results
  abbrev pub result_messages : List ToolExecResult → List (FuneraMessage Json)
  result_messages rs = all_stored agent_events (map (response_event agent_events) rs)

  pub ids-respond :
      (answer : String → String → Json → Result String (ToolCallError Json))
      (accs : List ToolCallAccumulator)
      → (request_ids (result_messages (respond json answer accs).0) ≡ [])
        × (response_ids (result_messages (respond json answer accs).0) ≡ call_ids accs)
  unfolding respond
  ids-respond answer [] = (refl, refl)
  ids-respond answer (a ∷ accs) =
      let ih = ids-respond answer accs in (ih.0, ap (λ l. a.call_id ∷ l) ih.1)

abbrev pub unfiltered : {Json : Type 0} → Wiring (AgentEvent Json)
unfiltered = record { middleware = none; event_sender = true; session_tx = true }

module _ {Json : Type 0} where
  pub passed-unfiltered : (es : List (AgentEvent Json)) → passed unfiltered es ≡ es
  unfolding filter
  passed-unfiltered [] = refl
  passed-unfiltered (e ∷ es) = ap (λ l. e ∷ l) (passed-unfiltered es)

  pub session-filter_and_store :
      (es : List (AgentEvent Json)) (l : Loop Json (AgentEvent Json))
      → (filter_and_store agent_events unfiltered es l).session
        ≡ l.session ++ all_stored agent_events es
  session-filter_and_store es l =
      (filter_and_store-IsStored agent_events unfiltered es l).session
      ∙ ap (λ xs. l.session ++ all_stored agent_events xs) (passed-unfiltered es)

-- the turn's text and calls, then the results, if the token has not fired by then
