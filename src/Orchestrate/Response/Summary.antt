-- ===== src/Orchestrate/Response/Summary.antt =====
-- The response of funera-orchestrate/src/send_handle.rs, told from the events.
use funera.Orchestrate.Event.{AgentEvent}
use funera.Orchestrate.Response.{
  ToolCallInfo, aggregate_from_broadcast, ChatResponse, Received, nothing_gathered, Gathered,
}
use funera.Prelude.{
  ◌≡◌, ◌++◌, ◌⊎◌, ◌∙◌, none, some, refl, arith, List, String, inl, inr, Option-cases, map,
}
use mathlib.Core.List.{Perm}
use funera.Orchestrate.Response.Laws.{
  until_end, aggregate_from-gather, gather-content, gather-iterations, gather-ending, last_text,
  last_end, starts, gather,
}
use funera.Orchestrate.Response.Answered.{answered_calls, none_waiting, tool_calls-gather}
use funera.Orchestrate.Response.Calls.{requested, gather-calls}

module _ {Json : Type 0} where
  abbrev pub call_of : ToolCallInfo Json → String × Json
  call_of i = (i.name, i.args)

  -- `unanswered` are the calls without a result
  pub record Summarises (es : List (AgentEvent Json)) (r : ChatResponse Json) : Type 0 where
    pub content : r.content ≡ last_text "" es
    pub iterations : r.iterations ≡ starts es
    pub ending : (r.finish_reason, r.usage) ≡ last_end (none, none) es
    pub tool_calls : r.tool_calls ≡ answered_calls none_waiting es
    pub unanswered : List (String × Json)
    pub calls : Perm (map call_of r.tool_calls ++ unanswered) (requested es)

  gather-Summarises :
      (es : List (AgentEvent Json)) → Summarises es (gather es nothing_gathered).response
  gather-Summarises es =
      let g : Gathered Json = nothing_gathered in
      record {
        content = gather-content es g;
        iterations = gather-iterations es g ∙ omega arith;
        ending = gather-ending es g;
        tool_calls = tool_calls-gather es;
        unanswered = map (λ p. (p.1, p.2)) (gather es g).pending;
        calls = gather-calls es g;
      }

  -- There is a response as soon as a `Done` arrives or the channel is closed, and it tells of the
  -- events before that and of no later one: the text is the last, the iterations are the starts of
  -- turns, the finish reason and the usage are those of the last end of a turn. For each result of
  -- which the id has a call that waits there is one tool call, in the order of the results: the
  -- first of the id that waits, with its name, its arguments and this result. The calls requested
  -- are, as often, those and the ones without a result. While the receiver waits there is no
  -- response.
  pub aggregate-Summarises :
      (rs : List (Received (AgentEvent Json)))
      → ((until_end rs ≡ none) × (aggregate_from_broadcast rs ≡ none))
        ⊎ ((es : List (AgentEvent Json)) × (r : ChatResponse Json) × (until_end rs ≡ some es)
            × (aggregate_from_broadcast rs ≡ some r)
            × Summarises es r)
  unfolding aggregate_from_broadcast
  aggregate-Summarises rs = elim (Option-cases (until_end rs)) [
    | inl waits ↦ inl (waits, aggregate_from-gather rs nothing_gathered ∙ rw waits refl)
    | inr (es, ends) ↦ inr (
      es,
      (gather es nothing_gathered).response,
      ends,
      aggregate_from-gather rs nothing_gathered ∙ rw ends refl,
      gather-Summarises es,
    )
  ]
