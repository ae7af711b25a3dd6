-- ===== src/Orchestrate/Response/Events.antt =====
-- The text, the calls and the results of a turn of the loop (funera_core/src/re_act.rs), gathered as
-- in funera-orchestrate/src/send_handle.rs.
use funera.Orchestrate.Turns.{continues}
use funera.ReAct.Loop.{response_event, text_events}
use funera.ReAct.Finish.{parsed_args, respond, result_of, answer_to, handle_turn_finish, sorted}
use funera.Tool.Error.{ToolCallError}
use funera.Events.{Result, FinishReason}
use funera.Orchestrate.Response.{
  gather_event, ChatResponse, Pending, ToolCallInfo, take_pending, answer,
}
use funera.ReAct.Stream.{ToolCallAccumulator, StreamState}
use funera.Json.{JsonOps}
use funera.Prelude.{
  [], ◌∷◌, ◌≡◌, ◌++◌, ◌∙◌, refl, List, String, map, append-nil, ap, append_assoc, Option, inl, inr,
  str_eq_refl, Bool-cases, some, none, if◌then◌else◌, is_empty,
}
use funera.Orchestrate.Response.Laws.{gather}
use funera.Orchestrate.Event.{agent_events}
use funera.ReAct.Loop.{call_event}

module _ {Json : Type 0} where
  take_pending-head :
      (id name : String) (args : Json) (ps : List (Pending Json))
      → take_pending id ((id, name, args) ∷ ps) ≡ some ((id, name, args), ps)
  unfolding take_pending
  take_pending-head id name args ps = rw str_eq_refl refl

module _ {Json : Type 0} (json : JsonOps Json) where
  abbrev pub pending_of : ToolCallAccumulator → Pending Json
  pending_of a = (a.call_id, a.name, parsed_args json a)

  pub gather-call_events :
      (accs : List ToolCallAccumulator) (r : ChatResponse Json) (ps : List (Pending Json))
      → gather (map (call_event json agent_events) accs) (record { response = r; pending = ps })
        ≡ record { response = r; pending = ps ++ map pending_of accs }
  unfolding gather gather_event
  gather-call_events [] r ps = rw append-nil refl
  gather-call_events (a ∷ accs) r ps =
      gather-call_events accs r (ps ++ pending_of a ∷ [])
      ∙ ap (λ l. record { response = r; pending = l })
          (append_assoc ps (pending_of a ∷ []) (map pending_of accs))

  module _ (tool : String → String → Json → Result String (ToolCallError Json)) where
    abbrev pub info_of : ToolCallAccumulator → ToolCallInfo Json
    info_of a = record {
      name = a.name;
      args = parsed_args json a;
      result = result_of json tool (answer_to json tool a);
    }

    gather-response_events :
        (accs : List ToolCallAccumulator) (r : ChatResponse Json)
        → gather
            (map (response_event agent_events) (respond json tool accs).0)
            (record { response = r; pending = map pending_of accs })
          ≡ record {
            response = record r { tool_calls = r.tool_calls ++ map info_of accs };
            pending = [];
          }
    unfolding gather gather_event respond take_pending
    gather-response_events [] r = rw append-nil refl
    gather-response_events (a ∷ accs) r =
        ap
          (λ o. gather (map (response_event agent_events) (respond json tool accs).0) (
            answer (result_of json tool (answer_to json tool a)) o
              (record { response = r; pending = map pending_of (a ∷ accs) })))
          (take_pending-head a.call_id a.name (parsed_args json a) (map pending_of accs))
        ∙ gather-response_events accs (record r { tool_calls = r.tool_calls ++ info_of a ∷ [] })
        ∙ ap (λ l. record { response = record r { tool_calls = l }; pending = [] })
            (append_assoc r.tool_calls (info_of a ∷ []) (map info_of accs))

  pub gather-text_events :
      (s : StreamState Json) (r : ChatResponse Json) (ps : List (Pending Json))
      → gather (text_events json agent_events s) (record { response = r; pending = ps }) ≡ record {
        response = record r {
          content = if is_empty s.assistant_content then r.content else s.assistant_content;
        };
        pending = ps;
      }
  unfolding gather gather_event
  gather-text_events s r ps = elim (Bool-cases (is_empty s.assistant_content)) [
    | inl silent ↦ rw silent refl
    | inr spoken ↦ rw spoken refl
  ]

  module _ (tool : String → String → Json → Result String (ToolCallError Json)) where
    pub gather-results :
        (reason : Option FinishReason) (accs : List ToolCallAccumulator) (r : ChatResponse Json)
        → gather
            (map
              (response_event agent_events)
              (handle_turn_finish json tool reason accs).tool_results)
            (record { response = r; pending = map (pending_of) (sorted accs) })
          ≡ record {
            response = record r {
              tool_calls =
                  r.tool_calls
                  ++ (if continues reason then map (info_of tool) (sorted accs) else []);
            };
            pending = if continues reason then [] else map (pending_of) (sorted accs);
          }
    unfolding handle_turn_finish gather
    gather-results (some FinishReason.tool_calls) accs r =
        gather-response_events tool (sorted accs) r
    gather-results (some FinishReason.length) accs r = gather-response_events tool (sorted accs) r
    gather-results none accs r = rw append-nil refl
    gather-results (some _) accs r = rw append-nil refl
