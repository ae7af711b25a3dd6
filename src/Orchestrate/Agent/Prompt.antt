-- ===== src/Orchestrate/Agent/Prompt.antt =====
-- Where the system prompt stands in the conversation of funera-orchestrate/src/agent.rs.
use funera.ReAct.Loop.{Request, begin_turn, emit_event, filter_and_store, run}
use funera.Events.{FinishReason}
use funera.Orchestrate.Agent.{
  text_message, Call, Loop, wiring, react_loop, send, reset, at_session, Turn, close_session,
}
use funera.Json.{JsonOps}
use funera.Orchestrate.Event.{AgentEvent, agent_events}
use funera.Chat.Message.{FuneraMessage, Role, format_json}
use mathlib.Core.Path.{subst}
use funera.Chat.Session
use funera.Prelude.{
  All, All-append, [], ◌∷◌, ◌≡◌, ◌++◌, true, false, refl, List, Bool, String, ap, ◌⊎◌, none, some,
  Option, inl, inr, sym, map,
}
use funera.ReAct.Loop.Invariant.{IsKept, run-kept}
use funera.ReAct.Loop.{stored, Request, Loop, begin_turn, emit_event}
use funera.ReAct.Loop.Store.{filter_and_store-IsStored, all_stored, passed}

abbrev pub is_system : Role → Bool
is_system Role.system = true
is_system _ = false

module _ {Json : Type 0} where
  abbrev pub NoSystem : List (FuneraMessage Json) → Type 0
  NoSystem = All (λ m. is_system m.role ≡ false)

  -- the prompt comes first, and there is no other system message
  pub record IsPrompted (sys : String) (msgs : List (FuneraMessage Json)) : Type 0 where
    pub rest : List (FuneraMessage Json)
    pub split : msgs ≡ text_message Role.system sys ∷ rest
    pub clean : NoSystem rest

  IsPrompted-append :
      (sys : String) (msgs added : List (FuneraMessage Json))
      → IsPrompted sys msgs
      → NoSystem added
      → IsPrompted sys (msgs ++ added)
  IsPrompted-append sys msgs added h k = record {
    rest = h.rest ++ added;
    split = ap (λ l. l ++ added) h.split;
    clean = All-append _ h.rest added h.clean k;
  }

  stored-NoSystem : (e : AgentEvent Json) → NoSystem (stored agent_events e)
  stored-NoSystem (AgentEvent.text t) = (refl, tt)
  stored-NoSystem (AgentEvent.tool_call_request index call_id name args) = (refl, tt)
  stored-NoSystem (AgentEvent.tool_call_result call_id name result) = (refl, tt)
  stored-NoSystem _ = tt

  all_stored-NoSystem : (es : List (AgentEvent Json)) → NoSystem (all_stored agent_events es)
  all_stored-NoSystem [] = tt
  all_stored-NoSystem (e ∷ es) =
      All-append _ (stored agent_events e) (all_stored agent_events es) (stored-NoSystem e)
        (all_stored-NoSystem es)

module _ {Json : Type 0} (json : JsonOps Json) (debug : FinishReason → String) (sys : String) where
  abbrev pub system_json : Json
  system_json = format_json json (text_message Role.system sys)

  -- the history of a request starts with the prompt
  abbrev pub StartsWithPrompt : Request Json → Type 0
  StartsWithPrompt r = (others : List Json) × (r.history ≡ system_json ∷ others)

  pub record KeepsPrompt (l : Loop Json (AgentEvent Json)) : Type 0 where
    pub session : IsPrompted sys l.session
    pub requests : All StartsWithPrompt l.requests

  module _ (c : Call Json) where
    KeepsPrompt-kept : IsKept json agent_events debug (wiring c) KeepsPrompt (λ e. Unit)
    unfolding begin_turn emit_event
    KeepsPrompt-kept = record {
      stored = λ es l own h. store es l h;
      sent = λ es l h. record { session = h.session; requests = h.requests };
      begun = λ t l h. begin t l h;
      ended = λ reason usage l h. record { session = h.session; requests = h.requests };
      cancelled = tt;
      text = λ content reasoning. tt;
      request = λ call_id name args. tt;
      response = λ call_id name r. tt;
    }
      where
        store :
            (es : List (AgentEvent Json)) (l : Loop Json (AgentEvent Json))
            → KeepsPrompt l
            → KeepsPrompt (filter_and_store agent_events (wiring c) es l)
        store es l h =
            let k = filter_and_store-IsStored agent_events (wiring c) es l in
            record {
              session = subst (IsPrompted sys) (sym k.session) (
                  IsPrompted-append sys l.session _ h.session
                    (all_stored-NoSystem (passed (wiring c) es)));
              requests = subst (All StartsWithPrompt) (sym k.requests) h.requests;
            }

        begin :
            (t : Turn Json) (l : Loop Json (AgentEvent Json))
            → KeepsPrompt l
            → KeepsPrompt (begin_turn json agent_events debug (wiring c) t l)
        begin t l h = record {
          session = h.session;
          requests = All-append StartsWithPrompt l.requests _ h.requests (
            (map (format_json json) h.session.rest, ap (map (format_json json)) h.session.split),
            tt,
          );
        }

    react_loop-KeepsPrompt :
        (msgs : List (FuneraMessage Json))
        → IsPrompted sys msgs
        → KeepsPrompt (react_loop json debug (text_message Role.user c.message) c msgs).loop
    unfolding react_loop Session.handle
    react_loop-KeepsPrompt msgs h =
        by_end (run json agent_events debug (wiring c) c.max_iterations c.turns opened) kept
      where
        opened : Loop Json (AgentEvent Json)
        opened = at_session (msgs ++ text_message Role.user c.message ∷ [])

        kept :
            KeepsPrompt (run json agent_events debug (wiring c) c.max_iterations c.turns opened).0
        kept =
            run-kept json agent_events debug (wiring c) KeepsPrompt-kept c.max_iterations c.turns
              opened (record { session = IsPrompted-append sys msgs _ h (refl, tt); requests = tt })

        by_end :
            (r : Loop Json (AgentEvent Json) × Option String)
            → KeepsPrompt r.0
            → KeepsPrompt (close_session json debug r).loop
        by_end (l, none) k = k
        by_end (l, some e) k = k

  -- what a user does with a runtime: calls, and resets
  pub data Use : Type 0 where
    sends : Call Json → Use
    resets : Use

  abbrev pub use_session : Use → List (FuneraMessage Json) → List (FuneraMessage Json)
  use_session (sends c) msgs = (send json debug (some sys) c msgs).loop.session
  use_session resets msgs = reset json debug msgs

  abbrev pub converse : List Use → List (FuneraMessage Json) → List (FuneraMessage Json)
  converse [] msgs = msgs
  converse (u ∷ us) msgs = converse us (use_session u msgs)

  abbrev Opened : List (FuneraMessage Json) → Type 0
  Opened msgs = (msgs ≡ []) ⊎ IsPrompted sys msgs

  send-KeepsPrompt :
      (c : Call Json) (msgs : List (FuneraMessage Json))
      → Opened msgs
      → KeepsPrompt (send json debug (some sys) c msgs).loop
  unfolding send Session.handle
  send-KeepsPrompt c [] h =
      react_loop-KeepsPrompt c (text_message Role.system sys ∷ [])
        (record { rest = []; split = refl; clean = tt })
  send-KeepsPrompt c (m ∷ msgs) (inl e) = absurd cc
  send-KeepsPrompt c (m ∷ msgs) (inr p) = react_loop-KeepsPrompt c (m ∷ msgs) p

  converse-Opened :
      (us : List Use) (msgs : List (FuneraMessage Json)) → Opened msgs → Opened (converse us msgs)
  unfolding reset Session.handle
  converse-Opened [] msgs h = h
  converse-Opened (sends c ∷ us) msgs h =
      converse-Opened us _ (inr (send-KeepsPrompt c msgs h).session)
  converse-Opened (resets ∷ us) msgs h = converse-Opened us _ (inl refl)

  -- However an agent with a system prompt has used a runtime, with calls of any length, failed or
  -- cancelled, any middleware and resets between them, its next call leaves a session that starts
  -- with the prompt and has no other system message, and every request of the call starts with it.
  pub send-KeepsPrompt_after :
      (us : List Use) (c : Call Json)
      → KeepsPrompt (send json debug (some sys) c (converse us [])).loop
  send-KeepsPrompt_after us c =
      send-KeepsPrompt c (converse us []) (converse-Opened us [] (inl refl))
