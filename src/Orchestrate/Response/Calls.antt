-- ===== src/Orchestrate/Response/Calls.antt =====
-- The tool calls in the response of funera-orchestrate/src/send_handle.rs.
use funera.Events.{Result}
use funera.Orchestrate.Response.{
  Gathered, Pending, ToolCallInfo, gather_event, take_pending, answer, keep,
}
use funera.Orchestrate.Event.{AgentEvent, tool_call_request, tool_call_result}
use funera.Prelude.{
  [], ◌∷◌, ◌≡◌, ◌++◌, none, some, refl, List, Option, ℕ, String, inl, inr, Bool-cases, append-nil,
  map, append_assoc, str_eq,
}
use mathlib.Core.Option
use mathlib.Core.List.{Perm, map-append}
use mathlib.Core.List.Perm
use funera.Orchestrate.Response.Laws.{gather}

module _ {Json : Type 0} where
  -- the name and the arguments of every call that is requested
  abbrev pub requested : List (AgentEvent Json) → List (String × Json)
  requested [] = []
  requested (tool_call_request index call_id name args ∷ es) = (name, args) ∷ requested es
  requested (e ∷ es) = requested es

  -- the calls with their results, and those that have none yet
  abbrev pub answered_call : ToolCallInfo Json → String × Json
  answered_call i = (i.name, i.args)

  abbrev pending_call : Pending Json → String × Json
  pending_call p = (p.1, p.2)

  abbrev pub calls : Gathered Json → List (String × Json)
  calls g = map answered_call g.response.tool_calls ++ map pending_call g.pending

  -- nothing is lost or made up when a pending call is taken
  abbrev Taken : List (Pending Json) → Option (Pending Json × List (Pending Json)) → Type 0
  Taken ps none = Unit
  Taken ps (some (p, rest)) = Perm (map pending_call (p ∷ rest)) (map pending_call ps)

  keep-Taken :
      (q : Pending Json) (ps : List (Pending Json))
      (o : Option (Pending Json × List (Pending Json)))
      → Taken ps o
      → Taken (q ∷ ps) (Option.map (keep q) o)
  keep-Taken q ps none h = tt
  keep-Taken q ps (some (p, rest)) h =
      Perm.trans (Perm.swap (pending_call q) (pending_call p) (map pending_call rest))
        (Perm.cons (pending_call q) h)

  take_pending-Taken : (id : String) (ps : List (Pending Json)) → Taken ps (take_pending id ps)
  unfolding take_pending
  take_pending-Taken id [] = tt
  take_pending-Taken id (q ∷ ps) = elim (Bool-cases (str_eq q.0 id)) [
    | inl same ↦ rw same (Perm.refl (map pending_call (q ∷ ps)))
    | inr other ↦ rw other (keep-Taken q ps (take_pending id ps) (take_pending-Taken id ps))
  ]

  answer-calls :
      (r : Result String String) (o : Option (Pending Json × List (Pending Json)))
      (g : Gathered Json)
      → Taken g.pending o
      → Perm (calls (answer r o g)) (calls g)
  answer-calls r none g h = Perm.refl (calls g)
  answer-calls r (some (p, rest)) g h =
      let done = map answered_call g.response.tool_calls in
      rw map-append (rw append_assoc (Perm.append_left done h))

  calls-request :
      (index : ℕ) (call_id name : String) (args : Json) (g : Gathered Json)
      → calls (gather_event (tool_call_request index call_id name args) g)
        ≡ calls g ++ (name, args) ∷ []
  unfolding gather_event
  calls-request index call_id name args g = rw map-append (rw (← append_assoc) refl)

  pub gather-calls :
      (es : List (AgentEvent Json)) (g : Gathered Json)
      → Perm (calls (gather es g)) (calls g ++ requested es)
  unfolding gather gather_event
  gather-calls [] g = rw append-nil (Perm.refl (calls g))
  gather-calls (tool_call_request index call_id name args ∷ es) g =
      Perm.trans (gather-calls es (gather_event (tool_call_request index call_id name args) g)) (
        rw (calls-request index call_id name args g) (
          rw (append_assoc (calls g) ((name, args) ∷ []) (requested es))
            (Perm.refl (calls g ++ ((name, args) ∷ requested es)))))
  gather-calls (tool_call_result call_id name r ∷ es) g =
      Perm.trans (gather-calls es (answer r (take_pending call_id g.pending) g)) (
        Perm.append_right (requested es) (
          answer-calls r (take_pending call_id g.pending) g (take_pending-Taken call_id g.pending)))
  gather-calls (e ∷ es) g = gather-calls es (gather_event e g)
