-- ===== src/Orchestrate/Response/Answered.antt =====
-- Which tool calls the response of funera-orchestrate/src/send_handle.rs lists, told from the events: the
-- calls of one id wait in a queue of their own.
use funera.Events.{Result}
use funera.Orchestrate.Response.{
  Gathered, Pending, ToolCallInfo, gather_event, take_pending, answer, keep, nothing_gathered,
}
use funera.Orchestrate.Event.{AgentEvent, tool_call_request, tool_call_result}
use funera.Prelude.{
  [], ◌∷◌, ◌≡◌, ◌++◌, ◌∙◌, true, false, none, some, refl, if◌then◌else◌, List, Option, String, inl,
  inr, Bool-cases, append-nil, append_assoc, ap, sym, str_eq, str_eq_iff, arith,
}
use mathlib.Core.Option
use funera.Orchestrate.Response.Laws.{gather}

-- the name and the arguments of the calls of each id that have no result yet, the first one first
abbrev pub Queues : Type 0 → Type 0
Queues Json = String → List (String × Json)

other_id : (a b c : String) → str_eq a b ≡ true → str_eq b c ≡ false → str_eq a c ≡ false
other_id a b c h k = rw ((str_eq_iff a b).0 h) k

module _ {Json : Type 0} where
  abbrev pub first : List (String × Json) → Result String String → List (ToolCallInfo Json)
  first [] result = []
  first ((name, args) ∷ calls) result = record { name = name; args = args; result = result } ∷ []

  abbrev pub rest : List (String × Json) → List (String × Json)
  rest [] = []
  rest (call ∷ calls) = calls

  abbrev pub with_request : String → String × Json → Queues Json → Queues Json
  with_request id call waiting j = if str_eq id j then waiting j ++ call ∷ [] else waiting j

  abbrev pub without_first : String → Queues Json → Queues Json
  without_first id waiting j = if str_eq id j then rest (waiting j) else waiting j

  -- a result answers the first call of its id that waits, and no call if none does
  abbrev pub answered_calls : Queues Json → List (AgentEvent Json) → List (ToolCallInfo Json)
  answered_calls waiting [] = []
  answered_calls waiting (tool_call_request index id name args ∷ es) =
      answered_calls (with_request id (name, args) waiting) es
  answered_calls waiting (tool_call_result id name result ∷ es) =
      first (waiting id) result ++ answered_calls (without_first id waiting) es
  answered_calls waiting (e ∷ es) = answered_calls waiting es

  abbrev pub none_waiting : Queues Json
  none_waiting id = []

  -- the pending calls of one id
  abbrev of_id : String → List (Pending Json) → List (String × Json)
  of_id id [] = []
  of_id id (p ∷ ps) = if str_eq p.0 id then (p.1, p.2) ∷ of_id id ps else of_id id ps

  abbrev IsWaiting : Queues Json → List (Pending Json) → Type 0
  IsWaiting waiting ps = (id : String) → of_id id ps ≡ waiting id

  of_id-append :
      (id : String) (ps : List (Pending Json)) (q : Pending Json)
      → of_id id (ps ++ q ∷ [])
        ≡ (if str_eq q.0 id then of_id id ps ++ (q.1, q.2) ∷ [] else of_id id ps)
  of_id-append id [] q = refl
  of_id-append id (p ∷ ps) q = ground (arith, of_id-append id ps q)

  -- the call that is taken is the first of its id, and no other call goes
  abbrev Takes : String → List (Pending Json) → Option (Pending Json × List (Pending Json)) → Type 0
  Takes id ps none = of_id id ps ≡ []
  Takes id ps (some (p, rest_of)) =
      (of_id id ps ≡ (p.1, p.2) ∷ of_id id rest_of)
      × ((j : String) → str_eq id j ≡ false → of_id j ps ≡ of_id j rest_of)

  keep-Takes :
      (id : String) (q : Pending Json) (ps : List (Pending Json))
      (o : Option (Pending Json × List (Pending Json)))
      → str_eq q.0 id ≡ false
      → Takes id ps o
      → Takes id (q ∷ ps) (Option.map (keep q) o)
  keep-Takes id q ps none h k = rw h k
  keep-Takes id q ps (some (p, rest_of)) h (k, others) = (
    rw h k,
    λ j d. elim (Bool-cases (str_eq q.0 j)) [
      | inl same ↦ rw same (ap (λ l. (q.1, q.2) ∷ l) (others j d))
      | inr other ↦ rw other (others j d)
    ],
  )

  head-Takes :
      (id : String) (q : Pending Json) (ps : List (Pending Json))
      → str_eq q.0 id ≡ true
      → Takes id (q ∷ ps) (some (q, ps))
  head-Takes id q ps same = (rw same refl, λ j d. rw (other_id q.0 id j same d) refl)

  take_pending-Takes : (id : String) (ps : List (Pending Json)) → Takes id ps (take_pending id ps)
  unfolding take_pending
  take_pending-Takes id [] = refl
  take_pending-Takes id (q ∷ ps) = elim (Bool-cases (str_eq q.0 id)) [
    | inl same ↦ rw same (head-Takes id q ps same)
    | inr other ↦
        rw other (keep-Takes id q ps (take_pending id ps) other (take_pending-Takes id ps))
  ]

  -- the calls of the response, and those that wait, after a result
  abbrev Answers :
      String → Result String String → Queues Json → Gathered Json → Gathered Json → Type 0
  Answers id result waiting g h =
      (h.response.tool_calls ≡ g.response.tool_calls ++ first (waiting id) result)
      × IsWaiting (without_first id waiting) h.pending

  answer-Answers :
      (id : String) (result : Result String String) (waiting : Queues Json) (g : Gathered Json)
      (o : Option (Pending Json × List (Pending Json)))
      → IsWaiting waiting g.pending
      → Takes id g.pending o
      → Answers id result waiting g (answer result o g)
  answer-Answers id result waiting g none h k =
      let empty : waiting id ≡ [] = sym (h id) ∙ k in
      (
        rw empty (sym (append-nil g.response.tool_calls)),
        λ j. elim (Bool-cases (str_eq id j)) [
          | inl same ↦ rw same (rw (← (str_eq_iff id j).0 same) (rw empty k))
          | inr other ↦ rw other (h j)
        ],
      )
  answer-Answers id result waiting g (some (p, rest_of)) h (k, others) =
      let queue : waiting id ≡ (p.1, p.2) ∷ of_id id rest_of = sym (h id) ∙ k in
      (
        rw queue refl,
        λ j. elim (Bool-cases (str_eq id j)) [
          | inl same ↦ rw same (rw (← (str_eq_iff id j).0 same) (rw queue refl))
          | inr other ↦ rw other (sym (others j other) ∙ h j)
        ],
      )

  request-IsWaiting :
      (id name : String) (args : Json) (waiting : Queues Json) (ps : List (Pending Json))
      → IsWaiting waiting ps
      → IsWaiting (with_request id (name, args) waiting) (ps ++ (id, name, args) ∷ [])
  request-IsWaiting id name args waiting ps h j =
      of_id-append j ps (id, name, args)
      ∙ ap (λ l. if str_eq id j then l ++ (name, args) ∷ [] else l) (h j)

  gather-answered_calls :
      (es : List (AgentEvent Json)) (waiting : Queues Json) (g : Gathered Json)
      → IsWaiting waiting g.pending
      → (gather es g).response.tool_calls ≡ g.response.tool_calls ++ answered_calls waiting es
  unfolding gather gather_event
  gather-answered_calls [] waiting g h = sym (append-nil g.response.tool_calls)
  gather-answered_calls (tool_call_request index id name args ∷ es) waiting g h =
      gather-answered_calls es (with_request id (name, args) waiting)
        (gather_event (tool_call_request index id name args) g)
        (request-IsWaiting id name args waiting g.pending h)
  gather-answered_calls (tool_call_result id name result ∷ es) waiting g h =
      let o = take_pending id g.pending in
      let (calls, left) =
        answer-Answers id result waiting g o h (take_pending-Takes id g.pending) in
      gather-answered_calls es (without_first id waiting) (answer result o g) left
      ∙ ap (λ l. l ++ answered_calls (without_first id waiting) es) calls
      ∙ append_assoc g.response.tool_calls (first (waiting id) result)
          (answered_calls (without_first id waiting) es)
  gather-answered_calls (e ∷ es) waiting g h = gather-answered_calls es waiting (gather_event e g) h

  pub tool_calls-gather :
      (es : List (AgentEvent Json))
      → (gather es nothing_gathered).response.tool_calls ≡ answered_calls none_waiting es
  tool_calls-gather es = gather-answered_calls es none_waiting nothing_gathered (λ id. refl)
