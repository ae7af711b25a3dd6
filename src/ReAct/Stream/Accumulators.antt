-- ===== src/ReAct/Stream/Accumulators.antt =====
-- The tool calls that `process_token_stream` (funera_core/src/re_act.rs) collects, one accumulator
-- for each index, against a description that reads the tokens of that index alone.
use funera.Events.{TokenEvent, tool_delta, text, finish, reasoning, usage}
use funera.ReAct.Stream.{
  ToolCallAccumulator, update_entry, apply_delta, empty_accumulator, on_events,
  process_token_stream, Arrival, on_event, StreamState, start,
}
use funera.Prelude.{
  [], ◌∷◌, ◌≡◌, ◌==◌, none, some, if◌then◌else◌, List, Option, ℕ, String, is_empty, get_or,
  push_str, concat, refl, arith, ap, push_str_assoc, ◌∙◌, true, false, Bool, nil-push_str,
  push_str-nil, sym, inl, inr, Bool-cases,
}
use funera.ReAct.Stream.Laws.{heard, receive-on_events}

abbrev pub lookup : ℕ → List ToolCallAccumulator → Option ToolCallAccumulator
lookup i [] = none
lookup i (a ∷ accs) = if a.index == i then some a else lookup i accs

-- the tool deltas of one index, as (call_id, name, args_chunk)
abbrev pub Delta : Type 0
Delta = String × Option String × Option String

abbrev pub deltas : ℕ → List TokenEvent → List Delta
deltas i [] = []
deltas i (tool_delta j call_id name chunk ∷ es) =
    let rest = deltas i es in if j == i then (call_id, name, chunk) ∷ rest else rest
deltas i (_ ∷ es) = deltas i es

-- the last call id that is not empty, the last name, and the argument pieces
abbrev pub last_id : String → List Delta → String
last_id d [] = d
last_id d ((call_id, _, _) ∷ l) = last_id (if is_empty call_id then d else call_id) l

abbrev pub last_name : String → List Delta → String
last_name d [] = d
last_name d ((_, none, _) ∷ l) = last_name d l
last_name d ((_, some n, _) ∷ l) = last_name n l

abbrev pub pieces : List Delta → List String
pieces [] = []
pieces ((_, _, none) ∷ l) = pieces l
pieces ((_, _, some s) ∷ l) = s ∷ pieces l

-- an accumulator after the deltas
abbrev extend : List Delta → ToolCallAccumulator → ToolCallAccumulator
extend l a = record {
  index = a.index;
  call_id = last_id a.call_id l;
  name = last_name a.name l;
  args = push_str a.args (concat (pieces l));
}

-- what the map holds at an index, from what it held before
abbrev after : ℕ → List Delta → Option ToolCallAccumulator → Option ToolCallAccumulator
after i [] o = o
after i (d ∷ l) o = some (extend (d ∷ l) (get_or o (empty_accumulator i)))

index-apply_delta :
    (c : String) (n a : Option String) (x : ToolCallAccumulator)
    → (apply_delta c n a x).index ≡ x.index
unfolding apply_delta
index-apply_delta c n a x = refl

lookup-update_entry :
    (i j : ℕ) (c : String) (n a : Option String) (accs : List ToolCallAccumulator)
    → lookup i (update_entry j (apply_delta c n a) accs) ≡ (
        if j == i
        then some (apply_delta c n a (get_or (lookup i accs) (empty_accumulator i)))
        else lookup i accs)
unfolding update_entry
lookup-update_entry i j c n a [] = ground (arith, index-apply_delta c n a (empty_accumulator j))
lookup-update_entry i j c n a (x ∷ accs) =
    ground (arith, index-apply_delta c n a x, lookup-update_entry i j c n a accs)

extend-apply_delta :
    (c : String) (n a : Option String) (l : List Delta) (x : ToolCallAccumulator)
    → extend l (apply_delta c n a x) ≡ extend ((c, n, a) ∷ l) x
unfolding apply_delta
extend-apply_delta c none none l x = refl
extend-apply_delta c (some n) none l x = refl
extend-apply_delta c none (some a) l x =
    ap (λ t. record (extend ((c, none, some a) ∷ l) x) { args = t })
      (push_str_assoc x.args a (concat (pieces l)))
extend-apply_delta c (some n) (some a) l x =
    ap (λ t. record (extend ((c, some n, some a) ∷ l) x) { args = t })
      (push_str_assoc x.args a (concat (pieces l)))

extend-nil : (x : ToolCallAccumulator) → extend [] x ≡ x
extend-nil x = ap (λ t. record x { args = t }) (push_str-nil x.args)

after-step :
    (i : ℕ) (c : String) (n a : Option String) (l : List Delta) (o : Option ToolCallAccumulator)
    → after i l (some (apply_delta c n a (get_or o (empty_accumulator i))))
      ≡ after i ((c, n, a) ∷ l) o
after-step i c n a [] o =
    let x = get_or o (empty_accumulator i) in
    ap some (sym (extend-nil (apply_delta c n a x)) ∙ extend-apply_delta c n a [] x)
after-step i c n a (d ∷ l) o =
    ap some (extend-apply_delta c n a (d ∷ l) (get_or o (empty_accumulator i)))

module _ {Json : Type 0} where
  lookup-on_events :
      (i : ℕ) (es : List TokenEvent) (s : StreamState Json)
      → lookup i (on_events es s).tool_call_accums
        ≡ after i (deltas i es) (lookup i s.tool_call_accums)
  unfolding on_events on_event
  lookup-on_events i [] s = refl
  lookup-on_events i (text _ ∷ es) s = lookup-on_events i es _
  lookup-on_events i (finish _ ∷ es) s = lookup-on_events i es _
  lookup-on_events i (reasoning _ ∷ es) s = lookup-on_events i es _
  lookup-on_events i (usage _ ∷ es) s = lookup-on_events i es _
  lookup-on_events i (tool_delta j c n a ∷ es) s =
      lookup-on_events i es _
      ∙ ap (after i (deltas i es)) (lookup-update_entry i j c n a s.tool_call_accums)
      ∙ same_or_other (j == i)
    where
      same_or_other :
          (b : Bool)
          → after i (deltas i es) (
              if b
              then some
                  (apply_delta c n a (get_or (lookup i s.tool_call_accums) (empty_accumulator i)))
              else lookup i s.tool_call_accums)
            ≡ after i
                (if b then (c, n, a) ∷ deltas i es else deltas i es)
                (lookup i s.tool_call_accums)
      same_or_other true = after-step i c n a (deltas i es) (lookup i s.tool_call_accums)
      same_or_other false = refl

-- The call that the deltas of one index make up, if there is any.
abbrev pub assembled : ℕ → List Delta → Option ToolCallAccumulator
assembled i [] = none
assembled i (d ∷ l) = some (record {
  index = i;
  call_id = last_id "" (d ∷ l);
  name = last_name "" (d ∷ l);
  args = concat (pieces (d ∷ l));
})

after-none : (i : ℕ) (l : List Delta) → after i l none ≡ assembled i l
after-none i [] = refl
after-none i (d ∷ l) =
    ap (λ t. some (record (extend (d ∷ l) (empty_accumulator i)) { args = t }))
      (nil-push_str (concat (pieces (d ∷ l))))

-- For every index the turn has a tool call exactly if a delta of that index was heard. Its
-- arguments are the concatenated pieces of that index in order, its call id the last one that is
-- not empty, its name the last one given; deltas of other indices, interleaved, do not touch it.
pub process-assembled :
    (Json : Type 0) {Error : Type 0} (arrivals : List (Arrival Error)) (i : ℕ)
    → lookup i (process_token_stream {Json = Json} arrivals).0.tool_call_accums
      ≡ assembled i (deltas i (heard arrivals))
unfolding process_token_stream
process-assembled Json arrivals i =
    ap (λ (s : StreamState Json). lookup i s.tool_call_accums) (receive-on_events arrivals start)
    ∙ lookup-on_events i (heard arrivals) start
    ∙ after-none i (deltas i (heard arrivals))

-- no index twice
abbrev pub IsMap : List ToolCallAccumulator → Type 0
IsMap [] = Unit
IsMap (a ∷ accs) = (lookup a.index accs ≡ none) × IsMap accs

update_entry-IsMap :
    (j : ℕ) (c : String) (n a : Option String) (accs : List ToolCallAccumulator)
    → IsMap accs
    → IsMap (update_entry j (apply_delta c n a) accs)
unfolding update_entry
update_entry-IsMap j c n a [] h = (refl, tt)
update_entry-IsMap j c n a (x ∷ accs) (fresh, h) = elim (Bool-cases (x.index == j)) [
  | inl same ↦ rw same (rw index-apply_delta fresh, h)
  | inr other ↦
      rw other (
        ground (arith, lookup-update_entry x.index j c n a accs),
        update_entry-IsMap j c n a accs h,
      )
]

module _ {Json : Type 0} where
  on_events-IsMap :
      (es : List TokenEvent) (s : StreamState Json)
      → IsMap s.tool_call_accums
      → IsMap (on_events es s).tool_call_accums
  unfolding on_events on_event
  on_events-IsMap [] s h = h
  on_events-IsMap (text _ ∷ es) s h = on_events-IsMap es _ h
  on_events-IsMap (finish _ ∷ es) s h = on_events-IsMap es _ h
  on_events-IsMap (reasoning _ ∷ es) s h = on_events-IsMap es _ h
  on_events-IsMap (usage _ ∷ es) s h = on_events-IsMap es _ h
  on_events-IsMap (tool_delta j c n a ∷ es) s h =
      on_events-IsMap es _ (update_entry-IsMap j c n a s.tool_call_accums h)

-- A turn's accumulators have pairwise different indices.
pub process-IsMap :
    (Json : Type 0) {Error : Type 0} (arrivals : List (Arrival Error))
    → IsMap (process_token_stream {Json = Json} arrivals).0.tool_call_accums
unfolding process_token_stream
process-IsMap Json arrivals =
    rw (receive-on_events arrivals (start {Json = Json}))
      (on_events-IsMap (heard arrivals) start tt)
