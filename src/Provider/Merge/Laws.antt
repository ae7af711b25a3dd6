-- ===== src/Provider/Merge/Laws.antt =====
-- What the merge of provider/deepseek.rs keeps and what it brings about.
use funera.Prelude.{
  [], ◌∷◌, ◌≡◌, ◌++◌, ◌∙◌, ◌&&◌, true, false, none, some, refl, if◌then◌else◌, List, Option, Bool,
  String, inl, inr, Bool-cases, ap, append_assoc, get_or, is_some, arith, not,
}
use funera.Dict
use funera.Provider.Request.{Values, IsLawful}
use funera.Provider.Merge.{
  is_call, calls_in, merged_msg, other_msg, merge, tool_calls, text_of, list_of, is_assistant,
  is_cons, reasoning_in, or_else,
}

module _ {Json : Type 0} (v : Values Json) where
  -- the tool calls of all messages in order, and the messages without calls
  abbrev pub all_calls : List Json → List Json
  all_calls [] = []
  all_calls (msg ∷ msgs) =
      let rest = all_calls msgs in if is_call v msg then calls_in v msg ++ rest else rest

  abbrev pub others : List Json → List Json
  others [] = []
  others (msg ∷ msgs) = let rest = others msgs in if is_call v msg then rest else msg ∷ rest

  abbrev pub starts_with_call : List Json → Bool
  starts_with_call [] = false
  starts_with_call (msg ∷ msgs) = is_call v msg

  -- no message with calls follows another one
  abbrev pub IsApart : List Json → Type 0
  IsApart [] = Unit
  IsApart (msg ∷ msgs) = ((is_call v msg && starts_with_call msgs) ≡ false) × IsApart msgs

  -- the calls that are gathered, and the rest of a merge
  abbrev pub pending : Option (List Json × Option String) → List Json
  pending none = []
  pending (some (calls, reasoning)) = calls

  module _ (laws : IsLawful v) where
    tool_calls-merged_msg :
        (cs : List Json) (r : Option String) → tool_calls v (merged_msg v cs r) ≡ some cs
    unfolding merged_msg Dict.get
    tool_calls-merged_msg cs r =
        ap (list_of v) (laws.field-object _ "tool_calls") ∙ laws.as_array-array cs

    is_call-merged_msg : (cs : List Json) (r : Option String) → is_call v (merged_msg v cs r) ≡ true
    unfolding merged_msg is_call Dict.get
    is_call-merged_msg cs r =
        let role = ap (text_of v) (laws.field-object _ "role") ∙ laws.as_str-string "assistant" in
        ap (λ o. is_assistant v o && is_some (tool_calls v (merged_msg v cs r))) role
        ∙ ap is_some (tool_calls-merged_msg cs r)

    calls_in-merged_msg : (cs : List Json) (r : Option String) → calls_in v (merged_msg v cs r) ≡ cs
    unfolding calls_in
    calls_in-merged_msg cs r = ap (λ o. get_or o []) (tool_calls-merged_msg cs r)

    if_unset :
        (a b : Bool) (t : Option (List Json)) (x y : Json)
        → (a && is_some t) ≡ false
        → (if a && is_cons v (get_or t []) && not b then x else y) ≡ y
    if_unset true b none x y h = refl
    if_unset false b none x y h = refl
    if_unset true b (some l) x y h = cc
    if_unset false b (some l) x y h = refl

    -- the null content of the other branch is never set
    other_msg-same : (msg : Json) → is_call v msg ≡ false → other_msg v msg ≡ msg
    unfolding other_msg is_call
    other_msg-same msg h =
        if_unset (is_assistant v (text_of v (v.field msg "role"))) (is_some (v.field msg "content"))
          (tool_calls v msg) (v.insert msg "content" v.null) msg h

    merge-call :
        (msg : Json) (msgs : List Json)
        → is_call v msg ≡ true
        → merge v none (msg ∷ msgs) ≡ merge v (some (calls_in v msg, reasoning_in v msg)) msgs
    unfolding merge
    merge-call msg msgs h = rw (h, merge) refl

    merge-other :
        (msg : Json) (msgs : List Json)
        → is_call v msg ≡ false
        → merge v none (msg ∷ msgs) ≡ msg ∷ merge v none msgs
    unfolding merge
    merge-other msg msgs h = rw (h, merge) (ap (λ x. x ∷ merge v none msgs) (other_msg-same msg h))

    merge-more :
        (cs : List Json) (r : Option String) (msg : Json) (msgs : List Json)
        → is_call v msg ≡ true
        → merge v (some (cs, r)) (msg ∷ msgs)
          ≡ merge v (some (cs ++ calls_in v msg, or_else r (reasoning_in v msg))) msgs
    unfolding merge
    merge-more cs r msg msgs h = rw (h, merge) refl

    merge-end :
        (cs : List Json) (r : Option String) (msg : Json) (msgs : List Json)
        → is_call v msg ≡ false
        → merge v (some (cs, r)) (msg ∷ msgs) ≡ merged_msg v cs r ∷ msg ∷ merge v none msgs
    unfolding merge
    merge-end cs r msg msgs h =
        rw (h, merge) (ap (λ x. merged_msg v cs r ∷ x ∷ merge v none msgs) (other_msg-same msg h))

    merge-nil : merge v none [] ≡ []
    unfolding merge
    merge-nil = refl

    merge-last :
        (cs : List Json) (r : Option String) → merge v (some (cs, r)) [] ≡ merged_msg v cs r ∷ []
    unfolding merge
    merge-last cs r = refl

    all_calls-merge :
        (p : Option (List Json × Option String)) (msgs : List Json)
        → all_calls (merge v p msgs) ≡ pending p ++ all_calls msgs
    all_calls-merge none [] = (let e : merge v none [] ≡ [] = merge-nil in rw e refl)
    all_calls-merge (some (cs, r)) [] =
        rw (merge-last cs r) (rw (is_call-merged_msg cs r) (rw (calls_in-merged_msg cs r) refl))
    all_calls-merge none (msg ∷ msgs) = elim (Bool-cases (is_call v msg)) [
      | inl call ↦ rw (merge-call msg msgs call) (rw call (all_calls-merge _ msgs))
      | inr other ↦ rw (merge-other msg msgs other) (rw other (all_calls-merge none msgs))
    ]
    all_calls-merge (some (cs, r)) (msg ∷ msgs) = elim (Bool-cases (is_call v msg)) [
      | inl call ↦
          rw (merge-more cs r msg msgs call)
            (rw call (all_calls-merge _ msgs ∙ append_assoc cs (calls_in v msg) (all_calls msgs)))
      | inr other ↦ rw (merge-end cs r msg msgs other) (
          rw (is_call-merged_msg cs r) (
            rw (calls_in-merged_msg cs r)
              (rw other (ap (λ l. cs ++ l) (all_calls-merge none msgs)))))
    ]

    others-merge :
        (p : Option (List Json × Option String)) (msgs : List Json)
        → others (merge v p msgs) ≡ others msgs
    others-merge none [] = rw merge-nil refl
    others-merge (some (cs, r)) [] = rw (merge-last cs r) (rw (is_call-merged_msg cs r) refl)
    others-merge none (msg ∷ msgs) = elim (Bool-cases (is_call v msg)) [
      | inl call ↦ rw (merge-call msg msgs call) (rw call (others-merge _ msgs))
      | inr other ↦
          rw (merge-other msg msgs other) (rw other (ap (λ l. msg ∷ l) (others-merge none msgs)))
    ]
    others-merge (some (cs, r)) (msg ∷ msgs) = elim (Bool-cases (is_call v msg)) [
      | inl call ↦ rw (merge-more cs r msg msgs call) (rw call (others-merge _ msgs))
      | inr other ↦
          rw (merge-end cs r msg msgs other)
            (rw (is_call-merged_msg cs r) (rw other (ap (λ l. msg ∷ l) (others-merge none msgs))))
    ]

    merge-IsApart :
        (p : Option (List Json × Option String)) (msgs : List Json) → IsApart (merge v p msgs)
    merge-IsApart none [] = rw merge-nil tt
    merge-IsApart (some (cs, r)) [] = rw (merge-last cs r) (ground arith, tt)
    merge-IsApart none (msg ∷ msgs) = elim (Bool-cases (is_call v msg)) [
      | inl call ↦ rw (merge-call msg msgs call) (merge-IsApart _ msgs)
      | inr other ↦ rw (merge-other msg msgs other) (ground (arith, other), merge-IsApart none msgs)
    ]
    merge-IsApart (some (cs, r)) (msg ∷ msgs) = elim (Bool-cases (is_call v msg)) [
      | inl call ↦ rw (merge-more cs r msg msgs call) (merge-IsApart _ msgs)
      | inr other ↦
          rw (merge-end cs r msg msgs other)
            (ground (arith, other), (ground (arith, other), merge-IsApart none msgs))
    ]

    -- The request has the tool calls of the history, all and in order, and the messages without
    -- calls, unchanged and in order, and no two messages with calls follow each other, for JSON
    -- values that read back as what they were made of.
    pub merge-all_calls :
        (msgs : List Json)
        → (all_calls (merge v none msgs) ≡ all_calls msgs)
          × (others (merge v none msgs) ≡ others msgs)
          × IsApart (merge v none msgs)
    merge-all_calls msgs =
        (all_calls-merge none msgs, others-merge none msgs, merge-IsApart none msgs)
