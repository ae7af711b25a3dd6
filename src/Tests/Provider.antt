-- ===== src/Tests/Provider.antt =====
-- A history with two calls in a row, over JSON values as trees: an array and an object are chains.
use funera.Provider.Chunk.Laws.{extract_deepseek-on_events}
use funera.ReAct.Stream.{on_events, start}
use funera.Provider.Chunk.{StreamChunk, extract_deepseek}
use funera.Prelude.{
  [], ◌∷◌, ◌≡◌, none, some, refl, if◌then◌else◌, List, Option, Bool, String, ap, str_eq, push_str,
}
use funera.Dict
use funera.Provider.Request.{Values, IsLawful}
use funera.Provider.Merge.{merge, merged_msg}
use funera.Provider.Merge.Laws.{all_calls, others, IsApart, merge-all_calls}

data Tree : Type 0 where
  null end_array end_object : Tree
  bool : Bool → Tree
  text : String → Tree
  item : Tree → Tree → Tree
  entry : String → Tree → Tree → Tree

abbrev array_of : List Tree → Tree
array_of [] = end_array
array_of (x ∷ l) = item x (array_of l)

abbrev object_of : List (String × Tree) → Tree
object_of [] = end_object
object_of ((k, v) ∷ l) = entry k v (object_of l)

abbrev field_of : Tree → String → Option Tree
field_of (entry k v t) j = if str_eq k j then some v else field_of t j
field_of _ j = none

abbrev text_in : Tree → Option String
text_in (text s) = some s
text_in _ = none

abbrev consed : Tree → Option (List Tree) → Option (List Tree)
consed x none = none
consed x (some l) = some (x ∷ l)

abbrev items_of : Tree → Option (List Tree)
items_of end_array = some []
items_of (item x t) = consed x (items_of t)
items_of _ = none

abbrev values : Values Tree
values = record {
  null = null;
  bool = bool;
  string = text;
  array = array_of;
  object = object_of;
  field = field_of;
  as_str = text_in;
  as_array = items_of;
  insert = λ t k v. entry k v t;
}

field-object_of :
    (fs : List (String × Tree)) (k : String) → field_of (object_of fs) k ≡ Dict.get k fs
unfolding Dict.get
field-object_of [] k = refl
field-object_of ((j, v) ∷ fs) k = ap (λ o. if str_eq j k then some v else o) (field-object_of fs k)

items-array_of : (l : List Tree) → items_of (array_of l) ≡ some l
items-array_of [] = refl
items-array_of (x ∷ l) = ap (consed x) (items-array_of l)

values-IsLawful : IsLawful values
values-IsLawful = record {
  field-object = field-object_of;
  as_str-string = λ s. refl;
  as_array-array = items-array_of;
}

abbrev call : String → Tree
call id = object_of (("role", text "assistant") ∷ ("tool_calls", array_of (text id ∷ [])) ∷ [])

abbrev answer : Tree
answer = object_of (("role", text "tool") ∷ [])

merged :
    merge values none (call "a" ∷ call "b" ∷ answer ∷ [])
    ≡ merged_msg values (text "a" ∷ text "b" ∷ []) none ∷ answer ∷ []
unfolding merge funera.Provider.Merge.is_call funera.Provider.Merge.calls_in
    funera.Provider.Merge.other_msg
merged = refl

merge-all_calls_example :
    (all_calls values (merge values none (call "a" ∷ call "b" ∷ answer ∷ []))
      ≡ all_calls values (call "a" ∷ call "b" ∷ answer ∷ []))
    × (others values (merge values none (call "a" ∷ call "b" ∷ answer ∷ []))
        ≡ others values (call "a" ∷ call "b" ∷ answer ∷ []))
    × IsApart values (merge values none (call "a" ∷ call "b" ∷ answer ∷ []))
merge-all_calls_example = merge-all_calls values values-IsLawful (call "a" ∷ call "b" ∷ answer ∷ [])

abbrev hi : StreamChunk
hi = record {
  choices =
      record {
        delta = record { content = some "hi"; reasoning_content = some "why"; tool_calls = none };
        finish_reason = none;
      }
      ∷ [];
  usage = none;
}

extract_deepseek-on_events_example :
    ((on_events (extract_deepseek hi) (start {Json = String})).assistant_content
      ≡ push_str "" (push_str "hi" ""))
    × ((on_events (extract_deepseek hi) (start {Json = String})).reasoning_content
        ≡ push_str "" (push_str "why" ""))
    × ((on_events (extract_deepseek hi) (start {Json = String})).turn_usage ≡ none)
extract_deepseek-on_events_example = extract_deepseek-on_events hi (start {Json = String})
