-- ===== src/BuiltinTools/Edit/Apply.antt =====
-- `apply_ops` of funera_builtin_tools/src/edit.rs: the edits that passed the check, from the last
-- line up.
use mathlib.Core.Option
use funera.BuiltinTools.Str.{replace_first, ends_with_newline}
use funera.Prelude.{
  [], ◌∷◌, ◌++◌, ◌+◌, ◌-◌, ◌||◌, none, some, if◌then◌else◌, List, Option, ℕ, String, leb,
  sort_by_key, take, drop, length, join, ltb, push_str,
}
use funera.BuiltinTools.Str.{lines}
use funera.BuiltinTools.Edit.{
  Edit, EditOp, replace, append, prepend, replace_text, parse_anchor, rev, check_edits, Result, err,
  ok,
}

-- `Ok`, `Err`, and a panic
pub data Applied {ℓ} (A : Type ℓ) : Type ℓ where
  done : A → Applied A
  failed : String → Applied A
  panicked : Applied A

abbrev pub then_on : {A B : Type 0} → Applied A → (A → Applied B) → Applied B
then_on (done a) f = f a
then_on (failed e) f = failed e
then_on panicked f = panicked

module _ {A : Type 0} where
  -- `lines.insert(i, line)`
  unfoldable pub insert : ℕ → A → List A → Applied (List A)
  insert i x l = if leb i (length l) then done (take i l ++ x ∷ drop i l) else panicked

  -- each of them at one place
  unfoldable pub insert_at : ℕ → List A → List A → Applied (List A)
  insert_at i [] l = done l
  insert_at i (x ∷ xs) l = then_on (insert i x l) (insert_at i xs)

  -- one after the other
  unfoldable pub insert_from : ℕ → List A → List A → Applied (List A)
  insert_from i [] l = done l
  insert_from i (x ∷ xs) l = then_on (insert i x l) (insert_from (i + 1) xs)

  -- `lines.splice(start..=end, new)`, which panics if `start > end + 1` or `end >= len`
  unfoldable pub splice : ℕ → ℕ → List A → List A → List A
  splice start last new l = take start l ++ (new ++ drop (last + 1) l)

abbrev pub end_index : ℕ → Option String → Option ℕ
end_index idx none = some idx
end_index idx (some anchor) = Option.map (λ a. a.0 - 1) (parse_anchor anchor)

abbrev pub replace_range : ℕ → Option ℕ → Edit → List String → Applied (List String)
replace_range idx none edit l = panicked
replace_range idx (some end_idx) edit l =
    if leb (length l) end_idx || ltb end_idx idx
    then failed "[E_INVALID_PATCH] replace range out of bounds"
    else done (splice idx end_idx edit.lines l)

-- `lines.len() - 1` underflows on an empty file
abbrev pub append_after : ℕ → Edit → List String → Applied (List String)
append_after idx edit [] = panicked
append_after idx edit (x ∷ l) =
    insert_at (if leb (length l) idx then length (x ∷ l) else idx + 1) (rev edit.lines) (x ∷ l)

abbrev pub replace_once : Option String → Option String → List String → Applied (List String)
replace_once (some old_text) (some new_text) l =
    done (lines (replace_first old_text new_text (join "\n" l)))
replace_once none new_text l = panicked
replace_once (some old_text) none l = panicked

-- one round of the second loop
unfoldable pub apply_op : EditOp → ℕ → Edit → List String → Applied (List String)
apply_op replace line_num edit l =
    replace_range (line_num - 1) (end_index (line_num - 1) edit.end) edit l
apply_op append line_num edit l = append_after (line_num - 1) edit l
apply_op prepend line_num edit l = insert_from (line_num - 1) edit.lines l
apply_op replace_text line_num edit l = replace_once edit.old_text edit.new_text l

unfoldable pub apply_all : List (ℕ × Edit) → List String → Applied (List String)
apply_all [] l = done l
apply_all ((line_num, edit) ∷ ops) l =
    then_on (apply_op edit.operation line_num edit l) (apply_all ops)

-- the ops by line, the last first
abbrev pub from_last : List (ℕ × Edit) → List (ℕ × Edit)
from_last ops = rev (sort_by_key (λ (op : ℕ × Edit). op.0) ops)

module _ (show : ℕ → String) (xxhash : String → ℕ) where
  abbrev pub apply_checked : String → Result (List (ℕ × Edit)) String → Applied String
  apply_checked content (err e) = failed e
  apply_checked content (ok ops) =
      then_on (apply_all (from_last ops) (lines content))
        λ l. done (push_str (join "\n" l) (if ends_with_newline content then "\n" else ""))

  unfoldable pub apply_ops : String → List Edit → Applied String
  apply_ops content edits = apply_checked content (check_edits show xxhash (lines content) edits)
