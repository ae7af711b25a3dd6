-- ===== src/BuiltinTools/Edit/Report.antt =====
-- Of `EditTool` in funera_builtin_tools/src/edit.rs: the scan for lines that were pasted with their
-- anchors, and `build_result_anchors`.
use funera.BuiltinTools.Str.{trim_start}
use funera.Prelude.{
  ltb, [], ◌∷◌, ◌+◌, ◌-◌, ◌&&◌, false, none, some, zero, suc, List, Option, Bool, ℕ, String, any,
  get_or, leb, min, push_str, length, max, concat, if◌then◌else◌,
}
use mathlib.Core.Option
use funera.BuiltinTools.Str.{lines, trim_start, split_once}
use funera.BuiltinTools.Hashline.{compute_anchor, format_line_trimmed, line_at}
use funera.BuiltinTools.Edit.{Edit, parse_anchor, split_once}
use Prim.Native.Char.{Char, code}

abbrev pub is_ascii_uppercase : Char → Bool
is_ascii_uppercase c = leb 65 (code c) && leb (code c) 90

-- two characters, which take two bytes at least; a first one that is no letter of ASCII ends the test
unfoldable pub upper_two : String → Bool
upper_two String.[] = false
upper_two (String.◌∷◌ c String.[]) = false
upper_two (String.◌∷◌ c (String.◌∷◌ d s)) = is_ascii_uppercase c && is_ascii_uppercase d

-- `parts[1]`, up to the next `#`
abbrev pub after_hash : String × Option String → Bool
after_hash (head, none) = false
after_hash (head, some rest) = upper_two (split_once 35 rest).0

unfoldable pub has_prefix : String → Bool
has_prefix line = after_hash (split_once 35 (trim_start line))

unfoldable pub any_prefix : List Edit → Bool
any_prefix edits = any (λ (edit : Edit). any has_prefix edit.lines) edits

-- the lines from `pos` to `end`, and the range that takes them in
abbrev widen : ℕ → ℕ → Option (ℕ × ℕ) → ℕ × ℕ
widen first last none = (first, last)
widen first last (some (a, b)) = (min a first, max b last)

abbrev line_of : Option String → Option ℕ
line_of none = none
line_of (some anchor) = Option.map (λ (a : ℕ × String). a.0) (parse_anchor anchor)

abbrev affected_by : Option ℕ → Option ℕ → Option (ℕ × ℕ) → Option (ℕ × ℕ)
affected_by none end range = range
affected_by (some line_num) end range = some (widen line_num (get_or end line_num) range)

unfoldable pub affected_range : List Edit → Option (ℕ × ℕ) → Option (ℕ × ℕ)
affected_range [] range = range
affected_range (edit ∷ edits) range =
    affected_range edits (affected_by (line_of edit.pos) (line_of edit.end) range)

module _ (show : ℕ → String) (xxhash : String → ℕ) where
  -- so many lines from an index on, each with its anchor
  unfoldable pub anchor_lines : List String → ℕ → ℕ → String
  anchor_lines l i zero = ""
  anchor_lines l i (suc n) =
      let rest = anchor_lines l (i + 1) n in
      let prev = if ltb 0 i then line_at l (i - 1) else "" in
      let curr = line_at l i in
      let next = if ltb (i + 1) (length l) then line_at l (i + 1) else "" in
      let anchor = compute_anchor xxhash prev curr next in
      push_str (format_line_trimmed show (i + 1) anchor curr) (push_str "\n" rest)

  -- the sum has no overflow, but for an anchor of the largest `usize` that no check has seen
  unfoldable pub build_result_anchors : String → List Edit → String
  build_result_anchors new_content edits =
      let new_lines = lines new_content in
      let range = get_or (affected_range edits none) (1, length new_lines) in
      let context_start = range.0 - 2 in
      let context_end = min (range.1 + 1) (length new_lines) in
      concat (
        "--- Anchors A-B ---\n"
        ∷ "line#hash:content\n"
        ∷ anchor_lines new_lines context_start (context_end - context_start)
        ∷ [])
