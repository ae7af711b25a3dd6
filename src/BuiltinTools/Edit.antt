-- ===== src/BuiltinTools/Edit.antt =====
-- `EditTool` of funera_builtin_tools/src/edit.rs: the check of the anchors and the application of the
-- edits. A panic, built with overflow checks, is a value. `show` is the decimal print of a `usize`.
pub mod Apply
pub mod Laws
pub mod Order
pub mod Checked
pub mod Report
pub mod Execute
pub mod Atomic
pub mod Pasted
use mathlib.Core.Option
use funera.Events.{◌>>=◌, ◌>>◌}
use funera.BuiltinTools.Hashline.{compute_anchor, line_at}
use funera.Events.{Result, err, ok}
use funera.Prelude.{
  [], ◌∷◌, ◌++◌, ◌+◌, ◌-◌, ◌==◌, none, some, zero, suc, if◌then◌else◌, List, Option, ℕ, String,
  get_or, get_elem?, concat, leb, length, ltb, not, str_eq, join, push_str,
}
use funera.BuiltinTools.Str.{trim, split_once, parse_usize, count_matches}

pub data EditOp : Type 0 where
  replace append prepend replace_text : EditOp

pub record Edit : Type 0 where
  pub operation : EditOp
  pub pos : Option String
  pub end : Option String
  pub lines : List String
  pub old_text : Option String
  pub new_text : Option String

abbrev anchor_parts : String × Option String → Option (ℕ × String)
anchor_parts (line_num, none) = none
anchor_parts (line_num, some hash) = Option.map (λ n. (n, hash)) (parse_usize (trim line_num))

unfoldable pub parse_anchor : String → Option (ℕ × String)
parse_anchor anchor = anchor_parts (split_once 35 (trim anchor))

-- the sort by line, read from the end
abbrev pub rev : {A : Type 0} → List A → List A
rev [] = []
rev (x ∷ l) = rev l ++ (x ∷ [])

-- `o.ok_or_else(…)`
abbrev pub or_err : {A : Type 0} → Option A → String → Result A String
or_err none e = err e
or_err (some a) e = ok a

module _ (show : ℕ → String) (xxhash : String → ℕ) where
  unfoldable pub verify_anchor : ℕ → String → List String → Result (Unit {0}) String
  verify_anchor line_num expected_hash lines =
      let idx = line_num - 1 in
      let prev = if ltb 0 idx then line_at lines (idx - 1) else "" in
      let curr = line_at lines idx in
      let next = if ltb (idx + 1) (length lines) then line_at lines (idx + 1) else "" in
      let actual_hash = compute_anchor xxhash prev curr next in
      if leb (length lines) idx
      then err (
          concat (
            "[E_STALE_ANCHOR] line "
            ∷ show line_num
            ∷ " is beyond file length "
            ∷ show (length lines)
            ∷ []))
      else if not (str_eq actual_hash expected_hash)
      then err (
          concat (
            "[E_STALE_ANCHOR] anchor mismatch at line "
            ∷ show line_num
            ∷ ": expected hash "
            ∷ expected_hash
            ∷ ", actual hash "
            ∷ actual_hash
            ∷ []))
      else ok tt

  unfoldable pub check_end : List String → ℕ → Option String → Result (Unit {0}) String
  check_end lines line_num none = ok tt
  check_end lines line_num (some end_anchor) = do
    e ←
        or_err (parse_anchor end_anchor)
          (push_str "[E_INVALID_PATCH] invalid end anchor: " end_anchor)
    verify_anchor e.0 e.1 lines
    if ltb e.0 line_num then err "[E_INVALID_PATCH] end line before start line" else ok tt

  unfoldable pub check_anchored : List String → Edit → Result (ℕ × Edit) String
  check_anchored lines edit = do
    pos ← or_err edit.pos "[E_INVALID_PATCH] edit requires pos anchor"
    a ← or_err (parse_anchor pos) (push_str "[E_INVALID_PATCH] invalid anchor: " pos)
    verify_anchor a.0 a.1 lines
    check_end lines a.0 edit.end
    ok (a.0, edit)

  abbrev check_unique : Edit → String → ℕ → Result (ℕ × Edit) String
  check_unique edit old_text n =
      if n == 0
      then err
          (concat ("[E_STALE_ANCHOR] replace_text: \"" ∷ old_text ∷ "\" not found in file" ∷ []))
      else if ltb 1 n
      then err (
          concat (
            "[E_INVALID_PATCH] replace_text: \""
            ∷ old_text
            ∷ "\" found "
            ∷ show n
            ∷ " times, not unique"
            ∷ []))
      else ok (0, edit)

  unfoldable pub check_text : List String → Edit → Result (ℕ × Edit) String
  check_text lines edit = do
    old_text ← or_err edit.old_text "[E_INVALID_PATCH] replace_text requires oldText"
    new_text ← or_err edit.new_text "[E_INVALID_PATCH] replace_text requires newText"
    check_unique edit old_text (count_matches old_text 0 (join "\n" lines))

  unfoldable pub check_edit : List String → EditOp → Edit → Result (ℕ × Edit) String
  check_edit lines replace_text edit = check_text lines edit
  check_edit lines replace edit = check_anchored lines edit
  check_edit lines append edit = check_anchored lines edit
  check_edit lines prepend edit = check_anchored lines edit

  -- the first loop: every edit is checked against the file as it was read
  unfoldable pub check_edits : List String → List Edit → Result (List (ℕ × Edit)) String
  check_edits lines [] = ok []
  check_edits lines (edit ∷ edits) = do
    op ← check_edit lines edit.operation edit
    ops ← check_edits lines edits
    ok (op ∷ ops)
