-- ===== src/BuiltinTools/Read.antt =====
-- `ReadTool` of funera_builtin_tools/src/read.rs. The file system is a parameter of the model, with
-- the text of its errors.
pub mod Laws
pub mod Anchors
use funera.Tool.Error.{ToolCallError, parameter_mismatch, tool_execution_error}
use funera.Json.{JsonOps}
use funera.BuiltinTools.Hashline.{compute_anchor, format_line_trimmed, line_at}
use funera.Events.{Result, err, ok}
use funera.Prelude.{
  ltb, ℤ, pos, negsuc, [], ◌∷◌, ◌+◌, ◌-◌, false, none, some, zero, suc, if◌then◌else◌, List, Option,
  Bool, ℕ, String, is_empty, leb, max, min, push_str, take, drop, length, join, get_or,
}
use funera.BuiltinTools.Str.{lines, sort_texts, trim_end}

pub record Files (Json : Type 0) : Type 0 where
  -- `v.get(key).and_then(|v| v.as_i64())`, an `i64`
  pub get_i64 : Json → String → Option ℤ
  pub is_dir : String → Bool
  -- the names of the entries, in the order of the directory
  pub read_dir : String → Result (List String) String
  pub read_to_string : String → Result String String

-- `.unwrap_or(1).max(1) as usize`
abbrev pub first_line : Option ℤ → ℕ
first_line none = 1
first_line (some (negsuc n)) = 1
first_line (some (pos n)) = max n 1

-- `Some(l) if l > 0 => (start + l as usize).min(total_lines)`
abbrev pub end_of : ℕ → ℕ → Option ℤ → ℕ
end_of start total none = total
end_of start total (some (negsuc n)) = total
end_of start total (some (pos zero)) = total
end_of start total (some (pos (suc n))) = min (start + suc n) total

-- `lines[start..end]`
abbrev pub slice : ℕ → ℕ → List String → List String
slice start last l = take (last - start) (drop start l)

-- of the line with an index, from its neighbours and itself
unfoldable pub anchor_at : (String → ℕ) → List String → ℕ → String
anchor_at xxhash lines i =
    let prev = if ltb 0 i then line_at lines (i - 1) else "" in
    let curr = line_at lines i in
    let next = if ltb (i + 1) (length lines) then line_at lines (i + 1) else "" in
    compute_anchor xxhash prev curr next

module _ (show : ℕ → String) (xxhash : String → ℕ) where
  -- the numbers and anchors of so many lines from an index on
  unfoldable pub anchors : List String → ℕ → ℕ → List (ℕ × String × String)
  anchors l i zero = []
  anchors l i (suc n) = (i + 1, anchor_at xxhash l i, line_at l i) ∷ anchors l (i + 1) n

  abbrev pub tagged : List (ℕ × String × String) → String
  tagged [] = ""
  tagged ((n, hash, line) ∷ l) =
      push_str (push_str (format_line_trimmed show n hash line) "\n") (tagged l)

  unfoldable pub show_lines : Bool → List String → ℕ → ℕ → String
  show_lines raw l start last =
      if leb (length l) start
      then "(offset beyond end of file)"
      else if raw
      then join "\n" (slice start last l)
      else trim_end (tagged (anchors l start (last - start)))

  unfoldable pub show_content : Bool → ℕ → Option ℤ → String → String
  show_content raw offset limit content =
      if is_empty content
      then "(empty file — use prepend/append)"
      else show_lines raw (lines content) (offset - 1)
          (end_of (offset - 1) (length (lines content)) limit)

  module _ {Json : Type 0} (json : JsonOps Json) (files : Files Json) where
    abbrev mismatch : String → ToolCallError Json
    mismatch text = parameter_mismatch (json.object (("error", json.string text) ∷ []))

    abbrev listing : Result (List String) String → Result String (ToolCallError Json)
    listing (err e) = err (tool_execution_error (push_str "cannot read directory: " e))
    listing (ok entries) = ok (join "\n" (sort_texts entries))

    abbrev contents : Json → Result String String → Result String (ToolCallError Json)
    contents args (err e) = err (tool_execution_error (push_str "cannot read file: " e))
    contents args (ok content) = ok (
        show_content (get_or (json.get_bool args "raw") false)
          (first_line (files.get_i64 args "offset")) (files.get_i64 args "limit") content)

    abbrev read_path : Json → Option String → Result String (ToolCallError Json)
    read_path args none = err (mismatch "missing filePath")
    read_path args (some path) =
        if files.is_dir path
        then listing (files.read_dir path)
        else contents args (files.read_to_string path)

    unfoldable pub execute : Json → Result String (ToolCallError Json)
    execute args = read_path args (json.get_str args "filePath")
