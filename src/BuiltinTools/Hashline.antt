-- ===== src/BuiltinTools/Hashline.antt =====
-- funera_builtin_tools/src/hashline.rs: the anchor of a line from its two neighbours and itself. The
-- hash, the crate twox-hash, is a parameter of the model.
use funera.Prelude.{[], ◌∷◌, List, ℕ, String, concat, get_or, push_str, get_elem?, ◌%◌, ◌/◌}
use funera.BuiltinTools.Str.{trim_end, without_char, pad, trim_newlines}

-- `ALPHABET`
abbrev pub alphabet : List String
alphabet =
    "Z" ∷ "P" ∷ "M" ∷ "Q" ∷ "V" ∷ "R" ∷ "W" ∷ "S" ∷ "N" ∷ "K" ∷ "T" ∷ "X" ∷ "J" ∷ "B" ∷ "Y" ∷ "H"
    ∷ []

abbrev pub normalize_line : String → String
normalize_line line = without_char 13 (trim_end line)

abbrev pub letter : ℕ → String
letter i = get_or (get_elem? alphabet i) ""

-- of a byte, the high and the low four bits
unfoldable pub hash_to_anchor : ℕ → String
hash_to_anchor hash = push_str (letter (hash / 16)) (letter (hash % 16))

-- the low byte of the 32-bit hash of the three lines, a NUL between them
unfoldable pub compute_hash : (String → ℕ) → String → String → String → ℕ
compute_hash xxhash prev curr next =
    xxhash
      (concat (normalize_line prev ∷ "\0" ∷ normalize_line curr ∷ "\0" ∷ normalize_line next ∷ []))
    % 256

unfoldable pub compute_anchor : (String → ℕ) → String → String → String → String
compute_anchor xxhash prev curr next = hash_to_anchor (compute_hash xxhash prev curr next)

-- `show` is the decimal print of a `usize`
unfoldable pub format_line_trimmed : (ℕ → String) → ℕ → String → String → String
format_line_trimmed show line_num hash content =
    concat (pad (show line_num) ∷ "#" ∷ hash ∷ ":" ∷ trim_newlines content ∷ [])

-- `lines[i]`, where the index is within
abbrev pub line_at : List String → ℕ → String
line_at lines i = get_or (get_elem? lines i) ""
