-- ===== src/BuiltinTools/Str.antt =====
-- What the built-in tools use of Rust's `str`: `lines`, `trim`, `matches`, `replacen` and the parse of
-- a `usize`, over the characters of a text.
pub mod Trimmed
use Prim.Native.Nat.{Ordering}
use funera.Prelude.{
  [], ◌∷◌, ◌+◌, ◌-◌, ◌*◌, ◌&&◌, ◌||◌, ◌==◌, false, none, some, zero, suc, if◌then◌else◌, List,
  Option, Bool, ℕ, String, is_empty, leb, ltb, starts_with, push_str, ◌^◌, true,
}
use Prim.Native.String
use Prim.Native.Char.{Char, code}

abbrev pub cons_char : Char → String → String
cons_char c s = String.◌∷◌ c s

abbrev pub is_char : ℕ → Char → Bool
is_char n c = code c == n

-- a character goes to the front of the first line
abbrev onto_first : Char → List String → List String
onto_first c [] = cons_char c "" ∷ []
onto_first c (l ∷ ls) = cons_char c l ∷ ls

-- `s.lines()`: a line ends with `\n` or `\r\n`, and no line follows the last `\n`
unfoldable pub lines : String → List String
lines String.[] = []
lines (String.◌∷◌ c s) =
    let rest = lines s in
    if is_char 10 c
    then "" ∷ rest
    else if is_char 13 c && starts_with s "\n"
    then rest
    else onto_first c rest

-- Unicode's `White_Space`
abbrev pub is_whitespace : Char → Bool
is_whitespace c =
    let n = code c in
    (leb 9 n && leb n 13)
    || n == 32
    || n == 133
    || n == 160
    || n == 5760
    || (leb 8192 n && leb n 8202)
    || n == 8232
    || n == 8233
    || n == 8239
    || n == 8287
    || n == 12288

unfoldable pub trim_start : String → String
trim_start String.[] = ""
trim_start (String.◌∷◌ c s) =
    let rest = trim_start s in if is_whitespace c then rest else cons_char c s

unfoldable pub trim_end : String → String
trim_end String.[] = ""
trim_end (String.◌∷◌ c s) =
    let rest = trim_end s in if is_whitespace c && is_empty rest then "" else cons_char c rest

abbrev pub trim : String → String
trim s = trim_end (trim_start s)

-- `s.replace(c, "")`
unfoldable pub without_char : ℕ → String → String
without_char n String.[] = ""
without_char n (String.◌∷◌ c s) =
    let rest = without_char n s in if is_char n c then rest else cons_char c rest

-- `s.splitn(2, c)`: the text before the first `c`, and what follows it if there is one
unfoldable pub split_once : ℕ → String → String × Option String
split_once n String.[] = ("", none)
split_once n (String.◌∷◌ c s) =
    let (before, after) = split_once n s in
    if is_char n c then ("", some s) else (cons_char c before, after)

abbrev pub is_digit : Char → Bool
is_digit c = leb 48 (code c) && leb (code c) 57

-- the digits that follow, below 2 ^ 64
unfoldable pub parse_digits : ℕ → String → Option ℕ
parse_digits n String.[] = some n
parse_digits n (String.◌∷◌ c s) =
    let m = n * 10 + (code c - 48) in
    let rest = parse_digits m s in if is_digit c && ltb m (2 ^ 64) then rest else none

abbrev nonempty_digits : String → Option ℕ
nonempty_digits String.[] = none
nonempty_digits (String.◌∷◌ c s) = parse_digits 0 (cons_char c s)

-- `s.parse::<usize>().ok()`
unfoldable pub parse_usize : String → Option ℕ
parse_usize String.[] = none
parse_usize (String.◌∷◌ c s) =
    if is_char 43 c then nonempty_digits s else nonempty_digits (cons_char c s)

abbrev pub count : String → ℕ
count String.[] = 0
count (String.◌∷◌ c s) = suc (count s)

-- `s.matches(pattern).count()`, where the next `skip` characters belong to the last match
unfoldable pub count_matches : String → ℕ → String → ℕ
count_matches pattern skip String.[] = if skip == 0 && is_empty pattern then 1 else 0
count_matches pattern skip (String.◌∷◌ c s) =
    let next = count_matches pattern (count pattern - 1) s in
    let later = count_matches pattern (skip - 1) s in
    if skip == 0 && starts_with (cons_char c s) pattern then suc next else later

abbrev drop_chars : ℕ → String → String
drop_chars zero s = s
drop_chars (suc n) String.[] = ""
drop_chars (suc n) (String.◌∷◌ c s) = drop_chars n s

-- `s.replacen(pattern, new, 1)`
unfoldable pub replace_first : String → String → String → String
replace_first pattern new String.[] = if is_empty pattern then new else ""
replace_first pattern new (String.◌∷◌ c s) =
    let later = replace_first pattern new s in
    if starts_with (cons_char c s) pattern
    then push_str new (drop_chars (count pattern) (cons_char c s))
    else cons_char c later

-- `s.ends_with('\n')`
unfoldable pub ends_with_newline : String → Bool
ends_with_newline String.[] = false
ends_with_newline (String.◌∷◌ c s) =
    let rest = ends_with_newline s in if is_empty s then is_char 10 c else rest

-- `format!("{:3}", n)` of a number in decimal
abbrev pub pad : String → String
pad s = push_str (if ltb (count s) 2 then "  " else if ltb (count s) 3 then " " else "") s

-- `s.trim_end_matches('\n')`
unfoldable pub trim_newlines : String → String
trim_newlines String.[] = ""
trim_newlines (String.◌∷◌ c s) =
    let rest = trim_newlines s in if is_char 10 c && is_empty rest then "" else cons_char c rest

abbrev is_le : String → String → Bool
is_le s t = elim (String.compare s t) [ Ordering.gt ↦ false | _ ↦ true ]

unfoldable pub insert_text : String → List String → List String
insert_text s [] = s ∷ []
insert_text s (t ∷ l) = let rest = insert_text s l in if is_le s t then s ∷ t ∷ l else t ∷ rest

-- `entries.sort()`
abbrev pub sort_texts : List String → List String
sort_texts [] = []
sort_texts (s ∷ l) = insert_text s (sort_texts l)
