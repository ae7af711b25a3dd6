-- ===== src/BuiltinTools/Read/Anchors.antt =====
-- What funera_builtin_tools/src/read.rs shows of a file, against the anchors that edit.rs takes.
use funera.Prelude.{
  ◌≡◌, ◌∙◌, ◌≤◌, ◌<◌, ◌+◌, ◌-◌, ◌&&◌, true, false, some, refl, arith, zero, suc, List, ℕ, Bool,
  String, length, All, all, not, ap, sym, leb, push_str, is_empty, str_eq, str_eq_refl, str_eq_iff,
  &&-eq-true, push_str_assoc, push_str-nil, ◌%◌,
}
use funera.BuiltinTools.Str.{trim, trim_end, trim_newlines, parse_usize, pad}
use funera.BuiltinTools.Str.Trimmed.{
  IsTrimmed, push_str-IsTrimmed, are_digits, trim-digits, split_once-digits, trim_start-pad,
}
use funera.BuiltinTools.Hashline.{
  alphabet, letter, line_at, hash_to_anchor, compute_hash, compute_anchor, format_line_trimmed,
}
use funera.BuiltinTools.Read.{anchor_at, anchors, tagged, show_lines}
use funera.BuiltinTools.Edit.{parse_anchor, verify_anchor}
use funera.BuiltinTools.Edit.Pasted.{all-get_elem?}
use funera.Events.{ok}

-- what the print of a number is relied on for: digits, from which the number is parsed
pub record IsDecimal (show : ℕ → String) (n : ℕ) : Type 0 where
  pub digits : are_digits (show n) ≡ true
  pub full : is_empty (show n) ≡ false
  pub parsed : parse_usize (show n) ≡ some n

abbrev is_trimmed : String → Bool
is_trimmed s = str_eq (trim_end s) s && not (is_empty s)

letters_trimmed : all is_trimmed alphabet ≡ true
unfolding trim_end
letters_trimmed = refl

not-true : (b : Bool) → not b ≡ true → b ≡ false
not-true b h = ground arith

letter-IsTrimmed : (i : ℕ) → i < 16 → IsTrimmed (letter i)
letter-IsTrimmed i h =
    let both =
      &&-eq-true (str_eq (trim_end (letter i)) (letter i)) (not (is_empty (letter i)))
        (all-get_elem? is_trimmed alphabet i letters_trimmed h) in
    ((str_eq_iff (trim_end (letter i)) (letter i)).0 both.0, not-true (is_empty (letter i)) both.1)

compute_anchor-IsTrimmed :
    (xxhash : String → ℕ) (prev curr next : String)
    → IsTrimmed (compute_anchor xxhash prev curr next)
unfolding compute_anchor hash_to_anchor compute_hash
compute_anchor-IsTrimmed xxhash prev curr next =
    push_str-IsTrimmed _ _
      (letter-IsTrimmed (compute_hash xxhash prev curr next % 16) (omega arith))

anchor_at-IsTrimmed :
    (xxhash : String → ℕ) (l : List String) (i : ℕ) → IsTrimmed (anchor_at xxhash l i)
unfolding anchor_at
anchor_at-IsTrimmed xxhash l i = compute_anchor-IsTrimmed xxhash _ _ _

-- the text in front of the colon
abbrev pub reference : (ℕ → String) → ℕ → String → String
reference show n hash = push_str (pad (show n)) (push_str "#" hash)

parse_anchor-reference :
    (show : ℕ → String) (n : ℕ) (hash : String)
    → IsDecimal show n
    → IsTrimmed hash
    → parse_anchor (reference show n hash) ≡ some (n, hash)
unfolding parse_anchor
parse_anchor-reference show n hash d h =
    let kept = push_str-IsTrimmed (show n) (push_str "#" hash) (push_str-IsTrimmed "#" hash h) in
    let trimmed : trim (reference show n hash) ≡ push_str (show n) (push_str "#" hash) =
      ap trim_end (trim_start-pad (show n) (push_str "#" hash) d.digits d.full) ∙ kept.0 in
    rw trimmed (
      rw (split_once-digits (show n) hash d.digits)
        (rw (trim-digits (show n) d.digits) (rw d.parsed refl)))

format_line_trimmed-reference :
    (show : ℕ → String) (n : ℕ) (hash content : String)
    → format_line_trimmed show n hash content
      ≡ push_str (reference show n hash) (push_str ":" (trim_newlines content))
unfolding format_line_trimmed
format_line_trimmed-reference show n hash content =
    let rest = push_str ":" (trim_newlines content) in
    rw (push_str-nil (trim_newlines content)) (
      sym (
        push_str_assoc (pad (show n)) (push_str "#" hash) rest
        ∙ ap (push_str (pad (show n))) (push_str_assoc "#" hash rest)))

module _ (show : ℕ → String) (xxhash : String → ℕ) where
  -- a line that is shown has a reference in front, which the edit tool parses and accepts
  pub record IsAccepted (l : List String) (shown : ℕ × String × String) : Type 0 where
    pub text : String
    pub front :
        format_line_trimmed show shown.0 shown.1 shown.2
        ≡ push_str text (push_str ":" (trim_newlines shown.2))
    pub line_num : ℕ
    pub hash : String
    pub parsed : parse_anchor text ≡ some (line_num, hash)
    pub accepted : verify_anchor show xxhash line_num hash l ≡ ok tt
    pub right : shown.2 ≡ line_at l (line_num - 1)

  verify_anchor-anchor_at :
      (l : List String) (i : ℕ)
      → i < length l
      → verify_anchor show xxhash (i + 1) (anchor_at xxhash l i) l ≡ ok tt
  unfolding verify_anchor anchor_at
  verify_anchor-anchor_at l i h =
      let e : i + 1 - 1 ≡ i = omega arith in
      let within : leb (length l) i ≡ false = ground arith in
      rw e (rw within (rw (str_eq_refl (anchor_at xxhash l i)) refl))

  anchors-IsAccepted :
      (l : List String) (i n : ℕ)
      → ((k : ℕ) → k ≤ length l → IsDecimal show k)
      → i + n ≤ length l
      → All (IsAccepted l) (anchors show xxhash l i n)
  unfolding anchors
  anchors-IsAccepted l i zero d h = tt
  anchors-IsAccepted l i (suc n) d h =
      let hash = anchor_at xxhash l i in
      let e : i + 1 - 1 ≡ i = omega arith in
      (
        record {
          text = reference show (i + 1) hash;
          front = format_line_trimmed-reference show (i + 1) hash (line_at l i);
          line_num = i + 1;
          hash = hash;
          parsed =
              parse_anchor-reference show (i + 1) hash (d (i + 1) (omega (arith, h)))
                (anchor_at-IsTrimmed xxhash l i);
          accepted = verify_anchor-anchor_at l i (omega (arith, h));
          right = rw e refl;
        },
        anchors-IsAccepted l (i + 1) n d (omega (arith, h)),
      )

  -- A page that is not raw is, less the white space at its end, its lines one after another, and every
  -- line has a reference in front of its colon that the edit tool parses and accepts on the same file,
  -- for the very line that is shown, if the print of the numbers is decimal and is parsed back.
  pub show_lines-verify_anchor :
      (l : List String) (start last : ℕ)
      → ((k : ℕ) → k ≤ length l → IsDecimal show k)
      → start < last
      → last ≤ length l
      → (show_lines show xxhash false l start last
          ≡ trim_end (tagged show xxhash (anchors show xxhash l start (last - start))))
        × All (IsAccepted l) (anchors show xxhash l start (last - start))
  unfolding show_lines
  show_lines-verify_anchor l start last d h e =
      let within : leb (length l) start ≡ false = ground arith in
      (rw within refl, anchors-IsAccepted l start (last - start) d (omega (arith, h, e)))
