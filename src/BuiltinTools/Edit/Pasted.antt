-- ===== src/BuiltinTools/Edit/Pasted.antt =====
-- The scan of funera_builtin_tools/src/edit.rs for pasted lines, against the lines that
-- `format_line_trimmed` of hashline.rs writes.
use funera.Prelude.{
  [], ◌≡◌, ◌∙◌, ◌&&◌, true, some, refl, Bool, ℕ, String, inl, inr, not, push_str, cons-push_str,
  nil-push_str, &&-eq-true, ap, Bool-cases, false, ◌∷◌, ◌<◌, arith, zero, suc, List, all, get_or,
  get_elem?, length, push_str_assoc, if◌then◌else◌, Option, ltb, ◌/◌, ◌%◌,
}
use Prim.Native.Char.{Char}
use funera.BuiltinTools.Str.{
  count, cons_char, trim_start, split_once, is_char, is_whitespace, trim_newlines, pad,
}
use funera.BuiltinTools.Hashline.{
  format_line_trimmed, hash_to_anchor, alphabet, compute_anchor, compute_hash, letter,
}
use funera.BuiltinTools.Read.{anchor_at}
use funera.BuiltinTools.Edit.Report.{has_prefix, upper_two, is_ascii_uppercase, after_hash}

-- the text has no such character
unfoldable pub lacks : ℕ → String → Bool
lacks n String.[] = true
lacks n (String.◌∷◌ c s) = not (is_char n c) && lacks n s

abbrev hash_char : Char
hash_char = "#"

push_str-hash : (t : String) → push_str "#" t ≡ cons_char hash_char t
push_str-hash t = cons-push_str hash_char "" t ∙ ap (cons_char hash_char) (nil-push_str t)

not-true : (b : Bool) → not b ≡ true → b ≡ false
not-true b h = ground arith

split_once-hash :
    (s t : String) → lacks 35 s ≡ true → (split_once 35 (push_str s (push_str "#" t))).1 ≡ some t
unfolding lacks split_once
split_once-hash String.[] t h = rw nil-push_str (rw push_str-hash refl)
split_once-hash (String.◌∷◌ c s) t h =
    let p = &&-eq-true (not (is_char 35 c)) (lacks 35 s) h in
    rw cons-push_str (rw (not-true (is_char 35 c) p.0) (split_once-hash s t p.1))

split_once-trim_start :
    (s t : String)
    → lacks 35 s ≡ true
    → (split_once 35 (trim_start (push_str s (push_str "#" t)))).1 ≡ some t
unfolding lacks trim_start split_once
split_once-trim_start String.[] t h = rw nil-push_str (rw push_str-hash refl)
split_once-trim_start (String.◌∷◌ c s) t h =
    let p = &&-eq-true (not (is_char 35 c)) (lacks 35 s) h in
    elim (Bool-cases (is_whitespace c)) [
      | inl space ↦ rw cons-push_str (rw space (split_once-trim_start s t p.1))
      | inr text ↦
          rw cons-push_str (rw text (rw (not-true (is_char 35 c) p.0) (split_once-hash s t p.1)))
    ]

-- one letter of ASCII, a capital
abbrev is_capital : String → Bool
is_capital String.[] = false
is_capital (String.◌∷◌ c String.[]) = is_ascii_uppercase c
is_capital (String.◌∷◌ c (String.◌∷◌ d s)) = false

pub all-get_elem? :
    (p : String → Bool) (l : List String) (i : ℕ)
    → all p l ≡ true
    → i < length l
    → p (get_or (get_elem? l i) "") ≡ true
all-get_elem? p [] i h b = ground arith
all-get_elem? p (s ∷ l) zero h b = (&&-eq-true (p s) (all p l) h).0
all-get_elem? p (s ∷ l) (suc i) h b =
    all-get_elem? p l i (&&-eq-true (p s) (all p l) h).1 (omega arith)

letter_capital : (i : ℕ) → i < 16 → is_capital (get_or (get_elem? alphabet i) "") ≡ true
letter_capital i h = all-get_elem? is_capital alphabet i refl h

no_hash : (c : Char) → is_ascii_uppercase c ≡ true → is_char 35 c ≡ false
no_hash c h = ground arith

-- two capitals in front of a text
upper_two-capitals :
    (s t u : String)
    → is_capital s ≡ true
    → is_capital t ≡ true
    → upper_two (split_once 35 (push_str (push_str s t) u)).0 ≡ true
unfolding upper_two split_once
upper_two-capitals String.[] t u h e = ground arith
upper_two-capitals (String.◌∷◌ c (String.◌∷◌ d s)) t u h e = ground arith
upper_two-capitals (String.◌∷◌ c String.[]) String.[] u h e = ground arith
upper_two-capitals (String.◌∷◌ c String.[]) (String.◌∷◌ d (String.◌∷◌ f s)) u h e = ground arith
upper_two-capitals (String.◌∷◌ c String.[]) (String.◌∷◌ d String.[]) u h e = rw push_str_assoc (
    rw (cons-push_str c "" (push_str (String.◌∷◌ d String.[]) u)) (
      rw nil-push_str (
        rw (cons-push_str d "" u)
          (rw nil-push_str (rw (no_hash c h) (rw (no_hash d e) (rw h (rw e refl))))))))

lacks-push_str :
    (n : ℕ) (s t : String) → lacks n s ≡ true → lacks n t ≡ true → lacks n (push_str s t) ≡ true
unfolding lacks
lacks-push_str n String.[] t h e = rw nil-push_str e
lacks-push_str n (String.◌∷◌ c s) t h e =
    let p = &&-eq-true (not (is_char n c)) (lacks n s) h in
    rw cons-push_str (rw p.0 (lacks-push_str n s t p.1 e))

compute_hash-below :
    (xxhash : String → ℕ) (prev curr next : String) → compute_hash xxhash prev curr next < 256
unfolding compute_hash
compute_hash-below xxhash prev curr next = omega arith

after_hash-some :
    (p : String × Option String) (rest : String)
    → p.1 ≡ some rest
    → after_hash p ≡ upper_two (split_once 35 rest).0
after_hash-some (head, o) rest h = rw h refl

spaces-lacks : (b c : Bool) → lacks 35 (if b then "  " else if c then " " else "") ≡ true
unfolding lacks
spaces-lacks true c = refl
spaces-lacks false true = refl
spaces-lacks false false = refl

lacks-pad : (s : String) → lacks 35 s ≡ true → lacks 35 (pad s) ≡ true
lacks-pad s h =
    lacks-push_str 35 (if ltb (count s) 2 then "  " else if ltb (count s) 3 then " " else "") s
      (spaces-lacks (ltb (count s) 2) (ltb (count s) 3)) h

anchor-capitals :
    (hash : ℕ) (u : String)
    → hash < 256
    → upper_two (split_once 35 (push_str (hash_to_anchor hash) u)).0 ≡ true
unfolding hash_to_anchor
anchor-capitals hash u h =
    upper_two-capitals (letter (hash / 16)) (letter (hash % 16)) u
      (letter_capital (hash / 16) (omega arith)) (letter_capital (hash % 16) (omega arith))

-- A line as the read tool shows it, with its number and its anchor, is always taken for a pasted one, if
-- the decimal print of the number has no `#`.
pub has_prefix-format_line_trimmed :
    (show : ℕ → String) (xxhash : String → ℕ) (l : List String) (i n : ℕ) (content : String)
    → lacks 35 (show n) ≡ true
    → has_prefix (format_line_trimmed show n (anchor_at xxhash l i) content) ≡ true
unfolding has_prefix format_line_trimmed anchor_at compute_anchor
has_prefix-format_line_trimmed show xxhash l i n content h =
    let rest =
      push_str (anchor_at xxhash l i) (push_str ":" (push_str (trim_newlines content) "")) in
    after_hash-some (split_once 35 (trim_start (push_str (pad (show n)) (push_str "#" rest)))) rest
      (split_once-trim_start (pad (show n)) rest (lacks-pad (show n) h))
    ∙ anchor-capitals _ (push_str ":" (push_str (trim_newlines content) ""))
        (compute_hash-below xxhash _ _ _)
