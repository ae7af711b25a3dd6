-- ===== src/BuiltinTools/Str/Trimmed.antt =====
-- What `trim` and `split` of BuiltinTools.Str leave as it is.
use funera.Prelude.{
  ◌≡◌, ◌&&◌, true, false, some, refl, if◌then◌else◌, Bool, Bool-cases, String, inl, inr, arith,
  is_empty, push_str, cons-push_str, nil-push_str, str_eq_iff, &&-eq-true, ltb,
}
use funera.BuiltinTools.Str.{
  trim_end, trim_start, trim, is_whitespace, is_digit, is_char, split_once, count, pad,
}
use Prim.Native.Char.{Char}

-- a text that is not empty and does not end with white space
abbrev pub IsTrimmed : String → Type 0
IsTrimmed s = (trim_end s ≡ s) × (is_empty s ≡ false)

if-and_false : {A : Type 0} (b : Bool) (x y : A) → (if b && false then x else y) ≡ y
if-and_false true x y = refl
if-and_false false x y = refl

is_empty-cons : (c : Char) (s : String) → is_empty (String.◌∷◌ c s) ≡ false
is_empty-cons c s = elim (Bool-cases (is_empty (String.◌∷◌ c s))) [
  | inl empty ↦ let e : String.◌∷◌ c s ≡ "" = (str_eq_iff (String.◌∷◌ c s) "").0 empty in absurd cc
  | inr full ↦ full
]

pub push_str-IsTrimmed : (p s : String) → IsTrimmed s → IsTrimmed (push_str p s)
unfolding trim_end
push_str-IsTrimmed String.[] s h = rw (nil-push_str s) h
push_str-IsTrimmed (String.◌∷◌ c p) s h =
    let (same, full) = push_str-IsTrimmed p s h in
    rw (cons-push_str c p s) (
      rw same (rw full (if-and_false (is_whitespace c) "" (String.◌∷◌ c (push_str p s)))),
      is_empty-cons c (push_str p s),
    )

-- decimal digits only
unfoldable pub are_digits : String → Bool
are_digits String.[] = true
are_digits (String.◌∷◌ c s) = is_digit c && are_digits s

digit-text : (c : Char) → is_digit c ≡ true → is_whitespace c ≡ false
digit-text c h = ground arith

digit-no_hash : (c : Char) → is_digit c ≡ true → is_char 35 c ≡ false
digit-no_hash c h = ground arith

trim_end-digits : (s : String) → are_digits s ≡ true → trim_end s ≡ s
unfolding are_digits trim_end
trim_end-digits String.[] h = refl
trim_end-digits (String.◌∷◌ c s) h =
    let p = &&-eq-true (is_digit c) (are_digits s) h in
    rw (digit-text c p.0) (rw (trim_end-digits s p.1) refl)

trim_start-digits :
    (s t : String)
    → are_digits s ≡ true
    → is_empty s ≡ false
    → trim_start (push_str s t) ≡ push_str s t
unfolding are_digits trim_start
trim_start-digits String.[] t h e = absurd cc
trim_start-digits (String.◌∷◌ c s) t h e =
    let p = &&-eq-true (is_digit c) (are_digits s) h in
    rw (cons-push_str c s t) (rw (digit-text c p.0) refl)

pub trim-digits : (s : String) → are_digits s ≡ true → trim s ≡ s
unfolding are_digits trim_start
trim-digits String.[] h = trim_end-digits "" h
trim-digits (String.◌∷◌ c s) h =
    let p = &&-eq-true (is_digit c) (are_digits s) h in
    rw (digit-text c p.0) (trim_end-digits (String.◌∷◌ c s) h)

pub split_once-digits :
    (s t : String) → are_digits s ≡ true → split_once 35 (push_str s (push_str "#" t)) ≡ (s, some t)
unfolding are_digits split_once
split_once-digits String.[] t h =
    rw (nil-push_str (push_str "#" t)) (rw (cons-push_str "#" "" t) (rw (nil-push_str t) refl))
split_once-digits (String.◌∷◌ c s) t h =
    let p = &&-eq-true (is_digit c) (are_digits s) h in
    rw (cons-push_str c s (push_str "#" t))
      (rw (digit-no_hash c p.0) (rw (split_once-digits s t p.1) refl))

-- the padding in front of a number goes
pub trim_start-pad :
    (s t : String)
    → are_digits s ≡ true
    → is_empty s ≡ false
    → trim_start (push_str (pad s) t) ≡ push_str s t
unfolding trim_start
trim_start-pad s t h e = by_width (ltb (count s) 2) (ltb (count s) 3)
  where
    here : trim_start (push_str s t) ≡ push_str s t
    here = trim_start-digits s t h e

    by_width :
        (b c : Bool)
        → trim_start (push_str (push_str (if b then "  " else if c then " " else "") s) t)
          ≡ push_str s t
    by_width true c = rw (cons-push_str " " " " s) (
        rw (cons-push_str " " (push_str " " s) t) (
          rw (cons-push_str " " "" s)
            (rw (cons-push_str " " (push_str "" s) t) (rw (nil-push_str s) here))))
    by_width false true =
        rw (cons-push_str " " "" s)
          (rw (cons-push_str " " (push_str "" s) t) (rw (nil-push_str s) here))
    by_width false false = rw (nil-push_str s) here
