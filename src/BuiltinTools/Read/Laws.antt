-- ===== src/BuiltinTools/Read/Laws.antt =====
-- Pages of funera_builtin_tools/src/read.rs that follow each other give the whole.
use funera.Prelude.{
  ◌≡◌, ◌++◌, ◌≤◌, ◌+◌, none, some, arith, zero, suc, List, ℕ, String, length, [], ◌∷◌, ◌-◌, ◌∙◌,
  refl, ap, drop, min, take, sym,
}
use funera.BuiltinTools.Read.{slice, end_of, pos}

zero_add : (n : ℕ) → 0 + n ≡ n
zero_add n = omega arith

suc_add : (m n : ℕ) → suc m + n ≡ suc (m + n)
suc_add m n = omega arith

take-nil : {A : Type 0} (n : ℕ) → take {A = A} n [] ≡ []
take-nil zero = refl
take-nil (suc n) = refl

drop-nil : {A : Type 0} (n : ℕ) → drop {A = A} n [] ≡ []
drop-nil zero = refl
drop-nil (suc n) = refl

take-take-drop :
    {A : Type 0} (m n : ℕ) (l : List A) → take m l ++ take n (drop m l) ≡ take (m + n) l
take-take-drop zero n l = rw (zero_add n) refl
take-take-drop (suc m) n [] = take-nil n ∙ sym (take-nil (suc m + n))
take-take-drop (suc m) n (x ∷ l) = rw (suc_add m n) (ap (λ t. x ∷ t) (take-take-drop m n l))

drop-drop : {A : Type 0} (m n : ℕ) (l : List A) → drop n (drop m l) ≡ drop (m + n) l
drop-drop zero n l = rw (zero_add n) refl
drop-drop (suc m) n [] = drop-nil n ∙ sym (drop-nil (suc m + n))
drop-drop (suc m) n (x ∷ l) = rw (suc_add m n) (drop-drop m n l)

-- two pages that meet
slice-append :
    (a b c : ℕ) (l : List String) → a ≤ b → b ≤ c → slice a b l ++ slice b c l ≡ slice a c l
slice-append a b c l h e =
    let there : a + (b - a) ≡ b = omega arith in
    let whole : (b - a) + (c - b) ≡ c - a = omega arith in
    ap (λ t. take (b - a) (drop a l) ++ take (c - b) t)
      (ap (λ n. drop n l) (sym there) ∙ sym (drop-drop a (b - a) l))
    ∙ take-take-drop (b - a) (c - b) (drop a l)
    ∙ ap (λ n. take n (drop a l)) whole

-- A page of a positive limit is followed by the page at its end: together they are the lines from
-- its start on, whether the file ends within the page or not.
pub slice-end_of :
    (start limit : ℕ) (l : List String)
    → start ≤ length l
    → slice start (end_of start (length l) (some (pos (suc limit)))) l
        ++ slice (end_of start (length l) (some (pos (suc limit)))) (end_of start (length l) none) l
      ≡ slice start (length l) l
slice-end_of start limit l h =
    let last = min (start + suc limit) (length l) in
    slice-append start last (length l) l (omega arith) (omega arith)
