-- ===== src/BuiltinTools/Edit/Laws.antt =====
-- What one edit of funera_builtin_tools/src/edit.rs leaves alone: the lines above it.
use funera.Prelude.{
  [], ◌∷◌, ◌≡◌, ◌++◌, ◌≤◌, ◌+◌, ◌-◌, ◌∙◌, ◌&&◌, ◌||◌, ◌==◌, true, false, none, some, refl, arith,
  zero, suc, List, Option, Bool, ℕ, String, inl, inr, is_some, leb, length, take, Bool-cases, ap,
  drop, le→leb, length-append, ltb, length-take, length-drop, &&-eq-true,
}
use funera.BuiltinTools.Edit.{Edit, EditOp, replace, append, prepend, replace_text, rev}
use funera.BuiltinTools.Edit.Apply.{
  Applied, done, failed, panicked, insert, insert_at, insert_from, splice, apply_op, replace_range,
  append_after, replace_once, end_index,
}

module _ {A : Type 0} where
  take-append : (k j : ℕ) (l r : List A) → k ≤ j → j ≤ length l → take k (take j l ++ r) ≡ take k l
  take-append zero j l r h e = refl
  take-append (suc k) zero l r h e = ground arith
  take-append (suc k) (suc j) [] r h e = ground arith
  take-append (suc k) (suc j) (x ∷ l) r h e =
      ap (λ t. x ∷ t) (take-append k j l r (omega arith) (omega arith))

  -- the first `k` elements stay, or the edit is refused; there is no panic
  abbrev pub IsBelow : ℕ → List A → Applied (List A) → Type 0
  IsBelow k l (done m) = take k m ≡ take k l
  IsBelow k l (failed e) = Unit
  IsBelow k l panicked = ⊥

  insert-length :
      (i : ℕ) (x : A) (l : List A)
      → i ≤ length l
      → length (take i l ++ x ∷ drop i l) ≡ suc (length l)
  insert-length i x l h =
      omega (arith, length-append (take i l) (x ∷ drop i l), length-take i l, length-drop i l)

  pub IsBelow-trans :
      (k : ℕ) (l m : List A) (a : Applied (List A))
      → take k m ≡ take k l
      → IsBelow k m a
      → IsBelow k l a
  IsBelow-trans k l m (done n) h e = e ∙ h
  IsBelow-trans k l m (failed s) h e = tt
  IsBelow-trans k l m panicked h e = e

  insert_at-IsBelow :
      (k i : ℕ) (xs l : List A) → k ≤ i → i ≤ length l → IsBelow k l (insert_at i xs l)
  unfolding insert_at insert
  insert_at-IsBelow k i [] l h e = refl
  insert_at-IsBelow k i (x ∷ xs) l h e = rw (le→leb i (length l) e) (
      IsBelow-trans k l (take i l ++ x ∷ drop i l) _ (take-append k i l (x ∷ drop i l) h e) (
        insert_at-IsBelow k i xs (take i l ++ x ∷ drop i l) h
          (omega (arith, e, insert-length i x l e))))

  insert_from-IsBelow :
      (k i : ℕ) (xs l : List A) → k ≤ i → i ≤ length l → IsBelow k l (insert_from i xs l)
  unfolding insert_from insert
  insert_from-IsBelow k i [] l h e = refl
  insert_from-IsBelow k i (x ∷ xs) l h e = rw (le→leb i (length l) e) (
      IsBelow-trans k l (take i l ++ x ∷ drop i l) _ (take-append k i l (x ∷ drop i l) h e) (
        insert_from-IsBelow k (i + 1) xs (take i l ++ x ∷ drop i l) (omega arith)
          (omega (arith, e, insert-length i x l e))))

-- what the check of an edit leaves to be known of it
abbrev pub is_sound : EditOp → ℕ → Edit → Bool
is_sound replace line_num edit = is_some (end_index (line_num - 1) edit.end)
is_sound append line_num edit = true
is_sound prepend line_num edit = true
is_sound replace_text line_num edit =
    (line_num == 0) && is_some edit.old_text && is_some edit.new_text

-- an edit that appends after the first line
abbrev pub is_append_first : EditOp → ℕ → Bool
is_append_first append line_num = leb line_num 1
is_append_first replace line_num = false
is_append_first prepend line_num = false
is_append_first replace_text line_num = false

splice-take :
    (k idx end_idx : ℕ) (new l : List String)
    → k ≤ idx
    → idx ≤ length l
    → take k (splice idx end_idx new l) ≡ take k l
unfolding splice
splice-take k idx end_idx new l h e = take-append k idx l (new ++ drop (end_idx + 1) l) h e

replace_range-IsBelow :
    (k idx : ℕ) (o : Option ℕ) (edit : Edit) (l : List String)
    → is_some o ≡ true
    → k ≤ idx
    → IsBelow k l (replace_range idx o edit l)
replace_range-IsBelow k idx none edit l h e = cc
replace_range-IsBelow k idx (some end_idx) edit l h e =
    elim (Bool-cases (leb (length l) end_idx || ltb end_idx idx)) [
      | inl out ↦ rw out tt
      | inr fits ↦ rw fits (
          let bounds : idx ≤ length l = ground arith in
          splice-take k idx end_idx edit.lines l e bounds)
    ]

append_after-IsBelow :
    (k idx : ℕ) (edit : Edit) (l : List String)
    → 1 ≤ idx
    → idx ≤ length l
    → k ≤ idx
    → IsBelow k l (append_after idx edit l)
append_after-IsBelow k idx edit [] h e i = ground arith
append_after-IsBelow k idx edit (x ∷ l) h e i = elim (Bool-cases (leb (length l) idx)) [
  | inl last ↦
      rw last
        (insert_at-IsBelow k (length (x ∷ l)) (rev edit.lines) (x ∷ l) (omega arith) (omega arith))
  | inr inner ↦
      rw inner (insert_at-IsBelow k (idx + 1) (rev edit.lines) (x ∷ l) (omega arith) (ground arith))
]

replace_once-IsBelow :
    (o n : Option String) (l : List String)
    → (is_some o && is_some n) ≡ true
    → IsBelow 0 l (replace_once o n l)
replace_once-IsBelow (some o) (some n) l h = refl
replace_once-IsBelow none n l h = cc
replace_once-IsBelow (some o) none l h = cc

-- An edit that is checked and anchored within the file, and that does not append after the first
-- line, changes nothing above its line and does not panic.
pub apply_op-IsBelow :
    (op : EditOp) (k line_num : ℕ) (edit : Edit) (l : List String)
    → is_sound op line_num edit ≡ true
    → is_append_first op line_num ≡ false
    → line_num - 1 ≤ length l
    → k ≤ line_num - 1
    → IsBelow k l (apply_op op line_num edit l)
unfolding apply_op
apply_op-IsBelow replace k n edit l h e i j =
    replace_range-IsBelow k (n - 1) (end_index (n - 1) edit.end) edit l h j
apply_op-IsBelow append k n edit l h e i j =
    append_after-IsBelow k (n - 1) edit l (ground arith) i j
apply_op-IsBelow prepend k n edit l h e i j = insert_from-IsBelow k (n - 1) edit.lines l j i
apply_op-IsBelow replace_text k n edit l h e i j =
    let parts = &&-eq-true ((n == 0) && is_some edit.old_text) (is_some edit.new_text) h in
    let first : n ≡ 0 = ground (arith, parts.0) in
    let none_above : k ≡ 0 = omega (arith, j, first) in
    rw none_above
      (replace_once-IsBelow edit.old_text edit.new_text l (ground (arith, parts.0, parts.1)))
