-- ===== src/BuiltinTools/Edit/Order.antt =====
-- Why `apply_ops` of funera_builtin_tools/src/edit.rs works from the last line up: the lines that the
-- edits to come are anchored to are still where the check found them.
use funera.Prelude.{
  [], ◌∷◌, ◌≡◌, ◌++◌, ◌≤◌, ◌-◌, true, false, refl, arith, List, ℕ, String, All, IsSorted, length,
  sort_by_key, take, All-append, length-take, sort_by_key-IsSorted, ap,
}
use funera.BuiltinTools.Edit.{Edit, rev}
use funera.BuiltinTools.Edit.Apply.{
  Applied, done, failed, panicked, then_on, apply_op, apply_all, from_last,
}
use funera.BuiltinTools.Edit.Laws.{
  IsBelow, IsBelow-trans, apply_op-IsBelow, is_sound, is_append_first,
}

abbrev Op : Type 0
Op = ℕ × Edit

-- each edit is above those before it
abbrev pub IsDescending : List Op → Type 0
IsDescending [] = Unit
IsDescending (op ∷ ops) = All (λ (o : Op). o.0 ≤ op.0) ops × IsDescending ops

pub All-rev : (P : Op → Type 0) (l : List Op) → All P l → All P (rev l)
All-rev P [] h = tt
All-rev P (x ∷ l) (p, h) = All-append P (rev l) (x ∷ []) (All-rev P l h) (p, tt)

IsDescending-append :
    (l : List Op) (x : Op)
    → IsDescending l
    → All (λ (o : Op). x.0 ≤ o.0) l
    → IsDescending (l ++ x ∷ [])
IsDescending-append [] x h e = (tt, tt)
IsDescending-append (y ∷ l) x (p, h) (q, e) =
    (All-append (λ (o : Op). o.0 ≤ y.0) l (x ∷ []) p (q, tt), IsDescending-append l x h e)

rev-IsDescending : (l : List Op) → IsSorted (λ (o : Op). o.0) l → IsDescending (rev l)
rev-IsDescending [] h = tt
rev-IsDescending (x ∷ l) (p, h) =
    IsDescending-append (rev l) x (rev-IsDescending l h) (All-rev (λ (o : Op). x.0 ≤ o.0) l p)

pub from_last-IsDescending : (ops : List Op) → IsDescending (from_last ops)
from_last-IsDescending ops =
    rev-IsDescending (sort_by_key (λ (o : Op). o.0) ops)
      (sort_by_key-IsSorted (λ (o : Op). o.0) ops)

-- anchored at a line below the first `k` and within the file, checked, and no append after the first
abbrev pub IsReady : ℕ → List String → Op → Type 0
IsReady k l op =
    (k ≤ op.0 - 1)
    × (op.0 - 1 ≤ length l)
    × (is_sound op.1.operation op.0 op.1 ≡ true)
    × (is_append_first op.1.operation op.0 ≡ false)

length-of_take : (k : ℕ) (l m : List String) → k ≤ length l → take k m ≡ take k l → k ≤ length m
length-of_take k l m h e = omega (arith, h, length-take k l, length-take k m, ap length e)

IsReady-after :
    (k : ℕ) (l m : List String) (line_num : ℕ) (ops : List Op)
    → line_num - 1 ≤ length m
    → All (λ (o : Op). o.0 ≤ line_num) ops
    → All (IsReady k l) ops
    → All (IsReady k m) ops
IsReady-after k l m line_num [] h e i = tt
IsReady-after k l m line_num (op ∷ ops) h (p, e) ((q, r, s, t), i) =
    ((q, omega (arith, h, p), s, t), IsReady-after k l m line_num ops h e i)

then_on-IsBelow :
    (k n : ℕ) (l : List String) (a : Applied (List String))
    (f : List String → Applied (List String))
    → k ≤ n
    → IsBelow n l a
    → IsBelow k l a
    → ((m : List String) → take n m ≡ take n l → IsBelow k m (f m))
    → IsBelow k l (then_on a f)
then_on-IsBelow k n l (done m) f h e g i = IsBelow-trans k l m (f m) g (i m e)
then_on-IsBelow k n l (failed s) f h e g i = tt
then_on-IsBelow k n l panicked f h e g i = e

-- edits from the last line up keep the lines above all of them
pub apply_all-IsBelow :
    (k : ℕ) (ops : List Op) (l : List String)
    → IsDescending ops
    → All (IsReady k l) ops
    → IsBelow k l (apply_all ops l)
unfolding apply_all
apply_all-IsBelow k [] l h e = refl
apply_all-IsBelow k ((n, edit) ∷ ops) l (p, h) ((q, r, s, t), e) =
    then_on-IsBelow k (n - 1) l (apply_op edit.operation n edit l) (apply_all ops) q
      (apply_op-IsBelow edit.operation (n - 1) n edit l s t r (omega arith))
      (apply_op-IsBelow edit.operation k n edit l s t r q)
      λ m kept.
        apply_all-IsBelow k ops m h
          (IsReady-after k l m n ops (length-of_take (n - 1) l m r kept) p e)
