-- ===== src/BuiltinTools/Edit/Checked.antt =====
-- What the first loop of `apply_ops` in funera_builtin_tools/src/edit.rs makes sure of, and what the
-- whole of it keeps.
use funera.Events.{ok_inj}
use mathlib.Core.Path.{subst}
use mathlib.Core.Option
use funera.Prelude.{
  ◌≡◌, ◌≤◌, ◌<◌, ◌-◌, ◌&&◌, true, none, some, refl, arith, List, Option, ℕ, String, length, is_some,
  leb, false, if◌then◌else◌, Bool, ◌==◌, ap, join, ltb, sym, [], ◌∷◌, &&-eq-true, all, not, All,
  leb→le, sort_by_key, All-sort_by_key,
}
use funera.BuiltinTools.Edit.{
  Edit, EditOp, replace, append, prepend, replace_text, verify_anchor, check_end, check_anchored,
  check_text, check_edit, check_edits, or_err, parse_anchor, Result, ok, ◌>>=◌, err, count_matches,
}
use funera.BuiltinTools.Edit.Apply.{apply_all, from_last, end_index}
use funera.BuiltinTools.Edit.Laws.{IsBelow, is_sound, is_append_first}
use funera.BuiltinTools.Edit.Order.{IsReady, apply_all-IsBelow, from_last-IsDescending, All-rev}

>>=-ok :
    {A B E : Type 0} (m : Result A E) (f : A → Result B E) (b : B)
    → (m >>= f) ≡ ok b
    → (a : A) × (m ≡ ok a) × (f a ≡ ok b)
>>=-ok (ok a) f b h = (a, refl, h)
>>=-ok (err e) f b h = cc

or_err-ok : {A : Type 0} (o : Option A) (e : String) (a : A) → or_err o e ≡ ok a → o ≡ some a
or_err-ok none e a h = cc
or_err-ok (some b) e a h = cc

passed :
    {A : Type 0} (b : Bool) (e : String) (m : Result A String) {a : A}
    → (if b then err e else m) ≡ ok a
    → b ≡ false
passed true e m h = cc
passed false e m h = refl

is_some-map :
    {A B : Type 0} (f : A → B) (o : Option A) (a : A) → o ≡ some a → is_some (Option.map f o) ≡ true
is_some-map f none a h = cc
is_some-map f (some b) a h = refl

unique_ok :
    {A : Type 0} (a b : Bool) (e f : String) (v w : A)
    → Path (Result A String) (if a then err e else if b then err f else ok v) (ok w)
    → v ≡ w
unique_ok true b e f v w h = cc
unique_ok false true e f v w h = cc
unique_ok false false e f v w h = ok_inj h

both_there :
    (o n : Option String) (a b : String) → o ≡ some a → n ≡ some b → (is_some o && is_some n) ≡ true
both_there o n a b h e = rw h (rw e refl)

module _ (show : ℕ → String) (xxhash : String → ℕ) where
  verify_anchor-length :
      (n : ℕ) (hash : String) (l : List String)
      → verify_anchor show xxhash n hash l ≡ ok tt
      → n - 1 < length l
  unfolding verify_anchor
  verify_anchor-length n hash l h =
      let within = passed (leb (length l) (n - 1)) _ _ h in ground arith

  check_end-ok :
      (l : List String) (n m : ℕ) (o : Option String)
      → check_end show xxhash l n o ≡ ok tt
      → is_some (end_index m o) ≡ true
  unfolding check_end
  check_end-ok l n m none h = refl
  check_end-ok l n m (some anchor) h =
      let (a, e, _) = >>=-ok (or_err (parse_anchor anchor) _) _ tt h in
      is_some-map (λ (p : ℕ × String). p.0 - 1) (parse_anchor anchor) a
        (or_err-ok (parse_anchor anchor) _ a e)

  check_text-ok :
      (l : List String) (edit : Edit) (op : ℕ × Edit)
      → check_text show xxhash l edit ≡ ok op
      → (op.1 ≡ edit) × (op.0 ≡ 0) × ((is_some edit.old_text && is_some edit.new_text) ≡ true)
  unfolding check_text
  check_text-ok l edit op h =
      let (old, e, i) = >>=-ok (or_err edit.old_text _) _ op h in
      let (new, f, j) = >>=-ok (or_err edit.new_text _) _ op i in
      let v =
        unique_ok (count_matches old 0 (join "\n" l) == 0)
          (ltb 1 (count_matches old 0 (join "\n" l))) _ _ (0, edit) op j in
      (
        ap (λ (o : ℕ × Edit). o.1) (sym v),
        ap (λ (o : ℕ × Edit). o.0) (sym v),
        both_there edit.old_text edit.new_text old new (or_err-ok edit.old_text _ old e)
            (or_err-ok edit.new_text _ new f),
      )

  -- an edit that passes comes with a line within the file, and what the second loop unwraps is there
  abbrev pub IsChecked : List String → EditOp → Edit → ℕ × Edit → Type 0
  IsChecked l kind edit op =
      (op.1 ≡ edit) × (op.0 - 1 ≤ length l) × (is_sound kind op.0 edit ≡ true)

  check_anchored-ok :
      (l : List String) (edit : Edit) (op : ℕ × Edit)
      → check_anchored show xxhash l edit ≡ ok op
      → (op.1 ≡ edit) × (op.0 - 1 ≤ length l) × (is_some (end_index (op.0 - 1) edit.end) ≡ true)
  unfolding check_anchored
  check_anchored-ok l edit op h =
      let (pos, _, i) = >>=-ok (or_err edit.pos _) _ op h in
      let (a, _, j) = >>=-ok (or_err (parse_anchor pos) _) _ op i in
      let (u, e, k) = >>=-ok (verify_anchor show xxhash a.0 a.1 l) _ op j in
      let (v, f, m) = >>=-ok (check_end show xxhash l a.0 edit.end) _ op k in
      let same = ok_inj m in
      (
        ap (λ (o : ℕ × Edit). o.1) (sym same),
        (let below = verify_anchor-length a.0 a.1 l e in rw (← same) (omega (arith, below))),
        check_end-ok l a.0 (op.0 - 1) edit.end f,
      )

  check_edit-IsChecked :
      (l : List String) (kind : EditOp) (edit : Edit) (op : ℕ × Edit)
      → check_edit show xxhash l kind edit ≡ ok op
      → IsChecked l kind edit op
  unfolding check_edit
  check_edit-IsChecked l replace edit op h = check_anchored-ok l edit op h
  check_edit-IsChecked l append edit op h =
      let (e, f, g) = check_anchored-ok l edit op h in (e, f, refl)
  check_edit-IsChecked l prepend edit op h =
      let (e, f, g) = check_anchored-ok l edit op h in (e, f, refl)
  check_edit-IsChecked l replace_text edit op h =
      let (e, f, g) = check_text-ok l edit op h in (e, omega (arith, f), rw f g)

  -- an edit at or below a line, and not an append after the first
  abbrev pub is_below : ℕ → ℕ × Edit → Bool
  is_below k op = leb k (op.0 - 1) && not (is_append_first op.1.operation op.0)

  IsReady-of_checked :
      (k : ℕ) (l : List String) (edit : Edit) (op : ℕ × Edit)
      → IsChecked l edit.operation edit op
      → is_below k op ≡ true
      → IsReady k l op
  IsReady-of_checked k l edit op (same, within, sound) h =
      let parts = &&-eq-true (leb k (op.0 - 1)) (not (is_append_first op.1.operation op.0)) h in
      (leb→le k (op.0 - 1) parts.0, within, rw same sound, ground (arith, parts.1))

  check_edits-IsReady :
      (k : ℕ) (l : List String) (edits : List Edit) (ops : List (ℕ × Edit))
      → check_edits show xxhash l edits ≡ ok ops
      → all (is_below k) ops ≡ true
      → All (IsReady k l) ops
  unfolding check_edits
  check_edits-IsReady k l [] ops h e = subst (All (IsReady k l)) (ok_inj h) tt
  check_edits-IsReady k l (edit ∷ edits) ops h e =
      let (op, f, i) = >>=-ok (check_edit show xxhash l edit.operation edit) _ ops h in
      let (rest, g, j) = >>=-ok (check_edits show xxhash l edits) _ ops i in
      let parts =
        &&-eq-true (is_below k op) (all (is_below k) rest)
          (subst (λ x. all (is_below k) x ≡ true) (sym (ok_inj j)) e) in
      subst (All (IsReady k l)) (ok_inj j) (
        IsReady-of_checked k l edit op (check_edit-IsChecked l edit.operation edit op f) parts.0,
        check_edits-IsReady k l edits rest g parts.1,
      )

  -- Edits that pass the check are applied without a panic and leave the first `k` lines of the file
  -- as they were, whatever their order in the patch, if all of them are anchored below those lines
  -- and none appends after the first line of the file.
  pub apply_all-check_edits :
      (k : ℕ) (l : List String) (edits : List Edit) (ops : List (ℕ × Edit))
      → check_edits show xxhash l edits ≡ ok ops
      → all (is_below k) ops ≡ true
      → IsBelow k l (apply_all (from_last ops) l)
  apply_all-check_edits k l edits ops h e =
      apply_all-IsBelow k (from_last ops) l (from_last-IsDescending ops) (
        All-rev (IsReady k l) (sort_by_key (λ (op : ℕ × Edit). op.0) ops) (
          All-sort_by_key (λ (op : ℕ × Edit). op.0) (IsReady k l) ops
            (check_edits-IsReady k l edits ops h e)))
