-- ===== src/Prelude/Sort.antt =====
-- `sort_by_key` on a numeric key: a stable sort, by insertion.
use Prim.Native.Nat.{ℕ, ◌≤◌}
use mathlib.Core.Logic.{inl, inr}
use mathlib.Core.List.{List, [], ◌∷◌, Perm}
use mathlib.Core.List.Perm
use native.Mathlib.Omega.{arith}
use funera.Prelude.Tests.{leb, if◌then◌else◌, Bool-cases}
use funera.Prelude.Lists.{All}

module _ {ℓ} {A : Type ℓ} (key : A → ℕ) where
  -- before the first element of an equal or a larger key
  unfoldable pub insert_by_key : A → List A → List A
  insert_by_key x [] = x ∷ []
  insert_by_key x (y ∷ l) =
      let rest = insert_by_key x l in if leb (key x) (key y) then x ∷ y ∷ l else y ∷ rest

  unfoldable pub sort_by_key : List A → List A
  unfolding insert_by_key
  sort_by_key [] = []
  sort_by_key (x ∷ l) = insert_by_key x (sort_by_key l)

  abbrev pub IsSorted : List A → Type 0
  IsSorted [] = Unit
  IsSorted (x ∷ l) = All (λ y. key x ≤ key y) l × IsSorted l

  insert_by_key-perm : (x : A) (l : List A) → Perm (insert_by_key x l) (x ∷ l)
  unfolding insert_by_key
  insert_by_key-perm x [] = Perm.refl (x ∷ [])
  insert_by_key-perm x (y ∷ l) = elim (Bool-cases (leb (key x) (key y))) [
    | inl before ↦ rw before (Perm.refl (x ∷ y ∷ l))
    | inr later ↦ rw later (Perm.trans (Perm.cons y (insert_by_key-perm x l)) (Perm.swap x y l))
  ]

  pub sort_by_key-perm : (l : List A) → Perm (sort_by_key l) l
  unfolding sort_by_key
  sort_by_key-perm [] = Perm.refl []
  sort_by_key-perm (x ∷ l) =
      Perm.trans (insert_by_key-perm x (sort_by_key l)) (Perm.cons x (sort_by_key-perm l))

  All-insert_by_key :
      (P : A → Type 0) (x : A) (l : List A) → P x → All P l → All P (insert_by_key x l)
  unfolding insert_by_key
  All-insert_by_key P x [] p h = (p, tt)
  All-insert_by_key P x (y ∷ l) p (q, h) = elim (Bool-cases (leb (key x) (key y))) [
    | inl before ↦ rw before (p, (q, h))
    | inr later ↦ rw later (q, All-insert_by_key P x l p h)
  ]

  pub All-sort_by_key : (P : A → Type 0) (l : List A) → All P l → All P (sort_by_key l)
  unfolding sort_by_key
  All-sort_by_key P [] h = tt
  All-sort_by_key P (x ∷ l) (p, h) = All-insert_by_key P x (sort_by_key l) p (All-sort_by_key P l h)

  All-le : {m n : ℕ} (l : List A) → m ≤ n → All (λ y. n ≤ key y) l → All (λ y. m ≤ key y) l
  All-le [] e h = tt
  All-le (y ∷ l) e (p, h) = (omega arith, All-le l e h)

  insert_by_key-IsSorted : (x : A) (l : List A) → IsSorted l → IsSorted (insert_by_key x l)
  unfolding insert_by_key
  insert_by_key-IsSorted x [] h = (tt, tt)
  insert_by_key-IsSorted x (y ∷ l) (p, h) = elim (Bool-cases (leb (key x) (key y))) [
    | inl before ↦ rw before (let e : key x ≤ key y = ground arith in ((e, All-le l e p), (p, h)))
    | inr later ↦
        rw later (
          All-insert_by_key (λ z. key y ≤ key z) x l (ground arith) p,
          insert_by_key-IsSorted x l h,
        )
  ]

  pub sort_by_key-IsSorted : (l : List A) → IsSorted (sort_by_key l)
  unfolding sort_by_key
  sort_by_key-IsSorted [] = tt
  sort_by_key-IsSorted (x ∷ l) = insert_by_key-IsSorted x (sort_by_key l) (sort_by_key-IsSorted l)
