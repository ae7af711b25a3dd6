-- ===== src/Orchestrate/Builder/Last.antt =====
-- The last element with a name, which is what the loops of `build_with` in
-- funera-orchestrate/src/runtime.rs leave in a map.
use funera.Prelude.{
  [], ◌∷◌, ◌≡◌, ◌++◌, true, false, none, some, refl, if◌then◌else◌, List, Option, Bool, String,
  str_eq, sym,
}
use funera.Orchestrate.Builder.Runtime.{or_else}

pub or_else-none : {A : Type 0} (o : Option A) → or_else o none ≡ o
or_else-none none = refl
or_else-none (some a) = refl

or_else_assoc : {A : Type 0} (o p q : Option A) → or_else (or_else o p) q ≡ or_else o (or_else p q)
or_else_assoc none p q = refl
or_else_assoc (some a) p q = refl

pub or_else-if :
    {A : Type 0} (o : Option A) (b : Bool) (a : A) (p : Option A)
    → or_else o (if b then some a else p) ≡ or_else (or_else o (if b then some a else none)) p
or_else-if (some c) b a p = refl
or_else-if none true a p = refl
or_else-if none false a p = refl

module _ {A : Type 0} (name_of : A → String) where
  unfoldable pub last_by : String → List A → Option A
  last_by name [] = none
  last_by name (a ∷ l) = or_else (last_by name l) (if str_eq (name_of a) name then some a else none)

  pub last_by-append :
      (name : String) (xs ys : List A)
      → last_by name (xs ++ ys) ≡ or_else (last_by name ys) (last_by name xs)
  unfolding last_by
  last_by-append name [] ys = sym (or_else-none (last_by name ys))
  last_by-append name (a ∷ xs) ys =
      rw (last_by-append name xs ys) (or_else_assoc (last_by name ys) (last_by name xs) _)
