-- ===== src/Dict.antt =====
use funera.Prelude.{
  [], ◌∷◌, ◌≡◌, ◌||◌, false, none, some, refl, arith, if◌then◌else◌, List, Option, Bool, String,
  inl, inr, Bool-cases, str_eq, str_eq_refl, str_eq_iff,
}

-- Rust's `HashMap<String, V>` and `HashSet<String>` as lists with no key twice. The standard library
-- leaves the order of iteration open; the list is one such order.
abbrev pub Dict : Type 0 → Type 0
Dict V = List (String × V)

module _ {V : Type 0} where
  unfoldable pub get : String → Dict V → Option V
  get k [] = none
  get k ((j, v) ∷ d) = if str_eq j k then some v else get k d

  -- a new value for a key that is there, or a new entry
  unfoldable pub insert : String → V → Dict V → Dict V
  insert k v [] = (k, v) ∷ []
  insert k v ((j, w) ∷ d) =
      let rest = insert k v d in if str_eq j k then (k, v) ∷ d else (j, w) ∷ rest

  unfoldable pub remove : String → Dict V → Dict V
  remove k [] = []
  remove k ((j, v) ∷ d) = let rest = remove k d in if str_eq j k then rest else (j, v) ∷ rest

  pub get-insert :
      (k j : String) (v : V) (d : Dict V)
      → get j (insert k v d) ≡ (if str_eq k j then some v else get j d)
  unfolding get insert
  get-insert k j v [] = refl
  get-insert k j v ((i, w) ∷ d) =
      ground (arith, str_eq_iff k j, str_eq_iff i k, str_eq_iff i j, get-insert k j v d)

  pub get-remove :
      (k j : String) (d : Dict V) → get j (remove k d) ≡ (if str_eq k j then none else get j d)
  unfolding get remove
  get-remove k j [] = ground arith
  get-remove k j ((i, w) ∷ d) =
      ground (arith, str_eq_iff k j, str_eq_iff i k, str_eq_iff i j, get-remove k j d)

  pub get-insert_self : (k : String) (v : V) (d : Dict V) → get k (insert k v d) ≡ some v
  get-insert_self k v d = rw get-insert (rw str_eq_refl)

  pub get-remove_self : (k : String) (d : Dict V) → get k (remove k d) ≡ none
  get-remove_self k d = rw get-remove (rw str_eq_refl)

  -- no key twice
  abbrev pub IsMap : Dict V → Type 0
  IsMap [] = Unit
  IsMap ((k, v) ∷ d) = (get k d ≡ none) × IsMap d

  pub insert-IsMap : (k : String) (v : V) (d : Dict V) → IsMap d → IsMap (insert k v d)
  unfolding get insert
  insert-IsMap k v [] h = (refl, tt)
  insert-IsMap k v ((j, w) ∷ d) (fresh, h) = elim (Bool-cases (str_eq j k)) [
    | inl same ↦ rw same (rw (← (str_eq_iff j k).0 same) fresh, h)
    | inr other ↦
        rw other
          (ground (arith, get-insert k j v d, str_eq_iff k j, str_eq_iff j k), insert-IsMap k v d h)
  ]

  pub remove-IsMap : (k : String) (d : Dict V) → IsMap d → IsMap (remove k d)
  unfolding get remove
  remove-IsMap k [] h = tt
  remove-IsMap k ((j, w) ∷ d) (fresh, h) = elim (Bool-cases (str_eq j k)) [
    | inl same ↦ rw same (remove-IsMap k d h)
    | inr other ↦ rw other (ground (arith, get-remove k j d), remove-IsMap k d h)
  ]

-- `set.contains(name)`
abbrev pub mem : String → List String → Bool
mem k [] = false
mem k (j ∷ l) = str_eq j k || mem k l
