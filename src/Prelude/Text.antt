-- ===== src/Prelude/Text.antt =====
-- Texts as the program uses them: equality, `push_str`, `is_empty`, `starts_with`, `contains`.
use Prim.Native.String
use Prim.Native.Char.{Char}
use Prim.Native.String.{String}
use mathlib.Core.Path.{◌≡◌, sym, ◌∙◌}
use mathlib.Core.Bool.{Bool, true}
use mathlib.Core.Logic.{◌↔◌}
use mathlib.Core.List.{List, [], ◌∷◌}
use text.Mathlib.Text
use text.Mathlib.TextEquality
use text.Mathlib.TextBridge.{IsPrefix}
use text.Mathlib.TextLemmas
use text.Mathlib.TextPositions
use funera.Prelude.Tests.{is_some}
pub use Prim.Native.String.{String}

abbrev pub str_eq : String → String → Bool
str_eq s t = Text.◌==◌ s t

pub str_eq_iff : (s t : String) → (str_eq s t ≡ true) ↔ (s ≡ t)
str_eq_iff s t = TextEquality.eq_iff s t

pub str_eq_refl : (s : String) → str_eq s s ≡ true
str_eq_refl s = TextPositions.eq_refl s

abbrev pub is_empty : String → Bool
is_empty s = str_eq s ""

-- `s.push_str(&t)`, and `format!("{}{}", s, t)`
unfoldable pub push_str : String → String → String
push_str s t = String.◌++◌ s t

-- the pieces in order, as repeated `push_str` leaves them
abbrev pub concat : List String → String
concat [] = ""
concat (s ∷ l) = push_str s (concat l)

-- `parts.join(separator)`
abbrev pub join : String → List String → String
join separator [] = ""
join separator (s ∷ []) = s
join separator (s ∷ t ∷ l) = push_str s (push_str separator (join separator (t ∷ l)))

abbrev pub starts_with : String → String → Bool
starts_with s t = Text.starts_with s t

abbrev pub contains : String → String → Bool
contains s t = is_some (Text.find? s t)

pub push_str_assoc : (s t u : String) → push_str (push_str s t) u ≡ push_str s (push_str t u)
unfolding push_str
push_str_assoc s t u = TextLemmas.append_assoc s t u

pub nil-push_str : (s : String) → push_str "" s ≡ s
unfolding push_str
nil-push_str s = TextLemmas.nil-append s

pub push_str-nil : (s : String) → push_str s "" ≡ s
unfolding push_str
push_str-nil s = TextLemmas.append-nil s

pub starts_with-push_str : (s t : String) → starts_with (push_str s t) s ≡ true
unfolding push_str
starts_with-push_str s t = TextPositions.starts_with-append s t

-- a text that starts with a longer text starts with the shorter one
pub starts_with_of_push_str :
    (s t u : String) → starts_with s (push_str t u) ≡ true → starts_with s t ≡ true
unfolding push_str
starts_with_of_push_str s t u h =
    let e : IsPrefix (String.◌++◌ t u) s = (TextEquality.starts_with_iff s (String.◌++◌ t u)).0 h in
    (TextEquality.starts_with_iff s t).1
      (String.◌++◌ u e.0, sym (TextLemmas.append_assoc t u e.0) ∙ e.1)

pub cons-push_str :
    (c : Char) (s t : String) → push_str (String.◌∷◌ c s) t ≡ String.◌∷◌ c (push_str s t)
unfolding push_str
cons-push_str c s t = TextLemmas.cons-append c s t
