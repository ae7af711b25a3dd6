-- ===== src/Env/Skills/Laws.antt =====
-- What every operation of `SkillRegistry` in funera_core/src/re_act/skills.rs keeps.
use funera.Prelude.{
  [], ◌∷◌, ◌≡◌, true, false, refl, arith, List, String, inl, inr, All, Bool-cases, is_some, str_eq,
  str_eq_iff, if◌then◌else◌, Bool, ap, if-snd_false,
}
use funera.Dict
use funera.Dict.{Dict, mem, get-insert, get-remove}
use funera.Env.Skills.{
  Skill, SkillRegistry, add, remove, activate, deactivate, without, insert_name, contains_skill,
}

-- the operations that change the registry
pub data Change : Type 0 where
  add_skill : Skill → Change
  remove_skill activate_skill deactivate_skill : String → Change

unfoldable pub change : Change → SkillRegistry → SkillRegistry
change (add_skill s) r = add s r
change (remove_skill name) r = (remove name r).0
change (activate_skill name) r = (activate name r).0
change (deactivate_skill name) r = (deactivate name r).0

abbrev pub IsKnown : Dict Skill → String → Type 0
IsKnown d name = is_some (Dict.get name d) ≡ true

-- every active name is that of a skill, and stands once
abbrev pub IsDistinct : List String → Type 0
IsDistinct [] = Unit
IsDistinct (j ∷ l) = (mem j l ≡ false) × IsDistinct l

abbrev pub IsSound : SkillRegistry → Type 0
IsSound r = All (IsKnown r.skills) r.active × IsDistinct r.active

add-IsKnown :
    (s : Skill) (d : Dict Skill) (l : List String)
    → All (IsKnown d) l
    → All (IsKnown (Dict.insert s.name s d)) l
add-IsKnown s d [] h = tt
add-IsKnown s d (j ∷ l) (p, h) = (ground (arith, get-insert s.name j s d), add-IsKnown s d l h)

without-IsKnown :
    (name : String) (d : Dict Skill) (l : List String)
    → All (IsKnown d) l
    → All (IsKnown d) (without name l)
without-IsKnown name d [] h = tt
without-IsKnown name d (j ∷ l) (p, h) = elim (Bool-cases (str_eq j name)) [
  | inl same ↦ rw same (without-IsKnown name d l h)
  | inr other ↦ rw other (p, without-IsKnown name d l h)
]

remove-IsKnown :
    (name : String) (d : Dict Skill) (l : List String)
    → All (IsKnown d) l
    → All (IsKnown (Dict.remove name d)) (without name l)
remove-IsKnown name d [] h = tt
remove-IsKnown name d (j ∷ l) (p, h) = elim (Bool-cases (str_eq j name)) [
  | inl same ↦ rw same (remove-IsKnown name d l h)
  | inr other ↦ rw other (
    ground (arith, get-remove name j d, str_eq_iff j name, str_eq_iff name j),
    remove-IsKnown name d l h,
  )
]

mem-without : (j name : String) (l : List String) → mem j l ≡ false → mem j (without name l) ≡ false
mem-without j name [] h = refl
mem-without j name (i ∷ l) h = ground (arith, mem-without j name l)

without-IsDistinct : (name : String) (l : List String) → IsDistinct l → IsDistinct (without name l)
without-IsDistinct name [] h = tt
without-IsDistinct name (j ∷ l) (p, h) = elim (Bool-cases (str_eq j name)) [
  | inl same ↦ rw same (without-IsDistinct name l h)
  | inr other ↦ rw other (mem-without j name l p, without-IsDistinct name l h)
]

insert_name_sound :
    (name : String) (d : Dict Skill) (l : List String)
    → IsKnown d name
    → All (IsKnown d) l
    → IsDistinct l
    → All (IsKnown d) (insert_name name l) × IsDistinct (insert_name name l)
insert_name_sound name d l h e i = elim (Bool-cases (mem name l)) [
  | inl there ↦ rw there (e, i)
  | inr new ↦ rw new ((h, e), (new, i))
]

either :
    (P : SkillRegistry → Type 0) (b : Bool) (x y : SkillRegistry × Bool)
    → (b ≡ true → P x.0)
    → (b ≡ false → P y.0)
    → P (if b then x else y).0
either P true x y h e = h refl
either P false x y h e = e refl

-- Every operation keeps the active names among the known skills, each once: what is removed is no
-- longer active, and an unknown name is never activated.
pub change-IsSound : (c : Change) (r : SkillRegistry) → IsSound r → IsSound (change c r)
unfolding change add remove activate deactivate
change-IsSound (add_skill s) r (h, e) = (add-IsKnown s r.skills r.active h, e)
change-IsSound (remove_skill name) r (h, e) =
    (remove-IsKnown name r.skills r.active h, without-IsDistinct name r.active e)
change-IsSound (activate_skill name) r (h, e) =
    either IsSound (contains_skill name r) _ _
      (λ known. insert_name_sound name r.skills r.active known h e) (λ unknown. (h, e))
change-IsSound (deactivate_skill name) r (h, e) =
    either IsSound (mem name r.active) _ _
      (λ there. (without-IsKnown name r.skills r.active h, without-IsDistinct name r.active e))
      (λ absent. (h, e))

pub activate-same :
    (name : String) (r : SkillRegistry) → (activate name r).1 ≡ false → (activate name r).0 ≡ r
unfolding activate
activate-same name r h =
    ap (λ (p : SkillRegistry × Bool). p.0)
      (if-snd_false (contains_skill name r) _ (r, false) refl h)

pub deactivate-same :
    (name : String) (r : SkillRegistry) → (deactivate name r).1 ≡ false → (deactivate name r).0 ≡ r
unfolding deactivate
deactivate-same name r h =
    ap (λ (p : SkillRegistry × Bool). p.0) (if-snd_false (mem name r.active) _ (r, false) refl h)
