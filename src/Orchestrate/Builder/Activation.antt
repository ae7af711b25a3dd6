-- ===== src/Orchestrate/Builder/Activation.antt =====
-- The skills that `build_with` of funera-orchestrate/src/runtime.rs adds and activates.
use funera.Orchestrate.Builder.{Surroundings, AgentRuntimeBuilder}
use funera.Dict.{mem, get-insert, Dict}
use funera.Env.Skills
use funera.Env.Skills.{Skill, SkillRegistry, activate, add, insert_name}
use funera.Prelude.{
  [], ◌∷◌, ◌≡◌, ◌++◌, ◌&&◌, ◌||◌, refl, arith, List, Option, String, str_eq, is_some, ◌∙◌, inl, inr,
  Bool-cases, ap, str_eq_iff, true, false, Bool,
}
use funera.Dict
use funera.Orchestrate.Builder.Last.{last_by, last_by-append, or_else-if, or_else-none}
use funera.Orchestrate.Builder.Runtime.{
  or_else, build_skills, activate_all, add_skills, defaults, names_of,
}

abbrev pub last_skill : String → List Skill → Option Skill
last_skill = last_by (λ s. s.name)

get-add_skills :
    (name : String) (ss : List Skill) (r : SkillRegistry)
    → Dict.get name (add_skills ss r).skills ≡ or_else (last_skill name ss) (Dict.get name r.skills)
unfolding last_by add
get-add_skills name [] r = refl
get-add_skills name (s ∷ ss) r = rw (get-add_skills name ss (add s r)) (
    rw (get-insert s.name name s r.skills)
      (or_else-if (last_skill name ss) (str_eq s.name name) s (Dict.get name r.skills)))

active-add_skills : (ss : List Skill) (r : SkillRegistry) → (add_skills ss r).active ≡ r.active
unfolding add
active-add_skills [] r = refl
active-add_skills (s ∷ ss) r = active-add_skills ss (add s r)

skills-activate : (name : String) (r : SkillRegistry) → (activate name r).0.skills ≡ r.skills
unfolding activate
skills-activate name r = ground arith

mem-insert_name :
    (name j : String) (l : List String) → mem j (insert_name name l) ≡ (mem j l || str_eq name j)
mem-insert_name name j l = ground (arith, str_eq_iff name j)

known_if_same :
    (name j : String) (d : Dict Skill) (b : Bool)
    → is_some (Dict.get name d) ≡ b
    → (str_eq name j && is_some (Dict.get j d)) ≡ (str_eq name j && b)
known_if_same name j d b h = elim (Bool-cases (str_eq name j)) [
  | inl same ↦ rw same (rw (← (str_eq_iff name j).0 same) h)
  | inr other ↦ rw other refl
]

mem-activate :
    (name j : String) (r : SkillRegistry)
    → mem j (activate name r).0.active
      ≡ (mem j r.active || (str_eq name j && is_some (Dict.get j r.skills)))
unfolding activate
mem-activate name j r = elim (Bool-cases (is_some (Dict.get name r.skills))) [
  | inl known ↦
      rw known (rw mem-insert_name (rw (known_if_same name j r.skills true known) (ground arith)))
  | inr unknown ↦ rw unknown (rw (known_if_same name j r.skills false unknown) (ground arith))
]

activate_all_lem :
    (names : List String) (j : String) (r : SkillRegistry)
    → ((activate_all names r).skills ≡ r.skills)
      × (mem j (activate_all names r).active
          ≡ (mem j r.active || (mem j names && is_some (Dict.get j r.skills))))
activate_all_lem [] j r = (refl, ground arith)
activate_all_lem (name ∷ names) j r =
    let rest = activate_all_lem names j (activate name r).0 in
    (
      rest.0 ∙ skills-activate name r,
      rest.1 ∙ ground (arith, mem-activate name j r, skills-activate name r),
    )

mem-append : (k : String) (xs ys : List String) → mem k (xs ++ ys) ≡ (mem k xs || mem k ys)
mem-append k [] ys = refl
mem-append k (x ∷ xs) ys = rw (mem-append k xs ys) (ground arith)

get-add_skills_twice :
    (name : String) (xs ys : List Skill)
    → Dict.get name (add_skills ys (add_skills xs funera.Env.Skills.new)).skills
      ≡ last_skill name (xs ++ ys)
unfolding Dict.get
get-add_skills_twice name xs ys =
    rw (get-add_skills name ys (add_skills xs funera.Env.Skills.new)) (
      rw (get-add_skills name xs funera.Env.Skills.new) (
        rw (or_else-none (last_skill name xs))
          (rw (last_by-append (λ (s : Skill). s.name) name xs ys) refl)))

active-add_skills_twice :
    (xs ys : List Skill) → (add_skills ys (add_skills xs funera.Env.Skills.new)).active ≡ []
active-add_skills_twice xs ys =
    active-add_skills ys (add_skills xs funera.Env.Skills.new)
    ∙ active-add_skills xs funera.Env.Skills.new

-- In the skills of a built runtime a name finds the last skill with it, where the default skills come
-- first, and it is active exactly if there is such a skill and the builder was told to activate it, or
-- it is the name of a default skill.
pub build_skills-last_skill :
    {Json F64 : Type 0} (surroundings : Surroundings) (b : AgentRuntimeBuilder Json F64)
    (name : String)
    → (Dict.get name (build_skills surroundings b).skills
        ≡ last_skill name (defaults surroundings b ++ b.skills))
      × (mem name (build_skills surroundings b).active ≡ (
          (mem name b.skill_names_to_activate || mem name (names_of (defaults surroundings b)))
          && is_some (last_skill name (defaults surroundings b ++ b.skills))))
unfolding build_skills
build_skills-last_skill surroundings b name =
    let added = add_skills b.skills (add_skills (defaults surroundings b) funera.Env.Skills.new) in
    let names = b.skill_names_to_activate ++ names_of (defaults surroundings b) in
    let all = activate_all_lem names name added in
    let got = get-add_skills_twice name (defaults surroundings b) b.skills in
    (
      ap (Dict.get name) all.0 ∙ got,
      all.1
          ∙ ap (λ l. mem name l || (mem name names && is_some (Dict.get name added.skills)))
              (active-add_skills_twice (defaults surroundings b) b.skills)
          ∙ ap (λ o. mem name names && is_some o) got
          ∙ ap (λ x. x && is_some (last_skill name (defaults surroundings b ++ b.skills)))
              (mem-append name b.skill_names_to_activate (names_of (defaults surroundings b))),
    )
