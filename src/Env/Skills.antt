-- ===== src/Env/Skills.antt =====
-- `Skill` and `SkillRegistry` of funera_core/src/re_act/skills.rs. The set of active names is a list
-- with no name twice, in the order that an iteration takes.
pub mod Laws
pub mod Load
use funera.Prelude.{
  [], ◌∷◌, ◌&&◌, true, false, none, some, if◌then◌else◌, List, Option, Bool, String, is_some, join,
  not, str_eq, is_empty,
}
use funera.Dict
use funera.Dict.{Dict, mem}

pub record Skill : Type 0 where
  pub name : String
  pub description : String
  pub content : String
  pub disable_model_invocation : Bool
  pub source_path : Option String

pub record SkillRegistry : Type 0 where
  pub skills : Dict Skill
  pub active : List String

abbrev pub new : SkillRegistry
new = record { skills = []; active = [] }

abbrev pub without : String → List String → List String
without k [] = []
without k (j ∷ l) = let rest = without k l in if str_eq j k then rest else j ∷ rest

unfoldable pub add : Skill → SkillRegistry → SkillRegistry
add skill r = record r { skills = Dict.insert skill.name skill r.skills }

unfoldable pub remove : String → SkillRegistry → SkillRegistry × Option Skill
remove name r = (
  record { skills = Dict.remove name r.skills; active = without name r.active },
  Dict.get name r.skills,
)

abbrev pub contains_skill : String → SkillRegistry → Bool
contains_skill name r = is_some (Dict.get name r.skills)

abbrev pub insert_name : String → List String → List String
insert_name name l = if mem name l then l else name ∷ l

unfoldable pub activate : String → SkillRegistry → SkillRegistry × Bool
activate name r =
    if contains_skill name r
    then (record r { active = insert_name name r.active }, true)
    else (r, false)

unfoldable pub deactivate : String → SkillRegistry → SkillRegistry × Bool
deactivate name r =
    if mem name r.active then (record r { active = without name r.active }, true) else (r, false)

abbrev found : Option Skill → List Skill → List Skill
found none rest = rest
found (some s) rest = s ∷ rest

abbrev pub filter_active : Dict Skill → List String → List Skill
filter_active d [] = []
filter_active d (name ∷ l) = found (Dict.get name d) (filter_active d l)

unfoldable pub active_skills : SkillRegistry → List Skill
active_skills r = filter_active r.skills r.active

abbrev prompt_parts : List Skill → List String
prompt_parts [] = []
prompt_parts (s ∷ l) =
    let rest = prompt_parts l in
    if not s.disable_model_invocation && not (is_empty s.content) then s.content ∷ rest else rest

unfoldable pub get_active_skills_prompt : SkillRegistry → String
unfolding active_skills
get_active_skills_prompt r = join "\n\n" (prompt_parts (active_skills r))

abbrev metadata : List Skill → List (String × String)
metadata [] = []
metadata (s ∷ l) =
    let rest = metadata l in
    if s.disable_model_invocation then rest else (s.name, s.description) ∷ rest

unfoldable pub get_active_skills_metadata : SkillRegistry → List (String × String)
unfolding active_skills
get_active_skills_metadata r = metadata (active_skills r)
