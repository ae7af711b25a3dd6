-- ===== src/Env/Skills/Load.antt =====
-- How `Skill` of funera_core/src/re_act/skills.rs is parsed and loaded. The YAML parser (the crate
-- serde_yaml) and the file system are given, with the text of their errors.
use funera.Events.{Result, err, ok}
use Prim.Native.Char.{Char}
use funera.Prelude.{
  [], ◌∷◌, ◌++◌, ◌&&◌, true, false, none, some, zero, suc, if◌then◌else◌, List, Option, Bool, ℕ,
  String, not, get_or,
}
use funera.BuiltinTools.Str.{trim, is_char}
use funera.Env.Skills.{Skill}
use Prim.Native.String
pub mod Format

pub data SkillParseError : Type 0 where
  missing_frontmatter unclosed_frontmatter : SkillParseError
  yaml_error io_error not_a_directory : String → SkillParseError

pub record SkillFrontmatter : Type 0 where
  pub name : String
  pub description : Option String
  pub disable_model_invocation : Option Bool

-- so many `-` at the front
abbrev pub dashes : ℕ → String → Bool
dashes zero s = true
dashes (suc n) String.[] = false
dashes (suc n) (String.◌∷◌ c s) = is_char 45 c && dashes n s

abbrev pub drop : ℕ → String → String
drop zero s = s
drop (suc n) String.[] = ""
drop (suc n) (String.◌∷◌ c s) = drop n s

abbrev pub before : Char → Option (String × String) → Option (String × String)
before c none = none
before c (some (s, t)) = some (String.◌∷◌ c s, t)

-- `s.find("\n---")`, with the text on both sides of what is found
unfoldable pub split_fence : String → Option (String × String)
split_fence String.[] = none
split_fence (String.◌∷◌ c s) =
    let rest = split_fence s in
    if is_char 10 c && dashes 3 s then some ("", drop 3 s) else before c rest

abbrev pub skill_of : String → Result SkillFrontmatter String → Result Skill SkillParseError
skill_of body (err e) = err (yaml_error e)
skill_of body (ok frontmatter) = ok (record {
  name = frontmatter.name;
  description = get_or frontmatter.description "";
  content = body;
  disable_model_invocation = get_or frontmatter.disable_model_invocation false;
  source_path = none;
})

module _ (from_yaml : String → Result SkillFrontmatter String) where
  abbrev pub fenced : Option (String × String) → Result Skill SkillParseError
  fenced none = err unclosed_frontmatter
  fenced (some (yaml_str, body)) = skill_of (trim body) (from_yaml (trim yaml_str))

  unfoldable pub from_str : String → Result Skill SkillParseError
  from_str s =
      if not (dashes 3 (trim s))
      then err missing_frontmatter
      else fenced (split_fence (drop 3 (trim s)))

  abbrev with_source : String → Result Skill SkillParseError → Result Skill SkillParseError
  with_source path (err e) = err e
  with_source path (ok skill) = ok (record skill { source_path = some path })

  abbrev parsed : String → Result String String → Result Skill SkillParseError
  parsed path (err e) = err (io_error e)
  parsed path (ok content) = with_source path (from_str content)

-- the file system, and `extension() == Some("md")`
pub record SkillFiles : Type 0 where
  pub read_to_string : String → Result String String
  pub is_dir : String → Bool
  pub read_dir : String → Result (List (Result String String)) String
  pub is_md : String → Bool

module _ (from_yaml : String → Result SkillFrontmatter String) (files : SkillFiles) where
  unfoldable pub from_file : String → Result Skill SkillParseError
  from_file path = parsed from_yaml path (files.read_to_string path)

  -- a file that does not parse is only warned about
  abbrev keep_ok : Result Skill SkillParseError → List Skill → List Skill
  keep_ok (err e) skills = skills
  keep_ok (ok skill) skills = skill ∷ skills

  abbrev then_skills :
      List Skill → Result (List Skill) SkillParseError → Result (List Skill) SkillParseError
  then_skills skills (err e) = err e
  then_skills skills (ok rest) = ok (skills ++ rest)

  abbrev from_entries : List (Result String String) → Result (List Skill) SkillParseError
  from_entries [] = ok []
  from_entries (err e ∷ entries) = err (io_error e)
  from_entries (ok path ∷ entries) =
      then_skills (if files.is_md path then keep_ok (from_file path) [] else [])
        (from_entries entries)

  abbrev listed : Result (List (Result String String)) String → Result (List Skill) SkillParseError
  listed (err e) = err (io_error e)
  listed (ok entries) = from_entries entries

  unfoldable pub from_dir : String → Result (List Skill) SkillParseError
  from_dir path =
      if not (files.is_dir path) then err (not_a_directory path) else listed (files.read_dir path)

  abbrev or_none : Result (List Skill) SkillParseError → List Skill
  or_none (err e) = []
  or_none (ok skills) = skills

  abbrev from_candidate : Option String → List Skill
  from_candidate none = []
  from_candidate (some path) = if files.is_dir path then or_none (from_dir path) else []

  -- `$SKILLS_HOME`, and the home directory with `.agents/skills`
  unfoldable pub from_default_path : Option String → Option String → List Skill
  from_default_path skills_home home = from_candidate skills_home ++ from_candidate home
