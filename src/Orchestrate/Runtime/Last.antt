-- ===== src/Orchestrate/Runtime/Last.antt =====
-- The model, the level, the tools and the skills that a run of commands leaves to the actor of
-- funera_core/src/env_actor.rs, told from the last command for each.
use funera.Dict
use funera.Dict.{Dict, get-insert, get-remove, mem}
use funera.Env.Synced.{inner-approve_tool_call}
use funera.Env.State
use funera.Env.State.{FuneraEnv}
use funera.Env.Actor.{
  EnvCmd, EnvStateEvent, handle, run, set_model, set_client, set_reasoning_level, add_tool,
  remove_tool, set_tool_availability, add_skill, remove_skill, activate_skill, deactivate_skill,
  set_skill_prompt, get_skill_prompt, get_model, get_reasoning_level, get_tool_names,
  approve_tool_call, flagged,
}
use funera.Env.Skills
use funera.Env.Skills.{SkillRegistry, contains_skill}
use funera.Json.{JsonOps}
use funera.ReAct.Loop.{ReasoningLevel}
use funera.Security.Registry
use funera.Tool.Registry.{RawToolRegistry, ToolRegistryEntry, set_availability}
use funera.Prelude.{
  [], ◌∷◌, ◌≡◌, ◌∙◌, true, false, none, some, List, Option, Bool, String, refl, ap, sym, is_some,
  if◌then◌else◌, inl, inr, Bool-cases, str_eq, str_eq_iff, bool_eq,
}

module _ {Json : Type 0} where
  -- the model and the level that were set last, and whether a tool or a skill of a name was added
  -- and not removed since
  abbrev pub next_model : EnvCmd Json → String → String
  next_model (set_model model) d = model
  next_model _ d = d

  abbrev pub next_level : EnvCmd Json → ReasoningLevel → ReasoningLevel
  next_level (set_reasoning_level level) d = level
  next_level _ d = d

  abbrev pub next_tool : String → EnvCmd Json → Bool → Bool
  next_tool name (add_tool t) b = if str_eq t.name name then true else b
  next_tool name (remove_tool other) b = if str_eq other name then false else b
  next_tool name _ b = b

  abbrev pub next_skill : String → EnvCmd Json → Bool → Bool
  next_skill name (add_skill skill) b = if str_eq skill.name name then true else b
  next_skill name (remove_skill other) b = if str_eq other name then false else b
  next_skill name _ b = b

  abbrev next_part : EnvCmd Json → String × ReasoningLevel → String × ReasoningLevel
  next_part cmd (m, l) = (next_model cmd m, next_level cmd l)

  abbrev pub after_all : {A : Type 0} → (EnvCmd Json → A → A) → List (EnvCmd Json) → A → A
  after_all next [] d = d
  after_all next (cmd ∷ cmds) d = after_all next cmds (next cmd d)

is_some-insert :
    {V : Type 0} (k j : String) (v : V) (d : Dict V)
    → is_some (Dict.get j (Dict.insert k v d))
      ≡ (if str_eq k j then true else is_some (Dict.get j d))
is_some-insert k j v d = elim (Bool-cases (str_eq k j)) [
  | inl same ↦ rw (get-insert k j v d) (rw same refl)
  | inr other ↦ rw (get-insert k j v d) (rw other refl)
]

is_some-remove :
    {V : Type 0} (k j : String) (d : Dict V)
    → is_some (Dict.get j (Dict.remove k d))
      ≡ (if str_eq k j then false else is_some (Dict.get j d))
is_some-remove k j d = elim (Bool-cases (str_eq k j)) [
  | inl same ↦ rw (get-remove k j d) (rw same refl)
  | inr other ↦ rw (get-remove k j d) (rw other refl)
]

skills-activate : (name : String) (r : SkillRegistry) → (Skills.activate name r).0.skills ≡ r.skills
unfolding Skills.activate
skills-activate name r = elim (Bool-cases (contains_skill name r)) [
  | inl known ↦ rw known refl
  | inr unknown ↦ rw unknown refl
]

skills-deactivate :
    (name : String) (r : SkillRegistry) → (Skills.deactivate name r).0.skills ≡ r.skills
unfolding Skills.deactivate
skills-deactivate name r = elim (Bool-cases (mem name r.active)) [
  | inl active ↦ rw active refl
  | inr inactive ↦ rw inactive refl
]

module _ {Json : Type 0} where
  is_some-set_availability :
      (name other : String) (available : Bool) (r : RawToolRegistry Json)
      (o : Option (ToolRegistryEntry Json))
      → Dict.get other r.tools ≡ o
      → is_some (Dict.get name (set_availability other available r o).0.tools)
        ≡ is_some (Dict.get name r.tools)
  is_some-set_availability name other available r none h = refl
  is_some-set_availability name other available r (some e) h =
      elim (Bool-cases (bool_eq e.available available)) [
        | inl unchanged ↦ rw unchanged refl
        | inr changed ↦ rw changed (
            is_some-insert other name (record e { available = available }) r.tools
            ∙ known (str_eq other name) (λ same.
              ap is_some (ap (λ k. Dict.get k r.tools) (sym ((str_eq_iff other name).0 same)) ∙ h)))
      ]
    where
      known :
          (b : Bool)
          → (b ≡ true → is_some (Dict.get name r.tools) ≡ true)
          → (if b then true else is_some (Dict.get name r.tools)) ≡ is_some (Dict.get name r.tools)
      known true k = sym (k refl)
      known false k = refl

module _ {Json F64 : Type 0} (json : JsonOps Json) where
  -- a part of the environment that every command changes in its way
  pub run-after_all :
      {A : Type 0} (part : FuneraEnv Json F64 → A) (next : EnvCmd Json → A → A)
      → ((cmd : EnvCmd Json) (env : FuneraEnv Json F64)
          → part (handle json cmd env).0 ≡ next cmd (part env))
      → (cmds : List (EnvCmd Json)) (env : FuneraEnv Json F64)
      → part (run json cmds env) ≡ after_all next cmds (part env)
  unfolding run
  run-after_all part next h [] env = refl
  run-after_all part next h (cmd ∷ cmds) env =
      run-after_all part next h cmds (handle json cmd env).0 ∙ ap (after_all next cmds) (h cmd env)

  abbrev part_of_all : FuneraEnv Json F64 → String × ReasoningLevel
  part_of_all env = (env.model, env.reasoning_level)

  send_if-part :
      (p : funera.Security.Registry.GuardedToolRegistry Json F64 × Bool) (env : FuneraEnv Json F64)
      → part_of_all (State.send_if json p env) ≡ part_of_all env
  send_if-part (r, true) env = refl
  send_if-part (r, false) env = refl

  send_skills_if-part :
      (p : SkillRegistry × Bool) (env : FuneraEnv Json F64)
      → part_of_all (State.send_skills_if p env) ≡ part_of_all env
  send_skills_if-part (r, true) env = refl
  send_skills_if-part (r, false) env = refl

  flagged-same : (event : EnvStateEvent) (p : FuneraEnv Json F64 × Bool) → (flagged event p).0 ≡ p.0
  flagged-same event (env, true) = refl
  flagged-same event (env, false) = refl

  pub handle-part :
      (cmd : EnvCmd Json) (env : FuneraEnv Json F64)
      → part_of_all (handle json cmd env).0 ≡ next_part cmd (part_of_all env)
  unfolding handle State.set_model State.set_client State.set_reasoning_level State.add_tool
      State.remove_tool State.set_tool_availability State.add_skill State.remove_skill
      State.activate_skill State.deactivate_skill State.set_skill_prompt
  handle-part (set_tool_availability name available) env =
      send_if-part (Registry.set_tool_availability name available env.tool_registry) env
  handle-part (activate_skill name) env =
      ap part_of_all (flagged-same _ (State.activate_skill name env))
      ∙ send_skills_if-part (Skills.activate name env.skill_registry) env
  handle-part (deactivate_skill name) env =
      ap part_of_all (flagged-same _ (State.deactivate_skill name env))
      ∙ send_skills_if-part (Skills.deactivate name env.skill_registry) env
  handle-part (approve_tool_call call_id approved) env = refl
  handle-part (set_model model) env = refl
  handle-part (set_client client) env = refl
  handle-part (set_reasoning_level l) env = refl
  handle-part (add_tool t) env = refl
  handle-part (remove_tool name) env = refl
  handle-part (add_skill skill) env = refl
  handle-part (remove_skill name) env = refl
  handle-part (set_skill_prompt prompt) env = refl
  handle-part get_skill_prompt env = refl
  handle-part get_model env = refl
  handle-part get_reasoning_level env = refl
  handle-part get_tool_names env = refl

  -- whether there is a tool of the name, and a skill
  abbrev pub has_tool : String → FuneraEnv Json F64 → Bool
  has_tool name env = is_some (Dict.get name env.tool_registry.inner.tools)

  abbrev pub has_skill : String → FuneraEnv Json F64 → Bool
  has_skill name env = contains_skill name env.skill_registry

  send_if-tool :
      (name : String) (p : funera.Security.Registry.GuardedToolRegistry Json F64 × Bool)
      (env : FuneraEnv Json F64)
      → has_tool name (State.send_if json p env) ≡ is_some (Dict.get name p.0.inner.tools)
  send_if-tool name (r, true) env = refl
  send_if-tool name (r, false) env = refl

  send_skills_if-tool :
      (name : String) (p : SkillRegistry × Bool) (env : FuneraEnv Json F64)
      → has_tool name (State.send_skills_if p env) ≡ has_tool name env
  send_skills_if-tool name (r, true) env = refl
  send_skills_if-tool name (r, false) env = refl

  pub handle-tool :
      (name : String) (cmd : EnvCmd Json) (env : FuneraEnv Json F64)
      → has_tool name (handle json cmd env).0 ≡ next_tool name cmd (has_tool name env)
  unfolding handle State.set_model State.set_client State.set_reasoning_level State.add_tool
      State.remove_tool State.set_tool_availability State.add_skill State.remove_skill
      State.activate_skill State.deactivate_skill State.set_skill_prompt Registry.add_tool
      Registry.remove_tool Registry.set_tool_availability funera.Tool.Registry.add_tool
      funera.Tool.Registry.remove_tool funera.Tool.Registry.set_tool_availability
  handle-tool name (add_tool t) env =
      is_some-insert t.name name (funera.Tool.Registry.new_available t)
        env.tool_registry.inner.tools
  handle-tool name (remove_tool other) env = is_some-remove other name env.tool_registry.inner.tools
  handle-tool name (set_tool_availability other available) env =
      send_if-tool name (Registry.set_tool_availability other available env.tool_registry) env
      ∙ is_some-set_availability name other available env.tool_registry.inner _ refl
  handle-tool name (activate_skill other) env =
      ap (has_tool name) (flagged-same _ (State.activate_skill other env))
      ∙ send_skills_if-tool name (Skills.activate other env.skill_registry) env
  handle-tool name (deactivate_skill other) env =
      ap (has_tool name) (flagged-same _ (State.deactivate_skill other env))
      ∙ send_skills_if-tool name (Skills.deactivate other env.skill_registry) env
  handle-tool name (approve_tool_call call_id approved) env =
      ap (λ (r : RawToolRegistry Json). is_some (Dict.get name r.tools))
        (inner-approve_tool_call json call_id approved env.tool_registry)
  handle-tool name (set_model model) env = refl
  handle-tool name (set_client client) env = refl
  handle-tool name (set_reasoning_level l) env = refl
  handle-tool name (add_skill skill) env = refl
  handle-tool name (remove_skill other) env = refl
  handle-tool name (set_skill_prompt prompt) env = refl
  handle-tool name get_skill_prompt env = refl
  handle-tool name get_model env = refl
  handle-tool name get_reasoning_level env = refl
  handle-tool name get_tool_names env = refl

  send_if-skill :
      (name : String) (p : funera.Security.Registry.GuardedToolRegistry Json F64 × Bool)
      (env : FuneraEnv Json F64)
      → has_skill name (State.send_if json p env) ≡ has_skill name env
  send_if-skill name (r, true) env = refl
  send_if-skill name (r, false) env = refl

  send_skills_if-skill :
      (name : String) (p : SkillRegistry × Bool) (env : FuneraEnv Json F64)
      → p.0.skills ≡ env.skill_registry.skills
      → has_skill name (State.send_skills_if p env) ≡ has_skill name env
  send_skills_if-skill name (r, true) env h = ap (λ d. is_some (Dict.get name d)) h
  send_skills_if-skill name (r, false) env h = ap (λ d. is_some (Dict.get name d)) h

  pub handle-skill :
      (name : String) (cmd : EnvCmd Json) (env : FuneraEnv Json F64)
      → has_skill name (handle json cmd env).0 ≡ next_skill name cmd (has_skill name env)
  unfolding handle State.set_model State.set_client State.set_reasoning_level State.add_tool
      State.remove_tool State.set_tool_availability State.add_skill State.remove_skill
      State.activate_skill State.deactivate_skill State.set_skill_prompt Skills.add Skills.remove
  handle-skill name (add_skill skill) env =
      is_some-insert skill.name name skill env.skill_registry.skills
  handle-skill name (remove_skill other) env = is_some-remove other name env.skill_registry.skills
  handle-skill name (set_tool_availability other available) env =
      send_if-skill name (Registry.set_tool_availability other available env.tool_registry) env
  handle-skill name (activate_skill other) env =
      ap (has_skill name) (flagged-same _ (State.activate_skill other env))
      ∙ send_skills_if-skill name (Skills.activate other env.skill_registry) env
          (skills-activate other env.skill_registry)
  handle-skill name (deactivate_skill other) env =
      ap (has_skill name) (flagged-same _ (State.deactivate_skill other env))
      ∙ send_skills_if-skill name (Skills.deactivate other env.skill_registry) env
          (skills-deactivate other env.skill_registry)
  handle-skill name (approve_tool_call call_id approved) env = refl
  handle-skill name (set_model model) env = refl
  handle-skill name (set_client client) env = refl
  handle-skill name (set_reasoning_level l) env = refl
  handle-skill name (add_tool t) env = refl
  handle-skill name (remove_tool other) env = refl
  handle-skill name (set_skill_prompt prompt) env = refl
  handle-skill name get_skill_prompt env = refl
  handle-skill name get_model env = refl
  handle-skill name get_reasoning_level env = refl
  handle-skill name get_tool_names env = refl
