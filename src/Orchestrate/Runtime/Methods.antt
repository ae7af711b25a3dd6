-- ===== src/Orchestrate/Runtime/Methods.antt =====
-- What the methods of `AgentRuntime` in funera-orchestrate/src/runtime.rs promise their caller: a call
-- sees all calls before it, whenever the actor works.
use funera.Orchestrate.Runtime.{ask}
use funera.Dict
use funera.Dict.{Dict, get-insert, get-remove, mem}
use funera.Env.State
use funera.Env.State.{FuneraEnv}
use funera.Env.Actor.{
  EnvCmd, EnvStateEvent, Answer, handle, run, keys, set_model, set_client, set_reasoning_level,
  add_tool, remove_tool, set_tool_availability, add_skill, remove_skill, activate_skill,
  deactivate_skill, set_skill_prompt, get_skill_prompt, get_model, get_reasoning_level,
  get_tool_names, approve_tool_call, flagged,
}
use funera.Env.Skills
use funera.Env.Skills.{SkillRegistry, contains_skill}
use funera.Orchestrate.Runtime
use funera.Orchestrate.Runtime.Laws.{live}
use funera.Orchestrate.Runtime.Simulation.{Move, called, moved_by, ask-moved_by}
use funera.Json.{JsonOps}
use funera.Prelude.{
  [], ◌∷◌, ◌≡◌, ◌∙◌, true, false, some, List, Bool, String, refl, ap, any, is_some, inl, inr,
  Bool-cases, str_eq,
}
use funera.Orchestrate.Runtime.Last.{
  next_model, next_level, next_tool, next_skill, after_all, has_tool, has_skill, run-after_all,
  handle-part, handle-tool, handle-skill,
}

any-keys :
    {V : Type 0} (name : String) (d : Dict V)
    → any (λ k. str_eq k name) (keys d) ≡ is_some (Dict.get name d)
unfolding Dict.get
any-keys name [] = refl
any-keys name ((k, v) ∷ d) = elim (Bool-cases (str_eq k name)) [
  | inl same ↦ rw same refl
  | inr other ↦ rw other (any-keys name d)
]

known-activate :
    (name : String) (r : SkillRegistry) → (Skills.activate name r).1 ≡ contains_skill name r
unfolding Skills.activate
known-activate name r = elim (Bool-cases (contains_skill name r)) [
  | inl known ↦ rw known refl
  | inr unknown ↦ rw unknown refl
]

module _ {Json F64 : Type 0} (json : JsonOps Json) where
  flag-flagged :
      (event : EnvStateEvent) (p : FuneraEnv Json F64 × Bool)
      → (flagged event p).2 ≡ Answer.flag p.1
  flag-flagged event (env, true) = refl
  flag-flagged event (env, false) = refl

  model_answer : (env : FuneraEnv Json F64) → (handle json get_model env).2 ≡ Answer.text env.model
  unfolding handle
  model_answer env = refl

  level_answer :
      (env : FuneraEnv Json F64)
      → (handle json get_reasoning_level env).2 ≡ Answer.level env.reasoning_level
  unfolding handle
  level_answer env = refl

  names_answer :
      (env : FuneraEnv Json F64)
      → (handle json get_tool_names env).2 ≡ Answer.names (keys env.tool_registry.inner.tools)
  unfolding handle
  names_answer env = refl

  flag_answer :
      (name : String) (env : FuneraEnv Json F64)
      → (handle json (activate_skill name) env).2 ≡ Answer.flag (has_skill json name env)
  unfolding handle State.activate_skill
  flag_answer name env =
      flag-flagged (funera.Env.Actor.skill_activated name) (State.activate_skill name env)
      ∙ ap Answer.flag (known-activate name env.skill_registry)

  module _ (moves : List (Move Json)) (env : FuneraEnv Json F64) (events : List EnvStateEvent) where
    abbrev after_moves : Runtime.Runtime Json F64
    after_moves = moved_by json moves (live json env [] events)

    abbrev at_end : FuneraEnv Json F64
    at_end = run json (called moves) env

    answered_by :
        (cmd : EnvCmd Json) (a : Answer)
        → (handle json cmd at_end).2 ≡ a
        → (ask json cmd after_moves).0 ≡ some a
    answered_by cmd a h = ask-moved_by json moves cmd env events ∙ ap some h

  -- Whatever methods of a live runtime have been called, and whenever its actor has received what
  -- they sent: `model` and `reasoning_level` give what was set last, `tool_names` has a name exactly if
  -- the last call that adds or removes a tool of the name added one, and `activate_skill` succeeds
  -- exactly if the last call that adds or removes the skill added it; what no call has changed is as
  -- it was.
  pub moved_by-after_all :
      (moves : List (Move Json)) (env : FuneraEnv Json F64) (events : List EnvStateEvent)
      (name : String)
      → let rt = moved_by json moves (live json env [] events) in
        let cmds = called moves in
        ((Runtime.model json rt).0 ≡ after_all next_model cmds env.model)
        × ((Runtime.reasoning_level json rt).0 ≡ after_all next_level cmds env.reasoning_level)
        × (any (λ k. str_eq k name) (Runtime.tool_names json rt).0
            ≡ after_all (next_tool name) cmds (has_tool json name env))
        × ((Runtime.activate_skill json name rt).0
            ≡ after_all (next_skill name) cmds (has_skill json name env))
  moved_by-after_all moves env events name =
      let cmds = called moves in
      let last = run json cmds env in
      (
        ap Runtime.text_or_default
              (answered_by moves env events get_model (Answer.text last.model) (model_answer last))
            ∙ run-after_all json (λ e. e.model) next_model
                (λ c e. ap (λ p. p.0) (handle-part json c e)) cmds env,
        ap Runtime.level_or_default (
              answered_by moves env events get_reasoning_level (Answer.level last.reasoning_level)
                (level_answer last))
            ∙ run-after_all json (λ e. e.reasoning_level) next_level
                (λ c e. ap (λ p. p.1) (handle-part json c e)) cmds env,
        ap (λ a. any (λ k. str_eq k name) (Runtime.names_or_default a))
              (answered_by moves env events get_tool_names
                (Answer.names (keys last.tool_registry.inner.tools)) (names_answer last))
            ∙ any-keys name last.tool_registry.inner.tools
            ∙ run-after_all json (has_tool json name) (next_tool name) (handle-tool json name) cmds
                env,
        ap Runtime.flag_or_false (
              answered_by moves env events (activate_skill name)
                (Answer.flag (has_skill json name last)) (flag_answer name last))
            ∙ run-after_all json (has_skill json name) (next_skill name) (handle-skill json name)
                cmds env,
      )
