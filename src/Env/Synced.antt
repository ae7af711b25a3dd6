-- ===== src/Env/Synced.antt =====
-- The watch channels of funera_core/src/env.rs show the state that the actor of env_actor.rs holds.
use funera.Dict.{mem}
use funera.Env.Skills.Laws.{activate-same, deactivate-same}
use funera.Tool.Registry.{RawToolRegistry, available_tools, ToolRegistryEntry, set_availability}
use funera.Env.Skills.{SkillRegistry, get_active_skills_prompt}
use funera.Security.Registry.{GuardedToolRegistry}
use funera.Json.{JsonOps}
use funera.Prelude.{
  ◌≡◌, ◌∙◌, true, false, refl, Bool, ap, sym, none, some, Option, String, inl, inr, Bool-cases,
  bool_eq, if-fst_false, [], ◌∷◌, List, all, &&-eq-true,
}
use funera.Env.State
use funera.Env.State.{
  FuneraEnv, available_tools_json, send_tools, send_skills, send_if, send_skills_if,
}
use funera.Env.Actor.{
  EnvCmd, handle, run, flagged, set_model, set_client, set_reasoning_level, add_tool, remove_tool,
  set_tool_availability, add_skill, remove_skill, activate_skill, deactivate_skill,
  set_skill_prompt, get_skill_prompt, get_model, get_reasoning_level, get_tool_names,
  approve_tool_call, EnvStateEvent,
}
use funera.Security.Registry
use funera.Dict

-- a prompt that is set by hand replaces the one of the skills
abbrev pub keeps_prompt : {Json : Type 0} → EnvCmd Json → Bool
keeps_prompt (set_skill_prompt prompt) = false
keeps_prompt _ = true

set_availability-same :
    {Json : Type 0} (name : String) (available : Bool) (r : RawToolRegistry Json)
    (o : Option (ToolRegistryEntry Json))
    → (set_availability name available r o).1 ≡ false
    → (set_availability name available r o).0 ≡ r
set_availability-same name available r none h = refl
set_availability-same {Json} name available r (some e) h =
    ap (λ (p : RawToolRegistry Json × Bool). p.0)
      (if-fst_false (bool_eq e.available available) (r, false) _ refl h)

module _ {Json F64 : Type 0} (json : JsonOps Json) where
  abbrev pub IsSynced : FuneraEnv Json F64 → Type 0
  IsSynced env =
      (env.channels.tool_tx ≡ available_tools_json json env.tool_registry)
      × (env.channels.client_tx ≡ env.llm_client)
      × (env.channels.model_tx ≡ env.model)
      × (env.channels.reasoning_tx ≡ env.reasoning_level)
      × (env.channels.skill_tx ≡ get_active_skills_prompt env.skill_registry)

  send_if-IsSynced :
      (env : FuneraEnv Json F64) (r : GuardedToolRegistry Json F64) (b : Bool)
      → IsSynced env
      → (b ≡ false → r.inner ≡ env.tool_registry.inner)
      → IsSynced (send_if json (r, b) env)
  send_if-IsSynced env r true (a, c, d, e, f) h = (refl, c, d, e, f)
  send_if-IsSynced env r false (a, c, d, e, f) h = (
    a ∙ ap (λ (q : RawToolRegistry Json). json.array (available_tools q)) (sym (h refl)),
    c,
    d,
    e,
    f,
  )

  send_skills_if-IsSynced :
      (env : FuneraEnv Json F64) (r : SkillRegistry) (b : Bool)
      → IsSynced env
      → (b ≡ false → r ≡ env.skill_registry)
      → IsSynced (send_skills_if (r, b) env)
  send_skills_if-IsSynced env r true (a, c, d, e, f) h = (a, c, d, e, refl)
  send_skills_if-IsSynced env r false (a, c, d, e, f) h =
      (a, c, d, e, f ∙ ap get_active_skills_prompt (sym (h refl)))

  flagged-IsSynced :
      (event : EnvStateEvent) (p : FuneraEnv Json F64 × Bool)
      → IsSynced p.0
      → IsSynced (flagged event p).0
  flagged-IsSynced event (env, true) h = h
  flagged-IsSynced event (env, false) h = h

  pub inner-approve_tool_call :
      (call_id : String) (approved : Bool) (r : GuardedToolRegistry Json F64)
      → (Registry.approve_tool_call call_id approved r).2.inner ≡ r.inner
  unfolding Registry.approve_tool_call
  inner-approve_tool_call call_id approved r = elim (Bool-cases (mem call_id r.pending_approvals)) [
    | inl there ↦ rw there refl
    | inr absent ↦ rw absent refl
  ]

  -- Every command keeps what the watch channels show equal to the environment: the available tools,
  -- the client, the model, the reasoning level and the prompt of the active skills; the command that
  -- sets a prompt by hand is left out.
  pub handle-IsSynced :
      (cmd : EnvCmd Json) (env : FuneraEnv Json F64)
      → keeps_prompt cmd ≡ true
      → IsSynced env
      → IsSynced (handle json cmd env).0
  unfolding handle State.set_model State.set_client State.set_reasoning_level State.add_tool
      State.remove_tool State.set_tool_availability State.add_skill State.remove_skill
      State.activate_skill State.deactivate_skill Registry.approve_tool_call
      Registry.set_tool_availability funera.Tool.Registry.set_tool_availability
  handle-IsSynced (set_model model) env k (a, c, d, e, f) = (a, c, refl, e, f)
  handle-IsSynced (set_client client) env k (a, c, d, e, f) = (a, refl, d, e, f)
  handle-IsSynced (set_reasoning_level l) env k (a, c, d, e, f) = (a, c, d, refl, f)
  handle-IsSynced (add_tool t) env k (a, c, d, e, f) = (refl, c, d, e, f)
  handle-IsSynced (remove_tool name) env k (a, c, d, e, f) = (refl, c, d, e, f)
  handle-IsSynced (set_tool_availability name available) env k h = send_if-IsSynced env _ _ h (
      set_availability-same name available env.tool_registry.inner
        (Dict.get name env.tool_registry.inner.tools))
  handle-IsSynced (add_skill skill) env k (a, c, d, e, f) = (a, c, d, e, refl)
  handle-IsSynced (remove_skill name) env k (a, c, d, e, f) = (a, c, d, e, refl)
  handle-IsSynced (activate_skill name) env k h =
      flagged-IsSynced _ (State.activate_skill name env)
        (send_skills_if-IsSynced env _ _ h (activate-same name env.skill_registry))
  handle-IsSynced (deactivate_skill name) env k h =
      flagged-IsSynced _ (State.deactivate_skill name env)
        (send_skills_if-IsSynced env _ _ h (deactivate-same name env.skill_registry))
  handle-IsSynced (set_skill_prompt prompt) env k h = cc
  handle-IsSynced get_skill_prompt env k h = h
  handle-IsSynced get_model env k h = h
  handle-IsSynced get_reasoning_level env k h = h
  handle-IsSynced get_tool_names env k h = h
  handle-IsSynced (approve_tool_call call_id approved) env k (a, c, d, e, f) = (
    a
        ∙ ap (λ (q : RawToolRegistry Json). json.array (available_tools q))
            (sym (inner-approve_tool_call call_id approved env.tool_registry)),
    c,
    d,
    e,
    f,
  )

  -- After any run of commands of which none sets a prompt by hand, the watch channels show the
  -- environment, if they did before.
  pub run-IsSynced :
      (cmds : List (EnvCmd Json)) (env : FuneraEnv Json F64)
      → all keeps_prompt cmds ≡ true
      → IsSynced env
      → IsSynced (run json cmds env)
  unfolding run
  run-IsSynced [] env k h = h
  run-IsSynced (cmd ∷ cmds) env k h =
      let parts = &&-eq-true (keeps_prompt cmd) (all keeps_prompt cmds) k in
      run-IsSynced cmds (handle json cmd env).0 parts.1 (handle-IsSynced cmd env parts.0 h)
