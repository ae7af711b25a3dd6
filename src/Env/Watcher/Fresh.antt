-- ===== src/Env/Watcher/Fresh.antt =====
-- What the reads of the watch channels of funera_core/src/env.rs give, against the environment that its
-- actor holds.
use funera.Env.Watcher.{Commands, Reads, watch, reads, reads_from}
use funera.Env.Synced.{IsSynced, keeps_prompt, run-IsSynced}
use funera.Env.State.{FuneraEnv, available_tools_json}
use funera.Env.Skills.{get_active_skills_prompt}
use funera.Json.{JsonOps}
use funera.ReAct.Loop.{Watched}
use funera.Prelude.{◌≡◌, true, all, ℕ, zero, suc}

-- no command sets a prompt by hand
abbrev pub KeepsPrompt : {Json : Type 0} → Commands Json → Type 0
KeepsPrompt c =
    (all keeps_prompt c.before_client ≡ true)
    × (all keeps_prompt c.before_tool ≡ true)
    × (all keeps_prompt c.before_model ≡ true)
    × (all keeps_prompt c.before_reasoning_level ≡ true)
    × (all keeps_prompt c.before_skill ≡ true)

module _ {Json F64 : Type 0} (json : JsonOps Json) where
  -- each value is the environment's own when it is read
  abbrev pub IsCurrent : Reads Json F64 → Watched Json → Type 0
  IsCurrent r w =
      (w.client ≡ r.at_client.llm_client)
      × (w.tools_json ≡ available_tools_json json r.at_tool.tool_registry)
      × (w.model ≡ r.at_model.model)
      × (w.reasoning_level ≡ r.at_reasoning_level.reasoning_level)
      × (w.skill_content ≡ get_active_skills_prompt r.at_skill.skill_registry)

  reads_from-IsCurrent :
      (env : FuneraEnv Json F64) (c : Commands Json)
      → KeepsPrompt c
      → IsSynced json env
      → IsCurrent (reads_from json env c) (watch (reads_from json env c))
        × IsSynced json (reads_from json env c).at_skill
  unfolding reads_from watch
  reads_from-IsCurrent env c (k0, k1, k2, k3, k4) h =
      let r = reads_from json env c in
      let s0 = run-IsSynced json c.before_client env k0 h in
      let s1 = run-IsSynced json c.before_tool r.at_client k1 s0 in
      let s2 = run-IsSynced json c.before_model r.at_tool k2 s1 in
      let s3 = run-IsSynced json c.before_reasoning_level r.at_model k3 s2 in
      let s4 = run-IsSynced json c.before_skill r.at_reasoning_level k4 s3 in
      ((s0.1, s1.0, s2.2, s3.3, s4.4), s4)

  reads-IsSynced :
      (env : FuneraEnv Json F64) (cmds : ℕ → Commands Json)
      → ((i : ℕ) → KeepsPrompt (cmds i))
      → IsSynced json env
      → (i : ℕ)
      → IsCurrent (reads json env cmds i) (watch (reads json env cmds i))
        × IsSynced json (reads json env cmds i).at_skill
  unfolding reads
  reads-IsSynced env cmds k h zero = reads_from-IsCurrent env (cmds 0) (k 0) h
  reads-IsSynced env cmds k h (suc i) =
      reads_from-IsCurrent (reads json env cmds i).at_skill (cmds (suc i)) (k (suc i))
        (reads-IsSynced env cmds k h i).1

  pub watch-IsCurrent :
      (env : FuneraEnv Json F64) (cmds : ℕ → Commands Json)
      → ((i : ℕ) → KeepsPrompt (cmds i))
      → IsSynced json env
      → (i : ℕ) → IsCurrent (reads json env cmds i) (watch (reads json env cmds i))
  watch-IsCurrent env cmds k h i = (reads-IsSynced env cmds k h i).0
