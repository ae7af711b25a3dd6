-- ===== src/Env/Watcher.antt =====
-- `FuneraEnvWatcher` of funera_core/src/env.rs, and the reads at the start of an iteration of
-- funera_core/src/re_act.rs, between which the actor of env_actor.rs may handle commands.
use funera.Env.State.{FuneraEnv}
use funera.Env.Actor.{EnvCmd, run}
use funera.Json.{JsonOps}
use funera.ReAct.Loop.{Watched, ReasoningLevel}
use funera.Prelude.{List, ℕ, String, zero, suc}
pub mod Fresh

module _ {Json F64 : Type 0} where
  abbrev pub watch_tool : FuneraEnv Json F64 → Json
  watch_tool env = env.channels.tool_tx

  abbrev pub watch_client : FuneraEnv Json F64 → ℕ
  watch_client env = env.channels.client_tx

  abbrev pub watch_model : FuneraEnv Json F64 → String
  watch_model env = env.channels.model_tx

  abbrev pub watch_reasoning_level : FuneraEnv Json F64 → ReasoningLevel
  watch_reasoning_level env = env.channels.reasoning_tx

  abbrev pub watch_skill : FuneraEnv Json F64 → String
  watch_skill env = env.channels.skill_tx

-- what the actor handles before each of the five reads of an iteration
pub record Commands (Json : Type 0) : Type 0 where
  pub before_client : List (EnvCmd Json)
  pub before_tool : List (EnvCmd Json)
  pub before_model : List (EnvCmd Json)
  pub before_reasoning_level : List (EnvCmd Json)
  pub before_skill : List (EnvCmd Json)

-- the environment at each of the reads
pub record Reads (Json : Type 0) (F64 : Type 0) : Type 0 where
  pub at_client : FuneraEnv Json F64
  pub at_tool : FuneraEnv Json F64
  pub at_model : FuneraEnv Json F64
  pub at_reasoning_level : FuneraEnv Json F64
  pub at_skill : FuneraEnv Json F64

module _ {Json F64 : Type 0} where
  unfoldable pub watch : Reads Json F64 → Watched Json
  watch r = record {
    client = watch_client r.at_client;
    tools_json = watch_tool r.at_tool;
    model = watch_model r.at_model;
    reasoning_level = watch_reasoning_level r.at_reasoning_level;
    skill_content = watch_skill r.at_skill;
  }

  module _ (json : JsonOps Json) where
    unfoldable pub reads_from : FuneraEnv Json F64 → Commands Json → Reads Json F64
    reads_from env c =
        let at_client = run json c.before_client env in
        let at_tool = run json c.before_tool at_client in
        let at_model = run json c.before_model at_tool in
        let at_reasoning_level = run json c.before_reasoning_level at_model in
        record {
          at_client = at_client;
          at_tool = at_tool;
          at_model = at_model;
          at_reasoning_level = at_reasoning_level;
          at_skill = run json c.before_skill at_reasoning_level;
        }

    -- the reads of each iteration of a call that starts with `env`
    unfoldable pub reads : FuneraEnv Json F64 → (ℕ → Commands Json) → ℕ → Reads Json F64
    reads env cmds zero = reads_from env (cmds 0)
    reads env cmds (suc i) = reads_from (reads env cmds i).at_skill (cmds (suc i))
