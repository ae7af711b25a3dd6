-- ===== src/Tests/Runtime.antt =====
-- A runtime whose tools and model change while a call runs.
use funera.Tests.Data.{text_json}
use funera.Tests.ReAct.{debug}
use funera.Tests.Agent.{call}
use funera.Tests.Builder.{fs, surroundings, builder}
use funera.Env.State.{FuneraEnv}
use funera.Env.Actor.{run, set_model, remove_tool, set_tool_availability, activate_skill}
use funera.Env.Watcher.{Commands, reads}
use funera.Env.Watcher.Fresh.{IsCurrent}
use funera.Orchestrate.Agent.{send}
use funera.Orchestrate.Builder.Runtime.{build_env, given}
use funera.Orchestrate.Runtime
use funera.Orchestrate.Runtime.Fresh.{send-IsCurrent, watching}
use funera.Orchestrate.Runtime.Laws.{live}
use funera.Orchestrate.Runtime.Simulation.{Move, calls, works, moved_by}
use funera.Orchestrate.Runtime.Last.{has_skill}
use funera.Orchestrate.Runtime.Methods.{moved_by-after_all}
use funera.ReAct.Loop.Requests.{Each}
use funera.Security.Policy
use funera.Prelude.{any, str_eq, [], ◌∷◌, ◌≡◌, some, refl, List, ℕ, String, false}

abbrev env : FuneraEnv String ℕ
env =
    run text_json (set_model "m1" ∷ [])
      (build_env text_json fs (Policy.default 300) (λ c. 0) surroundings builder (given 0))

-- a tool goes between the first two reads, and a skill is activated before the last
abbrev cmds : ℕ → Commands String
cmds i = record {
  before_client = set_model "m2" ∷ [];
  before_tool = remove_tool "grep" ∷ [];
  before_model = [];
  before_reasoning_level = set_tool_availability "grep" false ∷ [];
  before_skill = activate_skill "rust" ∷ [];
}

send-IsCurrent_example :
    Each
      (λ i w. IsCurrent text_json (reads text_json env cmds i) w)
      0
      (send text_json debug (some "Be brief.") (watching text_json env cmds call) []).loop.requests
send-IsCurrent_example =
    send-IsCurrent text_json debug fs (Policy.default 300) (λ c. 0) surroundings builder (given 0)
      (set_model "m1" ∷ []) cmds (some "Be brief.") call [] refl
      (λ i. (refl, refl, refl, refl, refl))

abbrev moves : List (Move String)
moves =
    works
    ∷ calls (set_model "m3")
    ∷ calls (remove_tool "grep")
    ∷ works
    ∷ calls (activate_skill "rust")
    ∷ calls (set_model "m4")
    ∷ []

moved_by-after_all_example :
    let rt = moved_by text_json moves (live text_json env [] []) in
    ((Runtime.model text_json rt).0 ≡ "m4")
    × ((Runtime.reasoning_level text_json rt).0 ≡ env.reasoning_level)
    × (any (λ k. str_eq k "grep") (Runtime.tool_names text_json rt).0 ≡ false)
    × ((Runtime.activate_skill text_json "grep" rt).0 ≡ has_skill text_json "grep" env)
moved_by-after_all_example = moved_by-after_all text_json moves env [] "grep"
