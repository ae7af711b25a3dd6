-- ===== src/Orchestrate/Runtime/Simulation.antt =====
-- The methods of `AgentRuntime` in funera-orchestrate/src/runtime.rs, called in any order while the actor
-- works at any time, against the environment that handles each command at once.
use mathlib.Core.Path.{subst}
use funera.Env.State.{FuneraEnv}
use funera.Env.Actor.{
  EnvCmd, EnvStateEvent, Answer, handle, run, set_model, set_client, set_reasoning_level, add_tool,
  remove_tool, set_tool_availability, add_skill, remove_skill, activate_skill, deactivate_skill,
  set_skill_prompt, get_skill_prompt, get_model, get_reasoning_level, get_tool_names,
  approve_tool_call,
}
use funera.Orchestrate.Runtime
use funera.Orchestrate.Runtime.{send_cmd, actor_round, answer_after, ask}
use funera.Orchestrate.Runtime.Laws.{live}
use funera.Json.{JsonOps}
use funera.Prelude.{[], ◌∷◌, ◌++◌, ◌≡◌, ◌∙◌, some, List, Option, refl, ap, sym}

-- what happens to a runtime: a method is called, named by the command that it sends, or the actor
-- receives a command
pub data Move (Json : Type 0) : Type 0 where
  calls : EnvCmd Json → Move Json
  works : Move Json

abbrev pub called : {Json : Type 0} → List (Move Json) → List (EnvCmd Json)
called [] = []
called (calls cmd ∷ moves) = cmd ∷ called moves
called (works ∷ moves) = called moves

module _ {Json F64 : Type 0} (json : JsonOps Json) where
  abbrev pub invoke : EnvCmd Json → Runtime.Runtime Json F64 → Runtime.Runtime Json F64
  invoke (set_model model) rt = Runtime.set_model model rt
  invoke (set_client client) rt = Runtime.set_client client rt
  invoke (set_reasoning_level level) rt = Runtime.set_reasoning_level level rt
  invoke (add_tool t) rt = Runtime.add_tool t rt
  invoke (remove_tool name) rt = Runtime.remove_tool name rt
  invoke (set_tool_availability name available) rt = Runtime.set_tool_availability name available rt
  invoke (add_skill skill) rt = Runtime.add_skill skill rt
  invoke (remove_skill name) rt = Runtime.remove_skill name rt
  invoke (activate_skill name) rt = (Runtime.activate_skill json name rt).1
  invoke (deactivate_skill name) rt = (Runtime.deactivate_skill json name rt).1
  invoke (set_skill_prompt prompt) rt = Runtime.set_skill_prompt prompt rt
  invoke get_skill_prompt rt = (Runtime.skill_prompt json rt).1
  invoke get_model rt = (Runtime.model json rt).1
  invoke get_reasoning_level rt = (Runtime.reasoning_level json rt).1
  invoke get_tool_names rt = (Runtime.tool_names json rt).1
  invoke (approve_tool_call call_id approved) rt =
      (Runtime.approve_tool_call json call_id approved rt).1

  abbrev pub moved_by : List (Move Json) → Runtime.Runtime Json F64 → Runtime.Runtime Json F64
  moved_by [] rt = rt
  moved_by (calls cmd ∷ moves) rt = moved_by moves (invoke cmd rt)
  moved_by (works ∷ moves) rt = moved_by moves (actor_round json rt)

  -- the environment that the runtime will have when nothing waits
  pub record StandsFor (rt : Runtime.Runtime Json F64) (target : FuneraEnv Json F64) : Type 0 where
    pub env : FuneraEnv Json F64
    pub waiting : List (EnvCmd Json)
    pub events : List EnvStateEvent
    pub is_live : rt ≡ live json env waiting events
    pub settles : run json waiting env ≡ target

  run-snoc :
      (waiting : List (EnvCmd Json)) (cmd : EnvCmd Json) (env : FuneraEnv Json F64)
      → run json (waiting ++ cmd ∷ []) env ≡ (handle json cmd (run json waiting env)).0
  unfolding run
  run-snoc [] cmd env = refl
  run-snoc (c ∷ waiting) cmd env = run-snoc waiting cmd (handle json c env).0

  pub send_cmd-StandsFor :
      (cmd : EnvCmd Json) (rt : Runtime.Runtime Json F64) (target : FuneraEnv Json F64)
      → StandsFor rt target
      → StandsFor (send_cmd cmd rt) (handle json cmd target).0
  unfolding send_cmd
  send_cmd-StandsFor cmd rt target h = record {
    env = h.env;
    waiting = h.waiting ++ cmd ∷ [];
    events = h.events;
    is_live = ap (send_cmd cmd) h.is_live;
    settles = run-snoc h.waiting cmd h.env ∙ ap (λ e. (handle json cmd e).0) h.settles;
  }

  live-actor_round :
      (waiting : List (EnvCmd Json)) (env : FuneraEnv Json F64) (events : List EnvStateEvent)
      → StandsFor (actor_round json (live json env waiting events)) (run json waiting env)
  unfolding actor_round run
  live-actor_round [] env events = record {
    env = env;
    waiting = [];
    events = events;
    is_live = refl;
    settles = refl;
  }
  live-actor_round (cmd ∷ waiting) env events = record {
    env = (handle json cmd env).0;
    waiting = waiting;
    events = events ++ (handle json cmd env).1;
    is_live = refl;
    settles = refl;
  }

  pub actor_round-StandsFor :
      (rt : Runtime.Runtime Json F64) (target : FuneraEnv Json F64)
      → StandsFor rt target
      → StandsFor (actor_round json rt) target
  actor_round-StandsFor rt target h =
      let after = live-actor_round h.waiting h.env h.events in
      record {
        env = after.env;
        waiting = after.waiting;
        events = after.events;
        is_live = ap (actor_round json) h.is_live ∙ after.is_live;
        settles = after.settles ∙ h.settles;
      }

  -- the answer, and the runtime after it
  pub record IsAnswered (cmd : EnvCmd Json) (target : FuneraEnv Json F64)
      (p : Option Answer × Runtime.Runtime Json F64) : Type 0 where
    pub answer : p.0 ≡ some (handle json cmd target).2
    pub after : StandsFor p.1 (handle json cmd target).0

  answer_after-IsAnswered :
      (waiting : List (EnvCmd Json)) (cmd : EnvCmd Json) (env : FuneraEnv Json F64)
      (events : List EnvStateEvent)
      → IsAnswered cmd (run json waiting env) (answer_after json waiting cmd env events)
  unfolding answer_after run
  answer_after-IsAnswered [] cmd env events = record {
    answer = refl;
    after = record {
      env = (handle json cmd env).0;
      waiting = [];
      events = events ++ (handle json cmd env).1;
      is_live = refl;
      settles = refl;
    };
  }
  answer_after-IsAnswered (c ∷ waiting) cmd env events =
      answer_after-IsAnswered waiting cmd (handle json c env).0 (events ++ (handle json c env).1)

  ask-live :
      (waiting : List (EnvCmd Json)) (cmd : EnvCmd Json) (env : FuneraEnv Json F64)
      (events : List EnvStateEvent)
      → ask json cmd (live json env waiting events) ≡ answer_after json waiting cmd env events
  unfolding ask
  ask-live waiting cmd env events = refl

  pub ask-IsAnswered :
      (cmd : EnvCmd Json) (rt : Runtime.Runtime Json F64) (target : FuneraEnv Json F64)
      → StandsFor rt target
      → IsAnswered cmd target (ask json cmd rt)
  ask-IsAnswered cmd rt target h =
      let same = ap (ask json cmd) h.is_live ∙ ask-live h.waiting cmd h.env h.events in
      subst (λ p. IsAnswered cmd target p) (sym same)
        (subst (λ e. IsAnswered cmd e (answer_after json h.waiting cmd h.env h.events)) h.settles
          (answer_after-IsAnswered h.waiting cmd h.env h.events))

  invoke-StandsFor :
      (cmd : EnvCmd Json) (rt : Runtime.Runtime Json F64) (target : FuneraEnv Json F64)
      → StandsFor rt target
      → StandsFor (invoke cmd rt) (handle json cmd target).0
  invoke-StandsFor (set_model model) = send_cmd-StandsFor (set_model model)
  invoke-StandsFor (set_client client) = send_cmd-StandsFor (set_client client)
  invoke-StandsFor (set_reasoning_level level) = send_cmd-StandsFor (set_reasoning_level level)
  invoke-StandsFor (add_tool t) = send_cmd-StandsFor (add_tool t)
  invoke-StandsFor (remove_tool name) = send_cmd-StandsFor (remove_tool name)
  invoke-StandsFor (set_tool_availability name available) =
      send_cmd-StandsFor (set_tool_availability name available)
  invoke-StandsFor (add_skill skill) = send_cmd-StandsFor (add_skill skill)
  invoke-StandsFor (remove_skill name) = send_cmd-StandsFor (remove_skill name)
  invoke-StandsFor (set_skill_prompt prompt) = send_cmd-StandsFor (set_skill_prompt prompt)
  invoke-StandsFor (activate_skill name) =
      λ rt target h. (ask-IsAnswered (activate_skill name) rt target h).after
  invoke-StandsFor (deactivate_skill name) =
      λ rt target h. (ask-IsAnswered (deactivate_skill name) rt target h).after
  invoke-StandsFor get_skill_prompt =
      λ rt target h. (ask-IsAnswered get_skill_prompt rt target h).after
  invoke-StandsFor get_model = λ rt target h. (ask-IsAnswered get_model rt target h).after
  invoke-StandsFor get_reasoning_level =
      λ rt target h. (ask-IsAnswered get_reasoning_level rt target h).after
  invoke-StandsFor get_tool_names = λ rt target h. (ask-IsAnswered get_tool_names rt target h).after
  invoke-StandsFor (approve_tool_call call_id approved) =
      λ rt target h. (ask-IsAnswered (approve_tool_call call_id approved) rt target h).after

  pub moved_by-StandsFor :
      (moves : List (Move Json)) (rt : Runtime.Runtime Json F64) (target : FuneraEnv Json F64)
      → StandsFor rt target
      → StandsFor (moved_by moves rt) (run json (called moves) target)
  unfolding run
  moved_by-StandsFor [] rt target h = h
  moved_by-StandsFor (calls cmd ∷ moves) rt target h =
      moved_by-StandsFor moves (invoke cmd rt) (handle json cmd target).0
        (invoke-StandsFor cmd rt target h)
  moved_by-StandsFor (works ∷ moves) rt target h =
      moved_by-StandsFor moves (actor_round json rt) target (actor_round-StandsFor rt target h)

  -- the answer to a question behind the moves
  pub ask-moved_by :
      (moves : List (Move Json)) (cmd : EnvCmd Json) (env : FuneraEnv Json F64)
      (events : List EnvStateEvent)
      → (ask json cmd (moved_by moves (live json env [] events))).0
        ≡ some (handle json cmd (run json (called moves) env)).2
  unfolding run
  ask-moved_by moves cmd env events =
      let start : StandsFor (live json env [] events) env = record {
        env = env;
        waiting = [];
        events = events;
        is_live = refl;
        settles = refl;
      } in
      (ask-IsAnswered cmd (moved_by moves (live json env [] events)) (run json (called moves) env)
        (moved_by-StandsFor moves (live json env [] events) env start)).answer
