-- ===== src/Orchestrate/Runtime/Fresh.antt =====
-- The requests of a call of funera-orchestrate/src/agent.rs against the environment that the commands
-- of the runtime change while the call runs.
use funera.Env.Actor.{EnvCmd, run}
use funera.Env.State.{FuneraEnv}
use funera.Env.Synced.{keeps_prompt}
use funera.Env.Watcher.{Commands, reads, watch}
use funera.Env.Watcher.Fresh.{KeepsPrompt, IsCurrent, watch-IsCurrent}
use funera.Chat.Message.{FuneraMessage}
use funera.Events.{FinishReason}
use funera.Json.{JsonOps}
use funera.Orchestrate.Agent.{
  Call, send, react_loop, close_session, wiring, at_session, push_message,
}
use funera.Orchestrate.Event.{AgentEvent, agent_events}
use funera.Orchestrate.Builder.{AgentRuntimeBuilder, Surroundings}
use funera.Orchestrate.Builder.Runtime.{Client, build_env}
use funera.Orchestrate.Builder.Start.{run-build_env-IsSynced}
use funera.ReAct.Loop.Requests.{Each, Asks, run-Asks}
use funera.ReAct.Loop.{Loop, Watched}
use funera.ReAct.Loop
use funera.Security.PathGuard.{FileSystem}
use funera.Security.Policy.{ToolPolicy}
use funera.Prelude.{◌≡◌, true, all, ℕ, List, String, Option, none, some, [], refl}

module _ {Json F64 : Type 0} (json : JsonOps Json) where
  -- the call, with the reads of its iterations from the environment
  abbrev pub watching : FuneraEnv Json F64 → (ℕ → Commands Json) → Call Json → Call Json
  watching env cmds c = record c {
    turns = λ i. record (c.turns i) { watched = watch (reads json env cmds i) };
  }

module _ {Json : Type 0} (json : JsonOps Json) (debug : FinishReason → String)
    (C : ℕ → Watched Json → Type 0) where
  requests-close_session :
      (l : Loop Json (AgentEvent Json)) (r : Loop Json (AgentEvent Json) × Option String)
      → Asks C 0 l r.0
      → l.requests ≡ []
      → Each C 0 (close_session json debug r).loop.requests
  requests-close_session l (m, none) h e = rw h.split (rw e h.each)
  requests-close_session l (m, some err) h e = rw h.split (rw e h.each)

  react_loop-Each :
      (first : FuneraMessage Json) (c : Call Json) (msgs : List (FuneraMessage Json))
      → ((i : ℕ) → C i (c.turns i).watched)
      → Each C 0 (react_loop json debug first c msgs).loop.requests
  unfolding react_loop
  react_loop-Each first c msgs current =
      let opened = at_session (push_message json debug first msgs) in
      requests-close_session opened
        (Loop.run json agent_events debug (wiring c) c.max_iterations c.turns opened)
        (run-Asks C json agent_events debug (wiring c) c.turns current c.max_iterations opened) refl

  send-Each :
      (prompt : Option String) (c : Call Json) (msgs : List (FuneraMessage Json))
      → ((i : ℕ) → C i (c.turns i).watched)
      → Each C 0 (send json debug prompt c msgs).loop.requests
  unfolding send
  send-Each prompt c msgs current = react_loop-Each _ c _ current

module _ {Json F64 : Type 0} (json : JsonOps Json) (debug : FinishReason → String) (fs : FileSystem)
    (policy : ToolPolicy F64) (number : Client → ℕ) (surroundings : Surroundings) where
  -- Whatever commands the actor of a built runtime has handled before a call of `send`, and handles
  -- before and between the reads of its iterations, if none sets a prompt by hand, then each request of
  -- the call carries the client, the available tools, the model, the reasoning level and the prompt of
  -- the active skills that the environment has when the iteration reads them: no request is made with
  -- a value from before a command that has been handled.
  pub send-IsCurrent :
      (b : AgentRuntimeBuilder Json F64) (client : Client) (earlier : List (EnvCmd Json))
      (cmds : ℕ → Commands Json) (prompt : Option String) (c : Call Json)
      (msgs : List (FuneraMessage Json))
      → all keeps_prompt earlier ≡ true
      → ((i : ℕ) → KeepsPrompt (cmds i))
      → let env = run json earlier (build_env json fs policy number surroundings b client) in
        Each
          (λ i w. IsCurrent json (reads json env cmds i) w)
          0
          (send json debug prompt (watching json env cmds c) msgs).loop.requests
  send-IsCurrent b client earlier cmds prompt c msgs k ks =
      let env = run json earlier (build_env json fs policy number surroundings b client) in
      send-Each json debug (λ i w. IsCurrent json (reads json env cmds i) w) prompt
        (watching json env cmds c) msgs
        (watch-IsCurrent json env cmds ks
          (run-build_env-IsSynced json fs policy number surroundings b client earlier k))
