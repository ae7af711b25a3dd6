-- ===== src/Chat/Session.antt =====
-- funera_core/src/chat/session.rs: the session actor as a function from its state and a command
-- to its state and its reply, and a run over the commands in the order of its channel.
pub mod Laws
use funera.Prelude.{List, [], ◌∷◌, ◌++◌, map}
use funera.Json.{JsonOps}
use funera.Chat.Message.{FuneraMessage, format_json}

pub data SessionCmd (Json : Type 0) : Type 0 where
  push_messages : List (FuneraMessage Json) → SessionCmd Json
  fetch_context : SessionCmd Json
  get_messages : SessionCmd Json
  clear : SessionCmd Json

pub data Reply (Json : Type 0) : Type 0 where
  done : Reply Json
  context : List Json → Reply Json
  messages : List (FuneraMessage Json) → Reply Json

module _ {Json : Type 0} (json : JsonOps Json) where
  unfoldable pub handle :
      List (FuneraMessage Json) → SessionCmd Json → List (FuneraMessage Json) × Reply Json
  handle msgs (push_messages new) = (msgs ++ new, done)
  handle msgs fetch_context = (msgs, context (map (format_json json) msgs))
  handle msgs get_messages = (msgs, messages msgs)
  handle msgs clear = ([], done)

  unfoldable pub run_actor :
      List (FuneraMessage Json)
      → List (SessionCmd Json)
      → List (FuneraMessage Json) × List (Reply Json)
  run_actor msgs [] = (msgs, [])
  run_actor msgs (c ∷ cs) =
      let (msgs', r) = handle msgs c in let (final, rs) = run_actor msgs' cs in (final, r ∷ rs)
