-- ===== src/Tests/Agent.antt =====
-- An agent that is used, reset and used again.
use funera.Prelude.{[], ◌∷◌, none, some, List, String}
use funera.Tests.Data.{text_json}
use funera.Tests.ReAct.{call_turn, debug}
use funera.ReAct.Loop.{not_cancelled}
use funera.Orchestrate.Agent.{Call, send}
use funera.Orchestrate.Agent.Prompt.{
  send-KeepsPrompt_after, KeepsPrompt, converse, Use, sends, resets,
}

abbrev pub call : Call String
call = record {
  message = "Hello";
  max_iterations = 2;
  middleware = none;
  turns = λ n. call_turn not_cancelled;
}

abbrev uses : List (Use text_json debug "Be brief.")
uses = sends call ∷ resets ∷ sends call ∷ []

send-KeepsPrompt_after_example :
    KeepsPrompt text_json debug "Be brief."
      (send text_json debug
        (some "Be brief.")
        call
        (converse text_json debug "Be brief." uses [])).loop
send-KeepsPrompt_after_example = send-KeepsPrompt_after text_json debug "Be brief." uses call
