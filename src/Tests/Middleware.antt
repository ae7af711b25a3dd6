-- ===== src/Tests/Middleware.antt =====
-- A chain with an inspector, a censor and a blocker.
use funera.Middleware.Laws.{IsBlocker, process-IsBlocker, process-run_mutators}
use funera.Middleware.{
  InspectorMiddleware, MiddlewareChain, MutatorMiddleware, process, inspector, modify, run_mutators,
  block, mutator, pass,
}
use funera.Prelude.{[], ◌∷◌, ◌≡◌, true, some, refl, if◌then◌else◌, String, str_eq}
use funera.Events.{err}

abbrev logger : InspectorMiddleware String
logger = record { name = "log"; inspect = λ e. some "seen" }

abbrev censor : MutatorMiddleware String
censor = record { name = "censor"; process = λ e. modify "***" }

abbrev blocker : MutatorMiddleware String
blocker = record { name = "blocker"; process = λ e. if str_eq e "***" then block "bad" else pass }

abbrev chain : MiddlewareChain String
chain = record {
  layers = inspector (logger ∷ []) ∷ mutator (censor ∷ []) ∷ mutator (blocker ∷ []) ∷ [];
  error_tx = true;
}

blocked : (process chain "word").0 ≡ err (record { middleware_name = "blocker"; reason = "bad" })
unfolding process
blocked = refl

process-run_mutators_example :
    (process chain "word").0 ≡ run_mutators (censor ∷ blocker ∷ []) "word"
process-run_mutators_example = process-run_mutators chain "word"

process-IsBlocker_example :
    IsBlocker
      (censor ∷ blocker ∷ [])
      "word"
      (record { middleware_name = "blocker"; reason = "bad" })
process-IsBlocker_example =
    process-IsBlocker chain "word" (record { middleware_name = "blocker"; reason = "bad" }) blocked
