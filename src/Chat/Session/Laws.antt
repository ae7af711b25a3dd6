-- ===== src/Chat/Session/Laws.antt =====
-- What a session of funera_core/src/chat/session.rs holds and answers.
use funera.Prelude.{
  [], ◌∷◌, ◌≡◌, ◌++◌, ◌∙◌, true, false, refl, List, Bool, any, ap, map, sym, append-nil,
  append_assoc,
}
use funera.Chat.Session.{
  SessionCmd, Reply, handle, run_actor, push_messages, fetch_context, get_messages, clear, context,
  messages, FuneraMessage, JsonOps, format_json,
}

module _ {Json : Type 0} where
  abbrev pub is_clear : SessionCmd Json → Bool
  is_clear clear = true
  is_clear _ = false

  -- the messages of all pushes, in order
  abbrev pub pushed : List (SessionCmd Json) → List (FuneraMessage Json)
  pushed [] = []
  pushed (push_messages new ∷ cs) = new ++ pushed cs
  pushed (fetch_context ∷ cs) = pushed cs
  pushed (get_messages ∷ cs) = pushed cs
  pushed (clear ∷ cs) = pushed cs

module _ {Json : Type 0} (json : JsonOps Json) where
  run_actor-append :
      (msgs : List (FuneraMessage Json)) (cs ds : List (SessionCmd Json))
      → run_actor json msgs (cs ++ ds) ≡ (
        (run_actor json (run_actor json msgs cs).0 ds).0,
        (run_actor json msgs cs).1 ++ (run_actor json (run_actor json msgs cs).0 ds).1,
      )
  unfolding run_actor
  run_actor-append msgs [] ds = refl
  run_actor-append msgs (c ∷ cs) ds =
      ap
        (λ (p : List (FuneraMessage Json) × List (Reply Json)). (p.0, (handle json msgs c).1 ∷ p.1))
        (run_actor-append (handle json msgs c).0 cs ds)

  run_actor-pushed :
      (msgs : List (FuneraMessage Json)) (cs : List (SessionCmd Json))
      → any is_clear cs ≡ false
      → (run_actor json msgs cs).0 ≡ msgs ++ pushed cs
  unfolding run_actor handle
  run_actor-pushed msgs [] h = sym (append-nil msgs)
  run_actor-pushed msgs (push_messages new ∷ cs) h =
      run_actor-pushed (msgs ++ new) cs h ∙ append_assoc msgs new (pushed cs)
  run_actor-pushed msgs (fetch_context ∷ cs) h = run_actor-pushed msgs cs h
  run_actor-pushed msgs (get_messages ∷ cs) h = run_actor-pushed msgs cs h
  run_actor-pushed msgs (clear ∷ cs) h = cc

  -- The session holds the messages pushed since the last clear, in the order of the pushes, and a
  -- query answers with exactly those, as they are or formatted, whatever was held before.
  pub run_actor-clear :
      (msgs : List (FuneraMessage Json)) (before cs : List (SessionCmd Json))
      → any is_clear cs ≡ false
      → ((run_actor json msgs (before ++ (clear ∷ cs))).0 ≡ pushed cs)
        × (handle json (run_actor json msgs (before ++ (clear ∷ cs))).0 get_messages
            ≡ (pushed cs, messages (pushed cs)))
        × (handle json (run_actor json msgs (before ++ (clear ∷ cs))).0 fetch_context
            ≡ (pushed cs, context (map (format_json json) (pushed cs))))
  unfolding handle run_actor
  run_actor-clear msgs before cs h =
      let held =
        ap (λ (p : List (FuneraMessage Json) × List (Reply Json)). p.0)
          (run_actor-append msgs before (clear ∷ cs))
        ∙ run_actor-pushed [] cs h in
      (held, ap (λ m. (m, messages m)) held, ap (λ m. (m, context (map (format_json json) m))) held)
