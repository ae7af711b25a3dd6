-- ===== src/Env/Disposers/Laws.antt =====
-- Teardown in funera_core/src/env.rs undoes what was set up.
use funera.Prelude.{[], ◌∷◌, ◌≡◌, ◌++◌, ◌∙◌, refl, List, All, ap}
use funera.Env.Disposers.{Disposer, Body, effect, dispose, run_rev, run_effects}

module _ {W : Type 0} where
  -- the undo restores the state in which the body ran, whether it then panics or not
  abbrev pub IsReversible : Body W → Type 0
  IsReversible body = (w : W) → ((body w).1 (body w).0).0 ≡ w

  run_rev-append :
      (ds : List (Disposer W)) (d : Disposer W) (w : W)
      → run_rev (ds ++ (d ∷ [])) w ≡ run_rev ds (d w).0
  unfolding run_rev
  run_rev-append [] d w = refl
  run_rev-append (e ∷ ds) d w = ap (λ x. (e x).0) (run_rev-append ds d w)

  -- what a teardown makes of the state that the effects leave is what it makes of the state before
  dispose-run_effects_from :
      (bodies : List (Body W)) (w : W) (ds : List (Disposer W))
      → All IsReversible bodies
      → dispose (run_effects bodies (w, ds)) ≡ dispose (w, ds)
  unfolding dispose run_effects effect
  dispose-run_effects_from [] w ds h = refl
  dispose-run_effects_from (body ∷ bodies) w ds (p, h) =
      dispose-run_effects_from bodies (body w).0 (ds ++ ((body w).1 ∷ [])) h
      ∙ ap (λ x. (x, [])) (run_rev-append ds (body w).1 (body w).0 ∙ ap (run_rev ds) (p w))

  -- Effects that can each be undone, run one after another and then disposed of, leave the state as it
  -- was and no disposer behind, also if disposers panic after their work; a second teardown does
  -- nothing.
  pub dispose-run_effects :
      (bodies : List (Body W)) (w : W)
      → All IsReversible bodies
      → (dispose (run_effects bodies (w, [])) ≡ (w, []))
        × (dispose (dispose (run_effects bodies (w, []))) ≡ dispose (run_effects bodies (w, [])))
  unfolding dispose run_rev
  dispose-run_effects bodies w h = (dispose-run_effects_from bodies w [] h, refl)
