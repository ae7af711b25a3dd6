-- ===== src/Env/Disposers.antt =====
use funera.Prelude.{[], ◌∷◌, ◌++◌, List, Bool}
-- The reversible effects of `FuneraEnv` in funera_core/src/env.rs: `effect` and `dispose`. What the
-- closures act on is a parameter; a disposer says whether it panicked.
pub mod Laws

abbrev pub Disposer : Type 0 → Type 0
Disposer W = W → W × Bool

-- a body acts, and returns its undo
abbrev pub Body : Type 0 → Type 0
Body W = W → W × Disposer W

module _ {W : Type 0} where
  unfoldable pub effect : Body W → W × List (Disposer W) → W × List (Disposer W)
  effect body (w, disposers) = ((body w).0, disposers ++ ((body w).1 ∷ []))

  -- the last registered first; a panic is caught, and the others still run
  unfoldable pub run_rev : List (Disposer W) → W → W
  run_rev [] w = w
  run_rev (undo ∷ disposers) w = (undo (run_rev disposers w)).0

  unfoldable pub dispose : W × List (Disposer W) → W × List (Disposer W)
  unfolding run_rev
  dispose (w, disposers) = (run_rev disposers w, [])

  unfoldable pub run_effects : List (Body W) → W × List (Disposer W) → W × List (Disposer W)
  unfolding effect
  run_effects [] s = s
  run_effects (body ∷ bodies) s = run_effects bodies (effect body s)
