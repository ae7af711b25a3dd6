-- ===== src/Tests/Env.antt =====
-- A counter that effects act on, and a skill file.
use funera.Prelude.{[], ◌∷◌, ◌≡◌, ◌+◌, ◌-◌, true, refl, arith, ℕ}
use funera.Env.Skills.Load.{from_str, skill_of, SkillFrontmatter}
use funera.Env.Skills.Load.Format.{from_str-file_text, file_text, dashless}
use funera.BuiltinTools.Str.{trim, trim_end}
use funera.Events.{Result, ok}
use funera.Prelude.{String, some}
use funera.Env.Disposers.{Body, dispose, run_effects}
use funera.Env.Disposers.Laws.{dispose-run_effects, IsReversible}

-- adds to a counter; the undo takes it away again, and panics after that
abbrev adding : ℕ → Body ℕ
adding n w = (w + n, λ v. (v - n, true))

adding-IsReversible : (n : ℕ) → IsReversible (adding n)
adding-IsReversible n w = omega arith

dispose-run_effects_example :
    (dispose (run_effects (adding 2 ∷ adding 3 ∷ []) (7, [])) ≡ (7, []))
    × (dispose (dispose (run_effects (adding 2 ∷ adding 3 ∷ []) (7, [])))
        ≡ dispose (run_effects (adding 2 ∷ adding 3 ∷ []) (7, [])))
dispose-run_effects_example =
    dispose-run_effects (adding 2 ∷ adding 3 ∷ []) 7
      (adding-IsReversible 2, (adding-IsReversible 3, tt))

-- a parser that gives the whole text as the name
abbrev from_yaml : String → Result SkillFrontmatter String
from_yaml s = ok (record { name = s; description = some ""; disable_model_invocation = some true })

yaml-dashless : dashless true "rust" ≡ true
unfolding dashless
yaml-dashless = refl

body-trim_end : trim_end "Write Rust." ≡ "Write Rust."
unfolding trim_end
body-trim_end = refl

from_str-file_text_example :
    from_str from_yaml (file_text "rust" "Write Rust.")
    ≡ skill_of (trim "Write Rust.") (from_yaml (trim "rust"))
from_str-file_text_example =
    from_str-file_text from_yaml "rust" "Write Rust." yaml-dashless body-trim_end refl
