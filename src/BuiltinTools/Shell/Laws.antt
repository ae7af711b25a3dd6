-- ===== src/BuiltinTools/Shell/Laws.antt =====
-- The bounds on the time and the text of `ShellTool` in funera_builtin_tools/src/shell.rs.
use funera.Prelude.{
  ◌≡◌, false, none, some, refl, Option, String, inl, inr, Bool-cases, get_or, ℤ, is_zero, negsuc,
  ◌∙◌, arith, if◌then◌else◌, is_empty, push_str, ap, str_eq_iff, nil-push_str,
}
use funera.Security.Sandbox.Runner.{Output, format_triple_output, sections}
use funera.BuiltinTools.Shell.{
  Seconds, format_output, timeout_of, success, clamp, push_stderr, push_stdout,
}

code_test : (o : Option ℤ) → success o ≡ is_zero (get_or o (negsuc 0))
code_test none = refl
code_test (some c) = refl

fill_empty :
    (r t : String) → (if is_empty r then push_str r t else r) ≡ (if is_empty r then t else r)
fill_empty r t = elim (Bool-cases (is_empty r)) [
  | inl empty ↦ rw empty (ap (λ q. push_str q t) ((str_eq_iff r "").0 empty) ∙ nil-push_str t)
  | inr full ↦ rw full refl
]

module _ (show_i32 : ℤ → String) where
  same_sections :
      (output : Output)
      → push_stderr show_i32 output (push_stdout show_i32 output "")
        ≡ sections output.stdout output.stderr
  same_sections output = ground arith

  -- The text of a command's output is the same whether the sandbox made it of the two streams and the
  -- exit code or the tool made it of the output of a process, which may have no exit code.
  pub format_output-format_triple_output :
      (output : Output)
      → format_output show_i32 output
        ≡ format_triple_output show_i32 output.stdout output.stderr (get_or output.code (negsuc 0))
  unfolding format_output format_triple_output
  format_output-format_triple_output output =
      rw (code_test output.code)
        (rw (same_sections output) (rw (fill_empty (sections output.stdout output.stderr) _) refl))

module _ {Json Secs : Type 0} (seconds : Seconds Json Secs) where
  clamped :
      (t : Secs)
      → seconds.lt seconds.one seconds.one ≡ false
      → seconds.lt seconds.three_hundred seconds.one ≡ false
      → seconds.lt seconds.three_hundred seconds.three_hundred ≡ false
      → (seconds.lt (clamp seconds t seconds.one seconds.three_hundred) seconds.one ≡ false)
        × (seconds.lt seconds.three_hundred (clamp seconds t seconds.one seconds.three_hundred)
            ≡ false)
  clamped t a b c = elim (Bool-cases (seconds.lt t seconds.one)) [
    | inl low ↦ rw low (a, b)
    | inr fine ↦ elim (Bool-cases (seconds.lt seconds.three_hundred t)) [
      | inl high ↦ rw fine (rw high (b, c))
      | inr low ↦ rw fine (rw low (fine, low))
    ]
  ]

  -- The limit on a command's time is never below one second nor above 300, whatever the argument is.
  pub timeout_of-clamp :
      (args : Json)
      → seconds.lt seconds.one seconds.one ≡ false
      → seconds.lt seconds.three_hundred seconds.one ≡ false
      → seconds.lt seconds.three_hundred seconds.three_hundred ≡ false
      → (seconds.lt (timeout_of seconds args) seconds.one ≡ false)
        × (seconds.lt seconds.three_hundred (timeout_of seconds args) ≡ false)
  unfolding timeout_of
  timeout_of-clamp args a b c =
      clamped (get_or (seconds.get_f64 args "timeout") seconds.thirty) a b c
