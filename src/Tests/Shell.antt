-- ===== src/Tests/Shell.antt =====
-- The shell tool over a system where no command ends in time, and a platform that can confine it.
use funera.Events.{ok, ok_inj}
use funera.Security.PathGuard.{FileSystem, PathBuf}
use funera.Security.Sandbox.{SandboxPolicy}
use funera.Prelude.{
  [], ◌∷◌, ◌≡◌, ◌++◌, true, false, none, some, refl, List, Bool, ℕ, String, ap, ltb, sym,
}
use funera.Tests.Data.{text_json}
use funera.Security.Sandbox
use funera.Security.Sandbox.Runner.{
  Nono, Processes, AccessMode, read, read_write, Started, capabilities, system_sandbox_read_paths,
  format_triple_output,
}
use funera.Security.Sandbox.Confined.{IsNono, granted, capabilities-granted}
use funera.BuiltinTools.Shell.{Seconds, with_sandbox, format_output}
use funera.BuiltinTools.Shell.Outcomes.{Outcome, Confines, execute-Outcome}

-- capabilities as the lists of what they grant, with the flag of the network
abbrev Caps : Type 0
Caps = List (PathBuf × AccessMode) × Bool

abbrev nono : Nono Caps
nono = record {
  empty = ([], false);
  allow_path = λ path mode caps. ok (caps.0 ++ (path, mode) ∷ [], caps.1);
  block_network = λ caps. (caps.0, true);
  is_supported = true;
  apply_auto = λ caps. ok tt;
}

nono-IsNono : IsNono nono (λ caps. caps.0) (λ caps. caps.1)
nono-IsNono = record {
  grants-empty = refl;
  is_blocked-empty = refl;
  allow_path_lem = λ path mode c d h.
      (ap (λ (e : Caps). e.0) (sym (ok_inj h)), ap (λ (e : Caps). e.1) (sym (ok_inj h)));
  block_network_lem = λ c. (refl, refl);
}

abbrev fs : FileSystem
fs = record {
  parse = λ s. s ∷ [];
  display = λ p. "path";
  exists = λ p. true;
  canonicalize = λ p. ok p;
}

abbrev policy : SandboxPolicy
policy = Sandbox.strict_read_write ("work" ∷ [])

capabilities-granted_example :
    ((granted read_write (("work" ∷ []) ∷ []) ++ granted read (system_sandbox_read_paths fs))
      ≡ granted read policy.read_paths
        ++ granted read_write policy.read_write_paths
        ++ granted read policy.execute_paths
        ++ granted read (system_sandbox_read_paths fs))
    × (true ≡ policy.block_network)
unfolding capabilities funera.Security.Sandbox.Runner.to_capability_set
capabilities-granted_example =
    capabilities-granted nono (λ caps. caps.0) (λ caps. caps.1) nono-IsNono fs policy
      (granted read_write (("work" ∷ []) ∷ []) ++ granted read (system_sandbox_read_paths fs), true)
      refl

abbrev seconds : Seconds String ℕ
seconds = record {
  get_f64 = λ v key. none;
  lt = λ a b. ltb a b;
  one = 1;
  thirty = 30;
  three_hundred = 300;
  display = λ n. "30.0";
}

abbrev processes : Processes Caps ℕ
processes = record { output = λ c confined limit. none; show_i32 = λ code. "1" }

abbrev nothing_started : Started Caps
nothing_started = record { started = []; abandoned = [] }

execute-Outcome_example :
    Outcome
      (Confines nono fs (some policy))
      nothing_started
      (funera.BuiltinTools.Shell.execute text_json seconds processes nono fs
        (with_sandbox policy)
        "command"
        nothing_started).0
      (funera.BuiltinTools.Shell.execute text_json seconds processes nono fs
        (with_sandbox policy)
        "command"
        nothing_started).1
execute-Outcome_example =
    execute-Outcome text_json seconds processes nono fs (with_sandbox policy) "command"
      nothing_started
