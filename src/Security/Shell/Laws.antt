-- ===== src/Security/Shell/Laws.antt =====
-- What `ShellPolicy::check_command` of funera_core/src/security/policy.rs lets through.
use funera.Security.Error.{PolicyError, command_not_allowed}
use funera.Events.{◌>>◌, >>-eq-ok}
use funera.Prelude.{
  [], ◌∷◌, ◌≡◌, ◌↔◌, true, refl, arith, List, Bool, String, inl, inr, all, any,
  starts_with_of_push_str, Bool-cases, not, starts_with, ◌||◌, false, if◌then◌else◌, ◌&&◌,
}
use funera.Security.Shell.{
  ShellPolicy, Patterns, dangerous, match_pattern, deny_first, match_dangerous, is_allowed,
  check_command, ok, is_nil, Result, err,
}

-- no pattern of the list matches
abbrev pub passes : Patterns → String → List String → Bool
passes p command patterns = all (λ pattern. not (match_pattern p command pattern)) patterns

-- the command begins with one of the allowed texts
abbrev pub has_prefix : String → List String → Bool
has_prefix command prefixes = any (λ prefix. starts_with command prefix) prefixes

deny_first-passes :
    (p : Patterns) (c : String) (l : List String)
    → (deny_first p c l ≡ ok tt) ↔ (passes p c l ≡ true)
unfolding deny_first
deny_first-passes p c [] = (λ h. refl, λ h. refl)
deny_first-passes p c (pattern ∷ l) = elim (Bool-cases (match_pattern p c pattern)) [
  | inl hit ↦ rw hit (λ h. ground arith, λ h. ground arith)
  | inr miss ↦ rw miss (deny_first-passes p c l)
]

is_allowed-has_prefix : (c : String) (l : List String) → is_allowed c l ≡ has_prefix c l
is_allowed-has_prefix c [] = refl
is_allowed-has_prefix c (prefix ∷ l) =
    ground (arith, starts_with_of_push_str c prefix " ", is_allowed-has_prefix c l)

guarded-passes :
    (b : Bool) (p : Patterns) (c : String) (l : List String)
    → ((if b then deny_first p c l else ok tt) ≡ ok tt) ↔ ((not b || passes p c l) ≡ true)
guarded-passes true p c l = deny_first-passes p c l
guarded-passes false p c l = (λ h. refl, λ h. refl)

unless-eq-ok :
    (a b : Bool) (e : PolicyError) (m : Result (Unit {0}) PolicyError)
    → ((if not a && not b then err e else m) ≡ ok tt) ↔ (((a || b) ≡ true) × (m ≡ ok tt))
unless-eq-ok true b e m = (λ h. (refl, h), λ h. h.1)
unless-eq-ok false true e m = (λ h. (refl, h), λ h. h.1)
unless-eq-ok false false e m = (λ h. cc, λ h. cc)

-- A command passes exactly if the list of allowed commands is empty or holds a text that the command
-- begins with, no dangerous pattern matches where the policy blocks those, and no pattern of the
-- policy's own matches. The code's second test, a prefix with a space after it, lets nothing more
-- through: `git` allows `gitk` as well as `git status`.
pub check_command-eq-ok :
    (p : Patterns) (policy : ShellPolicy) (c : String)
    → (check_command p policy c ≡ ok tt) ↔ (
        ((is_nil policy.allow_commands || has_prefix c policy.allow_commands) ≡ true)
        × ((not policy.block_builtin_dangerous || passes p c (dangerous p)) ≡ true)
        × (passes p c policy.deny_patterns ≡ true))
unfolding check_command match_dangerous
check_command-eq-ok p policy c =
    rw (is_allowed-has_prefix c policy.allow_commands)
      let built_in = guarded-passes policy.block_builtin_dangerous p c (dangerous p) in
        let own = deny_first-passes p c policy.deny_patterns in
        let listed =
          >>-eq-ok (if policy.block_builtin_dangerous then deny_first p c (dangerous p) else ok tt)
            (deny_first p c policy.deny_patterns) in
        let whole =
          unless-eq-ok (is_nil policy.allow_commands) (has_prefix c policy.allow_commands)
            (command_not_allowed c)
            ((if policy.block_builtin_dangerous then deny_first p c (dangerous p) else ok tt)
              >> deny_first p c policy.deny_patterns) in
        (
          λ h. (
            (whole.0 h).0,
            built_in.0 (listed.0 (whole.0 h).1).0,
            own.0 (listed.0 (whole.0 h).1).1,
          ),
          λ h. whole.1 (h.0, listed.1 (built_in.1 h.1, own.1 h.2)),
        )
