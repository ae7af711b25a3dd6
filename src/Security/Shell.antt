-- ===== src/Security/Shell.antt =====
-- `ShellPolicy` of funera_core/src/security/policy.rs. The `regex` crate is a parameter of the model:
-- `is_match` is none for a pattern that does not compile. Without the `regex` feature the patterns
-- are substrings.
pub mod Laws
use funera.Prelude.{
  [], ◌∷◌, ◌&&◌, ◌||◌, true, false, if◌then◌else◌, List, Option, Bool, String, any, get_or, not,
  contains, starts_with, push_str,
}
use funera.Events.{Result, ok, err}
use funera.Security.Error.{PolicyError, command_denied, command_not_allowed}
use funera.Events.{◌>>=◌, ◌>>◌}

pub record ShellPolicy : Type 0 where
  pub allow_commands : List String
  pub deny_patterns : List String
  pub block_builtin_dangerous : Bool

abbrev pub permissive : ShellPolicy
permissive = record { allow_commands = []; deny_patterns = []; block_builtin_dangerous = false }

abbrev pub strict : ShellPolicy
strict = record { allow_commands = []; deny_patterns = []; block_builtin_dangerous = true }

abbrev pub with_allowed : List String → ShellPolicy
with_allowed commands = record {
  allow_commands = commands;
  deny_patterns = [];
  block_builtin_dangerous = true;
}

-- the feature `regex`, with the crate, or its absence
pub data Patterns : Type 0 where
  regex : (String → String → Option Bool) → Patterns
  substring : Patterns

abbrev pub dangerous_regexes : List String
dangerous_regexes =
    "(?i)\\brm\\s+-r[fR]" ∷ "(?i)\\brmdir\\b.*/s.*/q" ∷ "\\bdd\\s+if=.*of="
    ∷ "(?i)\\bformat\\s+[A-Za-z]:" ∷ "\\bdiskpart\\b" ∷ "\\bbcdedit\\b" ∷ "\\bshutdown\\b"
    ∷ "\\btaskkill\\b" ∷ "\\brundll32\\b" ∷ "\\bmshta\\b" ∷ "\\b(sudo|su\\b|doas)\\b"
    ∷ "(?i)\\bchmod\\b.*777" ∷ "(?i)\\bchown\\b.*root" ∷ "\\bmkfs\\.\\w+"
    ∷ "(?i)\\breg\\s+(add|delete)\\b" ∷ "\\b(icacls|cacls)\\s" ∷ "\\btakeown\\b"
    ∷ "\\bsc\\s+(stop|delete|config)\\b" ∷ "(?i)\\bcertutil\\b.*-urlcache"
    ∷ "(?i)\\bbitsadmin\\b.*/transfer" ∷ "(?i)-Ep\\s+Bypass|-ExecutionPolicy\\s+Bypass"
    ∷ "(?i)\\b(curl|wget)\\b.*\\|" ∷ "(?i)(-EncodedCommand|-enc\\s+[A-Za-z0-9+/=]{20,})"
    ∷ "\\$\\([^)]+\\)"
    ∷ "(?i)\\b(cat|less|head|tail|vi|nano|vim|cP|mv)\\s+[^\\s]*/(etc|var|usr|root|proc|sys|dev)/"
    ∷ "[A-Za-z]:\\\\(Windows|Program Files|ProgramData)\\b"
    ∷ "(?i)%(WINDIR|SYSTEMROOT|APPDATA|TEMP|USERPROFILE)%" ∷ "(?i)\\bdel\\b.*/f" ∷ []

abbrev pub dangerous_substrings : List String
dangerous_substrings =
    "rm -rf" ∷ "rm -rf " ∷ "rm -r " ∷ "rmdir /s" ∷ "format " ∷ "diskpart" ∷ "bcdedit" ∷ "shutdown"
    ∷ "taskkill" ∷ "rundll32" ∷ "mshta" ∷ "sudo " ∷ "su -" ∷ "doas " ∷ "chmod " ∷ "chown " ∷ "mkfs."
    ∷ "reg add" ∷ "reg delete" ∷ "icacls " ∷ "cacls " ∷ "takeown" ∷ "sc stop" ∷ "sc delete"
    ∷ "sc config" ∷ "certutil" ∷ "bitsadmin" ∷ "-EncodedCommand" ∷ "Bypass" ∷ "\\Windows\\"
    ∷ "%WINDIR%" ∷ "%SYSTEMROOT%" ∷ "%APPDATA%" ∷ []

-- `Regex::new(pattern).is_ok_and(|re| re.is_match(command))`, or `command.contains(pattern)`
unfoldable pub match_pattern : Patterns → String → String → Bool
match_pattern (regex is_match) command pattern = get_or (is_match pattern command) false
match_pattern substring command pattern = contains command pattern

abbrev pub dangerous : Patterns → List String
dangerous (regex is_match) = dangerous_regexes
dangerous substring = dangerous_substrings

-- the first pattern of a list that matches is the reason of the denial
unfoldable pub deny_first : Patterns → String → List String → Result (Unit {0}) PolicyError
deny_first p command [] = ok tt
deny_first p command (pattern ∷ patterns) =
    let rest = deny_first p command patterns in
    if match_pattern p command pattern then err (command_denied command pattern) else rest

unfoldable pub match_dangerous : Patterns → String → Result (Unit {0}) PolicyError
match_dangerous p command = deny_first p command (dangerous p)

abbrev pub is_allowed : String → List String → Bool
is_allowed command prefixes =
    any (λ prefix. starts_with command prefix || starts_with command (push_str prefix " ")) prefixes

abbrev pub is_nil : List String → Bool
is_nil [] = true
is_nil (x ∷ l) = false

unfoldable pub check_command : Patterns → ShellPolicy → String → Result (Unit {0}) PolicyError
unfolding match_dangerous
check_command p policy command =
    if not (is_nil policy.allow_commands) && not (is_allowed command policy.allow_commands)
    then err (command_not_allowed command)
    else do
      if policy.block_builtin_dangerous then match_dangerous p command else ok tt
      deny_first p command policy.deny_patterns
