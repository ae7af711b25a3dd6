-- ===== src/Security/Error.antt =====
-- `PolicyError` of funera_core/src/security/policy.rs with the text that `thiserror` derives
-- for it. A timeout, an f64, is its text here: the code compares the
-- number by a parameter of the model and only shows it in the error.
use funera.Prelude.{[], ◌∷◌, ℕ, String, concat, push_str}

pub data PolicyError : Type 0 where
  tool_denied : String → PolicyError
  tool_not_allowed : String → PolicyError
  args_too_large : ℕ → ℕ → PolicyError
  command_denied : String → String → PolicyError
  command_not_allowed : String → PolicyError
  timeout_exceeded : String → String → PolicyError
  workdir_denied : String → PolicyError
  path_denied : String → PolicyError

-- `show` is the decimal print of a `usize`
unfoldable pub error_text : (ℕ → String) → PolicyError → String
error_text show (tool_denied n) = concat ("tool '" ∷ n ∷ "' is denied by policy" ∷ [])
error_text show (tool_not_allowed n) = concat ("tool '" ∷ n ∷ "' is not in the allowed list" ∷ [])
error_text show (args_too_large a b) =
    concat ("arguments exceed maximum size (" ∷ show a ∷ " > " ∷ show b ∷ " bytes)" ∷ [])
error_text show (command_denied c p) =
    concat ("command '" ∷ c ∷ "' matches deny pattern '" ∷ p ∷ "'" ∷ [])
error_text show (command_not_allowed c) =
    concat ("command '" ∷ c ∷ "' is not in the allowed commands list" ∷ [])
error_text show (timeout_exceeded t m) =
    concat ("timeout " ∷ t ∷ "s exceeds maximum " ∷ m ∷ "s" ∷ [])
error_text show (workdir_denied d) = concat ("workdir '" ∷ d ∷ "' is not allowed" ∷ [])
error_text show (path_denied p) = push_str "path error: " p
