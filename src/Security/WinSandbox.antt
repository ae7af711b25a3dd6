-- ===== src/Security/WinSandbox.antt =====
use funera.Dict.{mem}
use funera.Security.PathGuard.{PathBuf}
use funera.Prelude.{[], ◌∷◌, ◌++◌, if◌then◌else◌, List, Bool, String, concat, not}
-- funera_core/src/security/sandbox_win.rs: the access lists and the environment of the sandbox on Windows.
-- What Windows answers is given; a command that goes to `icacls` is a value.
pub mod Token
pub mod Launch
pub mod Handles
pub mod Laws

pub data Icacls : Type 0 where
  grant deny remove : String → String → Icacls

-- the texts that `cmd /c` gets
unfoldable pub command_text : Icacls → String
command_text (grant path sid) =
    concat ("icacls \"" ∷ path ∷ "\" /grant \"*" ∷ sid ∷ "\":(OI)(CI)(RX,W,D) /Q" ∷ [])
command_text (deny path sid) =
    concat ("icacls \"" ∷ path ∷ "\" /deny \"*" ∷ sid ∷ "\":(OI)(CI)(W,D) /Q" ∷ [])
command_text (remove path sid) = concat ("icacls \"" ∷ path ∷ "\" /remove \"*" ∷ sid ∷ "\" /Q" ∷ [])

-- `path.exists()`, `path.join(name)` and `path.to_string_lossy()`
pub record Paths : Type 0 where
  pub exists : PathBuf → Bool
  pub join : PathBuf → String → PathBuf
  pub text : PathBuf → String

module _ (paths : Paths) (sid : String) where
  abbrev deny_protected : PathBuf → List String → List Icacls
  deny_protected path [] = []
  deny_protected path (name ∷ names) =
      let rest = deny_protected path names in
      if paths.exists (paths.join path name)
      then deny (paths.text (paths.join path name)) sid ∷ rest
      else rest

  unfoldable pub apply_write_acls : List PathBuf → List Icacls
  apply_write_acls [] = []
  apply_write_acls (path ∷ l) =
      let rest = apply_write_acls l in
      if not (paths.exists path)
      then rest
      else grant (paths.text path) sid ∷ deny_protected path (".git" ∷ ".funera" ∷ ".agents" ∷ [])
        ++ rest

  unfoldable pub remove_write_acls : List PathBuf → List Icacls
  remove_write_acls [] = []
  remove_write_acls (path ∷ l) =
      let rest = remove_write_acls l in
      if not (paths.exists path) then rest else remove (paths.text path) sid ∷ rest

abbrev pub proxy_names : List String
proxy_names = "HTTPS_PROXY" ∷ "HTTP_PROXY" ∷ "ALL_PROXY" ∷ "GIT_HTTPS_PROXY" ∷ "NO_PROXY" ∷ []

abbrev pub poison : List (String × String)
poison =
    ("HTTPS_PROXY", "http://127.0.0.1:9")
    ∷ ("HTTP_PROXY", "http://127.0.0.1:9")
    ∷ ("ALL_PROXY", "http://127.0.0.1:9")
    ∷ ("GIT_HTTPS_PROXY", "http://127.0.0.1:9")
    ∷ ("NO_PROXY", "localhost,127.0.0.1,::1")
    ∷ []

abbrev not_proxies : (String → String) → List (String × String) → List (String × String)
not_proxies to_uppercase [] = []
not_proxies to_uppercase ((key, value) ∷ vars) =
    let rest = not_proxies to_uppercase vars in
    if mem (to_uppercase key) proxy_names then rest else (key, value) ∷ rest

-- the variables of the block, before each becomes `key=value` in UTF-16 with a NUL behind it
unfoldable pub build_net_blocked_env_block :
    (String → String) → List (String × String) → List (String × String)
build_net_blocked_env_block to_uppercase vars = not_proxies to_uppercase vars ++ poison
