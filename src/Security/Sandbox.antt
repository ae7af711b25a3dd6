-- ===== src/Security/Sandbox.antt =====
-- `SandboxPolicy` of funera_core/src/security/sandbox.rs, less the capability set of the `nono` crate.
pub mod Laws
pub mod Runner
pub mod Confined
use funera.Security.PathGuard.{FileSystem, PathBuf, path_starts_with, canonical_or_same}
use funera.Prelude.{
  [], ◌∷◌, ◌++◌, true, false, none, if◌then◌else◌, List, Option, Bool, ℕ, String, any, map, not,
  join, push_str,
}

pub record SandboxPolicy : Type 0 where
  pub enabled : Bool
  pub read_paths : List PathBuf
  pub read_write_paths : List PathBuf
  pub execute_paths : List PathBuf
  pub block_network : Bool
  pub memory_limit_bytes : Option ℕ

abbrev pub default : SandboxPolicy
default = record {
  enabled = true;
  read_paths = [];
  read_write_paths = [];
  execute_paths = [];
  block_network = true;
  memory_limit_bytes = none;
}

abbrev pub disabled : SandboxPolicy
disabled = record default { enabled = false }

abbrev pub strict_read_write : PathBuf → SandboxPolicy
strict_read_write dir = record default { read_write_paths = dir ∷ [] }

module _ (fs : FileSystem) where
  -- a path lies under a root, both resolved where the file system can
  unfoldable pub within_any : List PathBuf → PathBuf → Bool
  within_any roots path =
      any (λ root. path_starts_with (canonical_or_same fs path) (canonical_or_same fs root)) roots

  unfoldable pub is_within_boundary : SandboxPolicy → PathBuf → Bool
  unfolding within_any
  is_within_boundary p path =
      if not p.enabled then true else within_any (p.read_paths ++ p.read_write_paths) path

  abbrev labelled : String → List PathBuf → List String
  labelled label paths = map (λ p. push_str label (fs.display p)) paths

  unfoldable pub summary : SandboxPolicy → String
  summary p =
      if not p.enabled
      then "sandbox disabled"
      else join ", " (
          (if p.block_network then "no-net" else "net-allowed") ∷ labelled "r:" p.read_paths
          ++ labelled "rw:" p.read_write_paths
          ++ labelled "x:" p.execute_paths)
