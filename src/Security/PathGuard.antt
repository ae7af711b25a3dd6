-- ===== src/Security/PathGuard.antt =====
-- `PathGuard` of funera_core/src/security/path_guard.rs. A path is the list of its components, which
-- is what `Path::starts_with` compares; what the file system answers is a parameter of the model.
pub mod Laws
use funera.Events.{Result, is_ok, err, ok}
use funera.Prelude.{
  [], ◌∷◌, ◌++◌, ◌&&◌, true, false, if◌then◌else◌, List, Bool, String, any, concat, str_eq, not,
  join, map,
}

abbrev pub PathBuf : Type 0
PathBuf = List String

pub record FileSystem : Type 0 where
  -- `PathBuf::from(s)` and `path.display()`
  pub parse : String → PathBuf
  pub display : PathBuf → String
  -- `path.exists()` and `path.canonicalize()`
  pub exists : PathBuf → Bool
  pub canonicalize : PathBuf → Result PathBuf String

abbrev pub path_eq : PathBuf → PathBuf → Bool
path_eq [] [] = true
path_eq [] (y ∷ q) = false
path_eq (x ∷ p) [] = false
path_eq (x ∷ p) (y ∷ q) = str_eq x y && path_eq p q

-- `path.starts_with(root)`
unfoldable pub path_starts_with : PathBuf → PathBuf → Bool
path_starts_with path [] = true
path_starts_with [] (r ∷ root) = false
path_starts_with (x ∷ path) (r ∷ root) = str_eq x r && path_starts_with path root

pub record PathGuard : Type 0 where
  pub allowed_roots : List PathBuf

pub data PathError : Type 0 where
  outside_scope : String → String → PathError
  not_exist : String → PathError
  resolve_error : String → String → PathError

unfoldable pub error_text : PathError → String
error_text (outside_scope path allowed) =
    concat ("path '" ∷ path ∷ "' is outside allowed scope (allowed: " ∷ allowed ∷ ")" ∷ [])
error_text (not_exist path) = concat ("path '" ∷ path ∷ "' does not exist" ∷ [])
error_text (resolve_error path reason) =
    concat ("cannot resolve path '" ∷ path ∷ "': " ∷ reason ∷ [])

-- an element of a set is there once
abbrev insert_root : PathBuf → List PathBuf → List PathBuf
insert_root p roots = if any (path_eq p) roots then roots else roots ++ (p ∷ [])

module _ (fs : FileSystem) where
  abbrev or_same : PathBuf → Result PathBuf String → PathBuf
  or_same p (ok c) = c
  or_same p (err e) = p

  -- `p.canonicalize().unwrap_or(p)`
  unfoldable pub canonical_or_same : PathBuf → PathBuf
  canonical_or_same p = or_same p (fs.canonicalize p)

  unfoldable pub add_root : PathGuard → PathBuf → PathGuard
  add_root guard p = record {
    allowed_roots = insert_root (canonical_or_same p) guard.allowed_roots;
  }

  abbrev collect : PathGuard → List PathBuf → PathGuard
  collect guard [] = guard
  collect guard (p ∷ roots) = collect (add_root guard p) roots

  unfoldable pub new : List PathBuf → PathGuard
  new roots = collect (record { allowed_roots = [] }) roots

  abbrev verify_within : PathGuard → PathBuf → Result PathBuf PathError
  verify_within guard canonical =
      if any (path_starts_with canonical) guard.allowed_roots
      then ok canonical
      else err
          (outside_scope (fs.display canonical) (join ", " (map fs.display guard.allowed_roots)))

  abbrev verify_resolved : PathGuard → PathBuf → Result PathBuf String → Result PathBuf PathError
  verify_resolved guard path (err reason) = err (resolve_error (fs.display path) reason)
  verify_resolved guard path (ok canonical) = verify_within guard canonical

  unfoldable pub verify : PathGuard → PathBuf → Result PathBuf PathError
  verify guard path =
      if not (fs.exists path)
      then err (not_exist (fs.display path))
      else verify_resolved guard path (fs.canonicalize path)

  unfoldable pub is_path_allowed : PathGuard → PathBuf → Bool
  is_path_allowed guard path = is_ok (verify guard path)
