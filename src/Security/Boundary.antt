-- ===== src/Security/Boundary.antt =====
-- `check_boundary` of funera_core/src/security/boundary.rs, as built with the feature `sandbox` and
-- without it.
pub mod Laws
use funera.Events.{is_ok}
use funera.Security.PathGuard.{FileSystem, PathBuf, PathGuard, verify}
use funera.Prelude.{
  [], ◌∷◌, true, false, none, some, if◌then◌else◌, List, Option, Bool, String, not, all, concat,
}

pub data BoundaryDecision : Type 0 where
  auto_approved : BoundaryDecision
  requires_approval rejected : String → List PathBuf → String → BoundaryDecision

-- the three answers, without what they carry
pub data Tier : Type 0 where
  trusted fenced outside : Tier

abbrev pub tier : BoundaryDecision → Tier
tier auto_approved = trusted
tier (requires_approval tool_name paths reason) = fenced
tier (rejected tool_name paths reason) = outside

module _ (fs : FileSystem) where
  -- `path_guard` is some guard that verifies every path, or there is no guard and no path
  unfoldable pub is_trusted : List PathBuf → Option PathGuard → Bool
  is_trusted paths (some guard) = all (λ p. is_ok (verify fs guard p)) paths
  is_trusted [] none = true
  is_trusted (p ∷ paths) none = false

  -- the loop over the paths, with all of them for the answer
  unfoldable pub reject_first :
      String → List PathBuf → (PathBuf → Bool) → List PathBuf → BoundaryDecision
  reject_first tool_name paths is_within_boundary [] =
      requires_approval tool_name paths "paths inside sandbox but outside the trusted zone"
  reject_first tool_name paths is_within_boundary (p ∷ l) =
      let rest = reject_first tool_name paths is_within_boundary l in
      if not (is_within_boundary p)
      then rejected tool_name paths
          (concat ("path " ∷ fs.display p ∷ " is outside the sandbox boundary" ∷ []))
      else rest

  unfoldable pub check_boundary :
      String → List PathBuf → Option PathGuard → Bool → (PathBuf → Bool) → BoundaryDecision
  check_boundary tool_name paths path_guard sandbox_enabled is_within_boundary =
      if is_trusted paths path_guard
      then auto_approved
      else if sandbox_enabled
      then reject_first tool_name paths is_within_boundary paths
      else requires_approval tool_name paths "paths outside the trusted zone"

  unfoldable pub check_boundary_unfenced :
      String → List PathBuf → Option PathGuard → BoundaryDecision
  check_boundary_unfenced tool_name paths path_guard =
      if is_trusted paths path_guard
      then auto_approved
      else requires_approval tool_name paths "paths outside the trusted zone"
