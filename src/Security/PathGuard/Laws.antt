-- ===== src/Security/PathGuard/Laws.antt =====
-- When `PathGuard::verify` lets a path through.
use funera.Events.{ok_inj, Result, err}
use funera.Security.PathGuard.{
  FileSystem, PathGuard, verify, PathBuf, ok, verify_within, path_starts_with, verify_resolved,
}
use mathlib.Core.Path.{subst}
use funera.Prelude.{◌≡◌, ◌↔◌, true, refl, inl, inr, any, Bool-cases, ap, String, sym}

module _ (fs : FileSystem) where
  verify_within-eq-ok :
      (guard : PathGuard) (c d : PathBuf)
      → (verify_within fs guard c ≡ ok d)
        ↔ ((any (path_starts_with c) guard.allowed_roots ≡ true) × (c ≡ d))
  verify_within-eq-ok guard c d = elim (Bool-cases (any (path_starts_with c) guard.allowed_roots)) [
    | inl inside ↦ rw inside (λ h. (refl, ok_inj h), λ h. ap ok h.1)
    | inr outside ↦ rw outside (λ h. cc, λ h. cc)
  ]

  verify_resolved-eq-ok :
      (guard : PathGuard) (path d : PathBuf) (r : Result PathBuf String)
      → (verify_resolved fs guard path r ≡ ok d)
        ↔ ((r ≡ ok d) × (any (path_starts_with d) guard.allowed_roots ≡ true))
  verify_resolved-eq-ok guard path d (err e) = (λ h. cc, λ h. cc)
  verify_resolved-eq-ok guard path d (ok c) =
      let within = verify_within-eq-ok guard c d in
      (
        λ h. (
          ap ok (within.0 h).1,
          subst (λ x. any (path_starts_with x) guard.allowed_roots ≡ true) (within.0 h).1
              (within.0 h).0,
        ),
        λ h. within.1 (
          subst (λ x. any (path_starts_with x) guard.allowed_roots ≡ true) (sym (ok_inj h.0)) h.1,
          ok_inj h.0,
        ),
      )

  -- A path passes exactly if it exists, the file system resolves it, and the resolved path, which is
  -- the answer, has the components of an allowed root in front: `/tmp/allowed-evil` is not under the
  -- root `/tmp/allowed`.
  pub verify-eq-ok :
      (guard : PathGuard) (path canonical : PathBuf)
      → (verify fs guard path ≡ ok canonical) ↔ (
          (fs.exists path ≡ true)
          × (fs.canonicalize path ≡ ok canonical)
          × (any (path_starts_with canonical) guard.allowed_roots ≡ true))
  unfolding verify
  verify-eq-ok guard path canonical = elim (Bool-cases (fs.exists path)) [
    | inl there ↦ rw there (
        let resolved = verify_resolved-eq-ok guard path canonical (fs.canonicalize path) in
        (λ h. (refl, (resolved.0 h).0, (resolved.0 h).1), λ h. resolved.1 (h.1, h.2)))
    | inr absent ↦ rw absent (λ h. cc, λ h. cc)
  ]
