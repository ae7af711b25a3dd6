-- ===== src/Security/Sandbox/Laws.antt =====
-- The two tests of the fence: `SandboxPolicy::is_within_boundary` of
-- funera_core/src/security/sandbox.rs, and the closure of `call_tool` in registry.rs.
use funera.Security.Registry.{GuardedToolRegistry}
use funera.Security.Sandbox.{is_within_boundary, within_any, PathBuf}
use funera.Prelude.{◌≡◌, true, refl, ◌++◌, ◌∙◌, if◌then◌else◌, Bool, ap, not, sym}
use funera.Security.Registry.Call.{is_inside, World}

not-then : (b x y : Bool) → b ≡ true → (if not b then x else y) ≡ y
not-then b x y h = rw h refl

-- The closure that `call_tool` passes to the boundary check answers as the sandbox policy does, for
-- a policy that is enabled and whose two lists of paths were set on the registry.
pub is_inside-is_within_boundary :
    {Json F64 : Type 0} (world : World Json F64) (r : GuardedToolRegistry Json F64) (p : PathBuf)
    → r.sandbox_paths ≡ (r.policy.sandbox.read_paths, r.policy.sandbox.read_write_paths)
    → r.policy.sandbox.enabled ≡ true
    → is_inside world r p ≡ is_within_boundary world.fs r.policy.sandbox p
unfolding is_inside is_within_boundary within_any
is_inside-is_within_boundary world r p same on =
    ap (λ q. within_any world.fs (q.0 ++ q.1) p) same
    ∙ sym (not-then r.policy.sandbox.enabled true _ on)
