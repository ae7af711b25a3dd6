-- ===== src/Security/Sandbox/Confined.antt =====
-- What the capabilities grant that funera_core/src/security/sandbox.rs builds from a policy.
use funera.Security.Sandbox.{SandboxPolicy}
use funera.Events.{Result, ok, ◌>>=◌, err, ok_inj}
use funera.Security.PathGuard.{PathBuf, FileSystem}
use funera.Prelude.{
  [], ◌∷◌, ◌≡◌, ◌++◌, true, false, refl, arith, List, Bool, String, map, ◌∙◌, if◌then◌else◌, ap,
  push_str, append_assoc, concat, sym, append-nil,
}
use funera.Security.Sandbox.Runner.{
  Nono, AccessMode, read, read_write, map_err, allow_paths, to_capability_set, capabilities,
  system_sandbox_read_paths,
}

-- what the documentation of the `nono` crate says of a capability set: the paths it grants, in the order
-- they were allowed, and whether the network is blocked
pub record IsNono {Caps : Type 0} (nono : Nono Caps) (grants : Caps → List (PathBuf × AccessMode))
    (is_blocked : Caps → Bool) : Type 0 where
  pub grants-empty : grants nono.empty ≡ []
  pub is_blocked-empty : is_blocked nono.empty ≡ false
  pub allow_path_lem :
      (path : PathBuf) (mode : AccessMode) (c d : Caps)
      → nono.allow_path path mode c ≡ ok d
      → (grants d ≡ grants c ++ (path, mode) ∷ []) × (is_blocked d ≡ is_blocked c)
  pub block_network_lem :
      (c : Caps)
      → (grants (nono.block_network c) ≡ grants c) × (is_blocked (nono.block_network c) ≡ true)

abbrev pub granted : AccessMode → List PathBuf → List (PathBuf × AccessMode)
granted mode paths = map (λ p. (p, mode)) paths

then_ok :
    {A B : Type 0} (x : Result A String) (f : A → Result B String) (b : B)
    → (x >>= f) ≡ ok b
    → (a : A) × (x ≡ ok a) × (f a ≡ ok b)
then_ok (ok a) f b h = (a, refl, h)
then_ok (err e) f b h = ground arith

map_err-ok :
    {A : Type 0} (f : String → String) (x : Result A String) (a : A) → map_err f x ≡ ok a → x ≡ ok a
map_err-ok f (ok b) a h = h
map_err-ok f (err e) a h = ground arith

module _ {Caps : Type 0} (nono : Nono Caps) (grants : Caps → List (PathBuf × AccessMode))
    (is_blocked : Caps → Bool) (laws : IsNono nono grants is_blocked) where
  -- from one set to the next: what was granted on top, and the network as before
  abbrev Adds : List (PathBuf × AccessMode) → Caps → Caps → Type 0
  Adds l c d = (grants d ≡ grants c ++ l) × (is_blocked d ≡ is_blocked c)

  Adds-trans :
      (k l : List (PathBuf × AccessMode)) (c d e : Caps)
      → Adds k c d
      → Adds l d e
      → Adds (k ++ l) c e
  Adds-trans k l c d e (g, b) (h, n) = (h ∙ ap (λ x. x ++ l) g ∙ append_assoc (grants c) k l, n ∙ b)

  allow_paths-Adds :
      (mode : AccessMode) (explain : PathBuf → String → String) (paths : List PathBuf) (c d : Caps)
      → allow_paths nono mode explain paths c ≡ ok d
      → Adds (granted mode paths) c d
  allow_paths-Adds mode explain [] c d h =
      let e = ok_inj h in (ap grants (sym e) ∙ sym (append-nil (grants c)), ap is_blocked (sym e))
  allow_paths-Adds mode explain (p ∷ paths) c d h =
      let (e, first, rest) =
        then_ok (map_err (explain p) (nono.allow_path p mode c))
          (allow_paths nono mode explain paths) d h in
      Adds-trans ((p, mode) ∷ []) (granted mode paths) c e d
        (laws.allow_path_lem p mode c e (map_err-ok (explain p) (nono.allow_path p mode c) e first))
        (allow_paths-Adds mode explain paths e d rest)

  block_if :
      (b : Bool) (c d : Caps)
      → is_blocked c ≡ false
      → Path (Result Caps String) (ok (if b then nono.block_network c else c)) (ok d)
      → (grants d ≡ grants c) × (is_blocked d ≡ b)
  block_if true c d n h =
      let e = ok_inj h in
      (
        ap grants (sym e) ∙ (laws.block_network_lem c).0,
        ap is_blocked (sym e) ∙ (laws.block_network_lem c).1,
      )
  block_if false c d n h = let e = ok_inj h in (ap grants (sym e), ap is_blocked (sym e) ∙ n)

  to_capability_set-granted :
      (policy : SandboxPolicy) (d : Caps)
      → to_capability_set nono policy ≡ ok d
      → (grants d
          ≡ granted read policy.read_paths
            ++ granted read_write policy.read_write_paths
            ++ granted read policy.execute_paths)
        × (is_blocked d ≡ policy.block_network)
  unfolding to_capability_set
  to_capability_set-granted policy d h =
      let (c3, h3, last) =
        then_ok
          (allow_paths nono read (λ p e. e) policy.read_paths nono.empty
            >>= (λ c. allow_paths nono read_write (λ p e. e) policy.read_write_paths c)
            >>= (λ c. allow_paths nono read (λ p e. e) policy.execute_paths c))
          (λ c. ok (if policy.block_network then nono.block_network c else c)) d h in
      let (c2, h2, exec) =
        then_ok
          (allow_paths nono read (λ p e. e) policy.read_paths nono.empty
            >>= (λ c. allow_paths nono read_write (λ p e. e) policy.read_write_paths c))
          (λ c. allow_paths nono read (λ p e. e) policy.execute_paths c) c3 h3 in
      let (c1, h1, write) =
        then_ok (allow_paths nono read (λ p e. e) policy.read_paths nono.empty)
          (λ c. allow_paths nono read_write (λ p e. e) policy.read_write_paths c) c2 h2 in
      let added =
        Adds-trans _ _ nono.empty c2 c3
          (Adds-trans _ _ nono.empty c1 c2
            (allow_paths-Adds read (λ p e. e) policy.read_paths nono.empty c1 h1)
            (allow_paths-Adds read_write (λ p e. e) policy.read_write_paths c1 c2 write))
          (allow_paths-Adds read (λ p e. e) policy.execute_paths c2 c3 exec) in
      let r = granted read policy.read_paths in
      let w = granted read_write policy.read_write_paths in
      let x = granted read policy.execute_paths in
      let end = block_if policy.block_network c3 d (added.1 ∙ laws.is_blocked-empty) last in
      (end.0 ∙ added.0 ∙ ap (λ l. l ++ ((r ++ w) ++ x)) laws.grants-empty, end.1)

  -- The capabilities that a sandboxed command runs under grant the policy's paths, its executables and the
  -- five system directories for reading and its read-write paths for both, in this order and nothing
  -- else, and they block the network exactly if the policy says so.
  pub capabilities-granted :
      (fs : FileSystem) (policy : SandboxPolicy) (caps : Caps)
      → capabilities nono fs policy ≡ ok caps
      → (grants caps
          ≡ granted read policy.read_paths
            ++ granted read_write policy.read_write_paths
            ++ granted read policy.execute_paths
            ++ granted read (system_sandbox_read_paths fs))
        × (is_blocked caps ≡ policy.block_network)
  unfolding capabilities to_capability_set
  capabilities-granted fs policy caps h =
      let set =
        map_err (push_str "failed to build sandbox capability set: ")
          (to_capability_set nono policy) in
      let system =
        allow_paths nono read
          (λ path e. concat ("failed to allow system path " ∷ fs.display path ∷ ": " ∷ e ∷ []))
          (system_sandbox_read_paths fs) in
      let (c, first, rest) = then_ok set system caps h in
      let base =
        to_capability_set-granted policy c (map_err-ok _ (to_capability_set nono policy) c first) in
      let r = granted read policy.read_paths in
      let w = granted read_write policy.read_write_paths in
      let x = granted read policy.execute_paths in
      let sys = granted read (system_sandbox_read_paths fs) in
      let added =
        allow_paths-Adds read
          (λ path e. concat ("failed to allow system path " ∷ fs.display path ∷ ": " ∷ e ∷ []))
          (system_sandbox_read_paths fs) c caps rest in
      (added.0 ∙ ap (λ l. l ++ sys) base.0, added.1 ∙ base.1)
