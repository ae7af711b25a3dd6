-- ===== src/Security/Boundary/Laws.antt =====
-- The three tiers of `check_boundary` of funera_core/src/security/boundary.rs.
use funera.Events.{Result, ok, err}
use mathlib.Core.Path.{subst}
use funera.Security.Boundary.{
  check_boundary, reject_first, PathGuard, tier, is_trusted, fenced, trusted, outside, Tier, is_ok,
  verify,
}
use funera.Security.PathGuard.{FileSystem, PathBuf, PathError}
use funera.Prelude.{
  [], ◌∷◌, ◌≡◌, ◌&&◌, refl, arith, if◌then◌else◌, List, Option, Bool, String, inl, inr, all, not,
  Bool-cases, ◌⊎◌, ◌↔◌, true, false, none, some, All, &&-eq-true, sym,
}

module _ (fs : FileSystem) (tool_name : String) (inside : PathBuf → Bool) where
  -- one path outside the fence rejects the call, otherwise it asks for approval
  reject_first-all :
      (paths l : List PathBuf)
      → tier (reject_first fs tool_name paths inside l) ≡ (if all inside l then fenced else outside)
  unfolding reject_first
  reject_first-all paths [] = refl
  reject_first-all paths (p ∷ l) = elim (Bool-cases (inside p)) [
    | inl y ↦ rw y (reject_first-all paths l)
    | inr n ↦ rw n refl
  ]

  tier-check_boundary :
      (paths : List PathBuf) (path_guard : Option PathGuard) (sandbox_enabled : Bool)
      → tier (check_boundary fs tool_name paths path_guard sandbox_enabled inside) ≡ (
          if is_trusted fs paths path_guard
          then trusted
          else if sandbox_enabled && not (all inside paths)
          then outside
          else fenced)
  unfolding check_boundary
  tier-check_boundary paths path_guard sandbox_enabled =
      ground (arith, reject_first-all paths paths)

-- a guard resolves every path into its roots, or there is neither a guard nor a path
abbrev pub IsTrusted : FileSystem → List PathBuf → Option PathGuard → Type 0
IsTrusted fs paths path_guard =
    ((guard : PathGuard) × (path_guard ≡ some guard)
      × All (λ p. (canonical : PathBuf) × (verify fs guard p ≡ ok canonical)) paths)
    ⊎ ((path_guard ≡ none) × (paths ≡ []))

is_ok-eq-ok : (r : Result PathBuf PathError) → (is_ok r ≡ true) ↔ ((c : PathBuf) × (r ≡ ok c))
is_ok-eq-ok (ok c) = (λ h. (c, refl), λ h. refl)
is_ok-eq-ok (err e) = (λ h. cc, λ (c, h). cc)

all-All :
    (f : PathBuf → Bool) (P : PathBuf → Type 0)
    → ((p : PathBuf) → (f p ≡ true) ↔ P p)
    → (l : List PathBuf) → (all f l ≡ true) ↔ All P l
all-All f P h [] = (λ k. tt, λ k. refl)
all-All f P h (p ∷ l) =
    let rest = all-All f P h l in
    (
      λ k. let both = &&-eq-true (f p) (all f l) k in ((h p).0 both.0, rest.0 both.1),
      λ k. rw ((h p).1 k.0) (rest.1 k.1),
    )

same_guard : (g h : PathGuard) → some g ≡ some h → h ≡ g
same_guard g h e = cc

is_trusted-IsTrusted :
    (fs : FileSystem) (paths : List PathBuf) (path_guard : Option PathGuard)
    → (is_trusted fs paths path_guard ≡ true) ↔ IsTrusted fs paths path_guard
unfolding is_trusted
is_trusted-IsTrusted fs paths (some guard) =
    let each =
      all-All (λ p. is_ok (verify fs guard p))
        (λ p. (canonical : PathBuf) × (verify fs guard p ≡ ok canonical))
        (λ p. is_ok-eq-ok (verify fs guard p)) paths in
    (
      λ h. inl (guard, refl, each.0 h),
      λ h. elim h [
        | inl (g, e, k) ↦ each.1 (
            subst
              (λ (x : PathGuard).
                All (λ p. (canonical : PathBuf) × (verify fs x p ≡ ok canonical)) paths)
              (same_guard guard g e) k)
        | inr (e, k) ↦ absurd cc
      ],
    )
is_trusted-IsTrusted fs [] none = (λ h. inr (refl, refl), λ h. refl)
is_trusted-IsTrusted fs (p ∷ paths) none =
    (λ h. cc, λ h. elim h [ inl (g, e, k) ↦ absurd cc | inr (e, k) ↦ absurd cc ])

-- when a call is in each tier
abbrev pub IsTiered : Type 0 → Type 0 → Bool → Tier → Type 0
IsTiered trust within sandbox_enabled t =
    ((t ≡ trusted) ↔ trust)
    × ((t ≡ outside) ↔ ((trust → ⊥) × (sandbox_enabled ≡ true) × (within → ⊥)))
    × ((t ≡ fenced) ↔ ((trust → ⊥) × ((sandbox_enabled ≡ false) ⊎ within)))

tiered :
    (trust within : Type 0) (b a sandbox_enabled : Bool)
    → (b ≡ true) ↔ trust
    → (a ≡ true) ↔ within
    → IsTiered trust within sandbox_enabled
        (if b then trusted else if sandbox_enabled && not a then outside else fenced)
tiered T W true a s h k =
    let t = h.0 refl in
    ((λ e. t, λ e. refl), (λ e. cc, λ e. absurd (e.0 t)), (λ e. cc, λ e. absurd (e.0 t)))
tiered T W false true true h k =
    let no : T → ⊥ = λ t. let e : false ≡ true = h.1 t in absurd cc in
    (
      (λ e. cc, λ e. absurd (no e)),
      (λ e. cc, λ e. absurd (e.2 (k.0 refl))),
      (λ e. (no, inr (k.0 refl)), λ e. refl),
    )
tiered T W false false true h k =
    let no : T → ⊥ = λ t. let e : false ≡ true = h.1 t in absurd cc in
    let out : W → ⊥ = λ w. let e : false ≡ true = k.1 w in absurd cc in
    (
      (λ e. cc, λ e. absurd (no e)),
      (λ e. (no, refl, out), λ e. refl),
      (λ e. cc, λ e. elim e.1 [ inl f ↦ absurd cc | inr w ↦ absurd (out w) ]),
    )
tiered T W false a false h k =
    let no : T → ⊥ = λ t. let e : false ≡ true = h.1 t in absurd cc in
    (
      (λ e. cc, λ e. absurd (no e)),
      (λ e. cc, λ e. absurd (let f = e.1 in cc)),
      (λ e. (no, inl refl), λ e. refl),
    )

-- A call is trusted exactly if a guard resolves all its paths into its roots, or there is neither a
-- guard nor a path. It is rejected exactly if it is not trusted, the sandbox is on and not all paths
-- lie inside, and it needs the user's approval exactly if it is not trusted, and the sandbox is off or
-- all paths lie inside.
pub check_boundary-tier :
    (fs : FileSystem) (tool_name : String) (inside : PathBuf → Bool) (paths : List PathBuf)
    (path_guard : Option PathGuard) (sandbox_enabled : Bool)
    → IsTiered
        (IsTrusted fs paths path_guard)
        (All (λ p. inside p ≡ true) paths)
        sandbox_enabled
        (tier (check_boundary fs tool_name paths path_guard sandbox_enabled inside))
check_boundary-tier fs tool_name inside paths path_guard sandbox_enabled =
    subst
      (IsTiered (IsTrusted fs paths path_guard) (All (λ p. inside p ≡ true) paths) sandbox_enabled)
      (sym (tier-check_boundary fs tool_name inside paths path_guard sandbox_enabled))
      (tiered (IsTrusted fs paths path_guard) (All (λ p. inside p ≡ true) paths)
        (is_trusted fs paths path_guard) (all inside paths) sandbox_enabled
        (is_trusted-IsTrusted fs paths path_guard)
        (all-All inside (λ p. inside p ≡ true) (λ p. (λ h. h, λ h. h)) paths))
