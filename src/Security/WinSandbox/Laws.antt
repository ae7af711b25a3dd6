-- ===== src/Security/WinSandbox/Laws.antt =====
-- The access lists and the environment that the sandbox of funera_core/src/security/sandbox_win.rs sets.
use funera.Prelude.{
  [], ◌∷◌, ◌≡◌, ◌++◌, ◌&&◌, ◌||◌, true, false, refl, List, Bool, String, inl, inr, ap, map, not,
  Bool-cases, all, any, str_eq, ◌∙◌, arith, ℕ, get_or, sym, get_elem?, str_eq_iff,
}
use funera.Dict.{mem}
use funera.Security.WinSandbox.{
  Icacls, grant, deny, remove, Paths, apply_write_acls, remove_write_acls,
  build_net_blocked_env_block, poison, proxy_names, not_proxies, deny_protected, PathBuf,
}

-- what takes back the grants, and leaves the denials
unfoldable pub undo_grants : List Icacls → List Icacls
undo_grants [] = []
undo_grants (grant path sid ∷ l) = remove path sid ∷ undo_grants l
undo_grants (deny path sid ∷ l) = undo_grants l
undo_grants (remove path sid ∷ l) = undo_grants l

undo_grants-append : (k l : List Icacls) → undo_grants (k ++ l) ≡ undo_grants k ++ undo_grants l
unfolding undo_grants
undo_grants-append [] l = refl
undo_grants-append (grant p s ∷ k) l = ap (λ r. remove p s ∷ r) (undo_grants-append k l)
undo_grants-append (deny p s ∷ k) l = undo_grants-append k l
undo_grants-append (remove p s ∷ k) l = undo_grants-append k l

module _ (paths : Paths) (sid : String) where
  undo_grants-deny :
      (path : PathBuf) (names : List String)
      → undo_grants (deny_protected paths sid path names) ≡ []
  unfolding undo_grants
  undo_grants-deny path [] = refl
  undo_grants-deny path (name ∷ names) = elim (Bool-cases (paths.exists (paths.join path name))) [
    | inl there ↦ rw there (undo_grants-deny path names)
    | inr absent ↦ rw absent (undo_grants-deny path names)
  ]

  -- What the drop of a sandbox runs takes back each grant that its start made, in the same order, and none
  -- of the denials on the protected directories, if the same paths exist.
  pub remove_write_acls-apply_write_acls :
      (l : List PathBuf)
      → remove_write_acls paths sid l ≡ undo_grants (apply_write_acls paths sid l)
  unfolding remove_write_acls apply_write_acls undo_grants
  remove_write_acls-apply_write_acls [] = refl
  remove_write_acls-apply_write_acls (path ∷ l) = elim (Bool-cases (paths.exists path)) [
    | inl there ↦ rw there (
        ap (λ r. remove (paths.text path) sid ∷ r)
          (remove_write_acls-apply_write_acls l
            ∙ sym (
                rw
                  (undo_grants-append
                    (deny_protected paths sid path (".git" ∷ ".funera" ∷ ".agents" ∷ []))
                    (apply_write_acls paths sid l))
                  (rw (undo_grants-deny path (".git" ∷ ".funera" ∷ ".agents" ∷ [])) refl))))
    | inr absent ↦ rw absent (remove_write_acls-apply_write_acls l)
  ]

abbrev pub is_pair : String → String → String × String → Bool
is_pair key value e = str_eq e.0 key && str_eq e.1 value

any-append :
    {A : Type 0} (p : A → Bool) (xs ys : List A) → any p (xs ++ ys) ≡ (any p xs || any p ys)
any-append p [] ys = refl
any-append p (x ∷ xs) ys = rw (any-append p xs ys) (ground arith)

all-append :
    {A : Type 0} (p : A → Bool) (xs ys : List A) → all p (xs ++ ys) ≡ (all p xs && all p ys)
all-append p [] ys = refl
all-append p (x ∷ xs) ys = rw (all-append p xs ys) (ground arith)

-- what a variable must be if it configures a proxy
abbrev pub is_poisoned : (String → String) → String × String → Bool
is_poisoned to_uppercase (key, value) =
    any (is_pair key value) poison || not (mem (to_uppercase key) proxy_names)

module _ (to_uppercase : String → String) where
  not_proxies-is_poisoned :
      (vars : List (String × String))
      → all (is_poisoned to_uppercase) (not_proxies to_uppercase vars) ≡ true
  not_proxies-is_poisoned [] = refl
  not_proxies-is_poisoned ((key, value) ∷ vars) =
      elim (Bool-cases (mem (to_uppercase key) proxy_names)) [
        | inl proxy ↦ rw proxy (not_proxies-is_poisoned vars)
        | inr other ↦ rw other (rw other (rw (not_proxies-is_poisoned vars) (ground arith)))
      ]

  module _ (key value : String) (other : mem (to_uppercase key) proxy_names ≡ false) where
    other_name :
        (name : String) → mem (to_uppercase name) proxy_names ≡ true → str_eq name key ≡ false
    other_name name h = elim (Bool-cases (str_eq name key)) [
      | inl same ↦
          let e : true ≡ false =
            sym h
            ∙ ap (λ k. mem (to_uppercase k) proxy_names) ((str_eq_iff name key).0 same)
            ∙ other in
          absurd cc
      | inr different ↦ different
    ]

    not_proxies-other :
        (vars : List (String × String))
        → any (is_pair key value) (not_proxies to_uppercase vars) ≡ any (is_pair key value) vars
    not_proxies-other [] = refl
    not_proxies-other ((k, v) ∷ vars) = elim (Bool-cases (mem (to_uppercase k) proxy_names)) [
      | inl proxy ↦ rw proxy (rw (other_name k proxy) (not_proxies-other vars))
      | inr kept ↦
          rw kept (ap (λ b. (str_eq k key && str_eq v value) || b) (not_proxies-other vars))
    ]

    poison-other :
        map to_uppercase proxy_names ≡ proxy_names → any (is_pair key value) poison ≡ false
    poison-other same =
        let fixed : (i : ℕ)
            → mem (get_or (get_elem? (map to_uppercase proxy_names) i) "") proxy_names
              ≡ mem (get_or (get_elem? proxy_names i) "") proxy_names =
          λ i. ap (λ l. mem (get_or (get_elem? l i) "") proxy_names) same in
        rw (other_name "HTTPS_PROXY" (fixed 0)) (
          rw (other_name "HTTP_PROXY" (fixed 1)) (
            rw (other_name "ALL_PROXY" (fixed 2)) (
              rw (other_name "GIT_HTTPS_PROXY" (fixed 3))
                (rw (other_name "NO_PROXY" (fixed 4)) refl))))

-- In the block of variables, every variable whose name in capitals is one of the five proxy names is one
-- of the five that lead nowhere, and the other variables of the process are there.
pub build_net_blocked_env_block-is_poisoned :
    (to_uppercase : String → String) (vars : List (String × String)) (key value : String)
    → map to_uppercase proxy_names ≡ proxy_names
    → mem (to_uppercase key) proxy_names ≡ false
    → (all (is_poisoned to_uppercase) (build_net_blocked_env_block to_uppercase vars) ≡ true)
      × (any (is_pair key value) (build_net_blocked_env_block to_uppercase vars)
          ≡ any (is_pair key value) vars)
unfolding build_net_blocked_env_block
build_net_blocked_env_block-is_poisoned to_uppercase vars key value same other = (
  rw (all-append (is_poisoned to_uppercase) (not_proxies to_uppercase vars) poison)
      (rw (not_proxies-is_poisoned to_uppercase vars) refl),
  rw (any-append (is_pair key value) (not_proxies to_uppercase vars) poison) (
      rw (not_proxies-other to_uppercase key value other vars)
        (rw (poison-other to_uppercase key value other same) (ground arith))),
)
