-- ===== src/Security/Policy/Laws.antt =====
-- What the checks of `ToolPolicy` in funera_core/src/security/policy.rs accept.
use funera.Security.Policy.{
  check_workdir, ToolPolicy, ok, PolicyError, Result, err, when_some, check_args, check_timeout,
  check_tool_allowed, is_nil, Floats, JsonOps, is_excluded, workdir_denied, size_of,
  timeout_exceeded, tool_denied, tool_not_allowed, args_too_large,
}
use funera.Dict.{mem}
use funera.Prelude.{
  [], ◌∷◌, ◌≡◌, true, arith, List, String, inl, inr, any, push_str, starts_with, Bool-cases, str_eq,
  str_eq_iff, starts_with-push_str, ◌↔◌, false, none, some, refl, if◌then◌else◌, Option, Bool, not,
  ◌≤◌, ◌&&◌, ◌||◌, ltb,
}

any-mem :
    (root suffix : String) (l : List String)
    → mem root l ≡ true
    → any (λ r. starts_with (push_str root suffix) r) l ≡ true
any-mem root suffix [] h = cc
any-mem root suffix (r ∷ l) h = elim (Bool-cases (str_eq r root)) [
  | inl same ↦
      let first : starts_with (push_str root suffix) r ≡ true =
        rw ((str_eq_iff r root).0 same) (starts_with-push_str root suffix) in
      ground arith
  | inr other ↦ ground (arith, any-mem root suffix l)
]

module _ {F64 : Type 0} where
  -- Any text that begins with an allowed working directory is accepted, also one that goes on in the
  -- middle of a component, such as `/tmp/allowed-evil` under the root `/tmp/allowed`.
  pub check_workdir-push_str :
      (policy : ToolPolicy F64) (root suffix : String)
      → mem root policy.allowed_workdirs ≡ true
      → check_workdir policy (push_str root suffix) ≡ ok tt
  unfolding check_workdir
  check_workdir-push_str policy root suffix h =
      rw (any-mem root suffix policy.allowed_workdirs h) (ground arith)

-- no value, or one that passes the test
abbrev pub is_none_or : {A : Type 0} → Option A → (A → Bool) → Bool
is_none_or none test = true
is_none_or (some a) test = test a

when_some-ok :
    {A : Type 0} (o : Option A) (check : A → Result (Unit {0}) PolicyError) (test : A → Bool)
    → ((a : A) → (check a ≡ ok tt) ↔ (test a ≡ true))
    → (when_some o check ≡ ok tt) ↔ (is_none_or o test ≡ true)
when_some-ok none check test h = (λ k. refl, λ k. refl)
when_some-ok (some a) check test h = h a

pub if-ok :
    (b : Bool) (e : PolicyError)
    → Path (Result (Unit {0}) PolicyError) (if b then err e else ok tt) (ok tt) ↔ (not b ≡ true)
if-ok true e = (λ h. cc, λ h. cc)
if-ok false e = (λ h. refl, λ h. refl)

unless-ok :
    (b c : Bool) (e : PolicyError)
    → Path
        (Result (Unit {0}) PolicyError)
        (if b then ok tt else if not c then err e else ok tt)
        (ok tt)
      ↔ ((b || c) ≡ true)
unless-ok true c e = (λ h. refl, λ h. refl)
unless-ok false true e = (λ h. refl, λ h. refl)
unless-ok false false e = (λ h. cc, λ h. cc)

denied-ok :
    (b c : Bool) (d e : PolicyError)
    → Path (Result (Unit {0}) PolicyError) (if b then err d else if c then err e else ok tt) (ok tt)
      ↔ ((not b && not c) ≡ true)
denied-ok true c d e = (λ h. cc, λ h. cc)
denied-ok false true d e = (λ h. cc, λ h. cc)
denied-ok false false d e = (λ h. refl, λ h. refl)

module _ {F64 : Type 0} where
  pub check_tool_allowed-ok :
      (policy : ToolPolicy F64) (name : String)
      → (check_tool_allowed policy name ≡ ok tt) ↔ (
          (not (mem name policy.denied_tools) && not (is_excluded policy.allowed_tools name))
          ≡ true)
  unfolding check_tool_allowed
  check_tool_allowed-ok policy name =
      denied-ok (mem name policy.denied_tools) (is_excluded policy.allowed_tools name)
        (tool_denied name) (tool_not_allowed name)

  pub check_workdir-ok :
      (policy : ToolPolicy F64) (o : Option String)
      → (when_some o (check_workdir policy) ≡ ok tt) ↔ (
          is_none_or o
            (λ d. is_nil policy.allowed_workdirs || any (starts_with d) policy.allowed_workdirs)
          ≡ true)
  unfolding check_workdir
  check_workdir-ok policy o =
      when_some-ok o (check_workdir policy)
        (λ d. is_nil policy.allowed_workdirs || any (starts_with d) policy.allowed_workdirs)
        λ d.
          unless-ok (is_nil policy.allowed_workdirs) (any (starts_with d) policy.allowed_workdirs)
            (workdir_denied d)

module _ {Json F64 : Type 0} where
  pub check_timeout-ok :
      (floats : Floats Json F64) (policy : ToolPolicy F64) (o : Option F64)
      → (when_some o (check_timeout floats policy) ≡ ok tt)
        ↔ (is_none_or o (λ t. not (floats.gt t policy.max_timeout_secs)) ≡ true)
  unfolding check_timeout
  check_timeout-ok floats policy o =
      when_some-ok o (check_timeout floats policy) (λ t. not (floats.gt t policy.max_timeout_secs))
        λ t.
          if-ok (floats.gt t policy.max_timeout_secs)
            (timeout_exceeded (floats.display t) (floats.display policy.max_timeout_secs))

  pub check_args-ok :
      (json : JsonOps Json) (policy : ToolPolicy F64) (args : Json)
      → (check_args json policy args ≡ ok tt) ↔ (size_of json args ≤ policy.max_args_size)
  unfolding check_args
  check_args-ok json policy args =
      let t =
        if-ok (ltb policy.max_args_size (size_of json args))
          (args_too_large (size_of json args) policy.max_args_size) in
      (λ h. (let n = t.0 h in ground arith), λ h. t.1 (ground arith))
