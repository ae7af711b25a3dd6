-- ===== src/Security/Registry/Checks.antt =====
-- Which calls the policy part of `GuardedToolRegistry::call_tool` in
-- funera_core/src/security/registry.rs lets through.
use funera.Events.{>>-eq-ok, ◌>>◌}
use funera.Tool.Registry.{get_tool}
use funera.Security.Policy.Laws.{
  is_none_or, check_tool_allowed-ok, check_args-ok, check_timeout-ok, check_workdir-ok,
}
use funera.Security.Policy.{
  is_excluded, size_of, is_nil, when_some, check_timeout, check_workdir, check_tool_allowed,
  check_args,
}
use funera.Security.Registry.{GuardedToolRegistry, ok, mem}
use funera.Prelude.{◌≡◌, ◌↔◌, ◌≤◌, ◌&&◌, ◌||◌, true, String, not, any, starts_with}
use funera.Security.Registry.Call.{World, check_policy, check_shell}

module _ {Json F64 : Type 0} (world : World Json F64) where
  -- The policy passes a call exactly if its tool is not denied and is on the list of the allowed
  -- where there is one, its arguments are not too large, its timeout, if any, is not above the
  -- maximum, its working directory, if any, begins with the text of an allowed one, and its command,
  -- for a tool that runs commands, passes the shell policy.
  pub check_policy-eq-ok :
      (r : GuardedToolRegistry Json F64) (name : String) (args : Json)
      → (check_policy world r name args ≡ ok tt) ↔ (
          ((not (mem name r.policy.denied_tools) && not (is_excluded r.policy.allowed_tools name))
            ≡ true)
          × (size_of world.json args ≤ r.policy.max_args_size)
          × (is_none_or
                (world.floats.get_f64 args "timeout")
                (λ t. not (world.floats.gt t r.policy.max_timeout_secs))
              ≡ true)
          × (is_none_or (world.json.get_str args "workdir") (λ d.
                is_nil r.policy.allowed_workdirs || any (starts_with d) r.policy.allowed_workdirs)
              ≡ true)
          × (check_shell world r args (get_tool name r.inner) ≡ ok tt))
  unfolding check_policy
  check_policy-eq-ok r name args =
      let timeout =
        when_some (world.floats.get_f64 args "timeout") (check_timeout world.floats r.policy) in
      let workdir = when_some (world.json.get_str args "workdir") (check_workdir r.policy) in
      let shell = check_shell world r args (get_tool name r.inner) in
      let a =
        >>-eq-ok (check_tool_allowed r.policy name)
          (check_args world.json r.policy args >> (timeout >> (workdir >> shell))) in
      let b = >>-eq-ok (check_args world.json r.policy args) (timeout >> (workdir >> shell)) in
      let c = >>-eq-ok timeout (workdir >> shell) in
      let d = >>-eq-ok workdir shell in
      let e = check_tool_allowed-ok r.policy name in
      let f = check_args-ok world.json r.policy args in
      let g = check_timeout-ok world.floats r.policy (world.floats.get_f64 args "timeout") in
      let h = check_workdir-ok r.policy (world.json.get_str args "workdir") in
      (
        λ p.
            let q = a.0 p in
            let s = b.0 q.1 in
            let t = c.0 s.1 in let u = d.0 t.1 in (e.0 q.0, f.0 s.0, g.0 t.0, h.0 u.0, u.1),
        λ p. a.1 (e.1 p.0, b.1 (f.1 p.1, c.1 (g.1 p.2, d.1 (h.1 p.3, p.4)))),
      )
