-- ===== src/Security/Registry/Runs.antt =====
-- What `GuardedToolRegistry::call_tool` of funera_core/src/security/registry.rs lets run, what it
-- reports, and when it ends.
use funera.Security.Error.{PolicyError}
use funera.Tool.Registry.{get_tool_arc}
use funera.Security.Audit.{AuditEvent, tool_denied}
use funera.Events.{is_ok, Result, err, ok}
use funera.Security.Boundary.{
  BoundaryDecision, Tier, tier, trusted, fenced, rejected, outside, requires_approval,
  auto_approved,
}
use funera.Prelude.{
  [], ◌∷◌, ◌≡◌, ◌++◌, ◌&&◌, true, false, none, some, refl, arith, if◌then◌else◌, List, Option, Bool,
  inl, inr, ap, get_or, Option-cases, ◌∙◌, String, not, push_str,
}
use funera.Security.Registry.{GuardedToolRegistry, PathBuf}
use funera.Security.Registry.Call.{
  call_tool, World, Call, Effect, executed, audited, notified, broadcast, Response, answered,
  dropped, silence, decide, after_wait, after_policy, await, check_policy, boundary_decision,
  execute, run_of, audit, audit_sandbox, request, finished, Outcome, denial,
}

-- the user said yes
abbrev pub is_approved : Response → Bool
is_approved (answered b) = b
is_approved dropped = false
is_approved silence = false

module _ {Json : Type 0} where
  -- the runs of tools among the effects, and the reports
  abbrev pub runs : List (Effect Json) → List (Effect Json)
  runs [] = []
  runs (executed name args ∷ l) = executed name args ∷ runs l
  runs (audited event ∷ l) = runs l
  runs (notified id name reason paths ∷ l) = runs l
  runs (broadcast id name paths reason ∷ l) = runs l

  runs-append : (k l : List (Effect Json)) → runs (k ++ l) ≡ runs k ++ runs l
  runs-append [] l = refl
  runs-append (executed name args ∷ k) l = ap (λ x. executed name args ∷ x) (runs-append k l)
  runs-append (audited event ∷ k) l = runs-append k l
  runs-append (notified id name reason paths ∷ k) l = runs-append k l
  runs-append (broadcast id name paths reason ∷ k) l = runs-append k l

module _ {Json F64 : Type 0} where
  abbrev pub lets_run : GuardedToolRegistry Json F64 → Call Json → Tier → Bool
  lets_run r call trusted = true
  lets_run r call fenced = r.approval_callback && is_approved call.response
  lets_run r call outside = false

  module _ (world : World Json F64) where
    -- the policy passes, and the paths are trusted or the user was asked and said yes
    abbrev pub is_permitted : GuardedToolRegistry Json F64 → Call Json → Bool
    is_permitted r call =
        is_ok (check_policy world r call.name call.args)
        && lets_run r call (tier (boundary_decision world r call))

    runs-audit : (r : GuardedToolRegistry Json F64) (e : AuditEvent) → runs (audit world r e) ≡ []
    runs-audit r e = ground arith

    runs-audit_sandbox :
        (r : GuardedToolRegistry Json F64) (c : Call Json) → runs (audit_sandbox world r c) ≡ []
    unfolding audit_sandbox
    runs-audit_sandbox r c = ground arith

    runs-execute :
        (r : GuardedToolRegistry Json F64) (c : Call Json)
        → runs (execute world r c).0 ≡ run_of world c (get_tool_arc c.name r.inner)
    unfolding execute
    runs-execute r c = elim (Option-cases (get_tool_arc c.name r.inner)) [
      | inl absent ↦ rw absent (ground arith)
      | inr (t, there) ↦ rw there (ground arith)
    ]

    runs-after_wait :
        (r : GuardedToolRegistry Json F64) (c : Call Json) (before : List (Effect Json))
        (o : Option Bool)
        → runs before ≡ []
        → runs (after_wait world r c before o).effects
          ≡ (if get_or o false then run_of world c (get_tool_arc c.name r.inner) else [])
    runs-after_wait r c before none h = h
    runs-after_wait r c before (some false) h = h
    runs-after_wait r c before (some true) h = rw runs-append (rw h (runs-execute r c))

    pub await-is_approved :
        (limit : Bool) (response : Response)
        → get_or (await world limit response) false ≡ is_approved response
    await-is_approved limit (answered b) = refl
    await-is_approved limit dropped = refl
    await-is_approved limit silence = ground arith

    runs-unless :
        (b agreed : Bool) (ran : List (Effect Json)) (x y : Outcome Json)
        → runs x.effects ≡ []
        → runs y.effects ≡ (if agreed then ran else [])
        → runs (if not b then x else y).effects ≡ (if b && agreed then ran else [])
    runs-unless true agreed ran x y h k = k
    runs-unless false agreed ran x y h k = h

    runs-request :
        (r : GuardedToolRegistry Json F64) (c : Call Json) (reason : String) (paths : List PathBuf)
        → runs (request world r c reason paths) ≡ []
    runs-request r c reason paths = ground arith

    runs-decide :
        (r : GuardedToolRegistry Json F64) (c : Call Json) (before : List (Effect Json))
        (d : BoundaryDecision)
        → runs before ≡ []
        → runs (decide world r c before d).effects
          ≡ (if lets_run r c (tier d) then run_of world c (get_tool_arc c.name r.inner) else [])
    runs-decide r c before auto_approved h = rw runs-append (rw h (runs-execute r c))
    runs-decide r c before (rejected tool_name paths reason) h = h
    runs-decide r c before (requires_approval tool_name paths reason) h =
        runs-unless r.approval_callback (is_approved c.response)
          (run_of world c (get_tool_arc c.name r.inner))
          (finished world before r.pending_approvals (
            err (
              funera.Tool.Error.rejected
                (push_str "tool call requires approval but no handler registered: " reason))))
          (after_wait world r c (before ++ request world r c reason paths)
            (await world r.approval_timeout c.response))
          h
          (runs-after_wait r c (before ++ request world r c reason paths)
              (await world r.approval_timeout c.response)
              (rw runs-append (rw h (runs-request r c reason paths)))
            ∙ ap (λ b. if b then run_of world c (get_tool_arc c.name r.inner) else [])
                (await-is_approved r.approval_timeout c.response))

    runs-after_policy :
        (r : GuardedToolRegistry Json F64) (c : Call Json) (p : Result (Unit {0}) PolicyError)
        → runs (after_policy world r c p).effects ≡ (
            if is_ok p && lets_run r c (tier (boundary_decision world r c))
            then run_of world c (get_tool_arc c.name r.inner)
            else [])
    runs-after_policy r c (err e) = runs-audit r (tool_denied c.name (denial world e) c.denied_at)
    runs-after_policy r c (ok u) =
        runs-decide r c (audit_sandbox world r c) (boundary_decision world r c)
          (runs-audit_sandbox r c)

    -- The tool runs at most once, and exactly if the policy passes and either the paths are trusted
    -- or a callback is set and the user's answer is yes; then it is the registered and available tool
    -- of the name, with the arguments of the call.
    pub call_tool-runs :
        (r : GuardedToolRegistry Json F64) (c : Call Json)
        → runs (call_tool world r c).effects
          ≡ (if is_permitted r c then run_of world c (get_tool_arc c.name r.inner) else [])
    unfolding call_tool
    call_tool-runs r c = runs-after_policy r c (check_policy world r c.name c.args)
