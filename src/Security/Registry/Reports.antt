-- ===== src/Security/Registry/Reports.antt =====
-- What `GuardedToolRegistry::call_tool` of funera_core/src/security/registry.rs reports to the audit
-- bus.
use funera.Security.Boundary.{BoundaryDecision, tier, rejected, requires_approval, auto_approved}
use funera.Events.{is_ok, ok}
use funera.Security.Error.{PolicyError}
use funera.Security.Audit.{
  AuditEvent, tool_executed, tool_denied, policy_violated, sandbox_applied, sandbox_skipped,
}
use funera.Tool.Registry.{get_tool_arc}
use funera.Prelude.{
  Bool-cases, inl, inr, [], ◌∷◌, ◌≡◌, ◌++◌, ◌∙◌, true, refl, arith, if◌then◌else◌, List, Bool,
  String, ap, sym, append_assoc, ◌&&◌, false, none, some, Option, append-nil, get_or, not, push_str,
}
use funera.Security.Registry.{GuardedToolRegistry, PathBuf, Result, err, Tool}
use funera.Security.Registry.Call.{
  hangs, call_tool, World, Call, Effect, executed, audited, notified, broadcast, decide, after_wait,
  after_policy, await, check_policy, boundary_decision, execute, audit_sandbox, request, finished,
  error_of, denial, Outcome, run_of,
}
use funera.Security.Registry.Runs.{lets_run, is_approved, await-is_approved}

-- the reports that say whether the call ran or was denied
abbrev pub verdict : AuditEvent → List AuditEvent
verdict (tool_executed name duration success error at) =
    tool_executed name duration success error at ∷ []
verdict (tool_denied name reason at) = tool_denied name reason at ∷ []
verdict (policy_violated detail at) = policy_violated detail at ∷ []
verdict (sandbox_applied name text at) = []
verdict (sandbox_skipped name at) = []

module _ {Json : Type 0} where
  abbrev pub verdicts : List (Effect Json) → List AuditEvent
  verdicts [] = []
  verdicts (executed name args ∷ l) = verdicts l
  verdicts (audited event ∷ l) = verdict event ++ verdicts l
  verdicts (notified id name reason paths ∷ l) = verdicts l
  verdicts (broadcast id name paths reason ∷ l) = verdicts l

  verdicts-append : (k l : List (Effect Json)) → verdicts (k ++ l) ≡ verdicts k ++ verdicts l
  verdicts-append [] l = refl
  verdicts-append (executed name args ∷ k) l = verdicts-append k l
  verdicts-append (audited event ∷ k) l =
      ap (λ x. verdict event ++ x) (verdicts-append k l)
      ∙ sym (append_assoc (verdict event) (verdicts k) (verdicts l))
  verdicts-append (notified id name reason paths ∷ k) l = verdicts-append k l
  verdicts-append (broadcast id name paths reason ∷ k) l = verdicts-append k l

module _ {Json F64 : Type 0} (world : World Json F64) where
  abbrev pub execution : GuardedToolRegistry Json F64 → Call Json → AuditEvent
  execution r c =
      let result = funera.Tool.Registry.call_tool c.name c.args r.inner in
      tool_executed c.name c.duration_ms (is_ok result) (error_of world result) c.executed_at

  -- the report stands behind the `await` of the tool
  abbrev pub reported : GuardedToolRegistry Json F64 → Call Json → List AuditEvent
  reported r c = if hangs world r c then [] else execution r c ∷ []

  -- nobody hears a report without a bus
  abbrev pub heard : GuardedToolRegistry Json F64 → List AuditEvent → List AuditEvent
  heard r l = if r.audit_bus then l else []

  -- one report of a call that ran, one of a call that the policy denied, none of any other
  abbrev pub verdict_on :
      GuardedToolRegistry Json F64
      → Call Json
      → Result (Unit {0}) PolicyError
      → Bool
      → List AuditEvent
  verdict_on r c (err e) ran = heard r (tool_denied c.name (denial world e) c.denied_at ∷ [])
  verdict_on r c (ok u) ran = if ran then heard r (reported r c) else []

  verdicts-heard :
      (b : Bool) (e : AuditEvent)
      → verdicts {Json = Json} (if b then audited e ∷ [] else []) ≡ (if b then verdict e else [])
  verdicts-heard true e = append-nil (verdict e)
  verdicts-heard false e = refl

  verdicts-audit_sandbox :
      (r : GuardedToolRegistry Json F64) (c : Call Json) → verdicts (audit_sandbox world r c) ≡ []
  unfolding audit_sandbox
  verdicts-audit_sandbox r c = ground arith

  verdicts-request :
      (r : GuardedToolRegistry Json F64) (c : Call Json) (reason : String) (paths : List PathBuf)
      → verdicts (request world r c reason paths) ≡ []
  verdicts-request r c reason paths = ground arith

  verdicts-run_of : (c : Call Json) (o : Option (Tool Json)) → verdicts (run_of world c o) ≡ []
  verdicts-run_of c none = refl
  verdicts-run_of c (some t) = refl

  verdicts-execute :
      (r : GuardedToolRegistry Json F64) (c : Call Json) (before : List (Effect Json))
      → verdicts before ≡ []
      → verdicts (before ++ (execute world r c).0) ≡ heard r (reported r c)
  unfolding execute
  verdicts-execute r c before h =
      let ran = verdicts-run_of c (get_tool_arc c.name r.inner) in
      rw verdicts-append (
        rw h (elim (Bool-cases (hangs world r c)) [
          | inl waits ↦ rw waits (rw ran (unheard r.audit_bus))
          | inr returns ↦
              rw returns (rw verdicts-append (rw ran (verdicts-heard r.audit_bus (execution r c))))
        ]))
    where
      unheard : (b : Bool) → ◌≡◌ {A = List AuditEvent} [] (if b then [] else [])
      unheard true = refl
      unheard false = refl

  verdicts-after_wait :
      (r : GuardedToolRegistry Json F64) (c : Call Json) (before : List (Effect Json))
      (o : Option Bool)
      → verdicts before ≡ []
      → verdicts (after_wait world r c before o).effects
        ≡ (if get_or o false then heard r (reported r c) else [])
  verdicts-after_wait r c before none h = h
  verdicts-after_wait r c before (some false) h = h
  verdicts-after_wait r c before (some true) h = verdicts-execute r c before h

  verdicts-unless :
      (b agreed : Bool) (l : List AuditEvent) (x y : Outcome Json)
      → verdicts x.effects ≡ []
      → verdicts y.effects ≡ (if agreed then l else [])
      → verdicts (if not b then x else y).effects ≡ (if b && agreed then l else [])
  verdicts-unless true agreed l x y h k = k
  verdicts-unless false agreed l x y h k = h

  verdicts-decide :
      (r : GuardedToolRegistry Json F64) (c : Call Json) (before : List (Effect Json))
      (d : BoundaryDecision)
      → verdicts before ≡ []
      → verdicts (decide world r c before d).effects
        ≡ (if lets_run r c (tier d) then heard r (reported r c) else [])
  verdicts-decide r c before auto_approved h = verdicts-execute r c before h
  verdicts-decide r c before (rejected tool_name paths reason) h = h
  verdicts-decide r c before (requires_approval tool_name paths reason) h =
      verdicts-unless r.approval_callback (is_approved c.response) (heard r (reported r c))
        (finished world before r.pending_approvals (
          err (
            funera.Tool.Error.rejected
              (push_str "tool call requires approval but no handler registered: " reason))))
        (after_wait world r c (before ++ request world r c reason paths)
          (await world r.approval_timeout c.response))
        h
        (verdicts-after_wait r c (before ++ request world r c reason paths)
            (await world r.approval_timeout c.response)
            (rw verdicts-append (rw h (verdicts-request r c reason paths)))
          ∙ ap (λ b. if b then heard r (reported r c) else [])
              (await-is_approved world r.approval_timeout c.response))

  verdicts-after_policy :
      (r : GuardedToolRegistry Json F64) (c : Call Json) (p : Result (Unit {0}) PolicyError)
      → verdicts (after_policy world r c p).effects
        ≡ verdict_on r c p (lets_run r c (tier (boundary_decision world r c)))
  verdicts-after_policy r c (err e) =
      verdicts-heard r.audit_bus (tool_denied c.name (denial world e) c.denied_at)
  verdicts-after_policy r c (ok u) =
      verdicts-decide r c (audit_sandbox world r c) (boundary_decision world r c)
        (verdicts-audit_sandbox r c)

  -- Besides the report on the sandbox, the audit bus hears one denial of a call that the policy
  -- stops, one report of a call that runs, with its success, once the tool has returned, and nothing of
  -- a call that the fence or the user stops.
  pub call_tool-verdicts :
      (r : GuardedToolRegistry Json F64) (c : Call Json)
      → verdicts (call_tool world r c).effects
        ≡ verdict_on r c
            (check_policy world r c.name c.args)
            (lets_run r c (tier (boundary_decision world r c)))
  unfolding call_tool
  call_tool-verdicts r c = verdicts-after_policy r c (check_policy world r c.name c.args)
