-- ===== src/Security/Registry/Ends.antt =====
-- When `GuardedToolRegistry::call_tool` of funera_core/src/security/registry.rs answers, and what a
-- call that ran into its time limit leaves behind.
use funera.Security.Error.{PolicyError}
use funera.Events.{is_ok, ok}
use funera.Security.Boundary.{
  Tier, BoundaryDecision, tier, trusted, fenced, rejected, outside, requires_approval,
  auto_approved,
}
use funera.Prelude.{
  ◌||◌, get_or, Bool-cases, inl, inr, ◌≡◌, ◌++◌, ◌∙◌, ◌&&◌, true, false, none, some, refl, arith,
  if◌then◌else◌, List, Option, Bool, is_some, not, push_str, ap, ◌∷◌, String, &&-eq-true,
  str_eq_refl,
}
use funera.Security.Registry.{GuardedToolRegistry, approve_tool_call, remove_id, Result, err}
use funera.Security.Registry.Runs.{is_permitted, lets_run, is_approved, await-is_approved}
use funera.Security.Registry.Call.{
  hangs, execute, call_tool, World, Call, Outcome, Response, answered, dropped, silence, decide,
  after_wait, after_policy, await, check_policy, boundary_decision, finished, left_pending,
  audit_sandbox, request, Effect,
}

abbrev pub is_silence : Response → Bool
is_silence (answered b) = false
is_silence dropped = false
is_silence silence = true

abbrev pub is_fenced : Tier → Bool
is_fenced trusted = false
is_fenced fenced = true
is_fenced outside = false

module _ {Json F64 : Type 0} (world : World Json F64) where
  -- the call stands at the wait for the user
  abbrev pub asks : GuardedToolRegistry Json F64 → Call Json → Bool
  asks r c =
      is_ok (check_policy world r c.name c.args)
      && is_fenced (tier (boundary_decision world r c))
      && r.approval_callback

  -- the user is asked, nobody answers, and no time limit is set
  abbrev pub waits_for_user : GuardedToolRegistry Json F64 → Call Json → Bool
  waits_for_user r c = asks r c && (is_silence c.response && not r.approval_timeout)

  -- the tool runs, and its future is never ready
  abbrev pub waits_for_tool : GuardedToolRegistry Json F64 → Call Json → Bool
  waits_for_tool r c = is_permitted world r c && hangs world r c

  is_some-execute :
      (r : GuardedToolRegistry Json F64) (c : Call Json)
      → is_some (execute world r c).1 ≡ not (hangs world r c)
  unfolding execute
  is_some-execute r c = elim (Bool-cases (hangs world r c)) [
    | inl waits ↦ rw waits refl
    | inr returns ↦ rw returns refl
  ]

  is_some-after_wait :
      (r : GuardedToolRegistry Json F64) (c : Call Json) (before : List (Effect Json))
      (o : Option Bool)
      → is_some (after_wait world r c before o).result
        ≡ (is_some o && not (get_or o false && hangs world r c))
  is_some-after_wait r c before none = refl
  is_some-after_wait r c before (some false) = refl
  is_some-after_wait r c before (some true) = is_some-execute r c

  is_some-await :
      (limit : Bool) (response : Response)
      → is_some (await world limit response) ≡ not (is_silence response && not limit)
  is_some-await limit (answered b) = refl
  is_some-await limit dropped = refl
  is_some-await limit silence = ground arith

  -- of a call that needs the user's answer
  is_some-fenced :
      (r : GuardedToolRegistry Json F64) (c : Call Json) (before : List (Effect Json))
      (x : Outcome Json)
      → is_some x.result ≡ true
      → is_some
          (if not r.approval_callback
            then x
            else after_wait world r c before (await world r.approval_timeout c.response)).result
        ≡ not (
            (r.approval_callback && (is_silence c.response && not r.approval_timeout))
            || ((r.approval_callback && is_approved c.response) && hangs world r c))
  is_some-fenced r c before x h =
      let ends = is_some-after_wait r c before (await world r.approval_timeout c.response) in
      let some_answer = is_some-await r.approval_timeout c.response in
      let yes = await-is_approved world r.approval_timeout c.response in
      by_callback r.approval_callback
        (after_wait world r c before (await world r.approval_timeout c.response))
        (ends ∙ both some_answer yes)
    where
      waits : Bool
      waits = is_silence c.response && not r.approval_timeout

      both :
          {a b : Bool}
          → a ≡ not waits
          → b ≡ is_approved c.response
          → (a && not (b && hangs world r c))
            ≡ not (waits || (is_approved c.response && hangs world r c))
      both h k = rw (h, k) (ground arith)

      by_callback :
          (b : Bool) (y : Outcome Json)
          → is_some y.result ≡ not (waits || (is_approved c.response && hangs world r c))
          → is_some (if not b then x else y).result
            ≡ not ((b && waits) || ((b && is_approved c.response) && hangs world r c))
      by_callback true y k = k
      by_callback false y k = h

  is_some-decide :
      (r : GuardedToolRegistry Json F64) (c : Call Json) (before : List (Effect Json))
      (d : BoundaryDecision)
      → is_some (decide world r c before d).result
        ≡ not (
            ((is_fenced (tier d) && r.approval_callback)
              && (is_silence c.response && not r.approval_timeout))
            || (lets_run r c (tier d) && hangs world r c))
  is_some-decide r c before auto_approved = is_some-execute r c
  is_some-decide r c before (rejected tool_name paths reason) = refl
  is_some-decide r c before (requires_approval tool_name paths reason) =
      is_some-fenced r c (before ++ request world r c reason paths)
        (finished world before r.pending_approvals (
          err (
            funera.Tool.Error.rejected
              (push_str "tool call requires approval but no handler registered: " reason))))
        refl

  is_some-after_policy :
      (r : GuardedToolRegistry Json F64) (c : Call Json) (p : Result (Unit {0}) PolicyError)
      → is_some (after_policy world r c p).result
        ≡ not (
            ((is_ok p && is_fenced (tier (boundary_decision world r c)) && r.approval_callback)
              && (is_silence c.response && not r.approval_timeout))
            || ((is_ok p && lets_run r c (tier (boundary_decision world r c))) && hangs world r c))
  is_some-after_policy r c (err e) = refl
  is_some-after_policy r c (ok u) =
      is_some-decide r c (audit_sandbox world r c) (boundary_decision world r c)

  -- A call is answered unless it waits for the user or for the tool for ever: unless it asks the user,
  -- nobody answers and no time limit is set, or the tool runs and never returns. With a time limit, or
  -- without a callback, it never waits for the user for ever.
  pub call_tool-is_some :
      (r : GuardedToolRegistry Json F64) (c : Call Json)
      → is_some (call_tool world r c).result ≡ not (waits_for_user r c || waits_for_tool r c)
  unfolding call_tool
  call_tool-is_some r c = is_some-after_policy r c (check_policy world r c.name c.args)

  -- the answers of two registries that differ in the calls that wait
  abbrev pub later : GuardedToolRegistry Json F64 → Outcome Json → GuardedToolRegistry Json F64
  later r o = record r { pending_approvals = o.pending }

  unless-true : (b : Bool) (x y : Outcome Json) → b ≡ true → (if not b then x else y) ≡ y
  unless-true b x y h = rw h refl

  await-silence :
      (limit : Bool) (response : Response)
      → limit ≡ true
      → is_silence response ≡ true
      → await world limit response ≡ some false
  await-silence limit (answered b) h k = cc
  await-silence limit dropped h k = cc
  await-silence limit silence h k = rw h refl

  left_pending-silence :
      (c : Call Json) (l : List String) (response : Response)
      → is_silence response ≡ true
      → left_pending world c l response ≡ c.call_id ∷ remove_id c.call_id l
  left_pending-silence c l (answered b) h = cc
  left_pending-silence c l dropped h = cc
  left_pending-silence c l silence h = refl

  -- refused, and still among the calls that wait
  abbrev pub refused : GuardedToolRegistry Json F64 → Call Json → List (Effect Json) → Outcome Json
  refused r c before =
      finished world before (c.call_id ∷ remove_id c.call_id r.pending_approvals)
        (err (funera.Tool.Error.rejected "tool call rejected by user"))

  decide-refused :
      (r : GuardedToolRegistry Json F64) (c : Call Json) (before : List (Effect Json))
      (d : BoundaryDecision)
      → is_fenced (tier d) ≡ true
      → r.approval_callback ≡ true
      → r.approval_timeout ≡ true
      → is_silence c.response ≡ true
      → (after : List (Effect Json)) × (decide world r c before d ≡ refused r c after)
  decide-refused r c before auto_approved h k l m = cc
  decide-refused r c before (rejected tool_name paths reason) h k l m = cc
  decide-refused r c before (requires_approval tool_name paths reason) h k l m =
      let asked = before ++ request world r c reason paths in
      let unheard = finished world before r.pending_approvals (
        err (
          funera.Tool.Error.rejected
            (push_str "tool call requires approval but no handler registered: " reason))) in
      (
        asked,
        unless-true r.approval_callback unheard
              (after_wait world r c asked (await world r.approval_timeout c.response)) k
            ∙ ap (after_wait world r c asked) (await-silence r.approval_timeout c.response l m)
            ∙ ap
                (λ p.
                  finished world asked p
                    (err (funera.Tool.Error.rejected "tool call rejected by user")))
                (left_pending-silence c r.pending_approvals c.response m),
      )

  after_policy-refused :
      (r : GuardedToolRegistry Json F64) (c : Call Json) (p : Result (Unit {0}) PolicyError)
      → (is_ok p && is_fenced (tier (boundary_decision world r c)) && r.approval_callback) ≡ true
      → r.approval_timeout ≡ true
      → is_silence c.response ≡ true
      → (after : List (Effect Json)) × (after_policy world r c p ≡ refused r c after)
  after_policy-refused r c (err e) h l m = cc
  after_policy-refused r c (ok u) h l m =
      let both =
        &&-eq-true (is_fenced (tier (boundary_decision world r c))) r.approval_callback h in
      decide-refused r c (audit_sandbox world r c) (boundary_decision world r c) both.0 both.1 l m

  -- A call that asks the user and hears nothing within its time limit is refused, yet its id stays
  -- among those that wait: an answer that comes later, a yes or a no, is taken with `Ok`.
  pub call_tool-approve_tool_call :
      (r : GuardedToolRegistry Json F64) (c : Call Json) (late : Bool)
      → asks r c ≡ true
      → r.approval_timeout ≡ true
      → is_silence c.response ≡ true
      → ((call_tool world r c).result
          ≡ some (err (funera.Tool.Error.rejected "tool call rejected by user")))
        × ((approve_tool_call c.call_id late (later r (call_tool world r c))).0 ≡ ok tt)
  unfolding call_tool approve_tool_call
  call_tool-approve_tool_call r c late h l m =
      let (after, e) = after_policy-refused r c (check_policy world r c.name c.args) h l m in
      rw e (refl, rw str_eq_refl refl)
