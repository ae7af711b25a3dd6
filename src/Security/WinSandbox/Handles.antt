-- ===== src/Security/WinSandbox/Handles.antt =====
-- The handles and the SIDs that a run of the sandbox of funera_core/src/security/sandbox_win.rs leaves.
use funera.Events.{Result, err, ok}
use funera.Prelude.{
  [], ◌∷◌, ◌≡◌, ◌++◌, none, some, refl, List, Option, String, if◌then◌else◌, Bool, push_str, true,
  false, is_some, ◌∙◌, ap,
}
use funera.Security.WinSandbox.Token.{
  Handle, Sid, Win, TokenCalls, Group, stderr_write, stdout_write, stderr_read, stdout_read,
  stdin_read, find_logon, everyone_instead, make_everyone_sid, is_logon, logon_copy, allocated,
  convert, get_logon_sid, logon_of, process_token, restrict, sandbox, with_everyone, with_logon,
  everyone, with_token, create_write_restricted_token, drop_first, restricted_token, handle_number,
}
use funera.Security.WinSandbox.Launch.{
  LaunchCalls, launch_restricted, try_full_sandbox, drop_guard, after_information, after_std_handle,
  after_stdin_pipe, close_write_ends, after_create, new_guard, after_stderr_pipe, after_stdout_pipe,
  launch_with,
}

-- The handles that no code closes: the pipe of the output, if there was no second pipe; the end of the
-- input that the child would read, if the console's handle was not found.
abbrev leak :
    Option String
    → Option String
    → Option String
    → Option String
    → Option String
    → Option String
    → List Handle
leak (some e) err_pipe out_info err_info in_pipe console = []
leak none (some e) out_info err_info in_pipe console = stdout_write ∷ stdout_read ∷ []
leak none none (some e) err_info in_pipe console = []
leak none none none (some e) in_pipe console = []
leak none none none none (some e) console = []
leak none none none none none (some e) = stdin_read ∷ []
leak none none none none none none = []

abbrev pub leaked : LaunchCalls → List Handle
leaked calls =
    leak calls.create_stdout_pipe calls.create_stderr_pipe calls.set_stdout_information
      calls.set_stderr_information calls.create_stdin_pipe calls.get_std_handle

abbrev with_handles : List Handle → Win → Win
with_handles hs w = record w { handles = hs ++ w.handles }

module _ (calls : LaunchCalls) where
  abbrev pipes : Win → Win
  pipes w = with_handles (stderr_write ∷ stderr_read ∷ stdout_write ∷ stdout_read ∷ []) w

  closes_create :
      (o : Option String) (w : Win)
      → (after_create calls new_guard o (with_handles (stdin_read ∷ []) (pipes w))).1 ≡ w
  unfolding drop_guard close_write_ends
  closes_create none w = refl
  closes_create (some e) w = refl

  leaks_console :
      (o : Option String) (w : Win)
      → (after_std_handle calls new_guard o (with_handles (stdin_read ∷ []) (pipes w))).1
        ≡ with_handles (leak none none none none none o) w
  unfolding drop_guard
  leaks_console none w = closes_create calls.create_process_as_user w
  leaks_console (some e) w = refl

  leaks_stdin :
      (o : Option String) (w : Win)
      → (after_stdin_pipe calls new_guard o (pipes w)).1
        ≡ with_handles (leak none none none none o calls.get_std_handle) w
  unfolding drop_guard
  leaks_stdin none w = leaks_console calls.get_std_handle w
  leaks_stdin (some e) w = refl

  leaks_information :
      (o p : Option String) (w : Win)
      → (after_information calls new_guard o p (pipes w)).1
        ≡ with_handles (leak none none o p calls.create_stdin_pipe calls.get_std_handle) w
  unfolding drop_guard
  leaks_information none none w = leaks_stdin calls.create_stdin_pipe w
  leaks_information none (some e) w = refl
  leaks_information (some e) p w = refl

  leaks_stderr :
      (o : Option String) (w : Win)
      → (after_stderr_pipe calls o (with_handles (stdout_write ∷ stdout_read ∷ []) w)).1
        ≡ with_handles
            (leak none o calls.set_stdout_information calls.set_stderr_information
              calls.create_stdin_pipe calls.get_std_handle)
            w
  leaks_stderr none w =
      leaks_information calls.set_stdout_information calls.set_stderr_information w
  leaks_stderr (some e) w = refl

  leaks_stdout :
      (o : Option String) (w : Win)
      → (after_stdout_pipe calls o w).1
        ≡ with_handles
            (leak o calls.create_stderr_pipe calls.set_stdout_information
              calls.set_stderr_information calls.create_stdin_pipe calls.get_std_handle)
            w
  leaks_stdout none w = leaks_stderr calls.create_stderr_pipe w
  leaks_stdout (some e) w = refl

  launch_restricted-leaked :
      (w : Win) → (launch_restricted calls w).1 ≡ with_handles (leaked calls) w
  unfolding launch_restricted
  launch_restricted-leaked w = leaks_stdout calls.create_stdout_pipe w

abbrev chosen : Option String → Result Sid String
chosen none = ok everyone_instead
chosen (some e) = err (push_str "failed to create Everyone SID: " e)

abbrev choose : Bool → Bool → Option String → Result Sid String → Result Sid String
choose logon copies to_text later =
    if logon
    then (elim to_text [
      | some e ↦ err (push_str "ConvertSidToStringSidW failed: " e)
      | none ↦ if copies then ok logon_copy else later
    ])
    else later

-- the SID that stands for the logon SID, or the error
abbrev pub logon_choice : TokenCalls → List Group → Result Sid String
logon_choice calls [] = chosen (calls.allocate everyone_instead)
logon_choice calls (g ∷ gs) =
    choose (is_logon g.attributes) g.to_sid g.to_text (logon_choice calls gs)

module _ (calls : TokenCalls) where
  abbrev placed : Result Sid String → Win → Result Sid String × Win
  placed (ok sid) w = (ok sid, record w { sids = sid ∷ w.sids })
  placed (err e) w = (err e, w)

  allocated-placed :
      (o : Option String) (w : Win) → allocated calls everyone_instead o w ≡ placed (chosen o) w
  allocated-placed none w = refl
  allocated-placed (some e) w = refl

  placed_choice :
      (b c : Bool) (t : Option String) (later : Result Sid String) (next : Result Sid String × Win)
      (w : Win)
      → next ≡ placed later w
      → (if b then convert calls c t next w else next) ≡ placed (choose b c t later) w
  placed_choice false c t later next w h = h
  placed_choice true c (some e) later next w h = refl
  placed_choice true true none later next w h = refl
  placed_choice true false none later next w h = h

  find_logon-placed :
      (gs : List Group) (w : Win) → find_logon calls gs w ≡ placed (logon_choice calls gs) w
  unfolding find_logon make_everyone_sid
  find_logon-placed [] w = allocated-placed (calls.allocate everyone_instead) w
  find_logon-placed (g ∷ gs) w =
      placed_choice (is_logon g.attributes) g.to_sid g.to_text (logon_choice calls gs)
        (find_logon calls gs w) w (find_logon-placed gs w)

abbrev groups_choice : TokenCalls → Result (List Group) String → Result Sid String
groups_choice calls (err e) = err (push_str "GetTokenInformation(TokenGroups) failed: " e)
groups_choice calls (ok groups) = logon_choice calls groups

abbrev copied : Result Sid String → List Sid
copied (ok logon_copy) = logon_copy ∷ []
copied (ok sandbox) = []
copied (ok everyone) = []
copied (ok everyone_instead) = []
copied (err e) = []

-- the SIDs that go to `FreeSid` although `ConvertStringSidToSidW` made them
abbrev pub misfrees : TokenCalls → List Sid
misfrees calls =
    if is_some calls.open_process_token then [] else copied (groups_choice calls calls.token_groups)

-- a run that got a token leaves it open, and nothing else
abbrev token_of : Result Handle String → List Handle
token_of (ok h) = h ∷ []
token_of (err e) = []

abbrev IsToken : Result Handle String → Type 0
IsToken (ok h) = h ≡ restricted_token
IsToken (err e) = Unit

abbrev left_by : Result Handle String → List Sid → Win → Win
left_by r l w = record w { handles = token_of r ++ w.handles; misfreed = l ++ w.misfreed }

module _ (calls : TokenCalls) where
  abbrev Leaves : Result Handle String × Win → List Sid → Win → Type 0
  Leaves r l w = (r.1 ≡ left_by r.0 l w) × IsToken r.0

  abbrev process_open : Win → Win
  process_open w = record w { handles = process_token ∷ w.handles }

  restrict-Leaves :
      (sid : Sid) (o : Option String) (w : Win)
      → Leaves
          (restrict calls sid everyone o
            (record (process_open w) { sids = everyone ∷ sid ∷ w.sids }))
          (copied (ok sid))
          w
  restrict-Leaves sandbox none w = (refl, refl)
  restrict-Leaves logon_copy none w = (refl, refl)
  restrict-Leaves everyone_instead none w = (refl, refl)
  restrict-Leaves everyone none w = (refl, refl)
  restrict-Leaves sandbox (some e) w = (refl, tt)
  restrict-Leaves logon_copy (some e) w = (refl, tt)
  restrict-Leaves everyone_instead (some e) w = (refl, tt)
  restrict-Leaves everyone (some e) w = (refl, tt)

  with_everyone-Leaves :
      (sid : Sid) (o : Option String) (w : Win)
      → Leaves
          (with_everyone calls sid
            (allocated calls everyone o (record (process_open w) { sids = sid ∷ w.sids })))
          (copied (ok sid))
          w
  with_everyone-Leaves sid none w = restrict-Leaves sid calls.create_restricted_token w
  with_everyone-Leaves sandbox (some e) w = (refl, tt)
  with_everyone-Leaves logon_copy (some e) w = (refl, tt)
  with_everyone-Leaves everyone_instead (some e) w = (refl, tt)
  with_everyone-Leaves everyone (some e) w = (refl, tt)

  with_logon-Leaves :
      (r : Result Sid String) (w : Win)
      → Leaves (with_logon calls (placed calls r (process_open w))) (copied r) w
  unfolding make_everyone_sid
  with_logon-Leaves (ok sid) w = with_everyone-Leaves sid (calls.allocate everyone) w
  with_logon-Leaves (err e) w = (refl, tt)

  logon_of-placed :
      (r : Result (List Group) String) (w : Win)
      → logon_of calls r w ≡ placed calls (groups_choice calls r) w
  logon_of-placed (ok groups) w = find_logon-placed calls groups w
  logon_of-placed (err e) w = refl

  with_token-Leaves :
      (o : Option String) (w : Win)
      → Leaves
          (with_token calls o w)
          (if is_some o then [] else copied (groups_choice calls calls.token_groups))
          w
  unfolding get_logon_sid
  with_token-Leaves (some e) w = (refl, tt)
  with_token-Leaves none w =
      rw (logon_of-placed calls.token_groups (process_open w))
        (with_logon-Leaves (groups_choice calls calls.token_groups) w)

abbrev pub got_token : {A : Type 0} → Result Handle String → List A → List A
got_token (ok h) l = l
got_token (err e) l = []

drop_token :
    (a b c d e f : Option String) (l : List Handle)
    → drop_first handle_number restricted_token (leak a b c d e f ++ restricted_token ∷ l)
      ≡ leak a b c d e f ++ l
drop_token (some x) b c d e f l = refl
drop_token none (some x) c d e f l = refl
drop_token none none (some x) d e f l = refl
drop_token none none none (some x) e f l = refl
drop_token none none none none (some x) f l = refl
drop_token none none none none none (some x) l = refl
drop_token none none none none none none l = refl

module _ (calls : LaunchCalls) where
  abbrev after : Result Handle String → List Sid → Win → Win
  after r l w = record w {
    handles = got_token r (leaked calls) ++ w.handles;
    misfreed = l ++ w.misfreed;
  }

  close_token :
      (l : List Sid) (r : Result Handle String) (w : Win)
      → IsToken r
      → (launch_with calls (r, left_by r l w)).1 ≡ after r l w
  close_token l (err e) w h = refl
  close_token l (ok t) w h = rw h (
      rw (launch_restricted-leaked calls (left_by (ok restricted_token) l w)) (
        ap (λ hs. record w { handles = hs; misfreed = l ++ w.misfreed })
          (drop_token calls.create_stdout_pipe calls.create_stderr_pipe calls.set_stdout_information
            calls.set_stderr_information calls.create_stdin_pipe calls.get_std_handle w.handles)))

  -- A run of the sandbox closes every handle and frees every SID that it opened, with two exceptions: it
  -- leaves a pipe or the end of one open where `leaked` says so, and only if it had got a token; and a
  -- SID that a conversion made goes to `FreeSid`, which is not the function to free it.
  pub try_full_sandbox-leaked :
      (token_calls : TokenCalls) (w : Win)
      → (try_full_sandbox calls token_calls w).1 ≡ record w {
        handles =
            got_token (create_write_restricted_token token_calls w).0 (leaked calls) ++ w.handles;
        misfreed = misfrees token_calls ++ w.misfreed;
      }
  unfolding try_full_sandbox create_write_restricted_token
  try_full_sandbox-leaked token_calls w =
      let t = with_token-Leaves token_calls token_calls.open_process_token w in
      ap
        (λ v.
          (launch_with calls ((with_token token_calls token_calls.open_process_token w).0, v)).1)
        t.0
      ∙ close_token (misfrees token_calls)
          (with_token token_calls token_calls.open_process_token w).0 w t.1
