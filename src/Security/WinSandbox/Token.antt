-- ===== src/Security/WinSandbox/Token.antt =====
use funera.Events.{Result, err, ok}
use funera.Prelude.{
  [], ◌∷◌, ◌++◌, ◌==◌, true, false, none, some, if◌then◌else◌, List, Option, Bool, ℕ, String, ◌/◌,
  ◌^◌, push_str, ◌%◌,
}

-- `create_write_restricted_token`, `get_logon_sid` and `make_everyone_sid` of
-- funera_core/src/security/sandbox_win.rs, with the handles and the SIDs that are open as the state. An
-- answer of Windows that is none is an error, with its text where the code shows it.

pub data Handle : Type 0 where
  process_token restricted_token : Handle
  stdout_read stdout_write stderr_read stderr_write stdin_read stdin_write : Handle
  process thread : Handle

-- `everyone_instead` stands for the logon SID where none was found; `logon_copy` is made by
-- `ConvertStringSidToSidW`, the others by `AllocateAndInitializeSid`
pub data Sid : Type 0 where
  sandbox logon_copy everyone_instead everyone : Sid

-- what is open, the last first, and the SIDs that `FreeSid` got although it did not make them
pub record Win : Type 0 where
  pub handles : List Handle
  pub sids : List Sid
  pub misfreed : List Sid

abbrev pub handle_number : Handle → ℕ
handle_number process_token = 0
handle_number restricted_token = 1
handle_number stdout_read = 2
handle_number stdout_write = 3
handle_number stderr_read = 4
handle_number stderr_write = 5
handle_number stdin_read = 6
handle_number stdin_write = 7
handle_number process = 8
handle_number thread = 9

abbrev pub sid_number : Sid → ℕ
sid_number sandbox = 0
sid_number logon_copy = 1
sid_number everyone_instead = 2
sid_number everyone = 3

abbrev pub drop_first : {A : Type 0} → (A → ℕ) → A → List A → List A
drop_first number a [] = []
drop_first number a (b ∷ l) =
    let rest = drop_first number a l in if number a == number b then l else b ∷ rest

abbrev pub opened : List Handle → Win → Win
opened hs w = record w { handles = hs ++ w.handles }

-- `CloseHandle`
abbrev pub close_handle : Handle → Win → Win
close_handle h w = record w { handles = drop_first handle_number h w.handles }

abbrev pub was_allocated : Sid → Bool
was_allocated logon_copy = false
was_allocated _ = true

-- `FreeSid`
abbrev pub free_sid : Sid → Win → Win
free_sid sid w = record w {
  sids = drop_first sid_number sid w.sids;
  misfreed = if was_allocated sid then w.misfreed else sid ∷ w.misfreed;
}

-- a group of the token: its attributes, and whether the two conversions of its SID succeed
pub record Group : Type 0 where
  pub attributes : ℕ
  pub to_text : Option String
  pub to_sid : Bool

pub record TokenCalls : Type 0 where
  pub open_process_token : Option String
  pub token_groups : Result (List Group) String
  -- `AllocateAndInitializeSid`
  pub allocate : Sid → Option String
  pub create_restricted_token : Option String

-- both bits of `SE_GROUP_LOGON_ID`
abbrev pub is_logon : ℕ → Bool
is_logon attributes = (attributes / 2 ^ 30) % 4 == 3

module _ (calls : TokenCalls) where
  abbrev pub allocated : Sid → Option String → Win → Result Sid String × Win
  allocated sid none w = (ok sid, record w { sids = sid ∷ w.sids })
  allocated sid (some e) w = (err (push_str "failed to create Everyone SID: " e), w)

  unfoldable pub make_everyone_sid : Sid → Win → Result Sid String × Win
  make_everyone_sid sid w = allocated sid (calls.allocate sid) w

  abbrev pub convert :
      Bool → Option String → Result Sid String × Win → Win → Result Sid String × Win
  convert to_sid (some e) next w = (err (push_str "ConvertSidToStringSidW failed: " e), w)
  convert to_sid none next w =
      if to_sid then (ok logon_copy, record w { sids = logon_copy ∷ w.sids }) else next

  unfoldable pub find_logon : List Group → Win → Result Sid String × Win
  find_logon [] w = make_everyone_sid everyone_instead w
  find_logon (g ∷ gs) w =
      let next = find_logon gs w in
      if is_logon g.attributes then convert g.to_sid g.to_text next w else next

  abbrev pub logon_of : Result (List Group) String → Win → Result Sid String × Win
  logon_of (err e) w = (err (push_str "GetTokenInformation(TokenGroups) failed: " e), w)
  logon_of (ok groups) w = find_logon groups w

  unfoldable pub get_logon_sid : Win → Result Sid String × Win
  get_logon_sid w = logon_of calls.token_groups w

  abbrev pub restrict : Sid → Sid → Option String → Win → Result Handle String × Win
  restrict logon_sid everyone_sid (some e) w = (
    err (push_str "CreateRestrictedToken failed: " e),
    close_handle process_token (free_sid logon_sid (free_sid everyone_sid w)),
  )
  restrict logon_sid everyone_sid none w = (
    ok restricted_token,
    close_handle process_token
        (free_sid logon_sid (free_sid everyone_sid (opened (restricted_token ∷ []) w))),
  )

  abbrev pub with_everyone : Sid → Result Sid String × Win → Result Handle String × Win
  with_everyone logon_sid (err e, w) = (err e, close_handle process_token (free_sid logon_sid w))
  with_everyone logon_sid (ok sid, w) = restrict logon_sid sid calls.create_restricted_token w

  abbrev pub with_logon : Result Sid String × Win → Result Handle String × Win
  with_logon (err e, w) = (err e, close_handle process_token w)
  with_logon (ok logon_sid, w) = with_everyone logon_sid (make_everyone_sid everyone w)

  abbrev pub with_token : Option String → Win → Result Handle String × Win
  with_token (some e) w = (err (push_str "OpenProcessToken failed: " e), w)
  with_token none w = with_logon (get_logon_sid (opened (process_token ∷ []) w))

  unfoldable pub create_write_restricted_token : Win → Result Handle String × Win
  create_write_restricted_token w = with_token calls.open_process_token w
