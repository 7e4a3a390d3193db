-- ===== src/Tacacs/Server.antt =====
-- Authentication of naco/tacacs/server.py: `_Connection`'s logins, `verify` and what they answer.
-- The rows that `record` stores are left out; a reply is its status, its message and the echo flag.
pub mod Passes
use naco.Base.{
  Bool, List, Option, String, Unicode, [], clip, false, if◌then◌else◌, is_empty, join, ltb, none,
  not, some, text_or, true, ℕ, ◌&&◌, ◌+◌, ◌==◌, ◌∷◌,
}
use naco.Aaa.Identity.{
  IdentityResult, Tables, UserInfo, World, authenticate_user, canonical_username,
}
use naco.RateLimit.Guard
use naco.RateLimit.Guard.{GuessGuard}
use naco.Tacacs.Wire.Bodies.{AuthenContinue, AuthenStart}
use naco.Tacacs.Authz.{admin_rights, privilege_allowed}

abbrev pub status_pass : ℕ
status_pass = 1

abbrev pub status_fail : ℕ
status_fail = 2

abbrev pub status_getuser : ℕ
status_getuser = 4

abbrev pub status_getpass : ℕ
status_getpass = 5

abbrev pub status_error : ℕ
status_error = 7

pub record Reply : Type 0 where
  pub status : ℕ
  pub message : String
  pub noecho : Bool

-- `_Login.awaiting`
pub data Awaiting : Type 0 where
  for_user for_pass : Awaiting

pub record Login : Type 0 where
  pub start : AuthenStart
  pub user : String
  pub awaiting : Awaiting
  pub next_seq : ℕ

-- what a step may change: the guard, the accounts, and the logins of the connection
pub record State : Type 0 where
  pub failures : GuessGuard
  pub tables : Tables
  pub logins : List (ℕ × Login)

pub find_login : List (ℕ × Login) → ℕ → Option Login
find_login [] id = none
find_login ((i, l) ∷ logins) id =
    let rest = find_login logins id in if i == id then some l else rest

-- `self.logins.pop(id, None)`
pub drop_login : List (ℕ × Login) → ℕ → List (ℕ × Login)
drop_login [] id = []
drop_login ((i, l) ∷ logins) id =
    let rest = drop_login logins id in if i == id then rest else (i, l) ∷ rest

-- `self.logins[id] = login`
pub put_login : List (ℕ × Login) → ℕ → Login → List (ℕ × Login)
unfolding drop_login
put_login logins id l = (id, l) ∷ drop_login logins id

abbrev pub say : ℕ → String → Bool → Reply
say status message noecho = record { status = status; message = message; noecho = noecho }

abbrev pub authen_fail : Reply
authen_fail = say status_fail "" false

-- `start.authen_service == p.SERVICE_ENABLE`
abbrev pub is_enable : AuthenStart → Bool
is_enable start = start.authen_service == 2

-- the end of `verify`: rights, and for enable the level
pub check_rights : AuthenStart → Option UserInfo → Reply
unfolding admin_rights privilege_allowed
check_rights start none = authen_fail
check_rights start (some x) =
    if not (admin_rights (some x)).allowed
    then authen_fail
    else if is_enable start && not (privilege_allowed x start.priv_lvl).allowed
    then authen_fail
    else say status_pass "" false

module _ (u : Unicode) (w : World) (ip : String) (decode_text : List ℕ → String) where
  -- `verify` once `authenticate_user` has answered
  pub judge : State → AuthenStart → String → String → Tables × IdentityResult → State × Reply
  unfolding check_rights
  judge s start key source (tables, result) =
      if result.is_ok
      then (
        record s { failures = Guard.success s.failures key source; tables = tables },
        check_rights start result.user,
      )
      else (
        record s { failures = Guard.failure s.failures key source w.now; tables = tables },
        authen_fail,
      )

  -- `verify`
  unfoldable pub verify : State → AuthenStart → String → String → State × Reply
  unfolding judge authenticate_user canonical_username Guard.delay_for
  verify s start username password =
      let key = text_or (canonical_username u (some username)) (clip 64 username) in
      let source = join ip (join "|" start.rem_addr) in
      let (delay, guard) = Guard.delay_for s.failures key source w.now in
      if ltb 0 delay
      then (record s { failures = guard }, authen_fail)
      else judge (record s { failures = guard }) start key source
          (authenticate_user u w s.tables username password)

  -- `authen_start`
  pub authen_start : State → ℕ → ℕ → AuthenStart → State × Reply
  unfolding verify drop_login put_login
  authen_start s id seq start =
      let s' = record s { logins = drop_login s.logins id } in
      if not (start.action == 1)
      then (s', authen_fail)
      else if start.authen_type == 2
      then verify s' start start.user (decode_text start.payload)
      else if not (start.authen_type == 1)
      then (s', authen_fail)
      else if is_empty start.user
      then (
        record s {
          logins =
              put_login s.logins id
                (record { start = start; user = ""; awaiting = for_user; next_seq = seq + 2 });
        },
        say status_getuser "Username: " false,
      )
      else (
        record s {
          logins = put_login s.logins id (record {
            start = start;
            user = start.user;
            awaiting = for_pass;
            next_seq = seq + 2;
          });
        },
        say status_getpass "Password: " true,
      )

  -- `authen_continue` for the login of the session
  pub continue_login : State → ℕ → ℕ → AuthenContinue → Option Login → State × Reply
  unfolding verify drop_login put_login
  continue_login s id seq cont none =
      (record s { logins = drop_login s.logins id }, say status_error "unexpected packet" false)
  continue_login s id seq cont (some l) =
      let s' = record s { logins = drop_login s.logins id } in
      let answer = text_or cont.user_msg (decode_text cont.payload) in
      if not (seq == l.next_seq)
      then (s', say status_error "unexpected packet" false)
      else if cont.abort
      then (s', say status_fail "aborted" false)
      else elim l.awaiting [
        | for_user ↦ (
          record s {
            logins =
                put_login s.logins id
                  (record l { user = answer; awaiting = for_pass; next_seq = seq + 2 });
          },
          say status_getpass "Password: " true,
        )
        | for_pass ↦ verify s' l.start l.user answer
      ]

  pub authen_continue : State → ℕ → ℕ → AuthenContinue → State × Reply
  unfolding continue_login find_login
  authen_continue s id seq cont = continue_login s id seq cont (find_login s.logins id)
