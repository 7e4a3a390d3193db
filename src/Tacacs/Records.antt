-- ===== src/Tacacs/Records.antt =====
-- `record` and `account` of naco/tacacs/server.py: the rows of what devices ask and report.
use naco.Base.{
  Bool, Dict, String, Unicode, [], clip, get, if◌then◌else◌, is_empty, or_else, some, text_or, ℕ,
  ◌%◌, ◌/◌, ◌==◌,
}
use naco.Models.{TacacsKind, TacacsLog}
use naco.Aaa.Identity.{canonical_username}
use naco.Tacacs.Wire.Bodies.{Request}
use naco.Tacacs.Authz.Requests.{command_line, parse_args}

-- `record`
pub row_of :
    String → TacacsKind → String → String → String → ℕ → String → String → String → TacacsLog
row_of ip kind username rem_addr port privilege command result reason = record {
  kind = kind;
  username = clip 64 username;
  client_ip = ip;
  rem_addr = clip 64 rem_addr;
  port = clip 64 port;
  privilege = privilege;
  command = clip 4000 command;
  result = clip 16 result;
  reason = clip 255 reason;
}

-- the bit of a flag: `flags & 2 ** k`
pub has_flag : ℕ → ℕ → Bool
has_flag flags bit = (flags / bit) % 2 == 1

pub kind_word : ℕ → String
unfolding has_flag
kind_word flags =
    if has_flag flags 2
    then "START"
    else if has_flag flags 4
    then "STOP"
    else if has_flag flags 8
    then "WATCHDOG"
    else "OTHER"

-- `account`: the row; `listed` prints the attributes in order when there is no command
pub account : Unicode → (String → String) → (Dict String → String) → String → Request → TacacsLog
unfolding row_of kind_word
account u words listed ip req =
    let (attrs, cmd_args) = parse_args u words req.args ([], []) in
    let cmd = or_else (get attrs "cmd") "" in
    let what = if is_empty cmd then listed attrs else command_line u words cmd cmd_args in
    let username = text_or (canonical_username u (some req.user)) (clip 64 req.user) in
    row_of ip TacacsKind.acct username req.rem_addr req.port req.priv_lvl what (kind_word req.flags)
      ""
