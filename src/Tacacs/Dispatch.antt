-- ===== src/Tacacs/Dispatch.antt =====
-- The tests of `_Connection.run` and `dispatch` of naco/tacacs/server.py: what a packet asks for.
use naco.Base.{List, err, false, if◌then◌else◌, not, ok, raise_if, true, ℕ, ◌%◌, ◌==◌, ◌>>=◌, ◌>>◌}
use naco.Tacacs.Wire.{
  Header, Parsed, authen, author, crypt, even_sequence, single_packet, unencrypted,
}
use naco.Tacacs.Wire.Bodies.{
  AuthenContinue, AuthenStart, Request, decode_continue, decode_request, decode_start,
}

-- the handler that `dispatch` calls, with the body
pub data Call : Type 0 where
  authen_start : AuthenStart → Call
  authen_continue : AuthenContinue → Call
  authorize : Request → Call
  account : Request → Call

-- `dispatch`
pub dispatch : Header → List ℕ → Parsed Call
dispatch h body =
    if h.kind == authen
    then if h.seq_no == 1
      then (do s ← decode_start body; ok (authen_start s))
      else (do c ← decode_continue body; ok (authen_continue c))
    else if not (h.seq_no == 1)
    then err single_packet
    else if h.kind == author
    then (do r ← decode_request false body; ok (authorize r))
    else (do r ← decode_request true body; ok (account r))

-- the body of the loop, up to the handler
pub read_packet : (List ℕ → List ℕ) → List ℕ → Header → List ℕ → Parsed Call
unfolding dispatch
read_packet md5 key h raw = do
  raise_if (h.flags % 2 == 1) unencrypted
  raise_if (h.seq_no % 2 == 0) even_sequence
  dispatch h (crypt md5 raw key h.session_id h.version h.seq_no)
