-- ===== src/Radius/Coa/Exchange.antt =====
-- `_Exchange` and `disconnect` of naco/radius/coa.py: the request is sent again after each wait that
-- ends without an answer. What arrives in each wait is a list of events, the socket's errors included:
-- one of those that is a TimeoutError is taken for the end of a wait.
use naco.Base.{
  Bool, List, Option, String, [], false, if◌then◌else◌, none, refl, some, str_eq, suc, true, zero,
  ℕ, ◌&&◌, ◌++◌, ◌+◌, ◌==◌, ◌≡◌, ◌∷◌, ap,
}
pub mod Outcomes
pub mod Rounds
pub mod Acks
use naco.Base.Utf8
use naco.Radius.Coa.{SessionIds, build_disconnect, byte_at, disconnect_ack, verify_response}
use naco.Radius.Vendors.{Vendor}

pub record CoaTarget : Type 0 where
  pub ip : String
  pub port : ℕ
  pub secret : String

pub data Outcome : Type 0 where
  ack nak timeout error : Outcome

-- the text of `detail`, by what it says
pub data Detail : Type 0 where
  nothing : Detail
  invalid_address : String → Detail
  raised : String → Detail
  answered_code : ℕ → Detail
  no_answer : String → ℕ → Detail

pub record CoaResult : Type 0 where
  pub outcome : Outcome
  pub detail : Detail

pub data NetEvent : Type 0 where
  datagram : List ℕ → String → ℕ → NetEvent
  socket_error : String → NetEvent
  socket_timeout : NetEvent

-- the future `answer` when it is done
pub data Answer : Type 0 where
  response : List ℕ → Answer
  failure : String → Answer
  expired : Answer

-- the `CoaResult` of what the future holds; a TimeoutError only ends the round
pub result_of : Answer → Option CoaResult
unfolding byte_at
result_of (response bytes) =
    if byte_at bytes 0 == disconnect_ack
    then some (record { outcome = Outcome.ack; detail = nothing })
    else some (record { outcome = Outcome.nak; detail = answered_code (byte_at bytes 0) })
result_of (failure text) = some (record { outcome = Outcome.error; detail = raised text })
result_of expired = none

module _ (md5 : List ℕ → List ℕ) (hmac : List ℕ → List ℕ → List ℕ) (request secret : List ℕ)
    (host : String) (port : ℕ) where
  -- `datagram_received` and `error_received`, by what the future holds
  pub receive : Option Answer → NetEvent → Option Answer
  unfolding verify_response
  receive (some a) e = some a
  receive none (datagram bytes from from_port) =
      if str_eq from host && from_port == port
      then if verify_response md5 hmac request bytes secret then some (response bytes) else none
      else none
  receive none (socket_error text) = some (failure text)
  receive none socket_timeout = some expired

  -- the events of one wait
  pub receive_all : Option Answer → List NetEvent → Option Answer
  unfolding receive
  receive_all o [] = o
  receive_all o (e ∷ events) = receive_all (receive o e) events

  -- the loop of `disconnect` after `i` rounds: the result and how often the request was sent
  pub attempts : (ℕ → List NetEvent) → String → ℕ → ℕ → Option Answer → CoaResult × ℕ
  unfolding receive_all result_of
  attempts waits ip zero i o = (record { outcome = Outcome.timeout; detail = no_answer ip port }, i)
  attempts waits ip (suc n) i o =
      let rest = attempts waits ip n (suc i) in
      elim (receive_all o (waits i)) [
        | some a ↦ elim (result_of a) [ some r ↦ (r, suc i) | none ↦ rest (some a) ]
        | none ↦ rest none
      ]

-- the addresses as Python reads and prints them, the sockets, the random byte and the clock;
-- `opened` is the error of opening the endpoint, `waits i` what arrives while the client waits after
-- it has sent the request `i + 1` times
pub record CoaWorld : Type 0 where
  pub parse : String → Option String
  pub ipv4 : String → Option (List ℕ)
  pub opened : Option String
  pub waits : ℕ → List NetEvent
  pub random_byte : ℕ
  pub now : ℕ

module _ (md5 : List ℕ → List ℕ) (hmac : List ℕ → List ℕ → List ℕ) (w : CoaWorld) where
  -- the packet that `disconnect` sends
  pub packet_for : CoaTarget → SessionIds → Vendor → List ℕ
  unfolding build_disconnect
  packet_for target ids nas =
      build_disconnect md5 hmac w.ipv4 (Utf8.encode target.secret) w.random_byte ids nas w.now

  -- `disconnect`, and how often it sends
  unfoldable pub disconnect : CoaTarget → SessionIds → Vendor → ℕ → CoaResult × ℕ
  unfolding attempts packet_for
  disconnect target ids nas retries = elim (w.parse target.ip) [
    | none ↦ (record { outcome = Outcome.error; detail = invalid_address target.ip }, 0)
    | some host ↦ elim w.opened [
      | some text ↦ (record { outcome = Outcome.error; detail = raised text }, 0)
      | none ↦
          attempts md5 hmac (packet_for target ids nas) (Utf8.encode target.secret) host target.port
            w.waits target.ip retries 0 none
    ]
  ]
