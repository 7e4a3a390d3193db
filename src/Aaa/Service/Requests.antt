-- ===== src/Aaa/Service/Requests.antt =====
-- `authenticate`, `lookup_client` and `_log_decision` of naco/aaa/service.py.
use naco.Base.{
  Bool, List, Option, String, Unicode, clip, if◌then◌else◌, is_empty, ltb, none, or_else, or_empty,
  some, text_or, ℕ,
}
use naco.Policy.Context.{Decision, Fingerprint, accepted, digest}
use naco.Models.{AuthLog, AuthResult, NasClient}
use naco.RateLimit.Guard
use naco.RateLimit.Guard.{GuessGuard}
use naco.Aaa.Identity.{IdentityResult, Tables, World, authenticate_user, canonical_username, refuse}
use naco.Aaa.Service.{RequestInfo, verified_key}
use naco.Aaa.Service.Verified.{Key, remember_verified}

pub record ClientDef : Type 0 where
  pub name : String
  pub ip : String
  pub secret : String
  pub require_message_authenticator : Bool

-- `lookup_client`; `nas` is what `find_nas` returns for the parsed address
pub lookup_client : String → Option NasClient → Option ClientDef
lookup_client address none = none
lookup_client address (some nas) =
    if nas.enabled
    then some (record {
      name = nas.name;
      ip = address;
      secret = nas.secret;
      require_message_authenticator = nas.require_message_authenticator;
    })
    else none

-- what `authenticate` changes
pub record AuthState : Type 0 where
  pub guesses : GuessGuard
  pub verified : List (Key × ℕ)
  pub tables : Tables

-- `_log_decision`
pub log_decision :
    Fingerprint
    → RequestInfo
    → String
    → String
    → String
    → AuthResult
    → String
    → Option Decision
    → ℕ
    → AuthLog
log_decision f req method username nas_name result reason decision now = record {
  timestamp = now;
  username = clip 64 username;
  mac_address = or_empty req.mac;
  nas_ip = req.nas_ip;
  nas_name = clip 64 nas_name;
  ssid = clip 64 (or_empty req.ssid);
  auth_method = clip 16 method;
  result = result;
  reason = clip 255 reason;
  policy_name = elim decision [ none ↦ "" | some d ↦ clip 128 d.policy_name ];
  vlan = elim decision [ none ↦ none | some d ↦ if accepted d then d.vlan else none ];
  decision_digest = elim decision [ none ↦ "" | some d ↦ if accepted d then digest f d else "" ];
}

-- `req.mac or req.calling_station or req.nas_ip`
pub guess_source : RequestInfo → String
guess_source req = text_or (or_else req.mac req.calling_station) req.nas_ip

module _ (u : Unicode) (w : World) where
  -- the answer of `authenticate_user`, counted
  pub settle_guess :
      AuthState
      → RequestInfo
      → String
      → String
      → Tables × IdentityResult
      → AuthState × IdentityResult
  unfolding guess_source verified_key
  settle_guess s req key raw_name (tables, result) =
      if result.is_ok
      then (
        record s {
          guesses = Guard.success s.guesses key (guess_source req);
          tables = tables;
          verified =
              if is_empty (canonical_username u (some raw_name))
              then s.verified
              else remember_verified s.verified w.now
                  (verified_key (canonical_username u (some raw_name)) req);
        },
        result,
      )
      else (
        record s {
          guesses = Guard.failure s.guesses key (guess_source req) w.now;
          tables = tables;
        },
        result,
      )

  -- `authenticate`, up to the row that is logged for a refusal; `raw_name` and `password` are the
  -- attributes User-Name and User-Password, or ""
  pub authenticate : AuthState → RequestInfo → String → String → AuthState × IdentityResult
  unfolding settle_guess guess_source
  authenticate s req raw_name password =
      let key = text_or (canonical_username u (some raw_name)) (clip 64 raw_name) in
      let (delay, guard) = Guard.delay_for s.guesses key (guess_source req) w.now in
      if ltb 0 delay
      then (record s { guesses = guard }, refuse "too many failed attempts — slowed down" key none)
      else settle_guess (record s { guesses = guard }) req key raw_name
          (authenticate_user u w s.tables raw_name password)
