-- ===== src/Tests/Coa.antt =====
-- RADIUS clients, Disconnect-Requests and the re-evaluation of sessions at concrete inputs: one switch,
-- one session, and a digest of sixteen zeros.
use mathlib.Core.List.{Memᴰ}
use naco.Base.{
  length, ◌+◌, ◌≤◌, str_eq, List, Option, String, Unicode, [], false, from_bytes, if◌then◌else◌,
  none, ok, refl, some, to_bytes, true, ℕ, ◌++◌, ◌<◌, ◌==◌, ◌↔◌, ◌∷◌, ◌≡◌, ◌≢◌,
}
use naco.Base.Utf8
use naco.Models.{NasClient, RadiusSession}
use naco.Policy.Conditions.{Zone}
use naco.Policy.Engine.{CompiledPolicy, load_policies}
use naco.Radius.Clients.{Addresses, find}
use naco.Radius.Clients.Narrowest.{IsAnswer, find-IsAnswer}
use naco.Radius.Vendors.{standard}
use naco.Radius.Coa.{
  SessionIds, attr_message_authenticator, byte_at, disconnect_ack, find_attr, slice,
  verify_response, zeros,
}
use naco.Radius.Coa.Found.{FirstAt, find_attr_iff}
use naco.Radius.Coa.Authentic.{IsAuthentic, verify_response_iff}
use naco.Radius.Coa.Exchange.{
  CoaResult, CoaTarget, CoaWorld, Detail, Outcome, datagram, disconnect, packet_for,
}
use naco.Radius.Coa.Exchange.Acks.{disconnect-acknowledged, disconnect-timeout_iff}
use naco.Radius.Coa.Exchange.Outcomes.{IsSilent, arrived}
use naco.Radius.Reevaluate.{LiveTables, live_sessions, load_world, reevaluate}
use naco.Radius.Reevaluate.Counts.{acked, reevaluate-counts}
use naco.Radius.Reevaluate.Targets.{IsStale, reevaluate-mem}
use naco.Radius.Reevaluate.Worker.{
  Tick, asleep, change, changes, concat, run, run-concat, turn, worker,
}

abbrev plain : Unicode
plain = record {
  lower = λ s. s;
  casefold = λ s. s;
  is_space = λ c. false;
  fnmatchcase = λ text pattern. str_eq text pattern;
}

abbrev utc : Zone
utc = record { weekday = λ t. 0; minute = λ t. 0 }

abbrev no_networks : Addresses
no_networks = record { is_address = λ s. true; prefixlen = λ s. 0; contains = λ n s. false }

abbrev switch : NasClient
switch = record {
  id = 1;
  name = "switch";
  ip_address = "10.0.0.1";
  secret = "s";
  coa_port = 3799;
  vendor = "standard";
  require_message_authenticator = true;
  enabled = true;
}

find-IsAnswer_example :
    IsAnswer no_networks "10.0.0.1" (switch ∷ []) (find no_networks (switch ∷ []) "10.0.0.1")
find-IsAnswer_example = find-IsAnswer no_networks "10.0.0.1" (switch ∷ [])

abbrev zero_md5 : List ℕ → List ℕ
zero_md5 x = zeros

abbrev zero_hmac : List ℕ → List ℕ → List ℕ
zero_hmac k x = zeros

-- an acknowledgement of twenty bytes
abbrev ack : List ℕ
ack = 41 ∷ 5 ∷ 0 ∷ 20 ∷ zeros

find_attr_iff_example :
    (find_attr ack attr_message_authenticator 20 ≡ some 22)
    ↔ FirstAt ack attr_message_authenticator 20 20 22
find_attr_iff_example = find_attr_iff ack attr_message_authenticator 20 22

verify_response_iff_example :
    (verify_response zero_md5 zero_hmac ack ack [] ≡ true)
    ↔ IsAuthentic zero_md5 zero_hmac ack ack [] (from_bytes (slice 2 4 ack))
verify_response_iff_example = verify_response_iff zero_md5 zero_hmac ack ack []

abbrev ids : SessionIds
ids = record {
  acct_session_id = "1";
  user_name = "ann";
  calling_station_id = "";
  nas_ip_address = "";
  nas_identifier = "";
  audit_session_id = "";
}

abbrev no_ipv4 : String → Option (List ℕ)
no_ipv4 s = none

-- the NAS acknowledges the second request
abbrev coa_world : CoaWorld
coa_world = record {
  parse = λ s. some s;
  ipv4 = no_ipv4;
  opened = none;
  waits = λ i. if i == 1 then datagram ack "10.0.0.1" 3799 ∷ [] else [];
  random_byte = 5;
  now = 100;
}

abbrev target : CoaTarget
target = record { ip = "10.0.0.1"; port = 3799; secret = "" }

disconnect-test :
    (disconnect zero_md5 zero_hmac coa_world target ids standard 3).0.outcome ≡ Outcome.ack
unfolding disconnect Utf8.encode to_bytes from_bytes
disconnect-test = refl

disconnect-acknowledged_example :
    (host : String) × (some "10.0.0.1" ≡ some host)
    × (k : ℕ) × (k < 3)
    × (bytes : List ℕ) × Memᴰ (datagram bytes host 3799) (coa_world.waits k)
    × IsAuthentic zero_md5 zero_hmac
        (packet_for zero_md5 zero_hmac coa_world target ids standard)
        bytes
        (Utf8.encode "")
        (from_bytes (slice 2 4 bytes))
    × (byte_at bytes 0 ≡ disconnect_ack)
disconnect-acknowledged_example =
    disconnect-acknowledged zero_md5 zero_hmac coa_world target ids standard 3 disconnect-test

disconnect-timeout_iff_example :
    ((disconnect zero_md5 zero_hmac coa_world target ids standard 1).0.outcome ≡ Outcome.timeout)
    ↔ ((host : String) × (some "10.0.0.1" ≡ some host)
        × (coa_world.opened ≡ none)
        × IsSilent zero_md5 zero_hmac
            (packet_for zero_md5 zero_hmac coa_world target ids standard)
            (Utf8.encode "")
            host
            3799
            (arrived coa_world.waits 1 0))
disconnect-timeout_iff_example =
    disconnect-timeout_iff zero_md5 zero_hmac coa_world target ids standard 1

abbrev session : RadiusSession
session = record {
  nas_ip = "10.0.0.1";
  acct_session_id = "1";
  username = "ann";
  acct_username = "ann";
  calling_station_id = "";
  nas_ip_address = "";
  nas_identifier = "";
  audit_session_id = "";
  mac_address = "";
  framed_ip = "";
  ssid = "";
  auth_method = "EAP-TLS";
  policy_name = "";
  vlan = none;
  decision_digest = "old";
  started_at = 0;
  updated_at = 0;
  input_octets = 0;
  output_octets = 0;
  session_time = 0;
}

abbrev live : LiveTables
live = record {
  tables = record { users = []; groups = [] };
  devices = [];
  guests = [];
  clients = switch ∷ [];
  policies = [];
  sessions = session ∷ [];
}

abbrev answer : RadiusSession → NasClient → CoaResult
answer s c = record { outcome = Outcome.ack; detail = Detail.nothing }

reevaluate-mem_example :
    Memᴰ (session, switch) (reevaluate plain utc (λ x v r. "new") no_networks answer live 100 []).1
    ↔ ((policies : List CompiledPolicy) × (load_policies plain [] ≡ ok policies)
        × Memᴰ session (session ∷ [])
        × (session.decision_digest ≢ "")
        × IsStale plain utc
            (λ x v r. "new")
            no_networks
            (load_world live (live_sessions live) 100)
            policies
            100
            session
            switch)
reevaluate-mem_example =
    reevaluate-mem plain utc (λ x v r. "new") no_networks answer live 100 [] session switch

reevaluate-counts_example :
    let (summary, targets) =
      reevaluate plain utc (λ x v r. "new") no_networks answer live 100 ("edit" ∷ []) in
    (summary.checked ≤ length (live_sessions live))
    × (summary.changed ≤ summary.checked)
    × (summary.changed ≡ length targets)
    × (summary.disconnected ≡ length (acked answer targets))
    × (summary.disconnected + summary.failed ≡ summary.changed)
    × (summary.reasons ≡ "edit" ∷ [])
reevaluate-counts_example =
    reevaluate-counts plain utc (λ x v r. "new") no_networks answer live 100 ("edit" ∷ [])

abbrev ticks : List Tick
ticks = change "a" ∷ change "b" ∷ worker ∷ change "c" ∷ []

run-concat_example :
    (concat (run asleep ticks).1 ++ (run asleep ticks).0.reasons ≡ changes ticks)
    × ((turn (run asleep ticks).0).0.reasons ≡ [])
run-concat_example = run-concat ticks
