-- ===== src/Radius/Reevaluate.antt =====
-- naco/radius/reevaluate.py: live sessions are decided again, and those whose decision changed are
-- disconnected. The disconnects run concurrently and share nothing but two counters, so they are
-- taken in the order of the sessions. Messages of the log are left out.
pub mod Targets
pub mod Counts
pub mod Worker
use naco.Base.{
  Bool, Dict, List, Option, Result, String, Unicode, [], err, false, get, if◌then◌else◌, is_empty,
  is_some, keep, length, ltb, map, mem_text, none, not, ok, or_none, put, some, str_eq, suc, ℕ,
  ◌&&◌, ◌+◌, ◌||◌, ◌∷◌,
}
use naco.Models.{Device, GuestRegistration, NasClient, RadiusSession, User}
use naco.Policy.Context.{AuthMethod, Decision, Fingerprint, accepted, digest, method_of}
use naco.Policy.Conditions.{Zone, mac}
use naco.Policy.Engine.{CompiledPolicy, Policy, PolicyLoadError, decide, load_policies}
use naco.Aaa.Identity.{Tables, UserInfo, info_of}
use naco.Aaa.Subject.{context, ended, subject_context}
use naco.Radius.Clients.{Addresses, find}
use naco.Radius.Vendors.{vendor}
use naco.Radius.Coa.{SessionIds}
use naco.Radius.Coa.Exchange.{CoaResult, CoaWorld, Outcome, disconnect}

pub record ReevalSummary : Type 0 where
  pub checked : ℕ
  pub changed : ℕ
  pub disconnected : ℕ
  pub failed : ℕ
  pub reasons : List String

-- `ReevalSummary(reasons=…)`
abbrev pub no_summary : List String → ReevalSummary
no_summary reasons = record {
  checked = 0;
  changed = 0;
  disconnected = 0;
  failed = 0;
  reasons = reasons;
}

-- `_changed`
pub is_changed : Fingerprint → Decision → String → Bool
unfolding digest
is_changed f decision stored = not (accepted decision) || not (str_eq (digest f decision) stored)

pub ids_of : RadiusSession → SessionIds
ids_of s = record {
  acct_session_id = s.acct_session_id;
  user_name = s.acct_username;
  calling_station_id = s.calling_station_id;
  nas_ip_address = s.nas_ip_address;
  nas_identifier = s.nas_identifier;
  audit_session_id = s.audit_session_id;
}

-- `send_disconnect`; each session meets a world of its own
unfoldable pub send_disconnect :
    (List ℕ → List ℕ)
    → (List ℕ → List ℕ → List ℕ)
    → (RadiusSession → CoaWorld)
    → ℕ
    → RadiusSession
    → NasClient
    → CoaResult
unfolding ids_of disconnect vendor
send_disconnect md5 hmac worlds retries s nas =
    (disconnect md5 hmac (worlds s)
      (record { ip = s.nas_ip; port = nas.coa_port; secret = nas.secret }) (ids_of s)
      (vendor (some nas.vendor)) retries).0

-- what `_load_world` returns: the table of NAS, accounts by name, devices by address, guests
pub record LiveWorld : Type 0 where
  pub nas : List NasClient
  pub users : Dict UserInfo
  pub devices : Dict Device
  pub guests : List String

-- the rows that `reevaluate` reads
pub record LiveTables : Type 0 where
  pub tables : Tables
  pub devices : List Device
  pub guests : List GuestRegistration
  pub clients : List NasClient
  pub policies : List Policy
  pub sessions : List RadiusSession

-- `users[user.username] = UserInfo(…)`, without the attributes of device administration
pub users_by_name : Tables → List String → List User → Dict UserInfo → Dict UserInfo
unfolding info_of
users_by_name t names [] users = users
users_by_name t names (x ∷ rows) users = users_by_name t names rows (
    if mem_text x.username names
    then put users x.username (record (info_of t.groups x) { device_admin_attributes = [] })
    else users)

pub devices_by_mac : List String → List Device → Dict Device → Dict Device
devices_by_mac macs [] devices = devices
devices_by_mac macs (d ∷ rows) devices =
    devices_by_mac macs rows
      (if mem_text d.mac_address macs then put devices d.mac_address d else devices)

pub live_guests : List String → ℕ → List GuestRegistration → List String
live_guests macs now guests =
    map (λ (g : GuestRegistration). g.mac_address)
      (keep
        (λ (g : GuestRegistration).
          mem_text g.mac_address macs && not (is_some g.revoked_at) && ltb now g.expires_at)
        guests)

-- `{s.username for s in sessions if s.username}` and the same of the addresses
abbrev pub filled : (RadiusSession → String) → List RadiusSession → List String
filled field sessions = keep (λ x. not (is_empty x)) (map field sessions)

-- `_load_world`
pub load_world : LiveTables → List RadiusSession → ℕ → LiveWorld
unfolding users_by_name devices_by_mac live_guests
load_world db sessions now = record {
  nas = db.clients;
  users = users_by_name db.tables (filled (λ s. s.username) sessions) db.tables.users [];
  devices = devices_by_mac (filled (λ s. s.mac_address) sessions) db.devices [];
  guests = live_guests (filled (λ s. s.mac_address) sessions) now db.guests;
}

-- `select(RadiusSession).where(RadiusSession.decision_digest != "")`
pub live_sessions : LiveTables → List RadiusSession
live_sessions db = keep (λ (s : RadiusSession). not (is_empty s.decision_digest)) db.sessions

pub both {ℓ κ} : {A : Type ℓ} {B : Type κ} → Option A → Option B → Option (A × B)
both none o = none
both (some a) none = none
both (some a) (some b) = some (a, b)

module _ (u : Unicode) (tz : Zone) (f : Fingerprint) (a : Addresses) (world : LiveWorld)
    (policies : List CompiledPolicy) (now : ℕ) where
  -- the decision that the session would get now
  pub decide_again : RadiusSession → AuthMethod → NasClient → Decision
  unfolding subject_context decide
  decide_again s method nas =
      let mac = or_none s.mac_address in
      let subject =
        subject_context method s.username (get world.users s.username) mac
          (elim mac [ none ↦ none | some m ↦ get world.devices m ])
          (elim mac [ none ↦ false | some m ↦ mem_text m world.guests ]) nas.name s.nas_ip
          (or_none s.ssid) now in
      elim subject [ ended d ↦ d | context ctx ↦ decide u policies ctx tz ]

  -- the method and the NAS of a session that is checked
  pub checkable : RadiusSession → Option (AuthMethod × NasClient)
  unfolding find method_of both
  checkable s = both (method_of s.auth_method) (find a world.nas s.nas_ip)

  -- one round of the loop over the sessions: how many are checked, and whom to disconnect
  pub review_one :
      RadiusSession
      → Option (AuthMethod × NasClient)
      → ℕ × List (RadiusSession × NasClient)
      → ℕ × List (RadiusSession × NasClient)
  unfolding is_changed decide_again
  review_one s none (n, targets) = (n, targets)
  review_one s (some (method, nas)) (n, targets) = (
    suc n,
    if is_changed f (decide_again s method nas) s.decision_digest
        then (s, nas) ∷ targets
        else targets,
  )

  pub review : List RadiusSession → ℕ × List (RadiusSession × NasClient)
  unfolding checkable review_one
  review [] = (0, [])
  review (s ∷ sessions) = review_one s (checkable s) (review sessions)

-- the counters after one answer
pub count_result : ReevalSummary → Outcome → ReevalSummary
count_result summary Outcome.ack = record summary { disconnected = summary.disconnected + 1 }
count_result summary Outcome.nak = record summary { failed = summary.failed + 1 }
count_result summary Outcome.timeout = record summary { failed = summary.failed + 1 }
count_result summary Outcome.error = record summary { failed = summary.failed + 1 }

-- `one`, for every target
pub disconnect_all :
    (RadiusSession → NasClient → CoaResult)
    → List (RadiusSession × NasClient)
    → ReevalSummary
    → ReevalSummary
unfolding count_result
disconnect_all send [] summary = summary
disconnect_all send ((s, nas) ∷ targets) summary =
    disconnect_all send targets (count_result summary ((send s nas).outcome))

module _ (u : Unicode) (tz : Zone) (f : Fingerprint) (a : Addresses)
    (send : RadiusSession → NasClient → CoaResult) (db : LiveTables) (now : ℕ)
    (reasons : List String) where
  -- `reevaluate` on what `load_policies` gives
  pub after_load :
      Result PolicyLoadError (List CompiledPolicy)
      → ReevalSummary × List (RadiusSession × NasClient)
  unfolding live_sessions load_world review disconnect_all
  after_load (err e) = (no_summary reasons, [])
  after_load (ok policies) =
      let (checked, targets) =
        review u tz f a (load_world db (live_sessions db) now) policies now (live_sessions db) in
      (
        disconnect_all send targets
            (record (no_summary reasons) { checked = checked; changed = length targets }),
        targets,
      )

  -- `reevaluate`: the summary, and the sessions for which a Disconnect-Request was sent
  unfoldable pub reevaluate : ReevalSummary × List (RadiusSession × NasClient)
  unfolding load_policies after_load
  reevaluate = after_load (load_policies u db.policies)
