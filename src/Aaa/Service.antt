-- ===== src/Aaa/Service.antt =====
-- naco/aaa/service.py: authorization of every method, the cache of verified passwords, and the
-- session table that accounting keeps. `RequestInfo` is taken as computed from the attributes.
pub mod Verified
pub mod Rules
pub mod Accounting
pub mod Requests
pub mod Answers
use naco.Base.{
  or_else, Bool, List, Option, String, Unicode, [], any_of, clip, false, if◌then◌else◌, is_empty,
  is_some, ltb, none, not, some, str_eq, true, ℕ, ◌&&◌, ◌++◌, ◌||◌, ◌∷◌,
}
use naco.Policy.Context.{AuthMethod, Decision, deny, eap_tls, eap_ttls, mab, pap, peap}
use naco.Models.{Device, DeviceStatus, GuestRegistration, NasClient}
use naco.Policy.Conditions.{Zone}
use naco.Policy.Engine.{Policy, evaluate}
use naco.Netutils.{normalize_mac}
use naco.Aaa.Identity.{Tables, UserInfo, load_user}
use naco.Aaa.Service.Verified.{Key, recently_verified}
use naco.Aaa.Subject.{Subject, context, ended, is_mab, subject_context}

pub record RequestInfo : Type 0 where
  pub method : Option AuthMethod
  pub nas_ip : String
  pub mac : Option String
  pub ssid : Option String
  pub calling_station : String

-- `_verified_key`
pub verified_key : String → RequestInfo → Key
verified_key username req = (username, req.nas_ip, or_else req.mac req.calling_station)

-- the rows that a decision reads; `devices` is also written
pub record Database : Type 0 where
  pub tables : Tables
  pub devices : List Device
  pub guests : List GuestRegistration
  pub policies : List Policy

-- `PASSWORD_METHODS`
pub is_password_method : AuthMethod → Bool
is_password_method pap = true
is_password_method eap_ttls = true
is_password_method peap = true
is_password_method eap_tls = false
is_password_method mab = false

-- `guest_active`
pub guest_active : List GuestRegistration → String → ℕ → Bool
guest_active guests mac now =
    any_of
      (λ (g : GuestRegistration).
        str_eq g.mac_address mac && not (is_some g.revoked_at) && ltb now g.expires_at)
      guests

-- `req.mac is not None and await guest_active(db, req.mac, now)`
pub is_guest : List GuestRegistration → Option String → ℕ → Bool
unfolding guest_active
is_guest guests none now = false
is_guest guests (some mac) now = guest_active guests mac now

pub find_device : List Device → String → Option Device
find_device [] mac = none
find_device (d ∷ devices) mac =
    let rest = find_device devices mac in if str_eq d.mac_address mac then some d else rest

-- what `_see_device` writes to a device that is there
pub touch : String → String → ℕ → Device → Device
touch nas_ip username now d = record d {
  last_seen = now;
  last_nas_ip = nas_ip;
  last_username = if is_empty username then d.last_username else clip 64 username;
}

pub replace_device : String → Device → List Device → List Device
replace_device mac y [] = []
replace_device mac y (d ∷ devices) =
    let rest = replace_device mac y devices in
    if str_eq d.mac_address mac then y ∷ devices else d ∷ rest

-- `_see_device`; `vendor_for` looks the vendor up in the table of manufacturers
pub see_device :
    (String → String) → List Device → String → String → String → ℕ → List Device × Device
unfolding find_device touch replace_device
see_device vendor_for devices mac nas_ip username now = elim (find_device devices mac) [
  | none ↦
      let d : Device = record {
        mac_address = mac;
        status = DeviceStatus.pending;
        device_type = "";
        vendor = vendor_for mac;
        first_seen = now;
        last_seen = now;
        last_nas_ip = nas_ip;
        last_username = clip 64 username;
      } in
      (devices ++ d ∷ [], d)
  | some x ↦ (replace_device mac (touch nas_ip username now x) devices, touch nas_ip username now x)
]

-- the device of the request, when it has an address
pub see_mac :
    (String → String)
    → List Device
    → Option String
    → String
    → String
    → ℕ
    → List Device × Option Device
unfolding see_device
see_mac vendor_for devices none nas_ip username now = (devices, none)
see_mac vendor_for devices (some mac) nas_ip username now =
    let (ds, d) = see_device vendor_for devices mac nas_ip username now in (ds, some d)

-- `normalize_mac(attrs.get("User-Name")) != req.mac`, or no address
pub is_bad_mab : Option String → Option String → Bool
is_bad_mab none name = true
is_bad_mab (some mac) none = true
is_bad_mab (some mac) (some name) = not (str_eq name mac)

-- a name is looked up for every method but MAB
pub user_for : Tables → AuthMethod → String → Option UserInfo
unfolding load_user
user_for db method username =
    if is_mab method || is_empty username
    then none
    else elim (load_user db username) [ none ↦ none | some (info, pw_hash) ↦ some info ]

module _ (u : Unicode) (vendor_for : String → String) (tz : Zone) where
  -- the end of `_decide`, on what `subject_context` returns
  pub decide_subject : List Policy → Bool → Bool → Subject → Decision
  unfolding evaluate
  decide_subject policies needs_password is_verified (ended d) = d
  decide_subject policies needs_password is_verified (context ctx) =
      if needs_password && not is_verified
      then deny "password was not verified by NACo"
      else evaluate u policies ctx tz

  -- `_decide` from `load_user` on
  pub decide_known :
      Database → RequestInfo → AuthMethod → NasClient → String → Bool → ℕ → Database × Decision
  unfolding decide_subject subject_context user_for see_mac is_guest is_password_method
  decide_known db req method nas username is_verified now =
      let user = user_for db.tables method username in
      let (devices, device) = see_mac vendor_for db.devices req.mac req.nas_ip username now in
      let subject =
        subject_context method username user req.mac device (is_guest db.guests req.mac now)
          nas.name req.nas_ip req.ssid now in
      (
        record db { devices = devices },
        decide_subject db.policies (is_password_method method) is_verified subject,
      )

  -- the rules on the NAS and on MAB requests
  pub decide_nas :
      Database
      → RequestInfo
      → NasClient
      → Option String
      → String
      → Bool
      → ℕ
      → AuthMethod
      → Database × Decision
  unfolding decide_known is_bad_mab
  decide_nas db req nas user_name username is_verified now method =
      if not nas.enabled
      then (db, deny "unknown or disabled NAS")
      else if is_mab method && is_bad_mab req.mac (normalize_mac u user_name)
      then (db, deny "not a valid MAB request")
      else decide_known db req method nas username is_verified now

  pub decide_method :
      Database
      → RequestInfo
      → Option NasClient
      → Option String
      → String
      → Bool
      → ℕ
      → Option AuthMethod
      → Database × Decision
  unfolding decide_nas
  decide_method db req nas user_name username is_verified now none =
      (db, deny "unknown authentication method")
  decide_method db req none user_name username is_verified now (some method) =
      (db, deny "unknown or disabled NAS")
  decide_method db req (some nas) user_name username is_verified now (some method) =
      decide_nas db req nas user_name username is_verified now method

  -- `_decide`; `user_name` is the attribute User-Name, `clock` the monotonic time in seconds
  unfoldable pub decide_request :
      Database
      → RequestInfo
      → Option NasClient
      → Option String
      → String
      → List (Key × ℕ)
      → ℕ
      → ℕ
      → Database × Decision
  unfolding decide_method recently_verified verified_key
  decide_request db req nas user_name username verified clock now =
      decide_method db req nas user_name username
        (recently_verified verified clock (verified_key username req)) now req.method
