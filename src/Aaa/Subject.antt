-- ===== src/Aaa/Subject.antt =====
-- naco/aaa/subject.py: the hard rules that come before the policies.
pub mod HardRules
use naco.Base.{Bool, Option, String, false, if◌then◌else◌, is_empty, none, some, true, ℕ}
use naco.Policy.Context.{AuthContext, AuthMethod, Decision, DeviceState, deny}
use naco.Models.{Device, DeviceStatus}
use naco.Aaa.Identity.{UserInfo}

-- `AuthContext | Decision`
pub data Subject : Type 0 where
  context : AuthContext → Subject
  ended : Decision → Subject

pub device_state : Option Device → Bool → Option DeviceState
device_state none is_guest = if is_guest then some DeviceState.guest else none
device_state (some d) is_guest = elim d.status [
  | DeviceStatus.approved ↦ some DeviceState.approved
  | DeviceStatus.pending ↦ if is_guest then some DeviceState.guest else some DeviceState.pending
  | DeviceStatus.blocked ↦ none
]

abbrev pub is_mab : AuthMethod → Bool
is_mab AuthMethod.mab = true
is_mab _ = false

abbrev pub is_blocked : Option Device → Bool
is_blocked none = false
is_blocked (some d) = elim d.status [ DeviceStatus.blocked ↦ true | _ ↦ false ]

-- the rules on the account that was found
pub check_account : Option UserInfo → Option Decision
check_account none = some (deny "unknown user")
check_account (some x) = if x.enabled then none else some (deny "user disabled")

-- the rules on the name
pub check_user : AuthMethod → String → Option UserInfo → Option Decision
unfolding check_account
check_user method username user =
    if is_mab method
    then none
    else if is_empty username
    then some (deny "no authenticated identity")
    else check_account user

pub context_of :
    AuthMethod
    → String
    → Option UserInfo
    → Option String
    → Option Device
    → Bool
    → String
    → String
    → Option String
    → ℕ
    → AuthContext
unfolding device_state
context_of method username user mac device is_guest nas_name nas_ip ssid now = record {
  auth_method = method;
  username = if is_mab method then "" else username;
  group = elim user [ none ↦ none | some x ↦ x.group_name ];
  mac = mac;
  device_status = device_state device is_guest;
  device_type = elim device [ none ↦ "" | some d ↦ d.device_type ];
  vendor = elim device [ none ↦ "" | some d ↦ d.vendor ];
  nas_name = nas_name;
  nas_ip = nas_ip;
  ssid = ssid;
  now = now;
}

-- `return deny(…)` of a rule, or the context
pub settle : Option Decision → Bool → AuthContext → Subject
settle (some d) is_bad ctx = ended d
settle none true ctx = ended (deny "device blocked")
settle none false ctx = context ctx

unfoldable pub subject_context :
    AuthMethod
    → String
    → Option UserInfo
    → Option String
    → Option Device
    → Bool
    → String
    → String
    → Option String
    → ℕ
    → Subject
unfolding check_user context_of settle
subject_context method username user mac device is_guest nas_name nas_ip ssid now =
    settle (check_user method username user) (is_blocked device)
      (context_of method username user mac device is_guest nas_name nas_ip ssid now)
