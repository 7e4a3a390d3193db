-- ===== src/Policy/Context.antt =====
-- naco/policy/context.py.
use naco.Base.{
  Bool, Dict, List, Option, String, [], false, if◌then◌else◌, none, some, str_eq, true, ℕ,
}
use naco.Models.{PolicyAction}

-- `AUTH_METHODS`
pub data AuthMethod : Type 0 where
  eap_tls eap_ttls peap pap mab : AuthMethod

-- `DEVICE_STATES`
pub data DeviceState : Type 0 where
  approved pending guest : DeviceState

abbrev pub method_name : AuthMethod → String
method_name eap_tls = "EAP-TLS"
method_name eap_ttls = "EAP-TTLS"
method_name peap = "PEAP"
method_name pap = "PAP"
method_name mab = "MAB"

-- `method if method in AUTH_METHODS else None`
unfoldable pub method_of : String → Option AuthMethod
method_of s =
    if str_eq s "EAP-TLS"
    then some eap_tls
    else if str_eq s "EAP-TTLS"
    then some eap_ttls
    else if str_eq s "PEAP"
    then some peap
    else if str_eq s "PAP"
    then some pap
    else if str_eq s "MAB"
    then some mab
    else none

pub record AuthContext : Type 0 where
  pub auth_method : AuthMethod
  pub username : String
  pub group : Option String
  pub mac : Option String
  pub device_status : Option DeviceState
  pub device_type : String
  pub vendor : String
  pub nas_name : String
  pub nas_ip : String
  pub ssid : Option String
  pub now : ℕ

-- a value of a reply attribute
pub data AttrItem : Type 0 where
  text : String → AttrItem
  number : ℕ → AttrItem

pub data AttrValue : Type 0 where
  one : AttrItem → AttrValue
  many : List AttrItem → AttrValue

pub record Decision : Type 0 where
  pub action : PolicyAction
  pub policy_id : Option ℕ
  pub policy_name : String
  pub reason : String
  pub vlan : Option ℕ
  pub reply_attributes : Dict AttrValue

-- the property `accepted`
abbrev pub accepted : Decision → Bool
accepted d = elim d.action [ PolicyAction.permit ↦ true | PolicyAction.deny ↦ false ]

-- `deny(reason, policy_id, policy_name)`
unfoldable pub deny_by : String → Option ℕ → String → Decision
deny_by reason policy_id policy_name = record {
  action = PolicyAction.deny;
  policy_id = policy_id;
  policy_name = policy_name;
  reason = reason;
  vlan = none;
  reply_attributes = [];
}

-- `deny(reason)`
unfoldable pub deny : String → Decision
unfolding deny_by
deny reason = deny_by reason none ""

-- `digest`: SHA-256 of the JSON text of these three, with sorted keys, is a parameter
abbrev pub Fingerprint : Type 0
Fingerprint = PolicyAction → Option ℕ → Dict AttrValue → String

unfoldable pub digest : Fingerprint → Decision → String
digest f d = f d.action d.vlan d.reply_attributes
