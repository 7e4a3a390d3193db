-- ===== src/Models.antt =====
-- naco/db/models.py: the rows that the modelled parts read and write. Times are numbers; columns
-- that are only stored and shown (descriptions, notes, dates of creation) are left out.
use naco.Base.{Bool, List, Option, String, leb, ℕ}

pub data UserSource : Type 0 where
  local ldap : UserSource

pub data DeviceStatus : Type 0 where
  pending approved blocked : DeviceStatus

pub data PolicyAction : Type 0 where
  permit deny : PolicyAction

pub data AuthResult : Type 0 where
  accept reject : AuthResult

pub data TacacsKind : Type 0 where
  authen author acct : TacacsKind

pub record Group : Type 0 where
  pub id : ℕ
  pub name : String
  pub device_admin_privilege : Option ℕ
  pub command_set_id : Option ℕ
  pub device_admin_attributes : List String

pub record User : Type 0 where
  pub id : ℕ
  pub username : String
  pub source : UserSource
  pub password_hash : Option String
  pub email : String
  pub full_name : String
  pub group_id : Option ℕ
  pub enabled : Bool
  pub last_login_at : Option ℕ

pub record Device : Type 0 where
  pub mac_address : String
  pub status : DeviceStatus
  pub device_type : String
  pub vendor : String
  pub first_seen : ℕ
  pub last_seen : ℕ
  pub last_nas_ip : String
  pub last_username : String

pub record GuestRegistration : Type 0 where
  pub mac_address : String
  pub expires_at : ℕ
  pub revoked_at : Option ℕ

pub record NasClient : Type 0 where
  pub id : ℕ
  pub name : String
  pub ip_address : String
  pub secret : String
  pub coa_port : ℕ
  pub vendor : String
  pub require_message_authenticator : Bool
  pub enabled : Bool

pub record RadiusSession : Type 0 where
  pub nas_ip : String
  pub acct_session_id : String
  pub username : String
  pub acct_username : String
  pub calling_station_id : String
  pub nas_ip_address : String
  pub nas_identifier : String
  pub audit_session_id : String
  pub mac_address : String
  pub framed_ip : String
  pub ssid : String
  pub auth_method : String
  pub policy_name : String
  pub vlan : Option ℕ
  pub decision_digest : String
  pub started_at : ℕ
  pub updated_at : ℕ
  pub input_octets : ℕ
  pub output_octets : ℕ
  pub session_time : ℕ

pub record AuthLog : Type 0 where
  pub timestamp : ℕ
  pub username : String
  pub mac_address : String
  pub nas_ip : String
  pub nas_name : String
  pub ssid : String
  pub auth_method : String
  pub result : AuthResult
  pub reason : String
  pub policy_name : String
  pub vlan : Option ℕ
  pub decision_digest : String

pub record TacacsLog : Type 0 where
  pub kind : TacacsKind
  pub username : String
  pub client_ip : String
  pub rem_addr : String
  pub port : String
  pub privilege : ℕ
  pub command : String
  pub result : String
  pub reason : String

pub data CommandAction : Type 0 where
  permit deny : CommandAction

pub record CommandSet : Type 0 where
  pub id : ℕ
  pub name : String
  pub default_action : CommandAction

pub record CommandRule : Type 0 where
  pub command_set_id : ℕ
  pub position : ℕ
  pub action : CommandAction
  pub pattern : String

pub record TacacsClient : Type 0 where
  pub name : String
  pub ip_address : String
  pub key : String
  pub enabled : Bool

pub data AdminRole : Type 0 where
  viewer operator superuser : AdminRole

-- `rank`
unfoldable pub rank : AdminRole → ℕ
rank viewer = 0
rank operator = 1
rank superuser = 2

-- `required` against `self`
unfoldable pub allows : AdminRole → AdminRole → Bool
unfolding rank
allows self required = leb (rank required) (rank self)

pub record AdminUser : Type 0 where
  pub id : ℕ
  pub username : String
  pub password_hash : String
  pub role : AdminRole
  pub enabled : Bool
  pub must_change_password : Bool
  pub totp_secret : Option String
  pub totp_pending_secret : Option String
  pub totp_last_step : Option ℕ
  pub recovery_codes : List String
  pub last_login_at : Option ℕ
  pub password_changed_at : Option ℕ

pub record AdminSession : Type 0 where
  pub id : ℕ
  pub token_hash : String
  pub admin_id : ℕ
  pub csrf_token : String
  pub created_at : ℕ
  pub last_seen_at : ℕ
  pub expires_at : ℕ
  pub ip : String
  pub user_agent : String

pub record ApiToken : Type 0 where
  pub id : ℕ
  pub name : String
  pub token_hash : String
  pub role : AdminRole
  pub expires_at : Option ℕ
  pub last_used_at : Option ℕ
  pub revoked_at : Option ℕ

pub data ActorType : Type 0 where
  admin_actor token_actor : ActorType

-- an empty `target_id` is none
pub record AuditLog : Type 0 where
  pub actor : String
  pub actor_type : ActorType
  pub ip : String
  pub action : String
  pub target_type : String
  pub target_id : Option ℕ
  pub target_name : String
