-- ===== src/Aaa/Service/Accounting.antt =====
-- `accounting` of naco/aaa/service.py: the session table. A `Report` holds what the handler reads
-- from the attributes; `context` is the row that `_latest_accept` finds.
pub mod Table
use naco.Base.{
  Bool, List, Option, String, [], clip, if◌then◌else◌, is_empty, none, or_else, or_empty, some,
  str_eq, text_or, ℕ, ◌&&◌, ◌*◌, ◌++◌, ◌+◌, ◌-◌, ◌^◌, ◌∷◌,
}
use naco.Models.{AuthLog, RadiusSession}

-- the values of `_STATUS`
pub data Status : Type 0 where
  start stop interim_update accounting_on accounting_off : Status

pub record Report : Type 0 where
  pub nas_ip : String
  pub session_id : String
  pub user_name : String
  pub calling_station : String
  pub nas_ip_address : String
  pub nas_identifier : String
  pub audit_session_id : String
  pub mac : Option String
  pub framed : String
  pub ssid : Option String
  pub session_time : Option ℕ
  pub input_low : Option ℕ
  pub input_giga : Option ℕ
  pub output_low : Option ℕ
  pub output_giga : Option ℕ

-- `_octets`: the high word counts 2 ** 32 octets each
pub octets : Option ℕ → Option ℕ → Option ℕ
octets none giga = none
octets (some low) giga = some (or_else giga 0 * 2 ^ 32 + low)

-- the row of a session that was not there: the columns' defaults
pub new_session : Report → ℕ → RadiusSession
new_session r now = record {
  nas_ip = r.nas_ip;
  acct_session_id = clip 64 r.session_id;
  username = "";
  acct_username = "";
  calling_station_id = "";
  nas_ip_address = "";
  nas_identifier = "";
  audit_session_id = "";
  mac_address = "";
  framed_ip = "";
  ssid = "";
  auth_method = "";
  policy_name = "";
  vlan = none;
  decision_digest = "";
  started_at = now - or_else r.session_time 0;
  updated_at = now;
  input_octets = 0;
  output_octets = 0;
  session_time = 0;
}

-- what the request itself says
pub apply_report : Report → RadiusSession → RadiusSession
apply_report r s = record s {
  acct_username = text_or (clip 64 r.user_name) s.acct_username;
  calling_station_id = text_or r.calling_station s.calling_station_id;
  nas_ip_address = text_or r.nas_ip_address s.nas_ip_address;
  nas_identifier = text_or (clip 64 r.nas_identifier) s.nas_identifier;
  audit_session_id = text_or r.audit_session_id s.audit_session_id;
  mac_address = text_or (or_empty r.mac) s.mac_address;
  framed_ip = text_or r.framed s.framed_ip;
  ssid = text_or (or_empty r.ssid) s.ssid;
}

-- what the last accept of the station or user adds; `canonical` is `canonical_username(acct_user)`
pub apply_context : Report → String → Option AuthLog → RadiusSession → RadiusSession
apply_context r canonical none s = record s {
  username = if is_empty s.username then text_or canonical (clip 64 r.user_name) else s.username;
}
apply_context r canonical (some c) s = record s {
  username = text_or c.username s.username;
  auth_method = c.auth_method;
  policy_name = c.policy_name;
  vlan = c.vlan;
  decision_digest = c.decision_digest;
  ssid = text_or s.ssid c.ssid;
}

-- the counters
pub apply_counters : Report → ℕ → RadiusSession → RadiusSession
unfolding octets
apply_counters r now s = record s {
  input_octets = or_else (octets r.input_low r.input_giga) s.input_octets;
  output_octets = or_else (octets r.output_low r.output_giga) s.output_octets;
  session_time = or_else r.session_time s.session_time;
  updated_at = now;
}

pub is_session : String → String → RadiusSession → Bool
is_session nas_ip sid s = str_eq s.nas_ip nas_ip && str_eq s.acct_session_id sid

pub find_session : List RadiusSession → String → String → Option RadiusSession
unfolding is_session
find_session [] nas_ip sid = none
find_session (s ∷ table) nas_ip sid =
    let rest = find_session table nas_ip sid in if is_session nas_ip sid s then some s else rest

-- `DELETE … WHERE`
pub delete_where : (RadiusSession → Bool) → List RadiusSession → List RadiusSession
delete_where p [] = []
delete_where p (s ∷ table) = let rest = delete_where p table in if p s then rest else s ∷ rest

pub replace_session : String → String → RadiusSession → List RadiusSession → List RadiusSession
unfolding is_session
replace_session nas_ip sid y [] = []
replace_session nas_ip sid y (s ∷ table) =
    let rest = replace_session nas_ip sid y table in
    if is_session nas_ip sid s then y ∷ table else s ∷ rest

-- `latest_accept` finds the accept for the session's address and the canonical name
pub updated :
    (String → String)
    → (String → String → Option AuthLog)
    → Report
    → ℕ
    → RadiusSession
    → RadiusSession
unfolding apply_report apply_context apply_counters
updated canonical latest_accept r now s =
    let s1 = apply_report r s in
    let name = canonical (clip 64 r.user_name) in
    apply_counters r now (apply_context r name (latest_accept s1.mac_address name) s1)

-- `db.add` of a new session, or the change of the one that is there
pub upsert :
    (String → String)
    → (String → String → Option AuthLog)
    → Report
    → ℕ
    → List RadiusSession
    → Option RadiusSession
    → List RadiusSession
unfolding updated new_session replace_session
upsert canonical latest_accept r now table none =
    table ++ updated canonical latest_accept r now (new_session r now) ∷ []
upsert canonical latest_accept r now table (some s) =
    replace_session r.nas_ip (clip 64 r.session_id) (updated canonical latest_accept r now s) table

-- start and interim-update
pub update_session :
    (String → String)
    → (String → String → Option AuthLog)
    → Report
    → ℕ
    → List RadiusSession
    → List RadiusSession
unfolding find_session upsert
update_session canonical latest_accept r now table =
    upsert canonical latest_accept r now table (find_session table r.nas_ip (clip 64 r.session_id))

pub handle_status :
    (String → String)
    → (String → String → Option AuthLog)
    → Status
    → Report
    → ℕ
    → List RadiusSession
    → List RadiusSession
unfolding delete_where is_session update_session
handle_status canonical latest_accept Status.accounting_on r now table =
    delete_where (λ s. str_eq s.nas_ip r.nas_ip) table
handle_status canonical latest_accept Status.accounting_off r now table =
    delete_where (λ s. str_eq s.nas_ip r.nas_ip) table
handle_status canonical latest_accept Status.stop r now table =
    if is_empty r.session_id
    then table
    else delete_where (is_session r.nas_ip (clip 64 r.session_id)) table
handle_status canonical latest_accept Status.start r now table =
    if is_empty r.session_id then table else update_session canonical latest_accept r now table
handle_status canonical latest_accept Status.interim_update r now table =
    if is_empty r.session_id then table else update_session canonical latest_accept r now table

-- `accounting`
pub accounting :
    (String → String)
    → (String → String → Option AuthLog)
    → Option Status
    → Report
    → ℕ
    → List RadiusSession
    → List RadiusSession
unfolding handle_status
accounting canonical latest_accept none r now table = table
accounting canonical latest_accept (some status) r now table =
    if is_empty r.nas_ip then table else handle_status canonical latest_accept status r now table
