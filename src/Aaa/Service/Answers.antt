-- ===== src/Aaa/Service/Answers.antt =====
-- `_identity`, `authorize` and `_latest_accept` of naco/aaa/service.py.
use naco.Base.{
  Bool, List, Option, String, Unicode, [], false, if◌then◌else◌, is_empty, ltb, none, not, some,
  str_eq, true, ℕ, ◌&&◌, ◌+◌, ◌||◌, ◌∷◌,
}
use naco.Policy.Context.{
  AuthMethod, Decision, Fingerprint, accepted, eap_tls, eap_ttls, mab, method_name, peap,
}
use naco.Models.{AuthLog, AuthResult, NasClient}
use naco.Policy.Conditions.{Zone}
use naco.Aaa.Identity.{canonical_username}
use naco.Aaa.Service.Verified.{Key}
use naco.Aaa.Service.{Database, RequestInfo, decide_request}
use naco.Aaa.Service.Requests.{log_decision}

-- the attributes that may carry the identity
pub record IdentityAttrs : Type 0 where
  pub common_name : Option String
  pub inner_identity : Option String
  pub user_name : Option String

-- `_identity`: never the outer identity of a tunnel
pub identity : Unicode → IdentityAttrs → AuthMethod → String
identity u a eap_tls = canonical_username u a.common_name
identity u a eap_ttls = canonical_username u a.inner_identity
identity u a peap = canonical_username u a.inner_identity
identity u a _ = canonical_username u a.user_name

-- `"" if method == "MAB" else (_identity(attrs, method) if method else "")`
pub name_of : Unicode → IdentityAttrs → Option AuthMethod → String
unfolding identity
name_of u a none = ""
name_of u a (some mab) = ""
name_of u a (some method) = identity u a method

-- `authorize`: the decision, and the row that is logged for it; `clock` is the monotonic time
pub authorize :
    Unicode
    → (String → String)
    → Zone
    → Fingerprint
    → Database
    → RequestInfo
    → Option NasClient
    → IdentityAttrs
    → List (Key × ℕ)
    → ℕ
    → ℕ
    → Database × (Decision × AuthLog)
unfolding name_of decide_request
authorize u vendor_for tz f db req nas a verified clock now =
    let name = name_of u a req.method in
    let (db2, d) = decide_request u vendor_for tz db req nas a.user_name name verified clock now in
    let result : AuthResult = if accepted d then AuthResult.accept else AuthResult.reject in
    let method = elim req.method as (λ _. String) [ none ↦ "" | some m ↦ method_name m ] in
    let nas_name = elim nas as (λ _. String) [ none ↦ "" | some n ↦ n.name ] in
    (db2, (d, log_decision f req method name nas_name result d.reason (some d) now))

abbrev pub is_accept : AuthLog → Bool
is_accept l = elim l.result [ AuthResult.accept ↦ true | AuthResult.reject ↦ false ]

-- the rows of the NAS, or of every access point of its network client
pub is_same_nas : String → Option NasClient → (String → Bool) → AuthLog → Bool
is_same_nas nas_ip none is_network l = str_eq l.nas_ip nas_ip
is_same_nas nas_ip (some n) is_network l =
    str_eq l.nas_ip nas_ip || (is_network n.ip_address && str_eq l.nas_name n.name)

-- the first row, newest first, that passes the test
pub newest : (AuthLog → Bool) → List AuthLog → Option AuthLog
newest p [] = none
newest p (l ∷ rows) = let rest = newest p rows in if p l then some l else rest

-- `_latest_accept` over the rows, newest first; `is_network` is `"/" in address`
pub latest_accept :
    List AuthLog
    → Option NasClient
    → (String → Bool)
    → String
    → ℕ
    → String
    → String
    → Option AuthLog
unfolding is_same_nas newest
latest_accept rows nas is_network nas_ip now station username =
    let p : AuthLog → Bool =
      λ l. is_same_nas nas_ip nas is_network l && is_accept l && ltb now (l.timestamp + 86400) in
    if not (is_empty station)
    then newest (λ l. p l && str_eq l.mac_address station) rows
    else if not (is_empty username)
    then newest (λ l. p l && str_eq l.username username) rows
    else none
