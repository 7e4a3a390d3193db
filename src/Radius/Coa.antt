-- ===== src/Radius/Coa.antt =====
-- naco/radius/coa.py: Disconnect-Requests (RFC 5176) and their answers. Bytes are numbers below 256;
-- MD5, HMAC-MD5 and the parser of IPv4 addresses are parameters.
pub mod Built
pub mod Found
pub mod Authentic
pub mod Exchange
use naco.Base.{
  Bool, List, Option, String, [], drop, false, from_bytes, if◌then◌else◌, is_empty, join, length,
  ltb, none, not, replicate, some, suc, take, to_bytes, true, zero, ℕ, ◌&&◌, ◌++◌, ◌+◌, ◌-◌, ◌==◌,
  ◌||◌, ◌∷◌,
}
use naco.Base.Utf8
use naco.Radius.Vendors.{
  IdField, Vendor, audit_field, nas_id_field, nas_ip_field, session_field, station_field,
  user_field,
}

abbrev pub disconnect_request : ℕ
disconnect_request = 40

abbrev pub disconnect_ack : ℕ
disconnect_ack = 41

abbrev pub attr_message_authenticator : ℕ
attr_message_authenticator = 80

pub record SessionIds : Type 0 where
  pub acct_session_id : String
  pub user_name : String
  pub calling_station_id : String
  pub nas_ip_address : String
  pub nas_identifier : String
  pub audit_session_id : String

-- `getattr(ids, field)`
pub value_of : SessionIds → IdField → String
value_of ids session_field = ids.acct_session_id
value_of ids user_field = ids.user_name
value_of ids station_field = ids.calling_station_id
value_of ids nas_ip_field = ids.nas_ip_address
value_of ids nas_id_field = ids.nas_identifier
value_of ids audit_field = ids.audit_session_id

-- `_attr`
pub attr : ℕ → List ℕ → List ℕ
attr kind value = kind ∷ (length (take 253 value) + 2) ∷ take 253 value

abbrev pub zeros : List ℕ
zeros = replicate 16 0

-- `packet[at:at + 16] = bytes`, for sixteen bytes
pub set_sixteen : ℕ → List ℕ → List ℕ → List ℕ
set_sixteen at bytes packet = take at packet ++ (bytes ++ drop (at + 16) packet)

-- the attribute of a field that is not empty; `ipv4` packs an IPv4 address
pub field_attr : (String → Option (List ℕ)) → IdField → String → List ℕ
unfolding attr
field_attr ipv4 session_field value = attr 44 (Utf8.encode value)
field_attr ipv4 user_field value = attr 1 (Utf8.encode value)
field_attr ipv4 station_field value = attr 31 (Utf8.encode value)
field_attr ipv4 nas_ip_field value = elim (ipv4 value) [ none ↦ [] | some packed ↦ attr 4 packed ]
field_attr ipv4 nas_id_field value = attr 32 (Utf8.encode value)
field_attr ipv4 audit_field value =
    attr 26 (to_bytes 4 9 ++ attr 1 (Utf8.encode (join "audit-session-id=" value)))

-- `_identity`
pub identity : (String → Option (List ℕ)) → SessionIds → List IdField → List ℕ
unfolding value_of field_attr
identity ipv4 ids [] = []
identity ipv4 ids (f ∷ wanted) =
    let rest = identity ipv4 ids wanted in
    if is_empty (value_of ids f) then rest else field_attr ipv4 f (value_of ids f) ++ rest

-- the attributes before the Message-Authenticator
pub request_attrs : (String → Option (List ℕ)) → SessionIds → Vendor → ℕ → List ℕ
unfolding identity attr
request_attrs ipv4 ids nas event_time =
    identity ipv4 ids nas.identify
    ++ (if nas.event_timestamp then attr 55 (to_bytes 4 event_time) else [])

-- `header`
pub request_header : ℕ → List ℕ → List ℕ
request_header identifier attrs = disconnect_request ∷ identifier ∷ to_bytes 2 (20 + length attrs)

module _ (md5 : List ℕ → List ℕ) (hmac : List ℕ → List ℕ → List ℕ) where
  -- `packet[4:20] = md5(packet + secret)`
  pub sign : List ℕ → List ℕ → List ℕ
  unfolding set_sixteen
  sign secret packet = set_sixteen 4 (md5 (packet ++ secret)) packet

  pub signed : List ℕ → ℕ → List ℕ → Bool → List ℕ
  unfolding sign set_sixteen request_header attr
  signed secret identifier attrs true =
      let all = attrs ++ attr attr_message_authenticator zeros in
      let packet = request_header identifier all ++ (zeros ++ all) in
      sign secret (set_sixteen (20 + length attrs + 2) (hmac secret packet) packet)
  signed secret identifier attrs false =
      sign secret (request_header identifier attrs ++ (zeros ++ attrs))

  -- `build_disconnect`
  pub build_disconnect : (String → Option (List ℕ)) → List ℕ → ℕ → SessionIds → Vendor → ℕ → List ℕ
  unfolding signed request_attrs
  build_disconnect ipv4 secret identifier ids nas event_time =
      signed secret identifier (request_attrs ipv4 ids nas event_time) nas.message_authenticator

-- the byte at an offset; the code reads only offsets inside the packet
pub byte_at : List ℕ → ℕ → ℕ
byte_at [] i = 0
byte_at (b ∷ bs) zero = b
byte_at (b ∷ bs) (suc i) = byte_at bs i

-- the loop of `_find_attr` from `pos`, on fuel
pub find_from : ℕ → List ℕ → ℕ → ℕ → ℕ → Option ℕ
unfolding byte_at
find_from zero packet kind size pos = none
find_from (suc fuel) packet kind size pos =
    let rest = find_from fuel packet kind size (pos + byte_at packet (pos + 1)) in
    if ltb size (pos + 2)
    then none
    else if ltb (byte_at packet (pos + 1)) 2 || ltb size (pos + byte_at packet (pos + 1))
    then none
    else if byte_at packet pos == kind
    then some (pos + 2)
    else rest

-- `_find_attr`: each round moves on by at least two bytes
pub find_attr : List ℕ → ℕ → ℕ → Option ℕ
unfolding find_from
find_attr packet kind size = find_from size packet kind size 20

-- `hmac.compare_digest`
pub same_bytes : List ℕ → List ℕ → Bool
same_bytes [] [] = true
same_bytes [] (y ∷ ys) = false
same_bytes (x ∷ xs) [] = false
same_bytes (x ∷ xs) (y ∷ ys) = x == y && same_bytes xs ys

-- `packet[from:to]`
pub slice : ℕ → ℕ → List ℕ → List ℕ
slice from to packet = take (to - from) (drop from packet)

module _ (md5 : List ℕ → List ℕ) (hmac : List ℕ → List ℕ → List ℕ) where
  -- the Message-Authenticator at `ma`
  pub check_ma : List ℕ → List ℕ → List ℕ → ℕ → ℕ → Bool
  unfolding byte_at set_sixteen slice same_bytes
  check_ma request response secret size ma =
      byte_at response (ma - 1) == 18
      && same_bytes
          (hmac secret
            (set_sixteen ma zeros (set_sixteen 4 (slice 4 20 request) (take size response))))
          (slice ma (ma + 16) response)

  pub check_optional_ma : List ℕ → List ℕ → List ℕ → ℕ → Option ℕ → Bool
  unfolding check_ma
  check_optional_ma request response secret size none = true
  check_optional_ma request response secret size (some ma) =
      check_ma request response secret size ma

  -- the Response Authenticator that the client expects
  pub expected : List ℕ → List ℕ → List ℕ → ℕ → List ℕ
  unfolding slice
  expected request response secret size =
      md5 (take 4 response ++ (slice 4 20 request ++ (slice 20 size response ++ secret)))

  -- `verify_response`
  pub verify_response : List ℕ → List ℕ → List ℕ → Bool
  unfolding expected check_optional_ma same_bytes slice byte_at find_attr
  verify_response request response secret =
      let size = from_bytes (slice 2 4 response) in
      if ltb (length response) 20 || ltb (length request) 20
      then false
      else if ltb size 20
          || ltb (length response) size
          || not (byte_at response 1 == byte_at request 1)
      then false
      else if not (same_bytes (expected request response secret size) (slice 4 20 response))
      then false
      else check_optional_ma request response secret size
          (find_attr response attr_message_authenticator size)
