-- ===== src/Radius/Vendors.antt =====
-- naco/radius/vendors.py: what a Disconnect-Request carries for each kind of NAS. Labels, which are
-- only shown, are left out.
use naco.Base.{
  Bool, Dict, List, Option, String, [], false, get, or_else, or_empty, text_or, true, ℕ, ◌∷◌,
}

-- the names of the fields of `SessionIds`
pub data IdField : Type 0 where
  session_field user_field station_field nas_ip_field nas_id_field audit_field : IdField

pub record Vendor : Type 0 where
  pub identify : List IdField
  pub coa_port : ℕ
  pub event_timestamp : Bool
  pub message_authenticator : Bool

-- `Vendor(label)`: the defaults of the class
abbrev pub standard : Vendor
standard = record {
  identify = session_field ∷ user_field ∷ station_field ∷ nas_ip_field ∷ nas_id_field ∷ [];
  coa_port = 3799;
  event_timestamp = true;
  message_authenticator = true;
}

-- `VENDORS`
abbrev pub vendors : Dict Vendor
vendors =
    ("standard", standard)
    ∷ ("cisco", record standard { identify = session_field ∷ station_field ∷ audit_field ∷ [] })
    ∷ (
      "meraki",
      record standard {
        identify = station_field ∷ nas_ip_field ∷ audit_field ∷ [];
        coa_port = 1700;
        event_timestamp = false;
      },
    )
    ∷ ("aruba", record standard { event_timestamp = false })
    ∷ (
      "juniper",
      record standard {
        identify = session_field ∷ user_field ∷ station_field ∷ nas_ip_field ∷ [];
        event_timestamp = false;
      },
    )
    ∷ ("fortinet", record standard { identify = user_field ∷ station_field ∷ nas_ip_field ∷ [] })
    ∷ (
      "extreme",
      record standard { identify = station_field ∷ nas_ip_field ∷ []; event_timestamp = false },
    )
    ∷ (
      "ruckus-icx",
      record standard {
        identify = station_field ∷ nas_ip_field ∷ [];
        event_timestamp = false;
        message_authenticator = false;
      },
    )
    ∷ []

-- `vendor(key)`
unfoldable pub vendor : Option String → Vendor
vendor key = or_else (get vendors (text_or (or_empty key) "standard")) standard
