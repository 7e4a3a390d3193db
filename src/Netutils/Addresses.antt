-- ===== src/Netutils/Addresses.antt =====
-- naco/core/netutils.py: station ids, addresses and networks. Python's `ipaddress` is the parameter
-- `Ipaddress`: its two readers, which raise a ValueError on other texts, and what it tells of what
-- they return.
use mathlib.Core.Option
pub mod Narrow
use naco.Base.{
  Bool, List, Option, Result, String, Unicode, [], any_of, clip, codes, drop, err, false,
  if◌then◌else◌, is_empty, ltb, none, not, ok, or_empty, or_none, some, strip, take, true, ℕ, ◌==◌,
  ◌∷◌,
}
use naco.Netutils.{is_mac, normalize_mac, text_of}

-- `m.group(1)` and `m.group(2)` for a MAC address that takes the given number of characters
pub station_of : ℕ → List ℕ → Option (List ℕ × Option (List ℕ))
station_of size s =
    if is_mac (take size s)
    then elim (drop size s) [
      | [] ↦ some (take size s, none)
      | c ∷ ssid ↦ if c == b':' then some (take size s, some ssid) else none
    ]
    else none

-- `_STATION.match`: at each position of a MAC address only one of the notations can go on, so the order in
-- which they are tried does not matter
pub station : List ℕ → List ℕ → Option (List ℕ × Option (List ℕ))
unfolding station_of
station [] s = none
station (size ∷ sizes) s =
    let rest = station sizes s in elim (station_of size s) [ some m ↦ some m | none ↦ rest ]

-- the characters that `_MAC` takes: groups of 2, 4 and 6, and twelve digits
abbrev sizes : List ℕ
sizes = 17 ∷ 14 ∷ 13 ∷ 12 ∷ []

-- `parse_called_station`
pub parse_called_station : Unicode → Option String → Option String × Option String
unfolding station
parse_called_station u none = (none, none)
parse_called_station u (some value) = elim (is_empty value) [
  | true ↦ (none, none)
  | false ↦ elim (station sizes (codes (strip u value))) [
    | none ↦ (none, none)
    | some (mac, ssid) ↦ (
      normalize_mac u (some (text_of mac)),
      Option.map (clip 64) (elim ssid [ none ↦ none | some s ↦ or_none (strip u (text_of s)) ]),
    )
  ]
]

pub data Version : Type 0 where
  ipv4 : Version
  ipv6 : Version

pub record Ipaddress : Type 1 where
  pub Address : Type 0
  pub Network : Type 0
  pub ip_address : String → Option Address
  -- with `strict=False`
  pub ip_network : String → Option Network
  pub address_text : Address → String
  pub network_text : Network → String
  pub same_address : Address → Address → Bool
  pub contains : Network → Address → Bool
  pub network_address : Network → Address
  pub prefixlen : Network → ℕ
  pub max_prefixlen : Network → ℕ
  pub version : Network → Version

pub data AddressError : Type 0 where
  not_address : AddressError
  not_network_address : String → AddressError
  too_wide : ℕ → AddressError
  -- what `ip_address` raises on the text before the slash
  raised : AddressError

-- `_WIDEST_PREFIX`
unfoldable pub widest_prefix : Version → ℕ
widest_prefix ipv4 = 16
widest_prefix ipv6 = 48

-- `text.split("/")[0]`
unfoldable pub before_slash : List ℕ → List ℕ
before_slash [] = []
before_slash (c ∷ s) = let rest = before_slash s in if c == b'/' then [] else c ∷ rest

module _ (u : Unicode) (ip : Ipaddress) where
  unfoldable pub parse_ip : Option String → Option String
  parse_ip none = none
  parse_ip (some value) = elim (is_empty value) [
    | true ↦ none
    | false ↦ Option.map ip.address_text (ip.ip_address (strip u value))
  ]

  -- the tests of `parse_client_address` on what `ip_network` returns
  unfoldable pub client_network : String → ip.Network → Result AddressError String
  unfolding before_slash
  client_network text net =
      if ip.prefixlen net == ip.max_prefixlen net
      then ok (ip.address_text (ip.network_address net))
      else elim (ip.ip_address (text_of (before_slash (codes text)))) [
        | none ↦ err raised
        | some host ↦
            if not (ip.same_address host (ip.network_address net))
            then err (not_network_address (ip.network_text net))
            else if ltb (ip.prefixlen net) (widest_prefix (ip.version net))
            then err (too_wide (widest_prefix (ip.version net)))
            else ok (ip.network_text net)
      ]

  unfoldable pub parse_client_address : Option String → Result AddressError String
  parse_client_address value =
      let text = strip u (or_empty value) in
      if any_of (λ c. c == b'/') (codes text)
      then elim (ip.ip_network text) [ none ↦ err not_address | some net ↦ client_network text net ]
      else elim (parse_ip (some text)) [ none ↦ err not_address | some a ↦ ok a ]

  pub in_some_network : ip.Address → List String → Bool
  in_some_network addr [] = false
  in_some_network addr (net ∷ networks) =
      let rest = in_some_network addr networks in
      elim (ip.ip_network net) [ none ↦ rest | some n ↦ if ip.contains n addr then true else rest ]

  pub ip_in_any : String → List String → Bool
  unfolding in_some_network
  ip_in_any text networks = elim (ip.ip_address text) [
    | none ↦ false
    | some addr ↦ in_some_network addr networks
  ]
