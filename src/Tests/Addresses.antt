-- ===== src/Tests/Addresses.antt =====
-- Addresses and networks at concrete inputs.
use naco.Base.{
  String, Unicode, any_of, codes, false, none, ok, or_empty, refl, some, str_eq, strip, ◌==◌, ◌≡◌,
  ◌⊎◌, if◌then◌else◌, Bool,
}
use naco.Base.Utf8.{to_char}
use naco.Netutils.{text_of}
use naco.Netutils.Addresses.{
  Ipaddress, before_slash, ipv4, client_network, parse_client_address, widest_prefix,
}
use naco.Netutils.Addresses.Narrow.{IsNarrow, IsSingle, parse_client_address-IsNarrow}

abbrev ascii : Unicode
ascii = record {
  lower = λ s. s;
  casefold = λ s. s;
  is_space = λ c. false;
  fnmatchcase = λ text pattern. str_eq text pattern;
}

abbrev has_slash : String → Bool
has_slash s = any_of (λ c. c == b'/') (codes s)

-- every text without a slash is an address, and every one with a slash a network of 24 bits
abbrev addresses : Ipaddress
addresses = record {
  Address = String;
  Network = String;
  ip_address = λ s. if has_slash s then none else some s;
  ip_network = λ s. if has_slash s then some s else none;
  address_text = λ a. a;
  network_text = λ n. n;
  same_address = str_eq;
  contains = λ n a. str_eq (text_of (before_slash (codes n))) a;
  network_address = λ n. text_of (before_slash (codes n));
  prefixlen = λ n. 24;
  max_prefixlen = λ n. 32;
  version = λ n. ipv4;
}

network_accepted : parse_client_address ascii addresses (some "10.0.20.0/24") ≡ ok "10.0.20.0/24"
unfolding parse_client_address client_network widest_prefix strip text_of before_slash to_char
network_accepted = refl

parse_client_address-IsNarrow_example :
    IsSingle ascii addresses (strip ascii (or_empty (some "10.0.20.0/24"))) "10.0.20.0/24"
    ⊎ IsNarrow ascii addresses (strip ascii (or_empty (some "10.0.20.0/24"))) "10.0.20.0/24"
parse_client_address-IsNarrow_example =
    parse_client_address-IsNarrow ascii addresses (some "10.0.20.0/24") "10.0.20.0/24"
      network_accepted
