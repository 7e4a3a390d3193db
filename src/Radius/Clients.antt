-- ===== src/Radius/Clients.antt =====
-- Which registered client a packet comes from: naco/radius/clients.py. Python's `ipaddress` is the
-- parameter: what an address is, how long a network's prefix is, and which addresses it contains.
pub mod Narrowest
use naco.Base.{
  Bool, List, Option, String, [], any_of, codes, if◌then◌else◌, is_empty, keep, leb, none, not,
  some, sort_by, str_eq, ℕ, ◌&&◌, ◌==◌, ◌∷◌,
}
use naco.Models.{NasClient}

pub record Addresses : Type 0 where
  pub is_address : String → Bool
  pub prefixlen : String → ℕ
  pub contains : String → String → Bool

-- `"/" in client.ip_address`
pub is_network : NasClient → Bool
is_network c = any_of (λ x. x == b'/') (codes c.ip_address)

-- `self._exact`; a later client of the same address replaces an earlier one
pub find_exact : List NasClient → String → Option NasClient
unfolding is_network
find_exact [] ip = none
find_exact (c ∷ clients) ip =
    let rest = find_exact clients ip in
    elim rest [
      | some x ↦ some x
      | none ↦ if not (is_network c) && str_eq c.ip_address ip then some c else none
    ]

module _ (a : Addresses) where
  -- `sorted(networks, key=prefixlen, reverse=True)` keeps the given order among equals
  abbrev pub is_narrower : NasClient → NasClient → Bool
  is_narrower c d = leb (a.prefixlen d.ip_address) (a.prefixlen c.ip_address)

  -- `self._networks`
  pub sorted_networks : List NasClient → List NasClient
  unfolding is_network
  sorted_networks clients = sort_by is_narrower (keep is_network clients)

  pub first_network : List NasClient → String → Option NasClient
  first_network [] ip = none
  first_network (c ∷ networks) ip =
      let rest = first_network networks ip in if a.contains c.ip_address ip then some c else rest

  -- the end of `NasDirectory.find`, when no entry is exact
  pub find_network : List NasClient → String → Option NasClient
  unfolding sorted_networks first_network
  find_network clients ip =
      if a.is_address ip then first_network (sorted_networks clients) ip else none

  -- the exact entry, or else what the networks give
  abbrev pub exact_or : Option NasClient → Option NasClient → Option NasClient
  exact_or (some c) o = some c
  exact_or none o = o

  -- `NasDirectory.find`
  unfoldable pub find : List NasClient → String → Option NasClient
  unfolding find_exact find_network
  find clients ip = exact_or (find_exact clients ip) (find_network clients ip)

  -- `find_nas`
  pub find_nas : List NasClient → String → Option NasClient
  unfolding find
  find_nas clients ip = if is_empty ip then none else find clients ip
