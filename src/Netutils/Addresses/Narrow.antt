-- ===== src/Netutils/Addresses/Narrow.antt =====
-- What `parse_client_address` of naco/core/netutils.py accepts.
use mathlib.Core.Option
use naco.Base.{
  Bool, Option, Result, String, Unicode, any_of, ap, arith, codes, err, err_not_ok, inl, inr, ok,
  none, not, or_empty, refl, some, strip, sym, true, false, ok-inj, ltb, is_empty, ◌==◌, ◌∙◌, ◌⊎◌,
  ◌≡◌, ◌≤◌, ℕ, if◌then◌else◌, some-inj, none_not_some,
}
use naco.Netutils.{text_of}
use naco.Netutils.Addresses.{
  Ipaddress, before_slash, client_network, parse_client_address, parse_ip, widest_prefix,
  not_address, not_network_address, too_wide, raised,
}

-- which branch a result came from
from_branch :
    {A : Type 0} (b : Bool) (x y z : A)
    → (if b then x else y) ≡ z
    → ((b ≡ true) × (x ≡ z)) ⊎ ((b ≡ false) × (y ≡ z))
from_branch true x y z h = inl (refl, h)
from_branch false x y z h = inr (refl, h)

text_read :
    {A : Type 0} (show : A → String) (b : Bool) (o : Option A) (t : String)
    → elim b [ true ↦ none | false ↦ Option.map show o ] ≡ some t
    → (a : A) × (t ≡ show a)
text_read show true o t h = absurd (none_not_some h)
text_read show false none t h = absurd (none_not_some h)
text_read show false (some a) t h = (a, sym (some-inj h))

-- a later `raise`, and the value when nothing is raised
unless_raise :
    {E A : Type 0} (b : Bool) (e : E) (r : Result E A) (a : A)
    → (if b then err e else r) ≡ ok a
    → (b ≡ false) × (r ≡ ok a)
unless_raise true e r a h = absurd (err_not_ok h)
unless_raise false e r a h = (refl, h)

wide_enough : (n w : ℕ) → ltb n w ≡ false → w ≤ n
wide_enough n w h = ground (arith, h)

not-false : (b : Bool) → not b ≡ false → b ≡ true
not-false true h = refl
not-false false h = ground (arith, h)

equal-true : (m n : ℕ) → (m == n) ≡ true → m ≡ n
equal-true m n h = ground (arith, h)

module _ (u : Unicode) (ip : Ipaddress) where
  -- one address, read from the text or the only one of its network
  pub IsSingle : String → String → Type 0
  IsSingle text t =
      ((a : ip.Address) × (t ≡ ip.address_text a) × (parse_ip u ip (some text) ≡ some t))
      ⊎ ((net : ip.Network) × (ip.ip_network text ≡ some net)
          × (ip.prefixlen net ≡ ip.max_prefixlen net)
          × (t ≡ ip.address_text (ip.network_address net)))

  -- a network, written with its own address and no wider than is allowed
  pub IsNarrow : String → String → Type 0
  IsNarrow text t =
      (net : ip.Network) × (ip.ip_network text ≡ some net)
      × (t ≡ ip.network_text net)
      × (widest_prefix (ip.version net) ≤ ip.prefixlen net)
      × ((host : ip.Address) × (ip.ip_address (text_of (before_slash (codes text))) ≡ some host)
          × (ip.same_address host (ip.network_address net) ≡ true))

  -- the tests after the one for a network of a single address
  host_tests :
      (text t : String) (net : ip.Network) (o : Option ip.Address)
      → ip.ip_address (text_of (before_slash (codes text))) ≡ o
      → ip.ip_network text ≡ some net
      → elim o [
        | none ↦ err raised
        | some host ↦
            if not (ip.same_address host (ip.network_address net))
            then err (not_network_address (ip.network_text net))
            else if ltb (ip.prefixlen net) (widest_prefix (ip.version net))
            then err (too_wide (widest_prefix (ip.version net)))
            else ok (ip.network_text net)
      ]
        ≡ ok t
      → IsNarrow text t
  unfolding IsNarrow
  host_tests text t net none read found h = absurd (err_not_ok h)
  host_tests text t net (some host) read found h =
      let same = ip.same_address host (ip.network_address net) in
      let (own, h1) = unless_raise (not same) _ _ t h in
      let (wide, h2) =
        unless_raise (ltb (ip.prefixlen net) (widest_prefix (ip.version net))) _ _ t h1 in
      (
        net,
        found,
        sym (ok-inj h2),
        wide_enough (ip.prefixlen net) (widest_prefix (ip.version net)) wide,
        (host, read, not-false same own),
      )

  client_network-accepted :
      (text t : String) (net : ip.Network)
      → ip.ip_network text ≡ some net
      → client_network u ip text net ≡ ok t
      → IsSingle text t ⊎ IsNarrow text t
  unfolding client_network IsSingle
  client_network-accepted text t net found h =
      elim (from_branch (ip.prefixlen net == ip.max_prefixlen net) _ _ (ok t) h) [
        | inl (e, shown) ↦ inl (
            inr (
              net,
              found,
              equal-true (ip.prefixlen net) (ip.max_prefixlen net) e,
              sym (ok-inj shown),
            ))
        | inr (e, tested) ↦ inr (host_tests text t net _ refl found tested)
      ]

  read_network :
      (text t : String) (o : Option ip.Network)
      → ip.ip_network text ≡ o
      → elim o [ none ↦ err not_address | some net ↦ client_network u ip text net ] ≡ ok t
      → IsSingle text t ⊎ IsNarrow text t
  read_network text t none found h = absurd (err_not_ok h)
  read_network text t (some net) found h = client_network-accepted text t net found h

  parse_ip-some :
      (text t : String)
      → parse_ip u ip (some text) ≡ some t
      → (a : ip.Address) × (t ≡ ip.address_text a)
  unfolding parse_ip
  parse_ip-some text t h =
      text_read ip.address_text (is_empty text) (ip.ip_address (strip u text)) t h

  read_address :
      (text t : String) (o : Option String)
      → parse_ip u ip (some text) ≡ o
      → elim o [ none ↦ err not_address | some a ↦ ok a ] ≡ ok t
      → IsSingle text t
  unfolding IsSingle
  read_address text t none read h = absurd (err_not_ok h)
  read_address text t (some a) read h =
      let found = read ∙ ap (λ x. some x) (ok-inj h) in
      let (b, e) = parse_ip-some text t found in inl (b, e, found)

  -- A RADIUS client is registered under one address or a narrow network: what `parse_client_address`
  -- returns is the text of an address (that is the text, or a network of this address alone), or of a
  -- network whose prefix is no shorter than 16 bits, or 48 for IPv6, and where the text before the
  -- slash is the network's own address.
  pub parse_client_address-IsNarrow :
      (value : Option String) (t : String)
      → parse_client_address u ip value ≡ ok t
      → IsSingle (strip u (or_empty value)) t ⊎ IsNarrow (strip u (or_empty value)) t
  unfolding parse_client_address
  parse_client_address-IsNarrow value t h =
      let text = strip u (or_empty value) in
      elim (from_branch (any_of (λ c. c == b'/') (codes text)) _ _ (ok t) h) [
        | inl (e, read) ↦ read_network text t _ refl read
        | inr (e, read) ↦ inl (read_address text t _ refl read)
      ]
