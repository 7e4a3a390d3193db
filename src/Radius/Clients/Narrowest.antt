-- ===== src/Radius/Clients/Narrowest.antt =====
-- `NasDirectory.find` of naco/radius/clients.py finds the exact entry, else the narrowest network.
use mathlib.Core.List.{Memᴰ}
use mathlib.Core.Bool.{true≢false}
use naco.Base.{
  All, All-keep, All-mem, All-sort_by, All-unkeep, All-unsort_by, All-weaken, Bool-cases,
  IsSortedBy, List, Option, String, [], ap, arith, eq_iff, false, if◌then◌else◌, inl, inr, keep,
  leb→le, none, not, refl, some, sort_by, sort_by-IsSortedBy, str_eq, subst, sym, true, ◌&&◌, ◌∙◌,
  ◌∷◌, ◌≡◌, ◌≤◌, ◌⊎◌,
}
use naco.Models.{NasClient}
use naco.Radius.Clients.{
  Addresses, exact_or, find, find_exact, find_network, first_network, is_narrower, is_network,
  sorted_networks,
}

-- an entry for exactly this address
pub IsExact : String → NasClient → Type 0
IsExact ip c = (is_network c ≡ false) × (c.ip_address ≡ ip)

module _ (a : Addresses) (ip : String) where
  -- a network that contains the address
  pub IsAround : NasClient → Type 0
  IsAround c =
      (is_network c ≡ true) × (a.is_address ip ≡ true) × (a.contains c.ip_address ip ≡ true)

  -- `c` is an exact entry; or no entry is exact, `c` is a network around the address, and no other
  -- such network is narrower
  pub IsBest : List NasClient → NasClient → Type 0
  IsBest clients c =
      IsExact ip c
      ⊎ (All (λ d. ¬ IsExact ip d) clients
          × IsAround c
          × All (λ d. IsAround d → a.prefixlen d.ip_address ≤ a.prefixlen c.ip_address) clients)

  -- the client that is found is one of them and is best; none is found only when none fits
  pub IsAnswer : List NasClient → Option NasClient → Type 0
  IsAnswer clients (some c) = Memᴰ c clients × IsBest clients c
  IsAnswer clients none = All (λ d. (¬ IsExact ip d) × (¬ IsAround d)) clients

  exact_lem :
      (clients : List NasClient)
      → ((c : NasClient) × (find_exact clients ip ≡ some c) × Memᴰ c clients × IsExact ip c)
        ⊎ ((find_exact clients ip ≡ none) × All (λ d. ¬ IsExact ip d) clients)
  unfolding find_exact IsExact
  exact_lem [] = inr (refl, tt)
  exact_lem (c ∷ clients) = elim (exact_lem clients) [
    | inl (x, e, m, k) ↦ inl (x, rw e refl, Memᴰ.tail m, k)
    | inr (e, n) ↦ elim (Bool-cases (not (is_network c) && str_eq c.ip_address ip)) [
      | inl t ↦ inl (c, rw (e, t) refl, Memᴰ.head refl, ground (arith, eq_iff c.ip_address ip, t))
      | inr t ↦
          inr (rw (e, t) refl, ((λ k. ground (arith, eq_iff c.ip_address ip, t, k.0, k.1)), n))
    ]
  ]

  -- the answer of the networks, of which `P` holds
  first_network_lem :
      (P : NasClient → Type 0) (networks : List NasClient)
      → IsSortedBy (is_narrower a) networks
      → All P networks
      → ((c : NasClient) × (first_network a networks ip ≡ some c)
          × P c
          × (a.contains c.ip_address ip ≡ true)
          × All
              (λ d.
                a.contains d.ip_address ip ≡ true
                → a.prefixlen d.ip_address ≤ a.prefixlen c.ip_address)
              networks)
        ⊎ ((first_network a networks ip ≡ none)
            × All (λ d. a.contains d.ip_address ip ≡ false) networks)
  unfolding first_network
  first_network_lem P [] s p = inr (refl, tt)
  first_network_lem P (c ∷ networks) s p = elim (Bool-cases (a.contains c.ip_address ip)) [
    | inl e ↦ inl (
      c,
      ap (λ b. if b then some c else first_network a networks ip) e,
      p.0,
      e,
      (
        λ h. omega arith,
        All-weaken (λ d. is_narrower a c d ≡ true)
            (λ d.
              a.contains d.ip_address ip ≡ true
              → a.prefixlen d.ip_address ≤ a.prefixlen c.ip_address)
            (λ d n h. leb→le _ _ n) networks s.0,
      ),
    )
    | inr e ↦ elim (first_network_lem P networks s.1 p.1) [
      | inl (x, f, q, k, w) ↦ inl (
        x,
        ap (λ b. if b then some c else first_network a networks ip) e ∙ f,
        q,
        k,
        (λ h. absurd (true≢false (sym h ∙ e)), w),
      )
      | inr (f, w) ↦ inr (ap (λ b. if b then some c else first_network a networks ip) e ∙ f, (e, w))
    ]
  ]

  is_narrower_total : (c d : NasClient) → is_narrower a c d ≡ false → is_narrower a d c ≡ true
  is_narrower_total c d h = ground arith

  is_narrower_trans :
      (c d e : NasClient)
      → is_narrower a c d ≡ true
      → is_narrower a d e ≡ true
      → is_narrower a c e ≡ true
  is_narrower_trans c d e h k = ground arith

  find_network_lem :
      (clients : List NasClient)
      → ((c : NasClient) × (find_network a clients ip ≡ some c)
          × Memᴰ c clients
          × IsAround c
          × All (λ d. IsAround d → a.prefixlen d.ip_address ≤ a.prefixlen c.ip_address) clients)
        ⊎ ((find_network a clients ip ≡ none) × All (λ d. ¬ IsAround d) clients)
  unfolding find_network sorted_networks IsAround
  find_network_lem clients = elim (Bool-cases (a.is_address ip)) [
    | inr e ↦ inr (
      rw e refl,
      All-weaken (λ d. Memᴰ d clients) (λ d. ¬ IsAround d)
          (λ d m h. absurd (true≢false (sym h.1 ∙ e))) clients (All-mem clients),
    )
    | inl e ↦
        let networks = keep is_network clients in
        elim (first_network_lem (λ d. Memᴰ d clients × (is_network d ≡ true))
          (sort_by (is_narrower a) networks)
          (sort_by-IsSortedBy (is_narrower a) is_narrower_total is_narrower_trans networks)
          (All-sort_by (is_narrower a) (λ d. Memᴰ d clients × (is_network d ≡ true)) networks
            (All-keep (λ d. Memᴰ d clients) is_network clients (All-mem clients)))) [
              | inl (c, f, p, k, w) ↦ inl (
                c,
                rw e f,
                p.0,
                (p.1, e, k),
                All-weaken
                    (λ d.
                      is_network d ≡ true
                      → a.contains d.ip_address ip ≡ true
                      → a.prefixlen d.ip_address ≤ a.prefixlen c.ip_address)
                    (λ d. IsAround d → a.prefixlen d.ip_address ≤ a.prefixlen c.ip_address)
                    (λ d g h. g h.0 h.2) clients
                    (All-unkeep
                      (λ d.
                        a.contains d.ip_address ip ≡ true
                        → a.prefixlen d.ip_address ≤ a.prefixlen c.ip_address)
                      is_network clients
                      (All-unsort_by (is_narrower a)
                        (λ d.
                          a.contains d.ip_address ip ≡ true
                          → a.prefixlen d.ip_address ≤ a.prefixlen c.ip_address)
                        networks w)),
              )
              | inr (f, w) ↦ inr (
                rw e f,
                All-weaken (λ d. is_network d ≡ true → a.contains d.ip_address ip ≡ false)
                    (λ d. ¬ IsAround d) (λ d g h. absurd (true≢false (sym h.2 ∙ g h.0))) clients
                    (All-unkeep (λ d. a.contains d.ip_address ip ≡ false) is_network clients
                      (All-unsort_by (is_narrower a) (λ d. a.contains d.ip_address ip ≡ false)
                        networks w)),
              )
            ]
  ]

  both :
      (P Q : NasClient → Type 0) (clients : List NasClient)
      → All P clients
      → All Q clients
      → All (λ d. P d × Q d) clients
  both P Q [] p q = tt
  both P Q (c ∷ clients) p q = ((p.0, q.0), both P Q clients p.1 q.1)

  -- For any list of clients and any address, `find` gives an entry for exactly that address when
  -- there is one, else a network around the address with the longest prefix of all such networks;
  -- what it gives is one of the clients. It gives none exactly when no entry is exact and no
  -- network is around the address.
  pub find-IsAnswer : (clients : List NasClient) → IsAnswer clients (find a clients ip)
  unfolding find IsAnswer IsBest
  find-IsAnswer clients = elim (exact_lem clients) [
    | inl (c, e, m, k) ↦
        subst (IsAnswer clients) (sym (ap (λ o. exact_or a o (find_network a clients ip)) e))
          (m, inl k)
    | inr (e, n) ↦ elim (find_network_lem clients) [
      | inl (c, f, m, r, w) ↦
          subst (IsAnswer clients) (sym (ap (λ o. exact_or a o (find_network a clients ip)) e ∙ f))
            (m, inr (n, r, w))
      | inr (f, w) ↦
          subst (IsAnswer clients) (sym (ap (λ o. exact_or a o (find_network a clients ip)) e ∙ f))
            (both (λ d. ¬ IsExact ip d) (λ d. ¬ IsAround d) clients n w)
    ]
  ]
