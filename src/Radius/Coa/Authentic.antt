-- ===== src/Radius/Coa/Authentic.antt =====
-- `verify_response` of naco/radius/coa.py accepts exactly what RFC 5176 calls an authentic response.
use naco.Base.{
  ==_iff, Bool, List, Option, [], arith, false, from_bytes, if◌then◌else◌, length, ltb, none,
  none_not_some, not, refl, some, some-inj, subst, take, true, ℕ, ◌&&◌, ◌++◌, ◌+◌, ◌-◌, ◌==◌, ◌||◌,
  ◌↔◌, ◌∷◌, ◌≡◌, ◌≤◌,
}
use naco.Radius.Coa.{
  attr_message_authenticator, byte_at, check_ma, check_optional_ma, expected, find_attr, same_bytes,
  set_sixteen, slice, verify_response, zeros,
}
use naco.Radius.Coa.Found.{FirstAt, find_attr_iff}

pub same_bytes_iff : (xs ys : List ℕ) → (same_bytes xs ys ≡ true) ↔ (xs ≡ ys)
unfolding same_bytes
same_bytes_iff [] [] = (λ h. refl, λ h. refl)
same_bytes_iff [] (y ∷ ys) = ground arith
same_bytes_iff (x ∷ xs) [] = ground arith
same_bytes_iff (x ∷ xs) (y ∷ ys) = ground (arith, same_bytes_iff xs ys)

and_iff : (a b : Bool) → ((a && b) ≡ true) ↔ ((a ≡ true) × (b ≡ true))
and_iff a b = ground arith

refuse_if : (b r : Bool) → ((if b then false else r) ≡ true) ↔ ((b ≡ false) × (r ≡ true))
refuse_if b r = ground arith

not_iff : (b : Bool) → (not b ≡ false) ↔ (b ≡ true)
not_iff b = ground arith

whole_iff : (a b : ℕ) → ((ltb a 20 || ltb b 20) ≡ false) ↔ ((20 ≤ a) × (20 ≤ b))
whole_iff a b = ground arith

sized_iff :
    (s n x y : ℕ)
    → ((ltb s 20 || ltb n s || not (x == y)) ≡ false) ↔ (((20 ≤ s) × (s ≤ n)) × (x ≡ y))
sized_iff s n x y = ground arith

module _ (md5 : List ℕ → List ℕ) (hmac : List ℕ → List ℕ → List ℕ)
    (request response secret : List ℕ) where
  -- the Message-Authenticator at `ma` is an attribute of eighteen bytes with the HMAC of the response
  -- in which the authenticator is the request's and the Message-Authenticator is zero
  pub IsKeyed : ℕ → ℕ → Type 0
  IsKeyed size ma =
      (byte_at response (ma - 1) ≡ 18)
      × (hmac secret
            (set_sixteen ma zeros (set_sixteen 4 (slice 4 20 request) (take size response)))
          ≡ slice ma (ma + 16) response)

  pub record IsAuthentic (size : ℕ) : Type 0 where
    pub whole : (20 ≤ length response) × (20 ≤ length request)
    pub sized : (20 ≤ size) × (size ≤ length response)
    pub identifier : byte_at response 1 ≡ byte_at request 1
    pub authenticator :
        md5 (take 4 response ++ (slice 4 20 request ++ (slice 20 size response ++ secret)))
        ≡ slice 4 20 response
    pub keyed : (ma : ℕ) → FirstAt response attr_message_authenticator size 20 ma → IsKeyed size ma

  check_ma_iff :
      (size ma : ℕ) → (check_ma md5 hmac request response secret size ma ≡ true) ↔ IsKeyed size ma
  unfolding check_ma IsKeyed
  check_ma_iff size ma =
      let mac =
        hmac secret
          (set_sixteen ma zeros (set_sixteen 4 (slice 4 20 request) (take size response))) in
      let sixteen = slice ma (ma + 16) response in
      (
        (λ h.
            let (a, b) = (and_iff (byte_at response (ma - 1) == 18) (same_bytes mac sixteen)).0 h in
            ((==_iff (byte_at response (ma - 1)) 18).0 a, (same_bytes_iff mac sixteen).0 b)),
        (λ k.
            (and_iff (byte_at response (ma - 1) == 18) (same_bytes mac sixteen)).1
              ((==_iff (byte_at response (ma - 1)) 18).1 k.0, (same_bytes_iff mac sixteen).1 k.1)),
      )

  check_optional_ma_iff :
      (size : ℕ) (o : Option ℕ)
      → (check_optional_ma md5 hmac request response secret size o ≡ true)
        ↔ ((ma : ℕ) → o ≡ some ma → IsKeyed size ma)
  unfolding check_optional_ma
  check_optional_ma_iff size none = (λ h ma e. absurd (none_not_some e), λ h. refl)
  check_optional_ma_iff size (some at) = (
    λ h ma e. subst (IsKeyed size) (some-inj e) ((check_ma_iff size at).0 h),
    λ h. (check_ma_iff size at).1 (h at refl),
  )

  -- `verify_response` accepts exactly the authentic responses, whatever the digests: both packets
  -- have twenty bytes at least, the declared length lies between twenty and the bytes received, the
  -- identifier is the request's, the Response Authenticator is the digest of the response with the
  -- request's authenticator and the secret, and a Message-Authenticator attribute, when the response
  -- has one, holds the keyed digest.
  pub verify_response_iff :
      (verify_response md5 hmac request response secret ≡ true)
      ↔ IsAuthentic (from_bytes (slice 2 4 response))
  unfolding verify_response expected
  verify_response_iff =
      let size = from_bytes (slice 2 4 response) in
      let b1 = ltb (length response) 20 || ltb (length request) 20 in
      let b2 =
        ltb size 20
        || ltb (length response) size
        || not (byte_at response 1 == byte_at request 1) in
      let split = sized_iff size (length response) (byte_at response 1) (byte_at request 1) in
      let digest =
        md5 (take 4 response ++ (slice 4 20 request ++ (slice 20 size response ++ secret))) in
      let sent = slice 4 20 response in
      let o = find_attr response attr_message_authenticator size in
      let r3 = check_optional_ma md5 hmac request response secret size o in
      let r2 = if not (same_bytes digest sent) then false else r3 in
      let r1 = if b2 then false else r2 in
      (
        (λ h.
            let (h1, k1) = (refuse_if b1 r1).0 h in
            let (h2, k2) = (refuse_if b2 r2).0 k1 in
            let (h3, k3) = (refuse_if (not (same_bytes digest sent)) r3).0 k2 in
            record {
              whole = (whole_iff (length response) (length request)).0 h1;
              sized = (split.0 h2).0;
              identifier = (split.0 h2).1;
              authenticator =
                  (same_bytes_iff digest sent).0 ((not_iff (same_bytes digest sent)).0 h3);
              keyed = λ ma f.
                  (check_optional_ma_iff size o).0 k3 ma
                    ((find_attr_iff response attr_message_authenticator size ma).1 f);
            }),
        (λ v. (refuse_if b1 r1).1 (
          (whole_iff (length response) (length request)).1 v.whole,
          (refuse_if b2 r2).1 (
            split.1 (v.sized, v.identifier),
            (refuse_if (not (same_bytes digest sent)) r3).1 (
              (not_iff (same_bytes digest sent)).1 ((same_bytes_iff digest sent).1 v.authenticator),
              (check_optional_ma_iff size o).1 (λ ma e.
                  v.keyed ma ((find_attr_iff response attr_message_authenticator size ma).0 e)),
            ),
          ),
        )),
      )
