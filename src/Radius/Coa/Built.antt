-- ===== src/Radius/Coa/Built.antt =====
-- The packet that `build_disconnect` of naco/radius/coa.py makes is the one that RFC 5176 describes.
use naco.Base.{List, ℕ, ◌++◌, ◌∷◌}
use naco.Radius.Coa.{request_header, zeros}

module _ (md5 : List ℕ → List ℕ) (hmac : List ℕ → List ℕ → List ℕ) (secret : List ℕ)
    (identifier : ℕ) where
  -- the packet of RFC 5176: code, identifier and length; the authenticator, which is the digest of the
  -- packet with a zero authenticator and of the secret; the attributes
  pub request_of : List ℕ → List ℕ
  request_of attrs =
      request_header identifier attrs
      ++ (md5 ((request_header identifier attrs ++ (zeros ++ attrs)) ++ secret) ++ attrs)

  -- a Message-Authenticator: the keyed digest of the packet in which it and the authenticator are zero
  pub with_authenticator : List ℕ → List ℕ
  with_authenticator attrs =
      let blank = attrs ++ 80 ∷ 18 ∷ zeros in
      attrs ++ 80 ∷ 18 ∷ hmac secret (request_header identifier blank ++ (zeros ++ blank))
