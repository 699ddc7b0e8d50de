-- ===== src/Identity/Text.antt =====
-- internal/identity/identity.go: the text of an identity, and the certificate that carries it.
use malon.Base.{
  ◌≡◌, refl, sym, ap, ◌∙◌, Bytes, [], wrapping-eq-ok, Result, ok, err, length, ==_iff, ℕ,
}
use malon.Identity.{
  Certificate, Crypto, ed25519, peer_id_from_public_key, peer_id_string, peer_id_from_base64,
  self_signed_cert, template_for,
}

module _ ⦃c : Crypto⦄ where
  -- The text of the identity of any key is parsed back to that identity.
  pub peer_id_from_base64-string :
      (pub_key : Bytes)
      → (let id = peer_id_from_public_key pub_key in
          peer_id_from_base64 c.decode_string (peer_id_string id) ≡ ok id)
  unfolding peer_id_from_base64 peer_id_string peer_id_from_public_key
  peer_id_from_base64-string pub_key =
      rw
        (
          c.decode-encode (c.sum256 pub_key),
          (==_iff (length (c.sum256 pub_key)) 32).1 (c.length-sum256 pub_key),
        )
        refl

  -- A node's own certificate is read back with the node's public key.
  pub self_signed_cert-key :
      (random : Result ℕ) (now : ℕ) (priv : Bytes) (r : Certificate × Bytes)
      → self_signed_cert random now priv ≡ ok r
      → c.parse_certificate r.1 ≡ ok (record { public_key = ed25519 (c.public_of priv) })
  unfolding self_signed_cert
  self_signed_cert-key random now priv r h =
      let (serial, _, h1) = wrapping-eq-ok _ random _ h in
      let t = template_for serial now (c.public_of priv) in
      let (der, made, h2) =
        wrapping-eq-ok _ (c.create_certificate t (c.public_of priv) priv) _ h1 in
      let (cert, parsed, h3) = wrapping-eq-ok _ (c.parse_certificate der) _ h2 in
      let same : der ≡ r.1 = ap second h3 in
      ap c.parse_certificate (sym same) ∙ c.parse-create t (c.public_of priv) priv der made
    where
      second : Result (Certificate × Bytes) → Bytes
      second (ok x) = x.1
      second (err e) = []
