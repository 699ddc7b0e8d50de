-- ===== src/Auth/Verifier.antt =====
-- internal/auth/auth.go: which certificates the verifier lets pass.
use malon.Base.{
  ◌≡◌, ◌↔◌, refl, ap, false, true, none, some, List, [], ◌∷◌, Bytes, Result, ok, err, inl, inr,
  Option-cases, Result-cases, wrapping-eq-ok,
}
use malon.Base.Keys.{bytes_eq, lookup}
use malon.Identity.{
  Crypto, Certificate, PublicKey, ed25519, other_key, peer_id_from_public_key, self_signed_cert,
}
use malon.Identity.Text.{self_signed_cert-key}
use malon.Auth.{PeerSet, TlsCertificate, Moment, self_cert, verify_key, make_peer_verifier}

module _ ⦃c : Crypto⦄ where
  -- The chain begins with a certificate that holds an Ed25519 key.
  abbrev pub HasKey : List Bytes → Bytes → Type 0
  HasKey [] pub_key = false ≡ true
  HasKey (der ∷ rest) pub_key =
      c.parse_certificate der ≡ ok (record { public_key = ed25519 pub_key })

  -- The set holds the identity of the key.
  abbrev pub IsKnown : PeerSet → Bytes → Type 0
  IsKnown known pub_key = lookup (peer_id_from_public_key pub_key) known ≡ some (tt {0})

  verify_key_iff :
      (known : PeerSet) (k : PublicKey)
      → (verify_key known k ≡ none)
        ↔ ((pub_key : Bytes) × (k ≡ ed25519 pub_key) × IsKnown known pub_key)
  verify_key_iff known other_key = (λ h. absurd (cc h), λ (p, e, _). absurd (cc e))
  verify_key_iff known (ed25519 p) = (λ h. there h, λ (q, e, k). back q e k)
    where
      there :
          verify_key known (ed25519 p) ≡ none
          → (q : Bytes) × (ed25519 p ≡ ed25519 q) × IsKnown known q
      there h = elim (Option-cases (lookup (peer_id_from_public_key p) known)) [
        | inl e ↦ absurd (cc (rw (e, verify_key) at (h)))
        | inr (u, e) ↦ (p, refl, e)
      ]

      back :
          (q : Bytes)
          → ed25519 p ≡ ed25519 q
          → IsKnown known q
          → verify_key known (ed25519 p) ≡ none
      back q e k = let same : p ≡ q = cc e in rw (same, k, verify_key) refl

  -- The verifier lets a chain pass exactly if its first certificate can be read and holds an
  -- Ed25519 key whose identity is in the set.
  pub make_peer_verifier_iff :
      (known : PeerSet) (raw : List Bytes)
      → (make_peer_verifier known raw ≡ none)
        ↔ ((pub_key : Bytes) × HasKey raw pub_key × IsKnown known pub_key)
  unfolding make_peer_verifier
  make_peer_verifier_iff known [] = (λ h. absurd (cc h), λ (p, e, _). absurd (cc e))
  make_peer_verifier_iff known (der ∷ rest) = elim (Result-cases (c.parse_certificate der)) [
    | inr (e, q) ↦ rw q (λ h. absurd (cc h), λ (p, f, _). absurd (cc f))
    | inl (cert, q) ↦ rw q (
      (λ h.
          let (p, e, k) = (verify_key_iff known cert.public_key).0 h in
          (p, ap (λ (x : PublicKey). ok (record { public_key = x })) e, k)),
      (λ (p, f, k). (verify_key_iff known cert.public_key).1 (p, key_of cert (ed25519 p) f, k)),
    )
  ]
    where
      key_of :
          (x : Certificate) (k : PublicKey)
          → ok x ≡ ok (record { public_key = k })
          → x.public_key ≡ k
      key_of x k e = ap (λ (r : Result Certificate). elim r [ ok y ↦ y.public_key | err _ ↦ k ]) e

  -- The certificate of a configuration holds the node's own key.
  pub self_cert-HasKey :
      (m : Moment) (priv : Bytes) (cert : TlsCertificate)
      → self_cert m priv ≡ ok cert
      → HasKey cert.certificate (c.public_of priv)
  unfolding self_cert
  self_cert-HasKey m priv cert h =
      let (r, made, e) = wrapping-eq-ok _ (self_signed_cert m.random m.now priv) _ h in
      let same : cert ≡ record { certificate = r.1 ∷ []; private_key = priv } = cc e in
      rw same (self_signed_cert-key m.random m.now priv r made)
