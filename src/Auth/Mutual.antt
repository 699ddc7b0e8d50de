-- ===== src/Auth/Mutual.antt =====
-- internal/auth/auth.go: the handshakes between the configurations.
use malon.Base.{
  ◌≡◌, ◌↔◌, refl, Option, none, some, List, [], ◌∷◌, Bytes, String, Error, Result, ok, err, ◌>>=◌,
  inl, inr, Option-cases, Result-cases, Bool-cases,
}
use malon.Base.Keys.{bytes_eq, bytes_beq_iff, lookup}
use malon.Identity.{Crypto, peer_id_from_public_key}
use malon.Auth.{
  PeerSet, TlsCertificate, TlsConfig, Moment, no_client_cert, require_any_client_cert,
  alpn_malon_relay, alpn_malon_probe, alpn_h3, config, self_cert, make_peer_verifier,
  new_client_tls_config, new_server_tls_config, new_probe_client_tls_config,
  new_direct_client_tls_config, new_probe_server_tls_config,
}
use malon.Auth.Verifier.{HasKey, IsKnown, make_peer_verifier_iff, self_cert-HasKey}
use malon.Auth.Handshake.{negotiate, client_handshake, server_handshake, to_result, check_required}

to_result_iff : (o : Option Error) → (to_result o ≡ ok tt) ↔ (o ≡ none)
to_result_iff none = (λ _. refl, λ _. refl)
to_result_iff (some e) = (λ h. absurd (cc h), λ h. absurd (cc h))

both_iff :
    (r : Result String) (u : Result (Unit {0})) (s : String)
    → ((r >>= λ x. u >>= λ _. ok x) ≡ ok s) ↔ ((r ≡ ok s) × (u ≡ ok tt))
both_iff (err e) u s = (λ h. absurd (cc h), λ h. absurd (cc (h.0)))
both_iff (ok x) (err e) s = (λ h. absurd (cc h), λ h. absurd (cc (h.1)))
both_iff (ok x) (ok tt) s = (λ h. (h, refl), λ h. h.0)

module _ ⦃c : Crypto⦄ where
  -- A chain that begins with the certificate of one key passes exactly if that key is known.
  passes_iff :
      (known : PeerSet) (raw : List Bytes) (pub_key : Bytes)
      → HasKey raw pub_key
      → (make_peer_verifier known raw ≡ none) ↔ IsKnown known pub_key
  passes_iff known raw pub_key has =
      let whole = make_peer_verifier_iff known raw in
      (
        (λ h. let (q, has', k) = whole.0 h in rw (one_key raw pub_key q has has') k),
        (λ k. whole.1 (pub_key, has, k)),
      )
    where
      one_key : (raw : List Bytes) (p q : Bytes) → HasKey raw p → HasKey raw q → p ≡ q
      one_key [] p q h k = absurd (cc h)
      one_key (der ∷ rest) p q h k = cc (h, k)

  required_iff :
      (known : PeerSet) (protos : List String) (cert : TlsCertificate) (raw : List Bytes)
      (pub_key : Bytes)
      → HasKey raw pub_key
      → (check_required (config require_any_client_cert protos known cert) raw ≡ ok tt)
        ↔ IsKnown known pub_key
  required_iff known protos cert [] p has = absurd (cc has)
  required_iff known protos cert (der ∷ rest) p has =
      let pass = passes_iff known (der ∷ rest) p has in
      let res = to_result_iff (make_peer_verifier known (der ∷ rest)) in
      ((λ h. pass.0 (res.0 h)), (λ k. res.1 (pass.1 k)))

  -- A client and a server configuration, whose certificates hold the keys `p` and `q`.
  module _ (roots : List Bytes → Option Error) (protos protos' : List String) (protocol : String)
      (known known' : PeerSet) (cert cert' : TlsCertificate) (p q : Bytes) where
    client_ends_iff :
        negotiate protos' protos ≡ ok protocol
        → HasKey cert'.certificate q
        → (client_handshake roots
              (config no_client_cert protos known cert)
              (config require_any_client_cert protos' known' cert')
            ≡ ok protocol)
          ↔ IsKnown known q
    unfolding client_handshake
    client_ends_iff agreed has' =
        let pass = passes_iff known cert'.certificate q has' in
        elim (Option-cases (make_peer_verifier known cert'.certificate)) [
          | inl e ↦ rw (agreed, e) (λ _. pass.0 e, λ _. refl)
          | inr (x, e) ↦ rw (agreed, e) (λ h. absurd (cc h), λ k. absurd (cc (e, pass.1 k)))
        ]

    server_ends_iff :
        negotiate protos' protos ≡ ok protocol
        → HasKey cert.certificate p
        → HasKey cert'.certificate q
        → (server_handshake roots
              (config no_client_cert protos known cert)
              (config require_any_client_cert protos' known' cert')
            ≡ ok protocol)
          ↔ (IsKnown known q × IsKnown known' p)
    unfolding server_handshake
    server_ends_iff agreed has has' =
        let first = client_ends_iff agreed has' in
        let second = required_iff known' protos' cert' cert.certificate p has in
        let both =
          both_iff
            (client_handshake roots (config no_client_cert protos known cert)
              (config require_any_client_cert protos' known' cert'))
            (check_required (config require_any_client_cert protos' known' cert') cert.certificate)
            protocol in
        (
          (λ h. let (r, u) = both.0 h in (first.0 r, second.0 u)),
          (λ k. both.1 (first.1 k.0, second.1 k.1)),
        )

  -- A configuration that was made is built from a certificate with the node's key.
  config_key :
      (m : Moment) (priv : Bytes) (k : TlsCertificate → TlsConfig) (t : TlsConfig)
      → (self_cert m priv >>= λ x. ok (k x)) ≡ ok t
      → (x : TlsCertificate) × HasKey x.certificate (c.public_of priv) × (k x ≡ t)
  config_key m priv k t h = elim (Result-cases (self_cert m priv)) [
    | inl (x, e) ↦ (x, self_cert-HasKey m priv x e, cc (rw e at (h)))
    | inr (x, e) ↦ absurd (cc (rw e at (h)))
  ]

  IsKnown-singleton :
      (expected pub_key : Bytes)
      → IsKnown ((expected, tt) ∷ []) pub_key ↔ (peer_id_from_public_key pub_key ≡ expected)
  unfolding lookup
  IsKnown-singleton expected pub_key =
      elim (Bool-cases (bytes_eq.beq (peer_id_from_public_key pub_key) expected)) [
        | inl e ↦ rw e (λ _. (bytes_beq_iff _ _).0 e, λ _. refl)
        | inr e ↦ rw e (
          λ h. absurd (cc h),
          λ h. absurd (cc (e, (bytes_beq_iff (peer_id_from_public_key pub_key) expected).1 h)),
        )
      ]

  -- A handshake between a client's and a server's configuration for the relay tunnel: it ends well
  -- for the client exactly if the server's key belongs to a peer that the client knows, and for the
  -- server exactly if, besides, the client's key belongs to a peer that the server knows. The
  -- roots of the system play no part.
  pub relay_handshake_iff :
      (roots : List Bytes → Option Error) (m m' : Moment) (priv priv' : Bytes)
      (known known' : PeerSet) (client server : TlsConfig)
      → new_client_tls_config m priv known ≡ ok client
      → new_server_tls_config m' priv' known' ≡ ok server
      → ((client_handshake roots client server ≡ ok alpn_malon_relay)
          ↔ IsKnown known (c.public_of priv'))
        × ((server_handshake roots client server ≡ ok alpn_malon_relay)
            ↔ (IsKnown known (c.public_of priv') × IsKnown known' (c.public_of priv)))
  unfolding new_client_tls_config new_server_tls_config
  relay_handshake_iff roots m m' priv priv' known known' client server e e' =
      let (x, has, made) =
        config_key m priv (config no_client_cert (alpn_malon_relay ∷ []) known) client e in
      let (x', has', made') =
        config_key m' priv' (config require_any_client_cert (alpn_malon_relay ∷ []) known') server
          e' in
      rw (← made, ← made')
        (
          client_ends_iff roots (alpn_malon_relay ∷ []) (alpn_malon_relay ∷ []) alpn_malon_relay
              known known' x x' (c.public_of priv) (c.public_of priv') refl has',
          server_ends_iff roots (alpn_malon_relay ∷ []) (alpn_malon_relay ∷ []) alpn_malon_relay
              known known' x x' (c.public_of priv) (c.public_of priv') refl has has',
        )

  -- A peer that opens its listener's port to a probe or to a direct connection: either handshake
  -- ends well, with its own protocol, exactly if the listener's key is that of the expected peer and
  -- the other side's key belongs to a peer that the listener knows.
  pub direct_handshake_iff :
      (roots : List Bytes → Option Error) (m m' : Moment) (priv priv' expected : Bytes)
      (known' : PeerSet) (probe client server : TlsConfig)
      → new_probe_client_tls_config m priv expected ≡ ok probe
      → new_direct_client_tls_config m priv expected ≡ ok client
      → new_probe_server_tls_config m' priv' known' ≡ ok server
      → (let Agrees =
            (peer_id_from_public_key (c.public_of priv') ≡ expected)
            × IsKnown known' (c.public_of priv) in
          ((server_handshake roots probe server ≡ ok alpn_malon_probe) ↔ Agrees)
          × ((server_handshake roots client server ≡ ok alpn_h3) ↔ Agrees))
  unfolding new_probe_client_tls_config new_direct_client_tls_config new_probe_server_tls_config
  direct_handshake_iff roots m m' priv priv' expected known' probe client server e f e' =
      let known : PeerSet = (expected, tt) ∷ [] in
      let protos = alpn_malon_probe ∷ alpn_h3 ∷ [] in
      let p = c.public_of priv in
      let q = c.public_of priv' in
      let (x, has, made) =
        config_key m priv (config no_client_cert (alpn_malon_probe ∷ []) known) probe e in
      let (y, has_y, made_y) =
        config_key m priv (config no_client_cert (alpn_h3 ∷ []) known) client f in
      let (x', has', made') =
        config_key m' priv' (config require_any_client_cert protos known') server e' in
      let one = IsKnown-singleton expected q in
      let first =
        server_ends_iff roots (alpn_malon_probe ∷ []) protos alpn_malon_probe known known' x x' p q
          refl has has' in
      let second =
        server_ends_iff roots (alpn_h3 ∷ []) protos alpn_h3 known known' y x' p q refl has_y has' in
      rw (← made, ← made_y, ← made')
        (
          ((λ h. let (k, l) = first.0 h in (one.0 k, l)), (λ k. first.1 (one.1 k.0, k.1))),
          ((λ h. let (k, l) = second.0 h in (one.0 k, l)), (λ k. second.1 (one.1 k.0, k.1))),
        )
