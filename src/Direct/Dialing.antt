-- ===== src/Direct/Dialing.antt =====
-- internal/direct/dial.go and internal/h3path/h3path.go: what a dial and a probe leave open.
use malon.Base.{
  ◌≡◌, ◌⊎◌, ◌↔◌, refl, sym, ap, ◌∙◌, ℕ, false, true, Option, none, some, List, [], ◌∷◌, Bytes,
  Error, Result, ok, err, ◌>>=◌, inl, inr, Bool-cases,
}
use malon.Base.Keys.{bytes_eq}
use malon.Identity.{Crypto, Certificate, PublicKey, ed25519, other_key, peer_id_from_public_key}
use malon.Auth.{Moment, TlsConfig, new_probe_client_tls_config}
use malon.Packet.{Addr}
use malon.Direct.{
  Closes, ValidatedTransport, Dialled, probe, quic_dialled, tls_configured, probed, checked_peer,
  checked_key, dial,
}

-- What a QUIC dial leaves: nothing if there was no connection, else its close.
abbrev pub opened_and_closed : Result TlsConfig → Result Dialled → Closes → Closes
opened_and_closed (ok t) (ok d) closes = (d.number, 0) ∷ closes
opened_and_closed (ok t) (err e) closes = closes
opened_and_closed (err e) quic closes = closes

-- A dial either gives the session of CONNECT-IP, with the TLS configuration, the QUIC connection and the
-- routes all there, and closes nothing, or it fails and has closed the QUIC connection it opened, if any.
pub dial_cases :
    (t : Result TlsConfig) (quic : Result Dialled) (session : Result ℕ) (routes : Option Error)
    (closes : Closes)
    → ((conn : ℕ) × (dial t quic session routes closes ≡ (ok conn, closes))
        × (session ≡ ok conn)
        × (routes ≡ none)
        × ((c : TlsConfig) × (t ≡ ok c))
        × ((d : Dialled) × (quic ≡ ok d)))
      ⊎ ((e : Error) × (dial t quic session routes closes
            ≡ (err e, opened_and_closed t quic closes)))
unfolding dial
dial_cases (err e) quic session routes closes = inr (_, refl)
dial_cases (ok t) (err e) session routes closes = inr (_, refl)
dial_cases (ok t) (ok d) (err e) routes closes = inr (_, refl)
dial_cases (ok t) (ok d) (ok conn) (some e) closes = inr (_, refl)
dial_cases (ok t) (ok d) (ok conn) none closes = inl (conn, refl, refl, refl, (t, refl), (d, refl))

module _ ⦃c : Crypto⦄ where
  -- The first certificate's key is an Ed25519 key whose identity is `expected`.
  abbrev pub Proves : Bytes → List Certificate → Type 0
  Proves expected [] = false ≡ true
  Proves expected (cert ∷ rest) =
      (pub_key : Bytes) × (cert.public_key ≡ ed25519 pub_key)
      × (peer_id_from_public_key pub_key ≡ expected)

  checked_key_iff :
      (expected : Bytes) (k : PublicKey)
      → (checked_key expected k ≡ ok tt)
        ↔ ((pub_key : Bytes) × (k ≡ ed25519 pub_key) × (peer_id_from_public_key pub_key ≡ expected))
  checked_key_iff expected other_key = ((λ h. absurd (cc h)), λ (p, e, f). absurd (cc e))
  checked_key_iff expected (ed25519 p) =
      elim (Bool-cases (bytes_eq.beq (peer_id_from_public_key p) expected)) [
        | inl same ↦ rw same ((λ h. (p, refl, (bytes_eq.beq_iff _ _).0 same)), λ _. refl)
        | inr other ↦ rw other (
          (λ h. absurd (cc h)),
          λ (p', e, f). absurd (
              let key : p ≡ p' = cc e in
              let g =
                (bytes_eq.beq_iff (peer_id_from_public_key p) expected).1
                  (ap peer_id_from_public_key key ∙ f) in
              cc (other, g)),
        )
      ]

  checked_peer_iff :
      (expected : Bytes) (certs : List Certificate)
      → (checked_peer expected certs ≡ ok tt) ↔ Proves expected certs
  checked_peer_iff expected [] = ((λ h. absurd (cc h)), λ h. absurd (cc h))
  checked_peer_iff expected (cert ∷ rest) = checked_key_iff expected cert.public_key

  probed_iff :
      (addr : Addr) (port : ℕ) (expected : Bytes) (d : Dialled) (v : ValidatedTransport)
      (r : Result (Unit {0}))
      → (probed addr port expected d r ≡ ok v) ↔ (
          (r ≡ ok tt)
          × (v ≡ record {
            remote_addr = addr;
            remote_port = port;
            peer_id = expected;
            rtt = d.elapsed;
          }))
  probed_iff addr port expected d v (err e) = ((λ h. absurd (cc h)), λ (a, b). absurd (cc a))
  probed_iff addr port expected d v (ok u) = ((λ h. (refl, cc h)), λ (a, b). ap ok (sym b))

  -- What a probe needs for its result: the TLS configuration, the QUIC dial with it, and the key of the peer.
  abbrev Validates :
      Addr
      → ℕ
      → Bytes
      → Result TlsConfig
      → (TlsConfig → Result Dialled)
      → ValidatedTransport
      → Type 0
  Validates addr port expected made quic v =
      (t : TlsConfig) × (d : Dialled) × (made ≡ ok t)
      × (quic t ≡ ok d)
      × Proves expected d.peer_certificates
      × (v ≡ record { remote_addr = addr; remote_port = port; peer_id = expected; rtt = d.elapsed })

  quic_dialled_iff :
      (addr : Addr) (port : ℕ) (expected : Bytes) (r : Result Dialled) (closes : Closes)
      (v : ValidatedTransport)
      → ((quic_dialled addr port expected r closes).0 ≡ ok v) ↔ (
          (d : Dialled) × (r ≡ ok d)
          × Proves expected d.peer_certificates
          × (v ≡ record {
            remote_addr = addr;
            remote_port = port;
            peer_id = expected;
            rtt = d.elapsed;
          }))
  quic_dialled_iff addr port expected (err e) closes v =
      ((λ h. absurd (cc h)), λ (d, q, _, _). absurd (cc q))
  quic_dialled_iff addr port expected (ok d) closes v =
      let check = checked_peer_iff expected d.peer_certificates in
      let result = probed_iff addr port expected d v (checked_peer expected d.peer_certificates) in
      (
        (λ h. (d, refl, check.0 ((result.0 h).0), (result.0 h).1)),
        λ (d', q, proves, same).
            let here : d' ≡ d = cc q in result.1 (check.1 (rw (← here) proves), rw (← here) same),
      )

  tls_configured_iff :
      (addr : Addr) (port : ℕ) (expected : Bytes) (made : Result TlsConfig)
      (quic : TlsConfig → Result Dialled) (closes : Closes) (v : ValidatedTransport)
      → ((tls_configured addr port expected made quic closes).1
          ≡ opened_and_closed made (made >>= quic) closes)
        × (((tls_configured addr port expected made quic closes).0 ≡ ok v)
            ↔ Validates addr port expected made quic v)
  tls_configured_iff addr port expected (err e) quic closes v =
      (refl, ((λ h. absurd (cc h)), λ (t, d, q, _, _, _). absurd (cc q)))
  tls_configured_iff addr port expected (ok t) quic closes v =
      let dialled = quic_dialled_iff addr port expected (quic t) closes v in
      (
        closed_by (quic t),
        (
          (λ h. let (d, q, proves, same) = dialled.0 h in (t, d, refl, q, proves, same)),
          λ (t', d, q, f, proves, same).
              let here : t' ≡ t = cc q in dialled.1 (d, rw here at (f), proves, same),
        ),
      )
    where
      closed_by :
          (r : Result Dialled)
          → (quic_dialled addr port expected r closes).1 ≡ opened_and_closed (ok t) r closes
      closed_by (err e) = refl
      closed_by (ok d) = refl

  -- A probe closes the QUIC connection that it opened, and validates the address exactly if the TLS
  -- configuration of NewProbeClientTLSConfig for the expected peer could be made, the QUIC dial with it
  -- succeeded and the other side's first certificate holds the key of this peer; it then reports that
  -- address, that peer and the time the dial took.
  pub probe_iff :
      (at_ : Moment) (priv : Bytes) (addr : Addr) (port : ℕ) (expected : Bytes)
      (quic : TlsConfig → Result Dialled) (closes : Closes) (v : ValidatedTransport)
      → (let made = new_probe_client_tls_config at_ priv expected in
          ((probe at_ priv addr port expected quic closes).1
            ≡ opened_and_closed made (made >>= quic) closes)
          × (((probe at_ priv addr port expected quic closes).0 ≡ ok v) ↔ (
              (t : TlsConfig) × (d : Dialled) × (made ≡ ok t)
              × (quic t ≡ ok d)
              × Proves expected d.peer_certificates
              × (v ≡ record {
                remote_addr = addr;
                remote_port = port;
                peer_id = expected;
                rtt = d.elapsed;
              }))))
  unfolding probe
  probe_iff at_ priv addr port expected quic closes v =
      tls_configured_iff addr port expected (new_probe_client_tls_config at_ priv expected) quic
        closes v
