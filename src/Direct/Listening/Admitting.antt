-- ===== src/Direct/Listening/Admitting.antt =====
-- internal/direct/listener.go and internal/manager/manager.go: whom the listener lets in that Run makes.
use malon.Base.{
  true, refl, ℕ, ◌≡◌, ◌↔◌, ap, Option, none, some, List, [], ◌∷◌, Bytes, Error, Result, ok, err,
}
use malon.Base.Keys.{bytes_eq, lookup}
use malon.Identity.{Crypto, peer_id_from_public_key}
use malon.Auth.{
  Moment, PeerSet, TlsConfig, alpn_malon_probe, alpn_h3, new_probe_client_tls_config,
  new_direct_client_tls_config, new_probe_server_tls_config,
}
use malon.Auth.Handshake.{server_handshake}
use malon.Auth.Mutual.{direct_handshake_iff}
use malon.Manager.{Manager, PeerEntry, known_peer_set}
use malon.Startup.{Routine, accepting_probes, run}
use malon.Startup.Listening.{start_run}
use malon.Manager.Entries.{known_peer_set_iff}
use malon.Direct.Listening.{
  Listener, Udp, Call, listen_udp, listen_config, listened, bound, configured, new_listener,
}

module _ ⦃c : Crypto⦄ where
  -- The listener's TLS configuration is the one that New has built.
  abbrev Configures : Result TlsConfig → Listener → Type 0
  Configures built l = built ≡ ok l.tls_config

  listened-ok :
      (priv : Bytes) (cfg : TlsConfig) (port : ℕ) (o : Option Error) (calls : List Call)
      (l : Listener)
      → (listened priv cfg port o calls).0 ≡ ok l
      → Configures (ok cfg) l
  listened-ok priv cfg port none calls l h = ap configuration h
    where
      configuration : Result Listener → Result TlsConfig
      configuration (err e) = err e
      configuration (ok x) = ok x.tls_config
  listened-ok priv cfg port (some e) calls l h = absurd (cc h)

  bound-listens :
      (priv : Bytes) (cfg : TlsConfig) (udp : Udp) (r : Result ℕ) (l : Listener)
      → (bound priv cfg udp r).0 ≡ ok l
      → Configures (ok cfg) l
  bound-listens priv cfg udp (err e) l h = absurd (cc h)
  bound-listens priv cfg udp (ok port) l h =
      listened-ok priv cfg port (udp.listen cfg listen_config) (listen_udp ∷ []) l h

  configured-listens :
      (priv : Bytes) (udp : Udp) (built : Result TlsConfig) (l : Listener)
      → (configured priv udp built).0 ≡ ok l
      → Configures built l
  configured-listens priv udp (err e) l h = absurd (cc h)
  configured-listens priv udp (ok cfg) l h = bound-listens priv cfg udp udp.listen_udp l h

  new_listener-Configures :
      (at_ : Moment) (priv : Bytes) (known : PeerSet) (udp : Udp) (l : Listener)
      → (new_listener at_ priv known udp).0 ≡ ok l
      → Configures (new_probe_server_tls_config at_ priv known) l
  unfolding new_listener
  new_listener-Configures at_ priv known udp l h =
      configured-listens priv udp (new_probe_server_tls_config at_ priv known) l h

  -- The listener of Run, if it could be made, lets in exactly the manager's peers at that time: the handshake of a
  -- probe and of a direct connection to it end well, each with its own protocol, if and only if the
  -- listener's key is that of the expected peer and the other side's key belongs to a peer of the
  -- manager's table. The manager has a listener then, and the loop that accepts from it is started
  -- first.
  pub start_run-admits :
      {P : Type 0} (roots : List Bytes → Option Error) (m : Manager P) (at_ at' : Moment)
      (priv priv' expected : Bytes) (udp : Udp) (l : Listener) (probe client : TlsConfig)
      → (start_run at' priv' udp m).listener ≡ ok l
      → new_probe_client_tls_config at_ priv expected ≡ ok probe
      → new_direct_client_tls_config at_ priv expected ≡ ok client
      → (let Agrees =
            (peer_id_from_public_key (c.public_of priv') ≡ expected)
            × ((e : PeerEntry P) × (lookup (peer_id_from_public_key (c.public_of priv)) m.peers
                  ≡ some e)) in
          ((server_handshake roots probe l.tls_config ≡ ok alpn_malon_probe) ↔ Agrees)
          × ((server_handshake roots client l.tls_config ≡ ok alpn_h3) ↔ Agrees)
          × ((start_run at' priv' udp m).manager.has_direct_ln ≡ true)
          × ((rest : List Routine) × ((start_run at' priv' udp m).routines
                ≡ accepting_probes ∷ rest)))
  unfolding start_run run
  start_run-admits roots m at_ at' priv priv' expected udp l probe client made probing dialling =
      let (first, second) =
        direct_handshake_iff roots at_ at' priv priv' expected (known_peer_set m) probe client
          l.tls_config probing dialling
          (new_listener-Configures at' priv' (known_peer_set m) udp l made) in
      let known = known_peer_set_iff (peer_id_from_public_key (c.public_of priv)) m in
      (
        ((λ h. let (k, x) = first.0 h in (k, known.0 x)), (λ (k, x). first.1 (k, known.1 x))),
        ((λ h. let (k, x) = second.0 h in (k, known.0 x)), (λ (k, x). second.1 (k, known.1 x))),
        rw made refl,
        rw made (_, refl),
      )
