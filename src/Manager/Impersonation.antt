-- ===== src/Manager/Impersonation.antt =====
-- internal/manager/manager.go: whose certificate handleIncoming accepts for a session.
use malon.Base.{ℕ, ◌≡◌, refl, Bytes, List, Option, none, some, Error, ok, err}
use malon.Base.Keys.{bytes_eq, lookup}
use malon.Identity.{Crypto, peer_id_from_public_key}
use malon.Auth.{
  PeerSet, TlsConfig, Moment, alpn_malon_relay, new_client_tls_config, new_server_tls_config,
}
use malon.Auth.Verifier.{IsKnown}
use malon.Auth.Handshake.{server_handshake}
use malon.Auth.Mutual.{relay_handshake_iff}
use malon.Manager.{MionPeer, Manager, PeerEntry, relay, known_peer_set, handle_incoming}
use malon.Manager.Entries.{known_peer_set_iff}
use malon.Manager.Switching.{active_of}
use malon.Manager.Conflicts.{handle_incoming-installs}

module _ ⦃c : Crypto⦄ {P : Type 0} ⦃mion : MionPeer P⦄ where
  -- handleIncoming as a whole, for a session that its envelope says is with `id`: the TLS configuration is made of
  -- all registered peers. `handshake` is NewRelayTunnelConnWithMTLS as the server, which gives a connection
  -- or fails.
  unfoldable pub handle_session :
      Moment → Bytes → (TlsConfig → Option ℕ) → Bytes → Manager P → Manager P
  handle_session at_ priv handshake id m = elim (lookup id m.peers) [
    | none ↦ m
    | some e ↦ elim (new_server_tls_config at_ priv (known_peer_set m)) [
      | err x ↦ m
      | ok cfg ↦ handle_incoming (handshake cfg) id m
    ]
  ]

  -- handleIncoming checks the client's key against all registered peers, not against the peer of the session, which
  -- is what the envelope said: if the certificates can be made, the client knows this node, and the
  -- handshake gives a connection wherever TLS lets the client in, then any registered peer gets one for
  -- a session in the name of any other, `id`, whose packets then go to it.
  pub handle_session-any_peer :
      (roots : List Bytes → Option Error) (m_a m_b : Moment) (priv_a priv : Bytes)
      (known_a : PeerSet) (client server : TlsConfig) (handshake : TlsConfig → Option ℕ) (conn : ℕ)
      (id : Bytes) (e_a e : PeerEntry P) (m : Manager P)
      → lookup (peer_id_from_public_key (c.public_of priv_a)) m.peers ≡ some e_a
      → lookup id m.peers ≡ some e
      → new_client_tls_config m_a priv_a known_a ≡ ok client
      → new_server_tls_config m_b priv (known_peer_set m) ≡ ok server
      → IsKnown known_a (c.public_of priv)
      → ((cfg : TlsConfig)
          → server_handshake roots client cfg ≡ ok alpn_malon_relay
          → handshake cfg ≡ some conn)
      → active_of (lookup id (handle_session m_b priv handshake id m).peers) ≡ some (relay conn)
  unfolding handle_session
  handle_session-any_peer roots m_a m_b priv_a priv known_a client server handshake conn id e_a e m
        here there made made' knows ends =
      let id_a = peer_id_from_public_key (c.public_of priv_a) in
      let (_, both) =
        relay_handshake_iff roots m_a m_b priv_a priv known_a (known_peer_set m) client server made
          made' in
      let in_ : handshake server ≡ some conn =
        ends server (both.1 (knows, (known_peer_set_iff id_a m).1 (e_a, here))) in
      let same : handle_session m_b priv handshake id m ≡ handle_incoming (some conn) id m =
        rw (there, handle_session, made', in_) refl in
      rw same ((handle_incoming-installs conn id e m there).0)
