-- ===== src/Tests/Codecs/Peers.antt =====
-- Runs of the handshakes, and of the direct connections.
use malon.Base.{
  String, ap, ◌<◌, ℕ, ◌≡◌, ◌↔◌, refl, true, false, Bytes, [], ◌∷◌, ◌++◌, Option, none, some, List,
  Error, errorf, Result, ok, err, length, take, replicate,
}
use malon.Base.Keys.{bytes_eq, bytes_beq, lookup}
use malon.Identity.{ed25519, peer_id_from_public_key, self_signed_cert}
use malon.Auth.{
  PeerSet, TlsConfig, Moment, alpn_malon_relay, alpn_malon_probe, alpn_h3, self_cert,
  new_client_tls_config, new_server_tls_config, new_probe_client_tls_config,
  new_direct_client_tls_config, new_probe_server_tls_config, no_client_cert,
}
use malon.Auth.Verifier.{IsKnown}
use malon.Auth.Handshake.{client_handshake, server_handshake}
use malon.Auth.Mutual.{relay_handshake_iff, direct_handshake_iff}
use malon.Packet.{v4}
use malon.Direct.{
  QuicConn, probe_event, Dialled, ValidatedTransport, accept, handle_conn, handle_connect,
  handle_probe, peer_id_from_conn, probe,
}
use malon.Direct.Accepting.{Yields, own_close, closed_all, accept-event}
use malon.Direct.Dialing.{Proves, probe_iff}
use malon.Manager.{Manager, PeerEntry, PeerPath, relay, known_peer_set}
use malon.Manager.Switching.{active_of}
use malon.Manager.Impersonation.{handle_session, handle_session-any_peer}
use malon.Inbound.{stuck, probe_accept_loop}
use malon.Inbound.Hanging.{probe_accept_loop-stuck}
use malon.Tests.{option_peer}
use malon.Tests.Codecs.{plain}

abbrev pub moment : Moment
moment = record { random = ok 7; now = 0 }

abbrev pub key_a : Bytes
key_a = 1 ∷ []

abbrev pub key_b : Bytes
key_b = 2 ∷ []

abbrev pub id_of : Bytes → Bytes
id_of k = take 32 (k ++ replicate 32 0)

abbrev knows_a : PeerSet
knows_a = (id_of key_a, tt) ∷ []

abbrev knows_b : PeerSet
knows_b = (id_of key_b, tt) ∷ []

-- The configuration of a successful call.
abbrev pub made : Result TlsConfig → TlsConfig
made (ok t) = t
made (err e) = record {
  certificates = [];
  client_auth = no_client_cert;
  insecure_skip_verify = false;
  min_version = 0;
  next_protos = [];
  verify_peer_certificate = λ _. none;
  curve_preferences = [];
}

abbrev pub no_roots : List Bytes → Option Error
no_roots raw = some (errorf "unknown authority")

relay_handshake_iff_example :
    (let client = made (new_client_tls_config moment key_a knows_b) in
      let server = made (new_server_tls_config moment key_b knows_a) in
      ((client_handshake no_roots client server ≡ ok alpn_malon_relay) ↔ IsKnown knows_b key_b)
      × ((server_handshake no_roots client server ≡ ok alpn_malon_relay)
          ↔ (IsKnown knows_b key_b × IsKnown knows_a key_a)))
unfolding new_client_tls_config new_server_tls_config self_cert self_signed_cert plain
relay_handshake_iff_example =
    relay_handshake_iff no_roots moment moment key_a key_b knows_b knows_a
      (made (new_client_tls_config moment key_a knows_b))
      (made (new_server_tls_config moment key_b knows_a)) refl refl

direct_handshake_iff_example :
    (let probing = made (new_probe_client_tls_config moment key_a (id_of key_b)) in
      let client = made (new_direct_client_tls_config moment key_a (id_of key_b)) in
      let server = made (new_probe_server_tls_config moment key_b knows_a) in
      let Agrees = (peer_id_from_public_key key_b ≡ id_of key_b) × IsKnown knows_a key_a in
      ((server_handshake no_roots probing server ≡ ok alpn_malon_probe) ↔ Agrees)
      × ((server_handshake no_roots client server ≡ ok alpn_h3) ↔ Agrees))
unfolding new_probe_client_tls_config new_direct_client_tls_config new_probe_server_tls_config
    self_cert self_signed_cert plain
direct_handshake_iff_example =
    direct_handshake_iff no_roots moment moment key_a key_b (id_of key_b) knows_a
      (made (new_probe_client_tls_config moment key_a (id_of key_b)))
      (made (new_direct_client_tls_config moment key_a (id_of key_b)))
      (made (new_probe_server_tls_config moment key_b knows_a)) refl refl refl

abbrev pub entry : PeerEntry (Option PeerPath)
entry = record {
  peer = none;
  relay_url = "https://relay";
  relay_conn = none;
  has_direct_path = false;
  retrying_conn = false;
}

-- A node that knows A and B, while A opens a session in the name of B.
abbrev pub knows_both : Manager (Option PeerPath)
knows_both = record {
  is_client = false;
  has_direct_ln = true;
  peers = (id_of key_a, entry) ∷ (id_of key_b, entry) ∷ [];
  proxies = [];
  generation = 0;
  closed = [];
  started = [];
  retries = λ _. 0;
  crashed = false;
}

abbrev key_c : Bytes
key_c = 3 ∷ []

abbrev knows_c : PeerSet
knows_c = (id_of key_c, tt) ∷ []

-- TLS as the server, for a client with the key of A.
abbrev tls_conn : Result String → Option ℕ
tls_conn (ok protocol) = some 4
tls_conn (err e) = none

abbrev tls_server : TlsConfig → Option ℕ
tls_server cfg =
    tls_conn (server_handshake no_roots (made (new_client_tls_config moment key_a knows_c)) cfg)

handle_session-any_peer_example :
    active_of
      (lookup (id_of key_b) (handle_session moment key_c tls_server (id_of key_b) knows_both).peers)
    ≡ some (relay 4)
unfolding new_client_tls_config new_server_tls_config self_cert self_signed_cert plain
    peer_id_from_public_key lookup bytes_beq
handle_session-any_peer_example =
    handle_session-any_peer no_roots moment moment key_a key_c knows_c
      (made (new_client_tls_config moment key_a knows_c))
      (made (new_server_tls_config moment key_c (known_peer_set knows_both))) tls_server 4
      (id_of key_b) entry entry knows_both refl refl refl refl refl (λ cfg h. ap tls_conn h)

abbrev conn_a : QuicConn
conn_a = record {
  number = 1;
  alpn = alpn_malon_probe;
  peer_certificates = record { public_key = ed25519 key_a } ∷ [];
  remote_addr = v4 (192 ∷ 0 ∷ 2 ∷ 1 ∷ []);
  remote_port = 4000;
  request = none;
}

-- A connection for data that sends no request, and one of no protocol.
abbrev silent_conn : QuicConn
silent_conn = record conn_a { number = 2; alpn = alpn_h3 }

abbrev odd_conn : QuicConn
odd_conn = record conn_a { number = 3; alpn = "other" }

accept-event_example :
    (before : List QuicConn) × (q : QuicConn) × (odd_conn ∷ conn_a ∷ silent_conn ∷ []
      ≡ before ++ q ∷ silent_conn ∷ [])
    × Yields q (probe_event (id_of key_a) (v4 (192 ∷ 0 ∷ 2 ∷ 1 ∷ [])) 4000)
    × ((1, 0) ∷ (3, 1) ∷ []
        ≡ own_close q
            (probe_event (id_of key_a) (v4 (192 ∷ 0 ∷ 2 ∷ 1 ∷ [])) 4000)
            (closed_all before []))
unfolding accept handle_conn handle_probe handle_connect peer_id_from_conn peer_id_from_public_key
    plain
accept-event_example =
    accept-event (odd_conn ∷ conn_a ∷ silent_conn ∷ []) (silent_conn ∷ []) [] ((1, 0) ∷ (3, 1) ∷ [])
      (probe_event (id_of key_a) (v4 (192 ∷ 0 ∷ 2 ∷ 1 ∷ [])) 4000) refl

probe_accept_loop-stuck_example :
    (m' : Manager (Option PeerPath)) × (closes' : List (ℕ × ℕ)) × ((rest : List QuicConn) (fuel : ℕ)
      → length (conn_a ∷ []) < fuel
      → probe_accept_loop fuel ((conn_a ∷ []) ++ silent_conn ∷ rest) [] knows_both
        ≡ some (stuck m' closes'))
unfolding peer_id_from_conn
probe_accept_loop-stuck_example =
    probe_accept_loop-stuck silent_conn (peer_id_from_public_key key_a) refl refl refl (conn_a ∷ [])
      [] knows_both

abbrev pub dialled_b : Dialled
dialled_b = record {
  number = 5;
  peer_certificates = record { public_key = ed25519 key_b } ∷ [];
  elapsed = 1000;
}

abbrev transport_b : ValidatedTransport
transport_b = record {
  remote_addr = v4 (192 ∷ 0 ∷ 2 ∷ 2 ∷ []);
  remote_port = 4000;
  peer_id = id_of key_b;
  rtt = 1000;
}

probe_iff_example :
    (let made = new_probe_client_tls_config moment key_a (id_of key_b) in
      let r =
        probe moment key_a (v4 (192 ∷ 0 ∷ 2 ∷ 2 ∷ [])) 4000 (id_of key_b) (λ t. ok dialled_b) [] in
      (r.1 ≡ (5, 0) ∷ [])
      × ((r.0 ≡ ok transport_b) ↔ (
          (t : TlsConfig) × (d : Dialled) × (made ≡ ok t)
          × (ok dialled_b ≡ ok d)
          × Proves (id_of key_b) d.peer_certificates
          × (transport_b ≡ record {
            remote_addr = v4 (192 ∷ 0 ∷ 2 ∷ 2 ∷ []);
            remote_port = 4000;
            peer_id = id_of key_b;
            rtt = d.elapsed;
          }))))
unfolding new_probe_client_tls_config self_cert self_signed_cert plain
probe_iff_example =
    probe_iff moment key_a (v4 (192 ∷ 0 ∷ 2 ∷ 2 ∷ [])) 4000 (id_of key_b) (λ t. ok dialled_b) []
      transport_b
