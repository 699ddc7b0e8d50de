-- ===== src/Tests/Codecs/Listeners.antt =====
-- The listener of a node that knows two peers.
use malon.Base.{true, ◌≡◌, ◌↔◌, refl, Option, none, some, [], ◌∷◌, List, Result, ok, err}
use malon.Base.Keys.{bytes_eq, lookup}
use malon.Identity.{peer_id_from_public_key, self_signed_cert}
use malon.Auth.{
  alpn_malon_probe, alpn_h3, new_probe_client_tls_config, new_direct_client_tls_config,
  new_probe_server_tls_config, self_cert,
}
use malon.Auth.Handshake.{server_handshake}
use malon.Manager.{PeerEntry, PeerPath}
use malon.Startup.{Routine, accepting_probes}
use malon.Startup.Listening.{start_run}
use malon.Direct.Listening.{Listener, Udp, listen_config, new_listener}
use malon.Direct.Listening.Admitting.{start_run-admits}
use malon.Tests.Codecs.{plain}
use malon.Tests.Codecs.Peers.{key_a, key_b, id_of, made, knows_both, moment, no_roots}

abbrev udp : Udp
udp = record { listen_udp = ok 4242; listen = λ cfg quic. none }

abbrev listening : Result Listener → Listener
listening (ok l) = l
listening (err e) = record {
  tls_config = made (err e);
  quic_config = listen_config;
  local_port = 0;
  self_priv = [];
}

abbrev of_b : Listener
of_b = listening (start_run moment key_b udp knows_both).listener

start_run-admits_example :
    (let Agrees =
        (peer_id_from_public_key key_b ≡ id_of key_b)
        × ((e : PeerEntry (Option PeerPath)) × (lookup
                (peer_id_from_public_key key_a)
                knows_both.peers
              ≡ some e)) in
      ((server_handshake no_roots
            (made (new_probe_client_tls_config moment key_a (id_of key_b)))
            of_b.tls_config
          ≡ ok alpn_malon_probe)
        ↔ Agrees)
      × ((server_handshake no_roots
              (made (new_direct_client_tls_config moment key_a (id_of key_b)))
              of_b.tls_config
            ≡ ok alpn_h3)
          ↔ Agrees)
      × ((start_run moment key_b udp knows_both).manager.has_direct_ln ≡ true)
      × ((rest : List Routine) × ((start_run moment key_b udp knows_both).routines
            ≡ accepting_probes ∷ rest)))
unfolding start_run new_listener new_probe_client_tls_config new_direct_client_tls_config
    new_probe_server_tls_config self_cert self_signed_cert plain
start_run-admits_example =
    start_run-admits no_roots knows_both moment moment key_a key_b (id_of key_b) udp of_b
      (made (new_probe_client_tls_config moment key_a (id_of key_b)))
      (made (new_direct_client_tls_config moment key_a (id_of key_b))) refl refl refl
