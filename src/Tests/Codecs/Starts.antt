-- ===== src/Tests/Codecs/Starts.antt =====
-- Runs of main, of Connect and of the manager's loops.
use malon.Base.{
  ℕ, suc, replicate, ◌<◌, ◌≡◌, refl, ap, true, false, [], ◌∷◌, Bytes, String, Option, none, some,
  List, eof, Result, ok, err, All, length, arith,
}
use malon.Base.Keys.{bytes_eq, bytes_beq, lookup, insert, delete}
use malon.Chan.{make_chan, receive}
use malon.Words.{Text, trim_space}
use malon.Config.{Config, empty_interface}
use malon.Daemon.{self_priv, parse_mion_listen_endpoints}
use malon.Identity.{peer_id_from_public_key}
use malon.Manager.{Manager, PeerPath, register_peer, get_or_create_proxy}
use malon.Startup.{new_manager, run}
use malon.Startup.Relays.{loop_count}
use malon.Malond.{Outside, Events, ctx_done, main, prepare, add_each, add_one}
use malon.Malond.Registered.{IsRegistered}
use malon.Malond.Loops.{main-IsRegistered}
use malon.Auth.{TlsConfig}
use malon.Proxy.{Proxy, Conn, new_proxy}
use malon.Proxy.Owned.{new_proxy-IsOwned}
use malon.Proxy.Validity.{IsValid, new_proxy-IsValid}
use malon.Backoff.{second}
use malon.Connecting.{Http, Http2Transport, Response}
use malon.Reconnect
use malon.Reconnect.{Attempt, watching, connect_rounds}
use malon.Reconnect.Uncrashed.{connect_rounds-end}
use malon.Connecting.Returned.{Left, connect-Left}
use malon.Probing.{Prober}
use malon.Tunnel.{
  new_relay_tunnel_conn, RelayTunnelConn, Tls, read_control, tunnel_close,
  new_relay_tunnel_conn_with_mtls, close_capsule,
}
use malon.Tunnel.Steps.{begins, followed_by, closed}
use malon.Loops.{running, control_read_loop}
use malon.Loops.Endless.{control_read_loop-running}
use malon.Tests.{buffer, option_peer, peer_b}
use malon.Tests.Codecs.{plain, numbers_json, letters_netip}
use malon.Tests.Codecs.Peers.{key_a, id_of, made, knows_both}

-- Two peers at one relay, on a client's node; a key is its own text.
abbrev two_peers : Config
two_peers = record {
  interface = record empty_interface { private_key = replicate 64 9 };
  peers =
      record { public_key = 1 ∷ []; relay = 120 ∷ []; allowed_ips = [] }
      ∷ record { public_key = 2 ∷ []; relay = 120 ∷ []; allowed_ips = [] }
      ∷ [];
}

abbrev relay_of : Text → String
relay_of [] = ""
relay_of (c ∷ s) = "https://relay"

abbrev outside : Outside ℕ (Option PeerPath)
outside = record {
  decode = λ s. ok s;
  new_key_from_seed = λ b. b;
  parsers = record {
    url_parse = λ s. err eof;
    to_lower = λ s. s;
    split_host_port = λ s. err eof;
    atoi = λ s. err eof;
  };
  string_of = relay_of;
  new_mion = λ c. ok 0;
  make_peer = λ raw ips. none;
  add_peer = λ p n. ok (suc n);
}

abbrev until_signal : Events
until_signal = record { at_once = none; first = none; last = ctx_done }

abbrev managed : Option (Manager (Option PeerPath)) → Manager (Option PeerPath)
managed none = new_manager true ""
managed (some m) = m

main-IsRegistered_example :
    (let m = managed (main outside (ok two_peers) until_signal).manager in
      (length m.peers ≡ 2)
      × All (IsRegistered outside m) two_peers.peers
      × (loop_count "https://relay" (run (err eof) m).1 ≡ 1))
unfolding main prepare self_priv parse_mion_listen_endpoints trim_space bytes_beq add_each add_one
    register_peer new_manager get_or_create_proxy lookup insert delete peer_id_from_public_key plain
main-IsRegistered_example =
    main-IsRegistered outside two_peers until_signal (err eof)
      (managed (main outside (ok two_peers) until_signal).manager) "https://relay" refl

-- A relay that accepts the request and closes the stream.
abbrev http : Http Bytes
http = record {
  url_parse = λ s. ok "https";
  new_request = λ s. none;
  round_trip = λ t s id.
      ok (record { status_code = 200; body = record { bytes = []; ending = eof }; pw = [] });
}

response_body :
    (t r : Response Bytes)
    → ◌≡◌ {A = Result (Response Bytes)} (ok t) (ok r)
    → length t.body.bytes < 1
    → length r.body.bytes < 1
response_body t r h l =
    let same : t ≡ r = cc h in
    omega (arith, l, ap (λ (x : Response Bytes). length x.body.bytes) same)

abbrev new : Proxy Bytes
new = new_proxy peer_b (make_chan 64) (make_chan 16)

connect-Left_example : Left http 1 "https://relay" false new
unfolding new_proxy
connect-Left_example =
    connect-Left http 1 "https://relay" false new (λ t r h. response_body _ r h (omega arith)) refl
      (new_proxy-IsValid peer_b (make_chan 64) (make_chan 16) refl refl)
      (new_proxy-IsOwned Bytes peer_b (make_chan 64) (make_chan 16))

abbrev config : TlsConfig
config = made (err eof)

-- A handshake that succeeds over an empty stream.
abbrev tls : Tls Bytes
tls = record {
  client = λ c conn.
      ok (record { rd = record { bytes = []; ending = eof }; wr = []; shut = λ w. (w, none) });
  server = λ c conn.
      ok (record { rd = record { bytes = []; ending = eof }; wr = []; shut = λ w. (w, none) });
}

abbrev session : Conn
session = record {
  session_id = 1;
  peer_id = peer_b;
  recv_ch = 0;
  read_buf = [];
  read_deadline = none;
}

abbrev tunnel_of : Result (RelayTunnelConn Bytes) → RelayTunnelConn Bytes
tunnel_of (ok t) = t
tunnel_of (err e) =
    new_relay_tunnel_conn
      (record { rd = record { bytes = []; ending = e }; wr = []; shut = λ w. (w, none) }) session

abbrev tunnel : RelayTunnelConn Bytes
tunnel = tunnel_of (new_relay_tunnel_conn_with_mtls tls true config session)

abbrev prober : Prober (Option PeerPath)
prober = record {
  manager = knows_both;
  has_ctx = true;
  validated = [];
  probe_cooldown = [];
  probes = [];
  promotions = [];
}

-- The tunnel is closed, and its loop still waits.
control_read_loop-running_example :
    control_read_loop (id_of key_a) ((λ i. i, read_control (tunnel_close tunnel).0) ∷ []) prober
    ≡ running prober
unfolding new_relay_tunnel_conn_with_mtls read_control tunnel_close close_capsule receive
control_read_loop-running_example =
    control_read_loop-running (id_of key_a) ((λ i. i, read_control (tunnel_close tunnel).0) ∷ [])
      prober
      (
        (
          (tunnel_close tunnel).0,
          followed_by (begins tls true config session tunnel refl) (closed tunnel),
          refl,
        ),
        tt,
      )

-- The relay closes the connection twice; at the second time the context is done.
abbrev attempts : List (Attempt Bytes)
attempts =
    record { http = http; noticed = true; cancelled = none }
    ∷ record { http = http; noticed = true; cancelled = some watching }
    ∷ []

abbrev probing : Prober (Option PeerPath)
probing = record {
  manager = new_manager true "https://relay";
  has_ctx = true;
  validated = [];
  probe_cooldown = [];
  probes = [];
  promotions = [];
}

connect_rounds-end_example :
    (l : Reconnect.Loop Bytes (Option PeerPath)) × (connect_rounds 1 "https://relay" false attempts
        true second
        (record { waits = []; proxy = new; prober = probing; returned = false })
      ≡ some l)
    × IsValid l.proxy
    × (l.returned ≡ true)
unfolding new_proxy
connect_rounds-end_example =
    connect_rounds-end 1 "https://relay" false attempts new probing (enough, (enough, tt))
      (new_proxy-IsValid peer_b (make_chan 64) (make_chan 16) refl refl)
      (new_proxy-IsOwned Bytes peer_b (make_chan 64) (make_chan 16)) refl
  where
    enough :
        (t : Http2Transport) (u id : String) (r : Response Bytes)
        → http.round_trip t u id ≡ ok r
        → length r.body.bytes < 1
    enough t u id r h = response_body _ r h (omega arith)
