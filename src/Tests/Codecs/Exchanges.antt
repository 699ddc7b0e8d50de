-- ===== src/Tests/Codecs/Exchanges.antt =====
-- The candidates of a node, sent over a tunnel.
use malon.Base.{
  ◌≤◌, ◌≡◌, ◌≢◌, ◌↔◌, ◌⊎◌, refl, true, false, Bytes, [], ◌∷◌, Option, none, some, List, errorf, ok,
  err, arith, All, length, wrap, eof,
}
use malon.Chan.{make_chan}
use malon.Packet.{Addr, v4}
use malon.Candidate.{
  Interface, addr_from_slice, to4, is_loopback, is_link_local_unicast, collect_embedded,
  collect_addrs, contained_in,
}
use malon.Capsule.{max_capsule_len, write_control, write_capsule}
use malon.Manager.{PeerPath}
use malon.Probing.{Probe, Prober}
use malon.Probing.Own.{own_candidates, candidates_payload}
use malon.Probing.Considered.{Member, Allowed}
use malon.Probing.Exchange.{IsPrintable, Offered}
use malon.Tunnel.{RelayTunnelConn, read_packets, read_control, tunnel_write_control}
use malon.Loops.{running, control_read_loop}
use malon.Sending.{Host, stun_answer, all_candidates, send_candidates}
use malon.Sending.Across.{send_candidates-probes}
use malon.Tests.{buffer, option_peer}
use malon.Tests.Tunnel.{over}
use malon.Tests.Codecs.{plain, numbers_json, letters_netip, text_of, letters, put_text, put_infos}
use malon.Tests.Codecs.Peers.{key_b, id_of}
use malon.Tests.Codecs.Probes.{address, started}

abbrev ifaces : List Interface
ifaces =
    record { flag_loopback = false; flag_up = true; addrs = some (some (9 ∷ 0 ∷ 2 ∷ 7 ∷ []) ∷ []) }
    ∷ []

abbrev host : Host
host = record {
  listen_port = some 42;
  overlay = none;
  ifaces = some ifaces;
  query_from_transport = λ srv. ok (address, 40);
  query = λ srv. err (errorf "no answer");
}

host_IsPrintable : All IsPrintable (all_candidates host "" 1)
unfolding stun_answer own_candidates collect_embedded collect_addrs is_loopback
    is_link_local_unicast addr_from_slice to4 contained_in malon.Packet.allowed_ips_contains
host_IsPrintable = (
  ((refl, (omega arith, (omega arith, (omega arith, (omega arith, tt))))), omega arith),
  (((refl, (omega arith, (omega arith, (omega arith, (omega arith, tt))))), omega arith), tt),
)

host_candidates : all_candidates host "" 1 ≢ []
unfolding stun_answer own_candidates collect_embedded collect_addrs is_loopback
    is_link_local_unicast addr_from_slice to4 contained_in malon.Packet.allowed_ips_contains
host_candidates h = cc h

short_as : (x b : Bytes) → some x ≡ some b → length x ≤ max_capsule_len → length b ≤ max_capsule_len
short_as x b e l = let same : x ≡ b = cc e in rw same at (l)

host_payload :
    (b : Bytes)
    → candidates_payload 1 (all_candidates host "" 1) ≡ some b
    → length b ≤ max_capsule_len
unfolding stun_answer own_candidates collect_embedded collect_addrs is_loopback
    is_link_local_unicast addr_from_slice to4 contained_in malon.Packet.allowed_ips_contains
    candidates_payload malon.Control.encode text_of letters put_text put_infos numbers_json
    malon.Probing.Own.kind_string letters_netip
host_payload b e = short_as _ b e (omega arith)

host_sent : (send_candidates host "" 1 (over [] none)).1 ≡ none
unfolding stun_answer own_candidates collect_embedded collect_addrs is_loopback
    is_link_local_unicast addr_from_slice to4 contained_in malon.Packet.allowed_ips_contains
    candidates_payload malon.Control.encode send_candidates tunnel_write_control write_control
    write_capsule numbers_json
host_sent = refl

abbrev receiver : RelayTunnelConn Bytes
receiver = over (send_candidates host "" 1 (over [] none)).0.capsule.wr (some (make_chan 16))

send_candidates-probes_example :
    (r' : RelayTunnelConn Bytes) × (s' : Prober (Option PeerPath)) × (read_packets 2 1500 receiver
      ≡ some ([], r', wrap "capsule: read type varint" eof))
    × (control_read_loop (id_of key_b) ((λ i. i, read_control r') ∷ []) started ≡ running s')
    × ((q : Probe)
        → Member q s'.probes ↔ (
            Member q started.probes
            ⊎ ((true ≡ true)
                × Allowed (id_of key_b) q started
                × Offered (λ i. i) started q.addr q.port (all_candidates host "" 1))))
send_candidates-probes_example =
    send_candidates-probes 1500 1 (λ i. i) host "" (over [] none) receiver (make_chan 16)
      (id_of key_b) started (omega arith) host_candidates host_IsPrintable host_payload refl
      host_sent refl refl refl (omega arith)
