-- ===== src/Tests/Tunnel.antt =====
-- Runs of the capsule codec and the tunnel, and of the goroutines between a connection and the TUN device.
use malon.Base.{
  wrap, true, ◌≡◌, false, ◌↔◌, refl, Bytes, [], ◌∷◌, ◌++◌, Option, none, some, eof, arith, List,
  replicate, ok, err,
}
use malon.Io.{read_full}
use malon.Chan.{Chan}
use malon.Capsule.{
  write_packet, write_control, read_packet, read_loop, read_round, read_body, read_varint,
  more_bytes,
}
use malon.Proxy.{Conn}
use malon.Tunnel.{
  RelayTunnelConn, read_packets, tunnel_read_packet, tunnel_write_packet, tunnel_write_control,
}
use malon.Tunnel.Packets.{Message, ip, control, packets_of, send_all, AllSent}
use malon.Tunnel.Arrivals.{read_packets-send_all}
use malon.Candidate.{Candidate, Interface, embedded, collect_embedded}
use malon.Candidate.Collected.{Holds, HasAddr, IsUsable, collect_embedded_iff}
use malon.Packet.{Prefix, v4}
use malon.Manager.{relay_closed, direct_closed}
use malon.Forwarding.{Forwarded, run_relay, run_direct}
use malon.Forwarding.Delivered.{Filtered, run_relay-send_all, run_direct-run_relay}
use malon.Tests.{buffer, option_peer, peer_a, peer_b}
use malon.Tests.Paths.{on_relay}

abbrev queue : Option (Chan Bytes)
queue = some (record { buf = []; capacity = 16; is_closed = false })

-- A session to peer B, on which nothing has been read.
abbrev to_b : Conn
to_b = record { session_id = 1; peer_id = peer_b; recv_ch = 0; read_buf = []; read_deadline = none }

abbrev pub over : Bytes → Option (Chan Bytes) → RelayTunnelConn Bytes
over bytes ctrl_ch = record {
  conn = to_b;
  capsule = record {
    reader = record { rd = record { bytes = bytes; ending = eof }; ctrl_ch = ctrl_ch };
    wr = [];
    shut = none;
  };
}

abbrev sent_messages : List Message
sent_messages = ip (69 ∷ 1 ∷ []) ∷ control (5 ∷ 6 ∷ []) ∷ ip (96 ∷ []) ∷ []

abbrev other_end : RelayTunnelConn Bytes
other_end = over (buffer.out (send_all sent_messages (over [] none)).capsule.wr) queue

sent_messages-AllSent : AllSent sent_messages (over [] none)
unfolding AllSent tunnel_write_packet tunnel_write_control write_packet write_control
sent_messages-AllSent = (refl, (refl, (refl, tt)))

read_packets-send_all_example :
    (r' : RelayTunnelConn Bytes) × (ch' : Chan Bytes) × (read_packets 4 1500 other_end
      ≡ some ((69 ∷ 1 ∷ []) ∷ (96 ∷ []) ∷ [], r', wrap "capsule: read type varint" eof))
    × (r'.capsule.reader.ctrl_ch ≡ some ch')
    × (ch'.buf ≡ (5 ∷ 6 ∷ []) ∷ [])
read_packets-send_all_example =
    read_packets-send_all 4 1500 sent_messages (over [] none) other_end
      (record { buf = []; capacity = 16; is_closed = false }) refl sent_messages-AllSent
      ((omega arith, omega arith), (omega arith, ((omega arith, omega arith), tt))) refl refl
      (omega arith) (omega arith)

-- The network 10.0.0.0/8, and a packet from 10.1.2.3.
abbrev allowed : List Prefix
allowed = record { addr = v4 (10 ∷ 0 ∷ 0 ∷ 0 ∷ []); bits = 8 } ∷ []

abbrev from_inside : Bytes
from_inside = 69 ∷ replicate 11 0 ++ (10 ∷ 1 ∷ 2 ∷ 3 ∷ replicate 4 0)

-- An interface with the addresses 192.168.0.7 and 127.0.0.1, and one that is down.
abbrev ifaces : List Interface
ifaces =
    record {
      flag_loopback = false;
      flag_up = true;
      addrs = some (some (192 ∷ 168 ∷ 0 ∷ 7 ∷ []) ∷ some (127 ∷ 0 ∷ 0 ∷ 1 ∷ []) ∷ []);
    }
    ∷ record { flag_loopback = false; flag_up = false; addrs = none }
    ∷ []

abbrev own : Candidate
own = embedded 4242 1 (v4 (192 ∷ 168 ∷ 0 ∷ 7 ∷ []))

collect_embedded_iff_example : Holds own (collect_embedded 4242 1 allowed ifaces) ↔ (
    (ip : Bytes) × HasAddr ip ifaces
    × IsUsable allowed ip own.addr
    × (own ≡ embedded 4242 1 own.addr))
collect_embedded_iff_example = collect_embedded_iff 4242 1 allowed own ifaces

-- A packet from 10.1.2.3, a control message, a keepalive and a packet from 11.1.2.3
abbrev mixed : List Message
mixed =
    ip from_inside
    ∷ control (5 ∷ 6 ∷ [])
    ∷ ip []
    ∷ ip (69 ∷ replicate 11 0 ++ (11 ∷ 1 ∷ 2 ∷ 3 ∷ replicate 4 0))
    ∷ []

mixed-AllSent : AllSent mixed (over [] none)
unfolding AllSent tunnel_write_packet tunnel_write_control write_packet write_control
mixed-AllSent = (refl, (refl, (refl, (refl, tt))))

abbrev mixed_end : RelayTunnelConn Bytes
mixed_end = over (buffer.out (send_all mixed (over [] none)).capsule.wr) queue

run_relay-send_all_example :
    (f : Forwarded) × (run_relay 5 1500 allowed 1 peer_a mixed_end on_relay
      ≡ some (f, relay_closed 1 peer_a on_relay))
    × Filtered allowed (packets_of mixed) f.device
    × (f.received ≡ 3)
run_relay-send_all_example =
    run_relay-send_all 5 1500 allowed 1 peer_a on_relay mixed (over [] none) mixed_end
      (record { buf = []; capacity = 16; is_closed = false }) refl mixed-AllSent
      (
        (omega arith, omega arith),
        (omega arith, ((omega arith, omega arith), ((omega arith, omega arith), tt))),
      )
      refl refl (omega arith) (omega arith)

run_direct-run_relay_example :
    (f : Forwarded) × (run_relay 2 1500 allowed 1 peer_a (over (0 ∷ 2 ∷ 69 ∷ 1 ∷ []) queue) on_relay
      ≡ some (f, relay_closed 1 peer_a on_relay))
    × (run_direct allowed 2 peer_a (ok (69 ∷ 1 ∷ []) ∷ err eof ∷ []) on_relay
        ≡ some (f, direct_closed 2 peer_a on_relay))
    × Filtered allowed ((69 ∷ 1 ∷ []) ∷ []) f.device
    × (f.received ≡ 1)
unfolding read_packets tunnel_read_packet read_packet read_loop read_round read_body read_varint
    more_bytes read_full
run_direct-run_relay_example =
    run_direct-run_relay 2 1500 allowed 1 2 peer_a on_relay (over (0 ∷ 2 ∷ 69 ∷ 1 ∷ []) queue) _
      ((69 ∷ 1 ∷ []) ∷ []) _ eof [] refl
