-- ===== src/Tunnel.antt =====
-- internal/h2proxy/relay_conn.go, with newCapsuleConn and Close of internal/h2proxy/capsule.go: a tunnel of packets and
-- control messages over a session, and the loops that read it (forwardConnToTUN and controlReadLoop of
-- internal/manager/manager.go). The handshake of crypto/tls is an argument.
pub mod Control
pub mod Steps
pub mod Packets
pub mod Arrivals
use malon.Base.{
  ℕ, zero, suc, Bool, true, false, Option, none, some, List, [], ◌∷◌, Bytes, Error, eof, Result, ok,
  err, wrapping, ◌>>=◌, if◌then◌else◌, length,
}
use malon.Io.{Stream, Writer}
use malon.Chan.{Chan, make_chan, Receiving, received, at_end, waits, receive}
use malon.Auth.{TlsConfig}
use malon.Proxy.{Conn}
use malon.Capsule.{CapsuleReader, Read, got, lost, read_packet, write_packet, write_control}

-- A `net.Conn` as the capsules use it: what will still arrive, where it writes to, and what its `Close` does.
pub record NetConn (W : Type 0) : Type 0 where
  pub rd : Stream
  pub wr : W
  pub shut : W → W × Option Error

-- capsuleConn; the state of its reader holds `ctrlCh`.
pub record CapsuleConn (W : Type 0) : Type 0 where
  pub reader : CapsuleReader
  pub wr : W
  pub shut : Option (W → W × Option Error)

-- RelayTunnelConn. Its `ctrlCh` is the channel of its capsuleConn: both are given the same one.
pub record RelayTunnelConn (W : Type 0) : Type 0 where
  pub conn : Conn
  pub capsule : CapsuleConn W

-- `tls.Client(envConn, tlsCfg)` and `tls.Server(envConn, tlsCfg)`, each with its `HandshakeContext`, which gives a
-- connection or an error.
pub record Tls (W : Type 0) : Type 0 where
  pub client : TlsConfig → Conn → Result (NetConn W)
  pub server : TlsConfig → Conn → Result (NetConn W)

abbrev pub ctrl_capacity : ℕ
ctrl_capacity = 16

-- What a call of ReadControl gives; `blocked` is one that still waits.
pub data ControlRead (W : Type 0) : Type 0 where
  payload : Bytes → RelayTunnelConn W → ControlRead W
  ended : Error → ControlRead W
  blocked : ControlRead W

module _ {W : Type 0} where
  -- newCapsuleConn
  abbrev pub new_capsule_conn : NetConn W → Option (Chan Bytes) → CapsuleConn W
  new_capsule_conn io ctrl_ch = record {
    reader = record { rd = io.rd; ctrl_ch = ctrl_ch };
    wr = io.wr;
    shut = some io.shut;
  }

  -- capsuleConn.Close
  unfoldable pub close_capsule : CapsuleConn W → CapsuleConn W × Option Error
  close_capsule c = elim c.shut [
    | none ↦ (c, none)
    | some f ↦ let (w, e) = f c.wr in (record c { wr = w }, e)
  ]

  -- NewRelayTunnelConn, over the session itself
  unfoldable pub new_relay_tunnel_conn : NetConn W → Conn → RelayTunnelConn W
  new_relay_tunnel_conn env_conn c = record { conn = c; capsule = new_capsule_conn env_conn none }

  -- NewRelayTunnelConnWithMTLS
  unfoldable pub new_relay_tunnel_conn_with_mtls :
      Tls W → Bool → TlsConfig → Conn → Result (RelayTunnelConn W)
  new_relay_tunnel_conn_with_mtls tls is_client tls_cfg c = do
    io ←
        wrapping "h2proxy: inner mTLS handshake"
          (if is_client then tls.client tls_cfg c else tls.server tls_cfg c)
    ok (record { conn = c; capsule = new_capsule_conn io (some (make_chan ctrl_capacity)) })

  abbrev pub with_reader : CapsuleReader → RelayTunnelConn W → RelayTunnelConn W
  with_reader r t = record t { capsule = record t.capsule { reader = r } }

  -- After an error only the control channel is kept.
  abbrev pub after_packet : RelayTunnelConn W → Read → RelayTunnelConn W × Result Bytes
  after_packet t (got r p) = (with_reader r t, ok p)
  after_packet t (lost ch e) = (with_reader (record t.capsule.reader { ctrl_ch = ch }) t, err e)

  -- ReadPacket, into a buffer of `size` bytes
  unfoldable pub tunnel_read_packet :
      ℕ → RelayTunnelConn W → Option (RelayTunnelConn W × Result Bytes)
  tunnel_read_packet size t = elim (read_packet size t.capsule.reader) [
    | none ↦ none
    | some r ↦ some (after_packet t r)
  ]

  -- ReadControl: a receive from a nil channel waits for ever.
  abbrev pub control_received : RelayTunnelConn W → Receiving Bytes → ControlRead W
  control_received t (received b ch) =
      payload b (with_reader (record t.capsule.reader { ctrl_ch = some ch }) t)
  control_received t at_end = ended eof
  control_received t waits = blocked

  unfoldable pub read_control : RelayTunnelConn W → ControlRead W
  read_control t = elim t.capsule.reader.ctrl_ch [
    | none ↦ blocked
    | some ch ↦ control_received t (receive ch)
  ]

  -- Close
  unfoldable pub tunnel_close : RelayTunnelConn W → RelayTunnelConn W × Option Error
  tunnel_close t = let (c, e) = close_capsule t.capsule in (record t { capsule = c }, e)

  -- The loop of forwardConnToTUN: the packets that it reads until ReadPacket fails, into a buffer of the size
  -- of the device's MTU, and the error that ends it.
  unfoldable pub read_packets :
      ℕ → ℕ → RelayTunnelConn W → Option (List Bytes × RelayTunnelConn W × Error)
  read_packets zero mtu t = none
  read_packets (suc fuel) mtu t = elim (tunnel_read_packet mtu t) [
    | none ↦ none
    | some (t', err e) ↦ some ([], t', e)
    | some (t', ok p) ↦ elim (read_packets fuel mtu t') [
      | none ↦ none
      | some (ps, t'', e) ↦ some (p ∷ ps, t'', e)
    ]
  ]

  abbrev pub written : RelayTunnelConn W → W × Option Error → RelayTunnelConn W × Option Error
  written t (w, e) = (record t { capsule = record t.capsule { wr = w } }, e)

module _ {W : Type 0} ⦃wr : Writer W⦄ where
  -- WritePacket
  unfoldable pub tunnel_write_packet : Bytes → RelayTunnelConn W → RelayTunnelConn W × Option Error
  tunnel_write_packet pkt t = written t (write_packet t.capsule.wr pkt)

  -- WriteControl
  unfoldable pub tunnel_write_control : Bytes → RelayTunnelConn W → RelayTunnelConn W × Option Error
  tunnel_write_control b t = written t (write_control t.capsule.wr b)
