-- ===== src/Direct/Listening.antt =====
-- internal/direct/listener.go: New, LocalPort and Close; internal/direct/dial.go: the methods of DirectConn. The socket
-- and the calls of quic-go and connect-ip-go give a result as an argument.
pub mod Admitting
use malon.Base.{
  ℕ, ◌%◌, ◌^◌, Bool, true, Option, none, some, List, [], ◌∷◌, Bytes, Error, wrap, Result, ok, err,
}
use malon.Identity.{Crypto}
use malon.Auth.{Moment, PeerSet, TlsConfig, new_probe_server_tls_config}

-- quic.Config; times are in nanoseconds.
pub record QuicConfig : Type 0 where
  pub enable_datagrams : Bool
  pub max_idle_timeout : ℕ

abbrev pub listen_config : QuicConfig
listen_config = record { enable_datagrams = true; max_idle_timeout = 15000000000 }

-- The TLS and QUIC configurations are those of its quic.Listener.
pub record Listener : Type 0 where
  pub tls_config : TlsConfig
  pub quic_config : QuicConfig
  pub local_port : ℕ
  pub self_priv : Bytes

-- net.ListenUDP, which gives a socket by its port, and the transport's Listen
pub record Udp : Type 0 where
  pub listen_udp : Result ℕ
  pub listen : TlsConfig → QuicConfig → Option Error

-- What New and Close do with the socket, the listener and the transport, the latest first.
pub data Call : Type 0 where
  listen_udp listen close_listener close_transport : Call

module _ ⦃c : Crypto⦄ where
  -- The end of New, from the transport's Listen on.
  abbrev pub listened :
      Bytes → TlsConfig → ℕ → Option Error → List Call → Result Listener × List Call
  listened priv cfg port (some e) calls =
      (err (wrap "direct: listen QUIC" e), close_transport ∷ listen ∷ calls)
  listened priv cfg port none calls = (
    ok (record {
      tls_config = cfg;
      quic_config = listen_config;
      local_port = port % 2 ^ 16;
      self_priv = priv;
    }),
    listen ∷ calls,
  )

  abbrev pub bound : Bytes → TlsConfig → Udp → Result ℕ → Result Listener × List Call
  bound priv cfg udp (err e) = (err (wrap "direct: listen UDP" e), listen_udp ∷ [])
  bound priv cfg udp (ok port) =
      listened priv cfg port (udp.listen cfg listen_config) (listen_udp ∷ [])

  abbrev pub configured : Bytes → Udp → Result TlsConfig → Result Listener × List Call
  configured priv udp (err e) = (err (wrap "direct: build TLS config" e), [])
  configured priv udp (ok cfg) = bound priv cfg udp udp.listen_udp

  -- New
  unfoldable pub new_listener : Moment → Bytes → PeerSet → Udp → Result Listener × List Call
  new_listener at_ priv known udp = configured priv udp (new_probe_server_tls_config at_ priv known)

-- Close, with what the transport's Close gives; the listener's own error is dropped.
unfoldable pub listener_close : Option Error → List Call → Option Error × List Call
listener_close closed calls = (closed, close_transport ∷ close_listener ∷ calls)

-- connectip.Conn, with a state of its own
pub record IpConn (S : Type 0) : Type 0 where
  pub read : ℕ → S → S × Result Bytes
  pub write : Bytes → S → S × Result Bytes
  pub close : S → S × Option Error

abbrev pub error_of : Result Bytes → Option Error
error_of (err e) = some e
error_of (ok b) = none

module _ {S : Type 0} (inner : IpConn S) where
  -- ReadPacket, WritePacket, which drops what Write gives besides the error, and Close
  unfoldable pub direct_read_packet : ℕ → S → S × Result Bytes
  direct_read_packet size s = inner.read size s

  unfoldable pub direct_write_packet : Bytes → S → S × Option Error
  direct_write_packet pkt s = let (s', r) = inner.write pkt s in (s', error_of r)

  unfoldable pub direct_close : S → S × Option Error
  direct_close s = inner.close s
