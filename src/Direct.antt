-- ===== src/Direct.antt =====
-- internal/direct/listener.go, internal/direct/dial.go and internal/h3path/h3path.go: direct QUIC
-- connections between peers. What quic-go and connect-ip-go answer is an argument.
pub mod Accepting
pub mod Dialing
pub mod Listening
use text.Mathlib.Text.{◌==◌ as str_eq}
use malon.Base.{
  ℕ, zero, suc, ◌%◌, ◌^◌, Bool, true, false, not, Option, none, some, List, [], ◌∷◌, Bytes, String,
  Error, errorf, wrap, Result, ok, err, wrapping, ◌>>=◌, if◌then◌else◌,
}
use malon.Base.Keys.{bytes_eq}
use malon.Identity.{Crypto, PublicKey, ed25519, other_key, Certificate, peer_id_from_public_key}
use malon.Auth.{Moment, new_probe_client_tls_config, TlsConfig, alpn_malon_probe, alpn_h3}
use malon.Packet.{Addr, no_addr, v4, v6}
use malon.Candidate.{to4}

-- What the handler of handleConnect meets in the client's request: connect-ip-go parses it, turns it
-- into a session, by number, and advertises the routes.
pub record ConnectRequest : Type 0 where
  pub parsed : Option Error
  pub proxied : Result ℕ
  pub advertised : Option Error

-- An accepted QUIC connection. `request` is `none` if the client never sends one.
pub record QuicConn : Type 0 where
  pub number : ℕ
  pub alpn : String
  pub peer_certificates : List Certificate
  pub remote_addr : Addr
  pub remote_port : ℕ
  pub request : Option ConnectRequest

-- ProbeEvent and ConnectEvent
pub data Event : Type 0 where
  probe_event : Bytes → Addr → ℕ → Event
  connect_event : Bytes → ℕ → Event

-- The QUIC connections that were closed, with the code, the latest first.
abbrev pub Closes : Type 0
Closes = List (ℕ × ℕ)

-- How a handler ends: `hangs` is a handler that waits for ever.
pub data Handling : Type 0 where
  handled : Event → Closes → Handling
  refused : Error → Handling
  hangs : Handling

-- How Accept ends, with the connections that it has not looked at. `ended` is the error of the
-- listener, when no more connections come.
pub data Acceptance : Type 0 where
  event : Event → List QuicConn → Closes → Acceptance
  ended : Closes → Acceptance
  hung : Closes → Acceptance

-- `addr.Unmap()`
abbrev pub unmap : Addr → Addr
unmap no_addr = no_addr
unmap (v4 b) = v4 b
unmap (v6 b) = elim (to4 b) [ none ↦ v6 b | some a ↦ v4 a ]

abbrev pub check : Option Error → Result (Unit {0})
check none = ok tt
check (some e) = err e

-- The handler for the CONNECT-IP request.
unfoldable pub serve_request : ConnectRequest → Result ℕ
serve_request r = do _ ← check r.parsed; conn ← r.proxied; _ ← check r.advertised; ok conn

module _ ⦃c : Crypto⦄ where
  abbrev pub id_of_key : PublicKey → Result Bytes
  id_of_key (ed25519 pub_key) = ok (peer_id_from_public_key pub_key)
  id_of_key other_key = err (errorf "direct: peer certificate is not Ed25519")

  -- peerIDFromConn
  unfoldable pub peer_id_from_conn : List Certificate → Result Bytes
  peer_id_from_conn [] = err (errorf "direct: no peer certificate")
  peer_id_from_conn (cert ∷ rest) = id_of_key cert.public_key

  abbrev probe_handled : QuicConn → Closes → Result Bytes → Handling
  probe_handled q closes (err e) = refused e
  probe_handled q closes (ok id) =
      handled (probe_event id (unmap q.remote_addr) (q.remote_port % 2 ^ 16))
        ((q.number, 0) ∷ closes)

  -- handleProbe
  unfoldable pub handle_probe : QuicConn → Closes → Handling
  handle_probe q closes = probe_handled q closes (peer_id_from_conn q.peer_certificates)

  abbrev connect_served : Closes → Bytes → Result ℕ → Handling
  connect_served closes id (err e) = refused (wrap "direct: CONNECT-IP server" e)
  connect_served closes id (ok conn) = handled (connect_event id conn) closes

  -- The wait for the handler's result, without a deadline.
  abbrev connect_waited : Closes → Bytes → Option ConnectRequest → Handling
  connect_waited closes id none = hangs
  connect_waited closes id (some r) = connect_served closes id (serve_request r)

  abbrev connect_handled : QuicConn → Closes → Result Bytes → Handling
  connect_handled q closes (err e) = refused e
  connect_handled q closes (ok id) = connect_waited closes id q.request

  -- handleConnect
  unfoldable pub handle_connect : QuicConn → Closes → Handling
  handle_connect q closes = connect_handled q closes (peer_id_from_conn q.peer_certificates)

  -- The switch in Accept: a connection whose protocol is neither is closed.
  unfoldable pub handle_conn : QuicConn → Closes → Handling
  handle_conn q closes =
      if str_eq q.alpn alpn_malon_probe
      then handle_probe q closes
      else if str_eq q.alpn alpn_h3
      then handle_connect q closes
      else refused (errorf "unknown alpn")

  -- Accept, on the connections that arrive at the listener.
  unfoldable pub accept : List QuicConn → Closes → Acceptance
  accept [] closes = ended closes
  accept (q ∷ qs) closes = elim (handle_conn q closes) [
    | handled e closes' ↦ event e qs closes'
    | refused _ ↦ accept qs ((q.number, 1) ∷ closes)
    | hangs ↦ hung closes
  ]

  -- The check of the peer in Probe, after the handshake.
  abbrev checked_key : Bytes → PublicKey → Result (Unit {0})
  checked_key expected other_key = err (errorf "h3path: peer certificate is not Ed25519")
  checked_key expected (ed25519 pub_key) =
      if bytes_eq.beq (peer_id_from_public_key pub_key) expected
      then ok tt
      else err (errorf "h3path: peer_id mismatch")

  abbrev checked_peer : Bytes → List Certificate → Result (Unit {0})
  checked_peer expected [] = err (errorf "h3path: no peer certificate")
  checked_peer expected (cert ∷ rest) = checked_key expected cert.public_key

-- ValidatedTransport; times are in nanoseconds.
pub record ValidatedTransport : Type 0 where
  pub remote_addr : Addr
  pub remote_port : ℕ
  pub peer_id : Bytes
  pub rtt : ℕ

-- A QUIC dial that succeeded: the connection, the certificates of the other side, and how long it took.
pub record Dialled : Type 0 where
  pub number : ℕ
  pub peer_certificates : List Certificate
  pub elapsed : ℕ

module _ ⦃c : Crypto⦄ where
  abbrev probed : Addr → ℕ → Bytes → Dialled → Result (Unit {0}) → Result ValidatedTransport
  probed addr port expected d (err e) = err e
  probed addr port expected d (ok _) =
      ok (record { remote_addr = addr; remote_port = port; peer_id = expected; rtt = d.elapsed })

  abbrev quic_dialled :
      Addr → ℕ → Bytes → Result Dialled → Closes → Result ValidatedTransport × Closes
  quic_dialled addr port expected (err e) closes = (err (wrap "h3path: QUIC dial" e), closes)
  quic_dialled addr port expected (ok d) closes = (
    probed addr port expected d (checked_peer expected d.peer_certificates),
    (d.number, 0) ∷ closes,
  )

  abbrev tls_configured :
      Addr
      → ℕ
      → Bytes
      → Result TlsConfig
      → (TlsConfig → Result Dialled)
      → Closes
      → Result ValidatedTransport × Closes
  tls_configured addr port expected (err e) quic closes =
      (err (wrap "h3path: TLS config" e), closes)
  tls_configured addr port expected (ok t) quic closes =
      quic_dialled addr port expected (quic t) closes

  -- Validator.Probe, on a node with the private key `priv`; `quic` is the transport's Dial, given a TLS configuration.
  -- The QUIC connection is closed in any case, once there is one.
  unfoldable pub probe :
      Moment
      → Bytes
      → Addr
      → ℕ
      → Bytes
      → (TlsConfig → Result Dialled)
      → Closes
      → Result ValidatedTransport × Closes
  probe at_ priv addr port expected quic closes =
      tls_configured addr port expected (new_probe_client_tls_config at_ priv expected) quic closes

-- The last two steps of Dial: the CONNECT-IP session, and the routes.
abbrev advertised : ℕ → ℕ → Option Error → Closes → Result ℕ × Closes
advertised number session none closes = (ok session, closes)
advertised number session (some e) closes =
    (err (wrap "direct: CONNECT-IP route advertisement" e), (number, 0) ∷ closes)

abbrev connected : ℕ → Result ℕ → Option Error → Closes → Result ℕ × Closes
connected number (err e) routes closes =
    (err (wrap "direct: CONNECT-IP dial" e), (number, 0) ∷ closes)
connected number (ok session) routes closes = advertised number session routes closes

-- Dial: a session, by number.
unfoldable pub dial :
    Result TlsConfig → Result Dialled → Result ℕ → Option Error → Closes → Result ℕ × Closes
dial (err e) quic session routes closes = (err (wrap "direct: TLS config" e), closes)
dial (ok t) (err e) session routes closes = (err (wrap "direct: QUIC dial" e), closes)
dial (ok t) (ok d) session routes closes = connected d.number session routes closes
