-- ===== src/Lib.antt =====
-- A model of malon: an overlay network whose nodes reach each other through a relay, and directly
-- where NAT allows it.
--
-- How the program is put together. A node keeps one HTTP/2 CONNECT stream to each relay. On it run
-- envelopes (internal/envelope), which carry the source and the destination peer, a session number
-- and a payload. The relay (internal/relay) reads envelopes from each stream and writes them to the
-- stream of the destination. In a node InternalProxy (internal/h2proxy/proxy.go) sends and receives
-- envelopes for all sessions of a stream; a session is an EnvelopeNetConn
-- (internal/h2proxy/envelope_conn.go), over which TLS runs, and in that the capsules of
-- internal/h2proxy/capsule.go, which carry IP packets and control messages. The manager
-- (internal/manager/manager.go) decides for each peer whether packets go through the relay or over a
-- direct QUIC connection, and filters the packets that arrive. Over the relay the peers tell each
-- other the addresses that they may be reached at (internal/control, internal/candidate,
-- internal/stun); a probe (internal/h3path) of such an address validates it, and a direct connection
-- (internal/direct) is then made to it. Every such connection runs TLS with the configurations of
-- internal/auth, in which a peer is known by the hash of its key (internal/identity).
--
-- Which file models which part:
--   Base, Base/*     names, lists, tables of keys and values, Go's errors, bits
--   Io, Chan         what the code uses of Go's io, encoding/binary and channels
--   Envelope         internal/envelope/envelope.go: Encode is encode, Decode is decode
--   Capsule          internal/h2proxy/capsule.go: ReadPacket is read_packet, WritePacket and
--                    WriteControl are write_packet and write_control, readVarint and appendVarint
--                    keep their names
--   Proxy            internal/h2proxy/proxy.go: the record Proxy is InternalProxy; each method keeps
--                    its name
--   Connecting       internal/h2proxy/proxy.go: Connect, over established, read_loop and disconnected
--                    of Proxy
--   Session          internal/h2proxy/envelope_conn.go: the record Conn (in Proxy) is
--                    EnvelopeNetConn; Read, Write, Close, SetReadDeadline keep their names
--   Tunnel           internal/h2proxy/relay_conn.go: the record RelayTunnelConn and its methods, with
--                    newCapsuleConn and Close of internal/h2proxy/capsule.go; Tunnel/Steps is the
--                    relation of its operations in any order
--   Relay            internal/relay/relay.go; Relay/Server has New, ListenAndServe and Serve
--   Relayd           cmd/malon-relayd/main.go, and LoadRelayServer and duration of config/config.go
--   Transport        no file of its own: a session over Session, Proxy and Relay at once
--   Identity         internal/identity/identity.go: peer_id_from_public_key and
--                    peer_id_from_base64 keep their names, self_signed_cert is SelfSignedCert
--   Auth             internal/auth/auth.go: the New...TLSConfig functions keep their names,
--                    make_peer_verifier is makePeerVerifier; Auth/Handshake says what crypto/tls
--                    does with two configurations
--   Manager          internal/manager/manager.go: the table of peers and the handlers that switch
--                    paths; Manager/Retrying has setupRelayPeers and the rounds of retryConnectPeer,
--                    Manager/Steps is the relation of the handlers in any order, Manager/Sections
--                    takes the handlers apart at the holds of the manager's lock, and
--                    Manager/Impersonation has handleIncoming with its TLS configuration
--   Startup          internal/manager/manager.go: New is new_manager, Run behind its call of direct.New
--                    is run, and Run as a whole is start_run of Startup/Listening
--   Loops            internal/manager/manager.go: acceptLoop, controlReadLoop, controlLoop
--   Reconnect        internal/manager/manager.go: relayConnectLoop is connect_rounds, over its proxy
--                    and the state of Probing
--   Backoff          internal/manager/manager.go: the waits of relayConnectLoop and of retryConnectPeer
--   Direct           internal/direct/listener.go: Accept is accept, handleProbe, handleConnect and
--                    peerIDFromConn keep their names; internal/direct/dial.go: Dial is dial;
--                    internal/h3path/h3path.go: Probe is probe; Direct/Listening has New, Close and the
--                    methods of DirectConn
--   Inbound          internal/manager/manager.go: probeAcceptLoop over Direct
--   Control          internal/control/control.go: Encode and Decode
--   Probing          internal/manager/manager.go: handleControl is handle_control,
--                    validateCandidates is validate_candidates and, for its goroutine, probe_loop
--                    and probe_finished; Probing/Own has own_candidates and candidates_payload, the
--                    two halves of sendCandidates;
--                    Probing/Cooling has the steps that leave an entry of probeCooldown, and
--                    Probing/Proven has the relation of these handlers in any order
--   Sending          internal/manager/manager.go: sendCandidates as a whole is send_candidates, over
--                    Probing and Tunnel
--   Words, Config    config/config.go: Load is load, on the lines of the file; Words has what it uses
--                    of Go's package strings; Config/Printed writes the file of a configuration
--   Daemon           cmd/malond/main.go: parseMionListenEndpoints and the node's own key
--   Malond           cmd/malond/main.go: main, up to the goroutines as prepare
--   Stun             internal/stun/stun.go: Query and QueryFromTransport; Stun/Transported has
--                    transportConn
--   Packet           internal/manager/manager.go: the packet filter
--   Forwarding       internal/manager/manager.go: forwardConnToTUN is run_relay, forwardDirectConnToTUN is
--                    run_direct
--   Candidate        internal/candidate/candidate.go: CollectEmbedded is collect_embedded
--   Tests            instances of the interfaces and runs on concrete input
--
-- State. The channels that sessions share with the proxy's table stand in a store (Proxy.chans), so
-- that the table and a connection that was handed out name the same channel. A handler of the manager
-- is one step; the order of steps is free. Connections are numbers, and the lists closed and started
-- record what the manager closed and which goroutines it started. A call that waits returns a value
-- that says so (blocked, waits).
--
-- Bounds. Lengths and session numbers that the code holds in a uint32 or uint64 are taken modulo
-- 2 ^ 32 or 2 ^ 64 where they are written. A peer identity has 32 bytes. Loops over a stream run
-- on fuel: read_packet takes a round for each byte and one more, and each round but the last
-- takes a byte; the read loops of the proxy and of the relay take a round for each envelope and
-- one more, and probeAcceptLoop one for each connection and one more; forwardConnToTUN takes one
-- for each packet and one more. The retry loop of a probe takes 151 rounds at most, since 200
-- milliseconds at least pass in each and it stops after 30 seconds. Times are in nanoseconds.
--
-- What is a parameter. io.Writer is the interface Writer, which says that a write that returns
-- no error has written all its bytes, and that one that fails has written a beginning of them.
-- mion's Peer is the interface MionPeer. Go's crypto packages and base64 are the interface
-- Crypto, which says that a hash has 32 bytes, that a certificate is read back with its key, and
-- that decoding inverts encoding; encoding/json is the interface Json and the text of addresses
-- the interface Netip, which say the same of themselves; the record Texts says of
-- netip.ParsePrefix that it reads what Prefix.String prints of a valid prefix, and of
-- strings.ToLower that it leaves lower case as it is. The handshakes and dials of TLS and QUIC,
-- connect-ip-go, the resolver, pion/stun, net/url, strconv and netip.ParsePrefix, the system's
-- interfaces and the clock give their results as arguments.
--
-- What is not modelled. The HTTP, TLS, QUIC and TOML libraries, which are arguments; logging. In
-- Manager/Steps a handler's critical sections and what lies between them are one step;
-- Manager/Sections has them one by one. The session over which a handshake runs is not part of
-- the manager's state. The manager's mion is taken as set; without it the loops between a
-- connection and the device, and sendCandidates, return at once. The stream between two nodes and
-- the relay is taken as one that gives what was written to it and then ends. Each proxy has a
-- channel of its own for incoming sessions, where the manager's proxies share one. A panic is the
-- flag `crashed` of a state; Connect panics on a proxy that is already connected, and the theorems
-- about Connect are about one that is not.
pub mod Base
pub mod Io
pub mod Chan
pub mod Envelope
pub mod Identity
pub mod Auth
pub mod Capsule
pub mod Proxy
pub mod Connecting
pub mod Session
pub mod Relay
pub mod Manager
pub mod Backoff
pub mod Startup
pub mod Direct
pub mod Transport
pub mod Tunnel
pub mod Words
pub mod Config
pub mod Daemon
pub mod Malond
pub mod Control
pub mod Stun
pub mod Probing
pub mod Reconnect
pub mod Forwarding
pub mod Relayd
pub mod Sending
pub mod Inbound
pub mod Loops
pub mod Packet
pub mod Candidate
pub mod Tests
