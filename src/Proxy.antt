-- ===== src/Proxy.antt =====
-- internal/h2proxy/proxy.go: the sessions that share one CONNECT stream to the relay. The channels
-- that the Go structs point to stand in a store, so that an entry of the session map and the
-- connection that was handed out share one.
pub mod Validity
pub mod Routing
pub mod Owned
pub mod Collision
use malon.Base.{
  is_some, ℕ, zero, suc, ◌+◌, ◌%◌, ◌^◌, Bool, true, false, not, ◌&&◌, ◌||◌, Option, none, some,
  List, [], ◌∷◌, ◌++◌, Bytes, Error, String, errorf, wrap, Result, ok, err, length, ◌==◌,
  if◌then◌else◌,
}
use malon.Base.Keys.{nat_eq, lookup, insert, delete, update}
use malon.Io.{Stream, Writer}
use malon.Chan.{Chan, make_chan, close_chan, try_send, sent, full, on_closed, offer}
use malon.Envelope.{Envelope, encode, decode, version1, stream_type_data, stream_type_control}

pub record ControlMessage : Type 0 where
  pub src_peer_id : Bytes
  pub payload : Bytes

-- `ch` names a channel of the store; `once` needs no field, since an entry leaves the map when its
-- channel is closed.
pub record SessionEntry : Type 0 where
  pub ch : ℕ
  pub peer_id : Bytes

-- EnvelopeNetConn (envelope_conn.go). The zero time is `none`.
pub record Conn : Type 0 where
  pub session_id : ℕ
  pub peer_id : Bytes
  pub recv_ch : ℕ
  pub read_buf : Bytes
  pub read_deadline : Option ℕ

-- InternalProxy, with the channels it sends on. `connected` says that `connectedCh` is closed, and
-- `crashed` that the process has panicked.
pub record Proxy (W : Type 0) : Type 0 where
  pub self_id : Bytes
  pub writer : Option W
  pub sessions : List (ℕ × SessionEntry)
  pub next_sid : ℕ
  pub connected : Bool
  pub control_ch : Chan ControlMessage
  pub accept_ch : Chan Conn
  pub chans : ℕ → Chan Bytes
  pub next_chan : ℕ
  pub crashed : Bool

abbrev pub session_capacity : ℕ
session_capacity = 64

-- The loop of closeAllSessions, over the entries that are left.
unfoldable pub close_each : List (ℕ × SessionEntry) → (ℕ → Chan Bytes) → ℕ → Chan Bytes
close_each [] chans = chans
close_each ((sid, s) ∷ rest) chans = close_each rest (update chans s.ch (close_chan (chans s.ch)))

module _ {W : Type 0} where
  -- NewProxy. The manager makes the two channels.
  unfoldable pub new_proxy : Bytes → Chan ControlMessage → Chan Conn → Proxy W
  new_proxy self_id control_ch accept_ch = record {
    self_id = self_id;
    writer = none;
    sessions = [];
    next_sid = 0;
    connected = false;
    control_ch = control_ch;
    accept_ch = accept_ch;
    chans = λ _. make_chan session_capacity;
    next_chan = 0;
    crashed = false;
  }

  unfoldable pub reset : Proxy W → Proxy W
  reset p = record p { connected = false }

  unfoldable pub is_connected : Proxy W → Bool
  is_connected p = p.connected && is_some p.writer

  -- removeSession
  unfoldable pub remove_session : ℕ → Proxy W → Proxy W
  remove_session sid p = elim (lookup sid p.sessions) [
    | none ↦ p
    | some s ↦ record p {
      chans = update p.chans s.ch (close_chan (p.chans s.ch));
      sessions = delete sid p.sessions;
    }
  ]

  unfoldable pub close_all_sessions : Proxy W → Proxy W
  close_all_sessions p = record p { chans = close_each p.sessions p.chans; sessions = [] }

  -- The first part of Connect, once the relay has answered 200: the writer is set, and `connectedCh`
  -- is closed, which panics if it was closed before.
  unfoldable pub established : W → Proxy W → Proxy W
  established w p = record p {
    writer = some w;
    connected = true;
    crashed = p.crashed || p.connected;
  }

  -- What Connect defers.
  unfoldable pub disconnected : Proxy W → Proxy W
  disconnected p = close_all_sessions (record p { writer = none })

  -- safeSend to a session's channel
  unfoldable pub safe_send : ℕ → Bytes → Proxy W → Proxy W
  safe_send c payload p = record p { chans = update p.chans c (offer payload (p.chans c)) }

  abbrev pub incoming_conn : Proxy W → Envelope → Conn
  incoming_conn p env = record {
    session_id = env.session_id;
    peer_id = env.src_peer_id;
    recv_ch = p.next_chan;
    read_buf = [];
    read_deadline = none;
  }

  -- The part of dispatchData under `sessMu` for a session that is not known: the first payload is
  -- in the channel before anybody sees the connection.
  unfoldable pub register_incoming : Envelope → Proxy W → Proxy W
  register_incoming env p = safe_send p.next_chan env.payload (record p {
    chans = update p.chans p.next_chan (make_chan session_capacity);
    next_chan = suc p.next_chan;
    sessions =
        insert env.session_id (record { ch = p.next_chan; peer_id = env.src_peer_id }) p.sessions;
  })

  -- The part after the lock: the connection is offered to `acceptCh`.
  unfoldable pub offer_incoming : Conn → Proxy W → Proxy W
  offer_incoming conn p = elim (try_send conn p.accept_ch) [
    | sent ch ↦ record p { accept_ch = ch }
    | full ↦ remove_session conn.session_id p
    | on_closed ↦ record p { crashed = true }
  ]

  unfoldable pub dispatch_data : Envelope → Proxy W → Proxy W
  dispatch_data env p = elim (lookup env.session_id p.sessions) [
    | none ↦ offer_incoming (incoming_conn p env) (register_incoming env p)
    | some s ↦ safe_send s.ch env.payload p
  ]

  unfoldable pub dispatch_control : Envelope → Proxy W → Proxy W
  dispatch_control env p =
      elim (try_send (record { src_peer_id = env.src_peer_id; payload = env.payload })
        p.control_ch) [
          | sent ch ↦ record p { control_ch = ch }
          | full ↦ p
          | on_closed ↦ record p { crashed = true }
        ]

  -- One envelope in readLoop: a stream type that is neither is dropped.
  unfoldable pub dispatch : Envelope → Proxy W → Proxy W
  dispatch env p =
      if env.stream_type == stream_type_data
      then dispatch_data env p
      else if env.stream_type == stream_type_control
      then dispatch_control env p
      else p

  -- NewSession. The counter is a uint32.
  unfoldable pub new_session : Bytes → Proxy W → Proxy W × Conn
  new_session peer_id p =
      let sid = (p.next_sid + 1) % 2 ^ 32 in
      (
        record p {
          next_sid = sid;
          chans = update p.chans p.next_chan (make_chan session_capacity);
          next_chan = suc p.next_chan;
          sessions = insert sid (record { ch = p.next_chan; peer_id = peer_id }) p.sessions;
        },
        record {
          session_id = sid;
          peer_id = peer_id;
          recv_ch = p.next_chan;
          read_buf = [];
          read_deadline = none;
        },
      )

-- readLoop, on fuel: it ends with the first error of `Decode`.
unfoldable pub read_loop : {W : Type 0} → ℕ → Stream → Proxy W → Option (Proxy W × Error)
read_loop zero s p = none
read_loop (suc fuel) s p = elim (decode s) [
  | ok r ↦ read_loop fuel r.1 (dispatch r.0 p)
  | err e ↦ some (p, e)
]

abbrev pub with_writer : {W : Type 0} → Proxy W → W × Option Error → Proxy W × Option Error
with_writer p (w, e) = (record p { writer = some w }, e)

-- writeEnvelope: under `wrMu`, so that no other write comes between its two.
unfoldable pub write_envelope :
    {W : Type 0} ⦃wr : Writer W⦄ → Envelope → Proxy W → Proxy W × Option Error
write_envelope env p = elim p.writer [
  | none ↦ (p, some (errorf "h2proxy: not connected to relay"))
  | some w ↦ with_writer p (encode w env)
]

unfoldable pub send_control :
    {W : Type 0} ⦃wr : Writer W⦄ → Bytes → Bytes → Proxy W → Proxy W × Option Error
send_control peer_id payload p =
    write_envelope
      (record {
        version = version1;
        stream_type = stream_type_control;
        src_peer_id = p.self_id;
        dst_peer_id = peer_id;
        session_id = 0;
        payload = payload;
      })
      p
