-- ===== src/Session.antt =====
-- internal/h2proxy/envelope_conn.go: the byte stream of one session over the shared CONNECT stream.
pub mod Stream
pub mod Steps
pub mod Writes
use malon.Base.{
  ℕ, ◌+◌, Option, none, some, Bool, true, false, List, [], ◌∷◌, ◌++◌, Bytes, Error, eof,
  deadline_exceeded, Result, ok, err, length, take, drop, leb, ltb, if◌then◌else◌, concat,
}
use malon.Base.Keys.{update}
use malon.Io.{Writer}
use malon.Chan.{Chan, receive, received, at_end, waits}
use malon.Envelope.{Envelope, version1, stream_type_data}
use malon.Proxy.{Proxy, Conn, remove_session, write_envelope}

-- Which case of the `select` in Read is taken, where it is ready: the environment chooses.
pub data Pick : Type 0 where
  data_case timer_case : Pick

-- `blocked`: the chosen case is not ready, so that the call is still waiting.
pub data ReadResult (W : Type 0) : Type 0 where
  returned : Conn → Proxy W → Bytes → ReadResult W
  failed : Error → ReadResult W
  blocked : ReadResult W

-- `deadline.IsZero()`, and `time.Until(deadline) <= 0`
abbrev pub has_passed : ℕ → Option ℕ → Bool
has_passed now none = false
has_passed now (some d) = leb d now

abbrev pub is_set : Option ℕ → Bool
is_set none = false
is_set (some d) = true

module _ {W : Type 0} where
  -- What does not fit into the caller's buffer is kept for the next call.
  unfoldable pub take_data : ℕ → Bytes → Conn → Proxy W → ReadResult W
  take_data size bytes c p = returned (record c { read_buf = drop size bytes }) p (take size bytes)

  unfoldable pub read_channel : ℕ → Conn → Proxy W → ReadResult W
  read_channel size c p = elim (receive (p.chans c.recv_ch)) [
    | received bytes ch ↦ take_data size bytes c (record p { chans = update p.chans c.recv_ch ch })
    | at_end ↦ failed eof
    | waits ↦ blocked
  ]

  abbrev pub select_read : Pick → ℕ → Conn → Proxy W → ReadResult W
  select_read data_case size c p = read_channel size c p
  select_read timer_case size c p =
      if is_set c.read_deadline then failed deadline_exceeded else blocked

  -- Read, into a buffer of `size` bytes, at the time `now`.
  unfoldable pub read : Pick → ℕ → ℕ → Conn → Proxy W → ReadResult W
  read pick now size c p =
      if ltb 0 (length c.read_buf)
      then take_data size c.read_buf c p
      else if has_passed now c.read_deadline
      then failed deadline_exceeded
      else select_read pick size c p

  -- Close
  unfoldable pub close : Conn → Proxy W → Proxy W
  close c p = remove_session c.session_id p

  -- The bytes that the session has received and nobody has read.
  abbrev pub pending : Conn → Proxy W → Bytes
  pending c p = c.read_buf ++ concat (p.chans c.recv_ch).buf

-- SetReadDeadline, and SetDeadline
unfoldable pub set_read_deadline : Option ℕ → Conn → Conn
set_read_deadline t c = record c { read_deadline = t }

-- The envelope that Write sends.
abbrev pub data_envelope : Bytes → Conn → Bytes → Envelope
data_envelope self_id c b = record {
  version = version1;
  stream_type = stream_type_data;
  src_peer_id = self_id;
  dst_peer_id = c.peer_id;
  session_id = c.session_id;
  payload = b;
}

abbrev pub written : {W : Type 0} → ℕ → Proxy W × Option Error → Proxy W × Result ℕ
written n (p, none) = (p, ok n)
written n (p, some e) = (p, err e)

-- Write: all of `b`, or an error.
unfoldable pub write : {W : Type 0} ⦃wr : Writer W⦄ → Bytes → Conn → Proxy W → Proxy W × Result ℕ
write b c p = written (length b) (write_envelope (data_envelope p.self_id c b) p)
