-- ===== src/Tests/Sessions.antt =====
-- Runs of the proxy and of its sessions.
use malon.Base.{◌≡◌, refl, Bytes, true, false, [], ◌∷◌, ◌++◌, some, arith, replicate}
use malon.Base.Keys.{nat_eq, lookup, insert, update}
use malon.Chan.{make_chan}
use malon.Envelope.{header, encode, Envelope}
use malon.Proxy.{
  write_envelope, Proxy, Conn, new_proxy, session_capacity, dispatch_data, incoming_conn, read_loop,
  new_session, dispatch,
}
use malon.Proxy.Validity.{IsValid, new_proxy-IsValid, dispatch_data-IsValid}
use malon.Proxy.Routing.{frames, dispatch_data_new}
use malon.Proxy.Collision.{dispatch_data-collision}
use malon.Session.{write, data_case, pending}
use malon.Session.Stream.{arrives, reads, replay, accepted, replay-accepted}
use malon.Session.Steps.{begins, followed_by, dispatched, opened, Reach-IsValid}
use malon.Base.{List, All, Error}
use malon.Base.Keys.{bytes_eq, bytes_beq, delete}
use malon.Envelope.{IsValid as IsValidEnvelope}
use malon.Relay.{Relay, handle_tunnel, forward, register}
use malon.Transport.{envelopes, write_all, AllWritten, AllForwarded}
use malon.Transport.Carried.{carried, stream_of}
use malon.Tests.{buffer, peer_a, peer_b, hello}

abbrev idle : Proxy Bytes
idle = new_proxy peer_b (make_chan 64) (make_chan 64)

idle-IsValid : IsValid idle
idle-IsValid = new_proxy-IsValid peer_b (make_chan 64) (make_chan 64) refl refl

-- A proxy whose manager has no room.
abbrev busy : Proxy Bytes
busy = new_proxy peer_b (make_chan 64) (make_chan 0)

busy-IsValid : IsValid busy
busy-IsValid = new_proxy-IsValid peer_b (make_chan 64) (make_chan 0) refl refl

abbrev one_session : Proxy Bytes
one_session = record idle {
  accept_ch = record { buf = incoming_conn idle hello ∷ []; capacity = 64; is_closed = false };
  chans =
      update idle.chans 0
        (record { buf = hello.payload ∷ []; capacity = session_capacity; is_closed = false });
  next_chan = 1;
  sessions = (1, record { ch = 0; peer_id = peer_a }) ∷ [];
}

dispatch_data-hello : dispatch_data hello idle ≡ one_session
unfolding new_proxy lookup insert
dispatch_data-hello = dispatch_data_new hello idle idle-IsValid refl (omega arith)

one_session-IsValid : IsValid one_session
one_session-IsValid = rw (← dispatch_data-hello) (dispatch_data-IsValid hello idle idle-IsValid)

-- The first session of a third peer, with the same number.
abbrev other_hello : Envelope
other_hello = record hello { src_peer_id = replicate 32 3; payload = 33 ∷ [] }

dispatch_data-collision_example :
    (((dispatch_data other_hello (dispatch_data hello idle)).chans 0).buf
      ≡ (104 ∷ 105 ∷ []) ∷ (33 ∷ []) ∷ [])
    × ((dispatch_data other_hello (dispatch_data hello idle)).accept_ch.buf
        ≡ incoming_conn idle hello ∷ [])
unfolding new_proxy lookup
dispatch_data-collision_example =
    dispatch_data-collision hello other_hello idle idle-IsValid refl refl (omega arith)

-- B opens a session to A while the session that A has opened has its first number, too.

abbrev conn : Conn
conn = incoming_conn idle hello

replay-accepted_example :
    (let es = reads data_case 0 1 ∷ arrives (7 ∷ []) ∷ reads data_case 0 9 ∷ [] in
      let (c', p', got) = replay es conn one_session in
      pending conn one_session ++ accepted es conn one_session ≡ got ++ pending c' p')
replay-accepted_example =
    replay-accepted (reads data_case 0 1 ∷ arrives (7 ∷ []) ∷ reads data_case 0 9 ∷ []) conn
      one_session

Reach-IsValid_example : IsValid (new_session peer_a (dispatch hello idle)).0
Reach-IsValid_example = Reach-IsValid (
    followed_by
      (followed_by (begins peer_b (make_chan 64) (make_chan 64) refl refl) (dispatched hello idle))
      (opened peer_a (dispatch hello idle)))

abbrev online : Proxy Bytes
online = record one_session { writer = some [] }

-- The relay with the peers A and B, before B's stream.
abbrev relay_of_a : Relay Bytes
relay_of_a = record { streams = (peer_a, 0) ∷ []; writers = λ _. [] }

abbrev two_buffers : List Bytes
two_buffers = (7 ∷ 8 ∷ []) ∷ (9 ∷ []) ∷ []

two_buffers-IsValid : All IsValidEnvelope (envelopes peer_b conn two_buffers)
two_buffers-IsValid = (
  record {
    version_byte = omega arith;
    type_byte = omega arith;
    src_length = refl;
    dst_length = refl;
    session_word = omega arith;
    payload_fits = omega arith;
  },
  (
    record {
      version_byte = omega arith;
      type_byte = omega arith;
      src_length = refl;
      dst_length = refl;
      session_word = omega arith;
      payload_fits = omega arith;
    },
    tt,
  ),
)

carried_example :
    (r' : Relay Bytes) × (q' : Proxy Bytes) × (e : Error) × (handle_tunnel 3 peer_b 1
        (stream_of (frames (envelopes peer_b conn two_buffers)))
        relay_of_a
      ≡ some (r', true))
    × (read_loop 3 (stream_of (r'.writers 0)) one_session ≡ some (q', e))
    × (pending conn q' ≡ pending conn one_session ++ 7 ∷ 8 ∷ 9 ∷ [])
unfolding write write_envelope encode new_proxy forward register lookup insert bytes_beq write_all
    AllWritten AllForwarded delete header
carried_example =
    carried two_buffers conn conn online [] relay_of_a one_session peer_b 1 0 3
      (record { ch = 0; peer_id = peer_a }) (frames (envelopes peer_b conn two_buffers)) refl refl
      (refl, (refl, tt)) refl two_buffers-IsValid refl refl (refl, (refl, tt)) refl refl refl
      (omega arith) (omega arith)
