-- ===== src/Relay.antt =====
-- internal/relay/relay.go: the relay server. Response writers stand in a store, by number.
pub mod Forward
pub mod Races
pub mod Server
pub mod Tunnels
use malon.Base.{
  ℕ, zero, suc, Bool, not, Option, none, some, List, [], ◌∷◌, Bytes, Error, String, eof, is_eof,
  errorf, wrap, Result, ok, err, wrapping, ◌>>=◌, length, ◌==◌, if◌then◌else◌,
}
use malon.Base.Keys.{bytes_eq, lookup, insert, delete, update}
use malon.Identity.{peer_id_from_base64}
use malon.Io.{Stream, Writer}
use malon.Envelope.{Envelope, encode, decode}

pub record Request : Type 0 where
  pub is_connect : Bool
  -- `none` is a missing or empty X-Peer-Id header.
  pub peer_id_header : Option String
  pub has_flusher : Bool
  pub body : Stream

-- What handleHTTP and the first part of handleConnect decide: an HTTP error status, a return after
-- the 200 status, or a tunnel for a peer.
pub data Admission : Type 0 where
  rejected : ℕ → Admission
  no_flusher : Admission
  tunnel : Bytes → Admission

abbrev admit_peer : Bool → Result Bytes → Admission
admit_peer flusher (err e) = rejected 400
admit_peer flusher (ok peer_id) = if flusher then tunnel peer_id else no_flusher

abbrev admit_header : (String → Result Bytes) → Bool → Option String → Admission
admit_header decode_string flusher none = rejected 400
admit_header decode_string flusher (some s) =
    admit_peer flusher (peer_id_from_base64 decode_string s)

unfoldable pub admit : (String → Result Bytes) → Request → Admission
admit decode_string req =
    if not req.is_connect
    then rejected 405
    else admit_header decode_string req.has_flusher req.peer_id_header

pub record Relay (W : Type 0) : Type 0 where
  pub streams : List (Bytes × ℕ)
  pub writers : ℕ → W

module _ {W : Type 0} where
  unfoldable pub register : Bytes → ℕ → Relay W → Relay W
  register id w r = record r { streams = insert id w r.streams }

  unfoldable pub unregister : Bytes → Relay W → Relay W
  unregister id r = record r { streams = delete id r.streams }

abbrev pub wrote : {W : Type 0} → ℕ → Relay W → W × Option Error → Relay W × Option Error
wrote h r (w, none) = (record r { writers = update r.writers h w }, none)
wrote h r (w, some e) = (record r { writers = update r.writers h w }, some (wrap "encode to dst" e))

module _ {W : Type 0} ⦃wr : Writer W⦄ where
  -- forward: the lock is held for the lookup only.
  unfoldable pub forward : Envelope → Relay W → Relay W × Option Error
  forward env r = elim (lookup env.dst_peer_id r.streams) [
    | none ↦ (r, some (errorf "peer not connected"))
    | some h ↦ wrote h r (encode (r.writers h) env)
  ]

  -- The loop of handleConnect, on fuel; an error of `forward` is logged and the loop goes on. The
  -- flag says whether the end of the stream is logged as a warning.
  unfoldable pub serve : ℕ → Stream → Relay W → Option (Relay W × Bool)
  serve zero s r = none
  serve (suc fuel) s r = elim (decode s) [
    | ok d ↦ serve fuel d.1 (forward d.0 r).0
    | err e ↦ some (r, not (is_eof e))
  ]

  -- The end of a handler, which is deferred: it takes the entry of its peer out of the map, whatever
  -- stream that entry names by now.
  abbrev pub finished : Bytes → Option (Relay W × Bool) → Option (Relay W × Bool)
  finished id none = none
  finished id (some (r, warned)) = some (unregister id r, warned)

  -- handleConnect of an admitted peer whose response writer is `h`, with nobody else about.
  unfoldable pub handle_tunnel : ℕ → Bytes → ℕ → Stream → Relay W → Option (Relay W × Bool)
  handle_tunnel fuel id h body r = finished id (serve fuel body (register id h r))
