-- ===== src/Tunnel/Packets.antt =====
-- internal/h2proxy/relay_conn.go: packets and control messages from one end of a tunnel to the other.
use malon.Base.{
  ℕ, zero, suc, ◌≤◌, ◌<◌, ◌≡◌, refl, sym, ap, ◌∙◌, append_assoc, append-nil, Option, none, some,
  List, [], ◌∷◌, ◌++◌, Bytes, Error, eof, wrap, length, arith, All,
}
use malon.Io.{Writer}
use malon.Chan.{Chan}
use malon.Capsule.{lost, read_round, read_loop, read_varint, capsule_type_control, max_capsule_len}
use malon.Capsule.Rounds.{
  Capsule, IsAhead, capsule_bytes, stream_of, controls, offered, offered_nil, IsOpen, reader,
  ip_packet, read_round-capsule, read_body-ahead,
}
use malon.Capsule.Frames.{controls_cons, controls-IsOpen, read_loop_next, read_loop_failed}
use malon.Capsule.Writes.{out-write_packet, out-write_control}
use malon.Tunnel.{RelayTunnelConn, tunnel_write_packet, tunnel_write_control}

-- What is sent through a tunnel.
pub data Message : Type 0 where
  ip control : Bytes → Message

abbrev pub capsule_of : Message → Capsule
capsule_of (ip p) = ip_packet p
capsule_of (control b) = record { kind = capsule_type_control; payload = b }

abbrev pub packets_of : List Message → List Bytes
packets_of [] = []
packets_of (ip p ∷ ms) = p ∷ packets_of ms
packets_of (control b ∷ ms) = packets_of ms

abbrev pub controls_of : List Message → List Bytes
controls_of [] = []
controls_of (ip p ∷ ms) = controls_of ms
controls_of (control b ∷ ms) = b ∷ controls_of ms

-- A message that the reader takes: no longer than its limit, and a packet no longer than its buffer.
abbrev pub Fits : ℕ → Message → Type 0
Fits mtu (ip p) = (length p ≤ max_capsule_len) × (length p ≤ mtu)
Fits mtu (control b) = length b ≤ max_capsule_len

abbrev pub wire : List Message → Bytes
wire [] = []
wire (m ∷ ms) = capsule_bytes (capsule_of m) ++ wire ms

module _ {W : Type 0} ⦃wr : Writer W⦄ where
  abbrev pub send : Message → RelayTunnelConn W → RelayTunnelConn W × Option Error
  send (ip p) t = tunnel_write_packet p t
  send (control b) t = tunnel_write_control b t

  -- The messages are written one after the other.
  unfoldable pub send_all : List Message → RelayTunnelConn W → RelayTunnelConn W
  send_all [] t = t
  send_all (m ∷ ms) t = send_all ms (send m t).0

  -- Each of these writes returns no error.
  unfoldable pub AllSent : List Message → RelayTunnelConn W → Type 0
  AllSent [] t = Unit {0}
  AllSent (m ∷ ms) t = ((send m t).1 ≡ none) × AllSent ms (send m t).0

  out-send :
      (mtu : ℕ) (m : Message) (t : RelayTunnelConn W)
      → Fits mtu m
      → (send m t).1 ≡ none
      → wr.out (send m t).0.capsule.wr ≡ wr.out t.capsule.wr ++ capsule_bytes (capsule_of m)
  unfolding tunnel_write_packet tunnel_write_control
  out-send mtu (ip p) t fits h = out-write_packet t.capsule.wr p (omega arith) h
  out-send mtu (control b) t fits h = out-write_control t.capsule.wr b (omega arith) h

  pub out-send_all :
      (mtu : ℕ) (ms : List Message) (t : RelayTunnelConn W)
      → All (Fits mtu) ms
      → AllSent ms t
      → wr.out (send_all ms t).capsule.wr ≡ wr.out t.capsule.wr ++ wire ms
  unfolding send_all AllSent
  out-send_all mtu [] t fits h = sym (append-nil _)
  out-send_all mtu (m ∷ ms) t (f, fs) (h, hs) =
      out-send_all mtu ms (send m t).0 fs hs
      ∙ ap (λ x. x ++ wire ms) (out-send mtu m t f h)
      ∙ append_assoc (wr.out t.capsule.wr) (capsule_bytes (capsule_of m)) (wire ms)

-- A stream of capsules that are no packets, and then ends, gives the end's error.
pub read_loop_end :
    (fuel size : ℕ) (cs : List Capsule) (ch : Option (Chan Bytes))
    → length cs < fuel
    → All IsAhead cs
    → IsOpen ch
    → read_loop fuel size (reader (stream_of cs ++ []) eof ch)
      ≡ some (lost (offered (controls cs) ch) (wrap "capsule: read type varint" eof))
unfolding read_round read_varint
read_loop_end zero size cs ch f a o = absurd (omega arith)
read_loop_end (suc fuel) size [] ch f a o =
    read_loop_failed fuel size (reader [] eof ch) refl ∙ rw (offered_nil ch) refl
read_loop_end (suc fuel) size (c ∷ cs) ch f a o =
    rw (append_assoc (capsule_bytes c) (stream_of cs) [], controls_cons c cs ch)
      (read_loop_next fuel size _ (
          read_round-capsule size c (stream_of cs ++ []) eof ch a.0.kind_range a.0.within
          ∙ read_body-ahead size c (stream_of cs ++ []) eof ch a.0 o)
        ∙ read_loop_end fuel size cs (offered (controls (c ∷ [])) ch) (omega arith) a.1
            (controls-IsOpen c ch o))
