-- ===== src/Capsule/Frames.antt =====
-- `ReadPacket` on a stream of capsules.
use malon.Base.{
  ℕ, zero, suc, ◌^◌, ◌≤◌, ◌<◌, ◌≡◌, ◌∙◌, [], ◌∷◌, ◌++◌, Bytes, All, List, Error, length, arith,
  append_assoc, Bool-cases, inl, inr, Option, some, ◌==◌, length-append, errorf,
}
use malon.Chan.{Chan}
use malon.Capsule.{
  append_varint, read_round, read_loop, read_packet, CapsuleReader, next, packet, failed, got, lost,
  capsule_type_control, max_capsule_len,
}
use malon.Capsule.Varint.{length-append_varint}
use malon.Capsule.Rounds.{
  Capsule, capsule_bytes, stream_of, IsAhead, controls, IsOpen, offered, reader, ip_packet,
  read_round-capsule, read_round-capsule_bytes, read_body-ahead, read_body_packet, offered_nil,
  offered_cons, offered-IsOpen,
}

-- The control channel after one capsule, and after those behind it.
pub controls_cons :
    (c : Capsule) (cs : List Capsule) (ch : Option (Chan Bytes))
    → offered (controls (c ∷ cs)) ch ≡ offered (controls cs) (offered (controls (c ∷ [])) ch)
controls_cons c cs ch = ground (arith, offered_cons c.payload (controls cs) ch, offered_nil ch)

pub controls-IsOpen :
    (c : Capsule) (ch : Option (Chan Bytes)) → IsOpen ch → IsOpen (offered (controls (c ∷ [])) ch)
controls-IsOpen c ch h = elim (Bool-cases (c.kind == capsule_type_control)) [
  | inl e ↦ rw e (offered-IsOpen c.payload ch h)
  | inr e ↦ rw (e, offered_nil ch) h
]

pub read_loop_next :
    (fuel size : ℕ) (c : CapsuleReader) {c' : CapsuleReader}
    → read_round size c ≡ next c'
    → read_loop (suc fuel) size c ≡ read_loop fuel size c'
unfolding read_loop
read_loop_next fuel size c h = rw (h, read_loop)

read_loop_packet :
    (fuel size : ℕ) (c : CapsuleReader) {c' : CapsuleReader} {p : Bytes}
    → read_round size c ≡ packet c' p
    → read_loop (suc fuel) size c ≡ some (got c' p)
unfolding read_loop
read_loop_packet fuel size c h = rw (h, read_loop)

pub read_loop_failed :
    (fuel size : ℕ) (c : CapsuleReader) {ch : Option (Chan Bytes)} {e : Error}
    → read_round size c ≡ failed ch e
    → read_loop (suc fuel) size c ≡ some (lost ch e)
unfolding read_loop
read_loop_failed fuel size c h = rw (h, read_loop)

read_loop-capsules :
    (fuel size : ℕ) (cs : List Capsule) (p rest : Bytes) (e : Error) (ch : Option (Chan Bytes))
    → length cs < fuel
    → All IsAhead cs
    → length p ≤ max_capsule_len
    → length p ≤ size
    → IsOpen ch
    → read_loop fuel size (reader (stream_of cs ++ (capsule_bytes (ip_packet p) ++ rest)) e ch)
      ≡ some (got (reader rest e (offered (controls cs) ch)) p)
read_loop-capsules zero size cs p rest e ch f a l h o = absurd (omega arith)
read_loop-capsules (suc fuel) size [] p rest e ch f a l h o =
    read_loop_packet fuel size _ (
      read_round-capsule size (ip_packet p) rest e ch (omega arith) l
      ∙ read_body_packet size p rest e ch h)
    ∙ rw (offered_nil ch)
read_loop-capsules (suc fuel) size (c ∷ cs) p rest e ch f a l h o =
    let after = stream_of cs ++ (capsule_bytes (ip_packet p) ++ rest) in
    rw
      (
        append_assoc (capsule_bytes c) (stream_of cs) (capsule_bytes (ip_packet p) ++ rest),
        controls_cons c cs ch,
      )
      (read_loop_next fuel size _ (
          read_round-capsule size c after e ch a.0.kind_range a.0.within
          ∙ read_body-ahead size c after e ch a.0 o)
        ∙ read_loop-capsules fuel size cs p rest e (offered (controls (c ∷ [])) ch) (omega arith)
            a.1 l h (controls-IsOpen c ch o))

pub length-stream_of : (cs : List Capsule) → length cs ≤ length (stream_of cs)
length-stream_of [] = omega arith
length-stream_of (c ∷ cs) = omega (
  arith,
  length-append (capsule_bytes c) (stream_of cs),
  length-append (append_varint [] c.kind) (append_varint [] (length c.payload) ++ c.payload),
  length-append_varint c.kind,
  length-stream_of cs,
)

-- A reader to which control and unknown capsules arrive, then a packet that fits its buffer, returns
-- that packet and stops behind it. The payloads of the control capsules were offered to the control
-- channel in their order, and nothing else happened to that channel.
pub read_packet-capsules :
    (size : ℕ) (cs : List Capsule) (p rest : Bytes) (e : Error) (ch : Option (Chan Bytes))
    → All IsAhead cs
    → length p ≤ max_capsule_len
    → length p ≤ size
    → IsOpen ch
    → read_packet size (reader (stream_of cs ++ (capsule_bytes (ip_packet p) ++ rest)) e ch)
      ≡ some (got (reader rest e (offered (controls cs) ch)) p)
unfolding read_packet
read_packet-capsules size cs p rest e ch a l h o =
    read_loop-capsules (suc (length (stream_of cs ++ (capsule_bytes (ip_packet p) ++ rest)))) size
      cs p rest e ch
      (omega (
        arith,
        length-append (stream_of cs) (capsule_bytes (ip_packet p) ++ rest),
        length-stream_of cs,
      ))
      a l h o

-- A packet longer than the reader's limit, which the writer does not check, ends the reader with
-- an error whatever its buffer.
pub read_packet_too_long :
    (size : ℕ) (p rest : Bytes) (e : Error) (ch : Option (Chan Bytes))
    → max_capsule_len < length p
    → length p < 2 ^ 62
    → read_packet size (reader (capsule_bytes (ip_packet p) ++ rest) e ch)
      ≡ some (lost ch (errorf "capsule: payload length exceeds limit"))
unfolding read_packet
read_packet_too_long size p rest e ch long fits =
    read_loop_failed (length (capsule_bytes (ip_packet p) ++ rest)) size
      (reader (capsule_bytes (ip_packet p) ++ rest) e ch)
      (read_round-capsule_bytes size (ip_packet p) rest e ch (omega arith) fits ∙ ground arith)
