-- ===== src/Capsule.antt =====
-- internal/h2proxy/capsule.go: QUIC variable-length integers and capsule framing.
pub mod Varint
pub mod Progress
pub mod Rounds
pub mod Frames
pub mod Writes
use malon.Base.{
  Bool, not, ℕ, zero, suc, ◌-◌, ◌*◌, ◌/◌, ◌%◌, ◌^◌, bit_and, bit_or, Option, none, some, [], ◌∷◌,
  ◌++◌, Bytes, Error, String, errorf, panics, Result, ok, err, wrapping, ◌>>=◌, length, take, drop,
  ltb, leb, ◌==◌, if◌then◌else◌,
}
use malon.Io.{Stream, Writer, checked, read_full, read_byte}
use malon.Chan.{Chan, sent, full, on_closed, try_send}

abbrev pub capsule_type_ip_packet : ℕ
capsule_type_ip_packet = 0

abbrev pub capsule_type_control : ℕ
capsule_type_control = 1

abbrev pub max_capsule_len : ℕ
max_capsule_len = 65536

-- The rest of the loop in `readVarint`; `val` is a uint64.
unfoldable pub more_bytes : ℕ → ℕ → Stream → Result (ℕ × Stream)
more_bytes zero val s = ok (val, s)
more_bytes (suc k) val s = do (b, s') ← read_byte s; more_bytes k (bit_or (val * 256 % 2 ^ 64) b) s'

-- The two top bits of the first byte give the number of bytes, 1, 2, 4 or 8.
unfoldable pub read_varint : Stream → Result (ℕ × Stream)
unfolding more_bytes
read_varint s = do
  (b, s') ← read_byte s
  let prefix = b / 64
  more_bytes (2 ^ prefix - 1) (bit_and b 0x3f) s'

-- `byte(v >> k)`
abbrev pub byte_shr : ℕ → ℕ → ℕ
byte_shr v k = v / 2 ^ k % 256

unfoldable pub append_varint : Bytes → ℕ → Bytes
append_varint b v =
    if ltb v 64
    then b ++ byte_shr v 0 ∷ []
    else if ltb v 16384
    then b ++ bit_or (byte_shr v 8) 0x40 ∷ byte_shr v 0 ∷ []
    else if ltb v 1073741824
    then b ++ bit_or (byte_shr v 24) 0x80 ∷ byte_shr v 16 ∷ byte_shr v 8 ∷ byte_shr v 0 ∷ []
    else b
      ++ bit_or (byte_shr v 56) 0xc0
        ∷ byte_shr v 48
        ∷ byte_shr v 40
        ∷ byte_shr v 32
        ∷ byte_shr v 24
        ∷ byte_shr v 16
        ∷ byte_shr v 8
        ∷ byte_shr v 0
        ∷ []

-- `io.CopyN(io.Discard, r, n)`: a stream that ends early gives its own error.
unfoldable pub discard : ℕ → Stream → Result (Bytes × Stream)
discard n s =
    if leb n (length s.bytes)
    then ok (take n s.bytes, record s { bytes = drop n s.bytes })
    else err s.ending

-- The receiving side of a `capsuleConn`: the stream, and `ctrlCh`, which is nil without inner mTLS.
pub record CapsuleReader : Type 0 where
  pub rd : Stream
  pub ctrl_ch : Option (Chan Bytes)

-- One round of the loop in `ReadPacket`. After an error no caller reads on, so only the control
-- channel is kept then.
pub data Round : Type 0 where
  next : CapsuleReader → Round
  packet : CapsuleReader → Bytes → Round
  failed : Option (Chan Bytes) → Error → Round

abbrev pub or_failed {ℓ} : {A : Type ℓ} → Option (Chan Bytes) → Result A → (A → Round) → Round
or_failed ch (ok a) k = k a
or_failed ch (err e) k = failed ch e

-- What is done with a control payload: no channel, or a full one, drops it.
unfoldable pub deliver : Bytes → Stream → Option (Chan Bytes) → Round
deliver payload s none = next (record { rd = s; ctrl_ch = none })
deliver payload s (some ch) = elim (try_send payload ch) [
  | sent ch' ↦ next (record { rd = s; ctrl_ch = some ch' })
  | full ↦ next (record { rd = s; ctrl_ch = some ch })
  | on_closed ↦ failed (some ch) (panics "send on closed channel")
]

-- The payload of a capsule of type `ct`, read into a buffer of `size` bytes.
unfoldable pub read_body : ℕ → ℕ → ℕ → Stream → Option (Chan Bytes) → Round
read_body size ct n s ch =
    if ct == capsule_type_control
    then or_failed ch (wrapping "capsule: read control payload" (read_full n s))
        (λ r. deliver r.0 r.1 ch)
    else if not_packet
    then or_failed ch (wrapping "capsule: discard type" (discard n s))
        (λ r. next (record { rd = r.1; ctrl_ch = ch }))
    else if ltb size n
    then failed ch (errorf "capsule: packet exceeds buffer")
    else or_failed ch (wrapping "capsule: read payload" (read_full n s))
        (λ r. packet (record { rd = r.1; ctrl_ch = ch }) r.0)
  where
    not_packet : Bool
    not_packet = not (ct == capsule_type_ip_packet)

unfoldable pub read_round : ℕ → CapsuleReader → Round
read_round size c =
    or_failed c.ctrl_ch (wrapping "capsule: read type varint" (read_varint c.rd)) λ t.
      or_failed c.ctrl_ch (wrapping "capsule: read length varint" (read_varint t.1)) λ l.
        if ltb max_capsule_len l.0
        then failed c.ctrl_ch (errorf "capsule: payload length exceeds limit")
        else read_body size t.0 l.0 l.1 c.ctrl_ch

-- How a call of `ReadPacket` ends: the packet that was put into the buffer, or an error.
pub data Read : Type 0 where
  got : CapsuleReader → Bytes → Read
  lost : Option (Chan Bytes) → Error → Read

-- `none` means that the fuel ran out.
unfoldable pub read_loop : ℕ → ℕ → CapsuleReader → Option Read
read_loop zero size c = none
read_loop (suc fuel) size c = elim (read_round size c) [
  | next c' ↦ read_loop fuel size c'
  | packet c' p ↦ some (got c' p)
  | failed ch e ↦ some (lost ch e)
]

-- Each round takes a byte at least, or fails, so that one round for each byte and one more are
-- enough.
unfoldable pub read_packet : ℕ → CapsuleReader → Option Read
unfolding read_loop read_round read_body read_varint deliver discard read_full
read_packet size c = read_loop (suc (length c.rd.bytes)) size c

-- `WritePacket` and `WriteControl` differ in the type, and in the texts of their errors.
unfoldable pub write_capsule :
    {W : Type 0} ⦃wr : Writer W⦄ → String → String → ℕ → W → Bytes → W × Option Error
write_capsule ⦃wr⦄ header_text payload_text ct w payload =
    let hdr = append_varint (append_varint [] ct) (length payload % 2 ^ 64) in
    checked header_text (wr.write w hdr)
      λ w'. checked payload_text (wr.write w' payload) (λ w''. (w'', none))

unfoldable pub write_packet : {W : Type 0} ⦃wr : Writer W⦄ → W → Bytes → W × Option Error
unfolding write_capsule append_varint
write_packet = write_capsule "capsule: write header" "capsule: write payload" capsule_type_ip_packet

unfoldable pub write_control : {W : Type 0} ⦃wr : Writer W⦄ → W → Bytes → W × Option Error
unfolding write_capsule append_varint
write_control =
    write_capsule "capsule: write control header" "capsule: write control payload"
      capsule_type_control
