-- ===== src/Capsule/Progress.antt =====
-- internal/h2proxy/capsule.go: how many bytes a round of `ReadPacket` takes from the stream.
use malon.Base.{
  ℕ, zero, suc, ◌+◌, ◌≤◌, ◌<◌, ◌≡◌, ◌≢◌, refl, ap, [], ◌∷◌, Bytes, Error, ok, err, length, arith,
  inl, inr, Option, none, some, String, Result, Result-cases, wrapping, length-drop, ◌⊎◌,
  length-append,
}
use malon.Io.{Stream, read_full}
use malon.Chan.{Chan}
use malon.Envelope.Input.{read_full-ok}
use malon.Capsule.{
  more_bytes, read_varint, discard, deliver, read_body, read_round, read_loop, read_packet,
  CapsuleReader, Round, next, packet, failed, Read, got, lost, or_failed,
}

more_bytes-ok :
    (k val : ℕ) (bs : Bytes) (e : Error) (v : ℕ) (s' : Stream)
    → more_bytes k val (record { bytes = bs; ending = e }) ≡ ok (v, s')
    → length s'.bytes + k ≡ length bs
unfolding more_bytes
more_bytes-ok zero val bs e v s' h = ground arith
more_bytes-ok (suc k) val [] e v s' h = cc
more_bytes-ok (suc k) val (b ∷ bs) e v s' h = omega (arith, more_bytes-ok k _ bs e v s' h)

-- A number takes a byte at least.
read_varint_bytes :
    (bs : Bytes) (e : Error) (v : ℕ) (s' : Stream)
    → read_varint (record { bytes = bs; ending = e }) ≡ ok (v, s')
    → length s'.bytes < length bs
unfolding read_varint
read_varint_bytes [] e v s' h = cc
read_varint_bytes (b ∷ bs) e v s' h = omega (arith, more_bytes-ok _ _ bs e v s' h)

pub read_varint-ok :
    (s : Stream) (v : ℕ) (s' : Stream)
    → read_varint s ≡ ok (v, s')
    → length s'.bytes < length s.bytes
read_varint-ok s v s' h = read_varint_bytes s.bytes s.ending v s' h

discard-ok :
    (n : ℕ) (s : Stream) (bs : Bytes) (s' : Stream)
    → discard n s ≡ ok (bs, s')
    → length s'.bytes ≤ length s.bytes
unfolding discard
discard-ok n s bs s' h = ground (arith, length-drop n s.bytes)

deliver-next :
    (p : Bytes) (s : Stream) (ch : Option (Chan Bytes)) (c : CapsuleReader)
    → deliver p s ch ≡ next c
    → c.rd ≡ s
unfolding deliver
deliver-next p s none c h = ground arith
deliver-next p s (some ch) c h = ground arith

-- A round that goes on went through each of its steps.
pub or_failed-next {ℓ} :
    {A : Type ℓ} (ch : Option (Chan Bytes)) (text : String) (r : Result A) (k : A → Round)
    {c : CapsuleReader}
    → or_failed ch (wrapping text r) k ≡ next c
    → (a : A) × (r ≡ ok a) × (k a ≡ next c)
or_failed-next ch text (ok a) k h = (a, refl, h)
or_failed-next ch text (err e) k h = cc

read_full-shrinks :
    (n : ℕ) (s : Stream) (r : Bytes × Stream)
    → read_full n s ≡ ok r
    → length r.1.bytes ≤ length s.bytes
read_full-shrinks n s (bs, s') h =
    let (front, _, _) = read_full-ok n s bs s' h in
    omega (arith, ap length front, length-append bs s'.bytes)

read_body-next :
    (size ct n : ℕ) (s : Stream) (ch : Option (Chan Bytes)) (c : CapsuleReader)
    → read_body size ct n s ch ≡ next c
    → length c.rd.bytes ≤ length s.bytes
unfolding read_body
read_body-next size ct n s ch c h = elim (Result-cases (read_full n s)) [
  | inr (e, q) ↦ elim (Result-cases (discard n s)) [
    | inr (e', q') ↦ ground arith
    | inl ((ds, t), q') ↦ ground (arith, discard-ok n s ds t q')
  ]
  | inl ((bs, s'), q) ↦ elim (Result-cases (discard n s)) [
    | inr (e', q') ↦ ground (arith, read_full-shrinks n s (bs, s') q, deliver-next bs s' ch c)
    | inl ((ds, t), q') ↦
        ground
          (arith, discard-ok n s ds t q', read_full-shrinks n s (bs, s') q, deliver-next bs s' ch c)
  ]
]

-- A round after which the loop goes on has taken bytes.
pub read_round-next :
    (size : ℕ) (c c' : CapsuleReader)
    → read_round size c ≡ next c'
    → length c'.rd.bytes < length c.rd.bytes
unfolding read_round
read_round-next size c c' h = elim (Result-cases (read_varint c.rd)) [
  | inr (e, q) ↦ cc (rw q at h)
  | inl ((ct, s1), q) ↦ elim (Result-cases (read_varint s1)) [
    | inr (e, r) ↦ cc (rw (q, r) at h)
    | inl ((n, s2), r) ↦ ground (
      arith,
      read_varint-ok c.rd ct s1 q,
      read_varint-ok s1 n s2 r,
      read_body-next size ct n s2 c.ctrl_ch c',
    )
  ]
]

Round-cases :
    (r : Round)
    → ((c : CapsuleReader) × (r ≡ next c))
      ⊎ ((read : Read) × ((fuel size : ℕ) (c : CapsuleReader)
            → read_round size c ≡ r
            → read_loop (suc fuel) size c ≡ some read))
unfolding read_loop
Round-cases (next c) = inl (c, refl)
Round-cases (packet c p) = inr (got c p, λ fuel size c h. rw (h, read_loop))
Round-cases (failed ch e) = inr (lost ch e, λ fuel size c h. rw (h, read_loop))

read_loop-ne-none :
    (fuel size : ℕ) (c : CapsuleReader) → length c.rd.bytes < fuel → read_loop fuel size c ≢ none
unfolding read_loop
read_loop-ne-none zero size c h = absurd (omega arith)
read_loop-ne-none (suc fuel) size c h = elim (Round-cases (read_round size c)) [
  | inl (c', q) ↦
      rw (q, read_loop)
        (read_loop-ne-none fuel size c' (omega (arith, read_round-next size c c' q)))
  | inr (read, done) ↦ ground (arith, done fuel size c refl)
]

-- `ReadPacket` returns on every input: its loop ends with a packet or an error.
pub read_packet-ne-none : (size : ℕ) (c : CapsuleReader) → read_packet size c ≢ none
unfolding read_packet
read_packet-ne-none size c = read_loop-ne-none (suc (length c.rd.bytes)) size c (omega arith)
