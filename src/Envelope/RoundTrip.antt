-- ===== src/Envelope/RoundTrip.antt =====
-- internal/envelope/envelope.go: `Decode` against `Encode`.
use native.Mathlib.Nat.{mod-eq_of_lt}
use malon.Base.{
  ℕ, ◌%◌, ◌^◌, ◌<◌, ◌≡◌, refl, sym, ap, ◌∙◌, Option, none, [], ◌∷◌, ◌++◌, Bytes, Error, String, ok,
  length, drop, length-append, take-append, drop-append, append_assoc, append-nil, arith, le→leb,
}
use malon.Io.{Writer, checked-none, read_full, put_uint32, big_endian, uint32, slice}
use malon.Envelope.{
  Envelope, IsValid, header, header_size, frame, encode, decode, read_payload, write_payload,
}

pub uint32-put_uint32 : (v : ℕ) → v < 2 ^ 32 → uint32 (put_uint32 v) ≡ v
unfolding big_endian put_uint32
uint32-put_uint32 v h = omega arith

-- A full read takes the front part of the stream.
pub read_full-append :
    (xs ys : Bytes) (e : Error) (n : ℕ)
    → n ≡ length xs
    → read_full n (record { bytes = xs ++ ys; ending = e })
      ≡ ok (xs, record { bytes = ys; ending = e })
unfolding read_full
read_full-append xs ys e n h = rw (
  le→leb n (length (xs ++ ys)) (omega (arith, length-append xs ys)),
  take-append xs ys n h,
  drop-append xs ys n h,
)

pub length-header : (env : Envelope) → IsValid env → length (header env) ≡ header_size
unfolding header put_uint32
length-header env v =
    let s = put_uint32 env.session_id in
    let l = put_uint32 (length env.payload % 2 ^ 32) in
    omega (
      arith,
      length-append env.src_peer_id (env.dst_peer_id ++ (s ++ l)),
      length-append env.dst_peer_id (s ++ l),
      v.src_length,
      v.dst_length,
    )

-- The fields stand in the header where the decoder looks for them.
header_src : (env : Envelope) → IsValid env → slice 2 34 (header env) ≡ env.src_peer_id
unfolding header
header_src env v = take-append env.src_peer_id _ 32 (sym v.src_length)

header_dst : (env : Envelope) → IsValid env → slice 34 66 (header env) ≡ env.dst_peer_id
unfolding header
header_dst env v =
    rw (drop-append env.src_peer_id _ 32 (sym v.src_length))
      (take-append env.dst_peer_id _ 32 (sym v.dst_length))

header_words :
    (env : Envelope)
    → IsValid env
    → drop 66 (header env) ≡ put_uint32 env.session_id ++ put_uint32 (length env.payload % 2 ^ 32)
unfolding header
header_words env v = rw (← append_assoc env.src_peer_id env.dst_peer_id) (
    drop-append (env.src_peer_id ++ env.dst_peer_id) _ 64
      (omega (arith, length-append env.src_peer_id env.dst_peer_id, v.src_length, v.dst_length)))

header_session : (env : Envelope) → IsValid env → uint32 (slice 66 70 (header env)) ≡ env.session_id
unfolding put_uint32
header_session env v = rw (header_words env v) (uint32-put_uint32 _ v.session_word)

pub header_payload_length :
    (env : Envelope) → IsValid env → uint32 (slice 70 74 (header env)) ≡ length env.payload
unfolding header
header_payload_length env v =
    let s = put_uint32 env.session_id in
    let l = put_uint32 (length env.payload % 2 ^ 32) in
    rw
      (
        ← append_assoc env.dst_peer_id s l,
        ← append_assoc env.src_peer_id (env.dst_peer_id ++ s) l,
        drop-append (env.src_peer_id ++ (env.dst_peer_id ++ s)) l 68 (
            unfold put_uint32 in
            omega (
              arith,
              length-append env.src_peer_id (env.dst_peer_id ++ s),
              length-append env.dst_peer_id s,
              v.src_length,
              v.dst_length,
            )),
        mod-eq_of_lt v.payload_fits,
      )
      (unfold put_uint32 in uint32-put_uint32 _ v.payload_fits)

read_payload-append :
    (p rest : Bytes) (e : Error)
    → read_payload (length p) (record { bytes = p ++ rest; ending = e })
      ≡ ok (p, record { bytes = rest; ending = e })
unfolding read_payload
read_payload-append [] rest e = refl
read_payload-append (b ∷ p) rest e =
    ground (arith, read_full-append (b ∷ p) rest e (length (b ∷ p)) refl)

-- Decoding the bytes of an envelope, whatever follows them, gives the envelope and leaves what
-- follows.
pub decode-frame :
    (env : Envelope) (rest : Bytes) (e : Error)
    → IsValid env
    → decode (record { bytes = frame env ++ rest; ending = e })
      ≡ ok (env, record { bytes = rest; ending = e })
unfolding decode
decode-frame env rest e v =
    rw
      (
        append_assoc (header env) env.payload rest,
        read_full-append (header env) (env.payload ++ rest) e 74 (sym (length-header env v)),
        header_payload_length env v,
        read_payload-append env.payload rest e,
        header_src env v,
        header_dst env v,
        header_session env v,
      )
      (unfold header in refl)

module _ {W : Type 0} ⦃wr : Writer W⦄ where
  out-write_payload :
      (w : W) (payload : Bytes)
      → (write_payload w payload).1 ≡ none
      → wr.out (write_payload w payload).0 ≡ wr.out w ++ payload
  unfolding write_payload
  out-write_payload w [] h = sym (append-nil _)
  out-write_payload w (b ∷ bs) h = ground (
    arith,
    checked-none "envelope: write payload" (wr.write w (b ∷ bs)) (λ w'. (w', none)),
    wr.write_ok w (b ∷ bs),
  )

  -- What a call of `Encode` that returns no error has written is the header and the payload.
  pub out-encode :
      (w : W) (env : Envelope)
      → (encode w env).1 ≡ none
      → wr.out (encode w env).0 ≡ wr.out w ++ frame env
  unfolding encode
  out-encode w env h =
      let text : String = "envelope: write header" in
      let rest = λ (w' : W). write_payload w' env.payload in
      let (first, second) = checked-none text (wr.write w (header env)) rest h in
      let w' = (wr.write w (header env)).0 in
      ap (λ (r : W × Option Error). wr.out r.0) second
      ∙ out-write_payload w' env.payload (ap (λ (r : W × Option Error). r.1) (sym second) ∙ h)
      ∙ rw (wr.write_ok w (header env) first) (append_assoc (wr.out w) (header env) env.payload)
