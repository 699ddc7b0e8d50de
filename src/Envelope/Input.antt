-- ===== src/Envelope/Input.antt =====
-- `Decode` on arbitrary input: what it accepts, and what it says of input that ends too early.
use mathlib.Core.Path.{◌≡⟨◌⟩◌, ◌∎, ap₂}
use native.Mathlib.Nat.{mod-eq_of_lt}
use malon.Base.{
  drop_cut, ℕ, zero, suc, ◌-◌, ◌%◌, ◌^◌, ◌≤◌, ◌<◌, ◌≡◌, refl, sym, ap, ◌∙◌, [], ◌∷◌, ◌++◌, Bytes,
  IsByte, Error, eof, unexpected_eof, wrap, String, ok, err, length, take, drop, All, ltb, ◌==◌,
  length-append, append_assoc, arith, ltb→lt, append_split, Bool-cases, inl, inr, if◌then◌else◌,
  take_all, ◌||◌, Result-cases, length-take, length-drop, All-take, All-drop, List,
  take-append-drop,
}
use malon.Io.{Stream, read_full, put_uint32, big_endian, uint32, slice, short_read, byte_at}
use malon.Envelope.{Envelope, IsValid, header, header_size, frame, decode, read_payload}
use malon.Envelope.RoundTrip.{length-header, read_full-append, header_payload_length}

-- A read that succeeds has cut its bytes off the front.
pub read_full-ok :
    (n : ℕ) (s : Stream) (bs : Bytes) (s' : Stream)
    → read_full n s ≡ ok (bs, s')
    → (s.bytes ≡ bs ++ s'.bytes) × (length bs ≡ n) × (s'.ending ≡ s.ending)
unfolding read_full
read_full-ok n s bs s' h = ground (arith, take-append-drop n s.bytes, length-take n s.bytes)

pub read_full_short : (n : ℕ) (s : Stream) → length s.bytes < n → read_full n s ≡ err (short_read s)
unfolding read_full
read_full_short n s h = ground arith

pub read_payload-ok :
    (n : ℕ) (s : Stream) (bs : Bytes) (s' : Stream)
    → read_payload n s ≡ ok (bs, s')
    → (s.bytes ≡ bs ++ s'.bytes) × (length bs ≡ n) × (s'.ending ≡ s.ending)
unfolding read_payload
read_payload-ok zero s bs s' h = ground arith
read_payload-ok (suc n) s bs s' h =
    ground (arith, Result-cases (read_full (suc n) s), read_full-ok (suc n) s bs s')

read_payload_short :
    (n : ℕ) (s : Stream)
    → length s.bytes < n
    → read_payload n s ≡ err (wrap "envelope: read payload" (short_read s))
unfolding read_payload
read_payload_short n s h = ground (arith, read_full_short n s)

-- The stream ended inside the header, or inside the payload.
abbrev pub cut_text : ℕ → String
cut_text n = if ltb n header_size then "envelope: read header" else "envelope: read payload"

abbrev pub cut_error : ℕ → Error
cut_error n = if n == 0 || n == header_size then eof else unexpected_eof

-- On a proper prefix of an envelope's bytes, decoding fails. The error names the part that is
-- missing, and is `io.EOF`, wrapped, exactly where the stream ended before that part began.
pub decode_truncated :
    (env : Envelope) (front back : Bytes) (b : ℕ)
    → IsValid env
    → frame env ≡ front ++ b ∷ back
    → decode (record { bytes = front; ending = eof })
      ≡ err (wrap (cut_text (length front)) (cut_error (length front)))
unfolding decode
decode_truncated env front back b v e = elim (Bool-cases (ltb (length front) header_size)) [
  | inl short ↦
      rw
        (
          read_full_short header_size (record { bytes = front; ending = eof }) (ltb→lt _ _ short),
          short,
        )
        (ground arith)
  | inr long ↦
      let whole : length (header env) ≤ length front = ground (arith, length-header env v) in
      let (mid, p, q) = append_split (header env) env.payload front (b ∷ back) e whole in
      rw
        (
          p,
          read_full-append (header env) mid eof 74 (sym (length-header env v)),
          header_payload_length env v,
          read_payload_short (length env.payload) (record { bytes = mid; ending = eof })
              (ground (arith, ap length q, length-append mid (b ∷ back))),
        )
        (ground (arith, length-header env v, length-append (header env) mid))
]

put_uint32-uint32 : (bs : Bytes) → length bs ≡ 4 → All IsByte bs → put_uint32 (uint32 bs) ≡ bs
unfolding put_uint32 big_endian
put_uint32-uint32 [] n h = absurd (omega arith)
put_uint32-uint32 (a ∷ []) n h = absurd (omega arith)
put_uint32-uint32 (a ∷ b ∷ []) n h = absurd (omega arith)
put_uint32-uint32 (a ∷ b ∷ c ∷ []) n h = absurd (omega arith)
put_uint32-uint32 (a ∷ b ∷ c ∷ d ∷ []) n h = ground arith
put_uint32-uint32 (a ∷ b ∷ c ∷ d ∷ e ∷ bs) n h = absurd (omega arith)

uint32-lt : (bs : Bytes) → length bs ≡ 4 → All IsByte bs → uint32 bs < 2 ^ 32
unfolding big_endian
uint32-lt [] n h = absurd (omega arith)
uint32-lt (a ∷ []) n h = absurd (omega arith)
uint32-lt (a ∷ b ∷ []) n h = absurd (omega arith)
uint32-lt (a ∷ b ∷ c ∷ []) n h = absurd (omega arith)
uint32-lt (a ∷ b ∷ c ∷ d ∷ []) n h = omega arith
uint32-lt (a ∷ b ∷ c ∷ d ∷ e ∷ bs) n h = absurd (omega arith)

-- The pieces that the decoder cuts a header into make up the header.
header_pieces :
    (hdr : Bytes)
    → length hdr ≡ header_size
    → hdr
      ≡ byte_at hdr 0
        ∷ byte_at hdr 1
        ∷ (slice 2 34 hdr ++ (slice 34 66 hdr ++ (slice 66 70 hdr ++ slice 70 74 hdr)))
header_pieces [] n = absurd (omega arith)
header_pieces (x ∷ []) n = absurd (omega arith)
header_pieces (x ∷ y ∷ t) n =
    ap (λ u. x ∷ y ∷ u)
      (t
        ≡⟨ drop_cut 0 32 32 t refl ⟩ take 32 t ++ drop 32 t
        ≡⟨ ap (◌++◌ (take 32 t)) (drop_cut 32 32 64 t refl) ⟩
          take 32 t ++ (take 32 (drop 32 t) ++ drop 64 t)
        ≡⟨ ap (λ u. take 32 t ++ (take 32 (drop 32 t) ++ u)) tail ⟩
          take 32 t ++ (take 32 (drop 32 t) ++ (take 4 (drop 64 t) ++ take 4 (drop 68 t))) ∎)
  where
    tail : drop 64 t ≡ take 4 (drop 64 t) ++ take 4 (drop 68 t)
    tail =
        drop_cut 64 4 68 t refl
        ∙ ap (◌++◌ (take 4 (drop 64 t)))
            (sym (take_all 4 (drop 68 t) (omega (arith, length-drop 68 t))))

length-slice : (lo hi : ℕ) (b : Bytes) → lo ≤ hi → hi ≤ length b → length (slice lo hi b) ≡ hi - lo
length-slice lo hi b h k = omega (arith, length-take (hi - lo) (drop lo b), length-drop lo b)

slice-IsByte : (lo hi : ℕ) (b : Bytes) → All IsByte b → All IsByte (slice lo hi b)
slice-IsByte lo hi b h = All-take IsByte (hi - lo) (drop lo b) (All-drop IsByte lo b h)

byte_at-IsByte : (b : Bytes) (i : ℕ) → All IsByte b → IsByte (byte_at b i)
byte_at-IsByte [] zero h = omega arith
byte_at-IsByte [] (suc i) h = omega arith
byte_at-IsByte (x ∷ b) zero h = h.0
byte_at-IsByte (x ∷ b) (suc i) h = byte_at-IsByte b i h.1

abbrev decoded : Bytes → Bytes → Envelope
decoded hdr payload = record {
  version = byte_at hdr 0;
  stream_type = byte_at hdr 1;
  src_peer_id = slice 2 34 hdr;
  dst_peer_id = slice 34 66 hdr;
  session_id = uint32 (slice 66 70 hdr);
  payload = payload;
}

-- A decode that succeeds went through a full header and a full payload.
pub decode_steps :
    (s : Stream) (env : Envelope) (s'' : Stream)
    → decode s ≡ ok (env, s'')
    → (hdr : Bytes) × (s' : Stream) × (read_full header_size s ≡ ok (hdr, s'))
      × (read_payload (uint32 (slice 70 74 hdr)) s' ≡ ok (env.payload, s''))
      × (env ≡ decoded hdr env.payload)
unfolding decode
decode_steps s env s'' h = elim (Result-cases (read_full header_size s)) [
  | inr (e, q) ↦ cc (rw q at h)
  | inl ((hdr, s'), q) ↦ elim (Result-cases (read_payload (uint32 (slice 70 74 hdr)) s')) [
    | inr (e, r) ↦ cc (rw (q, r) at h)
    | inl ((payload, t), r) ↦ let k = rw (q, r) at h in (hdr, s', q, cc (r, k), cc k)
  ]
]

decoded-IsValid :
    (hdr payload : Bytes)
    → length hdr ≡ header_size
    → All IsByte hdr
    → length payload ≡ uint32 (slice 70 74 hdr)
    → IsValid (decoded hdr payload)
decoded-IsValid hdr payload n b l = record {
  version_byte = byte_at-IsByte hdr 0 b;
  type_byte = byte_at-IsByte hdr 1 b;
  src_length = length-slice 2 34 hdr (omega arith) (omega arith);
  dst_length = length-slice 34 66 hdr (omega arith) (omega arith);
  session_word =
      uint32-lt (slice 66 70 hdr) (length-slice 66 70 hdr (omega arith) (omega arith))
        (slice-IsByte 66 70 hdr b);
  payload_fits = omega (
    arith,
    l,
    uint32-lt (slice 70 74 hdr) (length-slice 70 74 hdr (omega arith) (omega arith))
        (slice-IsByte 70 74 hdr b),
  );
}

decoded-header :
    (hdr payload : Bytes)
    → length hdr ≡ header_size
    → All IsByte hdr
    → length payload ≡ uint32 (slice 70 74 hdr)
    → header (decoded hdr payload) ≡ hdr
unfolding header
decoded-header hdr payload n b l =
    ap
      (λ (words : Bytes).
        byte_at hdr 0 ∷ byte_at hdr 1 ∷ (slice 2 34 hdr ++ (slice 34 66 hdr ++ words)))
      (ap₂ ◌++◌ session size)
    ∙ sym (header_pieces hdr n)
  where
    session : put_uint32 (uint32 (slice 66 70 hdr)) ≡ slice 66 70 hdr
    session =
        put_uint32-uint32 (slice 66 70 hdr) (length-slice 66 70 hdr (omega arith) (omega arith))
          (slice-IsByte 66 70 hdr b)

    size : put_uint32 (length payload % 2 ^ 32) ≡ slice 70 74 hdr
    size =
        ap put_uint32 (mod-eq_of_lt (decoded-IsValid hdr payload n b l).payload_fits ∙ l)
        ∙ put_uint32-uint32 (slice 70 74 hdr) (length-slice 70 74 hdr (omega arith) (omega arith))
            (slice-IsByte 70 74 hdr b)

All-front {ℓ κ} : {A : Type ℓ} (P : A → Type κ) (xs ys : List A) → All P (xs ++ ys) → All P xs
All-front P [] ys h = tt
All-front P (x ∷ xs) ys h = (h.0, All-front P xs ys h.1)

-- An envelope that `Decode` returns is one whose bytes stood at the front of the input, and the
-- rest of the stream is what followed them: no other input yields it.
pub decode_sound :
    (s : Stream) (env : Envelope) (s' : Stream)
    → All IsByte s.bytes
    → decode s ≡ ok (env, s')
    → IsValid env × (s.bytes ≡ frame env ++ s'.bytes) × (s'.ending ≡ s.ending)
decode_sound s env s'' b h =
    let (hdr, s', read, paid, made) = decode_steps s env s'' h in
    let (front, n, same) = read_full-ok header_size s hdr s' read in
    let (middle, l, same') = read_payload-ok (uint32 (slice 70 74 hdr)) s' env.payload s'' paid in
    let hb : All IsByte hdr = All-front IsByte hdr s'.bytes (rw (← front) b) in
    (
      rw made (decoded-IsValid hdr env.payload n hb l),
      front
          ∙ ap (◌++◌ hdr) middle
          ∙ sym (append_assoc hdr env.payload s''.bytes)
          ∙ ap (λ (x : Bytes). (x ++ env.payload) ++ s''.bytes)
              (sym (ap header made ∙ decoded-header hdr env.payload n hb l)),
      same' ∙ same,
    )
