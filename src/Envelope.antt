-- ===== src/Envelope.antt =====
-- internal/envelope/envelope.go: the frames on the stream between a peer and the relay.
pub mod RoundTrip
pub mod Input
pub mod Progress
use malon.Base.{
  ℕ, ◌+◌, ◌%◌, ◌^◌, ◌<◌, ◌≡◌, Option, none, [], ◌∷◌, ◌++◌, Bytes, IsByte, Error, Result, ok,
  wrapping, ◌>>=◌, length, ltb, if◌then◌else◌,
}
use malon.Io.{Stream, Writer, checked, read_full, put_uint32, big_endian, uint32, slice, byte_at}

abbrev pub version1 : ℕ
version1 = 1

abbrev pub stream_type_data : ℕ
stream_type_data = 0

abbrev pub stream_type_control : ℕ
stream_type_control = 1

abbrev pub header_size : ℕ
header_size = 1 + 1 + 32 + 32 + 4 + 4

-- A peer identity is an array of 32 bytes.
pub record Envelope : Type 0 where
  pub version : ℕ
  pub stream_type : ℕ
  pub src_peer_id : Bytes
  pub dst_peer_id : Bytes
  pub session_id : ℕ
  pub payload : Bytes

-- What Go's types give for free, and a payload whose length a uint32 holds.
pub record IsValid (env : Envelope) : Type 0 where
  pub version_byte : IsByte env.version
  pub type_byte : IsByte env.stream_type
  pub src_length : length env.src_peer_id ≡ 32
  pub dst_length : length env.dst_peer_id ≡ 32
  pub session_word : env.session_id < 2 ^ 32
  pub payload_fits : length env.payload < 2 ^ 32

unfoldable pub header : Envelope → Bytes
unfolding put_uint32
header env =
    env.version
    ∷ env.stream_type
    ∷ (env.src_peer_id
        ++ (env.dst_peer_id
            ++ (put_uint32 env.session_id ++ put_uint32 (length env.payload % 2 ^ 32))))

-- The bytes that stand for one envelope.
abbrev pub frame : Envelope → Bytes
frame env = header env ++ env.payload

-- An empty payload is not written.
write_payload : {W : Type 0} ⦃wr : Writer W⦄ → W → Bytes → W × Option Error
write_payload ⦃wr⦄ w payload =
    if ltb 0 (length payload)
    then checked "envelope: write payload" (wr.write w payload) (λ w'. (w', none))
    else (w, none)

-- `Encode`: the header and the payload are two calls of `Write`.
unfoldable pub encode : {W : Type 0} ⦃wr : Writer W⦄ → W → Envelope → W × Option Error
unfolding write_payload
encode ⦃wr⦄ w env =
    checked "envelope: write header" (wr.write w (header env)) λ w'. write_payload w' env.payload

-- A length of zero reads nothing more.
unfoldable pub read_payload : ℕ → Stream → Result (Bytes × Stream)
unfolding read_full
read_payload n s = if ltb 0 n then wrapping "envelope: read payload" (read_full n s) else ok ([], s)

unfoldable pub decode : Stream → Result (Envelope × Stream)
unfolding read_full read_payload big_endian
decode s = do
  (hdr, s') ← wrapping "envelope: read header" (read_full header_size s)
  (payload, s'') ← read_payload (uint32 (slice 70 74 hdr)) s'
  ok (
    record {
      version = byte_at hdr 0;
      stream_type = byte_at hdr 1;
      src_peer_id = slice 2 34 hdr;
      dst_peer_id = slice 34 66 hdr;
      session_id = uint32 (slice 66 70 hdr);
      payload = payload;
    },
    s'',
  )
