-- ===== src/Envelope/Progress.antt =====
-- Decode takes bytes.
use malon.Base.{◌<◌, ◌≡◌, ap, arith, ok, length, length-append}
use malon.Io.{Stream, slice, uint32}
use malon.Envelope.{Envelope, decode, header_size}
use malon.Envelope.Input.{decode_steps, read_full-ok, read_payload-ok}

-- What is left behind an envelope is shorter than the stream was.
pub decode-shorter :
    (s : Stream) (env : Envelope) (s'' : Stream)
    → decode s ≡ ok (env, s'')
    → length s''.bytes < length s.bytes
decode-shorter s env s'' h =
    let (hdr, s', read, paid, _) = decode_steps s env s'' h in
    let (front, n, _) = read_full-ok header_size s hdr s' read in
    let (middle, _, _) = read_payload-ok (uint32 (slice 70 74 hdr)) s' env.payload s'' paid in
    omega (
      arith,
      ap length front,
      length-append hdr s'.bytes,
      n,
      ap length middle,
      length-append env.payload s''.bytes,
    )
