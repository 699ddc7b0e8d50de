-- ===== src/Tests/Wire.antt =====
-- Runs of the envelope codec and of the relay.
use malon.Base.{
  Result, String, errorf, ◌≡◌, Bool, true, false, ltb, refl, Bytes, IsByte, All, [], ◌∷◌, ◌++◌,
  some, eof, wrap, ok, err, arith, if◌then◌else◌,
}
use malon.Base.Keys.{bytes_eq}
use malon.Io.{Stream}
use malon.Envelope.{Envelope, IsValid, frame, header, decode}
use malon.Envelope.RoundTrip.{decode-frame}
use malon.Envelope.Input.{decode_sound, decode_truncated, cut_text, cut_error}
use text.Mathlib.Text.{◌==◌ as str_eq}
use malon.Relay.{Request, Relay, register, unregister, forward}
use malon.Tests.{buffer, peer_a, peer_b, hello, hello-IsValid}

abbrev junk : Bytes
junk = 7 ∷ 8 ∷ []

decode-frame_example :
    decode (record { bytes = frame hello ++ junk; ending = eof })
    ≡ ok (hello, record { bytes = junk; ending = eof })
decode-frame_example = decode-frame hello junk eof hello-IsValid

abbrev wire : Stream
wire = record { bytes = frame hello ++ junk; ending = eof }

abbrev are_bytes : Bytes → Bool
are_bytes [] = true
are_bytes (b ∷ bs) = let rest = are_bytes bs in if ltb b 256 then rest else false

All-are_bytes : (bs : Bytes) → are_bytes bs ≡ true → All IsByte bs
All-are_bytes [] h = tt
All-are_bytes (b ∷ bs) h = (ground arith, All-are_bytes bs (ground arith))

wire_bytes : All IsByte wire.bytes
unfolding header
wire_bytes = All-are_bytes wire.bytes refl

decode_sound_example : IsValid hello × (wire.bytes ≡ frame hello ++ junk) × (eof ≡ wire.ending)
decode_sound_example =
    decode_sound wire hello (record { bytes = junk; ending = eof }) wire_bytes
      (decode-frame hello junk eof hello-IsValid)

decode_truncated_example :
    decode (record { bytes = header hello ++ 104 ∷ []; ending = eof })
    ≡ err (wrap (cut_text 75) (cut_error 75))
unfolding header
decode_truncated_example =
    decode_truncated hello (header hello ++ 104 ∷ []) [] 105 hello-IsValid refl

abbrev two_peers : Relay Bytes
two_peers = record { streams = (peer_a, 0) ∷ (peer_b, 1) ∷ []; writers = λ _. [] }

-- While B's handler forwards.
abbrev to_a : Envelope
to_a = record hello { dst_peer_id = peer_a }

abbrev joined : Relay Bytes
joined = (forward to_a (register peer_a 2 two_peers)).0

abbrev overlapped : Relay Bytes
overlapped = (forward to_a (register peer_a 3 joined)).0

abbrev later : Relay Bytes
later = (forward hello (unregister peer_a overlapped)).0

-- A decoder that knows one text.
abbrev only_a : String → Result Bytes
only_a s = if str_eq s "A" then ok peer_a else err (errorf "illegal base64 data")

abbrev connect_request : Request
connect_request = record {
  is_connect = true;
  peer_id_header = some "A";
  has_flusher = true;
  body = record { bytes = []; ending = eof };
}
