-- ===== src/Relay/Races.antt =====
-- internal/relay/relay.go: two handlers of the relay at a time.
use malon.Base.{
  ℕ, ◌≤◌, ◌≡◌, ◌≢◌, sym, ap, ◌∙◌, [], ◌++◌, Bytes, Error, ok, length, arith, append_assoc, none,
  length-take, take-append-drop, take, drop,
}
use malon.Base.Keys.{bytes_eq}
use malon.Io.{Writer}
use malon.Envelope.{Envelope, IsValid, header, decode}
use malon.Envelope.RoundTrip.{decode-frame}
use malon.Relay.{Relay, register, unregister, forward}

-- What the handlers of other peers do to the relay, or any handler that forwards: a call of forward, and the
-- start and the end of a handler of another peer.
pub data Other {W : Type 0} ⦃wr : Writer W⦄ (id : Bytes) : Relay W → Relay W → Type 0 where
  forwarded : (env : Envelope) (r : Relay W) → Other id r (forward env r).0
  registered : (i : Bytes) (h : ℕ) (r : Relay W) → i ≢ id → Other id r (register i h r)
  unregistered : (i : Bytes) (r : Relay W) → i ≢ id → Other id r (unregister i r)

-- Any number of these, in any order.
pub data Others {W : Type 0} ⦃wr : Writer W⦄ (id : Bytes) (r : Relay W) : Relay W → Type 0 where
  nothing : Others id r r
  then_ : {s t : Relay W} → Others id r s → Other id s t → Others id r t

header_same :
    (env : Envelope) (payload : Bytes)
    → length payload ≡ length env.payload
    → header (record env { payload = payload }) ≡ header env
unfolding header
header_same env payload e = rw e

-- Where the header of a second envelope is written between the header and the payload of a first, a
-- reader of the stream takes the beginning of the second header for the payload of the first.
pub decode_interleaved :
    (env env' : Envelope) (rest : Bytes) (e : Error)
    → IsValid env
    → length env.payload ≤ length (header env')
    → let n = length env.payload in
      decode (record { bytes = header env ++ (header env' ++ rest); ending = e })
      ≡ ok (
        record env { payload = take n (header env') },
        record { bytes = drop n (header env') ++ rest; ending = e },
      )
decode_interleaved env env' rest e v h =
    let n = length env.payload in
    let read_as : Envelope = record env { payload = take n (header env') } in
    let same : length read_as.payload ≡ n = omega (arith, length-take n (header env')) in
    let valid : IsValid read_as = record {
      version_byte = v.version_byte;
      type_byte = v.type_byte;
      src_length = v.src_length;
      dst_length = v.dst_length;
      session_word = v.session_word;
      payload_fits = omega (arith, same, v.payload_fits);
    } in
    ap (λ (b : Bytes). decode (record { bytes = b; ending = e }))
      (ap (λ (b : Bytes). header env ++ (b ++ rest)) (sym (take-append-drop n (header env')))
        ∙ ap (◌++◌ (header env)) (append_assoc (take n (header env')) (drop n (header env')) rest)
        ∙ sym (append_assoc (header env) (take n (header env')) (drop n (header env') ++ rest))
        ∙ ap (λ (b : Bytes). (b ++ take n (header env')) ++ (drop n (header env') ++ rest))
            (sym (header_same env read_as.payload same)))
    ∙ decode-frame read_as (drop n (header env') ++ rest) e valid

-- The same in terms of the writes of two concurrent calls of `forward` to one destination, which no
-- lock keeps apart: after both headers, and whatever is written then, the reader gets the first
-- envelope with bytes of the second header for its payload.
pub decode_two_forwards :
    {W : Type 0} ⦃wr : Writer W⦄ (env env' : Envelope) (w : W) (rest : Bytes) (e : Error)
    → IsValid env
    → length env.payload ≤ length (header env')
    → wr.out w ≡ []
    → (wr.write w (header env)).1 ≡ none
    → (wr.write (wr.write w (header env)).0 (header env')).1 ≡ none
    → let n = length env.payload in
      let w' = (wr.write (wr.write w (header env)).0 (header env')).0 in
      decode (record { bytes = wr.out w' ++ rest; ending = e })
      ≡ ok (
        record env { payload = take n (header env') },
        record { bytes = drop n (header env') ++ rest; ending = e },
      )
decode_two_forwards ⦃wr⦄ env env' w rest e v h start first second =
    let w' = (wr.write w (header env)).0 in
    ap (λ (b : Bytes). decode (record { bytes = b ++ rest; ending = e }))
      (wr.write_ok w' (header env') second
        ∙ ap (λ (b : Bytes). b ++ header env')
            (wr.write_ok w (header env) first ∙ ap (λ (b : Bytes). b ++ header env) start))
    ∙ ap (λ (b : Bytes). decode (record { bytes = b; ending = e }))
        (append_assoc (header env) (header env') rest)
    ∙ decode_interleaved env env' rest e v h
