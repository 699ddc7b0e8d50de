-- ===== src/Capsule/Rounds.antt =====
-- One round of the loop in `ReadPacket`, for each kind of capsule.
use malon.Base.{
  ℕ, ◌^◌, ◌≤◌, ◌<◌, ◌≡◌, ◌≢◌, refl, ◌∙◌, [], ◌∷◌, ◌++◌, Bytes, List, Error, ok, length, ltb,
  if◌then◌else◌, arith, append_assoc, false, Option, none, some, ◌==◌, length-append, take-append,
  drop-append, le→leb, errorf,
}
use native.Mathlib.Nat.{mod-eq_of_lt}
use malon.Io.{Stream}
use malon.Envelope.RoundTrip.{read_full-append}
use malon.Chan.{Chan, offer, offer_all}
use malon.Capsule.{
  append_varint, discard, deliver, read_body, read_round, CapsuleReader, next, packet, failed,
  capsule_type_ip_packet, capsule_type_control, max_capsule_len,
}
use malon.Capsule.Varint.{read_varint-append_varint}

pub record Capsule : Type 0 where
  pub kind : ℕ
  pub payload : Bytes

-- Type, length, payload.
abbrev pub capsule_bytes : Capsule → Bytes
capsule_bytes c = append_varint [] c.kind ++ (append_varint [] (length c.payload) ++ c.payload)

abbrev pub stream_of : List Capsule → Bytes
stream_of [] = []
stream_of (c ∷ cs) = capsule_bytes c ++ stream_of cs

-- Control capsules and those of a type that the reader does not know, within the reader's limit.
pub record IsAhead (c : Capsule) : Type 0 where
  pub kind_range : c.kind < 2 ^ 62
  pub not_packet : c.kind ≢ capsule_type_ip_packet
  pub within : length c.payload ≤ max_capsule_len

-- The payloads of the control capsules among these.
abbrev pub controls : List Capsule → List Bytes
controls [] = []
controls (c ∷ cs) =
    let rest = controls cs in if c.kind == capsule_type_control then c.payload ∷ rest else rest

abbrev pub IsOpen : Option (Chan Bytes) → Type 0
IsOpen none = Unit {0}
IsOpen (some ch) = ch.is_closed ≡ false

abbrev pub offered : List Bytes → Option (Chan Bytes) → Option (Chan Bytes)
offered ps none = none
offered ps (some ch) = some (offer_all ps ch)

abbrev pub reader : Bytes → Error → Option (Chan Bytes) → CapsuleReader
reader bytes e ch = record { rd = record { bytes = bytes; ending = e }; ctrl_ch = ch }

-- The type and the length of a capsule are read back, and its payload is left.
pub read_round-capsule_bytes :
    (size : ℕ) (c : Capsule) (rest : Bytes) (e : Error) (ch : Option (Chan Bytes))
    → c.kind < 2 ^ 62
    → length c.payload < 2 ^ 62
    → read_round size (reader (capsule_bytes c ++ rest) e ch) ≡ (
        if ltb max_capsule_len (length c.payload)
        then failed ch (errorf "capsule: payload length exceeds limit")
        else read_body size c.kind
            (length c.payload)
            (record { bytes = c.payload ++ rest; ending = e })
            ch)
unfolding read_round
read_round-capsule_bytes size c rest e ch k l =
    let size_field = append_varint [] (length c.payload) in
    rw (
      append_assoc (append_varint [] c.kind) (size_field ++ c.payload) rest,
      read_varint-append_varint c.kind ((size_field ++ c.payload) ++ rest) e (omega arith),
      append_assoc size_field c.payload rest,
      read_varint-append_varint (length c.payload) (c.payload ++ rest) e (omega arith),
      mod-eq_of_lt k,
      mod-eq_of_lt l,
    )

pub read_round-capsule :
    (size : ℕ) (c : Capsule) (rest : Bytes) (e : Error) (ch : Option (Chan Bytes))
    → c.kind < 2 ^ 62
    → length c.payload ≤ max_capsule_len
    → read_round size (reader (capsule_bytes c ++ rest) e ch)
      ≡ read_body size c.kind
          (length c.payload)
          (record { bytes = c.payload ++ rest; ending = e })
          ch
read_round-capsule size c rest e ch k l =
    read_round-capsule_bytes size c rest e ch k (omega arith) ∙ ground arith

discard-append :
    (xs ys : Bytes) (e : Error)
    → discard (length xs) (record { bytes = xs ++ ys; ending = e })
      ≡ ok (xs, record { bytes = ys; ending = e })
unfolding discard
discard-append xs ys e = rw (
  le→leb (length xs) (length (xs ++ ys)) (omega (arith, length-append xs ys)),
  take-append xs ys (length xs) refl,
  drop-append xs ys (length xs) refl,
)

pub offered_nil : (ch : Option (Chan Bytes)) → offered [] ch ≡ ch
unfolding offer_all
offered_nil none = refl
offered_nil (some ch) = refl

pub offered_cons :
    (p : Bytes) (ps : List Bytes) (ch : Option (Chan Bytes))
    → offered (p ∷ ps) ch ≡ offered ps (offered (p ∷ []) ch)
unfolding offer_all
offered_cons p ps none = refl
offered_cons p ps (some ch) = refl

pub offered-IsOpen :
    (p : Bytes) (ch : Option (Chan Bytes)) → IsOpen ch → IsOpen (offered (p ∷ []) ch)
unfolding offer_all offer
offered-IsOpen p none h = tt
offered-IsOpen p (some ch) h = ground arith

deliver-offered :
    (p : Bytes) (s : Stream) (ch : Option (Chan Bytes))
    → IsOpen ch
    → deliver p s ch ≡ next (record { rd = s; ctrl_ch = offered (p ∷ []) ch })
unfolding deliver offer_all offer
deliver-offered p s none h = refl
deliver-offered p s (some ch) h = ground arith

-- A capsule that is no packet is passed over; a control capsule's payload is offered.
pub read_body-ahead :
    (size : ℕ) (c : Capsule) (rest : Bytes) (e : Error) (ch : Option (Chan Bytes))
    → IsAhead c
    → IsOpen ch
    → read_body size c.kind (length c.payload) (record { bytes = c.payload ++ rest; ending = e }) ch
      ≡ next (reader rest e (offered (controls (c ∷ [])) ch))
unfolding read_body
read_body-ahead size c rest e ch a open_ = ground (
  arith,
  read_full-append c.payload rest e (length c.payload) refl,
  discard-append c.payload rest e,
  deliver-offered c.payload (record { bytes = rest; ending = e }) ch,
  offered_nil ch,
)

-- A packet that fits the buffer is returned.
pub read_body_packet :
    (size : ℕ) (p rest : Bytes) (e : Error) (ch : Option (Chan Bytes))
    → length p ≤ size
    → read_body size capsule_type_ip_packet (length p) (record { bytes = p ++ rest; ending = e }) ch
      ≡ packet (reader rest e ch) p
unfolding read_body
read_body_packet size p rest e ch h = ground (arith, read_full-append p rest e (length p) refl)

abbrev pub ip_packet : Bytes → Capsule
ip_packet p = record { kind = capsule_type_ip_packet; payload = p }
