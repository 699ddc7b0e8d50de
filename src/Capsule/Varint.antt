-- ===== src/Capsule/Varint.antt =====
-- internal/h2proxy/capsule.go: readVarint against appendVarint.
use native.Mathlib.Nat.{mod-eq_of_lt, pow-suc}
use malon.Base.{
  ℕ, zero, suc, ◌+◌, ◌-◌, ◌*◌, ◌/◌, ◌%◌, ◌^◌, ◌≤◌, ◌<◌, ◌≡◌, refl, ap, ◌∙◌, bit_or, [], ◌∷◌, ◌++◌,
  Bytes, IsByte, All, Error, ok, length, arith,
}
use malon.Base.Bits.{and_3f, or_40, or_80, or_c0, shl_8-or}
use malon.Io.{big_endian}
use malon.Capsule.{more_bytes, read_varint, append_varint, byte_shr}

-- One more byte of the loop in `readVarint`, where no bit is shifted out.
shift_in :
    (val b : ℕ) → b < 256 → (val + 1) * 256 ≤ 2 ^ 64 → bit_or (val * 256 % 2 ^ 64) b ≡ val * 256 + b
shift_in val b h fits = ap (λ (w : ℕ). bit_or w b) (mod-eq_of_lt (omega arith)) ∙ shl_8-or val b h

pow_pos : (n : ℕ) → 1 ≤ 256 ^ n
pow_pos zero = omega arith
pow_pos (suc n) = omega (arith, pow-suc 256 n, pow_pos n)

first_fits : (x p : ℕ) → 1 ≤ p → x * (p * 256) ≤ 2 ^ 64 → x * 256 ≤ 2 ^ 64
first_fits x p h fits = grind arith

rest_fits :
    (val b p : ℕ) → b < 256 → (val + 1) * (p * 256) ≤ 2 ^ 64 → (val * 256 + b + 1) * p ≤ 2 ^ 64
rest_fits val b p h fits = grind arith

-- The loop reads big-endian digits.
more_bytes-big_endian :
    (bs rest : Bytes) (val : ℕ) (e : Error)
    → All IsByte bs
    → (val + 1) * 256 ^ length bs ≤ 2 ^ 64
    → more_bytes (length bs) val (record { bytes = bs ++ rest; ending = e })
      ≡ ok (big_endian val bs, record { bytes = rest; ending = e })
unfolding more_bytes big_endian
more_bytes-big_endian [] rest val e h fits = refl
more_bytes-big_endian (b ∷ bs) rest val e h fits =
    let wide : (val + 1) * (256 ^ length bs * 256) ≤ 2 ^ 64 = rw (← pow-suc 256 (length bs)) fits in
    rw (shift_in val b h.0 (first_fits (val + 1) _ (pow_pos (length bs)) wide))
      (more_bytes-big_endian bs rest (val * 256 + b) e h.1 (rest_fits val b _ h.0 wide))

-- The two top bits of the first byte say how many follow.
read_varint-bytes :
    (b p w : ℕ) (bs rest : Bytes) (e : Error)
    → b < 256
    → b / 64 ≡ p
    → length bs ≡ 2 ^ p - 1
    → All IsByte bs
    → (b % 64 + 1) * 256 ^ length bs ≤ 2 ^ 64
    → big_endian (b % 64) bs ≡ w
    → read_varint (record { bytes = b ∷ (bs ++ rest); ending = e })
      ≡ ok (w, record { bytes = rest; ending = e })
unfolding read_varint
read_varint-bytes b p w bs rest e hb top n hbs fits value =
    rw (top, ← n, and_3f b hb, ← value) (more_bytes-big_endian bs rest (b % 64) e hbs fits)

-- Two digits of a number in base 256 are one digit of its quotient and its remainder.
split_byte : (q : ℕ) → q ≡ q / 256 * 256 + q % 256
split_byte q = omega arith

-- The eight bytes of a uint64, the top two bits cleared, are the number modulo 2 ^ 62.
digits :
    (v : ℕ)
    → v < 2 ^ 64
    → (((((((byte_shr v 56 % 64 + 192) % 64 * 256 + byte_shr v 48) * 256 + byte_shr v 40) * 256
                        + byte_shr v 32)
                      * 256
                    + byte_shr v 24)
                  * 256
                + byte_shr v 16)
              * 256
            + byte_shr v 8)
          * 256
        + byte_shr v 0
      ≡ v % 2 ^ 62
digits v h = omega arith

-- The four lengths.
module _ (v : ℕ) (rest : Bytes) (e : Error) where
  one_byte :
      v < 64
      → read_varint (record { bytes = byte_shr v 0 ∷ rest; ending = e })
        ≡ ok (v, record { bytes = rest; ending = e })
  unfolding big_endian
  one_byte h =
      read_varint-bytes (byte_shr v 0) 0 v [] rest e (omega arith) (omega arith) refl tt
        (omega arith) (omega arith)

  two_bytes :
      v < 16384
      → read_varint
          (record { bytes = bit_or (byte_shr v 8) 0x40 ∷ byte_shr v 0 ∷ rest; ending = e })
        ≡ ok (v, record { bytes = rest; ending = e })
  unfolding big_endian
  two_bytes h = rw (or_40 (byte_shr v 8) (omega arith)) (
      read_varint-bytes (byte_shr v 8 + 64) 1 v (byte_shr v 0 ∷ []) rest e (omega arith)
        (omega arith) refl (omega arith) (omega arith) (omega arith))

  four_bytes :
      v < 1073741824
      → read_varint (record {
        bytes = bit_or (byte_shr v 24) 0x80 ∷ byte_shr v 16 ∷ byte_shr v 8 ∷ byte_shr v 0 ∷ rest;
        ending = e;
      })
        ≡ ok (v, record { bytes = rest; ending = e })
  unfolding big_endian
  four_bytes h = rw (or_80 (byte_shr v 24) (omega arith)) (
      read_varint-bytes (byte_shr v 24 + 128) 2 v (byte_shr v 16 ∷ byte_shr v 8 ∷ byte_shr v 0 ∷ [])
        rest e (omega arith) (omega arith) refl (omega arith) (omega arith) (omega arith))

  eight_bytes :
      v < 2 ^ 64
      → read_varint (record {
        bytes =
            bit_or (byte_shr v 56) 0xc0
            ∷ byte_shr v 48
            ∷ byte_shr v 40
            ∷ byte_shr v 32
            ∷ byte_shr v 24
            ∷ byte_shr v 16
            ∷ byte_shr v 8
            ∷ byte_shr v 0
            ∷ rest;
        ending = e;
      })
        ≡ ok (v % 2 ^ 62, record { bytes = rest; ending = e })
  unfolding big_endian
  eight_bytes h = rw (or_c0 (byte_shr v 56) (omega arith)) (
      read_varint-bytes (byte_shr v 56 % 64 + 192) 3 (v % 2 ^ 62)
        (byte_shr v 48
          ∷ byte_shr v 40
          ∷ byte_shr v 32
          ∷ byte_shr v 24
          ∷ byte_shr v 16
          ∷ byte_shr v 8
          ∷ byte_shr v 0
          ∷ [])
        rest e (omega arith) (omega arith) refl (omega arith) (omega arith) (digits v h))

-- Every uint64 is read back modulo 2 ^ 62, and reading leaves what follows. So a number below
-- 2 ^ 62 is read back as it is.
pub read_varint-append_varint :
    (v : ℕ) (rest : Bytes) (e : Error)
    → v < 2 ^ 64
    → read_varint (record { bytes = append_varint [] v ++ rest; ending = e })
      ≡ ok (v % 2 ^ 62, record { bytes = rest; ending = e })
unfolding append_varint
read_varint-append_varint v rest e h =
    ground (arith, one_byte v rest e, two_bytes v rest e, four_bytes v rest e, eight_bytes v rest e)

-- The encoding is put behind what the buffer holds.
pub append_varint-append : (b : Bytes) (v : ℕ) → append_varint b v ≡ b ++ append_varint [] v
unfolding append_varint
append_varint-append b v = ground arith

pub length-append_varint :
    (v : ℕ) → (1 ≤ length (append_varint [] v)) × (length (append_varint [] v) ≤ 8)
unfolding append_varint
length-append_varint v = ground arith
