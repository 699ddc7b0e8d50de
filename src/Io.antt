-- ===== src/Io.antt =====
-- What the program uses of Go's packages io and encoding/binary: byte streams that are read with
-- `io.ReadFull`, the interface `io.Writer`, and big-endian words.
use malon.Base.{
  ℕ, ◌+◌, ◌-◌, ◌*◌, ◌/◌, ◌%◌, ◌^◌, ◌≡◌, refl, sym, ap, ◌∙◌, append_assoc, Option, none, some,
  String, [], ◌∷◌, ◌++◌, Bytes, Error, wrap, unexpected_eof, is_eof, Result, ok, err, length, take,
  drop, leb, ◌==◌, if◌then◌else◌,
}

-- A reader: the bytes that will still arrive, and the error that every read after them returns.
pub record Stream : Type 0 where
  pub bytes : Bytes
  pub ending : Error

-- A read that starts at the end gets the stream's error; one that ends inside gets
-- `io.ErrUnexpectedEOF` in place of `io.EOF`.
abbrev pub short_read : Stream → Error
short_read s =
    if length s.bytes == 0 then s.ending else if is_eof s.ending then unexpected_eof else s.ending

-- `io.ReadFull(r, buf)` with `len(buf) = n`
unfoldable pub read_full : ℕ → Stream → Result (Bytes × Stream)
read_full n s =
    if leb n (length s.bytes)
    then ok (take n s.bytes, record s { bytes = drop n s.bytes })
    else err (short_read s)

-- `r.ReadByte()`
abbrev pub next_byte : Bytes → Error → Result (ℕ × Stream)
next_byte [] e = err e
next_byte (b ∷ bs) e = ok (b, record { bytes = bs; ending = e })

abbrev pub read_byte : Stream → Result (ℕ × Stream)
read_byte s = next_byte s.bytes s.ending

-- An `io.Writer`: a call of `Write` that returns no error has written all its bytes, and what one
-- that fails has written is some prefix of them. `out` is all that was written.
pub record Writer (W : Type 0) : Type 0 where
  pub write : W → Bytes → W × Option Error
  pub out : W → Bytes
  pub write_ok : (w : W) (b : Bytes) → (write w b).1 ≡ none → out (write w b).0 ≡ out w ++ b
  pub write_prefix :
      (w : W) (b : Bytes)
      → (done : Bytes) × (rest : Bytes) × (b ≡ done ++ rest) × (out (write w b).0 ≡ out w ++ done)

-- `if _, err := w.Write(b); err != nil { return fmt.Errorf("…: %w", err) }`, and what follows it.
abbrev pub checked :
    {W : Type 0} → String → W × Option Error → (W → W × Option Error) → W × Option Error
checked text (w, some e) k = (w, some (wrap text e))
checked text (w, none) k = k w

pub checked-none :
    {W : Type 0} (text : String) (r : W × Option Error) (k : W → W × Option Error)
    → (checked text r k).1 ≡ none
    → (r.1 ≡ none) × (checked text r k ≡ k r.0)
checked-none text (w, some e) k h = cc
checked-none text (w, none) k h = (refl, refl)

-- Two writes, the second only after the first succeeded.
pub out-two_writes :
    {W : Type 0} ⦃wr : Writer W⦄ (text text' : String) (w : W) (a b : Bytes)
    → (checked text (wr.write w a) (λ w'. checked text' (wr.write w' b) (λ w''. (w'', none)))).1
      ≡ none
    → wr.out
        (checked text (wr.write w a) (λ w'. checked text' (wr.write w' b) (λ w''. (w'', none)))).0
      ≡ wr.out w ++ (a ++ b)
out-two_writes ⦃wr⦄ text text' w a b h =
    let (first, q) =
      checked-none text (wr.write w a) (λ w'. checked text' (wr.write w' b) (λ w''. (w'', none)))
        h in
    let w' = (wr.write w a).0 in
    let (second, q') =
      checked-none text' (wr.write w' b) (λ w''. (w'', none)) (ap (λ r. r.1) (sym q) ∙ h) in
    ap (λ r. wr.out r.0) (q ∙ q')
    ∙ wr.write_ok w' b second
    ∙ rw (wr.write_ok w a first) (append_assoc (wr.out w) a b)

-- `binary.BigEndian.PutUint32`
unfoldable pub put_uint32 : ℕ → Bytes
put_uint32 v = (v / 2 ^ 24 % 256) ∷ (v / 2 ^ 16 % 256) ∷ (v / 2 ^ 8 % 256) ∷ (v % 256) ∷ []

-- `binary.BigEndian.Uint32`
unfoldable pub big_endian : ℕ → Bytes → ℕ
big_endian acc [] = acc
big_endian acc (b ∷ bs) = big_endian (acc * 256 + b) bs

abbrev pub uint32 : Bytes → ℕ
uint32 = big_endian 0

-- `b[lo:hi]`
abbrev pub slice : ℕ → ℕ → Bytes → Bytes
slice lo hi b = take (hi - lo) (drop lo b)

-- `b[i]` for an index in range
abbrev pub byte_at : Bytes → ℕ → ℕ
byte_at b i = first (drop i b)
  where
    first : Bytes → ℕ
    first [] = 0
    first (x ∷ xs) = x
