-- ===== src/Base/Bits.antt =====
-- Bit operations as arithmetic: masks on one byte by evaluation of every case, and `(v << 8) | b`.
use Prim.Native.Nat.{
  ℕ, zero, suc, ◌+◌, ◌*◌, ◌/◌, ◌%◌, ◌^◌, ◌≤◌, ◌<◌, max, bit_and, bit_or, digits, bit_or-bitwise,
}
use mathlib.Core.Path.{◌≡◌, refl, sym, ap, ◌∙◌}
use mathlib.Core.Bool.{Bool, true, ◌&&◌}
use native.Mathlib.Omega.{arith}
use native.Mathlib.Decide.{dec_le}
use native.Mathlib.Nat.{pow-suc, le_refl}
use malon.Base.Tests.{◌==◌, ==_iff}

module _ (f g : ℕ → ℕ) where
  same_below : ℕ → Bool
  same_below zero = true
  same_below (suc n) = f n == g n && same_below n

  same_below→eq : (n : ℕ) → same_below n ≡ true → (x : ℕ) → x < n → f x ≡ g x
  unfolding same_below
  same_below→eq zero e x h = absurd (omega arith)
  same_below→eq (suc n) e x h = ground (arith, ==_iff (f n) (g n), same_below→eq n (ground arith) x)

-- `b & 0x3f`
pub and_3f : (b : ℕ) → b < 256 → bit_and b 0x3f ≡ b % 64
unfolding same_below
and_3f = same_below→eq _ _ 256 refl

-- `b | 0x40`, `b | 0x80` and `b | 0xc0`
pub or_40 : (b : ℕ) → b < 64 → bit_or b 0x40 ≡ b + 64
unfolding same_below
or_40 = same_below→eq _ _ 64 refl

pub or_80 : (b : ℕ) → b < 64 → bit_or b 0x80 ≡ b + 128
unfolding same_below
or_80 = same_below→eq _ _ 64 refl

pub or_c0 : (b : ℕ) → b < 256 → bit_or b 0xc0 ≡ b % 64 + 192
unfolding same_below
or_c0 = same_below→eq _ _ 256 refl

-- What `bit_or a b` computes, with a bound on the digits that are looked at.
abbrev joined : ℕ → ℕ → ℕ → ℕ
joined bound a b = digits (λ b. b) max bound a b

one_more : (n a b : ℕ) → a ≤ n → joined (suc n) a b ≡ joined n a b
one_more zero zero b h = refl
one_more zero (suc a) b h = absurd (omega arith)
one_more (suc n) zero b h = refl
one_more (suc n) (suc a) b h = omega (arith, one_more n (suc a / 2) (b / 2) (omega arith))

joined-eq-bit_or : (n a b : ℕ) → a ≤ n → joined n a b ≡ bit_or a b
joined-eq-bit_or zero zero b h = sym (bit_or-bitwise 0 b)
joined-eq-bit_or zero (suc a) b h = absurd (omega arith)
joined-eq-bit_or (suc n) a b h = elim (dec_le a n) [
  | yes small ↦ one_more n a b small ∙ joined-eq-bit_or n a b small
  | no large ↦ let top : a ≡ suc n = omega arith in rw top (sym (bit_or-bitwise (suc n) b))
]

-- The lowest binary digit of a disjunction, and the rest.
low_digit : (a b : ℕ) → bit_or (suc a) b ≡ bit_or (suc a / 2) (b / 2) * 2 + max (suc a % 2) (b % 2)
low_digit a b =
    omega (arith, bit_or-bitwise (suc a) b, joined-eq-bit_or a (suc a / 2) (b / 2) (omega arith))

zero-bit_or : (b : ℕ) → bit_or 0 b ≡ b
zero-bit_or b = bit_or-bitwise 0 b

bit_or-zero : (bound a : ℕ) → a ≤ bound → bit_or a 0 ≡ a
bit_or-zero bound zero h = refl
bit_or-zero zero (suc a) h = absurd (omega arith)
bit_or-zero (suc bound) (suc a) h =
    omega (arith, low_digit a 0, bit_or-zero bound (suc a / 2) (omega arith))

-- Shifting by one place pushes a digit of `b` out.
pushed : (w b : ℕ) → bit_or (w * 2) b ≡ bit_or w (b / 2) * 2 + b % 2
pushed zero b = omega (arith, zero-bit_or b, zero-bit_or (b / 2))
pushed (suc w) b =
    let twice : suc w * 2 ≡ suc (w * 2 + 1) = omega arith in
    let halved : suc (w * 2 + 1) / 2 ≡ suc w = omega arith in
    rw twice (omega (arith, low_digit (w * 2 + 1) b, ap (λ (t : ℕ). bit_or t (b / 2)) halved))

-- A value shifted past the digits of `b` is joined with `b` by addition.
bit_or_shifted : (k v b : ℕ) → b < 2 ^ k → bit_or (v * 2 ^ k) b ≡ v * 2 ^ k + b
bit_or_shifted zero v zero h = bit_or-zero _ _ (le_refl _) ∙ omega arith
bit_or_shifted zero v (suc b) h = absurd (omega arith)
bit_or_shifted (suc k) v b h =
    let once : v * 2 ^ suc k ≡ v * 2 ^ k * 2 = rw pow-suc (omega arith) in
    let half : b / 2 < 2 ^ k = omega (arith, pow-suc 2 k) in
    rw (once, pushed) (omega (arith, bit_or_shifted k v (b / 2) half))

-- `(v << 8) | b`
pub shl_8-or : (v b : ℕ) → b < 256 → bit_or (v * 256) b ≡ v * 256 + b
shl_8-or v b h = bit_or_shifted 8 v b h
