-- ===== src/Base/Bits.antt =====
-- The bit operations of the encodings, as arithmetic.
use Prim.Native.Nat.{
  ℕ, zero, suc, ◌+◌, ◌-◌, ◌*◌, ◌/◌, ◌%◌, ◌^◌, ◌<◌, ◌≤◌, min, max, bit_and, bit_or, bit_xor,
}
use Prim.Native.Nat.{digits, bitwise, bit_and-bitwise, bit_or-bitwise, bit_xor-bitwise, differ}
use mathlib.Core.Path.{◌≡◌, refl, sym, ap, ◌∙◌}
use native.Mathlib.Omega.{arith}
use native.Mathlib.Nat.{pow-suc, one-le-pow}

-- The native operations go through the binary digits of the first number, as often as it says.
module _ (ended : ℕ → ℕ) (digit : ℕ → ℕ → ℕ) where
  -- Of zero there are none, however often.
  exhausted : (rounds y : ℕ) → digits ended digit rounds 0 y ≡ digits ended digit 0 0 y
  exhausted zero y = refl
  exhausted (suc rounds) y = refl

  -- Rounds enough are as good as any more.
  enough_rounds :
      (x y some more : ℕ)
      → x ≤ some
      → x ≤ more
      → digits ended digit some x y ≡ digits ended digit more x y
  enough_rounds zero y some more h k = exhausted some y ∙ sym (exhausted more y)
  enough_rounds (suc x) y zero more h k = absurd (omega arith)
  enough_rounds (suc x) y (suc some) zero h k = absurd (omega arith)
  enough_rounds (suc x) y (suc some) (suc more) h k =
      let halves = enough_rounds (suc x / 2) (y / 2) some more (omega arith) (omega arith) in
      ap (λ (high : ℕ). high * 2 + digit (suc x % 2) (y % 2)) halves

  lowest_digit :
      (x y : ℕ)
      → bitwise ended digit (suc x) y
        ≡ bitwise ended digit (suc x / 2) (y / 2) * 2 + digit (suc x % 2) (y % 2)
  lowest_digit x y =
      ap (λ (high : ℕ). high * 2 + digit (suc x % 2) (y % 2))
        (enough_rounds (suc x / 2) (y / 2) x (suc x / 2) (omega arith) (omega arith))

-- Each operation by its lowest digit.
or_digits : (x y : ℕ) → bit_or x y ≡ max (x % 2) (y % 2) + 2 * bit_or (x / 2) (y / 2)
or_digits zero y = omega (arith, bit_or-bitwise 0 y, bit_or-bitwise 0 (y / 2))
or_digits (suc x) y = omega (
  arith,
  bit_or-bitwise (suc x) y,
  bit_or-bitwise (suc x / 2) (y / 2),
  lowest_digit (λ v. v) max x y,
)

and_digits : (x y : ℕ) → bit_and x y ≡ min (x % 2) (y % 2) + 2 * bit_and (x / 2) (y / 2)
and_digits zero y = omega (arith, bit_and-bitwise 0 y, bit_and-bitwise 0 (y / 2))
and_digits (suc x) y = omega (
  arith,
  bit_and-bitwise (suc x) y,
  bit_and-bitwise (suc x / 2) (y / 2),
  lowest_digit (λ v. 0) min x y,
)

differ-max : (x y : ℕ) → differ x y ≡ max x y - min x y
differ-max zero y = omega arith
differ-max (suc x) zero = omega arith
differ-max (suc x) (suc y) = omega (arith, differ-max x y)

xor_digits : (x y : ℕ) → bit_xor x y ≡ differ (x % 2) (y % 2) + 2 * bit_xor (x / 2) (y / 2)
xor_digits zero y =
    omega (arith, bit_xor-bitwise 0 y, bit_xor-bitwise 0 (y / 2), differ-max 0 (y % 2))
xor_digits (suc x) y = omega (
  arith,
  bit_xor-bitwise (suc x) y,
  bit_xor-bitwise (suc x / 2) (y / 2),
  lowest_digit (λ v. v) differ x y,
)

-- Zero has no digits left, whatever the other number is.
zero-bit_or : (b : ℕ) → bit_or 0 b ≡ b
zero-bit_or b = bit_or-bitwise 0 b

mul-two-pow-suc : (t k : ℕ) → t * 2 ^ suc k ≡ 2 * (t * 2 ^ k)
mul-two-pow-suc t k = omega (arith, ap (λ (u : ℕ). t * u) (pow-suc 2 k))

-- `acc | (t << i)` is a sum when `acc` fits below bit `i`.
pub bit_or-shifted : (i acc t : ℕ) → acc < 2 ^ i → bit_or acc (t * 2 ^ i) ≡ acc + t * 2 ^ i
bit_or-shifted zero acc t h = ground (arith, zero-bit_or t)
bit_or-shifted (suc i) acc t h = ground (
  arith,
  or_digits acc (t * 2 ^ suc i),
  mul-two-pow-suc t i,
  pow-suc 2 i,
  bit_or-shifted i (acc / 2) t,
)

-- No digit of zero is set; the bound is what the halving ends by.
masked_out : (bound x : ℕ) → x ≤ bound → bit_and x 0 ≡ 0
masked_out zero zero small = refl
masked_out (suc bound) zero small = refl
masked_out zero (suc x) small = absurd (omega arith)
masked_out (suc bound) (suc x) small =
    let half : bit_and (suc x / 2) 0 ≡ 0 = masked_out bound (suc x / 2) (omega arith) in
    omega (half, and_digits (suc x) 0, arith)

bit_and-zero : (x : ℕ) → bit_and x 0 ≡ 0
bit_and-zero x = masked_out x x (omega arith)

pub bit_and-one : (a : ℕ) → bit_and a 1 ≡ a % 2
bit_and-one a = omega (arith, and_digits a 1, bit_and-zero (a / 2))

bit_and_seven : (a : ℕ) → bit_and a 7 ≡ a % 8
bit_and_seven a = omega (arith, and_digits a 7, and_digits (a / 2) 3, bit_and-one (a / 2 / 2))

-- A mask of seven ones is the remainder by 128.
pub bit_and_7f : (a : ℕ) → bit_and a 0x7f ≡ a % 128
bit_and_7f a = omega (
  arith,
  and_digits a 127,
  and_digits (a / 2) 63,
  and_digits (a / 2 / 2) 31,
  and_digits (a / 2 / 2 / 2) 15,
  bit_and_seven (a / 2 / 2 / 2 / 2),
)

untouched : (bound x : ℕ) → x ≤ bound → bit_xor x 0 ≡ x
untouched zero zero small = refl
untouched (suc bound) zero small = refl
untouched zero (suc x) small = absurd (omega arith)
untouched (suc bound) (suc x) small =
    let half : bit_xor (suc x / 2) 0 ≡ suc x / 2 = untouched bound (suc x / 2) (omega arith) in
    omega (half, differ-max (suc x % 2) 0, xor_digits (suc x) 0, arith)

pub bit_xor-zero : (x : ℕ) → bit_xor x 0 ≡ x
bit_xor-zero x = untouched x x (omega arith)

-- Exclusive or with `k` ones is the complement at that width.
pub bit_xor-ones : (k a : ℕ) → a < 2 ^ k → bit_xor a (2 ^ k - 1) ≡ 2 ^ k - 1 - a
bit_xor-ones zero a h = omega (arith, bit_xor-zero a)
bit_xor-ones (suc k) a h = ground (
  arith,
  xor_digits a (2 ^ suc k - 1),
  differ-max (a % 2) ((2 ^ suc k - 1) % 2),
  pow-suc 2 k,
  one-le-pow k 2,
  bit_xor-ones k (a / 2),
)

-- The continuation bit over seven bits.
pub bit_or_top : (g : ℕ) → g < 128 → bit_or g 0x80 ≡ g + 128
bit_or_top g h = bit_or-shifted 7 g 1 h
