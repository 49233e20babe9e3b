-- ===== src/Base/Bits.antt =====
-- Words of 8, 16, 32 and 64 bits, and `|` of disjoint fields as a sum.
use Prim.Native.Nat.{ℕ, zero, suc, ◌+◌, ◌*◌, ◌/◌, ◌%◌, ◌^◌, ◌≤◌, ◌<◌, max, min, bit_or, bit_and}
use Prim.Native.Nat.{digits, bit_or-bitwise, bit_and-bitwise}
use mathlib.Core.Path.{◌≡◌, refl, ap}
use native.Mathlib.Nat.{pow-suc}
use native.Mathlib.Omega.{arith}

abbrev pub u8 : ℕ → ℕ
u8 n = n % 2 ^ 8

abbrev pub u16 : ℕ → ℕ
u16 n = n % 2 ^ 16

abbrev pub u32 : ℕ → ℕ
u32 n = n % 2 ^ 32

abbrev pub u64 : ℕ → ℕ
u64 n = n % 2 ^ 64

infixl 75 ◌<<<◌ ◌>>>◌
abbrev pub ◌<<<◌ : ℕ → ℕ → ℕ
x <<< k = x * 2 ^ k

abbrev pub ◌>>>◌ : ℕ → ℕ → ℕ
x >>> k = x / 2 ^ k

-- `|` and `&` mean a recursion on binary digits with fuel, in which `empty` is the value once the
-- first number has no digit left and `join` joins two digits. Enough fuel is as good as more.
enough_digits :
    (empty : ℕ → ℕ) (join : ℕ → ℕ → ℕ) (few many a b : ℕ)
    → a ≤ few
    → few ≤ many
    → digits empty join many a b ≡ digits empty join few a b
enough_digits empty join zero zero zero b h k = refl
enough_digits empty join zero (suc many) zero b h k = refl
enough_digits empty join zero many (suc a) b h k = absurd (omega arith)
enough_digits empty join (suc few) zero a b h k = absurd (omega arith)
enough_digits empty join (suc few) (suc many) zero b h k = refl
enough_digits empty join (suc few) (suc many) (suc a) b h k =
    omega (arith, enough_digits empty join few many (suc a / 2) (b / 2) (omega arith) (omega arith))

pub zero-bit_or : (b : ℕ) → bit_or 0 b ≡ b
zero-bit_or b = bit_or-bitwise 0 b

pub bit_or_halves : (a b : ℕ) → bit_or a b ≡ bit_or (a / 2) (b / 2) * 2 + max (a % 2) (b % 2)
bit_or_halves zero b = omega (arith, zero-bit_or b, zero-bit_or (b / 2))
bit_or_halves (suc a) b = omega (
  arith,
  bit_or-bitwise (suc a) b,
  bit_or-bitwise (suc a / 2) (b / 2),
  enough_digits (λ y. y) max (suc a / 2) a (suc a / 2) (b / 2) (omega arith) (omega arith),
)

bit_or-zero_fuel : (n a : ℕ) → a ≤ n → bit_or a 0 ≡ a
bit_or-zero_fuel n zero h = zero-bit_or 0
bit_or-zero_fuel zero (suc a) h = absurd (omega arith)
bit_or-zero_fuel (suc n) (suc a) h =
    omega (arith, bit_or_halves (suc a) 0, bit_or-zero_fuel n (suc a / 2) (omega arith))

-- `lo | hi << k` is a sum when `lo` fits `k` bits.
pub bit_or-add : (k hi lo : ℕ) → lo < 2 ^ k → bit_or (hi * 2 ^ k) lo ≡ hi * 2 ^ k + lo
bit_or-add zero hi lo h = ground (arith, bit_or-zero_fuel hi hi)
bit_or-add (suc k) hi lo h = omega (
  arith,
  bit_or_halves (hi * 2 ^ suc k) lo,
  ap (λ (t : ℕ). hi * t) (pow-suc 2 k),
  pow-suc 2 k,
  bit_or-add k hi (lo / 2) (omega (arith, pow-suc 2 k)),
  ap (λ (t : ℕ). bit_or t (lo / 2)) half,
)
  where
    half : hi * 2 ^ suc k / 2 ≡ hi * 2 ^ k
    half = omega (arith, ap (λ (t : ℕ). hi * t) (pow-suc 2 k))

bit_or_comm_fuel : (n a b : ℕ) → a ≤ n → bit_or a b ≡ bit_or b a
bit_or_comm_fuel n zero b h = omega (arith, zero-bit_or b, bit_or-zero_fuel b b)
bit_or_comm_fuel zero (suc a) b h = absurd (omega arith)
bit_or_comm_fuel (suc n) (suc a) b h = omega (
  arith,
  bit_or_halves (suc a) b,
  bit_or_halves b (suc a),
  bit_or_comm_fuel n (suc a / 2) (b / 2) (omega arith),
)

-- The same with the low field first, as `lo | hi << k` is written.
pub bit_or-add_low : (k hi lo : ℕ) → lo < 2 ^ k → bit_or lo (hi * 2 ^ k) ≡ hi * 2 ^ k + lo
bit_or-add_low k hi lo h = omega (arith, bit_or_comm_fuel lo lo (hi * 2 ^ k), bit_or-add k hi lo)

nothing-bit_and : (b : ℕ) → bit_and 0 b ≡ 0
nothing-bit_and b = bit_and-bitwise 0 b

-- `&` of two numbers from that of their halves.
bit_and_halves : (a b : ℕ) → bit_and a b ≡ bit_and (a / 2) (b / 2) * 2 + min (a % 2) (b % 2)
bit_and_halves zero b = omega (arith, nothing-bit_and b, nothing-bit_and (b / 2))
bit_and_halves (suc a) b =
    let half = suc a / 2 in
    let fuel = enough_digits (λ y. 0) min half a half (b / 2) (omega arith) (omega arith) in
    omega (arith, bit_and-bitwise (suc a) b, bit_and-bitwise half (b / 2), fuel)

bit_and-nothing : (bound a : ℕ) → a ≤ bound → bit_and a 0 ≡ 0
bit_and-nothing bound zero h = nothing-bit_and 0
bit_and-nothing zero (suc a) h = absurd (omega arith)
bit_and-nothing (suc bound) (suc a) h =
    let less = bit_and-nothing bound (suc a / 2) (omega arith) in
    omega (arith, less, bit_and_halves (suc a) 0)

-- Masks of low bits are remainders.
pub bit_and_1 : (a : ℕ) → bit_and a 1 ≡ a % 2
bit_and_1 a = omega (arith, bit_and_halves a 1, bit_and-nothing (a / 2) (a / 2))

pub bit_and_3 : (a : ℕ) → bit_and a 3 ≡ a % 4
bit_and_3 a = omega (arith, bit_and_halves a 3, bit_and_1 (a / 2))

pub bit_and_15 : (a : ℕ) → bit_and a 15 ≡ a % 16
bit_and_15 a = omega (
  arith,
  bit_and_halves a 15,
  bit_and_halves (a / 2) 7,
  bit_and_halves (a / 2 / 2) 3,
  bit_and_1 (a / 2 / 2 / 2),
)

four_halves : (a m : ℕ) → bit_and a (m * 16 + 15) ≡ bit_and (a / 16) m * 16 + a % 16
four_halves a m = omega (
  arith,
  bit_and_halves a (m * 16 + 15),
  bit_and_halves (a / 2) ((m * 16 + 15) / 2),
  bit_and_halves (a / 2 / 2) ((m * 16 + 15) / 2 / 2),
  bit_and_halves (a / 2 / 2 / 2) ((m * 16 + 15) / 2 / 2 / 2),
  ap (λ x. bit_and x ((m * 16 + 15) / 2 / 2 / 2 / 2)) {x = a / 2 / 2 / 2 / 2} {y = a / 16}
      (omega arith),
  ap (bit_and (a / 16)) {x = (m * 16 + 15) / 2 / 2 / 2 / 2} {y = m} (omega arith),
)

four_zeros : (a m : ℕ) → bit_and a (m * 16) ≡ bit_and (a / 16) m * 16
four_zeros a m = omega (
  arith,
  bit_and_halves a (m * 16),
  bit_and_halves (a / 2) (m * 16 / 2),
  bit_and_halves (a / 2 / 2) (m * 16 / 2 / 2),
  bit_and_halves (a / 2 / 2 / 2) (m * 16 / 2 / 2 / 2),
  ap (λ x. bit_and x (m * 16 / 2 / 2 / 2 / 2)) {x = a / 2 / 2 / 2 / 2} {y = a / 16} (omega arith),
  ap (bit_and (a / 16)) {x = m * 16 / 2 / 2 / 2 / 2} {y = m} (omega arith),
)

-- The high twelve bits of sixteen, and the sign bit.
pub bit_and_0xfff0 : (a : ℕ) → a < 65536 → bit_and a 0xfff0 ≡ a / 16 * 16
bit_and_0xfff0 a h = omega (
  arith,
  h,
  four_zeros a 0xfff,
  four_halves (a / 16) 0xff,
  four_halves (a / 16 / 16) 0xf,
  bit_and_15 (a / 16 / 16 / 16),
)

pub bit_and_0x8000 : (a : ℕ) → a < 65536 → bit_and a 0x8000 ≡ a / 32768 * 32768
bit_and_0x8000 a h = omega (
  arith,
  h,
  four_zeros a 0x800,
  four_zeros (a / 16) 0x80,
  four_zeros (a / 16 / 16) 0x8,
  bit_and_halves (a / 16 / 16 / 16) 8,
  bit_and_halves (a / 16 / 16 / 16 / 2) 4,
  bit_and_halves (a / 16 / 16 / 16 / 2 / 2) 2,
  bit_and_1 (a / 16 / 16 / 16 / 2 / 2 / 2),
)

pub bit_and_31 : (a : ℕ) → bit_and a 31 ≡ a % 32
bit_and_31 a = omega (arith, four_halves a 1, bit_and_1 (a / 16))
