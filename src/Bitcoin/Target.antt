-- ===== src/Bitcoin/Target.antt =====
-- `bitcoin_target` of software/common/bitcoin.c: a difficulty in decimal, and the target that
-- belongs to it, on numbers of 32 limbs, the lowest first. A text is the list of its characters.
pub mod Limbs
pub mod Bits
pub mod Words
pub mod Quotients
pub mod Divide
pub mod Scale
pub mod Decimal
pub mod Difficulty
mod Examples
use scu35_bitcoin_lottery_mi.Base.{
  ℕ, zero, suc, ◌+◌, ◌-◌, ◌*◌, ◌/◌, ◌%◌, ◌^◌, Bool, true, false, ◌||◌, ◌&&◌, not, Option, none,
  some, List, [], ◌∷◌, length, at, set, replicate, ltb, leb, ◌==◌, if◌then◌else◌, u32, u64, ◌<<<◌,
  ◌>>>◌, bit_and, bit_or, ◌>>=◌,
}

-- The carry behind the last limb, and the limbs.
unfoldable pub mul_limbs : ℕ → List ℕ → ℕ × List ℕ
mul_limbs carry [] = (carry, [])
mul_limbs carry (a ∷ limbs) =
    let t = u64 (carry + u64 (a * 10)) in
    let (top, rest) = mul_limbs (t >>> 32) limbs in (top, u32 t ∷ rest)

-- `none` is -1, behind which the limbs are not used.
unfoldable pub multiply10 : List ℕ → ℕ → Option (List ℕ)
multiply10 a add = let (top, limbs) = mul_limbs add a in if top == 0 then some limbs else none

-- `compare(a, b) >= 0`: the highest limb that differs decides.
pub data Sign : Type 0 where
  less same more : Sign

unfoldable pub differing : Sign → ℕ → ℕ → Sign
differing same x y = if x == y then same else (if ltb y x then more else less)
differing sign x y = sign

unfoldable pub compare_limbs : List ℕ → List ℕ → Sign
compare_limbs (x ∷ xs) (y ∷ ys) = differing (compare_limbs xs ys) x y
compare_limbs _ _ = same

unfoldable pub not_less : Sign → Bool
not_less less = false
not_less _ = true

unfoldable pub subtract_limbs : ℕ → List ℕ → List ℕ → List ℕ
subtract_limbs borrow (x ∷ xs) (y ∷ ys) =
    let sub = y + borrow in
    u32 (x + 2 ^ 32 - u32 sub) ∷ subtract_limbs (if ltb x sub then 1 else 0) xs ys
subtract_limbs borrow xs ys = xs

-- The locals of the first loop. The value of the digits is in `denominator`.
pub record Mantissa : Type 0 where
  pub digits : ℕ
  pub fractional : ℕ
  pub point : Bool
  pub nonzero : Bool
  pub denominator : List ℕ

unfoldable pub mantissa_digit : ℕ → Mantissa → Option Mantissa
mantissa_digit c m =
    if ltb c b'0' || ltb b'9' c || ltb 64 (m.digits + 1)
    then none
    else (multiply10 m.denominator (c - b'0') >>= λ limbs. some (record m {
      digits = m.digits + 1;
      fractional = if m.point then m.fractional + 1 else m.fractional;
      nonzero = m.nonzero || not (c == b'0');
      denominator = limbs;
    }))

unfoldable pub mantissa_char : ℕ → Mantissa → Option Mantissa
mantissa_char c m =
    if c == b'.'
    then (if m.point || m.digits == 0 then none else some (record m { point = true }))
    else mantissa_digit c m

-- The loop up to an `e`, and what is behind.
unfoldable pub mantissa_loop : List ℕ → Mantissa → Option (Mantissa × List ℕ)
mantissa_loop [] m = some (m, [])
mantissa_loop (c ∷ cs) m =
    let rest = (mantissa_char c m >>= mantissa_loop cs) in
    if c == b'e' || c == b'E' then some (m, c ∷ cs) else rest

unfoldable pub exponent_loop : ℕ → List ℕ → Option ℕ
exponent_loop e [] = some e
exponent_loop e (c ∷ cs) =
    let rest = exponent_loop (e * 10 + (c - b'0')) cs in
    if ltb c b'0' || ltb b'9' c || ltb 128 e then none else rest

unfoldable pub exponent_digits : Bool → List ℕ → Option (Bool × ℕ)
exponent_digits negative [] = none
exponent_digits negative (c ∷ cs) = (exponent_loop 0 (c ∷ cs) >>= λ e. some (negative, e))

-- What is behind the `e`: whether it is negative, and its value.
unfoldable pub exponent_sign : List ℕ → Option (Bool × ℕ)
exponent_sign [] = none
exponent_sign (c ∷ cs) =
    if c == b'+' || c == b'-'
    then exponent_digits (c == b'-') cs
    else exponent_digits false (c ∷ cs)

unfoldable pub exponent_part : List ℕ → Option (Bool × ℕ)
exponent_part [] = some (false, 0)
exponent_part (e ∷ cs) = exponent_sign cs

-- `multiply10` as many times.
unfoldable pub scale : ℕ → List ℕ → Option (List ℕ)
scale zero a = some a
scale (suc n) a = (multiply10 a 0 >>= scale n)

-- The shift of the remainder by a bit.
unfoldable pub shift_limbs : ℕ → List ℕ → List ℕ
shift_limbs carry [] = []
shift_limbs carry (r ∷ rs) = bit_or (u32 (r <<< 1)) carry ∷ shift_limbs (r >>> 31) rs

pub record Division : Type 0 where
  pub remainder : List ℕ
  pub out : List ℕ
  pub overflow : Bool

unfoldable pub bit_of : List ℕ → ℕ → ℕ
bit_of numerator bit = bit_and (at numerator (bit / 32) >>> (bit % 32)) 1

-- What a bit of the quotient that is 1 does.
unfoldable pub quotient_bit : List ℕ → ℕ → Division → Division
quotient_bit denominator bit d =
    if leb 256 bit
    then record d { remainder = subtract_limbs 0 d.remainder denominator; overflow = true }
    else record d {
      remainder = subtract_limbs 0 d.remainder denominator;
      out = set d.out (7 - bit / 32) (bit_or (at d.out (7 - bit / 32)) (u32 (1 <<< (bit % 32))));
    }

unfoldable pub divide_bit : List ℕ → List ℕ → ℕ → Division → Division
divide_bit numerator denominator bit d =
    let shifted = record d { remainder = shift_limbs (bit_of numerator bit) d.remainder } in
    if not_less (compare_limbs shifted.remainder denominator)
    then quotient_bit denominator bit shifted
    else shifted

-- The loop over the bits below `bits`, from the highest down.
unfoldable pub divide : ℕ → List ℕ → List ℕ → Division → Division
divide zero numerator denominator d = d
divide (suc bit) numerator denominator d =
    divide bit numerator denominator (divide_bit numerator denominator bit d)

abbrev pub big_zero : List ℕ
big_zero = replicate 32 0

abbrev pub difficulty_one : List ℕ
difficulty_one = set big_zero 6 0xffff0000

unfoldable pub target_words : Division → List ℕ
target_words d = if d.overflow then replicate 8 (2 ^ 32 - 1) else d.out

-- From the exponent on: `up` and `down` are its positive and its negative part.
unfoldable pub scaled_target : List ℕ → ℕ → ℕ → Option (List ℕ)
scaled_target limbs up down =
    if ltb (down + 128) up || ltb (up + 128) down
    then none
    else (scale (up - down) limbs >>= λ denominator.
        scale (down - up) difficulty_one >>= λ numerator. some (
          target_words (
            divide 1024 numerator denominator
              (record { remainder = big_zero; out = replicate 8 0; overflow = false }))))

unfoldable pub signed_target : Mantissa → Bool × ℕ → Option (List ℕ)
signed_target m (true, e) = scaled_target m.denominator 0 (e + m.fractional)
signed_target m (false, e) = scaled_target m.denominator e m.fractional

unfoldable pub mantissa_target : Mantissa × List ℕ → Option (List ℕ)
mantissa_target (m, rest) =
    if not m.nonzero || (m.point && m.fractional == 0)
    then none
    else (exponent_part rest >>= signed_target m)

-- `none` is a return of -1; `some` is `out` with a return of 0.
unfoldable pub bitcoin_target : List ℕ → Option (List ℕ)
bitcoin_target s =
    if length s == 0 || ltb 80 (length s)
    then none
    else (mantissa_loop s (record {
      digits = 0;
      fractional = 0;
      point = false;
      nonzero = false;
      denominator = big_zero;
    })
        >>= mantissa_target)
