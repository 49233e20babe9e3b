-- ===== src/Bitcoin/Target/Bits.antt =====
-- The bits of a number of limbs that `bitcoin_target` reads from the highest down.
use scu35_bitcoin_lottery_mi.Base.{
  ℕ, zero, suc, ◌+◌, ◌-◌, ◌*◌, ◌/◌, ◌%◌, ◌^◌, ◌<◌, ◌≡◌, sym, ap, ◌∙◌, List, [], ◌∷◌, at, bit_and_1,
  arith,
}
use native.Mathlib.Nat.{pow-suc, add-mul-div_left, div-div-eq-div-mul, zero-div, one-le-pow}
use scu35_bitcoin_lottery_mi.Bitcoin.Target.{bit_of}
use scu35_bitcoin_lottery_mi.Bitcoin.Target.Limbs.{value, Limbs}

pub pow_add : (m n : ℕ) → 2 ^ (m + n) ≡ 2 ^ m * 2 ^ n
pow_add zero n = omega (arith, ap (λ (k : ℕ). 2 ^ k) {x = 0 + n} {y = n} (omega arith))
pow_add (suc m) n =
    let one = ap (λ (k : ℕ). 2 ^ k) {x = suc m + n} {y = suc (m + n)} (omega arith) in
    grind (arith, one, pow-suc 2 (m + n), pow_add m n, pow-suc 2 m)

-- Behind the first `n` bits.
abbrev pub above : ℕ → ℕ → ℕ
above n a = a / 2 ^ n

pub above-suc : (n a : ℕ) → above (suc n) a ≡ above n a / 2
above-suc n a = ap (λ (p : ℕ). a / p) (pow-suc 2 n) ∙ sym (div-div-eq-div-mul a (2 ^ n) 2)

above_add : (k n a : ℕ) → above (k + n) a ≡ above n (above k a)
above_add k n a = ap (λ (p : ℕ). a / p) (pow_add k n) ∙ sym (div-div-eq-div-mul a (2 ^ k) (2 ^ n))

low_bit : (r x v : ℕ) → r < 32 → above r (x + 2 ^ 32 * v) % 2 ≡ above r x % 2
low_bit r x v h =
    let rest = 31 - r in
    let power : 2 ^ 32 ≡ 2 ^ r * 2 ^ suc rest =
      ap (λ (n : ℕ). 2 ^ n) {x = 32} {y = r + suc rest} (omega arith) ∙ pow_add r (suc rest) in
    let sum : x + 2 ^ 32 * v ≡ x + 2 ^ r * (2 * (2 ^ rest * v)) =
      grind (arith, ap (λ (n : ℕ). n * v) power, ap (λ (n : ℕ). 2 ^ r * n * v) (pow-suc 2 rest)) in
    omega (
      arith,
      ap (above r) sum,
      add-mul-div_left x (2 * (2 ^ rest * v)) {y = 2 ^ r} (one-le-pow r 2 (omega arith)),
    )

pub value-bit :
    (k r : ℕ) (a : List ℕ)
    → r < 32
    → Limbs a
    → above (32 * k + r) (value a) % 2 ≡ above r (at a k) % 2
value-bit k r [] h l = omega (arith, zero-div (2 ^ (32 * k + r)), zero-div (2 ^ r))
value-bit zero r (x ∷ xs) h (hx, l) =
    ap (λ n. above n (value (x ∷ xs)) % 2) {x = 32 * 0 + r} {y = r} (omega arith)
    ∙ low_bit r x (value xs) h
value-bit (suc k) r (x ∷ xs) h (hx, l) =
    let shifted : above 32 (value (x ∷ xs)) ≡ value xs = omega arith in
    ap (λ n. above n (value (x ∷ xs)) % 2) {x = 32 * suc k + r} {y = 32 + (32 * k + r)}
      (omega arith)
    ∙ ap (λ n. n % 2) (above_add 32 (32 * k + r) (value (x ∷ xs)))
    ∙ ap (λ v. above (32 * k + r) v % 2) shifted
    ∙ value-bit k r xs h l

-- The number above a bit, from the one above the next.
pub above-bit_of :
    (a : List ℕ) (bit : ℕ)
    → Limbs a
    → above bit (value a) ≡ 2 * above (suc bit) (value a) + bit_of a bit
unfolding bit_of
above-bit_of a bit l =
    let parts : above (32 * (bit / 32) + bit % 32) (value a) ≡ above bit (value a) =
      ap (λ n. above n (value a)) (omega arith) in
    omega (
      arith,
      parts,
      value-bit (bit / 32) (bit % 32) a (omega arith) l,
      bit_and_1 (at a (bit / 32) / 2 ^ (bit % 32)),
      above-suc bit (value a),
    )
