-- ===== src/Bitcoin/Target/Divide.antt =====
-- The division of `bitcoin_target`, and the target that it gives.
use scu35_bitcoin_lottery_mi.Base.{
  ℕ, zero, suc, ◌+◌, ◌-◌, ◌*◌, ◌/◌, ◌%◌, ◌^◌, ◌≤◌, ◌<◌, ◌≡◌, refl, sym, ap, ◌∙◌, ◌⊎◌, inl, inr,
  List, length, true, false, replicate, leb, by_test, subst, min, bit_and_1, at, arith,
}
use native.Mathlib.Nat.{div-le_self, div-eq_of_lt, div-eq_of_lt-le}
use scu35_bitcoin_lottery_mi.Bitcoin.Target.{
  Division, Sign, less, same, more, not_less, bit_of, shift_limbs, compare_limbs, subtract_limbs,
  quotient_bit, divide_bit, divide, target_words, big_zero,
}
use scu35_bitcoin_lottery_mi.Bitcoin.Target.Limbs.{
  Limbs, value, size, Orders, compare_limbs-Orders, value-subtract_limbs, value-shift_limbs,
  value-lt-size, size-length, shift_limbs-Keeps, subtract_limbs-Keeps,
}
use scu35_bitcoin_lottery_mi.Bitcoin.Target.Bits.{above, above-bit_of}
use scu35_bitcoin_lottery_mi.Bitcoin.Target.Words.{words, words_bound}
use scu35_bitcoin_lottery_mi.Bitcoin.Target.Quotients.{
  Collected, exact, large, zero_bit-Collected, one_bit-Collected,
}

-- Before the bits below `bit`: the quotient of what is above, and its remainder.
record Divided (numerator denominator : List ℕ) (bit : ℕ) (d : Division) : Type 0 where
  quotient : ℕ
  number : above bit (value numerator) ≡ quotient * value denominator + value d.remainder
  smaller : value d.remainder < value denominator
  limbs : Limbs d.remainder
  same_length : length d.remainder ≡ length denominator
  collected : Collected quotient (2 ^ bit) d.overflow d.out

compared :
    (s : Sign) (m n : ℕ) → Orders s m n → (not_less s ≡ true × n ≤ m) ⊎ (not_less s ≡ false × m < n)
unfolding not_less
compared less m n o = inr (refl, o)
compared same m n o = inl (refl, omega (arith, o))
compared more m n o = inl (refl, omega (arith, o))

bit_of_bound : (a : List ℕ) (bit : ℕ) → bit_of a bit ≤ 1
unfolding bit_of
bit_of_bound a bit = omega (arith, bit_and_1 (at a (bit / 32) / 2 ^ (bit % 32)))

remainder-quotient_bit :
    (denominator : List ℕ) (bit : ℕ) (d : Division)
    → (quotient_bit denominator bit d).remainder ≡ subtract_limbs 0 d.remainder denominator
unfolding quotient_bit
remainder-quotient_bit denominator bit d =
    by_test (λ (e : Division). e.remainder ≡ subtract_limbs 0 d.remainder denominator) (leb 256 bit)
      _ _ (λ high. refl) (λ low. refl)

module _ (numerator denominator : List ℕ) (n : Limbs numerator) (k : Limbs denominator)
    (sizes : length numerator ≡ length denominator) where
  divide_bit-Divided :
      (bit : ℕ) (d : Division)
      → Divided numerator denominator (suc bit) d
      → Divided numerator denominator bit (divide_bit numerator denominator bit d)
  unfolding divide_bit
  divide_bit-Divided bit d h =
      let b = bit_of numerator bit in
      let r = shift_limbs b d.remainder in
      let one = bit_of_bound numerator bit in
      let next = above-bit_of numerator bit n in
      let whole : above bit (value numerator) ≤ value numerator =
        div-le_self (value numerator) (2 ^ bit) in
      let fits : 2 * value d.remainder + b < size d.remainder = omega (
        arith,
        whole,
        next,
        h.number,
        value-lt-size numerator n,
        size-length numerator d.remainder (sizes ∙ sym h.same_length),
      ) in
      let shifted : value r ≡ 2 * value d.remainder + b =
        value-shift_limbs b d.remainder one h.limbs fits in
      let kept = shift_limbs-Keeps b d.remainder one h.limbs in
      let as_long = kept.same_length ∙ h.same_length in
      let number : above bit (value numerator) ≡ 2 * h.quotient * value denominator + value r =
        grind (arith, next, h.number, shifted) in
      elim (compared (compare_limbs r denominator) (value r) (value denominator)
        (compare_limbs-Orders r denominator kept.limbs k as_long)) [
          | inl (e, le) ↦
              let difference =
                value-subtract_limbs 0 r denominator kept.limbs k as_long (omega arith)
                  (omega arith) in
              let left = subtract_limbs-Keeps 0 r denominator kept.limbs in
              let same = remainder-quotient_bit denominator bit (record d { remainder = r }) in
              rw e (record {
                quotient = 2 * h.quotient + 1;
                number = grind (arith, number, difference, ap value same);
                smaller = omega (arith, shifted, h.smaller, one, difference, ap value same);
                limbs = subst Limbs (sym same) left.limbs;
                same_length = ap length same ∙ left.same_length ∙ as_long;
                collected =
                    one_bit-Collected h.quotient bit denominator (record d { remainder = r })
                      h.collected;
              })
          | inr (e, lt) ↦ rw e (record {
            quotient = 2 * h.quotient;
            number = number;
            smaller = lt;
            limbs = kept.limbs;
            same_length = as_long;
            collected = zero_bit-Collected h.quotient bit h.collected;
          })
        ]

  divide-Divided :
      (bit : ℕ) (d : Division)
      → Divided numerator denominator bit d
      → Divided numerator denominator 0 (divide bit numerator denominator d)
  unfolding divide
  divide-Divided zero d h = h
  divide-Divided (suc bit) d h =
      divide-Divided bit (divide_bit numerator denominator bit d) (divide_bit-Divided bit d h)

min-words :
    (a b q : ℕ) (d : Division)
    → q * b ≤ a
    → a < (q + 1) * b
    → Collected q (2 ^ 0) d.overflow d.out
    → words (target_words d) ≡ min (a / b) (2 ^ 256 - 1)
unfolding target_words
min-words a b q d low high (exact h l n w) =
    let small = words_bound d.out l in
    rw h (
      omega (
        arith,
        div-eq_of_lt-le {k = q} b {m = a} low high,
        small,
        w,
        ap (λ (k : ℕ). 2 ^ (32 * k)) n,
      ))
min-words a b q d low high (large h big) =
    rw h (omega (arith, div-eq_of_lt-le {k = q} b {m = a} low high, big, largest))
  where
    largest : words (replicate 8 (2 ^ 32 - 1)) ≡ 2 ^ 256 - 1
    largest = refl

pub Limbs-zeros : (n : ℕ) → Limbs (replicate n 0)
Limbs-zeros zero = tt
Limbs-zeros (suc n) = (omega arith, Limbs-zeros n)

abbrev pub start : Division
start = record { remainder = big_zero; out = replicate 8 0; overflow = false }

-- For two numbers of 32 limbs, the second not 0, the division bit by bit, as it is started, gives
-- words that are their quotient rounded down, and 2 ^ 256 - 1 at most.
pub words-divide :
    (numerator denominator : List ℕ)
    → Limbs numerator
    → Limbs denominator
    → length numerator ≡ 32
    → length denominator ≡ 32
    → 0 < value denominator
    → words (target_words (divide 1024 numerator denominator start))
      ≡ min (value numerator / value denominator) (2 ^ 256 - 1)
words-divide a b n k sa sb p =
    let small : value a < 2 ^ 1024 = omega (arith, value-lt-size a n, whole) in
    let below = div-eq_of_lt small in
    let first : Divided a b 1024 start = record {
      quotient = 0;
      number = omega (arith, below);
      smaller = omega (arith, p, none_yet);
      limbs = Limbs-zeros 32;
      same_length = sym sb;
      collected = exact refl (Limbs-zeros 8) refl refl;
    } in
    let done = divide-Divided a b n k (sa ∙ sym sb) 1024 start first in
    min-words (value a) (value b) done.quotient (divide 1024 a b start)
      (omega (arith, done.number, done.smaller)) (grind (arith, done.number, done.smaller))
      done.collected
  where
    none_yet : value big_zero ≡ 0
    none_yet = refl

    whole : size a ≡ 2 ^ 1024
    whole = size-length a big_zero sa
