-- ===== src/Bitcoin/Target/Examples.antt =====
-- Difficulties of tb/test_bitcoin.py.
use scu35_bitcoin_lottery_mi.Base.{
  ◌≡◌, refl, true, false, some, none, ◌∷◌, ◌++◌, codes, replicate, set, ◌/◌, ◌-◌, ◌^◌, min, ◌>>=◌,
  arith,
}
use scu35_bitcoin_lottery_mi.Bitcoin.Target.{big_zero, difficulty_one}
use scu35_bitcoin_lottery_mi.Bitcoin.Target.Limbs.{value}
use scu35_bitcoin_lottery_mi.Bitcoin.Target.Words.{words, Limbs-set}
use scu35_bitcoin_lottery_mi.Bitcoin.Target.Divide.{start, Limbs-zeros, words-divide}
use scu35_bitcoin_lottery_mi.Bitcoin.Target.Decimal.{decimal, exponent_part-decimal}
use scu35_bitcoin_lottery_mi.Bitcoin.Target.Difficulty.{
  difficulty_text, moved, bitcoin_target-moved,
}
use scu35_bitcoin_lottery_mi.Bitcoin.Target.{
  bitcoin_target, mantissa_loop, mantissa_char, mantissa_digit, multiply10, mul_limbs,
  mantissa_target, exponent_part, exponent_sign, exponent_digits, exponent_loop, signed_target,
  scaled_target, scale, target_words, divide, divide_bit, quotient_bit, bit_of, shift_limbs,
  compare_limbs, differing, not_less, subtract_limbs,
}

half : bitcoin_target (codes "0.5") ≡ some (1 ∷ 0xfffe0000 ∷ replicate 6 0)
unfolding bitcoin_target mantissa_loop mantissa_char mantissa_digit multiply10 mul_limbs
    mantissa_target exponent_part exponent_sign exponent_digits exponent_loop signed_target
    scaled_target scale target_words divide divide_bit quotient_bit bit_of shift_limbs compare_limbs
    differing not_less subtract_limbs
half = refl

tiny : bitcoin_target (codes "1e-10") ≡ some (replicate 8 0xffffffff)
unfolding bitcoin_target mantissa_loop mantissa_char mantissa_digit multiply10 mul_limbs
    mantissa_target exponent_part exponent_sign exponent_digits exponent_loop signed_target
    scaled_target scale target_words divide divide_bit quotient_bit bit_of shift_limbs compare_limbs
    differing not_less subtract_limbs
tiny = refl

no_digits : bitcoin_target (codes "e5") ≡ none
unfolding bitcoin_target mantissa_loop mantissa_target
no_digits = refl

words-divide_example :
    words (target_words (divide 1024 difficulty_one (set big_zero 0 5) start))
    ≡ min (value difficulty_one / value (set big_zero 0 5)) (2 ^ 256 - 1)
words-divide_example =
    words-divide difficulty_one (set big_zero 0 5)
      (Limbs-set big_zero 6 0xffff0000 (Limbs-zeros 32) (omega arith))
      (Limbs-set big_zero 0 5 (Limbs-zeros 32) (omega arith)) refl refl (omega arith)

bitcoin_target-moved_example :
    (bitcoin_target (difficulty_text (codes "12") (codes "5") (codes "e-3")) >>= λ t.
    some (words t))
    ≡ (exponent_part (codes "e-3") >>= moved (decimal 0 (codes "12" ++ codes "5")) 1)
bitcoin_target-moved_example =
    bitcoin_target-moved (codes "12") (codes "5") (codes "e-3")
      ((omega arith, omega arith), ((omega arith, omega arith), tt))
      ((omega arith, omega arith), tt) (omega arith) (omega arith) refl (omega arith) (omega arith)

exponent_part-decimal_example :
    (exponent_part (codes "e12") ≡ some (false, 12))
    × (exponent_part (codes "e+12") ≡ some (false, 12))
    × (exponent_part (codes "e-12") ≡ some (true, 12))
exponent_part-decimal_example =
    exponent_part-decimal b'e' b'1' (codes "2")
      ((omega arith, omega arith), ((omega arith, omega arith), tt)) (omega arith)
