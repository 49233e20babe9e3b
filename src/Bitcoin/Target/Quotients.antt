-- ===== src/Bitcoin/Target/Quotients.antt =====
-- The quotient that the division of `bitcoin_target` collects, bit by bit.
use scu35_bitcoin_lottery_mi.Base.{
  ℕ, suc, ◌+◌, ◌-◌, ◌*◌, ◌/◌, ◌%◌, ◌^◌, ◌≤◌, ◌<◌, ◌≡◌, refl, ap, ◌∙◌, List, length, Bool, true,
  false, leb, by_test, arith,
}
use native.Mathlib.Nat.{pow-suc, pow-le-pow_right}
use scu35_bitcoin_lottery_mi.Bitcoin.Target.{Division, quotient_bit}
use scu35_bitcoin_lottery_mi.Bitcoin.Target.Limbs.{Limbs}
use scu35_bitcoin_lottery_mi.Bitcoin.Target.Words.{words, set-Raised}

-- `power` is the weight of the lowest bit that is known.
pub data Collected (q power : ℕ) (overflow : Bool) (out : List ℕ) : Type 0 where
  exact :
      overflow ≡ false
      → Limbs out
      → length out ≡ 8
      → words out ≡ q * power
      → Collected q power overflow out
  large : overflow ≡ true → 2 ^ 256 ≤ q * power → Collected q power overflow out

pub zero_bit-Collected :
    (q bit : ℕ) {overflow : Bool} {out : List ℕ}
    → Collected q (2 ^ suc bit) overflow out
    → Collected (2 * q) (2 ^ bit) overflow out
zero_bit-Collected q bit (exact h l n w) =
    exact h l n (w ∙ grind (arith, ap (λ (p : ℕ). q * p) (pow-suc 2 bit)))
zero_bit-Collected q bit (large h n) =
    large h (grind (arith, n, ap (λ (p : ℕ). q * p) (pow-suc 2 bit)))

pub one_bit-Collected :
    (q bit : ℕ) (denominator : List ℕ) (d : Division)
    → Collected q (2 ^ suc bit) d.overflow d.out
    → Collected
        (2 * q + 1)
        (2 ^ bit)
        (quotient_bit denominator bit d).overflow
        (quotient_bit denominator bit d).out
unfolding quotient_bit
one_bit-Collected q bit denominator d c =
    by_test (λ (e : Division). Collected (2 * q + 1) (2 ^ bit) e.overflow e.out) (leb 256 bit) _ _
      (λ high.
        let wide : 256 ≤ bit = ground arith in
        large refl (grind (arith, pow-le-pow_right {n = 2} (omega arith) wide)))
      (λ low. elim c [
        | exact h l n w ↦
            let narrow : bit < 256 = ground arith in
            let whole : 2 ^ (32 * (bit / 32) + bit % 32) ≡ 2 ^ bit =
              ap (λ (n : ℕ). 2 ^ n) {x = 32 * (bit / 32) + bit % 32} {y = bit} (omega arith) in
            let next =
              set-Raised d.out (7 - bit / 32) (bit / 32) (bit % 32) q l (omega (arith, narrow, n))
                (omega arith) (w ∙ ap (λ (n : ℕ). q * 2 ^ suc n) (omega arith)) in
            exact h next.limbs (next.same_length ∙ n)
              (next.number ∙ ap (λ (n : ℕ). (2 * q + 1) * n) whole)
        | large h n ↦ large h (grind (arith, n, ap (λ (p : ℕ). q * p) (pow-suc 2 bit)))
      ])
