-- ===== src/Bitcoin/Target/Decimal.antt =====
-- The decimal digits that `bitcoin_target` reads into limbs.
use scu35_bitcoin_lottery_mi.Base.{
  ℕ, suc, ◌+◌, ◌-◌, ◌*◌, ◌^◌, ◌≤◌, ◌<◌, ◌≡◌, refl, ap, ◌∙◌, some, List, [], ◌∷◌, ◌++◌, length, Bool,
  true, false, not, ◌||◌, All, replicate, ltb, ◌==◌, by_test, if◌then◌else◌, arith,
}
use native.Mathlib.Nat.{pow-suc, pow-le-pow_right}
use scu35_bitcoin_lottery_mi.Bitcoin.Target.{
  Mantissa, mantissa_digit, mantissa_char, mantissa_loop, exponent_loop, exponent_part,
  exponent_sign, exponent_digits,
}
use scu35_bitcoin_lottery_mi.Bitcoin.Target.Limbs.{Limbs, value, size-length}
use scu35_bitcoin_lottery_mi.Bitcoin.Target.Scale.{fits, over, multiply10-Scaled}

abbrev pub IsDigit : ℕ → Type 0
IsDigit c = (b'0' ≤ c) × (c ≤ b'9')

-- Digits behind a number.
abbrev pub decimal : ℕ → List ℕ → ℕ
decimal v [] = v
decimal v (c ∷ cs) = decimal (10 * v + (c - b'0')) cs

pub record Sound (m : Mantissa) : Type 0 where
  pub limbs : Limbs m.denominator
  pub wide : length m.denominator ≡ 32
  pub bounded : value m.denominator < 10 ^ m.digits
  pub nonzero_value : m.nonzero ≡ ltb 0 (value m.denominator)

record Digit (c : ℕ) (m : Mantissa) : Type 0 where
  next : Mantissa
  char : mantissa_char c m ≡ some next
  digits : next.digits ≡ m.digits + 1
  fractional : next.fractional ≡ (if m.point then m.fractional + 1 else m.fractional)
  point : next.point ≡ m.point
  number : value next.denominator ≡ 10 * value m.denominator + (c - b'0')
  sound : Sound next

nonzero_digit :
    (nonzero : Bool) (v c w : ℕ)
    → nonzero ≡ ltb 0 v
    → b'0' ≤ c
    → w ≡ 10 * v + (c - b'0')
    → (nonzero || not (c == b'0')) ≡ ltb 0 w
nonzero_digit true v c w e h k = ground (arith, e)
nonzero_digit false v c w e h k = ground (arith, e)

mantissa_char-Digit : (c : ℕ) (m : Mantissa) → IsDigit c → m.digits < 64 → Sound m → Digit c m
unfolding mantissa_char mantissa_digit
mantissa_char-Digit c m (lo, hi) h s =
    let no_point : c == b'.' ≡ false = ground arith in
    let is_digit : ltb c b'0' || ltb b'9' c || ltb 64 (m.digits + 1) ≡ false = ground arith in
    let digits_suc : 10 ^ (m.digits + 1) ≡ 10 ^ suc m.digits =
      ap (λ (n : ℕ). 10 ^ n) {x = m.digits + 1} {y = suc m.digits} (omega arith) in
    let most : suc m.digits ≤ 64 = omega arith in
    let power = pow-suc 10 m.digits in
    let room : 10 * value m.denominator + (c - b'0') < 10 ^ suc m.digits =
      grind (arith, s.bounded, power) in
    elim (multiply10-Scaled m.denominator (c - b'0') (omega arith) s.limbs) [
      | fits b e k v ↦ record {
        next = record m {
          digits = m.digits + 1;
          fractional = if m.point then m.fractional + 1 else m.fractional;
          nonzero = m.nonzero || not (c == b'0');
          denominator = b;
        };
        char = rw (no_point, is_digit, e) refl;
        digits = refl;
        fractional = refl;
        point = refl;
        number = v;
        sound = record {
          limbs = k.limbs;
          wide = k.same_length ∙ s.wide;
          bounded = omega (arith, v, room, digits_suc);
          nonzero_value =
              nonzero_digit m.nonzero (value m.denominator) c (value b) s.nonzero_value lo v;
        };
      }
      | over e big ↦ absurd (
          omega (
            arith,
            big,
            room,
            pow-le-pow_right {n = 10} (omega arith) most,
            size-length m.denominator (replicate 32 0) s.wide,
          ))
    ]

-- The loop over digits, and what it leaves for the rest.
pub record Digits (ds tail : List ℕ) (m : Mantissa) : Type 0 where
  pub next : Mantissa
  pub loop : mantissa_loop (ds ++ tail) m ≡ mantissa_loop tail next
  pub digits : next.digits ≡ m.digits + length ds
  pub fractional : next.fractional ≡ (if m.point then m.fractional + length ds else m.fractional)
  pub point : next.point ≡ m.point
  pub number : value next.denominator ≡ decimal (value m.denominator) ds
  pub sound : Sound next

counted :
    (point before : Bool) (f g n : ℕ)
    → before ≡ point
    → g ≡ (if point then f + 1 else f)
    → (if before then g + n else g) ≡ (if point then f + suc n else f)
counted true before f g n e h = rw e (omega (arith, h))
counted false before f g n e h = rw e h

pub mantissa_loop-Digits :
    (ds tail : List ℕ) (m : Mantissa)
    → All IsDigit ds
    → m.digits + length ds ≤ 64
    → Sound m
    → Digits ds tail m
unfolding mantissa_loop
mantissa_loop-Digits [] tail m d h s = record {
  next = m;
  loop = refl;
  digits = omega arith;
  fractional = by_test (λ (n : ℕ). m.fractional ≡ n) m.point _ _ (λ e. omega arith) (λ e. refl);
  point = refl;
  number = refl;
  sound = s;
}
mantissa_loop-Digits (c ∷ ds) tail m ((lo, hi), d) h s =
    let step = mantissa_char-Digit c m (lo, hi) (omega arith) s in
    let rest = mantissa_loop-Digits ds tail step.next d (omega (arith, step.digits)) step.sound in
    let no_exponent : c == b'e' || c == b'E' ≡ false = ground arith in
    record {
      next = rest.next;
      loop = rw (no_exponent, step.char) rest.loop;
      digits = omega (arith, rest.digits, step.digits);
      fractional =
          rest.fractional
          ∙ counted m.point step.next.point m.fractional step.next.fractional (length ds) step.point
              step.fractional;
      point = rest.point ∙ step.point;
      number = rest.number ∙ ap (λ v. decimal v ds) step.number;
      sound = rest.sound;
    }

decimal_grows : (v : ℕ) (cs : List ℕ) → v ≤ decimal v cs
decimal_grows v [] = omega arith
decimal_grows v (c ∷ cs) = omega (arith, decimal_grows (10 * v + (c - b'0')) cs)

exponent_loop-decimal :
    (e : ℕ) (cs : List ℕ)
    → All IsDigit cs
    → decimal e cs ≤ 128
    → exponent_loop e cs ≡ some (decimal e cs)
unfolding exponent_loop
exponent_loop-decimal e [] d h = refl
exponent_loop-decimal e (c ∷ cs) ((lo, hi), d) h =
    let grown = decimal_grows (10 * e + (c - b'0')) cs in
    let taken : ltb c b'0' || ltb b'9' c || ltb 128 e ≡ false = ground (arith, grown, h, lo, hi) in
    let same : e * 10 + (c - b'0') ≡ 10 * e + (c - b'0') = omega arith in
    rw (taken, same) (exponent_loop-decimal (10 * e + (c - b'0')) cs d h)

-- An exponent of digits, at least one, whose number is at most 128 is read as that number: as
-- positive without a sign and behind a plus, as negative behind a minus.
pub exponent_part-decimal :
    (x c : ℕ) (cs : List ℕ)
    → All IsDigit (c ∷ cs)
    → decimal 0 (c ∷ cs) ≤ 128
    → (exponent_part (x ∷ c ∷ cs) ≡ some (false, decimal 0 (c ∷ cs)))
      × (exponent_part (x ∷ b'+' ∷ c ∷ cs) ≡ some (false, decimal 0 (c ∷ cs)))
      × (exponent_part (x ∷ b'-' ∷ c ∷ cs) ≡ some (true, decimal 0 (c ∷ cs)))
unfolding exponent_part exponent_sign exponent_digits
exponent_part-decimal x c cs ((lo, hi), d) h =
    let read = exponent_loop-decimal 0 (c ∷ cs) ((lo, hi), d) h in
    let no_sign : c == b'+' || c == b'-' ≡ false = ground (arith, lo) in
    (rw (no_sign, read) refl, rw read refl, rw read refl)
