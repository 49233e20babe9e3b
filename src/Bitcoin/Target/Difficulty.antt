-- ===== src/Bitcoin/Target/Difficulty.antt =====
-- `bitcoin_target` from the text of a difficulty to the number of the target.
use scu35_bitcoin_lottery_mi.Base.{
  ℕ, ◌+◌, ◌-◌, ◌*◌, ◌^◌, ◌≤◌, ◌<◌, ◌≡◌, refl, sym, ap, ap₂, ◌∙◌, Option, some, List, [], ◌∷◌, ◌++◌,
  length, length-append, Bool, true, false, not, ◌||◌, ◌&&◌, All, ltb, ◌==◌, ◌>>=◌, Option-cases,
  inl, inr, arith,
}
use native.Mathlib.Nat.{pow-le-pow_right}
use scu35_bitcoin_lottery_mi.Bitcoin.Target.{
  Mantissa, mantissa_char, mantissa_loop, mantissa_target, exponent_part, signed_target,
  bitcoin_target, big_zero,
}
use scu35_bitcoin_lottery_mi.Bitcoin.Target.Limbs.{value}
use scu35_bitcoin_lottery_mi.Bitcoin.Target.Words.{words}
use scu35_bitcoin_lottery_mi.Bitcoin.Target.Divide.{Limbs-zeros}
use scu35_bitcoin_lottery_mi.Bitcoin.Target.Scale.{target_number, scaled_target-target_number}
use scu35_bitcoin_lottery_mi.Bitcoin.Target.Decimal.{IsDigit, decimal, Sound, mantissa_loop-Digits}

abbrev pub fraction_text : List ℕ → List ℕ
fraction_text [] = []
fraction_text (f ∷ fs) = b'.' ∷ f ∷ fs

abbrev pub difficulty_text : List ℕ → List ℕ → List ℕ → List ℕ
difficulty_text ds fs tail = ds ++ (fraction_text fs ++ tail)

abbrev pub IsTail : List ℕ → Type 0
IsTail [] = Unit
IsTail (c ∷ cs) = (c == b'e' || c == b'E') ≡ true

abbrev no_digits : Mantissa
no_digits = record {
  digits = 0;
  fractional = 0;
  point = false;
  nonzero = false;
  denominator = big_zero;
}

mantissa_loop-tail :
    (tail : List ℕ) (m : Mantissa) → IsTail tail → mantissa_loop tail m ≡ some (m, tail)
unfolding mantissa_loop
mantissa_loop-tail [] m h = refl
mantissa_loop-tail (c ∷ cs) m h = rw h refl

decimal-append : (v : ℕ) (ds fs : List ℕ) → decimal v (ds ++ fs) ≡ decimal (decimal v ds) fs
decimal-append v [] fs = refl
decimal-append v (c ∷ ds) fs = decimal-append (10 * v + (c - b'0')) ds fs

record Read (ds fs tail : List ℕ) : Type 0 where
  mantissa : Mantissa
  loop : mantissa_loop (difficulty_text ds fs tail) no_digits ≡ some (mantissa, tail)
  digits : mantissa.digits ≤ 64
  fractional : mantissa.fractional ≡ length fs
  complete : (mantissa.point && mantissa.fractional == 0) ≡ false
  number : value mantissa.denominator ≡ decimal 0 (ds ++ fs)
  sound : Sound mantissa

no_digits-Sound : Sound no_digits
no_digits-Sound = record {
  limbs = Limbs-zeros 32;
  wide = refl;
  bounded = omega arith;
  nonzero_value = refl;
}

digits_behind : (point : Bool) (n : ℕ) → 1 ≤ n → (point && n == 0) ≡ false
digits_behind true n h = ground arith
digits_behind false n h = refl

mantissa_loop-Read :
    (ds fs tail : List ℕ)
    → All IsDigit ds
    → All IsDigit fs
    → 1 ≤ length ds
    → length ds + length fs ≤ 64
    → IsTail tail
    → Read ds fs tail
unfolding mantissa_loop mantissa_char
mantissa_loop-Read ds [] tail d k one room t =
    let whole = mantissa_loop-Digits ds tail no_digits d (omega arith) no_digits-Sound in
    record {
      mantissa = whole.next;
      loop = whole.loop ∙ mantissa_loop-tail tail whole.next t;
      digits = omega (arith, whole.digits);
      fractional = whole.fractional;
      complete = rw whole.point refl;
      number = whole.number ∙ sym (decimal-append 0 ds []);
      sound = whole.sound;
    }
mantissa_loop-Read ds (f ∷ fs) tail d k one room t =
    let whole =
      mantissa_loop-Digits ds (b'.' ∷ f ∷ (fs ++ tail)) no_digits d (omega arith) no_digits-Sound in
    let pointed = record whole.next { point = true } in
    let open_yet : whole.next.point || whole.next.digits == 0 ≡ false =
      rw whole.point (ground (arith, whole.digits)) in
    let dot : mantissa_char b'.' whole.next ≡ some pointed = rw open_yet refl in
    let sound : Sound pointed = record {
      limbs = whole.sound.limbs;
      wide = whole.sound.wide;
      bounded = whole.sound.bounded;
      nonzero_value = whole.sound.nonzero_value;
    } in
    let part = mantissa_loop-Digits (f ∷ fs) tail pointed k (omega (arith, whole.digits)) sound in
    record {
      mantissa = part.next;
      loop =
          whole.loop
          ∙ ap (λ o. o >>= mantissa_loop (f ∷ (fs ++ tail))) dot
          ∙ part.loop
          ∙ mantissa_loop-tail tail part.next t;
      digits = omega (arith, part.digits, whole.digits);
      fractional = part.fractional ∙ omega (arith, whole.fractional);
      complete =
          digits_behind part.next.point part.next.fractional
            (omega (arith, part.fractional, whole.fractional));
      number =
          part.number
          ∙ ap (λ v. decimal v (f ∷ fs)) whole.number
          ∙ sym (decimal-append 0 ds (f ∷ fs));
      sound = part.sound;
    }

-- An exponent moves the point; `digits` stand behind it.
abbrev pub moved : ℕ → ℕ → Bool × ℕ → Option ℕ
moved m digits (true, e) = target_number m 0 (e + digits)
moved m digits (false, e) = target_number m e digits

small : (m : Mantissa) → Sound m → m.digits ≤ 64 → value m.denominator < 10 ^ 64
small m s h = omega (arith, s.bounded, pow-le-pow_right {n = 10} (omega arith) h)

signed_target-moved :
    (m : Mantissa) (x : Bool × ℕ)
    → Sound m
    → m.digits ≤ 64
    → 0 < value m.denominator
    → (signed_target m x >>= λ t. some (words t)) ≡ moved (value m.denominator) m.fractional x
unfolding signed_target
signed_target-moved m (true, e) s h p =
    scaled_target-target_number m.denominator 0 (e + m.fractional) s.limbs s.wide p (small m s h)
signed_target-moved m (false, e) s h p =
    scaled_target-target_number m.denominator e m.fractional s.limbs s.wide p (small m s h)

-- For a difficulty written as digits, at least one, then none or a point and at least one digit, at
-- most 64 in all and not all zeros, then nothing or an exponent, within 80 characters: the call
-- fails exactly when `exponent_part` does, or when the exponent of ten, without the digits behind
-- the point, is above 128 or below -128. Else the words that it returns are the number 0xffff * 2 ^
-- 208 divided by the difficulty, rounded down, and 2 ^ 256 - 1 at most.
pub bitcoin_target-moved :
    (ds fs tail : List ℕ)
    → All IsDigit ds
    → All IsDigit fs
    → 1 ≤ length ds
    → length ds + length fs ≤ 64
    → IsTail tail
    → length (difficulty_text ds fs tail) ≤ 80
    → 0 < decimal 0 (ds ++ fs)
    → (bitcoin_target (difficulty_text ds fs tail) >>= λ t. some (words t))
      ≡ (exponent_part tail >>= moved (decimal 0 (ds ++ fs)) (length fs))
unfolding bitcoin_target mantissa_target
bitcoin_target-moved ds fs tail d k one room t short p =
    let r = mantissa_loop-Read ds fs tail d k one room t in
    let m = r.mantissa in
    let sized : length (difficulty_text ds fs tail) == 0
          || ltb 80 (length (difficulty_text ds fs tail))
        ≡ false =
      ground (arith, short, one, length-append ds (fraction_text fs ++ tail)) in
    let nonzero : m.nonzero ≡ true = r.sound.nonzero_value ∙ ground (arith, r.number, p) in
    let kept : not m.nonzero || (m.point && m.fractional == 0) ≡ false = rw nonzero r.complete in
    elim (Option-cases (exponent_part tail)) [
      | inl e ↦ rw (sized, r.loop, kept, e) refl
      | inr (x, e) ↦
          rw (sized, r.loop, kept, e)
            (signed_target-moved m x r.sound r.digits (omega (arith, p, r.number))
              ∙ ap₂ (λ v n. moved v n x) r.number r.fractional)
    ]
