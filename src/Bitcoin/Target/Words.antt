-- ===== src/Bitcoin/Target/Words.antt =====
-- The words of a target, the highest first, as `bitcoin_target` sets their bits.
use scu35_bitcoin_lottery_mi.Base.{
  ℕ, zero, suc, ◌+◌, ◌-◌, ◌*◌, ◌/◌, ◌%◌, ◌^◌, ◌≤◌, ◌<◌, ◌≡◌, sym, ap, ◌∙◌, List, [], ◌∷◌, length,
  length-set, at, set, bit_or, bit_or-add, u32, ◌<<<◌, arith,
}
use native.Mathlib.Nat.{
  pow-suc, add-mul-div_left, mul-div_cancel, one-le-pow, div-add-mod, mod-lt, mul-le-mul_right,
  mul-add-div_right, div-eq_of_lt,
}
use scu35_bitcoin_lottery_mi.Bitcoin.Target.Limbs.{Limbs}
use scu35_bitcoin_lottery_mi.Bitcoin.Target.Bits.{pow_add}

abbrev pub words : List ℕ → ℕ
words [] = 0
words (x ∷ xs) = x * 2 ^ (32 * length xs) + words xs

power-suc : (n : ℕ) → 2 ^ (32 * suc n) ≡ 2 ^ 32 * 2 ^ (32 * n)
power-suc n =
    ap (λ (k : ℕ). 2 ^ k) {x = 32 * suc n} {y = 32 + 32 * n} (omega arith) ∙ pow_add 32 (32 * n)

pub words_bound : (xs : List ℕ) → Limbs xs → words xs < 2 ^ (32 * length xs)
words_bound [] l = omega arith
words_bound (x ∷ xs) (hx, l) = grind (arith, words_bound xs l, power-suc (length xs))

pub words-set :
    (xs : List ℕ) (i k v : ℕ)
    → i + suc k ≡ length xs
    → words (set xs i v) + at xs i * 2 ^ (32 * k) ≡ words xs + v * 2 ^ (32 * k)
words-set [] i k v e = absurd (omega arith)
words-set (x ∷ xs) zero k v e =
    let same : 2 ^ (32 * length xs) ≡ 2 ^ (32 * k) = ap (λ (n : ℕ). 2 ^ (32 * n)) (omega arith) in
    grind (arith, ap (λ (n : ℕ). x * n) same, ap (λ (n : ℕ). v * n) same)
words-set (x ∷ xs) (suc i) k v e =
    grind (
      arith,
      words-set xs i k v (omega arith),
      ap (λ (n : ℕ). x * 2 ^ (32 * n)) (length-set xs i v),
    )

-- A word is a remainder of a quotient.
pub at-words :
    (xs : List ℕ) (i k : ℕ)
    → Limbs xs
    → i + suc k ≡ length xs
    → at xs i ≡ words xs / 2 ^ (32 * k) % 2 ^ 32
at-words [] i k l e = absurd (omega arith)
at-words (x ∷ xs) zero k (hx, l) e =
    let same : 2 ^ (32 * length xs) ≡ 2 ^ (32 * k) = ap (λ (n : ℕ). 2 ^ (32 * n)) (omega arith) in
    let quotient = mul-add-div_right (one-le-pow (32 * k) 2 (omega arith)) x (words xs) in
    omega (
      arith,
      ap (λ (n : ℕ). (x * n + words xs) / 2 ^ (32 * k)) same,
      quotient,
      div-eq_of_lt {n = words xs} {m = 2 ^ (32 * k)} (omega (arith, words_bound xs l, same)),
    )
at-words (x ∷ xs) (suc i) k (hx, l) e =
    let power : 2 ^ (32 * length xs) ≡ 2 ^ (32 * k) * 2 ^ (32 * suc i) =
      ap (λ (n : ℕ). 2 ^ n) {x = 32 * length xs} {y = 32 * k + 32 * suc i} (omega (arith, e))
      ∙ pow_add (32 * k) (32 * suc i) in
    let multiple = x * 2 ^ (32 * i) in
    let sum : words (x ∷ xs) ≡ words xs + 2 ^ (32 * k) * (2 ^ 32 * multiple) =
      grind
        (arith, ap (λ (n : ℕ). x * n) power, ap (λ (n : ℕ). x * 2 ^ (32 * k) * n) (power-suc i)) in
    omega (
      arith,
      ap (λ (n : ℕ). n / 2 ^ (32 * k)) sum,
      add-mul-div_left (words xs) (2 ^ 32 * multiple) {y = 2 ^ (32 * k)}
          (one-le-pow (32 * k) 2 (omega arith)),
      at-words xs i k l (omega arith),
    )

parts : (r : ℕ) → r < 32 → 2 ^ suc r * 2 ^ (31 - r) ≡ 2 ^ 32
parts r h =
    sym (pow_add (suc r) (31 - r))
    ∙ ap (λ (n : ℕ). 2 ^ n) {x = suc r + (31 - r)} {y = 32} (omega arith)

word_room : (r q : ℕ) → r < 32 → q % 2 ^ (31 - r) * 2 ^ suc r + 2 ^ suc r ≤ 2 ^ 32
word_room r q h =
    let m = 2 ^ (31 - r) in
    let room =
      mul-le-mul_right (2 ^ suc r) (mod-lt q {m = m} (one-le-pow (31 - r) 2 (omega arith))) in
    grind (arith, room, parts r h)

-- A word of a number that ends in zeros does so.
pub word_zeros :
    (xs : List ℕ) (i k r q : ℕ)
    → Limbs xs
    → i + suc k ≡ length xs
    → r < 32
    → words xs ≡ q * 2 ^ (suc (32 * k + r))
    → at xs i ≡ q % 2 ^ (31 - r) * 2 ^ suc r
word_zeros xs i k r q l e h w =
    let m = 2 ^ (31 - r) in
    let full = parts r h in
    let split : words xs ≡ q * 2 ^ suc r * 2 ^ (32 * k) = grind (
      arith,
      w,
      ap (λ (n : ℕ). q * 2 ^ n) {x = suc (32 * k + r)} {y = suc r + 32 * k} (omega arith),
      ap (λ (n : ℕ). q * n) (pow_add (suc r) (32 * k)),
    ) in
    let high = div-add-mod q m in
    let sum : q * 2 ^ suc r ≡ q % m * 2 ^ suc r + 2 ^ 32 * (q / m) =
      grind (arith, ap (λ (n : ℕ). n * 2 ^ suc r) high, ap (λ (n : ℕ). n * (q / m)) full) in
    omega (
      arith,
      at-words xs i k l e,
      ap (λ (n : ℕ). n / 2 ^ (32 * k)) split,
      mul-div_cancel (q * 2 ^ suc r) {n = 2 ^ (32 * k)} (one-le-pow (32 * k) 2 (omega arith)),
      sum,
      one-le-pow (suc r) 2 (omega arith),
      word_room r q h,
    )

pub Limbs-set : (xs : List ℕ) (i v : ℕ) → Limbs xs → v < 2 ^ 32 → Limbs (set xs i v)
Limbs-set [] i v l h = l
Limbs-set (x ∷ xs) zero v (hx, l) h = (h, l)
Limbs-set (x ∷ xs) (suc i) v (hx, l) h = (hx, Limbs-set xs i v l h)

-- The next lower bit of a number that ends in zeros, set.
pub record Raised (q power : ℕ) (xs ys : List ℕ) : Type 0 where
  pub number : words ys ≡ (2 * q + 1) * power
  pub limbs : Limbs ys
  pub same_length : length ys ≡ length xs

pub set-Raised :
    (xs : List ℕ) (i k r q : ℕ)
    → Limbs xs
    → i + suc k ≡ length xs
    → r < 32
    → words xs ≡ q * 2 ^ (suc (32 * k + r))
    → Raised q (2 ^ (32 * k + r)) xs (set xs i (bit_or (at xs i) (u32 (1 <<< r))))
set-Raised xs i k r q l e h w =
    let hi = q % 2 ^ (31 - r) in
    let bit : u32 (1 <<< r) ≡ 2 ^ r =
      omega (arith, word_room r q h, pow-suc 2 r, one-le-pow r 2 (omega arith)) in
    let sum : bit_or (at xs i) (u32 (1 <<< r)) ≡ at xs i + 2 ^ r = omega (
      arith,
      word_zeros xs i k r q l e h w,
      ap (bit_or (at xs i)) bit,
      ap (λ n. bit_or n (2 ^ r)) (word_zeros xs i k r q l e h w),
      bit_or-add (suc r) hi (2 ^ r) (omega (arith, pow-suc 2 r, one-le-pow r 2 (omega arith))),
    ) in
    let small : at xs i + 2 ^ r < 2 ^ 32 = omega (
      arith,
      word_zeros xs i k r q l e h w,
      word_room r q h,
      pow-suc 2 r,
      one-le-pow r 2 (omega arith),
    ) in
    record {
      number = grind (
        arith,
        words-set xs i k (bit_or (at xs i) (u32 (1 <<< r))) e,
        ap (λ (n : ℕ). n * 2 ^ (32 * k)) sum,
        w,
        ap (λ (n : ℕ). q * n) (pow-suc 2 (32 * k + r)),
        pow_add (32 * k) r,
      );
      limbs = Limbs-set xs i (bit_or (at xs i) (u32 (1 <<< r))) l (omega (arith, sum, small));
      same_length = length-set xs i (bit_or (at xs i) (u32 (1 <<< r)));
    }
