-- ===== src/Bitcoin/Target/Scale.antt =====
-- The powers of ten of `bitcoin_target`, and the target of a scaled number.
use scu35_bitcoin_lottery_mi.Base.{
  ℕ, zero, suc, ◌+◌, ◌-◌, ◌*◌, ◌/◌, ◌^◌, ◌≤◌, ◌<◌, ◌≡◌, refl, ap, ap₂, ◌∙◌, inl, inr, Option, none,
  some, List, length, ◌||◌, replicate, ltb, ◌==◌, by_test, Bool-cases, min, if◌then◌else◌, ◌>>=◌,
  arith,
}
use native.Mathlib.Nat.{
  pow-suc, mul-le-mul, one-le-pow, pow-le-pow_right, mul-le-mul_left, mul-le-mul_right,
}
use scu35_bitcoin_lottery_mi.Bitcoin.Target.{
  mul_limbs, multiply10, scale, scaled_target, big_zero, difficulty_one,
}
use scu35_bitcoin_lottery_mi.Bitcoin.Target.Limbs.{
  Limbs, Keeps, value, size, size-length, mul_limbs-Tenfold,
}
use scu35_bitcoin_lottery_mi.Bitcoin.Target.Words.{words, Limbs-set}
use scu35_bitcoin_lottery_mi.Bitcoin.Target.Divide.{Limbs-zeros, words-divide}

-- The number of the limbs, unless it does not fit them.
pub data Scaled (v : ℕ) (a : List ℕ) (o : Option (List ℕ)) : Type 0 where
  fits : (b : List ℕ) → o ≡ some b → Keeps a b → value b ≡ v → Scaled v a o
  over : o ≡ none → size a ≤ v → Scaled v a o

pub multiply10-Scaled :
    (a : List ℕ) (add : ℕ)
    → add < 2 ^ 32
    → Limbs a
    → Scaled (10 * value a + add) a (multiply10 a add)
unfolding multiply10
multiply10-Scaled a add h l =
    let t = mul_limbs-Tenfold add a h l in
    by_test (Scaled (10 * value a + add) a) ((mul_limbs add a).0 == 0) _ _
      (λ e.
        let no_top : (mul_limbs add a).0 ≡ 0 = ground arith in
        fits (mul_limbs add a).1 refl (record { limbs = t.limbs; same_length = t.same_length })
          (grind (arith, t.product, ap (λ (n : ℕ). size a * n) no_top)))
      (λ ne.
        let top : 1 ≤ (mul_limbs add a).0 = ground arith in
        over refl (omega (arith, t.product, mul-le-mul_left (size a) top)))

powers :
    (n : ℕ) (a b : List ℕ) → value b ≡ 10 * value a + 0 → 10 ^ n * value b ≡ 10 ^ suc n * value a
powers n a b v =
    grind (arith, ap (λ (k : ℕ). 10 ^ n * k) v, ap (λ (k : ℕ). k * value a) (pow-suc 10 n))

chained :
    (n : ℕ) (a b : List ℕ) {o : Option (List ℕ)}
    → Keeps a b
    → value b ≡ 10 * value a + 0
    → Scaled (10 ^ n * value b) b o
    → Scaled (10 ^ suc n * value a) a o
chained n a b k v (fits c e l w) =
    fits c e (record { limbs = l.limbs; same_length = l.same_length ∙ k.same_length })
      (w ∙ powers n a b v)
chained n a b k v (over e big) =
    over e (omega (arith, big, powers n a b v, size-length b a k.same_length))

pub scale-Scaled : (n : ℕ) (a : List ℕ) → Limbs a → Scaled (10 ^ n * value a) a (scale n a)
unfolding scale
scale-Scaled zero a l = fits a refl (record { limbs = l; same_length = refl }) (omega arith)
scale-Scaled (suc n) a l = elim (multiply10-Scaled a 0 (omega arith) l) [
  | fits b e k v ↦ rw e (chained n a b k v (scale-Scaled n b k.limbs))
  | over e big ↦ rw e (
      over refl (
        grind (
          arith,
          big,
          pow-suc 10 n,
          mul-le-mul_right (10 * value a) (one-le-pow n 10 (omega arith)),
        )))
]

record Fits (n : ℕ) (a : List ℕ) : Type 0 where
  result : List ℕ
  scaled : scale n a ≡ some result
  limbs : Limbs result
  same_length : length result ≡ 32
  product : value result ≡ 10 ^ n * value a

-- A power of ten up to 10^128 of a number below 10^68 fits.
scale-Fits : (n : ℕ) (a : List ℕ) → Limbs a → length a ≡ 32 → n ≤ 128 → value a < 10 ^ 68 → Fits n a
scale-Fits n a l e h small = elim (scale-Scaled n a l) [
  | fits b s k v ↦ record {
    result = b;
    scaled = s;
    limbs = k.limbs;
    same_length = k.same_length ∙ e;
    product = v;
  }
  | over s big ↦
      let power = pow-le-pow_right {n = 10} (omega arith) h in
      let below : value a ≤ 10 ^ 68 = omega (arith, small) in
      let most : 10 ^ n * value a ≤ 10 ^ 128 * 10 ^ 68 = mul-le-mul power below in
      let whole = size-length a (replicate 32 0) e in absurd (omega (arith, most, big, whole))
]

positive : (n : ℕ) (a : List ℕ) (f : Fits n a) → 0 < value a → 0 < value f.result
positive n a f p =
    omega (arith, f.product, mul-le-mul_right (value a) (one-le-pow n 10 (omega arith)))

-- The target of the difficulty `m * 10 ^ (up - down)`, when the exponents are in range.
unfoldable pub target_number : ℕ → ℕ → ℕ → Option ℕ
target_number m up down =
    if ltb (down + 128) up || ltb (up + 128) down
    then none
    else some (min (10 ^ (down - up) * (0xffff * 2 ^ 208) / (10 ^ (up - down) * m)) (2 ^ 256 - 1))

pub scaled_target-target_number :
    (limbs : List ℕ) (up down : ℕ)
    → Limbs limbs
    → length limbs ≡ 32
    → 0 < value limbs
    → value limbs < 10 ^ 64
    → (scaled_target limbs up down >>= λ t. some (words t)) ≡ target_number (value limbs) up down
unfolding scaled_target target_number
scaled_target-target_number limbs up down l e p small =
    elim (Bool-cases (ltb (down + 128) up || ltb (up + 128) down)) [
      | inl far ↦ rw far refl
      | inr near ↦
          let d = scale-Fits (up - down) limbs l e (ground arith) (omega (arith, small)) in
          let n =
            scale-Fits (down - up) difficulty_one one_limbs refl (ground arith) (omega arith) in
          rw (near, d.scaled, n.scaled)
            (ap some (
              words-divide n.result d.result n.limbs d.limbs n.same_length d.same_length
                (positive (up - down) limbs d p)
              ∙ ap₂ (λ a b. min (a / b) (2 ^ 256 - 1)) n.product d.product))
    ]
  where
    one_limbs : Limbs difficulty_one
    one_limbs = Limbs-set big_zero 6 0xffff0000 (Limbs-zeros 32) (omega arith)
