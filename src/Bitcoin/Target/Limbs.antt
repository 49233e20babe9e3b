-- ===== src/Bitcoin/Target/Limbs.antt =====
-- The arithmetic of `bitcoin_target` on numbers of limbs: what its helpers do to the numbers.
use scu35_bitcoin_lottery_mi.Base.{
  ℕ, suc, ◌+◌, ◌*◌, ◌/◌, ◌%◌, ◌^◌, ◌≤◌, ◌<◌, ◌≡◌, refl, ap, List, [], ◌∷◌, length, All, ltb, ◌==◌,
  if◌then◌else◌, u32, u64, Bool-cases, inl, inr, by_test, bit_or, bit_or-add, arith,
}
use scu35_bitcoin_lottery_mi.Bitcoin.Target.{
  mul_limbs, Sign, less, same, more, differing, compare_limbs, subtract_limbs, shift_limbs,
}

abbrev pub Limbs : List ℕ → Type 0
Limbs = All (λ v. v < 2 ^ 32)

-- The number, and the one behind its highest limb.
abbrev pub value : List ℕ → ℕ
value [] = 0
value (x ∷ xs) = x + 2 ^ 32 * value xs

abbrev pub size : List ℕ → ℕ
size [] = 1
size (x ∷ xs) = 2 ^ 32 * size xs

pub value-lt-size : (a : List ℕ) → Limbs a → value a < size a
value-lt-size [] h = omega arith
value-lt-size (x ∷ xs) (hx, h) = omega (arith, value-lt-size xs h)

-- Ten times a number and a carry.
pub record Tenfold (carry : ℕ) (a : List ℕ) (r : ℕ × List ℕ) : Type 0 where
  pub product : value r.1 + size a * r.0 ≡ 10 * value a + carry
  pub limbs : Limbs r.1
  pub same_length : length r.1 ≡ length a

pub mul_limbs-Tenfold :
    (carry : ℕ) (a : List ℕ) → carry < 2 ^ 32 → Limbs a → Tenfold carry a (mul_limbs carry a)
unfolding mul_limbs
mul_limbs-Tenfold carry [] h l = record { product = omega arith; limbs = tt; same_length = refl }
mul_limbs-Tenfold carry (x ∷ xs) h (hx, l) =
    let t = u64 (carry + u64 (x * 10)) in
    let rest = mul_limbs-Tenfold (t / 2 ^ 32) xs (omega arith) l in
    record {
      product = grind (arith, ap (λ (n : ℕ). 2 ^ 32 * n) rest.product);
      limbs = (omega arith, rest.limbs);
      same_length = ap suc rest.same_length;
    }

-- The order of the numbers.
abbrev pub Orders : Sign → ℕ → ℕ → Type 0
Orders less m n = m < n
Orders same m n = m ≡ n
Orders more m n = n < m

differing-Orders :
    (s : Sign) (x y m n : ℕ)
    → x < 2 ^ 32
    → y < 2 ^ 32
    → Orders s m n
    → Orders (differing s x y) (x + 2 ^ 32 * m) (y + 2 ^ 32 * n)
unfolding differing
differing-Orders less x y m n h k o = omega arith
differing-Orders more x y m n h k o = omega arith
differing-Orders same x y m n h k o =
    let P = λ (s : Sign). Orders s (x + 2 ^ 32 * m) (y + 2 ^ 32 * n) in
    by_test P (x == y) _ _ (λ e. ground (arith, o))
      (λ ne. by_test P (ltb y x) _ _ (λ e. ground (arith, o)) (λ e. ground (arith, o)))

pub compare_limbs-Orders :
    (x y : List ℕ)
    → Limbs x
    → Limbs y
    → length x ≡ length y
    → Orders (compare_limbs x y) (value x) (value y)
unfolding compare_limbs
compare_limbs-Orders [] [] h k e = refl
compare_limbs-Orders [] (y ∷ ys) h k e = absurd (omega arith)
compare_limbs-Orders (x ∷ xs) [] h k e = absurd (omega arith)
compare_limbs-Orders (x ∷ xs) (y ∷ ys) (hx, h) (ky, k) e =
    differing-Orders (compare_limbs xs ys) x y (value xs) (value ys) hx ky
      (compare_limbs-Orders xs ys h k (omega arith))

-- A difference, with what is borrowed.
pub value-subtract_limbs :
    (borrow : ℕ) (x y : List ℕ)
    → Limbs x
    → Limbs y
    → length x ≡ length y
    → borrow ≤ 1
    → value y + borrow ≤ value x
    → value (subtract_limbs borrow x y) + (value y + borrow) ≡ value x
unfolding subtract_limbs
value-subtract_limbs borrow [] [] h k e b le = omega arith
value-subtract_limbs borrow [] (y ∷ ys) h k e b le = absurd (omega arith)
value-subtract_limbs borrow (x ∷ xs) [] h k e b le = absurd (omega arith)
value-subtract_limbs borrow (x ∷ xs) (y ∷ ys) (hx, h) (ky, k) e b le =
    elim (Bool-cases (ltb x (y + borrow))) [
      | inl t ↦
          let low : x < y + borrow = ground arith in
          rw t (
            omega (
              arith,
              low,
              value-subtract_limbs 1 xs ys h k (omega arith) (omega arith) (omega arith),
            ))
      | inr t ↦
          let high : y + borrow ≤ x = ground arith in
          rw t (
            omega (
              arith,
              high,
              value-subtract_limbs 0 xs ys h k (omega arith) (omega arith) (omega arith),
            ))
    ]

-- Twice a number and a bit.
pub value-shift_limbs :
    (carry : ℕ) (a : List ℕ)
    → carry ≤ 1
    → Limbs a
    → 2 * value a + carry < size a
    → value (shift_limbs carry a) ≡ 2 * value a + carry
unfolding shift_limbs
value-shift_limbs carry [] h l fit = omega arith
value-shift_limbs carry (x ∷ xs) h (hx, l) fit =
    let bits : u32 (x * 2 ^ 1) ≡ (x % 2 ^ 31) * 2 ^ 1 = omega arith in
    omega (
      arith,
      ap (λ (n : ℕ). bit_or n carry) bits,
      bit_or-add 1 (x % 2 ^ 31) carry (omega arith),
      value-shift_limbs (x / 2 ^ 31) xs (omega arith) l (omega arith),
    )

pub size-length : (x y : List ℕ) → length x ≡ length y → size x ≡ size y
size-length [] [] e = refl
size-length [] (y ∷ ys) e = absurd (omega arith)
size-length (x ∷ xs) [] e = absurd (omega arith)
size-length (x ∷ xs) (y ∷ ys) e = ap (λ (n : ℕ). 2 ^ 32 * n) (size-length xs ys (omega arith))

-- The limbs of both are as many, and fit.
pub record Keeps (a b : List ℕ) : Type 0 where
  pub limbs : Limbs b
  pub same_length : length b ≡ length a

pub shift_limbs-Keeps :
    (carry : ℕ) (a : List ℕ) → carry ≤ 1 → Limbs a → Keeps a (shift_limbs carry a)
unfolding shift_limbs
shift_limbs-Keeps carry [] h l = record { limbs = tt; same_length = refl }
shift_limbs-Keeps carry (x ∷ xs) h (hx, l) =
    let bits : u32 (x * 2 ^ 1) ≡ (x % 2 ^ 31) * 2 ^ 1 = omega arith in
    let rest = shift_limbs-Keeps (x / 2 ^ 31) xs (omega arith) l in
    record {
      limbs = (
        omega (
          arith,
          ap (λ (n : ℕ). bit_or n carry) bits,
          bit_or-add 1 (x % 2 ^ 31) carry (omega arith),
        ),
        rest.limbs,
      );
      same_length = ap suc rest.same_length;
    }

pub subtract_limbs-Keeps :
    (borrow : ℕ) (x y : List ℕ) → Limbs x → Keeps x (subtract_limbs borrow x y)
unfolding subtract_limbs
subtract_limbs-Keeps borrow [] y l = record { limbs = tt; same_length = refl }
subtract_limbs-Keeps borrow (x ∷ xs) [] l = record { limbs = l; same_length = refl }
subtract_limbs-Keeps borrow (x ∷ xs) (y ∷ ys) (hx, l) =
    let rest = subtract_limbs-Keeps (if ltb x (y + borrow) then 1 else 0) xs ys l in
    record { limbs = (omega arith, rest.limbs); same_length = ap suc rest.same_length }
