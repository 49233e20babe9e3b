-- ===== src/Stratum/Fresh.antt =====
-- The second extranonce of the Stratum client as a number.
use scu35_bitcoin_lottery_mi.Base.{
  ℕ, zero, suc, ◌+◌, ◌*◌, ◌^◌, ◌≤◌, ◌<◌, Bool, true, false, List, [], ◌∷◌, ◌≡◌, ◌≢◌, refl, ap, ◌∙◌,
  inl, inr, if◌then◌else◌, ◌==◌, length, at, set, u8, Bool-cases, Bytes, at-Bytes, length-set,
  arith,
}
use native.Mathlib.Nat.{pow-suc}
use scu35_bitcoin_lottery_mi.Stratum.Work.{increment}

-- The number in the first bytes, the highest first.
abbrev pub front : ℕ → List ℕ → ℕ
front zero extra2 = 0
front (suc n) extra2 = front n extra2 * 256 + at extra2 n

at-set : (xs : List ℕ) (i v : ℕ) → i < length xs → at (set xs i v) i ≡ v
at-set [] i v h = absurd (omega arith)
at-set (x ∷ xs) zero v h = refl
at-set (x ∷ xs) (suc i) v h = at-set xs i v (omega arith)

at-set_ne : (xs : List ℕ) (i j v : ℕ) → j ≢ i → at (set xs i v) j ≡ at xs j
at-set_ne [] i j v h = refl
at-set_ne (x ∷ xs) zero zero v h = absurd (h refl)
at-set_ne (x ∷ xs) zero (suc j) v h = refl
at-set_ne (x ∷ xs) (suc i) zero v h = refl
at-set_ne (x ∷ xs) (suc i) (suc j) v h = at-set_ne xs i j v (λ e. h (ap suc e))

front-set : (n i v : ℕ) (xs : List ℕ) → n ≤ i → front n (set xs i v) ≡ front n xs
front-set zero i v xs h = refl
front-set (suc n) i v xs h =
    omega (arith, front-set n i v xs (omega arith), at-set_ne xs i n v (λ e. omega arith))

Bytes-set : (xs : List ℕ) (i v : ℕ) → Bytes xs → v < 256 → Bytes (set xs i v)
Bytes-set [] i v h k = tt
Bytes-set (x ∷ xs) zero v (hx, h) k = (k, h)
Bytes-set (x ∷ xs) (suc i) v (hx, h) k = (hx, Bytes-set xs i v h k)

-- The bytes behind are left alone.
increment_behind : (n j : ℕ) (e : List ℕ) → n ≤ j → at (increment n e).1 j ≡ at e j
unfolding increment
increment_behind zero j e h = refl
increment_behind (suc i) j e h =
    let v = u8 (at e i + 1) in
    let same = at-set_ne e i j v (λ q. omega arith) in
    let deeper = increment_behind i j (set e i v) (omega arith) ∙ same in
    elim (Bool-cases (v == 0)) [
      | inr q ↦ rw q same
      | inl q ↦ rw q (elim (Bool-cases (i == 0)) [ inl z ↦ rw z same | inr z ↦ rw z deeper ])
    ]

is_zero : (n : ℕ) → (n == 0) ≡ true → n ≡ 0
is_zero n h = ground arith

nonzero : (n : ℕ) → (n == 0) ≡ false → n ≢ 0
nonzero n h = ground arith

positive : (n : ℕ) → (n == 0) ≡ false → 0 < n
positive n h = ground arith

carry_up :
    (i : ℕ) (over : Bool) → (if over then 256 ^ suc i else 0) ≡ (if over then 256 ^ i else 0) * 256
carry_up i true = pow-suc 256 i
carry_up i false = refl

-- One more, or 0 with a carry out of the first byte.
pub increment_number :
    (n : ℕ) (e : List ℕ)
    → Bytes e
    → n ≤ length e
    → 0 < n
    → front n (increment n e).1 + (if (increment n e).0 then 256 ^ n else 0) ≡ front n e + 1
unfolding increment
increment_number zero e b h pos = absurd (omega arith)
increment_number (suc i) e b h pos =
    let v = u8 (at e i + 1) in
    let below = at-Bytes e i b in
    let here = at-set e i v (omega arith) in
    let before = front-set i i v e (omega arith) in
    elim (Bool-cases (v == 0)) [
      | inr q ↦ rw q (omega (arith, here, before, below, nonzero v q))
      | inl q ↦ rw q (elim (Bool-cases (i == 0)) [
        | inl z ↦ rw z (
            omega (
              arith,
              here,
              before,
              below,
              is_zero v q,
              ap (λ (n : ℕ). 256 ^ suc n) (is_zero i z),
              ap (λ (n : ℕ). front n e) (is_zero i z),
            ))
        | inr z ↦ rw z (
            let rest =
              increment_number i (set e i v) (Bytes-set e i v b (omega arith))
                (omega (arith, length-set e i v)) (positive i z) in
            omega (
              arith,
              rest,
              here,
              before,
              below,
              is_zero v q,
              increment_behind i i (set e i v) (omega arith),
              carry_up i (increment i (set e i v)).0,
            ))
      ])
    ]
