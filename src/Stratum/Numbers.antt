-- ===== src/Stratum/Numbers.antt =====
-- Bytes of the Stratum client as numbers: a digest and a target, and the second extranonce.
use scu35_bitcoin_lottery_mi.Base.{
  ℕ, zero, suc, ◌+◌, ◌-◌, ◌*◌, ◌/◌, ◌%◌, ◌^◌, ◌≤◌, ◌<◌, Bool, true, false, List, [], ◌∷◌, ◌≡◌, refl,
  ap, ◌∙◌, ◌↔◌, inl, inr, if◌then◌else◌, ltb, at, All, u8, Bool-cases, Bytes, at-Bytes, subst,
  arith,
}
use native.Mathlib.Nat.{pow-suc}
use scu35_bitcoin_lottery_mi.Stratum.Shares.{meets, target_byte}

-- The number with the bytes `f i`, `f (i + 1)` and on, the highest first.
abbrev pub number : ℕ → ℕ → (ℕ → ℕ) → ℕ
number zero i f = 0
number (suc left) i f = f i * 256 ^ left + number left (i + 1) f

pub number-lt : (left i : ℕ) (f : ℕ → ℕ) → ((k : ℕ) → f k < 256) → number left i f < 256 ^ left
number-lt zero i f h = omega arith
number-lt (suc left) i f h = grind (arith, h i, number-lt left (i + 1) f h, pow-suc 256 left)

higher_byte : (p a b x y : ℕ) → a < b → x < p → a * p + x < b * p + y
higher_byte p a b x y h k = grind arith

-- The first byte that differs decides.
first_byte :
    (p d t x y : ℕ) (rest : Bool)
    → x < p
    → y < p
    → (rest ≡ true) ↔ (x ≤ y)
    → ((if ltb d t then true else (if ltb t d then false else rest)) ≡ true)
      ↔ (d * p + x ≤ t * p + y)
first_byte p d t x y rest h k same = elim (Bool-cases (ltb d t)) [
  | inl lower ↦ rw lower ((λ _. omega (arith, higher_byte p d t x y (ground arith) h)), (λ _. refl))
  | inr e ↦ elim (Bool-cases (ltb t d)) [
    | inl higher ↦
        rw (e, higher)
          (
            (λ q. absurd (cc q)),
            (λ q. absurd (omega (arith, higher_byte p t d y x (ground arith) k))),
          )
    | inr q ↦
        (let level : d ≡ t = ground arith in
          let part = ap (λ (n : ℕ). n * p) level in
          rw (e, q) ((λ r. omega (arith, same.0 r, part)), (λ r. same.1 (omega (arith, part)))))
  ]
]

-- The loop compares the numbers.
pub meets_number :
    (left i : ℕ) (digest target : List ℕ)
    → ((k : ℕ) → at digest (31 - k) < 256)
    → ((k : ℕ) → target_byte target k < 256)
    → (meets left i digest target ≡ true)
      ↔ (number left i (λ k. at digest (31 - k)) ≤ number left i (target_byte target))
unfolding meets
meets_number zero i digest target h k = ((λ _. omega arith), (λ _. refl))
meets_number (suc left) i digest target h k =
    first_byte (256 ^ left) (at digest (31 - i)) (target_byte target i)
      (number left (i + 1) (λ j. at digest (31 - j))) (number left (i + 1) (target_byte target))
      (meets left (i + 1) digest target) (number-lt left (i + 1) (λ j. at digest (31 - j)) h)
      (number-lt left (i + 1) (target_byte target) k) (meets_number left (i + 1) digest target h k)

-- The number with the words `f i`, `f (i + 1)` and on, the highest first.
abbrev pub words_number : ℕ → ℕ → List ℕ → ℕ
words_number zero i target = 0
words_number (suc left) i target = at target i * (2 ^ 32) ^ left + words_number left (i + 1) target

abbrev quad : ℕ → ℕ
quad zero = 0
quad (suc n) = suc (suc (suc (suc (quad n))))

pow-quad : (n : ℕ) → 256 ^ quad n ≡ (2 ^ 32) ^ n
pow-quad zero = refl
pow-quad (suc n) = grind (
  arith,
  pow-suc 256 (quad n),
  pow-suc 256 (suc (quad n)),
  pow-suc 256 (suc (suc (quad n))),
  pow-suc 256 (suc (suc (suc (quad n)))),
  pow-suc (2 ^ 32) n,
  pow-quad n,
)

target_byte_of :
    (target : List ℕ) (k i j : ℕ)
    → k / 4 ≡ i
    → k % 4 ≡ j
    → target_byte target k ≡ u8 (at target i / 2 ^ (24 - 8 * j))
unfolding target_byte
target_byte_of target k i j q r = rw (q, r)

target_byte-lt : (target : List ℕ) (k : ℕ) → target_byte target k < 256
unfolding target_byte
target_byte-lt target k = omega arith

-- The four bytes of a word.
word_bytes :
    (target : List ℕ) (i : ℕ)
    → at target i < 2 ^ 32
    → ((target_byte target (i * 4) * 256 + target_byte target (i * 4 + 1)) * 256
            + target_byte target (i * 4 + 2))
          * 256
        + target_byte target (i * 4 + 3)
      ≡ at target i
word_bytes target i h = omega (
  arith,
  target_byte_of target (i * 4) i 0 (omega arith) (omega arith),
  target_byte_of target (i * 4 + 1) i 1 (omega arith) (omega arith),
  target_byte_of target (i * 4 + 2) i 2 (omega arith) (omega arith),
  target_byte_of target (i * 4 + 3) i 3 (omega arith) (omega arith),
)

horner :
    (p b0 b1 b2 b3 rest : ℕ)
    → b0 * (p * 256 * 256 * 256) + (b1 * (p * 256 * 256) + (b2 * (p * 256) + (b3 * p + rest)))
      ≡ (((b0 * 256 + b1) * 256 + b2) * 256 + b3) * p + rest
horner p b0 b1 b2 b3 rest = grind arith

four_bytes :
    (q b0 b1 b2 b3 rest : ℕ)
    → b0 * 256 ^ suc (suc (suc q))
        + (b1 * 256 ^ suc (suc q) + (b2 * 256 ^ suc q + (b3 * 256 ^ q + rest)))
      ≡ (((b0 * 256 + b1) * 256 + b2) * 256 + b3) * 256 ^ q + rest
four_bytes q b0 b1 b2 b3 rest =
    rw (pow-suc 256 (suc (suc q)), pow-suc 256 (suc q), pow-suc 256 q)
      (horner (256 ^ q) b0 b1 b2 b3 rest)

target_number :
    (left i : ℕ) (target : List ℕ)
    → ((k : ℕ) → at target k < 2 ^ 32)
    → number (quad left) (i * 4) (target_byte target) ≡ words_number left i target
target_number zero i target h = refl
target_number (suc left) i target h =
    let b = target_byte target in
    let p : ℕ = 256 ^ quad left in
    let rest = number (quad left) ((i + 1) * 4) b in
    let next_word : number (quad left) (i * 4 + 1 + 1 + 1 + 1) b ≡ rest =
      ap (λ (j : ℕ). number (quad left) j b) (omega arith) in
    let second = ap b {x = i * 4 + 1 + 1} {y = i * 4 + 2} (omega arith) in
    let third = ap b {x = i * 4 + 1 + 1 + 1} {y = i * 4 + 3} (omega arith) in
    rw (next_word, second, third)
      (four_bytes (quad left) (b (i * 4)) (b (i * 4 + 1)) (b (i * 4 + 2)) (b (i * 4 + 3)) rest
        ∙ rw (word_bytes target i (h i), target_number left (i + 1) target h, pow-quad left))

abbrev pub Words : List ℕ → Type 0
Words = All (λ v. v < 2 ^ 32)

at-Words : (xs : List ℕ) (i : ℕ) → Words xs → at xs i < 2 ^ 32
at-Words [] i h = omega arith
at-Words (x ∷ xs) zero (hx, h) = hx
at-Words (x ∷ xs) (suc i) (hx, h) = at-Words xs i h

-- A digest is read from its last byte on, and a target from its first word on.
pub digest_number : List ℕ → ℕ
digest_number digest = number 32 0 (λ k. at digest (31 - k))

pub target_value : List ℕ → ℕ
target_value target = words_number 8 0 target

-- For a digest of bytes and a target of 32-bit words, the loop finds a result valid exactly when
-- the digest, read as a number from its last byte on, is at most the target, read from its first
-- word on.
pub meets_iff :
    (digest target : List ℕ)
    → Bytes digest
    → Words target
    → (meets 32 0 digest target ≡ true) ↔ (digest_number digest ≤ target_value target)
unfolding digest_number target_value
meets_iff digest target h k =
    subst (λ (n : ℕ). (meets 32 0 digest target ≡ true) ↔ (digest_number digest ≤ n))
      (target_number 8 0 target (λ i. at-Words target i k))
      (meets_number 32 0 digest target (λ i. at-Bytes digest (31 - i) h) (target_byte-lt target))
