-- ===== src/Base/Slices.antt =====
-- Parts of lists, and of an array with bytes stored in it.
use Prim.Native.Nat.{ℕ, zero, suc, ◌+◌, ◌≤◌}
use mathlib.Core.Path.{◌≡◌, refl, sym, ap, ◌∙◌}
use mathlib.Core.List.{List, [], ◌∷◌, ◌++◌, append_assoc}
use native.Mathlib.Omega.{arith}
use scu35_bitcoin_lottery_mi.Base.Lists.{
  length, take, drop, replicate, length-append, length-take, take-append_at,
}
use scu35_bitcoin_lottery_mi.Base.Window.{store_at}

module _ {ℓ} {A : Type ℓ} where
  pub take_all : (n : ℕ) (xs : List A) → length xs ≤ n → take n xs ≡ xs
  take_all zero [] h = refl
  take_all zero (x ∷ xs) h = absurd (omega arith)
  take_all (suc n) [] h = refl
  take_all (suc n) (x ∷ xs) h = ap (λ t. x ∷ t) (take_all n xs (omega arith))

  pub drop_all : (n : ℕ) (xs : List A) → length xs ≤ n → drop n xs ≡ []
  drop_all zero [] h = refl
  drop_all zero (x ∷ xs) h = absurd (omega arith)
  drop_all (suc n) [] h = refl
  drop_all (suc n) (x ∷ xs) h = drop_all n xs (omega arith)

  pub drop-append : (n : ℕ) (xs ys : List A) → n ≤ length xs → drop n (xs ++ ys) ≡ drop n xs ++ ys
  drop-append zero xs ys h = refl
  drop-append (suc n) [] ys h = absurd (omega arith)
  drop-append (suc n) (x ∷ xs) ys h = drop-append n xs ys (omega arith)

  pub take-append : (n : ℕ) (xs ys : List A) → n ≤ length xs → take n (xs ++ ys) ≡ take n xs
  take-append zero xs ys h = refl
  take-append (suc n) [] ys h = absurd (omega arith)
  take-append (suc n) (x ∷ xs) ys h = ap (λ t. x ∷ t) (take-append n xs ys (omega arith))

  pub replicate-append : (n m : ℕ) (a : A) → replicate n a ++ replicate m a ≡ replicate (n + m) a
  replicate-append zero m a = ap (λ k. replicate k a) (omega arith)
  replicate-append (suc n) m a =
      ap (λ t. a ∷ t) (replicate-append n m a)
      ∙ ap (λ k. replicate k a) {x = suc (n + m)} {y = suc n + m} (omega arith)

-- Bytes stored behind the first `offset` extend them.
pub take-store_at :
    (dst : List ℕ) (offset : ℕ) (src : List ℕ)
    → offset ≤ length dst
    → take (offset + length src) (store_at dst offset src) ≡ take offset dst ++ src
unfolding store_at
take-store_at dst offset src h =
    ap (λ t. take (offset + length src) t) (sym (append_assoc (take offset dst) src _))
    ∙ take-append_at (take offset dst ++ src) _ (offset + length src)
        (omega (arith, length-append (take offset dst) src, length-take offset dst))
