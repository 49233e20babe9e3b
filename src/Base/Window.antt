-- ===== src/Base/Window.antt =====
-- Arrays by position: reading a byte, storing bytes at an offset, and the bytes of a range of
-- addresses of a memory.
use Prim.Native.Nat.{ℕ, zero, suc, ◌+◌, ◌-◌, ◌≤◌, ◌<◌}
use mathlib.Core.Path.{◌≡◌, refl, sym, ap, ap₂, ◌∙◌}
use mathlib.Core.Bool.{◌&&◌}
use mathlib.Core.List.{List, [], ◌∷◌, ◌++◌}
use native.Mathlib.Omega.{arith}
use native.Mathlib.Nat.{add-zero}
use scu35_bitcoin_lottery_mi.Base.Lists.{
  length, get_or, take, drop, length-append, length-take, length-drop, Bytes,
}
use scu35_bitcoin_lottery_mi.Base.Tests.{ltb, leb, if◌then◌else◌}

-- `xs[i]`, for an index inside the array.
abbrev pub at : List ℕ → ℕ → ℕ
at xs i = get_or xs i 0

pub at-Bytes : (xs : List ℕ) (i : ℕ) → Bytes xs → at xs i < 256
at-Bytes [] i h = omega arith
at-Bytes (x ∷ xs) zero (hx, h) = hx
at-Bytes (x ∷ xs) (suc i) (hx, h) = at-Bytes xs i h

-- `memcpy(dst + offset, src, length src)`, inside `dst`.
unfoldable pub store_at : List ℕ → ℕ → List ℕ → List ℕ
store_at dst offset src = take offset dst ++ (src ++ drop (offset + length src) dst)

pub length-store_at :
    (dst : List ℕ) (offset : ℕ) (src : List ℕ)
    → offset + length src ≤ length dst
    → length (store_at dst offset src) ≡ length dst
unfolding store_at
length-store_at dst offset src h = omega (
  arith,
  length-append (take offset dst) (src ++ drop (offset + length src) dst),
  length-append src (drop (offset + length src) dst),
  length-take offset dst,
  length-drop (offset + length src) dst,
)

pub at-append :
    (xs ys : List ℕ) (i : ℕ)
    → at (xs ++ ys) i ≡ (if ltb i (length xs) then at xs i else at ys (i - length xs))
at-append [] ys i = ground arith
at-append (x ∷ xs) ys zero = ground arith
at-append (x ∷ xs) ys (suc i) = ground (arith, at-append xs ys i)

pub at-take : (n : ℕ) (xs : List ℕ) (i : ℕ) → i < n → at (take n xs) i ≡ at xs i
at-take zero xs i h = absurd (omega arith)
at-take (suc n) [] i h = refl
at-take (suc n) (x ∷ xs) zero h = refl
at-take (suc n) (x ∷ xs) (suc i) h = at-take n xs i (omega arith)

pub at-drop : (n : ℕ) (xs : List ℕ) (i : ℕ) → at (drop n xs) i ≡ at xs (n + i)
at-drop zero xs i = ap (λ k. at xs k) (omega arith)
at-drop (suc n) [] i = refl
at-drop (suc n) (x ∷ xs) i =
    at-drop n xs i ∙ ap (λ k. at (x ∷ xs) k) {x = suc (n + i)} {y = suc n + i} (omega arith)

-- A stored byte is the new one inside the range, and the old one outside.
pub at-store_at :
    (dst : List ℕ) (offset : ℕ) (src : List ℕ) (i : ℕ)
    → offset + length src ≤ length dst
    → at (store_at dst offset src) i
      ≡ (if leb offset i && ltb i (offset + length src) then at src (i - offset) else at dst i)
unfolding store_at
at-store_at dst offset src i h = ground (
  arith,
  at-append (take offset dst) (src ++ drop (offset + length src) dst) i,
  at-append src (drop (offset + length src) dst) (i - offset),
  at-take offset dst i,
  at-drop (offset + length src) dst (i - offset - length src),
  length-take offset dst,
)

pub at-store_at_inside :
    (dst : List ℕ) (offset : ℕ) (src : List ℕ) (j : ℕ)
    → offset + length src ≤ length dst
    → j < length src
    → at (store_at dst offset src) (offset + j) ≡ at src j
at-store_at_inside dst offset src j h k = at-store_at dst offset src (offset + j) h ∙ ground arith

pub at-store_at_before :
    (dst : List ℕ) (offset : ℕ) (src : List ℕ) (i : ℕ)
    → offset + length src ≤ length dst
    → i < offset
    → at (store_at dst offset src) i ≡ at dst i
at-store_at_before dst offset src i h k = at-store_at dst offset src i h ∙ ground arith

pub at-store_at_behind :
    (dst : List ℕ) (offset : ℕ) (src : List ℕ) (i : ℕ)
    → offset + length src ≤ length dst
    → offset + length src ≤ i
    → at (store_at dst offset src) i ≡ at dst i
at-store_at_behind dst offset src i h k = at-store_at dst offset src i h ∙ ground arith

pub at_ext :
    (xs ys : List ℕ)
    → length xs ≡ length ys
    → ((j : ℕ) → j < length ys → at xs j ≡ at ys j)
    → xs ≡ ys
at_ext [] [] e h = refl
at_ext [] (y ∷ ys) e h = absurd (omega arith)
at_ext (x ∷ xs) [] e h = absurd (omega arith)
at_ext (x ∷ xs) (y ∷ ys) e h =
    ap₂ ◌∷◌ (h 0 (omega arith)) (at_ext xs ys (omega arith) (λ j k. h (suc j) (omega arith)))

-- A part of an array that holds given bytes.
pub slice_eq :
    (b xs : List ℕ) (p n : ℕ)
    → length xs ≡ n
    → p + n ≤ length b
    → ((j : ℕ) → j < n → at b (p + j) ≡ at xs j)
    → take n (drop p b) ≡ xs
slice_eq b xs p n hx hb h =
    at_ext (take n (drop p b)) xs (omega (arith, length-take n (drop p b), length-drop p b))
      (λ j k. at-take n (drop p b) j (omega arith) ∙ at-drop p b j ∙ h j (omega arith))

-- `n` bytes of a memory from address `a` on.
abbrev pub window : (ℕ → ℕ) → ℕ → ℕ → List ℕ
window f a zero = []
window f a (suc n) = f a ∷ window f (a + 1) n

pub length-window : (f : ℕ → ℕ) (a n : ℕ) → length (window f a n) ≡ n
length-window f a zero = refl
length-window f a (suc n) = ap suc (length-window f (a + 1) n)

pub window_ext :
    (f g : ℕ → ℕ) (a b n : ℕ)
    → ((j : ℕ) → j < n → f (a + j) ≡ g (b + j))
    → window f a n ≡ window g b n
window_ext f g a b zero h = refl
window_ext f g a b (suc n) h =
    let first : f a ≡ g b = ap f (sym (add-zero a)) ∙ h 0 (omega arith) ∙ ap g (add-zero b) in
    ap₂ ◌∷◌ first (
      window_ext f g (a + 1) (b + 1) n
        λ j k. ap f (omega arith) ∙ h (suc j) (omega arith) ∙ ap g (omega arith))

pub at-window : (f : ℕ → ℕ) (a n i : ℕ) → i < n → at (window f a n) i ≡ f (a + i)
at-window f a zero i h = absurd (omega arith)
at-window f a (suc n) zero h = ap f (omega arith)
at-window f a (suc n) (suc i) h = at-window f (a + 1) n i (omega arith) ∙ ap f (omega arith)

pub window_eq :
    (f : ℕ → ℕ) (xs : List ℕ) (a : ℕ)
    → ((j : ℕ) → j < length xs → f (a + j) ≡ at xs j)
    → window f a (length xs) ≡ xs
window_eq f [] a h = refl
window_eq f (x ∷ xs) a h =
    ap₂ ◌∷◌ (ap f (sym (add-zero a)) ∙ h 0 (omega arith))
      (window_eq f xs (a + 1) λ j k. ap f (omega arith) ∙ h (suc j) (omega arith))

pub take-window : (f : ℕ → ℕ) (a n m : ℕ) → n ≤ m → take n (window f a m) ≡ window f a n
take-window f a zero m h = refl
take-window f a (suc n) zero h = absurd (omega arith)
take-window f a (suc n) (suc m) h = ap (λ t. f a ∷ t) (take-window f (a + 1) n m (omega arith))

pub drop-window : (f : ℕ → ℕ) (a k m : ℕ) → k ≤ m → drop k (window f a m) ≡ window f (a + k) (m - k)
drop-window f a zero m h = ap₂ (λ x n. window f x n) (omega arith) (omega arith)
drop-window f a (suc k) zero h = absurd (omega arith)
drop-window f a (suc k) (suc m) h =
    drop-window f (a + 1) k m (omega arith) ∙ ap₂ (λ x n. window f x n) (omega arith) (omega arith)
