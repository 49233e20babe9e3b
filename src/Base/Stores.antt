-- ===== src/Base/Stores.antt =====
-- Stores into an array one after the other, each at its offset.
use Prim.Native.Nat.{ℕ, ◌+◌, ◌-◌, ◌≤◌, ◌<◌}
use mathlib.Core.Path.{◌≡◌, refl, ap, ◌∙◌}
use mathlib.Core.Bool.{◌&&◌}
use mathlib.Core.List.{List, [], ◌∷◌, ◌++◌}
use native.Mathlib.Omega.{arith}
use scu35_bitcoin_lottery_mi.Base.Lists.{
  length, take, All, Bytes, Bytes-append, Bytes-take, Bytes-drop,
}
use scu35_bitcoin_lottery_mi.Base.Tests.{ltb, leb, if◌then◌else◌}
use scu35_bitcoin_lottery_mi.Base.Window.{at, store_at, length-store_at, at-store_at}

-- Stores one after the other, each at its offset.
abbrev pub store_all : List ℕ → List (ℕ × List ℕ) → List ℕ
store_all dst [] = dst
store_all dst ((offset, src) ∷ stores) = store_all (store_at dst offset src) stores

-- Each store lies in the first `n` bytes.
abbrev pub Fit : ℕ → List (ℕ × List ℕ) → Type 0
Fit n [] = Unit {0}
Fit n ((offset, src) ∷ stores) = (offset + length src ≤ n) × Fit n stores

-- The byte at `i` behind the stores, if it is `d` before them.
abbrev pub stored_byte : List (ℕ × List ℕ) → ℕ → ℕ → ℕ
stored_byte [] i d = d
stored_byte ((offset, src) ∷ stores) i d =
    stored_byte stores i
      (if leb offset i && ltb i (offset + length src) then at src (i - offset) else d)

pub length-store_all :
    (dst : List ℕ) (stores : List (ℕ × List ℕ)) (n : ℕ)
    → length dst ≡ n
    → Fit n stores
    → length (store_all dst stores) ≡ n
length-store_all dst [] n h fit = h
length-store_all dst ((offset, src) ∷ stores) n h (here, fit) =
    length-store_all (store_at dst offset src) stores n
      (length-store_at dst offset src (omega arith) ∙ h) fit

pub at-store_all :
    (dst : List ℕ) (stores : List (ℕ × List ℕ)) (n i : ℕ)
    → length dst ≡ n
    → Fit n stores
    → at (store_all dst stores) i ≡ stored_byte stores i (at dst i)
at-store_all dst [] n i h fit = refl
at-store_all dst ((offset, src) ∷ stores) n i h (here, fit) =
    at-store_all (store_at dst offset src) stores n i
      (length-store_at dst offset src (omega arith) ∙ h) fit
    ∙ ap (stored_byte stores i) (at-store_at dst offset src i (omega arith))

pub store_at-Bytes :
    (dst : List ℕ) (offset : ℕ) (src : List ℕ)
    → Bytes dst
    → Bytes src
    → Bytes (store_at dst offset src)
unfolding store_at
store_at-Bytes dst offset src h k =
    Bytes-append (take offset dst) _ (Bytes-take offset dst h)
      (Bytes-append src _ k (Bytes-drop (offset + length src) dst h))

pub store_all-Bytes :
    (dst : List ℕ) (stores : List (ℕ × List ℕ))
    → Bytes dst
    → All (λ s. Bytes s.1) stores
    → Bytes (store_all dst stores)
store_all-Bytes dst [] h k = h
store_all-Bytes dst ((offset, src) ∷ stores) h (hs, k) =
    store_all-Bytes (store_at dst offset src) stores (store_at-Bytes dst offset src h hs) k

-- All stores begin at `n` or behind it.
abbrev pub Above : ℕ → List (ℕ × List ℕ) → Type 0
Above n [] = Unit {0}
Above n ((offset, src) ∷ stores) = (n ≤ offset) × Above n stores

stored_byte-Above :
    (stores : List (ℕ × List ℕ)) (n i d : ℕ) → Above n stores → i < n → stored_byte stores i d ≡ d
stored_byte-Above [] n i d h k = refl
stored_byte-Above ((offset, src) ∷ stores) n i d (here, h) k =
    ap (stored_byte stores i) (ground arith) ∙ stored_byte-Above stores n i d h k

-- All stores end at `n` or before it.
abbrev pub Below : ℕ → List (ℕ × List ℕ) → Type 0
Below n [] = Unit {0}
Below n ((offset, src) ∷ stores) = (offset + length src ≤ n) × Below n stores

pub stored_byte-Below :
    (stores : List (ℕ × List ℕ)) (i d : ℕ) → Below i stores → stored_byte stores i d ≡ d
stored_byte-Below [] i d h = refl
stored_byte-Below ((offset, src) ∷ stores) i d (here, h) =
    ap (stored_byte stores i) (ground arith) ∙ stored_byte-Below stores i d h

stored_byte-inside :
    (offset : ℕ) (src : List ℕ) (stores : List (ℕ × List ℕ)) (i d : ℕ)
    → offset ≤ i
    → i < offset + length src
    → stored_byte ((offset, src) ∷ stores) i d ≡ stored_byte stores i (at src (i - offset))
stored_byte-inside offset src stores i d h k = ap (stored_byte stores i) (ground arith)

-- Where later stores begin behind a store, its bytes stay.
pub stored_byte-last :
    (front back : List (ℕ × List ℕ)) (offset : ℕ) (src : List ℕ) (i d : ℕ)
    → offset ≤ i
    → i < offset + length src
    → Above (offset + length src) back
    → stored_byte (front ++ ((offset, src) ∷ back)) i d ≡ at src (i - offset)
stored_byte-last [] back offset src i d h k above =
    stored_byte-inside offset src back i d h k
    ∙ stored_byte-Above back (offset + length src) i (at src (i - offset)) above k
stored_byte-last ((o, s) ∷ front) back offset src i d h k above =
    stored_byte-last front back offset src i _ h k above
