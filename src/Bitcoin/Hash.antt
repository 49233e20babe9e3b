-- ===== src/Bitcoin/Hash.antt =====
-- `sha256d` and the Merkle root against SHA-256 of the messages.
use scu35_bitcoin_lottery_mi.Base.{
  ℕ, ◌≡◌, refl, ap, ap₂, ◌∙◌, List, [], ◌∷◌, ◌++◌, arith, Option, some, length, take_all, ◌>>=◌,
  All,
}
use scu35_bitcoin_lottery_mi.Sha256.{Sha256Ctx, sha256_init, sha256_update, sha256_final}
use scu35_bitcoin_lottery_mi.Sha256.Stream.{
  Represents, sha256_update-Represents, sha256_init-Represents,
}
use scu35_bitcoin_lottery_mi.Sha256.Digest.{
  sha256, sha256_final-sha256, sha256_final-buffer, length-sha256,
}
use scu35_bitcoin_lottery_mi.Bitcoin.{sha256d, merkle, coinbase_hash}

-- What follows an update: the end of the first hash and the whole second one.
abbrev second_hash : Sha256Ctx → Option (List ℕ)
second_hash c = sha256_update (sha256_init (sha256_final c).0) (sha256_final c).1 >>= λ c'.
    some (sha256_final c').1

second_hash-sha256 :
    (c : Sha256Ctx) (m : List ℕ) → Represents c m → second_hash c ≡ some (sha256 (sha256 m))
second_hash-sha256 c m r =
    let (c', runs, r') =
      sha256_update-Represents (sha256_init (sha256_final c).0) [] (sha256_final c).1
        (sha256_init-Represents (sha256_final c).0 (sha256_final-buffer c m r)) in
    ap (λ (o : Option Sha256Ctx). o >>= λ d. some (sha256_final d).1) runs
    ∙ ap some (sha256_final-sha256 c' (sha256_final c).1 r' ∙ ap sha256 (sha256_final-sha256 c m r))

-- From a context whose buffer has 64 bytes, the double hash returns the SHA-256 of the SHA-256 of
-- the bytes.
pub sha256d-sha256 :
    (unset : Sha256Ctx) (bytes : List ℕ)
    → length unset.buffer ≡ 64
    → sha256d unset bytes ≡ some (sha256 (sha256 bytes))
unfolding sha256d
sha256d-sha256 unset bytes h =
    let (c, runs, r) =
      sha256_update-Represents (sha256_init unset) [] bytes (sha256_init-Represents unset h) in
    ap (λ (o : Option Sha256Ctx). o >>= second_hash) runs ∙ second_hash-sha256 c bytes r

coinbase_hash-sha256 :
    (unset : Sha256Ctx) (coin1 extra1 extra2 coin2 : List ℕ)
    → length unset.buffer ≡ 64
    → coinbase_hash unset coin1 extra1 extra2 coin2
      ≡ some (sha256 (sha256 (((coin1 ++ extra1) ++ extra2) ++ coin2)))
unfolding coinbase_hash
coinbase_hash-sha256 unset coin1 extra1 extra2 coin2 h =
    let (c1, runs1, r1) =
      sha256_update-Represents (sha256_init unset) [] coin1 (sha256_init-Represents unset h) in
    let (c2, runs2, r2) = sha256_update-Represents c1 coin1 extra1 r1 in
    let (c3, runs3, r3) = sha256_update-Represents c2 (coin1 ++ extra1) extra2 r2 in
    let (c4, runs4, r4) = sha256_update-Represents c3 ((coin1 ++ extra1) ++ extra2) coin2 r3 in
    ap
      (λ (o : Option Sha256Ctx). o >>= λ a. sha256_update a extra1 >>= λ b.
        sha256_update b extra2 >>= λ c. sha256_update c coin2 >>= second_hash)
      runs1
    ∙ ap
        (λ (o : Option Sha256Ctx).
          o >>= λ b. sha256_update b extra2 >>= λ c. sha256_update c coin2 >>= second_hash)
        runs2
    ∙ ap (λ (o : Option Sha256Ctx). o >>= λ c. sha256_update c coin2 >>= second_hash) runs3
    ∙ ap (λ (o : Option Sha256Ctx). o >>= second_hash) runs4
    ∙ second_hash-sha256 c4 (((coin1 ++ extra1) ++ extra2) ++ coin2) r4

-- The root of a Merkle path: each branch is hashed behind what stands for the left subtree.
abbrev pub merkle_root : List ℕ → List (List ℕ) → List ℕ
merkle_root root [] = root
merkle_root root (branch ∷ branches) = merkle_root (sha256 (sha256 (root ++ branch))) branches

merkle-merkle_root :
    (unset : Sha256Ctx) (branches : List (List ℕ)) (root : List ℕ)
    → length unset.buffer ≡ 64
    → length root ≡ 32
    → All (λ branch. length branch ≡ 32) branches
    → merkle unset branches root ≡ some (merkle_root root branches)
unfolding merkle
merkle-merkle_root unset [] root h n all = refl
merkle-merkle_root unset (branch ∷ branches) root h n (hb, all) =
    ap (λ (o : Option (List ℕ)). o >>= merkle unset branches)
      (ap (sha256d unset)
          (ap₂ ◌++◌ (take_all 32 root (omega (arith, n))) (take_all 32 branch (omega (arith, hb))))
        ∙ sha256d-sha256 unset (root ++ branch) h)
    ∙ merkle-merkle_root unset branches (sha256 (sha256 (root ++ branch))) h
        (length-sha256 (sha256 (root ++ branch))) all

-- The root that the header's bytes 36 to 67 take.
abbrev pub root_of : List ℕ → List ℕ → List ℕ → List ℕ → List (List ℕ) → List ℕ
root_of coin1 extra1 extra2 coin2 branches =
    merkle_root (sha256 (sha256 (((coin1 ++ extra1) ++ extra2) ++ coin2))) branches

pub length-merkle_root :
    (root : List ℕ) (branches : List (List ℕ))
    → length root ≡ 32
    → length (merkle_root root branches) ≡ 32
length-merkle_root root [] n = n
length-merkle_root root (branch ∷ branches) n =
    length-merkle_root (sha256 (sha256 (root ++ branch))) branches
      (length-sha256 (sha256 (root ++ branch)))

pub roots_found :
    (unset : Sha256Ctx) (coin1 extra1 extra2 coin2 : List ℕ) (branches : List (List ℕ))
    → length unset.buffer ≡ 64
    → All (λ branch. length branch ≡ 32) branches
    → (coinbase_hash unset coin1 extra1 extra2 coin2 >>= merkle unset branches)
      ≡ some (root_of coin1 extra1 extra2 coin2 branches)
roots_found unset coin1 extra1 extra2 coin2 branches h all =
    ap (λ (o : Option (List ℕ)). o >>= merkle unset branches)
      (coinbase_hash-sha256 unset coin1 extra1 extra2 coin2 h)
    ∙ merkle-merkle_root unset branches _ h
        (length-sha256 (sha256 (((coin1 ++ extra1) ++ extra2) ++ coin2))) all
