-- ===== src/Bitcoin.antt =====
-- software/common/bitcoin.c and bitcoin.h: hex text, the double hash, and the header of a block.
-- A context that C declares without a value is an argument `unset`.
pub mod Hash
pub mod Header
pub mod Hex
pub mod Target
mod Examples
use scu35_bitcoin_lottery_mi.Base.{
  ℕ, zero, suc, ◌+◌, ◌-◌, ◌*◌, ◌%◌, ◌/◌, ◌^◌, List, [], ◌∷◌, ◌++◌, map, Option, none, some, Bool,
  true, false, ◌&&◌, ◌||◌, not, length, take, at, set, store_at, replicate, ltb, leb, ◌==◌,
  if◌then◌else◌, u8, u32, ◌<<<◌, ◌>>>◌, bit_or, bit_and, bit_xor, ◌>>=◌,
}
use scu35_bitcoin_lottery_mi.Sha256.{Sha256Ctx, sha256_init, sha256_update, sha256_final}

-- `v` of the loop; `none` is -1.
unfoldable pub digit_value : ℕ → Option ℕ
digit_value c =
    if leb b'0' c && leb c b'9'
    then some (c - b'0')
    else (if leb b'a' c && leb c b'f'
        then some (c - b'a' + 10)
        else (if leb b'A' c && leb c b'F' then some (c - b'A' + 10) else none))

-- The write of digit `i`: the high half of a byte, and then its low half.
unfoldable pub put_digit : ℕ → ℕ → List ℕ → List ℕ
put_digit i v out =
    if bit_and i 1 == 0
    then set out (i / 2) (u8 (v <<< 4))
    else set out (i / 2) (bit_or (at out (i / 2)) (u8 v))

-- The loop from digit `i` on, with `left` rounds left: whether it ended, and `out`.
unfoldable pub hex_loop : ℕ → ℕ → List ℕ → List ℕ → Bool × List ℕ
hex_loop zero i s out = (true, out)
hex_loop (suc left) i s out = elim (digit_value (at s i)) [
  | none ↦ (false, out)
  | some v ↦ hex_loop left (i + 1) s (put_digit i v out)
]

-- `some` is the number of bytes, `none` is -1; with what `out` holds then.
unfoldable pub hex_decode : List ℕ → ℕ → List ℕ → ℕ → Option ℕ × List ℕ
hex_decode s n out capacity =
    if not (n % 2 == 0) || ltb capacity (n / 2)
    then (none, out)
    else (let (ended, out') = hex_loop n 0 s out in
        if ended then (some (n / 2), out') else (none, out'))

abbrev pub hex_digits : List ℕ
hex_digits =
    b'0' ∷ b'1' ∷ b'2' ∷ b'3' ∷ b'4' ∷ b'5' ∷ b'6' ∷ b'7' ∷ b'8' ∷ b'9' ∷ b'a' ∷ b'b' ∷ b'c' ∷ b'd'
    ∷ b'e' ∷ b'f' ∷ []

-- The characters that `hex_encode` writes, with the NUL behind them.
unfoldable pub hex_encode : List ℕ → List ℕ
hex_encode [] = 0 ∷ []
hex_encode (x ∷ xs) = at hex_digits (x >>> 4) ∷ at hex_digits (bit_and x 15) ∷ hex_encode xs

-- Both hashes run in the same context.
unfoldable pub sha256d : Sha256Ctx → List ℕ → Option (List ℕ)
sha256d unset bytes = do
  c ← sha256_update (sha256_init unset) bytes
  let (c', out) = sha256_final c
  c'' ← sha256_update (sha256_init c') out
  some (sha256_final c'').1

unfoldable pub bitcoin_swap32 : ℕ → ℕ
bitcoin_swap32 x =
    bit_or
      (bit_or (bit_or (u32 (x <<< 24)) (bit_and (u32 (x <<< 8)) 0xff0000))
        (bit_and (x >>> 8) 0xff00))
      (x >>> 24)

-- The loop over the branches: the root and the branch are hashed together.
unfoldable pub merkle : Sha256Ctx → List (List ℕ) → List ℕ → Option (List ℕ)
merkle unset [] root = some root
merkle unset (branch ∷ branches) root = do
  root' ← sha256d unset (take 32 root ++ take 32 branch)
  merkle unset branches root'

-- The root of the coinbase alone: four updates, and the digest hashed again in the same context.
unfoldable pub coinbase_hash : Sha256Ctx → List ℕ → List ℕ → List ℕ → List ℕ → Option (List ℕ)
coinbase_hash unset coin1 extra1 extra2 coin2 = do
  c1 ← sha256_update (sha256_init unset) coin1
  c2 ← sha256_update c1 extra1
  c3 ← sha256_update c2 extra2
  c4 ← sha256_update c3 coin2
  let (c5, root) = sha256_final c4
  c6 ← sha256_update (sha256_init c5) root
  some (sha256_final c6).1

-- `source[3 - i]` for `i` from 0 to 3.
unfoldable pub reversed4 : List ℕ → List ℕ
reversed4 source = map (λ i. at source (3 - i)) (0 ∷ 1 ∷ 2 ∷ 3 ∷ [])

-- `prev[i ^ 3]` for the `left` values of `i` from `i` on.
unfoldable pub swapped_words : ℕ → ℕ → List ℕ → List ℕ
swapped_words zero i prev = []
swapped_words (suc left) i prev = at prev (bit_xor i 3) ∷ swapped_words left (i + 1) prev

-- The writes into the header, in the code's order.
unfoldable pub put_header : List ℕ → List ℕ → List ℕ → List ℕ → List ℕ → List ℕ → List ℕ
put_header version prev bits time root header =
    let h1 = store_at header 0 (reversed4 version) in
    let h2 = store_at h1 68 (reversed4 time) in
    let h3 = store_at h2 72 (reversed4 bits) in
    let h4 = store_at h3 4 (swapped_words 32 0 prev) in
    let h5 = store_at h4 36 (take 32 root) in store_at h5 76 (replicate 4 0)

unfoldable pub bitcoin_build_header :
    Sha256Ctx
    → List ℕ
    → List ℕ
    → List ℕ
    → List ℕ
    → List ℕ
    → List ℕ
    → List ℕ
    → List ℕ
    → List (List ℕ)
    → List ℕ
    → Option (List ℕ)
bitcoin_build_header unset version prev bits time coin1 extra1 extra2 coin2 branches header = do
  root ← coinbase_hash unset coin1 extra1 extra2 coin2
  root' ← merkle unset branches root
  some (put_header version prev bits time root' header)
