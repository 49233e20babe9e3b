-- ===== src/Sha256.antt =====
-- software/common/sha256_sw.c and sha256_sw.h: SHA-256 in software. Words are numbers below 2 ^ 32.
pub mod Blocks
pub mod Stream
pub mod Digest
pub mod Words
pub mod Calls
mod Examples
use scu35_bitcoin_lottery_mi.Base.{
  ℕ, zero, suc, ◌+◌, ◌-◌, ◌*◌, ◌%◌, ◌/◌, ◌^◌, List, [], ◌∷◌, ◌++◌, map, Option, none, some, length,
  take, drop, at, store_at, ltb, ◌==◌, if◌then◌else◌, u8, u32, u64, ◌<<<◌, ◌>>>◌, bit_or, bit_and,
  bit_xor, ◌>>=◌,
}

pub record Sha256Ctx : Type 0 where
  pub h : List ℕ
  pub bit_count : ℕ
  pub buffer : List ℕ
  pub buffer_len : ℕ

abbrev k_sha256 : List ℕ
k_sha256 =
    0x428a2f98 ∷ 0x71374491 ∷ 0xb5c0fbcf ∷ 0xe9b5dba5 ∷ 0x3956c25b ∷ 0x59f111f1 ∷ 0x923f82a4
    ∷ 0xab1c5ed5 ∷ 0xd807aa98 ∷ 0x12835b01 ∷ 0x243185be ∷ 0x550c7dc3 ∷ 0x72be5d74 ∷ 0x80deb1fe
    ∷ 0x9bdc06a7 ∷ 0xc19bf174 ∷ 0xe49b69c1 ∷ 0xefbe4786 ∷ 0x0fc19dc6 ∷ 0x240ca1cc ∷ 0x2de92c6f
    ∷ 0x4a7484aa ∷ 0x5cb0a9dc ∷ 0x76f988da ∷ 0x983e5152 ∷ 0xa831c66d ∷ 0xb00327c8 ∷ 0xbf597fc7
    ∷ 0xc6e00bf3 ∷ 0xd5a79147 ∷ 0x06ca6351 ∷ 0x14292967 ∷ 0x27b70a85 ∷ 0x2e1b2138 ∷ 0x4d2c6dfc
    ∷ 0x53380d13 ∷ 0x650a7354 ∷ 0x766a0abb ∷ 0x81c2c92e ∷ 0x92722c85 ∷ 0xa2bfe8a1 ∷ 0xa81a664b
    ∷ 0xc24b8b70 ∷ 0xc76c51a3 ∷ 0xd192e819 ∷ 0xd6990624 ∷ 0xf40e3585 ∷ 0x106aa070 ∷ 0x19a4c116
    ∷ 0x1e376c08 ∷ 0x2748774c ∷ 0x34b0bcb5 ∷ 0x391c0cb3 ∷ 0x4ed8aa4a ∷ 0x5b9cca4f ∷ 0x682e6ff3
    ∷ 0x748f82ee ∷ 0x78a5636f ∷ 0x84c87814 ∷ 0x8cc70208 ∷ 0x90befffa ∷ 0xa4506ceb ∷ 0xbef9a3f7
    ∷ 0xc67178f2 ∷ []

pub rotr32 : ℕ → ℕ → ℕ
rotr32 x n = bit_or (x >>> n) (u32 (x <<< (32 - n)))

-- `load_be32(&b[p])`.
unfoldable pub load_be32 : List ℕ → ℕ → ℕ
load_be32 b p =
    bit_or (bit_or (bit_or (at b p <<< 24) (at b (p + 1) <<< 16)) (at b (p + 2) <<< 8))
      (at b (p + 3))

-- The four bytes that `store_be32` writes.
unfoldable pub store_be32 : ℕ → List ℕ
store_be32 x = u8 (x >>> 24) ∷ u8 (x >>> 16) ∷ u8 (x >>> 8) ∷ u8 x ∷ []

-- Four bytes of the block for each of the first words of `w`.
load_words : ℕ → ℕ → List ℕ → List ℕ
load_words zero i block = []
load_words (suc left) i block = load_be32 block (i * 4) ∷ load_words left (i + 1) block

-- `w[i]` for the next `i`, which is the number of words that are there.
next_word : List ℕ → ℕ
unfolding rotr32
next_word w =
    let i = length w in
    let x = at w (i - 15) in
    let y = at w (i - 2) in
    let s0 = bit_xor (bit_xor (rotr32 x 7) (rotr32 x 18)) (x >>> 3) in
    let s1 = bit_xor (bit_xor (rotr32 y 17) (rotr32 y 19)) (y >>> 10) in
    u32 (at w (i - 16) + s0 + at w (i - 7) + s1)

extend_words : ℕ → List ℕ → List ℕ
extend_words zero w = w
extend_words (suc left) w = extend_words left (w ++ (next_word w ∷ []))

pub record Working : Type 0 where
  pub a : ℕ
  pub b : ℕ
  pub c : ℕ
  pub d : ℕ
  pub e : ℕ
  pub f : ℕ
  pub g : ℕ
  pub h : ℕ

-- One round, with the round's constant and word.
round : ℕ → ℕ → Working → Working
unfolding rotr32
round k w v =
    let s1 = bit_xor (bit_xor (rotr32 v.e 6) (rotr32 v.e 11)) (rotr32 v.e 25) in
    let ch = bit_xor (bit_and v.e v.f) (bit_and (2 ^ 32 - 1 - v.e) v.g) in
    let temp1 = u32 (v.h + s1 + ch + k + w) in
    let s0 = bit_xor (bit_xor (rotr32 v.a 2) (rotr32 v.a 13)) (rotr32 v.a 22) in
    let maj = bit_xor (bit_xor (bit_and v.a v.b) (bit_and v.a v.c)) (bit_and v.b v.c) in
    let temp2 = u32 (s0 + maj) in
    record {
      a = u32 (temp1 + temp2);
      b = v.a;
      c = v.b;
      d = v.c;
      e = u32 (v.d + temp1);
      f = v.e;
      g = v.f;
      h = v.g;
    }

rounds : List ℕ → List ℕ → Working → Working
rounds (k ∷ ks) (w ∷ ws) v = rounds ks ws (round k w v)
rounds _ _ v = v

unfoldable pub sha256_compress : List ℕ → List ℕ → List ℕ
unfolding load_be32 load_words next_word extend_words round rounds
sha256_compress state block =
    let w = extend_words 48 (load_words 16 0 block) in
    let v = rounds k_sha256 w (record {
      a = at state 0;
      b = at state 1;
      c = at state 2;
      d = at state 3;
      e = at state 4;
      f = at state 5;
      g = at state 6;
      h = at state 7;
    }) in
    u32 (at state 0 + v.a)
    ∷ u32 (at state 1 + v.b)
    ∷ u32 (at state 2 + v.c)
    ∷ u32 (at state 3 + v.d)
    ∷ u32 (at state 4 + v.e)
    ∷ u32 (at state 5 + v.f)
    ∷ u32 (at state 6 + v.g)
    ∷ u32 (at state 7 + v.h)
    ∷ []

abbrev pub initial_words : List ℕ
initial_words =
    0x6a09e667 ∷ 0xbb67ae85 ∷ 0x3c6ef372 ∷ 0xa54ff53a ∷ 0x510e527f ∷ 0x9b05688c ∷ 0x1f83d9ab
    ∷ 0x5be0cd19 ∷ []

-- The buffer keeps what it holds.
unfoldable pub sha256_init : Sha256Ctx → Sha256Ctx
sha256_init ctx = record ctx { h = initial_words; bit_count = 0; buffer_len = 0 }

-- The end of a round of `sha256_update`: a full buffer is compressed.
unfoldable pub flush : Sha256Ctx → Sha256Ctx
flush ctx =
    if ctx.buffer_len == 64
    then record ctx { h = sha256_compress ctx.h ctx.buffer; buffer_len = 0 }
    else ctx

-- `take` of the loop: how many of `len` bytes go into the buffer.
unfoldable pub fitting : Sha256Ctx → ℕ → ℕ
fitting ctx len = let room = 64 - ctx.buffer_len in if ltb len room then len else room

-- One round of the loop: `n` bytes are copied.
unfoldable pub absorb : Sha256Ctx → ℕ → List ℕ → Sha256Ctx
absorb ctx n input = flush (record ctx {
  buffer = store_at ctx.buffer ctx.buffer_len (take n input);
  buffer_len = ctx.buffer_len + n;
})

-- The loop. `none` is a loop that has not ended after `fuel` rounds.
unfoldable pub update_loop : ℕ → Sha256Ctx → List ℕ → Option Sha256Ctx
update_loop fuel ctx [] = some ctx
update_loop zero ctx (x ∷ xs) = none
update_loop (suc fuel) ctx (x ∷ xs) =
    let n = fitting ctx (length (x ∷ xs)) in
    update_loop fuel (absorb ctx n (x ∷ xs)) (drop n (x ∷ xs))

unfoldable pub sha256_update : Sha256Ctx → List ℕ → Option Sha256Ctx
sha256_update ctx input =
    update_loop (length input)
      (record ctx { bit_count = u64 (ctx.bit_count + u64 (length input * 8)) }) input

-- `while (buffer_len < limit) buffer[buffer_len++] = 0`, with `limit - buffer_len` rounds left.
unfoldable pub zero_fill : ℕ → ℕ → List ℕ → List ℕ
zero_fill zero len buffer = buffer
zero_fill (suc left) len buffer = zero_fill left (len + 1) (store_at buffer len (0 ∷ []))

-- The bytes of `bit_count` that end the last block.
unfoldable pub count_bytes : ℕ → List ℕ
count_bytes bit_count =
    map (λ i. u8 (bit_count >>> (56 - i * 8))) (0 ∷ 1 ∷ 2 ∷ 3 ∷ 4 ∷ 5 ∷ 6 ∷ 7 ∷ [])

-- The block that is closed early where the count does not fit behind the marker byte.
unfoldable pub close_block : Sha256Ctx → Sha256Ctx
close_block ctx =
    if ltb 56 ctx.buffer_len
    then (let filled = zero_fill (64 - ctx.buffer_len) ctx.buffer_len ctx.buffer in
        record ctx { h = sha256_compress ctx.h filled; buffer = filled; buffer_len = 0 })
    else ctx

-- The last block: zeros up to the count, and the count.
unfoldable pub last_block : ℕ → Sha256Ctx → Sha256Ctx
last_block bit_count ctx =
    let filled = zero_fill (56 - ctx.buffer_len) ctx.buffer_len ctx.buffer in
    let block = store_at filled 56 (count_bytes bit_count) in
    record ctx { h = sha256_compress ctx.h block; buffer = block; buffer_len = 56 }

unfoldable pub digest_bytes : List ℕ → List ℕ
digest_bytes [] = []
digest_bytes (w ∷ ws) = store_be32 w ++ digest_bytes ws

-- The context is left with the last block in it; the digest is the second component.
unfoldable pub sha256_final : Sha256Ctx → Sha256Ctx × List ℕ
sha256_final ctx =
    let marked = record ctx {
      buffer = store_at ctx.buffer ctx.buffer_len (0x80 ∷ []);
      buffer_len = ctx.buffer_len + 1;
    } in
    let ended = last_block ctx.bit_count (close_block marked) in (ended, digest_bytes ended.h)

-- `bitcoin_header_midstate`, whose context starts with an unset buffer.
unfoldable pub bitcoin_header_midstate : Sha256Ctx → List ℕ → Option (List ℕ)
bitcoin_header_midstate unset header = do
  ctx ← sha256_update (sha256_init unset) (take 64 header)
  some ctx.h

unfoldable pub bitcoin_header_tail_words : List ℕ → List ℕ
bitcoin_header_tail_words header = map (λ i. load_be32 header (64 + i * 4)) (0 ∷ 1 ∷ 2 ∷ 3 ∷ [])
