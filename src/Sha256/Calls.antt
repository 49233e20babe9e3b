-- ===== src/Sha256/Calls.antt =====
-- Sequences of calls: a message in pieces, and a block header hashed from its midstate.
use scu35_bitcoin_lottery_mi.Base.{
  ℕ, ◌/◌, ◌≡◌, sym, ap, ap₂, ◌∙◌, List, [], ◌∷◌, ◌++◌, arith, Option, some, length, take, drop,
  replicate, append_assoc, append-nil, length-append, length-take, length-drop, take-append-drop,
  take_all, drop-append, ◌>>=◌, Bytes,
}
use scu35_bitcoin_lottery_mi.Sha256.{
  Sha256Ctx, sha256_compress, sha256_init, sha256_update, sha256_final, count_bytes, digest_bytes,
  bitcoin_header_midstate, bitcoin_header_tail_words,
}
use scu35_bitcoin_lottery_mi.Sha256.Words.{digest_bytes-tail_words}
use scu35_bitcoin_lottery_mi.Sha256.Blocks.{hash_blocks, hash_blocks-append}
use scu35_bitcoin_lottery_mi.Sha256.Stream.{
  Represents, sha256_update-Represents, sha256_init-Represents,
}
use scu35_bitcoin_lottery_mi.Sha256.Digest.{sha256, padded, zeros, sha256_final-sha256}

abbrev pub concat : List (List ℕ) → List ℕ
concat [] = []
concat (p ∷ ps) = p ++ concat ps

-- One update for each piece, and then the digest.
unfoldable pub updates : List (List ℕ) → Sha256Ctx → Option (List ℕ)
updates [] ctx = some (sha256_final ctx).1
updates (p ∷ ps) ctx = do ctx' ← sha256_update ctx p; updates ps ctx'

pub updates-sha256 :
    (pieces : List (List ℕ)) (ctx : Sha256Ctx) (m : List ℕ)
    → Represents ctx m
    → updates pieces ctx ≡ some (sha256 (m ++ concat pieces))
unfolding updates
updates-sha256 [] ctx m r = ap some (sha256_final-sha256 ctx m r ∙ ap sha256 (sym (append-nil m)))
updates-sha256 (p ∷ ps) ctx m r =
    let (ctx', runs, r') = sha256_update-Represents ctx m p r in
    ap (λ (o : Option Sha256Ctx). o >>= updates ps) runs
    ∙ updates-sha256 ps ctx' (m ++ p) r'
    ∙ ap (λ t. some (sha256 t)) (append_assoc m p (concat ps))

-- From an initialised context, whatever its buffer of 64 bytes held before, updates with any pieces
-- and a final call return, and give the digest of the pieces joined: the words behind the last
-- block of the padded message, as bytes.
pub updates-sha256_init :
    (pieces : List (List ℕ)) (unset : Sha256Ctx)
    → length unset.buffer ≡ 64
    → updates pieces (sha256_init unset) ≡ some (sha256 (concat pieces))
updates-sha256_init pieces unset h =
    updates-sha256 pieces (sha256_init unset) [] (sha256_init-Represents unset h)

-- The midstate is the state behind the first block of the header.
midstate_first :
    (unset : Sha256Ctx) (header : List ℕ)
    → length unset.buffer ≡ 64
    → length header ≡ 80
    → bitcoin_header_midstate unset header ≡ some (hash_blocks 1 (take 64 header))
unfolding bitcoin_header_midstate
midstate_first unset header h n =
    let (ctx, runs, r) =
      sha256_update-Represents (sha256_init unset) [] (take 64 header)
        (sha256_init-Represents unset h) in
    let long : length (take 64 header) ≡ 64 = omega (arith, length-take 64 header) in
    let held = r.held.holds in
    ap (λ (o : Option Sha256Ctx). o >>= λ c. some c.h) runs
    ∙ ap some (
        held.state
        ∙ ap (λ k. hash_blocks k (take 64 header)) (omega (arith, held.size, long, r.held.room)))

-- What stands behind the header in its second block.
abbrev pub header_padding : List ℕ
header_padding = (0x80 ∷ replicate 39 0) ++ count_bytes 640

padded_header : (header : List ℕ) → length header ≡ 80 → padded header ≡ header ++ header_padding
unfolding padded zeros
padded_header header n = rw n (
    ap (λ t. t ++ count_bytes 640) (append_assoc header (0x80 ∷ []) (replicate 39 0))
    ∙ append_assoc header (0x80 ∷ replicate 39 0) (count_bytes 640))

sha256_header :
    (header : List ℕ)
    → length header ≡ 80
    → sha256 header
      ≡ digest_bytes
          (sha256_compress (hash_blocks 1 (take 64 header)) (drop 64 header ++ header_padding))
unfolding sha256 hash_blocks count_bytes
sha256_header header n =
    ap (λ t. digest_bytes (hash_blocks (length t / 64) t)) (padded_header header n)
    ∙ ap (λ k. digest_bytes (hash_blocks k (header ++ header_padding))) {y = 2}
        (omega (arith, length-append header header_padding))
    ∙ ap digest_bytes (
        ap₂ sha256_compress
          (ap (hash_blocks 1) (sym whole)
            ∙ hash_blocks-append 1 (take 64 header) _ (omega (arith, long)))
          (take_all 64 (drop 64 (header ++ header_padding)) (
              omega (
                arith,
                length-drop 64 (header ++ header_padding),
                length-append header header_padding,
              ))
            ∙ drop-append 64 header header_padding (omega arith)))
  where
    long : length (take 64 header) ≡ 64
    long = omega (arith, length-take 64 header)

    whole : take 64 header ++ (drop 64 header ++ header_padding) ≡ header ++ header_padding
    whole =
        sym (append_assoc (take 64 header) (drop 64 header) header_padding)
        ∙ ap (λ t. t ++ header_padding) (take-append-drop 64 header)

-- For a header of 80 bytes, from a context whose buffer has 64 bytes, the midstate is computed, and
-- one more compression, of the tail words as bytes with the header's padding behind them, gives the
-- digest of the whole header.
pub midstate-sha256 :
    (unset : Sha256Ctx) (header : List ℕ)
    → length unset.buffer ≡ 64
    → length header ≡ 80
    → Bytes header
    → (midstate : List ℕ) × (bitcoin_header_midstate unset header ≡ some midstate)
      × (sha256 header
          ≡ digest_bytes (
              sha256_compress midstate
                (digest_bytes (bitcoin_header_tail_words header) ++ header_padding)))
midstate-sha256 unset header h n hb = (
  hash_blocks 1 (take 64 header),
  midstate_first unset header h n,
  sha256_header header n
      ∙ ap
          (λ t.
            digest_bytes (sha256_compress (hash_blocks 1 (take 64 header)) (t ++ header_padding)))
          (sym (digest_bytes-tail_words header n hb)),
)
