-- ===== src/Sha256/Digest.antt =====
-- The digest of `sha256_final` is that of the padded message.
use scu35_bitcoin_lottery_mi.Base.{
  ℕ, zero, suc, ◌+◌, ◌-◌, ◌*◌, ◌%◌, ◌/◌, ◌≤◌, ◌≡◌, refl, sym, subst, ap, ◌∙◌, List, [], ◌∷◌, ◌++◌,
  arith, Bool, inl, inr, Bool-cases, ltb, if◌then◌else◌, length, replicate, replicate-append,
  append_assoc, append-nil, length-append, u64, store_at,
}
use scu35_bitcoin_lottery_mi.Sha256.{
  Sha256Ctx, sha256_compress, zero_fill, count_bytes, close_block, last_block, digest_bytes,
  sha256_final, store_be32,
}
use scu35_bitcoin_lottery_mi.Sha256.Blocks.{
  Holds, Holds-append, Holds-compress, Holds-zero_fill, hash_blocks,
}
use scu35_bitcoin_lottery_mi.Sha256.Stream.{Represents}

-- How many zeros stand between the marker byte and the count.
unfoldable pub zeros : ℕ → ℕ
zeros n = (119 - n % 64) % 64

unfoldable pub padded : List ℕ → List ℕ
padded m =
    ((m ++ (0x80 ∷ [])) ++ replicate (zeros (length m)) 0) ++ count_bytes (u64 (length m * 8))

-- The digest of a message: the words behind the last block of the padded message, as bytes.
unfoldable pub sha256 : List ℕ → List ℕ
sha256 m = digest_bytes (hash_blocks (length (padded m) / 64) (padded m))

-- Behind the marker byte and the early end of a block, some zeros have been appended, and the rest
-- of the zeros fits the block that is open.
record Closed (ctx : Sha256Ctx) (m : List ℕ) : Type 0 where
  early : ℕ
  holds : Holds ctx.h ctx.buffer ctx.buffer_len ((m ++ (0x80 ∷ [])) ++ replicate early 0)
  open_len : ctx.buffer_len ≤ 56
  total : early + (56 - ctx.buffer_len) ≡ zeros (length m)

close_block-Closed :
    (ctx : Sha256Ctx) (m : List ℕ)
    → Holds ctx.h ctx.buffer ctx.buffer_len (m ++ (0x80 ∷ []))
    → 1 ≤ ctx.buffer_len
    → Closed (close_block ctx) m
unfolding close_block zeros
close_block-Closed ctx m k least = elim (Bool-cases (ltb 56 ctx.buffer_len)) [
  | inl above ↦
      let left = 64 - ctx.buffer_len in
      let filled = zero_fill left ctx.buffer_len ctx.buffer in
      let h : 57 ≤ ctx.buffer_len = ground arith in
      subst
        (λ (t : Bool).
          Closed
            (if t
              then record ctx { h = sha256_compress ctx.h filled; buffer = filled; buffer_len = 0 }
              else ctx)
            m)
        (sym above)
        (record {
          early = left;
          holds = Holds-compress ctx.h filled _ (
              subst (λ (n : ℕ). Holds ctx.h filled n ((m ++ (0x80 ∷ [])) ++ replicate left 0))
                (omega (arith, k.fits))
                (Holds-zero_fill left ctx.buffer_len ctx.h ctx.buffer (m ++ (0x80 ∷ [])) k
                  (omega (arith, k.fits))));
          open_len = omega arith;
          total = omega (arith, k.size, k.fits, h, length-append m (0x80 ∷ []));
        })
  | inr below ↦
      let left = 64 - ctx.buffer_len in
      let filled = zero_fill left ctx.buffer_len ctx.buffer in
      let h : ctx.buffer_len ≤ 56 = ground arith in
      subst
        (λ (t : Bool).
          Closed
            (if t
              then record ctx { h = sha256_compress ctx.h filled; buffer = filled; buffer_len = 0 }
              else ctx)
            m)
        (sym below)
        (record {
          early = 0;
          holds =
              subst (λ (t : List ℕ). Holds ctx.h ctx.buffer ctx.buffer_len t)
                (sym (append-nil (m ++ (0x80 ∷ [])))) k;
          open_len = h;
          total = omega (arith, k.size, h, least, length-append m (0x80 ∷ []));
        })
]

length-count_bytes : (n : ℕ) → length (count_bytes n) ≡ 8
unfolding count_bytes
length-count_bytes n = refl

last_block-Holds :
    (ctx : Sha256Ctx) (m : List ℕ)
    → Closed ctx m
    → let ended = last_block (u64 (length m * 8)) ctx in Holds ended.h ended.buffer 0 (padded m)
unfolding last_block padded
last_block-Holds ctx m c =
    let left = 56 - ctx.buffer_len in
    let filled = zero_fill left ctx.buffer_len ctx.buffer in
    let count = count_bytes (u64 (length m * 8)) in
    let behind = m ++ (0x80 ∷ []) in
    let zeroed : Holds ctx.h filled 56 ((behind ++ replicate c.early 0) ++ replicate left 0) =
      subst (λ (n : ℕ). Holds ctx.h filled n ((behind ++ replicate c.early 0) ++ replicate left 0))
        (omega (arith, c.open_len))
        (Holds-zero_fill left ctx.buffer_len ctx.h ctx.buffer (behind ++ replicate c.early 0)
          c.holds (omega (arith, c.open_len))) in
    let joined : (behind ++ replicate c.early 0) ++ replicate left 0
        ≡ behind ++ replicate (zeros (length m)) 0 =
      append_assoc behind (replicate c.early 0) (replicate left 0)
      ∙ ap (λ t. behind ++ t) (replicate-append c.early left 0 ∙ ap (λ n. replicate n 0) c.total) in
    let eight = length-count_bytes (u64 (length m * 8)) in
    let whole =
      Holds-append ctx.h filled 56 (behind ++ replicate (zeros (length m)) 0) count
        (subst (λ (t : List ℕ). Holds ctx.h filled 56 t) joined zeroed) (omega (arith, eight)) in
    Holds-compress ctx.h (store_at filled 56 count) _ (
      subst
        (λ (n : ℕ).
          Holds ctx.h (store_at filled 56 count) n
            ((behind ++ replicate (zeros (length m)) 0) ++ count))
        (omega (arith, eight)) whole)

pub close_block-bit_count : (ctx : Sha256Ctx) → (close_block ctx).bit_count ≡ ctx.bit_count
unfolding close_block
close_block-bit_count ctx = elim (Bool-cases (ltb 56 ctx.buffer_len)) [
  | inl h ↦ rw h refl
  | inr h ↦ rw h refl
]

-- The digest of a context that holds a message is the digest of that message.
pub sha256_final-sha256 :
    (ctx : Sha256Ctx) (m : List ℕ) → Represents ctx m → (sha256_final ctx).1 ≡ sha256 m
unfolding sha256_final sha256
sha256_final-sha256 ctx m r =
    let marked : Sha256Ctx = record ctx {
      buffer = store_at ctx.buffer ctx.buffer_len (0x80 ∷ []);
      buffer_len = ctx.buffer_len + 1;
    } in
    let k =
      Holds-append ctx.h ctx.buffer ctx.buffer_len m (0x80 ∷ []) r.held.holds
        (omega (arith, r.held.room)) in
    let e = last_block-Holds (close_block marked) m (close_block-Closed marked m k (omega arith)) in
    ap (λ n. digest_bytes ((last_block n (close_block marked)).h)) r.counted
    ∙ ap digest_bytes (e.state ∙ ap (λ n. hash_blocks n (padded m)) (omega (arith, e.size)))

pub sha256_final-buffer :
    (ctx : Sha256Ctx) (m : List ℕ) → Represents ctx m → length (sha256_final ctx).0.buffer ≡ 64
unfolding sha256_final
sha256_final-buffer ctx m r =
    let marked : Sha256Ctx = record ctx {
      buffer = store_at ctx.buffer ctx.buffer_len (0x80 ∷ []);
      buffer_len = ctx.buffer_len + 1;
    } in
    let k =
      Holds-append ctx.h ctx.buffer ctx.buffer_len m (0x80 ∷ []) r.held.holds
        (omega (arith, r.held.room)) in
    let e = last_block-Holds (close_block marked) m (close_block-Closed marked m k (omega arith)) in
    ap (λ n. length ((last_block n (close_block marked)).buffer)) r.counted ∙ e.full

length-hash_blocks : (n : ℕ) (m : List ℕ) → length (hash_blocks n m) ≡ 8
unfolding hash_blocks sha256_compress
length-hash_blocks zero m = refl
length-hash_blocks (suc n) m = refl

length-digest_bytes : (ws : List ℕ) → length (digest_bytes ws) ≡ 4 * length ws
unfolding digest_bytes store_be32
length-digest_bytes [] = refl
length-digest_bytes (w ∷ ws) = omega (arith, length-digest_bytes ws)

pub length-sha256 : (m : List ℕ) → length (sha256 m) ≡ 32
unfolding sha256
length-sha256 m = omega (
  arith,
  length-digest_bytes (hash_blocks (length (padded m) / 64) (padded m)),
  length-hash_blocks (length (padded m) / 64) (padded m),
)
