-- ===== src/Sha256/Blocks.antt =====
-- What a state and a buffer hold of a message: the state is that of its whole blocks, and the front
-- of the buffer is the rest of it.
use scu35_bitcoin_lottery_mi.Base.{
  ℕ, zero, suc, ◌+◌, ◌*◌, ◌≤◌, ◌≡◌, refl, sym, subst, ap, ap₂, ◌∙◌, List, [], ◌∷◌, ◌++◌, arith,
  length, take, drop, replicate, store_at, append_assoc, append-nil, length-append, length-drop,
  length-store_at, take_all, drop_all, drop-append, take-append, take-store_at,
}
use scu35_bitcoin_lottery_mi.Sha256.{sha256_compress, initial_words, zero_fill}

-- The state behind the first `n` blocks of a message.
unfoldable pub hash_blocks : ℕ → List ℕ → List ℕ
hash_blocks zero m = initial_words
hash_blocks (suc n) m = sha256_compress (hash_blocks n m) (take 64 (drop (64 * n) m))

pub hash_blocks-append :
    (n : ℕ) (m t : List ℕ) → 64 * n ≤ length m → hash_blocks n (m ++ t) ≡ hash_blocks n m
unfolding hash_blocks
hash_blocks-append zero m t h = refl
hash_blocks-append (suc n) m t h = ap₂ sha256_compress (hash_blocks-append n m t (omega arith)) (
    ap (take 64) (drop-append (64 * n) m t (omega arith))
    ∙ take-append 64 (drop (64 * n) m) t (omega (arith, length-drop (64 * n) m)))

pub record Holds (h buffer : List ℕ) (len : ℕ) (m : List ℕ) : Type 0 where
  pub blocks : ℕ
  pub size : length m ≡ 64 * blocks + len
  pub fits : len ≤ 64
  pub full : length buffer ≡ 64
  pub state : h ≡ hash_blocks blocks m
  pub rest : take len buffer ≡ drop (64 * blocks) m

pub Holds-append :
    (h buffer : List ℕ) (len : ℕ) (m t : List ℕ)
    → Holds h buffer len m
    → len + length t ≤ 64
    → Holds h (store_at buffer len t) (len + length t) (m ++ t)
Holds-append h buffer len m t k fit = record {
  blocks = k.blocks;
  size = omega (arith, k.size, length-append m t);
  fits = fit;
  full = length-store_at buffer len t (omega (arith, k.full)) ∙ k.full;
  state = k.state ∙ sym (hash_blocks-append k.blocks m t (omega (arith, k.size)));
  rest =
      take-store_at buffer len t (omega (arith, k.full, k.fits))
      ∙ ap (λ r. r ++ t) k.rest
      ∙ sym (drop-append (64 * k.blocks) m t (omega (arith, k.size)));
}

pub Holds-compress :
    (h buffer m : List ℕ) → Holds h buffer 64 m → Holds (sha256_compress h buffer) buffer 0 m
unfolding hash_blocks
Holds-compress h buffer m k = record {
  blocks = suc k.blocks;
  size = omega (arith, k.size);
  fits = omega arith;
  full = k.full;
  state = ap₂ sha256_compress k.state (
      sym (take_all 64 buffer (omega (arith, k.full)))
      ∙ k.rest
      ∙ sym (
          take_all 64 (drop (64 * k.blocks) m)
            (omega (arith, k.size, length-drop (64 * k.blocks) m))));
  rest = sym (drop_all (64 * suc k.blocks) m (omega (arith, k.size)));
}

pub Holds-zero_fill :
    (left len : ℕ) (h buffer m : List ℕ)
    → Holds h buffer len m
    → len + left ≤ 64
    → Holds h (zero_fill left len buffer) (len + left) (m ++ replicate left 0)
unfolding zero_fill
Holds-zero_fill zero len h buffer m k fit =
    subst (λ (t : List ℕ). Holds h buffer (len + 0) t) (sym (append-nil m))
      (subst (λ (n : ℕ). Holds h buffer n m) (omega arith) k)
Holds-zero_fill (suc left) len h buffer m k fit =
    subst
      (λ (t : List ℕ).
        Holds h (zero_fill left (len + 1) (store_at buffer len (0 ∷ []))) (len + suc left) t)
      (append_assoc m (0 ∷ []) (replicate left 0))
      (subst
        (λ (n : ℕ).
          Holds h (zero_fill left (len + 1) (store_at buffer len (0 ∷ []))) n
            ((m ++ (0 ∷ [])) ++ replicate left 0))
        (omega arith)
        (Holds-zero_fill left (len + 1) h (store_at buffer len (0 ∷ [])) (m ++ (0 ∷ []))
          (Holds-append h buffer len m (0 ∷ []) k (omega arith)) (omega arith)))
