-- ===== src/Sha256/Words.antt =====
-- Big-endian words and their bytes.
use scu35_bitcoin_lottery_mi.Base.{
  ℕ, ◌+◌, ◌*◌, ◌^◌, ◌<◌, ◌≡◌, refl, sym, ap, ap₂, ◌∙◌, List, [], ◌∷◌, arith, length, drop, at,
  at-Bytes, at-drop, at_ext, window, length-window, at-window, length-drop, Bytes, bit_or,
  bit_or-add, ◌<<<◌,
}
use scu35_bitcoin_lottery_mi.Sha256.{load_be32, store_be32, digest_bytes, bitcoin_header_tail_words}

join_bytes :
    (a b c d : ℕ)
    → b < 256
    → c < 256
    → d < 256
    → bit_or (bit_or (bit_or (a <<< 24) (b <<< 16)) (c <<< 8)) d
      ≡ a * 2 ^ 24 + b * 2 ^ 16 + c * 2 ^ 8 + d
join_bytes a b c d hb hc hd =
    ap (λ t. bit_or (bit_or t (c <<< 8)) d) {y = (a * 2 ^ 8 + b) * 2 ^ 16}
      (bit_or-add 24 a (b * 2 ^ 16) (omega arith) ∙ omega arith)
    ∙ ap (λ t. bit_or t d) {y = ((a * 2 ^ 8 + b) * 2 ^ 8 + c) * 2 ^ 8}
        (bit_or-add 16 (a * 2 ^ 8 + b) (c * 2 ^ 8) (omega arith) ∙ omega arith)
    ∙ bit_or-add 8 ((a * 2 ^ 8 + b) * 2 ^ 8 + c) d (omega arith)
    ∙ omega arith

word_bytes :
    (a b c d : ℕ)
    → a < 256
    → b < 256
    → c < 256
    → d < 256
    → store_be32 (a * 2 ^ 24 + b * 2 ^ 16 + c * 2 ^ 8 + d) ≡ a ∷ b ∷ c ∷ d ∷ []
unfolding store_be32
word_bytes a b c d ha hb hc hd =
    ap₂ ◌∷◌ (omega arith)
      (ap₂ ◌∷◌ (omega arith) (ap₂ ◌∷◌ (omega arith) (ap₂ ◌∷◌ (omega arith) refl)))

-- The bytes of a word that was loaded are those it was loaded from.
store_be32-load_be32 :
    (b : List ℕ) (p : ℕ)
    → Bytes b
    → store_be32 (load_be32 b p) ≡ at b p ∷ at b (p + 1) ∷ at b (p + 2) ∷ at b (p + 3) ∷ []
unfolding load_be32
store_be32-load_be32 b p h =
    let h1 = at-Bytes b (p + 1) h in
    let h2 = at-Bytes b (p + 2) h in
    let h3 = at-Bytes b (p + 3) h in
    ap store_be32 (join_bytes (at b p) (at b (p + 1)) (at b (p + 2)) (at b (p + 3)) h1 h2 h3)
    ∙ word_bytes (at b p) (at b (p + 1)) (at b (p + 2)) (at b (p + 3)) (at-Bytes b p h) h1 h2 h3

pub drop_as_window : (xs : List ℕ) (p n : ℕ) → length xs ≡ p + n → drop p xs ≡ window (at xs) p n
drop_as_window xs p n h =
    at_ext (drop p xs) (window (at xs) p n)
      (omega (arith, length-drop p xs, length-window (at xs) p n))
      λ j k.
        at-drop p xs j ∙ sym (at-window (at xs) p n j (omega (arith, length-window (at xs) p n)))

pub digest_bytes-tail_words :
    (header : List ℕ)
    → length header ≡ 80
    → Bytes header
    → digest_bytes (bitcoin_header_tail_words header) ≡ drop 64 header
unfolding digest_bytes bitcoin_header_tail_words
digest_bytes-tail_words header h hb =
    rw
      (
        drop_as_window header 64 16 h,
        store_be32-load_be32 header 64 hb,
        store_be32-load_be32 header 68 hb,
        store_be32-load_be32 header 72 hb,
        store_be32-load_be32 header 76 hb,
      )
      refl
