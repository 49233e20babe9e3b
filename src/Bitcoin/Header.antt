-- ===== src/Bitcoin/Header.antt =====
-- The layout of the header that `bitcoin_build_header` writes.
use scu35_bitcoin_lottery_mi.Base.{
  ℕ, zero, suc, ◌+◌, ◌-◌, ◌≤◌, ◌≡◌, refl, sym, ap, ◌∙◌, List, [], ◌∷◌, ◌++◌, arith, Option, some,
  length, at, take, drop, replicate, store_at, take_all, take-append-drop, length-take, length-drop,
  length-append, length-store_at, at_ext, at-append, at-store_at, drop-append_at, append-nil, All,
  ◌>>=◌,
}
use scu35_bitcoin_lottery_mi.Sha256.{Sha256Ctx}
use scu35_bitcoin_lottery_mi.Bitcoin.{
  reversed4, swapped_words, put_header, coinbase_hash, merkle, bitcoin_build_header,
}
use scu35_bitcoin_lottery_mi.Bitcoin.Hash.{root_of, length-merkle_root, roots_found}
use scu35_bitcoin_lottery_mi.Sha256.Digest.{sha256, length-sha256}

store_at_skip :
    (x y src : List ℕ) (offset : ℕ)
    → length x ≤ offset
    → offset + length src ≤ length x + length y
    → store_at (x ++ y) offset src ≡ x ++ store_at y (offset - length x) src
store_at_skip x y src offset h fit =
    let k = offset - length x in
    let n = length-append x y in
    let inner = length-store_at y k src (omega arith) in
    at_ext (store_at (x ++ y) offset src) (x ++ store_at y k src)
      (omega (
        arith,
        length-store_at (x ++ y) offset src (omega (arith, n)),
        n,
        inner,
        length-append x (store_at y k src),
      ))
      λ i b. ground (
        arith,
        at-store_at (x ++ y) offset src i (omega (arith, n)),
        at-append x y i,
        at-append x (store_at y k src) i,
        at-store_at y k src (i - length x) (omega arith),
      )

store_at_front : (b c src : List ℕ) → length b ≡ length src → store_at (b ++ c) 0 src ≡ src ++ c
unfolding store_at
store_at_front b c src h = ap (λ t. src ++ t) (drop-append_at b c (0 + length src) (omega arith))

-- Segments one behind the other.
abbrev glue : List (List ℕ) → List ℕ → List ℕ
glue [] c = c
glue (x ∷ xs) c = x ++ glue xs c

abbrev total : List (List ℕ) → ℕ
total [] = 0
total (x ∷ xs) = length x + total xs

length-glue : (xs : List (List ℕ)) (c : List ℕ) → length (glue xs c) ≡ total xs + length c
length-glue [] c = omega arith
length-glue (x ∷ xs) c = omega (arith, length-append x (glue xs c), length-glue xs c)

-- A segment is replaced by one of the same length.
replace_segment :
    (xs : List (List ℕ)) (b c src : List ℕ) (offset : ℕ)
    → offset ≡ total xs
    → length b ≡ length src
    → store_at (glue xs (b ++ c)) offset src ≡ glue xs (src ++ c)
replace_segment [] b c src offset h n =
    ap (λ o. store_at (b ++ c) o src) h ∙ store_at_front b c src n
replace_segment (x ∷ xs) b c src offset h n =
    store_at_skip x (glue xs (b ++ c)) src offset (omega arith)
      (omega (arith, length-glue xs (b ++ c), length-append b c))
    ∙ ap (λ t. x ++ t) (replace_segment xs b c src (offset - length x) (omega arith) n)

-- Four bytes from the last to the first, and the same for each word of an array from `i` on.
abbrev pub last_first : List ℕ → ℕ → List ℕ
last_first source i = at source (i + 3) ∷ at source (i + 2) ∷ at source (i + 1) ∷ at source i ∷ []

abbrev pub words_last_first : ℕ → ℕ → List ℕ → List ℕ
words_last_first zero i source = []
words_last_first (suc n) i source = last_first source i ++ words_last_first n (i + 4) source

reversed4-last_first : (source : List ℕ) → reversed4 source ≡ last_first source 0
unfolding reversed4
reversed4-last_first source = refl

swapped_words-last_first : (prev : List ℕ) → swapped_words 32 0 prev ≡ words_last_first 8 0 prev
unfolding swapped_words
swapped_words-last_first prev = refl

-- The header: version, previous hash, root, time, bits, nonce.
unfoldable pub header_of : List ℕ → List ℕ → List ℕ → List ℕ → List ℕ → List ℕ
header_of version prev root time bits =
    last_first version 0
    ++ (words_last_first 8 0 prev
        ++ (root ++ (last_first time 0 ++ (last_first bits 0 ++ replicate 4 0))))

length-swapped_words : (left i : ℕ) (prev : List ℕ) → length (swapped_words left i prev) ≡ left
unfolding swapped_words
length-swapped_words zero i prev = refl
length-swapped_words (suc left) i prev = ap suc (length-swapped_words left (i + 1) prev)

length-reversed4 : (source : List ℕ) → length (reversed4 source) ≡ 4
unfolding reversed4
length-reversed4 source = refl

put_header_segments :
    (version prev bits time root v p r t b n : List ℕ)
    → length v ≡ 4
    → length p ≡ 32
    → length r ≡ 32
    → length t ≡ 4
    → length b ≡ 4
    → length n ≡ 4
    → length root ≡ 32
    → put_header version prev bits time root (v ++ (p ++ (r ++ (t ++ (b ++ (n ++ []))))))
      ≡ reversed4 version
        ++ (swapped_words 32 0 prev
            ++ (root ++ (reversed4 time ++ (reversed4 bits ++ replicate 4 0))))
unfolding put_header
put_header_segments version prev bits time root v p r t b n hv hp hr ht hb hn hroot =
    let v' = reversed4 version in
    let p' = swapped_words 32 0 prev in
    let t' = reversed4 time in
    let b' = reversed4 bits in
    let lv = length-reversed4 version in
    let lp = length-swapped_words 32 0 prev in
    let lt = length-reversed4 time in
    let lb = length-reversed4 bits in
    let root' = take 32 root in
    let nonce : List ℕ = replicate 4 0 in
    let whole : root' ≡ root = take_all 32 root (omega (arith, hroot)) in
    let lr : length root' ≡ 32 = ap length whole ∙ hroot in
    let tail = t ++ (b ++ (n ++ [])) in
    let step1 = λ (h : List ℕ). store_at h 68 t' in
    let step2 = λ (h : List ℕ). store_at h 72 b' in
    let step3 = λ (h : List ℕ). store_at h 4 p' in
    let step4 = λ (h : List ℕ). store_at h 36 root' in
    let step5 = λ (h : List ℕ). store_at h 76 nonce in
    ap (λ h. step5 (step4 (step3 (step2 (step1 h)))))
      (replace_segment [] v (p ++ (r ++ tail)) v' 0 refl (omega (arith, hv, lv)))
    ∙ ap (λ h. step5 (step4 (step3 (step2 h))))
        (replace_segment (v' ∷ p ∷ r ∷ []) t (b ++ (n ++ [])) t' 68 (omega (arith, lv, hp, hr))
          (omega (arith, ht, lt)))
    ∙ ap (λ h. step5 (step4 (step3 h)))
        (replace_segment (v' ∷ p ∷ r ∷ t' ∷ []) b (n ++ []) b' 72 (omega (arith, lv, hp, hr, lt))
          (omega (arith, hb, lb)))
    ∙ ap (λ h. step5 (step4 h))
        (replace_segment (v' ∷ []) p (r ++ (t' ++ (b' ++ (n ++ [])))) p' 4 (omega (arith, lv))
          (omega (arith, hp, lp)))
    ∙ ap step5 (
        replace_segment (v' ∷ p' ∷ []) r (t' ++ (b' ++ (n ++ []))) root' 36 (omega (arith, lv, lp))
          (omega (arith, hr, lr)))
    ∙ replace_segment (v' ∷ p' ∷ root' ∷ t' ∷ b' ∷ []) n [] nonce 76
        (omega (arith, lv, lp, lr, lt, lb)) (omega (arith, hn))
    ∙ ap (λ q. v' ++ (p' ++ (q ++ (t' ++ (b' ++ nonce))))) whole

put_header-header_of :
    (version prev bits time root header : List ℕ)
    → length header ≡ 80
    → length root ≡ 32
    → put_header version prev bits time root header ≡ header_of version prev root time bits
unfolding header_of
put_header-header_of version prev bits time root header h hroot =
    let o1 = drop 4 header in
    let o2 = drop 32 o1 in
    let o3 = drop 32 o2 in
    let o4 = drop 4 o3 in
    let o5 = drop 4 o4 in
    let n1 = length-drop 4 header in
    let n2 = length-drop 32 o1 in
    let n3 = length-drop 32 o2 in
    let n4 = length-drop 4 o3 in
    let n5 = length-drop 4 o4 in
    let split : header
        ≡ take 4 header
          ++ (take 32 o1 ++ (take 32 o2 ++ (take 4 o3 ++ (take 4 o4 ++ (o5 ++ []))))) =
      sym (take-append-drop 4 header)
      ∙ ap (λ x. take 4 header ++ x)
          (sym (take-append-drop 32 o1)
            ∙ ap (λ x. take 32 o1 ++ x)
                (sym (take-append-drop 32 o2)
                  ∙ ap (λ x. take 32 o2 ++ x)
                      (sym (take-append-drop 4 o3)
                        ∙ ap (λ x. take 4 o3 ++ x)
                            (sym (take-append-drop 4 o4)
                              ∙ ap (λ x. take 4 o4 ++ x) (sym (append-nil o5)))))) in
    ap (put_header version prev bits time root) split
    ∙ put_header_segments version prev bits time root (take 4 header) (take 32 o1) (take 32 o2)
        (take 4 o3) (take 4 o4) o5 (omega (arith, length-take 4 header))
        (omega (arith, n1, length-take 32 o1)) (omega (arith, n1, n2, length-take 32 o2))
        (omega (arith, n1, n2, n3, length-take 4 o3))
        (omega (arith, n1, n2, n3, n4, length-take 4 o4)) (omega (arith, n1, n2, n3, n4, n5)) hroot
    ∙ rw
        (
          reversed4-last_first version,
          swapped_words-last_first prev,
          reversed4-last_first time,
          reversed4-last_first bits,
        )
        refl

-- With branches of 32 bytes, an 80-byte header array and a hash buffer of 64 bytes, the header that
-- is built has the six fields in their order: the four bytes of the version, the last one first;
-- the previous hash, in which the bytes of each word of four stand the last one first; the Merkle
-- root of the coinbase in its four parts and of the branches; the four bytes of the time and those
-- of the bits, the last one first; and a nonce of 0.
pub bitcoin_build_header-header_of :
    (unset : Sha256Ctx) (version prev bits time coin1 extra1 extra2 coin2 : List ℕ)
    (branches : List (List ℕ)) (header : List ℕ)
    → length unset.buffer ≡ 64
    → length header ≡ 80
    → All (λ branch. length branch ≡ 32) branches
    → bitcoin_build_header unset version prev bits time coin1 extra1 extra2 coin2 branches header
      ≡ some (header_of version prev (root_of coin1 extra1 extra2 coin2 branches) time bits)
unfolding bitcoin_build_header
bitcoin_build_header-header_of unset version prev bits time coin1 extra1 extra2 coin2 branches
      header h n all =
    sym (bind_assoc (coinbase_hash unset coin1 extra1 extra2 coin2))
    ∙ ap
        (λ (o : Option (List ℕ)).
          o >>= λ root. some (put_header version prev bits time root header))
        (roots_found unset coin1 extra1 extra2 coin2 branches h all)
    ∙ ap some (
        put_header-header_of version prev bits time _ header n (
          length-merkle_root _ branches
            (length-sha256 (sha256 (((coin1 ++ extra1) ++ extra2) ++ coin2)))))
  where
    bind_assoc :
        (o : Option (List ℕ))
        → ((o >>= merkle unset branches) >>= λ root.
            some (put_header version prev bits time root header))
          ≡ (o >>= λ root. merkle unset branches root >>= λ root'.
              some (put_header version prev bits time root' header))
    bind_assoc Option.none = refl
    bind_assoc (some a) = refl
