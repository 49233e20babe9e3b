-- ===== src/Bitcoin/Hex.antt =====
-- Hex text is read back.
use scu35_bitcoin_lottery_mi.Base.{
  ℕ, zero, suc, ◌+◌, ◌*◌, ◌%◌, ◌/◌, ◌^◌, ◌≤◌, ◌<◌, ◌≡◌, refl, sym, ap, ap₂, ◌∙◌, List, [], ◌∷◌,
  ◌++◌, arith, Option, none, some, Bool, true, false, not, ◌||◌, all_below, all_below_at, ==_iff,
  ltb, length, drop, at, set, length-append, append_assoc, Bytes, bit_and_1, bit_and_15, bit_or,
  bit_or-add, u8, ◌<<<◌, ◌==◌, if◌then◌else◌,
}
use scu35_bitcoin_lottery_mi.Bitcoin.{
  digit_value, put_digit, hex_loop, hex_decode, hex_encode, hex_digits,
}

is_digit : ℕ → Bool
is_digit k = elim (digit_value (at hex_digits k)) [ none ↦ false | some v ↦ v == k ]

digits_table : all_below 16 is_digit ≡ true
unfolding all_below is_digit digit_value
digits_table = refl

digit_value_digit : (k : ℕ) → k < 16 → digit_value (at hex_digits k) ≡ some k
unfolding is_digit
digit_value_digit k h =
    by_value (digit_value (at hex_digits k)) refl (all_below_at 16 is_digit k digits_table h)
  where
    by_value :
        (o : Option ℕ)
        → digit_value (at hex_digits k) ≡ o
        → is_digit k ≡ true
        → digit_value (at hex_digits k) ≡ some k
    by_value none e t = absurd (cc)
    by_value (some v) e t = e ∙ ap some ((==_iff v k).0 (cc))

set-append :
    (front : List ℕ) (x v : ℕ) (back : List ℕ) (i : ℕ)
    → i ≡ length front
    → set (front ++ (x ∷ back)) i v ≡ front ++ (v ∷ back)
set-append [] x v back zero h = refl
set-append [] x v back (suc i) h = absurd (omega arith)
set-append (y ∷ front) x v back zero h = absurd (omega arith)
set-append (y ∷ front) x v back (suc i) h =
    ap (λ t. y ∷ t) (set-append front x v back i (omega arith))

at_front :
    (front : List ℕ) (x : ℕ) (back : List ℕ) (i : ℕ)
    → i ≡ length front
    → at (front ++ (x ∷ back)) i ≡ x
at_front [] x back zero h = refl
at_front [] x back (suc i) h = absurd (omega arith)
at_front (y ∷ front) x back zero h = absurd (omega arith)
at_front (y ∷ front) x back (suc i) h = at_front front x back i (omega arith)

put_high :
    (i v x : ℕ) (front back : List ℕ)
    → i ≡ 2 * length front
    → put_digit i v (front ++ (x ∷ back)) ≡ front ++ (u8 (v <<< 4) ∷ back)
unfolding put_digit
put_high i v x front back h =
    ap
      (λ t.
        if t == 0
        then set (front ++ (x ∷ back)) (i / 2) (u8 (v <<< 4))
        else set (front ++ (x ∷ back)) (i / 2) (bit_or (at (front ++ (x ∷ back)) (i / 2)) (u8 v)))
      {y = 0} (bit_and_1 i ∙ omega (arith, h))
    ∙ set-append front x (u8 (v <<< 4)) back (i / 2) (omega (arith, h))

put_low :
    (i v x : ℕ) (front back : List ℕ)
    → i ≡ 2 * length front + 1
    → put_digit i v (front ++ (x ∷ back)) ≡ front ++ (bit_or x (u8 v) ∷ back)
unfolding put_digit
put_low i v x front back h =
    ap
      (λ t.
        if t == 0
        then set (front ++ (x ∷ back)) (i / 2) (u8 (v <<< 4))
        else set (front ++ (x ∷ back)) (i / 2) (bit_or (at (front ++ (x ∷ back)) (i / 2)) (u8 v)))
      {y = 1} (bit_and_1 i ∙ omega (arith, h))
    ∙ set-append front x _ back (i / 2) (omega (arith, h))
    ∙ ap (λ y. front ++ (bit_or y (u8 v) ∷ back)) (at_front front x back (i / 2) (omega (arith, h)))

hex_loop_step :
    (left i v : ℕ) (s out : List ℕ)
    → digit_value (at s i) ≡ some v
    → hex_loop (suc left) i s out ≡ hex_loop left (i + 1) s (put_digit i v out)
unfolding hex_loop
hex_loop_step left i v s out h =
    ap
      (λ (o : Option ℕ). elim o as (λ _. Bool × List ℕ) [
        | none ↦ (false, out)
        | some w ↦ hex_loop left (i + 1) s (put_digit i w out)
      ])
      h

hex_loop_end : (i : ℕ) (s out : List ℕ) → hex_loop 0 i s out ≡ (true, out)
unfolding hex_loop
hex_loop_end i s out = refl

halves_join : (x : ℕ) → x < 256 → bit_or (u8 ((x / 16) <<< 4)) (u8 (x % 16)) ≡ x
halves_join x h = ap₂ bit_or high low ∙ bit_or-add 4 (x / 16) (x % 16) (omega arith) ∙ omega arith
  where
    high : u8 ((x / 16) <<< 4) ≡ x / 16 * 2 ^ 4
    high = omega arith

    low : u8 (x % 16) ≡ x % 16
    low = omega arith

hex_loop_encoded :
    (xs pre front rest : List ℕ)
    → Bytes xs
    → length pre ≡ 2 * length front
    → length xs ≤ length rest
    → hex_loop (2 * length xs) (2 * length front) (pre ++ hex_encode xs) (front ++ rest)
      ≡ (true, front ++ (xs ++ drop (length xs) rest))
unfolding hex_encode
hex_loop_encoded [] pre front rest hb hp hr =
    hex_loop_end (2 * length front) (pre ++ (0 ∷ [])) (front ++ rest)
hex_loop_encoded (x ∷ xs) pre front [] hb hp hr = absurd (omega arith)
hex_loop_encoded (x ∷ xs) pre front (r ∷ rest) (hx, hb) hp hr =
    let hi = at hex_digits (x / 16) in
    let lo = at hex_digits (x % 16) in
    let s = pre ++ (hi ∷ lo ∷ hex_encode xs) in
    let i = 2 * length front in
    let left = 2 * length xs in
    ap
      (λ d.
        hex_loop (2 * length (x ∷ xs)) i (pre ++ (hi ∷ at hex_digits d ∷ hex_encode xs))
          (front ++ (r ∷ rest)))
      (bit_and_15 x)
    ∙ ap (λ n. hex_loop n i s (front ++ (r ∷ rest))) {x = 2 * length (x ∷ xs)} {y = suc (suc left)}
        (omega arith)
    ∙ hex_loop_step (suc left) i (x / 16) s (front ++ (r ∷ rest)) (
        ap digit_value (at_front pre hi (lo ∷ hex_encode xs) i (sym hp))
        ∙ digit_value_digit (x / 16) (omega arith))
    ∙ ap (hex_loop (suc left) (i + 1) s) (put_high i (x / 16) r front rest refl)
    ∙ hex_loop_step left (i + 1) (x % 16) s (front ++ (u8 ((x / 16) <<< 4) ∷ rest)) (
        ap (λ t. digit_value (at t (i + 1))) (sym (append_assoc pre (hi ∷ []) (lo ∷ hex_encode xs)))
        ∙ ap digit_value (
            at_front (pre ++ (hi ∷ [])) lo (hex_encode xs) (i + 1)
              (omega (arith, length-append pre (hi ∷ []))))
        ∙ digit_value_digit (x % 16) (omega arith))
    ∙ ap (hex_loop left (i + 1 + 1) s) (
        put_low (i + 1) (x % 16) (u8 ((x / 16) <<< 4)) front rest refl
        ∙ ap (λ y. front ++ (y ∷ rest)) (halves_join x hx))
    ∙ ap₂ (λ n t. hex_loop left n t (front ++ (x ∷ rest))) {x = i + 1 + 1}
        {y = 2 * length (front ++ (x ∷ []))} (omega (arith, length-append front (x ∷ [])))
        (sym (append_assoc pre (hi ∷ lo ∷ []) (hex_encode xs)))
    ∙ ap (hex_loop left (2 * length (front ++ (x ∷ []))) ((pre ++ (hi ∷ lo ∷ [])) ++ hex_encode xs))
        (sym (append_assoc front (x ∷ []) rest))
    ∙ hex_loop_encoded xs (pre ++ (hi ∷ lo ∷ [])) (front ++ (x ∷ [])) rest hb
        (omega (arith, hp, length-append pre (hi ∷ lo ∷ []), length-append front (x ∷ [])))
        (omega arith)
    ∙ ap (λ t. (true, t)) (append_assoc front (x ∷ []) (xs ++ drop (length xs) rest))

-- Bytes that fit the array and the stated capacity are read back from their hex text, and the array
-- keeps what is behind them.
pub hex_decode-hex_encode :
    (xs out : List ℕ) (capacity : ℕ)
    → Bytes xs
    → length xs ≤ capacity
    → length xs ≤ length out
    → hex_decode (hex_encode xs) (2 * length xs) out capacity
      ≡ (some (length xs), xs ++ drop (length xs) out)
unfolding hex_decode
hex_decode-hex_encode xs out capacity hb hc ho =
    let n = 2 * length xs in
    ap (λ (test : Bool). if test then (none, out) else finish (hex_loop n 0 (hex_encode xs) out))
      {x = not (n % 2 == 0) || ltb capacity (n / 2)} {y = false} (ground arith)
    ∙ ap finish (hex_loop_encoded xs [] [] out hb refl ho)
    ∙ ap (λ k. (some k, xs ++ drop (length xs) out)) {x = n / 2} {y = length xs} (omega arith)
  where
    finish : Bool × List ℕ → Option ℕ × List ℕ
    finish (ended, out') = if ended then (some (2 * length xs / 2), out') else (none, out')
