-- ===== src/Stratum/Places.antt =====
-- Where a result puts its nonce and its share, said apart from the loops of `service_results`.
use scu35_bitcoin_lottery_mi.Base.{
  ℕ, zero, suc, ◌+◌, ◌/◌, ◌%◌, ◌^◌, false, List, [], ◌∷◌, ◌++◌, ◌≡◌, ◌≢◌, refl, sym, ap, ◌∙◌, inl,
  inr, ◌==◌, length, set, take, drop, take-append-drop, length-take, length-drop, Option, none,
  some, All, Bool-cases, ◌>>=◌, if◌then◌else◌, ==_iff, arith,
}
use scu35_bitcoin_lottery_mi.Stratum.{Share}
use scu35_bitcoin_lottery_mi.Stratum.Shares.{put_nonce, free_slot, put_share}
use scu35_bitcoin_lottery_mi.Stratum.Waiting.{slot_cases}

-- A nonce of 32 bits, highest byte first, in place of the last four bytes of a header.
abbrev pub nonce_bytes : ℕ → List ℕ
nonce_bytes nonce =
    nonce / 2 ^ 24 % 256 ∷ nonce / 2 ^ 16 % 256 ∷ nonce / 2 ^ 8 % 256 ∷ nonce % 256 ∷ []

abbrev pub with_nonce : ℕ → List ℕ → List ℕ
with_nonce nonce header = take 76 header ++ nonce_bytes nonce

set_behind : (xs ys : List ℕ) (i v : ℕ) → set (xs ++ ys) (length xs + i) v ≡ xs ++ set ys i v
set_behind [] ys i v = ap (λ (n : ℕ). set ys n v) (omega arith)
set_behind (x ∷ xs) ys i v =
    ap (λ (n : ℕ). set (x ∷ (xs ++ ys)) n v) {x = suc (length xs) + i} {y = suc (length xs + i)}
      (omega arith)
    ∙ ap (λ (t : List ℕ). x ∷ t) (set_behind xs ys i v)

set_at : (xs ys : List ℕ) (i v n : ℕ) → length xs + i ≡ n → set (xs ++ ys) n v ≡ xs ++ set ys i v
set_at xs ys i v n e = ap (λ (k : ℕ). set (xs ++ ys) k v) (sym e) ∙ set_behind xs ys i v

put_nonce_behind :
    (nonce : ℕ) (xs ys : List ℕ)
    → length xs ≡ 76
    → length ys ≡ 4
    → put_nonce nonce (xs ++ ys) ≡ xs ++ nonce_bytes nonce
unfolding put_nonce
put_nonce_behind nonce xs (a ∷ b ∷ c ∷ d ∷ []) h k =
    let v0 = nonce / 2 ^ 24 % 256 in
    let v1 = nonce / 2 ^ 16 % 256 in
    let v2 = nonce / 2 ^ 8 % 256 in
    let v3 = nonce / 2 ^ 0 % 256 in
    let last : v3 ≡ nonce % 256 = omega arith in
    ap (λ (t : List ℕ). set (set (set t 77 v1) 78 v2) 79 v3)
      (set_at xs (a ∷ b ∷ c ∷ d ∷ []) 0 v0 76 (omega (arith, h)))
    ∙ ap (λ (t : List ℕ). set (set t 78 v2) 79 v3)
        (set_at xs (v0 ∷ b ∷ c ∷ d ∷ []) 1 v1 77 (omega (arith, h)))
    ∙ ap (λ (t : List ℕ). set t 79 v3) (set_at xs (v0 ∷ v1 ∷ c ∷ d ∷ []) 2 v2 78 (omega (arith, h)))
    ∙ set_at xs (v0 ∷ v1 ∷ v2 ∷ d ∷ []) 3 v3 79 (omega (arith, h))
    ∙ ap (λ (v : ℕ). xs ++ (v0 ∷ v1 ∷ v2 ∷ v ∷ [])) last
put_nonce_behind nonce xs [] h k = absurd (omega arith)
put_nonce_behind nonce xs (a ∷ []) h k = absurd (omega arith)
put_nonce_behind nonce xs (a ∷ b ∷ []) h k = absurd (omega arith)
put_nonce_behind nonce xs (a ∷ b ∷ c ∷ []) h k = absurd (omega arith)
put_nonce_behind nonce xs (a ∷ b ∷ c ∷ d ∷ e ∷ ys) h k = absurd (omega arith)

pub put_nonce-with_nonce :
    (nonce : ℕ) (header : List ℕ)
    → length header ≡ 80
    → put_nonce nonce header ≡ with_nonce nonce header
put_nonce-with_nonce nonce header h =
    ap (put_nonce nonce) (sym (take-append-drop 76 header))
    ∙ put_nonce_behind nonce (take 76 header) (drop 76 header)
        (omega (arith, h, length-take 76 header)) (omega (arith, h, length-drop 76 header))

-- An entry is free by its id of 0. The first that is, and that none is.
abbrev pub FirstFree : ℕ → List Share → Type 0
FirstFree i [] = ⊥
FirstFree zero (x ∷ xs) = x.id ≡ 0
FirstFree (suc i) (x ∷ xs) = (x.id ≢ 0) × FirstFree i xs

abbrev pub AllUsed : List Share → Type 0
AllUsed = All (λ x. x.id ≢ 0)

used : (n : ℕ) → (n == 0) ≡ false → n ≢ 0
used n h = ground arith

pub free_slot-FirstFree :
    (shares : List Share) (slot : ℕ) → free_slot shares ≡ some slot → FirstFree slot shares
unfolding free_slot
free_slot-FirstFree [] slot e = absurd (cc e)
free_slot-FirstFree (x ∷ xs) slot e = elim (slot_cases (x.id == 0) (free_slot xs) slot e) [
  | inl (free, z) ↦ rw z ((==_iff x.id 0).0 free)
  | inr (j, busy, later, z) ↦ rw z (used x.id busy, free_slot-FirstFree xs j later)
]

no_slot : (o : Option ℕ) → (o >>= λ i. some (i + 1)) ≡ none → o ≡ none
no_slot none h = refl
no_slot (some i) h = absurd (cc h)

pub free_slot-AllUsed : (shares : List Share) → free_slot shares ≡ none → AllUsed shares
unfolding free_slot
free_slot-AllUsed [] e = tt
free_slot-AllUsed (x ∷ xs) e = elim (Bool-cases (x.id == 0)) [
  | inl free ↦
      let clash : some 0 ≡ none =
        sym (ap (λ b. if b then some 0 else (free_slot xs >>= λ i. some (i + 1))) free) ∙ e in
      absurd (cc clash)
  | inr busy ↦ (
    used x.id busy,
    free_slot-AllUsed xs (
        no_slot (free_slot xs)
          (sym (ap (λ b. if b then some 0 else (free_slot xs >>= λ i. some (i + 1))) busy) ∙ e)),
  )
]

pub put_share-set :
    (i : ℕ) (share : Share) (xs : List Share) → put_share i share xs ≡ set xs i share
unfolding put_share
put_share-set i share [] = refl
put_share-set zero share (x ∷ xs) = refl
put_share-set (suc i) share (x ∷ xs) = ap (λ (t : List Share). x ∷ t) (put_share-set i share xs)
