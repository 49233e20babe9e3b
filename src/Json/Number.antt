-- ===== src/Json/Number.antt =====
-- `json_u32` reads the decimal numbers that fit 32 bits, and no other text.
use scu35_bitcoin_lottery_mi.Base.{
  ℕ, ◌+◌, ◌-◌, ◌*◌, ◌/◌, ◌^◌, ◌≤◌, ◌<◌, ◌≡◌, ◌↔◌, refl, sym, ap, ◌∙◌, Bool, true, false, ◌||◌,
  Option, none, some, List, [], ◌∷◌, arith, length, All, Bool-cases, inl, inr, ltb, ◌==◌,
  if◌then◌else◌, u32,
}
use scu35_bitcoin_lottery_mi.Json.{
  Search, found, json_number_type, number_loop, number_text, number_found, json_u32,
}

abbrev pub IsDigit : ℕ → Type 0
IsDigit c = (b'0' ≤ c) × (c ≤ b'9')

-- The number that decimal digits write, behind a number that is there.
unfoldable pub decimal : ℕ → List ℕ → ℕ
decimal r [] = r
decimal r (c ∷ cs) = decimal (r * 10 + (c - b'0')) cs

le-decimal : (r : ℕ) (cs : List ℕ) → r ≤ decimal r cs
unfolding decimal
le-decimal r [] = omega arith
le-decimal r (c ∷ cs) = omega (arith, le-decimal (r * 10 + (c - b'0')) cs)

abbrev refused : ℕ → ℕ → Bool
refused r c = ltb c b'0' || ltb b'9' c || ltb ((2 ^ 32 - 1 - (c - b'0')) / 10) r

loop_sound :
    (r v : ℕ) (cs : List ℕ)
    → r < 2 ^ 32
    → number_loop r cs ≡ some v
    → All IsDigit cs × (decimal r cs ≡ v) × (v < 2 ^ 32)
unfolding number_loop decimal
loop_sound r v [] h e = (tt, cc, ground arith)
loop_sound r v (c ∷ cs) h e = elim (Bool-cases (refused r c)) [
  | inl bad ↦ absurd (none_some (sym (taken bad) ∙ e))
  | inr good ↦
      let next : u32 (u32 (r * 10) + (c - b'0')) ≡ r * 10 + (c - b'0') = ground arith in
      let (ds, dv, fits) =
        loop_sound (r * 10 + (c - b'0')) v cs (ground arith)
          (ap (λ n. number_loop n cs) (sym next) ∙ sym (skipped good) ∙ e) in
      (((ground arith, ground arith), ds), dv, fits)
]
  where
    rest : Option ℕ
    rest = number_loop (u32 (u32 (r * 10) + (c - b'0'))) cs

    taken : refused r c ≡ true → (if refused r c then none else rest) ≡ none
    taken q = ap (λ (t : Bool). if t then none else rest) q

    skipped : refused r c ≡ false → (if refused r c then none else rest) ≡ rest
    skipped q = ap (λ (t : Bool). if t then none else rest) q

    none_some : {w : ℕ} → ◌≡◌ {A = Option ℕ} none (some w) → ⊥
    none_some q = cc

loop_complete :
    (r : ℕ) (cs : List ℕ)
    → All IsDigit cs
    → decimal r cs < 2 ^ 32
    → number_loop r cs ≡ some (decimal r cs)
unfolding number_loop decimal
loop_complete r [] ds h = refl
loop_complete r (c ∷ cs) ((lo, hi), ds) h =
    let n = r * 10 + (c - b'0') in
    let least = le-decimal n cs in
    let next : u32 (u32 (r * 10) + (c - b'0')) ≡ n = omega (arith, least, h, lo, hi) in
    let good : refused r c ≡ false = ground (arith, least, h, lo, hi) in
    ap (λ (t : Bool). if t then none else number_loop (u32 (u32 (r * 10) + (c - b'0'))) cs) good
    ∙ ap (λ k. number_loop k cs) next
    ∙ loop_complete n cs ds h

number_text_iff :
    (text : List ℕ) (v : ℕ)
    → (number_text text ≡ some v)
      ↔ ((1 ≤ length text) × All IsDigit text × (decimal 0 text ≡ v) × (v < 2 ^ 32))
unfolding number_text
number_text_iff [] v = (λ h. absurd (cc h), λ (h, _, _, _). absurd (omega (arith, h)))
number_text_iff (c ∷ cs) v = (
  λ h.
      let (ds, e, fits) = loop_sound 0 v (c ∷ cs) (omega arith) (drop_test ∙ h) in
      (omega arith, ds, e, fits),
  λ (_, ds, e, fits).
      sym drop_test ∙ loop_complete 0 (c ∷ cs) ds (omega (arith, e, fits)) ∙ ap some e,
)
  where
    drop_test :
        number_loop 0 (c ∷ cs) ≡ (if length (c ∷ cs) == 0 then none else number_loop 0 (c ∷ cs))
    drop_test =
        ap (λ (t : Bool). if t then none else number_loop 0 (c ∷ cs)) {x = false}
          {y = length (c ∷ cs) == 0} (ground arith)

-- Where the search finds a number, it is read from exactly the texts that are not empty, have only
-- digits, and write a number below 2 ^ 32, and what is read is that number.
pub json_u32_iff :
    (lookup : Search) (document query text : List ℕ) (v : ℕ)
    → lookup document query ≡ found text json_number_type
    → (json_u32 lookup document query ≡ some v)
      ↔ ((1 ≤ length text) × All IsDigit text × (decimal 0 text ≡ v) × (v < 2 ^ 32))
unfolding json_u32
json_u32_iff lookup document query text v h =
    let (sound, complete) = number_text_iff text v in
    (λ e. sound (sym reads ∙ e), λ k. reads ∙ complete k)
  where
    reads : json_u32 lookup document query ≡ number_text text
    reads = ap number_found h
