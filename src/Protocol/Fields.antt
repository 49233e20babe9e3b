-- ===== src/Protocol/Fields.antt =====
-- The texts and addresses that a request carries fit their fields.
use scu35_bitcoin_lottery_mi.Base.{
  ℕ, zero, suc, ◌+◌, ◌*◌, ◌<◌, ◌≡◌, refl, sym, subst, ap, ◌∙◌, Bool, true, not, Bool-cases, inl,
  inr, Option, none, some, List, [], ◌∷◌, ◌++◌, arith, length, length-append, length-store_at,
  store_at-Bytes, Bytes, Bytes-append, bind-some, leb, ◌==◌, if◌then◌else◌, at,
}
use scu35_bitcoin_lottery_mi.Bitcoin.{digit_value}
use scu35_bitcoin_lottery_mi.Json.{
  Found, found, not_found, search_failed, json_string_type, json_number_type, json_true_type,
  json_false_type, json_array_type, json_other_type, Search, plain, string_found, json_string,
}
use scu35_bitcoin_lottery_mi.Protocol.{mac_byte, mac_loop, parse_mac, text_in}

plain-Bytes : (v : List ℕ) → plain v ≡ true → Bytes v
unfolding plain
plain-Bytes [] h = tt
plain-Bytes (c ∷ cs) h = (ground arith, plain-Bytes cs (ground arith))

unfoldable pub Fits : ℕ → List ℕ → Type 0
Fits capacity v = (length v < capacity) × Bytes v

string_found-Fits :
    (capacity : ℕ) (r : Found) (v : List ℕ) → string_found capacity r ≡ some v → Fits capacity v
unfolding string_found Fits
string_found-Fits capacity not_found v h = absurd (cc h)
string_found-Fits capacity search_failed v h = absurd (cc h)
string_found-Fits capacity (found w json_number_type) v h = absurd (cc h)
string_found-Fits capacity (found w json_true_type) v h = absurd (cc h)
string_found-Fits capacity (found w json_false_type) v h = absurd (cc h)
string_found-Fits capacity (found w json_array_type) v h = absurd (cc h)
string_found-Fits capacity (found w json_other_type) v h = absurd (cc h)
string_found-Fits capacity (found w json_string_type) v h =
    elim (Bool-cases (leb capacity (length w))) [
      | inl long ↦ absurd (
          clash (
            sym (ap (λ (t : Bool). if t then none else (if plain w then some w else none)) long)
            ∙ h))
      | inr short ↦
          let h' : (if plain w then some w else none) ≡ some v =
            sym (ap (λ (t : Bool). if t then none else (if plain w then some w else none)) short)
            ∙ h in
          elim (Bool-cases (plain w)) [
            | inl ok ↦
                let same : w ≡ v =
                  some_injective (sym (ap (λ (t : Bool). if t then some w else none) ok) ∙ h') in
                subst (Fits capacity) same (ground arith, plain-Bytes w ok)
            | inr bad ↦
                absurd (clash (sym (ap (λ (t : Bool). if t then some w else none) bad) ∙ h'))
          ]
    ]
  where
    clash : {w : List ℕ} → ◌≡◌ {A = Option (List ℕ)} none (some w) → ⊥
    clash q = cc q

    some_injective : {a b : List ℕ} → ◌≡◌ {A = Option (List ℕ)} (some a) (some b) → a ≡ b
    some_injective q = cc q

pub json_string-Fits :
    (lookup : Search) (line key : List ℕ) (capacity : ℕ) (v : List ℕ)
    → json_string lookup line key capacity ≡ some v
    → Fits capacity v
unfolding json_string
json_string-Fits lookup line key capacity v h = string_found-Fits capacity (lookup line key) v h

mac_byte-lt : (s : List ℕ) (i v : ℕ) → mac_byte s i ≡ some v → v < 256
unfolding mac_byte
mac_byte-lt s i v h =
    let (high, _, h1) = bind-some (digit_value (at s (3 * i))) _ v h in
    let (low, _, h2) = bind-some (digit_value (at s (3 * i + 1))) _ v h1 in ground (arith, h2)

mac_loop-Fits :
    (left i : ℕ) (s mac : List ℕ) → mac_loop left i s ≡ some mac → (length mac ≡ left) × Bytes mac
unfolding mac_loop
mac_loop-Fits zero i s [] h = (refl, tt)
mac_loop-Fits zero i s (x ∷ xs) h = absurd (cc h)
mac_loop-Fits (suc left) i s mac h =
    let (value, hv, h1) = bind-some (mac_byte s i) _ mac h in
    let (rest, hr, h2) = bind-some (mac_loop left (i + 1) s) _ mac h1 in
    let (n, b) = mac_loop-Fits left (i + 1) s rest hr in
    let same : value ∷ rest ≡ mac = cc h2 in
    subst (λ (m : List ℕ). (length m ≡ suc left) × Bytes m) same
      (ap suc n, (mac_byte-lt s i value hv, b))

pub parse_mac-Fits : (s mac : List ℕ) → parse_mac s ≡ some mac → (length mac ≡ 6) × Bytes mac
unfolding parse_mac
parse_mac-Fits s mac h = elim (Bool-cases (length s == 17)) [
  | inl long ↦
      mac_loop-Fits 6 0 s mac
        (sym (ap (λ (t : Bool). if not t then none else mac_loop 6 0 s) long) ∙ h)
  | inr other ↦
      absurd (clash (sym (ap (λ (t : Bool). if not t then none else mac_loop 6 0 s) other) ∙ h))
]
  where
    clash : ◌≡◌ {A = Option (List ℕ)} none (some mac) → ⊥
    clash q = cc q

pub length-text_in :
    (array v : List ℕ) (n : ℕ) → length array ≡ n → Fits n v → length (text_in array v) ≡ n
unfolding Fits
length-text_in array v n h (short, _) =
    length-store_at array 0 (v ++ (0 ∷ [])) (omega (arith, h, short, length-append v (0 ∷ []))) ∙ h

pub text_in-Bytes : (array v : List ℕ) (n : ℕ) → Bytes array → Fits n v → Bytes (text_in array v)
unfolding Fits
text_in-Bytes array v n h (_, b) =
    store_at-Bytes array 0 (v ++ (0 ∷ [])) h (Bytes-append v (0 ∷ []) b (omega arith, tt))
