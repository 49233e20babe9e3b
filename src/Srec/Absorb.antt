-- ===== src/Srec/Absorb.antt =====
-- The loop of `srec_parse` over the decoded bytes: what it has stored when it ends.
use scu35_bitcoin_lottery_mi.Base.{
  ℕ, zero, suc, ◌+◌, ◌*◌, ◌%◌, ◌^◌, ◌≤◌, ◌<◌, ◌≡◌, refl, sym, subst, ◌∙◌, List, [], ◌∷◌, Option,
  none, some, arith, length, All, ap, u32, ◌<<<◌, bit_or, bit_or-add, drop, get_elem?,
  get_elem?-drop, drop-suc, ◌==◌, if◌then◌else◌, inl, inr, Option-cases,
}
use scu35_bitcoin_lottery_mi.Srec.{
  SrecRecord, Parsed, accepted, rejected, Round, next, stop, continue, after_byte, after_store,
  store, byte, byte_at, scan,
}
use native.Mathlib.Nat.{pow-suc, one-le-pow}
use native.Mathlib.Numerals.{add-one}
use scu35_bitcoin_lottery_mi.Srec.Loop.{scan_step}
use scu35_bitcoin_lottery_mi.Srec.Format.{
  hex_pairs, hex_pairs-cons, hex_pairs_join, big_endian, sum, IsByte,
}

module _ (naddr count : ℕ) where
  unfoldable pub absorb : List ℕ → ℕ → ℕ → SrecRecord → Parsed
  absorb [] i total r = if total % 256 == 255 then accepted r else rejected r
  absorb (v ∷ vs) i total r =
      continue (λ total' r'. absorb vs (i + 1) total' r')
        (after_byte naddr count i total r (some (some v)))

pub continue_ext :
    (j k : ℕ → SrecRecord → Parsed) (o : Round)
    → ((total : ℕ) (r : SrecRecord) → j total r ≡ k total r)
    → continue j o ≡ continue k o
unfolding continue
continue_ext j k (next total r) h = h total r
continue_ext j k (stop result) h = refl

byte_at-drop :
    (line : List ℕ) (at a b : ℕ) (digits : List ℕ)
    → drop at line ≡ a ∷ b ∷ digits
    → byte_at line at ≡ some (byte a b)
unfolding byte_at
byte_at-drop line at a b digits h =
    let second : get_elem? line (at + 1) ≡ some b =
      rw add-one (get_elem?-drop (suc at) line b digits (drop-suc at line a (b ∷ digits) h)) in
    rw (get_elem?-drop at line a (b ∷ digits) h, second) refl

drop_two :
    (line : List ℕ) (i a b : ℕ) (digits : List ℕ)
    → drop (4 + 2 * i) line ≡ a ∷ b ∷ digits
    → drop (4 + 2 * (i + 1)) line ≡ digits
drop_two line i a b digits h =
    let at : suc (suc (4 + 2 * i)) ≡ 4 + 2 * (i + 1) = omega arith in
    subst (λ n. drop n line ≡ digits) at
      (drop-suc (suc (4 + 2 * i)) line b digits (drop-suc (4 + 2 * i) line a (b ∷ digits) h))

-- With the digits from `4 + 2 * i` on decoded, the loop absorbs their bytes.
pub scan-absorb :
    (line : List ℕ) (naddr count left i total : ℕ) (r : SrecRecord) (digits vs : List ℕ)
    → drop (4 + 2 * i) line ≡ digits
    → hex_pairs digits ≡ some vs
    → length vs ≡ left
    → scan line naddr count left i total r ≡ absorb naddr count vs i total r
unfolding absorb
scan-absorb line naddr count zero i total r digits [] hd hv hl = unfold scan in refl
scan-absorb line naddr count zero i total r digits (v ∷ vs) hd hv hl = absurd (omega arith)
scan-absorb line naddr count (suc left) i total r digits [] hd hv hl = absurd (omega arith)
scan-absorb line naddr count (suc left) i total r [] (v ∷ vs) hd hv hl = absurd (ground arith)
scan-absorb line naddr count (suc left) i total r (a ∷ []) (v ∷ vs) hd hv hl = absurd (ground arith)
scan-absorb line naddr count (suc left) i total r (a ∷ b ∷ digits) (v ∷ vs) hd hv hl =
    let (hb, hvs) = hex_pairs-cons a b v digits vs hv in
    let read : byte_at line (4 + 2 * i) ≡ some (some v) =
      byte_at-drop line (4 + 2 * i) a b digits hd ∙ ap some hb in
    scan_step line naddr count left i total r read
    ∙ continue_ext _ _ (after_byte naddr count i total r (some (some v))) λ total' r'.
      scan-absorb line naddr count left (i + 1) total' r' digits vs (drop_two line i a b digits hd)
        hvs (omega arith)

-- A round behind which the parse accepts had a value to store.
continue_accepts :
    (k : ℕ → SrecRecord → Parsed) (naddr count i total : ℕ) (r r' : SrecRecord) (o : Option ℕ)
    → continue k (after_byte naddr count i total r (some o)) ≡ accepted r'
    → (v : ℕ) × (t : ℕ) × (s : SrecRecord) × (o ≡ some v) × (k t s ≡ accepted r')
unfolding after_byte continue
continue_accepts k naddr count i total r r' none h = absurd (ground arith)
continue_accepts k naddr count i total r r' (some v) h =
    elim (Option-cases (store naddr count i v r)) [
      | inl e ↦ absurd (cc (rw (e, after_store) at h))
      | inr (s, e) ↦ (v, u32 (total + v), s, refl, rw (e, after_store, continue) at h)
    ]

-- A line that the loop accepts is decoded to its end.
pub scan_decodes :
    (line : List ℕ) (naddr count left i total : ℕ) (r r' : SrecRecord) (digits : List ℕ)
    → drop (4 + 2 * i) line ≡ digits
    → length digits ≡ 2 * left
    → scan line naddr count left i total r ≡ accepted r'
    → (vs : List ℕ) × (hex_pairs digits ≡ some vs) × (length vs ≡ left)
scan_decodes line naddr count zero i total r r' [] hd hl h = ([], refl, refl)
scan_decodes line naddr count zero i total r r' (a ∷ digits) hd hl h = absurd (omega arith)
scan_decodes line naddr count (suc left) i total r r' [] hd hl h = absurd (omega arith)
scan_decodes line naddr count (suc left) i total r r' (a ∷ []) hd hl h = absurd (omega arith)
scan_decodes line naddr count (suc left) i total r r' (a ∷ b ∷ digits) hd hl h =
    let read : byte_at line (4 + 2 * i) ≡ some (byte a b) =
      byte_at-drop line (4 + 2 * i) a b digits hd in
    let (v, total', s, hv, hs) =
      continue_accepts _ naddr count i total r r' (byte a b)
        (sym (scan_step line naddr count left i total r read) ∙ h) in
    let (vs, hvs, hn) =
      scan_decodes line naddr count left (i + 1) total' s r' digits (drop_two line i a b digits hd)
        (omega arith) hs in
    (v ∷ vs, hex_pairs_join a b v digits vs hv hvs, omega arith)

-- What the bytes leave of the sum, modulo 256.
unfoldable pub total_from : ℕ → List ℕ → ℕ
total_from total [] = total
total_from total (v ∷ vs) = total_from (u32 (total + v)) vs

pub total_from-sum : (vs : List ℕ) (total : ℕ) → total_from total vs % 256 ≡ (total + sum vs) % 256
unfolding total_from
total_from-sum [] total = omega arith
total_from-sum (v ∷ vs) total = omega (arith, total_from-sum vs (u32 (total + v)))

-- The address bytes fit 32 bits, so `<<` and `|` spell their number.
unfoldable pub address_from : ℕ → List ℕ → ℕ
address_from a [] = a
address_from a (v ∷ vs) = address_from (u32 (bit_or (u32 (a <<< 8)) v)) vs

shift_in : (a v : ℕ) → a < 2 ^ 24 → v ≤ 255 → u32 (bit_or (u32 (a <<< 8)) v) ≡ a * 256 + v
shift_in a v ha hv =
    let whole : u32 (a <<< 8) ≡ a * 2 ^ 8 = omega arith in
    rw (whole, bit_or-add 8 a v (omega arith)) (omega arith)

room : (a v p : ℕ) → 1 ≤ p → (a + 1) * (p * 256) ≤ 2 ^ 32 → a < 2 ^ 24
room a v p hp h = grind arith

room_after : (a v p : ℕ) → v ≤ 255 → (a + 1) * (p * 256) ≤ 2 ^ 32 → (a * 256 + v + 1) * p ≤ 2 ^ 32
room_after a v p hv h = grind arith

pub address_from-big_endian :
    (vs : List ℕ) (a : ℕ)
    → (a + 1) * 256 ^ length vs ≤ 2 ^ 32
    → All IsByte vs
    → address_from a vs ≡ big_endian a vs
unfolding address_from
address_from-big_endian [] a h hv = refl
address_from-big_endian (v ∷ vs) a h (hv, hvs) =
    let p = 256 ^ length vs in
    let h' : (a + 1) * (p * 256) ≤ 2 ^ 32 = rw (pow-suc 256 (length vs)) at h in
    rw (shift_in a v (room a v p (one-le-pow _ _ (omega arith)) h') hv)
      (address_from-big_endian vs (a * 256 + v) (room_after a v p hv h') hvs)
