-- ===== src/Srec/Integrity.antt =====
-- Printed records are read back, and a changed digit is noticed.
use scu35_bitcoin_lottery_mi.Base.{
  ℕ, ◌+◌, ◌*◌, ◌%◌, ◌≤◌, ◌≡◌, ◌≢◌, refl, sym, ◌∙◌, List, [], ◌∷◌, ◌++◌, some, inl, inr,
  Option-cases, arith, length, All, ap,
}
use scu35_bitcoin_lottery_mi.Srec.{SrecRecord, accepted, byte, hex, srec_parse}
use scu35_bitcoin_lottery_mi.Srec.Accepts.{srec_parse_complete, srec_parse_sound, stored}
use scu35_bitcoin_lottery_mi.Srec.Format.{
  address_length, Describes, hex_pairs, hex_pairs-cons, Spells-hex_pairs, IsByte, sum, big_endian,
  print_record, print_record-Describes,
}

sum-append : (xs ys : List ℕ) → sum (xs ++ ys) ≡ sum xs + sum ys
sum-append [] ys = omega arith
sum-append (x ∷ xs) ys = omega (arith, sum-append xs ys)

-- A printed record, whose address has as many bytes as the format gives its type, with at most 254
-- address and payload bytes, and without a payload for the types from 5 on, is accepted, and what
-- is stored is its kind, address and payload.
pub srec_parse-print_record :
    (kind : ℕ) (address_bytes payload : List ℕ) (r : SrecRecord)
    → address_length kind ≡ some (length address_bytes)
    → length address_bytes + length payload ≤ 254
    → (5 ≤ kind → payload ≡ [])
    → All IsByte address_bytes
    → All IsByte payload
    → length r.bytes ≡ 252
    → let line = print_record kind address_bytes payload in
      srec_parse line (length line) r
      ≡ accepted (stored kind (big_endian 0 address_bytes) payload r)
srec_parse-print_record kind address_bytes payload r hk hl hp ha hd hr =
    srec_parse_complete _ kind _ payload r hr
      (print_record-Describes kind address_bytes payload hk hl hp ha hd)

hex-le : (c x : ℕ) → hex c ≡ some x → x ≤ 15
unfolding hex
hex-le c x h = ground arith

-- The two digits of a byte.
byte_parts :
    (a b v : ℕ)
    → byte a b ≡ some v
    → (x : ℕ) × (y : ℕ) × (hex a ≡ some x)
      × (hex b ≡ some y)
      × (v ≡ x * 16 + y)
      × (x ≤ 15)
      × (y ≤ 15)
unfolding byte
byte_parts a b v h = elim (Option-cases (hex a)) [
  | inl e ↦ absurd (ground arith)
  | inr (x, e) ↦ elim (Option-cases (hex b)) [
    | inl f ↦ absurd (ground arith)
    | inr (y, f) ↦ (x, y, e, f, ground arith, hex-le a x e, hex-le b y f)
  ]
]

hex_pairs_head :
    (a b : ℕ) (digits vs : List ℕ)
    → hex_pairs (a ∷ b ∷ digits) ≡ some vs
    → (v : ℕ) × (rest : List ℕ) × (vs ≡ v ∷ rest)
      × (byte a b ≡ some v)
      × (hex_pairs digits ≡ some rest)
hex_pairs_head a b digits [] h = absurd (ground arith)
hex_pairs_head a b digits (v ∷ vs) h =
    let (hv, hvs) = hex_pairs-cons a b v digits vs h in (v, vs, refl, hv, hvs)

-- Two digit strings that differ in the value of one digit hold bytes of different sums.
hex_pairs_differ :
    (front back : List ℕ) (c c' : ℕ) (vs ws : List ℕ)
    → hex c ≢ hex c'
    → hex_pairs (front ++ (c ∷ back)) ≡ some vs
    → hex_pairs (front ++ (c' ∷ back)) ≡ some ws
    → sum vs % 256 ≢ sum ws % 256
hex_pairs_differ [] [] c c' vs ws ne h k e = absurd (cc)
hex_pairs_differ [] (d ∷ back) c c' vs ws ne h k e =
    let (v, vs', ev, hv, hvs) = hex_pairs_head c d back vs h in
    let (w, ws', ew, kw, kws) = hex_pairs_head c' d back ws k in
    let (x, y, hx, hy, ex, lx, ly) = byte_parts c d v hv in
    let (x', y', hx', hy', ex', lx', ly') = byte_parts c' d w kw in
    let same : y ≡ y' = ground arith in
    let rest : vs' ≡ ws' = ground arith in
    let differ : x ≢ x' = λ q. ne (hx ∙ ap some q ∙ sym hx') in
    differ (omega (arith, ap sum ev, ap sum ew, ap sum rest))
hex_pairs_differ (a ∷ []) back c c' vs ws ne h k e =
    let (v, vs', ev, hv, hvs) = hex_pairs_head a c back vs h in
    let (w, ws', ew, kw, kws) = hex_pairs_head a c' back ws k in
    let (x, y, hx, hy, ex, lx, ly) = byte_parts a c v hv in
    let (x', y', hx', hy', ex', lx', ly') = byte_parts a c' w kw in
    let same : x ≡ x' = ground arith in
    let rest : vs' ≡ ws' = ground arith in
    let differ : y ≢ y' = λ q. ne (hy ∙ ap some q ∙ sym hy') in
    differ (omega (arith, ap sum ev, ap sum ew, ap sum rest))
hex_pairs_differ (a ∷ b ∷ front) back c c' vs ws ne h k e =
    let (v, vs', ev, hv, hvs) = hex_pairs_head a b (front ++ (c ∷ back)) vs h in
    let (w, ws', ew, kw, kws) = hex_pairs_head a b (front ++ (c' ∷ back)) ws k in
    let same : v ≡ w = ground arith in
    hex_pairs_differ front back c c' vs' ws' ne hvs kws (omega (arith, ap sum ev, ap sum ew))

-- All bytes of a described line, the count and the check byte among them, sum to 255.
described_sum :
    (first second kind address : ℕ) (digits payload : List ℕ)
    → Describes (first ∷ second ∷ digits) kind address payload
    → (vs : List ℕ) × (hex_pairs digits ≡ some vs) × (sum vs % 256 ≡ 255)
described_sum first second kind address digits payload d =
    let behind = payload ++ (d.check ∷ []) in
    let same : d.digits ≡ digits = cc d.letters in
    (
      _,
      ap hex_pairs (sym same) ∙ Spells-hex_pairs d.digits _ d.spelled,
      omega (arith, d.summed, sum-append d.address_bytes behind, sum-append payload (d.check ∷ [])),
    )

-- Of an accepted line, no digit behind the first two characters can be replaced by one of another
-- value, or by no digit at all, so that the line is accepted again.
pub srec_parse_detects :
    (first second c c' : ℕ) (front back : List ℕ) (r s r' s' : SrecRecord)
    → length r.bytes ≡ 252
    → length s.bytes ≡ 252
    → hex c ≢ hex c'
    → srec_parse
        (first ∷ second ∷ (front ++ (c ∷ back)))
        (length (first ∷ second ∷ (front ++ (c ∷ back))))
        r
      ≡ accepted r'
    → srec_parse
        (first ∷ second ∷ (front ++ (c' ∷ back)))
        (length (first ∷ second ∷ (front ++ (c' ∷ back))))
        s
      ≢ accepted s'
srec_parse_detects first second c c' front back r s r' s' hr hs ne h k =
    let (_, _, _, d, _) = srec_parse_sound _ r r' hr h in
    let (_, _, _, d', _) = srec_parse_sound _ s s' hs k in
    let (vs, hvs, e) = described_sum first second _ _ (front ++ (c ∷ back)) _ d in
    let (ws, hws, e') = described_sum first second _ _ (front ++ (c' ∷ back)) _ d' in
    hex_pairs_differ front back c c' vs ws ne hvs hws (e ∙ sym e')
