-- ===== src/Srec/Format.antt =====
-- What an S-record line says, apart from how `srec_parse` reads it: a letter, a digit, and pairs of
-- hexadecimal digits that hold a count, an address, the payload and a check byte.
use scu35_bitcoin_lottery_mi.Base.{
  ℕ, ◌+◌, ◌-◌, ◌*◌, ◌/◌, ◌%◌, ◌≤◌, ◌<◌, ◌≡◌, ◌⊎◌, inl, inr, dec_le, zero, suc, refl, sym, ap,
  Option-cases, List, [], ◌∷◌, ◌++◌, Option, none, some, arith, length, All, ◌>>=◌, ltb,
  if◌then◌else◌,
}
use scu35_bitcoin_lottery_mi.Srec.{byte, hex, address_size}

-- A character that stands for a value: a figure, or a letter of either case.
abbrev pub IsHex : ℕ → ℕ → Type 0
IsHex c v =
    ((c ≡ b'0' + v) × (v < 10))
    ⊎ (((c + 10 ≡ b'a' + v) × (10 ≤ v) × (v < 16)) ⊎ ((c + 10 ≡ b'A' + v) × (10 ≤ v) × (v < 16)))

-- The bytes that pairs of such characters spell.
abbrev pub Spells : List ℕ → List ℕ → Type 0
Spells [] [] = Unit
Spells (a ∷ b ∷ rest) (v ∷ vs) =
    ((x : ℕ) × (y : ℕ) × IsHex a x × IsHex b y × (v ≡ x * 16 + y)) × Spells rest vs
Spells _ _ = ⊥

-- How many bytes the address has, of the types of record from 0 to 9; the type 4 is none.
abbrev pub address_lengths : List (Option ℕ)
address_lengths =
    some 2 ∷ some 2 ∷ some 3 ∷ some 4 ∷ none ∷ some 2 ∷ some 3 ∷ some 4 ∷ some 3 ∷ some 2 ∷ []

abbrev pub entry : List (Option ℕ) → ℕ → Option ℕ
entry [] i = none
entry (x ∷ xs) zero = x
entry (x ∷ xs) (suc i) = entry xs i

abbrev pub address_length : ℕ → Option ℕ
address_length kind = entry address_lengths kind

pub address_size-address_length : (kind : ℕ) → address_size kind ≡ address_length kind
unfolding address_size
address_size-address_length zero = refl
address_size-address_length (suc zero) = refl
address_size-address_length (suc (suc zero)) = refl
address_size-address_length (suc (suc (suc zero))) = refl
address_size-address_length (suc (suc (suc (suc zero)))) = refl
address_size-address_length (suc (suc (suc (suc (suc zero))))) = refl
address_size-address_length (suc (suc (suc (suc (suc (suc zero)))))) = refl
address_size-address_length (suc (suc (suc (suc (suc (suc (suc zero))))))) = refl
address_size-address_length (suc (suc (suc (suc (suc (suc (suc (suc zero)))))))) = refl
address_size-address_length (suc (suc (suc (suc (suc (suc (suc (suc (suc zero))))))))) = refl
address_size-address_length (suc (suc (suc (suc (suc (suc (suc (suc (suc (suc n)))))))))) =
    ground arith

hex-IsHex : (c v : ℕ) → hex c ≡ some v → IsHex c v
unfolding hex
hex-IsHex c v h = elim (dec_le c b'9') [
  | yes low ↦ inl (ground arith, ground arith)
  | no above ↦ elim (dec_le c b'F') [
    | yes capital ↦ inr (inr (ground arith, ground arith, ground arith))
    | no higher ↦ inr (inl (ground arith, ground arith, ground arith))
  ]
]

IsHex-hex : (c v : ℕ) → IsHex c v → hex c ≡ some v
unfolding hex
IsHex-hex c v (inl (e, h)) = ground arith
IsHex-hex c v (inr (inl (e, h, k))) = ground arith
IsHex-hex c v (inr (inr (e, h, k))) = ground arith

abbrev pub hex_pairs : List ℕ → Option (List ℕ)
hex_pairs [] = some []
hex_pairs (c ∷ []) = none
hex_pairs (a ∷ b ∷ rest) = do v ← byte a b; vs ← hex_pairs rest; some (v ∷ vs)

pub hex_pairs-cons :
    (a b v : ℕ) (digits vs : List ℕ)
    → hex_pairs (a ∷ b ∷ digits) ≡ some (v ∷ vs)
    → (byte a b ≡ some v) × (hex_pairs digits ≡ some vs)
hex_pairs-cons a b v digits vs h = ground arith

pub hex_pairs_join :
    (a b v : ℕ) (digits vs : List ℕ)
    → byte a b ≡ some v
    → hex_pairs digits ≡ some vs
    → hex_pairs (a ∷ b ∷ digits) ≡ some (v ∷ vs)
hex_pairs_join a b v digits vs hb hd = rw (hb, hd) refl

-- The parser reads the pairs that spell bytes, and no others.
byte-IsHex :
    (a b v : ℕ) → byte a b ≡ some v → (x : ℕ) × (y : ℕ) × IsHex a x × IsHex b y × (v ≡ x * 16 + y)
unfolding byte
byte-IsHex a b v h = elim (Option-cases (hex a)) [
  | inl e ↦ absurd (ground arith)
  | inr (x, e) ↦ elim (Option-cases (hex b)) [
    | inl f ↦ absurd (ground arith)
    | inr (y, f) ↦ (x, y, hex-IsHex a x e, hex-IsHex b y f, ground arith)
  ]
]

pub hex_pairs-Spells : (digits vs : List ℕ) → hex_pairs digits ≡ some vs → Spells digits vs
hex_pairs-Spells [] [] h = tt
hex_pairs-Spells [] (v ∷ vs) h = absurd (cc h)
hex_pairs-Spells (a ∷ []) vs h = absurd (cc h)
hex_pairs-Spells (a ∷ b ∷ digits) [] h = absurd (ground arith)
hex_pairs-Spells (a ∷ b ∷ digits) (v ∷ vs) h =
    let (hb, hd) = hex_pairs-cons a b v digits vs h in
    (byte-IsHex a b v hb, hex_pairs-Spells digits vs hd)

IsHex-byte : (a b v x y : ℕ) → IsHex a x → IsHex b y → v ≡ x * 16 + y → byte a b ≡ some v
unfolding byte
IsHex-byte a b v x y h k e = rw (IsHex-hex a x h, IsHex-hex b y k, byte) (ap some (sym e))

pub Spells-hex_pairs : (digits vs : List ℕ) → Spells digits vs → hex_pairs digits ≡ some vs
Spells-hex_pairs [] [] h = refl
Spells-hex_pairs [] (v ∷ vs) h = absurd h
Spells-hex_pairs (a ∷ []) [] h = absurd h
Spells-hex_pairs (a ∷ []) (v ∷ vs) h = absurd h
Spells-hex_pairs (a ∷ b ∷ digits) [] h = absurd h
Spells-hex_pairs (a ∷ b ∷ digits) (v ∷ vs) ((x, y, h, k, e), rest) =
    hex_pairs_join a b v digits vs (IsHex-byte a b v x y h k e) (Spells-hex_pairs digits vs rest)

-- The number that bytes spell behind `a`, highest byte first.
abbrev pub big_endian : ℕ → List ℕ → ℕ
big_endian a [] = a
big_endian a (v ∷ vs) = big_endian (a * 256 + v) vs

abbrev pub sum : List ℕ → ℕ
sum [] = 0
sum (v ∷ vs) = v + sum vs

-- The line holds a record of this kind, address and payload.
pub record Describes (line : List ℕ) (kind address : ℕ) (payload : List ℕ) : Type 0 where
  pub digits : List ℕ
  pub address_bytes : List ℕ
  pub check : ℕ
  pub letters : line ≡ b'S' ∷ (kind + b'0') ∷ digits
  pub spelled :
      Spells digits
        ((length address_bytes + length payload + 1) ∷ (address_bytes ++ (payload ++ check ∷ [])))
  pub sized : address_length kind ≡ some (length address_bytes)
  pub located : address ≡ big_endian 0 address_bytes
  pub bare : 5 ≤ kind → payload ≡ []
  pub summed :
      (length address_bytes + length payload + 1 + sum address_bytes + sum payload + check) % 256
      ≡ 255

abbrev pub IsByte : ℕ → Type 0
IsByte v = v ≤ 255

-- A printer of the format, in capitals.
digit : ℕ → ℕ
digit n = if ltb n 10 then b'0' + n else b'A' + n - 10

pub print_bytes : List ℕ → List ℕ
print_bytes [] = []
print_bytes (v ∷ vs) = digit (v / 16) ∷ digit (v % 16) ∷ print_bytes vs

byte-digits : (v : ℕ) → v ≤ 255 → byte (digit (v / 16)) (digit (v % 16)) ≡ some v
unfolding byte hex digit
byte-digits v h = ground arith

pub hex_pairs-print_bytes : (vs : List ℕ) → All IsByte vs → hex_pairs (print_bytes vs) ≡ some vs
unfolding print_bytes
hex_pairs-print_bytes [] h = refl
hex_pairs-print_bytes (v ∷ vs) (hv, hvs) = rw (byte-digits v hv, hex_pairs-print_bytes vs hvs) refl

-- The check byte makes the sum of all bytes 255, modulo 256.
unfoldable pub check_of : ℕ → ℕ
check_of total = 255 - total % 256

check_of-IsByte : (total : ℕ) → IsByte (check_of total)
unfolding check_of
check_of-IsByte total = omega arith

check_of-sum : (total : ℕ) → (total + check_of total) % 256 ≡ 255
unfolding check_of
check_of-sum total = omega arith

unfoldable pub print_record : ℕ → List ℕ → List ℕ → List ℕ
unfolding check_of print_bytes digit
print_record kind address_bytes payload =
    let count = length address_bytes + length payload + 1 in
    b'S'
    ∷ (kind + b'0')
    ∷ print_bytes (
        count
        ∷ (address_bytes ++ (payload ++ check_of (count + sum address_bytes + sum payload) ∷ [])))

All-append : (xs ys : List ℕ) → All IsByte xs → All IsByte ys → All IsByte (xs ++ ys)
All-append [] ys h k = k
All-append (x ∷ xs) ys (hx, hxs) k = (hx, All-append xs ys hxs k)

-- What the printer writes describes the record.
pub print_record-Describes :
    (kind : ℕ) (address_bytes payload : List ℕ)
    → address_length kind ≡ some (length address_bytes)
    → length address_bytes + length payload ≤ 254
    → (5 ≤ kind → payload ≡ [])
    → All IsByte address_bytes
    → All IsByte payload
    → Describes (print_record kind address_bytes payload) kind (big_endian 0 address_bytes) payload
unfolding print_record
print_record-Describes kind address_bytes payload hk hl hp ha hd =
    let count = length address_bytes + length payload + 1 in
    let check = check_of (count + sum address_bytes + sum payload) in
    let bytes = count ∷ (address_bytes ++ (payload ++ check ∷ [])) in
    record {
      digits = print_bytes bytes;
      address_bytes = address_bytes;
      check = check;
      letters = refl;
      spelled = hex_pairs-Spells (print_bytes bytes) bytes (
          hex_pairs-print_bytes bytes
            (omega arith, All-append _ _ ha (All-append _ _ hd (check_of-IsByte _, tt))));
      sized = hk;
      located = refl;
      bare = hp;
      summed = check_of-sum _;
    }
