-- ===== src/Srec.antt =====
-- software/common/srec.c and srec.h: the parser of Motorola S-record lines. A `char` is its byte.
pub mod Loop
pub mod Format
pub mod Absorb
pub mod Phases
pub mod Equiv
pub mod Accepts
pub mod Integrity
mod Examples
use scu35_bitcoin_lottery_mi.Base.{
  ℕ, zero, suc, ◌+◌, ◌-◌, ◌*◌, ◌%◌, ◌^◌, Bool, true, false, ◌&&◌, ◌||◌, not, Option, none, some,
  List, [], ◌∷◌, ltb, leb, ◌==◌, if◌then◌else◌, ◌>>=◌, length, get_elem?, set, u32, ◌<<<◌, bit_or,
}

-- `data` is the array of 252 bytes; only the first `size` of them belong to the record.
pub record SrecRecord : Type 0 where
  pub address : ℕ
  pub bytes : List ℕ
  pub size : ℕ
  pub kind : ℕ

-- `accepted` is a return of 0 and `rejected` of -1, with what `*r` holds then. `fault` is a read or
-- a write outside an array, which C leaves undefined.
pub data Parsed : Type 0 where
  accepted : SrecRecord → Parsed
  rejected : SrecRecord → Parsed
  fault : Parsed

-- `none` is the -1 of `hex` and `byte`.
unfoldable pub hex : ℕ → Option ℕ
hex c =
    if leb b'0' c && leb c b'9'
    then some (c - b'0')
    else (if leb b'a' c && leb c b'f'
        then some (c - b'a' + 10)
        else (if leb b'A' c && leb c b'F' then some (c - b'A' + 10) else none))

-- Both digits are read before either is tested.
unfoldable pub byte : ℕ → ℕ → Option ℕ
byte a b = elim (hex a) [
  | none ↦ none
  | some x ↦ elim (hex b) [ none ↦ none | some y ↦ some (x * 16 + y) ]
]

-- `byte(line + at)`. The outer `none` is a read outside the line.
pub byte_at : List ℕ → ℕ → Option (Option ℕ)
byte_at line at = do a ← get_elem? line at; b ← get_elem? line (at + 1); some (byte a b)

-- The two assignments of the loop for byte `i`, once its value is known.
pub store : ℕ → ℕ → ℕ → ℕ → SrecRecord → Option SrecRecord
store naddr count i value r =
    if ltb i naddr
    then some (record r { address = u32 (bit_or (u32 (r.address <<< 8)) value) })
    else (if ltb i (count - 1)
        then (if ltb (i - naddr) (length r.bytes)
            then some (record r { bytes = set r.bytes (i - naddr) value })
            else none)
        else some r)

-- One round of the loop goes on with a new sum and record, or ends the parse.
pub data Round : Type 0 where
  next : ℕ → SrecRecord → Round
  stop : Parsed → Round

after_store : ℕ → Option SrecRecord → Round
after_store sum none = stop fault
after_store sum (some r) = next sum r

pub after_byte : ℕ → ℕ → ℕ → ℕ → SrecRecord → Option (Option ℕ) → Round
unfolding after_store
after_byte naddr count i sum r none = stop fault
after_byte naddr count i sum r (some none) = stop (rejected r)
after_byte naddr count i sum r (some (some value)) =
    after_store (u32 (sum + value)) (store naddr count i value r)

pub continue : (ℕ → SrecRecord → Parsed) → Round → Parsed
continue rest (next sum r) = rest sum r
continue rest (stop result) = result

-- The loop at index `i`, with `count - i` rounds left, and the test of the sum behind it.
module _ (line : List ℕ) (naddr count : ℕ) where
  pub scan : ℕ → ℕ → ℕ → SrecRecord → Parsed
  unfolding continue
  scan zero i sum r = if sum % 256 == 255 then accepted r else rejected r
  scan (suc left) i sum r =
      continue (λ sum' r'. scan left (i + 1) sum' r')
        (after_byte naddr count i sum r (byte_at line (4 + 2 * i)))

-- The `switch`: how many address bytes a type of record has.
unfoldable pub address_size : ℕ → Option ℕ
address_size kind =
    if kind == 0 || kind == 1 || kind == 5 || kind == 9
    then some 2
    else (if kind == 2 || kind == 6 || kind == 8
        then some 3
        else (if kind == 3 || kind == 7 then some 4 else none))

-- From the test of `count` on. A `count` of -1 is below `naddr + 1`.
pub parse_body : List ℕ → ℕ → ℕ → SrecRecord → Option (Option ℕ) → Parsed
parse_body line size naddr r none = fault
parse_body line size naddr r (some none) = rejected r
parse_body line size naddr r (some (some count)) =
    if ltb count (naddr + 1) || not (size == 4 + 2 * count)
    then rejected r
    else (let r' = record r { address = 0; size = count - naddr - 1 } in
        if leb 5 r.kind && not (r'.size == 0)
        then rejected r'
        else scan line naddr count count 0 count r')

pub parse_count : List ℕ → ℕ → SrecRecord → Option ℕ → Parsed
parse_count line size r none = rejected r
parse_count line size r (some naddr) = parse_body line size naddr r (byte_at line 2)

-- From the test of the first two characters on, `line[0]` and `line[1]`.
pub parse_head : List ℕ → ℕ → SrecRecord → Option ℕ → Option ℕ → Parsed
parse_head line size r (some first) (some second) =
    if not (first == b'S') || ltb second b'0' || ltb b'9' second
    then rejected r
    else (let r' = record r { kind = second - b'0' } in
        parse_count line size r' (address_size r'.kind))
parse_head line size r _ _ = fault

unfoldable pub srec_parse : List ℕ → ℕ → SrecRecord → Parsed
unfolding scan store after_byte byte_at parse_body parse_count parse_head
srec_parse line size r =
    if ltb size 4 then rejected r else parse_head line size r (get_elem? line 0) (get_elem? line 1)
