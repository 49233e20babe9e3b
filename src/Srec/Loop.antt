-- ===== src/Srec/Loop.antt =====
-- The loop of `srec_parse` stays inside the line and the data array.
use scu35_bitcoin_lottery_mi.Base.{
  ℕ, zero, suc, ◌+◌, ◌-◌, ◌*◌, ◌≤◌, ◌<◌, ◌≡◌, refl, List, Option, none, some, arith, length,
  get_elem?, get_elem?-lt, length-set, sym, subst, dec_le,
}
use scu35_bitcoin_lottery_mi.Srec.{
  SrecRecord, Parsed, accepted, rejected, fault, byte, store, scan, parse_body, parse_count,
  address_size, byte_at, after_byte, Round, next, stop, hex, continue, parse_head, srec_parse,
}

-- The parse ended normally, and the data array kept its length.
abbrev pub Returns : Parsed → Type 0
Returns (accepted r) = length r.bytes ≡ 252
Returns (rejected r) = length r.bytes ≡ 252
Returns fault = ⊥

pub byte-le : (a b n : ℕ) → byte a b ≡ some n → n ≤ 255
unfolding byte hex
byte-le a b n h = ground arith

-- Inside the line `byte` is evaluated, and its value is below 256.
pub byte_at-lt :
    (line : List ℕ) (at : ℕ)
    → at + 1 < length line
    → (v : Option ℕ) × (byte_at line at ≡ some v) × ((n : ℕ) → v ≡ some n → n ≤ 255)
unfolding byte_at
byte_at-lt line at h =
    let (a, ea) = get_elem?-lt line at (omega arith) in
    let (b, eb) = get_elem?-lt line (at + 1) h in
    (byte a b, rw (ea, eb) refl, λ n e. byte-le a b n e)

-- A round that the array sizes allow is no fault.
abbrev RoundReturns : Round → Type 0
RoundReturns (next sum r) = length r.bytes ≡ 252
RoundReturns (stop result) = Returns result

after_byte-Returns :
    (naddr count i sum : ℕ) (r : SrecRecord) (v : Option ℕ)
    → i < count
    → count ≤ 255
    → 2 ≤ naddr
    → length r.bytes ≡ 252
    → RoundReturns (after_byte naddr count i sum r (some v))
unfolding after_byte store
after_byte-Returns naddr count i sum r none hi hc hn hr = hr
after_byte-Returns naddr count i sum r (some v) hi hc hn hr =
    ground (arith, length-set r.bytes (i - naddr) v)

continue-Returns :
    (k : ℕ → SrecRecord → Parsed) (o : Round)
    → RoundReturns o
    → ((sum : ℕ) (r : SrecRecord) → length r.bytes ≡ 252 → Returns (k sum r))
    → Returns (continue k o)
unfolding continue
continue-Returns k (next sum r) h f = f sum r h
continue-Returns k (stop result) h f = h

pub scan_step :
    (line : List ℕ) (naddr count left i sum : ℕ) (r : SrecRecord) {v : Option ℕ}
    → byte_at line (4 + 2 * i) ≡ some v
    → scan line naddr count (suc left) i sum r
      ≡ continue
          (λ sum' r'. scan line naddr count left (i + 1) sum' r')
          (after_byte naddr count i sum r (some v))
unfolding scan
scan_step line naddr count left i sum r e = rw e

scan-Returns :
    (line : List ℕ) (naddr count left i sum : ℕ) (r : SrecRecord)
    → i + left ≡ count
    → count ≤ 255
    → 2 ≤ naddr
    → 4 + 2 * count ≤ length line
    → length r.bytes ≡ 252
    → Returns (scan line naddr count left i sum r)
scan-Returns line naddr count zero i sum r hi hc hn hl hr = unfold scan in ground arith
scan-Returns line naddr count (suc left) i sum r hi hc hn hl hr =
    let (v, e, _) = byte_at-lt line (4 + 2 * i) (omega arith) in
    subst Returns (sym (scan_step line naddr count left i sum r e)) (
      continue-Returns (λ sum' r'. scan line naddr count left (i + 1) sum' r') _
        (after_byte-Returns naddr count i sum r v (omega arith) hc hn hr)
        (λ sum' r' hr'.
          scan-Returns line naddr count left (i + 1) sum' r' (omega arith) hc hn hl hr'))

parse_body-Returns :
    (line : List ℕ) (size naddr : ℕ) (r : SrecRecord) (v : Option ℕ)
    → ((n : ℕ) → v ≡ some n → n ≤ 255)
    → 2 ≤ naddr
    → size ≤ length line
    → length r.bytes ≡ 252
    → Returns (parse_body line size naddr r (some v))
unfolding parse_body
parse_body-Returns line size naddr r none hv hn hl hr = hr
parse_body-Returns line size naddr r (some count) hv hn hl hr = ground (
  arith,
  hv count refl,
  scan-Returns line naddr count count 0 count (record r { address = 0; size = count - naddr - 1 }),
)

address_size-le : (kind n : ℕ) → address_size kind ≡ some n → 2 ≤ n
unfolding address_size
address_size-le kind n h = ground arith

parse_count-Returns :
    (line : List ℕ) (size : ℕ) (r : SrecRecord) (naddr : Option ℕ)
    → ((n : ℕ) → naddr ≡ some n → 2 ≤ n)
    → 4 ≤ size
    → size ≤ length line
    → length r.bytes ≡ 252
    → Returns (parse_count line size r naddr)
unfolding parse_count
parse_count-Returns line size r none hn h4 hl hr = hr
parse_count-Returns line size r (some naddr) hn h4 hl hr =
    let (v, e, hv) = byte_at-lt line 2 (omega arith) in
    subst (λ t. Returns (parse_body line size naddr r t)) (sym e)
      (parse_body-Returns line size naddr r v hv (hn naddr refl) hl hr)

parse_head-Returns :
    (line : List ℕ) (size : ℕ) (r : SrecRecord) (first second : ℕ)
    → 4 ≤ size
    → size ≤ length line
    → length r.bytes ≡ 252
    → Returns (parse_head line size r (some first) (some second))
unfolding parse_head
parse_head-Returns line size r first second h4 hl hr = ground (
  arith,
  parse_count-Returns line size (record r { kind = second - b'0' }) (address_size (second - b'0'))
      (address_size-le (second - b'0')),
)

pub srec_parse_enters :
    (line : List ℕ) (size : ℕ) (r : SrecRecord) {first second : ℕ}
    → 4 ≤ size
    → get_elem? line 0 ≡ some first
    → get_elem? line 1 ≡ some second
    → srec_parse line size r ≡ parse_head line size r (some first) (some second)
unfolding srec_parse
srec_parse_enters line size r h a b = ground arith

-- On every line of which the first size characters are there, and with a data array of 252 bytes,
-- the parse reads and writes inside its arrays, and the data array keeps its length.
pub srec_parse-Returns :
    (line : List ℕ) (size : ℕ) (r : SrecRecord)
    → size ≤ length line
    → length r.bytes ≡ 252
    → Returns (srec_parse line size r)
srec_parse-Returns line size r hl hr = elim (dec_le 4 size) [
  | yes long ↦
      let (a, ea) = get_elem?-lt line 0 (omega arith) in
      let (b, eb) = get_elem?-lt line 1 (omega arith) in
      subst Returns (sym (srec_parse_enters line size r long ea eb))
        (parse_head-Returns line size r a b long hl hr)
  | no short ↦ unfold srec_parse in ground arith
]
