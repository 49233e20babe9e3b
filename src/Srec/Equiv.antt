-- ===== src/Srec/Equiv.antt =====
-- `srec_parse` against the description of the format.
use scu35_bitcoin_lottery_mi.Base.{
  ℕ, ◌+◌, ◌-◌, ◌*◌, ◌≤◌, ◌≡◌, refl, ◌∙◌, List, [], ◌∷◌, some, inl, inr, Option-cases, arith, length,
  ap,
}
use scu35_bitcoin_lottery_mi.Srec.{
  SrecRecord, Parsed, accepted, byte, scan, address_size, srec_parse, parse_head, parse_count,
  parse_body, byte_at,
}
use scu35_bitcoin_lottery_mi.Srec.Loop.{srec_parse_enters}

pub address_size_bounds : (kind n : ℕ) → address_size kind ≡ some n → (2 ≤ n) × (n ≤ 4) × (kind ≤ 9)
unfolding address_size
address_size_bounds kind n h = ground arith

-- The checks before the loop pass exactly on this shape.
pub record Enters (line : List ℕ) (r : SrecRecord) (result : Parsed) : Type 0 where
  pub kind : ℕ
  pub naddr : ℕ
  pub count : ℕ
  pub hi : ℕ
  pub lo : ℕ
  pub digits : List ℕ
  pub letters : line ≡ b'S' ∷ (kind + b'0') ∷ hi ∷ lo ∷ digits
  pub sized : address_size kind ≡ some naddr
  pub counted : byte hi lo ≡ some count
  pub enough : naddr + 1 ≤ count
  pub long : length digits ≡ 2 * count
  pub bare : 5 ≤ kind → count ≡ naddr + 1
  pub runs :
      result
      ≡ scan line naddr count count 0 count
          (record r { kind = kind; address = 0; size = count - naddr - 1 })

parse_head_passes :
    (line : List ℕ) (size kind : ℕ) (r : SrecRecord)
    → kind ≤ 9
    → parse_head line size r (some b'S') (some (kind + b'0'))
      ≡ parse_count line size (record r { kind = kind }) (address_size kind)
unfolding parse_head
parse_head_passes line size kind r h =
    let same : kind + b'0' - b'0' ≡ kind = omega arith in
    ground
      (arith, ap (λ (k : ℕ). parse_count line size (record r { kind = k }) (address_size k)) same)

parse_body_passes :
    (line : List ℕ) (size naddr count : ℕ) (r : SrecRecord)
    → naddr + 1 ≤ count
    → size ≡ 4 + 2 * count
    → (5 ≤ r.kind → count ≡ naddr + 1)
    → parse_body line size naddr r (some (some count))
      ≡ scan line naddr count count 0 count (record r { address = 0; size = count - naddr - 1 })
unfolding parse_body
parse_body_passes line size naddr count r hn hs hk = ground arith

pub srec_parse_reaches :
    (kind naddr count hi lo : ℕ) (digits : List ℕ) (r : SrecRecord)
    → address_size kind ≡ some naddr
    → byte hi lo ≡ some count
    → naddr + 1 ≤ count
    → length digits ≡ 2 * count
    → (5 ≤ kind → count ≡ naddr + 1)
    → let line = b'S' ∷ (kind + b'0') ∷ hi ∷ lo ∷ digits in
      srec_parse line (length line) r
      ≡ scan line naddr count count 0 count
          (record r { kind = kind; address = 0; size = count - naddr - 1 })
unfolding parse_count byte_at
srec_parse_reaches kind naddr count hi lo digits r hs hb hn hl hk =
    let line = b'S' ∷ (kind + b'0') ∷ hi ∷ lo ∷ digits in
    let size = length line in
    let r' : SrecRecord = record r { kind = kind } in
    srec_parse_enters line size r (omega arith) refl refl
    ∙ parse_head_passes line size kind r (address_size_bounds kind naddr hs).2
    ∙ ap (λ n. parse_count line size r' n) hs
    ∙ ap (λ c. parse_body line size naddr r' (some c)) hb
    ∙ parse_body_passes line size naddr count r' hn (omega arith) hk

pub srec_parse_inverts :
    (line : List ℕ) (r r' : SrecRecord)
    → srec_parse line (length line) r ≡ accepted r'
    → Enters line r (accepted r')
unfolding srec_parse
srec_parse_inverts [] r r' h = absurd (ground arith)
srec_parse_inverts (a ∷ []) r r' h = absurd (ground arith)
srec_parse_inverts (a ∷ b ∷ []) r r' h = absurd (ground arith)
srec_parse_inverts (a ∷ b ∷ c ∷ []) r r' h = absurd (ground arith)
srec_parse_inverts (a ∷ b ∷ hi ∷ lo ∷ digits) r r' h =
    elim (Option-cases (address_size (b - b'0'))) [
      | inl e ↦ absurd (ground arith)
      | inr (naddr, e) ↦ elim (Option-cases (byte hi lo)) [
        | inl f ↦ absurd (ground arith)
        | inr (count, f) ↦ record {
          kind = b - b'0';
          naddr = naddr;
          count = count;
          hi = hi;
          lo = lo;
          digits = digits;
          letters = ground arith;
          sized = e;
          counted = f;
          enough = ground arith;
          long = ground arith;
          bare = ground arith;
          runs = ground arith;
        }
      ]
    ]
