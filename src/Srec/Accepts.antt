-- ===== src/Srec/Accepts.antt =====
-- `srec_parse` accepts the described lines and no others.
use scu35_bitcoin_lottery_mi.Base.{
  ℕ, zero, suc, ◌+◌, ◌-◌, ◌*◌, ◌%◌, ◌≤◌, ◌≡◌, refl, sym, subst, ◌∙◌, List, [], ◌∷◌, ◌++◌, some,
  arith, length, length-append, All, ap, drop, take, take-append-drop, length-take, length-drop,
  ◌==◌, if◌then◌else◌,
}
use scu35_bitcoin_lottery_mi.Srec.{
  SrecRecord, accepted, rejected, byte, scan, address_size, srec_parse,
}
use scu35_bitcoin_lottery_mi.Srec.Loop.{byte-le}
use scu35_bitcoin_lottery_mi.Srec.Absorb.{scan-absorb, scan_decodes}
use scu35_bitcoin_lottery_mi.Srec.Phases.{absorb-record}
use scu35_bitcoin_lottery_mi.Srec.Equiv.{
  srec_parse_reaches, srec_parse_inverts, address_size_bounds,
}
use scu35_bitcoin_lottery_mi.Srec.Format.{
  Describes, hex_pairs, hex_pairs-cons, hex_pairs_join, hex_pairs-Spells, Spells-hex_pairs,
  address_size-address_length, IsByte, sum, big_endian,
}

pub hex_pairs_shape :
    (digits vs : List ℕ)
    → hex_pairs digits ≡ some vs
    → (length digits ≡ 2 * length vs) × All IsByte vs
hex_pairs_shape [] [] h = (omega arith, tt)
hex_pairs_shape [] (v ∷ vs) h = absurd (cc)
hex_pairs_shape (a ∷ []) vs h = absurd (cc)
hex_pairs_shape (a ∷ b ∷ digits) [] h = absurd (ground arith)
hex_pairs_shape (a ∷ b ∷ digits) (v ∷ vs) h =
    let (hb, hd) = hex_pairs-cons a b v digits vs h in
    let (n, ok) = hex_pairs_shape digits vs hd in (omega arith, (byte-le a b v hb, ok))

All-front : (xs ys : List ℕ) → All IsByte (xs ++ ys) → All IsByte xs
All-front [] ys h = tt
All-front (x ∷ xs) ys (hx, h) = (hx, All-front xs ys h)

-- A list cut behind `n` and before its last element.
record Cut (vs : List ℕ) (n m : ℕ) : Type 0 where
  addr : List ℕ
  payload : List ℕ
  check : ℕ
  whole : vs ≡ addr ++ (payload ++ (check ∷ []))
  addr_length : length addr ≡ n
  payload_length : length payload ≡ m

unsnoc :
    (vs : List ℕ) (m : ℕ)
    → length vs ≡ m + 1
    → (payload : List ℕ) × (check : ℕ) × (vs ≡ payload ++ (check ∷ [])) × (length payload ≡ m)
unsnoc [] m h = absurd (omega arith)
unsnoc (v ∷ []) zero h = ([], v, refl, refl)
unsnoc (v ∷ w ∷ vs) zero h = absurd (omega arith)
unsnoc (v ∷ vs) (suc m) h =
    let (payload, check, e, n) = unsnoc vs m (omega arith) in
    (v ∷ payload, check, ap (λ t. v ∷ t) e, ap suc n)

cut : (vs : List ℕ) (n m : ℕ) → length vs ≡ n + m + 1 → Cut vs n m
cut vs n m h =
    let (payload, check, e, k) = unsnoc (drop n vs) m (omega (arith, length-drop n vs)) in
    record {
      addr = take n vs;
      payload = payload;
      check = check;
      whole = sym (take-append-drop n vs) ∙ ap (λ t. take n vs ++ t) e;
      addr_length = omega (arith, length-take n vs);
      payload_length = k;
    }

-- What `*r` holds after the record was accepted.
abbrev pub stored : ℕ → ℕ → List ℕ → SrecRecord → SrecRecord
stored kind address payload r = record {
  address = address;
  bytes = payload ++ drop (length payload) r.bytes;
  size = length payload;
  kind = kind;
}

-- The loop on a line whose digits behind the count are decoded.
loop_result :
    (kind hi lo check count : ℕ) (digits addr payload : List ℕ) (r : SrecRecord)
    → hex_pairs digits ≡ some (addr ++ (payload ++ (check ∷ [])))
    → count ≡ length addr + length payload + 1
    → length addr ≤ 4
    → length payload ≤ length r.bytes
    → scan
        (b'S' ∷ (kind + b'0') ∷ hi ∷ lo ∷ digits)
        (length addr)
        count
        count
        0
        count
        (record r { kind = kind; address = 0; size = count - length addr - 1 })
      ≡ (let r' = stored kind (big_endian 0 addr) payload r in
          if (count + sum addr + sum payload + check) % 256 == 255
          then accepted r'
          else rejected r')
loop_result kind hi lo check count digits addr payload r hd hc ha hp =
    let line = b'S' ∷ (kind + b'0') ∷ hi ∷ lo ∷ digits in
    let body = addr ++ (payload ++ (check ∷ [])) in
    let behind = payload ++ (check ∷ []) in
    let fits : count - length addr - 1 ≡ length payload = omega arith in
    let long : length body ≡ count =
      omega (arith, length-append addr behind, length-append payload (check ∷ [])) in
    let (_, ok) = hex_pairs_shape digits body hd in
    ap
      (λ (n : ℕ).
        scan line (length addr) count count 0 count
          (record r { kind = kind; address = 0; size = n }))
      fits
    ∙ scan-absorb line (length addr) count count 0 count
        (record r { kind = kind; address = 0; size = length payload }) digits body refl hd long
    ∙ absorb-record addr payload check count (record r { kind = kind; size = length payload }) hc ha
        hp (All-front addr behind ok)

-- A line that spells a record as the format has it (S, the figure of a type other than 4, then
-- pairs of hexadecimal digits with the count, the address in the number of bytes of that type, the
-- payload and the check byte) is accepted, with that record's fields stored, the payload over the
-- front of the data array of 252 bytes, the rest of which keeps its content.
pub srec_parse_complete :
    (line : List ℕ) (kind address : ℕ) (payload : List ℕ) (r : SrecRecord)
    → length r.bytes ≡ 252
    → Describes line kind address payload
    → srec_parse line (length line) r ≡ accepted (stored kind address payload r)
srec_parse_complete line kind address payload r hr d =
    go d.digits d.letters (Spells-hex_pairs d.digits _ d.spelled)
  where
    addr : List ℕ
    addr = d.address_bytes

    sized : address_size kind ≡ some (length addr)
    sized = address_size-address_length kind ∙ d.sized

    behind : List ℕ
    behind = payload ++ (d.check ∷ [])

    count : ℕ
    count = length addr + length payload + 1

    go :
        (digits : List ℕ)
        → line ≡ b'S' ∷ (kind + b'0') ∷ digits
        → hex_pairs digits ≡ some (count ∷ (addr ++ behind))
        → srec_parse line (length line) r ≡ accepted (stored kind address payload r)
    go [] hl hd = absurd (cc)
    go (a ∷ []) hl hd = absurd (cc)
    go (hi ∷ lo ∷ digits) hl hd =
        let (hb, hds) = hex_pairs-cons hi lo count digits (addr ++ behind) hd in
        let (two, four, _) = address_size_bounds kind (length addr) sized in
        let (dlen, _) = hex_pairs_shape digits (addr ++ behind) hds in
        let small : count ≤ 255 = byte-le hi lo count hb in
        let long : length digits ≡ 2 * count =
          omega (arith, length-append addr behind, length-append payload (d.check ∷ [])) in
        let bare : 5 ≤ kind → count ≡ length addr + 1 =
          λ h. omega (arith, ap (λ (t : List ℕ). length t) (d.bare h)) in
        rw hl (
          srec_parse_reaches kind (length addr) count hi lo digits r sized hb (omega arith) long
            bare
          ∙ loop_result kind hi lo d.check count digits addr payload r hds refl four (omega arith)
          ∙ ground (arith, d.summed, d.located))

accepts_when_summed :
    (total : ℕ) (r r' : SrecRecord)
    → (if total % 256 == 255 then accepted r else rejected r) ≡ accepted r'
    → (total % 256 ≡ 255) × (r' ≡ r)
accepts_when_summed total r r' h = ground arith

-- An accepted line spells, as the format has it, the record that was stored, and the rest of the
-- data array of 252 bytes keeps its content.
pub srec_parse_sound :
    (line : List ℕ) (r r' : SrecRecord)
    → length r.bytes ≡ 252
    → srec_parse line (length line) r ≡ accepted r'
    → (kind : ℕ) × (address : ℕ) × (payload : List ℕ) × Describes line kind address payload
      × (r' ≡ stored kind address payload r)
srec_parse_sound line r r' hr h =
    let e = srec_parse_inverts line r r' h in
    let (two, four, _) = address_size_bounds e.kind e.naddr e.sized in
    let small : e.count ≤ 255 = byte-le e.hi e.lo e.count e.counted in
    let start : SrecRecord = record r {
      kind = e.kind;
      address = 0;
      size = e.count - e.naddr - 1;
    } in
    let shape = b'S' ∷ (e.kind + b'0') ∷ e.hi ∷ e.lo ∷ e.digits in
    let runs : scan shape e.naddr e.count e.count 0 e.count start ≡ accepted r' =
      subst (λ (l : List ℕ). scan l e.naddr e.count e.count 0 e.count start ≡ accepted r') e.letters
        (sym e.runs) in
    let (vs, hvs, hn) =
      scan_decodes shape e.naddr e.count e.count 0 e.count start r' e.digits refl e.long runs in
    let c = cut vs e.naddr (e.count - e.naddr - 1) (omega (arith, e.enough)) in
    finish e.kind e.hi e.lo c.check e.count e.naddr e.digits c.addr c.payload e.letters
      (hvs ∙ ap some c.whole) (sym c.addr_length)
      (omega (arith, c.addr_length, c.payload_length, e.enough)) e.sized four e.counted
      (omega (arith, c.payload_length)) e.bare runs
  where
    finish :
        (kind hi lo check count naddr : ℕ) (digits addr payload : List ℕ)
        → line ≡ b'S' ∷ (kind + b'0') ∷ hi ∷ lo ∷ digits
        → hex_pairs digits ≡ some (addr ++ (payload ++ (check ∷ [])))
        → naddr ≡ length addr
        → count ≡ length addr + length payload + 1
        → address_size kind ≡ some naddr
        → naddr ≤ 4
        → byte hi lo ≡ some count
        → length payload ≤ 252
        → (5 ≤ kind → count ≡ naddr + 1)
        → scan
            (b'S' ∷ (kind + b'0') ∷ hi ∷ lo ∷ digits)
            naddr
            count
            count
            0
            count
            (record r { kind = kind; address = 0; size = count - naddr - 1 })
          ≡ accepted r'
        → (k : ℕ) × (a : ℕ) × (p : List ℕ) × Describes line k a p × (r' ≡ stored k a p r)
    finish kind hi lo check count naddr digits addr payload hl hd hna hc hs h4 hb hp hk hr' =
        let runs' =
          subst
            (λ (n : ℕ).
              scan (b'S' ∷ (kind + b'0') ∷ hi ∷ lo ∷ digits) n count count 0 count
                (record r { kind = kind; address = 0; size = count - n - 1 })
              ≡ accepted r')
            hna hr' in
        let (summed, same) =
          accepts_when_summed (count + sum addr + sum payload + check)
            (stored kind (big_endian 0 addr) payload r) r'
            (sym (
                loop_result kind hi lo check count digits addr payload r hd hc (omega arith)
                  (omega arith))
              ∙ runs') in
        (
          kind,
          big_endian 0 addr,
          payload,
          record {
            digits = hi ∷ lo ∷ digits;
            address_bytes = addr;
            check = check;
            letters = hl;
            spelled = hex_pairs-Spells (hi ∷ lo ∷ digits) _ (
                hex_pairs_join hi lo count digits (addr ++ (payload ++ (check ∷ []))) hb hd
                ∙ ap (λ (n : ℕ). some (n ∷ (addr ++ (payload ++ (check ∷ []))))) hc);
            sized = sym (address_size-address_length kind) ∙ hs ∙ ap some hna;
            located = refl;
            bare = λ h5. empty payload (omega (arith, hk h5));
            summed = ap (λ (n : ℕ). (n + sum addr + sum payload + check) % 256) (sym hc) ∙ summed;
          },
          same,
        )
      where
        empty : (xs : List ℕ) → length xs ≡ 0 → xs ≡ []
        empty [] e = refl
        empty (x ∷ xs) e = absurd (omega arith)
