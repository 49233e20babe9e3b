-- ===== src/Srec/Phases.antt =====
-- The three phases of the loop of `srec_parse`: address bytes, payload, check byte.
use scu35_bitcoin_lottery_mi.Base.{
  ℕ, zero, suc, ◌+◌, ◌-◌, ◌%◌, ◌^◌, ◌≤◌, ◌<◌, ◌≡◌, refl, sym, ◌∙◌, List, [], ◌∷◌, ◌++◌, arith,
  length, length-append, All, ap, u32, drop, set, ◌==◌, if◌then◌else◌, append_assoc,
}
use scu35_bitcoin_lottery_mi.Srec.{SrecRecord, accepted, rejected, continue, after_byte, store}
use scu35_bitcoin_lottery_mi.Srec.Absorb.{
  absorb, total_from, address_from, total_from-sum, address_from-big_endian,
}
use scu35_bitcoin_lottery_mi.Srec.Format.{big_endian, sum, IsByte}

set-append_at {ℓ} :
    {A : Type ℓ} (xs ys : List A) (x v : A) (n : ℕ)
    → n ≡ length xs
    → set (xs ++ (x ∷ ys)) n v ≡ xs ++ (v ∷ ys)
set-append_at [] ys x v zero h = refl
set-append_at [] ys x v (suc n) h = absurd (omega arith)
set-append_at (y ∷ xs) ys x v zero h = absurd (omega arith)
set-append_at (y ∷ xs) ys x v (suc n) h = ap (λ t. y ∷ t) (set-append_at xs ys x v n (omega arith))

module _ (naddr count : ℕ) where
  address_step :
      (v : ℕ) (vs : List ℕ) (i total : ℕ) (r : SrecRecord)
      → i < naddr
      → absorb naddr count (v ∷ vs) i total r
        ≡ absorb naddr count vs
            (i + 1)
            (u32 (total + v))
            (record r { address = address_from r.address (v ∷ []) })
  unfolding absorb after_byte store continue address_from
  address_step v vs i total r h = ground arith

  payload_step :
      (v : ℕ) (vs : List ℕ) (i total : ℕ) (r : SrecRecord)
      → naddr ≤ i
      → i + 1 < count
      → i - naddr < length r.bytes
      → absorb naddr count (v ∷ vs) i total r
        ≡ absorb naddr count vs
            (i + 1)
            (u32 (total + v))
            (record r { bytes = set r.bytes (i - naddr) v })
  unfolding absorb after_byte store continue
  payload_step v vs i total r h k l = ground arith

  check_step :
      (v : ℕ) (vs : List ℕ) (i total : ℕ) (r : SrecRecord)
      → naddr ≤ i
      → i + 1 ≡ count
      → absorb naddr count (v ∷ vs) i total r ≡ absorb naddr count vs (i + 1) (u32 (total + v)) r
  unfolding absorb after_byte store continue
  check_step v vs i total r h k = ground arith

  absorb-address :
      (vs more : List ℕ) (i j total : ℕ) (r : SrecRecord)
      → i + length vs ≡ j
      → j ≤ naddr
      → absorb naddr count (vs ++ more) i total r
        ≡ absorb naddr count more j
            (total_from total vs)
            (record r { address = address_from r.address vs })
  unfolding total_from address_from
  absorb-address [] more i j total r hj hn =
      ap (λ k. absorb naddr count more k total r) (omega arith)
  absorb-address (v ∷ vs) more i j total r hj hn =
      address_step v (vs ++ more) i total r (omega arith)
      ∙ absorb-address vs more (i + 1) j (u32 (total + v))
          (record r { address = address_from r.address (v ∷ []) }) (omega arith) hn

  absorb-payload :
      (vs more front back : List ℕ) (i j total : ℕ) (r : SrecRecord)
      → naddr + length front ≡ i
      → i + length vs ≡ j
      → j < count
      → length vs ≤ length back
      → absorb naddr count (vs ++ more) i total (record r { bytes = front ++ back })
        ≡ absorb naddr count more j
            (total_from total vs)
            (record r { bytes = front ++ (vs ++ drop (length vs) back) })
  unfolding total_from
  absorb-payload [] more front back i j total r hi hj hc hb =
      ap (λ k. absorb naddr count more k total (record r { bytes = front ++ back })) (omega arith)
  absorb-payload (v ∷ vs) more front [] i j total r hi hj hc hb = absurd (omega arith)
  absorb-payload (v ∷ vs) more front (x ∷ back) i j total r hi hj hc hb =
      payload_step v (vs ++ more) i total (record r { bytes = front ++ (x ∷ back) }) (omega arith)
        (omega arith) (omega (arith, length-append front (x ∷ back)))
      ∙ ap
          (λ (bs : List ℕ).
            absorb naddr count (vs ++ more) (i + 1) (u32 (total + v)) (record r { bytes = bs }))
          (set-append_at front back x v (i - naddr) (omega arith)
            ∙ sym (append_assoc front (v ∷ []) back))
      ∙ absorb-payload vs more (front ++ (v ∷ [])) back (i + 1) j (u32 (total + v)) r
          (omega (arith, length-append front (v ∷ []))) (omega arith) hc (omega arith)
      ∙ ap
          (λ (bs : List ℕ).
            absorb naddr count more j (total_from (u32 (total + v)) vs) (record r { bytes = bs }))
          (append_assoc front (v ∷ []) (vs ++ drop (length vs) back))

  finish :
      (j total expected : ℕ) (r : SrecRecord)
      → total % 256 ≡ expected % 256
      → absorb naddr count [] j total r ≡ (if expected % 256 == 255 then accepted r else rejected r)
  unfolding absorb
  finish j total expected r e = ap (λ t. if t == 255 then accepted r else rejected r) e

pow-le : (n : ℕ) → n ≤ 4 → 256 ^ n ≤ 2 ^ 32
pow-le zero h = omega arith
pow-le (suc zero) h = omega arith
pow-le (suc (suc zero)) h = omega arith
pow-le (suc (suc (suc zero))) h = omega arith
pow-le (suc (suc (suc (suc zero)))) h = omega arith
pow-le (suc (suc (suc (suc (suc n))))) h = absurd (omega arith)

-- What the record holds once the loop has stored an address and a payload.
abbrev pub filled : List ℕ → List ℕ → SrecRecord → SrecRecord
filled addr payload r = record r {
  address = big_endian 0 addr;
  bytes = payload ++ drop (length payload) r.bytes;
}

-- The loop over a whole record: the address, the payload over the old data, and the sum's test.
pub absorb-record :
    (addr payload : List ℕ) (check count : ℕ) (r : SrecRecord)
    → count ≡ length addr + length payload + 1
    → length addr ≤ 4
    → length payload ≤ length r.bytes
    → All IsByte addr
    → absorb
        (length addr)
        count
        (addr ++ (payload ++ (check ∷ [])))
        0
        count
        (record r { address = 0 })
      ≡ (if (count + sum addr + sum payload + check) % 256 == 255
          then accepted (filled addr payload r)
          else rejected (filled addr payload r))
absorb-record addr payload check count r hc ha hp hb =
    let n = length addr in
    let t = total_from count addr in
    let t' = total_from t payload in
    let located : address_from 0 addr ≡ big_endian 0 addr =
      address_from-big_endian addr 0 (omega (arith, pow-le n ha)) hb in
    absorb-address n count addr (payload ++ (check ∷ [])) 0 n count (record r { address = 0 })
      (omega arith) (omega arith)
    ∙ ap (λ (a : ℕ). absorb n count (payload ++ (check ∷ [])) n t (record r { address = a }))
        located
    ∙ absorb-payload n count payload (check ∷ []) [] r.bytes n (n + length payload) t
        (record r { address = big_endian 0 addr }) (omega arith) refl (omega arith) hp
    ∙ check_step n count check [] (n + length payload) t' (filled addr payload r) (omega arith)
        (omega arith)
    ∙ finish n count (n + length payload + 1) (u32 (t' + check))
        (count + sum addr + sum payload + check) (filled addr payload r)
        (omega (arith, total_from-sum addr count, total_from-sum payload t))
