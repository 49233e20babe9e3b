-- ===== src/EepromDriver/Reads.antt =====
-- A read ends, and gives as many bytes as were asked for.
use scu35_bitcoin_lottery_mi.Base.{
  ℕ, zero, suc, ◌+◌, ◌-◌, ◌≤◌, ◌<◌, ◌≡◌, refl, sym, subst, ap, Bool, true, false, Bool-cases, inl,
  inr, Option, none, some, List, ◌++◌, arith, length, length-append, Bytes, Bytes-append, ltb, ◌==◌,
  if◌then◌else◌, u8, u16, bit_and, bit_or,
}
use scu35_bitcoin_lottery_mi.EepromDriver.{
  Controller, waited, wait_status, start, prepend, refuse, receive_bytes, end_part, read_part,
  join_part, read_loop, eeprom_read,
}

module _ (io : Controller) where
  open io use {State, rd, wr}

  -- A failure, or `n` bytes.
  abbrev pub IsPart : ℕ → Option (List ℕ) × State → Type 0
  IsPart n (none, s) = Unit {0}
  IsPart n (some bs, s) = (length bs ≡ n) × Bytes bs

  -- An ended loop whose result is one.
  abbrev pub EndsWith : ℕ → Option (Option (List ℕ) × State) → Type 0
  EndsWith n none = ⊥
  EndsWith n (some r) = IsPart n r

  waited-IsPart :
      (n : ℕ) (w : Bool × State) (good bad : State → Option (List ℕ) × State)
      → ((s : State) → IsPart n (good s))
      → ((s : State) → IsPart n (bad s))
      → IsPart n (waited io w good bad)
  unfolding waited
  waited-IsPart n (true, s) good bad g b = g s
  waited-IsPart n (false, s) good bad g b = b s

  prepend-IsPart :
      (n v : ℕ) (r : Option (List ℕ) × State)
      → v < 256
      → IsPart n r
      → IsPart (suc n) (prepend io v r)
  unfolding prepend
  prepend-IsPart n v (none, s) hv h = tt
  prepend-IsPart n v (some bs, s) hv (long, bytes) = (ap suc long, (hv, bytes))

  refuse-IsPart : (n : ℕ) (s : State) → IsPart n (refuse io s)
  unfolding refuse
  refuse-IsPart n s = tt

  receive_bytes-IsPart : (left : ℕ) (s : State) → IsPart left (receive_bytes io left s)
  unfolding receive_bytes
  receive_bytes-IsPart zero s = (refl, tt)
  receive_bytes-IsPart (suc left) s =
      waited-IsPart (suc left) (wait_status io 0x40 0 s) _ (refuse io)
        (λ s1.
          prepend-IsPart left (u8 (rd 0x10c s1).0) (receive_bytes io left (rd 0x10c s1).1)
            (omega arith) (receive_bytes-IsPart left (rd 0x10c s1).1))
        (refuse-IsPart (suc left))

  if_IsPart :
      (n : ℕ) (t : Bool) (x y : Option (List ℕ) × State)
      → IsPart n x
      → IsPart n y
      → IsPart n (if t then x else y)
  if_IsPart n true x y hx hy = hx
  if_IsPart n false x y hx hy = hy

  end_part-IsPart : (n : ℕ) (r : Option (List ℕ) × State) → IsPart n r → IsPart n (end_part io r)
  unfolding end_part
  end_part-IsPart n (none, s) h = tt
  end_part-IsPart n (some bs, s) h =
      waited-IsPart n (wait_status io 4 0 s) _ (refuse io)
        (λ s1.
          if_IsPart n (bit_and (rd 0x20 s1).0 1 == 0) (some bs, (rd 0x20 s1).1) _ h
            (refuse-IsPart n (rd 0x20 s1).1))
        (refuse-IsPart n)

  read_part-IsPart : (address n : ℕ) (s : State) → IsPart n (read_part io address n s)
  unfolding read_part
  read_part-IsPart address n s =
      waited-IsPart n (start io address s) _ _
        (λ s1.
          end_part-IsPart n (receive_bytes io n (wr 0x108 (bit_or 0x200 n) (wr 0x108 0x1a1 s1)))
            (receive_bytes-IsPart n _))
        (λ s1. tt)

  join_part-EndsWith :
      (n m : ℕ) (r : Option (List ℕ) × State) (rest : State → Option (Option (List ℕ) × State))
      → IsPart n r
      → ((s : State) → EndsWith m (rest s))
      → EndsWith (n + m) (join_part io r rest)
  unfolding join_part
  join_part-EndsWith n m (none, s) rest h k = tt
  join_part-EndsWith n m (some bs, s) rest h k = joined (rest s) (k s)
    where
      joined :
          (o : Option (Option (List ℕ) × State))
          → EndsWith m o
          → EndsWith (n + m) (elim o [
            | none ↦ none
            | some result ↦ elim (result.0) [
              | none ↦ some (none, result.1)
              | some more ↦ some (some (bs ++ more), result.1)
            ]
          ])
      joined none q = q
      joined (some (none, s')) q = tt
      joined (some (some more, s')) (long, bytes) =
          (omega (arith, length-append bs more, h.0, long), Bytes-append bs more h.1 bytes)

  read_loop-EndsWith :
      (fuel address size : ℕ) (s : State)
      → size ≤ fuel
      → EndsWith size (read_loop io fuel address size s)
  unfolding read_loop
  read_loop-EndsWith fuel address zero s h = (refl, tt)
  read_loop-EndsWith zero address (suc k) s h = absurd (omega arith)
  read_loop-EndsWith (suc fuel) address (suc k) s h =
      let n = if ltb 16 (k + 1) then 16 else k + 1 in
      let least : 1 ≤ n = ground arith in
      let most : n ≤ k + 1 = ground arith in
      subst
        (λ (m : ℕ). EndsWith m (
          join_part io (read_part io address n s)
            (λ s'. read_loop io fuel (u16 (address + n)) (k + 1 - n) s')))
        {x = n + (k + 1 - n)} {y = suc k} (omega (arith, most))
        (join_part-EndsWith n (k + 1 - n) (read_part io address n s) _
          (read_part-IsPart address n s)
          λ s'.
            read_loop-EndsWith fuel (u16 (address + n)) (k + 1 - n) s' (omega (arith, h, least)))

  -- Every read ends, with a failure or with as many bytes, each below 256, as were asked for.
  pub eeprom_read-EndsWith :
      (address size : ℕ) (s : State) → EndsWith size (eeprom_read io address size s)
  unfolding eeprom_read
  eeprom_read-EndsWith address size s = elim (Bool-cases (ltb 8192 (address + size))) [
    | inl over ↦
        subst
          (λ (t : Bool).
            EndsWith size (if t then some (none, s) else read_loop io size address size s))
          (sym over) tt
    | inr inside ↦
        subst
          (λ (t : Bool).
            EndsWith size (if t then some (none, s) else read_loop io size address size s))
          (sym inside) (read_loop-EndsWith size address size s (omega arith))
  ]
