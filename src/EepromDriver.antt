-- ===== src/EepromDriver.antt =====
-- software/application/eeprom.c: the EEPROM on its I2C bus. The registers of the controller and the
-- delay of a task are parameters.
pub mod Pages
pub mod Reads
mod Examples
use scu35_bitcoin_lottery_mi.Base.{
  ℕ, zero, suc, ◌+◌, ◌-◌, ◌*◌, ◌/◌, ◌^◌, Bool, true, false, ◌||◌, not, Option, none, some, List, [],
  ◌∷◌, ◌++◌, length, take, drop, ltb, ◌==◌, if◌then◌else◌, u8, u16, ◌>>>◌, bit_and, bit_or,
}

-- `rd` and `wr` by the register's offset, and `vTaskDelay` for the time of a write cycle.
pub record Controller : Type 1 where
  pub State : Type 0
  pub rd : ℕ → State → ℕ × State
  pub wr : ℕ → ℕ → State → State
  pub delay : State → State

module _ (io : Controller) where
  open io use {State, rd, wr, delay}

  poll : ℕ → ℕ → ℕ → ℕ → State → Bool × State
  poll zero r mask expected s = (false, s)
  poll (suc left) r mask expected s =
      let (v, s') = rd r s in
      let rest = poll left r mask expected s' in
      if bit_and v mask == expected then (true, s') else rest

  -- `true` is a return of 0.
  unfoldable pub wait_status : ℕ → ℕ → State → Bool × State
  unfolding poll
  wait_status mask expected s = poll 100000 0x104 mask expected s

  -- The rest of a chain, once a wait has ended well.
  pub waited : {A : Type 0} → Bool × State → (State → A) → (State → A) → A
  waited (true, s) good bad = good s
  waited (false, s) good bad = bad s

  set_up : ℕ → State → Bool × State
  set_up address s =
      let (pending, s1) = rd 0x20 (wr 0x100 1 (wr 0x100 3 (wr 0x120 15 (wr 0x40 10 s)))) in
      (
        true,
        wr 0x108 (bit_and address 255)
            (wr 0x108 (address >>> 8) (wr 0x108 0x1a0 (wr 0x20 pending s1))),
      )

  unfoldable pub start : ℕ → State → Bool × State
  unfolding waited set_up
  start address s = waited (wait_status 4 0 s) (set_up address) (λ s'. (false, s'))

  abandon : State → Bool × State
  abandon s = (false, wr 0x40 10 s)

  unfoldable pub finish : State → Bool × State
  unfolding waited abandon
  finish s =
      waited (wait_status 0x80 0x80 s)
        (λ s1.
          waited (wait_status 4 0 s1)
            (λ s2. let (v, s3) = rd 0x20 s2 in if bit_and v 3 == 0 then (true, s3) else abandon s3)
            abandon)
        abandon

  -- The loop over the bytes of a page; the last one carries the stop bit.
  unfoldable pub send_bytes : List ℕ → State → Bool × State
  unfolding waited abandon
  send_bytes [] s = (true, s)
  send_bytes (b ∷ bs) s =
      let stop = if length bs == 0 then 0x200 else 0 in
      waited (wait_status 0x10 0 s) (λ s'. send_bytes bs (wr 0x108 (bit_or b stop) s')) abandon

  -- One round of the loop of `eeprom_write`.
  unfoldable pub write_page : ℕ → List ℕ → State → Bool × State
  unfolding waited
  write_page address bytes s =
      waited (start address s)
        (λ s1.
          waited (send_bytes bytes s1)
            (λ s2. waited (finish s2) (λ s3. (true, delay s3)) (λ s3. (false, s3)))
            (λ s2. (false, s2)))
        (λ s1. (false, s1))

  -- How many of `size` bytes go into the page of an address.
  unfoldable pub page_part : ℕ → ℕ → ℕ
  page_part address size = let n = 32 - bit_and address 31 in if ltb size n then size else n

  pub next_page : Bool × State → (State → Option (Bool × State)) → Option (Bool × State)
  next_page (true, s) rest = rest s
  next_page (false, s) rest = some (false, s)

  -- The loop; `none` is a loop that has not ended after `fuel` rounds.
  unfoldable pub write_loop : ℕ → ℕ → List ℕ → State → Option (Bool × State)
  unfolding next_page
  write_loop fuel address [] s = some (true, s)
  write_loop zero address (b ∷ bs) s = none
  write_loop (suc fuel) address (b ∷ bs) s =
      let n = page_part address (length (b ∷ bs)) in
      next_page (write_page address (take n (b ∷ bs)) s)
        (λ s'. write_loop fuel (u16 (address + n)) (drop n (b ∷ bs)) s')

  -- Outside the two slots of the settings nothing is written.
  unfoldable pub eeprom_write : ℕ → List ℕ → State → Option (Bool × State)
  eeprom_write address bytes s =
      if ltb address 0x1000 || ltb 0x1400 (address + length bytes)
      then some (false, s)
      else write_loop (length bytes) address bytes s

  pub prepend : ℕ → Option (List ℕ) × State → Option (List ℕ) × State
  prepend b (none, s) = (none, s)
  prepend b (some bs, s) = (some (b ∷ bs), s)

  -- `none`, once the controller is reset.
  pub refuse : State → Option (List ℕ) × State
  refuse s = (none, wr 0x40 10 s)

  -- The loop over the bytes of a part.
  unfoldable pub receive_bytes : ℕ → State → Option (List ℕ) × State
  unfolding waited refuse
  receive_bytes zero s = (some [], s)
  receive_bytes (suc left) s =
      waited (wait_status 0x40 0 s)
        (λ s1. let (v, s2) = rd 0x10c s1 in prepend (u8 v) (receive_bytes left s2)) refuse

  -- The tests behind the bytes.
  unfoldable pub end_part : Option (List ℕ) × State → Option (List ℕ) × State
  unfolding waited refuse
  end_part (none, s) = (none, s)
  end_part (some bs, s) =
      waited (wait_status 4 0 s)
        (λ s1. let (v, s2) = rd 0x20 s1 in if bit_and v 1 == 0 then (some bs, s2) else refuse s2)
        refuse

  -- One round of the loop of `eeprom_read`.
  unfoldable pub read_part : ℕ → ℕ → State → Option (List ℕ) × State
  unfolding waited
  read_part address n s =
      waited (start address s)
        (λ s1. end_part (receive_bytes n (wr 0x108 (bit_or 0x200 n) (wr 0x108 0x1a1 s1))))
        (λ s1. (none, s1))

  pub join_part :
      Option (List ℕ) × State
      → (State → Option (Option (List ℕ) × State))
      → Option (Option (List ℕ) × State)
  join_part (none, s) rest = some (none, s)
  join_part (some bs, s) rest = elim (rest s) [
    | none ↦ none
    | some result ↦ elim (result.0) [
      | none ↦ some (none, result.1)
      | some more ↦ some (some (bs ++ more), result.1)
    ]
  ]

  -- The loop, with `size` bytes to go; the outer `none` is a loop that has not ended on its fuel.
  unfoldable pub read_loop : ℕ → ℕ → ℕ → State → Option (Option (List ℕ) × State)
  read_loop fuel address zero s = some (some [], s)
  read_loop zero address (suc k) s = none
  read_loop (suc fuel) address (suc k) s =
      let n = if ltb 16 (k + 1) then 16 else k + 1 in
      join_part (read_part address n s) (λ s'. read_loop fuel (u16 (address + n)) (k + 1 - n) s')

  unfoldable pub eeprom_read : ℕ → ℕ → State → Option (Option (List ℕ) × State)
  eeprom_read address size s =
      if ltb 8192 (address + size) then some (none, s) else read_loop size address size s
