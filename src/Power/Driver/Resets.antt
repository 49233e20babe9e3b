-- ===== src/Power/Driver/Resets.antt =====
-- What a transaction of power.c leaves behind when it fails.
use scu35_bitcoin_lottery_mi.Base.{
  ℕ, zero, suc, Bool, true, false, ◌||◌, Option, none, some, List, [], ◌∷◌, ◌==◌, ltb, u8, by_test,
}
use scu35_bitcoin_lottery_mi.Power.Driver.{
  Iic, Driver, put, after_wait, fail, read_bytes, read_reg, write_reg,
}

module _ (io : Iic) where
  open io use {State, rd}

  -- The last step before an error is the reset of the controller.
  pub data Released {A : Type 0} : Option A × Driver io → Type 0 where
    fine : (a : A) (d : Driver io) → Released (some a, d)
    reset : (d : Driver io) → Released (none, put io 0x40 10 d)

  after_wait-Released :
      {A : Type 0} (w : Bool × Driver io) (good bad : Driver io → Option A × Driver io)
      → ((d : Driver io) → Released (good d))
      → ((d : Driver io) → Released (bad d))
      → Released (after_wait io w good bad)
  unfolding after_wait
  after_wait-Released (true, d) good bad g b = g d
  after_wait-Released (false, d) good bad g b = b d

  fail-Released : {A : Type 0} (d : Driver io) → Released {A = A} (fail io d)
  unfolding fail
  fail-Released d = reset d

  read_bytes-Released :
      (n : ℕ) (got : List ℕ → List ℕ) (d : Driver io) → Released (read_bytes io n got d)
  unfolding read_bytes
  read_bytes-Released zero got d = after_wait-Released _ _ _ (λ e. fine (got []) e) fail-Released
  read_bytes-Released (suc n) got d =
      after_wait-Released _ _ _
        (λ (start, s).
          read_bytes-Released n (λ rest. got (u8 (rd 0x10c s).0 ∷ rest)) (start, (rd 0x10c s).1))
        fail-Released

  -- A read or a write of a register that fails, for whatever reason, has reset the controller as
  -- its last step.
  pub read_reg-Released :
      (address reg size v : ℕ) (d : Driver io)
      → Released (read_reg io address reg size d) × Released (write_reg io address reg v d)
  unfolding read_reg write_reg
  read_reg-Released address reg size v d = (
    by_test Released (size == 0 || ltb 3 size) _ _ (λ e. fail-Released d)
        (λ e.
          after_wait-Released _ _ _
            (λ d1.
              after_wait-Released _ _ _ (λ d2. read_bytes-Released size (λ rest. rest) _)
                fail-Released)
            fail-Released),
    after_wait-Released _ _ _
        (λ d1.
          after_wait-Released _ _ _
            (λ d2. after_wait-Released _ _ _ (λ d3. fine tt d3) fail-Released) fail-Released)
        fail-Released,
  )
