-- ===== src/Protocol/Rate.antt =====
-- The hash rate over a counter that wraps.
use scu35_bitcoin_lottery_mi.Base.{
  ℕ, ◌+◌, ◌-◌, ◌*◌, ◌/◌, ◌^◌, ◌≤◌, ◌<◌, ◌≡◌, ap, ◌∙◌, Bool, arith, ◌==◌, if◌then◌else◌, u32, u64,
}
use native.Mathlib.Nat.{mul-le-mul}
use scu35_bitcoin_lottery_mi.Protocol.{miner_hashrate}

product_fits : (a b : ℕ) → a < 2 ^ 32 → b < 2 ^ 32 → a * b < 2 ^ 64
product_fits a b ha hb = omega (
  arith,
  mul-le-mul {n₁ = a} {m₁ = b} {n₂ = 4294967295} {m₂ = 4294967295} (omega arith) (omega arith),
)

-- Where a 32-bit counter has counted hashes below 2 ^ 32 in at least one tick, wrapping or not, and
-- the rate fits 32 bits, the rate is hashes * tick_hz / ticks.
pub miner_hashrate-exact :
    (counter hashes ticks tick_hz : ℕ)
    → hashes < 2 ^ 32
    → tick_hz < 2 ^ 32
    → 1 ≤ ticks
    → hashes * tick_hz / ticks < 2 ^ 32
    → miner_hashrate (u32 counter) (u32 (counter + hashes)) ticks tick_hz ≡ hashes * tick_hz / ticks
unfolding miner_hashrate
miner_hashrate-exact counter hashes ticks tick_hz hh hz ht hr =
    ap
      (λ (t : Bool).
        if t
        then 0
        else u32 (u64 (u32 (u32 (counter + hashes) + 2 ^ 32 - u32 counter) * tick_hz) / ticks))
      {x = ticks == 0} {y = Bool.false} (ground arith)
    ∙ ap (λ n. u32 (u64 (n * tick_hz) / ticks)) difference
    ∙ ap (λ n. u32 (n / ticks)) whole
    ∙ omega (arith, hr)
  where
    difference : u32 (u32 (counter + hashes) + 2 ^ 32 - u32 counter) ≡ hashes
    difference = omega (arith, hh)

    whole : u64 (hashes * tick_hz) ≡ hashes * tick_hz
    whole = omega (arith, product_fits hashes tick_hz hh hz)
