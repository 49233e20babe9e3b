-- ===== src/Power.antt =====
-- software/common/ina700.c and ina700.h, and the schedule of software/application/power.c: the
-- registers of a power monitor, and when it is initialised and read. The bus is a parameter.
pub mod Sample
pub mod History
pub mod Driver
mod Examples
use scu35_bitcoin_lottery_mi.Base.{
  ℕ, zero, suc, ◌+◌, ◌-◌, ◌*◌, ◌/◌, ◌^◌, Bool, true, false, not, Option, none, some, List, [], ◌∷◌,
  at, ◌==◌, if◌then◌else◌, u32, ◌<<<◌, bit_or, bit_and,
}

-- `pos n` is n, and `negsuc n` is -(n + 1).
pub data ℤ : Type 0 where
  pos : ℕ → ℤ
  negsuc : ℕ → ℤ

abbrev pub negated : ℕ → ℤ
negated zero = pos 0
negated (suc n) = negsuc n

-- A product with a positive constant, and C's quotient by one, which cuts towards 0.
unfoldable pub times : ℤ → ℕ → ℤ
times (pos n) k = pos (n * k)
times (negsuc n) k = negated ((n + 1) * k)

unfoldable pub quotient : ℤ → ℕ → ℤ
quotient (pos n) k = pos (n / k)
quotient (negsuc n) k = negated ((n + 1) / k)

-- `sampled_ms` and `errors` are set by the power task.
pub record Ina700Sample : Type 0 where
  pub valid : Bool
  pub voltage_uv : ℕ
  pub power_uw : ℕ
  pub sampled_ms : ℕ
  pub errors : ℕ
  pub current_ua : ℤ
  pub temp_milli_c : ℤ

abbrev pub adc_config : ℕ
adc_config = 0xfb6a

unfoldable pub be16 : List ℕ → ℕ
be16 p = bit_or (at p 0 <<< 8) (at p 1)

unfoldable pub signed16 : ℕ → ℤ
signed16 v = if bit_and v 0x8000 == 0 then pos v else negated (65536 - v)

-- The four conversions of `ina700_sample_read`.
unfoldable pub voltage_of : List ℕ → ℕ
voltage_of v = u32 (be16 v * 3125)

unfoldable pub current_of : List ℕ → ℤ
current_of i = times (signed16 (be16 i)) 480

unfoldable pub temperature_of : List ℕ → ℤ
temperature_of t = times (quotient (signed16 (bit_and (be16 t) 0xfff0)) 16) 125

unfoldable pub power_of : List ℕ → ℕ
power_of p = u32 (bit_or (bit_or (at p 0 <<< 16) (at p 1 <<< 8)) (at p 2) * 96)

-- The callbacks: `read` gives the bytes, or `none` for a code other than 0.
pub record Bus : Type 1 where
  pub State : Type 0
  pub read : ℕ → ℕ → ℕ → State → Option (List ℕ) × State
  pub write : ℕ → ℕ → ℕ → State → Bool × State

module _ (bus : Bus) where
  open bus use {State, read, write}

  -- One read of a chain of `||`: the test of its bytes decides whether the chain goes on.
  checked :
      {A : Type 0}
      → Option (List ℕ) × State
      → (List ℕ → Bool)
      → (List ℕ → State → Option A × State)
      → Option A × State
  checked (none, s) test rest = (none, s)
  checked (some b, s) test rest = if test b then rest b s else (none, s)

  written : {A : Type 0} → Bool × State → (State → Option A × State) → Option A × State
  written (false, s) rest = (none, s)
  written (true, s) rest = rest s

  abbrev pub any_bytes : List ℕ → Bool
  any_bytes b = true

  unfoldable pub ina700_init : ℕ → State → Option (Unit {0}) × State
  unfolding checked written
  ina700_init address s =
      checked (read address 0x3e 2 s) (λ b. be16 b == 0x5449)
        λ _ s1.
          written (write address 1 adc_config s1)
            λ s2. checked (read address 1 2 s2) (λ b. be16 b == adc_config) λ _ s3. (some tt, s3)

  -- What the reads give, in the order of the code: voltage, temperature, current and power.
  unfoldable pub ina700_registers : ℕ → State → Option (List ℕ × List ℕ × List ℕ × List ℕ) × State
  unfolding checked
  ina700_registers address s =
      checked (read address 1 2 s) (λ b. be16 b == adc_config)
        λ _ s1.
          checked (read address 0x0b 2 s1) (λ b. bit_and (be16 b) 0x203 == 3)
            λ _ s2. checked (read address 5 2 s2) any_bytes λ v s3.
              checked (read address 6 2 s3) any_bytes λ t s4.
                checked (read address 7 2 s4) any_bytes
                  λ i s5. checked (read address 8 3 s5) any_bytes λ p s6. (some (v, t, i, p), s6)

  unfoldable pub store_sample :
      Ina700Sample
      → Option (List ℕ × List ℕ × List ℕ × List ℕ) × State
      → Bool × Ina700Sample × State
  store_sample out (none, s) = (false, record out { valid = false }, s)
  store_sample out (some (v, t, i, p), s) = (
    true,
    record out {
      valid = true;
      voltage_uv = voltage_of v;
      current_ua = current_of i;
      temp_milli_c = temperature_of t;
      power_uw = power_of p;
    },
    s,
  )

  unfoldable pub ina700_sample_read : ℕ → Ina700Sample → State → Bool × Ina700Sample × State
  ina700_sample_read address out s = store_sample out (ina700_registers address s)

  -- `samples[n]` and `ready[n]`.
  pub record Sensor : Type 0 where
    pub sample : Ina700Sample
    pub ready : Bool

  pub after_init : Sensor → Option (Unit {0}) × State → Sensor × State
  after_init sensor (some _, s) =
      (record { sample = record sensor.sample { valid = false }; ready = true }, s)
  after_init sensor (none, s) = (
    record {
      sample = record sensor.sample { valid = false; errors = u32 (sensor.sample.errors + 1) };
      ready = false;
    },
    s,
  )

  pub after_sample : ℕ → Bool × Ina700Sample × State → Sensor × State
  after_sample now_ms (true, sample, s) =
      (record { sample = record sample { sampled_ms = now_ms }; ready = true }, s)
  after_sample now_ms (false, sample, s) =
      (record { sample = record sample { errors = u32 (sample.errors + 1) }; ready = false }, s)

  -- One sensor in one round of the task, at the time that is read behind the sample.
  unfoldable pub power_round : ℕ → ℕ → Sensor → State → Sensor × State
  unfolding after_init after_sample
  power_round address now_ms sensor s =
      if not sensor.ready
      then after_init sensor (ina700_init address s)
      else after_sample now_ms
          (ina700_sample_read address (record sensor.sample { valid = false }) s)
