-- ===== src/Power/Driver.antt =====
-- software/application/power.c: the transactions with a power monitor on its I2C bus, and the rounds
-- of the task. The registers of the controller, the clock and the delay of a task are parameters.
pub mod Waits
pub mod Resets
pub mod Deadline
mod Examples
use scu35_bitcoin_lottery_mi.Base.{
  ℕ, zero, suc, ◌+◌, ◌-◌, ◌*◌, ◌/◌, ◌%◌, ◌^◌, Bool, true, false, ◌||◌, ◌&&◌, not, Option, none,
  some, List, [], ◌∷◌, leb, ltb, ◌==◌, if◌then◌else◌, u8, u32, ◌<<<◌, ◌>>>◌, bit_and, bit_or,
}
use scu35_bitcoin_lottery_mi.Power.{Bus, Ina700Sample, Sensor, power_round}

-- `rd` and `wr` by the register's offset, `xTaskGetTickCount`, and `vTaskDelay(1)`.
pub record Iic : Type 1 where
  pub State : Type 0
  pub rd : ℕ → State → ℕ × State
  pub wr : ℕ → ℕ → State → State
  pub now : State → ℕ × State
  pub delay : State → State

-- 100 ms, at `configTICK_RATE_HZ`.
abbrev pub deadline_ticks : ℕ
deadline_ticks = 100 * 100 / 1000

abbrev pub ticks_since : ℕ → ℕ → ℕ
ticks_since start t = u32 (t + 2 ^ 32 - start)

module _ (io : Iic) where
  open io use {State, rd, wr, now, delay}

  -- The rounds of the loop of `wait_status`, as many as the fuel; `start` is `deadline_start`.
  unfoldable pub deadline_loop : ℕ → ℕ → ℕ → ℕ → ℕ → State → Option (Bool × State)
  deadline_loop zero start mask expected errors s = none
  deadline_loop (suc fuel) start mask expected errors s =
      let (e, s1) = rd 0x20 s in
      let (v, s2) = rd 0x104 s1 in
      let (t, s3) = now s2 in
      let rest = deadline_loop fuel start mask expected errors (delay s3) in
      if not (bit_and e errors == 0)
      then some (false, s1)
      else if bit_and v mask == expected
      then some (true, s2)
      else if leb deadline_ticks (ticks_since start t)
      then some (false, s3)
      else rest

  -- `deadline_start`, and the rest.
  abbrev pub Driver : Type 0
  Driver = ℕ × State

  unfoldable pub settle : Driver → Option (Bool × State) → Bool × Driver
  settle d none = (false, d)
  settle d (some (done, s)) = (done, (d.0, s))

  -- `true` is a return of 0.
  unfoldable pub wait_status : ℕ → ℕ → ℕ → Driver → Bool × Driver
  unfolding settle
  wait_status mask expected errors d = settle d (deadline_loop 12 d.0 mask expected errors d.1)

  abbrev pub put : ℕ → ℕ → Driver → Driver
  put r v (start, s) = (start, wr r v s)

  -- The rest of a chain, behind a wait that ended well, and behind one that did not.
  unfoldable pub after_wait : {A : Type 0} → Bool × Driver → (Driver → A) → (Driver → A) → A
  after_wait (true, d) good bad = good d
  after_wait (false, d) good bad = bad d

  reset_controller : Driver → Driver
  reset_controller (start, s) =
      let (t, s1) = now s in
      let (pending, s2) = rd 0x20 (wr 0x100 1 (wr 0x100 3 (wr 0x120 15 (wr 0x40 10 s1)))) in
      (t, wr 0x20 pending s2)

  unfoldable pub begin : ℕ → ℕ → Driver → Bool × Driver
  unfolding reset_controller
  begin address reg d =
      after_wait (wait_status 4 0 1 (reset_controller d))
        (λ e. (true, put 0x108 reg (put 0x108 (bit_or 0x100 (address <<< 1)) e))) (λ e. (false, e))

  -- The label `fail`.
  unfoldable pub fail : {A : Type 0} → Driver → Option A × Driver
  fail d = (none, put 0x40 10 d)

  -- The loop over the bytes, in front of those that were read.
  unfoldable pub read_bytes : ℕ → (List ℕ → List ℕ) → Driver → Option (List ℕ) × Driver
  read_bytes zero got d = after_wait (wait_status 4 0 1 d) (λ e. (some (got []), e)) fail
  read_bytes (suc n) got d =
      after_wait (wait_status 0x40 0 1 d)
        (λ (start, s).
          let (v, s1) = rd 0x10c s in read_bytes n (λ rest. got (u8 v ∷ rest)) (start, s1))
        fail

  unfoldable pub read_reg : ℕ → ℕ → ℕ → Driver → Option (List ℕ) × Driver
  read_reg address reg size d =
      if size == 0 || ltb 3 size
      then fail d
      else after_wait (begin address reg d)
          (λ d1.
            after_wait (wait_status 0x80 0x80 3 d1)
              (λ d2.
                read_bytes size (λ rest. rest)
                  (put 0x108 (bit_or 0x200 size) (put 0x108 (bit_or 0x101 (address <<< 1)) d2)))
              fail)
          fail

  unfoldable pub write_reg : ℕ → ℕ → ℕ → Driver → Option (Unit {0}) × Driver
  write_reg address reg v d =
      after_wait (begin address reg d)
        (λ d1.
          after_wait
            (wait_status 0x80 0x80 3
              (put 0x108 (bit_or 0x200 (bit_and v 255)) (put 0x108 (v >>> 8) d1)))
            (λ d2. after_wait (wait_status 4 0 3 d2) (λ d3. (some tt, d3)) fail) fail)
        fail

  unfoldable pub is_done : Option (Unit {0}) × Driver → Bool × Driver
  is_done (none, d) = (false, d)
  is_done (some _, d) = (true, d)

  -- The callbacks of the power monitor.
  abbrev pub iic_bus : Bus
  iic_bus = record {
    State = Driver;
    read = read_reg;
    write = λ a r v d. is_done (write_reg a r v d);
  }

  abbrev pub Monitor : Type 0
  Monitor = Sensor iic_bus

  -- The time of a sample is read behind it.
  abbrev pub stamp_sample : Bool → Monitor × Driver → Monitor × Driver
  stamp_sample before (sensor, (start, s)) =
      let (t, s1) = now s in
      if before && sensor.ready
      then (
        record sensor { sample = record sensor.sample { sampled_ms = u32 (t * 10) } },
        (start, s1),
      )
      else (sensor, (start, s))

  unfoldable pub sensor_round : ℕ → Monitor → Driver → Monitor × Driver
  sensor_round address sensor d = stamp_sample sensor.ready (power_round iic_bus address 0 sensor d)

  -- A round of `power_task`, up to `telemetry_power`.
  unfoldable pub task_round : Monitor → Monitor → Driver → (Monitor × Monitor) × Driver
  task_round first second d =
      let (a, d1) = sensor_round 0x44 first d in
      let (b, d2) = sensor_round 0x45 second d1 in ((a, b), d2)
