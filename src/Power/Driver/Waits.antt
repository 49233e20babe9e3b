-- ===== src/Power/Driver/Waits.antt =====
-- The waits of power.c end by their deadline.
use scu35_bitcoin_lottery_mi.Base.{
  ℕ, zero, suc, ◌+◌, ◌*◌, ◌%◌, ◌^◌, ◌≤◌, ◌<◌, ◌≡◌, refl, Bool, true, false, not, Option, some, leb,
  ◌==◌, u32, bit_and, by_test, arith,
}
use scu35_bitcoin_lottery_mi.Power.Driver.{
  Iic, Driver, deadline_loop, wait_status, ticks_since, deadline_ticks, settle,
}

-- `time` is the number of ticks so far, which the tick count wraps. A call takes `longest` at most,
-- and the delay of a task lasts a tick at least.
pub record Timed (io : Iic) (time : io.State → ℕ) (longest : ℕ) : Type 0 where
  pub counted : (s : io.State) → (io.now s).0 ≡ time (io.now s).1 % 2 ^ 32
  pub now_time :
      (s : io.State) → (time s ≤ time (io.now s).1) × (time (io.now s).1 ≤ time s + longest)
  pub rd_time :
      (r : ℕ) (s : io.State)
      → (time s ≤ time (io.rd r s).1) × (time (io.rd r s).1 ≤ time s + longest)
  pub wr_time :
      (r v : ℕ) (s : io.State)
      → (time s ≤ time (io.wr r v s)) × (time (io.wr r v s) ≤ time s + longest)
  pub delay_time :
      (s : io.State) → (time s < time (io.delay s)) × (time (io.delay s) ≤ time s + longest)

module _ (io : Iic) (time : io.State → ℕ) (longest : ℕ) (clock : Timed io time longest) where
  open io use {State, rd, now, delay}

  -- A result, no later than at `limit`.
  pub record Ends (begun limit : ℕ) (o : Option (Bool × State)) : Type 0 where
    pub done : Bool
    pub state : State
    pub result : o ≡ some (done, state)
    pub behind : begun ≤ time state
    pub soon : time state ≤ limit

  -- The state behind the two registers and the clock.
  looked : State → State
  looked s = (now (rd 0x104 (rd 0x20 s).1).1).1

  looked_time : (s : State) → (time s ≤ time (looked s)) × (time (looked s) ≤ time s + 3 * longest)
  unfolding looked
  looked_time s =
      let s1 = (rd 0x20 s).1 in
      let s2 = (rd 0x104 s1).1 in
      let (r1, r1') = clock.rd_time 0x20 s in
      let (r2, r2') = clock.rd_time 0x104 s1 in
      let (r3, r3') = clock.now_time s2 in (omega arith, omega arith)

  early :
      (begun t n : ℕ)
      → n ≡ t % 2 ^ 32
      → begun ≤ t
      → t < begun + 2 ^ 32
      → leb deadline_ticks (ticks_since (u32 begun) n) ≡ false
      → t < begun + 10
  early begun t n e a b l = ground (arith, l, e)

  deadline_round :
      (fuel m begun mask expected errors : ℕ) (s : State)
      → begun ≤ time s
      → time s ≤ m
      → m + 3 * longest < begun + 2 ^ 32
      → (time (looked s) < begun + 10
          → Ends begun
              (m + 3 * longest)
              (deadline_loop io fuel (u32 begun) mask expected errors (delay (looked s))))
      → Ends begun
          (m + 3 * longest)
          (deadline_loop io (suc fuel) (u32 begun) mask expected errors s)
  unfolding deadline_loop looked looked_time
  deadline_round fuel m begun mask expected errors s a b d rest =
      let s1 = (rd 0x20 s).1 in
      let s2 = (rd 0x104 s1).1 in
      let s3 = (now s2).1 in
      let (r1, r1') = clock.rd_time 0x20 s in
      let (r2, r2') = clock.rd_time 0x104 s1 in
      let (r3, r3') = clock.now_time s2 in
      let P = Ends begun (m + 3 * longest) in
      by_test P (not (bit_and (rd 0x20 s).0 errors == 0)) _ _
        (λ t. record {
          done = false;
          state = s1;
          result = refl;
          behind = omega arith;
          soon = omega arith;
        })
        (λ t.
          by_test P (bit_and (rd 0x104 s1).0 mask == expected) _ _
            (λ t. record {
              done = true;
              state = s2;
              result = refl;
              behind = omega arith;
              soon = omega arith;
            })
            (λ t.
              by_test P (leb deadline_ticks (ticks_since (u32 begun) (now s2).0)) _ _
                (λ t. record {
                  done = false;
                  state = s3;
                  result = refl;
                  behind = omega arith;
                  soon = omega arith;
                })
                (λ t. rest (
                  early begun (time s3) (now s2).0 (clock.counted s2) (omega arith) (omega arith)
                    t))))

  pub deadline_loop-Ends :
      (fuel m begun mask expected errors : ℕ) (s : State)
      → begun ≤ time s
      → time s ≤ m
      → begun + 10 + longest ≤ m
      → m + 3 * longest < begun + 2 ^ 32
      → begun + 10 < suc fuel + time s
      → Ends begun
          (m + 3 * longest)
          (deadline_loop io (suc fuel) (u32 begun) mask expected errors s)
  deadline_loop-Ends zero m begun mask expected errors s a b c d e =
      let (later, _) = looked_time s in
      deadline_round zero m begun mask expected errors s a b d (λ t. absurd (omega arith))
  deadline_loop-Ends (suc fuel) m begun mask expected errors s a b c d e =
      let (later, _) = looked_time s in
      let (more, most) = clock.delay_time (looked s) in
      deadline_round (suc fuel) m begun mask expected errors s a b d (λ t.
        deadline_loop-Ends fuel m begun mask expected errors (delay (looked s)) (omega arith)
          (omega arith) c d (omega arith))

  -- What the loop gives before its fuel is used up, with the same start and no later than `limit`.
  pub record Waited (limit begun mask expected errors : ℕ) (s : State) (w : Bool × Driver io)
      : Type 0 where
    pub ran : deadline_loop io 12 (u32 begun) mask expected errors s ≡ some (w.0, w.1.1)
    pub same_start : w.1.0 ≡ u32 begun
    pub behind : begun ≤ time w.1.1
    pub in_time : time w.1.1 ≤ limit

  -- On a clock of ticks that no call advances by more than `longest`, and a delay by one at least:
  -- a wait from `begun` on, which starts no later than `m`, with `m` at least `begun + 10 +
  -- longest` and below `begun + 2 ^ 32 - 3 * longest`, gives what its loop gives within twelve
  -- rounds, keeps its start, and ends no later than at `m + 3 * longest`, also where the tick count
  -- wraps.
  pub wait_status-Waited :
      (m begun mask expected errors : ℕ) (s : State)
      → begun ≤ time s
      → time s ≤ m
      → begun + 10 + longest ≤ m
      → m + 3 * longest < begun + 2 ^ 32
      → Waited
          (m + 3 * longest)
          begun
          mask
          expected
          errors
          s
          (wait_status io mask expected errors (u32 begun, s))
  unfolding wait_status settle
  wait_status-Waited m begun mask expected errors s a b c d =
      let ended = deadline_loop-Ends 11 m begun mask expected errors s a b c d (omega arith) in
      rw ended.result (record {
        ran = ended.result;
        same_start = refl;
        behind = ended.behind;
        in_time = ended.soon;
      })
