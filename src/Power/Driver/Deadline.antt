-- ===== src/Power/Driver/Deadline.antt =====
-- The whole transactions of power.c end by their deadline.
use scu35_bitcoin_lottery_mi.Base.{
  ℕ, zero, suc, ◌+◌, ◌*◌, ◌^◌, ◌≤◌, ◌<◌, ◌≡◌, sym, subst, Bool, true, false, ◌||◌, Option, List,
  ◌∷◌, ltb, ◌==◌, u8, u32, bit_and, bit_or, ◌<<<◌, ◌>>>◌, by_test, arith,
}
use native.Mathlib.Nat.{mul-le-mul_right}
use scu35_bitcoin_lottery_mi.Power.Driver.{
  Iic, Driver, put, after_wait, begin, reset_controller, wait_status, fail, read_bytes, read_reg,
  write_reg,
}
use scu35_bitcoin_lottery_mi.Power.Driver.Waits.{Timed, wait_status-Waited}

module _ (io : Iic) (time : io.State → ℕ) (longest : ℕ) (clock : Timed io time longest) where
  open io use {State, rd, wr, now}

  -- In a transaction from `begun` on, at the latest at `m`.
  record On (begun m : ℕ) (d : Driver io) : Type 0 where
    same_start : d.0 ≡ u32 begun
    behind : begun ≤ time d.1
    in_time : time d.1 ≤ m

  wait-On :
      (begun m mask expected errors : ℕ) (d : Driver io)
      → On begun m d
      → begun + 10 + longest ≤ m
      → m + 3 * longest < begun + 2 ^ 32
      → On begun (m + 3 * longest) (wait_status io mask expected errors d).1
  wait-On begun m mask expected errors (start, s) on a b =
      let w =
        wait_status-Waited io time longest clock m begun mask expected errors s on.behind on.in_time
          a b in
      let same : ℕ → Type 0 =
        λ start. On begun (m + 3 * longest) (wait_status io mask expected errors (start, s)).1 in
      subst same (sym on.same_start)
        (record { same_start = w.same_start; behind = w.behind; in_time = w.in_time })

  put-On : (begun m r v : ℕ) (d : Driver io) → On begun m d → On begun (m + longest) (put io r v d)
  put-On begun m r v (start, s) on =
      let (later, soon) = clock.wr_time r v s in
      record {
        same_start = on.same_start;
        behind = omega (arith, on.behind);
        in_time = omega (arith, on.in_time);
      }

  puts-On :
      (begun m q u r v : ℕ) (d : Driver io)
      → On begun m d
      → On begun (m + 2 * longest) (put io r v (put io q u d))
  puts-On begun m q u r v d on =
      let first = put-On begun m q u d on in
      let second = put-On begun (m + longest) r v (put io q u d) first in
      record {
        same_start = second.same_start;
        behind = second.behind;
        in_time = omega (arith, second.in_time);
      }

  widen : (begun m n : ℕ) (d : Driver io) → On begun m d → m ≤ n → On begun n d
  widen begun m n d on h = record {
    same_start = on.same_start;
    behind = on.behind;
    in_time = omega (arith, on.in_time);
  }

  after_wait-On :
      {A : Type 0} (P : A → Type 0) (begun m : ℕ) (w : Bool × Driver io) (good bad : Driver io → A)
      → On begun m w.1
      → ((d : Driver io) → On begun m d → P (good d))
      → ((d : Driver io) → On begun m d → P (bad d))
      → P (after_wait io w good bad)
  unfolding after_wait
  after_wait-On P begun m (true, d) good bad on g b = g d on
  after_wait-On P begun m (false, d) good bad on g b = b d on

  abbrev pub Soon : {A : Type 0} → ℕ → Option A × Driver io → Type 0
  Soon n r = time r.1.1 ≤ n

  fail-On :
      (A : Type 0) (begun m n : ℕ) (d : Driver io)
      → m + longest ≤ n
      → On begun m d
      → Soon n (fail io {A = A} d)
  unfolding fail
  fail-On A begun m n d h on = omega (arith, (put-On begun m 0x40 10 d on).in_time)

  read_bytes-On :
      (begun m n size : ℕ) (got : List ℕ → List ℕ) (d : Driver io)
      → On begun m d
      → begun + 10 + longest ≤ m
      → m + 4 * size * longest + 4 * longest ≤ n
      → n < begun + 2 ^ 32
      → Soon n (read_bytes io size got d)
  unfolding read_bytes
  read_bytes-On begun m n zero got d on a b c =
      after_wait-On (Soon n) begun (m + 3 * longest) _ _ _
        (wait-On begun m 4 0 1 d on a (omega arith)) (λ e f. omega (arith, f.in_time))
        (λ e f. fail-On (List ℕ) begun (m + 3 * longest) n e (omega arith) f)
  read_bytes-On begun m n (suc size) got d on a b c =
      let room : m + 4 * longest + 4 * size * longest + 4 * longest ≤ n = grind (arith, b) in
      after_wait-On (Soon n) begun (m + 3 * longest) _ _ _
        (wait-On begun m 0x40 0 1 d on a (omega (arith, room)))
        (λ (start, s) f.
          let (later, soon) = clock.rd_time 0x10c s in
          read_bytes-On begun (m + 4 * longest) n size (λ rest. got (u8 (rd 0x10c s).0 ∷ rest))
            (start, (rd 0x10c s).1)
            (record {
              same_start = f.same_start;
              behind = omega (arith, f.behind);
              in_time = omega (arith, f.in_time);
            })
            (omega arith) room c)
        (λ e f. fail-On (List ℕ) begun (m + 3 * longest) n e (omega (arith, room)) f)

  reset_controller-On :
      (d : Driver io)
      → On (time (now d.1).1) (time (now d.1).1 + 10 + 6 * longest) (reset_controller io d)
  unfolding reset_controller
  reset_controller-On (start, s) =
      let s1 = (now s).1 in
      let s2 = wr 0x40 10 s1 in
      let s3 = wr 0x120 15 s2 in
      let s4 = wr 0x100 3 s3 in
      let s5 = wr 0x100 1 s4 in
      let (a, a') = clock.wr_time 0x40 10 s1 in
      let (b, b') = clock.wr_time 0x120 15 s2 in
      let (c, c') = clock.wr_time 0x100 3 s3 in
      let (d, d') = clock.wr_time 0x100 1 s4 in
      let (e, e') = clock.rd_time 0x20 s5 in
      let (f, f') = clock.wr_time 0x20 (rd 0x20 s5).0 (rd 0x20 s5).1 in
      record { same_start = clock.counted s; behind = omega arith; in_time = omega arith }

  begin-On :
      (address reg : ℕ) (d : Driver io)
      → 50 * longest + 10 < 2 ^ 32
      → On (time (now d.1).1) (time (now d.1).1 + 10 + 11 * longest) (begin io address reg d).1
  unfolding begin
  begin-On address reg d small =
      let t = time (now d.1).1 in
      let m = t + 10 + 6 * longest in
      let n = t + 10 + 11 * longest in
      after_wait-On (λ (r : Bool × Driver io). On t n r.1) t (m + 3 * longest) _ _ _
        (wait-On t m 4 0 1 (reset_controller io d) (reset_controller-On d) (omega arith)
          (omega arith))
        (λ e f.
          widen t _ n _
            (puts-On t (m + 3 * longest) 0x108 (bit_or 0x100 (address <<< 1)) 0x108 reg e f)
            (omega arith))
        (λ e f. record {
          same_start = f.same_start;
          behind = f.behind;
          in_time = omega (arith, f.in_time);
        })

  read_in_time :
      (address reg size : ℕ) (d : Driver io)
      → 50 * longest + 10 < 2 ^ 32
      → Soon (time d.1 + 10 + 40 * longest) (read_reg io address reg size d)
  unfolding read_reg fail
  read_in_time address reg size d small =
      let t = time (now d.1).1 in
      let n = time d.1 + 10 + 40 * longest in
      let n1 = t + 10 + 11 * longest in
      let n2 = n1 + 3 * longest in
      let (before, after) = clock.now_time d.1 in
      by_test (Soon n) (size == 0 || ltb 3 size) _ _
        (λ e. let (later, soon) = clock.wr_time 0x40 10 d.1 in omega arith)
        (λ e.
          let few : 4 * size ≤ 12 = ground arith in
          let bytes = mul-le-mul_right longest few in
          after_wait-On (Soon n) t n1 _ _ _ (begin-On address reg d small)
            (λ d1 f1.
              after_wait-On (Soon n) t n2 _ _ _
                (wait-On t n1 0x80 0x80 3 d1 f1 (omega arith) (omega arith))
                (λ d2 f2.
                  read_bytes-On t (n2 + 2 * longest) n size (λ rest. rest) _
                    (puts-On t n2 0x108 (bit_or 0x101 (address <<< 1)) 0x108 (bit_or 0x200 size) d2
                      f2)
                    (omega arith) (omega (arith, bytes)) (omega arith))
                (λ e f. fail-On (List ℕ) t n2 n e (omega arith) f))
            (λ e f. fail-On (List ℕ) t n1 n e (omega arith) f))

  write_in_time :
      (address reg v : ℕ) (d : Driver io)
      → 50 * longest + 10 < 2 ^ 32
      → Soon (time d.1 + 10 + 40 * longest) (write_reg io address reg v d)
  unfolding write_reg
  write_in_time address reg v d small =
      let t = time (now d.1).1 in
      let n = time d.1 + 10 + 40 * longest in
      let n1 = t + 10 + 11 * longest in
      let n2 = n1 + 2 * longest in
      let (before, after) = clock.now_time d.1 in
      let failed = λ (m : ℕ) (h : m + longest ≤ n) (e : Driver io) (f : On t m e).
        fail-On (Unit {0}) t m n e h f in
      after_wait-On (Soon n) t n1 _ _ _ (begin-On address reg d small)
        (λ d1 f1.
          after_wait-On (Soon n) t (n2 + 3 * longest) _ _ _
            (wait-On t n2 0x80 0x80 3 _
              (puts-On t n1 0x108 (v >>> 8) 0x108 (bit_or 0x200 (bit_and v 255)) d1 f1)
              (omega arith) (omega arith))
            (λ d2 f2.
              after_wait-On (Soon n) t (n2 + 3 * longest + 3 * longest) _ _ _
                (wait-On t (n2 + 3 * longest) 4 0 3 d2 f2 (omega arith) (omega arith))
                (λ d3 f3. omega (arith, f3.in_time))
                (failed (n2 + 3 * longest + 3 * longest) (omega arith)))
            (failed (n2 + 3 * longest) (omega arith)))
        (failed n1 (omega arith))

  -- On a clock of ticks that no call advances by more than `longest`, with `50 * longest + 10`
  -- below 2 ^ 32, and that a delay advances by one at least: whatever the controller says, a read
  -- or a write of a register ends at most 10 ticks, the deadline, and the time of 40 calls after it
  -- began.
  pub read_reg-Soon :
      (address reg size v : ℕ) (d : Driver io)
      → 50 * longest + 10 < 2 ^ 32
      → Soon (time d.1 + 10 + 40 * longest) (read_reg io address reg size d)
        × Soon (time d.1 + 10 + 40 * longest) (write_reg io address reg v d)
  read_reg-Soon address reg size v d small =
      (read_in_time address reg size d small, write_in_time address reg v d small)
