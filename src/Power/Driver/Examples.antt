-- ===== src/Power/Driver/Examples.antt =====
-- A bus whose controller is always busy, or without an answer, on a clock of one tick a delay.
use scu35_bitcoin_lottery_mi.Base.{
  ℕ, ◌+◌, ◌-◌, ◌%◌, ◌^◌, ◌≡◌, ◌==◌, if◌then◌else◌, refl, false, u32, arith,
}
use scu35_bitcoin_lottery_mi.Power.Driver.{
  Iic, read_reg, write_reg, wait_status, deadline_loop, settle,
}
use scu35_bitcoin_lottery_mi.Power.Driver.Waits.{Timed, Waited, wait_status-Waited}
use scu35_bitcoin_lottery_mi.Power.Driver.Deadline.{Soon, read_reg-Soon}
use scu35_bitcoin_lottery_mi.Power.Driver.Resets.{Released, read_reg-Released}

abbrev busy : Iic
busy = record {
  State = ℕ;
  rd = λ r s. (if r == 0x104 then 4 else 0, s);
  wr = λ r v s. s;
  now = λ s. (s % 2 ^ 32, s);
  delay = λ s. s + 1;
}

busy-Timed : Timed busy (λ s. s) 1
busy-Timed = record {
  counted = λ s. refl;
  now_time = λ s. (omega arith, omega arith);
  rd_time = λ r s. (omega arith, omega arith);
  wr_time = λ r v s. (omega arith, omega arith);
  delay_time = λ s. (omega arith, omega arith);
}

-- The start is just in front of where the tick count wraps.
times_out : wait_status busy 4 0 1 (2 ^ 32 - 3, 2 ^ 32 - 3) ≡ (false, (2 ^ 32 - 3, 2 ^ 32 + 7))
unfolding wait_status settle deadline_loop
times_out = refl

wait_status-Waited_example :
    Waited busy
      (λ s. s)
      1
      busy-Timed
      (2 ^ 32 + 11)
      (2 ^ 32 - 3)
      4
      0
      1
      (2 ^ 32 - 3)
      (wait_status busy 4 0 1 (u32 (2 ^ 32 - 3), 2 ^ 32 - 3))
wait_status-Waited_example =
    wait_status-Waited busy (λ s. s) 1 busy-Timed (2 ^ 32 + 8) (2 ^ 32 - 3) 4 0 1 (2 ^ 32 - 3)
      (omega arith) (omega arith) (omega arith) (omega arith)

read_reg-Released_example :
    Released busy (read_reg busy 0x44 1 2 (0, 0))
    × Released busy (write_reg busy 0x44 1 0xfb6a (0, 0))
read_reg-Released_example = read_reg-Released busy 0x44 1 2 0xfb6a (0, 0)

read_reg-Soon_example :
    Soon busy (λ s. s) 1 busy-Timed 50 (read_reg busy 0x44 1 2 (0, 0))
    × Soon busy (λ s. s) 1 busy-Timed 50 (write_reg busy 0x44 1 0xfb6a (0, 0))
read_reg-Soon_example =
    read_reg-Soon busy (λ s. s) 1 busy-Timed 0x44 1 2 0xfb6a (0, 0) (omega arith)
