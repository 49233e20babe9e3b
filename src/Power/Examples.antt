-- ===== src/Power/Examples.antt =====
-- The registers of tb/test_ina700.c, and the theorems at concrete inputs.
use scu35_bitcoin_lottery_mi.Base.{
  ℕ, ◌≡◌, refl, true, some, List, [], ◌∷◌, arith, ◌==◌, if◌then◌else◌,
}
use scu35_bitcoin_lottery_mi.Power.{
  negsuc, times, quotient, be16, signed16, voltage_of, current_of, temperature_of, power_of, Bus,
  ina700_init, ina700_registers, store_sample, ina700_sample_read, power_round,
}
use scu35_bitcoin_lottery_mi.Power.Sample.{twos_complement, conversions_exact, IsRead}
use scu35_bitcoin_lottery_mi.Power.History.{Measured, behind, WasInitialised, power_round-Measured}

-- The current -480 uA, and the least temperature.
minus_one : current_of (0xff ∷ 0xff ∷ []) ≡ negsuc 479
unfolding current_of be16 signed16 times
minus_one = refl

coldest : temperature_of (0x80 ∷ 0 ∷ []) ≡ negsuc 255999
unfolding temperature_of be16 signed16 times quotient
coldest = refl

abbrev register : ℕ → List ℕ
register r =
    if r == 0x3e
    then 0x54 ∷ 0x49 ∷ []
    else (if r == 1
        then 0xfb ∷ 0x6a ∷ []
        else (if r == 0x0b
            then 0 ∷ 3 ∷ []
            else (if r == 5
                then 0x06 ∷ 0x40 ∷ []
                else (if r == 6
                    then 0x19 ∷ 0 ∷ []
                    else (if r == 7 then 0x09 ∷ 0xc4 ∷ [] else 0 ∷ 0xf4 ∷ 0x24 ∷ [])))))

abbrev monitor : Bus
monitor = record {
  State = Unit {0};
  read = λ address r n s. (some (register r), s);
  write = λ address r v s. (true, s);
}

sampled :
    (power_round monitor 0x44 7000 (behind monitor 0x44 ((6000, tt) ∷ [])) tt).0.sample.valid ≡ true
unfolding behind power_round ina700_init ina700_sample_read ina700_registers store_sample be16
sampled = refl

power_round-Measured_example :
    WasInitialised monitor 0x44 ((6000, tt) ∷ [])
    × (r : List ℕ × List ℕ × List ℕ × List ℕ) × Measured monitor 0x44 tt r
    × IsRead monitor r 7000
        (power_round monitor 0x44 7000 (behind monitor 0x44 ((6000, tt) ∷ [])) tt).0.sample
power_round-Measured_example = power_round-Measured monitor 0x44 ((6000, tt) ∷ []) 7000 tt sampled

conversions_exact_example :
    (voltage_of (6 ∷ 0x40 ∷ []) ≡ 5000000)
    × (current_of (0xff ∷ 0xff ∷ []) ≡ times (twos_complement 32768 65535) 480)
    × (temperature_of (0x19 ∷ 0 ∷ []) ≡ times (twos_complement 2048 400) 125)
    × (power_of (0 ∷ 0xf4 ∷ 0x24 ∷ []) ≡ 6000000)
conversions_exact_example =
    conversions_exact (6 ∷ 0x40 ∷ []) (0xff ∷ 0xff ∷ []) (0x19 ∷ 0 ∷ []) (0 ∷ 0xf4 ∷ 0x24 ∷ [])
      (omega arith) (omega arith) (omega arith) (omega arith)
