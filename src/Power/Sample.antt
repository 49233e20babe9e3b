-- ===== src/Power/Sample.antt =====
-- What the registers of a monitor mean, and where a sample that is marked valid comes from.
use scu35_bitcoin_lottery_mi.Base.{
  ℕ, zero, suc, ◌+◌, ◌-◌, ◌*◌, ◌/◌, ◌^◌, ◌<◌, ◌≡◌, refl, sym, ap, ◌∙◌, Bool, true, false, not,
  Bool-cases, inl, inr, Option, none, some, List, arith, at, Bytes, ltb, if◌then◌else◌, u32, ◌<<<◌,
  bit_or, bit_or-add, bit_and, bit_and_0xfff0, bit_and_0x8000, at-Bytes,
}
use scu35_bitcoin_lottery_mi.Power.{
  ℤ, pos, negated, times, quotient, Ina700Sample, be16, signed16, voltage_of, current_of,
  temperature_of, power_of, Bus, ina700_init, ina700_registers, store_sample, ina700_sample_read,
  Sensor, after_init, after_sample, power_round,
}

-- A code of two's complement with half of `2 * half` codes negative.
unfoldable pub twos_complement : ℕ → ℕ → ℤ
twos_complement half v = if ltb v half then pos v else negated (2 * half - v)

abbrev pub word : List ℕ → ℕ
word p = at p 0 * 256 + at p 1

be16-word : (p : List ℕ) → Bytes p → be16 p ≡ word p
unfolding be16
be16-word p h = bit_or-add 8 (at p 0) (at p 1) (omega (arith, at-Bytes p 1 h))

word-lt : (p : List ℕ) → Bytes p → word p < 65536
word-lt p h = omega (arith, at-Bytes p 0 h, at-Bytes p 1 h)

signed16-twos_complement : (v : ℕ) → v < 65536 → signed16 v ≡ twos_complement 32768 v
unfolding signed16 twos_complement
signed16-twos_complement v h = ground (arith, bit_and_0x8000 v h)

quotient-negated : (n : ℕ) → quotient (negated n) 16 ≡ negated (n / 16)
unfolding quotient
quotient-negated zero = refl
quotient-negated (suc n) = ap (λ k. negated (k / 16)) (omega arith)

quotient-twos_complement :
    (q : ℕ) → q < 4096 → quotient (twos_complement 32768 (q * 16)) 16 ≡ twos_complement 2048 q
unfolding twos_complement quotient
quotient-twos_complement q h = elim (Bool-cases (ltb q 2048)) [
  | inl low ↦
      ap (λ (b : Bool). quotient (if b then pos (q * 16) else negated (65536 - q * 16)) 16)
        {x = ltb (q * 16) 32768} {y = true} (ground arith)
      ∙ quotient-pos (q * 16)
      ∙ ap pos (omega arith)
      ∙ ap (λ (b : Bool). if b then pos q else negated (4096 - q)) (sym low)
  | inr high ↦
      ap (λ (b : Bool). quotient (if b then pos (q * 16) else negated (65536 - q * 16)) 16)
        {x = ltb (q * 16) 32768} {y = false} (ground arith)
      ∙ quotient-negated (65536 - q * 16)
      ∙ ap negated (omega arith)
      ∙ ap (λ (b : Bool). if b then pos q else negated (4096 - q)) (sym high)
]
  where
    quotient-pos : (n : ℕ) → quotient (pos n) 16 ≡ pos (n / 16)
    quotient-pos n = refl

join_three :
    (a b c : ℕ)
    → b < 256
    → c < 256
    → bit_or (bit_or (a <<< 16) (b <<< 8)) c ≡ a * 65536 + b * 256 + c
join_three a b c hb hc =
    ap (λ x. bit_or x c) {y = (a * 256 + b) * 2 ^ 8}
      (bit_or-add 16 a (b * 2 ^ 8) (omega arith) ∙ omega arith)
    ∙ bit_or-add 8 (a * 256 + b) c (omega arith)
    ∙ omega arith

-- On registers that hold bytes no conversion wraps: the voltage is 3125 and the power 96 for each
-- step, the current is 480 for each step of a signed word, and the temperature is 125 for each step
-- of the signed twelve bits on top.
pub conversions_exact :
    (v i t p : List ℕ)
    → Bytes v
    → Bytes i
    → Bytes t
    → Bytes p
    → (voltage_of v ≡ word v * 3125)
      × (current_of i ≡ times (twos_complement 32768 (word i)) 480)
      × (temperature_of t ≡ times (twos_complement 2048 (word t / 16)) 125)
      × (power_of p ≡ (at p 0 * 65536 + at p 1 * 256 + at p 2) * 96)
unfolding voltage_of current_of temperature_of power_of
conversions_exact v i t p hv hi ht hp =
    let p0 = at-Bytes p 0 hp in
    let p1 = at-Bytes p 1 hp in
    let p2 = at-Bytes p 2 hp in
    (
      omega (arith, be16-word v hv, word-lt v hv),
      ap (λ x. times x 480)
          (ap signed16 (be16-word i hi) ∙ signed16-twos_complement (word i) (word-lt i hi)),
      ap (λ x. times (quotient (signed16 (bit_and x 0xfff0)) 16) 125) (be16-word t ht)
          ∙ ap (λ x. times (quotient (signed16 x) 16) 125) (bit_and_0xfff0 (word t) (word-lt t ht))
          ∙ ap (λ x. times (quotient x 16) 125)
              (signed16-twos_complement (word t / 16 * 16) (omega (arith, word-lt t ht)))
          ∙ ap (λ x. times x 125)
              (quotient-twos_complement (word t / 16) (omega (arith, word-lt t ht))),
      ap (λ x. u32 (x * 96)) (join_three (at p 0) (at p 1) (at p 2) p1 p2)
          ∙ omega (arith, p0, p1, p2),
    )

module _ (bus : Bus) where
  open bus use {State}

  -- A sample that was read at a time.
  pub record IsRead (r : List ℕ × List ℕ × List ℕ × List ℕ) (now_ms : ℕ) (x : Ina700Sample)
      : Type 0 where
    pub voltage_read : x.voltage_uv ≡ voltage_of r.0
    pub temperature_read : x.temp_milli_c ≡ temperature_of r.1
    pub current_read : x.current_ua ≡ current_of r.2
    pub power_read : x.power_uw ≡ power_of r.3
    pub time_read : x.sampled_ms ≡ now_ms

  init_invalid :
      (sensor : Sensor bus) (r : Option (Unit {0}) × State)
      → (after_init bus sensor r).0.sample.valid ≡ false
  unfolding after_init
  init_invalid sensor (some _, s) = refl
  init_invalid sensor (none, s) = refl

  sample_valid :
      (out : Ina700Sample) (now_ms : ℕ) (o : Option (List ℕ × List ℕ × List ℕ × List ℕ)) (s : State)
      → (after_sample bus now_ms (store_sample bus out (o, s))).0.sample.valid ≡ true
      → (r : List ℕ × List ℕ × List ℕ × List ℕ) × (o ≡ some r)
        × IsRead r now_ms (after_sample bus now_ms (store_sample bus out (o, s))).0.sample
  unfolding after_sample store_sample
  sample_valid out now_ms none s h = absurd (cc h)
  sample_valid out now_ms (some (v, t, i, p)) s h = (
    (v, t, i, p),
    refl,
    record {
      voltage_read = refl;
      temperature_read = refl;
      current_read = refl;
      power_read = refl;
      time_read = refl;
    },
  )

  -- A sample that is valid behind a round was read in that round, with the flag of ready set.
  pub power_round-IsRead :
      (address now_ms : ℕ) (sensor : Sensor bus) (s : State)
      → (power_round bus address now_ms sensor s).0.sample.valid ≡ true
      → (sensor.ready ≡ true)
        × (r : List ℕ × List ℕ × List ℕ × List ℕ) × ((ina700_registers bus address s).0 ≡ some r)
        × IsRead r now_ms (power_round bus address now_ms sensor s).0.sample
  unfolding power_round ina700_sample_read
  power_round-IsRead address now_ms sensor s h = by_ready sensor.ready refl h
    where
      false_true : false ≡ true → ⊥
      false_true q = cc q

      first : Sensor bus × State
      first = after_init bus sensor (ina700_init bus address s)

      later : Sensor bus × State
      later = after_sample bus now_ms (
          store_sample bus (record sensor.sample { valid = false })
            (ina700_registers bus address s))

      by_ready :
          (b : Bool)
          → sensor.ready ≡ b
          → (if not b then first else later).0.sample.valid ≡ true
          → (sensor.ready ≡ true)
            × (r : List ℕ × List ℕ × List ℕ × List ℕ) × ((ina700_registers bus address s).0
                ≡ some r)
            × IsRead r now_ms (if not b then first else later).0.sample
      by_ready false e q =
          absurd (false_true (sym (init_invalid sensor (ina700_init bus address s)) ∙ q))
      by_ready true e q =
          let (r, found, is) =
            sample_valid (record sensor.sample { valid = false }) now_ms
              (ina700_registers bus address s).0 (ina700_registers bus address s).1 q in
          (e, r, found, is)
