-- ===== src/Power/History.antt =====
-- Where a valid sample comes from, over all rounds of the task since its start: the registers that
-- were read for it, and the round in which the monitor was initialised.
use scu35_bitcoin_lottery_mi.Base.{
  ℕ, ◌≡◌, ◌⊎◌, inl, inr, refl, sym, ap, ◌∙◌, Bool, true, false, not, Bool-cases, Option, none, some,
  List, [], ◌∷◌, ◌==◌, ==_iff, subst, bit_and, if◌then◌else◌,
}
use scu35_bitcoin_lottery_mi.Power.{
  pos, be16, Bus, checked, written, any_bytes, ina700_init, ina700_registers, Sensor, after_init,
  after_sample, power_round, ina700_sample_read,
}
use scu35_bitcoin_lottery_mi.Power.Sample.{IsRead, power_round-IsRead}

module _ (bus : Bus) (address : ℕ) where
  open bus use {State, read, write}

  -- The monitor answers with its name, "TI", takes the configuration, and gives it back.
  pub record Initialised (s : State) : Type 0 where
    pub name : List ℕ
    pub configuration : List ℕ
    pub s1 : State
    pub s2 : State
    pub s3 : State
    pub named : read address 0x3e 2 s ≡ (some name, s1)
    pub is_ti : be16 name ≡ 0x5449
    pub configured : write address 1 0xfb6a s1 ≡ (true, s2)
    pub read_back : read address 1 2 s2 ≡ (some configuration, s3)
    pub unchanged : be16 configuration ≡ 0xfb6a

  -- The configuration is still there and a conversion is complete; then the voltage, the
  -- temperature, the current and the power are read.
  pub record Measured (s : State) (r : List ℕ × List ℕ × List ℕ × List ℕ) : Type 0 where
    pub configuration : List ℕ
    pub flags : List ℕ
    pub s1 : State
    pub s2 : State
    pub s3 : State
    pub s4 : State
    pub s5 : State
    pub s6 : State
    pub configured : read address 1 2 s ≡ (some configuration, s1)
    pub unchanged : be16 configuration ≡ 0xfb6a
    pub flagged : read address 0x0b 2 s1 ≡ (some flags, s2)
    pub complete : bit_and (be16 flags) 0x203 ≡ 3
    pub voltage : read address 5 2 s2 ≡ (some r.0, s3)
    pub temperature : read address 6 2 s3 ≡ (some r.1, s4)
    pub current : read address 7 2 s4 ≡ (some r.2, s5)
    pub power : read address 8 3 s5 ≡ (some r.3, s6)

  passed :
      {A : Type 0} (b : Bool) (x y : Option A × State) (a : A)
      → (if b then x else y).0 ≡ some a
      → y.0 ≡ none
      → (b ≡ true) × (x.0 ≡ some a)
  passed true x y a h n = (refl, h)
  passed false x y a h n = let clash = sym n ∙ h in absurd (cc clash)

  checked_parts :
      {A : Type 0} (r : Option (List ℕ) × State) (test : List ℕ → Bool)
      (rest : List ℕ → State → Option A × State) (a : A)
      → (checked bus r test rest).0 ≡ some a
      → (b : List ℕ) × (s : State) × (r ≡ (some b, s)) × (test b ≡ true) × ((rest b s).0 ≡ some a)
  unfolding checked
  checked_parts (none, s) test rest a h = absurd (cc h)
  checked_parts (some b, s) test rest a h =
      let (t, k) = passed (test b) (rest b s) (none, s) a h refl in (b, s, refl, t, k)

  written_parts :
      {A : Type 0} (r : Bool × State) (rest : State → Option A × State) (a : A)
      → (written bus r rest).0 ≡ some a
      → (s : State) × (r ≡ (true, s)) × ((rest s).0 ≡ some a)
  unfolding written
  written_parts (false, s) rest a h = absurd (cc h)
  written_parts (true, s) rest a h = (s, refl, h)

  init-Initialised :
      (s : State) (u : Unit {0}) → (ina700_init bus address s).0 ≡ some u → Initialised s
  unfolding ina700_init
  init-Initialised s u h =
      let (name, s1, e1, t1, h1) =
        checked_parts (read address 0x3e 2 s) (λ b. be16 b == 0x5449) _ u h in
      let (s2, e2, h2) = written_parts (write address 1 0xfb6a s1) _ u h1 in
      let (c, s3, e3, t3, _) = checked_parts (read address 1 2 s2) (λ b. be16 b == 0xfb6a) _ u h2 in
      record {
        name = name;
        configuration = c;
        s1 = s1;
        s2 = s2;
        s3 = s3;
        named = e1;
        is_ti = (==_iff (be16 name) 0x5449).0 t1;
        configured = e2;
        read_back = e3;
        unchanged = (==_iff (be16 c) 0xfb6a).0 t3;
      }

  registers-Measured :
      (s : State) (r : List ℕ × List ℕ × List ℕ × List ℕ)
      → (ina700_registers bus address s).0 ≡ some r
      → Measured s r
  unfolding ina700_registers
  registers-Measured s r h =
      let (c, s1, e1, t1, h1) = checked_parts (read address 1 2 s) (λ b. be16 b == 0xfb6a) _ r h in
      let (f, s2, e2, t2, h2) =
        checked_parts (read address 0x0b 2 s1) (λ b. bit_and (be16 b) 0x203 == 3) _ r h1 in
      let (v, s3, e3, _, h3) = checked_parts (read address 5 2 s2) (any_bytes bus) _ r h2 in
      let (t, s4, e4, _, h4) = checked_parts (read address 6 2 s3) (any_bytes bus) _ r h3 in
      let (i, s5, e5, _, h5) = checked_parts (read address 7 2 s4) (any_bytes bus) _ r h4 in
      let (p, s6, e6, _, h6) = checked_parts (read address 8 3 s5) (any_bytes bus) _ r h5 in
      let same : (v, t, i, p) ≡ r = cc h6 in
      subst (Measured s) same (record {
        configuration = c;
        flags = f;
        s1 = s1;
        s2 = s2;
        s3 = s3;
        s4 = s4;
        s5 = s5;
        s6 = s6;
        configured = e1;
        unchanged = (==_iff (be16 c) 0xfb6a).0 t1;
        flagged = e2;
        complete = (==_iff (bit_and (be16 f) 0x203) 3).0 t2;
        voltage = e3;
        temperature = e4;
        current = e5;
        power = e6;
      })

  -- The sensor as it is at the start of the task, and behind rounds, the last one first: the time
  -- and the state of the bus of each.
  abbrev pub at_start : Sensor bus
  at_start = record {
    sample = record {
      valid = false;
      voltage_uv = 0;
      power_uw = 0;
      sampled_ms = 0;
      errors = 0;
      current_ua = pos 0;
      temp_milli_c = pos 0;
    };
    ready = false;
  }

  unfoldable pub behind : List (ℕ × State) → Sensor bus
  behind [] = at_start
  behind ((now_ms, s) ∷ rounds) = (power_round bus address now_ms (behind rounds) s).0

  abbrev pub WasInitialised : List (ℕ × State) → Type 0
  WasInitialised [] = ⊥
  WasInitialised ((now_ms, s) ∷ rounds) = Initialised s ⊎ WasInitialised rounds

  ready_by :
      (sensor : Sensor bus) (s : State) (r : Option (Unit {0}) × State)
      → ina700_init bus address s ≡ r
      → (after_init bus sensor r).0.ready ≡ true
      → Initialised s
  unfolding after_init
  ready_by sensor s (none, s') e h = absurd (cc h)
  ready_by sensor s (some u, s') e h =
      init-Initialised s u (ap (λ (x : Option (Unit {0}) × State). x.0) e)

  round_ready :
      (now_ms : ℕ) (sensor : Sensor bus) (s : State)
      → (power_round bus address now_ms sensor s).0.ready ≡ true
      → Initialised s ⊎ (sensor.ready ≡ true)
  unfolding power_round
  round_ready now_ms sensor s h = elim (Bool-cases sensor.ready) [
    | inl e ↦ inr e
    | inr e ↦
        let first = after_init bus sensor (ina700_init bus address s) in
        let later =
          after_sample bus now_ms
            (ina700_sample_read bus address (record sensor.sample { valid = false }) s) in
        inl (
          ready_by sensor s (ina700_init bus address s) refl
            (sym (ap (λ (b : Bool). (if not b then first else later).0.ready) e) ∙ h))
  ]

  ready-WasInitialised :
      (rounds : List (ℕ × State)) → (behind rounds).ready ≡ true → WasInitialised rounds
  unfolding behind
  ready-WasInitialised [] h = absurd (cc h)
  ready-WasInitialised ((now_ms, s) ∷ rounds) h = elim (round_ready now_ms (behind rounds) s h) [
    | inl i ↦ inl i
    | inr e ↦ inr (ready-WasInitialised rounds e)
  ]

  -- From the start of the power task, after any rounds of one monitor: if its sample is valid
  -- behind a further round, then an earlier round initialised the monitor, which answered with its
  -- name, took the configuration and gave it back. In this round the configuration was read back
  -- and the flags were those of a complete conversion, then the voltage, temperature, current and
  -- power were read, each from its register; the fields of the sample are the conversions of these
  -- readings, and its time is that of the round.
  pub power_round-Measured :
      (rounds : List (ℕ × State)) (now_ms : ℕ) (s : State)
      → (power_round bus address now_ms (behind rounds) s).0.sample.valid ≡ true
      → WasInitialised rounds
        × (r : List ℕ × List ℕ × List ℕ × List ℕ) × Measured s r
        × IsRead bus r now_ms (power_round bus address now_ms (behind rounds) s).0.sample
  power_round-Measured rounds now_ms s h =
      let (ready, r, found, is) = power_round-IsRead bus address now_ms (behind rounds) s h in
      (ready-WasInitialised rounds ready, r, registers-Measured s r found, is)
