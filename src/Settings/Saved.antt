-- ===== src/Settings/Saved.antt =====
-- A committed record that `settings_save` wrote is valid, and unpacks to the settings.
use scu35_bitcoin_lottery_mi.Base.{
  ℕ, ◌+◌, ◌^◌, ◌≤◌, ◌<◌, ◌≡◌, refl, sym, ap, ◌∙◌, List, arith, true, false, Bool, not, ◌||◌, ◌==◌,
  if◌then◌else◌, length, at, take, slice_eq, at-take, length-take, bytes_eq, bytes_eq_refl, u8, u16,
  ◌<<<◌, ◌>>>◌, bit_or, bit_or-add_low,
}
use scu35_bitcoin_lottery_mi.Settings.{
  MinerSettings, get32, put32, crc, settings_valid, unpack, magic, commit, record_valid,
  record_fields, record_of, slice,
}
use scu35_bitcoin_lottery_mi.Settings.Record.{
  IsTyped, get32-bytes, at-record_of_body, at-record_of-crc, at-magic, at-version, at-seq, at-mac,
  at-port_low, at-port_high, at-host, at-worker, at-password, length-record_fields,
}

crc-lt : (p : List ℕ) → crc p < 2 ^ 32
unfolding crc
crc-lt p = omega arith

-- The tests of `record_valid`, over any values.
abbrev checked : Bool → ℕ → ℕ → ℕ → ℕ → Bool → Bool
checked same version last stored computed rest =
    if not same || not (version == 1) || not (last == commit) || not (stored == computed)
    then false
    else rest

checked_intro :
    (same rest : Bool) (version last stored computed : ℕ)
    → same ≡ true
    → version ≡ 1
    → last ≡ commit
    → stored ≡ computed
    → rest ≡ true
    → checked same version last stored computed rest ≡ true
checked_intro same rest version last stored computed a b c d e = ground arith

checked_parts :
    (same rest : Bool) (version last stored computed : ℕ)
    → checked same version last stored computed rest ≡ true
    → (last ≡ commit) × (rest ≡ true)
checked_parts same rest version last stored computed h = ground arith

record_valid_intro :
    (b : List ℕ)
    → bytes_eq (take 4 b) magic ≡ true
    → at b 4 ≡ 1
    → at b 511 ≡ commit
    → get32 b 504 ≡ crc (take 504 b)
    → settings_valid (unpack b) ≡ true
    → record_valid b ≡ true
unfolding record_valid
record_valid_intro b =
    checked_intro (bytes_eq (take 4 b) magic) (settings_valid (unpack b)) (at b 4) (at b 511)
      (get32 b 504) (crc (take 504 b))

-- A valid record has its commit byte set and holds valid settings.
pub record_valid_parts :
    (b : List ℕ) → record_valid b ≡ true → (at b 511 ≡ commit) × (settings_valid (unpack b) ≡ true)
unfolding record_valid
record_valid_parts b =
    checked_parts (bytes_eq (take 4 b) magic) (settings_valid (unpack b)) (at b 4) (at b 511)
      (get32 b 504) (crc (take 504 b))

-- The 512 bytes of a slot that holds the record of `s` with its commit byte set.
pub record IsCommitted (s : MinerSettings) (seq : ℕ) (b : List ℕ) : Type 0 where
  pub full : length b ≡ 512
  pub body : (i : ℕ) → i < 511 → at b i ≡ at (record_of s seq) i
  pub committed : at b 511 ≡ commit

module _ (s : MinerSettings) (sized : IsTyped s) (seq : ℕ) (b : List ℕ)
    (c : IsCommitted s seq b) where
  at-fields : (i : ℕ) → i < 504 → at b i ≡ at (record_fields s seq) i
  at-fields i h = c.body i (omega arith) ∙ at-record_of_body s sized seq i h

  field_eq :
      (p n : ℕ) (xs : List ℕ)
      → length xs ≡ n
      → p + n ≤ 504
      → ((j : ℕ) → j < n → at (record_fields s seq) (p + j) ≡ at xs j)
      → slice b p n ≡ xs
  field_eq p n xs hx hp h =
      slice_eq b xs p n hx (omega (arith, c.full)) λ j k. at-fields (p + j) (omega arith) ∙ h j k

  port_eq : u16 (bit_or (at b 22) (at b 23 <<< 8)) ≡ s.port
  port_eq =
      let low = u8 s.port in
      let high = u8 (s.port >>> 8) in
      rw
        (
          at-fields 22 (omega arith),
          at-fields 23 (omega arith),
          at-port_low s sized seq,
          at-port_high s sized seq,
          bit_or-add_low 8 high low (omega arith),
        )
        (omega (arith, sized.port_size))

  pub unpack_eq : unpack b ≡ s
  unfolding unpack
  unpack_eq = λ i. record {
    mac = field_eq 16 6 s.mac sized.mac_size (omega arith) (at-mac s sized seq) i;
    port = port_eq i;
    host = field_eq 24 96 s.host sized.host_size (omega arith) (at-host s sized seq) i;
    worker = field_eq 120 128 s.worker sized.worker_size (omega arith) (at-worker s sized seq) i;
    password =
        field_eq 248 64 s.password sized.password_size (omega arith) (at-password s sized seq) i;
  }

  pub seq_eq : seq < 2 ^ 32 → get32 b 8 ≡ seq
  seq_eq h = get32-bytes b 8 seq h λ j k. at-fields (8 + j) (omega arith) ∙ at-seq s sized seq j k

  body_eq : take 504 b ≡ take 504 (record_fields s seq)
  body_eq =
      slice_eq b (take 504 (record_fields s seq)) 0 504
        (omega (arith, length-take 504 (record_fields s seq), length-record_fields s sized seq))
        (omega (arith, c.full))
        λ j k. ap (at b) (omega arith) ∙ at-fields j k ∙ sym (at-take 504 (record_fields s seq) j k)

  at-crc : (j : ℕ) → j < 4 → at b (504 + j) ≡ at (put32 (crc (take 504 (record_fields s seq)))) j
  at-crc j h = c.body (504 + j) (omega arith) ∙ at-record_of-crc s sized seq j h

  crc_eq : get32 b 504 ≡ crc (take 504 b)
  crc_eq =
      get32-bytes b 504 (crc (take 504 (record_fields s seq))) (crc-lt _) at-crc
      ∙ ap crc (sym body_eq)

  magic_eq : take 4 b ≡ magic
  magic_eq = field_eq 0 4 magic refl (omega arith) (at-magic s sized seq)

  pub valid_eq : settings_valid s ≡ true → record_valid b ≡ true
  valid_eq h =
      record_valid_intro b (ap (λ (m : List ℕ). bytes_eq m magic) magic_eq ∙ bytes_eq_refl magic)
        (at-fields 4 (omega arith) ∙ at-version s sized seq) c.committed crc_eq
        (ap settings_valid unpack_eq ∙ h)
