-- ===== src/Settings/Examples.antt =====
-- An EEPROM in which every access succeeds, and the theorems about a save and a load on it.
use scu35_bitcoin_lottery_mi.Base.{
  ℕ, suc, zero, ◌+◌, ◌-◌, ◌%◌, ◌≤◌, ◌<◌, ◌≡◌, refl, sym, ap, ◌∙◌, ◌⊎◌, inr, List, [], ◌∷◌, ◌++◌,
  arith, Bool, true, ◌&&◌, some, length, at, window, window_eq, Bytes, Bytes-append,
  Bytes-replicate, replicate, if◌then◌else◌, leb, ltb, bytes_eq,
}
use scu35_bitcoin_lottery_mi.Settings.{
  MinerSettings, settings_valid, settings_defaults, record_valid, unpack, get32,
}
use scu35_bitcoin_lottery_mi.Settings.Eeprom.{Run, done, final, Eeprom, IsEeprom}
use scu35_bitcoin_lottery_mi.Settings.Record.{IsTyped}
use scu35_bitcoin_lottery_mi.Settings.Slots.{
  settings_save, settings_load, read_slots, read_first, read_second, select, load_from, stored,
  defaulted,
}
use scu35_bitcoin_lottery_mi.Settings.Save.{Saved, settings_save-Saved}
use scu35_bitcoin_lottery_mi.Settings.Load.{ReadFails, Loaded, settings_load-Loaded}
use scu35_bitcoin_lottery_mi.Settings.Works.{IsWorking, settings_save-load}

-- The cells hold bytes: what is above them is cut off when a cell is read.
abbrev write_cells : ℕ → List ℕ → (ℕ → ℕ) → ℕ → ℕ
write_cells a bytes f i = if leb a i && ltb i (a + length bytes) then at bytes (i - a) else f i

abbrev pub ideal : Eeprom
ideal = record {
  State = ℕ → ℕ;
  read = λ a n f. done (some (window (λ i. f i % 256) a n)) f;
  write = λ a bytes f. done true (write_cells a bytes f);
  cell = λ f i. f i % 256;
}

at-lt : (xs : List ℕ) (i : ℕ) → Bytes xs → at xs i % 256 ≡ at xs i
at-lt [] i h = refl
at-lt (x ∷ xs) zero (hx, h) = omega arith
at-lt (x ∷ xs) (suc i) (hx, h) = at-lt xs i h

written :
    (a : ℕ) (bytes : List ℕ) (f : ℕ → ℕ)
    → Bytes bytes
    → window (λ i. write_cells a bytes f i % 256) a (length bytes) ≡ bytes
written a bytes f h =
    window_eq (λ i. write_cells a bytes f i % 256) bytes a
      λ j k. ap (λ n. n % 256) (inside j k) ∙ at-lt bytes j h
  where
    inside : (j : ℕ) → j < length bytes → write_cells a bytes f (a + j) ≡ at bytes j
    inside j k = ground arith

unwritten :
    (a : ℕ) (bytes : List ℕ) (f : ℕ → ℕ) (i : ℕ)
    → (i < a) ⊎ (a + length bytes ≤ i)
    → write_cells a bytes f i ≡ f i
unwritten a bytes f i h = ground arith

written_one : (a b : ℕ) (f : ℕ → ℕ) → b < 256 → write_cells a (b ∷ []) f a % 256 ≡ b
written_one a b f h = ground arith

written_to :
    (a : ℕ) (bytes : List ℕ) (f f' : ℕ → ℕ)
    → Bytes bytes
    → ideal.write a bytes f ≡ done true f'
    → window (ideal.cell f') a (length bytes) ≡ bytes
written_to a bytes f f' hb h =
    ap (λ (r : Run (ℕ → ℕ) Bool). window (λ i. final r i % 256) a (length bytes)) (sym h)
    ∙ written a bytes f hb

pub ideal-IsEeprom : IsEeprom ideal
ideal-IsEeprom = record {
  cell_byte = λ f i. omega arith;
  read_keeps = λ a n f i. refl;
  read_true = λ a n f f' bytes h. cc h;
  write_outside = λ a bytes f i h. ap (λ n. n % 256) (unwritten a bytes f i h);
  write_true = written_to;
  write_byte = λ a b f h. inr (written_one a b f h);
}

ideal-IsWorking : IsWorking ideal
ideal-IsWorking = record {
  reads = λ a n f. (window (λ i. f i % 256) a n, f, refl);
  writes = λ a bytes f. (write_cells a bytes f, refl);
}

-- Settings for a pool: the default MAC, a host and a worker, and an empty password.
abbrev host_text : List ℕ
host_text = b'p' ∷ b'o' ∷ b'o' ∷ b'l' ∷ b'.' ∷ b'i' ∷ b'o' ∷ []

abbrev pub pool : MinerSettings
pool = record {
  mac = 2 ∷ 0 ∷ 0 ∷ 0x11 ∷ 0x22 ∷ 0x33 ∷ [];
  port = 3333;
  host = host_text ++ replicate 89 0;
  worker = b'w' ∷ replicate 127 0;
  password = replicate 64 0;
}

pub pool-IsTyped : IsTyped pool
pool-IsTyped = record {
  mac_size = refl;
  port_size = omega arith;
  host_size = refl;
  worker_size = refl;
  password_size = refl;
  mac_bytes = omega arith;
  host_bytes =
      Bytes-append host_text (replicate 89 0) (omega arith) (Bytes-replicate 89 0 (omega arith));
  worker_bytes = (omega arith, Bytes-replicate 127 0 (omega arith));
  password_bytes = Bytes-replicate 64 0 (omega arith);
}

pool_valid : settings_valid pool ≡ true
unfolding settings_valid
pool_valid = refl

defaults_valid : settings_valid settings_defaults ≡ true
unfolding settings_valid settings_defaults
defaults_valid = refl

abbrev pub blank : ℕ → ℕ
blank i = 0xff

abbrev blank_cells : ℕ → ℕ
blank_cells = ideal.cell blank

settings_save-Saved_example : Saved ideal pool (ideal.cell blank) (settings_save ideal pool blank)
settings_save-Saved_example = settings_save-Saved ideal ideal-IsEeprom pool blank pool-IsTyped

settings_save-load_example :
    (s1 : ℕ → ℕ) × (s2 : ℕ → ℕ) × (settings_save ideal pool blank ≡ done true s1)
    × (settings_load ideal s1 ≡ done (stored, pool) s2)
settings_save-load_example =
    settings_save-load ideal ideal-IsEeprom ideal-IsWorking pool blank pool-IsTyped pool_valid

blank_load : settings_load ideal blank ≡ done (defaulted, settings_defaults) blank
unfolding settings_load read_slots read_first read_second select load_from record_valid unpack get32
    bytes_eq
blank_load = refl

settings_load-Loaded_example :
    Loaded (ReadFails ideal blank) blank_cells defaulted settings_defaults
    × ((i : ℕ) → blank_cells i ≡ blank_cells i)
settings_load-Loaded_example =
    settings_load-Loaded ideal ideal-IsEeprom blank blank defaulted settings_defaults blank_load
