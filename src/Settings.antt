-- ===== src/Settings.antt =====
-- software/common/settings.c and settings.h: the miner's settings and the record that holds them in
-- a slot of the EEPROM. Arrays are lists of bytes; `char` is read as `unsigned char`, as the code
-- casts it where that matters.
pub mod Record
pub mod Saved
pub mod Eeprom
pub mod Slots
pub mod Current
pub mod Atomic
pub mod Save
pub mod Load
pub mod Works
pub mod Examples
use scu35_bitcoin_lottery_mi.Base.{
  ℕ, zero, suc, ◌+◌, ◌-◌, ◌*◌, ◌%◌, ◌^◌, Bool, true, false, ◌&&◌, ◌||◌, not, List, [], ◌∷◌, ◌++◌,
  map, ltb, leb, ◌==◌, if◌then◌else◌, at, take, drop, replicate, store_at, bytes_eq, u8, u16, u32,
  ◌<<<◌, ◌>>>◌, bit_or, bit_and, bit_xor,
}

pub record MinerSettings : Type 0 where
  pub mac : List ℕ
  pub port : ℕ
  pub host : List ℕ
  pub worker : List ℕ
  pub password : List ℕ

abbrev pub slot0 : ℕ
slot0 = 0x1000

abbrev pub slot1 : ℕ
slot1 = 0x1200

abbrev pub commit : ℕ
commit = 0xa5

-- `u32(p)`: four bytes at `p`, lowest first.
unfoldable pub get32 : List ℕ → ℕ → ℕ
get32 b p =
    bit_or (bit_or (bit_or (at b p) (at b (p + 1) <<< 8)) (at b (p + 2) <<< 16))
      (at b (p + 3) <<< 24)

-- The four bytes that `put32` writes.
unfoldable pub put32 : ℕ → List ℕ
put32 n = map (λ i. u8 (n >>> (8 * i))) (0 ∷ 1 ∷ 2 ∷ 3 ∷ [])

-- One round of the inner loop of `crc`; `0U - (c & 1U)` wraps.
crc_bit : ℕ → ℕ
crc_bit c = bit_xor (c >>> 1) (bit_and (u32 (2 ^ 32 - bit_and c 1)) 0xedb88320)

crc_bits : ℕ → ℕ → ℕ
crc_bits zero c = c
crc_bits (suc rounds) c = crc_bits rounds (crc_bit c)

crc_loop : ℕ → List ℕ → ℕ
crc_loop c [] = c
crc_loop c (p ∷ ps) = crc_loop (crc_bits 8 (bit_xor c p)) ps

-- `~c` on 32 bits is `2 ^ 32 - 1 - c`.
unfoldable pub crc : List ℕ → ℕ
unfolding crc_bit crc_bits crc_loop
crc p = 2 ^ 32 - 1 - crc_loop (2 ^ 32 - 1) p

unfoldable pub settings_defaults : MinerSettings
settings_defaults = record {
  mac = 2 ∷ 0 ∷ 0 ∷ 0x11 ∷ 0x22 ∷ 0x33 ∷ [];
  port = 3333;
  host = replicate 96 0;
  worker = replicate 128 0;
  password = replicate 64 0;
}

-- The loop over an array: a NUL ends the string, and the end of the array is a string without one.
string_ok : List ℕ → Bool
string_ok [] = false
string_ok (c ∷ cs) =
    let rest = string_ok cs in
    if c == 0
    then true
    else (if ltb c 32 || ltb 126 c || c == 0x22 || c == 0x5c then false else rest)

host_char : ℕ → Bool
host_char c =
    (leb b'a' c && leb c b'z')
    || (leb b'A' c && leb c b'Z')
    || (leb b'0' c && leb c b'9')
    || c == b'.'
    || c == b'-'

-- The loop over the host up to its NUL. It runs only once `string_ok` has found one, so the end of
-- the array is not reached.
host_ok : List ℕ → Bool
host_ok [] = true
host_ok (c ∷ cs) =
    let rest = host_ok cs in if c == 0 then true else (if host_char c then rest else false)

any_of : ℕ → List ℕ → ℕ
any_of any [] = any
any_of any (m ∷ ms) = any_of (bit_or any m) ms

unfoldable pub settings_valid : MinerSettings → Bool
unfolding string_ok host_char host_ok any_of
settings_valid s =
    if any_of 0 s.mac == 0 || not (bit_and (at s.mac 0) 1 == 0) || s.port == 0
    then false
    else (if not (string_ok s.host) || not (string_ok s.worker) || not (string_ok s.password)
        then false
        else host_ok s.host)

-- `memcpy` of the `n` bytes at `b + p`.
abbrev pub slice : List ℕ → ℕ → ℕ → List ℕ
slice b p n = take n (drop p b)

unfoldable pub unpack : List ℕ → MinerSettings
unpack b = record {
  mac = slice b 16 6;
  port = u16 (bit_or (at b 22) (at b 23 <<< 8));
  host = slice b 24 96;
  worker = slice b 120 128;
  password = slice b 248 64;
}

abbrev pub magic : List ℕ
magic = b'S' ∷ b'3' ∷ b'5' ∷ b'C' ∷ []

unfoldable pub record_valid : List ℕ → Bool
record_valid b =
    if not (bytes_eq (take 4 b) magic)
      || not (at b 4 == 1)
      || not (at b 511 == commit)
      || not (get32 b 504 == crc (take 504 b))
    then false
    else settings_valid (unpack b)

-- `b[512] = {0}`.
pub zeroed : List ℕ
zeroed = replicate 512 0

-- The record that `settings_save` builds in `b`, up to its CRC and with it; the commit byte is 0.
pub record_fields : MinerSettings → ℕ → List ℕ
record_fields s seq =
    let b0 = store_at zeroed 0 magic in
    let b1 = store_at b0 4 (1 ∷ []) in
    let b2 = store_at b1 8 (put32 seq) in
    let b3 = store_at b2 16 s.mac in
    let b4 = store_at b3 22 (u8 s.port ∷ []) in
    let b5 = store_at b4 23 (u8 (s.port >>> 8) ∷ []) in
    let b6 = store_at b5 24 s.host in
    let b7 = store_at b6 120 s.worker in store_at b7 248 s.password

unfoldable pub record_of : MinerSettings → ℕ → List ℕ
unfolding record_fields
record_of s seq = let b = record_fields s seq in store_at b 504 (put32 (crc (take 504 b)))
