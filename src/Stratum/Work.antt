-- ===== src/Stratum/Work.antt =====
-- `build_header` of software/application/stratum.c: the header of the job with the next value of
-- the second extranonce, and the start of the miner on it.
use scu35_bitcoin_lottery_mi.Base.{
  ℕ, zero, suc, ◌+◌, Bool, true, false, not, List, [], ◌∷◌, Option, none, some, take, at, set,
  replicate, u8, ◌==◌, if◌then◌else◌, ◌>>=◌, c_text,
}
use scu35_bitcoin_lottery_mi.Bitcoin.{bitcoin_build_header, hex_decode, hex_encode}
use scu35_bitcoin_lottery_mi.Sha256.{bitcoin_header_midstate, bitcoin_header_tail_words}
use scu35_bitcoin_lottery_mi.Stratum.{Client, World, write_all, start_range}

-- The bytes of a hex text that has exactly `count` of them.
unfoldable pub exactly : ℕ → Option ℕ × List ℕ → Option (List ℕ)
exactly count (none, out) = none
exactly count (some n, out) = if n == count then some (take n out) else none

-- The loop over the bytes of the second extranonce, from its end, and whether it ran over.
unfoldable pub increment : ℕ → List ℕ → Bool × List ℕ
increment zero extra2 = (false, extra2)
increment (suc i) extra2 =
    let v = u8 (at extra2 i + 1) in
    let out = set extra2 i v in
    let rest = increment i out in
    if not (v == 0) then (false, out) else (if i == 0 then (true, out) else rest)

unfoldable pub after_increment : Bool × List ℕ → Client → Client
after_increment (over, extra2) s = record s {
  extra2 = extra2;
  extra_exhausted = if over then true else s.extra_exhausted;
}

-- The registers of the midstate and of the target, and those of the last words of the header.
unfoldable pub header_registers : List ℕ → List ℕ → List ℕ → List (ℕ × ℕ)
header_registers mid target tail =
    (0x20, at mid 0)
    ∷ (0x60, at target 0)
    ∷ (0x24, at mid 1)
    ∷ (0x64, at target 1)
    ∷ (0x28, at mid 2)
    ∷ (0x68, at target 2)
    ∷ (0x2c, at mid 3)
    ∷ (0x6c, at target 3)
    ∷ (0x30, at mid 4)
    ∷ (0x70, at target 4)
    ∷ (0x34, at mid 5)
    ∷ (0x74, at target 5)
    ∷ (0x38, at mid 6)
    ∷ (0x78, at target 6)
    ∷ (0x3c, at mid 7)
    ∷ (0x7c, at target 7)
    ∷ (0x40, at tail 0)
    ∷ (0x44, at tail 1)
    ∷ (0x48, at tail 2)
    ∷ (0x4c, at tail 3)
    ∷ []

unfoldable pub launch : List ℕ × List ℕ → Client → Client
unfolding header_registers after_increment increment
launch (header, mid) s =
    let registers = header_registers mid s.job.target (bitcoin_header_tail_words header) in
    let written = write_all registers (record s { header = header }) in
    start_range
      (record (after_increment (increment s.extra2_size s.extra2) written) { range_start = 0 })

unfoldable pub name_extra2 : Client → Client
name_extra2 s = record s { extra2_hex = c_text (hex_encode (take s.extra2_size s.extra2)) }

module _ (w : World) where
  -- The header of the job, and its midstate.
  unfoldable pub job_header : Client → List ℕ → Option (List ℕ × List ℕ)
  job_header s time = do
    header ←
        bitcoin_build_header w.unset s.job.version s.job.prev s.job.bits time s.job.coin1 s.extra1
          (take s.extra2_size s.extra2) s.job.coin2 s.job.branches s.header
    mid ← bitcoin_header_midstate w.unset header
    some (header, mid)

  -- The hash functions always return, so `none` stands for a time that is not 4 bytes.
  unfoldable pub header_parts : Client → Option (List ℕ × List ℕ)
  unfolding exactly job_header
  header_parts s = (exactly 4 (hex_decode s.job.time 8 (replicate 4 0) 4) >>= job_header s)

  unfoldable pub build_header : Client → Bool × Client
  unfolding header_parts name_extra2 launch
  build_header s = if s.extra_exhausted then (false, s) else elim (header_parts (name_extra2 s)) [
    | none ↦ (false, name_extra2 s)
    | some parts ↦ (true, launch parts (name_extra2 s))
  ]
