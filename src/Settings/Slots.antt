-- ===== src/Settings/Slots.antt =====
-- `read_slots`, `settings_load` and `settings_save` of software/common/settings.c, over the
-- callbacks. A call that loses power does not return.
use scu35_bitcoin_lottery_mi.Base.{
  ℕ, ◌+◌, ◌-◌, ◌%◌, ◌^◌, List, [], ◌∷◌, Bool, true, false, ◌&&◌, not, Option, none, some, ltb,
  if◌then◌else◌, take, bytes_eq, u32,
}
use scu35_bitcoin_lottery_mi.Settings.{
  MinerSettings, slot0, slot1, commit, get32, settings_defaults, settings_valid, unpack,
  record_valid, record_of,
}
use scu35_bitcoin_lottery_mi.Settings.Eeprom.{Run, done, off, Eeprom}

-- What `read_slots` returns: -2, -1, 0 and 1, the last two with the slot's 512 bytes.
pub data Active : Type 0 where
  unreadable none_valid : Active
  first second : List ℕ → Active

-- `(int32_t)(u32(b[1]+8) - u32(b[0]+8)) > 0`, the difference taken modulo 2 ^ 32.
unfoldable pub newer : ℕ → ℕ → Bool
newer seq0 seq1 = let d = (seq1 + 2 ^ 32 - seq0) % 2 ^ 32 in ltb 0 d && ltb d (2 ^ 31)

unfoldable pub select : List ℕ → List ℕ → Active
select b0 b1 =
    if record_valid b0
    then (if record_valid b1
        then (if newer (get32 b0 8) (get32 b1 8) then second b1 else first b0)
        else first b0)
    else (if record_valid b1 then second b1 else none_valid)

-- The codes of `settings_load`: -1, 0 and 1.
pub data LoadCode : Type 0 where
  io_failure defaulted stored : LoadCode

unfoldable pub load_from : Active → LoadCode × MinerSettings
load_from unreadable = (io_failure, settings_defaults)
load_from none_valid = (defaulted, settings_defaults)
load_from (first b) = (stored, unpack b)
load_from (second b) = (stored, unpack b)

-- The sequence number and the address of the slot that a save writes.
unfoldable pub next_seq : Active → ℕ
next_seq unreadable = 0
next_seq none_valid = 0
next_seq (first b) = u32 (get32 b 8 + 1)
next_seq (second b) = u32 (get32 b 8 + 1)

unfoldable pub next_slot : Active → ℕ
next_slot (first b) = slot1
next_slot _ = slot0

unfoldable pub is_unreadable : Active → Bool
is_unreadable unreadable = true
is_unreadable _ = false

module _ (e : Eeprom) where
  open e use {State, read, write}

  abbrev pub M : Type 0 → Type 0
  M A = State → Run State A

  infixl 5 ◌>>=◌
  abbrev pub ◌>>=◌ : {A B : Type 0} → M A → (A → M B) → M B
  ◌>>=◌ m k s = elim (m s) [ done a s' ↦ k a s' | off s' ↦ off s' ]

  -- `||` of two calls that return 0 for success: the second is made if the first succeeds.
  abbrev pub and_then : M Bool → M Bool → M Bool
  and_then m k = m >>= λ ok. if ok then k else done false

  unfoldable pub read_second : List ℕ → Option (List ℕ) → M Active
  read_second b0 none = done unreadable
  read_second b0 (some b1) = done (select b0 b1)

  unfoldable pub read_first : Option (List ℕ) → M Active
  read_first none = done unreadable
  read_first (some b0) = read slot1 512 >>= read_second b0

  unfoldable pub read_slots : M Active
  read_slots = read slot0 512 >>= read_first

  unfoldable pub settings_load : M (LoadCode × MinerSettings)
  settings_load = read_slots >>= λ active. done (load_from active)

  -- `read(addr, verify, 512)`, and then a test of what was read.
  unfoldable pub verified : ℕ → (List ℕ → Bool) → M Bool
  verified addr test =
      read addr 512 >>= λ bytes. done (elim bytes [ none ↦ false | some v ↦ test v ])

  -- The writes of a save: the commit byte is cleared, the record is written without it and read
  -- back, and the commit byte is written last.
  unfoldable pub save_record : ℕ → List ℕ → M Bool
  save_record addr b = and_then (write (addr + 511) (0 ∷ [])) (
      and_then (write addr (take 511 b)) (
        and_then (verified addr (bytes_eq b))
          (and_then (write (addr + 511) (commit ∷ [])) (verified addr record_valid))))

  unfoldable pub settings_save : MinerSettings → M Bool
  settings_save s =
      if not (settings_valid s)
      then done false
      else (read_slots >>= λ active.
          if is_unreadable active
          then done false
          else save_record (next_slot active) (record_of s (next_seq active)))
