-- ===== src/EepromDriver/Examples.antt =====
-- A controller that is never busy, and the theorem at a write over the end of a page.
use scu35_bitcoin_lottery_mi.Base.{
  ℕ, ◌+◌, ◌≡◌, refl, false, some, List, [], ◌∷◌, arith, ◌==◌, if◌then◌else◌,
}
use scu35_bitcoin_lottery_mi.EepromDriver.{Controller, eeprom_write, eeprom_read}
use scu35_bitcoin_lottery_mi.EepromDriver.Reads.{EndsWith, eeprom_read-EndsWith}
use scu35_bitcoin_lottery_mi.EepromDriver.Pages.{joined, InPages, write_pages, eeprom_write-pages}

-- The state counts the accesses.
abbrev idle : Controller
idle = record {
  State = ℕ;
  rd = λ r s. (if r == 0x104 then 0x80 else 0, s + 1);
  wr = λ r v s. s + 1;
  delay = λ s. s + 1;
}

below_slots : eeprom_write idle 0xfff (1 ∷ []) 5 ≡ some (false, 5)
unfolding eeprom_write
below_slots = refl

eeprom_write-pages_example :
    (parts : List (List ℕ)) × (joined parts ≡ 1 ∷ 2 ∷ 3 ∷ [])
    × InPages 0x103e parts
    × ((s : ℕ) → eeprom_write idle 0x103e (1 ∷ 2 ∷ 3 ∷ []) s ≡ write_pages idle 0x103e parts s)
eeprom_write-pages_example =
    eeprom_write-pages idle 0x103e (1 ∷ 2 ∷ 3 ∷ []) (omega arith) (omega arith)

eeprom_read-EndsWith_example : EndsWith idle 20 (eeprom_read idle 0x1000 20 0)
eeprom_read-EndsWith_example = eeprom_read-EndsWith idle 0x1000 20 0
