-- ===== src/Settings/Eeprom.antt =====
-- The callbacks `settings_read` and `settings_write` of settings.h, which the code takes from
-- eeprom.c: an EEPROM whose accesses may fail, and which may lose power during any of them.
use scu35_bitcoin_lottery_mi.Base.{
  ℕ, ◌+◌, ◌≤◌, ◌<◌, ◌≡◌, ◌⊎◌, List, [], ◌∷◌, Bool, true, Option, some, length, window, Bytes,
}

-- A call returned in a new state, or the power went off in it.
pub data Run (S : Type 0) (A : Type 0) : Type 0 where
  done : A → S → Run S A
  off : S → Run S A

-- The state that a call leaves behind.
abbrev pub final : {S A : Type 0} → Run S A → S
final (done a s) = s
final (off s) = s

-- `read` gives the bytes, or `none` for a code other than 0; `write` gives whether the code is 0.
pub record Eeprom : Type 1 where
  pub State : Type 0
  pub read : ℕ → ℕ → State → Run State (Option (List ℕ))
  pub write : ℕ → List ℕ → State → Run State Bool
  pub cell : State → ℕ → ℕ

-- What is relied on. A read changes no cell, and what it returns is there. A write changes no cell
-- outside its range, its bytes are there if it says so, and one byte is written or is not.
pub record IsEeprom (e : Eeprom) : Type 0 where
  pub cell_byte : (s : e.State) (i : ℕ) → e.cell s i < 256
  pub read_keeps : (a n : ℕ) (s : e.State) (i : ℕ) → e.cell (final (e.read a n s)) i ≡ e.cell s i
  pub read_true :
      (a n : ℕ) (s s' : e.State) (bytes : List ℕ)
      → e.read a n s ≡ done (some bytes) s'
      → bytes ≡ window (e.cell s) a n
  pub write_outside :
      (a : ℕ) (bytes : List ℕ) (s : e.State) (i : ℕ)
      → (i < a) ⊎ (a + length bytes ≤ i)
      → e.cell (final (e.write a bytes s)) i ≡ e.cell s i
  pub write_true :
      (a : ℕ) (bytes : List ℕ) (s s' : e.State)
      → Bytes bytes
      → e.write a bytes s ≡ done true s'
      → window (e.cell s') a (length bytes) ≡ bytes
  pub write_byte :
      (a b : ℕ) (s : e.State)
      → b < 256
      → (e.cell (final (e.write a (b ∷ []) s)) a ≡ e.cell s a)
        ⊎ (e.cell (final (e.write a (b ∷ []) s)) a ≡ b)
