-- ===== src/Settings/Current.antt =====
-- The settings that a memory holds, and how they depend on the two slots.
use scu35_bitcoin_lottery_mi.Base.{
  ℕ, ◌+◌, ◌*◌, ◌^◌, ◌≤◌, ◌<◌, ◌≡◌, refl, ap, ap₂, ◌∙◌, ◌⊎◌, inl, inr, List, arith, Bool, true,
  false, Option, none, some, Bool-cases, at, at-window, window, window_ext, u32, bit_or-add_low,
  if◌then◌else◌,
}
use scu35_bitcoin_lottery_mi.Settings.{
  MinerSettings, slot0, slot1, get32, settings_valid, unpack, record_valid,
}
use scu35_bitcoin_lottery_mi.Settings.Record.{IsTyped}
use scu35_bitcoin_lottery_mi.Settings.Saved.{
  IsCommitted, record_valid_parts, unpack_eq, seq_eq, valid_eq,
}
use scu35_bitcoin_lottery_mi.Settings.Slots.{
  Active, unreadable, none_valid, first, second, newer, select, next_seq, next_slot,
}

abbrev pub settings_in : Active → Option MinerSettings
settings_in unreadable = none
settings_in none_valid = none
settings_in (first b) = some (unpack b)
settings_in (second b) = some (unpack b)

-- The slot in use, and the settings in it. `none` stands for the defaults.
abbrev pub active_in : (ℕ → ℕ) → Active
active_in f = select (window f slot0 512) (window f slot1 512)

unfoldable pub current : (ℕ → ℕ) → Option MinerSettings
current f = settings_in (active_in f)

-- `g` is `f` but for the 512 bytes from `a` on.
abbrev pub Untouched : (ℕ → ℕ) → (ℕ → ℕ) → ℕ → Type 0
Untouched f g a = (i : ℕ) → (i < a) ⊎ (a + 512 ≤ i) → g i ≡ f i

-- Which of the two slots is selected, and why.
pub data Selected (b0 b1 : List ℕ) : Active → Type 0 where
  neither : record_valid b0 ≡ false → record_valid b1 ≡ false → Selected b0 b1 none_valid
  is_first : record_valid b0 ≡ true → Selected b0 b1 (first b0)
  is_second : record_valid b1 ≡ true → Selected b0 b1 (second b1)

pub select_cases : (b0 b1 : List ℕ) → Selected b0 b1 (select b0 b1)
unfolding select
select_cases b0 b1 = by_validity (record_valid b0) (record_valid b1) refl refl
  where
    by_validity :
        (v0 v1 : Bool)
        → record_valid b0 ≡ v0
        → record_valid b1 ≡ v1
        → Selected b0 b1 (
            if v0
            then (if v1
                then (if newer (get32 b0 8) (get32 b1 8) then second b1 else first b0)
                else first b0)
            else (if v1 then second b1 else none_valid))
    by_validity true true h k = by_age (newer (get32 b0 8) (get32 b1 8))
      where
        by_age : (n : Bool) → Selected b0 b1 (if n then second b1 else first b0)
        by_age true = is_second k
        by_age false = is_first h
    by_validity true false h k = is_first h
    by_validity false true h k = is_second k
    by_validity false false h k = neither h k

select_first :
    (b0 b1 : List ℕ) → record_valid b0 ≡ true → record_valid b1 ≡ false → select b0 b1 ≡ first b0
unfolding select
select_first b0 b1 h k = rw (h, k) refl

select_second :
    (b0 b1 : List ℕ) → record_valid b0 ≡ false → record_valid b1 ≡ true → select b0 b1 ≡ second b1
unfolding select
select_second b0 b1 h k = rw (h, k) refl

select_none :
    (b0 b1 : List ℕ) → record_valid b0 ≡ false → record_valid b1 ≡ false → select b0 b1 ≡ none_valid
unfolding select
select_none b0 b1 h k = rw (h, k) refl

select-newer :
    (b0 b1 : List ℕ)
    → record_valid b0 ≡ true
    → record_valid b1 ≡ true
    → newer (get32 b0 8) (get32 b1 8) ≡ true
    → select b0 b1 ≡ second b1
unfolding select
select-newer b0 b1 h k n = rw (h, k, n) refl

select_older :
    (b0 b1 : List ℕ)
    → record_valid b0 ≡ true
    → record_valid b1 ≡ true
    → newer (get32 b0 8) (get32 b1 8) ≡ false
    → select b0 b1 ≡ first b0
unfolding select
select_older b0 b1 h k n = rw (h, k, n) refl

-- A slot whose commit byte is cleared is not valid.
cleared_invalid : (f : ℕ → ℕ) (a : ℕ) → f (a + 511) ≡ 0 → record_valid (window f a 512) ≡ false
cleared_invalid f a h = elim (Bool-cases (record_valid (window f a 512))) [
  | inl v ↦ absurd (
      omega (arith, (record_valid_parts (window f a 512) v).0, at-window f a 512 511 (omega arith)))
  | inr v ↦ v
]

kept_slot :
    (f g : ℕ → ℕ) (a b : ℕ)
    → Untouched f g a
    → (b + 512 ≤ a) ⊎ (a + 512 ≤ b)
    → window g b 512 ≡ window f b 512
kept_slot f g a b u h = window_ext g f b b 512 λ j k. u (b + j) (omega arith)

-- The sum that `get32` of four bytes is.
get32-lt :
    (b : List ℕ) (p : ℕ)
    → at b p < 256
    → at b (p + 1) < 256
    → at b (p + 2) < 256
    → at b (p + 3) < 256
    → get32 b p < 2 ^ 32
unfolding get32
get32-lt b p h0 h1 h2 h3 =
    let low = at b p in
    let mid = at b (p + 1) * 2 ^ 8 + low in
    let high = at b (p + 2) * 2 ^ 16 + mid in
    rw
      (
        bit_or-add_low 8 (at b (p + 1)) low h0,
        bit_or-add_low 16 (at b (p + 2)) mid (omega arith),
        bit_or-add_low 24 (at b (p + 3)) high (omega arith),
      )
      (omega arith)

abbrev pub IsMemory : (ℕ → ℕ) → Type 0
IsMemory f = (i : ℕ) → f i < 256

seq-lt : (f : ℕ → ℕ) (a : ℕ) → IsMemory f → get32 (window f a 512) 8 < 2 ^ 32
seq-lt f a m =
    get32-lt (window f a 512) 8 (byte 8 (omega arith)) (byte 9 (omega arith))
      (byte 10 (omega arith)) (byte 11 (omega arith))
  where
    byte : (i : ℕ) → i < 512 → at (window f a 512) i < 256
    byte i h = rw (at-window f a 512 i h) (m (a + i))

-- The successor of a sequence number is newer than it, and not the other way round.
newer_suc : (x : ℕ) → x < 2 ^ 32 → (newer x (u32 (x + 1)) ≡ true) × (newer (u32 (x + 1)) x ≡ false)
unfolding newer
newer_suc x h = (ground arith, ground arith)

module _ (f g : ℕ → ℕ) where
  abbrev w0 : List ℕ
  w0 = window f slot0 512

  abbrev w1 : List ℕ
  w1 = window f slot1 512

  slot0_kept : Untouched f g slot1 → window g slot0 512 ≡ w0
  slot0_kept u = kept_slot f g slot1 slot0 u (inl (omega arith))

  slot1_kept : Untouched f g slot0 → window g slot1 512 ≡ w1
  slot1_kept u = kept_slot f g slot0 slot1 u (inr (omega arith))

  cleared_case :
      (a : Active)
      → Selected w0 w1 a
      → Untouched f g (next_slot a)
      → g (next_slot a + 511) ≡ 0
      → active_in g ≡ a
  unfolding next_slot
  cleared_case _ (neither h k) u z =
      select_none _ _ (cleared_invalid g slot0 z) (ap record_valid (slot1_kept u) ∙ k)
  cleared_case _ (is_first h) u z =
      select_first _ _ (ap record_valid (slot0_kept u) ∙ h) (cleared_invalid g slot1 z)
      ∙ ap first (slot0_kept u)
  cleared_case _ (is_second h) u z =
      select_second _ _ (cleared_invalid g slot0 z) (ap record_valid (slot1_kept u) ∙ h)
      ∙ ap second (slot1_kept u)

  -- While the commit byte of the slot to be written is 0, the settings are what they were.
  pub cleared_current :
      Untouched f g (next_slot (active_in f))
      → g (next_slot (active_in f) + 511) ≡ 0
      → current g ≡ current f
  unfolding current
  cleared_current u z = ap settings_in (cleared_case (active_in f) (select_cases w0 w1) u z)

  -- Once the new record is committed, it is selected.
  committed_case :
      (s : MinerSettings) (a : Active)
      → IsTyped s
      → settings_valid s ≡ true
      → IsMemory f
      → Selected w0 w1 a
      → Untouched f g (next_slot a)
      → IsCommitted s (next_seq a) (window g (next_slot a) 512)
      → settings_in (active_in g) ≡ some s
  unfolding next_slot next_seq
  committed_case s _ sized v m (neither h k) u c =
      ap settings_in
        (select_first _ _ (valid_eq s sized 0 _ c v) (ap record_valid (slot1_kept u) ∙ k))
      ∙ ap some (unpack_eq s sized 0 _ c)
  committed_case s _ sized v m (is_first h) u c =
      let x = get32 w0 8 in
      let new = window g slot1 512 in
      ap settings_in (
        select-newer (window g slot0 512) new (ap record_valid (slot0_kept u) ∙ h)
          (valid_eq s sized (u32 (x + 1)) new c v)
          (ap₂ newer (ap (λ (b : List ℕ). get32 b 8) (slot0_kept u))
              (seq_eq s sized (u32 (x + 1)) new c (omega arith))
            ∙ (newer_suc x (seq-lt f slot0 m)).0))
      ∙ ap some (unpack_eq s sized (u32 (x + 1)) new c)
  committed_case s _ sized v m (is_second h) u c =
      let x = get32 w1 8 in
      let new = window g slot0 512 in
      ap settings_in (
        select_older new (window g slot1 512) (valid_eq s sized (u32 (x + 1)) new c v)
          (ap record_valid (slot1_kept u) ∙ h)
          (ap₂ newer (seq_eq s sized (u32 (x + 1)) new c (omega arith))
              (ap (λ (b : List ℕ). get32 b 8) (slot1_kept u))
            ∙ (newer_suc x (seq-lt f slot1 m)).1))
      ∙ ap some (unpack_eq s sized (u32 (x + 1)) new c)

  pub committed_current :
      (s : MinerSettings)
      → IsTyped s
      → settings_valid s ≡ true
      → IsMemory f
      → Untouched f g (next_slot (active_in f))
      → IsCommitted s (next_seq (active_in f)) (window g (next_slot (active_in f)) 512)
      → current g ≡ some s
  unfolding current
  committed_current s sized v m u c =
      committed_case s (active_in f) sized v m (select_cases w0 w1) u c
