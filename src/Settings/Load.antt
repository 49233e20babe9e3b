-- ===== src/Settings/Load.antt =====
-- What `settings_load` returns, against the settings that the memory holds.
use scu35_bitcoin_lottery_mi.Base.{
  ℕ, ◌≡◌, refl, sym, ap, subst, List, ◌∙◌, ◌⊎◌, inl, inr, true, Option, none, some,
}
use scu35_bitcoin_lottery_mi.Settings.{
  MinerSettings, settings_valid, settings_defaults, record_valid,
}
use scu35_bitcoin_lottery_mi.Settings.Eeprom.{Run, done, off, Eeprom, IsEeprom}
use scu35_bitcoin_lottery_mi.Settings.Saved.{record_valid_parts}
use scu35_bitcoin_lottery_mi.Settings.Slots.{
  Active, unreadable, first, second, none_valid, read_slots, read_first, read_second, select,
  settings_load, load_from, LoadCode, io_failure, defaulted, stored,
}
use scu35_bitcoin_lottery_mi.Settings.Current.{
  current, active_in, settings_in, Selected, neither, is_first, is_second, select_cases,
}
use scu35_bitcoin_lottery_mi.Settings.Save.{Found, read_slots-Found}

-- The read of a slot of 512 bytes fails: of the first one, or of the second one behind it.
abbrev pub ReadFails : (e : Eeprom) → e.State → Type 0
ReadFails e st =
    ((s1 : e.State) × (e.read 0x1000 512 st ≡ done none s1))
    ⊎ ((b : List ℕ) × (s1 : e.State) × (s2 : e.State) × (e.read 0x1000 512 st ≡ done (some b) s1)
        × (e.read 0x1200 512 s1 ≡ done none s2))

-- The meaning of the codes, for a memory `f`; `Failed` is that a read has failed.
abbrev pub Loaded : Type 0 → (ℕ → ℕ) → LoadCode → MinerSettings → Type 0
Loaded Failed f io_failure s = Failed × (s ≡ settings_defaults)
Loaded Failed f defaulted s = (current f ≡ none) × (s ≡ settings_defaults)
Loaded Failed f stored s = (current f ≡ some s) × (settings_valid s ≡ true)

abbrev HoldsValid : Active → Type 0
HoldsValid (first b) = record_valid b ≡ true
HoldsValid (second b) = record_valid b ≡ true
HoldsValid _ = Unit

Selected-HoldsValid : (b0 b1 : List ℕ) (a : Active) → Selected b0 b1 a → HoldsValid a
Selected-HoldsValid b0 b1 _ (neither _ _) = tt
Selected-HoldsValid b0 b1 _ (is_first h) = h
Selected-HoldsValid b0 b1 _ (is_second h) = h

active_in-HoldsValid : (f : ℕ → ℕ) → HoldsValid (active_in f)
active_in-HoldsValid f = Selected-HoldsValid _ _ (active_in f) (select_cases _ _)

load_from-Loaded :
    (Failed : Type 0) (f : ℕ → ℕ) (a : Active)
    → (a ≡ unreadable → Failed)
    → (a ≡ unreadable) ⊎ (a ≡ active_in f)
    → Loaded Failed f (load_from a).0 (load_from a).1
unfolding load_from current
load_from-Loaded Failed f unreadable fails h = (fails refl, refl)
load_from-Loaded Failed f none_valid fails (inl h) = absurd (cc h)
load_from-Loaded Failed f none_valid fails (inr h) = (ap settings_in (sym h), refl)
load_from-Loaded Failed f (first b) fails (inl h) = absurd (cc h)
load_from-Loaded Failed f (first b) fails (inr h) = (
  ap settings_in (sym h),
  (record_valid_parts b
      (subst HoldsValid {x = active_in f} {y = first b} (sym h) (active_in-HoldsValid f))).1,
)
load_from-Loaded Failed f (second b) fails (inl h) = absurd (cc h)
load_from-Loaded Failed f (second b) fails (inr h) = (
  ap settings_in (sym h),
  (record_valid_parts b
      (subst HoldsValid {x = active_in f} {y = second b} (sym h) (active_in-HoldsValid f))).1,
)

readable : (b0 b1 : List ℕ) (a : Active) → Selected b0 b1 a → a ≡ unreadable → ⊥
readable b0 b1 _ (neither _ _) q = cc q
readable b0 b1 _ (is_first _) q = cc q
readable b0 b1 _ (is_second _) q = cc q

module _ (e : Eeprom) (law : IsEeprom e) where
  open e use {State, read, cell}

  second_fails :
      (st s1 t : State) (b : List ℕ) (r : Run State (Option (List ℕ)))
      → read 0x1000 512 st ≡ done (some b) s1
      → read 0x1200 512 s1 ≡ r
      → ◌≡◌ {A = Run State Active}
          (elim r [ done bytes s' ↦ read_second e b bytes s' | off s' ↦ off s' ])
          (done unreadable t)
      → ReadFails e st
  unfolding read_second
  second_fails st s1 t b (done none s2) h k q = inr (b, s1, s2, h, k)
  second_fails st s1 t b (done (some b1) s2) h k q =
      absurd (readable b b1 (select b b1) (select_cases b b1) (cc q))
  second_fails st s1 t b (off s2) h k q = absurd (cc q)

  first_fails :
      (st t : State) (r : Run State (Option (List ℕ)))
      → read 0x1000 512 st ≡ r
      → ◌≡◌ {A = Run State Active}
          (elim r [ done bytes s' ↦ read_first e bytes s' | off s' ↦ off s' ])
          (done unreadable t)
      → ReadFails e st
  unfolding read_first
  first_fails st t (done none s1) h q = inl (s1, h)
  first_fails st t (done (some b) s1) h q = second_fails st s1 t b (read 0x1200 512 s1) h refl q
  first_fails st t (off s1) h q = absurd (cc q)

  read_slots-ReadFails : (st t : State) → read_slots e st ≡ done unreadable t → ReadFails e st
  unfolding read_slots
  read_slots-ReadFails st t q = first_fails st t (read 0x1000 512 st) refl q

  -- On an EEPROM that keeps its laws, a load that returns changes no byte. It returns the settings
  -- that the EEPROM holds, which are valid, with 1; the defaults with 0, and it holds none; or the
  -- defaults with -1, and the read of the first slot, or that of the second behind it, has failed.
  pub settings_load-Loaded :
      (st s' : State) (code : LoadCode) (s : MinerSettings)
      → settings_load e st ≡ done (code, s) s'
      → Loaded (ReadFails e st) (cell st) code s × ((i : ℕ) → cell s' i ≡ cell st i)
  unfolding settings_load
  settings_load-Loaded st s' code s h =
      by_run (read_slots e st) (read_slots-Found e law st) (λ t q. read_slots-ReadFails st t q) h
    where
      by_run :
          (r : Run State Active)
          → Found e law st r
          → ((t : State) → r ≡ done unreadable t → ReadFails e st)
          → ◌≡◌ {A = Run State (LoadCode × MinerSettings)}
              (elim r [ done a t ↦ done (load_from a) t | off t ↦ off t ])
              (done (code, s) s')
          → Loaded (ReadFails e st) (cell st) code s × ((i : ℕ) → cell s' i ≡ cell st i)
      by_run (done a t) fd fails q =
          let loaded : load_from a ≡ (code, s) = cc q in
          let same : t ≡ s' = cc q in
          (
            subst (λ (p : LoadCode × MinerSettings). Loaded (ReadFails e st) (cell st) p.0 p.1)
                loaded
                (load_from-Loaded (ReadFails e st) (cell st) a (λ k. fails t (ap (λ x. done x t) k))
                  (fd.found a t refl)),
            λ i. ap (λ (u : State). cell u i) (sym same) ∙ fd.same i,
          )
      by_run (off t) fd fails q = absurd (cc q)
