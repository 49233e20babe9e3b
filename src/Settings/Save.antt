-- ===== src/Settings/Save.antt =====
-- `settings_save` and `settings_load` as a whole.
use scu35_bitcoin_lottery_mi.Base.{
  ℕ, ◌≡◌, ◌≢◌, refl, sym, ap, ap₂, ◌∙◌, subst, ◌⊎◌, inl, inr, List, Bool, true, false, not, fun_ext,
  Option, none, some, Bool-cases, window, if◌then◌else◌,
}
use scu35_bitcoin_lottery_mi.Settings.{MinerSettings, slot0, slot1, settings_valid, record_of}
use scu35_bitcoin_lottery_mi.Settings.Eeprom.{Run, done, off, final, Eeprom, IsEeprom}
use scu35_bitcoin_lottery_mi.Settings.Record.{IsTyped}
use scu35_bitcoin_lottery_mi.Settings.Slots.{
  Active, unreadable, select, next_seq, next_slot, is_unreadable, M, ◌>>=◌, read_first, read_second,
  read_slots, save_record, settings_save,
}
use scu35_bitcoin_lottery_mi.Settings.Current.{
  Untouched, current, active_in, Selected, neither, is_first, is_second, select_cases,
}
use scu35_bitcoin_lottery_mi.Settings.Atomic.{Safe, save_record-Safe}

module _ (e : Eeprom) (law : IsEeprom e) where
  open e use {State, read, write, cell}

  -- What `read_slots` finds, and that it changes nothing.
  pub record Found (st : State) (r : Run State Active) : Type 0 where
    pub same : (i : ℕ) → cell (final r) i ≡ cell st i
    pub found :
        (a : Active) (s' : State) → r ≡ done a s' → (a ≡ unreadable) ⊎ (a ≡ active_in (cell st))

  read_moves :
      (a n : ℕ) (st s' : State) (r : Run State (Option (List ℕ)))
      → read a n st ≡ r
      → s' ≡ final r
      → (i : ℕ) → cell s' i ≡ cell st i
  read_moves a n st s' r q h i =
      ap (λ t. cell t i) (h ∙ ap (λ (x : Run State (Option (List ℕ))). final x) (sym q))
      ∙ law.read_keeps a n st i

  gives_up : (st s' : State) → ((i : ℕ) → cell s' i ≡ cell st i) → Found st (done unreadable s')
  gives_up st s' h = record { same = h; found = λ a s'' p. inl (cc p) }

  powers_off : (st s' : State) → ((i : ℕ) → cell s' i ≡ cell st i) → Found st (off s')
  powers_off st s' h = record { same = h; found = λ a s'' p. absurd (cc p) }

  second_Found :
      (st s1 : State) (b0 : List ℕ) (r : Run State (Option (List ℕ)))
      → ((i : ℕ) → cell s1 i ≡ cell st i)
      → b0 ≡ window (cell st) slot0 512
      → read slot1 512 s1 ≡ r
      → Found st (elim r [ done bytes s' ↦ read_second e b0 bytes s' | off s' ↦ off s' ])
  unfolding read_second
  second_Found st s1 b0 (done none s') same h0 q =
      gives_up st s' (λ i. read_moves slot1 512 s1 s' _ q refl i ∙ same i)
  second_Found st s1 b0 (done (some b1) s') same h0 q =
      let h1 : b1 ≡ window (cell st) slot1 512 =
        law.read_true slot1 512 s1 s' b1 q
        ∙ ap (λ (f : ℕ → ℕ). window f slot1 512) (fun_ext same) in
      record {
        same = λ i. read_moves slot1 512 s1 s' _ q refl i ∙ same i;
        found = λ a s'' p. inr (taken a s'' p ∙ ap₂ select h0 h1);
      }
    where
      taken : (a : Active) (s'' : State) → done (select b0 b1) s' ≡ done a s'' → a ≡ select b0 b1
      taken a s'' p = cc p
  second_Found st s1 b0 (off s') same h0 q =
      powers_off st s' (λ i. read_moves slot1 512 s1 s' _ q refl i ∙ same i)

  first_Found :
      (st : State) (r : Run State (Option (List ℕ)))
      → read slot0 512 st ≡ r
      → Found st (elim r [ done bytes s' ↦ read_first e bytes s' | off s' ↦ off s' ])
  unfolding read_first
  first_Found st (done none s') q = gives_up st s' (read_moves slot0 512 st s' _ q refl)
  first_Found st (done (some b0) s') q =
      second_Found st s' b0 (read slot1 512 s') (read_moves slot0 512 st s' _ q refl)
        (law.read_true slot0 512 st s' b0 q) refl
  first_Found st (off s') q = powers_off st s' (read_moves slot0 512 st s' _ q refl)

  pub read_slots-Found : (st : State) → Found st (read_slots e st)
  unfolding read_slots
  read_slots-Found st = first_Found st (read slot0 512 st) refl

  -- A run that stays in the old memory and does not return true.
  idle-Safe :
      (s : MinerSettings) (f : ℕ → ℕ) (r : Run State Bool)
      → ((i : ℕ) → cell (final r) i ≡ f i)
      → ((s' : State) → r ≢ done true s')
      → Safe e s f r
  idle-Safe s f r h n = record {
    whole = inl (ap current (fun_ext h));
    kept = λ s' q. absurd (n s' q);
    outside = λ i _. h i;
  }

  Selected-readable : (b0 b1 : List ℕ) (a : Active) → Selected b0 b1 a → is_unreadable a ≡ false
  unfolding is_unreadable
  Selected-readable b0 b1 _ (neither _ _) = refl
  Selected-readable b0 b1 _ (is_first _) = refl
  Selected-readable b0 b1 _ (is_second _) = refl

  pub active_in-readable : (f : ℕ → ℕ) → is_unreadable (active_in f) ≡ false
  active_in-readable f = Selected-readable _ _ (active_in f) (select_cases _ _)

  module _ (s : MinerSettings) (sized : IsTyped s) (valid : settings_valid s ≡ true) where
    continue_save : Active → M e Bool
    continue_save active =
        if is_unreadable active
        then done false
        else save_record e (next_slot active) (record_of s (next_seq active))

    not_saved :
        (st s' : State) → ((i : ℕ) → cell s' i ≡ cell st i) → Safe e s (cell st) (done false s')
    not_saved st s' same = idle-Safe s (cell st) (done false s') same (λ s'' q. cc q)

    after_found :
        (st s' : State) (a : Active)
        → ((i : ℕ) → cell s' i ≡ cell st i)
        → (a ≡ unreadable) ⊎ (a ≡ active_in (cell st))
        → Safe e s (cell st) (continue_save a s')
    unfolding continue_save is_unreadable
    after_found st s' a same (inl h) =
        subst (λ (x : Active). Safe e s (cell st) (continue_save x s')) (sym h)
          (not_saved st s' same)
    after_found st s' a same (inr h) =
        let save =
          save_record e (next_slot (active_in (cell st)))
            (record_of s (next_seq (active_in (cell st)))) in
        subst (λ (x : Active). Safe e s (cell st) (continue_save x s')) (sym h)
          (subst (λ (t : Bool). Safe e s (cell st) ((if t then done false else save) s'))
            (sym (active_in-readable (cell st)))
            (save_record-Safe e law s sized valid (cell st) (law.cell_byte st) s' same))

    after_read :
        (st : State) (r : Run State Active)
        → Found st r
        → Safe e s (cell st) (elim r [ done a s' ↦ continue_save a s' | off s' ↦ off s' ])
    after_read st (done a s') fd = after_found st s' a fd.same (fd.found a s' refl)
    after_read st (off s') fd = idle-Safe s (cell st) (off s') fd.same (λ s'' q. cc q)

  pub settings_save-Safe :
      (s : MinerSettings) (st : State) → IsTyped s → Safe e s (cell st) (settings_save e s st)
  unfolding settings_save continue_save
  settings_save-Safe s st sized = elim (Bool-cases (settings_valid s)) [
    | inl valid ↦
        subst
          (λ (t : Bool). Safe e s (cell st) (
            (if not t then done false else (◌>>=◌ e (read_slots e) (continue_save s sized valid)))
              st))
          (sym valid) (after_read s sized valid st (read_slots e st) (read_slots-Found st))
    | inr invalid ↦ rw invalid (idle-Safe s (cell st) (done false st) (λ i. refl) (λ s'' q. cc q))
  ]

module _ (e : Eeprom) where
  open e use {State, cell}

  -- What each outcome of a save of `s` leaves behind, from a memory `f`.
  abbrev pub Saved : MinerSettings → (ℕ → ℕ) → Run State Bool → Type 0
  Saved s f (done true s') =
      (current (cell s') ≡ some s) × Untouched f (cell s') (next_slot (active_in f))
  Saved s f (done false s') =
      ((current (cell s') ≡ current f) ⊎ (current (cell s') ≡ some s))
      × Untouched f (cell s') (next_slot (active_in f))
  Saved s f (off s') =
      ((current (cell s') ≡ current f) ⊎ (current (cell s') ≡ some s))
      × Untouched f (cell s') (next_slot (active_in f))

  Safe-Saved : (s : MinerSettings) (f : ℕ → ℕ) (r : Run State Bool) → Safe e s f r → Saved s f r
  Safe-Saved s f (done true s') h = (h.kept s' refl, h.outside)
  Safe-Saved s f (done false s') h = (h.whole, h.outside)
  Safe-Saved s f (off s') h = (h.whole, h.outside)

  -- On an EEPROM that keeps its laws and for settings of the declared sizes: whatever happens
  -- during a save, whether a call fails or power is lost in it, the settings that the EEPROM then
  -- holds are those from before or the new ones; they are the new ones if the save returns 0; and
  -- no byte outside the slot that was not in use is changed.
  pub settings_save-Saved :
      (law : IsEeprom e) (s : MinerSettings) (st : State)
      → IsTyped s
      → Saved s (cell st) (settings_save e s st)
  settings_save-Saved law s st sized =
      Safe-Saved s (cell st) (settings_save e s st) (settings_save-Safe e law s st sized)
