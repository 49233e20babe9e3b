-- ===== src/Settings/Works.antt =====
-- On an EEPROM that works, a save of valid settings returns 0, and a load then returns them.
use scu35_bitcoin_lottery_mi.Base.{
  ℕ, ◌+◌, ◌≤◌, ◌<◌, ◌≡◌, sym, ap, ◌∙◌, ◌⊎◌, inl, inr, List, [], ◌∷◌, arith, Bool, true, false, not,
  fun_ext, Bytes, Bytes-take, Option, none, some, length, at, at-window, length-window, at-take,
  length-take, take, window, at_ext, bytes_eq, bytes_eq_refl, if◌then◌else◌, dec_lt, bytes_eq,
}
use scu35_bitcoin_lottery_mi.Settings.{
  MinerSettings, slot0, slot1, commit, settings_valid, record_valid, record_of,
}
use scu35_bitcoin_lottery_mi.Settings.Eeprom.{Run, done, off, final, Eeprom, IsEeprom}
use scu35_bitcoin_lottery_mi.Settings.Record.{
  IsTyped, length-record_of, at-record_of_last, record_of-Bytes,
}
use scu35_bitcoin_lottery_mi.Settings.Saved.{IsCommitted, valid_eq}
use scu35_bitcoin_lottery_mi.Settings.Slots.{
  Active, unreadable, none_valid, first, second, select, next_seq, next_slot, is_unreadable, M,
  ◌>>=◌, and_then, read_first, read_second, read_slots, verified, save_record, settings_save,
  settings_load, LoadCode, stored, load_from,
}
use scu35_bitcoin_lottery_mi.Settings.Current.{current, active_in, settings_in}
use scu35_bitcoin_lottery_mi.Settings.Save.{settings_save-Safe, active_in-readable}

-- Every access returns, with the code 0.
pub record IsWorking (e : Eeprom) : Type 0 where
  pub reads :
      (a n : ℕ) (s : e.State)
      → (bytes : List ℕ) × (s' : e.State) × (e.read a n s ≡ done (some bytes) s')
  pub writes :
      (a : ℕ) (bytes : List ℕ) (s : e.State) → (s' : e.State) × (e.write a bytes s ≡ done true s')

module _ (e : Eeprom) (law : IsEeprom e) (works : IsWorking e) where
  open e use {State, read, write, cell}

  bind_done :
      {A B : Type 0} (m : M e A) (k : A → M e B) (st s' : State) (a : A)
      → m st ≡ done a s'
      → ◌>>=◌ e m k st ≡ k a s'
  bind_done {A} {B} m k st s' a h = ap (λ (r : Run State A). the r) h
    where
      the : Run State A → Run State B
      the r = elim r [ done x t ↦ k x t | off t ↦ off t ]

  then_true : (m k : M e Bool) (st s1 : State) → m st ≡ done true s1 → and_then e m k st ≡ k s1
  then_true m k st s1 h = bind_done m (λ ok. if ok then k else done false) st s1 true h

  -- A read gives what is there and changes nothing.
  read_works :
      (a n : ℕ) (st : State)
      → (s' : State) × (read a n st ≡ done (some (window (cell st) a n)) s')
        × ((i : ℕ) → cell s' i ≡ cell st i)
  read_works a n st =
      let (bytes, s', q) = works.reads a n st in
      (
        s',
        q ∙ ap (λ (b : List ℕ). done (some b) s') (law.read_true a n st s' bytes q),
        λ i.
            ap (λ (r : Run State (Option (List ℕ))). cell (final r) i) (sym q)
            ∙ law.read_keeps a n st i,
      )

  read_slots_works :
      (st : State)
      → (s' : State) × (read_slots e st ≡ done (active_in (cell st)) s')
        × ((i : ℕ) → cell s' i ≡ cell st i)
  unfolding read_slots read_first read_second
  read_slots_works st =
      let (s1, q1, c1) = read_works slot0 512 st in
      let (s2, q2, c2) = read_works slot1 512 s1 in
      (
        s2,
        bind_done (read slot0 512) (read_first e) st s1 _ q1
            ∙ bind_done (read slot1 512) (read_second e (window (cell st) slot0 512)) s1 s2 _ q2
            ∙ ap (λ (f : ℕ → ℕ). done (select (window (cell st) slot0 512) (window f slot1 512)) s2)
                (fun_ext c1),
        λ i. c2 i ∙ c1 i,
      )

  verified_works :
      (a : ℕ) (test : List ℕ → Bool) (st : State)
      → test (window (cell st) a 512) ≡ true
      → (s' : State) × (verified e a test st ≡ done true s') × ((i : ℕ) → cell s' i ≡ cell st i)
  unfolding verified
  verified_works a test st h =
      let (s', q, c) = read_works a 512 st in
      (
        s',
        bind_done (read a 512) (λ bytes. done (elim bytes [ none ↦ false | some v ↦ test v ])) st s'
              _ q
            ∙ ap (λ t. done t s') h,
        c,
      )

  -- What a write of one byte does.
  byte_works :
      (a v : ℕ) (st : State)
      → v < 256
      → (s' : State) × (write a (v ∷ []) st ≡ done true s')
        × (cell s' a ≡ v)
        × ((i : ℕ) → (i < a) ⊎ (a + 1 ≤ i) → cell s' i ≡ cell st i)
  byte_works a v st hv =
      let (s', q) = works.writes a (v ∷ []) st in
      (
        s',
        q,
        ap (λ (t : List ℕ). at t 0) (law.write_true a (v ∷ []) st s' (hv, tt) q),
        λ i k.
            ap (λ (r : Run State Bool). cell (final r) i) (sym q)
            ∙ law.write_outside a (v ∷ []) st i k,
      )

  Bytes-work :
      (a n : ℕ) (bytes : List ℕ) (st : State)
      → length bytes ≡ n
      → Bytes bytes
      → (s' : State) × (write a bytes st ≡ done true s')
        × (window (cell s') a n ≡ bytes)
        × ((i : ℕ) → (i < a) ⊎ (a + n ≤ i) → cell s' i ≡ cell st i)
  Bytes-work a n bytes st h hb =
      let (s', q) = works.writes a bytes st in
      (
        s',
        q,
        ap (λ (m : ℕ). window (cell s') a m) (sym h) ∙ law.write_true a bytes st s' hb q,
        λ i k.
            ap (λ (r : Run State Bool). cell (final r) i) (sym q)
            ∙ law.write_outside a bytes st i (omega (arith, h, k)),
      )

  module _ (s : MinerSettings) (sized : IsTyped s) (valid : settings_valid s ≡ true)
      (a seq : ℕ) where
    abbrev b : List ℕ
    b = record_of s seq

    long : length (take 511 b) ≡ 511
    long = omega (arith, length-take 511 b, length-record_of s sized seq)

    -- A slot with the first 511 bytes of the record.
    body_at : (g : ℕ → ℕ) → window g a 511 ≡ take 511 b → (i : ℕ) → i < 511 → g (a + i) ≡ at b i
    body_at g h i k =
        sym (at-window g a 511 i k) ∙ ap (λ (t : List ℕ). at t i) h ∙ at-take 511 b i k

    uncommitted : (g : ℕ → ℕ) → window g a 511 ≡ take 511 b → g (a + 511) ≡ 0 → window g a 512 ≡ b
    uncommitted g h z =
        at_ext (window g a 512) b (length-window g a 512 ∙ sym (length-record_of s sized seq))
          λ i k.
            let inside : i < 512 = omega (arith, length-record_of s sized seq) in
            at-window g a 512 i inside ∙ value i inside
      where
        value : (i : ℕ) → i < 512 → g (a + i) ≡ at b i
        value i k = elim (dec_lt i 511) [
          | yes body ↦ body_at g h i body
          | no end ↦
              let last : i ≡ 511 = omega arith in
              ap (λ (n : ℕ). g (a + n)) last
              ∙ z
              ∙ sym (at-record_of_last s sized seq)
              ∙ ap (at b) (sym last)
        ]

    save_record_works : (st : State) → (s' : State) × (save_record e a b st ≡ done true s')
    unfolding save_record
    save_record_works st =
        let (s1, q1, z1, c1) = byte_works (a + 511) 0 st (omega arith) in
        let (s2, q2, w2, c2) =
          Bytes-work a 511 (take 511 b) s1 long (Bytes-take 511 b (record_of-Bytes s sized seq)) in
        let z2 : cell s2 (a + 511) ≡ 0 = c2 (a + 511) (inr (omega arith)) ∙ z1 in
        let (s3, q3, c3) =
          verified_works a (bytes_eq b) s2
            (ap (bytes_eq b) (uncommitted (cell s2) w2 z2) ∙ bytes_eq_refl b) in
        let (s4, q4, z4, c4) = byte_works (a + 511) commit s3 (omega arith) in
        let new : IsCommitted s seq (window (cell s4) a 512) = record {
          full = length-window (cell s4) a 512;
          body = λ i k.
              at-window (cell s4) a 512 i (omega arith)
              ∙ c4 (a + i) (inl (omega arith))
              ∙ c3 (a + i)
              ∙ body_at (cell s2) w2 i k;
          committed = at-window (cell s4) a 512 511 (omega arith) ∙ z4;
        } in
        let (s5, q5, _) =
          verified_works a record_valid s4
            (valid_eq s sized seq (window (cell s4) a 512) new valid) in
        (
          s5,
          then_true (write (a + 511) (0 ∷ [])) _ st s1 q1
              ∙ then_true (write a (take 511 b)) _ s1 s2 q2
              ∙ then_true (verified e a (bytes_eq b)) _ s2 s3 q3
              ∙ then_true (write (a + 511) (commit ∷ [])) (verified e a record_valid) s3 s4 q4
              ∙ q5,
        )

  load_from-stored :
      (a : Active) (s : MinerSettings) → settings_in a ≡ some s → load_from a ≡ (stored, s)
  unfolding load_from
  load_from-stored unreadable s h = absurd (cc h)
  load_from-stored none_valid s h = absurd (cc h)
  load_from-stored (first r) s h = cc h
  load_from-stored (second r) s h = cc h

  settings_save_works :
      (s : MinerSettings) (st : State)
      → IsTyped s
      → settings_valid s ≡ true
      → (s' : State) × (settings_save e s st ≡ done true s')
  unfolding settings_save
  settings_save_works s st sized valid =
      let (s1, q1, c1) = read_slots_works st in
      let a = active_in (cell st) in
      let (s2, q2) = save_record_works s sized valid (next_slot a) (next_seq a) s1 in
      let save = save_record e (next_slot a) (record_of s (next_seq a)) in
      (
        s2,
        ap
              (λ (v : Bool).
                (if not v
                    then done false
                    else (◌>>=◌ e (read_slots e) λ x.
                        if is_unreadable x
                        then done false
                        else save_record e (next_slot x) (record_of s (next_seq x))))
                  st)
              valid
            ∙ bind_done (read_slots e)
                (λ x.
                  if is_unreadable x
                  then done false
                  else save_record e (next_slot x) (record_of s (next_seq x)))
                st s1 a q1
            ∙ ap (λ (t : Bool). (if t then done false else save) s1)
                (active_in-readable e law (cell st))
            ∙ q2,
      )

  -- On an EEPROM that keeps its laws and whose accesses succeed: a save of valid settings of the
  -- declared sizes returns 0, and a load behind it returns those settings, with 1.
  pub settings_save-load :
      (s : MinerSettings) (st : State)
      → IsTyped s
      → settings_valid s ≡ true
      → (s1 : State) × (s2 : State) × (settings_save e s st ≡ done true s1)
        × (settings_load e s1 ≡ done (stored, s) s2)
  unfolding settings_load current
  settings_save-load s st sized valid =
      let (s1, q1) = settings_save_works s st sized valid in
      let now : current (cell s1) ≡ some s = (settings_save-Safe e law s st sized).kept s1 q1 in
      let (s2, q2, _) = read_slots_works s1 in
      (
        s1,
        s2,
        q1,
        bind_done (read_slots e) (λ active. done (load_from active)) s1 s2 (active_in (cell s1)) q2
            ∙ ap (λ (p : LoadCode × MinerSettings). done p s2)
                (load_from-stored (active_in (cell s1)) s now),
      )
