-- ===== src/Settings/Atomic.antt =====
-- A save replaces the settings as a whole or not at all, wherever a call fails or power is lost.
use scu35_bitcoin_lottery_mi.Base.{
  ℕ, ◌+◌, ◌≤◌, ◌<◌, ◌≡◌, refl, sym, ap, ◌∙◌, subst, ◌⊎◌, inl, inr, List, [], ◌∷◌, arith, Bool, true,
  false, fun_ext, Bytes-take, Option, none, some, length, at, at-window, length-window, at-take,
  length-take, take, window, bytes_eq, ℕ_discrete, if◌then◌else◌,
}
use scu35_bitcoin_lottery_mi.Settings.{
  MinerSettings, commit, settings_valid, record_valid, record_of,
}
use scu35_bitcoin_lottery_mi.Settings.Eeprom.{Run, done, off, final, Eeprom, IsEeprom}
use scu35_bitcoin_lottery_mi.Settings.Record.{IsTyped, length-record_of, record_of-Bytes}
use scu35_bitcoin_lottery_mi.Settings.Slots.{
  next_seq, next_slot, M, and_then, verified, save_record,
}
use scu35_bitcoin_lottery_mi.Settings.Current.{
  current, active_in, Untouched, cleared_current, committed_current, IsMemory,
}

module _ (e : Eeprom) where
  open e use {State, cell}

  -- What a run of a save may leave behind, from a memory `f`.
  pub record Safe (s : MinerSettings) (f : ℕ → ℕ) (r : Run State Bool) : Type 0 where
    pub whole : (current (cell (final r)) ≡ current f) ⊎ (current (cell (final r)) ≡ some s)
    pub kept : (s' : State) → r ≡ done true s' → current (cell s') ≡ some s
    pub outside : Untouched f (cell (final r)) (next_slot (active_in f))

module _ (e : Eeprom) (law : IsEeprom e) where
  open e use {State, read, write, cell}

  module _ (s : MinerSettings) (sized : IsTyped s) (valid : settings_valid s ≡ true) (f : ℕ → ℕ)
      (mem : IsMemory f) where
    abbrev slot : ℕ
    slot = next_slot (active_in f)

    abbrev b : List ℕ
    b = record_of s (next_seq (active_in f))

    -- A call that does not return true, in a state whose settings are the old or the new ones.
    record Stopped (r : Run State Bool) : Type 0 where
      whole : (current (cell (final r)) ≡ current f) ⊎ (current (cell (final r)) ≡ some s)
      outside : Untouched f (cell (final r)) slot

    then-Safe :
        (r : Run State Bool) (k : M e Bool)
        → Stopped r
        → ((s' : State) → r ≡ done true s' → Safe e s f (k s'))
        → Safe e s f (elim r [ done ok s' ↦ (if ok then k else done false) s' | off s' ↦ off s' ])
    then-Safe (done true s') k st h = h s' refl
    then-Safe (done false s') k st h = record {
      whole = st.whole;
      kept = λ s'' q. absurd (cc q);
      outside = st.outside;
    }
    then-Safe (off s') k st h = record {
      whole = st.whole;
      kept = λ s'' q. absurd (cc q);
      outside = st.outside;
    }

    -- The slot under the write, its commit byte cleared.
    record Cleared (g : ℕ → ℕ) : Type 0 where
      outside : Untouched f g slot
      cleared : g (slot + 511) ≡ 0

    -- The same, with the record in it.
    record Written (g : ℕ → ℕ) : Type 0 where
      outside : Untouched f g slot
      cleared : g (slot + 511) ≡ 0
      body : window g slot 511 ≡ take 511 b

    Cleared-Stopped : (r : Run State Bool) → Cleared (cell (final r)) → Stopped r
    Cleared-Stopped r c = record {
      whole = inl (cleared_current f _ c.outside c.cleared);
      outside = c.outside;
    }

    -- A write inside the slot leaves the rest of the memory as it was.
    widen :
        (g h : ℕ → ℕ)
        → Untouched f g slot
        → ((i : ℕ) → (i < slot + 511) ⊎ (slot + 511 + 1 ≤ i) → h i ≡ g i)
        → Untouched f h slot
    widen g h u same i k = same i (omega (arith, k)) ∙ u i k

    Written-committed :
        (g h : ℕ → ℕ)
        → Written g
        → ((i : ℕ) → (i < slot + 511) ⊎ (slot + 511 + 1 ≤ i) → h i ≡ g i)
        → h (slot + 511) ≡ commit
        → (current h ≡ some s) × Untouched f h slot
    Written-committed g h w same c = (
      committed_current f h s sized valid mem outside (record {
        full = length-window h slot 512;
        body = λ i k.
            at-window h slot 512 i (omega arith)
            ∙ same (slot + i) (inl (omega arith))
            ∙ sym (at-window g slot 511 i k)
            ∙ ap (λ (t : List ℕ). at t i) w.body
            ∙ at-take 511 b i k;
        committed = at-window h slot 512 511 (omega arith) ∙ c;
      }),
      outside,
    )
      where
        outside : Untouched f h slot
        outside = widen g h w.outside same

    verified-final :
        (a : ℕ) (test : List ℕ → Bool) (st : State) (i : ℕ)
        → cell (final (verified e a test st)) i ≡ cell st i
    unfolding verified
    verified-final a test st i =
        ap (λ t. cell t i) (same (read a 512 st)) ∙ law.read_keeps a 512 st i
      where
        same :
            (r : Run State (Option (List ℕ)))
            → final (elim r [
              | done bytes s' ↦ done (elim bytes [ none ↦ false | some v ↦ test v ]) s'
              | off s' ↦ off s'
            ])
              ≡ final r
        same (done bytes s') = refl
        same (off s') = refl

    -- The last read back, once the commit byte is written.
    committed-Safe :
        (st : State) (test : List ℕ → Bool)
        → current (cell st) ≡ some s
        → Untouched f (cell st) slot
        → Safe e s f (verified e slot test st)
    committed-Safe st test h u = record {
      whole = inr now;
      kept = λ s' q. ap (λ (r : Run State Bool). current (cell (final r))) (sym q) ∙ now;
      outside = λ i k. verified-final slot test st i ∙ u i k;
    }
      where
        now : current (cell (final (verified e slot test st))) ≡ some s
        now = ap current (fun_ext (verified-final slot test st)) ∙ h

    single : (g : ℕ → ℕ) (a v : ℕ) → window g a 1 ≡ v ∷ [] → g a ≡ v
    single g a v h = ap (λ (t : List ℕ). at t 0) h

    commit-Safe :
        (st : State)
        → Written (cell st)
        → Safe e s f
            (and_then e (write (slot + 511) (commit ∷ [])) (verified e slot record_valid) st)
    commit-Safe st w =
        then-Safe (write (slot + 511) (commit ∷ []) st) (verified e slot record_valid) stopped
          λ s' q.
            let (now, u) =
              committed (law.write_true (slot + 511) (commit ∷ []) st s' (omega arith) q) q in
            committed-Safe s' record_valid now u
      where
        same :
            (i : ℕ)
            → (i < slot + 511) ⊎ (slot + 511 + 1 ≤ i)
            → cell (final (write (slot + 511) (commit ∷ []) st)) i ≡ cell st i
        same i k = law.write_outside (slot + 511) (commit ∷ []) st i k

        stopped : Stopped (write (slot + 511) (commit ∷ []) st)
        stopped = elim (law.write_byte (slot + 511) commit st (omega arith)) [
          | inl old ↦
              Cleared-Stopped _
                (record { outside = widen _ _ w.outside same; cleared = old ∙ w.cleared })
          | inr new ↦
              let (now, u) = Written-committed (cell st) _ w same new in
              record { whole = inr now; outside = u }
        ]

        committed :
            {s' : State}
            → window (cell s') (slot + 511) 1 ≡ commit ∷ []
            → write (slot + 511) (commit ∷ []) st ≡ done true s'
            → (current (cell s') ≡ some s) × Untouched f (cell s') slot
        committed {s'} h q =
            Written-committed (cell st) (cell s') w
              (λ i k. ap (λ (r : Run State Bool). cell (final r) i) (sym q) ∙ same i k)
              (single (cell s') (slot + 511) commit h)

    read_back-Safe :
        (st : State)
        → Written (cell st)
        → Safe e s f (
            and_then e
              (verified e slot (bytes_eq b))
              (and_then e (write (slot + 511) (commit ∷ [])) (verified e slot record_valid))
              st)
    read_back-Safe st w =
        then-Safe (verified e slot (bytes_eq b) st)
          (and_then e (write (slot + 511) (commit ∷ [])) (verified e slot record_valid))
          (Cleared-Stopped _ (record { outside = kept.outside; cleared = kept.cleared }))
          λ s' q. commit-Safe s' (subst (λ r. Written (cell (final r))) q kept)
      where
        kept : Written (cell (final (verified e slot (bytes_eq b) st)))
        kept = subst Written (sym (fun_ext (verified-final slot (bytes_eq b) st))) w

    body-Safe :
        (st : State)
        → Cleared (cell st)
        → Safe e s f (
            and_then e
              (write slot (take 511 b))
              (and_then e
                (verified e slot (bytes_eq b))
                (and_then e (write (slot + 511) (commit ∷ [])) (verified e slot record_valid)))
              st)
    body-Safe st c =
        then-Safe (write slot (take 511 b) st)
          (and_then e (verified e slot (bytes_eq b))
            (and_then e (write (slot + 511) (commit ∷ [])) (verified e slot record_valid)))
          (Cleared-Stopped _ after) λ s' q. read_back-Safe s' (written s' q)
      where
        long : length (take 511 b) ≡ 511
        long = omega (arith, length-take 511 b, length-record_of s sized (next_seq (active_in f)))

        same :
            (i : ℕ)
            → (i < slot) ⊎ (slot + 511 ≤ i)
            → cell (final (write slot (take 511 b) st)) i ≡ cell st i
        same i k = law.write_outside slot (take 511 b) st i (omega (arith, long, k))

        after : Cleared (cell (final (write slot (take 511 b) st)))
        after = record {
          outside = λ i k. same i (omega (arith, k)) ∙ c.outside i k;
          cleared = same (slot + 511) (inr (omega arith)) ∙ c.cleared;
        }

        written : (s' : State) → write slot (take 511 b) st ≡ done true s' → Written (cell s')
        written s' q =
            let now = subst (λ (r : Run State Bool). Cleared (cell (final r))) q after in
            record {
              outside = now.outside;
              cleared = now.cleared;
              body =
                  ap (λ n. window (cell s') slot n) (sym long)
                  ∙ law.write_true slot (take 511 b) st s'
                      (Bytes-take 511 b (record_of-Bytes s sized (next_seq (active_in f)))) q;
            }

    pub save_record-Safe :
        (st : State) → ((i : ℕ) → cell st i ≡ f i) → Safe e s f (save_record e slot b st)
    unfolding save_record
    save_record-Safe st old = then-Safe (write (slot + 511) (0 ∷ []) st) _ stopped λ s' q.
        body-Safe s' (record {
          outside = λ i k. ap (λ (r : Run State Bool). cell (final r) i) (sym q) ∙ outside i k;
          cleared =
              single (cell s') (slot + 511) 0
                (law.write_true (slot + 511) (0 ∷ []) st s' (omega arith) q);
        })
      where
        after : ℕ → ℕ
        after = cell (final (write (slot + 511) (0 ∷ []) st))

        same : (i : ℕ) → (i < slot + 511) ⊎ (slot + 511 + 1 ≤ i) → after i ≡ cell st i
        same i k = law.write_outside (slot + 511) (0 ∷ []) st i k

        outside : Untouched f after slot
        outside i k = same i (omega (arith, k)) ∙ old i

        unchanged : after (slot + 511) ≡ cell st (slot + 511) → (i : ℕ) → after i ≡ f i
        unchanged h i = elim (ℕ_discrete i (slot + 511)) [
          | yes at_end ↦ ap after at_end ∙ h ∙ ap (cell st) (sym at_end) ∙ old i
          | no ne ↦ same i (omega arith) ∙ old i
        ]

        stopped : Stopped (write (slot + 511) (0 ∷ []) st)
        stopped = elim (law.write_byte (slot + 511) 0 st (omega arith)) [
          | inl h ↦ record { whole = inl (ap current (fun_ext (unchanged h))); outside = outside }
          | inr h ↦ Cleared-Stopped _ (record { outside = outside; cleared = h })
        ]
