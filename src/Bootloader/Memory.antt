-- ===== src/Bootloader/Memory.antt =====
-- What the records of an image change: the RAM window, the vectors, and nothing else.
use scu35_bitcoin_lottery_mi.Base.{
  ℕ, zero, suc, ◌+◌, ◌-◌, ◌%◌, ◌≤◌, ◌<◌, ◌≡◌, ◌≢◌, sym, subst, ◌∙◌, ◌⊎◌, inl, inr, List, arith,
  Bool, true, false, ◌&&◌, ◌||◌, Bool-cases, length, length-set, at, ltb, leb, ◌==◌, if◌then◌else◌,
  bit_and_3, u32,
}
use scu35_bitcoin_lottery_mi.Srec.{SrecRecord}
use scu35_bitcoin_lottery_mi.Bootloader.{
  ram_start, ram_end, vectors_size, Bus, LoadState, store_vectors, store_ram, Step, go_on, enter,
  give_up, after_ram, data_record, entry_ok, one_record,
}

-- What is relied on: a write changes no other address.
pub record IsBus (bus : Bus) : Type 0 where
  pub out8_outside : (a v i : ℕ) (m : bus.State) → i ≢ a → bus.in8 i (bus.out8 a v m) ≡ bus.in8 i m

module _ (bus : Bus) (law : IsBus bus) (m0 : bus.State) where
  open bus use {State, out8, in8}

  abbrev pub OnlyRam : State → Type 0
  OnlyRam m = (i : ℕ) → (i < ram_start) ⊎ (ram_end ≤ i) → in8 i m ≡ in8 i m0

  -- Outside RAM the memory is as it was at first, and the arrays keep their sizes.
  pub record Sound (st : LoadState bus) : Type 0 where
    pub low_in : ram_start ≤ st.low
    pub high_in : st.high ≤ ram_end
    pub vectors_length : length st.vectors ≡ vectors_size
    pub seen_length : length st.seen ≡ vectors_size
    pub parsed_length : length st.parsed.bytes ≡ 252
    pub only_ram : OnlyRam st.memory

  abbrev pub SoundStep : Step bus → Type 0
  SoundStep (go_on st) = Sound st
  SoundStep (enter entry st) = Sound st × (st.low ≤ entry) × (entry < st.high) × (entry % 4 ≡ 0)
  SoundStep (give_up st) = Sound st

  store_vectors-Sound :
      (left i a : ℕ) (bytes : List ℕ) (st : LoadState bus)
      → Sound st
      → Sound (store_vectors bus left i a bytes st)
  unfolding store_vectors
  store_vectors-Sound zero i a bytes st h = h
  store_vectors-Sound (suc left) i a bytes st h =
      store_vectors-Sound left (i + 1) a bytes _ (record {
        low_in = h.low_in;
        high_in = h.high_in;
        vectors_length = length-set st.vectors (a + i) (at bytes i) ∙ h.vectors_length;
        seen_length = length-set st.seen (a + i) 1 ∙ h.seen_length;
        parsed_length = h.parsed_length;
        only_ram = h.only_ram;
      })

  store_ram-OnlyRam :
      (left i a : ℕ) (bytes : List ℕ) (m : State)
      → ram_start ≤ a
      → a + i + left ≤ ram_end
      → OnlyRam m
      → OnlyRam (store_ram bus left i a bytes m).1
  unfolding store_ram
  store_ram-OnlyRam zero i a bytes m h k same = same
  store_ram-OnlyRam (suc left) i a bytes m h k same =
      let m' = out8 (a + i) (at bytes i) m in
      let here : OnlyRam m' = λ j outside.
        law.out8_outside (a + i) (at bytes i) j m (omega (arith, h, k, outside)) ∙ same j outside in
      elim (Bool-cases (in8 (a + i) m' == at bytes i)) [
        | inl kept ↦
            subst
              (λ (t : Bool).
                OnlyRam (if t then store_ram bus left (i + 1) a bytes m' else (false, m')).1)
              (sym kept) (store_ram-OnlyRam left (i + 1) a bytes m' h (omega arith) here)
        | inr lost ↦
            subst
              (λ (t : Bool).
                OnlyRam (if t then store_ram bus left (i + 1) a bytes m' else (false, m')).1)
              (sym lost) here
      ]

  low_of :
      (a low : ℕ) → ram_start ≤ a → ram_start ≤ low → ram_start ≤ (if ltb a low then a else low)
  low_of a low h k = ground arith

  high_of : (b high : ℕ) → b ≤ ram_end → high ≤ ram_end → (if ltb high b then b else high) ≤ ram_end
  high_of b high h k = ground arith

  after_ram-Sound :
      (a size : ℕ) (st : LoadState bus) (r : Bool × State)
      → ram_start ≤ a
      → a + size ≤ ram_end
      → Sound st
      → OnlyRam r.1
      → SoundStep (after_ram bus a size st r)
  unfolding after_ram
  after_ram-Sound a size st (false, m) h k s same = record {
    low_in = s.low_in;
    high_in = s.high_in;
    vectors_length = s.vectors_length;
    seen_length = s.seen_length;
    parsed_length = s.parsed_length;
    only_ram = same;
  }
  after_ram-Sound a size st (true, m) h k s same = record {
    low_in = low_of a st.low h s.low_in;
    high_in = high_of (a + size) st.high k s.high_in;
    vectors_length = s.vectors_length;
    seen_length = s.seen_length;
    parsed_length = s.parsed_length;
    only_ram = same;
  }

  data_record-Sound :
      (r : SrecRecord) (st : LoadState bus) → Sound st → SoundStep (data_record bus r st)
  unfolding data_record
  data_record-Sound r st s =
      let stored = store_vectors bus r.size 0 r.address r.bytes st in
      let counted : Step bus = go_on (record stored { data_records = u32 (st.data_records + 1) }) in
      let ram =
        after_ram bus r.address r.size st (store_ram bus r.size 0 r.address r.bytes st.memory) in
      let in_vectors = ltb r.address vectors_size && leb r.size (vectors_size - r.address) in
      let in_ram =
        leb ram_start r.address && ltb r.address ram_end && leb r.size (ram_end - r.address) in
      elim (Bool-cases in_vectors) [
        | inl v ↦
            subst
              (λ (t : Bool).
                SoundStep (if t then counted else (if in_ram then ram else give_up st)))
              (sym v) (recount (store_vectors-Sound r.size 0 r.address r.bytes st s))
        | inr v ↦
            subst
              (λ (t : Bool).
                SoundStep (if t then counted else (if in_ram then ram else give_up st)))
              (sym v)
              (elim (Bool-cases in_ram) [
                | inl inside ↦
                    let (first, fits) = bounds r.address r.size inside in
                    subst (λ (t : Bool). SoundStep (if t then ram else give_up st)) (sym inside)
                      (after_ram-Sound r.address r.size st _ first fits s (
                        store_ram-OnlyRam r.size 0 r.address r.bytes st.memory first (omega arith)
                          s.only_ram))
                | inr outside ↦
                    subst (λ (t : Bool). SoundStep (if t then ram else give_up st)) (sym outside) s
              ])
      ]
    where
      bounds :
          (a size : ℕ)
          → (leb ram_start a && ltb a ram_end && leb size (ram_end - a)) ≡ true
          → (ram_start ≤ a) × (a + size ≤ ram_end)
      bounds a size h = (ground arith, ground arith)

      recount : {n : ℕ} {st' : LoadState bus} → Sound st' → Sound (record st' { data_records = n })
      recount h = record {
        low_in = h.low_in;
        high_in = h.high_in;
        vectors_length = h.vectors_length;
        seen_length = h.seen_length;
        parsed_length = h.parsed_length;
        only_ram = h.only_ram;
      }

  entry_bounds :
      (entry : ℕ) (st : LoadState bus)
      → entry_ok bus entry st ≡ true
      → (st.low ≤ entry) × (entry < st.high) × (entry % 4 ≡ 0)
  unfolding entry_ok
  entry_bounds entry st h = (ground arith, ground arith, ground (arith, bit_and_3 entry))

  -- A record of any type leaves a sound state, and an entry lies between the bounds that were loaded.
  pub one_record-Sound :
      (r : SrecRecord) (st : LoadState bus) → Sound st → SoundStep (one_record bus r st)
  unfolding one_record
  one_record-Sound r st s = pick (r.kind == 0) (go_on st) _ s (
      pick (r.kind == 5 || r.kind == 6) _ _
        (pick (r.address == st.data_records) (go_on st) (give_up st) s s)
        (pick (leb 7 r.kind) _ _ entered (data_record-Sound r st s)))
    where
      pick :
          (t : Bool) (x y : Step bus) → SoundStep x → SoundStep y → SoundStep (if t then x else y)
      pick true x y hx hy = hx
      pick false x y hx hy = hy

      entered : SoundStep (if entry_ok bus r.address st then enter r.address st else give_up st)
      entered = elim (Bool-cases (entry_ok bus r.address st)) [
        | inl ok ↦
            let (above, below, aligned) = entry_bounds r.address st ok in
            subst (λ (t : Bool). SoundStep (if t then enter r.address st else give_up st)) (sym ok)
              (s, above, below, aligned)
        | inr bad ↦
            subst (λ (t : Bool). SoundStep (if t then enter r.address st else give_up st)) (sym bad)
              s
      ]
