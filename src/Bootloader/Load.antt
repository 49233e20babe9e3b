-- ===== src/Bootloader/Load.antt =====
-- `load` returns: every round reads a byte of the flash, and the flash ends.
use scu35_bitcoin_lottery_mi.Base.{
  ℕ, zero, suc, ◌+◌, ◌-◌, ◌%◌, ◌≤◌, ◌<◌, ◌≡◌, sym, subst, List, [], ◌∷◌, ◌++◌, arith, Bool, true,
  false, Bool-cases, inl, inr, Option, none, some, length, at, ltb, ◌==◌, if◌then◌else◌,
}
use scu35_bitcoin_lottery_mi.Srec.{Parsed, accepted, rejected, fault, srec_parse}
use scu35_bitcoin_lottery_mi.Srec.Loop.{Returns, srec_parse-Returns}
use scu35_bitcoin_lottery_mi.Bootloader.{
  flash_end, ram_start, ram_end, vectors_size, Reader, Flash, after_page, get_byte, is_newline,
  Reading, got, broken, unread, read_line, start_line, Bus, LoadState, Step, go_on, enter, give_up,
  Outcome, loaded, failed, undefined, spent, after_parse, continue_load, load_line, load,
}
use scu35_bitcoin_lottery_mi.Bootloader.Memory.{IsBus, Sound, SoundStep, one_record-Sound}

-- How many bytes can still be read.
abbrev pub bytes_left : Reader → ℕ
bytes_left r = (flash_end - r.flash) + (64 - r.pos)

-- A reader with fewer bytes left than `bound`, wherever one is handed on.
abbrev Below : ℕ → Option ℕ × Reader → Type 0
Below bound (none, r) = Unit {0}
Below bound (some c, r) = (bytes_left r < bound) × (r.pos ≤ 64)

abbrev Advances : ℕ → Reading → Type 0
Advances bound (got line r) = (bytes_left r < bound) × (r.pos ≤ 64)
Advances bound broken = Unit {0}
Advances bound unread = ⊥

after_page-Below :
    (r : Reader) (page : Option (List ℕ)) (bound : ℕ)
    → r.flash ≤ flash_end - 64
    → bytes_left r ≤ bound
    → r.pos ≡ 64
    → Below bound (after_page r page)
unfolding after_page
after_page-Below r none bound h k e = tt
after_page-Below r (some page) bound h k e = (omega (arith, h, k, e), omega arith)

get_byte-Below :
    (pages : Flash) (r : Reader) (bound : ℕ)
    → r.pos ≤ 64
    → bytes_left r ≤ bound
    → Below bound (get_byte pages r)
unfolding get_byte
get_byte-Below pages r bound h k =
    let page = if ltb (flash_end - 64) r.flash then (none, r) else after_page r (pages r.flash) in
    let next : Option ℕ × Reader = (some (at r.cache r.pos), record r { pos = r.pos + 1 }) in
    elim (Bool-cases (r.pos == 64)) [
      | inl at_end ↦
          subst (λ (t : Bool). Below bound (if t then page else next)) (sym at_end)
            (elim (Bool-cases (ltb (flash_end - 64) r.flash)) [
              | inl over ↦
                  subst
                    (λ (t : Bool).
                      Below bound (if t then (none, r) else after_page r (pages r.flash)))
                    (sym over) tt
              | inr inside ↦
                  subst
                    (λ (t : Bool).
                      Below bound (if t then (none, r) else after_page r (pages r.flash)))
                    (sym inside)
                    (after_page-Below r (pages r.flash) bound (ground arith) k (ground arith))
            ])
      | inr before ↦
          subst (λ (t : Bool). Below bound (if t then page else next)) (sym before)
            (ground arith, ground arith)
    ]

pick :
    (bound : ℕ) (t : Bool) (x y : Reading)
    → Advances bound x
    → Advances bound y
    → Advances bound (if t then x else y)
pick bound true x y hx hy = hx
pick bound false x y hx hy = hy

read_line-Advances :
    (fuel : ℕ) (pages : Flash) (line : List ℕ) (p : Option ℕ × Reader) (bound : ℕ)
    → Below fuel p
    → Below bound p
    → Advances bound (read_line fuel pages line p)
unfolding read_line
read_line-Advances fuel pages line (none, r) bound h k = tt
read_line-Advances zero pages line (some c, r) bound (h, hp) k = absurd (omega (arith, h))
read_line-Advances (suc fuel) pages line (some c, r) bound (h, hp) (k, kp) =
    pick bound (length line == 514) broken _ tt (
      pick bound (is_newline c) (got line r) _ (k, kp)
        (read_line-Advances fuel pages (line ++ (c ∷ [])) (get_byte pages r) bound
          (get_byte-Below pages r fuel hp (omega (arith, h)))
          (get_byte-Below pages r bound hp (omega (arith, k)))))

start_line-Advances :
    (fuel : ℕ) (pages : Flash) (p : Option ℕ × Reader) (bound : ℕ)
    → Below fuel p
    → Below bound p
    → Advances bound (start_line fuel pages p)
unfolding start_line
start_line-Advances fuel pages (none, r) bound h k = tt
start_line-Advances zero pages (some c, r) bound (h, hp) k = absurd (omega (arith, h))
start_line-Advances (suc fuel) pages (some c, r) bound (h, hp) (k, kp) =
    let next = get_byte-Below pages r fuel hp (omega (arith, h)) in
    let next' = get_byte-Below pages r bound hp (omega (arith, k)) in
    pick bound (is_newline c) _ _
      (start_line-Advances fuel pages (get_byte pages r) bound next next')
      (pick bound (c == b'S') _ broken
        (read_line-Advances fuel pages (c ∷ []) (get_byte pages r) bound next next') tt)

module _ (bus : Bus) (law : IsBus bus) (m0 : bus.State) where
  abbrev pub Ends : Outcome bus → Type 0
  Ends (loaded entry st) =
      Sound bus law m0 st × (ram_start ≤ entry) × (entry < ram_end) × (entry % 4 ≡ 0)
  Ends (failed st) = Sound bus law m0 st
  Ends undefined = ⊥
  Ends spent = ⊥

  abbrev EndsStep : Option (Step bus) → Type 0
  EndsStep none = ⊥
  EndsStep (some step) = SoundStep bus law m0 step

  after_parse-Sound :
      (st : LoadState bus) (p : Parsed)
      → Sound bus law m0 st
      → Returns p
      → EndsStep (after_parse bus st p)
  unfolding after_parse
  after_parse-Sound st (accepted r) s h =
      one_record-Sound bus law m0 r (record st { parsed = r })
        (record {
          low_in = s.low_in;
          high_in = s.high_in;
          vectors_length = s.vectors_length;
          seen_length = s.seen_length;
          parsed_length = h;
          only_ram = s.only_ram;
        })
  after_parse-Sound st (rejected r) s h = record {
    low_in = s.low_in;
    high_in = s.high_in;
    vectors_length = s.vectors_length;
    seen_length = s.seen_length;
    parsed_length = h;
    only_ram = s.only_ram;
  }
  after_parse-Sound st fault s h = h

  continue_load-Ends :
      (rest : LoadState bus → Outcome bus) (step : Option (Step bus))
      → EndsStep step
      → ((st : LoadState bus) → Sound bus law m0 st → Ends (rest st))
      → Ends (continue_load bus rest step)
  unfolding continue_load
  continue_load-Ends rest none h k = h
  continue_load-Ends rest (some (go_on st)) h k = k st h
  continue_load-Ends rest (some (enter entry st)) (s, above, below, aligned) k =
      (s, omega (arith, s.low_in, above), omega (arith, s.high_in, below), aligned)
  continue_load-Ends rest (some (give_up st)) h k = h

  load_line-Ends :
      (fuel : ℕ) (pages : Flash) (st : LoadState bus) (line : Reading)
      → Advances fuel line
      → Sound bus law m0 st
      → Ends (load_line bus fuel pages st line)
  unfolding load_line
  load_line-Ends fuel pages st broken a s = s
  load_line-Ends fuel pages st unread a s = a
  load_line-Ends zero pages st (got line r) (h, hp) s = absurd (omega (arith, h))
  load_line-Ends (suc fuel) pages st (got line r) (h, hp) s =
      continue_load-Ends _ (after_parse bus st (srec_parse line (length line) st.parsed))
        (after_parse-Sound st _ s
          (srec_parse-Returns line (length line) st.parsed (omega arith) s.parsed_length))
        λ st' s'.
          let next = get_byte-Below pages r fuel hp (omega (arith, h)) in
          load_line-Ends fuel pages st' (start_line fuel pages (get_byte pages r))
            (start_line-Advances fuel pages (get_byte pages r) fuel next next) s'

  -- With as much fuel as there are bytes left in the flash, arrays of the declared sizes and a
  -- memory in which a write changes no other address, a load returns, and its parses stay inside
  -- their arrays. Whatever it returns, no address outside RAM is changed; if it returns 0, the
  -- entry lies in RAM and is a multiple of 4.
  pub load-Ends :
      (fuel : ℕ) (pages : Flash) (r : Reader) (st : LoadState bus)
      → r.pos ≤ 64
      → bytes_left r ≤ fuel
      → length st.vectors ≡ vectors_size
      → length st.seen ≡ vectors_size
      → length st.parsed.bytes ≡ 252
      → ((i : ℕ) → bus.in8 i st.memory ≡ bus.in8 i m0)
      → Ends (load bus fuel pages r st)
  unfolding load
  load-Ends fuel pages r st hp hl hv hs hb same =
      let next = get_byte-Below pages r fuel hp hl in
      load_line-Ends fuel pages _ (start_line fuel pages (get_byte pages r))
        (start_line-Advances fuel pages (get_byte pages r) fuel next next)
        (record {
          low_in = omega arith;
          high_in = omega arith;
          vectors_length = hv;
          seen_length = hs;
          parsed_length = hb;
          only_ram = λ i _. same i;
        })
