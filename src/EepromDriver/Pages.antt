-- ===== src/EepromDriver/Pages.antt =====
-- A write is cut into parts that each lie in one page of the EEPROM.
use scu35_bitcoin_lottery_mi.Base.{
  ℕ, zero, suc, ◌+◌, ◌%◌, ◌≤◌, ◌≡◌, refl, sym, subst, ap, ◌∙◌, Bool, true, false, ◌||◌, Option,
  some, List, [], ◌∷◌, ◌++◌, arith, length, take, drop, length-take, length-drop, take-append-drop,
  ltb, if◌then◌else◌, u16, bit_and_31,
}
use scu35_bitcoin_lottery_mi.EepromDriver.{
  Controller, write_page, page_part, next_page, write_loop, eeprom_write,
}

abbrev pub joined : List (List ℕ) → List ℕ
joined [] = []
joined (p ∷ ps) = p ++ joined ps

-- Parts one behind the other from an address on, none of them empty or over the end of a page.
abbrev pub InPages : ℕ → List (List ℕ) → Type 0
InPages address [] = Unit {0}
InPages address (p ∷ ps) =
    (1 ≤ length p) × (address % 32 + length p ≤ 32) × InPages (address + length p) ps

module _ (io : Controller) where
  open io use {State}

  -- The parts are written in turn, up to one that fails.
  unfoldable pub write_pages : ℕ → List (List ℕ) → State → Option (Bool × State)
  write_pages address [] s = some (true, s)
  write_pages address (p ∷ ps) s =
      next_page io (write_page io address p s) (λ s'. write_pages (address + length p) ps s')

  page_part_bounds :
      (address size : ℕ)
      → 1 ≤ size
      → (1 ≤ page_part io address size)
        × (page_part io address size ≤ size)
        × (address % 32 + page_part io address size ≤ 32)
  unfolding page_part
  page_part_bounds address size h = (
    ground (arith, bit_and_31 address),
    ground (arith, bit_and_31 address),
    ground (arith, bit_and_31 address),
  )

  next_page_ext :
      (r : Bool × State) (f g : State → Option (Bool × State))
      → ((s : State) → f s ≡ g s)
      → next_page io r f ≡ next_page io r g
  unfolding next_page
  next_page_ext (true, s) f g h = h s
  next_page_ext (false, s) f g h = refl

  write_loop-pages :
      (fuel address : ℕ) (bytes : List ℕ)
      → length bytes ≤ fuel
      → address + length bytes ≤ 0x1400
      → (parts : List (List ℕ)) × (joined parts ≡ bytes)
        × InPages address parts
        × ((s : State) → write_loop io fuel address bytes s ≡ write_pages address parts s)
  unfolding write_loop write_pages
  write_loop-pages fuel address [] h k = ([], refl, tt, λ s. refl)
  write_loop-pages zero address (b ∷ bs) h k = absurd (omega arith)
  write_loop-pages (suc fuel) address (b ∷ bs) h k =
      let n = page_part io address (length (b ∷ bs)) in
      let (least, most, inside) = page_part_bounds address (length (b ∷ bs)) (omega arith) in
      let long : length (take n (b ∷ bs)) ≡ n = omega (arith, length-take n (b ∷ bs), most) in
      let rest = length-drop n (b ∷ bs) in
      let (parts, whole, pages, runs) =
        write_loop-pages fuel (address + n) (drop n (b ∷ bs)) (omega (arith, rest, least, h))
          (omega (arith, rest, most, k)) in
      (
        take n (b ∷ bs) ∷ parts,
        ap (λ t. take n (b ∷ bs) ++ t) whole ∙ take-append-drop n (b ∷ bs),
        (
          omega (arith, long, least),
          omega (arith, long, inside),
          subst (λ (a : ℕ). InPages a parts) (ap (λ m. address + m) (sym long)) pages,
        ),
        λ s. next_page_ext (write_page io address (take n (b ∷ bs)) s) _ _ λ s'.
            ap (λ a. write_loop io fuel a (drop n (b ∷ bs)) s') {x = u16 (address + n)}
              {y = address + n} (omega (arith, most, k))
            ∙ runs s'
            ∙ ap (λ m. write_pages (address + m) parts s') (sym long),
      )

  -- A write inside the two slots ends, and it writes the bytes in parts that each lie in one page
  -- of 32 bytes, in their order, up to a part that fails.
  pub eeprom_write-pages :
      (address : ℕ) (bytes : List ℕ)
      → 0x1000 ≤ address
      → address + length bytes ≤ 0x1400
      → (parts : List (List ℕ)) × (joined parts ≡ bytes)
        × InPages address parts
        × ((s : State) → eeprom_write io address bytes s ≡ write_pages address parts s)
  unfolding eeprom_write
  eeprom_write-pages address bytes h k =
      let (parts, whole, pages, runs) =
        write_loop-pages (length bytes) address bytes (omega arith) k in
      (
        parts,
        whole,
        pages,
        λ s.
            ap
              (λ (t : Bool).
                if t then some (false, s) else write_loop io (length bytes) address bytes s)
              {x = ltb address 0x1000 || ltb 0x1400 (address + length bytes)} {y = false}
              (ground arith)
            ∙ runs s,
      )
