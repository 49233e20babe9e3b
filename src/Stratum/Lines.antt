-- ===== src/Stratum/Lines.antt =====
-- The lines that the Stratum client cuts out of what it receives.
use scu35_bitcoin_lottery_mi.Base.{
  ℕ, ◌+◌, ◌≤◌, ◌<◌, Bool, true, false, List, [], ◌∷◌, ◌++◌, ◌≡◌, ◌≢◌, refl, sym, ap, ◌∙◌, inl, inr,
  ◌==◌, ltb, length, length-append, append_assoc, append-nil, All, dec_le, ◌⊎◌, arith,
}
use scu35_bitcoin_lottery_mi.Stratum.{World, next, line_max}
use scu35_bitcoin_lottery_mi.Stratum.Session.{Receiver, receive, receive_all, end_line}

next_assoc {ℓ} :
    {S : Type ℓ} (x : Bool × S) (f g : S → Bool × S)
    → next (next x f) g ≡ next x (λ s. next (f s) g)
unfolding next
next_assoc (true, s) f g = refl
next_assoc (false, s) f g = refl

next-false {ℓ} : {S : Type ℓ} (x : Bool × S) (f : S → Bool × S) → x.0 ≡ false → (next x f).0 ≡ false
unfolding next
next-false (true, s) f h = absurd (cc h)
next-false (false, s) f h = refl

abbrev pub InLine : List ℕ → Type 0
InLine = All (λ c. c ≢ b'\n')

not_equal : (a b : ℕ) → a ≢ b → (a == b) ≡ false
not_equal a b h = ground arith

below : (a b : ℕ) → a < b → ltb a b ≡ true
below a b h = ground arith

not_below : (a b : ℕ) → b ≤ a → ltb a b ≡ false
not_below a b h = ground arith

room : (a b : ℕ) → a ≤ b → (a < b) ⊎ (b ≤ a)
room a b h = elim (dec_le b a) [ yes p ↦ inr p | no p ↦ inl (omega arith) ]

module _ (w : World) where
  -- However the characters are cut into pieces, the same is done.
  pub receive_all-append :
      (xs ys : List ℕ) (r : Receiver)
      → receive_all w (xs ++ ys) r ≡ next (receive_all w xs r) (receive_all w ys)
  unfolding receive_all next
  receive_all-append [] ys r = refl
  receive_all-append (x ∷ xs) ys r =
      ap (next (receive w x r)) (λ i r'. receive_all-append xs ys r' i)
      ∙ sym (next_assoc (receive w x r) (receive_all w xs) (receive_all w ys))

  receive_char :
      (c : ℕ) (r : Receiver)
      → c ≢ b'\n'
      → length r.line < line_max
      → receive w c r ≡ (true, record r { line = r.line ++ (c ∷ []) })
  unfolding receive
  receive_char c r h n = simp (not_equal c b'\n' h, below (length r.line) line_max n)

  receive_full :
      (c : ℕ) (r : Receiver) → c ≢ b'\n' → line_max ≤ length r.line → receive w c r ≡ (false, r)
  unfolding receive
  receive_full c r h n = simp (not_equal c b'\n' h, not_below (length r.line) line_max n)

  -- Characters of a line that fit the array are kept.
  receive_all_kept :
      (text : List ℕ) (r : Receiver)
      → InLine text
      → length r.line + length text ≤ line_max
      → receive_all w text r ≡ (true, record r { line = r.line ++ text })
  unfolding receive_all next
  receive_all_kept [] r h n =
      ap (λ (l : List ℕ). (true, record r { line = l })) (sym (append-nil r.line))
  receive_all_kept (c ∷ cs) r (hc, h) n =
      let longer = record r { line = r.line ++ (c ∷ []) } in
      rw (receive_char c r hc (omega arith)) (
        receive_all_kept cs longer h (omega (arith, length-append r.line (c ∷ [])))
        ∙ ap (λ (l : List ℕ). (true, record r { line = l })) (append_assoc r.line (c ∷ []) cs))

  receive_all_full :
      (text : List ℕ) (r : Receiver)
      → InLine text
      → length r.line ≤ line_max
      → line_max < length r.line + length text
      → (receive_all w text r).0 ≡ false
  unfolding receive_all next
  receive_all_full [] r h m n = absurd (omega arith)
  receive_all_full (c ∷ cs) r (hc, h) m n = elim (room (length r.line) line_max m) [
    | inl less ↦ rw (receive_char c r hc less) (
        receive_all_full cs (record r { line = r.line ++ (c ∷ []) }) h
          (omega (arith, length-append r.line (c ∷ [])))
          (omega (arith, length-append r.line (c ∷ []))))
    | inr full ↦ rw (receive_full c r hc full)
  ]

  newline :
      (rest : List ℕ) (r : Receiver)
      → next (true, r) (receive_all w (b'\n' ∷ rest)) ≡ next (end_line w r) (receive_all w rest)
  unfolding receive_all receive next
  newline rest r = refl

  -- Characters up to a newline that fit the array of the line, behind those that it holds, are kept
  -- whole: the line that is handled is the two together, and what is behind the newline follows.
  pub receive_all-line :
      (text rest : List ℕ) (r : Receiver)
      → InLine text
      → length r.line + length text ≤ line_max
      → receive_all w (text ++ (b'\n' ∷ rest)) r
        ≡ next (end_line w (record r { line = r.line ++ text })) (receive_all w rest)
  receive_all-line text rest r h n =
      receive_all-append text (b'\n' ∷ rest) r
      ∙ (ap (λ x. next x (receive_all w (b'\n' ∷ rest))) (receive_all_kept text r h n)
          ∙ newline rest (record r { line = r.line ++ text }))

  -- Characters without a newline that do not fit the array of the line, behind those that it holds,
  -- end the session, whatever is behind them.
  pub receive_all_overlong :
      (text rest : List ℕ) (r : Receiver)
      → InLine text
      → length r.line ≤ line_max
      → line_max < length r.line + length text
      → (receive_all w (text ++ rest) r).0 ≡ false
  receive_all_overlong text rest r h m n =
      ap (λ (x : Bool × Receiver). x.0) (receive_all-append text rest r)
      ∙ next-false (receive_all w text r) (receive_all w rest) (receive_all_full text r h m n)
