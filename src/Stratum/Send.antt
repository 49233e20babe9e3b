-- ===== src/Stratum/Send.antt =====
-- `send_line` of the Stratum client: what has gone out when it returns.
use scu35_bitcoin_lottery_mi.Base.{
  ℕ, zero, suc, ◌≤◌, ◌<◌, Bool, true, false, List, [], ◌∷◌, ◌++◌, ◌≡◌, refl, sym, ap, ◌∙◌, inl, inr,
  ◌⊎◌, ◌==◌, length, take, drop, take-append-drop, append_assoc, append-nil, length-drop,
  Bool-cases, arith,
}
use scu35_bitcoin_lottery_mi.Stratum.{Client, World, Effect, sent, emit, send_loop, send_line}

-- What the sends of a log have taken, the first characters first.
abbrev pub sent_text : List Effect → List ℕ
sent_text [] = []
sent_text (sent text ∷ log) = sent_text log ++ text
sent_text (e ∷ log) = sent_text log

-- The text behind that of the log before: all of it if the call returns 0, and a part of it from
-- its beginning, with something left, if it returns -1.
pub record Sent (text : List ℕ) (s : Client) (result : Bool × Client) : Type 0 where
  pub part : List ℕ
  pub unsent : List ℕ
  pub whole : part ++ unsent ≡ text
  pub out : sent_text result.1.log ≡ sent_text s.log ++ part
  pub ended : ((result.0 ≡ true) × (unsent ≡ [])) ⊎ ((result.0 ≡ false) × (0 < length unsent))

taken_some : (n : ℕ) → (n == 0) ≡ false → 0 < n
taken_some n h = ground arith

module _ (w : World) where
  send_loop-Sent :
      (fuel : ℕ) (text : List ℕ) (s : Client)
      → length text ≤ fuel
      → Sent text s (send_loop w fuel text s)
  unfolding send_loop emit
  send_loop-Sent fuel [] s h = record {
    part = [];
    unsent = [];
    whole = refl;
    out = sym (append-nil _);
    ended = inl (refl, refl);
  }
  send_loop-Sent zero (c ∷ cs) s h = absurd (omega arith)
  send_loop-Sent (suc fuel) (c ∷ cs) s h =
      let taken = w.accepted s.log (c ∷ cs) in
      elim (Bool-cases (taken == 0)) [
        | inl e ↦ rw e (record {
          part = [];
          unsent = c ∷ cs;
          whole = refl;
          out = refl;
          ended = inr (refl, omega arith);
        })
        | inr e ↦ rw e (
            let after = emit (sent (take taken (c ∷ cs))) s in
            let rest =
              send_loop-Sent fuel (drop taken (c ∷ cs)) after
                (omega (arith, length-drop taken (c ∷ cs), taken_some taken e)) in
            record {
              part = take taken (c ∷ cs) ++ rest.part;
              unsent = rest.unsent;
              whole =
                  append_assoc (take taken (c ∷ cs)) rest.part rest.unsent
                  ∙ (ap (λ t. take taken (c ∷ cs) ++ t) rest.whole
                      ∙ take-append-drop taken (c ∷ cs));
              out = rest.out ∙ append_assoc (sent_text s.log) (take taken (c ∷ cs)) rest.part;
              ended = rest.ended;
            })
      ]

  -- However few characters each call takes: if a line is sent with 0, exactly its characters have
  -- gone out, in their order; if it is sent with -1, a part of it from its beginning has gone out,
  -- with something left.
  pub send_line-Sent : (text : List ℕ) (s : Client) → Sent text s (send_line w text s)
  unfolding send_line
  send_line-Sent text s = send_loop-Sent (length text) text s (omega arith)
