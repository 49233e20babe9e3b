-- ===== src/Stratum/Waiting.antt =====
-- A share that waits for its answer stays in its element of `pending` while the results of the miner
-- are serviced.
use scu35_bitcoin_lottery_mi.Base.{
  by_test, ℕ, zero, suc, ◌+◌, Bool, true, false, not, List, [], ◌∷◌, ◌≡◌, ◌≢◌, refl, sym, ap, ◌∙◌,
  inl, inr, if◌then◌else◌, ◌==◌, ltb, leb, length, get_elem?, Option, none, some, ◌⊎◌, Bool-cases,
  Option-cases, bit_and, u32, subst, ◌>>=◌, ==_iff, arith,
}
use scu35_bitcoin_lottery_mi.Bitcoin.{sha256d}
use scu35_bitcoin_lottery_mi.Stratum.{
  Client, World, Share, stop, start_range, send_line, send_loop, emit, reg_read, reg_write, clock,
  range, write_all,
}
use scu35_bitcoin_lottery_mi.Stratum.Work.{build_header, header_parts, name_extra2, launch}
use scu35_bitcoin_lottery_mi.Stratum.Shares.{
  submit, submit_text, submit_valid, check_result, take_result, results_loop, next_range,
  end_of_range, service_results, record_share, meets, free_slot, put_nonce, put_share,
}
use scu35_bitcoin_lottery_mi.Stratum.Control.{next_rule, next_keeps}

-- A share that waits for its answer in an element of `pending`.
abbrev pub Waits : ℕ → Share → List Share → Type 0
Waits i share pending = get_elem? pending i ≡ some share

pub slot_cases :
    (test : Bool) (o : Option ℕ) (slot : ℕ)
    → (if test then some 0 else (o >>= λ i. some (i + 1))) ≡ some slot
    → ((test ≡ true) × (slot ≡ 0)) ⊎ ((j : ℕ) × (test ≡ false) × (o ≡ some j) × (slot ≡ suc j))
slot_cases true o slot h = inl (refl, cc h)
slot_cases false none slot h = absurd (cc h)
slot_cases false (some j) slot h =
    let same : j + 1 ≡ slot = cc h in inr (j, refl, refl, omega (arith, same))

-- An entry that waits is not free, so a new share leaves it.
free_slot-put_share :
    (shares : List Share) (i slot : ℕ) (share new : Share)
    → Waits i share shares
    → share.id ≢ 0
    → free_slot shares ≡ some slot
    → Waits i share (put_share slot new shares)
unfolding free_slot put_share
free_slot-put_share [] i slot share new h used e = absurd (cc h)
free_slot-put_share (x ∷ xs) zero slot share new h used e =
    elim (slot_cases (x.id == 0) (free_slot xs) slot e) [
      | inl (free, z) ↦
          let same : x ≡ share = cc h in
          absurd (used (sym (ap (λ (y : Share). y.id) same) ∙ (==_iff x.id 0).0 free))
      | inr (j, _, _, z) ↦ rw z h
    ]
free_slot-put_share (x ∷ xs) (suc i) slot share new h used e =
    elim (slot_cases (x.id == 0) (free_slot xs) slot e) [
      | inl (_, z) ↦ rw z h
      | inr (j, _, found, z) ↦ rw z (free_slot-put_share xs i j share new h used found)
    ]

module _ (w : World) where
  pending-send_loop :
      (fuel : ℕ) (text : List ℕ) (s : Client) → (send_loop w fuel text s).1.pending ≡ s.pending
  unfolding send_loop emit
  pending-send_loop fuel [] s = refl
  pending-send_loop zero (c ∷ cs) s = refl
  pending-send_loop (suc fuel) (c ∷ cs) s = elim (Bool-cases (w.accepted s.log (c ∷ cs) == 0)) [
    | inl e ↦ rw e
    | inr e ↦ rw e (pending-send_loop fuel _ _)
  ]

  pending-build_header : (s : Client) → (build_header w s).1.pending ≡ s.pending
  unfolding build_header launch write_all start_range
  pending-build_header s =
      by_test (λ (x : Bool × Client). x.1.pending ≡ s.pending) s.extra_exhausted _ _ (λ _. refl)
        (λ _. elim (Option-cases (header_parts w (name_extra2 s))) [
          | inl e ↦ rw (e, build_header)
          | inr ((header, mid), e) ↦ rw (e, build_header)
        ])

  pending-next_range : (s : Client) → (next_range w s).1.pending ≡ s.pending
  unfolding next_range stop start_range
  pending-next_range s =
      let advanced = record s { range_start = u32 (s.range_start + range) } in
      by_test (λ (x : Bool × Client). x.1.pending ≡ s.pending) (advanced.range_start == 0) _ _
        (λ _. pending-build_header (stop advanced)) (λ _. refl)

  pending-end_of_range : (s : Client) → (end_of_range w s).1.pending ≡ s.pending
  unfolding end_of_range reg_read emit
  pending-end_of_range s =
      let state = (reg_read w 4 s).1 in
      by_test (λ (x : Bool × Client). x.1.pending ≡ s.pending) (bit_and (reg_read w 4 s).0 4 == 0) _
        _ (λ _. refl)
        (λ _.
          by_test (λ (x : Bool × Client). x.1.pending ≡ s.pending)
            (bit_and (reg_read w 0x98 state).0 1 == 0) _ _
            (λ _. pending-next_range (reg_read w 0x98 state).1) (λ _. refl))

  module _ (i : ℕ) (share : Share) (used : share.id ≢ 0) where
    abbrev pub Stays : Bool × Client → Type 0
    Stays x = Waits i share x.1.pending

    submit-Stays :
        (slot nonce : ℕ) (digest : List ℕ) (s : Client)
        → Waits i share s.pending
        → free_slot s.pending ≡ some slot
        → Stays (submit w slot nonce digest s)
    unfolding submit record_share clock emit send_line
    submit-Stays slot nonce digest s h free =
        let numbered = record s { next_id = u32 (s.next_id + 1) } in
        let text = submit_text s.next_id nonce s in
        by_test Stays (ltb s.next_id 4) _ _ (λ _. h)
          (λ _.
            by_test Stays (leb 640 (length text)) _ _ (λ _. h)
              (λ _.
                next_rule (λ t. t.pending ≡ s.pending) (λ t. Waits i share t.pending)
                  (send_line w text numbered) _ (pending-send_loop (length text) text numbered)
                  (λ t e. subst (Waits i share) (sym e) h)
                  (λ t e.
                    free_slot-put_share t.pending i slot share _ (subst (Waits i share) (sym e) h)
                      used (ap free_slot e ∙ free))))

    check_result-Stays :
        (nonce : ℕ) (s : Client) → Waits i share s.pending → Stays (check_result w nonce s)
    unfolding check_result submit_valid emit
    check_result-Stays nonce s h =
        let stamped = record s { header = put_nonce nonce s.header } in
        elim (Option-cases (sha256d w.unset stamped.header)) [
          | inl e ↦ rw (e, check_result) h
          | inr (digest, e) ↦
              rw (e, check_result)
                (by_test Stays (meets 32 0 digest s.job.target) _ _
                  (λ _. elim (Option-cases (free_slot s.pending)) [
                    | inl k ↦ rw k h
                    | inr (slot, k) ↦ rw k (submit-Stays slot nonce digest stamped h k)
                  ])
                  (λ _. h))
        ]

    take_result-Stays : (x : ℕ × Client) → Waits i share x.1.pending → Stays (take_result w x)
    unfolding take_result reg_write emit
    take_result-Stays (nonce, s) h = check_result-Stays nonce (reg_write 0x98 1 s) h

    results_loop-Stays :
        (left : ℕ) (s : Client) → Waits i share s.pending → Stays (results_loop w left s)
    unfolding results_loop reg_read emit
    results_loop-Stays zero s h = h
    results_loop-Stays (suc left) s h =
        let status = reg_read w 0x98 s in
        by_test Stays (bit_and status.0 1 == 0) _ _ (λ _. h)
          (λ _.
            next_keeps (λ t. Waits i share t.pending) (take_result w (reg_read w 0x90 status.1))
              (results_loop w left) (take_result-Stays (reg_read w 0x90 status.1) h)
              (results_loop-Stays left))

    pub service_results-Stays : (s : Client) → Waits i share s.pending → Stays (service_results w s)
    unfolding service_results reg_read emit
    service_results-Stays s h =
        let state = (reg_read w 4 s).1 in
        by_test Stays (not s.running) _ _ (λ _. h)
          (λ _.
            by_test Stays (bit_and (reg_read w 4 s).0 8 == 0) _ _
              (λ _.
                next_keeps (λ t. Waits i share t.pending) (results_loop w 16 state) (end_of_range w)
                  (results_loop-Stays 16 state h)
                  (λ t k. subst (Waits i share) (sym (pending-end_of_range t)) k))
              (λ _. h))
