-- ===== src/Stratum/Rounds.antt =====
-- The results of the miner and the ranges of nonces keep the control of the miner in order.
use scu35_bitcoin_lottery_mi.Base.{
  by_test, ℕ, zero, suc, Bool, true, false, not, List, ◌≡◌, refl, ap, ◌∙◌, inl, inr, ◌==◌, ltb, leb,
  length, Option-cases, bit_and, u32, ◌+◌, arith,
}
use scu35_bitcoin_lottery_mi.Bitcoin.{sha256d}
use scu35_bitcoin_lottery_mi.Stratum.{
  Client, World, stop, start_range, send_line, emit, reg_read, reg_write, clock, range,
}
use scu35_bitcoin_lottery_mi.Stratum.Shares.{
  submit, submit_text, submit_valid, check_result, take_result, results_loop, next_range,
  end_of_range, service_results, record_share, meets, free_slot, put_nonce,
}
use scu35_bitcoin_lottery_mi.Stratum.Control.{
  armed, read-InOrder, InOrder, Kept, View, next_rule, next_keeps, view, same_view, halted,
  view-send_line, build_header-InOrder,
}

restart :
    {w : World} (s : Client)
    → InOrder w s
    → armed w s.log ≡ false
    → s.authorized ≡ true
    → s.have_job ≡ true
    → InOrder w (start_range s)
unfolding start_range
restart s o rests logged job = record {
  disciplined_writes = simp (rests, o.disciplined_writes);
  flag = refl;
  busy = simp (logged, job);
  login = o.login;
}

abbrev Alike : World → Client → Bool × Client → Type 0
Alike w s x = view w x.1 ≡ view w s

module _ (w : World) where
  view-submit :
      (slot nonce : ℕ) (digest : List ℕ) (s : Client) → Alike w s (submit w slot nonce digest s)
  unfolding submit record_share clock emit
  view-submit slot nonce digest s =
      let numbered = record s { next_id = u32 (s.next_id + 1) } in
      by_test (Alike w s) (ltb s.next_id 4) _ _ (λ _. refl)
        (λ _.
          by_test (Alike w s) (leb 640 (length (submit_text s.next_id nonce s))) _ _ (λ _. refl)
            (λ _.
              next_keeps (λ t. view w t ≡ view w s)
                (send_line w (submit_text s.next_id nonce s) numbered) _
                (view-send_line w (submit_text s.next_id nonce s) numbered) (λ t e. e)))

  view-check_result : (nonce : ℕ) (s : Client) → Alike w s (check_result w nonce s)
  unfolding check_result submit_valid emit
  view-check_result nonce s =
      let stamped = record s { header = put_nonce nonce s.header } in
      elim (Option-cases (sha256d w.unset stamped.header)) [
        | inl e ↦ rw (e, check_result) refl
        | inr (digest, e) ↦
            rw (e, check_result)
              (by_test (Alike w s) (meets 32 0 digest s.job.target) _ _
                (λ _. elim (Option-cases (free_slot s.pending)) [
                  | inl k ↦ rw k refl
                  | inr (slot, k) ↦ rw k (view-submit slot nonce digest stamped)
                ])
                (λ _. refl))
      ]

  view-take_result : (x : ℕ × Client) → Alike w x.1 (take_result w x)
  unfolding take_result reg_write emit
  view-take_result (nonce, s) = view-check_result nonce (reg_write 0x98 1 s)

  view-results_loop : (left : ℕ) (s : Client) → Alike w s (results_loop w left s)
  unfolding results_loop take_result reg_read reg_write emit
  view-results_loop zero s = refl
  view-results_loop (suc left) s =
      by_test (Alike w s) (bit_and (reg_read w 0x98 s).0 1 == 0) _ _ (λ _. refl)
        (λ _.
          next_keeps (λ t. view w t ≡ view w s)
            (take_result w (reg_read w 0x90 (reg_read w 0x98 s).1)) (results_loop w left)
            (view-take_result (reg_read w 0x90 (reg_read w 0x98 s).1))
            (λ t e. view-results_loop left t ∙ e))

  next_range-InOrder :
      (s : Client)
      → InOrder w s
      → s.running ≡ true
      → armed w s.log ≡ false
      → InOrder w (next_range w s).1
  unfolding next_range stop
  next_range-InOrder s o busy rests =
      let advanced = record s { range_start = u32 (s.range_start + range) } in
      let kept = same_view s advanced refl o in
      by_test (Kept w) (advanced.range_start == 0) _ _
        (λ _.
          build_header-InOrder w (stop advanced) (halted advanced kept) refl (ground arith)
            (ground arith))
        (λ _. restart advanced kept rests (ground arith) (ground arith))

  end_of_range-InOrder :
      (s : Client) → InOrder w s → s.running ≡ true → InOrder w (end_of_range w s).1
  unfolding end_of_range reg_read emit
  end_of_range-InOrder s o busy =
      let state = (reg_read w 4 s).1 in
      let results = (reg_read w 0x98 state).1 in
      let looked : InOrder w state = read-InOrder 4 s o in
      by_test (Kept w) (bit_and (reg_read w 4 s).0 4 == 0) _ _ (λ _. looked)
        (λ done.
          by_test (Kept w) (bit_and (reg_read w 0x98 state).0 1 == 0) _ _
            (λ _.
              next_range-InOrder results (same_view state results refl looked) busy (rw done refl))
            (λ _. same_view state results refl looked))

  pub service_results-InOrder : (s : Client) → InOrder w s → InOrder w (service_results w s).1
  unfolding service_results reg_read emit
  service_results-InOrder s o =
      let state = (reg_read w 4 s).1 in
      let looked : InOrder w state = read-InOrder 4 s o in
      by_test (Kept w) (not s.running) _ _ (λ _. o)
        (λ running.
          by_test (Kept w) (bit_and (reg_read w 4 s).0 8 == 0) _ _
            (λ _.
              next_rule (λ t. view w t ≡ view w state) (InOrder w) (results_loop w 16 state)
                (end_of_range w) (view-results_loop 16 state) (λ t e. same_view state t e looked)
                (λ t e.
                  end_of_range-InOrder t (same_view state t e looked)
                    (ap (λ (v : View). v.running) e ∙ ground arith)))
            (λ _. same_view state _ refl looked))
