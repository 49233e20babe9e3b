-- ===== src/Stratum/Shares.antt =====
-- `service_results` of software/application/stratum.c: the results that the miner has found are
-- checked and submitted, and the next range of nonces is started.
use scu35_bitcoin_lottery_mi.Base.{
  ℕ, zero, suc, ◌+◌, ◌-◌, ◌*◌, ◌/◌, ◌%◌, Bool, true, false, not, List, [], ◌∷◌, ◌++◌, Option, none,
  some, length, set, at, ltb, leb, ◌==◌, if◌then◌else◌, ◌>>=◌, ◌>>>◌, u8, u32, bit_and, codes,
  c_text, decimal_text, hex_digits_of,
}
use scu35_bitcoin_lottery_mi.Bitcoin.{bitcoin_swap32, sha256d, hex_encode}
use scu35_bitcoin_lottery_mi.Protocol.{MinerEvent}
use scu35_bitcoin_lottery_mi.Stratum.{
  Client, World, Share, emit, detail, next, stop, send_line, start_range, reg_read, reg_write,
  clock, range,
}
use scu35_bitcoin_lottery_mi.Stratum.Messages.{announce}
use scu35_bitcoin_lottery_mi.Stratum.Work.{build_header}

-- The four bytes of the nonce in the header.
unfoldable pub put_nonce : ℕ → List ℕ → List ℕ
put_nonce nonce header =
    let h0 = set header 76 (u8 (nonce >>> 24)) in
    let h1 = set h0 77 (u8 (nonce >>> 16)) in
    let h2 = set h1 78 (u8 (nonce >>> 8)) in set h2 79 (u8 (nonce >>> 0))

-- `target` of the loop that compares the digest, for byte `i`.
unfoldable pub target_byte : List ℕ → ℕ → ℕ
target_byte target i = u8 (at target (i / 4) >>> (24 - 8 * (i % 4)))

-- The loop from byte `i` on, with `left` rounds left: `valid`.
unfoldable pub meets : ℕ → ℕ → List ℕ → List ℕ → Bool
meets zero i digest target = true
meets (suc left) i digest target =
    let rest = meets left (i + 1) digest target in
    if ltb (at digest (31 - i)) (target_byte target i)
    then true
    else (if ltb (target_byte target i) (at digest (31 - i)) then false else rest)

-- The first entry that is free.
unfoldable pub free_slot : List Share → Option ℕ
free_slot [] = none
free_slot (share ∷ shares) =
    let rest = (free_slot shares >>= λ i. some (i + 1)) in if share.id == 0 then some 0 else rest

unfoldable pub put_share : ℕ → Share → List Share → List Share
put_share i share [] = []
put_share zero share (x ∷ xs) = share ∷ xs
put_share (suc i) share (x ∷ xs) = x ∷ put_share i share xs

unfoldable pub submit_text : ℕ → ℕ → Client → List ℕ
submit_text id nonce s =
    codes "{\"id\":"
    ++ (decimal_text id
        ++ (codes ",\"method\":\"mining.submit\",\"params\":[\""
            ++ (c_text s.session.worker
                ++ (codes "\",\""
                    ++ (s.job.id
                        ++ (codes "\",\""
                            ++ (s.extra2_hex
                                ++ (codes "\",\""
                                    ++ (s.job.time
                                        ++ (codes "\",\""
                                            ++ (hex_digits_of 8 (bitcoin_swap32 nonce)
                                                ++ codes "\"]}\n")))))))))))

-- `digest[31 - i]` for `i` from 0 to 31.
unfoldable pub display_hash : ℕ → ℕ → List ℕ → List ℕ
display_hash zero i digest = []
display_hash (suc left) i digest = at digest (31 - i) ∷ display_hash left (i + 1) digest

unfoldable pub share_event : List ℕ → List ℕ → Client → MinerEvent
unfolding display_hash
share_event request digest s = record {
  name = codes "solution_submitted";
  job_id = s.job.id;
  submission = request;
  hash = c_text (hex_encode (display_hash 32 0 digest));
  job_number = s.job.number;
}

-- The entry of a share that was sent, and its event.
unfoldable pub record_share : ℕ → ℕ → MinerEvent → ℕ × Client → Client
unfolding put_share
record_share slot id e (now, s) =
    let share : Share = record { id = id; submitted = now; event = e } in
    emit (detail e) (record s { pending = put_share slot share s.pending })

module _ (w : World) where
  unfoldable pub submit : ℕ → ℕ → List ℕ → Client → Bool × Client
  submit slot nonce digest s =
      if ltb s.next_id 4
      then (false, s)
      else (let numbered = record s { next_id = u32 (s.next_id + 1) } in
          let request = submit_text s.next_id nonce s in
          if leb 640 (length request)
          then (false, numbered)
          else next (send_line w request numbered) (λ after.
            (true, record_share slot s.next_id (share_event request digest after) (clock w after))))

  unfoldable pub submit_valid : ℕ → List ℕ → Client → Bool × Client
  unfolding free_slot
  submit_valid nonce digest s =
      if meets 32 0 digest s.job.target
      then elim (free_slot s.pending) [
        | none ↦ (false, announce (codes "share_queue_full") s)
        | some slot ↦ submit slot nonce digest s
      ]
      else (false, announce (codes "hardware_solution_invalid") s)

  -- A result from the read of its nonce on. The hash functions always return, so `none` does not
  -- occur.
  unfoldable pub check_result : ℕ → Client → Bool × Client
  unfolding put_nonce
  check_result nonce s =
      let stamped = record s { header = put_nonce nonce s.header } in
      elim (sha256d w.unset stamped.header) [
        | none ↦ (false, stamped)
        | some digest ↦ submit_valid nonce digest stamped
      ]

  unfoldable pub take_result : ℕ × Client → Bool × Client
  take_result (nonce, s) = check_result nonce (reg_write 0x98 1 s)

  -- The loop over at most `left` results.
  unfoldable pub results_loop : ℕ → Client → Bool × Client
  results_loop zero s = (true, s)
  results_loop (suc left) s =
      let status = reg_read w 0x98 s in
      let rest = next (take_result (reg_read w 0x90 status.1)) (results_loop left) in
      if bit_and status.0 1 == 0 then (true, status.1) else rest

  unfoldable pub next_range : Client → Bool × Client
  next_range s =
      let advanced = record s { range_start = u32 (s.range_start + range) } in
      if advanced.range_start == 0
      then build_header w (stop advanced)
      else (true, start_range advanced)

  -- Whether the range is used up and its results are drained.
  unfoldable pub end_of_range : Client → Bool × Client
  unfolding next_range
  end_of_range s =
      let state = reg_read w 4 s in
      if bit_and state.0 4 == 0
      then (true, state.1)
      else (let results = reg_read w 0x98 state.1 in
          if bit_and results.0 1 == 0 then next_range results.1 else (true, results.1))

  unfoldable pub service_results : Client → Bool × Client
  unfolding end_of_range
  service_results s =
      if not s.running
      then (true, s)
      else (let state = reg_read w 4 s in
          if bit_and state.0 8 == 0
          then next (results_loop 16 state.1) end_of_range
          else (false, announce (codes "result_fifo_overflow") state.1))
