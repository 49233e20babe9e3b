-- ===== src/Stratum/Valid.antt =====
-- What `check_result` does with a result of the miner, by its hash and the state of the session.
use scu35_bitcoin_lottery_mi.Base.{
  by_test, ℕ, zero, suc, ◌+◌, ◌≤◌, ◌<◌, Bool, true, false, List, [], ◌∷◌, ◌++◌, ◌≡◌, refl, sym, ap,
  subst, ◌∙◌, inl, inr, ◌==◌, ltb, leb, length, Option, none, some, Bool-cases, dec_le, ◌⊎◌, ◌↔◌,
  Bytes, set, u32, codes, append-nil, arith,
}
use scu35_bitcoin_lottery_mi.Bitcoin.Hash.{sha256d-sha256}
use scu35_bitcoin_lottery_mi.Sha256.{digest_bytes, store_be32}
use scu35_bitcoin_lottery_mi.Sha256.Digest.{sha256}
use scu35_bitcoin_lottery_mi.Stratum.{Client, World, Share, next, send_line, send_loop, clock, emit}
use scu35_bitcoin_lottery_mi.Stratum.Messages.{announce}
use scu35_bitcoin_lottery_mi.Stratum.Shares.{
  submit, submit_text, submit_valid, check_result, record_share, share_event, meets, free_slot,
  put_nonce, put_share,
}
use scu35_bitcoin_lottery_mi.Stratum.Numbers.{digest_number, target_value, meets_iff, Words}
use scu35_bitcoin_lottery_mi.Stratum.Places.{
  with_nonce, put_nonce-with_nonce, FirstFree, AllUsed, free_slot-FirstFree, free_slot-AllUsed,
  put_share-set,
}
use scu35_bitcoin_lottery_mi.Stratum.Send.{Sent, send_line-Sent, sent_text}

Bytes-digest_bytes : (ws : List ℕ) → Bytes (digest_bytes ws)
unfolding digest_bytes store_be32
Bytes-digest_bytes [] = tt
Bytes-digest_bytes (w ∷ ws) =
    (omega arith, (omega arith, (omega arith, (omega arith, Bytes-digest_bytes ws))))

Bytes-sha256 : (m : List ℕ) → Bytes (sha256 m)
unfolding sha256
Bytes-sha256 m = Bytes-digest_bytes _

-- The hash of the header of a result.
abbrev pub result_hash : ℕ → Client → List ℕ
result_hash nonce s = sha256 (sha256 (with_nonce nonce s.header))

-- The state once the nonce is in the header.
abbrev pub stamped : ℕ → Client → Client
stamped nonce s = record s { header = with_nonce nonce s.header }

-- What has happened between two states if a share was submitted.
pub record Submitted (nonce : ℕ) (s t : Client) : Type 0 where
  pub slot : ℕ
  pub share : Share
  pub was_free : FirstFree slot s.pending
  pub waits : t.pending ≡ set s.pending slot share
  pub named : share.id ≡ s.next_id
  pub own_id : 4 ≤ s.next_id
  pub next_id : t.next_id ≡ u32 (s.next_id + 1)
  pub out : sent_text t.log ≡ sent_text s.log ++ submit_text s.next_id nonce s

module _ (w : World) where
  -- Why a result that meets the target is not submitted: no entry is free, the ids have run out, or
  -- the request is too long or not sent.
  abbrev pub Blocked : ℕ → Client → Type 0
  Blocked nonce s =
      AllUsed s.pending
      ⊎ ((s.next_id < 4)
          ⊎ ((640 ≤ length (submit_text s.next_id nonce s))
              ⊎ ((send_line w (submit_text s.next_id nonce s)
                    (record s { next_id = u32 (s.next_id + 1) })).0
                  ≡ false)))

  abbrev pub Outcome : ℕ → Client → Bool × Client → Type 0
  Outcome nonce s x = ((x.0 ≡ false) × Blocked nonce s) ⊎ ((x.0 ≡ true) × Submitted nonce s x.1)

below_four : (n : ℕ) → ltb n 4 ≡ true → n < 4
below_four n h = ground arith

too_long : (n : ℕ) → leb 640 n ≡ true → 640 ≤ n
too_long n h = ground arith

above : {b : Bool} {m n : ℕ} → (b ≡ true) ↔ (m ≤ n) → b ≡ false → n < m
above {b} {m} {n} same e = elim (dec_le m n) [
  | yes p ↦ let clash = sym (same.1 p) ∙ e in absurd (cc clash)
  | no p ↦ omega arith
]

nothing_left : {text : List ℕ} {s t : Client} (done : Sent text s (true, t)) → done.part ≡ text
nothing_left done = elim done.ended [
  | inl (_, e) ↦
      sym (append-nil done.part) ∙ (ap (λ (rest : List ℕ). done.part ++ rest) (sym e) ∙ done.whole)
  | inr (e, _) ↦ absurd (cc e)
]

at_least_four : (n : ℕ) → ltb n 4 ≡ false → 4 ≤ n
at_least_four n h = ground arith

module _ (w : World) where
  send_loop_frame :
      (fuel : ℕ) (text : List ℕ) (s : Client)
      → (send_loop w fuel text s).1 ≡ record s { log = (send_loop w fuel text s).1.log }
  unfolding send_loop emit
  send_loop_frame fuel [] s = refl
  send_loop_frame zero (c ∷ cs) s = refl
  send_loop_frame (suc fuel) (c ∷ cs) s = elim (Bool-cases (w.accepted s.log (c ∷ cs) == 0)) [
    | inl e ↦ rw e
    | inr e ↦ rw e (send_loop_frame fuel _ _)
  ]

  sent-Submitted :
      (slot nonce : ℕ) (digest : List ℕ) (s : Client) (x : Bool × Client)
      → free_slot s.pending ≡ some slot
      → 4 ≤ s.next_id
      → x.1 ≡ record s { next_id = u32 (s.next_id + 1); log = x.1.log }
      → Sent (submit_text s.next_id nonce s) (record s { next_id = u32 (s.next_id + 1) }) x
      → ((x.0 ≡ false) → Blocked w nonce s)
      → Outcome w nonce s (
          next x (λ after. (
            true,
            record_share slot s.next_id
                (share_event (submit_text s.next_id nonce s) digest after)
                (clock w after),
          )))
  unfolding next record_share clock emit
  sent-Submitted slot nonce digest s (false, t) free four frame done failed =
      inl (refl, failed refl)
  sent-Submitted slot nonce digest s (true, t) free four frame done failed =
      let text = submit_text s.next_id nonce s in
      let share : Share = record {
        id = s.next_id;
        submitted = w.ticks t.log;
        event = share_event text digest t;
      } in
      inr (
        refl,
        record {
          slot = slot;
          share = share;
          was_free = free_slot-FirstFree s.pending slot free;
          waits =
              ap (λ (c : Client). put_share slot share c.pending) frame
              ∙ put_share-set slot share s.pending;
          named = refl;
          own_id = four;
          next_id = ap (λ (c : Client). c.next_id) frame;
          out = done.out ∙ ap (λ (part : List ℕ). sent_text s.log ++ part) (nothing_left done);
        },
      )

  submit-Submitted :
      (slot nonce : ℕ) (digest : List ℕ) (s : Client)
      → free_slot s.pending ≡ some slot
      → Outcome w nonce s (submit w slot nonce digest s)
  unfolding submit record_share clock emit send_line
  submit-Submitted slot nonce digest s free =
      let text = submit_text s.next_id nonce s in
      let numbered = record s { next_id = u32 (s.next_id + 1) } in
      by_test (Outcome w nonce s) (ltb s.next_id 4) _ _
        (λ low. inl (refl, inr (inl (below_four s.next_id low))))
        (λ four.
          by_test (Outcome w nonce s) (leb 640 (length text)) _ _
            (λ long. inl (refl, inr (inr (inl (too_long (length text) long)))))
            (λ _.
              sent-Submitted slot nonce digest s (send_line w text numbered) free
                (at_least_four s.next_id four) (send_loop_frame (length text) text numbered)
                (send_line-Sent w text numbered) (λ failed. inr (inr (inr failed)))))

  chosen :
      (nonce : ℕ) (digest : List ℕ) (s : Client) (o : Option ℕ)
      → free_slot s.pending ≡ o
      → Outcome w nonce s (elim o [
        | none ↦ (false, announce (codes "share_queue_full") s)
        | some slot ↦ submit w slot nonce digest s
      ])
  unfolding emit
  chosen nonce digest s none e = inl (refl, inl (free_slot-AllUsed s.pending e))
  chosen nonce digest s (some slot) e = submit-Submitted slot nonce digest s e

  met-Outcome :
      (nonce : ℕ) (digest : List ℕ) (s : Client)
      → meets 32 0 digest s.job.target ≡ true
      → Outcome w nonce s (submit_valid w nonce digest s)
  unfolding submit_valid
  met-Outcome nonce digest s met = rw met (chosen nonce digest s (free_slot s.pending) refl)

  unmet :
      (nonce : ℕ) (digest : List ℕ) (s : Client)
      → meets 32 0 digest s.job.target ≡ false
      → submit_valid w nonce digest s ≡ (false, announce (codes "hardware_solution_invalid") s)
  unfolding submit_valid
  unmet nonce digest s e = rw e

  hashed :
      (nonce : ℕ) (s : Client)
      → length w.unset.buffer ≡ 64
      → length s.header ≡ 80
      → check_result w nonce s ≡ submit_valid w nonce (result_hash nonce s) (stamped nonce s)
  unfolding check_result
  hashed nonce s h n =
      rw (sha256d-sha256 w.unset (put_nonce nonce s.header) h, check_result)
        (ap (λ (x : List ℕ). submit_valid w nonce (sha256 (sha256 x)) (record s { header = x }))
          (put_nonce-with_nonce nonce s.header n))

  -- With a header of 80 bytes, a hash buffer of 64 bytes and a target of 32-bit words: if the
  -- double hash of the header with the nonce in its last four bytes, the highest one first, as a
  -- number, is above the target, the result is refused as invalid, with nothing sent. Otherwise
  -- either it is refused because all entries are in use, the ids have run out, or the request is
  -- too long or not sent whole; or the request goes out whole, and the first entry that was free
  -- holds its id, which is the next one.
  pub check_result-Outcome :
      (nonce : ℕ) (s : Client)
      → length w.unset.buffer ≡ 64
      → length s.header ≡ 80
      → Words s.job.target
      → ((target_value s.job.target < digest_number (result_hash nonce s))
          × (check_result w nonce s
              ≡ (false, announce (codes "hardware_solution_invalid") (stamped nonce s))))
        ⊎ ((digest_number (result_hash nonce s) ≤ target_value s.job.target)
            × Outcome w nonce (stamped nonce s) (check_result w nonce s))
  check_result-Outcome nonce s h n k =
      let digest = result_hash nonce s in
      let same = hashed nonce s h n in
      let compared = meets_iff digest s.job.target (Bytes-sha256 _) k in
      elim (Bool-cases (meets 32 0 digest s.job.target)) [
        | inl e ↦ inr (
          compared.0 e,
          subst (Outcome w nonce (stamped nonce s)) (sym same)
              (met-Outcome nonce digest (stamped nonce s) e),
        )
        | inr e ↦ inl (above compared e, same ∙ unmet nonce digest (stamped nonce s) e)
      ]
