-- ===== src/Stratum/Deadlines.antt =====
-- The deadlines of the Stratum client: a share that stays without an answer, a session that is not
-- authorized and a pool that is silent end the session.
use scu35_bitcoin_lottery_mi.Base.{
  by_test, ℕ, zero, suc, Bool, true, false, List, [], ◌∷◌, ◌≡◌, ◌≢◌, refl, ◌∙◌, inl, inr, ◌⊎◌, ◌||◌,
  ◌+◌, ◌-◌, ◌%◌, ◌^◌, ◌<◌, ltb, Bool-cases, subst, arith,
}
use scu35_bitcoin_lottery_mi.Stratum.{Client, World, Share, next, emit, clock}
use scu35_bitcoin_lottery_mi.Stratum.Shares.{service_results}
use scu35_bitcoin_lottery_mi.Stratum.Session.{
  elapsed, Receiver, late, overdue, check_shares, expired, inside, check_deadlines, deadlines,
}
use scu35_bitcoin_lottery_mi.Stratum.Waiting.{Waits, service_results-Stays}

-- A late share ends the round.
overdue-late :
    (now : ℕ) (shares : List Share) (i : ℕ) (share : Share)
    → Waits i share shares
    → late now share ≡ true
    → (overdue now shares).0 ≡ false
unfolding overdue
overdue-late now [] i share h l = absurd (cc h)
overdue-late now (x ∷ xs) zero share h l =
    let same : share ≡ x = cc h in
    let found = subst (λ (y : Share). late now y ≡ true) same l in rw found
overdue-late now (x ∷ xs) (suc i) share h l = elim (Bool-cases (late now x)) [
  | inl e ↦ rw e
  | inr e ↦ rw e (overdue-late now xs i share h l)
]

check_shares-late :
    (now : ℕ) (s : Client) (i : ℕ) (share : Share)
    → Waits i share s.pending
    → late now share ≡ true
    → (check_shares now s).0 ≡ false
unfolding check_shares
check_shares-late now s i share h l = overdue-late now s.pending i share h l

inside_ok : (r : Receiver) (x : Bool × Client) → (inside r x).0 ≡ x.0
unfolding inside
inside_ok r (ok, s) = refl

next_refuses {ℓ κ} :
    {S : Type ℓ} (P : S → Type κ) (x : Bool × S) (f : S → Bool × S)
    → P x.1
    → ((s : S) → P s → (f s).0 ≡ false)
    → (next x f).0 ≡ false
unfolding next
next_refuses P (true, s) f p h = h s p
next_refuses P (false, s) f p h = refl

or_true : (b : Bool) → (b || true) ≡ true
or_true true = refl
or_true false = refl

-- More than `limit` ticks lie between two readings of the tick count, which wraps at 2 ^ 32: `begun`
-- and `ended` are the ticks without the wrap.
pub record Past (limit now since : ℕ) : Type 0 where
  pub begun : ℕ
  pub ended : ℕ
  pub reads_since : since ≡ begun % 2 ^ 32
  pub reads_now : now ≡ ended % 2 ^ 32
  pub longer : begun + limit < ended
  pub within : ended < begun + 2 ^ 32

elapsed-Past : (limit now since : ℕ) → Past limit now since → ltb limit (elapsed now since) ≡ true
elapsed-Past limit now since p =
    let same : elapsed now since ≡ p.ended - p.begun =
      omega (arith, p.reads_since, p.reads_now, p.longer, p.within) in
    ground (arith, same, p.longer)

-- At a time of 100 ticks a second, 15 seconds are over without an authorization, 120 without a
-- line, or 30 without the answer to a share, whose entry is in use.
abbrev pub Overdue : ℕ → Receiver → Type 0
Overdue now r =
    ((r.client.authorized ≡ false) × Past 1500 now r.started)
    ⊎ (Past 12000 now r.last
        ⊎ ((i : ℕ) × (share : Share) × Waits i share r.client.pending
            × (share.id ≢ 0)
            × Past 3000 now share.submitted))

late-Past :
    (now : ℕ) (share : Share) → share.id ≢ 0 → Past 3000 now share.submitted → late now share ≡ true
unfolding late
late-Past now share used p = ground (arith, used, elapsed-Past 3000 now share.submitted p)

logged_out :
    (now : ℕ) (r : Receiver)
    → r.client.authorized ≡ false
    → Past 1500 now r.started
    → expired now r ≡ true
unfolding expired
logged_out now r out p = rw (out, elapsed-Past 1500 now r.started p) refl

silent : (now : ℕ) (r : Receiver) → Past 12000 now r.last → expired now r ≡ true
unfolding expired
silent now r p = rw (elapsed-Past 12000 now r.last p) (or_true _)

module _ (w : World) where
  check_deadlines-late :
      (i : ℕ) (share : Share) (used : share.id ≢ 0) (now : ℕ) (s : Client) (r : Receiver)
      → Waits i share s.pending
      → late now share ≡ true
      → (check_deadlines w (now, s) r).0 ≡ false
  unfolding check_deadlines
  check_deadlines-late i share used now s r h l =
      by_test (λ (x : Bool × Receiver). x.0 ≡ false) (expired now (record r { client = s })) _ _
        (λ _. refl)
        (λ _.
          inside_ok r (next (service_results w s) (check_shares now))
          ∙ next_refuses (λ t. Waits i share t.pending) (service_results w s) (check_shares now)
              (service_results-Stays w i share used s h)
              (λ t k. check_shares-late now t i share k l))

  check_deadlines-expired :
      (now : ℕ) (s : Client) (r : Receiver)
      → expired now (record r { client = s }) ≡ true
      → (check_deadlines w (now, s) r).0 ≡ false
  unfolding check_deadlines
  check_deadlines-expired now s r e = rw e

  -- With 100 ticks to a second: a round whose look at the clock finds more than 15 seconds since
  -- the start of a session that is not authorized, more than 120 seconds since the last line from
  -- the pool, or more than 30 seconds since the sending of any share that waits for its answer,
  -- ends the session. The times are less than 2 ^ 32 ticks apart, and their readings wrap.
  pub deadlines-Overdue :
      (r : Receiver) → Overdue (w.ticks r.client.log) r → (deadlines w (true, r)).0 ≡ false
  unfolding deadlines clock emit expired
  deadlines-Overdue r (inl (out, p)) =
      check_deadlines-expired _ _ r (logged_out (w.ticks r.client.log) r out p)
  deadlines-Overdue r (inr (inl p)) =
      check_deadlines-expired _ _ r (silent (w.ticks r.client.log) r p)
  deadlines-Overdue r (inr (inr (i, share, h, used, p))) =
      check_deadlines-late i share used (w.ticks r.client.log) _ r h
        (late-Past (w.ticks r.client.log) share used p)
