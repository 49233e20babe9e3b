-- ===== src/Dashboard/Queue.antt =====
-- The queue of the telemetry: what becomes of the events that are reported.
use scu35_bitcoin_lottery_mi.Base.{
  by_test, ℕ, suc, ◌+◌, ◌≤◌, ◌<◌, true, List, [], ◌∷◌, ◌++◌, ◌≡◌, refl, sym, ap, subst, ◌∙◌, inl,
  inr, ◌⊎◌, ltb, length, length-append, append_assoc, append-nil, u32, arith,
}
use scu35_bitcoin_lottery_mi.Protocol.{MinerEvent}
use scu35_bitcoin_lottery_mi.Dashboard.{
  Telemetry, telemetry_detail, enqueue, counted, take_event, rest_of, queue_length,
}

-- A report of an event, and the receipt of one by the telemetry task.
pub data Call : Type 0 where
  reported : MinerEvent → Call
  taken : Call

pub step : Call → Telemetry → Telemetry
step (reported e) t = telemetry_detail e t
step taken t = take_event t

abbrev pub first_of : List MinerEvent → List MinerEvent
first_of [] = []
first_of (e ∷ es) = e ∷ []

abbrev pub received_by : Call → Telemetry → List MinerEvent
received_by (reported e) t = []
received_by taken t = first_of t.events

abbrev pub run : List Call → Telemetry → Telemetry
run [] t = t
run (call ∷ calls) t = run calls (step call t)

-- What the telemetry task receives in a sequence of calls, and what is reported in it.
abbrev pub delivered : List Call → Telemetry → List MinerEvent
delivered [] t = []
delivered (call ∷ calls) t = received_by call t ++ delivered calls (step call t)

abbrev pub all_reported : List Call → List MinerEvent
all_reported [] = []
all_reported (reported e ∷ calls) = e ∷ all_reported calls
all_reported (taken ∷ calls) = all_reported calls

-- The first list is the second with `n` elements left out.
pub data Without : List MinerEvent → List MinerEvent → ℕ → Type 0 where
  nothing_left : Without [] [] 0
  kept :
      {xs ys : List MinerEvent} {n : ℕ} (e : MinerEvent)
      → Without xs ys n
      → Without (e ∷ xs) (e ∷ ys) n
  lost :
      {xs ys : List MinerEvent} {n : ℕ} (e : MinerEvent)
      → Without xs ys n
      → Without xs (e ∷ ys) (suc n)

all_kept : (xs : List MinerEvent) → Without xs xs 0
all_kept [] = nothing_left
all_kept (x ∷ xs) = kept x (all_kept xs)

lost_inside :
    (ys zs : List MinerEvent) {xs : List MinerEvent} {n : ℕ} (e : MinerEvent)
    → Without xs (ys ++ zs) n
    → Without xs (ys ++ (e ∷ zs)) (suc n)
lost_inside [] zs e w = lost e w
lost_inside (y ∷ ys) zs e (kept _ w) = kept y (lost_inside ys zs e w)
lost_inside (y ∷ ys) zs e (lost _ w) = lost y (lost_inside ys zs e w)

kept_first :
    (es zs : List MinerEvent) {xs : List MinerEvent} {n : ℕ}
    → Without xs (rest_of es ++ zs) n
    → Without (first_of es ++ xs) (es ++ zs) n
unfolding rest_of
kept_first [] zs w = w
kept_first (e ∷ es) zs w = kept e w

length-rest_of : (es : List MinerEvent) → length (rest_of es) ≤ length es
unfolding rest_of
length-rest_of [] = omega arith
length-rest_of (e ∷ es) = omega arith

-- A report finds room, or the queue is full.
abbrev Added : MinerEvent → Telemetry → Telemetry → Type 0
Added e t u =
    (u.created ≡ t.created)
    × (((u.events ≡ t.events ++ (e ∷ []))
          × (length t.events < queue_length)
          × (u.stats.dropped ≡ t.stats.dropped))
        ⊎ ((u.events ≡ t.events) × (u.stats.dropped ≡ u32 (t.stats.dropped + 1))))

fits : (n : ℕ) → ltb n queue_length ≡ true → n < queue_length
fits n h = ground arith

enqueue-Added : (e : MinerEvent) (t : Telemetry) → Added e t (enqueue e t)
unfolding enqueue
enqueue-Added e t =
    by_test (Added e t) (ltb (length t.events) queue_length) _ _
      (λ room. (refl, inl (refl, fits (length t.events) room, refl)))
      (λ _. (refl, inr (refl, refl)))

telemetry_detail-Added :
    (e : MinerEvent) (t : Telemetry) → t.created ≡ true → Added e t (telemetry_detail e t)
unfolding telemetry_detail counted
telemetry_detail-Added e t c =
    let t' = record t { stats = counted e.name t.stats } in
    by_test (Added e t) t.created _ _ (λ _. enqueue-Added e t')
      (λ q. let clash = sym c ∙ q in absurd (cc clash))

-- What becomes of the events of a sequence of calls.
pub record Delivered (calls : List Call) (t : Telemetry) : Type 0 where
  pub bound : length (run calls t).events ≤ queue_length
  pub left_out : ℕ
  pub order :
      Without (delivered calls t ++ (run calls t).events) (t.events ++ all_reported calls) left_out
  pub told : u32 (run calls t).stats.dropped ≡ u32 (t.stats.dropped + left_out)

-- In every sequence of reports of events and receipts by the telemetry task, from a queue that was
-- created and holds at most 32 events: it holds at most 32 again; what is received, with what it
-- still holds, is what it held and what was reported, in its order, but for some events, and the
-- counter of dropped events has gone up by their number, modulo 2 ^ 32.
pub run-Delivered :
    (calls : List Call) (t : Telemetry)
    → t.created ≡ true
    → length t.events ≤ queue_length
    → Delivered calls t
unfolding step take_event
run-Delivered [] t c h = record {
  bound = h;
  left_out = 0;
  order =
      subst (λ (l : List MinerEvent). Without t.events l 0) (sym (append-nil t.events))
        (all_kept t.events);
  told = omega arith;
}
run-Delivered (reported e ∷ calls) t c h =
    let t' = telemetry_detail e t in
    let (c', cases) = telemetry_detail-Added e t c in
    let out = delivered calls t' ++ (run calls t').events in
    elim cases [
      | inl (same, room, count) ↦
          let rest = run-Delivered calls t' (c' ∙ c) (
            omega (
              arith,
              ap (λ (l : List MinerEvent). length l) same,
              length-append t.events (e ∷ []),
            )) in
          record {
            bound = rest.bound;
            left_out = rest.left_out;
            order =
                subst (λ (l : List MinerEvent). Without out l rest.left_out)
                  (ap (λ (l : List MinerEvent). l ++ all_reported calls) same
                    ∙ append_assoc t.events (e ∷ []) (all_reported calls))
                  rest.order;
            told = omega (arith, rest.told, count);
          }
      | inr (same, count) ↦
          let rest =
            run-Delivered calls t' (c' ∙ c)
              (omega (arith, h, ap (λ (l : List MinerEvent). length l) same)) in
          record {
            bound = rest.bound;
            left_out = suc rest.left_out;
            order = lost_inside t.events (all_reported calls) e (
                subst (λ (l : List MinerEvent). Without out (l ++ all_reported calls) rest.left_out)
                  same rest.order);
            told = omega (arith, rest.told, count);
          }
    ]
run-Delivered (taken ∷ calls) t c h =
    let rest = run-Delivered calls (take_event t) c (omega (arith, h, length-rest_of t.events)) in
    let out = delivered calls (take_event t) in
    let final = (run calls (take_event t)).events in
    record {
      bound = rest.bound;
      left_out = rest.left_out;
      order =
          subst (λ (l : List MinerEvent). Without l (t.events ++ all_reported calls) rest.left_out)
            (sym (append_assoc (first_of t.events) out final))
            (kept_first t.events (all_reported calls) rest.order);
      told = rest.told;
    }
