-- ===== src/Stratum/Control.antt =====
-- The control of the miner in software/application/stratum.c: what the log says of the writes to
-- the miner's registers, and the flags of the session, through every operation.
use scu35_bitcoin_lottery_mi.Base.{
  by_test, ℕ, zero, suc, Bool, true, false, ◌&&◌, not, List, [], ◌∷◌, ◌≡◌, refl, ap, ◌∙◌, inl, inr,
  drop, take, leb, ◌==◌, ◌/◌, ◌%◌, bit_and, arith, if◌then◌else◌, Bool-cases, Option-cases, length,
}
use scu35_bitcoin_lottery_mi.Stratum.{
  Client, World, Effect, wrote, sent, next, read_at, emit, stop, start_range, write_all, send_loop,
  send_line,
}
use scu35_bitcoin_lottery_mi.Stratum.Work.{header_parts, name_extra2, build_header, launch}

-- Whether the miner may be at work, as its registers work: a write to the control register, 0,
-- stops it by bit 1 and else starts it by bit 0, while bit 2 only clears results; and it has
-- stopped by itself when the status, read from 4, says by bit 2 that the range is done.
abbrev pub armed : World → List Effect → Bool
armed w [] = false
armed w (wrote a v ∷ log) =
    let before = armed w log in
    if a == 0
    then (if v / 2 % 2 == 1 then false else (if v % 2 == 1 then true else before))
    else before
armed w (read_at a ∷ log) =
    let before = armed w log in
    if a == 4 && not (bit_and (w.register_value log 4) 4 == 0) then false else before
armed w (e ∷ log) = armed w log

-- Whether the midstate, the target, the tail and the range, at 0x20 to 0x84, are written only while
-- the miner is not at work.
abbrev pub disciplined : World → List Effect → Bool
disciplined w [] = true
disciplined w (wrote a v ∷ log) =
    not ((leb 0x20 a && leb a 0x84) && armed w log) && disciplined w log
disciplined w (e ∷ log) = disciplined w log

pub record View : Type 0 where
  pub writes : Bool
  pub started : Bool
  pub running : Bool
  pub authorized : Bool
  pub have_job : Bool
  pub subscribed : Bool

abbrev pub view : World → Client → View
view w s = record {
  writes = disciplined w s.log;
  started = armed w s.log;
  running = s.running;
  authorized = s.authorized;
  have_job = s.have_job;
  subscribed = s.subscribed;
}

abbrev pub off : View → View
off v = record v { started = false; running = false }

pub view-stop : (w : World) (s : Client) → view w (stop s) ≡ off (view w s)
unfolding stop
view-stop w s = refl

-- What every operation keeps: the discipline of the writes; the flag `running` is set while the
-- miner is at work; it is only with an authorized session and a job; only a session that is
-- subscribed is authorized.
pub record InOrder (w : World) (s : Client) : Type 0 where
  pub disciplined_writes : disciplined w s.log ≡ true
  pub flag : (armed w s.log && not s.running) ≡ false
  pub busy : (s.running && not (s.authorized && s.have_job)) ≡ false
  pub login : (s.authorized && not s.subscribed) ≡ false

pub same_view : {w : World} (s t : Client) → view w t ≡ view w s → InOrder w s → InOrder w t
same_view s t e o = record {
  disciplined_writes = ap (λ (v : View). v.writes) e ∙ o.disciplined_writes;
  flag = ap (λ (v : View). v.started && not v.running) e ∙ o.flag;
  busy = ap (λ (v : View). v.running && not (v.authorized && v.have_job)) e ∙ o.busy;
  login = ap (λ (v : View). v.authorized && not v.subscribed) e ∙ o.login;
}

abbrev pub Kept : World → Bool × Client → Type 0
Kept w x = InOrder w x.1

idle_quiet :
    (started running : Bool) → (started && not running) ≡ false → running ≡ false → started ≡ false
idle_quiet true running h k = ground (arith, h, k)
idle_quiet false running h k = refl

-- A session whose flag is not set has left the miner at rest.
pub quiet : {w : World} (s : Client) → InOrder w s → s.running ≡ false → armed w s.log ≡ false
quiet {w} s o idle = idle_quiet (armed w s.log) s.running o.flag idle

seen :
    (done started running : Bool)
    → (started && not running) ≡ false
    → ((if done then false else started) && not running) ≡ false
seen true started running h = refl
seen false started running h = h

-- A look at a register can only show that the miner is at rest.
pub read-InOrder : {w : World} (a : ℕ) (s : Client) → InOrder w s → InOrder w (emit (read_at a) s)
unfolding emit
read-InOrder {w} a s o = record {
  disciplined_writes = o.disciplined_writes;
  flag =
      seen (a == 4 && not (bit_and (w.register_value s.log 4) 4 == 0)) (armed w s.log) s.running
        o.flag;
  busy = o.busy;
  login = o.login;
}

-- What holds behind the first of two steps, and what therefore holds behind both.
pub next_rule {ℓ κ υ} :
    {S : Type ℓ} (P : S → Type κ) (Q : S → Type υ) (x : Bool × S) (f : S → Bool × S)
    → P x.1
    → ((s : S) → P s → Q s)
    → ((s : S) → P s → Q (f s).1)
    → Q (next x f).1
unfolding next
next_rule P Q (true, s) f p stays h = h s p
next_rule P Q (false, s) f p stays h = stays s p

pub next_keeps {ℓ κ} :
    {S : Type ℓ} (P : S → Type κ) (x : Bool × S) (f : S → Bool × S)
    → P x.1
    → ((s : S) → P s → P (f s).1)
    → P (next x f).1
next_keeps P x f p h = next_rule P P x f p (λ s q. q) h

pub halted : {w : World} (s : Client) → InOrder w s → InOrder w (stop s)
unfolding stop
halted s o = record {
  disciplined_writes = o.disciplined_writes;
  flag = refl;
  busy = refl;
  login = o.login;
}

pub stop-InOrder :
    {w : World} (s : Client) → InOrder w s → InOrder w (record (stop s) { have_job = false })
unfolding stop
stop-InOrder s o = record {
  disciplined_writes = o.disciplined_writes;
  flag = refl;
  busy = refl;
  login = o.login;
}

launched :
    {w : World} (parts : List ℕ × List ℕ) (s : Client)
    → InOrder w s
    → s.running ≡ false
    → s.authorized ≡ true
    → s.have_job ≡ true
    → InOrder w (launch parts (name_extra2 s))
unfolding launch write_all start_range name_extra2
launched {w} (header, mid) s o idle logged job =
    let rests = quiet s o idle in
    record {
      disciplined_writes = simp (rests, o.disciplined_writes);
      flag = refl;
      busy = simp (logged, job);
      login = o.login;
    }

module _ (w : World) where
  pub view-send_loop :
      (fuel : ℕ) (text : List ℕ) (s : Client) → view w (send_loop w fuel text s).1 ≡ view w s
  unfolding send_loop
  view-send_loop fuel [] s = refl
  view-send_loop zero (c ∷ cs) s = refl
  view-send_loop (suc fuel) (c ∷ cs) s =
      let taken = w.accepted s.log (c ∷ cs) in
      elim (Bool-cases (taken == 0)) [
        | inl e ↦ rw e
        | inr e ↦
            rw e (view-send_loop fuel (drop taken (c ∷ cs)) (emit (sent (take taken (c ∷ cs))) s))
      ]

  pub view-send_line : (text : List ℕ) (s : Client) → view w (send_line w text s).1 ≡ view w s
  unfolding send_line
  view-send_line text s = view-send_loop (length text) text s

  pub build_header-InOrder :
      (s : Client)
      → InOrder w s
      → s.running ≡ false
      → s.authorized ≡ true
      → s.have_job ≡ true
      → InOrder w (build_header w s).1
  unfolding build_header
  build_header-InOrder s o idle logged job =
      by_test (Kept w) s.extra_exhausted _ _ (λ _. o)
        (λ _. elim (Option-cases (header_parts w (name_extra2 s))) [
          | inl e ↦ rw (e, build_header) (same_view s (name_extra2 s) refl o)
          | inr (parts, e) ↦ rw (e, build_header) (launched parts s o idle logged job)
        ])
