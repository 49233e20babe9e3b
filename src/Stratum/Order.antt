-- ===== src/Stratum/Order.antt =====
-- The rounds of a session and whole sessions keep the control of the miner in order.
use scu35_bitcoin_lottery_mi.Base.{
  by_test, ℕ, Bool, true, false, List, [], ◌∷◌, ◌≡◌, refl, if◌then◌else◌, ◌==◌, ltb, length,
}
use scu35_bitcoin_lottery_mi.Protocol.{MinerEvent}
use scu35_bitcoin_lottery_mi.Settings.{MinerSettings}
use scu35_bitcoin_lottery_mi.Stratum.{Client, World, next, stop, send_line, emit, clock, line_max}
use scu35_bitcoin_lottery_mi.Stratum.Messages.{handle_line}
use scu35_bitcoin_lottery_mi.Stratum.Shares.{service_results}
use scu35_bitcoin_lottery_mi.Stratum.Session.{
  Receiver, Received, characters, nothing_yet, broken, check_shares, report_all, overdue, inside,
  expired, empty_line, end_line, receive, receive_all, received, check_deadlines, deadlines,
  session_round, session_loop, begin_session, end_session, subscribe_text, receiver, converse,
  session,
}
use scu35_bitcoin_lottery_mi.Stratum.Control.{
  InOrder, next_keeps, view, same_view, view-send_line, armed, disciplined,
}
use scu35_bitcoin_lottery_mi.Stratum.Replies.{handle_line-InOrder}
use scu35_bitcoin_lottery_mi.Stratum.Rounds.{service_results-InOrder}

abbrev Held : World → Bool × Receiver → Type 0
Held w x = InOrder w x.1.client

view-report_all :
    (w : World) (es : List MinerEvent) (s : Client) → view w (report_all es s) ≡ view w s
unfolding report_all emit
view-report_all w [] s = refl
view-report_all w (e ∷ es) s = view-report_all w es _

view-check_shares : (w : World) (now : ℕ) (s : Client) → view w (check_shares now s).1 ≡ view w s
unfolding check_shares
view-check_shares w now s =
    let result = overdue now s.pending in
    view-report_all w result.2 (record s { pending = result.1 })

Held-inside : {w : World} (r : Receiver) (x : Bool × Client) → InOrder w x.1 → Held w (inside r x)
unfolding inside
Held-inside r (ok, s) o = o

ended :
    {w : World} (s : Client)
    → InOrder w s
    → (disciplined w (end_session s).log ≡ true) × (armed w (end_session s).log ≡ false)
unfolding end_session stop emit
ended s o = (o.disciplined_writes, refl)

fresh :
    {w : World} (settings : MinerSettings) (s : Client)
    → disciplined w s.log ≡ true
    → armed w s.log ≡ false
    → InOrder w (begin_session settings s)
unfolding begin_session
fresh settings s tidy quiet = record {
  disciplined_writes = tidy;
  flag = rw quiet refl;
  busy = refl;
  login = refl;
}

module _ (w : World) where
  clock-InOrder : (s : Client) → InOrder w s → InOrder w (clock w s).1
  unfolding clock emit
  clock-InOrder s o = same_view s _ refl o

  Held-empty_line : (r : Receiver) → InOrder w r.client → Held w (empty_line w r)
  unfolding empty_line
  Held-empty_line r o = clock-InOrder r.client o

  Held-end_line : (r : Receiver) → InOrder w r.client → Held w (end_line w r)
  unfolding end_line
  Held-end_line r o =
      by_test (Held w) (length r.line == 0) _ _ (λ _. Held-empty_line r o)
        (λ _.
          next_keeps (λ t. InOrder w t.client) (inside r (handle_line w r.line r.client))
            (empty_line w)
            (Held-inside r (handle_line w r.line r.client)
              (handle_line-InOrder w r.line r.client o))
            Held-empty_line)

  Held-receive : (c : ℕ) (r : Receiver) → InOrder w r.client → Held w (receive w c r)
  unfolding receive
  Held-receive c r o =
      by_test (Held w) (c == b'\n') _ _ (λ _. Held-end_line r o)
        (λ _. by_test (Held w) (ltb (length r.line) line_max) _ _ (λ _. o) (λ _. o))

  Held-receive_all : (cs : List ℕ) (r : Receiver) → InOrder w r.client → Held w (receive_all w cs r)
  unfolding receive_all
  Held-receive_all [] r o = o
  Held-receive_all (c ∷ cs) r o =
      next_keeps (λ t. InOrder w t.client) (receive w c r) (receive_all w cs) (Held-receive c r o)
        (Held-receive_all cs)

  Held-received :
      (input : Received) (r : Receiver) → InOrder w r.client → Held w (received w input r)
  unfolding received
  Held-received (characters cs) r o = Held-receive_all cs r o
  Held-received nothing_yet r o = o
  Held-received broken r o = o

  Held-check_deadlines :
      (now : ℕ) (s : Client) (r : Receiver) → InOrder w s → Held w (check_deadlines w (now, s) r)
  unfolding check_deadlines
  Held-check_deadlines now s r o =
      by_test (Held w) (expired now (record r { client = s })) _ _ (λ _. o)
        (λ _. Held-inside r (next (service_results w s) (check_shares now)) (
          next_keeps (InOrder w) (service_results w s) (check_shares now)
            (service_results-InOrder w s o) (λ t p. same_view t _ (view-check_shares w now t) p)))

  Held-deadlines : (x : Bool × Receiver) → Held w x → Held w (deadlines w x)
  unfolding deadlines clock
  Held-deadlines (true, r) o = Held-check_deadlines _ _ r (clock-InOrder r.client o)
  Held-deadlines (false, r) o = clock-InOrder r.client o

  Held-session_round :
      (input : Received) (r : Receiver) → InOrder w r.client → Held w (session_round w input r)
  unfolding session_round
  Held-session_round broken r o = o
  Held-session_round (characters cs) r o = Held-deadlines _ (Held-received (characters cs) r o)
  Held-session_round nothing_yet r o = Held-deadlines _ (Held-received nothing_yet r o)

  -- Whatever is received and whatever the calls return, the rounds of a session keep this: the
  -- registers of the job and of the range were written only while the miner was not at work; the
  -- flag of running is set while the miner is at work; that flag is set only in an authorized
  -- session with a job; only a subscribed session is authorized.
  pub session_loop-InOrder :
      (inputs : List Received) (r : Receiver)
      → InOrder w r.client
      → InOrder w (session_loop w inputs r).client
  unfolding session_loop
  session_loop-InOrder [] r o = o
  session_loop-InOrder (input ∷ inputs) r o =
      next_keeps (λ t. InOrder w t.client) (session_round w input r)
        (λ r'. (true, session_loop w inputs r')) (Held-session_round input r o)
        (session_loop-InOrder inputs)

  converse-InOrder :
      (inputs : List Received) (x : Bool × Client) → InOrder w x.1 → InOrder w (converse w inputs x)
  unfolding converse receiver clock emit
  converse-InOrder inputs (false, s) o = o
  converse-InOrder inputs (true, s) o = session_loop-InOrder inputs _ (same_view s _ refl o)

  -- Whatever is received in a session, and whatever the calls return: from a log in which the
  -- midstate, the target, the last words and the range have been written to the miner only while it
  -- was not at work, and in which it is not at work now, a session leads to such a log again. The
  -- miner is at work from a start on, until it is stopped or its status says that the range is
  -- done.
  pub session-disciplined :
      (settings : MinerSettings) (connected : Bool) (inputs : List Received) (s : Client)
      → disciplined w s.log ≡ true
      → armed w s.log ≡ false
      → (disciplined w (session w settings connected inputs s).log ≡ true)
        × (armed w (session w settings connected inputs s).log ≡ false)
  unfolding session
  session-disciplined settings connected inputs s tidy quiet =
      ended
        (if connected
          then converse w inputs (send_line w subscribe_text (begin_session settings s))
          else begin_session settings s)
        (by_test (InOrder w) connected _ _
          (λ _. converse-InOrder inputs (send_line w subscribe_text (begin_session settings s)) (
            same_view (begin_session settings s) _
              (view-send_line w subscribe_text (begin_session settings s))
              (fresh settings s tidy quiet)))
          (λ _. fresh settings s tidy quiet))
