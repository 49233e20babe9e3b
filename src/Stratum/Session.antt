-- ===== src/Stratum/Session.antt =====
-- The body of `stratum_task` of software/application/stratum.c from the connection on: lines are
-- cut out of what is received, the deadlines are checked, and the session is ended. The settings,
-- the address and the socket before it are left out.
use scu35_bitcoin_lottery_mi.Base.{
  ℕ, ◌+◌, ◌-◌, ◌^◌, Bool, true, false, ◌&&◌, ◌||◌, not, List, [], ◌∷◌, ◌++◌, none, some, length,
  replicate, ltb, ◌==◌, if◌then◌else◌, u32, codes,
}
use scu35_bitcoin_lottery_mi.Bitcoin.Target.{bitcoin_target}
use scu35_bitcoin_lottery_mi.Protocol.{MinerEvent}
use scu35_bitcoin_lottery_mi.Settings.{MinerSettings}
use scu35_bitcoin_lottery_mi.Stratum.{
  Client, World, Share, emit, detail, delayed, next, stop, send_line, clock, line_max, ms_to_ticks,
}
use scu35_bitcoin_lottery_mi.Stratum.Messages.{announce, handle_line}
use scu35_bitcoin_lottery_mi.Stratum.Shares.{service_results}

-- The locals of the loop over what is received: the first `used` characters of `line`.
pub record Receiver : Type 0 where
  pub client : Client
  pub line : List ℕ
  pub started : ℕ
  pub last : ℕ

-- A difference of two times, which wrap.
abbrev pub elapsed : ℕ → ℕ → ℕ
elapsed now since = u32 (now + (2 ^ 32 - since))

-- What `FreeRTOS_recv` returns: characters, none so far, or an error.
pub data Received : Type 0 where
  characters : List ℕ → Received
  nothing_yet broken : Received

-- A share whose answer is late.
unfoldable pub late : ℕ → Share → Bool
late now share = not (share.id == 0) && ltb (ms_to_ticks 30000) (elapsed now share.submitted)

unfoldable pub timed_out : Share → Share
timed_out share = record share { event = record share.event { name = codes "share_reply_timeout" } }

-- The loop over `pending`: whether none is late, the array, and the events in their order.
unfoldable pub overdue : ℕ → List Share → Bool × List Share × List MinerEvent
overdue now [] = (true, [], [])
overdue now (share ∷ shares) =
    let rest = overdue now shares in
    if late now share
    then (false, timed_out share ∷ rest.1, (timed_out share).event ∷ rest.2)
    else (rest.0, share ∷ rest.1, rest.2)

unfoldable pub report_all : List MinerEvent → Client → Client
report_all [] s = s
report_all (e ∷ es) s = report_all es (emit (detail e) s)

unfoldable pub check_shares : ℕ → Client → Bool × Client
unfolding overdue report_all
check_shares now s =
    let result = overdue now s.pending in
    (result.0, report_all result.2 (record s { pending = result.1 }))

-- A step on the client inside the receiver.
unfoldable pub inside : Receiver → Bool × Client → Bool × Receiver
inside r (ok, s) = (ok, record r { client = s })

-- The deadlines of the session: authorized in 15 seconds, and a line every 120 seconds.
unfoldable pub expired : ℕ → Receiver → Bool
expired now r =
    (not r.client.authorized && ltb (ms_to_ticks 15000) (elapsed now r.started))
    || ltb (ms_to_ticks 120000) (elapsed now r.last)

unfoldable pub stamp : ℕ × Client → Receiver → Receiver
stamp (now, s) r = record r { client = s; line = []; last = now }

unfoldable pub begin_session : MinerSettings → Client → Client
begin_session settings s = record s {
  session = settings;
  subscribed = false;
  authorized = false;
  have_job = false;
  running = false;
  extra_exhausted = false;
  extra2 = replicate 16 0;
  pending = replicate 8 (record {
    id = 0;
    submitted = 0;
    event = record { name = []; job_id = []; submission = []; hash = []; job_number = 0 };
  });
  next_id = 4;
  pending_target = elim (bitcoin_target (codes "1")) [ none ↦ s.pending_target | some t ↦ t ];
}

unfoldable pub end_session : Client → Client
end_session s =
    emit (delayed (ms_to_ticks 3000))
      (announce (codes "pool_disconnected") (record (stop s) { have_job = false }))

unfoldable pub subscribe_text : List ℕ
subscribe_text = codes "{\"id\":1,\"method\":\"mining.subscribe\",\"params\":[\"SCU35/1\"]}\n"

unfoldable pub receiver : ℕ × Client → Receiver
receiver (now, s) = record { client = s; line = []; started = now; last = now }

module _ (w : World) where
  unfoldable pub empty_line : Receiver → Bool × Receiver
  unfolding stamp
  empty_line r = (true, stamp (clock w r.client) r)

  -- The end of a line.
  unfoldable pub end_line : Receiver → Bool × Receiver
  unfolding empty_line
  end_line r =
      if length r.line == 0
      then empty_line r
      else next (inside r (handle_line w r.line r.client)) empty_line

  unfoldable pub receive : ℕ → Receiver → Bool × Receiver
  receive c r =
      if c == b'\n'
      then end_line r
      else (if ltb (length r.line) line_max
          then (true, record r { line = r.line ++ (c ∷ []) })
          else (false, r))

  unfoldable pub receive_all : List ℕ → Receiver → Bool × Receiver
  receive_all [] r = (true, r)
  receive_all (c ∷ cs) r = next (receive c r) (receive_all cs)

  unfoldable pub received : Received → Receiver → Bool × Receiver
  received (characters cs) r = receive_all cs r
  received nothing_yet r = (true, r)
  received broken r = (false, r)

  unfoldable pub check_deadlines : ℕ × Client → Receiver → Bool × Receiver
  check_deadlines (now, s) r =
      if expired now (record r { client = s })
      then (false, record r { client = s })
      else inside r (next (service_results w s) (check_shares now))

  -- Behind the characters the clock is read, whether a line was bad or not.
  unfoldable pub deadlines : Bool × Receiver → Bool × Receiver
  deadlines (true, r) = check_deadlines (clock w r.client) r
  deadlines (false, r) = (false, record r { client = (clock w r.client).1 })

  -- A round of the loop: `false` ends the session.
  unfoldable pub session_round : Received → Receiver → Bool × Receiver
  session_round broken r = (false, r)
  session_round input r = deadlines (received input r)

  -- The loop, over what it receives while the network is up and the settings are the same.
  unfoldable pub session_loop : List Received → Receiver → Receiver
  session_loop [] r = r
  session_loop (input ∷ inputs) r =
      (next (session_round input r) (λ r'. (true, session_loop inputs r'))).1

  -- What follows the request of a subscription.
  unfoldable pub converse : List Received → Bool × Client → Client
  converse inputs (false, s) = s
  converse inputs (true, s) =
      (session_loop inputs (receiver (clock w (announce (codes "pool_connected") s)))).client

  -- A session, with whether `FreeRTOS_connect` has returned 0, and what is received in it.
  unfoldable pub session : MinerSettings → Bool → List Received → Client → Client
  session settings connected inputs s =
      let fresh = begin_session settings s in
      end_session (if connected then converse inputs (send_line w subscribe_text fresh) else fresh)
