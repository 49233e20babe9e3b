-- ===== src/Stratum/Replies.antt =====
-- The lines from the pool keep the control of the miner in order.
use scu35_bitcoin_lottery_mi.Base.{
  by_test, ℕ, true, false, ◌||◌, not, List, Option, none, some, ◌≡◌, refl, ap, ◌∙◌, inl, inr,
  if◌then◌else◌, ◌==◌, Option-cases, bytes_eq, codes, arith,
}
use scu35_bitcoin_lottery_mi.Json.{Search, json_string, json_u32, json_true}
use scu35_bitcoin_lottery_mi.Stratum.{Client, World, PoolJob, new_job, next, stop, send_line, emit}
use scu35_bitcoin_lottery_mi.Stratum.Work.{build_header}
use scu35_bitcoin_lottery_mi.Protocol.{MinerEvent}
use scu35_bitcoin_lottery_mi.Stratum.Messages.{
  difficulty_found, accept_job, set_difficulty, set_extranonce, notify, notification, report,
  answered, share_reply, subscribe_reply, authorize_reply, authorize_text, suggest_text, reply,
  reply_id, handle_line, announce, is_found,
}
use scu35_bitcoin_lottery_mi.Stratum.Jobs.{json_hex, nonce_size, parse_job}
use scu35_bitcoin_lottery_mi.Stratum.Control.{
  InOrder, Kept, View, next_rule, view, same_view, stop-InOrder, view-send_line,
  build_header-InOrder,
}

view-report : (w : World) (e : Option MinerEvent) (s : Client) → view w (report e s) ≡ view w s
unfolding report emit
view-report w none s = refl
view-report w (some e) s = refl

running-stop : (s : Client) → (stop s).running ≡ false
unfolding stop
running-stop s = refl

set_difficulty-InOrder :
    {w : World} (lookup : Search) (document : List ℕ) (s : Client)
    → InOrder w s
    → InOrder w (set_difficulty lookup document s).1
unfolding set_difficulty emit
set_difficulty-InOrder lookup document s o =
    elim (Option-cases (difficulty_found (lookup document (codes "params[0]")))) [
      | inl e ↦ rw (e, set_difficulty) o
      | inr (target, e) ↦ rw (e, set_difficulty) (same_view s _ refl o)
    ]

set_extranonce-InOrder :
    {w : World} (lookup : Search) (document : List ℕ) (s : Client)
    → InOrder w s
    → InOrder w (set_extranonce lookup document s).1
unfolding set_extranonce
set_extranonce-InOrder lookup document s o =
    elim (Option-cases (json_hex lookup document (codes "params[0]") 32)) [
      | inl e ↦ rw (e, set_extranonce) o
      | inr (extra1, e) ↦ elim (Option-cases (nonce_size lookup document (codes "params[1]"))) [
        | inl k ↦ rw (e, k, set_extranonce) o
        | inr (count, k) ↦
            rw (e, k, set_extranonce)
              (same_view (record (stop s) { have_job = false }) _ refl (stop-InOrder s o))
      ]
    ]

module _ (w : World) where
  accept_job-InOrder :
      (job : PoolJob) (s : Client)
      → InOrder w s
      → s.running ≡ false
      → InOrder w (accept_job w job s).1
  unfolding accept_job emit
  accept_job-InOrder job s o idle =
      let ready = record (emit (new_job job.id) s) {
        job = record job { number = w.job_number s.log job.id };
        have_job = true;
      } in
      let waiting : InOrder w ready = record {
        disciplined_writes = o.disciplined_writes;
        flag = o.flag;
        busy = rw idle;
        login = o.login;
      } in
      by_test (Kept w) s.authorized _ _ (λ e. build_header-InOrder w ready waiting idle e refl)
        (λ _. waiting)

  notify-InOrder :
      (document : List ℕ) (s : Client) → InOrder w s → InOrder w (notify w document s).1
  unfolding notify
  notify-InOrder document s o =
      let stopped = record (stop s) { have_job = false } in
      let kept = stop-InOrder s o in
      by_test (Kept w) (not s.subscribed) _ _ (λ _. o)
        (λ _. elim (Option-cases (parse_job w.lookup document stopped.pending_target)) [
          | inl e ↦ rw e kept
          | inr (job, e) ↦ rw e (accept_job-InOrder job stopped kept (running-stop s))
        ])

  subscribe_reply-InOrder :
      (document : List ℕ) (s : Client) → InOrder w s → InOrder w (subscribe_reply w document s).1
  unfolding subscribe_reply
  subscribe_reply-InOrder document s o =
      by_test (Kept w) s.subscribed _ _ (λ _. o)
        (λ _. elim (Option-cases (json_hex w.lookup document (codes "result[1]") 32)) [
          | inl k ↦ rw k o
          | inr (extra1, k) ↦
              elim (Option-cases (nonce_size w.lookup document (codes "result[2]"))) [
                | inl n ↦ rw (k, n) o
                | inr (count, n) ↦
                    rw (k, n)
                      (let joined = record s {
                        extra1 = extra1;
                        extra2_size = count;
                        subscribed = true;
                      } in
                        same_view joined _ (view-send_line w (authorize_text joined) joined)
                          record {
                            disciplined_writes = o.disciplined_writes;
                            flag = o.flag;
                            busy = o.busy;
                            login = ground arith;
                          })
              ]
        ])

  authorized-InOrder :
      (s : Client)
      → InOrder w s
      → (not s.subscribed || s.authorized) ≡ false
      → InOrder w
          (next
            (send_line w suggest_text
              (announce (codes "pool_authorized") (record s { authorized = true })))
            (λ ready. if ready.have_job then build_header w ready else (true, ready))).1
  unfolding emit
  authorized-InOrder s o fresh =
      let login = announce (codes "pool_authorized") (record s { authorized = true }) in
      let idle : s.running ≡ false = ground arith in
      let kept : InOrder w login = record {
        disciplined_writes = o.disciplined_writes;
        flag = o.flag;
        busy = rw idle;
        login = ground arith;
      } in
      next_rule (λ t. view w t ≡ view w login) (InOrder w) (send_line w suggest_text login)
        (λ ready. if ready.have_job then build_header w ready else (true, ready))
        (view-send_line w suggest_text login) (λ t e. same_view login t e kept)
        (λ t e.
          by_test (Kept w) t.have_job _ _
            (λ job.
              build_header-InOrder w t (same_view login t e kept)
                (ap (λ (v : View). v.running) e ∙ idle) (ap (λ (v : View). v.authorized) e) job)
            (λ _. same_view login t e kept))

  authorize_reply-InOrder :
      (document : List ℕ) (s : Client) → InOrder w s → InOrder w (authorize_reply w document s).1
  unfolding authorize_reply emit
  authorize_reply-InOrder document s o =
      by_test (Kept w) (not s.subscribed || s.authorized) _ _ (λ _. o)
        (λ fresh.
          by_test (Kept w) (json_true w.lookup document (codes "result")) _ _
            (λ _. authorized-InOrder s o fresh) (λ _. same_view s _ refl o))

  share_reply-InOrder :
      (id : ℕ) (document : List ℕ) (s : Client)
      → InOrder w s
      → InOrder w (share_reply w id document s).1
  unfolding share_reply
  share_reply-InOrder id document s o =
      let verdict =
        (if json_true w.lookup document (codes "result")
          then codes "solution_accepted"
          else codes "solution_rejected") in
      let result = answered id verdict s.pending in
      let after = record s { pending = result.0 } in
      same_view s (report result.1 after) (view-report w result.1 after) o

  notification-InOrder :
      (document : List ℕ) (s : Client) → InOrder w s → InOrder w (notification w document s).1
  unfolding notification
  notification-InOrder document s o =
      elim (Option-cases (json_string w.lookup document (codes "method") 64)) [
        | inl e ↦ rw (e, notification) o
        | inr (method, e) ↦
            rw (e, notification)
              (by_test (Kept w) (bytes_eq method (codes "mining.set_difficulty")) _ _
                (λ _. set_difficulty-InOrder w.lookup document s o)
                (λ _.
                  by_test (Kept w) (bytes_eq method (codes "mining.set_extranonce")) _ _
                    (λ _. set_extranonce-InOrder w.lookup document s o)
                    (λ _.
                      by_test (Kept w) (bytes_eq method (codes "mining.notify")) _ _
                        (λ _. notify-InOrder document s o) (λ _. o))))
      ]

  reply_id-InOrder :
      (id : Option ℕ) (document : List ℕ) (s : Client)
      → InOrder w s
      → InOrder w (reply_id w id document s).1
  unfolding reply_id
  reply_id-InOrder none document s o = o
  reply_id-InOrder (some id) document s o =
      by_test (Kept w) (id == 1) _ _ (λ _. subscribe_reply-InOrder document s o)
        (λ _.
          by_test (Kept w) (id == 2) _ _ (λ _. authorize_reply-InOrder document s o)
            (λ _. share_reply-InOrder id document s o))

  pub handle_line-InOrder :
      (document : List ℕ) (s : Client) → InOrder w s → InOrder w (handle_line w document s).1
  unfolding handle_line reply
  handle_line-InOrder document s o =
      by_test (Kept w) (not (w.validate document)) _ _ (λ _. o)
        (λ _.
          by_test (Kept w) (is_found (w.lookup document (codes "method"))) _ _
            (λ _. notification-InOrder document s o)
            (λ _. reply_id-InOrder (json_u32 w.lookup document (codes "id")) document s o))
