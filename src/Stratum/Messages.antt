-- ===== src/Stratum/Messages.antt =====
-- `notification`, `reply` and `handle_line` of software/application/stratum.c: what a line from the
-- pool does.
use scu35_bitcoin_lottery_mi.Base.{
  ℕ, Bool, true, false, ◌&&◌, ◌||◌, not, List, [], ◌∷◌, ◌++◌, Option, none, some, take, replicate,
  bytes_eq, leb, ◌==◌, if◌then◌else◌, codes, c_text,
}
use scu35_bitcoin_lottery_mi.Bitcoin.Target.{bitcoin_target}
use scu35_bitcoin_lottery_mi.Json.{
  Found, found, json_number_type, Search, json_string, json_u32, json_true,
}
use scu35_bitcoin_lottery_mi.Protocol.{MinerEvent}
use scu35_bitcoin_lottery_mi.Stratum.{
  Client, World, PoolJob, Share, emit, event, detail, new_job, next, stop, send_line,
}
use scu35_bitcoin_lottery_mi.Stratum.Work.{build_header}
use scu35_bitcoin_lottery_mi.Stratum.Jobs.{json_hex, nonce_size, parse_job}

abbrev pub refused : Client → Bool × Client
refused s = (false, s)

abbrev pub announce : List ℕ → Client → Client
announce name s = emit (event name) s

unfoldable pub difficulty_found : Found → Option (List ℕ)
difficulty_found (found v json_number_type) = bitcoin_target v
difficulty_found _ = none

unfoldable pub set_difficulty : Search → List ℕ → Client → Bool × Client
unfolding difficulty_found
set_difficulty lookup document s = elim (difficulty_found (lookup document (codes "params[0]"))) [
  | none ↦ (false, s)
  | some target ↦
      (true, announce (codes "difficulty_changed") (record s { pending_target = target }))
]

unfoldable pub set_extranonce : Search → List ℕ → Client → Bool × Client
unfolding nonce_size
set_extranonce lookup document s = elim (json_hex lookup document (codes "params[0]") 32) [
  | none ↦ (false, s)
  | some extra1 ↦ elim (nonce_size lookup document (codes "params[1]")) [
    | none ↦ (false, s)
    | some count ↦ (
      true,
      record (stop s) {
        have_job = false;
        extra1 = extra1;
        extra2_size = count;
        extra2 = replicate 16 0;
        extra_exhausted = false;
      },
    )
  ]
]

-- `snprintf` into 512 characters with the NUL.
unfoldable pub authorize_text : Client → List ℕ
authorize_text s = take 511 (
    codes "{\"id\":2,\"method\":\"mining.authorize\",\"params\":[\""
    ++ (c_text s.session.worker
        ++ (codes "\",\"" ++ (c_text s.session.password ++ codes "\"]}\n"))))

unfoldable pub suggest_text : List ℕ
suggest_text = codes "{\"id\":3,\"method\":\"mining.suggest_difficulty\",\"params\":[0.0001]}\n"

-- The loop over `pending`, up to the first entry with the id: the array, and its event.
unfoldable pub answered : ℕ → List ℕ → List Share → List Share × Option MinerEvent
answered id verdict [] = ([], none)
answered id verdict (share ∷ shares) =
    let rest = answered id verdict shares in
    let named = record share.event { name = verdict } in
    if leb 4 id && (share.id == id)
    then (record share { id = 0; event = named } ∷ shares, some named)
    else (share ∷ rest.0, rest.1)

unfoldable pub report : Option MinerEvent → Client → Client
report none s = s
report (some e) s = emit (detail e) s

unfoldable pub is_found : Found → Bool
is_found (found v type) = true
is_found _ = false

module _ (w : World) where
  -- The job of `mining.notify` once its fields are read.
  unfoldable pub accept_job : PoolJob → Client → Bool × Client
  accept_job job s =
      let number = w.job_number s.log job.id in
      let ready = record (emit (new_job job.id) s) {
        job = record job { number = number };
        have_job = true;
      } in
      if s.authorized then build_header w ready else (true, ready)

  unfoldable pub notify : List ℕ → Client → Bool × Client
  unfolding accept_job
  notify document s =
      if not s.subscribed
      then (false, s)
      else (let stopped = record (stop s) { have_job = false } in
          elim (parse_job w.lookup document stopped.pending_target) [
            | none ↦ (false, stopped)
            | some job ↦ accept_job job stopped
          ])

  unfoldable pub notification : List ℕ → Client → Bool × Client
  notification document s = elim (json_string w.lookup document (codes "method") 64) [
    | none ↦ (false, s)
    | some method ↦
        if bytes_eq method (codes "mining.set_difficulty")
        then set_difficulty w.lookup document s
        else (if bytes_eq method (codes "mining.set_extranonce")
            then set_extranonce w.lookup document s
            else (if bytes_eq method (codes "mining.notify") then notify document s else (true, s)))
  ]

  unfoldable pub subscribe_reply : List ℕ → Client → Bool × Client
  unfolding authorize_text
  subscribe_reply document s =
      if s.subscribed
      then (false, s)
      else elim (json_hex w.lookup document (codes "result[1]") 32) [
        | none ↦ (false, s)
        | some extra1 ↦ elim (nonce_size w.lookup document (codes "result[2]")) [
          | none ↦ (false, s)
          | some count ↦
              let ready = record s { extra1 = extra1; extra2_size = count; subscribed = true } in
              send_line w (authorize_text ready) ready
        ]
      ]

  unfoldable pub authorize_reply : List ℕ → Client → Bool × Client
  authorize_reply document s =
      if not s.subscribed || s.authorized
      then (false, s)
      else (if json_true w.lookup document (codes "result")
          then next
              (send_line w suggest_text
                (announce (codes "pool_authorized") (record s { authorized = true })))
              (λ ready. if ready.have_job then build_header w ready else (true, ready))
          else (false, announce (codes "authorization_failed") s))

  unfoldable pub share_reply : ℕ → List ℕ → Client → Bool × Client
  unfolding answered report
  share_reply id document s =
      let verdict =
        if json_true w.lookup document (codes "result")
        then codes "solution_accepted"
        else codes "solution_rejected" in
      let result = answered id verdict s.pending in
      (true, report result.1 (record s { pending = result.0 }))

  unfoldable pub reply_id : Option ℕ → List ℕ → Client → Bool × Client
  reply_id none document s = (true, s)
  reply_id (some id) document s =
      if id == 1
      then subscribe_reply document s
      else (if id == 2 then authorize_reply document s else share_reply id document s)

  unfoldable pub reply : List ℕ → Client → Bool × Client
  unfolding reply_id
  reply document s = reply_id (json_u32 w.lookup document (codes "id")) document s

  unfoldable pub handle_line : List ℕ → Client → Bool × Client
  unfolding notification is_found
  handle_line document s =
      if not (w.validate document)
      then (false, s)
      else (if is_found (w.lookup document (codes "method"))
          then notification document s
          else reply document s)
