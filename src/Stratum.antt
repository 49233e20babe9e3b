-- ===== src/Stratum.antt =====
-- software/application/stratum.c: the state of the Stratum client, and what it does to the
-- outside. Every call that leaves the file is added to a log, the newest first; what such a call
-- returns is a function of the log before it.
pub mod Work
pub mod Jobs
pub mod Messages
pub mod Shares
pub mod Session
pub mod Control
pub mod Replies
pub mod Rounds
pub mod Order
pub mod Numbers
pub mod Fresh
pub mod Built
pub mod Valid
pub mod Send
pub mod Lines
pub mod Waiting
pub mod Places
pub mod Deadlines
mod Examples
use scu35_bitcoin_lottery_mi.Base.{
  ℕ, zero, suc, ◌+◌, ◌*◌, ◌/◌, ◌^◌, Bool, true, false, List, [], ◌∷◌, length, drop, take, ◌==◌,
  if◌then◌else◌,
}
use scu35_bitcoin_lottery_mi.Json.{Search}
use scu35_bitcoin_lottery_mi.Protocol.{MinerEvent}
use scu35_bitcoin_lottery_mi.Settings.{MinerSettings}
use scu35_bitcoin_lottery_mi.Sha256.{Sha256Ctx}

-- `wrote` and `read_at` are accesses to the registers of the miner, `sent` is a call of
-- `FreeRTOS_send` with the characters that it took, and the last four are the calls of `telemetry_`.
pub data Effect : Type 0 where
  wrote : ℕ → ℕ → Effect
  read_at : ℕ → Effect
  delayed : ℕ → Effect
  sent : List ℕ → Effect
  looked_at_clock : Effect
  event : List ℕ → Effect
  detail : MinerEvent → Effect
  new_job : List ℕ → Effect
  mining : Bool → Effect

-- What the calls return. `accepted` is the number of characters that a send takes of a text, and 0
-- for a failure; `unset` is a hash context that C declares without a value.
pub record World : Type 0 where
  pub register_value : List Effect → ℕ → ℕ
  pub accepted : List Effect → List ℕ → ℕ
  pub ticks : List Effect → ℕ
  pub job_number : List Effect → List ℕ → ℕ
  pub validate : List ℕ → Bool
  pub lookup : Search
  pub unset : Sha256Ctx

-- The arrays of a job end behind the bytes in use, so `n1`, `n2` and `nb` are lengths.
pub record PoolJob : Type 0 where
  pub id : List ℕ
  pub time : List ℕ
  pub number : ℕ
  pub prev : List ℕ
  pub version : List ℕ
  pub bits : List ℕ
  pub coin1 : List ℕ
  pub coin2 : List ℕ
  pub branches : List (List ℕ)
  pub target : List ℕ

-- An element of `pending`; an id of 0 says that it is free.
pub record Share : Type 0 where
  pub id : ℕ
  pub submitted : ℕ
  pub event : MinerEvent

-- The variables of the file, but the line that is received, and the log.
pub record Client : Type 0 where
  pub job : PoolJob
  pub extra1 : List ℕ
  pub extra2 : List ℕ
  pub extra2_size : ℕ
  pub header : List ℕ
  pub pending_target : List ℕ
  pub range_start : ℕ
  pub next_id : ℕ
  pub pending : List Share
  pub extra2_hex : List ℕ
  pub subscribed : Bool
  pub authorized : Bool
  pub have_job : Bool
  pub running : Bool
  pub extra_exhausted : Bool
  pub session : MinerSettings
  pub log : List Effect

abbrev pub line_max : ℕ
line_max = 24000

abbrev pub range : ℕ
range = 0x01000000

-- `pdMS_TO_TICKS` with the tick rate of FreeRTOSConfig.h.
abbrev pub ms_to_ticks : ℕ → ℕ
ms_to_ticks ms = ms * 100 / 1000

-- What a C function that returns 0 (true) or -1 does, and the next one if it returned 0.
unfoldable pub next {ℓ} : {S : Type ℓ} → Bool × S → (S → Bool × S) → Bool × S
next (true, s) f = f s
next (false, s) f = (false, s)

unfoldable pub emit : Effect → Client → Client
emit e s = record s { log = e ∷ s.log }

unfoldable pub reg_write : ℕ → ℕ → Client → Client
unfolding emit
reg_write a v s = emit (wrote a v) s

unfoldable pub write_all : List (ℕ × ℕ) → Client → Client
write_all [] s = s
write_all ((a, v) ∷ rest) s = write_all rest (reg_write a v s)

unfoldable pub set_mining : Bool → Client → Client
unfolding emit
set_mining flag s = record (emit (mining flag) s) { running = flag }

unfoldable pub stop : Client → Client
unfolding emit reg_write set_mining
stop s =
    let halted = emit (delayed 1) (reg_write 0 2 (reg_write 0xa0 1 s)) in
    set_mining false (reg_write 0x98 3 (reg_write 0 4 halted))

unfoldable pub start_range : Client → Client
unfolding reg_write set_mining
start_range s =
    set_mining true
      (reg_write 0 1 (reg_write 0x84 range (reg_write 0x80 s.range_start (reg_write 0 4 s))))

module _ (w : World) where
  -- `reg_read`, with the value.
  unfoldable pub reg_read : ℕ → Client → ℕ × Client
  unfolding emit
  reg_read a s = (w.register_value s.log a, emit (read_at a) s)

  -- `xTaskGetTickCount`.
  unfoldable pub clock : Client → ℕ × Client
  unfolding emit
  clock s = (w.ticks s.log, emit looked_at_clock s)

  -- The loop of `send_line` on the text that is left. Each round but a failure takes a character.
  unfoldable pub send_loop : ℕ → List ℕ → Client → Bool × Client
  unfolding emit
  send_loop fuel [] s = (true, s)
  send_loop zero (c ∷ cs) s = (false, s)
  send_loop (suc fuel) (c ∷ cs) s =
      let taken = w.accepted s.log (c ∷ cs) in
      let rest = send_loop fuel (drop taken (c ∷ cs)) (emit (sent (take taken (c ∷ cs))) s) in
      if taken == 0 then (false, emit (sent []) s) else rest

  unfoldable pub send_line : List ℕ → Client → Bool × Client
  unfolding send_loop
  send_line text s = send_loop (length text) text s
