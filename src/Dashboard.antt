-- ===== src/Dashboard.antt =====
-- software/application/dashboard.c: the counters of the telemetry and the queue of its events. A
-- section between `taskENTER_CRITICAL` and `taskEXIT_CRITICAL` is one step.
pub mod Broadcast
pub mod Configure
pub mod Queue
pub mod Clients
pub mod Packets
pub mod Saves
mod Examples
use scu35_bitcoin_lottery_mi.Base.{
  ℕ, ◌+◌, Bool, true, false, ◌&&◌, List, [], ◌∷◌, ◌++◌, length, take, ltb, if◌then◌else◌, u32,
  bytes_eq, codes,
}
use scu35_bitcoin_lottery_mi.Power.{Ina700Sample}
use scu35_bitcoin_lottery_mi.Protocol.{MinerEvent, MinerStats}

-- The length of the queue that `dashboard_start` creates.
abbrev pub queue_length : ℕ
queue_length = 32

-- `created` says whether `events` is not null; `events` has the oldest first.
pub record Telemetry : Type 0 where
  pub stats : MinerStats
  pub events : List MinerEvent
  pub created : Bool

abbrev pub add_one : Bool → ℕ → ℕ
add_one test n = if test then u32 (n + 1) else n

-- The part of `telemetry_detail` on the counters.
unfoldable pub counted : List ℕ → MinerStats → MinerStats
counted name s =
    let closed = bytes_eq name (codes "pool_disconnected") in
    record s {
      submitted = add_one (bytes_eq name (codes "solution_submitted")) s.submitted;
      accepted = add_one (bytes_eq name (codes "solution_accepted")) s.accepted;
      rejected = add_one (bytes_eq name (codes "solution_rejected")) s.rejected;
      invalid = add_one (bytes_eq name (codes "hardware_solution_invalid")) s.invalid;
      connected =
          if closed
          then false
          else (if bytes_eq name (codes "pool_connected") then true else s.connected);
      authorized =
          if closed
          then false
          else (if bytes_eq name (codes "pool_authorized") then true else s.authorized);
      mining = if closed then false else s.mining;
      job_id = if closed then [] else s.job_id;
    }

-- `xQueueSend` without waiting: it fails if the queue is full.
unfoldable pub enqueue : MinerEvent → Telemetry → Telemetry
enqueue e t =
    if ltb (length t.events) queue_length
    then record t { events = t.events ++ (e ∷ []) }
    else record t { stats = record t.stats { dropped = u32 (t.stats.dropped + 1) } }

unfoldable pub rest_of : List MinerEvent → List MinerEvent
rest_of [] = []
rest_of (e ∷ es) = es

-- `xQueueReceive` without waiting: the event that it takes is the first.
unfoldable pub take_event : Telemetry → Telemetry
unfolding rest_of
take_event t = record t { events = rest_of t.events }

unfoldable pub telemetry_detail : MinerEvent → Telemetry → Telemetry
unfolding counted enqueue
telemetry_detail e t =
    let t' = record t { stats = counted e.name t.stats } in if t.created then enqueue e t' else t'

unfoldable pub telemetry_event : List ℕ → Telemetry → Telemetry
unfolding telemetry_detail
telemetry_event name t =
    telemetry_detail
      (record {
        name = take 63 name;
        job_id = t.stats.job_id;
        submission = [];
        hash = [];
        job_number = t.stats.jobs;
      })
      t

-- With the number that it returns.
unfoldable pub telemetry_job : List ℕ → Telemetry → ℕ × Telemetry
unfolding telemetry_event
telemetry_job id t =
    let number = u32 (t.stats.jobs + 1) in
    (
      number,
      telemetry_event (codes "mining_job_received")
          (record t { stats = record t.stats { jobs = number; job_id = take 127 id } }),
    )

unfoldable pub telemetry_mining : Bool → Telemetry → Telemetry
telemetry_mining active t = record t { stats = record t.stats { mining = active } }

unfoldable pub telemetry_power : Ina700Sample → Ina700Sample → Telemetry → Telemetry
telemetry_power internal_5v vccint t = record t {
  stats = record t.stats { internal_5v = internal_5v; vccint = vccint };
}

-- `dashboard_start` before it creates the tasks, with what it reads from the registers.
unfoldable pub dashboard_start : ℕ → ℕ → ℕ → Telemetry → Telemetry
dashboard_start engines hw_version bootloader_version t = record t {
  stats = record t.stats {
    engines = engines;
    hw_version = hw_version;
    bootloader_version = bootloader_version;
  };
  events = [];
  created = true;
}
