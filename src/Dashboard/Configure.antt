-- ===== src/Dashboard/Configure.antt =====
-- `configure` and `config_reply` of software/application/dashboard.c, and the loop of `config_task`
-- that reads a request. What is done under `settings_lock` is one step.
use scu35_bitcoin_lottery_mi.Base.{
  ℕ, ◌+◌, Bool, true, false, ◌&&◌, List, [], ◌∷◌, ◌++◌, Option, none, some, length, ltb, ◌==◌,
  if◌then◌else◌, u32, bytes_eq, codes,
}
use scu35_bitcoin_lottery_mi.Dashboard.{Telemetry, telemetry_event}
use scu35_bitcoin_lottery_mi.Dashboard.Broadcast.{since}
use scu35_bitcoin_lottery_mi.Json.{Search, json_string}
use scu35_bitcoin_lottery_mi.Protocol.{
  ConfigResult, configured, invalid_request, unsupported_command, invalid_fields, invalid_password,
  invalid_settings, miner_config_parse, command_key,
}
use scu35_bitcoin_lottery_mi.Protocol.Print.{miner_config_json}
use scu35_bitcoin_lottery_mi.Settings.{MinerSettings}
use scu35_bitcoin_lottery_mi.Settings.Eeprom.{Run, done, off, Eeprom}
use scu35_bitcoin_lottery_mi.Settings.Slots.{
  settings_load, settings_save, LoadCode, io_failure, stored,
}

-- `settings`, `settings_generation` and the telemetry.
pub record Shared : Type 0 where
  pub settings : MinerSettings
  pub generation : ℕ
  pub telemetry : Telemetry

-- What a receive of one character in `config_task` gives.
pub data Arrival : Type 0 where
  character : ℕ → Arrival
  nothing_yet broken : Arrival

-- The loop over what arrives, with the time of each look at the clock, and the line so far: whether
-- it is complete, and the line. 3000 ms are 300 ticks.
unfoldable pub read_line : ℕ → List (ℕ × Arrival) → List ℕ → Bool × List ℕ
read_line start [] line = (false, line)
read_line start ((now, arrival) ∷ rest) line =
    let goes_on = λ (line' : List ℕ). read_line start rest line' in
    if ltb (length line) 1024 && ltb (since now start) 300
    then elim arrival [
      | character c ↦ if c == b'\n' then (true, line) else goes_on (line ++ (c ∷ []))
      | nothing_yet ↦ goes_on line
      | broken ↦ (false, line)
    ]
    else (false, line)

-- The reply to an error, and to a save.
unfoldable pub reply_text : Option (List ℕ) → List ℕ
reply_text (some error) = codes "{\"ok\":false,\"error\":\"" ++ (error ++ codes "\"}\n")
reply_text none =
    codes "{\"ok\":true,\"message\":\"Saved; pool reconnects, MAC applies after reboot\"}\n"

unfoldable pub is_stored : LoadCode → Bool
is_stored stored = true
is_stored _ = false

-- The settings that were loaded; `none` is a return that is not positive.
unfoldable pub loaded_reply : List ℕ → LoadCode × MinerSettings → Option (List ℕ)
loaded_reply active_mac (io_failure, saved) = some (reply_text (some (codes "EEPROM read failed")))
loaded_reply active_mac (code, saved) = miner_config_json saved (is_stored code) active_mac

module _ (e : Eeprom) where
  open e use {State}

  -- Behind a save: `none` is a return of 0.
  unfoldable pub after_save :
      MinerSettings → Shared → Run State Bool → Run State (Option (List ℕ) × Shared)
  after_save new s (done true st) =
      done
        (
          none,
          record s {
            settings = new;
            generation = u32 (s.generation + 1);
            telemetry = telemetry_event (codes "settings_saved") s.telemetry;
          },
        )
        st
  after_save new s (done false st) = done (some (codes "EEPROM write or verification failed"), s) st
  after_save new s (off st) = off st

  unfoldable pub configure_parsed :
      ConfigResult → Shared → State → Run State (Option (List ℕ) × Shared)
  configure_parsed (configured new) s st = after_save new s (settings_save e new st)
  configure_parsed invalid_request s st = done (some (codes "invalid JSON request"), s) st
  configure_parsed unsupported_command s st = done (some (codes "unsupported command"), s) st
  configure_parsed invalid_fields s st = done (some (codes "invalid fields"), s) st
  configure_parsed invalid_password s st = done (some (codes "invalid password"), s) st
  configure_parsed invalid_settings s st = done (some (codes "invalid settings"), s) st

  unfoldable pub after_load :
      List ℕ → Shared → Run State (LoadCode × MinerSettings) → Run State (Option (List ℕ) × Shared)
  after_load active_mac s (done loaded st) = done (loaded_reply active_mac loaded, s) st
  after_load active_mac s (off st) = off st

  unfoldable pub replied :
      Run State (Option (List ℕ) × Shared) → Run State (Option (List ℕ) × Shared)
  replied (done (error, s) st) = done (some (reply_text error), s) st
  replied (off st) = off st

  module _ (validate : List ℕ → Bool) (lookup : Search) where
    unfoldable pub configure : List ℕ → Shared → State → Run State (Option (List ℕ) × Shared)
    unfolding configure_parsed
    configure line s st = configure_parsed (miner_config_parse validate lookup line s.settings) s st

    unfoldable pub command_reply :
        List ℕ → List ℕ → Option (List ℕ) → Shared → State → Run State (Option (List ℕ) × Shared)
    command_reply active_mac line none s st =
        done (some (reply_text (some (codes "invalid JSON request"))), s) st
    command_reply active_mac line (some command) s st =
        if bytes_eq command (codes "get_settings")
        then after_load active_mac s (settings_load e st)
        else replied (configure line s st)

    -- The reply to a request, which is complete or not.
    unfoldable pub config_reply :
        List ℕ → Bool × List ℕ → Shared → State → Run State (Option (List ℕ) × Shared)
    config_reply active_mac (false, line) s st =
        done (some (reply_text (some (codes "incomplete or oversized request"))), s) st
    config_reply active_mac (true, line) s st =
        if validate line
        then command_reply active_mac line (json_string lookup line command_key 24) s st
        else done (some (reply_text (some (codes "invalid JSON request"))), s) st
