-- ===== src/Protocol/Print.antt =====
-- software/common/miner_protocol.c: the texts of the telemetry and of the configuration. A text is
-- what `snprintf` would print into an array that is large enough; the caller compares its length
-- with that of the array, as with the value that `snprintf` returns.
use scu35_bitcoin_lottery_mi.Base.{
  ℕ, ◌+◌, ◌-◌, ◌^◌, Bool, true, false, not, ◌||◌, List, [], ◌∷◌, ◌++◌, Option, none, some, length,
  take, at, ltb, ◌==◌, if◌then◌else◌, u32, bit_and, ◌>>>◌, codes, c_text, decimal_text,
  decimal_digits, hex_digits_of, printed,
}
use scu35_bitcoin_lottery_mi.Power.{Ina700Sample, ℤ, pos, negsuc}
use scu35_bitcoin_lottery_mi.Protocol.{MinerEvent, MinerStats}
use scu35_bitcoin_lottery_mi.Settings.{MinerSettings, settings_valid}

-- What an array of `size` characters holds of a text.
abbrev pub in_array : ℕ → List ℕ → List ℕ
in_array size text = take (size - 1) text

-- APPLICATION_VERSION of software/common/versions.h.
abbrev pub application_version : List ℕ
application_version = codes "1.1.0"

unfoldable pub signed_text : ℤ → List ℕ
signed_text (pos n) = decimal_text n
signed_text (negsuc n) = codes "-" ++ decimal_text (n + 1)

unfoldable pub bool_text : Bool → List ℕ
bool_text true = codes "true"
bool_text false = codes "false"

-- `%02x:%02x:%02x:%02x:%02x:%02x`.
unfoldable pub mac_text : List ℕ → List ℕ
mac_text mac = printed (
    hex_digits_of 2 (at mac 0)
    ∷ codes ":"
    ∷ hex_digits_of 2 (at mac 1)
    ∷ codes ":"
    ∷ hex_digits_of 2 (at mac 2)
    ∷ codes ":"
    ∷ hex_digits_of 2 (at mac 3)
    ∷ codes ":"
    ∷ hex_digits_of 2 (at mac 4)
    ∷ codes ":"
    ∷ hex_digits_of 2 (at mac 5)
    ∷ [])

-- `none` is a return of -1.
unfoldable pub miner_config_json : MinerSettings → Bool → List ℕ → Option (List ℕ)
miner_config_json s stored active =
    if not (settings_valid s)
    then none
    else some (
        printed (
          codes "{\"ok\":true,\"stored\":"
          ∷ bool_text stored
          ∷ codes ",\"mac\":\""
          ∷ mac_text s.mac
          ∷ codes "\",\"active_mac\":\""
          ∷ mac_text active
          ∷ codes "\",\"host\":\""
          ∷ c_text s.host
          ∷ codes "\",\"port\":"
          ∷ decimal_text s.port
          ∷ codes ",\"worker\":\""
          ∷ c_text s.worker
          ∷ codes "\",\"password_set\":"
          ∷ bool_text (not (at s.password 0 == 0))
          ∷ codes "}\n"
          ∷ []))

unfoldable pub version_json : ℕ → List ℕ
version_json version = in_array 24 (
    if version == 0
    then codes "null"
    else printed (
        codes "\""
        ∷ decimal_text (version >>> 24)
        ∷ codes "."
        ∷ decimal_text (bit_and (version >>> 16) 255)
        ∷ codes "."
        ∷ decimal_text (bit_and version 65535)
        ∷ codes "\""
        ∷ []))

-- `details` of both texts with an event.
unfoldable pub details_json : MinerEvent → List ℕ
details_json e = printed (
    codes ",\"details\":{\"job_number\":"
    ∷ decimal_text e.job_number
    ∷ codes ",\"job_id\":\""
    ∷ e.job_id
    ∷ codes "\",\"submission\":"
    ∷ (if length e.submission == 0 then codes "null" else e.submission)
    ∷ codes ",\"hash\":\""
    ∷ e.hash
    ∷ codes "\"}}"
    ∷ [])

unfoldable pub miner_event_json : MinerEvent → ℕ → ℕ → ℕ → ℤ → List ℕ → List ℕ
unfolding details_json
miner_event_json e seq event_seq uptime centi mac = printed (
    codes "{\"protocol\":\"SCU35/1\",\"partial\":true,\"seq\":"
    ∷ decimal_text seq
    ∷ codes ",\"event_seq\":"
    ∷ decimal_text event_seq
    ∷ codes ",\"event\":\""
    ∷ e.name
    ∷ codes "\",\"mac\":\""
    ∷ mac_text mac
    ∷ codes "\",\"uptime_ms\":"
    ∷ decimal_text uptime
    ∷ codes ",\"temp_centi\":"
    ∷ signed_text centi
    ∷ details_json e
    ∷ [])

-- A sample counts as long as it is at most three seconds old.
unfoldable pub fresh_sample : Ina700Sample → ℕ → Bool
fresh_sample s now = not (not s.valid || ltb 3000 (u32 (now + (2 ^ 32 - s.sampled_ms))))

unfoldable pub power_json : Ina700Sample → ℕ → List ℕ
unfolding fresh_sample
power_json s now = in_array 256 (
    if fresh_sample s now
    then printed (
        codes "{\"valid\":true,\"voltage_uv\":"
        ∷ decimal_text s.voltage_uv
        ∷ codes ",\"current_ua\":"
        ∷ signed_text s.current_ua
        ∷ codes ",\"power_uw\":"
        ∷ decimal_text s.power_uw
        ∷ codes ",\"temp_milli_c\":"
        ∷ signed_text s.temp_milli_c
        ∷ codes ",\"age_ms\":"
        ∷ decimal_text (u32 (now + (2 ^ 32 - s.sampled_ms)))
        ∷ codes ",\"errors\":"
        ∷ decimal_text s.errors
        ∷ codes "}"
        ∷ [])
    else printed (
        codes
          "{\"valid\":false,\"voltage_uv\":null,\"current_ua\":null,\"power_uw\":null,\"temp_milli_c\":null,\"age_ms\":null,\"errors\":"
        ∷ decimal_text s.errors
        ∷ codes "}"
        ∷ []))

unfoldable pub rate_json : MinerStats → List ℕ
rate_json s = if s.hashrate_valid then decimal_text s.hashrate_hps else codes "null"

-- The fields of the statistics.
unfoldable pub counts_json : MinerStats → List ℕ
unfolding rate_json
counts_json s = printed (
    codes ",\"pool_connected\":"
    ∷ bool_text s.connected
    ∷ codes ",\"pool_authorized\":"
    ∷ bool_text s.authorized
    ∷ codes ",\"mining\":"
    ∷ bool_text s.mining
    ∷ codes ",\"job_number\":"
    ∷ decimal_text s.jobs
    ∷ codes ",\"job_id\":\""
    ∷ s.job_id
    ∷ codes "\",\"shares_submitted\":"
    ∷ decimal_text s.submitted
    ∷ codes ",\"shares_accepted\":"
    ∷ decimal_text s.accepted
    ∷ codes ",\"shares_rejected\":"
    ∷ decimal_text s.rejected
    ∷ codes ",\"hardware_errors\":"
    ∷ decimal_text s.invalid
    ∷ codes ",\"events_dropped\":"
    ∷ decimal_text s.dropped
    ∷ codes ",\"hashrate_hps\":"
    ∷ rate_json s
    ∷ codes ",\"hashrate_source\":\"hardware_counter\",\"hashrate_sample_ms\":"
    ∷ decimal_text s.sample_ms
    ∷ codes ",\"hashes_total\":"
    ∷ decimal_digits 20 s.hashes_total
    ∷ [])

unfoldable pub miner_telemetry_json :
    MinerStats → MinerEvent → ℕ → ℕ → ℕ → ℤ → List ℕ → Bool → Bool → List ℕ
unfolding version_json power_json counts_json details_json
miner_telemetry_json s e seq event_seq uptime centi mac network phy = printed (
    codes "{\"protocol\":\"SCU35/1\",\"seq\":"
    ∷ decimal_text seq
    ∷ codes ",\"event_seq\":"
    ∷ decimal_text event_seq
    ∷ codes ",\"event\":\""
    ∷ e.name
    ∷ codes "\",\"mac\":\""
    ∷ mac_text mac
    ∷ codes "\",\"uptime_ms\":"
    ∷ decimal_text uptime
    ∷ codes ",\"temp_centi\":"
    ∷ signed_text centi
    ∷ codes ",\"cpu_mhz\":50,\"engines\":"
    ∷ decimal_text s.engines
    ∷ codes ",\"hw_version\":"
    ∷ version_json s.hw_version
    ∷ codes ",\"bootloader_version\":"
    ∷ version_json s.bootloader_version
    ∷ codes ",\"application_version\":\""
    ∷ application_version
    ∷ codes "\",\"network_up\":"
    ∷ bool_text network
    ∷ codes ",\"phy_known\":"
    ∷ bool_text phy
    ∷ codes ",\"reboot_supported\":false,\"config_port\":4029"
    ∷ counts_json s
    ∷ codes ",\"power\":{\"source\":\"INA700\",\"internal_5v\":"
    ∷ power_json s.internal_5v uptime
    ∷ codes ",\"vccint\":"
    ∷ power_json s.vccint uptime
    ∷ codes "}"
    ∷ details_json e
    ∷ [])
