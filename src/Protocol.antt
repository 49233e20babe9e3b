-- ===== src/Protocol.antt =====
-- software/common/miner_protocol.c and miner_protocol.h: configuration requests and the hash rate.
pub mod Fields
pub mod Config
pub mod Rate
pub mod Print
mod Examples
use scu35_bitcoin_lottery_mi.Base.{
  ℕ, zero, suc, ◌+◌, ◌-◌, ◌*◌, ◌/◌, ◌%◌, ◌^◌, Bool, true, false, ◌&&◌, ◌||◌, not, Option, none,
  some, List, [], ◌∷◌, ◌++◌, length, at, store_at, bytes_eq, ltb, leb, ◌==◌, if◌then◌else◌, u8, u16,
  u32, u64, ◌>>=◌,
}
use scu35_bitcoin_lottery_mi.Bitcoin.{digit_value}
use scu35_bitcoin_lottery_mi.Json.{
  Found, found, not_found, search_failed, Search, json_string, json_u32,
}
use scu35_bitcoin_lottery_mi.Power.{Ina700Sample}
use scu35_bitcoin_lottery_mi.Settings.{MinerSettings, settings_valid}

-- `miner_event`; a text is the list of its characters.
pub record MinerEvent : Type 0 where
  pub name : List ℕ
  pub job_id : List ℕ
  pub submission : List ℕ
  pub hash : List ℕ
  pub job_number : ℕ

-- `miner_stats`, with the samples of the two monitors.
pub record MinerStats : Type 0 where
  pub job_id : List ℕ
  pub jobs : ℕ
  pub submitted : ℕ
  pub accepted : ℕ
  pub rejected : ℕ
  pub invalid : ℕ
  pub dropped : ℕ
  pub hashrate_hps : ℕ
  pub sample_ms : ℕ
  pub engines : ℕ
  pub hw_version : ℕ
  pub bootloader_version : ℕ
  pub hashes_total : ℕ
  pub connected : Bool
  pub authorized : Bool
  pub mining : Bool
  pub hashrate_valid : Bool
  pub internal_5v : Ina700Sample
  pub vccint : Ina700Sample

-- One byte of the address, and the colon behind it for the first five.
unfoldable pub mac_byte : List ℕ → ℕ → Option ℕ
mac_byte s i = do
  high ← digit_value (at s (3 * i))
  low ← digit_value (at s (3 * i + 1))
  if ltb i 5 && not (at s (3 * i + 2) == b':') then none else some (u8 (high * 16 + low))

unfoldable pub mac_loop : ℕ → ℕ → List ℕ → Option (List ℕ)
mac_loop zero i s = some []
mac_loop (suc left) i s = do
  value ← mac_byte s i
  rest ← mac_loop left (i + 1) s
  some (value ∷ rest)

-- `none` is -1, behind which the caller does not use the bytes that were written.
unfoldable pub parse_mac : List ℕ → Option (List ℕ)
parse_mac s = if not (length s == 17) then none else mac_loop 6 0 s

pub data ConfigResult : Type 0 where
  configured : MinerSettings → ConfigResult
  invalid_request unsupported_command invalid_fields invalid_password invalid_settings :
      ConfigResult

abbrev pub command_key : List ℕ
command_key = b'c' ∷ b'o' ∷ b'm' ∷ b'm' ∷ b'a' ∷ b'n' ∷ b'd' ∷ []

abbrev pub configure : List ℕ
configure = b'c' ∷ b'o' ∷ b'n' ∷ b'f' ∷ b'i' ∷ b'g' ∷ b'u' ∷ b'r' ∷ b'e' ∷ []

abbrev pub mac_key : List ℕ
mac_key = b'm' ∷ b'a' ∷ b'c' ∷ []

abbrev pub host_key : List ℕ
host_key = b'h' ∷ b'o' ∷ b's' ∷ b't' ∷ []

abbrev pub worker_key : List ℕ
worker_key = b'w' ∷ b'o' ∷ b'r' ∷ b'k' ∷ b'e' ∷ b'r' ∷ []

abbrev pub port_key : List ℕ
port_key = b'p' ∷ b'o' ∷ b'r' ∷ b't' ∷ []

abbrev pub password_key : List ℕ
password_key = b'p' ∷ b'a' ∷ b's' ∷ b's' ∷ b'w' ∷ b'o' ∷ b'r' ∷ b'd' ∷ []

-- A text in a `char` array: its bytes and a NUL, over what the array held.
abbrev pub text_in : List ℕ → List ℕ → List ℕ
text_in array text = store_at array 0 (text ++ (0 ∷ []))

unfoldable pub set_fields : ℕ → List ℕ → List ℕ → List ℕ → MinerSettings → Option MinerSettings
set_fields port mac host worker current =
    if ltb 65535 port
    then none
    else some (record current {
      mac = mac;
      port = u16 port;
      host = text_in current.host host;
      worker = text_in current.worker worker;
    })

-- The fields of a request but the password; `none` is "invalid fields".
unfoldable pub config_fields : Search → List ℕ → MinerSettings → Option MinerSettings
config_fields lookup line current = do
  mac_text ← json_string lookup line mac_key 18
  mac ← parse_mac mac_text
  host ← json_string lookup line host_key 96
  worker ← json_string lookup line worker_key 128
  port ← json_u32 lookup line port_key
  set_fields port mac host worker current

-- The password: kept where it is not in the request; `none` is "invalid password".
unfoldable pub config_password : Search → List ℕ → Found → MinerSettings → Option MinerSettings
config_password lookup line not_found next = some next
config_password lookup line search_failed next = none
config_password lookup line (found v type) next = do
  password ← json_string lookup line password_key 64
  some (record next { password = text_in next.password password })

unfoldable pub config_checked : Option MinerSettings → ConfigResult
config_checked none = invalid_password
config_checked (some next) = if settings_valid next then configured next else invalid_settings

unfoldable pub config_rest : Search → List ℕ → Option MinerSettings → ConfigResult
config_rest lookup line none = invalid_fields
config_rest lookup line (some next) =
    config_checked (config_password lookup line (lookup line password_key) next)

unfoldable pub config_command : Search → List ℕ → MinerSettings → Option (List ℕ) → ConfigResult
config_command lookup line current none = invalid_request
config_command lookup line current (some command) =
    if bytes_eq command configure
    then config_rest lookup line (config_fields lookup line current)
    else unsupported_command

-- `validate` is whether `JSON_Validate` returns success.
unfoldable pub miner_config_parse : (List ℕ → Bool) → Search → List ℕ → MinerSettings → ConfigResult
miner_config_parse validate lookup line current =
    if validate line
    then config_command lookup line current (json_string lookup line command_key 24)
    else invalid_request

-- The product of two 32-bit numbers fits 64 bits.
unfoldable pub miner_hashrate : ℕ → ℕ → ℕ → ℕ → ℕ
miner_hashrate previous current ticks tick_hz =
    if ticks == 0 then 0 else u32 (u64 (u32 (current + 2 ^ 32 - previous) * tick_hz) / ticks)
