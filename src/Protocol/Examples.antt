-- ===== src/Protocol/Examples.antt =====
-- A request in the form of tb/test_miner_protocol.c, and the theorem at it.
use scu35_bitcoin_lottery_mi.Base.{
  ℕ, ◌≡◌, ◌++◌, refl, true, List, [], ◌∷◌, arith, replicate, Bytes-replicate, bytes_eq,
  if◌then◌else◌, store_at,
}
use scu35_bitcoin_lottery_mi.Bitcoin.{digit_value}
use scu35_bitcoin_lottery_mi.Json.{
  found, not_found, json_string_type, json_number_type, Search, plain, string_found, json_string,
  json_u32, number_text, number_loop,
}
use scu35_bitcoin_lottery_mi.Settings.{MinerSettings, settings_valid}
use scu35_bitcoin_lottery_mi.Settings.Record.{IsTyped}
use scu35_bitcoin_lottery_mi.Protocol.{
  mac_byte, mac_loop, parse_mac, configured, configure, command_key, mac_key, host_key, worker_key,
  port_key, set_fields, config_fields, config_password, config_checked, config_rest, config_command,
  miner_config_parse, miner_hashrate,
}
use scu35_bitcoin_lottery_mi.Protocol.Config.{miner_config_parse-configured}
use scu35_bitcoin_lottery_mi.Protocol.Rate.{miner_hashrate-exact}
use Prim.Native.Char.{code}
use Prim.Native.String.{String}

abbrev codes : String → List ℕ
codes String.[] = []
codes (String.◌∷◌ c s) = code c ∷ codes s

abbrev request : Search
request line key =
    if bytes_eq key command_key
    then found configure json_string_type
    else (if bytes_eq key mac_key
        then found (codes "02:aB:00:11:22:33") json_string_type
        else (if bytes_eq key host_key
            then found (codes "pool.io") json_string_type
            else (if bytes_eq key worker_key
                then found (codes "w") json_string_type
                else (if bytes_eq key port_key
                    then found (codes "3334") json_number_type
                    else not_found))))

abbrev current : MinerSettings
current = record {
  mac = 2 ∷ 0 ∷ 0 ∷ 0x11 ∷ 0x22 ∷ 0x33 ∷ [];
  port = 3333;
  host = replicate 96 0;
  worker = replicate 128 0;
  password = b'x' ∷ replicate 63 0;
}

current-IsTyped : IsTyped current
current-IsTyped = record {
  mac_size = refl;
  port_size = omega arith;
  host_size = refl;
  worker_size = refl;
  password_size = refl;
  mac_bytes = omega arith;
  host_bytes = Bytes-replicate 96 0 (omega arith);
  worker_bytes = Bytes-replicate 128 0 (omega arith);
  password_bytes = (omega arith, Bytes-replicate 63 0 (omega arith));
}

abbrev next : MinerSettings
next = record {
  mac = 2 ∷ 0xab ∷ 0 ∷ 0x11 ∷ 0x22 ∷ 0x33 ∷ [];
  port = 3334;
  host = codes "pool.io" ++ replicate 89 0;
  worker = b'w' ∷ replicate 127 0;
  password = b'x' ∷ replicate 63 0;
}

request_accepted : miner_config_parse (λ _. true) request [] current ≡ configured next
unfolding miner_config_parse config_command config_rest config_checked config_password config_fields
    set_fields parse_mac mac_loop mac_byte digit_value json_string string_found plain json_u32
    number_text number_loop settings_valid bytes_eq store_at
request_accepted = refl

-- The counter wraps between the two samples.
wrapped_rate : miner_hashrate 4294967290 4 1000 100 ≡ 1
unfolding miner_hashrate
wrapped_rate = refl

miner_config_parse-configured_example :
    (settings_valid next ≡ true) × IsTyped next × (next.password ≡ current.password)
unfolding bytes_eq
miner_config_parse-configured_example =
    miner_config_parse-configured (λ _. true) request [] current next current-IsTyped
      request_accepted

miner_hashrate-exact_example : miner_hashrate 4294967290 4 1000 100 ≡ 1
miner_hashrate-exact_example =
    miner_hashrate-exact 4294967290 10 1000 100 (omega arith) (omega arith) (omega arith)
      (omega arith)
