-- ===== src/Dashboard/Examples.antt =====
-- The telemetry and the configuration at concrete inputs.
use scu35_bitcoin_lottery_mi.Base.{
  ℕ, ◌≡◌, refl, true, false, List, [], ◌∷◌, some, get_elem?, replicate, codes, arith, printed,
  decimal_text, decimal_digits,
}
use scu35_bitcoin_lottery_mi.Dashboard.{Telemetry}
use scu35_bitcoin_lottery_mi.Dashboard.Broadcast.{
  Peer, Subscriber, Broadcaster, Outside, subscribe, same_peer, lapsed, broadcast_round, centi_of,
}
use scu35_bitcoin_lottery_mi.Dashboard.Clients.{get_elem?-subscribe}
use scu35_bitcoin_lottery_mi.Dashboard.Configure.{
  Shared, configure, read_line, character, nothing_yet,
}
use scu35_bitcoin_lottery_mi.Dashboard.Packets.{Fits, broadcast_round-Fits}
use scu35_bitcoin_lottery_mi.Dashboard.Queue.{Call, reported, taken, Delivered, run-Delivered}
use scu35_bitcoin_lottery_mi.Dashboard.Saves.{Configured, configure-Configured}
use scu35_bitcoin_lottery_mi.Json.{Found, not_found}
use scu35_bitcoin_lottery_mi.Power.{Ina700Sample, pos, negsuc}
use scu35_bitcoin_lottery_mi.Protocol.{MinerEvent, MinerStats, miner_config_parse}
use scu35_bitcoin_lottery_mi.Protocol.Print.{version_json, fresh_sample}
use scu35_bitcoin_lottery_mi.Settings.Examples.{ideal, ideal-IsEeprom, blank, pool, pool-IsTyped}

abbrev no_sample : Ina700Sample
no_sample = record {
  valid = true;
  voltage_uv = 5000000;
  power_uw = 12;
  sampled_ms = 1000;
  errors = 2;
  current_ua = negsuc 4;
  temp_milli_c = pos 0;
}

abbrev stats : MinerStats
stats = record {
  job_id = [];
  jobs = 0;
  submitted = 0;
  accepted = 0;
  rejected = 0;
  invalid = 0;
  dropped = 0;
  hashrate_hps = 0;
  sample_ms = 0;
  engines = 8;
  hw_version = 0x01000002;
  bootloader_version = 0;
  hashes_total = 0;
  connected = false;
  authorized = false;
  mining = false;
  hashrate_valid = false;
  internal_5v = no_sample;
  vccint = no_sample;
}

abbrev telemetry : Telemetry
telemetry = record { stats = stats; events = []; created = true }

abbrev named : List ℕ → MinerEvent
named name = record { name = name; job_id = []; submission = []; hash = []; job_number = 0 }

version : version_json 0x01020003 ≡ codes "\"1.2.3\""
unfolding version_json printed decimal_text decimal_digits
version = refl

aged : fresh_sample no_sample 4001 ≡ false
unfolding fresh_sample
aged = refl

freezing : centi_of 0 ≡ negsuc 27366
unfolding centi_of
freezing = refl

one_line :
    read_line 0 ((1, character b'{') ∷ (5, nothing_yet) ∷ (9, character b'\n') ∷ []) []
    ≡ (true, codes "{")
unfolding read_line
one_line = refl

too_late : read_line 0 ((1, character b'{') ∷ (300, character b'\n') ∷ []) [] ≡ (false, codes "{")
unfolding read_line
too_late = refl

abbrev calls : List Call
calls = reported (named (codes "status")) ∷ taken ∷ taken ∷ reported (named (codes "x")) ∷ []

run-Delivered_example : Delivered calls telemetry
run-Delivered_example = run-Delivered calls telemetry refl (omega arith)

abbrev here : Peer
here = record { address = 7; port = 4028 }

abbrev there : Peer
there = record { address = 8; port = 4028 }

abbrev alive : Subscriber
alive = record { peer = here; last = 100; used = true }

abbrev free : Subscriber
free = record { peer = here; last = 0; used = false }

alive-lapsed : lapsed 200 alive ≡ false
unfolding lapsed
alive-lapsed = refl

different : same_peer here there ≡ false
unfolding same_peer
different = refl

get_elem?-subscribe_example :
    get_elem? (subscribe 200 there (free ∷ alive ∷ free ∷ free ∷ [])) 1 ≡ some alive
get_elem?-subscribe_example =
    get_elem?-subscribe 200 there (free ∷ alive ∷ free ∷ free ∷ []) 1 alive refl refl alive-lapsed
      different

abbrev outside : Outside
outside = record {
  now = 200;
  hash_count = 5;
  sysmon = 40000;
  active_mac = replicate 6 2;
  network_up = true;
  phy_known = true;
}

abbrev broadcaster : Broadcaster
broadcaster = record {
  clients = free ∷ alive ∷ free ∷ free ∷ [];
  seq = 0;
  event_seq = 0;
  last_status = 0;
  sampled = 0;
  counter_present = true;
  previous = 1;
  telemetry = telemetry;
}

broadcast_round-Fits_example :
    Fits (broadcast_round outside (some (there, codes "SCU35_DISCOVER/1")) broadcaster).1
broadcast_round-Fits_example =
    broadcast_round-Fits outside (some (there, codes "SCU35_DISCOVER/1")) broadcaster

abbrev no_fields : List ℕ → List ℕ → Found
no_fields document query = not_found

abbrev shared : Shared
shared = record { settings = pool; generation = 3; telemetry = telemetry }

configure-Configured_example :
    Configured ideal
      (miner_config_parse (λ line. true) no_fields (codes "{}") pool)
      shared
      blank
      (configure ideal (λ line. true) no_fields (codes "{}") shared blank)
configure-Configured_example =
    configure-Configured ideal ideal-IsEeprom (λ line. true) no_fields (codes "{}") shared blank
      pool-IsTyped
