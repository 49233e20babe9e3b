-- ===== src/Stratum/Examples.antt =====
-- Runs of the Stratum client and the theorems at concrete inputs.
use scu35_bitcoin_lottery_mi.Base.{
  ℕ, zero, suc, ◌-◌, ◌^◌, length-replicate, ◌≤◌, ◌<◌, true, false, List, [], ◌∷◌, ◌++◌, ◌≡◌, ◌↔◌,
  ◌⊎◌, refl, inr, length, replicate, codes, decimal_digits, decimal_text, c_text, hex_char,
  hex_digits_of, arith,
}
use scu35_bitcoin_lottery_mi.Json.{Found, found, json_number_type}
use scu35_bitcoin_lottery_mi.Protocol.{MinerEvent}
use scu35_bitcoin_lottery_mi.Settings.{MinerSettings}
use scu35_bitcoin_lottery_mi.Bitcoin.{hex_decode, hex_loop, digit_value, put_digit, bitcoin_swap32}
use scu35_bitcoin_lottery_mi.Stratum.{
  Client, World, PoolJob, Share, next, send_line, stop, wrote, delayed, mining,
}
use scu35_bitcoin_lottery_mi.Stratum.Work.{increment, build_header, exactly}
use scu35_bitcoin_lottery_mi.Stratum.Messages.{announce}
use scu35_bitcoin_lottery_mi.Stratum.Jobs.{branch_query}
use scu35_bitcoin_lottery_mi.Stratum.Shares.{meets, check_result, submit_text}
use scu35_bitcoin_lottery_mi.Stratum.Session.{
  Receiver, characters, session, session_loop, end_line, receive_all, deadlines,
}
use scu35_bitcoin_lottery_mi.Stratum.Control.{armed, disciplined, InOrder}
use scu35_bitcoin_lottery_mi.Stratum.Order.{session-disciplined, session_loop-InOrder}
use scu35_bitcoin_lottery_mi.Stratum.Numbers.{meets_iff, digest_number, target_value}
use scu35_bitcoin_lottery_mi.Stratum.Built.{CanBuild, Built, build_header-Built}
use scu35_bitcoin_lottery_mi.Stratum.Send.{Sent, send_line-Sent}
use scu35_bitcoin_lottery_mi.Stratum.Valid.{Outcome, result_hash, stamped, check_result-Outcome}
use scu35_bitcoin_lottery_mi.Stratum.Lines.{InLine, receive_all-line, receive_all_overlong}
use scu35_bitcoin_lottery_mi.Stratum.Deadlines.{Past, deadlines-Overdue}

-- In every text from this pool, every query finds the number 2; a send takes 4 characters.
abbrev in_pool : List ℕ → List ℕ → Found
in_pool document query = found (b'2' ∷ []) json_number_type

abbrev world : World
world = record {
  register_value = λ log a. 0;
  accepted = λ log text. 4;
  ticks = λ log. 5000;
  job_number = λ log id. 1;
  validate = λ document. true;
  lookup = in_pool;
  unset = record { h = []; bit_count = 0; buffer = replicate 64 0xcc; buffer_len = 3 };
}

abbrev nothing : MinerEvent
nothing = record { name = []; job_id = []; submission = []; hash = []; job_number = 0 }

abbrev job : PoolJob
job = record {
  id = codes "7f";
  time = codes "495fab29";
  number = 3;
  prev = replicate 32 5;
  version = 0x20 ∷ 0 ∷ 0 ∷ 0 ∷ [];
  bits = 0x1d ∷ 0 ∷ 0xff ∷ 0xff ∷ [];
  coin1 = 1 ∷ 2 ∷ [];
  coin2 = 5 ∷ [];
  branches = replicate 32 9 ∷ [];
  target = replicate 8 (2 ^ 32 - 1);
}

abbrev waiting : Share
waiting = record { id = 5; submitted = 100; event = nothing }

abbrev settings : MinerSettings
settings = record {
  mac = replicate 6 2;
  port = 3333;
  host = codes "pool";
  worker = codes "w" ++ (0 ∷ []);
  password = 0 ∷ [];
}

abbrev client : Client
client = record {
  job = job;
  extra1 = 3 ∷ [];
  extra2 = 0 ∷ 255 ∷ replicate 14 0;
  extra2_size = 2;
  header = replicate 80 0;
  pending_target = replicate 8 1;
  range_start = 0;
  next_id = 6;
  pending = record { id = 0; submitted = 0; event = nothing } ∷ waiting ∷ [];
  extra2_hex = codes "00fe";
  subscribed = true;
  authorized = true;
  have_job = true;
  running = true;
  extra_exhausted = false;
  session = settings;
  log = wrote 0 1 ∷ [];
}

abbrev receiving : Receiver
receiving = record { client = client; line = codes "{"; started = 0; last = 4990 }

abbrev idle : Client
idle = record client { log = []; running = false }

carried : increment 2 client.extra2 ≡ (false, 1 ∷ 0 ∷ replicate 14 0)
unfolding increment
carried = refl

exhausted : increment 2 (255 ∷ 255 ∷ []) ≡ (true, 0 ∷ 0 ∷ [])
unfolding increment
exhausted = refl

stopped :
    (stop client).log
    ≡ mining false
      ∷ wrote 0x98 3
      ∷ wrote 0 4
      ∷ delayed 1
      ∷ wrote 0 2
      ∷ wrote 0xa0 1
      ∷ wrote 0 1
      ∷ []
unfolding stop
stopped = refl

query : branch_query 12 ≡ codes "params[4][12]"
unfolding branch_query decimal_text decimal_digits
query = refl

request :
    submit_text 6 0x12345678 client
    ≡ codes
        "{\"id\":6,\"method\":\"mining.submit\",\"params\":[\"w\",\"7f\",\"00fe\",\"495fab29\",\"78563412\"]}\n"
unfolding submit_text decimal_text decimal_digits c_text hex_digits_of hex_char bitcoin_swap32
request = refl

session-disciplined_example :
    (disciplined world (session world settings true (characters (codes "{}\n") ∷ []) idle).log
      ≡ true)
    × (armed world (session world settings true (characters (codes "{}\n") ∷ []) idle).log ≡ false)
session-disciplined_example =
    session-disciplined world settings true (characters (codes "{}\n") ∷ []) idle refl refl

session_loop-InOrder_example :
    InOrder world (session_loop world (characters (codes "}\n") ∷ []) receiving).client
session_loop-InOrder_example =
    session_loop-InOrder world (characters (codes "}\n") ∷ []) receiving
      (record { disciplined_writes = refl; flag = refl; busy = refl; login = refl })

client-CanBuild : CanBuild world client
unfolding exactly hex_decode hex_loop digit_value put_digit
client-CanBuild = record {
  time = 0x49 ∷ 0x5f ∷ 0xab ∷ 0x29 ∷ [];
  reads = refl;
  hash_buffer = refl;
  header_size = refl;
  branch_sizes = (refl, tt);
  extra2_bytes = omega arith;
  extra2_fits = omega arith;
  extra2_some = omega arith;
}

build_header-Built_example :
    ((client.extra_exhausted ≡ true) × (build_header world client ≡ (false, client)))
    ⊎ ((client.extra_exhausted ≡ false)
        × ((build_header world client).0 ≡ true)
        × Built world client-CanBuild.time client (build_header world client).1)
build_header-Built_example = build_header-Built world client client-CanBuild

check_result-Outcome_example :
    ((target_value job.target < digest_number (result_hash 77 client))
      × (check_result world 77 client
          ≡ (false, announce (codes "hardware_solution_invalid") (stamped 77 client))))
    ⊎ ((digest_number (result_hash 77 client) ≤ target_value job.target)
        × Outcome world 77 (stamped 77 client) (check_result world 77 client))
check_result-Outcome_example = check_result-Outcome world 77 client refl refl (omega arith)

meets_iff_example :
    (meets 32 0 (replicate 32 1) (replicate 8 0x01010101) ≡ true)
    ↔ (digest_number (replicate 32 1) ≤ target_value (replicate 8 0x01010101))
meets_iff_example = meets_iff (replicate 32 1) (replicate 8 0x01010101) (omega arith) (omega arith)

waiting-Past : Past 3000 (world.ticks client.log) waiting.submitted
waiting-Past = record {
  begun = 100;
  ended = 5000;
  reads_since = refl;
  reads_now = refl;
  longer = omega arith;
  within = omega arith;
}

deadlines-Overdue_example : (deadlines world (true, receiving)).0 ≡ false
deadlines-Overdue_example =
    deadlines-Overdue world receiving
      (inr (inr (1, waiting, refl, (λ e. omega arith), waiting-Past)))

send_line-Sent_example : Sent (codes "hello\n") client (send_line world (codes "hello\n") client)
send_line-Sent_example = send_line-Sent world (codes "hello\n") client

receive_all-line_example :
    receive_all world (codes "}" ++ (b'\n' ∷ codes "x")) receiving
    ≡ next (end_line world (record receiving { line = codes "{}" })) (receive_all world (codes "x"))
receive_all-line_example =
    receive_all-line world (codes "}") (codes "x") receiving (omega arith) (omega arith)

-- As many characters as the array has.
many : List ℕ
many = replicate 24000 b'a'

InLine-replicate : (n : ℕ) → InLine (replicate n b'a')
InLine-replicate zero = tt
InLine-replicate (suc n) = ((λ e. omega arith), InLine-replicate n)

many-InLine : InLine many
unfolding many
many-InLine = InLine-replicate 24000

length-many : length many ≡ 24000
unfolding many
length-many = length-replicate {A = ℕ} 24000 b'a'

receive_all_overlong_example : (receive_all world (many ++ codes "x") receiving).0 ≡ false
receive_all_overlong_example =
    receive_all_overlong world many (codes "x") receiving many-InLine (omega arith)
      (omega (arith, length-many))
