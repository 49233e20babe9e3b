-- ===== src/Dashboard/Broadcast.antt =====
-- `broadcast_task` of software/application/dashboard.c: the subscribers, the sample of the hash
-- counter, and the datagrams of a round.
use scu35_bitcoin_lottery_mi.Base.{
  ℕ, zero, suc, ◌+◌, ◌-◌, ◌*◌, ◌/◌, ◌^◌, Bool, true, false, ◌&&◌, ◌||◌, not, List, [], ◌∷◌, ◌++◌,
  map, Option, none, some, length, replicate, ltb, leb, ◌==◌, if◌then◌else◌, u16, u32, u64,
  bytes_eq, codes, c_text,
}
use scu35_bitcoin_lottery_mi.Dashboard.{Telemetry, take_event}
use scu35_bitcoin_lottery_mi.Power.{ℤ, pos, negsuc}
use scu35_bitcoin_lottery_mi.Protocol.{MinerEvent, miner_hashrate}
use scu35_bitcoin_lottery_mi.Protocol.Print.{miner_telemetry_json, miner_event_json}

-- An address and a port.
pub record Peer : Type 0 where
  pub address : ℕ
  pub port : ℕ

-- An element of `clients`.
pub record Subscriber : Type 0 where
  pub peer : Peer
  pub last : ℕ
  pub used : Bool

unfoldable pub same_peer : Peer → Peer → Bool
same_peer p q = (p.address == q.address) && (p.port == q.port)

-- A difference of two times, which wrap; 5000 ms are 500 ticks, and 1000 ms are 100.
abbrev pub since : ℕ → ℕ → ℕ
since now last = u32 (now + (2 ^ 32 - last))

unfoldable pub lapsed : ℕ → Subscriber → Bool
lapsed now c = ltb 500 (since now c.last)

-- The loop that looks for the place of a peer, from element `i` on: that of the peer, or the last
-- that is free or has lapsed.
unfoldable pub find_place : ℕ → Peer → ℕ → List Subscriber → Option ℕ → Option ℕ
find_place now peer i [] slot = slot
find_place now peer i (c ∷ cs) slot =
    let rest =
      find_place now peer (i + 1) cs (if not c.used || lapsed now c then some i else slot) in
    if c.used && same_peer c.peer peer then some i else rest

unfoldable pub put_client : ℕ → Subscriber → List Subscriber → List Subscriber
put_client i new [] = []
put_client zero new (c ∷ cs) = new ∷ cs
put_client (suc i) new (c ∷ cs) = c ∷ put_client i new cs

unfoldable pub subscribe : ℕ → Peer → List Subscriber → List Subscriber
unfolding put_client
subscribe now peer clients = elim (find_place now peer 0 clients none) [
  | none ↦ clients
  | some i ↦ put_client i (record { peer = peer; last = now; used = true }) clients
]

-- The variables of the task that outlive a round, and the telemetry.
pub record Broadcaster : Type 0 where
  pub clients : List Subscriber
  pub seq : ℕ
  pub event_seq : ℕ
  pub last_status : ℕ
  pub sampled : ℕ
  pub counter_present : Bool
  pub previous : ℕ
  pub telemetry : Telemetry

-- The start of the task, with the time, the identity of the counter and its value.
unfoldable pub broadcast_start : ℕ → ℕ → ℕ → Telemetry → Broadcaster
broadcast_start now identity hash_count t = record {
  clients =
      replicate 4 (record { peer = record { address = 0; port = 0 }; last = 0; used = false });
  seq = 0;
  event_seq = 0;
  last_status = 0;
  sampled = now;
  counter_present = identity == 0x48534831;
  previous = if identity == 0x48534831 then hash_count else 0;
  telemetry = t;
}

-- What a round reads from outside the file.
pub record Outside : Type 0 where
  pub now : ℕ
  pub hash_count : ℕ
  pub sysmon : ℕ
  pub active_mac : List ℕ
  pub network_up : Bool
  pub phy_known : Bool

unfoldable pub sample : Outside → Broadcaster → Broadcaster
sample o b =
    if b.counter_present && leb 100 (since o.now b.sampled)
    then (let s = b.telemetry.stats in
        record b {
          telemetry = record b.telemetry {
            stats = record s {
              hashrate_hps = miner_hashrate b.previous o.hash_count (since o.now b.sampled) 100;
              hashes_total = u64 (s.hashes_total + u32 (o.hash_count + (2 ^ 32 - b.previous)));
              sample_ms = u32 (since o.now b.sampled * 10);
              hashrate_valid = true;
            };
          };
          previous = o.hash_count;
          sampled = o.now;
        })
    else b

abbrev pub status_event : MinerEvent
status_event = record {
  name = codes "status";
  job_id = [];
  submission = [];
  hash = [];
  job_number = 0;
}

-- A request: whether it asks for a discovery, and the clients then.
unfoldable pub discovers : Option (Peer × List ℕ) → Bool
discovers none = false
discovers (some (peer, request)) = bytes_eq (c_text request) (codes "SCU35_DISCOVER/1")

unfoldable pub requested : ℕ → Option (Peer × List ℕ) → List Subscriber → List Subscriber
requested now none clients = clients
requested now (some (peer, request)) clients =
    if bytes_eq (c_text request) (codes "SCU35_SUBSCRIBE/1")
    then subscribe now peer clients
    else clients

-- The temperature in hundredths of a degree.
unfoldable pub centi_of : ℕ → ℤ
centi_of sysmon =
    let scaled = u64 (u16 sysmon * 5013743) / 6553600 in
    if leb 27367 scaled then pos (scaled - 27367) else negsuc (27367 - scaled - 1)

-- The loop over the clients for one text: the clients, and where it is sent.
unfoldable pub deliver : ℕ → List Subscriber → List Subscriber × List Peer
deliver now [] = ([], [])
deliver now (c ∷ cs) =
    let rest = deliver now cs in
    if c.used
    then (if lapsed now c
        then (record c { used = false } ∷ rest.0, rest.1)
        else (c ∷ rest.0, c.peer ∷ rest.1))
    else (c ∷ rest.0, rest.1)

abbrev pub Datagram : Type 0
Datagram = Peer × List ℕ

abbrev pub udp_limit : ℕ
udp_limit = 1472

-- Whom a discovery is answered.
unfoldable pub discovery_peer : Option (Peer × List ℕ) → List Peer
discovery_peer none = []
discovery_peer (some (peer, request)) =
    if bytes_eq (c_text request) (codes "SCU35_DISCOVER/1") then peer ∷ [] else []

-- A part of the message: a text that is too long for a datagram is not sent.
unfoldable pub send_part :
    ℕ → Option (Peer × List ℕ) → List ℕ → List Subscriber → List Subscriber × List Datagram
send_part now request text clients =
    if length text == 0 || ltb udp_limit (length text)
    then (clients, [])
    else (let sent_to = deliver now clients in
        (sent_to.0, map (λ peer. (peer, text)) (discovery_peer request ++ sent_to.1)))

unfoldable pub event_of : List MinerEvent → MinerEvent
event_of [] = status_event
event_of (e ∷ es) = e

unfoldable pub dequeue : Broadcaster → Broadcaster
dequeue b = record b {
  telemetry = take_event b.telemetry;
  event_seq = if length b.telemetry.events == 0 then b.event_seq else u32 (b.event_seq + 1);
}

unfoldable pub telemetry_text : Outside → MinerEvent → Broadcaster → List ℕ
telemetry_text o e b =
    miner_telemetry_json b.telemetry.stats e b.seq b.event_seq (u32 (o.now * 10))
      (centi_of o.sysmon) o.active_mac o.network_up o.phy_known

unfoldable pub event_text : Outside → MinerEvent → Broadcaster → List ℕ
event_text o e b =
    miner_event_json e b.seq b.event_seq (u32 (o.now * 10)) (centi_of o.sysmon) o.active_mac

abbrev pub counting : Broadcaster → Broadcaster
counting b = record b { seq = u32 (b.seq + 1) }

-- A text is sent whole, or in two parts if it is longer than a datagram.
unfoldable pub split_parts :
    Outside → Option (Peer × List ℕ) → MinerEvent → Broadcaster → Broadcaster × List Datagram
split_parts o request e b =
    let b1 = counting b in
    let first = send_part o.now request (telemetry_text o status_event b1) b1.clients in
    let b2 = counting (record b1 { clients = first.0 }) in
    let second = send_part o.now request (event_text o e b2) b2.clients in
    (record b2 { clients = second.0 }, first.1 ++ second.1)

unfoldable pub publish :
    Outside → Option (Peer × List ℕ) → MinerEvent → Broadcaster → Broadcaster × List Datagram
publish o request e b =
    let text = telemetry_text o e b in
    if leb 3072 (length text)
    then (b, [])
    else (if ltb udp_limit (length text)
        then split_parts o request e b
        else (let whole = send_part o.now request text b.clients in
            (record b { clients = whole.0 }, whole.1)))

-- A round, from the request on. A status is sent once a second, or when it is asked for.
unfoldable pub broadcast_round :
    Outside → Option (Peer × List ℕ) → Broadcaster → Broadcaster × List Datagram
broadcast_round o request b =
    let sampled = sample o (record b { clients = requested o.now request b.clients }) in
    let pending = not (length sampled.telemetry.events == 0) in
    let e = event_of sampled.telemetry.events in
    let taken = dequeue sampled in
    if not (discovers request) && (not pending && ltb (since o.now taken.last_status) 100)
    then (taken, [])
    else publish o request e (counting (record taken { last_status = o.now }))
