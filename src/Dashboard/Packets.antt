-- ===== src/Dashboard/Packets.antt =====
-- The datagrams of the telemetry fit a packet.
use scu35_bitcoin_lottery_mi.Base.{
  by_test, ℕ, ◌≤◌, false, ◌&&◌, ◌||◌, not, List, [], ◌∷◌, ◌++◌, map, ◌≡◌, Option, All, length, ltb,
  leb, ◌==◌, arith,
}
use scu35_bitcoin_lottery_mi.Dashboard.Broadcast.{
  Peer, Subscriber, Broadcaster, Outside, Datagram, udp_limit, send_part, split_parts, publish,
  broadcast_round, deliver, discovery_peer, telemetry_text, counting, sample, requested, event_of,
  dequeue, discovers, since,
}
use scu35_bitcoin_lottery_mi.Protocol.{MinerEvent}

abbrev pub Fits : List Datagram → Type 0
Fits = All (λ d. length d.1 ≤ udp_limit)

Fits-append : (xs ys : List Datagram) → Fits xs → Fits ys → Fits (xs ++ ys)
Fits-append [] ys h k = k
Fits-append (x ∷ xs) ys (hx, h) k = (hx, Fits-append xs ys h k)

Fits-map :
    (text : List ℕ) (peers : List Peer)
    → length text ≤ udp_limit
    → Fits (map (λ peer. (peer, text)) peers)
Fits-map text [] h = tt
Fits-map text (p ∷ ps) h = (h, Fits-map text ps h)

short : (n : ℕ) → ((n == 0) || ltb udp_limit n) ≡ false → n ≤ udp_limit
short n h = ground arith

Fits-send_part :
    (now : ℕ) (request : Option (Peer × List ℕ)) (text : List ℕ) (clients : List Subscriber)
    → Fits (send_part now request text clients).1
unfolding send_part
Fits-send_part now request text clients =
    by_test (λ (x : List Subscriber × List Datagram). Fits x.1)
      (length text == 0 || ltb udp_limit (length text)) _ _ (λ _. tt)
      (λ e.
        Fits-map text (discovery_peer request ++ (deliver now clients).1) (short (length text) e))

Fits-split_parts :
    (o : Outside) (request : Option (Peer × List ℕ)) (e : MinerEvent) (b : Broadcaster)
    → Fits (split_parts o request e b).1
unfolding split_parts
Fits-split_parts o request e b =
    Fits-append _ _ (Fits-send_part o.now request _ _) (Fits-send_part o.now request _ _)

Fits-publish :
    (o : Outside) (request : Option (Peer × List ℕ)) (e : MinerEvent) (b : Broadcaster)
    → Fits (publish o request e b).1
unfolding publish
Fits-publish o request e b =
    let P = λ (x : Broadcaster × List Datagram). Fits x.1 in
    let text = telemetry_text o e b in
    by_test P (leb 3072 (length text)) _ _ (λ _. tt)
      (λ _.
        by_test P (ltb udp_limit (length text)) _ _ (λ _. Fits-split_parts o request e b)
          (λ _. Fits-send_part o.now request text b.clients))

-- No datagram that a round sends, whole or in parts, is longer than 1472 bytes.
pub broadcast_round-Fits :
    (o : Outside) (request : Option (Peer × List ℕ)) (b : Broadcaster)
    → Fits (broadcast_round o request b).1
unfolding broadcast_round
broadcast_round-Fits o request b =
    let sampled = sample o (record b { clients = requested o.now request b.clients }) in
    let pending = not (length sampled.telemetry.events == 0) in
    let e = event_of sampled.telemetry.events in
    let taken = dequeue sampled in
    let next = counting (record taken { last_status = o.now }) in
    by_test (λ (x : Broadcaster × List Datagram). Fits x.1)
      (not (discovers request) && (not pending && ltb (since o.now taken.last_status) 100))
      (taken, []) (publish o request e next) (λ _. tt) (λ _. Fits-publish o request e next)
