-- ===== src/Net/Tests.antt =====
-- Runs of the socket calls, and the theorems at concrete tables.
use myos.Base.{
  ℕ, ◌+◌, ◌≡◌, ◌≢◌, min, refl, true, [], ◌∷◌, ◌++◌, none, some, ltb, ◌==◌, if◌then◌else◌, arith,
  length,
}
use myos.Base.Int.{pos}
use myos.Ring
use myos.Ring.Fifo.{contents, IsValid, window, gap, next}
use myos.Net.{
  SockAddr, Sockets, zeroed, connected, listen, get_socket, dequeue_msg, max_queue, max_payload,
  fd_from_index,
}
use myos.Net.Calls.{net_sendto, net_recvfrom, net_connect, message}
use myos.Net.Invariant.{IsWf, start-IsWf}
use myos.Net.Steps.{socket, step, step-IsWf}
use myos.Net.Deliver.{Streams, net_sendto-Streams, net_recvfrom-net_sendto}
use myos.Net.Tables.{Tables, Route, no_if, no_route, init, route_get, if_get}
use myos.Net.Link.{CanConnect, net_connect_lem}

abbrev port_80 : SockAddr
port_80 = record { addr = 0x7F000001; port = 80 }

-- Socket 0 listens on port 80; socket 1 is a fresh stream socket.
abbrev two : Sockets
two = λ i.
    if i == 0
    then record zeroed { in_use = true; type = 1; state = listen; local = port_80; peer = none }
    else if i == 1
    then record zeroed { in_use = true; type = 1; peer = none }
    else zeroed

abbrev one_pending : Sockets
one_pending = λ i.
    if i == 0
    then record (two 0) { pending = record { slots = λ _. pos 3; head = 1; tail = 0 } }
    else if i == 2
    then record zeroed {
      in_use = true;
      type = 1;
      state = connected;
      remote = port_80;
      peer = some 1;
    }
    else two i

-- Sockets 1 and 2 are the ends of a stream.
abbrev pair : Sockets
pair = λ i.
    if i == 1
    then record zeroed {
      in_use = true;
      type = 1;
      state = connected;
      local = port_80;
      peer = some 2;
    }
    else if i == 2
    then record zeroed { in_use = true; type = 1; state = connected; peer = some 1 }
    else zeroed

pair-Streams : Streams pair 1 2
unfolding Ring.empty
pair-Streams = record {
  here = omega arith;
  there = omega arith;
  used = refl;
  peer_used = refl;
  stream = refl;
  state = refl;
  peer = refl;
  queue = omega arith;
}

idle : contents max_queue (pair 2).queue ≡ []
unfolding Ring.empty contents window gap next
idle = refl

bytes_arrive :
    (net_recvfrom
      (fd_from_index 2)
      true
      10
      (net_sendto (fd_from_index 1) (some (7 ∷ 8 ∷ 9 ∷ [])) 2 none pair).1).1
    ≡ 7 ∷ 8 ∷ []
unfolding net_recvfrom net_sendto Ring.empty Ring.enqueue Ring.dequeue get_socket dequeue_msg
bytes_arrive = refl

step-IsWf_example : IsWf (step (λ _. zeroed) (socket 2 1 (pos 5)))
step-IsWf_example = step-IsWf (λ _. zeroed) (socket 2 1 (pos 5)) start-IsWf

net_sendto-Streams_example :
    let (r, g') = net_sendto (fd_from_index 1) (some (7 ∷ 8 ∷ 9 ∷ [])) 2 none pair in
    let old = contents max_queue (pair 2).queue in
    (r ≡ pos (min 2 max_payload))
    × (contents max_queue (g' 2).queue ≡ (
        if ltb (length old + 1) max_queue
        then old ++ (message (pair 1) (7 ∷ 8 ∷ 9 ∷ []) 2 ∷ [])
        else old))
    × IsValid max_queue (g' 2).queue
    × ((k : ℕ) → k ≢ 2 → g' k ≡ pair k)
    × ((g' 2).in_use ≡ true)
net_sendto-Streams_example = net_sendto-Streams pair 1 2 (7 ∷ 8 ∷ 9 ∷ []) 2 none pair-Streams

net_recvfrom-net_sendto_example :
    let g' = (net_sendto (fd_from_index 1) (some (7 ∷ 8 ∷ 9 ∷ [])) 2 none pair).1 in
    let (r, bytes, src, g'') = net_recvfrom (fd_from_index 2) true 10 g' in
    (r ≡ pos 2)
    × (bytes ≡ 7 ∷ 8 ∷ [])
    × (src ≡ some port_80)
    × (contents max_queue (g'' 2).queue ≡ [])
net_recvfrom-net_sendto_example =
    net_recvfrom-net_sendto pair 1 2 (7 ∷ 8 ∷ 9 ∷ []) 2 10 none pair-Streams idle

two-CanConnect : CanConnect two 1 0 2 port_80
unfolding Ring.empty contents window gap next
two-CanConnect = record {
  inside = omega arith;
  used = refl;
  stream = refl;
  server = omega arith;
  listens = (refl, refl, refl);
  first = λ k h. absurd (omega (arith, h));
  other = omega arith;
  place = omega arith;
  vacant = refl;
  taken = λ k h. ground (arith, h);
  queue = omega arith;
  pending = omega arith;
  room = omega arith;
}

net_connect_lem_example :
    let (r, g') = net_connect (fd_from_index 1) (some port_80) two in
    (r ≡ pos 0)
    × Streams g' 1 2
    × Streams g' 2 1
    × ((g' 1).remote ≡ port_80)
    × ((g' 2).remote ≡ (two 1).local)
    × (contents max_queue (g' 0).pending
        ≡ contents max_queue (two 0).pending ++ (fd_from_index 2 ∷ []))
    × ((k : ℕ) → k ≢ 1 → k ≢ 0 → k ≢ 2 → g' k ≡ two k)
net_connect_lem_example = net_connect_lem two 1 0 2 port_80 two-CanConnect

pends_3 : contents max_queue (one_pending 0).pending ≡ fd_from_index 2 ∷ []
unfolding contents window gap next
pends_3 = refl

abbrev no_tables : Tables
no_tables = record {
  sockets = λ _. zeroed;
  netifs = λ _. no_if;
  routes = λ _. no_route;
  route_count = 0;
}

-- What `net_init` leaves.
abbrev started : Tables
started = init no_tables

default_route : route_get 0 started ≡ some (record { dest = 0; netmask = 0; gateway = 0xC0A8_0001 })
unfolding route_get init
default_route = refl

no_interface_2 : if_get 2 started ≡ none
unfolding if_get
no_interface_2 = refl

abbrev new_route : Route
new_route = record { dest = 0x0A00_0000; netmask = 0xFF00_0000; gateway = 0xC0A8_0003 }

abbrev one_route : Tables
one_route = record no_tables {
  routes = λ _. record { dest = 0; netmask = 0; gateway = 0xC0A8_0001 };
  route_count = 1;
}
