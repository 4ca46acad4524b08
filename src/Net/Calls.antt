-- ===== src/Net/Calls.antt =====
-- The socket calls of src/net.c. Each gives its status and the new table.
use myos.Base.{
  ℕ, min, Bool, not, ◌&&◌, Option, none, some, List, [], ltb, ◌==◌, if◌then◌else◌, update, take,
}
use myos.Base.Search.{first_from}
use myos.Base.Int.{ℤ, pos, negsuc, minus_one}
use myos.Net.{
  SockAddr, Msg, Socket, Sockets, zeroed, bound, listen, connected, is_listen, is_connected,
  max_sockets, max_payload, af_inet, sock_stream, sock_dgram, fd_from_index, get_socket,
  alloc_socket, enqueue_msg, dequeue_msg, enqueue_pending, dequeue_pending,
}

unfoldable pub net_socket : ℕ → ℕ → ℤ → Sockets → ℤ × Sockets
unfolding alloc_socket
net_socket domain type owner_pid g =
    if not (domain == af_inet)
    then (minus_one, g)
    else if not (type == sock_stream) && not (type == sock_dgram)
    then (minus_one, g)
    else elim (alloc_socket g) [
      | none ↦ (minus_one, g)
      | some (i, g') ↦ (
        fd_from_index i,
        update g' i (record (g' i) {
          type = type;
          state = bound;
          local = record { addr = 0x7F000001; port = (g' i).local.port };
          owner_pid = owner_pid;
        }),
      )
    ]

unfoldable pub net_bind : ℤ → Option SockAddr → Sockets → ℤ × Sockets
unfolding get_socket
net_bind fd none g = (minus_one, g)
net_bind fd (some addr) g = elim (get_socket fd g) [
  | none ↦ (minus_one, g)
  | some i ↦ (pos 0, update g i (record (g i) { local = addr; state = bound }))
]

unfoldable pub net_listen : ℤ → Sockets → ℤ × Sockets
unfolding get_socket
net_listen fd g = elim (get_socket fd g) [
  | none ↦ (minus_one, g)
  | some i ↦
      if (g i).type == sock_stream
      then (pos 0, update g i (record (g i) { state = listen }))
      else (minus_one, g)
]

-- `net_accept` from the descriptor that it took off the queue.
unfoldable pub accepted : ℤ → Sockets → ℤ × Option SockAddr × Sockets
unfolding get_socket
accepted (negsuc n) g = (minus_one, none, g)
accepted (pos n) g = elim (get_socket (pos n) g) [
  | none ↦ (pos n, none, g)
  | some c ↦ (pos n, some (g c).remote, g)
]

-- The second part is what goes through `addr`, if the caller gave one.
unfoldable pub net_accept : ℤ → Sockets → ℤ × Option SockAddr × Sockets
unfolding get_socket dequeue_pending accepted
net_accept fd g = elim (get_socket fd g) [
  | none ↦ (minus_one, none, g)
  | some i ↦
      if is_listen (g i).state
      then elim (dequeue_pending (g i)) [
        | none ↦ (minus_one, none, g)
        | some (child_fd, s) ↦ accepted child_fd (update g i s)
      ]
      else (minus_one, none, g)
]

-- The first listening socket on a port.
unfoldable pub find_listener : ℕ → Sockets → Option ℕ
unfolding first_from
find_listener port g =
    first_from (λ i. (g i).in_use && is_listen (g i).state && ((g i).local.port == port))
      max_sockets 0

-- The two ends of a connection from the socket c to the listening socket l, the new socket being v.
unfoldable pub link_sockets : ℕ → ℕ → ℕ → SockAddr → Sockets → Sockets
link_sockets c l v addr g =
    let server = record (g v) {
      type = sock_stream;
      state = connected;
      local = (g l).local;
      remote = (g c).local;
      peer = some c;
      owner_pid = (g l).owner_pid;
    } in
    let g₁ = update g v server in
    let client = record (g₁ c) { remote = addr; state = connected; peer = some v } in
    let g₂ = update g₁ c client in update g₂ l (enqueue_pending (g₂ l) (fd_from_index v))

unfoldable pub net_connect : ℤ → Option SockAddr → Sockets → ℤ × Sockets
unfolding get_socket alloc_socket find_listener link_sockets
net_connect fd none g = (minus_one, g)
net_connect fd (some addr) g = elim (get_socket fd g) [
  | none ↦ (minus_one, g)
  | some c ↦
      if (g c).type == sock_stream
      then elim (find_listener addr.port g) [
        | none ↦ (minus_one, g)
        | some l ↦ elim (alloc_socket g) [
          | none ↦ (minus_one, g)
          | some (v, g') ↦ (pos 0, link_sockets c l v addr g')
        ]
      ]
      else (minus_one, g)
]

-- The message that `net_sendto` builds, of at most 1500 bytes.
unfoldable pub message : Socket → List ℕ → ℕ → Msg
message s buf len = record {
  len = min len max_payload;
  bytes = take (min len max_payload) buf;
  src = s.local;
}

-- The first datagram socket on a port.
unfoldable pub find_dgram : ℕ → Sockets → Option ℕ
unfolding first_from
find_dgram port g =
    first_from (λ i. (g i).in_use && ((g i).type == sock_dgram) && ((g i).local.port == port))
      max_sockets 0

unfoldable pub send_dgram : Msg → SockAddr → Sockets → ℤ × Sockets
unfolding find_dgram enqueue_msg
send_dgram m addr g = elim (find_dgram addr.port g) [
  | none ↦ (pos m.len, g)
  | some i ↦ (pos m.len, update g i (enqueue_msg (g i) m))
]

unfoldable pub send_stream : Msg → Option ℕ → Sockets → ℤ × Sockets
unfolding enqueue_msg
send_stream m none g = (minus_one, g)
send_stream m (some j) g =
    if (g j).in_use then (pos m.len, update g j (enqueue_msg (g j) m)) else (minus_one, g)

unfoldable pub net_sendto : ℤ → Option (List ℕ) → ℕ → Option SockAddr → Sockets → ℤ × Sockets
unfolding get_socket message send_dgram send_stream
net_sendto fd none len addr g = (minus_one, g)
net_sendto fd (some buf) len addr g = elim (get_socket fd g) [
  | none ↦ (minus_one, g)
  | some i ↦
      let m = message (g i) buf len in
      if (g i).type == sock_dgram
      then elim addr [ none ↦ (minus_one, g) | some a ↦ send_dgram m a g ]
      else if ((g i).type == sock_stream) && is_connected (g i).state
      then send_stream m (g i).peer g
      else (minus_one, g)
]

-- The bytes that go into the buffer and the address are given beside the status; the buffer's own
-- pointer may be null.
unfoldable pub net_recvfrom : ℤ → Bool → ℕ → Sockets → ℤ × List ℕ × Option SockAddr × Sockets
unfolding get_socket dequeue_msg
net_recvfrom fd has_buf len g = elim (get_socket fd g) [
  | none ↦ (minus_one, [], none, g)
  | some i ↦
      if has_buf
      then elim (dequeue_msg (g i)) [
        | none ↦ (pos 0, [], none, g)
        | some (m, s) ↦
            (pos (min len m.len), take (min len m.len) m.bytes, some m.src, update g i s)
      ]
      else (minus_one, [], none, g)
]

-- The peer of a socket that closes forgets it.
unfoldable pub unlink : Option ℕ → Sockets → Sockets
unlink none g = g
unlink (some j) g = if ltb j max_sockets then update g j (record (g j) { peer = none }) else g

unfoldable pub net_close : ℤ → Sockets → ℤ × Sockets
unfolding get_socket unlink
net_close fd g = elim (get_socket fd g) [
  | none ↦ (minus_one, g)
  | some i ↦ (pos 0, update (unlink (g i).peer g) i zeroed)
]
