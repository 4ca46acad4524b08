-- ===== src/Net/Steps.antt =====
-- Every socket call of src/net.c keeps the invariant of `Net.Invariant`.
use myos.Base.{
  ℕ, ◌<◌, ◌≡◌, refl, Bool, List, Option, none, some, update, arith, Option-cases, inl, inr,
}
use myos.Base.Int.{ℤ, pos, negsuc}
use myos.Net.{
  SockAddr, Msg, Sockets, Socket, zeroed, listen, bound, connected, get_socket, alloc_socket,
  enqueue_msg, dequeue_msg, dequeue_pending, max_sockets, fd_from_index, sock_stream,
}
use myos.Net.Calls.{
  net_socket, net_bind, net_listen, net_accept, net_connect, net_sendto, net_recvfrom, net_close,
  accepted, find_listener, find_dgram, link_sockets, message, send_dgram, send_stream, unlink,
}
use myos.Net.Lookup.{get_socket-in_use}
use myos.Net.Invariant.{
  IsWf, at, update-IsWf, update-IsWf_same, enqueue_msg-IsWf, enqueue_pending-IsWf, dequeue_msg-IsWf,
  dequeue_pending-IsWf, alloc-IsWf, zeroed-IsWf,
}

-- A call from user space.
pub data Call : Type 0 where
  socket : ℕ → ℕ → ℤ → Call
  bind : ℤ → Option SockAddr → Call
  listens accepts closes : ℤ → Call
  connect : ℤ → Option SockAddr → Call
  sendto : ℤ → Option (List ℕ) → ℕ → Option SockAddr → Call
  recvfrom : ℤ → Bool → ℕ → Call

pub step : Sockets → Call → Sockets
step g (socket d t p) = (net_socket d t p g).1
step g (bind fd a) = (net_bind fd a g).1
step g (listens fd) = (net_listen fd g).1
step g (accepts fd) = (net_accept fd g).2
step g (closes fd) = (net_close fd g).1
step g (connect fd a) = (net_connect fd a g).1
step g (sendto fd b n a) = (net_sendto fd b n a g).1
step g (recvfrom fd b n) = (net_recvfrom fd b n g).3

net_socket-IsWf : (d t : ℕ) (p : ℤ) (g : Sockets) → IsWf g → IsWf (net_socket d t p g).1
unfolding net_socket
net_socket-IsWf d t p g w = elim (Option-cases (alloc_socket g)) [
  | inl e ↦ rw (e, net_socket) (ground (arith, w))
  | inr ((v, g'), e) ↦
      let fresh = alloc-IsWf g v g' w e in
      let s = record (g' v) {
        type = t;
        state = bound;
        local = record { addr = 0x7F000001; port = (g' v).local.port };
        owner_pid = p;
      } in
      let done = update-IsWf_same g' v v s fresh.0 refl refl refl in
      rw (e, net_socket) (ground (arith, w, done))
]

net_bind-IsWf : (fd : ℤ) (a : Option SockAddr) (g : Sockets) → IsWf g → IsWf (net_bind fd a g).1
unfolding net_bind
net_bind-IsWf fd none g w = w
net_bind-IsWf fd (some a) g w = elim (Option-cases (get_socket fd g)) [
  | inl e ↦ rw (e, net_bind) w
  | inr (i, e) ↦ rw (e, net_bind) (update-IsWf_same g i i _ w refl refl refl)
]

net_listen-IsWf : (fd : ℤ) (g : Sockets) → IsWf g → IsWf (net_listen fd g).1
unfolding net_listen
net_listen-IsWf fd g w = elim (Option-cases (get_socket fd g)) [
  | inl e ↦ rw (e, net_listen) w
  | inr (i, e) ↦
      let done = update-IsWf_same g i i (record (g i) { state = listen }) w refl refl refl in
      rw (e, net_listen) (ground (arith, w, done))
]

accepted-table : (fd : ℤ) (g : Sockets) → (accepted fd g).2 ≡ g
unfolding accepted
accepted-table (negsuc n) g = refl
accepted-table (pos n) g = elim (Option-cases (get_socket (pos n) g)) [
  | inl e ↦ rw (e, accepted)
  | inr (i, e) ↦ rw (e, accepted)
]

net_accept-IsWf : (fd : ℤ) (g : Sockets) → IsWf g → IsWf (net_accept fd g).2
unfolding net_accept
net_accept-IsWf fd g w = elim (Option-cases (get_socket fd g)) [
  | inl e ↦ rw (e, net_accept) w
  | inr (i, e) ↦
      rw (e, net_accept)
        (elim (Option-cases (dequeue_pending (g i))) [
          | inl d ↦ rw d (ground (arith, w))
          | inr ((child, s), d) ↦
              let next = update-IsWf g i s w (dequeue_pending-IsWf (g i) s child (at g i w) d) in
              rw d (ground (arith, w, next, accepted-table child (update g i s)))
        ])
]

link_sockets-IsWf :
    (c l v : ℕ) (a : SockAddr) (g : Sockets)
    → IsWf g
    → c < max_sockets
    → v < max_sockets
    → IsWf (link_sockets c l v a g)
unfolding link_sockets
link_sockets-IsWf c l v a g w hc hv =
    update-IsWf g₂ l _ w₂ (enqueue_pending-IsWf (g₂ l) (fd_from_index v) (at g₂ l w₂))
  where
    server : Socket
    server = record (g v) {
      type = sock_stream;
      state = connected;
      local = (g l).local;
      remote = (g c).local;
      peer = some c;
      owner_pid = (g l).owner_pid;
    }

    g₁ : Sockets
    g₁ = update g v server

    w₁ : IsWf g₁
    w₁ =
        update-IsWf g v server w
          (record { queue = (at g v w).queue; pending = (at g v w).pending; peer = hc })

    client : Socket
    client = record (g₁ c) { remote = a; state = connected; peer = some v }

    g₂ : Sockets
    g₂ = update g₁ c client

    w₂ : IsWf g₂
    w₂ =
        update-IsWf g₁ c client w₁
          (record { queue = (at g₁ c w₁).queue; pending = (at g₁ c w₁).pending; peer = hv })

net_connect-IsWf :
    (fd : ℤ) (a : Option SockAddr) (g : Sockets) → IsWf g → IsWf (net_connect fd a g).1
unfolding net_connect
net_connect-IsWf fd none g w = w
net_connect-IsWf fd (some a) g w = elim (Option-cases (get_socket fd g)) [
  | inl e ↦ rw (e, net_connect) w
  | inr (c, e) ↦
      rw (e, net_connect)
        (elim (Option-cases (find_listener a.port g)) [
          | inl f ↦ rw f (ground (arith, w))
          | inr (l, f) ↦ rw f (elim (Option-cases (alloc_socket g)) [
            | inl n ↦ rw n (ground (arith, w))
            | inr ((v, g'), n) ↦
                let fresh = alloc-IsWf g v g' w n in
                let linked =
                  link_sockets-IsWf c l v a g' fresh.0 (get_socket-in_use fd g c e).1 fresh.1 in
                rw n (ground (arith, w, linked))
          ])
        ])
]

send_dgram-IsWf : (m : Msg) (a : SockAddr) (g : Sockets) → IsWf g → IsWf (send_dgram m a g).1
unfolding send_dgram
send_dgram-IsWf m a g w = elim (Option-cases (find_dgram a.port g)) [
  | inl e ↦ rw (e, send_dgram) w
  | inr (i, e) ↦ rw (e, send_dgram) (update-IsWf g i _ w (enqueue_msg-IsWf (g i) m (at g i w)))
]

send_stream-IsWf : (m : Msg) (o : Option ℕ) (g : Sockets) → IsWf g → IsWf (send_stream m o g).1
unfolding send_stream
send_stream-IsWf m none g w = w
send_stream-IsWf m (some j) g w =
    let sent = update-IsWf g j (enqueue_msg (g j) m) w (enqueue_msg-IsWf (g j) m (at g j w)) in
    ground (arith, w, sent)

net_sendto-IsWf :
    (fd : ℤ) (b : Option (List ℕ)) (n : ℕ) (a : Option SockAddr) (g : Sockets)
    → IsWf g
    → IsWf (net_sendto fd b n a g).1
unfolding net_sendto
net_sendto-IsWf fd none n a g w = w
net_sendto-IsWf fd (some b) n none g w = elim (Option-cases (get_socket fd g)) [
  | inl e ↦ rw (e, net_sendto) w
  | inr (i, e) ↦
      let stream = send_stream-IsWf (message (g i) b n) (g i).peer g w in
      rw (e, net_sendto) (ground (arith, w, stream))
]
net_sendto-IsWf fd (some b) n (some a) g w = elim (Option-cases (get_socket fd g)) [
  | inl e ↦ rw (e, net_sendto) w
  | inr (i, e) ↦
      let stream = send_stream-IsWf (message (g i) b n) (g i).peer g w in
      let dgram = send_dgram-IsWf (message (g i) b n) a g w in
      rw (e, net_sendto) (ground (arith, w, stream, dgram))
]

net_recvfrom-IsWf :
    (fd : ℤ) (b : Bool) (n : ℕ) (g : Sockets) → IsWf g → IsWf (net_recvfrom fd b n g).3
unfolding net_recvfrom
net_recvfrom-IsWf fd b n g w = elim (Option-cases (get_socket fd g)) [
  | inl e ↦ rw (e, net_recvfrom) w
  | inr (i, e) ↦
      rw (e, net_recvfrom)
        (elim (Option-cases (dequeue_msg (g i))) [
          | inl d ↦ rw d (ground (arith, w))
          | inr ((m, s), d) ↦
              let next = update-IsWf g i s w (dequeue_msg-IsWf (g i) s m (at g i w) d) in
              rw d (ground (arith, w, next))
        ])
]

unlink-IsWf : (o : Option ℕ) (g : Sockets) → IsWf g → IsWf (unlink o g)
unfolding unlink
unlink-IsWf none g w = w
unlink-IsWf (some j) g w =
    let next =
      update-IsWf g j (record (g j) { peer = none }) w
        (record { queue = (at g j w).queue; pending = (at g j w).pending; peer = tt }) in
    ground (arith, w, next)

net_close-IsWf : (fd : ℤ) (g : Sockets) → IsWf g → IsWf (net_close fd g).1
unfolding net_close
net_close-IsWf fd g w = elim (Option-cases (get_socket fd g)) [
  | inl e ↦ rw (e, net_close) w
  | inr (i, e) ↦
      rw (e, net_close)
        (update-IsWf (unlink (g i).peer g) i zeroed (unlink-IsWf (g i).peer g w) zeroed-IsWf)
]

-- Every socket call, whatever its arguments, keeps the indices of all message and connection queues
-- and all peers inside their arrays.
pub step-IsWf : (g : Sockets) (c : Call) → IsWf g → IsWf (step g c)
unfolding step
step-IsWf g (socket d t p) w = net_socket-IsWf d t p g w
step-IsWf g (bind fd a) w = net_bind-IsWf fd a g w
step-IsWf g (listens fd) w = net_listen-IsWf fd g w
step-IsWf g (accepts fd) w = net_accept-IsWf fd g w
step-IsWf g (closes fd) w = net_close-IsWf fd g w
step-IsWf g (connect fd a) w = net_connect-IsWf fd a g w
step-IsWf g (sendto fd b n a) w = net_sendto-IsWf fd b n a g w
step-IsWf g (recvfrom fd b n) w = net_recvfrom-IsWf fd b n g w
