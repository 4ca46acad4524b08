-- ===== src/Net/Deliver.antt =====
-- Sending and receiving over the sockets of src/net.c.
use myos.Base.{
  ℕ, ◌+◌, ◌<◌, ◌≡◌, min, refl, ap, subst, ◌∙◌, true, false, List, [], ◌∷◌, ◌++◌, Option, none, some,
  ltb, ◌==◌, if◌then◌else◌, update, arith, ◌≢◌, length, take,
}
use myos.Base.Int.{ℤ, pos}
use myos.Ring
use myos.Ring.Fifo.{
  contents, IsValid, contents-enqueue, enqueue-IsValid, dequeue-Dequeued, Dequeued,
}
use myos.Net.{
  SockAddr, Msg, Sockets, zeroed, connected, get_socket, enqueue_msg, dequeue_msg, max_sockets,
  max_queue, max_payload, fd_from_index, sock_stream, sock_dgram,
}
use myos.Net.Calls.{net_sendto, net_recvfrom, net_close, message, send_stream, unlink}
use myos.Net.Lookup.{get_socket-fd_from_index, get_socket-none}

-- The socket i is one end of a stream whose other end is the socket j.
pub record Streams (g : Sockets) (i j : ℕ) : Type 0 where
  pub here : i < max_sockets
  pub there : j < max_sockets
  pub used : (g i).in_use ≡ true
  pub peer_used : (g j).in_use ≡ true
  pub stream : (g i).type ≡ sock_stream
  pub state : (g i).state ≡ connected
  pub peer : (g i).peer ≡ some j
  pub queue : IsValid max_queue (g j).queue

-- Whatever is sent over a stream, the status is the number of bytes taken, at most 1500; they go to
-- the end of the other end's queue, as one message with the sender's address, if the queue holds
-- fewer than 15 messages, and are lost without a sign if it holds 15; no other part of the table
-- changes.
pub net_sendto-Streams :
    (g : Sockets) (i j : ℕ) (buf : List ℕ) (len : ℕ) (a : Option SockAddr)
    → Streams g i j
    → let (r, g') = net_sendto (fd_from_index i) (some buf) len a g in
      let old = contents max_queue (g j).queue in
      (r ≡ pos (min len max_payload))
      × (contents max_queue (g' j).queue
          ≡ (if ltb (length old + 1) max_queue then old ++ (message (g i) buf len ∷ []) else old))
      × IsValid max_queue (g' j).queue
      × ((k : ℕ) → k ≢ j → g' k ≡ g k)
      × ((g' j).in_use ≡ true)
unfolding net_sendto send_stream enqueue_msg message
net_sendto-Streams g i j buf len a s =
    let found = get_socket-fd_from_index g i s.here s.used in
    let test : ((g i).type == sock_dgram) ≡ false = ground (arith, s.stream) in
    let test' : ((g i).type == sock_stream) ≡ true = ground (arith, s.stream) in
    let m = message (g i) buf len in
    let grown = contents-enqueue max_queue (g j).queue m s.queue in
    let valid = enqueue-IsValid max_queue (g j).queue m s.queue in
    rw (found, net_sendto)
      (rw (test, test', s.state, s.peer)
        (rw s.peer_used
          (refl, ground (arith, grown), ground (arith, valid), λ k ne. ground arith, ground arith)))

-- A receive takes the oldest message off the queue.
Received :
    (n : ℕ) (m : Msg) (ms : List Msg) (j : ℕ) → ℤ × List ℕ × Option SockAddr × Sockets → Type 0
Received n m ms j (r, bytes, src, g) =
    (r ≡ pos (min n m.len))
    × (bytes ≡ take (min n m.len) m.bytes)
    × (src ≡ some m.src)
    × (contents max_queue (g j).queue ≡ ms)

net_recvfrom-Received :
    (g : Sockets) (j n : ℕ) (m : Msg) (ms : List Msg)
    → j < max_sockets
    → (g j).in_use ≡ true
    → IsValid max_queue (g j).queue
    → contents max_queue (g j).queue ≡ m ∷ ms
    → Received n m ms j (net_recvfrom (fd_from_index j) true n g)
unfolding net_recvfrom dequeue_msg Received
net_recvfrom-Received g j n m ms inside used valid e =
    let (q, d, _, rest) =
      subst (λ xs. Dequeued max_queue (g j).queue xs (Ring.dequeue max_queue (g j).queue)) e
        (dequeue-Dequeued max_queue (g j).queue valid) in
    takes q d rest
  where
    takes :
        (q : Ring.Ring Msg)
        → Ring.dequeue max_queue (g j).queue ≡ some (m, q)
        → contents max_queue q ≡ ms
        → Received n m ms j (net_recvfrom (fd_from_index j) true n g)
    takes q d rest =
        let found = get_socket-fd_from_index g j inside used in
        rw (found, net_recvfrom) (rw d (refl, refl, refl, ground (arith, rest)))

-- What was sent is received: after a send over a stream whose other end has nothing queued, the
-- other end's receive into a buffer of n bytes returns the number of bytes, at most n and at most
-- 1500, the first bytes of what was sent, and the sender's address; the queue is empty again.
pub net_recvfrom-net_sendto :
    (g : Sockets) (i j : ℕ) (buf : List ℕ) (len n : ℕ) (a : Option SockAddr)
    → Streams g i j
    → contents max_queue (g j).queue ≡ []
    → let g' = (net_sendto (fd_from_index i) (some buf) len a g).1 in
      let (r, bytes, src, g'') = net_recvfrom (fd_from_index j) true n g' in
      (r ≡ pos (min n (min len max_payload)))
      × (bytes ≡ take (min n (min len max_payload)) (take (min len max_payload) buf))
      × (src ≡ some (g i).local)
      × (contents max_queue (g'' j).queue ≡ [])
unfolding message Received
net_recvfrom-net_sendto g i j buf len n a s idle =
    let (_, grown, valid, _, used) = net_sendto-Streams g i j buf len a s in
    let m = message (g i) buf len in
    net_recvfrom-Received (net_sendto (fd_from_index i) (some buf) len a g).1 j n m [] s.there used
      valid
      (grown ∙ ap (λ old. if ltb (length old + 1) max_queue then old ++ (m ∷ []) else old) idle)

unlink_other : (o : Option ℕ) (g : Sockets) (k : ℕ) → o ≢ some k → unlink o g k ≡ g k
unfolding unlink
unlink_other none g k ne = refl
unlink_other (some j) g k ne = ground (arith, λ (e : j ≡ k). ne (ap some e))

unlink_peer :
    (g : Sockets) (j : ℕ) → j < max_sockets → unlink (some j) g j ≡ record (g j) { peer = none }
unfolding unlink
unlink_peer g j h = ground arith

-- Closing a socket frees its descriptor, and its peer, if that is another socket, forgets it; every
-- other socket stays.
pub net_close_lem :
    (g : Sockets) (i : ℕ)
    → i < max_sockets
    → (g i).in_use ≡ true
    → let (r, g') = net_close (fd_from_index i) g in
      (r ≡ pos 0)
      × (get_socket (fd_from_index i) g' ≡ none)
      × ((j : ℕ)
          → (g i).peer ≡ some j
          → j < max_sockets
          → j ≢ i
          → g' j ≡ record (g j) { peer = none })
      × ((k : ℕ) → k ≢ i → (g i).peer ≢ some k → g' k ≡ g k)
unfolding net_close
net_close_lem g i inside used =
    let found = get_socket-fd_from_index g i inside used in
    let t = unlink (g i).peer g in
    let closed : (update t i zeroed i).in_use ≡ false = ground arith in
    rw (found, net_close)
      (
        refl,
        get_socket-none (update t i zeroed) i closed,
        λ j e h ne. ground (arith, ap (λ o. unlink o g j) e, unlink_peer g j h),
        λ k ne np. ground (arith, unlink_other (g i).peer g k np),
      )
