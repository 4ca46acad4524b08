-- ===== src/Net/Link.antt =====
-- `net_connect` and `net_accept`: a connection has two ends that name each other.
use myos.Base.{
  Option, ℕ, ◌+◌, ◌<◌, ◌≡◌, refl, sym, ap, subst, Bool, not, false, ◌∙◌, true, false, ◌&&◌, List,
  [], ◌∷◌, ◌++◌, none, some, ◌==◌, if◌then◌else◌, update, arith, Bool-cases, inl, inr, ◌⊎◌, ◌≢◌,
  length, lt→ltb,
}
use myos.Base.Search.{first_from, first_from_unique}
use myos.Base.Int.{ℤ, pos}
use myos.Ring
use myos.Ring.Fifo.{contents, IsValid, contents-enqueue, dequeue-Dequeued, Dequeued}
use myos.Net.{
  SockAddr, State, Sockets, Socket, zeroed, connected, listen, is_listen, alloc_socket,
  enqueue_pending, dequeue_pending, max_sockets, max_queue, fd_from_index, sock_stream,
}
use myos.Net.Calls.{net_connect, net_accept, accepted, find_listener, link_sockets}
use myos.Net.Lookup.{get_socket-fd_from_index}
use myos.Net.Invariant.{zeroed-IsWf}
use myos.Net.Deliver.{Streams}

-- A socket that listens on a port.
abbrev pub ListensOn : ℕ → Socket → Type 0
ListensOn port s = (s.in_use ≡ true) × (s.state ≡ listen) × (s.local.port ≡ port)

abbrev accepts : ℕ → Socket → Bool
accepts port s = s.in_use && is_listen s.state && (s.local.port == port)

accepts-ListensOn : (port : ℕ) (s : Socket) → accepts port s ≡ true → ListensOn port s
accepts-ListensOn port s e =
    (ground (arith, e), listening s.state (ground (arith, e)), ground (arith, e))
  where
    listening : (x : State) → is_listen x ≡ true → x ≡ listen
    listening x h = ground arith

ListensOn-accepts : (port : ℕ) (s : Socket) → ListensOn port s → accepts port s ≡ true
ListensOn-accepts port s (u, e, p) = rw (u, e) (ground (arith, p))

-- The search finds the first socket that listens on the port.
find_listener_lem :
    (port : ℕ) (g : Sockets) (l : ℕ)
    → l < max_sockets
    → ListensOn port (g l)
    → ((k : ℕ) → k < l → ¬ ListensOn port (g k))
    → find_listener port g ≡ some l
unfolding find_listener
find_listener_lem port g l inside here first =
    first_from_unique (λ i. accepts port (g i)) max_sockets l inside
      (ListensOn-accepts port (g l) here) λ k h. missed k h (Bool-cases (accepts port (g k)))
  where
    missed :
        (k : ℕ)
        → k < l
        → ((accepts port (g k) ≡ true) ⊎ (accepts port (g k) ≡ false))
        → accepts port (g k) ≡ false
    missed k h (inl e) = absurd (first k h (accepts-ListensOn port (g k) e))
    missed k h (inr e) = e

-- The new socket is at the first free place.
alloc_socket_lem :
    (g : Sockets) (v : ℕ)
    → v < max_sockets
    → (g v).in_use ≡ false
    → ((k : ℕ) → k < v → (g k).in_use ≡ true)
    → alloc_socket g ≡ some (v, update g v (record zeroed { in_use = true; peer = none }))
unfolding alloc_socket
alloc_socket_lem g v inside vacant taken =
    let found : first_from (λ i. not (g i).in_use) max_sockets 0 ≡ some v =
      first_from_unique (λ i. not (g i).in_use) max_sockets v inside (ap not vacant)
        λ k h. ap not (taken k h) in
    ap
      (λ o. elim o as (λ x. Option (ℕ × Sockets)) [
        | none ↦ none
        | some i ↦ some (i, update g i (record zeroed { in_use = true; peer = none }))
      ])
      found

-- The sockets after `link_sockets`, one by one.
module _ (g : Sockets) (c l v : ℕ) (a : SockAddr) (s₀ : Socket) (cl : c ≢ l) (cv : c ≢ v)
    (lv : l ≢ v) where
  linked : Sockets
  linked = link_sockets c l v a (update g v s₀)

  linked-client : linked c ≡ record (g c) { remote = a; state = connected; peer = some v }
  unfolding linked link_sockets
  linked-client = ground arith

  linked-server : linked v ≡ record s₀ {
    type = sock_stream;
    state = connected;
    local = (g l).local;
    remote = (g c).local;
    peer = some c;
    owner_pid = (g l).owner_pid;
  }
  unfolding linked link_sockets
  linked-server = ground arith

  linked-listener : linked l ≡ enqueue_pending (g l) (fd_from_index v)
  unfolding linked link_sockets
  linked-listener = ground arith

  linked-other : (k : ℕ) → k ≢ c → k ≢ l → k ≢ v → linked k ≡ g k
  unfolding linked link_sockets
  linked-other k kc kl kv = ground arith

-- What a connection needs: a stream socket c; l, the first socket that listens on the port, another than
-- c, with room for one more pending connection; and v, the first free place of the table.
pub record CanConnect (g : Sockets) (c l v : ℕ) (a : SockAddr) : Type 0 where
  pub inside : c < max_sockets
  pub used : (g c).in_use ≡ true
  pub stream : (g c).type ≡ sock_stream
  pub server : l < max_sockets
  pub listens : ListensOn a.port (g l)
  pub first : (k : ℕ) → k < l → ¬ ListensOn a.port (g k)
  pub other : c ≢ l
  pub place : v < max_sockets
  pub vacant : (g v).in_use ≡ false
  pub taken : (k : ℕ) → k < v → (g k).in_use ≡ true
  pub queue : IsValid max_queue (g c).queue
  pub pending : IsValid max_queue (g l).pending
  pub room : length (contents max_queue (g l).pending) + 1 < max_queue

module _ (g : Sockets) (c l v : ℕ) (a : SockAddr) (h : CanConnect g c l v a) where
  used-ne : (k : ℕ) → (g k).in_use ≡ true → k ≢ v
  used-ne k u e = ground (arith, h.vacant, ap (λ i. (g i).in_use) e)

  cv : c ≢ v
  cv = used-ne c h.used

  lv : l ≢ v
  lv = used-ne l h.listens.0

  abbrev blank : Socket
  blank = record zeroed { in_use = true; peer = none }

  abbrev result : Sockets
  result = linked g c l v a blank h.other cv lv

  at_c : result c ≡ record (g c) { remote = a; state = connected; peer = some v }
  at_c = linked-client g c l v a blank h.other cv lv

  at_v : result v ≡ record blank {
    type = sock_stream;
    state = connected;
    local = (g l).local;
    remote = (g c).local;
    peer = some c;
    owner_pid = (g l).owner_pid;
  }
  at_v = linked-server g c l v a blank h.other cv lv

  client-Streams : Streams result c v
  client-Streams = record {
    here = h.inside;
    there = h.place;
    used = ap (λ s. s.in_use) at_c ∙ h.used;
    peer_used = ap (λ s. s.in_use) at_v;
    stream = ap (λ s. s.type) at_c ∙ h.stream;
    state = ap (λ s. s.state) at_c;
    peer = ap (λ s. s.peer) at_c;
    queue = subst (λ s. IsValid max_queue s.queue) (sym at_v) zeroed-IsWf.queue;
  }

  server-Streams : Streams result v c
  server-Streams = record {
    here = h.place;
    there = h.inside;
    used = ap (λ s. s.in_use) at_v;
    peer_used = ap (λ s. s.in_use) at_c ∙ h.used;
    stream = ap (λ s. s.type) at_v;
    state = ap (λ s. s.state) at_v;
    peer = ap (λ s. s.peer) at_v;
    queue = subst (λ s. IsValid max_queue s.queue) (sym at_c) h.queue;
  }

  pends :
      contents max_queue (result l).pending
      ≡ contents max_queue (g l).pending ++ (fd_from_index v ∷ [])
  unfolding enqueue_pending
  pends =
      ap (λ s. contents max_queue s.pending) (linked-listener g c l v a blank h.other cv lv)
      ∙ (contents-enqueue max_queue (g l).pending (fd_from_index v) h.pending
          ∙ ap
              (λ b.
                if b
                then contents max_queue (g l).pending ++ (fd_from_index v ∷ [])
                else contents max_queue (g l).pending)
              (lt→ltb _ _ h.room))

  -- Where a stream socket connects to an address, l is the first socket that listens on the port and has
  -- room for one more pending connection, and v is the first free place (`CanConnect`), `net_connect`
  -- succeeds; the socket of the caller and the new socket v are the two ends of a stream, each the
  -- other's peer; the new socket's descriptor is the last of the pending connections of l; and no
  -- other socket changes.
  pub net_connect_lem :
      let (r, g') = net_connect (fd_from_index c) (some a) g in
      (r ≡ pos 0)
      × Streams g' c v
      × Streams g' v c
      × ((g' c).remote ≡ a)
      × ((g' v).remote ≡ (g c).local)
      × (contents max_queue (g' l).pending
          ≡ contents max_queue (g l).pending ++ (fd_from_index v ∷ []))
      × ((k : ℕ) → k ≢ c → k ≢ l → k ≢ v → g' k ≡ g k)
  unfolding net_connect linked
  net_connect_lem =
      let found = get_socket-fd_from_index g c h.inside h.used in
      rw (found, net_connect)
        (rw
          (
            h.stream,
            find_listener_lem a.port g l h.server h.listens h.first,
            alloc_socket_lem g v h.place h.vacant h.taken,
          )
          (
            refl,
            client-Streams,
            server-Streams,
            ap (λ s. s.remote) at_c,
            ap (λ s. s.remote) at_v,
            pends,
            linked-other g c l v a blank h.other cv lv,
          ))

-- `net_accept` on a listening socket with pending connections takes the oldest descriptor off the
-- queue and returns it, with the address of its other end where it is still in use.
pub net_accept_lem :
    (g : Sockets) (l v : ℕ) (fds : List ℤ)
    → l < max_sockets
    → (g l).in_use ≡ true
    → (g l).state ≡ listen
    → IsValid max_queue (g l).pending
    → contents max_queue (g l).pending ≡ fd_from_index v ∷ fds
    → v < max_sockets
    → (g v).in_use ≡ true
    → let (r, addr, g') = net_accept (fd_from_index l) g in
      (r ≡ fd_from_index v)
      × (addr ≡ some (g v).remote)
      × (contents max_queue (g' l).pending ≡ fds)
      × ((k : ℕ) → k ≢ l → g' k ≡ g k)
unfolding net_accept accepted dequeue_pending
net_accept_lem g l v fds inside used state valid e vi vu =
    let (q, d, _, rest) =
      subst (λ xs. Dequeued max_queue (g l).pending xs (Ring.dequeue max_queue (g l).pending)) e
        (dequeue-Dequeued max_queue (g l).pending valid) in
    takes q d rest
  where
    same_remote :
        (q : Ring.Ring ℤ)
        → ((v == l) ≡ true) ⊎ ((v == l) ≡ false)
        → (update g l (record (g l) { pending = q }) v).remote ≡ (g v).remote
    same_remote q (inl e) = let e' : l ≡ v = ground arith in rw e (ap (λ k. (g k).remote) e')
    same_remote q (inr e) = rw e

    takes :
        (q : Ring.Ring ℤ)
        → Ring.dequeue max_queue (g l).pending ≡ some (fd_from_index v, q)
        → contents max_queue q ≡ fds
        → let (r, addr, g') = net_accept (fd_from_index l) g in
          (r ≡ fd_from_index v)
          × (addr ≡ some (g v).remote)
          × (contents max_queue (g' l).pending ≡ fds)
          × ((k : ℕ) → k ≢ l → g' k ≡ g k)
    takes q d rest =
        let found = get_socket-fd_from_index g l inside used in
        let g' = update g l (record (g l) { pending = q }) in
        let still : (g' v).in_use ≡ true = ground (arith, used, ap (λ i. (g i).in_use)) in
        let child = get_socket-fd_from_index g' v vi still in
        let remote : (g' v).remote ≡ (g v).remote = same_remote q (Bool-cases (v == l)) in
        rw (found, net_accept)
          (rw (state, d)
            (rw (child, accepted)
              (refl, ap some remote, ground (arith, rest), λ k ne. ground arith)))
