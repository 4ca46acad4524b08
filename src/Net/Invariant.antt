-- ===== src/Net/Invariant.antt =====
-- What every history of socket calls of src/net.c keeps: queue indices and peers stay in range, so
-- no access of a queue or of a peer leaves its array.
use myos.Base.{
  ℕ, ◌<◌, ◌≡◌, sym, subst, true, Option, none, some, ◌==◌, update, arith, Bool-cases, Option-cases,
  inl, inr,
}
use myos.Base.Int.{ℤ}
use myos.Ring
use myos.Ring.{Ring}
use myos.Ring.Fifo.{IsValid, enqueue-IsValid}
use myos.Net.{
  Msg, Sockets, Socket, zeroed, alloc_socket, enqueue_msg, dequeue_msg, enqueue_pending,
  dequeue_pending, max_sockets, max_queue,
}
use myos.Net.Lookup.{alloc_socket-Allocation, Allocation}

abbrev pub PeerInside : Option ℕ → Type 0
PeerInside none = Unit {0}
PeerInside (some j) = j < max_sockets

pub record SocketIsWf (s : Socket) : Type 0 where
  pub queue : IsValid max_queue s.queue
  pub pending : IsValid max_queue s.pending
  pub peer : PeerInside s.peer

pub IsWf : Sockets → Type 0
IsWf g = (i : ℕ) → SocketIsWf (g i)

pub zeroed-IsWf : SocketIsWf zeroed
unfolding Ring.empty
zeroed-IsWf = record { queue = omega arith; pending = omega arith; peer = omega arith }

-- The table of `net_init`.
pub start-IsWf : IsWf (λ _. zeroed)
unfolding IsWf
start-IsWf i = zeroed-IsWf

pub update-IsWf : (g : Sockets) (i : ℕ) (s : Socket) → IsWf g → SocketIsWf s → IsWf (update g i s)
unfolding IsWf
update-IsWf g i s w v j = elim (Bool-cases (j == i)) [ inl e ↦ rw e v | inr e ↦ rw e (w j) ]

dequeue-IsValid :
    {A : Type 0} (r : Ring A) (x : A) (r' : Ring A)
    → IsValid max_queue r
    → Ring.dequeue max_queue r ≡ some (x, r')
    → IsValid max_queue r'
unfolding Ring.dequeue
dequeue-IsValid r x r' v e = ground arith

pub at : (g : Sockets) (i : ℕ) → IsWf g → SocketIsWf (g i)
unfolding IsWf
at g i w = w i

-- A change of fields other than the queues and the peer.
pub update-IsWf_same :
    (g : Sockets) (i j : ℕ) (s : Socket)
    → IsWf g
    → s.queue ≡ (g j).queue
    → s.pending ≡ (g j).pending
    → s.peer ≡ (g j).peer
    → IsWf (update g i s)
update-IsWf_same g i j s w q p e =
    let v = at g j w in
    update-IsWf g i s w (record {
      queue = subst (IsValid max_queue) (sym q) v.queue;
      pending = subst (IsValid max_queue) (sym p) v.pending;
      peer = subst PeerInside (sym e) v.peer;
    })

pub enqueue_msg-IsWf : (s : Socket) (m : Msg) → SocketIsWf s → SocketIsWf (enqueue_msg s m)
unfolding enqueue_msg
enqueue_msg-IsWf s m v = record {
  queue = enqueue-IsValid max_queue s.queue m v.queue;
  pending = v.pending;
  peer = v.peer;
}

pub enqueue_pending-IsWf : (s : Socket) (fd : ℤ) → SocketIsWf s → SocketIsWf (enqueue_pending s fd)
unfolding enqueue_pending
enqueue_pending-IsWf s fd v = record {
  queue = v.queue;
  pending = enqueue-IsValid max_queue s.pending fd v.pending;
  peer = v.peer;
}

pub dequeue_msg-IsWf :
    (s t : Socket) (m : Msg) → SocketIsWf s → dequeue_msg s ≡ some (m, t) → SocketIsWf t
unfolding dequeue_msg
dequeue_msg-IsWf s t m v e = elim (Option-cases (Ring.dequeue max_queue s.queue)) [
  | inl d ↦ ground (arith, d)
  | inr ((x, q), d) ↦
      let valid = dequeue-IsValid s.queue x q v.queue d in ground (arith, d, valid, v)
]

pub dequeue_pending-IsWf :
    (s t : Socket) (fd : ℤ) → SocketIsWf s → dequeue_pending s ≡ some (fd, t) → SocketIsWf t
unfolding dequeue_pending
dequeue_pending-IsWf s t fd v e = elim (Option-cases (Ring.dequeue max_queue s.pending)) [
  | inl d ↦ ground (arith, d)
  | inr ((x, q), d) ↦
      let valid = dequeue-IsValid s.pending x q v.pending d in ground (arith, d, valid, v)
]

pub alloc-IsWf :
    (g : Sockets) (v : ℕ) (g' : Sockets)
    → IsWf g
    → alloc_socket g ≡ some (v, g')
    → IsWf g' × (v < max_sockets)
alloc-IsWf g v g' w e =
    let fresh = subst (Allocation g) e (alloc_socket-Allocation g) in
    (rw fresh.table (update-IsWf g v _ w fresh_IsWf), fresh.inside)
  where
    fresh_IsWf : SocketIsWf (record zeroed { in_use = true; peer = none })
    fresh_IsWf = record { queue = zeroed-IsWf.queue; pending = zeroed-IsWf.pending; peer = tt }
