-- ===== src/Net.antt =====
-- src/net.c: the loopback sockets. The table of sockets is a store over indices; a socket is
-- reached through a descriptor, which is its index plus one. A pointer argument that may be null is
-- an option, and a buffer is the list of its bytes. An int that is only compared with a constant
-- (domain, type) is its bit pattern, a number; a descriptor or a status is an integer.
pub mod Calls
pub mod Lookup
pub mod Invariant
pub mod Steps
pub mod Deliver
pub mod Link
pub mod Tables
pub mod Routes
mod Tests
use myos.Base.{
  ℕ, zero, suc, ◌+◌, ◌-◌, ◌<◌, Bool, true, false, not, ◌&&◌, ◌||◌, Option, none, some, List, [],
  ◌∷◌, ltb, leb, ◌==◌, if◌then◌else◌, update, take,
}
use myos.Base.Search.{first_from}
use myos.Base.Int.{ℤ, pos, negsuc, minus_one}
use myos.Ring
use myos.Ring.{Ring}

abbrev pub max_sockets : ℕ
max_sockets = 32

abbrev pub max_queue : ℕ
max_queue = 16

abbrev pub max_payload : ℕ
max_payload = 1500

abbrev pub af_inet : ℕ
af_inet = 2

abbrev pub sock_stream : ℕ
sock_stream = 1

abbrev pub sock_dgram : ℕ
sock_dgram = 2

pub data State : Type 0 where
  free bound listen connected : State

pub record SockAddr : Type 0 where
  pub addr : ℕ
  pub port : ℕ

-- The payload's bytes beyond `len` are never read.
pub record Msg : Type 0 where
  pub len : ℕ
  pub bytes : List ℕ
  pub src : SockAddr

-- `peer` is `none` for -1.
pub record Socket : Type 0 where
  pub in_use : Bool
  pub type : ℕ
  pub state : State
  pub local : SockAddr
  pub remote : SockAddr
  pub peer : Option ℕ
  pub owner_pid : ℤ
  pub queue : Ring Msg
  pub pending : Ring ℤ

abbrev pub zero_addr : SockAddr
zero_addr = record { addr = 0; port = 0 }

-- A socket of zero bytes.
abbrev pub zeroed : Socket
zeroed = record {
  in_use = false;
  type = 0;
  state = free;
  local = zero_addr;
  remote = zero_addr;
  peer = some 0;
  owner_pid = pos 0;
  queue = Ring.empty (record { len = 0; bytes = []; src = zero_addr });
  pending = Ring.empty (pos 0);
}

abbrev pub Sockets : Type 0
Sockets = ℕ → Socket

abbrev pub is_listen : State → Bool
is_listen listen = true
is_listen _ = false

abbrev pub is_connected : State → Bool
is_connected connected = true
is_connected _ = false

-- The index behind a descriptor, if it is one of the table.
pub index_from_fd : ℤ → Option ℕ
index_from_fd (negsuc n) = none
index_from_fd (pos zero) = none
index_from_fd (pos (suc i)) = if ltb i max_sockets then some i else none

abbrev pub fd_from_index : ℕ → ℤ
fd_from_index i = pos (suc i)

-- `get_socket`: the index of the socket in use.
unfoldable pub get_socket : ℤ → Sockets → Option ℕ
unfolding index_from_fd
get_socket fd g = elim (index_from_fd fd) [
  | none ↦ none
  | some i ↦ if (g i).in_use then some i else none
]

-- `alloc_socket` gives the index of the new socket.
unfoldable pub alloc_socket : Sockets → Option (ℕ × Sockets)
unfolding first_from
alloc_socket g = elim (first_from (λ i. not (g i).in_use) max_sockets 0) [
  | none ↦ none
  | some i ↦ some (i, update g i (record zeroed { in_use = true; peer = none }))
]

pub enqueue_msg : Socket → Msg → Socket
enqueue_msg s m = record s { queue = Ring.enqueue max_queue s.queue m }

unfoldable pub dequeue_msg : Socket → Option (Msg × Socket)
dequeue_msg s = elim (Ring.dequeue max_queue s.queue) [
  | none ↦ none
  | some (m, q) ↦ some (m, record s { queue = q })
]

pub enqueue_pending : Socket → ℤ → Socket
enqueue_pending s fd = record s { pending = Ring.enqueue max_queue s.pending fd }

pub dequeue_pending : Socket → Option (ℤ × Socket)
dequeue_pending s = elim (Ring.dequeue max_queue s.pending) [
  | none ↦ none
  | some (fd, q) ↦ some (fd, record s { pending = q })
]
