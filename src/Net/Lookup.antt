-- ===== src/Net/Lookup.antt =====
-- The lookups of src/net.c: descriptors, searches through the table, and the new socket.
use myos.Base.{
  ℕ, zero, suc, ◌<◌, ◌≡◌, refl, Bool, true, false, not, Option, none, some, update, arith,
}
use myos.Base.Search.{first_from, First, first_from-First}
use myos.Base.Int.{ℤ, pos, negsuc}
use myos.Net.{Sockets, zeroed, get_socket, index_from_fd, fd_from_index, alloc_socket, max_sockets}

-- A descriptor reaches a socket in use, inside the table.
pub get_socket-in_use :
    (fd : ℤ) (g : Sockets) (i : ℕ)
    → get_socket fd g ≡ some i
    → ((g i).in_use ≡ true) × (i < max_sockets) × (fd ≡ fd_from_index i)
unfolding get_socket index_from_fd
get_socket-in_use (negsuc n) g i e = cc
get_socket-in_use (pos zero) g i e = cc
get_socket-in_use (pos (suc k)) g i e = ground arith

pub get_socket-fd_from_index :
    (g : Sockets) (i : ℕ)
    → i < max_sockets
    → (g i).in_use ≡ true
    → get_socket (fd_from_index i) g ≡ some i
unfolding get_socket index_from_fd
get_socket-fd_from_index g i h u = ground arith

pub get_socket-none :
    (g : Sockets) (i : ℕ) → (g i).in_use ≡ false → get_socket (fd_from_index i) g ≡ none
unfolding get_socket index_from_fd
get_socket-none g i u = ground arith

-- The new socket takes the first free place, and there is none only where every place is taken.
pub record Fresh (g : Sockets) (v : ℕ) (g' : Sockets) : Type 0 where
  pub inside : v < max_sockets
  pub was_free : (g v).in_use ≡ false
  pub first : (k : ℕ) → k < v → (g k).in_use ≡ true
  pub table : g' ≡ update g v (record zeroed { in_use = true; peer = none })

abbrev pub Allocation : Sockets → Option (ℕ × Sockets) → Type 0
Allocation g none = (k : ℕ) → k < max_sockets → (g k).in_use ≡ true
Allocation g (some (v, g')) = Fresh g v g'

not-false : (b : Bool) → not b ≡ false → b ≡ true
not-false b h = ground arith

alloc_at :
    (g : Sockets) (o : Option ℕ)
    → First (λ i. not (g i).in_use) 0 max_sockets o
    → Allocation g (elim o [
      | none ↦ none
      | some i ↦ some (i, update g i (record zeroed { in_use = true; peer = none }))
    ])
alloc_at g none f = λ k h. not-false (g k).in_use (f k (omega arith) h)
alloc_at g (some i) (hit, _, inside, rest) = record {
  inside = inside;
  was_free = ground (arith, hit);
  first = λ k h. not-false (g k).in_use (rest k (omega arith) h);
  table = refl;
}

pub alloc_socket-Allocation : (g : Sockets) → Allocation g (alloc_socket g)
unfolding alloc_socket
alloc_socket-Allocation g =
    alloc_at g (first_from (λ i. not (g i).in_use) max_sockets 0)
      (first_from-First (λ i. not (g i).in_use) max_sockets 0 max_sockets (omega arith))
