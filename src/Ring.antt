-- ===== src/Ring.antt =====
-- The circular queue that src/net.c (messages, pending connections) and src/input.c (key and mouse
-- events) each write out: an array of `cap` slots, the index of the next free slot and that of the
-- oldest entry. One slot stays empty, and an entry that does not fit is dropped. Indices are below
-- `cap`, so `+ 1` does not wrap.
pub mod Fifo
mod Tests
use myos.Base.{
  ℕ, zero, suc, ◌+◌, ◌-◌, ◌%◌, ◌<◌, Option, none, some, List, [], ◌∷◌, ◌==◌, if◌then◌else◌, update,
}

pub record Ring {ℓ} (A : Type ℓ) : Type ℓ where
  pub slots : ℕ → A
  pub head : ℕ
  pub tail : ℕ

-- Zeroed memory.
unfoldable pub empty {ℓ} : {A : Type ℓ} → A → Ring A
empty z = record { slots = λ _. z; head = 0; tail = 0 }

module _ {ℓ} {A : Type ℓ} (cap : ℕ) where
  unfoldable pub enqueue : Ring A → A → Ring A
  enqueue r x =
      if (r.head + 1) % cap == r.tail
      then r
      else record r { slots = update r.slots r.head x; head = (r.head + 1) % cap }

  unfoldable pub dequeue : Ring A → Option (A × Ring A)
  dequeue r =
      if r.tail == r.head
      then none
      else some (r.slots r.tail, record r { tail = (r.tail + 1) % cap })

-- A call of a client.
pub data Op {ℓ} (A : Type ℓ) : Type ℓ where
  put : A → Op A
  get : Op A

-- What the gets of a history return.
module _ {ℓ} {A : Type ℓ} (cap : ℕ) where
  unfoldable pub run : Ring A → List (Op A) → List (Option A)
  run r [] = []
  run r (put x ∷ ops) = run (enqueue cap r x) ops
  run r (get ∷ ops) = elim (dequeue cap r) [
    | none ↦ none ∷ run r ops
    | some (x, r') ↦ some x ∷ run r' ops
  ]
