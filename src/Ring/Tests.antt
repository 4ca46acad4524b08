-- ===== src/Ring/Tests.antt =====
-- Runs of the ring queue.
use myos.Base.{◌+◌, ℕ, ◌≡◌, refl, none, some, List, [], ◌∷◌, arith}
use myos.Ring.{Ring, enqueue, dequeue, Op, put, get, run}
use myos.Ring.Fifo.{contents, run_spec, run-run_spec}

-- One entry, in the last of four slots.
abbrev wrapped : Ring ℕ
wrapped = record { slots = λ i. i + 10; head = 0; tail = 3 }

abbrev history : List (Op ℕ)
history = put 1 ∷ put 2 ∷ put 3 ∷ get ∷ get ∷ get ∷ get ∷ []

wraps : run 4 wrapped history ≡ some 13 ∷ some 1 ∷ some 2 ∷ none ∷ []
unfolding run enqueue dequeue
wraps = refl

run-run_spec_example : run 4 wrapped history ≡ run_spec 4 (contents 4 wrapped) history
run-run_spec_example = run-run_spec 4 history wrapped (omega arith)
