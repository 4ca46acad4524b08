-- ===== src/Umalloc/Tests.antt =====
-- Runs of a user program's heap, and the theorems at concrete states.
use myos.Base.{ℕ, ◌≡◌, refl, Bool, true, false, [], ◌∷◌, ltb, arith, inl, inr}
use myos.Base.Align.{align_up_u64}
use myos.Kmalloc.{take_block, set_free, merge_from}
use myos.Umalloc.{UserHeap, sbrk, request_space, malloc, free}
use myos.Umalloc.Tiles.{IsTiled, Gets, malloc-Gets}
use myos.Umalloc.Frees.{Frees, free-Frees}

abbrev grants : ℕ → Bool
grants a = ltb a 0x9000

abbrev fresh : UserHeap
fresh = record { blocks = []; program_break = 0 }

-- Two blocks of 40 bytes, both in use.
abbrev two : UserHeap
two = record {
  blocks =
      record { addr = 0x8000; size = 40; free = false }
      ∷ record { addr = 0x8040; size = 40; free = false }
      ∷ [];
  program_break = 0x8080;
}

first : (malloc grants 0x8000 30 fresh).0 ≡ 0x8018
unfolding malloc request_space sbrk take_block align_up_u64
first = refl

refused : (malloc grants 0x8000 5000 fresh).0 ≡ 0
unfolding malloc request_space sbrk take_block align_up_u64
refused = refl

both_freed :
    (free 0x8018 (free 0x8058 two)).blocks ≡ record { addr = 0x8000; size = 104; free = true } ∷ []
unfolding free set_free merge_from
both_freed = refl

two-IsTiled : IsTiled 0x8000 two
two-IsTiled = inr (omega arith, omega arith, (refl, (refl, refl)))

malloc-Gets_example : Gets grants 0x8000 30 two (malloc grants 0x8000 30 two)
malloc-Gets_example =
    malloc-Gets grants 0x8000 30 two (omega arith) (omega arith) (λ a e. ground (arith, e))
      (omega arith) (omega arith) two-IsTiled

free-Frees_example : Frees 0x8000 0x8018 two (free 0x8018 two)
free-Frees_example = free-Frees 0x8000 0x8018 two two-IsTiled (inl (refl, refl))
