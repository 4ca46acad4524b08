-- ===== src/Memfs/Tests.antt =====
-- Runs of a file in memory, and the theorems at a concrete file.
use myos.Base.{◌≡◌, refl, true, some, [], ◌∷◌, ◌==◌, if◌then◌else◌, arith}
use myos.Base.Align.{align_up_u64}
use myos.Kmalloc.{Heap, kmalloc, take_block}
use myos.Memfs.{MemFile, Node, file, read, write, slice, double_cap}
use myos.Memfs.Bytes.{IsWf, Written, write_lem}

abbrev heap : Heap
heap = record {
  pmm = record {
    bitmap = λ i. if i == 0 then 1 else 255;
    free_pages_cnt = 7;
    total_pages_cnt = 8;
    ready = true;
  };
  blocks = record { addr = 0x10_0000; size = 4072; free = true } ∷ [];
}

-- A new file.
abbrev empty : MemFile
empty = record { data_ptr = 0; bytes = λ _. 0; size = 0; cap = 0 }

abbrev node : Node
node = record { type = file; contents = some empty; size = 0 }

empty-IsWf : IsWf empty
empty-IsWf = record { inside = omega arith; word = omega arith; empty = λ _. refl }

-- Bytes between the old end and the offset are what memory held.
hole : read 0 4 (write (λ _. 99) 2 (5 ∷ 6 ∷ []) node heap).1 ≡ some (99 ∷ 99 ∷ 5 ∷ 6 ∷ [])
unfolding read write slice double_cap kmalloc take_block align_up_u64
hole = refl

write_lem_example :
    Written 2 (5 ∷ 6 ∷ []) empty node heap (write (λ _. 99) 2 (5 ∷ 6 ∷ []) node heap)
write_lem_example =
    write_lem (λ _. 99) 2 (5 ∷ 6 ∷ []) empty node heap refl refl empty-IsWf (omega arith)
