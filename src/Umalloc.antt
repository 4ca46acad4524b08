-- ===== src/Umalloc.antt =====
-- user/malloc.c: the heap of a user program. Its blocks are those of the kernel's heap in another struct, and
-- its search, its release and its merging go along the list in the same way; the memory comes from the
-- program break. Whether the kernel grants a break is an argument of the call; end_ is the end of the
-- program's image.
pub mod Tiles
pub mod Frees
mod Tests
use myos.Base.{
  ℕ, ◌+◌, ◌-◌, ◌%◌, Bool, true, false, Option, none, some, List, [], ◌∷◌, ◌++◌, ◌==◌, if◌then◌else◌,
}
use myos.Base.Align.{u64_mod, align_up_u64}
use myos.Kmalloc.{Block, header, take_block, set_free, merge_free_blocks}

pub record UserHeap : Type 0 where
  pub blocks : List Block
  pub program_break : ℕ

-- The break at the first call: where the image ends.
abbrev pub started : ℕ → UserHeap → UserHeap
started end_ h = if h.program_break == 0 then record h { program_break = end_ } else h

abbrev pub moved_break : (ℕ → Bool) → ℕ → UserHeap → Option ℕ × UserHeap
moved_break grants inc h =
    let to = (h.program_break + inc) % u64_mod in
    if grants to then (some h.program_break, record h { program_break = to }) else (none, h)

-- The old break, none for the result -1.
unfoldable pub sbrk : (ℕ → Bool) → ℕ → ℕ → UserHeap → Option ℕ × UserHeap
sbrk grants end_ inc h = moved_break grants inc (started end_ h)

-- The bytes that a new block takes, its header included.
abbrev pub total_for : ℕ → ℕ
total_for size = align_up_u64 ((header + size) % u64_mod) 16

abbrev pub new_block : ℕ → ℕ → Block
new_block addr total = record { addr = addr; size = total - header; free = false }

abbrev pub append_block : ℕ → Option ℕ × UserHeap → Option ℕ × UserHeap
append_block total (none, h) = (none, h)
append_block total (some addr, h) =
    (some addr, record h { blocks = h.blocks ++ (new_block addr total ∷ []) })

-- The address of the new block.
unfoldable pub request_space : (ℕ → Bool) → ℕ → ℕ → UserHeap → Option ℕ × UserHeap
request_space grants end_ size h =
    append_block (total_for size) (sbrk grants end_ (total_for size) h)

-- `find_block`, with the assignment to the block that it finds.
abbrev pub find_block : ℕ → List Block → Option (ℕ × List Block)
find_block size bs = take_block size bs

abbrev pub behind_header : Option ℕ × UserHeap → ℕ × UserHeap
behind_header (none, h) = (0, h)
behind_header (some addr, h) = (addr + header, h)

abbrev pub give : (ℕ → Bool) → ℕ → ℕ → Option (ℕ × List Block) → UserHeap → ℕ × UserHeap
give grants end_ size (some (addr, bs)) h = (addr + header, record h { blocks = bs })
give grants end_ size none h = behind_header (request_space grants end_ size h)

-- The pointer, 0 for failure.
unfoldable pub malloc : (ℕ → Bool) → ℕ → ℕ → UserHeap → ℕ × UserHeap
malloc grants end_ size h =
    let rounded = align_up_u64 size 16 in
    if size == 0 then (0, h) else give grants end_ rounded (find_block rounded h.blocks) h

abbrev pub merge : List Block → List Block
merge bs = merge_free_blocks bs

unfoldable pub free : ℕ → UserHeap → UserHeap
free ptr h = if ptr == 0 then h else record h { blocks = merge (set_free (ptr - header) h.blocks) }
