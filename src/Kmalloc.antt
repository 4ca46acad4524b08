-- ===== src/Kmalloc.antt =====
-- src/kmalloc.c: the kernel's heap. The chain of blocks from g_heap to g_last is a list, a pointer to
-- a block is its address, and its header takes 24 bytes. The loop of merge_free_blocks goes along the
-- list with the current block in its hand.
pub mod Find
pub mod Merge
pub mod Live
pub mod Fresh
pub mod Release
mod Tests
use myos.Base.{
  ℕ, zero, suc, ◌+◌, ◌-◌, ◌*◌, ◌/◌, ◌%◌, Bool, true, false, ◌&&◌, Option, none, some, List, [], ◌∷◌,
  ◌++◌, leb, ◌==◌, if◌then◌else◌,
}
use myos.Base.Align.{u64_mod, align_up_u64}
use myos.Pmm
use myos.Pmm.{Pmm, page_size}

abbrev pub header : ℕ
header = 24

pub record Block : Type 0 where
  pub addr : ℕ
  pub size : ℕ
  pub free : Bool

pub record Heap : Type 0 where
  pub pmm : Pmm
  pub blocks : List Block

-- Whether a block can be given out.
abbrev pub fits : ℕ → Block → Bool
fits size b = b.free && leb size b.size

-- `find_block` with the assignment to the block that it finds: its address, and the list after it.
unfoldable pub take_block : ℕ → List Block → Option (ℕ × List Block)
take_block size [] = none
take_block size (b ∷ bs) =
    if fits size b
    then some (b.addr, record b { free = false } ∷ bs)
    else elim (take_block size bs) [ none ↦ none | some (addr, bs') ↦ some (addr, b ∷ bs') ]

-- The number of pages of a new block.
abbrev pub pages_for : ℕ → ℕ
pages_for size = (header + size + page_size - 1) % u64_mod / page_size

abbrev pub new_block : ℕ → ℕ → Block
new_block pa pages = record { addr = pa; size = pages * page_size - header; free = false }

-- The address of the new block, 0 for failure.
unfoldable pub request_space : ℕ → Heap → ℕ × Heap
request_space size h =
    let (pa, p) = Pmm.alloc_pages (pages_for size) h.pmm in
    if pa == 0
    then (0, record h { pmm = p })
    else (pa, record { pmm = p; blocks = h.blocks ++ (new_block pa (pages_for size) ∷ []) })

unfoldable pub init : Heap → Heap
init h = record h { blocks = [] }

abbrev pub pointer : ℕ → ℕ
pointer addr = if addr == 0 then 0 else addr + header

abbrev pub give : ℕ → Option (ℕ × List Block) → Heap → ℕ × Heap
give size (some (addr, bs)) h = (addr + header, record h { blocks = bs })
give size none h = let (addr, h') = request_space size h in (pointer addr, h')

-- The pointer, 0 for failure.
unfoldable pub kmalloc : ℕ → Heap → ℕ × Heap
kmalloc size h =
    let rounded = align_up_u64 size 16 in
    if size == 0 then (0, h) else give rounded (take_block rounded h.blocks) h

-- The loop of `merge_free_blocks`, at a block and what follows it.
unfoldable pub merge_from : Block → List Block → List Block
merge_from b [] = b ∷ []
merge_from b (c ∷ bs) = elim (b.free && c.free) [
  | true ↦ merge_from (record b { size = b.size + (header + c.size) }) bs
  | false ↦ b ∷ merge_from c bs
]

abbrev pub merge_free_blocks : List Block → List Block
merge_free_blocks [] = []
merge_free_blocks (b ∷ bs) = merge_from b bs

-- The assignment to the block behind a pointer; a pointer to no block changes nothing here.
unfoldable pub set_free : ℕ → List Block → List Block
set_free addr [] = []
set_free addr (b ∷ bs) =
    if b.addr == addr then record b { free = true } ∷ bs else b ∷ set_free addr bs

unfoldable pub kfree : ℕ → Heap → Heap
kfree ptr h =
    if ptr == 0
    then h
    else record h { blocks = merge_free_blocks (set_free (ptr - header) h.blocks) }
