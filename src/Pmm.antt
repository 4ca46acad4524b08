-- ===== src/Pmm.antt =====
-- src/pmm.c: the physical page allocator over a bitmap. A set bit is a page in use.
-- The static variables are the record `Pmm`; the bitmap is a store of bytes. uint64_t page indices
-- and counts stay below 2^20, so only address arithmetic is written with its wrap-around.
pub mod Bitmap
pub mod Count
pub mod Scan
pub mod Alloc
pub mod Range
pub mod Init
mod Tests
use myos.Base.{
  ℕ, zero, suc, ◌+◌, ◌-◌, ◌*◌, ◌/◌, ◌%◌, ◌^◌, bit_and, bit_or, Bool, true, false, not, ◌&&◌, Option,
  none, some, List, [], ◌∷◌, ltb, leb, ◌==◌, if◌then◌else◌, update,
}
use myos.Base.Align.{align_up_u64, align_down_u64, u64_mod}

abbrev pub page_size : ℕ
page_size = 4096

abbrev pub max_phys_bytes : ℕ
max_phys_bytes = 4 * 1024 * 1024 * 1024

abbrev pub max_pages : ℕ
max_pages = max_phys_bytes / page_size

pub record Pmm : Type 0 where
  pub bitmap : ℕ → ℕ
  pub free_pages_cnt : ℕ
  pub total_pages_cnt : ℕ
  pub ready : Bool

pub bit_set : ℕ → Pmm → Pmm
bit_set idx p = record p {
  bitmap = update p.bitmap (idx / 8) (bit_or (p.bitmap (idx / 8)) (2 ^ (idx % 8)));
}

-- `(uint8_t)~(1u << k)` is 255 - 2^k.
pub bit_clear : ℕ → Pmm → Pmm
bit_clear idx p = record p {
  bitmap = update p.bitmap (idx / 8) (bit_and (p.bitmap (idx / 8)) (255 - 2 ^ (idx % 8)));
}

unfoldable pub bit_test : ℕ → Pmm → Bool
bit_test idx p = p.bitmap (idx / 8) / 2 ^ (idx % 8) % 2 == 1

-- The loop of `pmm_recount_free`, for n pages from i on.
pub recount_from : ℕ → ℕ → ℕ → Pmm → ℕ
recount_from zero i acc p = acc
recount_from (suc n) i acc p = recount_from n (i + 1) (if bit_test i p then acc else acc + 1) p

pub recount_free : Pmm → Pmm
unfolding recount_from
recount_free p = record p { free_pages_cnt = recount_from p.total_pages_cnt 0 0 p }

-- The body of the loop of `pmm_free_range`.
pub free_page : ℕ → Pmm → Pmm
free_page page p =
    if bit_test page p
    then record (bit_clear page p) {
      free_pages_cnt = if p.ready then p.free_pages_cnt + 1 else p.free_pages_cnt;
    }
    else p

-- The body of the loop of `pmm_reserve_range`.
pub reserve_page : ℕ → Pmm → Pmm
reserve_page page p = if bit_test page p then p else record (bit_set page p) {
  free_pages_cnt =
      if p.ready && not (p.free_pages_cnt == 0) then p.free_pages_cnt - 1 else p.free_pages_cnt;
}

-- `for (a = start; a < end; a += PAGE_SIZE)` with the break at the last page; a round for each unit
-- of fuel.
pub page_loop : (ℕ → Pmm → Pmm) → ℕ → ℕ → ℕ → Pmm → Pmm
page_loop body zero a end p = p
page_loop body (suc fuel) a end p = elim (ltb a end && ltb (a / page_size) p.total_pages_cnt) [
  | true ↦ page_loop body fuel (a + page_size) end (body (a / page_size) p)
  | false ↦ p
]

-- The clamping and the loop that the two range functions share.
pub over_range : (ℕ → Pmm → Pmm) → ℕ → ℕ → Pmm → Pmm
unfolding page_loop
over_range body start end p =
    if leb end start
    then p
    else if leb max_phys_bytes start
    then p
    else let end' = if ltb max_phys_bytes end then max_phys_bytes else end in
      page_loop body ((end' - start) / page_size) start end' p

pub free_range : ℕ → ℕ → Pmm → Pmm
unfolding over_range free_page
free_range addr size p =
    over_range free_page (align_up_u64 addr page_size)
      (align_down_u64 ((addr + size) % u64_mod) page_size) p

pub reserve_range : ℕ → ℕ → Pmm → Pmm
unfolding over_range reserve_page
reserve_range addr size p =
    over_range reserve_page (align_down_u64 addr page_size)
      (align_up_u64 ((addr + size) % u64_mod) page_size) p

-- The search of `pmm_alloc_pages`: n pages left to look at from i on, the length and the start of
-- the run of free pages that ends before i.
pub scan : ℕ → ℕ → ℕ → ℕ → ℕ → Pmm → Option ℕ
scan zero i run start pages p = none
scan (suc n) i run start pages p = elim (bit_test i p) [
  | true ↦ scan n (i + 1) 0 start pages p
  | false ↦
      let start' = if run == 0 then i else start in
      elim (run + 1 == pages) [
        | true ↦ some start'
        | false ↦ scan n (i + 1) (run + 1) start' pages p
      ]
]

-- `for (j = 0; j < pages; j++) bit_set(start + j)`, with n rounds left.
pub set_run : ℕ → ℕ → ℕ → Pmm → Pmm
set_run zero start j p = p
set_run (suc n) start j p = set_run n start (j + 1) (bit_set (start + j) p)

-- The address returned, 0 for failure.
unfoldable pub alloc_pages : ℕ → Pmm → ℕ × Pmm
unfolding scan set_run
alloc_pages pages p =
    if pages == 0
    then (0, p)
    else if ltb p.free_pages_cnt pages
    then (0, p)
    else elim (scan p.total_pages_cnt 0 0 0 pages p) [
      | none ↦ (0, p)
      | some start ↦
          let q = set_run pages start 0 p in
          (start * page_size, record q { free_pages_cnt = q.free_pages_cnt - pages })
    ]

-- The body of the loop of `pmm_free_pages`.
pub free_one : ℕ → Pmm → Pmm
free_one idx p =
    if bit_test idx p then record (bit_clear idx p) { free_pages_cnt = p.free_pages_cnt + 1 } else p

-- The loop of `pmm_free_pages`, with n rounds left.
pub free_run : ℕ → ℕ → Pmm → Pmm
free_run zero idx p = p
free_run (suc n) idx p = elim (ltb idx p.total_pages_cnt) [
  | true ↦ free_run n (idx + 1) (free_one idx p)
  | false ↦ p
]

pub free_pages : ℕ → ℕ → Pmm → Pmm
unfolding free_run free_one
free_pages addr pages p =
    if pages == 0 then p else if addr == 0 then p else free_run pages (addr / page_size) p

pub total_memory_bytes : Pmm → ℕ
total_memory_bytes p = p.total_pages_cnt * page_size

pub free_memory_bytes : Pmm → ℕ
free_memory_bytes p = p.free_pages_cnt * page_size

-- An entry of the multiboot2 memory map, and the tags before the end tag.
pub record MmapEntry : Type 0 where
  pub addr : ℕ
  pub len : ℕ
  pub type : ℕ

pub data Tag : Type 0 where
  mmap : List MmapEntry → Tag
  other : Tag

-- What `pmm_init` reads: the tags, where the information lies, and the kernel image.
pub record BootInfo : Type 0 where
  pub tags : List Tag
  pub mb2 : ℕ
  pub total_size : ℕ
  pub kernel_start : ℕ
  pub kernel_end : ℕ

pub find_mmap : List Tag → Option (List MmapEntry)
find_mmap [] = none
find_mmap (mmap es ∷ ts) = some es
find_mmap (other ∷ ts) = find_mmap ts

pub free_available : List MmapEntry → Pmm → Pmm
free_available [] p = p
free_available (e ∷ es) p = free_available es (if e.type == 1 then free_range e.addr e.len p else p)

-- `pmm_init`, from the state before it: `ready` stays as it was until the end.
pub init : BootInfo → Pmm → Pmm
unfolding find_mmap free_available free_range reserve_range recount_free
init b p₀ =
    let p = record p₀ { bitmap = λ _. 255; total_pages_cnt = max_pages } in
    elim (find_mmap b.tags) [
      | none ↦ recount_free p
      | some es ↦
          let p₁ = free_available es p in
          let p₂ = reserve_range 0 0x100000 p₁ in
          let p₃ =
            reserve_range b.kernel_start ((b.kernel_end + u64_mod - b.kernel_start) % u64_mod) p₂ in
          let p₄ = reserve_range b.mb2 b.total_size p₃ in record (recount_free p₄) { ready = true }
    ]
