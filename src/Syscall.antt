-- ===== src/Syscall.antt =====
-- src/syscall.c: the table of open files of a thread, and anonymous mappings. An open file is the address that
-- vfs_open gave, 0 for a free place; the descriptor is
-- none for -1, and a negative one is not in the model, where the code refuses it as it does 0 to 2.
mod Tests
use myos.Base.{
  ℕ, zero, suc, ◌+◌, ◌-◌, ◌*◌, ◌/◌, ◌%◌, bit_and, bit_or, Bool, true, false, not, ◌&&◌, ◌||◌,
  Option, none, some, ltb, leb, ◌==◌, if◌then◌else◌, update,
}
use myos.Base.Align.{u64_mod, align_up_u64, align_down_u64}
use myos.Elf.Load.{flag_noexec, map_new}
use myos.Elf.Relocate.{Loader}
use myos.Files.{vfs_close}
use myos.Pmm
use myos.Pmm.{page_size}
use myos.Vfs.{Vfs}
use myos.Vmm
use myos.Vmm.{Vmm, flag_present, flag_writable, flag_user}

abbrev pub max_open_files : ℕ
max_open_files = 8

pub record FileTable : Type 0 where
  pub open_files : ℕ → ℕ
  pub open_file_count : ℕ

-- The loop of `vfs_fd_allocate`, over the n places from the i-th on.
unfoldable pub allocate_from : ℕ → ℕ → ℕ → FileTable → Option ℕ × FileTable
allocate_from zero i file t = (none, t)
allocate_from (suc n) i file t =
    let rest = allocate_from n (i + 1) file t in
    if t.open_files i == 0
    then (
      some (i + 3),
      record { open_files = update t.open_files i file; open_file_count = t.open_file_count + 1 },
    )
    else rest

unfoldable pub fd_allocate : ℕ → FileTable → Option ℕ × FileTable
fd_allocate file t = if file == 0 then (none, t) else allocate_from max_open_files 0 file t

-- The open file of a descriptor, 0 for none.
unfoldable pub fd_get : ℕ → FileTable → ℕ
fd_get fd t = if ltb fd 3 || leb max_open_files (fd - 3) then 0 else t.open_files (fd - 3)

abbrev pub close_at : ℕ → FileTable → Vfs → Bool × FileTable × Vfs
close_at i t v = (
  true,
  record { open_files = update t.open_files i 0; open_file_count = t.open_file_count - 1 },
  vfs_close (t.open_files i) v,
)

unfoldable pub fd_close : ℕ → FileTable → Vfs → Bool × FileTable × Vfs
fd_close fd t v =
    if ltb fd 3 || leb max_open_files (fd - 3) || (t.open_files (fd - 3) == 0)
    then (false, t, v)
    else close_at (fd - 3) t v

abbrev pub mmap_default_base : ℕ → ℕ
mmap_default_base brk_end = (align_up_u64 brk_end page_size + 0x100_0000) % u64_mod

abbrev pub mmap_flags : ℕ → ℕ
mmap_flags prot =
    let flags = bit_or flag_present flag_user in
    let flags' = if bit_and prot 2 == 0 then flags else bit_or flags flag_writable in
    if bit_and prot 4 == 0 then bit_or flags' flag_noexec else flags'

abbrev pub and_more : Bool × Loader → (Loader → ℕ × Loader) → ℕ × Loader
and_more (false, l) next = (0, l)
and_more (true, l) next = let (n, l') = next l in (suc n, l')

-- The loop that maps up to n pages: how many it mapped.
unfoldable pub map_anonymous_pages : ℕ → ℕ → ℕ → ℕ → Loader → ℕ × Loader
map_anonymous_pages cr3 zero va flags l = (0, l)
map_anonymous_pages cr3 (suc n) va flags l =
    and_more (map_new cr3 (va % u64_mod) flags (Pmm.alloc_pages 1 l.vmm.pmm) l)
      λ l'. map_anonymous_pages cr3 n (va + page_size) flags l'

abbrev pub freed_page : ℕ × Vmm → Vmm
freed_page (pa, v) = if pa == 0 then v else record v { pmm = Pmm.free_pages pa 1 v.pmm }

-- The loop that unmaps n pages again.
unfoldable pub unmap_anonymous_pages : ℕ → ℕ → ℕ → Vmm → Vmm
unmap_anonymous_pages cr3 zero va v = v
unmap_anonymous_pages cr3 (suc n) va v =
    unmap_anonymous_pages cr3 n (va + page_size) (freed_page (Vmm.unmap_page cr3 (va % u64_mod) v))

-- The parts of a thread that a mapping has.
pub record MapThread : Type 0 where
  pub is_user : Bool
  pub cr3 : ℕ
  pub mmap_base : ℕ

abbrev pub mapped_all : MapThread → ℕ → ℕ → ℕ → ℕ × Loader → Option ℕ × MapThread × Loader
mapped_all t addr base size (n, l) =
    if n * page_size == size
    then (some base, (if addr == 0 then record t { mmap_base = (base + size) % u64_mod } else t), l)
    else (none, t, record l { vmm = unmap_anonymous_pages t.cr3 n base l.vmm })

-- `mmap_map_anonymous`
unfoldable pub map_anonymous : MapThread → ℕ → ℕ → ℕ → Loader → Option ℕ × MapThread × Loader
map_anonymous t addr len prot l =
    let size = align_up_u64 len page_size in
    let base =
      if addr == 0 then align_up_u64 t.mmap_base page_size else align_down_u64 addr page_size in
    if not t.is_user || (len == 0)
    then (none, t, l)
    else mapped_all t addr base size
        (map_anonymous_pages t.cr3 (size / page_size) base (mmap_flags prot) l)
