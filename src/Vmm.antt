-- ===== src/Vmm.antt =====
-- src/vmm.c: page tables and the spaces of user processes. Physical memory is identity mapped, and a
-- table is a page of 512 entries: the store of tables is a function of the page's address and the
-- index. Entries and addresses are uint64_t values; the mask and the flags are bit operations, a
-- shift with a mask of nine ones is a quotient with a remainder. The translation cache and CR3 have no
-- state here. The lock makes each change of the list of spaces one step.
pub mod Entry
pub mod Tree
pub mod Fresh
pub mod Grow
pub mod Ensure
pub mod Leaf
pub mod Map
pub mod Pages
pub mod Walk
pub mod Spaces
pub mod Refs
pub mod GiveBack
pub mod Clear
pub mod Destroy
pub mod Lifetime
pub mod Create
mod Tests
use myos.Base.{
  ℕ, zero, suc, ◌+◌, ◌-◌, ◌*◌, ◌/◌, ◌%◌, ◌^◌, bit_and, bit_or, Bool, true, false, not, ◌&&◌, ◌||◌,
  Option, none, some, ltb, leb, ◌==◌, if◌then◌else◌, update,
}
use myos.Base.Align.{u64_mod}
use myos.Pmm
use myos.Pmm.{Pmm, page_size}

abbrev pub entries_per_table : ℕ
entries_per_table = 512

abbrev pub max_user_spaces : ℕ
max_user_spaces = 64

abbrev pub addr_mask : ℕ
addr_mask = 0x000F_FFFF_FFFF_F000

abbrev pub flag_present : ℕ
flag_present = 1

abbrev pub flag_writable : ℕ
flag_writable = 2

abbrev pub flag_user : ℕ
flag_user = 4

abbrev pub flag_huge : ℕ
flag_huge = 0x80

abbrev pub flag_global : ℕ
flag_global = 0x100

pub record Space : Type 0 where
  pub cr3 : ℕ
  pub refs : ℕ

pub record Vmm : Type 0 where
  pub pmm : Pmm
  pub mem : ℕ → ℕ → ℕ
  pub kernel_cr3 : ℕ
  pub spaces : ℕ → Space

abbrev pub is_present : ℕ → Bool
is_present e = not (bit_and e flag_present == 0)

abbrev pub is_huge : ℕ → Bool
is_huge e = not (bit_and e flag_huge == 0)

-- `entry & VMM_ADDR_MASK`
abbrev pub frame : ℕ → ℕ
frame e = bit_and e addr_mask

abbrev pub write : ℕ → ℕ → ℕ → Vmm → Vmm
write t i e v = record v { mem = update v.mem t (update (v.mem t) i e) }

-- The address of the page, 0 for failure.
unfoldable pub alloc_zero_page : Vmm → ℕ × Vmm
alloc_zero_page v =
    let (pa, p) = Pmm.alloc_pages 1 v.pmm in
    if pa == 0
    then (0, record v { pmm = p })
    else (pa, record v { pmm = p; mem = update v.mem pa (λ _. 0) })

-- `none` is the result false.
unfoldable pub ensure_table : ℕ → ℕ → ℕ → Vmm → Option ℕ × Vmm
ensure_table parent idx flags v =
    if is_present (v.mem parent idx)
    then (some (frame (v.mem parent idx)), v)
    else (let (pa, v') = alloc_zero_page v in
        if pa == 0 then (none, v') else (some pa, write parent idx (bit_or pa flags) v'))

-- `cr3 & ~0xFFF`
abbrev pub root_of : ℕ → ℕ
root_of cr3 = cr3 / 4096 * 4096

abbrev pub index4 : ℕ → ℕ
index4 virt = virt / 2 ^ 39 % 512

abbrev pub index3 : ℕ → ℕ
index3 virt = virt / 2 ^ 30 % 512

abbrev pub index2 : ℕ → ℕ
index2 virt = virt / 2 ^ 21 % 512

abbrev pub index1 : ℕ → ℕ
index1 virt = virt / 2 ^ 12 % 512

abbrev pub table_flags : ℕ → ℕ
table_flags flags =
    bit_or (bit_or flag_present flag_writable)
      (if bit_and flags flag_user == 0 then 0 else flag_user)

-- The last step of `map_page_inner`, at the page table.
unfoldable pub map_leaf : ℕ → ℕ → ℕ → ℕ → Vmm → Bool × Vmm
map_leaf pt i phys flags v =
    if is_present (v.mem pt i)
    then (false, v)
    else (true, write pt i (bit_or (frame phys) (bit_or flags flag_present)) v)

-- Going on with the table that `ensure_table` gives.
abbrev pub descend : Option ℕ × Vmm → (ℕ → Vmm → Bool × Vmm) → Bool × Vmm
descend (none, v) next = (false, v)
descend (some t, v) next = next t v

unfoldable pub map_page : ℕ → ℕ → ℕ → ℕ → Vmm → Bool × Vmm
map_page cr3 virt phys flags v =
    descend (ensure_table (root_of cr3) (index4 virt) (table_flags flags) v) λ pdpt v₁.
      descend (ensure_table pdpt (index3 virt) (table_flags flags) v₁) λ pd v₂.
        descend (ensure_table pd (index2 virt) (table_flags flags) v₂)
          λ pt v₃. map_leaf pt (index1 virt) phys flags v₃

-- The loop of `vmm_map_range`, for n pages from the i-th on.
unfoldable pub map_pages : ℕ → ℕ → ℕ → ℕ → ℕ → ℕ → Vmm → Bool × Vmm
map_pages zero i cr3 virt phys flags v = (true, v)
map_pages (suc n) i cr3 virt phys flags v =
    let (done, v') =
      map_page cr3 ((virt + i * page_size) % u64_mod) ((phys + i * page_size) % u64_mod) flags v in
    let rest = map_pages n (i + 1) cr3 virt phys flags v' in if done then rest else (false, v')

unfoldable pub map_range : ℕ → ℕ → ℕ → ℕ → ℕ → Vmm → Bool × Vmm
map_range cr3 virt phys size flags v =
    map_pages ((size + page_size - 1) % u64_mod / page_size) 0 cr3 virt phys flags v

-- The table below an entry, if the entry is present.
abbrev pub below : ℕ → Option ℕ
below e = if is_present e then some (frame e) else none

-- Going on with the table below an entry, or returning d.
abbrev pub through {ℓ} : {A : Type ℓ} → Option ℕ → A → (ℕ → A) → A
through none d next = d
through (some t) d next = next t

unfoldable pub unmap_leaf : ℕ → ℕ → Vmm → ℕ × Vmm
unmap_leaf pt i v = if is_present (v.mem pt i) then (frame (v.mem pt i), write pt i 0 v) else (0, v)

-- The frame that was mapped, 0 for none.
unfoldable pub unmap_page : ℕ → ℕ → Vmm → ℕ × Vmm
unmap_page cr3 virt v =
    through (below (v.mem (root_of cr3) (index4 virt))) (0, v)
      λ pdpt.
        through (below (v.mem pdpt (index3 virt))) (0, v)
          λ pd. through (below (v.mem pd (index2 virt))) (0, v) λ pt. unmap_leaf pt (index1 virt) v

-- The physical address in a page of 4 KiB, 2 MiB or 1 GiB, with the entry.
abbrev pub in_page : ℕ → ℕ → Option (ℕ × ℕ)
in_page e off = if is_present e then some (bit_or (frame e) off, e) else none

abbrev pub in_huge : ℕ → ℕ → Option (ℕ × ℕ)
in_huge e off = some ((frame e + off) % u64_mod, e)

unfoldable pub resolve : ℕ → ℕ → Vmm → Option (ℕ × ℕ)
resolve cr3 virt v = through (below (v.mem (root_of cr3) (index4 virt))) none λ pdpt.
    through (below (v.mem pdpt (index3 virt))) none λ pd.
      if is_huge (v.mem pdpt (index3 virt))
      then in_huge (v.mem pdpt (index3 virt)) (virt % 0x4000_0000)
      else through (below (v.mem pd (index2 virt))) none λ pt.
        if is_huge (v.mem pd (index2 virt))
        then in_huge (v.mem pd (index2 virt)) (virt % 0x20_0000)
        else in_page (v.mem pt (index1 virt)) (virt % 0x1000)
