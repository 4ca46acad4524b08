-- ===== src/Vmm/Spaces.antt =====
-- src/vmm.c: the spaces of user processes, from the kernel's map on, and the user's heap in a space.
-- A space that is not in the list has no slot; a slot with no references is free. The loops over a table
-- run over its 512 entries; the loops of `vmm_user_set_brk` step by pages between two page addresses.
use myos.Base.{
  ℕ, zero, suc, ◌+◌, ◌-◌, ◌*◌, ◌/◌, ◌%◌, ◌^◌, bit_or, Bool, true, false, not, ◌&&◌, ◌||◌, Option,
  none, some, ltb, ◌==◌, if◌then◌else◌, update,
}
use myos.Base.Align.{align_up_u64}
use myos.Base.Search.{first_from}
use myos.Pmm
use myos.Pmm.{page_size}
use myos.Vmm.{
  Vmm, Space, entries_per_table, max_user_spaces, flag_present, flag_writable, flag_user, flag_huge,
  flag_global, is_present, is_huge, frame, write, alloc_zero_page, map_page, unmap_page,
}

abbrev pub u32_mod : ℕ
u32_mod = 2 ^ 32

abbrev pub in_slot : ℕ → (ℕ → Space) → ℕ → Bool
in_slot cr3 spaces i = (spaces i).cr3 == cr3 && not ((spaces i).refs == 0)

-- `none` is the result -1.
abbrev pub find_space_slot : ℕ → (ℕ → Space) → Option ℕ
find_space_slot cr3 spaces = first_from (in_slot cr3 spaces) max_user_spaces 0

abbrev pub find_free_space_slot : (ℕ → Space) → Option ℕ
find_free_space_slot spaces = first_from (λ i. (spaces i).refs == 0) max_user_spaces 0

abbrev pub set_space : ℕ → Space → Vmm → Vmm
set_space i s v = record v { spaces = update v.spaces i s }

-- `pmm_free_pages` on the allocator of the state.
abbrev pub give_back : ℕ → ℕ → Vmm → Vmm
give_back pa n v = record v { pmm = Pmm.free_pages pa n v.pmm }

-- The loop over the entries of a table, from the i-th on: a present entry is given up and cleared.
unfoldable pub clear_entries : (ℕ → Vmm → Vmm) → ℕ → ℕ → ℕ → Vmm → Vmm
clear_entries give_up t zero i v = v
clear_entries give_up t (suc n) i v =
    clear_entries give_up t n (i + 1)
      (if is_present (v.mem t i) then write t i 0 (give_up (v.mem t i) v) else v)

-- `if (pa) pmm_free_pages(pa, n)`
abbrev pub give_frame : ℕ → ℕ → Vmm → Vmm
give_frame n e v = if frame e == 0 then v else give_back (frame e) n v

unfoldable pub free_pt : ℕ → Vmm → Vmm
free_pt pt v = give_back pt 1 (clear_entries (give_frame 1) pt entries_per_table 0 v)

unfoldable pub free_pd : ℕ → Vmm → Vmm
free_pd pd v = give_back pd 1 (
    clear_entries (λ e v'. if is_huge e then give_frame 512 e v' else free_pt (frame e) v') pd
      entries_per_table 0 v)

unfoldable pub free_pdpt : ℕ → Vmm → Vmm
free_pdpt pdpt v = give_back pdpt 1 (
    clear_entries (λ e v'. if is_huge e then give_frame (512 * 512) e v' else free_pd (frame e) v')
      pdpt entries_per_table 0 v)

-- `!cr3 || cr3 == g_kernel_cr3`
abbrev pub is_kernel : ℕ → Vmm → Bool
is_kernel cr3 v = (cr3 == 0) || (cr3 == v.kernel_cr3)

-- The loop starts at entry 1: entry 0 is the kernel's.
unfoldable pub destroy_user_space : ℕ → Vmm → Vmm
destroy_user_space cr3 v =
    if is_kernel cr3 v
    then v
    else give_back (frame cr3) 1
        (clear_entries (λ e. free_pdpt (frame e)) (frame cr3) (entries_per_table - 1) 1 v)

-- The inner loop of `map_identity_kernel`, n entries from the i-th on.
unfoldable pub identity_entries : ℕ → ℕ → ℕ → ℕ → Vmm → Vmm
identity_entries pd gi zero i v = v
identity_entries pd gi (suc n) i v = identity_entries pd gi n (i + 1) (
    write pd i
      (bit_or
        (bit_or (bit_or (bit_or (gi * 0x4000_0000 + i * 0x20_0000) flag_present) flag_writable)
          flag_huge)
        flag_global)
      v)

-- A table of the identity map is entered with these flags.
abbrev pub kernel_entry : ℕ → ℕ
kernel_entry pa = bit_or (bit_or (bit_or pa flag_present) flag_writable) flag_global

-- The outer loop, n directories from gi on.
unfoldable pub identity_tables : ℕ → ℕ → ℕ → Vmm → Vmm
identity_tables pdpt zero gi v = v
identity_tables pdpt (suc n) gi v =
    let (pd, v') = alloc_zero_page v in
    let rest =
      identity_tables pdpt n (gi + 1)
        (identity_entries pd gi entries_per_table 0 (write pdpt gi (kernel_entry pd) v')) in
    if pd == 0 then v' else rest

unfoldable pub map_identity_kernel : ℕ → Vmm → Vmm
map_identity_kernel pml4 v =
    let (pdpt, v') = alloc_zero_page v in
    if pdpt == 0 then v' else identity_tables pdpt 4 0 (write pml4 0 (kernel_entry pdpt) v')

unfoldable pub init : Vmm → Vmm
init v =
    let (pml4, v') = alloc_zero_page (record v { spaces = λ _. record { cr3 = 0; refs = 0 } }) in
    if pml4 == 0 then v' else record (map_identity_kernel pml4 v') { kernel_cr3 = pml4 }

-- The list of spaces with the new space in a free slot, or the page given back.
abbrev pub enter : ℕ → Option ℕ → Vmm → ℕ × Vmm
enter pml4 none v = (0, give_back pml4 1 v)
enter pml4 (some slot) v = (pml4, set_space slot (record { cr3 = pml4; refs = 1 }) v)

-- The new root, 0 for failure.
unfoldable pub create_user_space : Vmm → ℕ × Vmm
create_user_space v =
    let (pml4, v') = alloc_zero_page v in
    let v'' = write pml4 0 (v'.mem v'.kernel_cr3 0) v' in
    if pml4 == 0 then (0, v') else enter pml4 (find_free_space_slot v''.spaces) v''

abbrev pub retain_in : ℕ → Option ℕ → Option ℕ → Vmm → Vmm
retain_in cr3 (some i) free v =
    set_space i (record (v.spaces i) { refs = ((v.spaces i).refs + 1) % u32_mod }) v
retain_in cr3 none (some i) v = set_space i (record { cr3 = cr3; refs = 2 }) v
retain_in cr3 none none v = v

unfoldable pub retain_user_space : ℕ → Vmm → Vmm
retain_user_space cr3 v =
    if is_kernel cr3 v
    then v
    else retain_in cr3 (find_space_slot cr3 v.spaces) (find_free_space_slot v.spaces) v

-- The slot after a reference is dropped, and whether the space has to be destroyed.
abbrev pub drop_ref : Space → Bool × Space
drop_ref s =
    if s.refs - 1 == 0
    then (true, record { cr3 = 0; refs = 0 })
    else (false, record s { refs = s.refs - 1 })

abbrev pub release_in : ℕ → Option ℕ → Vmm → Vmm
release_in cr3 none v = v
release_in cr3 (some i) v =
    let (destroy, s) = drop_ref (v.spaces i) in
    let v' = set_space i s v in
    if (v.spaces i).refs == 0 then v else if destroy then destroy_user_space cr3 v' else v'

unfoldable pub release_user_space : ℕ → Vmm → Vmm
release_user_space cr3 v =
    if is_kernel cr3 v then v else release_in cr3 (find_space_slot cr3 v.spaces) v

-- The parts of a thread that the user's heap has.
pub record UserThread : Type 0 where
  pub is_user : Bool
  pub cr3 : ℕ
  pub brk_start : ℕ
  pub brk_end : ℕ

-- The loop that maps zeroed pages, n pages from va on.
unfoldable pub grow_brk : ℕ → ℕ → ℕ → Vmm → Bool × Vmm
grow_brk zero va cr3 v = (true, v)
grow_brk (suc n) va cr3 v =
    let (pa, v₁) = alloc_zero_page v in
    let (done, v₂) = map_page cr3 va pa (bit_or (bit_or flag_present flag_writable) flag_user) v₁ in
    let rest = grow_brk n (va + page_size) cr3 v₂ in
    if pa == 0 then (false, v₁) else if done then rest else (false, give_back pa 1 v₂)

-- The loop that unmaps pages and frees them.
unfoldable pub shrink_brk : ℕ → ℕ → ℕ → Vmm → Vmm
shrink_brk zero va cr3 v = v
shrink_brk (suc n) va cr3 v =
    let (pa, v') = unmap_page cr3 va v in
    shrink_brk n (va + page_size) cr3 (if pa == 0 then v' else give_back pa 1 v')

-- `none` is the missing thread.
unfoldable pub user_set_brk : Option UserThread → ℕ → Vmm → Bool × Option UserThread × Vmm
user_set_brk none new_end v = (false, none, v)
user_set_brk (some t) new_end v =
    let start = align_up_u64 t.brk_start page_size in
    let wanted = align_up_u64 new_end page_size in
    let new_aligned = if ltb wanted start then start else wanted in
    let cur = align_up_u64 t.brk_end page_size in
    let (done, v') =
      if ltb cur new_aligned
      then grow_brk ((new_aligned - cur) / page_size) cur t.cr3 v
      else (true, shrink_brk ((cur - new_aligned) / page_size) new_aligned t.cr3 v) in
    if not t.is_user
    then (false, some t, v)
    else if done
    then (true, some (record t { brk_end = new_end }), v')
    else (false, some t, v')
