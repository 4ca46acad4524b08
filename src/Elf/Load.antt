-- ===== src/Elf/Load.antt =====
-- src/elf.c: the segments of an image are mapped and copied.
use myos.Base.{
  ℕ, zero, suc, ◌+◌, ◌-◌, ◌/◌, ◌%◌, ◌^◌, min, bit_and, bit_or, Bool, true, false, not, ◌&&◌, Option,
  none, some, List, [], ◌∷◌, ltb, leb, ◌==◌, if◌then◌else◌,
}
use myos.Base.Align.{u64_mod, align_up_u64, align_down_u64}
use myos.Pmm
use myos.Pmm.{Pmm, page_size}
use myos.Vmm
use myos.Vmm.{Vmm, flag_present, flag_writable, flag_user}
use myos.Elf.{word, Phdr, phdrs, e_type, e_entry, et_dyn, pt_load, pt_dynamic, elf_validate}
use myos.Elf.Relocate.{Loader, Dynamic, on_success, apply_relocations}

abbrev pub flag_noexec : ℕ
flag_noexec = 2 ^ 63

abbrev pub user_region_base : ℕ
user_region_base = 0x80_0000_0000

abbrev pub flags_of : Phdr → ℕ
flags_of ph =
    let flags = bit_or flag_present flag_user in
    let flags' = if bit_and ph.p_flags 2 == 0 then flags else bit_or flags flag_writable in
    if bit_and ph.p_flags 1 == 0 then bit_or flags' flag_noexec else flags'

abbrev pub zeroed : ℕ → (ℕ → ℕ) → ℕ → ℕ
zeroed pa bytes k = if leb pa k && ltb k (pa + page_size) then 0 else bytes k

abbrev pub set_pmm : Pmm → Loader → Loader
set_pmm p l = record l { vmm = record l.vmm { pmm = p } }

abbrev pub mapped : ℕ → Bool × Vmm → Loader → Bool × Loader
mapped pa (true, v) l = (true, record l { vmm = v })
mapped pa (false, v) l = (false, set_pmm (Pmm.free_pages pa 1 v.pmm) (record l { vmm = v }))

abbrev pub map_new : ℕ → ℕ → ℕ → ℕ × Pmm → Loader → Bool × Loader
map_new cr3 va flags (pa, p) l =
    if pa == 0
    then (false, set_pmm p l)
    else (let l' = record (set_pmm p l) { bytes = zeroed pa l.bytes } in
        mapped pa (Vmm.map_page cr3 va pa flags l'.vmm) l')

-- The loop that maps n new pages.
unfoldable pub map_segment : ℕ → ℕ → ℕ → ℕ → Loader → Bool × Loader
map_segment cr3 zero va flags l = (true, l)
map_segment cr3 (suc n) va flags l =
    on_success (map_new cr3 va flags (Pmm.alloc_pages 1 l.vmm.pmm) l)
      λ l'. map_segment cr3 n (va + page_size) flags l'

-- `memcpy` of n bytes of the image.
abbrev pub copied_to : ℕ → ℕ → (ℕ → ℕ) → (ℕ → ℕ) → ℕ → ℕ
copied_to to n source bytes k = if leb to k && ltb k (to + n) then source (k - to) else bytes k

-- How many bytes are copied at an address when so many are left.
abbrev pub part_at : ℕ → ℕ → ℕ
part_at va left = min (page_size - va % page_size) left

abbrev pub copy_part :
    Option (ℕ × ℕ) → ℕ → ℕ → (ℕ → ℕ) → Loader → (Loader → Bool × Loader) → Bool × Loader
copy_part none va n source l next = (false, l)
copy_part (some (pa, flags)) va n source l next =
    next (record l { bytes = copied_to (pa + va % page_size) n source l.bytes })

-- The loop that copies filesz bytes, with fuel.
unfoldable pub copy_segment : ℕ → ℕ → ℕ → (ℕ → ℕ) → ℕ → ℕ → Loader → Bool × Loader
copy_segment cr3 zero vaddr source filesz copied l = (false, l)
copy_segment cr3 (suc fuel) vaddr source filesz copied l =
    let va = (vaddr + copied) % u64_mod in
    let n = part_at va (filesz - copied) in
    if ltb copied filesz
    then copy_part (Vmm.resolve cr3 va l.vmm) va n (λ k. source (copied + k)) l
        (λ l'. copy_segment cr3 fuel vaddr source filesz (copied + n) l')
    else (true, l)

-- The end of a segment, rounded up.
abbrev pub segment_end : ℕ → Phdr → ℕ
segment_end vaddr ph = align_up_u64 ((vaddr + ph.p_memsz) % u64_mod) page_size

abbrev pub load_at : (ℕ → ℕ) → ℕ → ℕ → Phdr → Loader → Bool × Loader
load_at image cr3 vaddr ph l =
    let first = align_down_u64 vaddr page_size in
    on_success (map_segment cr3 ((segment_end vaddr ph - first) / page_size) first (flags_of ph) l)
      λ l'. copy_segment cr3 (ph.p_filesz + 1) vaddr (λ k. image (ph.p_offset + k)) ph.p_filesz 0 l'

abbrev pub larger_end : ℕ → Phdr → ℕ → ℕ
larger_end vaddr ph max_end =
    if ltb max_end ((vaddr + ph.p_memsz) % u64_mod) then segment_end vaddr ph else max_end

abbrev pub and_end : Bool × Loader → (Loader → Bool × ℕ × Loader) → Bool × ℕ × Loader
and_end (false, l) next = (false, 0, l)
and_end (true, l) next = next l

-- The loop over the segments; the result has the end of the last one.
unfoldable pub load_segments : (ℕ → ℕ) → ℕ → ℕ → ℕ → List Phdr → ℕ → Loader → Bool × ℕ × Loader
load_segments image size cr3 bias [] max_end l = (true, max_end, l)
load_segments image size cr3 bias (ph ∷ phs) max_end l =
    let vaddr = (ph.p_vaddr + bias) % u64_mod in
    let skipped = load_segments image size cr3 bias phs max_end l in
    if not (ph.p_type == pt_load)
    then skipped
    else if ltb size ((ph.p_offset + ph.p_filesz) % u64_mod)
    then (false, 0, l)
    else and_end (load_at image cr3 vaddr ph l)
        λ l'. load_segments image size cr3 bias phs (larger_end vaddr ph max_end) l'

abbrev pub no_dynamic : Dynamic
no_dynamic = record {
  rela = 0;
  relasz = 0;
  relaent = 0;
  rel = 0;
  relsz = 0;
  relent = 0;
  symtab = 0;
  syment = 0;
}

-- An entry of the dynamic section, by its tag.
abbrev pub set_tag : ℕ → ℕ → Dynamic → Dynamic
set_tag tag val d =
    if tag == 7
    then record d { rela = val }
    else if tag == 8
    then record d { relasz = val }
    else if tag == 9
    then record d { relaent = val }
    else if tag == 17
    then record d { rel = val }
    else if tag == 18
    then record d { relsz = val }
    else if tag == 19
    then record d { relent = val }
    else if tag == 6
    then record d { symtab = val }
    else if tag == 11
    then record d { syment = val }
    else d

-- The loop over n entries, up to one with the tag 0.
unfoldable pub read_dynamic : (ℕ → ℕ) → ℕ → ℕ → Dynamic → Dynamic
read_dynamic image zero p d = d
read_dynamic image (suc n) p d =
    let rest = read_dynamic image n (p + 16) (set_tag (word image p 8) (word image (p + 8) 8) d) in
    if word image p 8 == 0 then d else rest

unfoldable pub dynamic_of : (ℕ → ℕ) → List Phdr → Dynamic → Dynamic
dynamic_of image [] d = d
dynamic_of image (ph ∷ phs) d =
    dynamic_of image phs
      (if ph.p_type == pt_dynamic then read_dynamic image (ph.p_filesz / 16) ph.p_offset d else d)

abbrev pub bias_of : (ℕ → ℕ) → ℕ
bias_of image =
    if e_type image == et_dyn then align_up_u64 (user_region_base + 0x100_0000) page_size else 0

-- The entry point and the break; none for failure.
abbrev pub relocated : (ℕ → ℕ) → ℕ → Bool × Loader → Option (ℕ × ℕ) × Loader
relocated image max_end (false, l) = (none, l)
relocated image max_end (true, l) = (some ((e_entry image + bias_of image) % u64_mod, max_end), l)

abbrev pub loaded : (ℕ → ℕ) → ℕ → ℕ → Bool × ℕ × Loader → Option (ℕ × ℕ) × Loader
loaded image size cr3 (false, max_end, l) = (none, l)
loaded image size cr3 (true, max_end, l) =
    let d = dynamic_of image (phdrs image) no_dynamic in
    relocated image max_end (
      if (d.rela == 0) && (d.rel == 0)
      then (true, l)
      else apply_relocations image size (phdrs image) cr3 (bias_of image) d l)

unfoldable pub elf64_load_image : (ℕ → ℕ) → ℕ → ℕ → Loader → Option (ℕ × ℕ) × Loader
elf64_load_image image size cr3 l =
    if elf_validate image size
    then loaded image size cr3 (load_segments image size cr3 (bias_of image) (phdrs image) 0 l)
    else (none, l)
