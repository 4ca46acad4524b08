-- ===== src/Elf/Tests.antt =====
-- Runs of the loader's parts, and the theorem at a concrete segment.
use myos.Base.{
  ℕ, ◌+◌, ◌*◌, ◌/◌, ◌%◌, ◌<◌, ◌≤◌, ◌≡◌, refl, subst, true, false, some, [], ◌∷◌, ◌==◌,
  if◌then◌else◌, arith, inl, inr, Bool-cases, ◌⊎◌,
}
use myos.Elf.{Phdr, elf_validate, find_phdr, vaddr_to_ptr}
use myos.Elf.Relocate.{Loader}
use myos.Elf.Load.{copy_segment}
use myos.Elf.Copy.{IsMapped, copy_segment_lem}
use myos.Vmm.{resolve}

-- A root at page 1, its tables at pages 2 to 4, and one page of the program, at page 5.
abbrev tables : ℕ → ℕ → ℕ
tables t i =
    if t == 0x1000
    then (if i == 1 then 0x2007 else 0)
    else if t == 0x2000
    then (if i == 0 then 0x3007 else 0)
    else if t == 0x3000
    then (if i == 0 then 0x4007 else 0)
    else if i == 0
    then 0x5007
    else 0

abbrev loader : Loader
loader = record {
  vmm = record {
    pmm = record { bitmap = λ i. 255; free_pages_cnt = 0; total_pages_cnt = 32; ready = true };
    mem = tables;
    kernel_cr3 = 0;
    spaces = λ _. record { cr3 = 0; refs = 0 };
  };
  bytes = λ a. 0;
}

abbrev source : ℕ → ℕ
source k = k + 7

-- The page of the program is number 0x800_0000.
abbrev frames : ℕ → ℕ
frames i = if i == 0x800_0000 then 0x5000 else i * 4096 + 0x1_0000

abbrev leaf : ℕ → ℕ
leaf i = 0x5007

too_short : elf_validate (λ k. 0) 10 ≡ false
unfolding elf_validate
too_short = refl

abbrev text : Phdr
text = record {
  p_type = 1;
  p_flags = 5;
  p_offset = 0x100;
  p_vaddr = 0x1000;
  p_filesz = 0x20;
  p_memsz = 0x20;
}

in_text : vaddr_to_ptr 0x200 (text ∷ []) 0x1008 ≡ some 0x108
unfolding vaddr_to_ptr find_phdr
in_text = refl

page_start : resolve 0x1000 0x80_0000_0000 loader.vmm ≡ some (0x5000, 0x5007)
unfolding resolve
page_start = refl

second_byte : resolve 0x1000 0x80_0000_0001 loader.vmm ≡ some (0x5001, 0x5007)
unfolding resolve
second_byte = refl

at_byte :
    (k : ℕ)
    → k < 2
    → resolve 0x1000 (0x80_0000_0000 + k) loader.vmm
      ≡ some (
        frames ((0x80_0000_0000 + k) / 4096) + (0x80_0000_0000 + k) % 4096,
        leaf ((0x80_0000_0000 + k) / 4096),
      )
at_byte k h = elim (Bool-cases (k == 0)) [
  | inl e ↦
      let z : 0 ≡ k = ground (arith, e) in
      subst
        (λ n.
          resolve 0x1000 (0x80_0000_0000 + n) loader.vmm
          ≡ some (frames ((0x80_0000_0000 + n) / 4096) + (0x80_0000_0000 + n) % 4096, 0x5007))
        z page_start
  | inr e ↦
      let z : 1 ≡ k = ground (arith, e, h) in
      subst
        (λ n.
          resolve 0x1000 (0x80_0000_0000 + n) loader.vmm
          ≡ some (frames ((0x80_0000_0000 + n) / 4096) + (0x80_0000_0000 + n) % 4096, 0x5007))
        z second_byte
]

apart : (i j : ℕ) → i < j → (frames i + 4096 ≤ frames j) ⊎ (frames j + 4096 ≤ frames i)
apart i j h = elim (Bool-cases (i == 0x800_0000)) [
  | inl a ↦ inl (ground (arith, a, h))
  | inr a ↦ elim (Bool-cases (j == 0x800_0000)) [
    | inl b ↦ inr (ground (arith, a, b))
    | inr b ↦ inl (ground (arith, a, b, h))
  ]
]

segment-IsMapped : IsMapped 0x1000 0x80_0000_0000 2 source loader.vmm frames leaf
segment-IsMapped = record {
  aligned = refl;
  small = omega arith;
  resolves = at_byte;
  distinct = apart;
}

copy_segment_lem_example :
    let x = copy_segment 0x1000 3 0x80_0000_0000 source 2 0 loader in
    (x.0 ≡ true)
    × ((k : ℕ)
        → k < 2
        → x.1.bytes (frames ((0x80_0000_0000 + k) / 4096) + (0x80_0000_0000 + k) % 4096) ≡ source k)
    × (x.1.vmm ≡ loader.vmm)
copy_segment_lem_example =
    copy_segment_lem 0x1000 0x80_0000_0000 2 source frames leaf loader segment-IsMapped
