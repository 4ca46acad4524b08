-- ===== src/Elf/Relocate.antt =====
-- src/elf.c: relocations. The bytes of memory are a function from physical addresses; the tables of pages
-- are those of src/vmm.c.
use myos.Base.{
  ℕ, zero, suc, ◌+◌, ◌-◌, ◌*◌, ◌/◌, ◌%◌, ◌^◌, Bool, true, false, ◌&&◌, ◌||◌, Option, none, some,
  List, ltb, leb, ◌==◌, if◌then◌else◌,
}
use myos.Base.Align.{u64_mod}
use myos.Elf.{word, Phdr, e_type, et_dyn, vaddr_to_ptr}
use myos.Vmm
use myos.Vmm.{Vmm}

pub record Loader : Type 0 where
  pub vmm : Vmm
  pub bytes : ℕ → ℕ

-- The eight bytes of a number, at an address.
abbrev pub put_u64 : ℕ → ℕ → (ℕ → ℕ) → ℕ → ℕ
put_u64 pa value bytes k =
    if leb pa k && ltb k (pa + 8) then value / 256 ^ (k - pa) % 256 else bytes k

abbrev pub write_at : Option (ℕ × ℕ) → ℕ → Loader → Bool × Loader
write_at none value l = (false, l)
write_at (some (pa, flags)) value l = (true, record l { bytes = put_u64 pa value l.bytes })

unfoldable pub elf_write_u64 : ℕ → ℕ → ℕ → Loader → Bool × Loader
elf_write_u64 cr3 va value l = write_at (Vmm.resolve cr3 va l.vmm) value l

abbrev pub read_at : Option (ℕ × ℕ) → Loader → Option ℕ
read_at none l = none
read_at (some (pa, flags)) l = some (word l.bytes pa 8)

unfoldable pub elf_read_u64 : ℕ → ℕ → Loader → Option ℕ
elf_read_u64 cr3 va l = read_at (Vmm.resolve cr3 va l.vmm) l

-- The entries of the dynamic section.
pub record Dynamic : Type 0 where
  pub rela : ℕ
  pub relasz : ℕ
  pub relaent : ℕ
  pub rel : ℕ
  pub relsz : ℕ
  pub relent : ℕ
  pub symtab : ℕ
  pub syment : ℕ

-- What stays the same from one relocation to the next.
pub record Context : Type 0 where
  pub image : ℕ → ℕ
  pub cr3 : ℕ
  pub load_bias : ℕ
  pub reloc_base : ℕ
  pub symtab : Option ℕ
  pub syment : ℕ

abbrev pub is_symbolic : ℕ → Bool
is_symbolic type = (type == 1) || (type == 6) || (type == 7)

-- The value of a symbol's relocation; none for a symbol that is not defined.
abbrev pub symbol_value : Context → ℕ → Option ℕ → ℕ → Option ℕ
symbol_value c index none addend = none
symbol_value c index (some symtab) addend =
    let sym = symtab + index * c.syment in
    if word c.image (sym + 6) 2 == 0
    then none
    else some ((c.load_bias + word c.image (sym + 8) 8 + addend) % u64_mod)

-- The value by the relocation's type; none for a type that is not supported.
abbrev pub value_of : Context → ℕ → ℕ → Option ℕ
value_of c info addend =
    let type = info % 2 ^ 32 in
    if type == 8
    then some ((c.load_bias + addend) % u64_mod)
    else if is_symbolic type
    then symbol_value c (info / 2 ^ 32) c.symtab addend
    else none

abbrev pub store : Context → ℕ → Option ℕ → Loader → Bool × Loader
store c place none l = (false, l)
store c place (some value) l = elf_write_u64 c.cr3 place value l

-- The relocation at an offset of the image: its place, and its value by the addend.
abbrev pub apply_rela : Context → ℕ → Loader → Bool × Loader
apply_rela c r l =
    store c ((c.reloc_base + word c.image r 8) % u64_mod)
      (value_of c (word c.image (r + 8) 8) (word c.image (r + 16) 8)) l

abbrev pub with_addend : Context → ℕ → ℕ → Option ℕ → Loader → Bool × Loader
with_addend c place info none l = (false, l)
with_addend c place info (some addend) l = store c place (value_of c info addend) l

abbrev pub apply_rel : Context → ℕ → Loader → Bool × Loader
apply_rel c r l =
    let place = (c.reloc_base + word c.image r 8) % u64_mod in
    with_addend c place (word c.image (r + 8) 8) (elf_read_u64 c.cr3 place l) l

abbrev pub on_success : Bool × Loader → (Loader → Bool × Loader) → Bool × Loader
on_success (false, l) next = (false, l)
on_success (true, l) next = next l

-- The loops over the relocations.
unfoldable pub apply_relas : Context → ℕ → ℕ → ℕ → Loader → Bool × Loader
apply_relas c zero r ent l = (true, l)
apply_relas c (suc n) r ent l = on_success (apply_rela c r l) λ l'. apply_relas c n (r + ent) ent l'

unfoldable pub apply_rels : Context → ℕ → ℕ → ℕ → Loader → Bool × Loader
apply_rels c zero r ent l = (true, l)
apply_rels c (suc n) r ent l = on_success (apply_rel c r l) λ l'. apply_rels c n (r + ent) ent l'

abbrev pub or_default : ℕ → ℕ → ℕ
or_default n d = if n == 0 then d else n

abbrev pub relas_at : Context → ℕ → ℕ → Option ℕ → Loader → Bool × Loader
relas_at c sz ent none l = (false, l)
relas_at c sz ent (some r) l = apply_relas c (sz / ent) r ent l

abbrev pub rels_at : Context → ℕ → ℕ → Option ℕ → Loader → Bool × Loader
rels_at c sz ent none l = (false, l)
rels_at c sz ent (some r) l = apply_rels c (sz / ent) r ent l

abbrev pub all_relas : Context → ℕ → List Phdr → Dynamic → Loader → Bool × Loader
all_relas c size phs d l =
    if (d.rela == 0) || (d.relasz == 0)
    then (true, l)
    else relas_at c d.relasz (or_default d.relaent 24) (vaddr_to_ptr size phs d.rela) l

abbrev pub all_rels : Context → ℕ → List Phdr → Dynamic → Loader → Bool × Loader
all_rels c size phs d l =
    if (d.rel == 0) || (d.relsz == 0)
    then (true, l)
    else rels_at c d.relsz (or_default d.relent 16) (vaddr_to_ptr size phs d.rel) l

abbrev pub context : (ℕ → ℕ) → ℕ → List Phdr → ℕ → ℕ → Dynamic → Context
context image size phs cr3 load_bias d = record {
  image = image;
  cr3 = cr3;
  load_bias = load_bias;
  reloc_base = if e_type image == et_dyn then load_bias else 0;
  symtab = if d.symtab == 0 then none else vaddr_to_ptr size phs d.symtab;
  syment = or_default d.syment 24;
}

-- `elf_apply_relocations`
unfoldable pub apply_relocations :
    (ℕ → ℕ) → ℕ → List Phdr → ℕ → ℕ → Dynamic → Loader → Bool × Loader
apply_relocations image size phs cr3 load_bias d l =
    let c = context image size phs cr3 load_bias d in
    on_success (all_relas c size phs d l) λ l'. all_rels c size phs d l'
