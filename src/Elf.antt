-- ===== src/Elf.antt =====
-- src/elf.c: the format of a program's image. The image is a function from offsets to bytes, with its size;
-- a field is read where it stands, in little-endian order.
pub mod Relocate
pub mod Load
pub mod Copy
mod Tests
use myos.Base.{
  ℕ, zero, suc, ◌+◌, ◌-◌, ◌*◌, ◌%◌, Bool, true, false, ◌&&◌, ◌||◌, Option, none, some, List, [],
  ◌∷◌, ltb, leb, ◌==◌, if◌then◌else◌,
}
use myos.Base.Align.{u64_mod}

-- A number of n bytes.
abbrev pub word : (ℕ → ℕ) → ℕ → ℕ → ℕ
word image p zero = 0
word image p (suc n) = image p + 256 * word image (p + 1) n

abbrev pub e_type : (ℕ → ℕ) → ℕ
e_type image = word image 16 2

abbrev pub e_machine : (ℕ → ℕ) → ℕ
e_machine image = word image 18 2

abbrev pub e_entry : (ℕ → ℕ) → ℕ
e_entry image = word image 24 8

abbrev pub e_phoff : (ℕ → ℕ) → ℕ
e_phoff image = word image 32 8

abbrev pub e_phentsize : (ℕ → ℕ) → ℕ
e_phentsize image = word image 54 2

abbrev pub e_phnum : (ℕ → ℕ) → ℕ
e_phnum image = word image 56 2

abbrev pub sizeof_ehdr : ℕ
sizeof_ehdr = 64

abbrev pub sizeof_phdr : ℕ
sizeof_phdr = 56

abbrev pub et_exec : ℕ
et_exec = 2

abbrev pub et_dyn : ℕ
et_dyn = 3

abbrev pub has_magic : (ℕ → ℕ) → Bool
has_magic image = (image 0 == 0x7F) && (image 1 == b'E') && (image 2 == b'L') && (image 3 == b'F')

unfoldable pub elf_validate : (ℕ → ℕ) → ℕ → Bool
elf_validate image size =
    leb sizeof_ehdr size
    && has_magic image
    && (image 4 == 2)
    && (image 5 == 1)
    && ((e_type image == et_exec) || (e_type image == et_dyn))
    && (e_machine image == 62)
    && (e_phentsize image == sizeof_phdr)
    && leb ((e_phoff image + e_phnum image * sizeof_phdr) % u64_mod) size

pub record Phdr : Type 0 where
  pub p_type : ℕ
  pub p_flags : ℕ
  pub p_offset : ℕ
  pub p_vaddr : ℕ
  pub p_filesz : ℕ
  pub p_memsz : ℕ

abbrev pub phdr_at : (ℕ → ℕ) → ℕ → Phdr
phdr_at image p = record {
  p_type = word image p 4;
  p_flags = word image (p + 4) 4;
  p_offset = word image (p + 8) 8;
  p_vaddr = word image (p + 16) 8;
  p_filesz = word image (p + 32) 8;
  p_memsz = word image (p + 40) 8;
}

-- The program headers, n of them from an offset on.
unfoldable pub phdrs_from : (ℕ → ℕ) → ℕ → ℕ → List Phdr
phdrs_from image p zero = []
phdrs_from image p (suc n) = phdr_at image p ∷ phdrs_from image (p + sizeof_phdr) n

abbrev pub phdrs : (ℕ → ℕ) → List Phdr
phdrs image = phdrs_from image (e_phoff image) (e_phnum image)

abbrev pub pt_load : ℕ
pt_load = 1

abbrev pub pt_dynamic : ℕ
pt_dynamic = 2

abbrev pub holds_vaddr : ℕ → Phdr → Bool
holds_vaddr vaddr ph =
    (ph.p_type == pt_load)
    && leb ph.p_vaddr vaddr
    && ltb vaddr ((ph.p_vaddr + ph.p_filesz) % u64_mod)

-- `elf_find_phdr_for_vaddr`
unfoldable pub find_phdr : ℕ → List Phdr → Option Phdr
find_phdr vaddr [] = none
find_phdr vaddr (ph ∷ phs) =
    let rest = find_phdr vaddr phs in if holds_vaddr vaddr ph then some ph else rest

-- The offset in the image of what an address of the program points to.
abbrev pub in_segment : ℕ → ℕ → Option Phdr → Option ℕ
in_segment size vaddr none = none
in_segment size vaddr (some ph) =
    let off = (ph.p_offset + (vaddr - ph.p_vaddr)) % u64_mod in
    if leb size off then none else some off

unfoldable pub vaddr_to_ptr : ℕ → List Phdr → ℕ → Option ℕ
vaddr_to_ptr size phs vaddr = in_segment size vaddr (find_phdr vaddr phs)
