-- ===== src/Tarfs.antt =====
-- src/tarfs.c: the archive that the loader hands to the kernel.
-- The memory is a function from addresses to bytes, and the archive stands in it from start up to stop.
pub mod Octal
pub mod Find
pub mod Populate
mod Tests
use myos.Base.{
  ℕ, zero, suc, ◌+◌, ◌-◌, ◌*◌, ◌%◌, min, Bool, true, false, not, ◌&&◌, ◌||◌, Option, none, some,
  List, [], ◌∷◌, ◌++◌, length, take, ltb, leb, ◌==◌, if◌then◌else◌,
}
use myos.Base.Align.{u64_mod, align_up_u64}
use myos.Base.Text.{codes, same_text, char_at}
use myos.Memfs.{NodeType, is_file, slice}

-- A file's data stand in the archive from data_ptr on.
pub record TarFile : Type 0 where
  pub data_ptr : ℕ
  pub bytes : ℕ → ℕ
  pub size : ℕ

-- The bytes that are read; none is the result -1.
unfoldable pub tarfs_read : ℕ → ℕ → NodeType → Option TarFile → Option (List ℕ)
tarfs_read offset len type none = none
tarfs_read offset len type (some f) =
    if is_file type
    then some (if leb f.size offset then [] else slice f.bytes offset (min len (f.size - offset)))
    else none

unfoldable pub tarfs_write : ℕ → List ℕ → Option ℕ
tarfs_write offset buf = none

abbrev pub is_octal : ℕ → Bool
is_octal c = leb b'0' c && leb c b'7'

unfoldable pub parse_octal : List ℕ → ℕ → ℕ
parse_octal [] v = v
parse_octal (c ∷ s) v =
    let skipped = parse_octal s v in
    let next = parse_octal s ((v * 8 + (c - b'0')) % u64_mod) in
    if c == 0 then v else if is_octal c then next else skipped

-- Without a leading "./".
abbrev pub strip_dot : List ℕ → List ℕ
strip_dot [] = []
strip_dot (c ∷ s) =
    if (c == b'.') && (char_at s == b'/') then (elim s [ [] ↦ [] | d ∷ t ↦ t ]) else c ∷ s

-- The path as it is looked for, in a buffer of n bytes.
unfoldable pub normalize : List ℕ → ℕ → List ℕ
normalize path n = take (n - 1) (strip_dot path)

pub record Tar : Type 0 where
  pub mem : ℕ → ℕ
  pub start : ℕ
  pub stop : ℕ

unfoldable pub tarfs_init : ℕ → ℕ → Tar → Tar
tarfs_init start stop t = record t { start = start; stop = stop }

-- The characters of a field of n bytes, up to a terminator.
abbrev pub up_to_null : List ℕ → List ℕ
up_to_null [] = []
up_to_null (c ∷ s) = if c == 0 then [] else c ∷ up_to_null s

abbrev pub field : (ℕ → ℕ) → ℕ → ℕ → List ℕ
field mem p n = up_to_null (slice mem p n)

-- What fits behind a text in the buffer of 256 bytes.
abbrev pub push : List ℕ → List ℕ → List ℕ
push s t = s ++ take (255 - length s) t

abbrev pub with_prefix : List ℕ → List ℕ
with_prefix prefix = if length prefix == 0 then [] else push (push [] prefix) (codes "/")

-- An entry's name, from its header's fields.
unfoldable pub full_name : List ℕ → List ℕ → List ℕ
full_name prefix name = strip_dot (push (with_prefix prefix) name)

-- The fields of the header at an address.
abbrev pub name_at : (ℕ → ℕ) → ℕ → List ℕ
name_at mem p = full_name (field mem (p + 345) 155) (field mem p 100)

abbrev pub size_at : (ℕ → ℕ) → ℕ → ℕ
size_at mem p = parse_octal (slice mem (p + 124) 12) 0

-- The address of the header behind one with so many bytes of data.
abbrev pub next_header : ℕ → ℕ → ℕ
next_header p size = (p + (512 + align_up_u64 size 512) % u64_mod) % u64_mod

-- The loop of `tarfs_find`, with fuel: where the data are, and their size.
unfoldable pub find_from : ℕ → (ℕ → ℕ) → ℕ → ℕ → List ℕ → Option (ℕ × ℕ)
find_from zero mem stop p want = none
find_from (suc fuel) mem stop p want =
    let rest = find_from fuel mem stop (next_header p (size_at mem p)) want in
    if not (leb ((p + 512) % u64_mod) stop) || (mem p == 0)
    then none
    else if same_text (name_at mem p) want
    then some (p + 512, size_at mem p)
    else rest

-- A round takes 512 bytes at least.
abbrev pub fuel_for : Tar → ℕ
fuel_for t = t.stop - t.start + 1

unfoldable pub tarfs_find : List ℕ → Tar → Option (ℕ × ℕ)
tarfs_find path t =
    if (t.start == 0) || (t.stop == 0)
    then none
    else find_from (fuel_for t) t.mem t.stop t.start (normalize path 128)
