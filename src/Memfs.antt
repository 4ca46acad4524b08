-- ===== src/Memfs.antt =====
-- src/memfs.c: reading and writing a file in memory, over the kernel's heap.
-- A file's buffer is the pointer with the bytes behind it; a new buffer holds what memory has at its place,
-- which is the argument raw. `none` is the result -1.
pub mod Grow
pub mod Bytes
mod Tests
use myos.Base.{
  ℕ, zero, suc, ◌+◌, ◌-◌, ◌*◌, ◌%◌, ◌^◌, min, Bool, true, false, not, ◌&&◌, Option, none, some,
  List, [], ◌∷◌, length, get_or, ltb, leb, ◌==◌, if◌then◌else◌,
}
use myos.Base.Align.{u64_mod}
use myos.Kmalloc
use myos.Kmalloc.{Heap}

pub record MemFile : Type 0 where
  pub data_ptr : ℕ
  pub bytes : ℕ → ℕ
  pub size : ℕ
  pub cap : ℕ

pub data NodeType : Type 0 where
  dir file dev : NodeType

-- The parts of a node that reading and writing have; no file is the null pointer.
pub record Node : Type 0 where
  pub type : NodeType
  pub contents : Option MemFile
  pub size : ℕ

abbrev pub is_file : NodeType → Bool
is_file file = true
is_file t = false

-- The file behind a node, if it has one and is one.
abbrev pub file_of : Node → Option MemFile
file_of node = if is_file node.type then node.contents else none

-- What `memcpy` copies, n bytes from the i-th on.
unfoldable pub slice : (ℕ → ℕ) → ℕ → ℕ → List ℕ
slice bytes i zero = []
slice bytes i (suc n) = bytes i ∷ slice bytes (i + 1) n

abbrev pub read_bytes : ℕ → ℕ → MemFile → List ℕ
read_bytes offset len f =
    if leb f.size offset then [] else slice f.bytes offset (min len (f.size - offset))

-- The bytes that are read, as many as the result says.
unfoldable pub read : ℕ → ℕ → Node → Option (List ℕ)
read offset len node = elim (file_of node) [ none ↦ none | some f ↦ some (read_bytes offset len f) ]

-- The loop that doubles the capacity, with fuel; none where it has not ended.
unfoldable pub double_cap : ℕ → ℕ → ℕ → Option ℕ
double_cap zero cur need = none
double_cap (suc fuel) cur need =
    let rest = double_cap fuel (cur * 2 % u64_mod) need in if ltb cur need then rest else some cur

abbrev pub free_old : ℕ → Heap → Heap
free_old ptr h = if ptr == 0 then h else Kmalloc.kfree ptr h

-- A new buffer with what the file had, none without memory.
abbrev pub moved : (ℕ → ℕ) → ℕ → MemFile → ℕ × Heap → Option MemFile × Heap
moved raw new_cap f (ptr, h) = if ptr == 0 then (none, h) else (
  some (record f {
    data_ptr = ptr;
    bytes = λ k. if not (f.data_ptr == 0) && ltb k f.size then f.bytes k else raw (ptr + k);
    cap = new_cap;
  }),
  free_old f.data_ptr h,
)

-- The fuel that doubling a size_t can take.
abbrev pub max_doublings : ℕ
max_doublings = 65

abbrev pub start_cap : MemFile → ℕ
start_cap f = if f.cap == 0 then 64 else f.cap

abbrev pub grow : (ℕ → ℕ) → Option ℕ → MemFile → Heap → Option MemFile × Heap
grow raw none f h = (none, h)
grow raw (some new_cap) f h = moved raw new_cap f (Kmalloc.kmalloc new_cap h)

abbrev pub with_room : (ℕ → ℕ) → ℕ → MemFile → Heap → Option MemFile × Heap
with_room raw need f h =
    if ltb f.cap need
    then grow raw (double_cap max_doublings (start_cap f) need) f h
    else (some f, h)

-- `memcpy` into the buffer, and the new size.
abbrev pub put : ℕ → List ℕ → ℕ → MemFile → MemFile
put offset buf need f = record f {
  bytes = λ k.
      if leb offset k && ltb k (offset + length buf) then get_or buf (k - offset) 0 else f.bytes k;
  size = if ltb f.size need then need else f.size;
}

abbrev pub written : ℕ → List ℕ → ℕ → Node → Option MemFile × Heap → Option ℕ × Node × Heap
written offset buf need node (none, h) = (none, node, h)
written offset buf need node (some f, h) =
    let f' = put offset buf need f in
    (some (length buf), record node { contents = some f'; size = f'.size }, h)

abbrev pub write_file : (ℕ → ℕ) → ℕ → List ℕ → Option MemFile → Node → Heap → Option ℕ × Node × Heap
write_file raw offset buf none node h = (none, node, h)
write_file raw offset buf (some f) node h =
    let need = (offset + length buf) % u64_mod in
    written offset buf need node (with_room raw need f h)

unfoldable pub write : (ℕ → ℕ) → ℕ → List ℕ → Node → Heap → Option ℕ × Node × Heap
write raw offset buf node h = write_file raw offset buf (file_of node) node h
