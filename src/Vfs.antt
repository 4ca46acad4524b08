-- ===== src/Vfs.antt =====
-- src/vfs.c: the tree of nodes and the resolution of paths.
-- A node is at its address in a store; the chain of a directory's children, from its field children by
-- the fields next, is a list of addresses. A pointer that may be null is an option. The nodes of memory
-- files have their contents in the part that src/memfs.c reads and writes.
pub mod Segments
pub mod Resolution
pub mod Nodes
pub mod Making
pub mod Dir
pub mod Link
pub mod Entries
pub mod Removal
mod Tests
use myos.Base.{
  ℕ, zero, suc, ◌+◌, ◌-◌, ◌*◌, Bool, true, false, not, ◌&&◌, ◌||◌, Option, none, some, List, [],
  ◌∷◌, length, ltb, leb, ◌==◌, if◌then◌else◌, update,
}
use myos.Base.Text.{codes, char_at, rest_of, same_text}
use myos.Kmalloc
use myos.Kmalloc.{Heap}
use myos.Memfs.{Node, NodeType, dir, file, dev, MemFile}
use myos.Tarfs.{TarFile}

abbrev pub name_max : ℕ
name_max = 255

abbrev pub path_max : ℕ
path_max = 512

-- The tables of operations that nodes have; no_ops is the null pointer.
pub data Ops : Type 0 where
  no_ops memfs_dir_ops memfs_file_ops tarfs_dir_ops tarfs_file_ops disk_ops kbd_ops mouse_ops : Ops

-- What the field `data` of a node points to, with its address, 0 for null.
pub record Inode : Type 0 where
  pub name : List ℕ
  pub name_ptr : ℕ
  pub node : Node
  pub data_ptr : ℕ
  pub tar : Option TarFile
  pub ops : Ops
  pub parent : Option ℕ
  pub children : List ℕ

pub record Vfs : Type 0 where
  pub heap : Heap
  pub inodes : ℕ → Inode
  pub root : Option ℕ
  pub cwd : Option ℕ

abbrev pub is_dir : NodeType → Bool
is_dir dir = true
is_dir t = false

abbrev pub set_inode : ℕ → Inode → Vfs → Vfs
set_inode p n v = record v { inodes = update v.inodes p n }

unfoldable pub init : Option ℕ → Vfs → Vfs
init root v = record v { root = root; cwd = root }

abbrev pub set_cwd : Option ℕ → Vfs → Vfs
set_cwd none v = v
set_cwd (some p) v = record v { cwd = some p }

-- The loop of `vfs_find_child`.
unfoldable pub find_in : List ℕ → List ℕ → (ℕ → Inode) → Option ℕ
find_in name [] inodes = none
find_in name (p ∷ ps) inodes =
    let rest = find_in name ps inodes in if same_text (inodes p).name name then some p else rest

unfoldable pub find_child : ℕ → List ℕ → (ℕ → Inode) → Option ℕ
find_child parent name inodes =
    if is_dir (inodes parent).node.type then find_in name (inodes parent).children inodes else none

abbrev pub add_found : ℕ → ℕ → Option ℕ → Vfs → Bool × Vfs
add_found parent child (some p) v = (false, v)
add_found parent child none v =
    let v' = set_inode child (record (v.inodes child) { parent = some parent }) v in
    (
      true,
      set_inode parent (record (v'.inodes parent) { children = child ∷ (v.inodes parent).children })
          v',
    )

-- `true` is the status 0.
unfoldable pub add_child : ℕ → ℕ → Vfs → Bool × Vfs
add_child parent child v =
    if is_dir (v.inodes parent).node.type
    then add_found parent child (find_child parent (v.inodes child).name v.inodes) v
    else (false, v)

-- The list without the first occurrence of an address, none where it has none.
unfoldable pub unlinked : ℕ → List ℕ → Option (List ℕ)
unlinked child [] = none
unlinked child (p ∷ ps) =
    let rest = unlinked child ps in
    if p == child then some ps else elim rest [ none ↦ none | some qs ↦ some (p ∷ qs) ]

abbrev pub remove_found : ℕ → ℕ → Option (List ℕ) → Vfs → Bool × Vfs
remove_found parent child none v = (false, v)
remove_found parent child (some ps) v =
    let v' = set_inode parent (record (v.inodes parent) { children = ps }) v in
    (true, set_inode child (record (v'.inodes child) { parent = none }) v')

unfoldable pub remove_child : ℕ → ℕ → Vfs → Bool × Vfs
remove_child parent child v =
    if is_dir (v.inodes parent).node.type
    then remove_found parent child (unlinked child (v.inodes parent).children) v
    else (false, v)

unfoldable pub skip_slashes : List ℕ → List ℕ
skip_slashes [] = []
skip_slashes (c ∷ p) = let rest = skip_slashes p in if c == b'/' then rest else c ∷ p

-- The characters up to the next slash, and what begins there.
unfoldable pub segment : List ℕ → List ℕ × List ℕ
segment [] = ([], [])
segment (c ∷ p) = let (seg, rest) = segment p in if c == b'/' then ([], c ∷ p) else (c ∷ seg, rest)

abbrev pub parent_or : ℕ → Option ℕ → ℕ
parent_or cur none = cur
parent_or cur (some p) = p

-- A round of the loop of `vfs_resolve`, with a segment.
unfoldable pub enter : List ℕ → ℕ → (ℕ → Inode) → Option ℕ
enter seg cur inodes =
    if same_text seg (codes ".")
    then some cur
    else if same_text seg (codes "..")
    then some (parent_or cur (inodes cur).parent)
    else if length seg == 0
    then some cur
    else if ltb name_max (length seg)
    then none
    else find_child cur seg inodes

-- Going on where there is a result.
abbrev pub and_then {ℓ κ} : {A : Type ℓ} {B : Type κ} → Option A → (A → Option B) → Option B
and_then none next = none
and_then (some a) next = next a

-- The loop, with fuel; none for a missing node.
unfoldable pub walk : ℕ → List ℕ → ℕ → (ℕ → Inode) → Option ℕ
walk zero p cur inodes = none
walk (suc fuel) [] cur inodes = some cur
walk (suc fuel) (c ∷ p) cur inodes =
    and_then (enter (segment (c ∷ p)).0 cur inodes)
      λ next. walk fuel (skip_slashes (segment (c ∷ p)).1) next inodes

-- The directory that a path starts from: the root, or the working directory if there is one.
abbrev pub start_of : List ℕ → Option ℕ → Option ℕ → Option ℕ
start_of path root none = root
start_of path root (some cwd) = if char_at path == b'/' then root else some cwd

abbrev pub resolve_from : List ℕ → Option ℕ → (ℕ → Inode) → Option ℕ
resolve_from path none inodes = none
resolve_from path (some cur) inodes =
    let p = if char_at path == b'/' then skip_slashes path else path in
    walk (length path + 1) p cur inodes

abbrev pub has_root : Option ℕ → Bool
has_root none = false
has_root (some p) = true

unfoldable pub resolve : List ℕ → Option ℕ → Vfs → Option ℕ
resolve path cwd v =
    if has_root v.root then resolve_from path (start_of path v.root cwd) v.inodes else none

abbrev pub resolve_path : List ℕ → Vfs → Option ℕ
resolve_path path v = resolve path v.cwd v
