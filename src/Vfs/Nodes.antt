-- ===== src/Vfs/Nodes.antt =====
-- src/vfs.c and src/memfs.c: the making and the removal of nodes, by path.
-- `true` is the status 0. A node that is freed stays in the store, as its memory does.
use myos.Base.{
  ℕ, ◌+◌, Bool, true, false, not, ◌&&◌, ◌||◌, Option, none, some, List, [], ◌∷◌, length, take, leb,
  ◌==◌, if◌then◌else◌,
}
use myos.Base.Text.{codes, same_text}
use myos.Kmalloc
use myos.Kmalloc.{Heap}
use myos.Memfs.{NodeType, dir, file, is_file, MemFile}
use myos.Tarfs.{TarFile}
use myos.Vfs.{
  Ops, memfs_dir_ops, memfs_file_ops, Inode, Vfs, name_max, path_max, is_dir, set_inode, find_child,
  add_child, remove_child, resolve,
}

abbrev pub sizeof_node : ℕ
sizeof_node = 64

abbrev pub sizeof_memfs_file : ℕ
sizeof_memfs_file = 24

-- What a new node's data pointer is: the address, the file of memory, the file of the archive.
pub record Payload : Type 0 where
  pub ptr : ℕ
  pub contents : Option MemFile
  pub tar : Option TarFile

abbrev pub no_data : Payload
no_data = record { ptr = 0; contents = none; tar = none }

-- The name's copy, 0 for failure.
abbrev pub strdup : List ℕ → Heap → ℕ × Heap
strdup s h = Kmalloc.kmalloc (length s + 1) h

abbrev pub new_inode : List ℕ → ℕ → NodeType → Ops → Payload → Inode
new_inode name name_ptr type ops d = record {
  name = name;
  name_ptr = name_ptr;
  node = record { type = type; contents = d.contents; size = 0 };
  data_ptr = d.ptr;
  tar = d.tar;
  ops = ops;
  parent = none;
  children = [];
}

abbrev pub named_node : List ℕ → NodeType → Ops → Payload → ℕ → ℕ × Heap → Vfs → Option ℕ × Vfs
named_node name type ops d p (q, h) v =
    if q == 0
    then (none, record v { heap = Kmalloc.kfree p h })
    else (some p, set_inode p (new_inode name q type ops d) (record v { heap = h }))

abbrev pub node_at : List ℕ → NodeType → Ops → Payload → ℕ × Heap → Vfs → Option ℕ × Vfs
node_at name type ops d (p, h) v =
    if p == 0 then (none, record v { heap = h }) else named_node name type ops d p (strdup name h) v

unfoldable pub create_node : List ℕ → NodeType → Ops → Payload → Vfs → Option ℕ × Vfs
create_node name type ops d v = node_at name type ops d (Kmalloc.kmalloc sizeof_node v.heap) v

abbrev pub free_if : Bool → ℕ → Heap → Heap
free_if b p h = if b then Kmalloc.kfree p h else h

-- The first field of what the data pointer points to, read as a file in memory: for a file of the
-- archive it is the pointer to its data.
abbrev pub first_field : Option MemFile → Option TarFile → ℕ
first_field (some f) tar = f.data_ptr
first_field none (some t) = t.data_ptr
first_field none none = 0

abbrev pub buffer_of : Inode → ℕ
buffer_of n = first_field n.node.contents n.tar

abbrev pub is_memory_file : Inode → Bool
is_memory_file n = is_file n.node.type && not (n.data_ptr == 0)

-- `memfs_free_node`
unfoldable pub free_node : ℕ → Vfs → Vfs
free_node p v =
    let n = v.inodes p in
    let h₁ = free_if (is_memory_file n && not (buffer_of n == 0)) (buffer_of n) v.heap in
    let h₂ = free_if (is_memory_file n) n.data_ptr h₁ in
    let h₃ = free_if (not (n.name_ptr == 0)) n.name_ptr h₂ in record v { heap = Kmalloc.kfree p h₃ }

abbrev pub free_data : ℕ → Vfs → Vfs
free_data ptr v = if ptr == 0 then v else record v { heap = Kmalloc.kfree ptr v.heap }

-- The end of `memfs_create`, after the node is in the directory or not.
abbrev pub linked : ℕ → Bool × Vfs → Option ℕ × Vfs
linked p (false, v) = (none, free_node p v)
linked p (true, v) = (some p, v)

abbrev pub link_new : ℕ → ℕ → Option ℕ × Vfs → Option ℕ × Vfs
link_new parent data_ptr (none, v) = (none, free_data data_ptr v)
link_new parent data_ptr (some p, v) = linked p (add_child parent p v)

abbrev pub empty_file : ℕ → Payload
empty_file ptr = record {
  ptr = ptr;
  contents = some (record { data_ptr = 0; bytes = λ _. 0; size = 0; cap = 0 });
  tar = none;
}

abbrev pub create_file : ℕ → List ℕ → NodeType → ℕ × Heap → Vfs → Option ℕ × Vfs
create_file parent name type (ptr, h) v =
    if ptr == 0
    then (none, record v { heap = h })
    else link_new parent ptr
        (create_node name type memfs_file_ops (empty_file ptr) (record v { heap = h }))

abbrev pub create_typed : ℕ → List ℕ → NodeType → Vfs → Option ℕ × Vfs
create_typed parent name dir v = link_new parent 0 (create_node name dir memfs_dir_ops no_data v)
create_typed parent name type v =
    create_file parent name type (Kmalloc.kmalloc sizeof_memfs_file v.heap) v

abbrev pub is_none : Option ℕ → Bool
is_none none = true
is_none (some p) = false

-- `memfs_create`: the new node, none for the status -1.
unfoldable pub memfs_create : ℕ → List ℕ → NodeType → Vfs → Option ℕ × Vfs
memfs_create parent name type v =
    if is_dir (v.inodes parent).node.type && is_none (find_child parent name v.inodes)
    then create_typed parent name type v
    else (none, v)

abbrev pub freed : ℕ → Bool × Vfs → Bool × Vfs
freed child (false, v) = (false, v)
freed child (true, v) = (true, free_node child v)

abbrev pub has_children : Inode → Bool
has_children n = is_dir n.node.type && not (length n.children == 0)

abbrev pub unlink_found : ℕ → Option ℕ → Vfs → Bool × Vfs
unlink_found parent none v = (false, v)
unlink_found parent (some child) v =
    if has_children (v.inodes child) then (false, v) else freed child (remove_child parent child v)

unfoldable pub memfs_unlink : ℕ → List ℕ → Vfs → Bool × Vfs
memfs_unlink parent name v =
    if is_dir (v.inodes parent).node.type
    then unlink_found parent (find_child parent name v.inodes) v
    else (false, v)

-- `memfs_create_root`
unfoldable pub create_root : Vfs → Option ℕ × Vfs
create_root v = create_node [] dir memfs_dir_ops no_data v

-- The loop that drops slashes at the end, but for the first character.
unfoldable pub strip_end : List ℕ → List ℕ
strip_end [] = []
strip_end (c ∷ p) =
    let rest = strip_end p in if (c == b'/') && (length rest == 0) then [] else c ∷ rest

abbrev pub trimmed : List ℕ → List ℕ
trimmed [] = []
trimmed (c ∷ p) = c ∷ strip_end p

-- What stands before and behind the last slash, none without a slash.
unfoldable pub last_slash : List ℕ → Option (List ℕ × List ℕ)
last_slash [] = none
last_slash (c ∷ p) = elim (last_slash p) [
  | some (before, behind) ↦ some (c ∷ before, behind)
  | none ↦ if c == b'/' then some ([], p) else none
]

abbrev pub cwd_or_root : Vfs → Option ℕ
cwd_or_root v = elim v.cwd [ none ↦ v.root | some p ↦ some p ]

-- The directory that the last name of a path stands in, if it is there, and the name.
abbrev pub parent_of : List ℕ → Vfs → Option ℕ × List ℕ
parent_of path v = elim (last_slash path) [
  | none ↦ (cwd_or_root v, take name_max path)
  | some ([], name) ↦ (v.root, take name_max name)
  | some (c ∷ before, name) ↦ (resolve (c ∷ before) v.cwd v, take name_max name)
]

-- None for a path that is empty or too long, and for a missing directory.
unfoldable pub resolve_parent : List ℕ → Vfs → Option ℕ × List ℕ
resolve_parent path v =
    if (length path == 0) || leb path_max (length path)
    then (none, [])
    else parent_of (trimmed path) v

abbrev pub is_special : List ℕ → Bool
is_special name = (length name == 0) || same_text name (codes ".") || same_text name (codes "..")

abbrev pub can_create : Ops → Bool
can_create memfs_dir_ops = true
can_create ops = false

abbrev pub made : Option ℕ × Vfs → Bool × Vfs
made (none, v) = (false, v)
made (some p, v) = (true, v)

abbrev pub make_in : NodeType → Option ℕ × List ℕ → Vfs → Bool × Vfs
make_in type (none, name) v = (false, v)
make_in type (some parent, name) v =
    let n = v.inodes parent in
    if is_dir n.node.type && not (is_special name) && can_create n.ops
    then made (memfs_create parent name type v)
    else (false, v)

unfoldable pub mkdir : List ℕ → Vfs → Bool × Vfs
mkdir path v = make_in dir (resolve_parent path v) v

unfoldable pub create : List ℕ → Vfs → Bool × Vfs
create path v = make_in file (resolve_parent path v) v

abbrev pub unlink_in : Option ℕ × List ℕ → Vfs → Bool × Vfs
unlink_in (none, name) v = (false, v)
unlink_in (some parent, name) v =
    let n = v.inodes parent in
    if is_dir n.node.type && can_create n.ops then memfs_unlink parent name v else (false, v)

unfoldable pub unlink : List ℕ → Vfs → Bool × Vfs
unlink path v = unlink_in (resolve_parent path v) v
