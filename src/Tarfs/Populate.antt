-- ===== src/Tarfs/Populate.antt =====
-- src/tarfs.c: the archive's entries become nodes of the tree.
use myos.Base.{
  ℕ, zero, suc, ◌+◌, ◌%◌, Bool, true, false, not, ◌||◌, Option, none, some, List, [], ◌∷◌, length,
  take, ltb, leb, ◌==◌, if◌then◌else◌,
}
use myos.Base.Align.{u64_mod}
use myos.Kmalloc
use myos.Kmalloc.{Heap}
use myos.Memfs.{dir, file}
use myos.Tarfs.{TarFile, Tar, name_at, size_at, next_header, fuel_for}
use myos.Vfs.{
  Vfs, tarfs_dir_ops, tarfs_file_ops, name_max, set_inode, segment, find_child, add_child,
}
use myos.Vfs.Nodes.{Payload, no_data, create_node}

abbrev pub sizeof_tarfs_file : ℕ
sizeof_tarfs_file = 16

-- `vfs_add_child`, whose result is not looked at.
abbrev pub added : ℕ → Option ℕ × Vfs → Vfs
added cur (none, v) = v
added cur (some p, v) = (add_child cur p v).1

abbrev pub tar_data : ℕ → TarFile → Payload
tar_data ptr f = record { ptr = ptr; contents = none; tar = some f }

abbrev pub sized : ℕ → ℕ → Vfs → Vfs
sized p size v =
    set_inode p (record (v.inodes p) { node = record (v.inodes p).node { size = size } }) v

abbrev pub add_file_node : ℕ → ℕ → ℕ → Option ℕ × Vfs → Vfs
add_file_node cur ptr size (none, v) = record v { heap = Kmalloc.kfree ptr v.heap }
add_file_node cur ptr size (some p, v) = (add_child cur p (sized p size v)).1

abbrev pub add_file : ℕ → List ℕ → TarFile → ℕ × Heap → Vfs → Vfs
add_file cur name f (ptr, h) v =
    if ptr == 0
    then record v { heap = h }
    else add_file_node cur ptr f.size
        (create_node name file tarfs_file_ops (tar_data ptr f) (record v { heap = h }))

-- The last name of an entry's path.
abbrev pub add_leaf : ℕ → List ℕ → TarFile → Bool → Option ℕ → Vfs → Vfs
add_leaf cur name f is_dir (some p) v = v
add_leaf cur name f is_dir none v =
    if is_dir
    then added cur (create_node name dir tarfs_dir_ops no_data v)
    else add_file cur name f (Kmalloc.kmalloc sizeof_tarfs_file v.heap) v

-- The directory that was made, none where the entry is given up.
abbrev pub kept : ℕ → Bool × Vfs → Option ℕ × Vfs
kept p (false, v) = (none, v)
kept p (true, v) = (some p, v)

abbrev pub linked_dir : ℕ → Option ℕ × Vfs → Option ℕ × Vfs
linked_dir cur (none, v) = (none, v)
linked_dir cur (some p, v) = kept p (add_child cur p v)

-- The directory of a name on the way to the last, made where it is missing.
abbrev pub next_dir : ℕ → List ℕ → Option ℕ → Vfs → Option ℕ × Vfs
next_dir cur name (some p) v = (some p, v)
next_dir cur name none v = linked_dir cur (create_node name dir tarfs_dir_ops no_data v)

-- The loop of `tarfs_add_entry`, with fuel.
unfoldable pub add_entry_from : ℕ → List ℕ → TarFile → Bool → ℕ → Vfs → Vfs
add_entry_from zero path f is_dir cur v = v
add_entry_from (suc fuel) [] f is_dir cur v = v
add_entry_from (suc fuel) (c ∷ path) f is_dir cur v =
    let (name, rest) = segment (c ∷ path) in
    if ltb name_max (length name) then v else elim rest [
      | [] ↦ add_leaf cur name f is_dir (find_child cur name v.inodes) v
      | slash ∷ behind ↦
          let (next, v') = next_dir cur name (find_child cur name v.inodes) v in
          elim next [ none ↦ v' | some p ↦ add_entry_from fuel behind f is_dir p v' ]
    ]

unfoldable pub add_entry : ℕ → List ℕ → TarFile → Bool → Vfs → Vfs
add_entry root path f is_dir v = add_entry_from (length path + 1) path f is_dir root v

abbrev pub ends_in_slash : List ℕ → Bool
ends_in_slash [] = false
ends_in_slash (c ∷ []) = c == b'/'
ends_in_slash (c ∷ d ∷ s) = ends_in_slash (d ∷ s)

abbrev pub without_last : List ℕ → List ℕ
without_last [] = []
without_last (c ∷ []) = []
without_last (c ∷ d ∷ s) = c ∷ without_last (d ∷ s)

abbrev pub clean : List ℕ → List ℕ
clean name = let s = take 255 name in if ends_in_slash s then without_last s else s

abbrev pub is_dir_entry : (ℕ → ℕ) → ℕ → Bool
is_dir_entry mem p = (mem (p + 156) == b'5') || ends_in_slash (name_at mem p)

abbrev pub data_at : (ℕ → ℕ) → ℕ → TarFile
data_at mem p = record { data_ptr = p + 512; bytes = λ k. mem (p + 512 + k); size = size_at mem p }

-- The loop of `tarfs_populate_vfs`, with fuel.
unfoldable pub populate_from : ℕ → (ℕ → ℕ) → ℕ → ℕ → ℕ → Vfs → Vfs
populate_from zero mem stop p root v = v
populate_from (suc fuel) mem stop p root v =
    let v' = add_entry root (clean (name_at mem p)) (data_at mem p) (is_dir_entry mem p) v in
    let rest = populate_from fuel mem stop (next_header p (size_at mem p)) root v' in
    if not (leb ((p + 512) % u64_mod) stop) || (mem p == 0) then v else rest

unfoldable pub tarfs_populate_vfs : Option ℕ → Tar → Vfs → Vfs
tarfs_populate_vfs none t v = v
tarfs_populate_vfs (some root) t v =
    if (t.start == 0) || (t.stop == 0)
    then v
    else populate_from (fuel_for t) t.mem t.stop t.start root v
