-- ===== src/Vfs/Tests.antt =====
-- Runs of the tree of nodes, and the theorems at a concrete tree.
use myos.Base.{
  ℕ, ◌≡◌, refl, true, false, Option, some, none, List, [], ◌∷◌, ◌==◌, if◌then◌else◌, arith, inl,
  inr,
}
use myos.Base.Text.{codes, same_text}
use myos.Pmm.{bit_test}
use myos.Pmm.Count.{count_free}
use myos.Kmalloc.{Heap}
use myos.Kmalloc.Live.{IsHeap}
use myos.Memfs.{dir, file}
use myos.Vfs.{
  Inode, Vfs, memfs_dir_ops, find_in, find_child, skip_slashes, segment, enter, walk, resolve,
}
use myos.Vfs.Nodes.{memfs_create, memfs_unlink}
use myos.Vfs.Resolution.{Resolves, resolve-Resolves}
use myos.Vfs.Link.{IsListing}
use myos.Vfs.Entries.{IsDirectory, CreateOutcome, memfs_create-CreateOutcome}
use myos.Vfs.Removal.{UnlinkOutcome, memfs_unlink-UnlinkOutcome}

-- Eight pages; pages 0 and 1 are in use. The block in page 1 has the root's node, and another the node of "etc".
abbrev heap : Heap
heap = record {
  pmm = record {
    bitmap = λ i. if i == 0 then 3 else 255;
    free_pages_cnt = 6;
    total_pages_cnt = 8;
    ready = true;
  };
  blocks =
      record { addr = 0x1000; size = 64; free = false }
      ∷ record { addr = 0x10_0000; size = 64; free = false }
      ∷ record { addr = 0x10_1000; size = 4072; free = true }
      ∷ [];
}

abbrev node_of : List ℕ → List ℕ → Option ℕ → Inode
node_of name children parent = record {
  name = name;
  name_ptr = 0;
  node = record { type = dir; contents = none; size = 0 };
  data_ptr = 0;
  tar = none;
  ops = memfs_dir_ops;
  parent = parent;
  children = children;
}

abbrev tree : Vfs
tree = record {
  heap = heap;
  inodes = λ p.
      if p == 0x1018
      then node_of [] (0x10_0018 ∷ []) none
      else node_of (codes "etc") [] (some 0x1018);
  root = some 0x1018;
  cwd = some 0x1018;
}

etc : resolve (codes "//etc/../etc/.") (some 0x1018) tree ≡ some 0x10_0018
unfolding resolve walk skip_slashes segment enter find_child find_in same_text
etc = refl

not_there : resolve (codes "/etc/passwd") (some 0x1018) tree ≡ none
unfolding resolve walk skip_slashes segment enter find_child find_in same_text
not_there = refl

resolve-Resolves_example : Resolves (codes "/etc//") none tree (resolve (codes "/etc//") none tree)
resolve-Resolves_example = resolve-Resolves (codes "/etc//") none tree

heap-IsHeap : IsHeap heap
unfolding bit_test count_free
heap-IsHeap = record {
  apart = (
    λ h. elim h [
      | inl e ↦ omega (arith, e)
      | inr (inl e) ↦ omega (arith, e)
      | inr (inr x) ↦ elim x [ ]
    ],
    (λ h. elim h [ inl e ↦ omega (arith, e) | inr x ↦ elim x [ ] ], (λ h. h, refl)),
  );
  held = (refl, (refl, (refl, refl)));
  pages = record { bytes = λ i. ground arith; counted = refl; is_ready = refl };
  page_zero = refl;
}

root-IsListing : IsListing 0x1018 tree.inodes
unfolding find_in
root-IsListing = record { is_directory = refl; named = (refl, refl) }

root-IsDirectory : IsDirectory 0x1018 tree
root-IsDirectory = record {
  heap = heap-IsHeap;
  live = inl (refl, refl);
  held = λ q m. elim m [ inl e ↦ inr (inl (refl, omega (arith, e))) | inr x ↦ elim x [ ] ];
  listing = root-IsListing;
}

memfs_create-CreateOutcome_example :
    CreateOutcome 0x1018 (codes "tmp") file tree (memfs_create 0x1018 (codes "tmp") file tree)
memfs_create-CreateOutcome_example =
    memfs_create-CreateOutcome 0x1018 (codes "tmp") file tree root-IsDirectory (omega arith)

memfs_unlink-UnlinkOutcome_example :
    UnlinkOutcome 0x1018 (codes "etc") tree (memfs_unlink 0x1018 (codes "etc") tree)
memfs_unlink-UnlinkOutcome_example =
    memfs_unlink-UnlinkOutcome 0x1018 (codes "etc") tree root-IsListing
