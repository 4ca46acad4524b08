-- ===== src/Files/Share.antt =====
-- src/vfs.c: two open files of one node.
use myos.Base.{
  ℕ, ◌+◌, ◌%◌, ◌^◌, ◌≤◌, ◌<◌, ◌≡◌, ◌≢◌, refl, sym, ap, ◌∙◌, subst, Option, none, some, List, length,
  arith,
}
use myos.Base.Align.{u64_mod}
use myos.Devfs.{BlockDevice}
use myos.Files.{File, System, moved_by, read_by, write_by, with_node, vfs_read, vfs_write}
use myos.Kmalloc.{Heap}
use myos.Memfs
use myos.Memfs.{Node, MemFile, file}
use myos.Memfs.Bytes.{IsWf, Written, write_lem, ReadsBack, read-write}
use myos.Vfs.{Inode, memfs_file_ops}
use myos.Vfs.Link.{update_same, update_other}

module _ {S : Type 0} (dev : BlockDevice S) (raw : ℕ → ℕ) where
  -- A write moves its own file forward; what it wrote is read through another open file.
  abbrev pub Shares : File → File → List ℕ → System S → Option ℕ × File × System S → Type 0
  Shares f₁ f₂ buf s (none, f, s') = f ≡ f₁
  Shares f₁ f₂ buf s (some n, f, s') =
      (n ≡ length buf)
      × (f ≡ record f₁ { offset = f₁.offset + n })
      × ((vfs_read dev raw f₂ n s').0 ≡ some buf)
      × ((q : ℕ) → q ≢ f₁.node → s'.vfs.inodes q ≡ s.vfs.inodes q)

  vfs_read-Memfs :
      (f : File) (n : ℕ) (s : System S) (i : Inode)
      → s.vfs.inodes f.node ≡ i
      → i.ops ≡ memfs_file_ops
      → (vfs_read dev raw f n s).0 ≡ Memfs.read f.offset n i.node
  unfolding vfs_read
  vfs_read-Memfs f n s i e ops =
      ap (λ j. (read_by dev raw j.ops j f.offset n s).0) e
      ∙ ap (λ t. (read_by dev raw t i f.offset n s).0) ops

  wrote :
      (f₁ f₂ : File) (buf : List ℕ) (s : System S) (m : MemFile) (x : Option ℕ × Node × Heap)
      → (s.vfs.inodes f₁.node).ops ≡ memfs_file_ops
      → f₂.node ≡ f₁.node
      → f₂.offset ≡ f₁.offset
      → f₁.offset + length buf ≤ 2 ^ 63
      → Written f₁.offset buf m (s.vfs.inodes f₁.node).node s.vfs.heap x
      → ReadsBack f₁.offset buf x
      → let (o, s') = with_node dev raw f₁.node (s.vfs.inodes f₁.node) x s in
        Shares f₁ f₂ buf s (o, moved_by o f₁, s')
  wrote f₁ f₂ buf s m (none, node, h) ops same at end w r = refl
  wrote f₁ f₂ buf s m (some n, node, h) ops same at end w r =
      let i : Inode = record (s.vfs.inodes f₁.node) { node = node } in
      let s' : System S =
        (with_node dev raw f₁.node (s.vfs.inodes f₁.node) (some n, node, h) s).1 in
      let there : s'.vfs.inodes f₂.node ≡ i =
        ap s'.vfs.inodes same ∙ update_same s.vfs.inodes f₁.node i in
      let small : (f₁.offset + n) % u64_mod ≡ f₁.offset + n = omega (arith, w.0, end) in
      (
        w.0,
        ap (λ o. record f₁ { offset = o }) small,
        vfs_read-Memfs f₂ n s' i there ops ∙ (ap (λ o. Memfs.read o n node) at ∙ r),
        λ q e. update_other s.vfs.inodes f₁.node i q e,
      )

  -- `vfs_write` of at least one byte to a file in memory whose state is well formed, with an end of at
  -- most 2^63: it fails and leaves the open file where it is; or it gives the number of bytes, moves the
  -- open file forward by it, and changes no other node; and `vfs_read` of as many bytes through any
  -- open file of the same node, at the offset of the write, gives the bytes that were written.
  pub vfs_write-vfs_read :
      (f₁ f₂ : File) (buf : List ℕ) (s : System S) (m : MemFile)
      → (s.vfs.inodes f₁.node).ops ≡ memfs_file_ops
      → (s.vfs.inodes f₁.node).node.type ≡ file
      → (s.vfs.inodes f₁.node).node.contents ≡ some m
      → IsWf m
      → f₂.node ≡ f₁.node
      → f₂.offset ≡ f₁.offset
      → f₁.offset + length buf ≤ 2 ^ 63
      → 0 < length buf
      → Shares f₁ f₂ buf s (vfs_write dev raw f₁ buf s)
  unfolding vfs_write
  vfs_write-vfs_read f₁ f₂ buf s m ops t c wf same at end pos =
      let i = s.vfs.inodes f₁.node in
      let by_memfs =
        wrote f₁ f₂ buf s m (Memfs.write raw f₁.offset buf i.node s.vfs.heap) ops same at end
          (write_lem raw f₁.offset buf m i.node s.vfs.heap t c wf end)
          (read-write raw f₁.offset buf m i.node s.vfs.heap t c wf end pos) in
      subst
        (λ t.
          Shares f₁ f₂ buf s
            (let (o, s') = write_by dev raw t f₁.node i f₁.offset buf s in (o, moved_by o f₁, s')))
        (sym ops) by_memfs
