-- ===== src/Files.antt =====
-- src/vfs.c: open files. A node's operations go to the part that serves it: src/memfs.c, src/tarfs.c or
-- src/devfs.c. The block device's state is S.
pub mod Share
mod Tests
use myos.Base.{
  ℕ, ◌+◌, ◌-◌, ◌%◌, Bool, true, false, not, ◌&&◌, Option, none, some, List, [], ◌∷◌, ◌++◌, length,
  ◌==◌, if◌then◌else◌, bit_and,
}
use myos.Base.Align.{u64_mod}
use myos.Base.Int.{ℤ, pos, negsuc}
use myos.Devfs.{BlockDevice, dev_disk_read, dev_disk_write, dev_kbd_read, dev_mouse_read}
use myos.Input.{Input, KeyEvent, MouseEvent}
use myos.Kmalloc
use myos.Kmalloc.{Heap}
use myos.Memfs
use myos.Memfs.{Node}
use myos.Tarfs.{tarfs_read, tarfs_write}
use myos.Vfs.{
  Vfs, Inode, Ops, no_ops, memfs_dir_ops, memfs_file_ops, tarfs_dir_ops, tarfs_file_ops, disk_ops,
  kbd_ops, mouse_ops, is_dir, set_inode, resolve_path,
}
use myos.Vfs.Nodes.{create}

abbrev pub o_wronly : ℕ
o_wronly = 2

abbrev pub o_creat : ℕ
o_creat = 4

abbrev pub sizeof_file : ℕ
sizeof_file = 24

pub record File : Type 0 where
  pub node : ℕ
  pub offset : ℕ
  pub flags : ℕ

-- An open file with its address; none for failure.
abbrev pub opened : ℕ → ℕ → ℕ × Heap → Vfs → Option (ℕ × File) × Vfs
opened node flags (ptr, h) v =
    if ptr == 0
    then (none, record v { heap = h })
    else (some (ptr, record { node = node; offset = 0; flags = flags }), record v { heap = h })

abbrev pub open_node : ℕ → Option ℕ → Vfs → Option (ℕ × File) × Vfs
open_node flags none v = (none, v)
open_node flags (some node) v =
    if is_dir (v.inodes node).node.type && not (bit_and flags o_wronly == 0)
    then (none, v)
    else opened node flags (Kmalloc.kmalloc sizeof_file v.heap) v

abbrev pub open_created : List ℕ → ℕ → Bool × Vfs → Option (ℕ × File) × Vfs
open_created path flags (false, v) = (none, v)
open_created path flags (true, v) = open_node flags (resolve_path path v) v

abbrev pub open_missing : List ℕ → ℕ → Vfs → Option (ℕ × File) × Vfs
open_missing path flags v =
    if bit_and flags o_creat == 0 then (none, v) else open_created path flags (create path v)

abbrev pub open_found : List ℕ → ℕ → Option ℕ → Vfs → Option (ℕ × File) × Vfs
open_found path flags none v = open_missing path flags v
open_found path flags (some node) v = open_node flags (some node) v

unfoldable pub vfs_open : List ℕ → ℕ → Vfs → Option (ℕ × File) × Vfs
vfs_open path flags v = open_found path flags (resolve_path path v) v

unfoldable pub vfs_close : ℕ → Vfs → Vfs
vfs_close ptr v = if ptr == 0 then v else record v { heap = Kmalloc.kfree ptr v.heap }

pub record System (S : Type 0) : Type 0 where
  pub vfs : Vfs
  pub input : Input
  pub disk : S

abbrev pub key_bytes : List KeyEvent → List ℕ
key_bytes [] = []
key_bytes (e ∷ es) = e.scancode ∷ (if e.pressed then 1 else 0) ∷ key_bytes es

-- The byte of an int8_t.
abbrev pub from_int8 : ℤ → ℕ
from_int8 (pos n) = n % 256
from_int8 (negsuc n) = 255 - n % 256

abbrev pub move_bytes : List MouseEvent → List ℕ
move_bytes [] = []
move_bytes (e ∷ es) =
    from_int8 e.dx ∷ from_int8 e.dy ∷ from_int8 e.wheel ∷ e.buttons ∷ move_bytes es

abbrev pub forward : ℕ → File → File
forward n f = record f { offset = (f.offset + n) % u64_mod }

abbrev pub advance : Option (List ℕ) → File → File
advance none f = f
advance (some bytes) f = forward (length bytes) f

abbrev pub moved_by : Option ℕ → File → File
moved_by none f = f
moved_by (some n) f = forward n f

module _ {S : Type 0} (dev : BlockDevice S) (raw : ℕ → ℕ) where
  -- The operation `read` of a node, by its table.
  abbrev pub read_by : Ops → Inode → ℕ → ℕ → System S → Option (List ℕ) × System S
  read_by memfs_file_ops n offset len s = (Memfs.read offset len n.node, s)
  read_by tarfs_file_ops n offset len s = (tarfs_read offset len n.node.type n.tar, s)
  read_by disk_ops n offset len s =
      let (o, disk) = dev_disk_read dev offset len s.disk in (o, record s { disk = disk })
  read_by kbd_ops n offset len s =
      let (es, input) = dev_kbd_read len s.input in
      (some (key_bytes es), record s { input = input })
  read_by mouse_ops n offset len s =
      let (es, input) = dev_mouse_read len s.input in
      (some (move_bytes es), record s { input = input })
  read_by ops n offset len s = (none, s)

  -- The bytes that are read, none for -1; the file, and the new state.
  unfoldable pub vfs_read : File → ℕ → System S → Option (List ℕ) × File × System S
  vfs_read f len s =
      let n = s.vfs.inodes f.node in
      let (o, s') = read_by n.ops n f.offset len s in (o, advance o f, s')

  abbrev pub with_node : ℕ → Inode → Option ℕ × Node × Heap → System S → Option ℕ × System S
  with_node p n (o, node, h) s =
      (o, record s { vfs = set_inode p (record n { node = node }) (record s.vfs { heap = h }) })

  -- The operation `write`.
  abbrev pub write_by : Ops → ℕ → Inode → ℕ → List ℕ → System S → Option ℕ × System S
  write_by memfs_file_ops p n offset buf s =
      with_node p n (Memfs.write raw offset buf n.node s.vfs.heap) s
  write_by tarfs_file_ops p n offset buf s = (tarfs_write offset buf, s)
  write_by disk_ops p n offset buf s =
      let (o, disk) = dev_disk_write dev raw offset buf s.disk in (o, record s { disk = disk })
  write_by ops p n offset buf s = (none, s)

  unfoldable pub vfs_write : File → List ℕ → System S → Option ℕ × File × System S
  vfs_write f buf s =
      let n = s.vfs.inodes f.node in
      let (o, s') = write_by n.ops f.node n f.offset buf s in (o, moved_by o f, s')
