-- ===== src/Devfs/Nodes.antt =====
-- src/devfs.c: the nodes of devices.
use myos.Base.{ℕ, Bool, true, false, Option, none, some, List, if◌then◌else◌}
use myos.Base.Text.{codes}
use myos.Memfs.{dev}
use myos.Tarfs.Populate.{added}
use myos.Vfs.{Vfs, Ops, disk_ops, kbd_ops, mouse_ops, is_dir, find_child}
use myos.Vfs.Nodes.{no_data, create_node, is_none, mkdir}

-- The node of a device, made where there is none of the name; whether to go on, and the new state.
abbrev pub add_device : List ℕ → Ops → ℕ → Vfs → Bool × Vfs
add_device name ops dev_dir v =
    if is_none (find_child dev_dir name v.inodes)
    then (let made = create_node name dev ops no_data v in (not_none made.0, added dev_dir made))
    else (true, v)
  where
    not_none : Option ℕ → Bool
    not_none none = false
    not_none (some p) = true

abbrev pub and_device : List ℕ → Ops → ℕ → Bool × Vfs → Bool × Vfs
and_device name ops dev_dir (false, v) = (false, v)
and_device name ops dev_dir (true, v) = add_device name ops dev_dir v

abbrev pub add_devices : Option ℕ → Vfs → Vfs
add_devices none v = v
add_devices (some dev_dir) v =
    if is_dir (v.inodes dev_dir).node.type
    then (and_device (codes "mouse") mouse_ops dev_dir
        (and_device (codes "kbd") kbd_ops dev_dir (add_device (codes "disk") disk_ops dev_dir v))).1
    else v

abbrev pub with_dev : ℕ → Vfs → Vfs
with_dev root v =
    let v' =
      if is_none (find_child root (codes "dev") v.inodes) then (mkdir (codes "/dev") v).1 else v in
    add_devices (find_child root (codes "dev") v'.inodes) v'

unfoldable pub devfs_init : Vfs → Vfs
devfs_init v = elim v.root [ none ↦ v | some root ↦ with_dev root v ]
