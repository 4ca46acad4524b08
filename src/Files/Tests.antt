-- ===== src/Files/Tests.antt =====
-- The theorem on open files at a concrete file.
use myos.Base.{ℕ, ◌≡◌, refl, true, false, some, none, [], ◌∷◌, arith}
use myos.Base.Align.{align_up_u64}
use myos.Base.Int.{pos}
use myos.Base.Text.{codes}
use myos.Kmalloc.{kmalloc, take_block}
use myos.Memfs.{MemFile, file, read, write, slice, double_cap}
use myos.Memfs.Bytes.{IsWf}
use myos.Devfs.{BlockDevice}
use myos.Files.{File, System, vfs_read, vfs_write}
use myos.Files.Share.{Shares, vfs_write-vfs_read}
use myos.Vfs.{Vfs, memfs_file_ops}

abbrev no_disk : BlockDevice ℕ
no_disk = record {
  is_ready = λ s. false;
  read_sector = λ i s. (none, s);
  write_sector = λ i sector s. (false, s);
}

abbrev zeros : ℕ → ℕ
zeros k = 0

abbrev empty : MemFile
empty = record { data_ptr = 0; bytes = zeros; size = 0; cap = 0 }

abbrev one_file : Vfs
one_file = record {
  heap = record {
    pmm = record { bitmap = λ i. 255; free_pages_cnt = 0; total_pages_cnt = 8; ready = true };
    blocks = record { addr = 0x10_0000; size = 4072; free = true } ∷ [];
  };
  inodes = λ p. record {
    name = codes "a";
    name_ptr = 0x2018;
    node = record { type = file; contents = some empty; size = 0 };
    data_ptr = 0x3018;
    tar = none;
    ops = memfs_file_ops;
    parent = none;
    children = [];
  };
  root = none;
  cwd = none;
}

abbrev system : System ℕ
system = record {
  vfs = one_file;
  input = record {
    keys = record { slots = λ _. record { scancode = 0; pressed = false }; head = 0; tail = 0 };
    mouse = record {
      slots = λ _. record { dx = pos 0; dy = pos 0; wheel = pos 0; buttons = 0 };
      head = 0;
      tail = 0;
    };
    packet_size = 3;
    packet = zeros;
    idx = 0;
  };
  disk = 0;
}

abbrev writer : File
writer = record { node = 0x1018; offset = 0; flags = 2 }

abbrev reader : File
reader = record { node = 0x1018; offset = 0; flags = 1 }

seen :
    (vfs_read no_disk zeros reader 2 (vfs_write no_disk zeros writer (5 ∷ 6 ∷ []) system).2).0
    ≡ some (5 ∷ 6 ∷ [])
unfolding vfs_read vfs_write read write slice double_cap kmalloc take_block align_up_u64
seen = refl

empty-IsWf : IsWf empty
empty-IsWf = record { inside = omega arith; word = omega arith; empty = λ _. refl }

vfs_write-vfs_read_example :
    Shares no_disk zeros writer reader
      (5 ∷ 6 ∷ [])
      system
      (vfs_write no_disk zeros writer (5 ∷ 6 ∷ []) system)
vfs_write-vfs_read_example =
    vfs_write-vfs_read no_disk zeros writer reader (5 ∷ 6 ∷ []) system empty refl refl refl
      empty-IsWf refl refl (omega arith) (omega arith)
