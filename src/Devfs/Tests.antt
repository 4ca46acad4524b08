-- ===== src/Devfs/Tests.antt =====
-- Runs of the disk's file on a disk in memory, and the theorems there.
use myos.Base.{
  ℕ, ◌+◌, ◌-◌, ◌*◌, ◌≡◌, refl, true, ◌&&◌, some, [], ◌∷◌, ltb, leb, if◌then◌else◌, arith, get_or,
}
use myos.Memfs.{slice}
use myos.Devfs.{BlockDevice, read_from, dev_disk_read, write_from, dev_disk_write}
use myos.Devfs.Disk.{IsDisk, ReadTo, dev_disk_read-ReadTo}
use myos.Devfs.Store.{Stored, dev_disk_write-Stored}

-- A disk of four sectors.
abbrev pub ram_disk : BlockDevice (ℕ → ℕ)
ram_disk = record {
  is_ready = λ s. true;
  read_sector = λ i s. (some (λ k. s (i * 512 + k)), s);
  write_sector = λ i sector s.
      (true, λ a. if leb (i * 512) a && ltb a (i * 512 + 512) then sector (a - i * 512) else s a);
}

abbrev ram_bytes : IsDisk ram_disk
ram_bytes = record {
  byte = λ s. s;
  sectors = λ s. 4;
  on_read = λ i s r h. ((λ k. s (i * 512 + k)), s, refl, (λ k l. refl), (λ a. refl), refl, refl);
  on_write = λ i sector s r h. (
    (λ a. if leb (i * 512) a && ltb a (i * 512 + 512) then sector (a - i * 512) else s a),
    refl,
    (λ a. refl),
    refl,
    refl,
  );
}

abbrev counted : ℕ → ℕ
counted a = a + 1

abbrev junk : ℕ → ℕ
junk k = 77

-- A range over the border of two sectors.
across : (dev_disk_read ram_disk 510 4 counted).0 ≡ some (511 ∷ 512 ∷ 513 ∷ 514 ∷ [])
unfolding dev_disk_read read_from slice
across = refl

written_across :
    slice (dev_disk_write ram_disk junk 511 (5 ∷ 6 ∷ []) counted).1 510 4 ≡ 511 ∷ 5 ∷ 6 ∷ 514 ∷ []
unfolding dev_disk_write write_from slice
written_across = refl

dev_disk_read-ReadTo_example :
    ReadTo ram_disk ram_bytes counted
      (slice (ram_bytes.byte counted) 510 4)
      (dev_disk_read ram_disk 510 4 counted)
dev_disk_read-ReadTo_example =
    dev_disk_read-ReadTo ram_disk ram_bytes 510 4 counted refl (omega arith) (omega arith)

dev_disk_write-Stored_example :
    ((dev_disk_write ram_disk junk 511 (5 ∷ 6 ∷ []) counted).0 ≡ some 2)
    × Stored ram_disk ram_bytes 511 513 511
        (λ k. get_or (5 ∷ 6 ∷ []) k 0)
        counted
        (dev_disk_write ram_disk junk 511 (5 ∷ 6 ∷ []) counted).1
dev_disk_write-Stored_example =
    dev_disk_write-Stored ram_disk ram_bytes junk 511 (5 ∷ 6 ∷ []) counted refl (omega arith)
      (omega arith)
