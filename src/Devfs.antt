-- ===== src/Devfs.antt =====
-- src/devfs.c: the files of devices. The block driver, src/virtio_blk.c, is an interface: its operations on
-- its state, and what they do to the bytes of the disk.
pub mod Disk
pub mod Store
pub mod Nodes
mod Tests
use myos.Base.{
  ℕ, zero, suc, ◌+◌, ◌-◌, ◌*◌, ◌/◌, ◌%◌, min, Bool, true, false, not, ◌&&◌, ◌||◌, Option, none,
  some, List, [], ◌∷◌, ◌++◌, length, get_or, ltb, leb, ◌==◌, if◌then◌else◌,
}
use myos.Base.Align.{u64_mod}
use myos.Input.{Input, KeyEvent, MouseEvent, read_key, read_mouse}
use myos.Memfs.{slice}

abbrev pub sector_size : ℕ
sector_size = 512

-- A sector is a function from 0 up to 511 to bytes; no sector and `false` are failures.
pub record BlockDevice (S : Type 0) : Type 0 where
  pub is_ready : S → Bool
  pub read_sector : ℕ → S → Option (ℕ → ℕ) × S
  pub write_sector : ℕ → (ℕ → ℕ) → S → Bool × S

-- How many bytes of a sector are handled when so many are left.
abbrev pub chunk_at : ℕ → ℕ → ℕ
chunk_at off left = min (sector_size - off % sector_size) left

abbrev pub put_before : List ℕ → Option (List ℕ) → Option (List ℕ)
put_before bytes none = none
put_before bytes (some rest) = some (bytes ++ rest)

abbrev pub prepend {ℓ} : {S : Type ℓ} → List ℕ → Option (List ℕ) × S → Option (List ℕ) × S
prepend bytes (o, s) = (put_before bytes o, s)

-- `memcpy` into the sector.
abbrev pub patched : ℕ → ℕ → List ℕ → ℕ → (ℕ → ℕ) → ℕ → ℕ
patched at chunk buf done sector k =
    if leb at k && ltb k (at + chunk) then get_or buf (done + (k - at)) 0 else sector k

module _ {S : Type 0} (dev : BlockDevice S) where
  -- A round of the loop of `dev_disk_read`, when the sector is read; the loop goes on from there.
  abbrev pub read_round :
      ℕ → ℕ → Option (ℕ → ℕ) × S → (S → Option (List ℕ) × S) → Option (List ℕ) × S
  read_round off chunk (none, s) next = (none, s)
  read_round off chunk (some sector, s) next =
      prepend (slice sector (off % sector_size) chunk) (next s)

  -- The loop, with fuel.
  unfoldable pub read_from : ℕ → ℕ → ℕ → ℕ → S → Option (List ℕ) × S
  read_from zero offset len done s = (none, s)
  read_from (suc fuel) offset len done s =
      let off = (offset + done) % u64_mod in
      let chunk = chunk_at off (len - done) in
      if ltb done len
      then read_round off chunk (dev.read_sector (off / sector_size) s)
          (λ s'. read_from fuel offset len (done + chunk) s')
      else (some [], s)

  unfoldable pub dev_disk_read : ℕ → ℕ → S → Option (List ℕ) × S
  dev_disk_read offset len s =
      if dev.is_ready s then read_from (len + 1) offset len 0 s else (none, s)

  -- The sector that a part is written into: what was read, or what the buffer held.
  abbrev pub sector_for : ℕ → ℕ → (ℕ → ℕ) → S → Option (ℕ → ℕ) × S
  sector_for off chunk raw s =
      if not (off % sector_size == 0) || not (chunk == sector_size)
      then dev.read_sector (off / sector_size) s
      else (some raw, s)

  abbrev pub stored : (ℕ → ℕ) → Bool × S → ((ℕ → ℕ) → S → Option ℕ × S) → Option ℕ × S
  stored sector (false, s) next = (none, s)
  stored sector (true, s) next = next sector s

  abbrev pub write_round :
      ℕ → ℕ → List ℕ → ℕ → Option (ℕ → ℕ) × S → ((ℕ → ℕ) → S → Option ℕ × S) → Option ℕ × S
  write_round off chunk buf done (none, s) next = (none, s)
  write_round off chunk buf done (some sector, s) next =
      let sector' = patched (off % sector_size) chunk buf done sector in
      stored sector' (dev.write_sector (off / sector_size) sector' s) next

  -- The loop of `dev_disk_write`, with fuel.
  unfoldable pub write_from : ℕ → ℕ → List ℕ → ℕ → (ℕ → ℕ) → S → Option ℕ × S
  write_from zero offset buf done raw s = (none, s)
  write_from (suc fuel) offset buf done raw s =
      let off = (offset + done) % u64_mod in
      let chunk = chunk_at off (length buf - done) in
      if ltb done (length buf)
      then write_round off chunk buf done (sector_for off chunk raw s)
          (λ sector s'. write_from fuel offset buf (done + chunk) sector s')
      else (some done, s)

  unfoldable pub dev_disk_write : (ℕ → ℕ) → ℕ → List ℕ → S → Option ℕ × S
  dev_disk_write raw offset buf s =
      if dev.is_ready s then write_from (length buf + 1) offset buf 0 raw s else (none, s)

abbrev pub keep_key : KeyEvent → List KeyEvent × Input → List KeyEvent × Input
keep_key e (es, s) = (e ∷ es, s)

-- The loop of `dev_kbd_read`, up to so many events.
unfoldable pub read_keys : ℕ → Input → List KeyEvent × Input
read_keys zero s = ([], s)
read_keys (suc n) s = elim (read_key s) [
  | none ↦ ([], s)
  | some (e, s') ↦ keep_key e (read_keys n s')
]

-- The events that go into a buffer of len bytes, two for each.
abbrev pub dev_kbd_read : ℕ → Input → List KeyEvent × Input
dev_kbd_read len s = read_keys (len / 2) s

abbrev pub keep_move : MouseEvent → List MouseEvent × Input → List MouseEvent × Input
keep_move e (es, s) = (e ∷ es, s)

-- The loop of `dev_mouse_read`.
unfoldable pub read_moves : ℕ → Input → List MouseEvent × Input
read_moves zero s = ([], s)
read_moves (suc n) s = elim (read_mouse s) [
  | none ↦ ([], s)
  | some (e, s') ↦ keep_move e (read_moves n s')
]

-- Four bytes for each event.
abbrev pub dev_mouse_read : ℕ → Input → List MouseEvent × Input
dev_mouse_read len s = read_moves (len / 4) s
