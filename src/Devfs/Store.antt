-- ===== src/Devfs/Store.antt =====
-- The file of the disk as an array of bytes: writing.
use myos.Base.{
  ℕ, zero, suc, ◌+◌, ◌-◌, ◌*◌, ◌/◌, ◌%◌, ◌^◌, ◌≤◌, ◌<◌, ◌≡◌, refl, ap, ◌∙◌, subst, Bool, true,
  false, not, ◌&&◌, ◌||◌, Option, some, List, length, get_or, ltb, leb, ◌==◌, if◌then◌else◌, arith,
  inl, inr, Bool-cases,
}
use myos.Base.Align.{u64_mod}
use myos.Devfs.{
  BlockDevice, sector_size, chunk_at, sector_for, patched, write_round, write_from, dev_disk_write,
}
use myos.Devfs.Disk.{IsDisk}

-- A number is within a range.
abbrev pub within : ℕ → ℕ → ℕ → Bool
within lo hi a = leb lo a && ltb a hi

module _ {S : Type 0} (dev : BlockDevice S) (d : IsDisk dev) where
  -- The bytes from lo up to hi are those of f, by their place behind base, and the others what they were.
  pub record Stored (lo hi base : ℕ) (f : ℕ → ℕ) (s s' : S) : Type 0 where
    pub bytes : (a : ℕ) → d.byte s' a ≡ (if within lo hi a then f (a - base) else d.byte s a)
    pub sectors : d.sectors s' ≡ d.sectors s
    pub ready : dev.is_ready s' ≡ true

  abbrev pub WrittenTo : S → ℕ → List ℕ → ℕ → Option ℕ × S → Type 0
  WrittenTo s offset buf done (o, s') =
      (o ≡ some (length buf))
      × Stored (offset + done) (offset + length buf) offset (λ k. get_or buf k 0) s s'

  -- The sector that a part goes into has the disk's bytes outside the part.
  abbrev Prepared : ℕ → ℕ → S → Option (ℕ → ℕ) × S → Type 0
  Prepared off c s (o, s') =
      (sector : ℕ → ℕ) × (o ≡ some sector)
      × ((a : ℕ) → d.byte s' a ≡ d.byte s a)
      × (d.sectors s' ≡ d.sectors s)
      × (dev.is_ready s' ≡ true)
      × ((k : ℕ)
          → k < 512
          → within (off % 512) (off % 512 + c) k ≡ false
          → sector k ≡ d.byte s (off / 512 * 512 + k))

  sector_for-Prepared :
      (off c : ℕ) (raw : ℕ → ℕ) (s : S)
      → dev.is_ready s ≡ true
      → off < d.sectors s * 512
      → Prepared off c s (sector_for dev off c raw s)
  sector_for-Prepared off c raw s r h =
      elim (Bool-cases (not (off % sector_size == 0) || not (c == sector_size))) [
        | inl z ↦
            let (sector, s', e, same, bytes, sectors, ready) =
              d.on_read (off / 512) s r (omega (arith, h)) in
            rw (z, e) (sector, refl, bytes, sectors, ready, λ k l _. same k l)
        | inr z ↦ rw z (raw, refl, λ a. refl, refl, r, λ k l e. absurd (ground (arith, z, l, e)))
      ]

  -- What the byte at an address is when a part of its sector was patched.
  patched-byte :
      (off c done : ℕ) (buf : List ℕ) (sector old : ℕ → ℕ) (a : ℕ)
      → off % 512 + c ≤ 512
      → ((k : ℕ)
          → k < 512
          → within (off % 512) (off % 512 + c) k ≡ false
          → sector k ≡ old (off / 512 * 512 + k))
      → (if within (off / 512 * 512) (off / 512 * 512 + 512) a
          then patched (off % 512) c buf done sector (a - off / 512 * 512)
          else old a)
        ≡ (if within off (off + c) a then get_or buf (done + (a - off)) 0 else old a)
  patched-byte off c done buf sector old a b e =
      let base : ℕ = off / 512 * 512 in
      let k : ℕ = a - base in
      elim (Bool-cases (within base (base + 512) a)) [
        | inr z ↦
            let out : within off (off + c) a ≡ false = ground (arith, z, b) in rw (z, out) refl
        | inl z ↦ elim (Bool-cases (within (off % 512) (off % 512 + c) k)) [
          | inl y ↦
              let in_it : within off (off + c) a ≡ true = ground (arith, z, y) in
              let place : k - off % 512 ≡ a - off = ground (arith, z, y) in
              rw (z, y, in_it) (ap (λ i. get_or buf (done + i) 0) place)
          | inr y ↦
              let out : within off (off + c) a ≡ false = ground (arith, z, y) in
              let place : base + k ≡ a = ground (arith, z) in
              let low : k < 512 = ground (arith, z) in rw (z, y, out) (e k low y ∙ ap old place)
        ]
      ]

  Stored-append :
      (lo mid hi base : ℕ) (f : ℕ → ℕ) (s s' s'' : S)
      → lo ≤ mid
      → mid ≤ hi
      → Stored lo mid base f s s'
      → Stored mid hi base f s' s''
      → Stored lo hi base f s s''
  Stored-append lo mid hi base f s s' s'' a b x y = record {
    bytes = λ i. joined_byte i (y.bytes i) (x.bytes i);
    sectors = y.sectors ∙ x.sectors;
    ready = y.ready;
  }
    where
      joined_byte :
          (i : ℕ)
          → d.byte s'' i ≡ (if within mid hi i then f (i - base) else d.byte s' i)
          → d.byte s' i ≡ (if within lo mid i then f (i - base) else d.byte s i)
          → d.byte s'' i ≡ (if within lo hi i then f (i - base) else d.byte s i)
      joined_byte i e e' = ground (arith, e, e', a, b)

  done-WrittenTo :
      (s : S) (offset : ℕ) (buf : List ℕ) (done c : ℕ) (s' : S) (x : Option ℕ × S)
      → done + c ≤ length buf
      → Stored (offset + done) (offset + (done + c)) offset (λ k. get_or buf k 0) s s'
      → WrittenTo s' offset buf (done + c) x
      → WrittenTo s offset buf done x
  done-WrittenTo s offset buf done c s' (o, s'') h x (e, y) = (
    e,
    Stored-append (offset + done) (offset + (done + c)) (offset + length buf) offset _ s s' s''
        (omega arith) (omega (arith, h)) x y,
  )

  from_start :
      (offset done c : ℕ) (buf : List ℕ) (old i : ℕ)
      → (if within (offset + done) (offset + done + c) i
          then get_or buf (done + (i - (offset + done))) 0
          else old)
        ≡ (if within (offset + done) (offset + (done + c)) i
            then get_or buf (i - offset) 0
            else old)
  from_start offset done c buf old i =
      elim (Bool-cases (within (offset + done) (offset + done + c) i)) [
        | inl z ↦
            let z' : within (offset + done) (offset + (done + c)) i ≡ true = ground (arith, z) in
            let place : done + (i - (offset + done)) ≡ i - offset = ground (arith, z) in
            rw (z, z') (ap (λ k. get_or buf k 0) place)
        | inr z ↦
            let z' : within (offset + done) (offset + (done + c)) i ≡ false = ground (arith, z) in
            rw (z, z') refl
      ]

  round-WrittenTo :
      (offset done c : ℕ) (buf : List ℕ) (raw : ℕ → ℕ) (s : S) (next : (ℕ → ℕ) → S → Option ℕ × S)
      → let off = offset + done in
        done + c ≤ length buf
        → off % 512 + c ≤ 512
        → off < d.sectors s * 512
        → dev.is_ready s ≡ true
        → ((sector : ℕ → ℕ) (s' : S)
            → d.sectors s' ≡ d.sectors s
            → dev.is_ready s' ≡ true
            → WrittenTo s' offset buf (done + c) (next sector s'))
        → WrittenTo s offset buf done
            (write_round dev off c buf done (sector_for dev off c raw s) next)
  round-WrittenTo offset done c buf raw s next a b h r on =
      let off : ℕ = offset + done in
      patch (sector_for dev off c raw s) (sector_for-Prepared off c raw s r h)
    where
      patch :
          (x : Option (ℕ → ℕ) × S)
          → Prepared (offset + done) c s x
          → WrittenTo s offset buf done (write_round dev (offset + done) c buf done x next)
      patch (o, s₁) (sector, e, bytes, sectors, ready, old) =
          let off : ℕ = offset + done in
          let new = patched (off % 512) c buf done sector in
          let (s₂, e₂, bytes₂, sectors₂, ready₂) =
            d.on_write (off / 512) new s₁ ready (omega (arith, h, sectors)) in
          let stored_here : Stored off (offset + (done + c)) offset (λ k. get_or buf k 0) s s₂ =
            record {
              bytes = λ i.
                  bytes₂ i
                  ∙ (ap
                        (λ z.
                          if within (off / 512 * 512) (off / 512 * 512 + 512) i
                          then new (i - off / 512 * 512)
                          else z)
                        (bytes i)
                      ∙ (patched-byte off c done buf sector (d.byte s) i b old
                          ∙ from_start offset done c buf (d.byte s i) i));
              sectors = sectors₂ ∙ sectors;
              ready = ready₂;
            } in
          rw (e, e₂)
            (done-WrittenTo s offset buf done c s₂ (next new s₂) a stored_here
              (on new s₂ (sectors₂ ∙ sectors) ready₂))

  write_from-WrittenTo :
      (fuel offset : ℕ) (buf : List ℕ) (done : ℕ) (raw : ℕ → ℕ) (s : S)
      → length buf - done < fuel
      → done ≤ length buf
      → offset + length buf ≤ d.sectors s * 512
      → d.sectors s < 2 ^ 54
      → dev.is_ready s ≡ true
      → WrittenTo s offset buf done (write_from dev fuel offset buf done raw s)
  unfolding write_from
  write_from-WrittenTo zero offset buf done raw s f a b c r = absurd (omega (arith, f))
  write_from-WrittenTo (suc fuel) offset buf done raw s f a b c r =
      elim (Bool-cases (ltb done (length buf))) [
        | inl z ↦
            let more : done < length buf = ground (arith, z) in
            let at : (offset + done) % u64_mod ≡ offset + done = omega (arith, a, b, c) in
            let n : ℕ = chunk_at (offset + done) (length buf - done) in
            rw (z, at)
              (round-WrittenTo offset done n buf raw s
                (λ sector s'. write_from dev fuel offset buf (done + n) sector s')
                (omega (arith, more)) (omega arith) (omega (arith, more, b)) r
                λ sector s' e ready.
                  write_from-WrittenTo fuel offset buf (done + n) sector s' (omega (arith, more, f))
                    (omega (arith, more)) (omega (arith, b, e)) (omega (arith, c, e)) ready)
        | inr z ↦
            let end : done ≡ length buf = ground (arith, z, a) in
            rw z (
              ap some end,
              record {
                bytes = λ i.
                    let out : within (offset + done) (offset + length buf) i ≡ false =
                      ground (arith, end) in
                    rw out refl;
                sectors = refl;
                ready = r;
              },
            )
      ]

  -- `dev_disk_write` of bytes to a range within the disk, on a driver that is ready and works: it gives
  -- their number; the disk holds them there then, and every other byte, of the first and the last
  -- sector too, is what it was. The loop ends.
  pub dev_disk_write-Stored :
      (raw : ℕ → ℕ) (offset : ℕ) (buf : List ℕ) (s : S)
      → dev.is_ready s ≡ true
      → offset + length buf ≤ d.sectors s * 512
      → d.sectors s < 2 ^ 54
      → ((dev_disk_write dev raw offset buf s).0 ≡ some (length buf))
        × Stored offset
            (offset + length buf)
            offset
            (λ k. get_or buf k 0)
            s
            (dev_disk_write dev raw offset buf s).1
  unfolding dev_disk_write
  dev_disk_write-Stored raw offset buf s r b c =
      let i : offset + 0 ≡ offset = omega arith in
      rw r (
        subst (λ j. WrittenTo' j) i
          (write_from-WrittenTo (length buf + 1) offset buf 0 raw s (omega arith) (omega arith) b c
            r))
    where
      WrittenTo' : ℕ → Type 0
      WrittenTo' j =
          let x = write_from dev (length buf + 1) offset buf 0 raw s in
          (x.0 ≡ some (length buf))
          × Stored j (offset + length buf) offset (λ k. get_or buf k 0) s x.1
