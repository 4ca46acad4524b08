-- ===== src/Devfs/Disk.antt =====
-- The file of the disk as an array of bytes.
use myos.Base.{
  ℕ, zero, suc, ◌+◌, ◌-◌, ◌*◌, ◌/◌, ◌%◌, ◌^◌, ◌≤◌, ◌<◌, ◌≡◌, refl, sym, ap, ap₂, ◌∙◌, subst, true,
  ◌&&◌, Option, some, List, [], ◌∷◌, ◌++◌, ltb, leb, if◌then◌else◌, arith, inl, inr, Bool-cases,
}
use myos.Base.Align.{u64_mod}
use myos.Memfs.{slice}
use myos.Devfs.{BlockDevice, chunk_at, put_before, prepend, read_round, read_from, dev_disk_read}

-- What a driver that works does to the bytes of its disk.
pub record IsDisk {S : Type 0} (dev : BlockDevice S) : Type 0 where
  pub byte : S → ℕ → ℕ
  pub sectors : S → ℕ
  pub on_read :
      (i : ℕ) (s : S)
      → dev.is_ready s ≡ true
      → i < sectors s
      → (sector : ℕ → ℕ) × (s' : S) × (dev.read_sector i s ≡ (some sector, s'))
        × ((k : ℕ) → k < 512 → sector k ≡ byte s (i * 512 + k))
        × ((a : ℕ) → byte s' a ≡ byte s a)
        × (sectors s' ≡ sectors s)
        × (dev.is_ready s' ≡ true)
  pub on_write :
      (i : ℕ) (sector : ℕ → ℕ) (s : S)
      → dev.is_ready s ≡ true
      → i < sectors s
      → (s' : S) × (dev.write_sector i sector s ≡ (true, s'))
        × ((a : ℕ)
            → byte s' a ≡ (
                if leb (i * 512) a && ltb a (i * 512 + 512)
                then sector (a - i * 512)
                else byte s a))
        × (sectors s' ≡ sectors s)
        × (dev.is_ready s' ≡ true)

slice-append : (f : ℕ → ℕ) (i n m : ℕ) → slice f i n ++ slice f (i + n) m ≡ slice f i (n + m)
unfolding slice
slice-append f i zero m = ap (λ j. slice f j m) (omega arith) ∙ ap (slice f i) (omega arith)
slice-append f i (suc n) m =
    let next : i + suc n ≡ i + 1 + n = omega arith in
    let sum : suc n + m ≡ suc (n + m) = omega arith in
    ap (λ t. f i ∷ t) (ap (λ j. slice f (i + 1) n ++ slice f j m) next ∙ slice-append f (i + 1) n m)
    ∙ ap (slice f i) (sym sum)

slice-same :
    (f g : ℕ → ℕ) (i j n : ℕ)
    → ((k : ℕ) → k < n → f (i + k) ≡ g (j + k))
    → slice f i n ≡ slice g j n
unfolding slice
slice-same f g i j zero e = refl
slice-same f g i j (suc n) e =
    ap₂ (λ x t. x ∷ t) (ap f (omega arith) ∙ (e 0 (omega arith) ∙ ap g (omega arith)))
      (slice-same f g (i + 1) (j + 1) n
        λ k h. ap f (omega arith) ∙ (e (k + 1) (omega (arith, h)) ∙ ap g (omega arith)))

module _ {S : Type 0} (dev : BlockDevice S) (d : IsDisk dev) where
  -- The disk's bytes are what they were.
  pub record Unchanged (s s' : S) : Type 0 where
    pub bytes : (a : ℕ) → d.byte s' a ≡ d.byte s a
    pub sectors : d.sectors s' ≡ d.sectors s
    pub ready : dev.is_ready s' ≡ true

  abbrev pub ReadTo : S → List ℕ → Option (List ℕ) × S → Type 0
  ReadTo s bytes (o, s') = (o ≡ some bytes) × Unchanged s s'

  -- What was read of later bytes, from a state with the same bytes.
  later-ReadTo :
      (s s' : S) (i n : ℕ) (x : Option (List ℕ) × S)
      → Unchanged s s'
      → ReadTo s' (slice (d.byte s') i n) x
      → ReadTo s (slice (d.byte s) i n) x
  later-ReadTo s s' i n (o, s'') u (e, w) = (
    e ∙ ap some (slice-same (d.byte s') (d.byte s) i i n λ k _. u.bytes (i + k)),
    record { bytes = λ a. w.bytes a ∙ u.bytes a; sectors = w.sectors ∙ u.sectors; ready = w.ready },
  )

  prepend-ReadTo :
      (s : S) (first rest : List ℕ) (x : Option (List ℕ) × S)
      → ReadTo s rest x
      → ReadTo s (first ++ rest) (prepend first x)
  prepend-ReadTo s first rest (o, s') (e, u) = (ap (put_before first) e, u)

  round-ReadTo :
      (off left c : ℕ) (s : S) (next : S → Option (List ℕ) × S)
      → c ≤ left
      → off % 512 + c ≤ 512
      → off < d.sectors s * 512
      → dev.is_ready s ≡ true
      → ((s' : S) → Unchanged s s' → ReadTo s' (slice (d.byte s') (off + c) (left - c)) (next s'))
      → ReadTo s
          (slice (d.byte s) off left)
          (read_round dev off c (dev.read_sector (off / 512) s) next)
  round-ReadTo off left c s next a b h r on =
      let (sector, s', e, same, bytes, sectors, ready) =
        d.on_read (off / 512) s r (omega (arith, h)) in
      let u : Unchanged s s' = record { bytes = bytes; sectors = sectors; ready = ready } in
      let here : slice sector (off % 512) c ≡ slice (d.byte s) off c =
        slice-same sector (d.byte s) (off % 512) off c
          λ k l. same (off % 512 + k) (omega (arith, b, l)) ∙ ap (d.byte s) (omega arith) in
      let whole : slice (d.byte s) off c ++ slice (d.byte s) (off + c) (left - c)
          ≡ slice (d.byte s) off left =
        slice-append (d.byte s) off c (left - c) ∙ ap (slice (d.byte s) off) (omega (arith, a)) in
      subst (λ x. ReadTo s (slice (d.byte s) off left) (read_round dev off c x next)) (sym e)
        (subst (λ t. ReadTo s t (prepend (slice sector (off % 512) c) (next s')))
          (ap (λ t. t ++ slice (d.byte s) (off + c) (left - c)) here ∙ whole)
          (prepend-ReadTo s (slice sector (off % 512) c) (slice (d.byte s) (off + c) (left - c))
            (next s') (later-ReadTo s s' (off + c) (left - c) (next s') u (on s' u))))

  read_from-ReadTo :
      (fuel offset len done : ℕ) (s : S)
      → len - done < fuel
      → done ≤ len
      → offset + len ≤ d.sectors s * 512
      → d.sectors s < 2 ^ 54
      → dev.is_ready s ≡ true
      → ReadTo s
          (slice (d.byte s) (offset + done) (len - done))
          (read_from dev fuel offset len done s)
  unfolding read_from slice
  read_from-ReadTo zero offset len done s f a b c r = absurd (omega (arith, f))
  read_from-ReadTo (suc fuel) offset len done s f a b c r =
      let off : ℕ = (offset + done) % u64_mod in
      let at : off ≡ offset + done = omega (arith, a, b, c) in
      elim (Bool-cases (ltb done len)) [
        | inl z ↦
            let more : done < len = ground (arith, z) in
            let n : ℕ = chunk_at off (len - done) in
            rw z (
              subst
                (λ i. ReadTo s (slice (d.byte s) i (len - done)) (
                  read_round dev off n (dev.read_sector (off / 512) s)
                    λ s'. read_from dev fuel offset len (done + n) s'))
                at
                (round-ReadTo off (len - done) n s
                  (λ s'. read_from dev fuel offset len (done + n) s') (omega arith) (omega arith)
                  (omega (arith, at, more, b)) r
                  λ s' u.
                    let i : offset + (done + n) ≡ off + n = omega (arith, at) in
                    let m : len - (done + n) ≡ len - done - n = omega arith in
                    subst (λ t. ReadTo s' t (read_from dev fuel offset len (done + n) s'))
                      (ap₂ (slice (d.byte s')) i m)
                      (read_from-ReadTo fuel offset len (done + n) s' (omega (arith, more, f))
                        (omega (arith, more)) (omega (arith, b, u.sectors))
                        (omega (arith, c, u.sectors)) u.ready)))
        | inr z ↦
            let over : len - done ≡ 0 = ground (arith, z) in
            let empty : slice (d.byte s) (offset + done) (len - done) ≡ [] =
              ap (slice (d.byte s) (offset + done)) over in
            rw (z, empty) (refl, record { bytes = λ a. refl; sectors = refl; ready = r })
      ]

  -- `dev_disk_read` of a range within the disk, on a driver that is ready and works: it gives the bytes
  -- of the range, and leaves the bytes of the disk as they are. The loop ends.
  pub dev_disk_read-ReadTo :
      (offset len : ℕ) (s : S)
      → dev.is_ready s ≡ true
      → offset + len ≤ d.sectors s * 512
      → d.sectors s < 2 ^ 54
      → ReadTo s (slice (d.byte s) offset len) (dev_disk_read dev offset len s)
  unfolding dev_disk_read
  dev_disk_read-ReadTo offset len s r b c =
      let i : offset + 0 ≡ offset = omega arith in
      rw r (
        subst (λ t. ReadTo s t (read_from dev (len + 1) offset len 0 s))
          (ap₂ (slice (d.byte s)) i (omega arith))
          (read_from-ReadTo (len + 1) offset len 0 s (omega arith) (omega arith) b c r))
