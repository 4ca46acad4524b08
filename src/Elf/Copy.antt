-- ===== src/Elf/Copy.antt =====
-- src/elf.c: what the copy of a segment leaves in memory.
use myos.Base.{
  ℕ, zero, suc, ◌+◌, ◌-◌, ◌/◌, ◌%◌, ◌^◌, ◌≤◌, ◌<◌, ◌≡◌, refl, sym, ap, ◌∙◌, subst, Bool, true,
  false, ◌&&◌, some, leb, ltb, arith, inl, inr, Bool-cases, ◌⊎◌,
}
use myos.Base.Align.{u64_mod}
use myos.Vmm
use myos.Vmm.{Vmm}
use myos.Elf.Relocate.{Loader}
use myos.Elf.Load.{copied_to, part_at, copy_part, copy_segment}

copy_part-aligned :
    (pa flags va n : ℕ) (source : ℕ → ℕ) (l : Loader) (next : Loader → Bool × Loader)
    → va % 4096 ≡ 0
    → copy_part (some (pa, flags)) va n source l next
      ≡ next (record l { bytes = copied_to pa n source l.bytes })
copy_part-aligned pa flags va n source l next z =
    let to : pa + va % 4096 ≡ pa = omega (arith, z) in
    ap (λ t. next (record l { bytes = copied_to t n source l.bytes })) to

module _ (cr3 vaddr filesz : ℕ) (source : ℕ → ℕ) (v : Vmm) (frame flags : ℕ → ℕ) where
  -- Every address of the segment is in a page with a frame, and the frames of two pages do not overlap.
  pub record IsMapped : Type 0 where
    pub aligned : vaddr % 4096 ≡ 0
    pub small : vaddr + filesz < 2 ^ 63
    pub resolves :
        (k : ℕ)
        → k < filesz
        → Vmm.resolve cr3 (vaddr + k) v
          ≡ some (frame ((vaddr + k) / 4096) + (vaddr + k) % 4096, flags ((vaddr + k) / 4096))
    pub distinct : (i j : ℕ) → i < j → (frame i + 4096 ≤ frame j) ⊎ (frame j + 4096 ≤ frame i)

  -- Where the k-th byte of the segment stands.
  abbrev pub place : ℕ → ℕ
  place k = frame ((vaddr + k) / 4096) + (vaddr + k) % 4096

  -- The bytes from the number `copied` on are the image's, and those before stay.
  pub record Filled (copied : ℕ) (l l' : Loader) : Type 0 where
    pub bytes : (k : ℕ) → copied ≤ k → k < filesz → l'.bytes (place k) ≡ source k
    pub kept : (k : ℕ) → k < copied → k < filesz → l'.bytes (place k) ≡ l.bytes (place k)
    pub vmm : l'.vmm ≡ l.vmm

  module _ (m : IsMapped) where
    part_bytes :
        (copied n k : ℕ) (b : ℕ → ℕ)
        → copied % 4096 ≡ 0
        → n ≤ 4096
        → copied ≤ k
        → k < copied + n
        → copied_to (frame ((vaddr + copied) / 4096)) n (λ i. source (copied + i)) b (place k)
          ≡ source k
    part_bytes copied n k b z small low high =
        let page : (vaddr + k) / 4096 ≡ (vaddr + copied) / 4096 =
          omega (arith, m.aligned, z, small, low, high) in
        let at : place k ≡ frame ((vaddr + copied) / 4096) + (k - copied) =
          ap (λ i. frame i + (vaddr + k) % 4096) page
          ∙ omega (arith, m.aligned, z, small, low, high) in
        let in_it : (leb (frame ((vaddr + copied) / 4096)) (place k)
              && ltb (place k) (frame ((vaddr + copied) / 4096) + n))
            ≡ true =
          ground (arith, at, low, high) in
        rw in_it (ap source (omega (arith, at, low)))

    part_kept :
        (copied n k : ℕ) (b : ℕ → ℕ)
        → copied % 4096 ≡ 0
        → n ≤ 4096
        → k < copied
        → copied_to (frame ((vaddr + copied) / 4096)) n (λ i. source (copied + i)) b (place k)
          ≡ b (place k)
    part_kept copied n k b z small low =
        let before : (vaddr + k) / 4096 < (vaddr + copied) / 4096 =
          omega (arith, m.aligned, z, low) in
        let out : (leb (frame ((vaddr + copied) / 4096)) (place k)
              && ltb (place k) (frame ((vaddr + copied) / 4096) + n))
            ≡ false =
          ground (arith, m.distinct ((vaddr + k) / 4096) ((vaddr + copied) / 4096) before, small) in
        rw out refl

    -- A round, and what the loop leaves behind it.
    round-Filled :
        (copied n : ℕ) (l : Loader) (x : Bool × Loader)
        → copied % 4096 ≡ 0
        → n ≤ 4096
        → (let to = frame ((vaddr + copied) / 4096) in
            let l₁ = record l { bytes = copied_to to n (λ i. source (copied + i)) l.bytes } in
            (x.0 ≡ true) × Filled (copied + n) l₁ x.1)
        → (x.0 ≡ true) × Filled copied l x.1
    round-Filled copied n l x z small (done, r) = (
      done,
      record {
        bytes = λ k low high. elim (Bool-cases (ltb k (copied + n))) [
          | inl y ↦
              r.kept k (ground (arith, y)) high
              ∙ part_bytes copied n k l.bytes z small low (ground (arith, y))
          | inr y ↦ r.bytes k (ground (arith, y)) high
        ];
        kept = λ k low high.
            r.kept k (omega (arith, low)) high ∙ part_kept copied n k l.bytes z small low;
        vmm = r.vmm;
      },
    )

    copy_segment-Filled :
        (fuel copied : ℕ) (l : Loader)
        → l.vmm ≡ v
        → filesz - copied < fuel
        → (copied % 4096 ≡ 0) ⊎ (filesz ≤ copied)
        → let x = copy_segment cr3 fuel vaddr source filesz copied l in
          (x.0 ≡ true) × Filled copied l x.1
    unfolding copy_segment
    copy_segment-Filled zero copied l e f z = absurd (omega (arith, f))
    copy_segment-Filled (suc fuel) copied l e f z = elim (Bool-cases (ltb copied filesz)) [
      | inl y ↦
          let more : copied < filesz = ground (arith, y) in
          let z₀ : copied % 4096 ≡ 0 = elim z [
            | inl a ↦ a
            | inr b ↦ absurd (omega (arith, more, b))
          ] in
          let at : (vaddr + copied) % u64_mod ≡ vaddr + copied = omega (arith, m.small, more) in
          let start : (vaddr + copied) % 4096 ≡ 0 = omega (arith, m.aligned, z₀) in
          let n : ℕ = part_at (vaddr + copied) (filesz - copied) in
          let there : Vmm.resolve cr3 (vaddr + copied) l.vmm
              ≡ some (frame ((vaddr + copied) / 4096), flags ((vaddr + copied) / 4096)) =
            ap (Vmm.resolve cr3 (vaddr + copied)) e
            ∙ (m.resolves copied more
                ∙ ap (λ i. some (i, flags ((vaddr + copied) / 4096))) (omega (arith, start))) in
          let l₁ : Loader = record l {
            bytes =
                copied_to (frame ((vaddr + copied) / 4096)) n (λ i. source (copied + i)) l.bytes;
          } in
          let ends : ((copied + n) % 4096 ≡ 0) ⊎ (filesz ≤ copied + n) =
            elim (Bool-cases (ltb (filesz - copied) 4096)) [
              | inl a ↦ inr (ground (arith, a, start))
              | inr a ↦ inl (ground (arith, a, start, z₀))
            ] in
          rw (y, at, there)
            (subst (λ x. (x.0 ≡ true) × Filled copied l x.1)
              (sym (
                copy_part-aligned (frame ((vaddr + copied) / 4096))
                  (flags ((vaddr + copied) / 4096)) (vaddr + copied) n (λ i. source (copied + i)) l
                  (λ l'. copy_segment cr3 fuel vaddr source filesz (copied + n) l') start))
              (round-Filled copied n l (copy_segment cr3 fuel vaddr source filesz (copied + n) l₁)
                z₀ (omega arith)
                (copy_segment-Filled fuel (copied + n) l₁ e (omega (arith, f, more, start)) ends)))
      | inr y ↦ rw y (
        refl,
        record {
          bytes = λ k a b. absurd (ground (arith, y, a, b));
          kept = λ k a b. refl;
          vmm = refl;
        },
      )
    ]

-- The copy of a segment that begins at a page, whose pages are mapped to frames that do not overlap: it
-- succeeds, with the fuel it has, and then every byte of the segment stands in memory where its address
-- is mapped to; the page tables are not changed.
pub copy_segment_lem :
    (cr3 vaddr filesz : ℕ) (source : ℕ → ℕ) (frame flags : ℕ → ℕ) (l : Loader)
    → IsMapped cr3 vaddr filesz source l.vmm frame flags
    → let x = copy_segment cr3 (filesz + 1) vaddr source filesz 0 l in
      (x.0 ≡ true)
      × ((k : ℕ)
          → k < filesz
          → x.1.bytes (frame ((vaddr + k) / 4096) + (vaddr + k) % 4096) ≡ source k)
      × (x.1.vmm ≡ l.vmm)
copy_segment_lem cr3 vaddr filesz source frame flags l m =
    let (done, r) =
      copy_segment-Filled cr3 vaddr filesz source l.vmm frame flags m (filesz + 1) 0 l refl
        (omega arith) (inl (omega arith)) in
    (done, (λ k h. r.bytes k (omega arith) h), r.vmm)
