-- ===== src/Pmm/Init.antt =====
-- The state that `pmm_init` leaves.
use myos.Base.{
  ℕ, zero, suc, ◌+◌, ◌-◌, ◌*◌, ◌/◌, ◌≤◌, ◌<◌, ◌%◌, ◌≡◌, refl, ◌∙◌, true, ◌&&◌, List, [], ◌∷◌, some,
  ltb, leb, ◌==◌, if◌then◌else◌, arith, inl, inr, Bool-cases, if_both, sym,
}
use myos.Base.Align.{u64_mod, align_up_u64, align_down_u64}
use myos.Pmm.{
  Pmm, MmapEntry, BootInfo, bit_test, free_range, reserve_range, free_available, recount_free,
  find_mmap, init, page_size, max_pages, max_phys_bytes, over_range, page_loop, free_page,
}
use myos.Pmm.Bitmap.{IsBytes}
use myos.Pmm.Count.{IsValid, free_page-Round, recount_free-counts, count_free_same, bit_test_same}
use myos.Pmm.Range.{reserve_range-Swept}

-- The bytes stay bytes, and the number of tracked pages stays.
abbrev Keeps : Pmm → Pmm → Type 0
Keeps p q = IsBytes q × (q.total_pages_cnt ≡ p.total_pages_cnt)

page_loop-Keeps :
    (fuel a end : ℕ) (p : Pmm) → IsBytes p → Keeps p (page_loop free_page fuel a end p)
unfolding page_loop
page_loop-Keeps zero a end p v = (v, refl)
page_loop-Keeps (suc fuel) a end p v =
    let m = free_page-Round.marks (a / page_size) p v in
    let rest = page_loop-Keeps fuel (a + page_size) end (free_page (a / page_size) p) m.bytes in
    elim (Bool-cases (ltb a end && ltb (a / page_size) p.total_pages_cnt)) [
      | inl more ↦ rw (more, page_loop) (rest.0, rest.1 ∙ m.total)
      | inr stop ↦ rw (stop, page_loop) (v, refl)
    ]

over_range-Keeps :
    (start end : ℕ) (p : Pmm) → IsBytes p → Keeps p (over_range free_page start end p)
unfolding over_range
over_range-Keeps start end p v =
    if_both (Keeps p) (leb end start) (v, refl)
      (if_both (Keeps p) (leb max_phys_bytes start) (v, refl) (page_loop-Keeps _ start _ p v))

free_range-Keeps : (addr len : ℕ) (p : Pmm) → IsBytes p → Keeps p (free_range addr len p)
unfolding free_range
free_range-Keeps addr len p v =
    over_range-Keeps (align_up_u64 addr page_size)
      (align_down_u64 ((addr + len) % u64_mod) page_size) p v

entry-Keeps :
    (e : MmapEntry) (p : Pmm)
    → IsBytes p
    → Keeps p (if e.type == 1 then free_range e.addr e.len p else p)
entry-Keeps e p v = elim (Bool-cases (e.type == 1)) [
  | inl available ↦ rw available (free_range-Keeps e.addr e.len p v)
  | inr taken ↦ rw taken (v, refl)
]

free_available-Keeps : (es : List MmapEntry) (p : Pmm) → IsBytes p → Keeps p (free_available es p)
unfolding free_available
free_available-Keeps [] p v = (v, refl)
free_available-Keeps (e ∷ es) p v =
    let q = if e.type == 1 then free_range e.addr e.len p else p in
    let entry = entry-Keeps e p v in
    let rest = free_available-Keeps es q entry.0 in (rest.0, rest.1 ∙ entry.1)

recount-IsValid : (p : Pmm) → IsBytes p → IsValid (record (recount_free p) { ready = true })
unfolding recount_free
recount-IsValid p v = record {
  bytes = v;
  counted =
      recount_free-counts p
      ∙ sym (count_free_same p.total_pages_cnt p (record (recount_free p) { ready = true }) refl);
  is_ready = refl;
}

-- The range that a region of memory spans can be reserved in one piece.
abbrev Fits : ℕ → ℕ → Type 0
Fits addr size = addr + size + 4095 < u64_mod

-- A page whose bytes overlap a region.
abbrev Overlaps : ℕ → ℕ → ℕ → Type 0
Overlaps k addr size = (addr < k * page_size + page_size) × (k * page_size < addr + size)

-- Reserving a region marks the tracked pages that overlap it, and frees none.
record Reserves (addr size : ℕ) (p q : Pmm) : Type 0 where
  keeps : Keeps p q
  marked : (k : ℕ) → k < p.total_pages_cnt → Overlaps k addr size → bit_test k q ≡ true
  grows : (k : ℕ) → bit_test k p ≡ true → bit_test k q ≡ true

reserve_range-Reserves :
    (addr size : ℕ) (p : Pmm)
    → Fits addr size
    → p.total_pages_cnt ≡ max_pages
    → IsBytes p
    → Reserves addr size p (reserve_range addr size p)
reserve_range-Reserves addr size p fits tracked v =
    let s = reserve_range-Swept addr size p fits (omega arith) v in
    record {
      keeps = (s.bytes v, s.filled.total);
      marked = λ k h o. ground (arith, s.filled.at k);
      grows = λ k u. ground (arith, s.filled.at k);
    }

-- The reservations of `pmm_init`, after the memory map has been read.
abbrev reserved : BootInfo → Pmm → Pmm
reserved b p₁ = reserve_range b.mb2 b.total_size (
    reserve_range b.kernel_start ((b.kernel_end + u64_mod - b.kernel_start) % u64_mod)
      (reserve_range 0 0x100000 p₁))

-- The outcome of `pmm_init`.
pub record Booted (b : BootInfo) (q : Pmm) : Type 0 where
  pub valid : IsValid q
  pub tracked : q.total_pages_cnt ≡ max_pages
  pub low : (k : ℕ) → k < 256 → bit_test k q ≡ true
  pub kernel :
      (k : ℕ)
      → k < max_pages
      → Overlaps k b.kernel_start (b.kernel_end - b.kernel_start)
      → bit_test k q ≡ true
  pub info : (k : ℕ) → k < max_pages → Overlaps k b.mb2 b.total_size → bit_test k q ≡ true

reserved-Booted :
    (b : BootInfo) (p : Pmm)
    → IsBytes p
    → p.total_pages_cnt ≡ max_pages
    → b.kernel_start ≤ b.kernel_end
    → b.kernel_end + 4095 < u64_mod
    → Fits b.mb2 b.total_size
    → Booted b (record (recount_free (reserved b p)) { ready = true })
reserved-Booted b p v t order kernel info =
    let size : (b.kernel_end + u64_mod - b.kernel_start) % u64_mod ≡ b.kernel_end - b.kernel_start =
      omega arith in
    rw size (record {
      valid = recount-IsValid p₃ r₃.keeps.0;
      tracked = recount-total ∙ r₃.keeps.1 ∙ t₂;
      low = λ k h. seen k (r₃.grows k (r₂.grows k (r₁.marked k (omega arith) (omega arith))));
      kernel = λ k h o. seen k (r₃.grows k (r₂.marked k (omega (arith, t₁)) o));
      info = λ k h o. seen k (r₃.marked k (omega (arith, t₂)) o);
    })
  where
    p₁ : Pmm
    p₁ = reserve_range 0 0x100000 p

    r₁ : Reserves 0 0x100000 p p₁
    r₁ = reserve_range-Reserves 0 0x100000 p (omega arith) t v

    t₁ : p₁.total_pages_cnt ≡ max_pages
    t₁ = r₁.keeps.1 ∙ t

    p₂ : Pmm
    p₂ = reserve_range b.kernel_start (b.kernel_end - b.kernel_start) p₁

    r₂ : Reserves b.kernel_start (b.kernel_end - b.kernel_start) p₁ p₂
    r₂ =
        reserve_range-Reserves b.kernel_start (b.kernel_end - b.kernel_start) p₁ (omega arith) t₁
          r₁.keeps.0

    t₂ : p₂.total_pages_cnt ≡ max_pages
    t₂ = r₂.keeps.1 ∙ t₁

    p₃ : Pmm
    p₃ = reserve_range b.mb2 b.total_size p₂

    r₃ : Reserves b.mb2 b.total_size p₂ p₃
    r₃ = reserve_range-Reserves b.mb2 b.total_size p₂ info t₂ r₂.keeps.0

    recount-total : (record (recount_free p₃) { ready = true }).total_pages_cnt ≡ p₃.total_pages_cnt
    recount-total = unfold recount_free in refl

    seen :
        (k : ℕ)
        → bit_test k p₃ ≡ true
        → bit_test k (record (recount_free p₃) { ready = true }) ≡ true
    seen k u =
        bit_test_same k p₃ (record (recount_free p₃) { ready = true }) (unfold recount_free in refl)
        ∙ u

-- Where the boot information holds a memory map, and the kernel image and the boot information do
-- not reach the last page of the address space, `pmm_init` establishes the invariant over all 2^20
-- pages, and leaves in use the first 256 pages and every page that the kernel image or the boot
-- information overlaps, whatever the map says is available.
pub init-Booted :
    (b : BootInfo) (p : Pmm) (es : List MmapEntry)
    → find_mmap b.tags ≡ some es
    → b.kernel_start ≤ b.kernel_end
    → b.kernel_end + 4095 < u64_mod
    → Fits b.mb2 b.total_size
    → Booted b (init b p)
unfolding init
init-Booted b p es found order kernel info =
    let p₀ = record p { bitmap = λ _. 255; total_pages_cnt = max_pages } in
    let keeps = free_available-Keeps es p₀ (λ i. omega arith) in
    rw (found, init) (reserved-Booted b (free_available es p₀) keeps.0 keeps.1 order kernel info)
