-- ===== src/Pmm/Range.antt =====
-- `pmm_free_range`, `pmm_reserve_range` and `pmm_init`: which pages they free or reserve.
use myos.Base.{
  ℕ, zero, suc, ◌+◌, ◌-◌, ◌*◌, ◌/◌, ◌≤◌, ◌<◌, ◌%◌, min, ◌≡◌, refl, subst, ◌∙◌, Bool, true, false,
  ◌&&◌, ◌⊎◌, ltb, leb, arith, inl, inr, Bool-cases,
}
use myos.Base.Align.{u64_mod, align_up_page, align_down_page}
use myos.Pmm.{
  Pmm, bit_test, page_loop, over_range, free_range, reserve_range, page_size, max_phys_bytes,
  free_page, reserve_page,
}
use myos.Pmm.Bitmap.{IsBytes}
use myos.Pmm.Count.{IsValid, Round, free_page-Round, reserve_page-Round}
use myos.Pmm.Alloc.{Filled, Filled-empty, Filled-step}

-- What a loop over the pages from i up to e does.
pub record Swept (i e : ℕ) (b : Bool) (p q : Pmm) : Type 0 where
  pub filled : Filled i (min e p.total_pages_cnt) b p q
  pub bytes : IsBytes p → IsBytes q
  pub valid : IsValid p → IsValid q
  pub is_ready : q.ready ≡ p.ready

Swept-empty : (i e : ℕ) (b : Bool) (p : Pmm) → min e p.total_pages_cnt ≤ i → Swept i e b p p
Swept-empty i e b p h = record {
  filled = Filled-empty i (min e p.total_pages_cnt) b p h;
  bytes = λ v. v;
  valid = λ v. v;
  is_ready = refl;
}

Swept-end :
    (i e e' : ℕ) (b : Bool) (p q : Pmm)
    → min e p.total_pages_cnt ≡ min e' p.total_pages_cnt
    → Swept i e b p q
    → Swept i e' b p q
Swept-end i e e' b p q h s = record {
  filled = subst (λ t. Filled i t b p q) h s.filled;
  bytes = s.bytes;
  valid = s.valid;
  is_ready = s.is_ready;
}

module _ (b : Bool) (body : ℕ → Pmm → Pmm) (R : Round b body) where
  page_loop-Swept :
      (fuel i e a end : ℕ) (p : Pmm)
      → IsBytes p
      → a ≡ i * page_size
      → end ≡ e * page_size
      → e ≤ i + fuel
      → Swept i e b p (page_loop body fuel a end p)
  unfolding page_loop
  page_loop-Swept zero i e a end p v ha he h = Swept-empty i e b p (omega arith)
  page_loop-Swept (suc fuel) i e a end p v ha he h =
      elim (Bool-cases (ltb a end && ltb (a / page_size) p.total_pages_cnt)) [
        | inr stop ↦ rw (stop, page_loop) (Swept-empty i e b p (ground arith))
        | inl more ↦
            let page : a / page_size ≡ i = omega arith in
            let m = R.marks i p v in
            let rest =
              page_loop-Swept fuel (i + 1) e (a + page_size) end (body i p) m.bytes (omega arith) he
                (omega arith) in
            rw (more, page, page_loop)
              (record {
                filled =
                    Filled-step i (min e p.total_pages_cnt) b p (body i p)
                      (page_loop body fuel (a + page_size) end (body i p)) (ground arith) m
                      (subst
                        (λ t.
                          Filled (i + 1) (min e t) b (body i p)
                            (page_loop body fuel (a + page_size) end (body i p)))
                        m.total rest.filled);
                bytes = λ _. rest.bytes m.bytes;
                valid = λ u. rest.valid (R.keeps i p u (ground arith));
                is_ready = rest.is_ready ∙ m.is_ready;
              })
      ]

  over_range-Swept :
      (i e : ℕ) (p : Pmm)
      → IsBytes p
      → p.total_pages_cnt * page_size ≤ max_phys_bytes
      → Swept i e b p (over_range body (i * page_size) (e * page_size) p)
  unfolding over_range
  over_range-Swept i e p v h = elim (Bool-cases (leb (e * page_size) (i * page_size))) [
    | inl none' ↦ rw none' (Swept-empty i e b p (ground arith))
    | inr some' ↦ elim (Bool-cases (leb max_phys_bytes (i * page_size))) [
      | inl above ↦ rw (some', above) (Swept-empty i e b p (ground arith))
      | inr below ↦ elim (Bool-cases (ltb max_phys_bytes (e * page_size))) [
        | inl clamped ↦
            rw (some', below, clamped)
              (Swept-end i (max_phys_bytes / page_size) e b p _ (ground arith) (
                page_loop-Swept ((max_phys_bytes - i * page_size) / page_size) i
                  (max_phys_bytes / page_size) _ _ p v refl refl (omega arith)))
        | inr whole ↦
            rw (some', below, whole)
              (page_loop-Swept ((e * page_size - i * page_size) / page_size) i e _ _ p v refl refl
                (omega arith))
      ]
    ]
  ]

-- The pages that lie wholly inside a range of bytes, and those that overlap it.
abbrev inner_first : ℕ → ℕ
inner_first addr = (addr + 4095) / page_size

abbrev outer_end : ℕ → ℕ → ℕ
outer_end addr size = (addr + size + 4095) / page_size

module _ (addr size : ℕ) (p : Pmm) (fits : addr + size + 4095 < u64_mod)
    (tracked : p.total_pages_cnt * page_size ≤ max_phys_bytes) (v : IsBytes p) where
  free_range-Swept :
      Swept (inner_first addr) ((addr + size) / page_size) false p (free_range addr size p)
  unfolding free_range
  free_range-Swept =
      let whole : (addr + size) % u64_mod ≡ addr + size = omega arith in
      rw (whole, align_up_page addr (omega arith), align_down_page (addr + size) (omega arith))
        (over_range-Swept false free_page free_page-Round (inner_first addr)
          ((addr + size) / page_size) p v tracked)

  pub reserve_range-Swept :
      Swept (addr / page_size) (outer_end addr size) true p (reserve_range addr size p)
  unfolding reserve_range
  reserve_range-Swept =
      let whole : (addr + size) % u64_mod ≡ addr + size = omega arith in
      rw (whole, align_down_page addr (omega arith), align_up_page (addr + size) (omega arith))
        (over_range-Swept true reserve_page reserve_page-Round (addr / page_size)
          (outer_end addr size) p v tracked)

  -- `pmm_free_range` frees a tracked page exactly when the page lies wholly inside the range, and
  -- `pmm_reserve_range` reserves one exactly when the page overlaps the range; other pages stay, and
  -- the counter follows in a valid state.
  pub ranges_lem :
      (k : ℕ)
      → k < p.total_pages_cnt
      → ((addr ≤ k * page_size) × (k * page_size + page_size ≤ addr + size)
          → bit_test k (free_range addr size p) ≡ false)
        × (((k * page_size < addr) ⊎ (addr + size < k * page_size + page_size))
            → bit_test k (free_range addr size p) ≡ bit_test k p)
        × ((addr < k * page_size + page_size) × (k * page_size < addr + size)
            → bit_test k (reserve_range addr size p) ≡ true)
        × (((k * page_size + page_size ≤ addr) ⊎ (addr + size ≤ k * page_size))
            → bit_test k (reserve_range addr size p) ≡ bit_test k p)
        × (IsValid p → IsValid (free_range addr size p) × IsValid (reserve_range addr size p))
  ranges_lem k h =
      let f = free_range-Swept in
      let r = reserve_range-Swept in
      (
        λ w. ground (arith, f.filled.at k),
        λ w. ground (arith, f.filled.at k),
        λ w. ground (arith, r.filled.at k),
        λ w. ground (arith, r.filled.at k),
        λ u. (f.valid u, r.valid u),
      )
