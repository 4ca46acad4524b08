-- ===== src/Vmm/Ensure.antt =====
-- Getting a table below an entry, where it is missing with a fresh page.
use myos.Base.{
  ℕ, suc, ◌+◌, ◌*◌, ◌/◌, ◌%◌, ◌≡◌, ◌≢◌, refl, ap, ◌∙◌, true, false, Option, none, some, ◌==◌,
  if◌then◌else◌, arith, inl, inr, Bool-cases, bit_or, bit_and, ◌⊎◌,
}
use myos.Pmm.{bit_test}
use myos.Vmm.{Vmm, frame, is_present, is_huge, write, alloc_zero_page, ensure_table}
use myos.Vmm.Entry.{frame_of_page, frame-bit_or, is_huge-bit_or, bit_or-odd, present_of_odd}
use myos.Vmm.Tree.{Shape, IsTree, Owned}
use myos.Vmm.Fresh.{IsFull, Page, alloc_zero_page-Page}
use myos.Vmm.Grow.{
  Extends, Extends-refl, Grown, grown, grown-Extends, new_level, new_start, new_owner,
}

-- What `ensure_table` gives for the i-th entry of a table t of level k + 2: nothing, and then no page
-- was free; or the table below the entry, in memory that extends the old.
abbrev pub Ensured : Vmm → Shape → ℕ → ℕ → ℕ → Option ℕ × Vmm → Type 0
Ensured v g t k i (none, v') = (v' ≡ v) × IsFull v.pmm
Ensured v g t k i (some c, v') =
    (g' : Shape) × Extends v g v' g'
    × (g'.level c ≡ suc k)
    × (g'.start c ≡ g.start t * 512 + i)
    × (g'.owner c ≡ g.owner t)
    × (is_present (v'.mem t i) ≡ true)
    × (frame (v'.mem t i) ≡ c)
    × (is_huge (v'.mem t i) ≡ false)

pub ensure_table-Ensured :
    (v : Vmm) (g : Shape) (t k i flags : ℕ)
    → IsTree v g
    → g.level t ≡ suc (suc k)
    → Owned (g.level t) i
    → frame flags ≡ 0
    → bit_and flags 0x80 ≡ 0
    → flags % 2 ≡ 1
    → Ensured v g t k i (ensure_table t i flags v)
unfolding ensure_table
ensure_table-Ensured v g t k i flags w h o f0 f1 f2 = elim (Bool-cases (is_present (v.mem t i))) [
  | inl on ↦
      let (small, level, start, owner) = (w.table t (omega (arith, h))).child k i h o on in
      rw on (g, Extends-refl v g w, level, start, owner, on, refl, small)
  | inr off ↦ rw off (grow off (alloc_zero_page-Page v w.pages w.page_zero w.few))
]
  where
    made :
        (c : ℕ) (v₁ : Vmm)
        → Page v v₁ c
        → is_present (v.mem t i) ≡ false
        → Grown v g (write t i (bit_or c flags) v₁) t i c k
    made c v₁ p off =
        let free = p.free in
        let old = w.table t (omega (arith, h)) in
        let e = bit_or c flags in
        let here : (write t i e v₁).mem t i ≡ e = ground arith in
        let tc : t ≢ c =
          λ same. ground (arith, ap (λ a. bit_test (a / 4096) v.pmm) same, old.used, free) in
        record {
          tree = w;
          parent = h;
          owned = o;
          absent = off;
          fresh = elim (Bool-cases (g.level c == 0)) [
            | inl z ↦ ground arith
            | inr pos ↦ let used = (w.table c (ground arith)).used in ground (arith, used, free)
          ];
          page = p.page;
          inside = p.inside;
          used = p.used;
          kept = p.kept;
          pages = p.pages;
          few = omega (arith, p.total, w.few);
          present = ap is_present here ∙ present_of_odd e (bit_or-odd c flags f2);
          points = ap frame here ∙ (frame-bit_or c flags f0 ∙ frame_of_page c p.page p.inside);
          small = ap is_huge here ∙ is_huge-bit_or c flags p.page f1;
          zeroed = λ j. ground (arith, tc, ap (λ m. m c j) p.mem);
          others = λ t' j ne miss.
              ground (arith, ne, miss, ap (λ m. m t' j) p.mem, tc, ap (λ m. m t j) p.mem);
        }

    grow :
        is_present (v.mem t i) ≡ false
        → ((alloc_zero_page v ≡ (0, v)) × IsFull v.pmm)
          ⊎ ((c : ℕ) × (v₁ : Vmm) × (alloc_zero_page v ≡ (c, v₁)) × Page v v₁ c)
        → Ensured v g t k i (
            let (pa, v₁) = alloc_zero_page v in
            if pa == 0 then (none, v₁) else (some pa, write t i (bit_or pa flags) v₁))
    grow off (inl (e, full)) = rw e (refl, full)
    grow off (inr (c, v₁, e, p)) =
        let nonzero : (c == 0) ≡ false = ground (arith, p.nonzero) in
        let m = made c v₁ p off in
        let v' = write t i (bit_or c flags) v₁ in
        rw e (
          rw nonzero (
            grown g t i c k,
            grown-Extends v g v' t i c k m,
            new_level v g v' t i c k m,
            new_start v g v' t i c k m,
            new_owner v g v' t i c k m,
            m.present,
            m.points,
            m.small,
          ))
