-- ===== src/Vmm/Fresh.antt =====
-- `alloc_zero_page`: a page that was free, and is zeroed and in use.
use myos.Base.{
  ℕ, ◌+◌, ◌*◌, ◌/◌, ◌%◌, ◌≤◌, ◌<◌, ◌≡◌, refl, ap, ap₂, ◌∙◌, subst, true, false, ◌==◌, arith, inl,
  inr, update, ◌⊎◌,
}
use myos.Pmm.{Pmm, bit_test, alloc_pages}
use myos.Pmm.Count.{IsValid}
use myos.Pmm.Scan.{FreeRun}
use myos.Pmm.Alloc.{Outcome, alloc_pages_lem, Allocated}
use myos.Vmm.{Vmm, alloc_zero_page}

-- No page is free.
abbrev pub IsFull : Pmm → Type 0
IsFull p = (s : ℕ) → s + 1 ≤ p.total_pages_cnt → ¬ FreeRun p s 1

-- A zeroed page c that was free.
pub record Page (v v' : Vmm) (c : ℕ) : Type 0 where
  pub page : c % 4096 ≡ 0
  pub inside : c < 0x10_0000_0000_0000
  pub nonzero : 0 < c
  pub free : bit_test (c / 4096) v.pmm ≡ false
  pub used : bit_test (c / 4096) v'.pmm ≡ true
  pub kept : (k : ℕ) → bit_test k v.pmm ≡ true → bit_test k v'.pmm ≡ true
  pub pages : IsValid v'.pmm
  pub total : v'.pmm.total_pages_cnt ≡ v.pmm.total_pages_cnt
  pub mem : v'.mem ≡ update v.mem c (λ _. 0)

Allocated-Page :
    (v : Vmm) (s : ℕ) (q : Pmm)
    → v.pmm.total_pages_cnt ≤ 0x10_0000
    → 0 < s
    → Allocated 1 s v.pmm q
    → Page v (record v { pmm = q; mem = update v.mem (s * 4096) (λ _. 0) }) (s * 4096)
Allocated-Page v s q few pos a = record {
  page = omega arith;
  inside = omega (arith, a.found.inside, few);
  nonzero = omega arith;
  free = subst (λ k. bit_test k v.pmm ≡ false) index (a.found.free s (omega arith) (omega arith));
  used = subst (λ k. bit_test k q ≡ true) index (ground (arith, a.filled.at s));
  kept = λ k h. ground (arith, a.filled.at k, h);
  pages = a.valid;
  total = a.filled.total;
  mem = refl;
}
  where
    index : s ≡ s * 4096 / 4096
    index = omega arith

pub alloc_zero_page-Page :
    (v : Vmm)
    → IsValid v.pmm
    → bit_test 0 v.pmm ≡ true
    → v.pmm.total_pages_cnt ≤ 0x10_0000
    → ((alloc_zero_page v ≡ (0, v)) × IsFull v.pmm)
      ⊎ ((c : ℕ) × (v' : Vmm) × (alloc_zero_page v ≡ (c, v')) × Page v v' c)
unfolding alloc_zero_page
alloc_zero_page-Page v pages used few =
    from (alloc_pages 1 v.pmm).0 (alloc_pages 1 v.pmm).1 refl
      (alloc_pages_lem 1 v.pmm (omega arith) pages used)
  where
    from :
        (pa : ℕ) (q : Pmm)
        → alloc_pages 1 v.pmm ≡ (pa, q)
        → Outcome 1 v.pmm (pa, q)
        → ((alloc_zero_page v ≡ (0, v)) × IsFull v.pmm)
          ⊎ ((c : ℕ) × (v' : Vmm) × (alloc_zero_page v ≡ (c, v')) × Page v v' c)
    from pa q e (inl (z, r)) =
        let e' : alloc_pages 1 v.pmm ≡ (0, v.pmm) =
          e ∙ ap₂ (λ (a : ℕ) (p : Pmm). (a, p)) z r.same in
        inl (rw e' refl, r.full)
    from pa q e (inr (s, at, pos, a)) =
        let e' : alloc_pages 1 v.pmm ≡ (s * 4096, q) = e ∙ ap (λ (a : ℕ). (a, q)) at in
        let nonzero : (s * 4096 == 0) ≡ false = ground arith in
        inr (s * 4096, _, rw e' (rw nonzero refl), Allocated-Page v s q few pos a)
