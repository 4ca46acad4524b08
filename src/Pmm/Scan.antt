-- ===== src/Pmm/Scan.antt =====
-- The search of `pmm_alloc_pages` for a run of free pages: what it finds, and what it passes over.
use myos.Base.{
  ℕ, zero, suc, ◌+◌, ◌≤◌, ◌<◌, ◌≡◌, refl, true, false, Option, none, some, ◌≢◌, ◌==◌, if◌then◌else◌,
  arith, inl, inr, Bool-cases,
}
use native.Mathlib.Decide.{dec_lt}
use myos.Pmm.{Pmm, bit_test, scan}

-- The n pages from s on are free.
abbrev pub FreeRun : Pmm → ℕ → ℕ → Type 0
FreeRun p s n = (k : ℕ) → s ≤ k → k < s + n → bit_test k p ≡ false

-- Before page i, the search has met no run of free pages that is long enough: the run that ends
-- there has the length `run` and begins at `lo`, and no page below `lo` begins a free run.
record Searched (pages i run start lo : ℕ) (p : Pmm) : Type 0 where
  short : run < pages
  ends : lo + run ≡ i
  start_at : run ≢ 0 → start ≡ lo
  free : FreeRun p lo run
  passed : (s : ℕ) → s < lo → ¬ FreeRun p s pages

-- No free run of the length begins at or before the place where a used page ends it.
blocked :
    (p : Pmm) (s k pages : ℕ) → bit_test k p ≡ true → s ≤ k → k < s + pages → ¬ FreeRun p s pages
blocked p s k pages u a b f = ground (arith, f k a b)

-- s is the lowest page that begins a free run of the length.
pub record Found (pages total : ℕ) (p : Pmm) (s : ℕ) : Type 0 where
  pub inside : s + pages ≤ total
  pub free : FreeRun p s pages
  pub first : (s' : ℕ) → s' < s → ¬ FreeRun p s' pages

-- What the search owes for its answer.
abbrev pub Answer : (pages total : ℕ) (p : Pmm) → Option ℕ → Type 0
Answer pages total p none = (s : ℕ) → s + pages ≤ total → ¬ FreeRun p s pages
Answer pages total p (some s) = Found pages total p s

module _ (pages i run start lo : ℕ) (p : Pmm) (v : Searched pages i run start lo p) where
  Searched-used : bit_test i p ≡ true → Searched pages (i + 1) 0 start (i + 1) p
  Searched-used u = record {
    short = omega (arith, v.short);
    ends = omega arith;
    start_at = λ h. absurd (h refl);
    free = λ k a b. absurd (omega arith);
    passed = λ s h. elim (dec_lt s lo) [
      | yes below ↦ v.passed s below
      | no above ↦ blocked p s i pages u (omega arith) (omega (arith, v.short, v.ends))
    ];
  }

  start'-eq-lo : (if run == 0 then i else start) ≡ lo
  start'-eq-lo = ground (arith, v.ends, v.start_at)

  longer : bit_test i p ≡ false → FreeRun p lo (run + 1)
  longer f k a b = elim (dec_lt k i) [
    | yes below ↦ v.free k a (omega (arith, v.ends))
    | no above ↦ let e : k ≡ i = omega (arith, v.ends) in rw e f
  ]

  Searched-free :
      bit_test i p ≡ false
      → run + 1 ≢ pages
      → Searched pages (i + 1) (run + 1) (if run == 0 then i else start) lo p
  Searched-free f h = record {
    short = omega (arith, v.short);
    ends = omega (arith, v.ends);
    start_at = λ _. start'-eq-lo;
    free = longer f;
    passed = v.passed;
  }

scan-Searched :
    (n i run start lo total pages : ℕ) (p : Pmm)
    → i + n ≡ total
    → Searched pages i run start lo p
    → Answer pages total p (scan n i run start pages p)
unfolding scan
scan-Searched zero i run start lo total pages p e v = λ s h. elim (dec_lt s lo) [
  | yes below ↦ v.passed s below
  | no above ↦ absurd (omega (arith, v.ends, v.short))
]
scan-Searched (suc n) i run start lo total pages p e v = elim (Bool-cases (bit_test i p)) [
  | inl u ↦
      rw (u, scan)
        (scan-Searched n (i + 1) 0 start (i + 1) total pages p (omega arith)
          (Searched-used pages i run start lo p v u))
  | inr f ↦
      rw (f, scan)
        (elim (Bool-cases (run + 1 == pages)) [
          | inl fits ↦
              rw (fits, start'-eq-lo pages i run start lo p v)
                (record {
                  inside = ground (arith, v.ends);
                  free =
                      let e' : run + 1 ≡ pages = ground arith in
                      rw (← e') (longer pages i run start lo p v f);
                  first = v.passed;
                })
          | inr more ↦ rw more (
              scan-Searched n (i + 1) (run + 1) (if run == 0 then i else start) lo total pages p
                (omega arith) (Searched-free pages i run start lo p v f (ground arith)))
        ])
]

-- `pmm_alloc_pages` searches completely: it finds the lowest run of free pages of the length asked
-- for, and reports none only where there is none.
pub scan-Answer :
    (pages total : ℕ) (p : Pmm) → 0 < pages → Answer pages total p (scan total 0 0 0 pages p)
scan-Answer pages total p h = scan-Searched total 0 0 0 0 total pages p (omega arith) (record {
  short = h;
  ends = omega arith;
  start_at = λ _. refl;
  free = λ k a b. absurd (omega arith);
  passed = λ s below. elim below [ ];
})
