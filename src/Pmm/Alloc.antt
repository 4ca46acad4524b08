-- ===== src/Pmm/Alloc.antt =====
-- `pmm_alloc_pages` and `pmm_free_pages`: what each does to the pages and to the counter.
use native.Mathlib.Decide.{dec_lt}
use myos.Base.{
  ℕ, zero, suc, ◌+◌, ◌-◌, ◌*◌, ◌/◌, ◌≤◌, ◌<◌, min, ◌≡◌, refl, ap, subst, ◌∙◌, Bool, true, false,
  ◌&&◌, ◌≢◌, ◌⊎◌, ltb, leb, ◌==◌, if◌then◌else◌, arith, inl, inr, Bool-cases, Option-cases,
}
use myos.Pmm.{
  Pmm, bit_set, bit_test, scan, set_run, alloc_pages, free_run, free_one, free_pages, page_size,
}
use myos.Pmm.Bitmap.{IsBytes}
use myos.Pmm.Count.{
  count_free, count_free_same, IsValid, Marks, count-set, bit_set-Marks, bit_test_same,
  free_one-Round,
}
use myos.Pmm.Scan.{FreeRun, Found, Answer, scan-Answer}

-- q is p with the bits of the pages from s up to e, e excluded, set to b.
pub record Filled (s e : ℕ) (b : Bool) (p q : Pmm) : Type 0 where
  pub at : (k : ℕ) → bit_test k q ≡ (if leb s k && ltb k e then b else bit_test k p)
  pub total : q.total_pages_cnt ≡ p.total_pages_cnt

pub Filled-empty : (s e : ℕ) (b : Bool) (p : Pmm) → e ≤ s → Filled s e b p p
Filled-empty s e b p h = record { at = λ k. ground arith; total = refl }

pub Filled-step :
    (s e : ℕ) (b : Bool) (p q r : Pmm)
    → s < e
    → Marks s b p q
    → Filled (s + 1) e b q r
    → Filled s e b p r
Filled-step s e b p q r h m f = record {
  at = λ k. ground (arith, f.at k, m.at k);
  total = f.total ∙ m.total;
}

Filled-count :
    (s e c : ℕ) (b : Bool) (p q : Pmm)
    → Filled s e b p q
    → Filled s e b p (record q { free_pages_cnt = c })
Filled-count s e c b p q f = record {
  at = λ k. bit_test_same k q (record q { free_pages_cnt = c }) refl ∙ f.at k;
  total = f.total;
}

-- A free run is counted.
count_free-FreeRun : (t s n : ℕ) (p : Pmm) → FreeRun p s n → s + n ≤ t → n ≤ count_free t p
unfolding count_free
count_free-FreeRun zero s n p f h = omega arith
count_free-FreeRun (suc t) s zero p f h = omega arith
count_free-FreeRun (suc t) s (suc n) p f h = elim (dec_lt t (s + suc n)) [
  | yes last ↦ ground (
    arith,
    f t (omega arith) last,
    count_free-FreeRun t s n p (λ k a b. f k a (omega arith)) (omega arith),
  )
  | no inside ↦ ground (arith, count_free-FreeRun t s (suc n) p f (omega arith))
]

-- After the loop of `bit_set`s the run is in use, and it was what the counter lost.
record Taken (n s : ℕ) (p q : Pmm) : Type 0 where
  filled : Filled s (s + n) true p q
  bytes : IsBytes q
  same_count : q.free_pages_cnt ≡ p.free_pages_cnt
  same_ready : q.ready ≡ p.ready
  counted : count_free p.total_pages_cnt q + n ≡ count_free p.total_pages_cnt p

bit_set-count :
    (i : ℕ) (p : Pmm)
    → ((bit_set i p).free_pages_cnt ≡ p.free_pages_cnt) × ((bit_set i p).ready ≡ p.ready)
unfolding bit_set
bit_set-count i p = (refl, refl)

set_run-Taken :
    (n start j s : ℕ) (p : Pmm)
    → s ≡ start + j
    → IsBytes p
    → FreeRun p s n
    → s + n ≤ p.total_pages_cnt
    → Taken n s p (set_run n start j p)
unfolding set_run
set_run-Taken zero start j s p e v f h = record {
  filled = Filled-empty s (s + 0) true p (omega arith);
  bytes = v;
  same_count = refl;
  same_ready = refl;
  counted = omega arith;
}
set_run-Taken (suc n) start j s p e v f h = rw (← e) (
    step (set_run n start (j + 1) (bit_set s p)) (
      set_run-Taken n start (j + 1) (s + 1) (bit_set s p) (omega arith) m.bytes
        (λ k a b. ground (arith, m.at k, f k)) (simp m.total (omega arith))))
  where
    m : Marks s true p (bit_set s p)
    m = bit_set-Marks s p v

    step : (q : Pmm) → Taken n (s + 1) (bit_set s p) q → Taken (suc n) s p q
    step q t = record {
      filled =
          Filled-step s (s + suc n) true p (bit_set s p) q (omega arith) m
            (subst (λ k. Filled (s + 1) k true (bit_set s p) q) (omega arith) t.filled);
      bytes = t.bytes;
      same_count = t.same_count ∙ (bit_set-count s p).0;
      same_ready = t.same_ready ∙ (bit_set-count s p).1;
      counted = omega (
        arith,
        subst (λ k. count_free k q + n ≡ count_free k (bit_set s p)) m.total t.counted,
        count-set p.total_pages_cnt s p (bit_set s p) m (f s (omega arith) (omega arith))
            (omega arith),
      );
    }

-- A successful allocation: the lowest free run of the length, taken as a whole and counted.
pub record Allocated (pages s : ℕ) (p q : Pmm) : Type 0 where
  pub found : Found pages p.total_pages_cnt p s
  pub filled : Filled s (s + pages) true p q
  pub counted : q.free_pages_cnt + pages ≡ p.free_pages_cnt
  pub valid : IsValid q

-- A failed one: nothing changes, and there is no such run.
pub record Refused (pages : ℕ) (p q : Pmm) : Type 0 where
  pub same : q ≡ p
  pub full : (s : ℕ) → s + pages ≤ p.total_pages_cnt → ¬ FreeRun p s pages

taken-Allocated :
    (pages s : ℕ) (p : Pmm)
    → IsValid p
    → Found pages p.total_pages_cnt p s
    → let q = set_run pages s 0 p in
      Allocated pages s p (record q { free_pages_cnt = q.free_pages_cnt - pages })
taken-Allocated pages s p v found = record {
  found = found;
  filled = Filled-count s (s + pages) _ true p q t.filled;
  counted = omega (
    arith,
    t.same_count,
    v.counted,
    count_free-FreeRun p.total_pages_cnt s pages p found.free found.inside,
  );
  valid = record {
    bytes = t.bytes;
    counted = omega (
      arith,
      t.same_count,
      t.counted,
      v.counted,
      ap (λ k. count_free k q') t.filled.total,
      count_free_same p.total_pages_cnt q q' refl,
    );
    is_ready = t.same_ready ∙ v.is_ready;
  };
}
  where
    q : Pmm
    q = set_run pages s 0 p

    t : Taken pages s p q
    t = set_run-Taken pages s 0 s p (omega arith) v.bytes found.free found.inside

    q' : Pmm
    q' = record q { free_pages_cnt = q.free_pages_cnt - pages }

Found-pos :
    (pages total s : ℕ) (p : Pmm) → 0 < pages → bit_test 0 p ≡ true → Found pages total p s → 0 < s
Found-pos pages total s p h used found = elim (dec_lt 0 s) [
  | yes pos ↦ pos
  | no zero' ↦ ground (arith, used, found.free 0)
]

-- What `pmm_alloc_pages` may return.
abbrev pub Outcome : ℕ → Pmm → ℕ × Pmm → Type 0
Outcome pages p (addr, q) =
    ((addr ≡ 0) × Refused pages p q)
    ⊎ ((s : ℕ) × (addr ≡ s * page_size) × (0 < s) × Allocated pages s p q)

-- While page 0 is in use, as `pmm_init` leaves it, `pmm_alloc_pages` for one page or more either
-- returns 0, changes nothing, and no free run of that length exists; or it returns the address of
-- the lowest free run of that length, which is not 0, marks exactly its pages, and takes their
-- number off the counter. The invariant is kept.
pub alloc_pages_lem :
    (pages : ℕ) (p : Pmm)
    → 0 < pages
    → IsValid p
    → bit_test 0 p ≡ true
    → Outcome pages p (alloc_pages pages p)
unfolding alloc_pages
alloc_pages_lem pages p h v used = elim (Bool-cases (ltb p.free_pages_cnt pages)) [
  | inl few ↦
      let nonzero : (pages == 0) ≡ false = ground arith in
      rw (nonzero, few)
        (inl (
          refl,
          record {
            same = refl;
            full = λ s inside f.
                ground (arith, v.counted, count_free-FreeRun p.total_pages_cnt s pages p f inside);
          },
        ))
  | inr enough ↦
      let nonzero : (pages == 0) ≡ false = ground arith in
      let found = scan-Answer pages p.total_pages_cnt p h in
      elim (Option-cases (scan p.total_pages_cnt 0 0 0 pages p)) [
        | inl e ↦
            rw (nonzero, enough, e, alloc_pages)
              (inl (
                refl,
                record { same = refl; full = subst (Answer pages p.total_pages_cnt p) e found },
              ))
        | inr (s, e) ↦
            let taken = subst (Answer pages p.total_pages_cnt p) e found in
            rw (nonzero, enough, e, alloc_pages)
              (inr (
                s,
                refl,
                Found-pos pages p.total_pages_cnt s p h used taken,
                taken-Allocated pages s p v taken,
              ))
      ]
]

count_free_pointwise :
    (n : ℕ) (p q : Pmm) → ((k : ℕ) → bit_test k q ≡ bit_test k p) → count_free n q ≡ count_free n p
unfolding count_free
count_free_pointwise zero p q e = refl
count_free_pointwise (suc n) p q e = ground (arith, e n, count_free_pointwise n p q e)

-- The loop of `pmm_free_pages` clears the run as far as the tracked pages go.
record Freed (n idx : ℕ) (p q : Pmm) : Type 0 where
  filled : Filled idx (min (idx + n) p.total_pages_cnt) false p q
  valid : IsValid q

free_run-Freed : (n idx : ℕ) (p : Pmm) → IsValid p → Freed n idx p (free_run n idx p)
unfolding free_run
free_run-Freed zero idx p v = record {
  filled = Filled-empty idx _ false p (omega arith);
  valid = v;
}
free_run-Freed (suc n) idx p v = elim (Bool-cases (ltb idx p.total_pages_cnt)) [
  | inr out ↦
      rw (out, free_run) (record { filled = Filled-empty idx _ false p (ground arith); valid = v })
  | inl inside ↦
      let q = free_one idx p in
      let m = free_one-Round.marks idx p v.bytes in
      let rest = free_run-Freed n (idx + 1) q (free_one-Round.keeps idx p v (ground arith)) in
      rw (inside, free_run)
        (record {
          filled =
              Filled-step idx (min (idx + suc n) p.total_pages_cnt) false p q
                (free_run n (idx + 1) q) (ground arith) m
                (subst (λ k. Filled (idx + 1) k false q (free_run n (idx + 1) q))
                  (omega (arith, m.total)) rest.filled);
          valid = rest.valid;
        })
]

-- `pmm_free_pages` at an address other than 0 leaves the pages from the one that holds the address
-- on free, as many as asked for and as are tracked, changes no other page, and keeps the invariant:
-- pages that were free already are not counted twice.
pub free_pages_lem :
    (addr n : ℕ) (p : Pmm)
    → 0 < addr
    → IsValid p
    → let q = free_pages addr n p in
      let s = addr / page_size in
      ((k : ℕ)
        → bit_test k q
          ≡ (if leb s k && ltb k (min (s + n) p.total_pages_cnt) then false else bit_test k p))
      × (q.total_pages_cnt ≡ p.total_pages_cnt)
      × IsValid q
unfolding free_pages
free_pages_lem addr zero p h v = (λ k. ground arith, refl, v)
free_pages_lem addr (suc n) p h v =
    let e : (addr == 0) ≡ false = ground arith in
    let freed = free_run-Freed (suc n) (addr / page_size) p v in
    let nonzero : (suc n == 0) ≡ false = ground arith in
    rw (nonzero, e) (freed.filled.at, freed.filled.total, freed.valid)

-- The address 0 frees nothing.
pub free_pages-zero : (addr n : ℕ) (p : Pmm) → addr ≡ 0 → free_pages addr n p ≡ p
unfolding free_pages
free_pages-zero addr zero p e = refl
free_pages-zero addr (suc n) p e =
    let z : (addr == 0) ≡ true = ground (arith, e) in
    let n' : (suc n == 0) ≡ false = ground arith in rw (n', z) refl

-- The round trip: freeing what `pmm_alloc_pages` returned puts every page and the counter back.
pub free_pages-alloc_pages :
    (n addr : ℕ) (p q : Pmm)
    → 0 < n
    → IsValid p
    → bit_test 0 p ≡ true
    → alloc_pages n p ≡ (addr, q)
    → addr ≢ 0
    → let r = free_pages addr n q in
      ((k : ℕ) → bit_test k r ≡ bit_test k p) × (r.free_pages_cnt ≡ p.free_pages_cnt)
free_pages-alloc_pages n addr p q h v used e ne =
    elim (subst (Outcome n p) e (alloc_pages_lem n p h v used)) [
      | inl (none', _) ↦ absurd (ne none')
      | inr (s, at, pos, a) ↦ restored s at a (free_pages_lem addr n q (omega arith) a.valid)
    ]
  where
    restored :
        (s : ℕ)
        → addr ≡ s * page_size
        → Allocated n s p q
        → (let s = addr / page_size in
            ((k : ℕ)
              → bit_test k (free_pages addr n q) ≡ (
                  if leb s k && ltb k (min (s + n) q.total_pages_cnt) then false else bit_test k q))
            × ((free_pages addr n q).total_pages_cnt ≡ q.total_pages_cnt)
            × IsValid (free_pages addr n q))
        → ((k : ℕ) → bit_test k (free_pages addr n q) ≡ bit_test k p)
          × ((free_pages addr n q).free_pages_cnt ≡ p.free_pages_cnt)
    restored s at a (pages, total, valid) = (
      same,
      omega (
        arith,
        valid.counted,
        v.counted,
        ap (λ t. count_free t (free_pages addr n q)) (total ∙ a.filled.total),
        count_free_pointwise p.total_pages_cnt p (free_pages addr n q) same,
      ),
    )
      where
        same : (k : ℕ) → bit_test k (free_pages addr n q) ≡ bit_test k p
        same k =
            ground
              (arith, at, pages k, a.filled.at k, a.found.free k, a.found.inside, a.filled.total)
