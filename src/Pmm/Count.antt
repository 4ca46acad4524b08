-- ===== src/Pmm/Count.antt =====
-- The free-page counter of src/pmm.c against the bitmap.
use myos.Base.{
  ℕ, zero, suc, ◌+◌, ◌-◌, ◌/◌, ◌%◌, ◌^◌, ◌≤◌, ◌<◌, ◌≡◌, refl, ap, ◌∙◌, Bool, true, false, ◌==◌,
  if◌then◌else◌, arith, inl, inr, Bool-cases,
}
use myos.Pmm.{
  Pmm, bit_set, bit_clear, bit_test, free_page, free_one, reserve_page, recount_from, recount_free,
}
use myos.Pmm.Bitmap.{
  IsBytes, bit_test-bit_set, bit_test-bit_clear, bit_set-IsBytes, bit_clear-IsBytes,
}

-- The number of pages below n whose bit is clear.
unfoldable pub count_free : ℕ → Pmm → ℕ
count_free zero p = 0
count_free (suc n) p = if bit_test n p then count_free n p else suc (count_free n p)

-- The allocator's invariant, from the end of `pmm_init` on.
pub record IsValid (p : Pmm) : Type 0 where
  pub bytes : IsBytes p
  pub counted : p.free_pages_cnt ≡ count_free p.total_pages_cnt p
  pub is_ready : p.ready ≡ true

pub bit_test_same : (j : ℕ) (p q : Pmm) → q.bitmap ≡ p.bitmap → bit_test j q ≡ bit_test j p
unfolding bit_test
bit_test_same j p q e = λ i. e i (j / 8) / 2 ^ (j % 8) % 2 == 1

pub count_free_same : (n : ℕ) (p q : Pmm) → q.bitmap ≡ p.bitmap → count_free n q ≡ count_free n p
unfolding count_free
count_free_same zero p q e = refl
count_free_same (suc n) p q e = ground (arith, bit_test_same n p q e, count_free_same n p q e)

pub count_free-le : (n : ℕ) (p : Pmm) → count_free n p ≤ n
unfolding count_free
count_free-le zero p = omega arith
count_free-le (suc n) p = ground (arith, count_free-le n p)

-- q is p with page i's bit set to b.
pub record Marks (i : ℕ) (b : Bool) (p q : Pmm) : Type 0 where
  pub at : (j : ℕ) → bit_test j q ≡ (if j == i then b else bit_test j p)
  pub bytes : IsBytes q
  pub total : q.total_pages_cnt ≡ p.total_pages_cnt
  pub is_ready : q.ready ≡ p.ready

count_same :
    (n i : ℕ) (b : Bool) (p q : Pmm) → Marks i b p q → n ≤ i → count_free n q ≡ count_free n p
unfolding count_free
count_same zero i b p q m h = refl
count_same (suc n) i b p q m h = ground (arith, m.at n, count_same n i b p q m)

pub count-set :
    (n i : ℕ) (p q : Pmm)
    → Marks i true p q
    → bit_test i p ≡ false
    → i < n
    → suc (count_free n q) ≡ count_free n p
unfolding count_free
count-set zero i p q m f h = absurd (omega arith)
count-set (suc n) i p q m f h = elim (Bool-cases (n == i)) [
  | inl e ↦ ground (arith, m.at n, count_same n i true p q m)
  | inr e ↦ ground (arith, m.at n, count-set n i p q m f)
]

pub count-clear :
    (n i : ℕ) (p q : Pmm)
    → Marks i false p q
    → bit_test i p ≡ true
    → i < n
    → count_free n q ≡ suc (count_free n p)
unfolding count_free
count-clear zero i p q m f h = absurd (omega arith)
count-clear (suc n) i p q m f h = elim (Bool-cases (n == i)) [
  | inl e ↦ ground (arith, m.at n, count_same n i false p q m)
  | inr e ↦ ground (arith, m.at n, count-clear n i p q m f)
]

pub bit_set-Marks : (i : ℕ) (p : Pmm) → IsBytes p → Marks i true p (bit_set i p)
unfolding bit_set
bit_set-Marks i p v = record {
  at = λ j. bit_test-bit_set i j p v;
  bytes = bit_set-IsBytes i p v;
  total = refl;
  is_ready = refl;
}

pub bit_clear-Marks : (i : ℕ) (p : Pmm) → IsBytes p → Marks i false p (bit_clear i p)
unfolding bit_clear
bit_clear-Marks i p v = record {
  at = λ j. bit_test-bit_clear i j p v;
  bytes = bit_clear-IsBytes i p v;
  total = refl;
  is_ready = refl;
}

-- The counter is not part of the view.
pub Marks-count :
    (i c : ℕ) (b : Bool) (p q : Pmm) → Marks i b p q → Marks i b p (record q { free_pages_cnt = c })
unfolding bit_test
Marks-count i c b p q m = record {
  at = λ j. m.at j;
  bytes = m.bytes;
  total = m.total;
  is_ready = m.is_ready;
}

-- A page that is so already.
pub Marks-refl : (i : ℕ) (b : Bool) (p : Pmm) → IsBytes p → bit_test i p ≡ b → Marks i b p p
Marks-refl i b p v e = record {
  at = λ j. ground (arith, e, eq_at i j p);
  bytes = v;
  total = refl;
  is_ready = refl;
}
  where
    eq_at : (i j : ℕ) (p : Pmm) → (j == i) ≡ true → bit_test j p ≡ bit_test i p
    eq_at i j p h = let e : j ≡ i = ground arith in ap (λ k. bit_test k p) e

pub Marks-IsValid_set :
    (i : ℕ) (p q : Pmm)
    → IsValid p
    → Marks i true p q
    → bit_test i p ≡ false
    → i < p.total_pages_cnt
    → q.free_pages_cnt ≡ p.free_pages_cnt - 1
    → IsValid q
Marks-IsValid_set i p q v m f h e = record {
  bytes = m.bytes;
  counted = simp m.total (omega (arith, count-set p.total_pages_cnt i p q m f h, v.counted));
  is_ready = m.is_ready ∙ v.is_ready;
}

pub Marks-IsValid_clear :
    (i : ℕ) (p q : Pmm)
    → IsValid p
    → Marks i false p q
    → bit_test i p ≡ true
    → i < p.total_pages_cnt
    → q.free_pages_cnt ≡ p.free_pages_cnt + 1
    → IsValid q
Marks-IsValid_clear i p q v m f h e = record {
  bytes = m.bytes;
  counted = simp m.total (omega (arith, count-clear p.total_pages_cnt i p q m f h, v.counted));
  is_ready = m.is_ready ∙ v.is_ready;
}

-- What one round of a loop over pages does: the page gets the value b, and the counter follows.
pub record Round (b : Bool) (body : ℕ → Pmm → Pmm) : Type 0 where
  pub marks : (i : ℕ) (p : Pmm) → IsBytes p → Marks i b p (body i p)
  pub keeps : (i : ℕ) (p : Pmm) → IsValid p → i < p.total_pages_cnt → IsValid (body i p)

free_page-Marks : (i : ℕ) (p : Pmm) → IsBytes p → Marks i false p (free_page i p)
unfolding free_page
free_page-Marks i p v = elim (Bool-cases (bit_test i p)) [
  | inl e ↦ rw (e, free_page) (Marks-count i _ false p (bit_clear i p) (bit_clear-Marks i p v))
  | inr e ↦ rw (e, free_page) (Marks-refl i false p v e)
]

free_page-IsValid : (i : ℕ) (p : Pmm) → IsValid p → i < p.total_pages_cnt → IsValid (free_page i p)
unfolding free_page
free_page-IsValid i p v h = elim (Bool-cases (bit_test i p)) [
  | inl e ↦
      rw (e, free_page)
        (Marks-IsValid_clear i p _ v
          (Marks-count i _ false p (bit_clear i p) (bit_clear-Marks i p v.bytes)) e h
          (ground (arith, v.is_ready)))
  | inr e ↦ rw (e, free_page) v
]

pub free_page-Round : Round false free_page
free_page-Round = record { marks = free_page-Marks; keeps = free_page-IsValid }

free_one-Marks : (i : ℕ) (p : Pmm) → IsBytes p → Marks i false p (free_one i p)
unfolding free_one
free_one-Marks i p v = elim (Bool-cases (bit_test i p)) [
  | inl e ↦ rw (e, free_one) (Marks-count i _ false p (bit_clear i p) (bit_clear-Marks i p v))
  | inr e ↦ rw (e, free_one) (Marks-refl i false p v e)
]

free_one-IsValid : (i : ℕ) (p : Pmm) → IsValid p → i < p.total_pages_cnt → IsValid (free_one i p)
unfolding free_one
free_one-IsValid i p v h = elim (Bool-cases (bit_test i p)) [
  | inl e ↦
      rw (e, free_one)
        (Marks-IsValid_clear i p _ v
          (Marks-count i _ false p (bit_clear i p) (bit_clear-Marks i p v.bytes)) e h refl)
  | inr e ↦ rw (e, free_one) v
]

pub free_one-Round : Round false free_one
free_one-Round = record { marks = free_one-Marks; keeps = free_one-IsValid }

reserve_page-Marks : (i : ℕ) (p : Pmm) → IsBytes p → Marks i true p (reserve_page i p)
unfolding reserve_page
reserve_page-Marks i p v = elim (Bool-cases (bit_test i p)) [
  | inl e ↦ rw (e, reserve_page) (Marks-refl i true p v e)
  | inr e ↦ rw (e, reserve_page) (Marks-count i _ true p (bit_set i p) (bit_set-Marks i p v))
]

reserve_page-IsValid :
    (i : ℕ) (p : Pmm) → IsValid p → i < p.total_pages_cnt → IsValid (reserve_page i p)
unfolding reserve_page
reserve_page-IsValid i p v h = elim (Bool-cases (bit_test i p)) [
  | inl e ↦ rw (e, reserve_page) v
  | inr e ↦
      rw (e, reserve_page)
        (Marks-IsValid_set i p _ v
          (Marks-count i _ true p (bit_set i p) (bit_set-Marks i p v.bytes)) e h
          (ground (arith, v.is_ready)))
]

pub reserve_page-Round : Round true reserve_page
reserve_page-Round = record { marks = reserve_page-Marks; keeps = reserve_page-IsValid }

recount_from_lem :
    (n i acc : ℕ) (p : Pmm) → acc ≡ count_free i p → recount_from n i acc p ≡ count_free (n + i) p
unfolding recount_from count_free
recount_from_lem zero i acc p e = e ∙ ap (λ k. count_free k p) (omega arith)
recount_from_lem (suc n) i acc p e =
    recount_from_lem n (i + 1) (if bit_test i p then acc else acc + 1) p (step i acc p e)
    ∙ ap (λ k. count_free k p) (omega arith)
  where
    step :
        (i acc : ℕ) (p : Pmm)
        → acc ≡ count_free i p
        → (if bit_test i p then acc else acc + 1) ≡ count_free (i + 1) p
    step i acc p e = let s : i + 1 ≡ suc i = omega arith in rw s (ground (arith, e))

-- `pmm_recount_free` counts the clear bits.
pub recount_free-counts :
    (p : Pmm) → (recount_free p).free_pages_cnt ≡ count_free p.total_pages_cnt p
unfolding recount_free
recount_free-counts p =
    recount_from_lem p.total_pages_cnt 0 0 p (unfold count_free in refl)
    ∙ ap (λ k. count_free k p) (omega arith)
