-- ===== src/Pmm/Tests.antt =====
-- Runs of the page allocator, and the theorems at concrete states.
use myos.Base.{ℕ, ◌*◌, ◌≡◌, refl, true, false, ◌&&◌, [], ◌∷◌, ltb, leb, ◌==◌, if◌then◌else◌, arith}
use myos.Pmm.{Pmm, mmap, other, BootInfo, bit_test, alloc_pages, free_pages, free_range, init}
use myos.Pmm.Count.{IsValid, count_free}
use myos.Pmm.Alloc.{Outcome, alloc_pages_lem, free_pages_lem, free_pages-alloc_pages}
use myos.Pmm.Range.{ranges_lem}
use myos.Pmm.Init.{Booted, init-Booted}

-- Eight pages; page 0 and page 3 are in use.
abbrev small : Pmm
small = record {
  bitmap = λ i. if i == 0 then 9 else 255;
  free_pages_cnt = 6;
  total_pages_cnt = 8;
  ready = true;
}

small-IsValid : IsValid small
unfolding count_free bit_test
small-IsValid = record { bytes = λ i. ground arith; counted = refl; is_ready = refl }

page_0 : bit_test 0 small ≡ true
unfolding bit_test
page_0 = refl

-- Three pages do not fit before page 3.
first_fit : (alloc_pages 3 small).0 ≡ 4 * 4096
unfolding alloc_pages bit_test
first_fit = refl

full : (alloc_pages 5 small).0 ≡ 0
unfolding alloc_pages bit_test
full = refl

alloc_pages_lem_example : Outcome 3 small (alloc_pages 3 small)
alloc_pages_lem_example = alloc_pages_lem 3 small (omega arith) small-IsValid page_0

free_pages-alloc_pages_example :
    ((k : ℕ) → bit_test k (free_pages (4 * 4096) 3 (alloc_pages 3 small).1) ≡ bit_test k small)
    × ((free_pages (4 * 4096) 3 (alloc_pages 3 small).1).free_pages_cnt ≡ 6)
unfolding alloc_pages bit_test
free_pages-alloc_pages_example =
    free_pages-alloc_pages 3 (4 * 4096) small (alloc_pages 3 small).1 (omega arith) small-IsValid
      page_0 refl (omega arith)

free_pages_lem_example :
    let q = free_pages 8192 2 small in
    ((k : ℕ) → bit_test k q ≡ (if leb 2 k && ltb k 4 then false else bit_test k small))
    × (q.total_pages_cnt ≡ 8)
    × IsValid q
free_pages_lem_example = free_pages_lem 8192 2 small (omega arith) small-IsValid

ranges_lem_example : bit_test 3 (free_range 10000 7000 small) ≡ false
ranges_lem_example =
    (ranges_lem 10000 7000 small (omega arith) (omega arith) small-IsValid.bytes 3 (omega arith)).0
      (omega arith)

abbrev boot : BootInfo
boot = record {
  tags = other ∷ mmap (record { addr = 0; len = 0x8000_0000; type = 1 } ∷ []) ∷ [];
  mb2 = 0x9000;
  total_size = 1000;
  kernel_start = 0x10_0000;
  kernel_end = 0x18_0000;
}

init-Booted_example : Booted boot (init boot small)
unfolding init
init-Booted_example =
    init-Booted boot small (record { addr = 0; len = 0x8000_0000; type = 1 } ∷ []) refl
      (omega arith) (omega arith) (omega arith)
