-- ===== src/Kmalloc/Tests.antt =====
-- Runs of the heap, and the theorems at concrete states.
use myos.Base.{◌≡◌, refl, true, false, [], ◌∷◌, ◌==◌, if◌then◌else◌, arith, inl, inr}
use myos.Base.Align.{align_up_u64}
use myos.Pmm.{bit_test, alloc_pages}
use myos.Pmm.Count.{IsValid, count_free}
use myos.Kmalloc.{Heap, take_block, request_space, kmalloc, merge_from, set_free, kfree}
use myos.Kmalloc.Find.{Given, kmalloc_lem}
use myos.Kmalloc.Live.{AreHeld, IsHeap}
use myos.Kmalloc.Fresh.{GivesFresh, kmalloc-GivesFresh}
use myos.Kmalloc.Release.{Releases, kfree-Releases}

-- Eight pages, with page 0 in use; three blocks, of which the second is free.
abbrev small : Heap
small = record {
  pmm = record {
    bitmap = λ i. if i == 0 then 1 else 255;
    free_pages_cnt = 7;
    total_pages_cnt = 8;
    ready = true;
  };
  blocks =
      record { addr = 0x10_0000; size = 4072; free = false }
      ∷ record { addr = 0x10_2000; size = 4072; free = true }
      ∷ record { addr = 0x20_0000; size = 8168; free = false }
      ∷ [];
}

small-IsValid : IsValid small.pmm
unfolding count_free bit_test
small-IsValid = record { bytes = λ i. ground arith; counted = refl; is_ready = refl }

page_0 : bit_test 0 small.pmm ≡ true
unfolding bit_test
page_0 = refl

reused : (kmalloc 100 small).0 ≡ 0x10_2018
unfolding kmalloc take_block align_up_u64
reused = refl

grown : (kmalloc 5000 small).0 ≡ 0x1018
unfolding kmalloc take_block request_space align_up_u64 alloc_pages bit_test
grown = refl

-- Two free neighbours become one block, though their pages are far apart.
merged :
    (kfree 0x20_0018 small).blocks
    ≡ record { addr = 0x10_0000; size = 4072; free = false }
      ∷ record { addr = 0x10_2000; size = 12264; free = true }
      ∷ []
unfolding kfree set_free merge_from
merged = refl

kmalloc_lem_example : Given 100 112 small (kmalloc 100 small)
unfolding align_up_u64
kmalloc_lem_example = kmalloc_lem 100 small (omega arith) (omega arith) small-IsValid page_0

used_pages : AreHeld small.pmm small.blocks
unfolding bit_test
used_pages = (refl, (refl, (refl, refl)))

small-IsHeap : IsHeap small
small-IsHeap = record {
  apart = (
    λ h. elim h [
      | inl e ↦ omega (arith, e)
      | inr (inl e) ↦ omega (arith, e)
      | inr (inr x) ↦ elim x [ ]
    ],
    (λ h. elim h [ inl e ↦ omega (arith, e) | inr x ↦ elim x [ ] ], (λ h. h, refl)),
  );
  held = used_pages;
  pages = small-IsValid;
  page_zero = page_0;
}

kmalloc-GivesFresh_example : IsHeap (kmalloc 100 small).1 × GivesFresh small (kmalloc 100 small)
kmalloc-GivesFresh_example = kmalloc-GivesFresh 100 small (omega arith) (omega arith) small-IsHeap

kfree-Releases_example :
    IsHeap (kfree 0x20_0018 small) × Releases 0x20_0018 small (kfree 0x20_0018 small)
kfree-Releases_example = kfree-Releases 0x20_0018 small small-IsHeap (inr (inr (inl (refl, refl))))
