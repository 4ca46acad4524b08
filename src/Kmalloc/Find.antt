-- ===== src/Kmalloc/Find.antt =====
-- What kmalloc gives.
use myos.Base.{
  ℕ, ◌+◌, ◌*◌, ◌^◌, ◌≤◌, ◌<◌, ◌≡◌, refl, sym, ap, ◌∙◌, Bool, true, false, ◌&&◌, Option, none, some,
  List, [], ◌∷◌, ◌++◌, leb, ◌==◌, arith, inl, inr, Bool-cases, ◌⊎◌,
}
use myos.Base.Align.{align_up_u64, align_up_para}
use mathlib.Core.Bool.{true≢false}
use myos.Pmm.{Pmm, page_size, bit_test, alloc_pages}
use myos.Pmm.Count.{IsValid}
use myos.Pmm.Alloc.{alloc_pages_lem, Allocated, Refused, Outcome}
use myos.Kmalloc.{
  Block, Heap, header, fits, take_block, pages_for, new_block, request_space, give, kmalloc,
}

-- Every block is in use or too small for a size.
abbrev pub NoneFits : ℕ → List Block → Type 0
NoneFits size [] = Path Bool true true
NoneFits size (b ∷ bs) = ((b.free ≡ false) ⊎ (b.size < size)) × NoneFits size bs

-- The first block that fits is in use then, and no other changes.
abbrev pub Taken : ℕ → List Block → ℕ → List Block → Type 0
Taken size bs addr bs' =
    (before : List Block) × (b : Block) × (behind : List Block) × (bs ≡ before ++ (b ∷ behind))
    × (bs' ≡ before ++ (record b { free = false } ∷ behind))
    × NoneFits size before
    × (b.free ≡ true)
    × (size ≤ b.size)
    × (b.addr ≡ addr)

abbrev pub TakenOr : ℕ → List Block → Option (ℕ × List Block) → Type 0
TakenOr size bs none = NoneFits size bs
TakenOr size bs (some (addr, bs')) = Taken size bs addr bs'

fits_lem : (size : ℕ) (b : Block) → fits size b ≡ true → (b.free ≡ true) × (size ≤ b.size)
fits_lem size b e = pick b.free e
  where
    pick : (f : Bool) → (f && leb size b.size) ≡ true → (f ≡ true) × (size ≤ b.size)
    pick true e = (refl, ground (arith, e))
    pick false e = (e, absurd (true≢false (sym e)))

misses : (size : ℕ) (b : Block) → fits size b ≡ false → (b.free ≡ false) ⊎ (b.size < size)
misses size b e = elim (Bool-cases b.free) [ inr f ↦ inl f | inl f ↦ inr (ground (arith, e, f)) ]

TakenOr-cons :
    (size : ℕ) (b : Block) (bs : List Block) (o : Option (ℕ × List Block))
    → fits size b ≡ false
    → TakenOr size bs o
    → TakenOr size (b ∷ bs) (elim o [ none ↦ none | some (addr, bs') ↦ some (addr, b ∷ bs') ])
TakenOr-cons size b bs none miss t = (misses size b miss, t)
TakenOr-cons size b bs (some (addr, bs')) miss (before, c, behind, e, e', n, f, l, a) =
    (b ∷ before, c, behind, ap (λ z. b ∷ z) e, ap (λ z. b ∷ z) e', (misses size b miss, n), f, l, a)

pub take_block-TakenOr : (size : ℕ) (bs : List Block) → TakenOr size bs (take_block size bs)
unfolding take_block
take_block-TakenOr size [] = refl
take_block-TakenOr size (b ∷ bs) = elim (Bool-cases (fits size b)) [
  | inl e ↦
      let (f, l) = fits_lem size b e in rw (take_block, e) ([], b, bs, refl, refl, refl, f, l, refl)
  | inr e ↦
      rw (take_block, e)
        (TakenOr-cons size b bs (take_block size bs) e (take_block-TakenOr size bs))
]

-- What kmalloc may do for a size, rounded up to r.
abbrev pub Given : ℕ → ℕ → Heap → ℕ × Heap → Type 0
Given size r h (ptr, h') =
    (((ptr ≡ 0) × (h'.blocks ≡ h.blocks) × NoneFits r h.blocks × Refused (pages_for r) h.pmm h'.pmm)
      ⊎ ((addr : ℕ) × (ptr ≡ addr + header) × Taken r h.blocks addr h'.blocks × (h'.pmm ≡ h.pmm)))
    ⊎ ((b : Block) × (ptr ≡ b.addr + header)
        × (h'.blocks ≡ h.blocks ++ (b ∷ []))
        × NoneFits r h.blocks
        × (b.free ≡ false)
        × (size ≤ b.size)
        × (s : ℕ) × (0 < s)
        × (b.addr ≡ s * page_size)
        × Allocated (pages_for r) s h.pmm h'.pmm
        × (b.size + header ≡ pages_for r * page_size))

module _ (size r : ℕ) (h : Heap) (up : size ≤ r) (bound : r ≤ 2 ^ 48) (pages : IsValid h.pmm)
    (used : bit_test 0 h.pmm ≡ true) where
  requested :
      (pa : ℕ) (q : Pmm)
      → alloc_pages (pages_for r) h.pmm ≡ (pa, q)
      → Outcome (pages_for r) h.pmm (pa, q)
      → NoneFits r h.blocks
      → Given size r h (give r none h)
  unfolding request_space
  requested pa q e (inl (z, x)) n =
      let e' : alloc_pages (pages_for r) h.pmm ≡ (0, q) = e ∙ ap (λ (a : ℕ). (a, q)) z in
      rw e' (inl (inl (refl, refl, n, x)))
  requested pa q e (inr (s, at, pos, a)) n =
      let e' : alloc_pages (pages_for r) h.pmm ≡ (s * 4096, q) = e ∙ ap (λ (x : ℕ). (x, q)) at in
      let nonzero : (s * 4096 == 0) ≡ false = ground (arith, pos) in
      rw e' (
        rw nonzero (
          rw nonzero (
            inr (
              new_block (s * 4096) (pages_for r),
              refl,
              refl,
              n,
              refl,
              omega (arith, up, bound),
              s,
              pos,
              refl,
              a,
              omega (arith, bound),
            ))))

  give-Given : (o : Option (ℕ × List Block)) → TakenOr r h.blocks o → Given size r h (give r o h)
  give-Given (some (addr, bs)) t = inl (inr (addr, refl, t, refl))
  give-Given none n =
      requested (alloc_pages (pages_for r) h.pmm).0 (alloc_pages (pages_for r) h.pmm).1 refl
        (alloc_pages_lem (pages_for r) h.pmm (omega (arith, bound)) pages used) n

-- For a size of 1 up to 2^47, while the page allocator is valid and page 0 in use: kmalloc gives the first
-- free block that is large enough, if there is one, sets it in use and changes nothing else; otherwise
-- it takes a free run of pages and puts them, as one block in use of at least the size, behind the
-- others; and it fails only where no block is large enough and there is no such run, and then
-- changes nothing. The pointer is 24 bytes behind the block's start.
pub kmalloc_lem :
    (size : ℕ) (h : Heap)
    → 0 < size
    → size ≤ 2 ^ 47
    → IsValid h.pmm
    → bit_test 0 h.pmm ≡ true
    → Given size (align_up_u64 size 16) h (kmalloc size h)
unfolding kmalloc
kmalloc_lem size h pos bound pages used =
    let e : (size == 0) ≡ false = ground (arith, pos) in
    let up = align_up_para size (omega (arith, bound)) in
    rw e (
      give-Given size (align_up_u64 size 16) h (omega (arith, up)) (omega (arith, up, bound)) pages
        used (take_block (align_up_u64 size 16) h.blocks)
        (take_block-TakenOr (align_up_u64 size 16) h.blocks))
