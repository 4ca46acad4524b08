-- ===== src/Kmalloc/Fresh.antt =====
-- What kmalloc does to the live pointers.
use mathlib.Core.Bool.{true≢false}
use myos.Base.{
  ℕ, ◌+◌, ◌*◌, ◌/◌, ◌^◌, ◌≤◌, ◌<◌, ◌≡◌, refl, sym, ap, ◌∙◌, subst, true, false, List, [], ◌∷◌, ◌++◌,
  arith, inl, inr, ◌⊎◌,
}
use myos.Base.Align.{align_up_u64, align_up_para}
use myos.Pmm.{page_size, bit_test}
use myos.Pmm.Count.{IsValid}
use myos.Pmm.Alloc.{Allocated}
use myos.Kmalloc.{Block, Heap, header, pages_for, kmalloc}
use myos.Kmalloc.Find.{Given, kmalloc_lem}
use myos.Kmalloc.Live.{
  HasAddr, HasLive, IsLive, AreApart, AreHeld, AreApart-replace, AreHeld-replace, HasLive-HasAddr,
  HasAddr-AreHeld, HasLive-replace, HasLive-replaced, HasLive-there, free-HasLive, HasLive-append,
  HasLive-appended, AreApart-append, AreHeld-append, IsHeap,
}

-- The pointer is new, or there is none.
abbrev pub GivesFresh : Heap → ℕ × Heap → Type 0
GivesFresh h (ptr, h') =
    ((ptr ≡ 0) × ((q : ℕ) → (IsLive q h → IsLive q h') × (IsLive q h' → IsLive q h)))
    ⊎ ((0 < ptr)
        × (¬ IsLive ptr h)
        × IsLive ptr h'
        × ((q : ℕ) → (IsLive q h → IsLive q h') × (IsLive q h' → (q ≡ ptr) ⊎ IsLive q h)))

taken-GivesFresh :
    (h h' : Heap) (before : List Block) (b : Block) (behind : List Block)
    → IsHeap h
    → h.blocks ≡ before ++ (b ∷ behind)
    → h'.blocks ≡ before ++ (record b { free = false } ∷ behind)
    → h'.pmm ≡ h.pmm
    → b.free ≡ true
    → IsHeap h' × GivesFresh h (b.addr + header, h')
taken-GivesFresh h h' before b behind i e e' same f =
    let c = record b { free = false } in
    let to = λ (q : ℕ) (bs : List Block) (z : h.blocks ≡ bs) (x : HasLive q h.blocks).
      subst (HasLive q) z x in
    let apart = subst AreApart e i.apart in
    (
      record {
        apart = subst AreApart (sym e') (AreApart-replace before b c behind refl apart);
        held =
            subst (λ z. AreHeld z h'.blocks) (sym same)
              (subst (AreHeld h.pmm) (sym e')
                (AreHeld-replace h.pmm before b c behind refl (subst (AreHeld h.pmm) e i.held)));
        pages = subst IsValid (sym same) i.pages;
        page_zero = ap (bit_test 0) same ∙ i.page_zero;
      },
      inr (
        omega arith,
        (λ x. free-HasLive before b behind apart f (subst (HasLive (b.addr + header)) e x)),
        subst (HasLive (b.addr + header)) (sym e') (HasLive-there before c behind refl),
        λ q. (
          (λ x.
              subst (HasLive q) (sym e')
                (HasLive-replace q before b c behind f (subst (HasLive q) e x))),
          λ x. elim (HasLive-replaced q before b c behind (subst (HasLive q) e' x)) [
            | inl z ↦ inl z
            | inr z ↦ inr (subst (HasLive q) (sym e) z)
          ],
        ),
      ),
    )

grown-GivesFresh :
    (h h' : Heap) (c : Block) (s pages : ℕ)
    → IsHeap h
    → h'.blocks ≡ h.blocks ++ (c ∷ [])
    → c.free ≡ false
    → c.addr ≡ s * page_size
    → 0 < pages
    → Allocated pages s h.pmm h'.pmm
    → IsHeap h' × GivesFresh h (c.addr + header, h')
grown-GivesFresh h h' c s pages i e f at pos a =
    let page : c.addr / 4096 ≡ s = omega (arith, at) in
    let was : bit_test (c.addr / 4096) h.pmm ≡ false =
      ap (λ k. bit_test k h.pmm) page ∙ a.found.free s (omega arith) (omega (arith, pos)) in
    let is : bit_test (c.addr / 4096) h'.pmm ≡ true =
      ap (λ k. bit_test k h'.pmm) page ∙ ground (arith, a.filled.at s, pos) in
    let grow : (k : ℕ) → bit_test k h.pmm ≡ true → bit_test k h'.pmm ≡ true =
      λ k u. ground (arith, a.filled.at k, u) in
    let away : ¬ HasAddr c.addr h.blocks =
      λ x. true≢false (sym (HasAddr-AreHeld c.addr h.pmm h.blocks i.held x) ∙ was) in
    (
      record {
        apart = subst AreApart (sym e) (AreApart-append h.blocks c i.apart away);
        held =
            subst (AreHeld h'.pmm) (sym e) (AreHeld-append h.pmm h'.pmm h.blocks c grow i.held is);
        pages = a.valid;
        page_zero = grow 0 i.page_zero;
      },
      inr (
        omega arith,
        (λ x. away (
            subst (λ z. HasAddr z h.blocks) (omega arith)
              (HasLive-HasAddr (c.addr + header) h.blocks x))),
        subst (HasLive (c.addr + header)) (sym e) (HasLive-there h.blocks c [] f),
        λ q. (
          (λ x. subst (HasLive q) (sym e) (HasLive-append q h.blocks (c ∷ []) x)),
          λ x. HasLive-appended q h.blocks c (subst (HasLive q) e x),
        ),
      ),
    )

same-GivesFresh :
    (h h' : Heap)
    → IsHeap h
    → h'.blocks ≡ h.blocks
    → h'.pmm ≡ h.pmm
    → IsHeap h' × GivesFresh h (0, h')
same-GivesFresh h h' i e same = (
  record {
    apart = subst AreApart (sym e) i.apart;
    held = subst (λ z. AreHeld z h'.blocks) (sym same) (subst (AreHeld h.pmm) (sym e) i.held);
    pages = subst IsValid (sym same) i.pages;
    page_zero = ap (bit_test 0) same ∙ i.page_zero;
  },
  inl (refl, λ q. (subst (HasLive q) (sym e), subst (HasLive q) e)),
)

at_pointer :
    (h h' : Heap) (p q : ℕ)
    → p ≡ q
    → IsHeap h' × GivesFresh h (q, h')
    → IsHeap h' × GivesFresh h (p, h')
at_pointer h h' p q e x = subst (λ z. IsHeap h' × GivesFresh h (z, h')) (sym e) x

Given-GivesFresh :
    (size r : ℕ) (h : Heap) (x : ℕ × Heap)
    → size ≤ r
    → r ≤ 2 ^ 48
    → IsHeap h
    → Given size r h x
    → IsHeap x.1 × GivesFresh h x
Given-GivesFresh size r h (p, h') up bound i (inl (inl (e, same, _, refused))) =
    at_pointer h h' p 0 e (same-GivesFresh h h' i same refused.same)
Given-GivesFresh size r h (p, h') up bound i
      (inl (inr (addr, e, (before, b, behind, at, at', _, f, _, ad), same))) =
    at_pointer h h' p (b.addr + header) (omega (arith, e, ad))
      (taken-GivesFresh h h' before b behind i at at' same f)
Given-GivesFresh size r h (p, h') up bound i (inr (b, e, at, _, f, _, s, pos, ad, a, _)) =
    at_pointer h h' p (b.addr + header) e
      (grown-GivesFresh h h' b s (pages_for r) i at f ad (omega (arith, bound)) a)

-- kmalloc of 1 to 2^47 bytes keeps the heap's invariant: no two blocks begin at one address, and the
-- pages where they begin are in use. It fails and leaves the same pointers live, or gives a pointer,
-- not null, that was not live and is live then, while exactly the others are live that were before.
pub kmalloc-GivesFresh :
    (size : ℕ) (h : Heap)
    → 0 < size
    → size ≤ 2 ^ 47
    → IsHeap h
    → IsHeap (kmalloc size h).1 × GivesFresh h (kmalloc size h)
kmalloc-GivesFresh size h pos bound i =
    let up = align_up_para size (omega (arith, bound)) in
    Given-GivesFresh size (align_up_u64 size 16) h (kmalloc size h) (omega (arith, up))
      (omega (arith, up, bound)) i (kmalloc_lem size h pos bound i.pages i.page_zero)
