-- ===== src/Kmalloc/Merge.antt =====
-- What merging does to the list of blocks.
use myos.Base.{
  ℕ, ◌+◌, ◌-◌, ◌<◌, ◌≡◌, refl, sym, ap, ◌∙◌, subst, Bool, true, false, ◌&&◌, List, [], ◌∷◌, ◌==◌,
  if◌then◌else◌, arith, inl, inr, Bool-cases, ◌⊎◌,
}
use mathlib.Core.Bool.{true≢false}
use myos.Kmalloc.{Block, Heap, header, merge_from, merge_free_blocks, set_free, kfree}

-- The bytes of the blocks, their headers included.
unfoldable pub total : List Block → ℕ
total [] = 0
total (b ∷ bs) = header + b.size + total bs

-- The blocks in use.
unfoldable pub in_use : List Block → List Block
in_use [] = []
in_use (b ∷ bs) = if b.free then in_use bs else b ∷ in_use bs

-- Two neighbours are never both free.
abbrev pub Merged : List Block → Type 0
Merged [] = Path Bool true true
Merged (b ∷ []) = Path Bool true true
Merged (b ∷ c ∷ bs) = ((b.free && c.free) ≡ false) × Merged (c ∷ bs)

-- The first of the blocks is as free as b.
abbrev Starts : Block → List Block → Type 0
Starts b [] = Path Bool true false
Starts b (c ∷ bs) = c.free ≡ b.free

Starts-Merged :
    (b c : Block) (bs : List Block)
    → Starts c bs
    → (b.free && c.free) ≡ false
    → Merged bs
    → Merged (b ∷ bs)
Starts-Merged b c [] s e m = refl
Starts-Merged b c (d ∷ bs) s e m = (ap (λ z. b.free && z) s ∙ e, m)

both_free : (x y : Bool) → (x && y) ≡ true → (x ≡ true) × (y ≡ true)
both_free true y e = (refl, e)
both_free false y e = (e, absurd (true≢false (sym e)))

abbrev pub joined : Block → Block → Block
joined b c = record b { size = b.size + (header + c.size) }

-- A step of the loop.
pub merge_step :
    (b c : Block) (bs : List Block)
    → ((merge_from b (c ∷ bs) ≡ merge_from (joined b c) bs) × (b.free ≡ true) × (c.free ≡ true))
      ⊎ ((merge_from b (c ∷ bs) ≡ b ∷ merge_from c bs) × ((b.free && c.free) ≡ false))
unfolding merge_from
merge_step b c bs = pick (b.free && c.free) refl
  where
    step : Bool → List Block
    step z = elim z [ true ↦ merge_from (joined b c) bs | false ↦ b ∷ merge_from c bs ]

    pick :
        (z : Bool)
        → (b.free && c.free) ≡ z
        → ((merge_from b (c ∷ bs) ≡ merge_from (joined b c) bs) × (b.free ≡ true) × (c.free ≡ true))
          ⊎ ((merge_from b (c ∷ bs) ≡ b ∷ merge_from c bs) × ((b.free && c.free) ≡ false))
    pick true e = let (x, y) = both_free b.free c.free e in inl (ap step e, x, y)
    pick false e = inr (ap step e, e)

total-merge_from :
    (b : Block) (bs : List Block) → total (merge_from b bs) ≡ header + b.size + total bs
unfolding merge_from total
total-merge_from b [] = refl
total-merge_from b (c ∷ bs) = elim (merge_step b c bs) [
  | inl (e, _, _) ↦ ap total e ∙ omega (arith, total-merge_from (joined b c) bs)
  | inr (e, _) ↦ ap total e ∙ omega (arith, total-merge_from c bs)
]

in_use-free : (b : Block) (bs : List Block) → b.free ≡ true → in_use (b ∷ bs) ≡ in_use bs
unfolding in_use
in_use-free b bs e = ap (λ z. if z then in_use bs else b ∷ in_use bs) e

in_use_cong :
    (b : Block) (bs cs : List Block) → in_use bs ≡ in_use cs → in_use (b ∷ bs) ≡ in_use (b ∷ cs)
unfolding in_use
in_use_cong b bs cs e = ap (λ z. if b.free then z else b ∷ z) e

in_use-merge_from : (b : Block) (bs : List Block) → in_use (merge_from b bs) ≡ in_use (b ∷ bs)
unfolding merge_from
in_use-merge_from b [] = refl
in_use-merge_from b (c ∷ bs) = elim (merge_step b c bs) [
  | inl (e, fb, fc) ↦
      ap in_use e
      ∙ (in_use-merge_from (joined b c) bs
          ∙ (in_use-free (joined b c) bs fb
              ∙ (sym (in_use-free c bs fc) ∙ sym (in_use-free b (c ∷ bs) fb))))
  | inr (e, _) ↦ ap in_use e ∙ in_use_cong b (merge_from c bs) (c ∷ bs) (in_use-merge_from c bs)
]

Starts-as : (j b : Block) (bs : List Block) → j.free ≡ b.free → Starts j bs → Starts b bs
Starts-as j b [] e s = s
Starts-as j b (c ∷ bs) e s = s ∙ e

merge_from-Merged :
    (b : Block) (bs : List Block) → Starts b (merge_from b bs) × Merged (merge_from b bs)
unfolding merge_from
merge_from-Merged b [] = (refl, refl)
merge_from-Merged b (c ∷ bs) = elim (merge_step b c bs) [
  | inl (e, _, _) ↦
      let (s, m) = merge_from-Merged (joined b c) bs in
      subst (λ z. Starts b z × Merged z) (sym e)
        (Starts-as (joined b c) b (merge_from (joined b c) bs) refl s, m)
  | inr (e, apart) ↦
      let (s, m) = merge_from-Merged c bs in
      subst (λ z. Starts b z × Merged z) (sym e)
        (refl, Starts-Merged b c (merge_from c bs) s apart m)
]

-- The blocks without the one at an address.
unfoldable pub without : ℕ → List Block → List Block
without addr [] = []
without addr (b ∷ bs) = if b.addr == addr then bs else b ∷ without addr bs

in_use-set_free :
    (addr : ℕ) (bs : List Block) → in_use (set_free addr bs) ≡ in_use (without addr bs)
unfolding set_free without
in_use-set_free addr [] = refl
in_use-set_free addr (b ∷ bs) = elim (Bool-cases (b.addr == addr)) [
  | inl e ↦ at e (in_use-free (record b { free = true }) bs refl)
  | inr e ↦ at e (in_use_cong b (set_free addr bs) (without addr bs) (in_use-set_free addr bs))
]
  where
    freed : Bool → List Block
    freed z = if z then record b { free = true } ∷ bs else b ∷ set_free addr bs

    gone : Bool → List Block
    gone z = if z then bs else b ∷ without addr bs

    at :
        {z : Bool}
        → (b.addr == addr) ≡ z
        → in_use (freed z) ≡ in_use (gone z)
        → in_use (freed (b.addr == addr)) ≡ in_use (gone (b.addr == addr))
    at e p = subst (λ z. in_use (freed z) ≡ in_use (gone z)) (sym e) p

total-set_free : (addr : ℕ) (bs : List Block) → total (set_free addr bs) ≡ total bs
unfolding set_free total
total-set_free addr [] = refl
total-set_free addr (b ∷ bs) = elim (Bool-cases (b.addr == addr)) [
  | inl e ↦ ap (λ z. total (if z then record b { free = true } ∷ bs else b ∷ set_free addr bs)) e
  | inr e ↦
      ap (λ z. total (if z then record b { free = true } ∷ bs else b ∷ set_free addr bs)) e
      ∙ ap (λ n. header + b.size + n) (total-set_free addr bs)
]

-- The list after a block is freed.
abbrev pub Freed : ℕ → List Block → List Block → Type 0
Freed addr bs bs' = (in_use bs' ≡ in_use (without addr bs)) × (total bs' ≡ total bs) × Merged bs'

merge-Freed :
    (addr : ℕ) (bs cs : List Block) → set_free addr bs ≡ cs → Freed addr bs (merge_free_blocks cs)
unfolding total
merge-Freed addr bs [] e =
    (ap in_use (sym e) ∙ in_use-set_free addr bs, ap total (sym e) ∙ total-set_free addr bs, refl)
merge-Freed addr bs (c ∷ cs) e = (
  in_use-merge_from c cs ∙ (ap in_use (sym e) ∙ in_use-set_free addr bs),
  total-merge_from c cs ∙ (ap total (sym e) ∙ total-set_free addr bs),
  (merge_from-Merged c cs).1,
)

-- `kfree` of a pointer other than null: the blocks in use are those from before, in their order and
-- with their sizes, without the one behind the pointer; the bytes of all blocks together, with their
-- headers, stay the same; and no two neighbours in the list are both free. The pages stay where
-- they are.
pub kfree_lem :
    (ptr : ℕ) (h : Heap)
    → 0 < ptr
    → Freed (ptr - header) h.blocks (kfree ptr h).blocks × ((kfree ptr h).pmm ≡ h.pmm)
unfolding kfree
kfree_lem ptr h pos =
    let e : (ptr == 0) ≡ false = ground (arith, pos) in
    rw e (merge-Freed (ptr - header) h.blocks (set_free (ptr - header) h.blocks) refl, refl)
