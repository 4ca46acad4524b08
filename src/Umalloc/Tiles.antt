-- ===== src/Umalloc/Tiles.antt =====
-- The blocks of a user program's heap tile the memory up to the program break.
use myos.Base.{
  ℕ, ◌+◌, ◌%◌, ◌^◌, ◌≤◌, ◌<◌, ◌≡◌, ◌≢◌, refl, sym, ap, ◌∙◌, subst, Bool, true, false, Option, none,
  some, List, [], ◌∷◌, ◌++◌, ◌==◌, arith, inl, inr, Bool-cases, ◌⊎◌, length, length-append,
}
use myos.Base.Align.{u64_mod, align_up_u64, align_up_para}
use myos.Kmalloc.{Block, header, take_block, set_free, merge_from}
use myos.Kmalloc.Find.{NoneFits, Taken, TakenOr, take_block-TakenOr}
use myos.Kmalloc.Live.{HasLive, HasLive-replace, HasLive-there, HasLive-append}
use myos.Kmalloc.Merge.{joined, merge_step}
use myos.Umalloc.{
  UserHeap, started, moved_break, sbrk, total_for, new_block, append_block, request_space,
  behind_header, give, malloc, merge,
}

-- The blocks stand one behind the other, from lo up to hi, without a gap.
abbrev pub AreTiles : ℕ → List Block → ℕ → Type 0
AreTiles lo [] hi = lo ≡ hi
AreTiles lo (b ∷ bs) hi = (b.addr ≡ lo) × AreTiles (lo + header + b.size) bs hi

AreTiles-le : (lo : ℕ) (bs : List Block) (hi : ℕ) → AreTiles lo bs hi → lo ≤ hi
AreTiles-le lo [] hi t = omega (arith, t)
AreTiles-le lo (b ∷ bs) hi (e, t) = omega (arith, AreTiles-le (lo + header + b.size) bs hi t)

AreTiles-from :
    (lo lo' : ℕ) (bs : List Block) (hi : ℕ) → lo ≡ lo' → AreTiles lo bs hi → AreTiles lo' bs hi
AreTiles-from lo lo' bs hi e t = subst (λ l. AreTiles l bs hi) e t

-- A new block at the end.
AreTiles-append :
    (lo : ℕ) (bs : List Block) (hi : ℕ) (b : Block) (hi' : ℕ)
    → AreTiles lo bs hi
    → b.addr ≡ hi
    → hi' ≡ hi + header + b.size
    → AreTiles lo (bs ++ (b ∷ [])) hi'
AreTiles-append lo [] hi b hi' t e e' = (e ∙ sym t, omega (arith, t, e'))
AreTiles-append lo (c ∷ bs) hi b hi' (a, t) e e' =
    (a, AreTiles-append (lo + header + c.size) bs hi b hi' t e e')

-- A block that only changes its state.
AreTiles-replace :
    (lo : ℕ) (before : List Block) (b c : Block) (behind : List Block) (hi : ℕ)
    → c.addr ≡ b.addr
    → c.size ≡ b.size
    → AreTiles lo (before ++ (b ∷ behind)) hi
    → AreTiles lo (before ++ (c ∷ behind)) hi
AreTiles-replace lo [] b c behind hi e s (a, t) = (
  e ∙ a,
  AreTiles-from (lo + header + b.size) (lo + header + c.size) behind hi (omega (arith, s)) t,
)
AreTiles-replace lo (d ∷ before) b c behind hi e s (a, t) =
    (a, AreTiles-replace (lo + header + d.size) before b c behind hi e s t)

pub AreTiles-set_free :
    (lo a : ℕ) (bs : List Block) (hi : ℕ) → AreTiles lo bs hi → AreTiles lo (set_free a bs) hi
unfolding set_free
AreTiles-set_free lo a [] hi t = t
AreTiles-set_free lo a (b ∷ bs) hi (e, t) = elim (Bool-cases (b.addr == a)) [
  | inl z ↦ rw z (e, t)
  | inr z ↦ rw z (e, AreTiles-set_free (lo + header + b.size) a bs hi t)
]

-- Merging keeps the tiling: two neighbours of the list are neighbours in memory.
AreTiles-merge_from :
    (lo : ℕ) (b : Block) (bs : List Block) (hi : ℕ)
    → AreTiles lo (b ∷ bs) hi
    → AreTiles lo (merge_from b bs) hi
unfolding merge_from
AreTiles-merge_from lo b [] hi t = t
AreTiles-merge_from lo b (c ∷ bs) hi (e, (e', t)) = elim (merge_step b c bs) [
  | inl (z, _, _) ↦
      subst (λ xs. AreTiles lo xs hi) (sym z)
        (AreTiles-merge_from lo (joined b c) bs hi (
          e,
          AreTiles-from (lo + header + b.size + header + c.size)
              (lo + header + (b.size + (header + c.size))) bs hi (omega arith) t,
        ))
  | inr (z, _) ↦
      subst (λ xs. AreTiles lo xs hi) (sym z)
        (e, AreTiles-merge_from (lo + header + b.size) c bs hi (e', t))
]

pub AreTiles-merge :
    (lo : ℕ) (bs : List Block) (hi : ℕ) → AreTiles lo bs hi → AreTiles lo (merge bs) hi
AreTiles-merge lo [] hi t = t
AreTiles-merge lo (b ∷ bs) hi t = AreTiles-merge_from lo b bs hi t

-- The heap before the first call, or one whose blocks tile the memory from the image's end to the break.
abbrev pub IsTiled : ℕ → UserHeap → Type 0
IsTiled end_ h =
    ((h.program_break ≡ 0) × (h.blocks ≡ []))
    ⊎ ((0 < h.program_break) × (h.program_break < 2 ^ 62) × AreTiles end_ h.blocks h.program_break)

-- The bytes from a up to b are in no block in use.
abbrev pub AreFree : ℕ → ℕ → List Block → Type 0
AreFree a b [] = Path Bool true true
AreFree a b (c ∷ bs) =
    ((c.free ≡ true) ⊎ (c.addr + header + c.size ≤ a) ⊎ (b ≤ c.addr)) × AreFree a b bs

AreFree-above :
    (a b lo : ℕ) (bs : List Block) (hi : ℕ) → AreTiles lo bs hi → b ≤ lo → AreFree a b bs
AreFree-above a b lo [] hi t h = refl
AreFree-above a b lo (c ∷ bs) hi (e, t) h = (
  inr (inr (omega (arith, e, h))),
  AreFree-above a b (lo + header + c.size) bs hi t (omega (arith, h)),
)

AreFree-below :
    (a b lo : ℕ) (bs : List Block) (hi : ℕ) → AreTiles lo bs hi → hi ≤ a → AreFree a b bs
AreFree-below a b lo [] hi t h = refl
AreFree-below a b lo (c ∷ bs) hi (e, t) h = (
  inr (inl (omega (arith, e, h, AreTiles-le (lo + header + c.size) bs hi t))),
  AreFree-below a b (lo + header + c.size) bs hi t h,
)

tile_start :
    (lo : ℕ) (before : List Block) (b : Block) (behind : List Block) (hi : ℕ)
    → AreTiles lo (before ++ (b ∷ behind)) hi
    → lo ≤ b.addr
tile_start lo [] b behind hi (e, t) = omega (arith, e)
tile_start lo (d ∷ before) b behind hi (e, t) =
    omega (arith, tile_start (lo + header + d.size) before b behind hi t)

-- The memory of a free block is in no block in use.
AreFree-free :
    (lo : ℕ) (before : List Block) (b : Block) (behind : List Block) (hi : ℕ)
    → AreTiles lo (before ++ (b ∷ behind)) hi
    → b.free ≡ true
    → AreFree b.addr (b.addr + header + b.size) (before ++ (b ∷ behind))
AreFree-free lo [] b behind hi (e, t) f = (
  inl f,
  AreFree-above b.addr (b.addr + header + b.size) (lo + header + b.size) behind hi t
      (omega (arith, e)),
)
AreFree-free lo (d ∷ before) b behind hi (e, t) f = (
  inr (inl (omega (arith, e, tile_start (lo + header + d.size) before b behind hi t))),
  AreFree-free (lo + header + d.size) before b behind hi t f,
)

-- The break that a call works with: the heap's own, or the image's end at the first call.
abbrev pub IsBreak : ℕ → UserHeap → ℕ → Type 0
IsBreak end_ h top =
    ((h.program_break ≡ 0) × (top ≡ end_)) ⊎ ((0 < h.program_break) × (top ≡ h.program_break))

-- Why malloc fails: no free block has the size, up to the alignment, and the kernel refuses the break
-- that has room for a new block.
abbrev pub IsRefused : (ℕ → Bool) → ℕ → ℕ → UserHeap → Type 0
IsRefused grants end_ size h =
    (r : ℕ) × (top : ℕ) × (total : ℕ) × (size ≤ r)
    × (r < size + 16)
    × NoneFits r h.blocks
    × IsBreak end_ h top
    × (header + r ≤ total)
    × (total < header + r + 16)
    × (grants (top + total) ≡ false)

-- What malloc gives: a block of at least the size, whose memory was in no block in use; all that was
-- live is live, with the new pointer.
abbrev pub Gets : (ℕ → Bool) → ℕ → ℕ → UserHeap → ℕ × UserHeap → Type 0
Gets grants end_ size h (ptr, h') =
    IsTiled end_ h'
    × (((ptr ≡ 0) × (h'.blocks ≡ h.blocks) × IsRefused grants end_ size h)
        ⊎ ((before : List Block) × (b : Block) × (behind : List Block) × (h'.blocks
              ≡ before ++ (b ∷ behind))
            × (b.free ≡ false)
            × (ptr ≡ b.addr + header)
            × (size ≤ b.size)
            × AreFree b.addr (b.addr + header + b.size) h.blocks
            × HasLive ptr h'.blocks
            × ((q : ℕ) → HasLive q h.blocks → HasLive q h'.blocks)))

module _ (grants : ℕ → Bool) (end_ size r : ℕ) (h : UserHeap) (image : 0 < end_)
    (low : end_ < 2 ^ 62) (below : (a : ℕ) → grants a ≡ true → a < 2 ^ 62) (up : size ≤ r)
    (tight : r < size + 16) (bound : r ≤ 2 ^ 48) (tiled : IsTiled end_ h) where
  reused-Gets :
      (addr : ℕ) (bs : List Block)
      → Taken r h.blocks addr bs
      → Gets grants end_ size h (addr + header, record h { blocks = bs })
  reused-Gets addr bs (before, b, behind, e, e', n, f, s, a) = elim tiled [
    | inl (z, nothing) ↦ absurd (no_split before b behind (sym e ∙ nothing))
    | inr (pos, word, t) ↦
        let t' = subst (λ x. AreTiles end_ x h.program_break) e t in
        let c = record b { free = false } in
        (
          inr (
            pos,
            word,
            subst (λ x. AreTiles end_ x h.program_break) (sym e')
                (AreTiles-replace end_ before b c behind h.program_break refl refl t'),
          ),
          inr (
            before,
            c,
            behind,
            e',
            refl,
            omega (arith, a),
            omega (arith, up, s),
            subst (AreFree b.addr (b.addr + header + b.size)) (sym e)
                (AreFree-free end_ before b behind h.program_break t' f),
            subst (HasLive (addr + header)) (sym e') (
                subst (λ q. HasLive q (before ++ (c ∷ behind))) (omega (arith, a))
                  (HasLive-there before c behind refl)),
            λ q x.
                subst (HasLive q) (sym e')
                  (HasLive-replace q before b c behind f (subst (HasLive q) e x)),
          ),
        )
  ]
    where
      no_split :
          (before : List Block) (b : Block) (behind : List Block) → before ++ (b ∷ behind) ≢ []
      no_split before b behind e = omega (arith, ap length e, length-append before (b ∷ behind))

  -- After the first call's look at the break, the blocks tile the memory up to it.
  started-AreTiles :
      let h' = started end_ h in
      (h'.blocks ≡ h.blocks)
      × (0 < h'.program_break)
      × (h'.program_break < 2 ^ 62)
      × AreTiles end_ h.blocks h'.program_break
  started-AreTiles = elim tiled [
    | inl (z, nothing) ↦
        let e : (h.program_break == 0) ≡ true = ground (arith, z) in
        rw (e, nothing) (refl, image, low, refl)
    | inr (pos, word, t) ↦
        let e : (h.program_break == 0) ≡ false = ground (arith, pos) in rw e (refl, pos, word, t)
  ]

  started-IsBreak : IsBreak end_ h (started end_ h).program_break
  started-IsBreak = elim tiled [
    | inl (z, nothing) ↦
        let e : (h.program_break == 0) ≡ true = ground (arith, z) in rw e (inl (z, refl))
    | inr (pos, word, t) ↦
        let e : (h.program_break == 0) ≡ false = ground (arith, pos) in rw e (inr (pos, refl))
  ]

  appended-Gets :
      (g : UserHeap)
      → g.blocks ≡ h.blocks
      → 0 < g.program_break
      → g.program_break < 2 ^ 62
      → AreTiles end_ h.blocks g.program_break
      → NoneFits r h.blocks
      → IsBreak end_ h g.program_break
      → Gets grants end_ size h
          (behind_header (append_block (total_for r) (moved_break grants (total_for r) g)))
  appended-Gets g same pos word t misses top_is =
      elim (Bool-cases (grants ((g.program_break + total_for r) % u64_mod))) [
        | inr z ↦
            let total = align_up_para ((header + r) % u64_mod) (omega (arith, bound)) in
            let sum : (g.program_break + total_for r) % u64_mod ≡ g.program_break + total_for r =
              omega (arith, total, bound, word) in
            rw z (
              inr (pos, word, subst (λ x. AreTiles end_ x g.program_break) (sym same) t),
              inl (
                refl,
                same,
                (
                  r,
                  g.program_break,
                  total_for r,
                  up,
                  tight,
                  misses,
                  top_is,
                  omega (arith, total, bound),
                  omega (arith, total, bound),
                  subst (λ x. grants x ≡ false) sum z,
                ),
              ),
            )
        | inl z ↦
            let top = below ((g.program_break + total_for r) % u64_mod) z in
            let b = new_block g.program_break (total_for r) in
            let total = align_up_para ((header + r) % u64_mod) (omega (arith, bound)) in
            let sum : (g.program_break + total_for r) % u64_mod
                ≡ g.program_break + header + b.size =
              omega (arith, total, bound, word) in
            let large : size ≤ b.size = omega (arith, total, up, bound) in
            rw z (
              inr (
                omega (arith, sum, pos),
                top,
                subst
                    (λ x. AreTiles end_ (x ++ (b ∷ [])) ((g.program_break + total_for r) % u64_mod))
                    (sym same)
                    (AreTiles-append end_ h.blocks g.program_break b
                      ((g.program_break + total_for r) % u64_mod) t refl sum),
              ),
              inr (
                g.blocks,
                b,
                [],
                refl,
                refl,
                refl,
                large,
                AreFree-below g.program_break (g.program_break + header + b.size) end_ h.blocks
                    g.program_break t (omega arith),
                HasLive-there g.blocks b [] refl,
                λ q x. HasLive-append q g.blocks (b ∷ []) (subst (HasLive q) (sym same) x),
              ),
            )
      ]

  give-Gets :
      (o : Option (ℕ × List Block))
      → TakenOr r h.blocks o
      → Gets grants end_ size h (give grants end_ r o h)
  unfolding request_space sbrk
  give-Gets (some (addr, bs)) t = reused-Gets addr bs t
  give-Gets none t =
      let (same, pos, word, tiles) = started-AreTiles in
      appended-Gets (started end_ h) same pos word tiles t started-IsBreak

-- malloc of 1 to 2^47 bytes, in a program whose image ends below 2^62, where the kernel grants no break
-- from 2^62 on: the blocks still tile the memory from the image's end to the break; and malloc fails and
-- leaves the blocks as they are, only where no free block has the size, up to the alignment to 16, and
-- the kernel refuses the break that makes room for it; or it gives the pointer behind the header of one of
-- the blocks then, which is in use and of at least the size, and whose memory was in no block in use, while
-- every pointer that was live stays live.
pub malloc-Gets :
    (grants : ℕ → Bool) (end_ size : ℕ) (h : UserHeap)
    → 0 < end_
    → end_ < 2 ^ 62
    → ((a : ℕ) → grants a ≡ true → a < 2 ^ 62)
    → 0 < size
    → size ≤ 2 ^ 47
    → IsTiled end_ h
    → Gets grants end_ size h (malloc grants end_ size h)
unfolding malloc
malloc-Gets grants end_ size h image low below pos bound tiled =
    let z : (size == 0) ≡ false = ground (arith, pos) in
    let up = align_up_para size (omega (arith, bound)) in
    rw z (
      give-Gets grants end_ size (align_up_u64 size 16) h image low below (omega (arith, up))
        (omega (arith, up)) (omega (arith, up, bound)) tiled
        (take_block (align_up_u64 size 16) h.blocks)
        (take_block-TakenOr (align_up_u64 size 16) h.blocks))
