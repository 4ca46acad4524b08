-- ===== src/Umalloc/Frees.antt =====
-- What free does to the blocks of a user program's heap.
use myos.Base.{
  ℕ, ◌+◌, ◌-◌, ◌≤◌, ◌≡◌, ◌≢◌, sym, ap, subst, refl, ◌∙◌, false, List, [], ◌∷◌, ◌==◌, arith, inl,
  inr,
}
use myos.Kmalloc.{Block, header, set_free}
use myos.Kmalloc.Live.{HasAddr, HasLive, AreApart}
use myos.Kmalloc.Release.{HasLive-set_free, HasLive-was, HasLive-merge, HasLive-high}
use myos.Umalloc.{UserHeap, merge, free}
use myos.Umalloc.Tiles.{AreTiles, IsTiled, AreTiles-set_free, AreTiles-merge}

HasAddr-high : (a lo : ℕ) (bs : List Block) (hi : ℕ) → AreTiles lo bs hi → HasAddr a bs → lo ≤ a
HasAddr-high a lo [] hi t x = elim x [ ]
HasAddr-high a lo (b ∷ bs) hi (e, t) (inl x) = omega (arith, e, x)
HasAddr-high a lo (b ∷ bs) hi (e, t) (inr x) =
    omega (arith, HasAddr-high a (lo + header + b.size) bs hi t x)

AreTiles-AreApart : (lo : ℕ) (bs : List Block) (hi : ℕ) → AreTiles lo bs hi → AreApart bs
AreTiles-AreApart lo [] hi t = refl
AreTiles-AreApart lo (b ∷ bs) hi (e, t) = (
  λ x. omega (arith, e, HasAddr-high b.addr (lo + header + b.size) bs hi t x),
  AreTiles-AreApart (lo + header + b.size) bs hi t,
)

-- The pointer is not live, the others are as they were, and the blocks tile the memory.
abbrev pub Frees : ℕ → ℕ → UserHeap → UserHeap → Type 0
Frees end_ ptr h h' =
    IsTiled end_ h'
    × (¬ HasLive ptr h'.blocks)
    × ((q : ℕ)
        → (q ≢ ptr → HasLive q h.blocks → HasLive q h'.blocks)
          × (HasLive q h'.blocks → HasLive q h.blocks))

freed-Frees :
    (end_ ptr : ℕ) (h : UserHeap)
    → header ≤ ptr
    → IsTiled end_ h
    → AreApart h.blocks
    → Frees end_ ptr h (record h { blocks = merge (set_free (ptr - header) h.blocks) })
unfolding set_free
freed-Frees end_ ptr h high tiled u =
    let bs = set_free (ptr - header) h.blocks in
    let was = λ (q : ℕ) (x : HasLive q (merge bs)).
      HasLive-was q (ptr - header) h.blocks u ((HasLive-merge q bs).1 x) in
    (
      elim tiled [
        | inl (z, e) ↦ inl (z, none_left (ptr - header) h.blocks e)
        | inr (pos, word, t) ↦ inr (
          pos,
          word,
          AreTiles-merge end_ bs h.program_break
              (AreTiles-set_free end_ (ptr - header) h.blocks h.program_break t),
        )
      ],
      (λ x. (was ptr x).1 (omega (arith, high))),
      λ q. (
        (λ n x.
            (HasLive-merge q bs).0
              (HasLive-set_free q (ptr - header) h.blocks (λ e. n (omega (arith, e, high))) x)),
        λ x. (was q x).0,
      ),
    )
  where
    none_left : (a : ℕ) (bs : List Block) → bs ≡ [] → merge (set_free a bs) ≡ []
    none_left a bs e = ap (λ z. merge (set_free a z)) e ∙ refl

-- free of a live pointer: the blocks still tile the memory from the image's end to the break, though
-- neighbours that are free are merged; the pointer is not live then, every other is that was, and no other.
pub free-Frees :
    (end_ ptr : ℕ) (h : UserHeap)
    → IsTiled end_ h
    → HasLive ptr h.blocks
    → Frees end_ ptr h (free ptr h)
unfolding free
free-Frees end_ ptr h tiled live =
    let high = HasLive-high ptr h.blocks live in
    let z : (ptr == 0) ≡ false = ground (arith, high) in
    rw z (freed-Frees end_ ptr h high tiled (apart tiled))
  where
    apart : IsTiled end_ h → AreApart h.blocks
    apart (inl (_, e)) = subst AreApart (sym e) refl
    apart (inr (_, _, t)) = AreTiles-AreApart end_ h.blocks h.program_break t
