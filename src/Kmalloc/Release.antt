-- ===== src/Kmalloc/Release.antt =====
-- What kfree does to the live pointers.
use mathlib.Core.Bool.{true≢false}
use myos.Base.{
  ℕ, ◌+◌, ◌-◌, ◌≤◌, ◌≡◌, ◌≢◌, sym, ap, ◌∙◌, subst, true, false, List, [], ◌∷◌, ◌==◌, if◌then◌else◌,
  arith, inl, inr, Bool-cases, ◌⊎◌,
}
use myos.Pmm.{Pmm}
use myos.Kmalloc.{Block, Heap, header, merge_from, merge_free_blocks, set_free, kfree}
use myos.Kmalloc.Merge.{joined, merge_step}
use myos.Kmalloc.Live.{HasAddr, HasLive, HasLive-HasAddr, IsLive, AreApart, AreHeld, IsHeap}

abbrev released : Block → Block
released b = record b { free = true }

-- The two ends of `set_free` at a block.
set_free_step :
    (a : ℕ) (b : Block) (bs : List Block)
    → ((b.addr ≡ a) × (set_free a (b ∷ bs) ≡ released b ∷ bs))
      ⊎ ((b.addr ≢ a) × (set_free a (b ∷ bs) ≡ b ∷ set_free a bs))
unfolding set_free
set_free_step a b bs = elim (Bool-cases (b.addr == a)) [
  | inl e ↦ inl (ground (arith, e), ap (λ z. if z then released b ∷ bs else b ∷ set_free a bs) e)
  | inr e ↦ inr (ground (arith, e), ap (λ z. if z then released b ∷ bs else b ∷ set_free a bs) e)
]

HasAddr-set_free : (x a : ℕ) (bs : List Block) → HasAddr x (set_free a bs) → HasAddr x bs
unfolding set_free
HasAddr-set_free x a [] h = h
HasAddr-set_free x a (b ∷ bs) h = elim (set_free_step a b bs) [
  | inl (_, e) ↦ subst (HasAddr x) e h
  | inr (_, e) ↦ elim (subst (HasAddr x) e h) [
    | inl z ↦ inl z
    | inr z ↦ inr (HasAddr-set_free x a bs z)
  ]
]

AreApart-set_free : (a : ℕ) (bs : List Block) → AreApart bs → AreApart (set_free a bs)
unfolding set_free
AreApart-set_free a [] u = u
AreApart-set_free a (b ∷ bs) (n, u) = elim (set_free_step a b bs) [
  | inl (_, e) ↦ subst AreApart (sym e) (n, u)
  | inr (_, e) ↦
      subst AreApart (sym e) (λ x. n (HasAddr-set_free b.addr a bs x), AreApart-set_free a bs u)
]

AreHeld-set_free : (p : Pmm) (a : ℕ) (bs : List Block) → AreHeld p bs → AreHeld p (set_free a bs)
unfolding set_free
AreHeld-set_free p a [] u = u
AreHeld-set_free p a (b ∷ bs) (n, u) = elim (set_free_step a b bs) [
  | inl (_, e) ↦ subst (AreHeld p) (sym e) (n, u)
  | inr (_, e) ↦ subst (AreHeld p) (sym e) (n, AreHeld-set_free p a bs u)
]

-- Another pointer stays live.
pub HasLive-set_free :
    (q a : ℕ) (bs : List Block) → q ≢ a + header → HasLive q bs → HasLive q (set_free a bs)
HasLive-set_free q a [] n h = elim h [ ]
HasLive-set_free q a (b ∷ bs) n (inl (f, at)) = elim (set_free_step a b bs) [
  | inl (z, e) ↦ absurd (n (omega (arith, z, at)))
  | inr (_, e) ↦ subst (HasLive q) (sym e) (inl (f, at))
]
HasLive-set_free q a (b ∷ bs) n (inr h) = elim (set_free_step a b bs) [
  | inl (_, e) ↦ subst (HasLive q) (sym e) (inr h)
  | inr (_, e) ↦ subst (HasLive q) (sym e) (inr (HasLive-set_free q a bs n h))
]

-- What is live then was live, and is not the pointer.
pub HasLive-was :
    (q a : ℕ) (bs : List Block)
    → AreApart bs
    → HasLive q (set_free a bs)
    → HasLive q bs × (q ≢ a + header)
unfolding set_free
HasLive-was q a [] u h = elim h [ ]
HasLive-was q a (b ∷ bs) (n, u) h = elim (set_free_step a b bs) [
  | inl (z, e) ↦ elim (subst (HasLive q) e h) [
    | inl (f, at) ↦ absurd (true≢false f)
    | inr x ↦
        (inr x, λ e'. n (subst (λ y. HasAddr y bs) (omega (arith, e', z)) (HasLive-HasAddr q bs x)))
  ]
  | inr (z, e) ↦ elim (subst (HasLive q) e h) [
    | inl (f, at) ↦ (inl (f, at), λ e'. z (omega (arith, e', at)))
    | inr x ↦ let (y, m) = HasLive-was q a bs u x in (inr y, m)
  ]
]

HasAddr-merge_from :
    (x : ℕ) (b : Block) (bs : List Block) → HasAddr x (merge_from b bs) → HasAddr x (b ∷ bs)
unfolding merge_from
HasAddr-merge_from x b [] h = h
HasAddr-merge_from x b (c ∷ bs) h = elim (merge_step b c bs) [
  | inl (e, _, _) ↦ elim (HasAddr-merge_from x (joined b c) bs (subst (HasAddr x) e h)) [
    | inl z ↦ inl z
    | inr z ↦ inr (inr z)
  ]
  | inr (e, _) ↦ elim (subst (HasAddr x) e h) [
    | inl z ↦ inl z
    | inr z ↦ inr (HasAddr-merge_from x c bs z)
  ]
]

AreApart-merge_from : (b : Block) (bs : List Block) → AreApart (b ∷ bs) → AreApart (merge_from b bs)
unfolding merge_from
AreApart-merge_from b [] u = u
AreApart-merge_from b (c ∷ bs) (n, (m, u)) = elim (merge_step b c bs) [
  | inl (e, _, _) ↦ subst AreApart (sym e) (AreApart-merge_from (joined b c) bs (λ x. n (inr x), u))
  | inr (e, _) ↦
      subst AreApart (sym e)
        (λ x. n (HasAddr-merge_from b.addr c bs x), AreApart-merge_from c bs (m, u))
]

AreHeld-merge_from :
    (p : Pmm) (b : Block) (bs : List Block) → AreHeld p (b ∷ bs) → AreHeld p (merge_from b bs)
unfolding merge_from
AreHeld-merge_from p b [] u = u
AreHeld-merge_from p b (c ∷ bs) (n, (m, u)) = elim (merge_step b c bs) [
  | inl (e, _, _) ↦ subst (AreHeld p) (sym e) (AreHeld-merge_from p (joined b c) bs (n, u))
  | inr (e, _) ↦ subst (AreHeld p) (sym e) (n, AreHeld-merge_from p c bs (m, u))
]

HasLive-merge_from :
    (q : ℕ) (b : Block) (bs : List Block)
    → (HasLive q (b ∷ bs) → HasLive q (merge_from b bs))
      × (HasLive q (merge_from b bs) → HasLive q (b ∷ bs))
unfolding merge_from
HasLive-merge_from q b [] = (λ h. h, λ h. h)
HasLive-merge_from q b (c ∷ bs) = elim (merge_step b c bs) [
  | inl (e, fb, fc) ↦
      let (to, from) = HasLive-merge_from q (joined b c) bs in
      (
        λ h. subst (HasLive q) (sym e) (
            to (elim h [
              | inl (f, _) ↦ absurd (true≢false (sym fb ∙ f))
              | inr (inl (f, _)) ↦ absurd (true≢false (sym fc ∙ f))
              | inr (inr x) ↦ inr x
            ])),
        λ h. elim (from (subst (HasLive q) e h)) [ inl x ↦ inl x | inr x ↦ inr (inr x) ],
      )
  | inr (e, _) ↦
      let (to, from) = HasLive-merge_from q c bs in
      (
        λ h. subst (HasLive q) (sym e) (elim h [ inl x ↦ inl x | inr x ↦ inr (to x) ]),
        λ h. elim (subst (HasLive q) e h) [ inl x ↦ inl x | inr x ↦ inr (from x) ],
      )
]

abbrev pub Releases : ℕ → Heap → Heap → Type 0
Releases ptr h h' =
    (¬ IsLive ptr h')
    × ((q : ℕ) → (q ≢ ptr → IsLive q h → IsLive q h') × (IsLive q h' → IsLive q h))

pub HasLive-merge :
    (q : ℕ) (bs : List Block)
    → (HasLive q bs → HasLive q (merge_free_blocks bs))
      × (HasLive q (merge_free_blocks bs) → HasLive q bs)
HasLive-merge q [] = (λ h. h, λ h. h)
HasLive-merge q (b ∷ bs) = HasLive-merge_from q b bs

AreApart-merge : (bs : List Block) → AreApart bs → AreApart (merge_free_blocks bs)
AreApart-merge [] u = u
AreApart-merge (b ∷ bs) u = AreApart-merge_from b bs u

AreHeld-merge : (p : Pmm) (bs : List Block) → AreHeld p bs → AreHeld p (merge_free_blocks bs)
AreHeld-merge p [] u = u
AreHeld-merge p (b ∷ bs) u = AreHeld-merge_from p b bs u

-- A live pointer stands behind a header.
pub HasLive-high : (q : ℕ) (bs : List Block) → HasLive q bs → header ≤ q
HasLive-high q [] h = elim h [ ]
HasLive-high q (b ∷ bs) (inl (_, e)) = omega (arith, e)
HasLive-high q (b ∷ bs) (inr h) = HasLive-high q bs h

released-IsHeap :
    (a : ℕ) (h : Heap)
    → IsHeap h
    → IsHeap (record h { blocks = merge_free_blocks (set_free a h.blocks) })
released-IsHeap a h i = record {
  apart = AreApart-merge (set_free a h.blocks) (AreApart-set_free a h.blocks i.apart);
  held = AreHeld-merge h.pmm (set_free a h.blocks) (AreHeld-set_free h.pmm a h.blocks i.held);
  pages = i.pages;
  page_zero = i.page_zero;
}

released-Releases :
    (ptr : ℕ) (h : Heap)
    → header ≤ ptr
    → IsHeap h
    → Releases ptr h (record h { blocks = merge_free_blocks (set_free (ptr - header) h.blocks) })
released-Releases ptr h high i =
    let bs = set_free (ptr - header) h.blocks in
    let was = λ (q : ℕ) (x : HasLive q (merge_free_blocks bs)).
      HasLive-was q (ptr - header) h.blocks i.apart ((HasLive-merge q bs).1 x) in
    (
      (λ x. (was ptr x).1 (omega (arith, high))),
      λ q. (
        (λ n x.
            (HasLive-merge q bs).0
              (HasLive-set_free q (ptr - header) h.blocks (λ e. n (omega (arith, e, high))) x)),
        λ x. (was q x).0,
      ),
    )

-- kfree of a live pointer keeps the heap's invariant; that pointer is not live then, every other is
-- live that was, and no other.
pub kfree-Releases :
    (ptr : ℕ) (h : Heap)
    → IsHeap h
    → IsLive ptr h
    → IsHeap (kfree ptr h) × Releases ptr h (kfree ptr h)
unfolding kfree
kfree-Releases ptr h i live =
    let high = HasLive-high ptr h.blocks live in
    let e : (ptr == 0) ≡ false = ground (arith, high) in
    rw e (released-IsHeap (ptr - header) h i, released-Releases ptr h high i)
