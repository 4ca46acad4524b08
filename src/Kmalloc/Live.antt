-- ===== src/Kmalloc/Live.antt =====
-- The heap as a set of live pointers.
use mathlib.Core.Bool.{true≢false}
use myos.Base.{
  ℕ, ◌+◌, ◌-◌, ◌/◌, ◌≡◌, refl, sym, ap, ◌∙◌, subst, Bool, true, false, List, [], ◌∷◌, ◌++◌, arith,
  inl, inr, ◌⊎◌,
}
use myos.Pmm.{Pmm, bit_test}
use myos.Pmm.Count.{IsValid}
use myos.Kmalloc.{Block, Heap, header}

-- Blocks that begin at an address.
abbrev pub HasAddr : ℕ → List Block → Type 0
HasAddr a [] = ⊥
HasAddr a (b ∷ bs) = (b.addr ≡ a) ⊎ HasAddr a bs

-- Blocks in use behind whose header a pointer points.
abbrev pub HasLive : ℕ → List Block → Type 0
HasLive q [] = ⊥
HasLive q (b ∷ bs) = ((b.free ≡ false) × (b.addr + header ≡ q)) ⊎ HasLive q bs

-- A pointer that kmalloc gave and kfree has not had yet.
abbrev pub IsLive : ℕ → Heap → Type 0
IsLive q h = HasLive q h.blocks

abbrev pub AreApart : List Block → Type 0
AreApart [] = Path Bool true true
AreApart (b ∷ bs) = (¬ HasAddr b.addr bs) × AreApart bs

abbrev pub AreHeld : Pmm → List Block → Type 0
AreHeld p [] = Path Bool true true
AreHeld p (b ∷ bs) = (bit_test (b.addr / 4096) p ≡ true) × AreHeld p bs

-- No two blocks begin at one address, and the page where a block begins is in use.
pub record IsHeap (h : Heap) : Type 0 where
  pub apart : AreApart h.blocks
  pub held : AreHeld h.pmm h.blocks
  pub pages : IsValid h.pmm
  pub page_zero : bit_test 0 h.pmm ≡ true

HasAddr-append : (a : ℕ) (bs cs : List Block) → HasAddr a (bs ++ cs) → HasAddr a bs ⊎ HasAddr a cs
HasAddr-append a [] cs h = inr h
HasAddr-append a (b ∷ bs) cs (inl e) = inl (inl e)
HasAddr-append a (b ∷ bs) cs (inr h) = elim (HasAddr-append a bs cs h) [
  | inl x ↦ inl (inr x)
  | inr x ↦ inr x
]

-- One block of a list gives way to another at the same address.
HasAddr-replace :
    (a : ℕ) (before : List Block) (b c : Block) (behind : List Block)
    → c.addr ≡ b.addr
    → HasAddr a (before ++ (c ∷ behind))
    → HasAddr a (before ++ (b ∷ behind))
HasAddr-replace a [] b c behind e (inl x) = inl (sym e ∙ x)
HasAddr-replace a [] b c behind e (inr x) = inr x
HasAddr-replace a (d ∷ before) b c behind e (inl x) = inl x
HasAddr-replace a (d ∷ before) b c behind e (inr x) = inr (HasAddr-replace a before b c behind e x)

pub AreApart-replace :
    (before : List Block) (b c : Block) (behind : List Block)
    → c.addr ≡ b.addr
    → AreApart (before ++ (b ∷ behind))
    → AreApart (before ++ (c ∷ behind))
AreApart-replace [] b c behind e (n, u) = (λ h. n (subst (λ a. HasAddr a behind) e h), u)
AreApart-replace (d ∷ before) b c behind e (n, u) =
    (λ h. n (HasAddr-replace d.addr before b c behind e h), AreApart-replace before b c behind e u)

pub AreHeld-replace :
    (p : Pmm) (before : List Block) (b c : Block) (behind : List Block)
    → c.addr ≡ b.addr
    → AreHeld p (before ++ (b ∷ behind))
    → AreHeld p (before ++ (c ∷ behind))
AreHeld-replace p [] b c behind e (h, u) = (ap (λ a. bit_test (a / 4096) p) e ∙ h, u)
AreHeld-replace p (d ∷ before) b c behind e (h, u) = (h, AreHeld-replace p before b c behind e u)

pub HasLive-HasAddr : (q : ℕ) (bs : List Block) → HasLive q bs → HasAddr (q - header) bs
HasLive-HasAddr q [] h = elim h [ ]
HasLive-HasAddr q (b ∷ bs) (inl (f, e)) = inl (omega (arith, e))
HasLive-HasAddr q (b ∷ bs) (inr h) = inr (HasLive-HasAddr q bs h)

pub HasAddr-AreHeld :
    (a : ℕ) (p : Pmm) (bs : List Block) → AreHeld p bs → HasAddr a bs → bit_test (a / 4096) p ≡ true
HasAddr-AreHeld a p [] u h = elim h [ ]
HasAddr-AreHeld a p (b ∷ bs) (u, us) (inl e) = ap (λ z. bit_test (z / 4096) p) (sym e) ∙ u
HasAddr-AreHeld a p (b ∷ bs) (u, us) (inr h) = HasAddr-AreHeld a p bs us h

-- A free block gives way to another: what was live stays live.
pub HasLive-replace :
    (q : ℕ) (before : List Block) (b c : Block) (behind : List Block)
    → b.free ≡ true
    → HasLive q (before ++ (b ∷ behind))
    → HasLive q (before ++ (c ∷ behind))
HasLive-replace q [] b c behind f (inl (e, _)) = absurd (true≢false (sym f ∙ e))
HasLive-replace q [] b c behind f (inr h) = inr h
HasLive-replace q (d ∷ before) b c behind f (inl e) = inl e
HasLive-replace q (d ∷ before) b c behind f (inr h) = inr (HasLive-replace q before b c behind f h)

-- And what is live then is the new block's pointer or was live.
pub HasLive-replaced :
    (q : ℕ) (before : List Block) (b c : Block) (behind : List Block)
    → HasLive q (before ++ (c ∷ behind))
    → (q ≡ c.addr + header) ⊎ HasLive q (before ++ (b ∷ behind))
HasLive-replaced q [] b c behind (inl (_, e)) = inl (sym e)
HasLive-replaced q [] b c behind (inr h) = inr (inr h)
HasLive-replaced q (d ∷ before) b c behind (inl e) = inr (inl e)
HasLive-replaced q (d ∷ before) b c behind (inr h) = elim (HasLive-replaced q before b c behind h) [
  | inl e ↦ inl e
  | inr h' ↦ inr (inr h')
]

pub HasLive-there :
    (before : List Block) (c : Block) (behind : List Block)
    → c.free ≡ false
    → HasLive (c.addr + header) (before ++ (c ∷ behind))
HasLive-there [] c behind f = inl (f, refl)
HasLive-there (d ∷ before) c behind f = inr (HasLive-there before c behind f)

HasAddr-there :
    (before : List Block) (b : Block) (behind : List Block)
    → HasAddr b.addr (before ++ (b ∷ behind))
HasAddr-there [] b behind = inl refl
HasAddr-there (d ∷ before) b behind = inr (HasAddr-there before b behind)

-- The pointer of a free block is not live.
pub free-HasLive :
    (before : List Block) (b : Block) (behind : List Block)
    → AreApart (before ++ (b ∷ behind))
    → b.free ≡ true
    → ¬ HasLive (b.addr + header) (before ++ (b ∷ behind))
free-HasLive [] b behind u f (inl (e, _)) = true≢false (sym f ∙ e)
free-HasLive [] b behind (n, u) f (inr h) =
    n (subst (λ a. HasAddr a behind) (omega arith) (HasLive-HasAddr (b.addr + header) behind h))
free-HasLive (d ∷ before) b behind (n, u) f (inl (_, e)) = n (
    subst (λ a. HasAddr a (before ++ (b ∷ behind))) (omega (arith, e))
      (HasAddr-there before b behind))
free-HasLive (d ∷ before) b behind (n, u) f (inr h) = free-HasLive before b behind u f h

pub HasLive-append : (q : ℕ) (bs cs : List Block) → HasLive q bs → HasLive q (bs ++ cs)
HasLive-append q [] cs h = elim h [ ]
HasLive-append q (b ∷ bs) cs (inl e) = inl e
HasLive-append q (b ∷ bs) cs (inr h) = inr (HasLive-append q bs cs h)

pub HasLive-appended :
    (q : ℕ) (bs : List Block) (c : Block)
    → HasLive q (bs ++ (c ∷ []))
    → (q ≡ c.addr + header) ⊎ HasLive q bs
HasLive-appended q [] c (inl (_, e)) = inl (sym e)
HasLive-appended q [] c (inr h) = elim h [ ]
HasLive-appended q (b ∷ bs) c (inl e) = inr (inl e)
HasLive-appended q (b ∷ bs) c (inr h) = elim (HasLive-appended q bs c h) [
  | inl e ↦ inl e
  | inr h' ↦ inr (inr h')
]

pub AreApart-append :
    (bs : List Block) (c : Block) → AreApart bs → ¬ HasAddr c.addr bs → AreApart (bs ++ (c ∷ []))
AreApart-append [] c u n = (λ h. h, refl)
AreApart-append (b ∷ bs) c (m, u) n = (
  λ h. elim (HasAddr-append b.addr bs (c ∷ []) h) [
    | inl x ↦ m x
    | inr (inl e) ↦ n (inl (sym e))
    | inr (inr x) ↦ elim x [ ]
  ],
  AreApart-append bs c u λ h. n (inr h),
)

pub AreHeld-append :
    (p q : Pmm) (bs : List Block) (c : Block)
    → ((k : ℕ) → bit_test k p ≡ true → bit_test k q ≡ true)
    → AreHeld p bs
    → bit_test (c.addr / 4096) q ≡ true
    → AreHeld q (bs ++ (c ∷ []))
AreHeld-append p q [] c grow u e = (e, refl)
AreHeld-append p q (b ∷ bs) c grow (h, u) e =
    (grow (b.addr / 4096) h, AreHeld-append p q bs c grow u e)
