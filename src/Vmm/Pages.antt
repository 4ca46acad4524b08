-- ===== src/Vmm/Pages.antt =====
-- `vmm_map_page` against the map from pages to entries.
use myos.Base.{
  ℕ, zero, suc, ◌%◌, ◌<◌, ◌≡◌, refl, sym, ap, ap₂, ◌∙◌, subst, Bool, true, false, Option, none,
  some, ◌==◌, if◌then◌else◌, arith, inl, inr, Bool-cases, ◌&&◌, ◌⊎◌, bit_or,
}
use myos.Vmm.{
  Vmm, frame, is_present, root_of, index1, index2, index3, index4, table_flags, ensure_table,
  descend, map_leaf, map_page,
}
use myos.Vmm.Entry.{table_flags_lem, leaf_entry}
use myos.Vmm.Tree.{Shape, IsTree, user-Owned, lookup, above, IsUser, page_of}
use myos.Vmm.Fresh.{IsFull}
use myos.Vmm.Grow.{Extends, Extends-refl}
use myos.Vmm.Ensure.{Ensured, ensure_table-Ensured}
use myos.Vmm.Leaf.{write-IsTree}
use myos.Vmm.Map.{Chain, Chain-lookup, Changes, write-Changes}

Extends-trans :
    (v : Vmm) (g : Shape) (v₁ : Vmm) (g₁ : Shape) (v₂ : Vmm) (g₂ : Shape)
    → Extends v g v₁ g₁
    → Extends v₁ g₁ v₂ g₂
    → Extends v g v₂ g₂
unfolding lookup
Extends-trans v g v₁ g₁ v₂ g₂ a b = record {
  tree = b.tree;
  level = λ t h. b.level t (pos t h) ∙ a.level t h;
  start = λ t h. b.start t (pos t h) ∙ a.start t h;
  owner = λ t h. b.owner t (pos t h) ∙ a.owner t h;
  roots = λ t h. a.roots t (b.roots t h);
  entries =
      λ t i h on. let e = a.entries t i h on in b.entries t i (pos t h) (ap is_present e ∙ on) ∙ e;
  same = same;
}
  where
    pos : (t : ℕ) → 0 < g.level t → 0 < g₁.level t
    pos t h = omega (arith, h, a.level t h)

    same : (n t x : ℕ) → g.level t ≡ n → IsUser x → lookup v₂ n t x ≡ lookup v n t x
    same zero t x l u = refl
    same (suc n) t x l u =
        b.same (suc n) t x (a.level t (omega (arith, l)) ∙ l) u ∙ a.same (suc n) t x l u

-- The spaces stay what they were: the same roots.
abbrev pub SameRoots : Shape → Shape → Type 0
SameRoots g g' = (s : ℕ) → (g.level s ≡ 4 → g'.level s ≡ 4) × (g'.level s ≡ 4 → g.level s ≡ 4)

-- What mapping the page x of the space r to the entry e may do: it succeeds, and the page had no entry
-- and has e now; or it fails, and the page has an entry or no physical page is free. The tables stay
-- trees, and every other page of every space keeps what it has.
abbrev pub Mapping : Vmm → Shape → ℕ → ℕ → ℕ → Bool × Vmm → Type 0
Mapping v g r x e (true, v') =
    (lookup v 4 r x ≡ none)
    × (g' : Shape) × IsTree v' g'
    × SameRoots g g'
    × Changes v g v' r x (some e)
Mapping v g r x e (false, v') =
    (((e₀ : ℕ) × (lookup v 4 r x ≡ some e₀)) ⊎ IsFull v'.pmm)
    × (g' : Shape) × IsTree v' g'
    × SameRoots g g'
    × ((s y : ℕ) → g.level s ≡ 4 → IsUser y → lookup v' 4 s y ≡ lookup v 4 s y)

Extends-SameRoots :
    (v : Vmm) (g : Shape) (v' : Vmm) (g' : Shape) → Extends v g v' g' → SameRoots g g'
Extends-SameRoots v g v' g' a s = (λ h. a.level s (omega (arith, h)) ∙ h, a.roots s)

-- From the memory v₀ on, for the page x of the space r.
module _ (v₀ : Vmm) (g₀ : Shape) (r x : ℕ) (root : g₀.level r ≡ 4) (u : IsUser x) (phys flags : ℕ)
    (f : frame flags ≡ 0) where
  abbrev entry : ℕ
  entry = bit_or (frame phys) (bit_or flags 1)

  refused :
      (v : Vmm) (g : Shape)
      → Extends v₀ g₀ v g
      → ((e₀ : ℕ) × (lookup v₀ 4 r x ≡ some e₀)) ⊎ IsFull v.pmm
      → Mapping v₀ g₀ r x entry (false, v)
  refused v g a why = (why, g, a.tree, Extends-SameRoots v₀ g₀ v g a, λ s y l uy. a.same 4 s y l uy)

  map_leaf-Mapping :
      (v : Vmm) (g : Shape) (pdpt pd pt : ℕ)
      → Extends v₀ g₀ v g
      → Chain v g r x pdpt pd pt
      → Mapping v₀ g₀ r x entry (map_leaf pt (x % 512) phys flags v)
  unfolding map_leaf
  map_leaf-Mapping v g pdpt pd pt a c = elim (Bool-cases (is_present (v.mem pt (x % 512)))) [
    | inl on ↦
        let found : lookup v₀ 4 r x ≡ some (v.mem pt (x % 512)) =
          sym (a.same 4 r x root u) ∙ (Chain-lookup v g r x pdpt pd pt c ∙ rw on refl) in
        rw on (refused v g a (inl (v.mem pt (x % 512), found)))
    | inr off ↦
        let found : lookup v₀ 4 r x ≡ none =
          sym (a.same 4 r x root u) ∙ (Chain-lookup v g r x pdpt pd pt c ∙ rw off refl) in
        let changes = write-Changes v g r x pdpt pd pt entry a.tree c in
        rw off (
          found,
          g,
          write-IsTree v g a.tree pt (x % 512) entry c.level1,
          Extends-SameRoots v₀ g₀ v g a,
          λ s y l uy.
              changes s y (a.level s (omega (arith, l)) ∙ l) uy
              ∙ ap₂ (λ (o p : Option ℕ). if (s == r) && (y == x) then o else p) shown
                  (a.same 4 s y l uy),
        )
  ]
    where
      shown : (if is_present entry then some entry else none) ≡ some entry
      shown = let (on, _) = leaf_entry phys flags f in rw on refl

  -- The entry for x in a table t of a level, and the table below it.
  record Down (v : Vmm) (g : Shape) (k t c : ℕ) : Type 0 where
    on : is_present (v.mem t (above (suc k) x % 512)) ≡ true
    to : frame (v.mem t (above (suc k) x % 512)) ≡ c
    from_level : g.level t ≡ suc (suc k)
    to_level : g.level c ≡ suc k
    start : g.start c ≡ above (suc k) x
    owner : g.owner c ≡ r

  Down-Extends :
      (v : Vmm) (g : Shape) (v' : Vmm) (g' : Shape) (k t c : ℕ)
      → Extends v g v' g'
      → Down v g k t c
      → Down v' g' k t c
  Down-Extends v g v' g' k t c a d =
      let e = a.entries t (above (suc k) x % 512) (omega (arith, d.from_level)) d.on in
      let pos : 0 < g.level c = omega (arith, d.to_level) in
      record {
        on = ap is_present e ∙ d.on;
        to = ap frame e ∙ d.to;
        from_level = a.level t (omega (arith, d.from_level)) ∙ d.from_level;
        to_level = a.level c pos ∙ d.to_level;
        start = a.start c pos ∙ d.start;
        owner = a.owner c pos ∙ d.owner;
      }

  -- A step of `map_page` from a table of level k + 2 whose pages begin like x.
  step :
      (v : Vmm) (g : Shape) (k t : ℕ) (next : ℕ → Vmm → Bool × Vmm)
      → Extends v₀ g₀ v g
      → g.level t ≡ suc (suc k)
      → g.start t ≡ above (suc (suc k)) x
      → g.owner t ≡ r
      → ((v' : Vmm) (g' : Shape) (c : ℕ)
          → Extends v g v' g'
          → Down v' g' k t c
          → Mapping v₀ g₀ r x entry (next c v'))
      → (q : Option ℕ × Vmm) → Ensured v g t k (above (suc k) x % 512) q
      → Mapping v₀ g₀ r x entry (descend q next)
  step v g k t next a level start owner more (none, v') (same, full) =
      subst (λ z. Mapping v₀ g₀ r x entry (false, z)) (sym same) (refused v g a (inr full))
  step v g k t next a level start owner more (some c, v')
        (g', b, to_level, to_start, to_owner, on, to, _) =
      more v' g' c b (record {
        on = on;
        to = to;
        from_level = b.level t (omega (arith, level)) ∙ level;
        to_level = to_level;
        start = to_start ∙ omega (arith, start);
        owner = to_owner ∙ owner;
      })

  map_page-stages :
      (w : IsTree v₀ g₀)
      → Mapping v₀ g₀ r x entry (
          descend (ensure_table r (above 3 x % 512) (table_flags flags) v₀) λ pdpt v₁.
            descend (ensure_table pdpt (above 2 x % 512) (table_flags flags) v₁) λ pd v₂.
              descend
                (ensure_table pd (above 1 x % 512) (table_flags flags) v₂)
                λ pt v₃. map_leaf pt (x % 512) phys flags v₃)
  map_page-stages w =
      let (start, owner) = (w.table r (omega (arith, root))).root root in
      let (f0, f1, f2) = table_flags_lem flags in
      step v₀ g₀ 2 r _ (Extends-refl v₀ g₀ w) root (omega (arith, start, u.1)) owner
        (λ v₁ g₁ pdpt a₁ d₁.
          step v₁ g₁ 1 pdpt _ a₁ d₁.to_level d₁.start d₁.owner
            (λ v₂ g₂ pd a₂ d₂.
              let a₀₂ = Extends-trans v₀ g₀ v₁ g₁ v₂ g₂ a₁ a₂ in
              let d₁₂ = Down-Extends v₁ g₁ v₂ g₂ 2 r pdpt a₂ d₁ in
              step v₂ g₂ 0 pd _ a₀₂ d₂.to_level d₂.start d₂.owner
                (λ v₃ g₃ pt a₃ d₃.
                  map_leaf-Mapping v₃ g₃ pdpt pd pt (Extends-trans v₀ g₀ v₂ g₂ v₃ g₃ a₀₂ a₃) (
                    chain v₃ g₃ pdpt pd pt (Down-Extends v₂ g₂ v₃ g₃ 2 r pdpt a₃ d₁₂)
                      (Down-Extends v₂ g₂ v₃ g₃ 1 pdpt pd a₃ d₂) d₃))
                _
                (ensure_table-Ensured v₂ g₂ pd 0 _ _ a₂.tree d₂.to_level
                  (user-Owned 0 x _ d₂.to_level u) f0 f1 f2))
            _
            (ensure_table-Ensured v₁ g₁ pdpt 1 _ _ a₁.tree d₁.to_level
              (user-Owned 1 x _ d₁.to_level u) f0 f1 f2))
        _ (ensure_table-Ensured v₀ g₀ r 2 _ _ w root (user-Owned 2 x _ root u) f0 f1 f2)
    where
      chain :
          (v : Vmm) (g : Shape) (pdpt pd pt : ℕ)
          → Down v g 2 r pdpt
          → Down v g 1 pdpt pd
          → Down v g 0 pd pt
          → Chain v g r x pdpt pd pt
      chain v g pdpt pd pt d₁ d₂ d₃ = record {
        on4 = d₁.on;
        to4 = d₁.to;
        on3 = d₂.on;
        to3 = d₂.to;
        on2 = d₃.on;
        to2 = d₃.to;
        root = d₁.from_level;
        level3 = d₁.to_level;
        level2 = d₂.to_level;
        level1 = d₃.to_level;
        start = d₃.start;
        owner = d₃.owner;
      }

-- The indices of an address are the digits of its page.
pub page_digits :
    (virt : ℕ)
    → (index4 virt ≡ above 3 (page_of virt) % 512)
      × (index3 virt ≡ above 2 (page_of virt) % 512)
      × (index2 virt ≡ above 1 (page_of virt) % 512)
      × (index1 virt ≡ page_of virt % 512)
page_digits virt = omega arith

-- In memory whose tables are trees, for an address of user space, flags outside the frame's bits and
-- any physical address: where `vmm_map_page` succeeds, the page had no entry and now has the frame
-- with the flags and is present, and every other page of user space, of this space and of all
-- others, keeps its entry; where it fails, the page has an entry or no physical page is free, and no
-- page of any space changes. The tables stay trees with the same roots.
pub map_page_lem :
    (v : Vmm) (g : Shape) (cr3 virt phys flags : ℕ)
    → IsTree v g
    → g.level (root_of cr3) ≡ 4
    → IsUser (page_of virt)
    → frame flags ≡ 0
    → Mapping v g
        (root_of cr3)
        (page_of virt)
        (bit_or (frame phys) (bit_or flags 1))
        (map_page cr3 virt phys flags v)
unfolding map_page
map_page_lem v g cr3 virt phys flags w root u f =
    let (e4, e3, e2, e1) = page_digits virt in
    rw (e4, e3, e2, e1) (map_page-stages v g (root_of cr3) (page_of virt) root u phys flags f w)
