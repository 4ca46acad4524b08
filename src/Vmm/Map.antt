-- ===== src/Vmm/Map.antt =====
-- Mapping, unmapping and resolving a page of user space, against the map from pages to entries.
use myos.Base.{
  ℕ, ◌+◌, ◌*◌, ◌/◌, ◌%◌, ◌≡◌, ◌≢◌, refl, sym, ap, ◌∙◌, subst, true, Option, none, some, ◌==◌,
  if◌then◌else◌, arith, inl, inr, Bool-cases, ◌&&◌,
}
use myos.Vmm.{Vmm, frame, is_present, write}
use myos.Vmm.Tree.{Shape, IsTree, lookup, above, IsUser}
use myos.Vmm.Leaf.{lookup-write_other}

-- A chain of entries from a root r to the table of pages pt, for the page x.
pub record Chain (v : Vmm) (g : Shape) (r x pdpt pd pt : ℕ) : Type 0 where
  pub on4 : is_present (v.mem r (above 3 x % 512)) ≡ true
  pub to4 : frame (v.mem r (above 3 x % 512)) ≡ pdpt
  pub on3 : is_present (v.mem pdpt (above 2 x % 512)) ≡ true
  pub to3 : frame (v.mem pdpt (above 2 x % 512)) ≡ pd
  pub on2 : is_present (v.mem pd (above 1 x % 512)) ≡ true
  pub to2 : frame (v.mem pd (above 1 x % 512)) ≡ pt
  pub root : g.level r ≡ 4
  pub level3 : g.level pdpt ≡ 3
  pub level2 : g.level pd ≡ 2
  pub level1 : g.level pt ≡ 1
  pub start : g.start pt ≡ x / 512
  pub owner : g.owner pt ≡ r

-- At the end of the chain stands the entry.
pub Chain-lookup :
    (v : Vmm) (g : Shape) (r x pdpt pd pt : ℕ)
    → Chain v g r x pdpt pd pt
    → lookup v 4 r x ≡ (if is_present (v.mem pt (x % 512)) then some (v.mem pt (x % 512)) else none)
unfolding lookup
Chain-lookup v g r x pdpt pd pt c = rw (c.on4, c.to4) (rw (c.on3, c.to3) (rw (c.on2, c.to2) refl))

-- A write to the table of pages keeps the chain, and shows at the end of it.
write-Chain :
    (v : Vmm) (g : Shape) (r x pdpt pd pt i e : ℕ)
    → Chain v g r x pdpt pd pt
    → Chain (write pt i e v) g r x pdpt pd pt
write-Chain v g r x pdpt pd pt i e c = record {
  on4 = ground (arith, c.on4, c.root, c.level1, λ (s : r ≡ pt). ap g.level s);
  to4 = ground (arith, c.to4, c.root, c.level1, λ (s : r ≡ pt). ap g.level s);
  on3 = ground (arith, c.on3, c.level3, c.level1, λ (s : pdpt ≡ pt). ap g.level s);
  to3 = ground (arith, c.to3, c.level3, c.level1, λ (s : pdpt ≡ pt). ap g.level s);
  on2 = ground (arith, c.on2, c.level2, c.level1, λ (s : pd ≡ pt). ap g.level s);
  to2 = ground (arith, c.to2, c.level2, c.level1, λ (s : pd ≡ pt). ap g.level s);
  root = c.root;
  level3 = c.level3;
  level2 = c.level2;
  level1 = c.level1;
  start = c.start;
  owner = c.owner;
}

lookup-write_self :
    (v : Vmm) (g : Shape) (r x pdpt pd pt e : ℕ)
    → Chain v g r x pdpt pd pt
    → lookup (write pt (x % 512) e v) 4 r x ≡ (if is_present e then some e else none)
lookup-write_self v g r x pdpt pd pt e c =
    let here : (write pt (x % 512) e v).mem pt (x % 512) ≡ e = ground arith in
    Chain-lookup (write pt (x % 512) e v) g r x pdpt pd pt
      (write-Chain v g r x pdpt pd pt (x % 512) e c)
    ∙ ap (λ z. if is_present z then some z else none) here

-- One page of one space gets the entry o, and every other page of user space keeps what it has.
abbrev pub Changes : Vmm → Shape → Vmm → ℕ → ℕ → Option ℕ → Type 0
Changes v g v' r x o =
    (s y : ℕ)
    → g.level s ≡ 4
    → IsUser y
    → lookup v' 4 s y ≡ (if (s == r) && (y == x) then o else lookup v 4 s y)

pub write-Changes :
    (v : Vmm) (g : Shape) (r x pdpt pd pt e : ℕ)
    → IsTree v g
    → Chain v g r x pdpt pd pt
    → Changes v g (write pt (x % 512) e v) r x (if is_present e then some e else none)
write-Changes v g r x pdpt pd pt e w c s y l u = elim (Bool-cases ((s == r) && (y == x))) [
  | inl hit ↦
      let same_s : r ≡ s = ground (arith, hit) in
      let same_y : x ≡ y = ground (arith, hit) in
      rw hit (
        subst (λ s. lookup (write pt (x % 512) e v) 4 s y ≡ (if is_present e then some e else none))
          same_s
          (subst
            (λ y. lookup (write pt (x % 512) e v) 4 r y ≡ (if is_present e then some e else none))
            same_y (lookup-write_self v g r x pdpt pd pt e c)))
  | inr miss ↦
      let (start, owner) = (w.table s (omega (arith, l))).root l in
      let far : g.owner s ≡ g.owner pt → y ≢ g.start pt * 512 + x % 512 = λ own at.
        let s_r : s ≡ r = sym owner ∙ (own ∙ c.owner) in
        let y_x : y ≡ x = omega (arith, at, c.start) in ground (arith, miss, s_r, y_x) in
      rw miss
        (lookup-write_other v g w pt (x % 512) e c.level1 4 s y l (omega (arith, start, u.1)) u far)
]
