-- ===== src/Vmm/Walk.antt =====
-- Unmapping and resolving a page of user space, against the map from pages to entries.
use myos.Base.{
  ℕ, ◌%◌, ◌≡◌, refl, ◌∙◌, true, false, Option, none, some, if◌then◌else◌, arith, inl, inr,
  Bool-cases, bit_or,
}
use mathlib.Core.Option
use myos.Vmm.{
  Vmm, frame, is_present, is_huge, root_of, below, through, in_page, in_huge, unmap_leaf,
  unmap_page, resolve,
}
use myos.Vmm.Tree.{Shape, IsTree, user-Owned, lookup, above, IsUser, page_of}
use myos.Vmm.Leaf.{write-IsTree}
use myos.Vmm.Map.{Chain, Changes, write-Changes}
use myos.Vmm.Pages.{page_digits}

-- How far the entries for a page x lead from the root r of its space.
data Walk (v : Vmm) (g : Shape) (r x : ℕ) : Type 0 where
  stop4 : is_present (v.mem r (above 3 x % 512)) ≡ false → Walk v g r x
  stop3 :
      (pdpt : ℕ)
      → is_present (v.mem r (above 3 x % 512)) ≡ true
      → frame (v.mem r (above 3 x % 512)) ≡ pdpt
      → is_present (v.mem pdpt (above 2 x % 512)) ≡ false
      → Walk v g r x
  stop2 :
      (pdpt pd : ℕ)
      → is_present (v.mem r (above 3 x % 512)) ≡ true
      → frame (v.mem r (above 3 x % 512)) ≡ pdpt
      → is_present (v.mem pdpt (above 2 x % 512)) ≡ true
      → frame (v.mem pdpt (above 2 x % 512)) ≡ pd
      → is_huge (v.mem pdpt (above 2 x % 512)) ≡ false
      → is_present (v.mem pd (above 1 x % 512)) ≡ false
      → Walk v g r x
  reaches :
      (pdpt pd pt : ℕ)
      → Chain v g r x pdpt pd pt
      → is_huge (v.mem pdpt (above 2 x % 512)) ≡ false
      → is_huge (v.mem pd (above 1 x % 512)) ≡ false
      → Walk v g r x

module _ (v : Vmm) (g : Shape) (r x : ℕ) (w : IsTree v g) (root : g.level r ≡ 4)
    (u : IsUser x) where
  walk : Walk v g r x
  walk = elim (Bool-cases (is_present (v.mem r (above 3 x % 512)))) [
    | inr off ↦ Walk.stop4 off
    | inl on4 ↦
        let e4 = v.mem r (above 3 x % 512) in
        let (_, l3, s3, o3) =
          (w.table r (omega (arith, root))).child 2 _ root (user-Owned 2 x _ root u) on4 in
        elim (Bool-cases (is_present (v.mem (frame e4) (above 2 x % 512)))) [
          | inr off ↦ Walk.stop3 (frame e4) on4 refl off
          | inl on3 ↦
              let e3 = v.mem (frame e4) (above 2 x % 512) in
              let (h3, l2, s2, o2) =
                (w.table (frame e4) (omega (arith, l3))).child 1 _ l3 (user-Owned 1 x _ l3 u) on3 in
              elim (Bool-cases (is_present (v.mem (frame e3) (above 1 x % 512)))) [
                | inr off ↦ Walk.stop2 (frame e4) (frame e3) on4 refl on3 refl h3 off
                | inl on2 ↦
                    let e2 = v.mem (frame e3) (above 1 x % 512) in
                    let (h2, l1, s1, o1) =
                      (w.table (frame e3) (omega (arith, l2))).child 0 _ l2 (user-Owned 0 x _ l2 u)
                        on2 in
                    let (start, owner) = (w.table r (omega (arith, root))).root root in
                    Walk.reaches (frame e4) (frame e3) (frame e2)
                      (record {
                        on4 = on4;
                        to4 = refl;
                        on3 = on3;
                        to3 = refl;
                        on2 = on2;
                        to2 = refl;
                        root = root;
                        level3 = l3;
                        level2 = l2;
                        level1 = l1;
                        start = omega (arith, s1, s2, s3, start, u.1);
                        owner = o1 ∙ (o2 ∙ (o3 ∙ owner));
                      })
                      h3 h2
              ]
        ]
  ]

  -- What unmapping may do, by the entry of the page.
  abbrev pub Unmapping : Option ℕ → ℕ × Vmm → Type 0
  Unmapping none q = q ≡ (0, v)
  Unmapping (some e) (n, v') = (n ≡ frame e) × IsTree v' g × Changes v g v' r x none

  unmap-Unmapping :
      Walk v g r x
      → Unmapping (lookup v 4 r x) (
          through
            (below (v.mem r (above 3 x % 512)))
            (0, v)
            λ pdpt.
              through
                (below (v.mem pdpt (above 2 x % 512)))
                (0, v)
                λ pd.
                  through
                    (below (v.mem pd (above 1 x % 512)))
                    (0, v)
                    λ pt. unmap_leaf pt (x % 512) v)
  unfolding lookup unmap_leaf
  unmap-Unmapping (Walk.stop4 off) = rw off refl
  unmap-Unmapping (Walk.stop3 pdpt on4 to4 off) = rw (on4, to4) (rw off refl)
  unmap-Unmapping (Walk.stop2 pdpt pd on4 to4 on3 to3 h off) =
      rw (on4, to4) (rw (on3, to3) (rw off refl))
  unmap-Unmapping (Walk.reaches pdpt pd pt c h3 h2) =
      rw (c.on4, c.to4)
        (rw (c.on3, c.to3)
          (rw (c.on2, c.to2)
            (elim (Bool-cases (is_present (v.mem pt (x % 512)))) [
              | inr off ↦ rw off refl
              | inl on ↦ rw on (
                refl,
                write-IsTree v g w pt (x % 512) 0 c.level1,
                write-Changes v g r x pdpt pd pt 0 w c,
              )
            ])))

  resolve-steps :
      (off3 off2 off : ℕ)
      → Walk v g r x
      → (through (below (v.mem r (above 3 x % 512))) none λ pdpt.
          through (below (v.mem pdpt (above 2 x % 512))) none λ pd.
            if is_huge (v.mem pdpt (above 2 x % 512))
            then in_huge (v.mem pdpt (above 2 x % 512)) off3
            else through (below (v.mem pd (above 1 x % 512))) none λ pt.
              if is_huge (v.mem pd (above 1 x % 512))
              then in_huge (v.mem pd (above 1 x % 512)) off2
              else in_page (v.mem pt (x % 512)) off)
        ≡ Option.map (λ e. (bit_or (frame e) off, e)) (lookup v 4 r x)
  unfolding lookup
  resolve-steps off3 off2 off (Walk.stop4 o) = rw o refl
  resolve-steps off3 off2 off (Walk.stop3 pdpt on4 to4 o) = rw (on4, to4) (rw o refl)
  resolve-steps off3 off2 off (Walk.stop2 pdpt pd on4 to4 on3 to3 h o) =
      rw (on4, to4) (rw (on3, to3) (rw (h, o) refl))
  resolve-steps off3 off2 off (Walk.reaches pdpt pd pt c h3 h2) =
      rw (c.on4, c.to4)
        (rw (c.on3, c.to3, h3)
          (rw (c.on2, c.to2, h2)
            (elim (Bool-cases (is_present (v.mem pt (x % 512)))) [
              | inr o ↦ rw o refl
              | inl on ↦ rw on refl
            ])))

-- In memory whose tables are trees, for an address of user space: `vmm_unmap_page` of a page without
-- an entry returns 0 and changes nothing; of a page with an entry it returns its frame, the page has no entry
-- then, every other page of user space of every space keeps its entry, and the tables stay trees.
pub unmap_page_lem :
    (v : Vmm) (g : Shape) (cr3 virt : ℕ) (w : IsTree v g) (root : g.level (root_of cr3) ≡ 4)
    (u : IsUser (page_of virt))
    → Unmapping v g
        (root_of cr3)
        (page_of virt)
        w
        root
        u
        (lookup v 4 (root_of cr3) (page_of virt))
        (unmap_page cr3 virt v)
unfolding unmap_page
unmap_page_lem v g cr3 virt w root u =
    let (e4, e3, e2, e1) = page_digits virt in
    rw (unmap_page, e4, e3, e2, e1)
      (unmap-Unmapping v g (root_of cr3) (page_of virt) w root u
        (walk v g (root_of cr3) (page_of virt) w root u))

-- In memory whose tables are trees, for an address of user space: `vmm_resolve` fails where the page
-- has no entry, and otherwise gives the frame of its entry with the offset in the page, and the entry.
pub resolve_lem :
    (v : Vmm) (g : Shape) (cr3 virt : ℕ)
    → IsTree v g
    → g.level (root_of cr3) ≡ 4
    → IsUser (page_of virt)
    → resolve cr3 virt v
      ≡ Option.map
          (λ e. (bit_or (frame e) (virt % 4096), e))
          (lookup v 4 (root_of cr3) (page_of virt))
unfolding resolve
resolve_lem v g cr3 virt w root u =
    let (e4, e3, e2, e1) = page_digits virt in
    rw (resolve, e4, e3, e2, e1)
      (resolve-steps v g (root_of cr3) (page_of virt) w root u _ _ _
        (walk v g (root_of cr3) (page_of virt) w root u))
