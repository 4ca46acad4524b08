-- ===== src/Vmm/Leaf.antt =====
-- Writing an entry of a table of pages changes the map of one page of one space.
use myos.Base.{
  ℕ, zero, suc, ◌+◌, ◌*◌, ◌%◌, ◌≡◌, ◌≢◌, refl, sym, ap, ◌∙◌, subst, true, false, none, some, ◌==◌,
  if◌then◌else◌, arith, inl, inr, Bool-cases, ◌&&◌, ◌⊎◌,
}
use myos.Vmm.{Vmm, frame, is_present, is_huge, write}
use myos.Vmm.Tree.{user-Owned, Shape, IsTree, lookup, above, IsUser}

-- Its page is that of a user, or anything: i is an index.
module _ (v : Vmm) (g : Shape) (w : IsTree v g) (pt i e : ℕ) (h : g.level pt ≡ 1) where
  abbrev after : Vmm
  after = write pt i e v

  mem_other : (t j : ℕ) → ((t == pt) && (j == i)) ≡ false → after.mem t j ≡ v.mem t j
  mem_other t j miss = ground arith

  upper : (t j m : ℕ) → g.level t ≡ suc (suc m) → after.mem t j ≡ v.mem t j
  upper t j m l = mem_other t j (ground (arith, l, h, λ (s : t ≡ pt). ap g.level s))

  pub write-IsTree : IsTree after g
  write-IsTree = record {
    table = λ t pos.
        let old = w.table t pos in
        record {
          page = old.page;
          inside = old.inside;
          used = old.used;
          top = old.top;
          child = λ k j l o on.
              let same = upper t j k l in
              subst
                (λ z.
                  (is_huge z ≡ false)
                  × (g.level (frame z) ≡ suc k)
                  × (g.start (frame z) ≡ g.start t * 512 + j)
                  × (g.owner (frame z) ≡ g.owner t))
                (sym same) (old.child k j l o (ap is_present (sym same) ∙ on));
          root = old.root;
        };
    pages = w.pages;
    page_zero = w.page_zero;
    few = w.few;
  }

  pub lookup-write_other :
      (n t x : ℕ)
      → g.level t ≡ n
      → g.start t ≡ above n x
      → IsUser x
      → (g.owner t ≡ g.owner pt → x ≢ g.start pt * 512 + i)
      → lookup after n t x ≡ lookup v n t x
  unfolding lookup
  lookup-write_other zero t x l st u ne = refl
  lookup-write_other (suc zero) t x l st u ne =
      let miss : ((t == pt) && (x % 512 == i)) ≡ false =
        low (Bool-cases ((t == pt) && (x % 512 == i))) in
      ap (λ z. if is_present z then some z else none) (mem_other t (x % 512) miss)
    where
      low :
          (((t == pt) && (x % 512 == i)) ≡ true) ⊎ (((t == pt) && (x % 512 == i)) ≡ false)
          → ((t == pt) && (x % 512 == i)) ≡ false
      low (inr miss) = miss
      low (inl hit) =
          let same : t ≡ pt = ground (arith, hit) in
          let digit : x % 512 ≡ i = ground (arith, hit) in
          absurd (ne (ap g.owner same) (omega (arith, st, ap g.start same, digit)))
  lookup-write_other (suc (suc m)) t x l st u ne =
      let j = above (suc m) x % 512 in
      ap (λ z. if is_present z then lookup after (suc m) (frame z) x else none) (upper t j m l)
      ∙ elim (Bool-cases (is_present (v.mem t j))) [
        | inr off ↦ rw off refl
        | inl on ↦
            let (_, level, start, owner) =
              (w.table t (omega (arith, l))).child m j l (user-Owned m x (g.level t) l u) on in
            rw on (
              lookup-write_other (suc m) (frame (v.mem t j)) x level (omega (arith, start, st)) u
                (λ same. ne (sym owner ∙ same)))
      ]
