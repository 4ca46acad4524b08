-- ===== src/Vmm/Grow.antt =====
-- Memory that has one table more, below an entry that was missing.
use myos.Base.{
  ℕ, zero, suc, ◌+◌, ◌*◌, ◌/◌, ◌%◌, ◌≤◌, ◌<◌, ◌≡◌, ◌≢◌, refl, sym, ap, ap₂, ◌∙◌, subst, Bool, true,
  false, Option, none, some, ◌==◌, if◌then◌else◌, arith, inl, inr, Bool-cases, update, ◌&&◌,
}
use myos.Pmm.{bit_test}
use myos.Pmm.Count.{IsValid}
use myos.Vmm.{Vmm, frame, is_present, is_huge}
use myos.Vmm.Tree.{user-Owned, Shape, IsTable, IsTree, Owned, lookup, above, IsUser}

-- What a change of memory keeps of a shape: its tables, its roots, and the map of every space.
pub record Extends (v : Vmm) (g : Shape) (v' : Vmm) (g' : Shape) : Type 0 where
  pub tree : IsTree v' g'
  pub level : (t : ℕ) → 0 < g.level t → g'.level t ≡ g.level t
  pub start : (t : ℕ) → 0 < g.level t → g'.start t ≡ g.start t
  pub owner : (t : ℕ) → 0 < g.level t → g'.owner t ≡ g.owner t
  pub roots : (t : ℕ) → g'.level t ≡ 4 → g.level t ≡ 4
  pub entries : (t i : ℕ) → 0 < g.level t → is_present (v.mem t i) ≡ true → v'.mem t i ≡ v.mem t i
  pub same : (n t x : ℕ) → g.level t ≡ n → IsUser x → lookup v' n t x ≡ lookup v n t x

pub Extends-refl : (v : Vmm) (g : Shape) → IsTree v g → Extends v g v g
Extends-refl v g w = record {
  tree = w;
  level = λ t h. refl;
  start = λ t h. refl;
  owner = λ t h. refl;
  roots = λ t h. h;
  entries = λ t i h p. refl;
  same = λ n t x h u. refl;
}

if_none : (b : Bool) (o : Option ℕ) → o ≡ none → (if b then o else none) ≡ none
if_none true o e = e
if_none false o e = refl

lookup-zero : (v : Vmm) (n c x : ℕ) → ((j : ℕ) → v.mem c j ≡ 0) → lookup v n c x ≡ none
unfolding lookup
lookup-zero v zero c x z = refl
lookup-zero v (suc zero) c x z = rw (z (x % 512)) refl
lookup-zero v (suc (suc k)) c x z = rw (z (above (suc k) x % 512)) refl

-- A fresh page c below the i-th entry of t, which was missing.
pub record Grown (v : Vmm) (g : Shape) (v' : Vmm) (t i c k : ℕ) : Type 0 where
  pub tree : IsTree v g
  pub parent : g.level t ≡ suc (suc k)
  pub owned : Owned (g.level t) i
  pub absent : is_present (v.mem t i) ≡ false
  pub fresh : g.level c ≡ 0
  pub page : c % 4096 ≡ 0
  pub inside : c < 0x10_0000_0000_0000
  pub used : bit_test (c / 4096) v'.pmm ≡ true
  pub kept : (j : ℕ) → bit_test j v.pmm ≡ true → bit_test j v'.pmm ≡ true
  pub pages : IsValid v'.pmm
  pub few : v'.pmm.total_pages_cnt ≤ 0x10_0000
  pub present : is_present (v'.mem t i) ≡ true
  pub points : frame (v'.mem t i) ≡ c
  pub small : is_huge (v'.mem t i) ≡ false
  pub zeroed : (j : ℕ) → v'.mem c j ≡ 0
  pub others : (t' j : ℕ) → t' ≢ c → ((t' == t) && (j == i)) ≡ false → v'.mem t' j ≡ v.mem t' j

abbrev pub grown : Shape → ℕ → ℕ → ℕ → ℕ → Shape
grown g t i c k = record {
  level = update g.level c (suc k);
  start = update g.start c (g.start t * 512 + i);
  owner = update g.owner c (g.owner t);
}

module _ (v : Vmm) (g : Shape) (v' : Vmm) (t i c k : ℕ) (w : Grown v g v' t i c k) where
  table-ne : (t' : ℕ) → 0 < g.level t' → t' ≢ c
  table-ne t' h e = omega (arith, ap g.level e, w.fresh)

  grown_same : (n t' x : ℕ) → g.level t' ≡ n → IsUser x → lookup v' n t' x ≡ lookup v n t' x
  unfolding lookup
  grown_same zero t' x h u = refl
  grown_same (suc zero) t' x h u =
      let low : ((t' == t) && (x % 512 == i)) ≡ false =
        ground (arith, h, w.parent, λ (e : t' ≡ t). ap g.level e) in
      let e = w.others t' (x % 512) (table-ne t' (omega (arith, h))) low in
      ap (λ z. if is_present z then some z else none) e
  grown_same (suc (suc m)) t' x h u =
      let j = above (suc m) x % 512 in
      let pos : 0 < g.level t' = omega (arith, h) in
      elim (Bool-cases ((t' == t) && (j == i))) [
        | inl hit ↦
            let same_t : t ≡ t' = ground (arith, hit) in
            let same_i : i ≡ j = ground (arith, hit) in
            let missing : is_present (v.mem t' j) ≡ false =
              ap₂ (λ a b. is_present (v.mem a b)) (sym same_t) (sym same_i) ∙ w.absent in
            let to_c : frame (v'.mem t' j) ≡ c =
              ap₂ (λ a b. frame (v'.mem a b)) (sym same_t) (sym same_i) ∙ w.points in
            rw missing (
              if_none (is_present (v'.mem t' j)) (lookup v' (suc m) (frame (v'.mem t' j)) x)
                (ap (λ z. lookup v' (suc m) z x) to_c ∙ lookup-zero v' (suc m) c x w.zeroed))
        | inr miss ↦
            let e = w.others t' j (table-ne t' pos) miss in
            ap (λ z. if is_present z then lookup v' (suc m) (frame z) x else none) e
            ∙ elim (Bool-cases (is_present (v.mem t' j))) [
              | inr off ↦ rw off refl
              | inl on ↦
                  let sub =
                    ((w.tree.table t' pos).child m j h (user-Owned m x (g.level t') h u) on).1 in
                  rw on (grown_same (suc m) (frame (v.mem t' j)) x sub u)
            ]
      ]

  abbrev g' : Shape
  g' = grown g t i c k

  pub old_level : (t' : ℕ) → t' ≢ c → g'.level t' ≡ g.level t'
  old_level t' ne = ground arith

  pub old_start : (t' : ℕ) → t' ≢ c → g'.start t' ≡ g.start t'
  old_start t' ne = ground arith

  pub old_owner : (t' : ℕ) → t' ≢ c → g'.owner t' ≡ g.owner t'
  old_owner t' ne = ground arith

  pub new_level : g'.level c ≡ suc k
  new_level = ground arith

  pub new_start : g'.start c ≡ g.start t * 512 + i
  new_start = ground arith

  pub new_owner : g'.owner c ≡ g.owner t
  new_owner = ground arith

  Child : ℕ → ℕ → ℕ → Type 0
  Child m t' j =
      (is_huge (v'.mem t' j) ≡ false)
      × (g'.level (frame (v'.mem t' j)) ≡ suc m)
      × (g'.start (frame (v'.mem t' j)) ≡ g'.start t' * 512 + j)
      × (g'.owner (frame (v'.mem t' j)) ≡ g'.owner t')

  -- The entry that was made, and an entry that was there.
  Child-new : (m : ℕ) → g.level t ≡ suc (suc m) → Child m t i
  unfolding Child
  Child-new m h =
      let tc = table-ne t (omega (arith, h)) in
      let level : suc k ≡ suc m = omega (arith, h, w.parent) in
      (
        w.small,
        ap g'.level w.points ∙ (new_level ∙ level),
        ap g'.start w.points ∙ (new_start ∙ ap (λ a. a * 512 + i) (sym (old_start t tc))),
        ap g'.owner w.points ∙ (new_owner ∙ sym (old_owner t tc)),
      )

  Child-old :
      (m t' j : ℕ)
      → g.level t' ≡ suc (suc m)
      → Owned (g.level t') j
      → v'.mem t' j ≡ v.mem t' j
      → is_present (v.mem t' j) ≡ true
      → Child m t' j
  unfolding Child
  Child-old m t' j h o e on =
      let tc = table-ne t' (omega (arith, h)) in
      let (small, level, start, owner) = (w.tree.table t' (omega (arith, h))).child m j h o on in
      let fc = table-ne (frame (v.mem t' j)) (omega (arith, level)) in
      (
        ap is_huge e ∙ small,
        ap (λ z. g'.level (frame z)) e ∙ (old_level (frame (v.mem t' j)) fc ∙ level),
        ap (λ z. g'.start (frame z)) e
            ∙ (old_start (frame (v.mem t' j)) fc
                ∙ (start ∙ ap (λ a. a * 512 + j) (sym (old_start t' tc)))),
        ap (λ z. g'.owner (frame z)) e
            ∙ (old_owner (frame (v.mem t' j)) fc ∙ (owner ∙ sym (old_owner t' tc))),
      )

  Child-any :
      (m t' j : ℕ)
      → g.level t' ≡ suc (suc m)
      → Owned (g.level t') j
      → is_present (v'.mem t' j) ≡ true
      → Child m t' j
  Child-any m t' j h o on = elim (Bool-cases ((t' == t) && (j == i))) [
    | inl hit ↦
        let same_t : t ≡ t' = ground (arith, hit) in
        let same_i : i ≡ j = ground (arith, hit) in
        subst (λ a. Child m a j) same_t
          (subst (Child m t) same_i (Child-new m (ap g.level same_t ∙ h)))
    | inr miss ↦
        let e = w.others t' j (table-ne t' (omega (arith, h))) miss in
        Child-old m t' j h o e (ap is_present (sym e) ∙ on)
  ]

  IsTable-new : IsTable v' g' c
  IsTable-new = record {
    page = w.page;
    inside = w.inside;
    used = w.used;
    top = omega (arith, new_level, w.parent, (w.tree.table t (omega (arith, w.parent))).top);
    child = λ m j h o on. ground (arith, ap is_present (w.zeroed j), on);
    root = λ h.
        absurd
          (omega (arith, h, new_level, w.parent, (w.tree.table t (omega (arith, w.parent))).top));
  }

  IsTable-old : (t' : ℕ) → 0 < g.level t' → IsTable v' g' t'
  unfolding Child
  IsTable-old t' pos =
      let tc = table-ne t' pos in
      let old = w.tree.table t' pos in
      let level = old_level t' tc in
      record {
        page = old.page;
        inside = old.inside;
        used = w.kept (t' / 4096) old.used;
        top = omega (arith, level, old.top);
        child = λ m j h o on. Child-any m t' j (sym level ∙ h) (o.0, λ e. o.1 (level ∙ e)) on;
        root = λ h.
            let (start, owner) = old.root (sym level ∙ h) in
            (old_start t' tc ∙ start, old_owner t' tc ∙ owner);
      }

  grown-IsTree : IsTree v' g'
  grown-IsTree = record {
    table = λ t' pos. elim (Bool-cases (t' == c)) [
      | inl e ↦ let same : c ≡ t' = ground arith in subst (IsTable v' g') same IsTable-new
      | inr e ↦
          let ne : t' ≢ c = ground arith in IsTable-old t' (omega (arith, old_level t' ne, pos))
    ];
    pages = w.pages;
    page_zero = w.kept 0 w.tree.page_zero;
    few = w.few;
  }

  pub grown-Extends : Extends v g v' g'
  grown-Extends = record {
    tree = grown-IsTree;
    level = λ t' pos. old_level t' (table-ne t' pos);
    start = λ t' pos. old_start t' (table-ne t' pos);
    owner = λ t' pos. old_owner t' (table-ne t' pos);
    roots = λ t' h. elim (Bool-cases (t' == c)) [
      | inl e ↦
          let same : c ≡ t' = ground arith in
          absurd (
            omega (
              arith,
              ap g'.level same ∙ h,
              new_level,
              w.parent,
              (w.tree.table t (omega (arith, w.parent))).top,
            ))
      | inr e ↦ let ne : t' ≢ c = ground arith in sym (old_level t' ne) ∙ h
    ];
    entries = λ t' j pos on. w.others t' j (table-ne t' pos) (
        ground (
          arith,
          on,
          w.absent,
          λ (a : t' ≡ t) (b : j ≡ i). ap₂ (λ x y. is_present (v.mem x y)) a b,
        ));
    same = grown_same;
  }
