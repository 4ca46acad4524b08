-- ===== src/Vmm/Tests.antt =====
-- Runs of the page tables, and the theorems at a concrete space.
use myos.Base.{
  ℕ, suc, ◌+◌, ◌*◌, ◌/◌, ◌<◌, ◌≡◌, refl, sym, ◌∙◌, subst, Bool, true, false, some, ◌==◌, ltb,
  if◌then◌else◌, arith, inl, inr, Bool-cases,
}
use myos.Pmm.{bit_test}
use myos.Pmm.Count.{IsValid, count_free}
use myos.Vmm.{
  Vmm, Space, frame, is_present, is_huge, map_page, unmap_page, resolve, ensure_table, map_leaf,
  unmap_leaf,
}
use myos.Vmm.Tree.{Shape, IsTable, IsTree, Owned, lookup, page_of}
use myos.Vmm.Pages.{Mapping, map_page_lem}
use mathlib.Core.Bool.{true≢false}
use myos.Vmm.Refs.{IsUnique}
use myos.Vmm.Spaces.{create_user_space, release_user_space}
use myos.Vmm.Create.{AreHeld, Created, create_user_space_lem}
use myos.Vmm.Lifetime.{Released, release_user_space_lem}
use myos.Vmm.Walk.{Unmapping, unmap_page_lem, resolve_lem}

-- A root at page 1, its tables at pages 2 to 4, and one page of the user, at page 5.
abbrev entries : ℕ → ℕ → ℕ
entries t i =
    if t == 0x1000
    then (if i == 1 then 0x2007 else 0)
    else if t == 0x2000
    then (if i == 0 then 0x3007 else 0)
    else if t == 0x3000
    then (if i == 0 then 0x4007 else 0)
    else if i == 0
    then 0x5007
    else 0

abbrev small : Vmm
small = record {
  pmm = record {
    bitmap = λ i. if i == 0 then 63 else if ltb i 4 then 0 else 255;
    free_pages_cnt = 26;
    total_pages_cnt = 32;
    ready = true;
  };
  mem = entries;
  kernel_cr3 = 0;
  spaces = λ _. record { cr3 = 0; refs = 0 };
}

abbrev levels : ℕ → ℕ
levels t =
    if t == 0x1000
    then 4
    else if t == 0x2000
    then 3
    else if t == 0x3000
    then 2
    else if t == 0x4000
    then 1
    else 0

abbrev starts : ℕ → ℕ
starts t =
    if t == 0x1000 then 0 else if t == 0x2000 then 1 else if t == 0x3000 then 512 else 0x4_0000

abbrev shape : Shape
shape = record { level = levels; start = starts; owner = λ _. 0x1000 }

small-IsValid : IsValid small.pmm
unfolding count_free bit_test
small-IsValid = record { bytes = λ i. ground arith; counted = refl; is_ready = refl }

abbrev HasChild : ℕ → Type 0
HasChild t =
    (k i : ℕ)
    → levels t ≡ suc (suc k)
    → Owned (levels t) i
    → is_present (entries t i) ≡ true
    → (is_huge (entries t i) ≡ false)
      × (levels (frame (entries t i)) ≡ suc k)
      × (starts (frame (entries t i)) ≡ starts t * 512 + i)
      × (Path ℕ 0x1000 0x1000)

HasChild-at_1 : HasChild 0x1000
HasChild-at_1 k i l o on = elim (Bool-cases (i == 1)) [
  | inl e ↦ let here : i ≡ 1 = ground arith in rw here (refl, omega (arith, l), refl, refl)
  | inr e ↦ ground (arith, on, e)
]

HasChild-at_2 : HasChild 0x2000
HasChild-at_2 k i l o on = elim (Bool-cases (i == 0)) [
  | inl e ↦ let here : i ≡ 0 = ground arith in rw here (refl, omega (arith, l), refl, refl)
  | inr e ↦ ground (arith, on, e)
]

HasChild-at_3 : HasChild 0x3000
HasChild-at_3 k i l o on = elim (Bool-cases (i == 0)) [
  | inl e ↦ let here : i ≡ 0 = ground arith in rw here (refl, omega (arith, l), refl, refl)
  | inr e ↦ ground (arith, on, e)
]

small-IsTable : (t : ℕ) → 0 < levels t → IsTable small shape t
unfolding bit_test
small-IsTable t h = elim (Bool-cases (t == 0x1000)) [
  | inl e ↦
      let here : t ≡ 0x1000 = ground arith in
      rw here (record {
        page = refl;
        inside = omega arith;
        used = refl;
        top = omega arith;
        child = HasChild-at_1;
        root = λ _. (refl, refl);
      })
  | inr e1 ↦ elim (Bool-cases (t == 0x2000)) [
    | inl e ↦
        let here : t ≡ 0x2000 = ground arith in
        rw here (record {
          page = refl;
          inside = omega arith;
          used = refl;
          top = omega arith;
          child = HasChild-at_2;
          root = λ z. omega (arith, z);
        })
    | inr e2 ↦ elim (Bool-cases (t == 0x3000)) [
      | inl e ↦
          let here : t ≡ 0x3000 = ground arith in
          rw here (record {
            page = refl;
            inside = omega arith;
            used = refl;
            top = omega arith;
            child = HasChild-at_3;
            root = λ z. omega (arith, z);
          })
      | inr e3 ↦ elim (Bool-cases (t == 0x4000)) [
        | inl e ↦
            let here : t ≡ 0x4000 = ground arith in
            rw here (record {
              page = refl;
              inside = omega arith;
              used = refl;
              top = omega arith;
              child = λ k i z o on. absurd (omega (arith, z));
              root = λ z. omega (arith, z);
            })
        | inr e4 ↦ ground (arith, h, e1, e2, e3, e4)
      ]
    ]
  ]
]

small-IsTree : IsTree small shape
unfolding bit_test
small-IsTree = record {
  table = small-IsTable;
  pages = small-IsValid;
  page_zero = refl;
  few = omega arith;
}

abbrev user_page : ℕ
user_page = 0x80_0000_0000

-- The next page takes the same tables, a page far away takes three new ones.
mapped_near : (map_page 0x1000 (user_page + 0x1000) 0x5000 7 small).0 ≡ true
unfolding map_page ensure_table map_leaf
mapped_near = refl

mapped_twice : (map_page 0x1000 user_page 0x5000 7 small).0 ≡ false
unfolding map_page ensure_table map_leaf
mapped_twice = refl

unmapped : (unmap_page 0x1000 user_page small).0 ≡ 0x5000
unfolding unmap_page unmap_leaf
unmapped = refl

map_page_lem_example :
    Mapping small shape 0x1000
      (page_of (user_page + 0x1000))
      0x6007
      (map_page 0x1000 (user_page + 0x1000) 0x6000 6 small)
map_page_lem_example =
    map_page_lem small shape 0x1000 (user_page + 0x1000) 0x6000 6 small-IsTree refl
      (omega arith, omega arith) refl

unmap_page_lem_example :
    Unmapping small shape 0x1000
      (page_of user_page)
      small-IsTree
      refl
      (omega arith, omega arith)
      (some 0x5007)
      (unmap_page 0x1000 user_page small)
unfolding lookup
unmap_page_lem_example =
    unmap_page_lem small shape 0x1000 user_page small-IsTree refl (omega arith, omega arith)

resolve_lem_example : resolve 0x1000 (user_page + 0x123) small ≡ some (0x5123, 0x5007)
unfolding lookup
resolve_lem_example =
    resolve_lem small shape 0x1000 (user_page + 0x123) small-IsTree refl (omega arith, omega arith)

abbrev entered : Space
entered = record { cr3 = 0x1000; refs = 1 }

abbrev vacant : Space
vacant = record { cr3 = 0; refs = 0 }

-- One space in the list, its root at page 1, and the kernel's root at page 5.
abbrev listed : Vmm
listed = record small { kernel_cr3 = 0x5000; spaces = λ i. if i == 3 then entered else vacant }

listed_slot : (i : ℕ) → 0 < (listed.spaces i).refs → i ≡ 3
listed_slot i h = elim (Bool-cases (i == 3)) [
  | inl e ↦ ground (arith, e)
  | inr e ↦ absurd (no_refs (i == 3) e h)
]
  where
    no_refs : (b : Bool) → b ≡ false → 0 < (if b then entered else vacant).refs → ⊥
    no_refs true e h = true≢false e
    no_refs false e h = omega (arith, h)

listed-IsUnique : IsUnique listed.spaces
listed-IsUnique i j a b x y e = listed_slot i x ∙ sym (listed_slot j y)

listed-AreHeld : AreHeld listed
unfolding bit_test
listed-AreHeld = record {
  kernel = refl;
  live = λ i a h.
      subst (λ k. bit_test ((listed.spaces k).cr3 / 4096) listed.pmm ≡ true) (sym (listed_slot i h))
        refl;
}

listed_page_0 : bit_test 0 listed.pmm ≡ true
unfolding bit_test
listed_page_0 = refl

create_user_space_lem_example : Created listed (create_user_space listed)
create_user_space_lem_example =
    create_user_space_lem listed small-IsValid listed_page_0 (omega arith) listed-IsUnique
      listed-AreHeld

listed-IsTree : IsTree listed shape
listed-IsTree = record {
  table = λ t h.
      let at = small-IsTree.table t h in
      record {
        page = at.page;
        inside = at.inside;
        used = at.used;
        top = at.top;
        child = at.child;
        root = at.root;
      };
  pages = small-IsTree.pages;
  page_zero = small-IsTree.page_zero;
  few = small-IsTree.few;
}

release_user_space_lem_example :
    Released listed shape 0x1000 listed-IsUnique listed-IsTree refl refl
      (release_user_space 0x1000 listed)
release_user_space_lem_example =
    release_user_space_lem listed shape 0x1000 listed-IsUnique listed-IsTree refl refl
