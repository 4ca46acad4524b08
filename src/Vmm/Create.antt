-- ===== src/Vmm/Create.antt =====
-- Creating a space of the user.
use myos.Base.{
  ℕ, ◌/◌, ◌≤◌, ◌<◌, ◌≡◌, ◌≢◌, refl, sym, ap, ◌∙◌, subst, true, false, Option, none, some, ◌==◌,
  if◌then◌else◌, arith, inl, inr, Bool-cases, Option-cases, update, ◌⊎◌,
}
use myos.Base.Search.{First, first_from-First}
use mathlib.Core.Bool.{true≢false}
use myos.Pmm.{bit_test, alloc_pages}
use myos.Pmm.Alloc.{free_pages-alloc_pages}
use myos.Pmm.Count.{IsValid}
use myos.Vmm.{Vmm, max_user_spaces, write, alloc_zero_page}
use myos.Vmm.Fresh.{IsFull, Page, alloc_zero_page-Page}
use myos.Vmm.Spaces.{in_slot, find_space_slot, find_free_space_slot, enter, create_user_space}
use myos.Vmm.Refs.{count, refs_at, IsUnique, slot_hit}
use myos.Vmm.Lifetime.{Recount, enter-Recount}

-- A page that the allocator gives touches neither the list nor the kernel's root.
alloc_zero_page-same :
    (v : Vmm)
    → ((alloc_zero_page v).1.spaces ≡ v.spaces)
      × ((alloc_zero_page v).1.kernel_cr3 ≡ v.kernel_cr3)
      × (alloc_pages 1 v.pmm ≡ ((alloc_zero_page v).0, (alloc_zero_page v).1.pmm))
unfolding alloc_zero_page
alloc_zero_page-same v = elim (Bool-cases ((alloc_pages 1 v.pmm).0 == 0)) [
  | inl z ↦
      let none_left : (alloc_pages 1 v.pmm).0 ≡ 0 = ground (arith, z) in
      rw z (refl, refl, ap (λ n. (n, (alloc_pages 1 v.pmm).1)) none_left)
  | inr z ↦ rw z (refl, refl, refl)
]

-- The kernel's root and the roots of the live slots are pages in use.
pub record AreHeld (v : Vmm) : Type 0 where
  pub kernel : bit_test (v.kernel_cr3 / 4096) v.pmm ≡ true
  pub live :
      (i : ℕ)
      → i < max_user_spaces
      → 0 < (v.spaces i).refs
      → bit_test ((v.spaces i).cr3 / 4096) v.pmm ≡ true

-- A new space: a page that was free, entered with one reference; its first entry is the kernel's and it
-- has no other. Or none, where no page or no slot is free.
abbrev pub Created : Vmm → ℕ × Vmm → Type 0
Created v (c, v') =
    ((c ≡ 0)
      × (v'.spaces ≡ v.spaces)
      × ((k : ℕ) → bit_test k v'.pmm ≡ bit_test k v.pmm)
      × (IsFull v.pmm ⊎ ((i : ℕ) → i < max_user_spaces → 0 < (v.spaces i).refs)))
    ⊎ ((0 < c)
        × (bit_test (c / 4096) v.pmm ≡ false)
        × (bit_test (c / 4096) v'.pmm ≡ true)
        × Recount v c 1 v'
        × (count v.spaces c ≡ 0)
        × (v'.mem c 0 ≡ v.mem v.kernel_cr3 0)
        × ((i : ℕ) → 0 < i → v'.mem c i ≡ 0)
        × ((t i : ℕ) → t ≢ c → v'.mem t i ≡ v.mem t i))

Counted-none :
    (v : Vmm) (c : ℕ) → First (in_slot c v.spaces) 0 max_user_spaces none → count v.spaces c ≡ 0
unfolding count
Counted-none v c miss = elim (Option-cases (find_space_slot c v.spaces)) [
  | inl e ↦ ap (refs_at v.spaces) e
  | inr (i, e) ↦
      let (hit, _, h, _) =
        subst (First (in_slot c v.spaces) 0 max_user_spaces) e
          (first_from-First (in_slot c v.spaces) max_user_spaces 0 max_user_spaces refl) in
      absurd (true≢false (sym hit ∙ miss i (omega arith) h))
]

module _ (v : Vmm) (pages : IsValid v.pmm) (used : bit_test 0 v.pmm ≡ true)
    (few : v.pmm.total_pages_cnt ≤ 0x10_0000) (u : IsUnique v.spaces) (held : AreHeld v) (c : ℕ)
    (q : Vmm) (e : alloc_zero_page v ≡ (c, q)) (page : Page v q c) where
  -- A page that was free is no root.
  fresh : First (in_slot c v.spaces) 0 max_user_spaces none
  fresh k _ h = elim (Bool-cases (in_slot c v.spaces k)) [
    | inr miss ↦ miss
    | inl hit ↦
        let (at, pos) = slot_hit c v.spaces k hit in
        absurd (
          true≢false
            (sym (held.live k h pos) ∙ (ap (λ a. bit_test (a / 4096) v.pmm) at ∙ page.free)))
  ]

  not_kernel : v.kernel_cr3 ≢ c
  not_kernel z = true≢false (sym held.kernel ∙ (ap (λ a. bit_test (a / 4096) v.pmm) z ∙ page.free))

  -- The state after the kernel's entry is copied.
  abbrev copied : Vmm
  copied = write c 0 (q.mem q.kernel_cr3 0) q

  same : (q.spaces ≡ v.spaces) × (q.kernel_cr3 ≡ v.kernel_cr3) × (alloc_pages 1 v.pmm ≡ (c, q.pmm))
  same =
      subst
        (λ r.
          (r.1.spaces ≡ v.spaces)
          × (r.1.kernel_cr3 ≡ v.kernel_cr3)
          × (alloc_pages 1 v.pmm ≡ (r.0, r.1.pmm)))
        e (alloc_zero_page-same v)

  self : (a : ℕ) → (a == a) ≡ true
  self a = ground arith

  mem_self : (i : ℕ) → q.mem c i ≡ 0
  mem_self i = ap (λ m. m c i) page.mem ∙ (let r = self c in rw r refl)

  mem_other : (t i : ℕ) → t ≢ c → q.mem t i ≡ v.mem t i
  mem_other t i ne =
      ap (λ m. m t i) page.mem ∙ (let r : (t == c) ≡ false = ground (arith, ne) in rw r refl)

  kernel_entry_copied : copied.mem c 0 ≡ v.mem v.kernel_cr3 0
  kernel_entry_copied =
      let r = self c in rw r (ap (λ k. q.mem k 0) (same.1) ∙ mem_other v.kernel_cr3 0 not_kernel)

  no_other_entry : (i : ℕ) → 0 < i → copied.mem c i ≡ 0
  no_other_entry i h =
      let r = self c in let z : (i == 0) ≡ false = ground (arith, h) in rw r (rw z (mem_self i))

  others_kept : (t i : ℕ) → t ≢ c → copied.mem t i ≡ v.mem t i
  others_kept t i ne = let z : (t == c) ≡ false = ground (arith, ne) in rw z (mem_other t i ne)

  entered :
      (o : Option ℕ)
      → First (λ j. (v.spaces j).refs == 0) 0 max_user_spaces o
      → Created v (enter c o copied)
  entered none full = inl (
    refl,
    same.0,
    (free_pages-alloc_pages 1 c v.pmm q.pmm (omega arith) pages used (same.2)
        (λ z. omega (arith, z, page.nonzero))).0,
    inr (λ i h. ground (arith, full i (omega arith) h)),
  )
  entered (some i) free =
      let r = enter-Recount v c u i (record { cr3 = c; refs = 1 }) free fresh refl in
      inr (
        page.nonzero,
        page.free,
        page.used,
        subst
            (λ l.
              let l' = update l i (record { cr3 = c; refs = 1 }) in
              IsUnique l' × ((d : ℕ) → count l' d ≡ (if d == c then 1 else count v.spaces d)))
            (sym (same.0)) r,
        Counted-none v c fresh,
        kernel_entry_copied,
        no_other_entry,
        others_kept,
      )

  create-Created : Created v (create_user_space v)
  unfolding create_user_space
  create-Created =
      let z : (c == 0) ≡ false = ground (arith, page.nonzero) in
      let found : First (λ j. (v.spaces j).refs == 0) 0 max_user_spaces
          (find_free_space_slot q.spaces) =
        subst (λ l. First (λ j. (v.spaces j).refs == 0) 0 max_user_spaces (find_free_space_slot l))
          (sym (same.0))
          (first_from-First (λ j. (v.spaces j).refs == 0) max_user_spaces 0 max_user_spaces refl) in
      rw e (rw z (entered (find_free_space_slot q.spaces) found))

-- Where every live root has one slot, the kernel's root and every live root are pages in use, page 0
-- is in use and the page allocator is valid: `vmm_create_user_space` either returns 0, changes no slot
-- and keeps no page, and no page or no slot is free; or it returns a page that was free and is in
-- use now, enters it with one reference where it had none, changes no other count, copies the kernel's
-- first entry and leaves every other entry 0, and changes no other table.
pub create_user_space_lem :
    (v : Vmm)
    → IsValid v.pmm
    → bit_test 0 v.pmm ≡ true
    → v.pmm.total_pages_cnt ≤ 0x10_0000
    → IsUnique v.spaces
    → AreHeld v
    → Created v (create_user_space v)
unfolding create_user_space
create_user_space_lem v pages used few u held = elim (alloc_zero_page-Page v pages used few) [
  | inl (e, full) ↦ rw e (inl (refl, refl, λ k. refl, inl full))
  | inr (c, q, e, page) ↦ create-Created v pages used few u held c q e page
]
