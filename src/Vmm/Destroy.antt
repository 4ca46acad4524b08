-- ===== src/Vmm/Destroy.antt =====
-- What `vmm_destroy_user_space` of src/vmm.c gives back and clears, against the trees of page tables.
use mathlib.Core.Bool.{true≢false}
use myos.Base.{
  ℕ, suc, ◌*◌, ◌/◌, ◌≤◌, ◌<◌, ◌≡◌, ◌≢◌, refl, sym, ◌∙◌, subst, true, false, if◌then◌else◌, arith,
  inl, inr, Bool-cases, ◌⊎◌,
}
use myos.Pmm.{bit_test}
use myos.Pmm.Count.{IsValid}
use myos.Vmm.{Vmm, frame, is_present, is_huge}
use myos.Vmm.Entry.{frame_of_page}
use myos.Vmm.Tree.{Shape, Owned, IsTree}
use myos.Vmm.Spaces.{give_frame, free_pt, free_pd, free_pdpt, is_kernel, destroy_user_space}
use myos.Vmm.GiveBack.{Gives, Cell, Ok, Gave, give_frame-Gave}
use myos.Vmm.Clear.{table-Gave}

module _ (v : Vmm) (g : Shape) (r : ℕ) where
  module _ (tree : IsTree v g) where
    -- A table that an entry of the space leads to.
    below_entry :
        (k t i : ℕ)
        → g.level t ≡ suc (suc k)
        → Owned (suc (suc k)) i
        → is_present (v.mem t i) ≡ true
        → (is_huge (v.mem t i) ≡ false)
          × (g.level (frame (v.mem t i)) ≡ suc k)
          × (g.owner (frame (v.mem t i)) ≡ g.owner t)
    below_entry k t i l o here =
        let at = tree.table t (omega (arith, l)) in
        let (a, b, _, c) = at.child k i l (subst (λ m. Owned m i) (sym l) o) here in (a, b, c)

    free_pt-Gave :
        (t : ℕ)
        → g.level t ≡ 1
        → g.owner t ≡ r
        → ((p : ℕ) → Gives v 1 t p → Gives v 4 r p)
        → (w : Vmm) → Ok v g r w
        → Gave v g r (Gives v 1 t) w (free_pt t w)
    unfolding free_pt
    free_pt-Gave t l own up w ok =
        table-Gave v g r (give_frame 1) 0 t l own
          (λ i o here w' ok'.
            give_frame-Gave v g r (v.mem t i) w' (up (frame (v.mem t i)) (inr (i, o, here, refl)))
              ok')
          512 0 w (omega arith) (λ e. omega (arith, e)) (λ j o. omega arith) (up t (inl refl)) ok

    free_pd-Gave :
        (t : ℕ)
        → g.level t ≡ 2
        → g.owner t ≡ r
        → ((p : ℕ) → Gives v 2 t p → Gives v 4 r p)
        → (w : Vmm) → Ok v g r w
        → Gave v g r (Gives v 2 t) w (free_pd t w)
    unfolding free_pd
    free_pd-Gave t l own up w ok =
        table-Gave v g r (λ e v'. if is_huge e then give_frame 512 e v' else free_pt (frame e) v') 1
          t l own
          (λ i o here w' ok'.
            let (huge, level, owner) = below_entry 0 t i l o here in
            rw huge (
              free_pt-Gave (frame (v.mem t i)) level (owner ∙ own)
                (λ p x. up p (inr (i, o, here, x))) w' ok'))
          512 0 w (omega arith) (λ e. omega (arith, e)) (λ j o. omega arith) (up t (inl refl)) ok

    free_pdpt-Gave :
        (t : ℕ)
        → g.level t ≡ 3
        → g.owner t ≡ r
        → ((p : ℕ) → Gives v 3 t p → Gives v 4 r p)
        → (w : Vmm) → Ok v g r w
        → Gave v g r (Gives v 3 t) w (free_pdpt t w)
    unfolding free_pdpt
    free_pdpt-Gave t l own up w ok =
        table-Gave v g r
          (λ e v'. if is_huge e then give_frame (512 * 512) e v' else free_pd (frame e) v') 2 t l
          own
          (λ i o here w' ok'.
            let (huge, level, owner) = below_entry 1 t i l o here in
            rw huge (
              free_pd-Gave (frame (v.mem t i)) level (owner ∙ own)
                (λ p x. up p (inr (i, o, here, x))) w' ok'))
          512 0 w (omega arith) (λ e. omega (arith, e)) (λ j o. omega arith) (up t (inl refl)) ok

    destroy-Gave :
        g.level r ≡ 4 → is_kernel r v ≡ false → Gave v g r (Gives v 4 r) v (destroy_user_space r v)
    unfolding destroy_user_space
    destroy-Gave l other =
        let at = tree.table r (omega (arith, l)) in
        let same : frame r ≡ r = frame_of_page r at.page at.inside in
        let own : g.owner r ≡ r = (at.root l).1 in
        rw (other, same)
          (table-Gave v g r (λ e. free_pdpt (frame e)) 3 r l own
            (λ i o here w' ok'.
              let (huge, level, owner) = below_entry 2 r i l o here in
              free_pdpt-Gave (frame (v.mem r i)) level (owner ∙ own) (λ p x. inr (i, o, here, x)) w'
                ok')
            511 1 v (omega arith) (λ e. omega arith) (λ j o. omega (arith, o.1 refl)) (inl refl)
            (record {
              cell = λ t i. inl refl;
              valid = tree.pages;
              total = refl;
              only = λ q x. inl x;
            }))

-- The space of the root r is gone: every page of its tree that is tracked is free, but for the page at 0;
-- no other page changes; the entries of its tables are as they were or cleared; and the
-- kernel's entry and the tables of all other spaces are as they were.
pub record Destroyed (v : Vmm) (g : Shape) (r : ℕ) (v' : Vmm) : Type 0 where
  pub freed :
      (p : ℕ)
      → Gives v 4 r p
      → (p ≡ 0) ⊎ (v.pmm.total_pages_cnt ≤ p / 4096) ⊎ (bit_test (p / 4096) v'.pmm ≡ false)
  pub others :
      (q : ℕ) → (bit_test q v'.pmm ≡ bit_test q v.pmm) ⊎ ((p : ℕ) × Gives v 4 r p × (p / 4096 ≡ q))
  pub valid : IsValid v'.pmm
  pub cleared : (t i : ℕ) → (v'.mem t i ≡ v.mem t i) ⊎ (v'.mem t i ≡ 0)
  pub kernel : v'.mem r 0 ≡ v.mem r 0
  pub elsewhere : (t i : ℕ) → g.owner t ≢ r → v'.mem t i ≡ v.mem t i

pub destroy-Destroyed :
    (v : Vmm) (g : Shape) (r : ℕ)
    → IsTree v g
    → g.level r ≡ 4
    → is_kernel r v ≡ false
    → Destroyed v g r (destroy_user_space r v)
destroy-Destroyed v g r tree l other =
    let f = destroy-Gave v g r tree l other in
    record {
      freed = f.freed;
      others = λ q.
          others q f.more f.ok.only (Bool-cases (bit_test q v.pmm))
            (Bool-cases (bit_test q v'.pmm));
      valid = f.ok.valid;
      cleared = λ t i. cleared t i (f.ok.cell t i);
      kernel = kernel (f.ok.cell r 0);
      elsewhere = λ t i ne. elsewhere t i ne (f.ok.cell t i);
    }
  where
    v' : Vmm
    v' = destroy_user_space r v

    others :
        (q : ℕ)
        → ((k : ℕ) → bit_test k v.pmm ≡ false → bit_test k v'.pmm ≡ false)
        → ((k : ℕ)
            → bit_test k v'.pmm ≡ false
            → (bit_test k v.pmm ≡ false) ⊎ ((p : ℕ) × Gives v 4 r p × (p / 4096 ≡ k)))
        → ((bit_test q v.pmm ≡ true) ⊎ (bit_test q v.pmm ≡ false))
        → ((bit_test q v'.pmm ≡ true) ⊎ (bit_test q v'.pmm ≡ false))
        → (bit_test q v'.pmm ≡ bit_test q v.pmm) ⊎ ((p : ℕ) × Gives v 4 r p × (p / 4096 ≡ q))
    others q more only (inr a) b = inl (more q a ∙ sym a)
    others q more only (inl a) (inl b) = inl (b ∙ sym a)
    others q more only (inl a) (inr b) = elim (only q b) [
      | inl c ↦ absurd (true≢false (sym a ∙ c))
      | inr c ↦ inr c
    ]

    cleared : (t i : ℕ) → Cell v g r t i v' → (v'.mem t i ≡ v.mem t i) ⊎ (v'.mem t i ≡ 0)
    cleared t i (inl e) = inl e
    cleared t i (inr (k, z, _, _, _, _)) = inr z

    kernel : Cell v g r r 0 v' → v'.mem r 0 ≡ v.mem r 0
    kernel (inl e) = e
    kernel (inr (k, z, m, o, _, _)) =
        absurd (let zero_low : 0 < 0 = o.1 (sym m ∙ l) in omega (arith, zero_low))

    elsewhere : (t i : ℕ) → g.owner t ≢ r → Cell v g r t i v' → v'.mem t i ≡ v.mem t i
    elsewhere t i ne (inl e) = e
    elsewhere t i ne (inr (k, z, m, o, own, _)) = absurd (ne own)
