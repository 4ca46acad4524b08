-- ===== src/Vmm/GiveBack.antt =====
-- Giving back the pages of a space, as `vmm_destroy_user_space` of src/vmm.c does: what holds on the way.
use myos.Base.{
  ℕ, zero, suc, ◌+◌, ◌/◌, ◌≤◌, ◌<◌, ◌≡◌, refl, sym, ap, ◌∙◌, subst, Bool, true, false, ◌==◌, ltb,
  leb, min, if◌then◌else◌, arith, inl, inr, Bool-cases, ◌⊎◌, ◌&&◌,
}
use myos.Pmm.{bit_test, free_pages}
use myos.Pmm.Count.{IsValid}
use myos.Pmm.Alloc.{free_pages_lem, free_pages-zero}
use myos.Vmm.{Vmm, frame, is_present}
use myos.Vmm.Tree.{Shape, Owned}
use myos.Vmm.Spaces.{give_back, give_frame}

-- The pages of a tree, from a table of a level on: its own, those of the tables below it, and those that
-- the tables of level 1 map. Not the kernel's, which a root's first entry leads to.
abbrev pub Gives : Vmm → ℕ → ℕ → ℕ → Type 0
Gives v zero t p = p ≡ t
Gives v (suc k) t p =
    (p ≡ t)
    ⊎ ((i : ℕ) × Owned (suc k) i
        × (is_present (v.mem t i) ≡ true)
        × Gives v k (frame (v.mem t i)) p)

within : (a q n : ℕ) → (leb a q && ltb q (min (a + 1) n)) ≡ true → a ≡ q
within a q n e = ground (arith, e)

cleared_bit : (b x : Bool) → x ≡ false → (if b then false else x) ≡ false
cleared_bit true x e = refl
cleared_bit false x e = e

module _ (v : Vmm) (g : Shape) (r : ℕ) where
  -- A page is free, where there is one to free: not the page at 0, and one that is tracked.
  abbrev pub IsFreed : ℕ → Vmm → Type 0
  IsFreed p w = (p ≡ 0) ⊎ (v.pmm.total_pages_cnt ≤ p / 4096) ⊎ (bit_test (p / 4096) w.pmm ≡ false)

  -- An entry is as it was; or it is one of the space r, cleared, and all pages below it are free.
  abbrev pub Cell : ℕ → ℕ → Vmm → Type 0
  Cell t i w =
      (w.mem t i ≡ v.mem t i)
      ⊎ ((k : ℕ) × (w.mem t i ≡ 0)
          × (g.level t ≡ suc k)
          × Owned (suc k) i
          × (g.owner t ≡ r)
          × ((p : ℕ) → Gives v k (frame (v.mem t i)) p → IsFreed p w))

  -- On the way of the destruction of the space r.
  pub record Ok (w : Vmm) : Type 0 where
    pub cell : (t i : ℕ) → Cell t i w
    pub valid : IsValid w.pmm
    pub total : w.pmm.total_pages_cnt ≡ v.pmm.total_pages_cnt
    pub only :
        (q : ℕ)
        → bit_test q w.pmm ≡ false
        → (bit_test q v.pmm ≡ false) ⊎ ((p : ℕ) × Gives v 4 r p × (p / 4096 ≡ q))

  -- A step that gives some pages back.
  pub record Gave (gives : ℕ → Type 0) (w w' : Vmm) : Type 0 where
    pub ok : Ok w'
    pub more : (q : ℕ) → bit_test q w.pmm ≡ false → bit_test q w'.pmm ≡ false
    pub freed : (p : ℕ) → gives p → IsFreed p w'

  pub IsFreed-more :
      (w w' : Vmm)
      → ((q : ℕ) → bit_test q w.pmm ≡ false → bit_test q w'.pmm ≡ false)
      → (p : ℕ) → IsFreed p w
      → IsFreed p w'
  IsFreed-more w w' m p (inl z) = inl z
  IsFreed-more w w' m p (inr (inl z)) = inr (inl z)
  IsFreed-more w w' m p (inr (inr z)) = inr (inr (m (p / 4096) z))

  pub Cell-more :
      (w w' : Vmm)
      → ((q : ℕ) → bit_test q w.pmm ≡ false → bit_test q w'.pmm ≡ false)
      → (t i : ℕ) → w'.mem t i ≡ w.mem t i
      → Cell t i w
      → Cell t i w'
  Cell-more w w' m t i e (inl z) = inl (e ∙ z)
  Cell-more w w' m t i e (inr (k, z, l, o, own, f)) =
      inr (k, e ∙ z, l, o, own, λ p x. IsFreed-more w w' m p (f p x))

  given : (t : ℕ) (w : Vmm) → Gives v 4 r t → Ok w → 0 < t → Gave (λ p. p ≡ t) w (give_back t 1 w)
  given t w up k pos =
      let (at, same_total, valid) = free_pages_lem t 1 w.pmm pos k.valid in
      record {
        ok = record {
          cell = λ u i. Cell-more w (give_back t 1 w) (more at) u i refl (k.cell u i);
          valid = valid;
          total = same_total ∙ k.total;
          only = λ q x. only at q x (Bool-cases (hit q));
        };
        more = more at;
        freed = λ p e.
            subst (λ z. IsFreed z (give_back t 1 w)) (sym e)
              (freed at (Bool-cases (ltb (t / 4096) v.pmm.total_pages_cnt)));
      }
    where
      hit : ℕ → Bool
      hit q = leb (t / 4096) q && ltb q (min (t / 4096 + 1) w.pmm.total_pages_cnt)

      After : Type 0
      After =
          (q : ℕ) → bit_test q (free_pages t 1 w.pmm) ≡ (if hit q then false else bit_test q w.pmm)

      more : After → (q : ℕ) → bit_test q w.pmm ≡ false → bit_test q (free_pages t 1 w.pmm) ≡ false
      more at q x = at q ∙ cleared_bit (hit q) (bit_test q w.pmm) x

      only :
          After
          → (q : ℕ) → bit_test q (free_pages t 1 w.pmm) ≡ false
          → ((hit q ≡ true) ⊎ (hit q ≡ false))
          → (bit_test q v.pmm ≡ false) ⊎ ((p : ℕ) × Gives v 4 r p × (p / 4096 ≡ q))
      only at q x (inl e) = inr (t, up, within (t / 4096) q w.pmm.total_pages_cnt e)
      only at q x (inr e) =
          k.only q (ap (λ b. if b then false else bit_test q w.pmm) (sym e) ∙ (sym (at q) ∙ x))

      freed :
          After
          → ((ltb (t / 4096) v.pmm.total_pages_cnt ≡ true)
              ⊎ (ltb (t / 4096) v.pmm.total_pages_cnt ≡ false))
          → IsFreed t (give_back t 1 w)
      freed at (inl e) =
          let h : hit (t / 4096) ≡ true = ground (arith, e, k.total) in
          inr (inr (at (t / 4096) ∙ ap (λ b. if b then false else bit_test (t / 4096) w.pmm) h))
      freed at (inr e) = inr (inl (ground (arith, e)))

  pub give_back-Gave :
      (t : ℕ) (w : Vmm) → Gives v 4 r t → Ok w → Gave (λ p. p ≡ t) w (give_back t 1 w)
  give_back-Gave t w up k = elim (Bool-cases (t == 0)) [
    | inl z ↦
        let none' : t ≡ 0 = ground (arith, z) in
        let same : free_pages t 1 w.pmm ≡ w.pmm = free_pages-zero t 1 w.pmm none' in
        subst (λ q. Gave (λ p. p ≡ t) w (record w { pmm = q })) (sym same)
          (record { ok = k; more = λ q x. x; freed = λ p e. inl (e ∙ none') })
    | inr z ↦ given t w up k (ground (arith, z))
  ]

  pub give_frame-Gave :
      (e : ℕ) (w : Vmm)
      → Gives v 4 r (frame e)
      → Ok w
      → Gave (λ p. p ≡ frame e) w (give_frame 1 e w)
  give_frame-Gave e w up k = elim (Bool-cases (frame e == 0)) [
    | inl z ↦
        let none' : frame e ≡ 0 = ground (arith, z) in
        rw z (record { ok = k; more = λ q x. x; freed = λ p x. inl (x ∙ none') })
    | inr z ↦ rw z (give_back-Gave (frame e) w up k)
  ]
