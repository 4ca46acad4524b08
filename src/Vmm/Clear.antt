-- ===== src/Vmm/Clear.antt =====
-- Clearing the entries of a page table, and giving back what is below them: the loops that the destruction of
-- a space has in src/vmm.c.
use mathlib.Core.Bool.{true≢false}
use myos.Base.{
  ℕ, zero, suc, ◌+◌, ◌≤◌, ◌<◌, ◌≡◌, refl, sym, ap, ◌∙◌, subst, true, false, ◌==◌, if◌then◌else◌,
  arith, inl, inr, Bool-cases, ◌⊎◌, ==_refl,
}
use myos.Pmm.{bit_test}
use myos.Vmm.{Vmm, frame, is_present, write}
use myos.Vmm.Tree.{Shape, Owned}
use myos.Vmm.Spaces.{give_back, clear_entries}
use myos.Vmm.GiveBack.{Gives, IsFreed, Cell, Ok, Gave, IsFreed-more, Cell-more, give_back-Gave}

module _ (v : Vmm) (g : Shape) (r : ℕ) where
  -- The entries of a table of the space.
  module _ (give_up : ℕ → Vmm → Vmm) (k t : ℕ) (level : g.level t ≡ suc k) (owner : g.owner t ≡ r)
      (step : (i : ℕ)
        → Owned (suc k) i
        → is_present (v.mem t i) ≡ true
        → (w : Vmm) → Ok v g r w
        → Gave v g r (Gives v k (frame (v.mem t i))) w (give_up (v.mem t i) w)) where
    -- The pages below n entries from the i-th on.
    abbrev Below : ℕ → ℕ → ℕ → Type 0
    Below n i p =
        (j : ℕ) × (i ≤ j)
        × (j < i + n)
        × (is_present (v.mem t j) ≡ true)
        × Gives v k (frame (v.mem t j)) p

    write-Gave :
        (i : ℕ)
        → Owned (suc k) i
        → (w w' : Vmm) → Gave v g r (Gives v k (frame (v.mem t i))) w w'
        → Gave v g r (Gives v k (frame (v.mem t i))) w (write t i 0 w')
    write-Gave i o w w' f = record {
      ok = record {
        cell = λ u j. cell u j (Bool-cases (u == t)) (Bool-cases (j == i));
        valid = f.ok.valid;
        total = f.ok.total;
        only = f.ok.only;
      };
      more = f.more;
      freed = λ p x. IsFreed-more v g r w' (write t i 0 w') (λ q y. y) p (f.freed p x);
    }
      where
        kept : (u j : ℕ) → (write t i 0 w').mem u j ≡ w'.mem u j → Cell v g r u j (write t i 0 w')
        kept u j e = Cell-more v g r w' (write t i 0 w') (λ q y. y) u j e (f.ok.cell u j)

        cell :
            (u j : ℕ)
            → (((u == t) ≡ true) ⊎ ((u == t) ≡ false))
            → (((j == i) ≡ true) ⊎ ((j == i) ≡ false))
            → Cell v g r u j (write t i 0 w')
        cell u j (inr a) b = kept u j (rw a refl)
        cell u j (inl a) (inr b) =
            let same : u ≡ t = ground (arith, a) in
            kept u j (rw (a, b) (ap (λ x. w'.mem x j) (sym same)))
        cell u j (inl a) (inl b) =
            let same : t ≡ u = ground (arith, a) in
            let same' : i ≡ j = ground (arith, b) in
            subst (λ x. Cell v g r x j (write t i 0 w')) same
              (subst (λ y. Cell v g r t y (write t i 0 w')) same'
                (inr (k, rw (==_refl t, ==_refl i) refl, level, o, owner, λ p x. f.freed p x)))

    abbrev AtEntry : ℕ → ℕ → Type 0
    AtEntry i p = (is_present (v.mem t i) ≡ true) × Gives v k (frame (v.mem t i)) p

    abbrev handled : ℕ → Vmm → ℕ → Vmm
    handled i w e = if is_present e then write t i 0 (give_up e w) else w

    entry-Gave :
        (i : ℕ)
        → Owned (suc k) i
        → (w : Vmm) → Ok v g r w
        → Gave v g r (AtEntry i) w (handled i w (w.mem t i))
    entry-Gave i o w ok = by_cell (ok.cell t i)
      where
        by_cell : Cell v g r t i w → Gave v g r (AtEntry i) w (handled i w (w.mem t i))
        by_cell (inl same) =
            subst (λ e. Gave v g r (AtEntry i) w (handled i w e)) (sym same)
              (elim (Bool-cases (is_present (v.mem t i))) [
                | inl here ↦
                    let f = write-Gave i o w (give_up (v.mem t i) w) (step i o here w ok) in
                    subst
                      (λ b.
                        Gave v g r (AtEntry i) w
                          (if b then write t i 0 (give_up (v.mem t i) w) else w))
                      (sym here) (record { ok = f.ok; more = f.more; freed = λ p x. f.freed p x.1 })
                | inr gone ↦
                    subst
                      (λ b.
                        Gave v g r (AtEntry i) w
                          (if b then write t i 0 (give_up (v.mem t i) w) else w))
                      (sym gone)
                      (record {
                        ok = ok;
                        more = λ q x. x;
                        freed = λ p x. absurd (true≢false (sym x.0 ∙ gone));
                      })
              ])
        by_cell (inr (k', z, l, _, _, f)) =
            subst (λ e. Gave v g r (AtEntry i) w (handled i w e)) (sym z)
              (record {
                ok = ok;
                more = λ q x. x;
                freed = λ p x. f p (
                    subst (λ m. Gives v m (frame (v.mem t i)) p)
                      (let same : k ≡ k' = omega (arith, l, level) in same) x.1);
              })

    clear_entries-Gave :
        (n i : ℕ) (w : Vmm)
        → i + n ≤ 512
        → (suc k ≡ 4 → 0 < i)
        → Ok v g r w
        → Gave v g r (Below n i) w (clear_entries give_up t n i w)
    unfolding clear_entries
    clear_entries-Gave zero i w fits first ok = record {
      ok = ok;
      more = λ q x. x;
      freed = λ p x. absurd (omega (arith, x.1, x.2));
    }
    clear_entries-Gave (suc n) i w fits first ok =
        let w₁ = handled i w (w.mem t i) in
        let f = entry-Gave i (omega (arith, fits), first) w ok in
        let rest =
          clear_entries-Gave n (i + 1) w₁ (omega (arith, fits)) (λ e. omega (arith, first e))
            f.ok in
        record {
          ok = rest.ok;
          more = λ q x. rest.more q (f.more q x);
          freed = λ p x. split p x f.freed rest.freed rest.more (Bool-cases (x.0 == i));
        }
      where
        split :
            (p : ℕ) (x : Below (suc n) i p)
            → ((p' : ℕ) → AtEntry i p' → IsFreed v g r p' (handled i w (w.mem t i)))
            → ((p' : ℕ)
                → Below n (i + 1) p'
                → IsFreed v g r p' (clear_entries give_up t n (i + 1) (handled i w (w.mem t i))))
            → ((q : ℕ)
                → bit_test q (handled i w (w.mem t i)).pmm ≡ false
                → bit_test q (clear_entries give_up t n (i + 1) (handled i w (w.mem t i))).pmm
                  ≡ false)
            → (((x.0 == i) ≡ true) ⊎ ((x.0 == i) ≡ false))
            → IsFreed v g r p (clear_entries give_up t n (i + 1) (handled i w (w.mem t i)))
        split p (j, a, b, here, x) now later more (inl e) =
            let same : j ≡ i = ground (arith, e) in
            IsFreed-more v g r (handled i w (w.mem t i))
              (clear_entries give_up t n (i + 1) (handled i w (w.mem t i))) more p
              (now p (subst (λ m. AtEntry m p) same (here, x)))
        split p (j, a, b, here, x) now later more (inr e) =
            later p (j, ground (arith, a, e), omega (arith, b), here, x)

    -- A table: its entries from the i-th on, and then its page.
    pub table-Gave :
        (n i : ℕ) (w : Vmm)
        → i + n ≡ 512
        → (suc k ≡ 4 → 0 < i)
        → ((j : ℕ) → Owned (suc k) j → i ≤ j)
        → Gives v 4 r t
        → Ok v g r w
        → Gave v g r (Gives v (suc k) t) w (give_back t 1 (clear_entries give_up t n i w))
    table-Gave n i w all first cover up ok =
        let f = clear_entries-Gave n i w (omega (arith, all)) first ok in
        let w₁ = clear_entries give_up t n i w in
        let last = give_back-Gave v g r t w₁ up f.ok in
        record {
          ok = last.ok;
          more = λ q x. last.more q (f.more q x);
          freed = λ p x. freed p x f.freed last.freed last.more;
        }
      where
        freed :
            (p : ℕ)
            → Gives v (suc k) t p
            → ((p' : ℕ) → Below n i p' → IsFreed v g r p' (clear_entries give_up t n i w))
            → ((p' : ℕ) → p' ≡ t → IsFreed v g r p' (give_back t 1 (clear_entries give_up t n i w)))
            → ((q : ℕ)
                → bit_test q (clear_entries give_up t n i w).pmm ≡ false
                → bit_test q (give_back t 1 (clear_entries give_up t n i w)).pmm ≡ false)
            → IsFreed v g r p (give_back t 1 (clear_entries give_up t n i w))
        freed p (inl e) below own more = own p e
        freed p (inr (j, o, here, x)) below own more =
            IsFreed-more v g r (clear_entries give_up t n i w)
              (give_back t 1 (clear_entries give_up t n i w)) more p
              (below p (j, cover j o, omega (arith, o.0, all), here, x))
