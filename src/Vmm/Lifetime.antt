-- ===== src/Vmm/Lifetime.antt =====
-- Retaining and releasing a space of the user, against the count of references.
use myos.Base.{
  ℕ, zero, suc, ◌+◌, ◌-◌, ◌*◌, ◌%◌, ◌<◌, ◌≡◌, ◌≢◌, refl, sym, ap, ◌∙◌, subst, Bool, true, false,
  Option, none, some, ◌==◌, if◌then◌else◌, arith, inl, inr, Bool-cases, ◌⊎◌,
}
use myos.Base.Search.{First, first_from-First}
use myos.Vmm.Tree.{Shape, IsTree}
use myos.Vmm.GiveBack.{Gives}
use myos.Vmm.Destroy.{Destroyed, destroy-Destroyed}
use myos.Vmm.{Vmm, Space, max_user_spaces, is_present, is_huge, frame, write}
use myos.Vmm.Spaces.{
  u32_mod, in_slot, find_space_slot, set_space, clear_entries, give_frame, free_pt, free_pd,
  free_pdpt, is_kernel, destroy_user_space, retain_in, retain_user_space, release_in,
  release_user_space,
}
use myos.Vmm.Refs.{count, refs_at, IsUnique, put-count, put-IsUnique, slot_hit, slot_miss}

-- The state with the references to the root c set to n, and nothing else in the list changed.
abbrev pub Recount : Vmm → ℕ → ℕ → Vmm → Type 0
Recount v c n v' =
    IsUnique v'.spaces × ((d : ℕ) → count v'.spaces d ≡ (if d == c then n else count v.spaces d))

module _ (v : Vmm) (c : ℕ) (u : IsUnique v.spaces) where
  -- A slot that the search finds, with a new number of references.
  set-Recount :
      (i : ℕ) (s : Space)
      → First (in_slot c v.spaces) 0 max_user_spaces (some i)
      → (0 < s.refs → s.cr3 ≡ c)
      → Recount v c s.refs (set_space i s v)
  set-Recount i s (hit, _, high, _) new =
      let (at, pos) = slot_hit c v.spaces i hit in
      let other : (j : ℕ)
          → j < max_user_spaces
          → j ≢ i
          → (v.spaces j).cr3 ≡ c
          → (v.spaces j).refs ≡ 0 =
        λ j h ne e. elim (Bool-cases ((v.spaces j).refs == 0)) [
          | inl z ↦ ground (arith, z)
          | inr z ↦ absurd (ne (u j i h high (ground (arith, z)) pos (e ∙ sym at)))
        ] in
      (
        put-IsUnique v.spaces i c s u high (λ _. at) new other,
        put-count v.spaces i c s u high (λ _. at) new other,
      )

  -- A free slot, for a root that has none.
  pub enter-Recount :
      (i : ℕ) (s : Space)
      → First (λ j. (v.spaces j).refs == 0) 0 max_user_spaces (some i)
      → First (in_slot c v.spaces) 0 max_user_spaces none
      → s.cr3 ≡ c
      → Recount v c s.refs (set_space i s v)
  enter-Recount i s (hit, _, high, _) miss new =
      let other : (j : ℕ)
          → j < max_user_spaces
          → j ≢ i
          → (v.spaces j).cr3 ≡ c
          → (v.spaces j).refs ≡ 0 =
        λ j h ne e. slot_miss c v.spaces j (miss j (omega arith) h) e in
      let old : 0 < (v.spaces i).refs → (v.spaces i).cr3 ≡ c = λ pos. ground (arith, hit, pos) in
      (
        put-IsUnique v.spaces i c s u high old (λ _. new) other,
        put-count v.spaces i c s u high old (λ _. new) other,
      )

clear_entries-spaces :
    (give_up : ℕ → Vmm → Vmm)
    → ((e : ℕ) (v : Vmm) → (give_up e v).spaces ≡ v.spaces)
    → (t n i : ℕ) (v : Vmm) → (clear_entries give_up t n i v).spaces ≡ v.spaces
unfolding clear_entries
clear_entries-spaces give_up h t zero i v = refl
clear_entries-spaces give_up h t (suc n) i v =
    clear_entries-spaces give_up h t n (i + 1) _ ∙ cleared (is_present (v.mem t i))
  where
    cleared : (b : Bool) → (if b then write t i 0 (give_up (v.mem t i) v) else v).spaces ≡ v.spaces
    cleared true = h (v.mem t i) v
    cleared false = refl

give_frame-spaces : (n e : ℕ) (v : Vmm) → (give_frame n e v).spaces ≡ v.spaces
give_frame-spaces n e v = elim (Bool-cases (frame e == 0)) [ inl z ↦ rw z refl | inr z ↦ rw z refl ]

huge-spaces :
    (n : ℕ) (free : ℕ → Vmm → Vmm)
    → ((t : ℕ) (v : Vmm) → (free t v).spaces ≡ v.spaces)
    → (e : ℕ) (v : Vmm)
    → (if is_huge e then give_frame n e v else free (frame e) v).spaces ≡ v.spaces
huge-spaces n free h e v = elim (Bool-cases (is_huge e)) [
  | inl z ↦ rw z (give_frame-spaces n e v)
  | inr z ↦ rw z (h (frame e) v)
]

free_pt-spaces : (t : ℕ) (v : Vmm) → (free_pt t v).spaces ≡ v.spaces
unfolding free_pt
free_pt-spaces t v = clear_entries-spaces _ (give_frame-spaces 1) t 512 0 v

free_pd-spaces : (t : ℕ) (v : Vmm) → (free_pd t v).spaces ≡ v.spaces
unfolding free_pd
free_pd-spaces t v = clear_entries-spaces _ (huge-spaces 512 free_pt free_pt-spaces) t 512 0 v

free_pdpt-spaces : (t : ℕ) (v : Vmm) → (free_pdpt t v).spaces ≡ v.spaces
unfolding free_pdpt
free_pdpt-spaces t v =
    clear_entries-spaces _ (huge-spaces (512 * 512) free_pd free_pd-spaces) t 512 0 v

destroy-spaces : (cr3 : ℕ) (v : Vmm) → (destroy_user_space cr3 v).spaces ≡ v.spaces
unfolding destroy_user_space
destroy-spaces cr3 v = elim (Bool-cases (is_kernel cr3 v)) [
  | inl z ↦ rw z refl
  | inr z ↦ rw z (clear_entries-spaces _ (λ e. free_pdpt-spaces (frame e)) (frame cr3) 511 1 v)
]

module _ (v : Vmm) (cr3 : ℕ) (u : IsUnique v.spaces) where
  -- Retaining adds a reference; a root that is in no slot is entered with two, if a slot is free.
  abbrev pub Retained : Vmm → Type 0
  Retained v' =
      (v'.mem ≡ v.mem)
      × (v'.pmm ≡ v.pmm)
      × (0 < count v.spaces cr3 → Recount v cr3 ((count v.spaces cr3 + 1) % u32_mod) v')
      × (count v.spaces cr3 ≡ 0
          → Recount v cr3 2 v'
            ⊎ ((v' ≡ v) × ((i : ℕ) → i < max_user_spaces → 0 < (v.spaces i).refs)))

  retain_in-Retained :
      (o f : Option ℕ)
      → find_space_slot cr3 v.spaces ≡ o
      → First (in_slot cr3 v.spaces) 0 max_user_spaces o
      → First (λ i. (v.spaces i).refs == 0) 0 max_user_spaces f
      → Retained (retain_in cr3 o f v)
  unfolding count
  retain_in-Retained (some i) f e hit free =
      let (at, pos) = slot_hit cr3 v.spaces i (hit.0) in
      let c : count v.spaces cr3 ≡ (v.spaces i).refs = ap (refs_at v.spaces) e in
      (
        refl,
        refl,
        λ _.
            subst (λ n. Recount v cr3 ((n + 1) % u32_mod) (retain_in cr3 (some i) f v)) (sym c)
              (set-Recount v cr3 u i _ hit (λ _. at)),
        λ z. absurd (omega (arith, z, c, pos)),
      )
  retain_in-Retained none (some i) e miss free =
      let c : count v.spaces cr3 ≡ 0 = ap (refs_at v.spaces) e in
      (
        refl,
        refl,
        λ p. absurd (omega (arith, p, c)),
        λ _. inl (enter-Recount v cr3 u i (record { cr3 = cr3; refs = 2 }) free miss refl),
      )
  retain_in-Retained none none e miss full =
      let c : count v.spaces cr3 ≡ 0 = ap (refs_at v.spaces) e in
      (
        refl,
        refl,
        λ p. absurd (omega (arith, p, c)),
        λ _. inr (refl, λ i h. ground (arith, full i (omega arith) h)),
      )

-- Where every live root has one slot, for a root other than 0 and the kernel's:
-- `vmm_retain_user_space` changes no page and no table. A root with references gets one more, modulo
-- 2^32, and no other count changes; a root without is entered with two, or, if every slot is live,
-- nothing changes. Every live root has one slot then.
pub retain_user_space_lem :
    (v : Vmm) (cr3 : ℕ) (u : IsUnique v.spaces)
    → is_kernel cr3 v ≡ false
    → Retained v cr3 u (retain_user_space cr3 v)
unfolding retain_user_space
retain_user_space_lem v cr3 u k =
    rw (retain_user_space, k)
      (retain_in-Retained v cr3 u _ _ refl
        (first_from-First (in_slot cr3 v.spaces) max_user_spaces 0 max_user_spaces refl)
        (first_from-First (λ i. (v.spaces i).refs == 0) max_user_spaces 0 max_user_spaces refl))

module _ (v : Vmm) (g : Shape) (cr3 : ℕ) (u : IsUnique v.spaces) (tree : IsTree v g)
    (level : g.level cr3 ≡ 4) (other : is_kernel cr3 v ≡ false) where
  -- Releasing drops a reference; the space is destroyed when there are none left, and only then.
  abbrev pub Released : Vmm → Type 0
  Released v' =
      (count v.spaces cr3 ≡ 0 → v' ≡ v)
      × (1 < count v.spaces cr3
          → Recount v cr3 (count v.spaces cr3 - 1) v' × (v'.mem ≡ v.mem) × (v'.pmm ≡ v.pmm))
      × (count v.spaces cr3 ≡ 1 → Recount v cr3 0 v' × Destroyed v g cr3 v')

  -- The list of spaces has no part in the destruction.
  destroy_listed-Destroyed :
      (l : ℕ → Space) → Destroyed v g cr3 (destroy_user_space cr3 (record v { spaces = l }))
  destroy_listed-Destroyed l =
      let w = record v { spaces = l } in
      let d = destroy-Destroyed w g cr3 relisted level other in
      record {
        freed = λ p x. d.freed p (relist 4 cr3 p x);
        others =
            λ q. elim (d.others q) [ inl e ↦ inl e | inr (p, x, e) ↦ inr (p, listed 4 cr3 p x, e) ];
        valid = d.valid;
        cleared = d.cleared;
        kernel = d.kernel;
        elsewhere = d.elsewhere;
      }
    where
      relisted : IsTree (record v { spaces = l }) g
      relisted = record {
        table = λ t h.
            let at = tree.table t h in
            record {
              page = at.page;
              inside = at.inside;
              used = at.used;
              top = at.top;
              child = at.child;
              root = at.root;
            };
        pages = tree.pages;
        page_zero = tree.page_zero;
        few = tree.few;
      }

      relist : (k t p : ℕ) → Gives v k t p → Gives (record v { spaces = l }) k t p
      relist zero t p e = e
      relist (suc k) t p (inl e) = inl e
      relist (suc k) t p (inr (i, o, here, x)) = inr (i, o, here, relist k (frame (v.mem t i)) p x)

      listed : (k t p : ℕ) → Gives (record v { spaces = l }) k t p → Gives v k t p
      listed zero t p e = e
      listed (suc k) t p (inl e) = inl e
      listed (suc k) t p (inr (i, o, here, x)) = inr (i, o, here, listed k (frame (v.mem t i)) p x)

  release_in-Released :
      (o : Option ℕ)
      → find_space_slot cr3 v.spaces ≡ o
      → First (in_slot cr3 v.spaces) 0 max_user_spaces o
      → Released (release_in cr3 o v)
  unfolding count
  release_in-Released none e miss =
      let c : count v.spaces cr3 ≡ 0 = ap (refs_at v.spaces) e in
      (λ _. refl, λ p. absurd (omega (arith, p, c)), λ p. absurd (omega (arith, p, c)))
  release_in-Released (some i) e hit =
      let (at, pos) = slot_hit cr3 v.spaces i (hit.0) in
      let c : count v.spaces cr3 ≡ (v.spaces i).refs = ap (refs_at v.spaces) e in
      let on : ((v.spaces i).refs == 0) ≡ false = ground (arith, pos) in
      elim (Bool-cases ((v.spaces i).refs - 1 == 0)) [
        | inl last ↦
            let one : (v.spaces i).refs ≡ 1 = ground (arith, pos, last) in
            let w = set_space i (record { cr3 = 0; refs = 0 }) v in
            let q : Recount v cr3 0 w =
              set-Recount v cr3 u i _ hit (λ z. absurd (omega (arith, z))) in
            let same = sym (destroy-spaces cr3 w) in
            let destroyed = destroy_listed-Destroyed w.spaces in
            rw on (
              rw last (
                λ z. absurd (omega (arith, z, c, pos)),
                λ z. absurd (omega (arith, z, c, one)),
                λ _. (
                  subst
                      (λ l.
                        IsUnique l
                        × ((d : ℕ) → count l d ≡ (if d == cr3 then 0 else count v.spaces d)))
                      same q,
                  destroyed,
                ),
              ))
        | inr more ↦
            let some_left : 1 < (v.spaces i).refs = ground (arith, pos, more) in
            rw on (
              rw more (
                λ z. absurd (omega (arith, z, c, pos)),
                λ _. (
                  subst
                      (λ n.
                        Recount v cr3 (n - 1)
                          (set_space i (record (v.spaces i) { refs = (v.spaces i).refs - 1 }) v))
                      (sym c) (set-Recount v cr3 u i _ hit (λ _. at)),
                  refl,
                  refl,
                ),
                λ z. absurd (omega (arith, z, c, some_left)),
              ))
      ]

-- In memory whose tables are trees, where every live root has one slot, for the root of a space other than 0
-- and the kernel's: `vmm_release_user_space` of a root without references changes nothing; of a root
-- with more than one it drops one and changes no page and no table; of a root with one it drops it and
-- destroys the space: then every page of its tree that is tracked, its tables and the pages they map, is
-- free (page 0 is never touched), no other page changes, the entries of tables are as they were or
-- cleared, and the kernel's entry and the tables of the other spaces are as they were. No other
-- count changes, and every live root has one slot then.
pub release_user_space_lem :
    (v : Vmm) (g : Shape) (cr3 : ℕ) (u : IsUnique v.spaces) (tree : IsTree v g)
    (level : g.level cr3 ≡ 4) (other : is_kernel cr3 v ≡ false)
    → Released v g cr3 u tree level other (release_user_space cr3 v)
unfolding release_user_space
release_user_space_lem v g cr3 u tree level other =
    rw (release_user_space, other)
      (release_in-Released v g cr3 u tree level other _ refl
        (first_from-First (in_slot cr3 v.spaces) max_user_spaces 0 max_user_spaces refl))
