-- ===== src/Vmm/Refs.antt =====
-- The list of spaces against a count of references for each root.
use myos.Base.{
  ℕ, ◌<◌, ◌≡◌, ◌≢◌, refl, sym, ap, ◌∙◌, subst, true, false, Option, none, some, ◌==◌, if◌then◌else◌,
  arith, inl, inr, Bool-cases, update, ◌⊎◌,
}
use myos.Base.Search.{First, first_from-First}
use myos.Vmm.{Space, max_user_spaces}
use myos.Vmm.Spaces.{in_slot, find_space_slot}

-- The references of a slot's space, 0 without a slot.
abbrev pub refs_at : (ℕ → Space) → Option ℕ → ℕ
refs_at spaces none = 0
refs_at spaces (some i) = (spaces i).refs

-- The references to a root.
unfoldable pub count : (ℕ → Space) → ℕ → ℕ
count spaces c = refs_at spaces (find_space_slot c spaces)

-- Two live slots have different roots.
abbrev pub IsUnique : (ℕ → Space) → Type 0
IsUnique spaces =
    (i j : ℕ)
    → i < max_user_spaces
    → j < max_user_spaces
    → 0 < (spaces i).refs
    → 0 < (spaces j).refs
    → (spaces i).cr3 ≡ (spaces j).cr3
    → i ≡ j

-- What a slot has to do with a count.
abbrev Counted : (ℕ → Space) → ℕ → ℕ → Type 0
Counted spaces c n =
    ((n ≡ 0) × ((j : ℕ) → j < max_user_spaces → (spaces j).cr3 ≡ c → (spaces j).refs ≡ 0))
    ⊎ ((i : ℕ) × (i < max_user_spaces) × ((spaces i).cr3 ≡ c) × ((spaces i).refs ≡ n) × (0 < n))

pub slot_hit :
    (c : ℕ) (spaces : ℕ → Space) (i : ℕ)
    → in_slot c spaces i ≡ true
    → ((spaces i).cr3 ≡ c) × (0 < (spaces i).refs)
slot_hit c spaces i h = (ground (arith, h), ground (arith, h))

pub slot_miss :
    (c : ℕ) (spaces : ℕ → Space) (i : ℕ)
    → in_slot c spaces i ≡ false
    → (spaces i).cr3 ≡ c
    → (spaces i).refs ≡ 0
slot_miss c spaces i h e = ground (arith, h, e)

pub at-Counted :
    (c : ℕ) (spaces : ℕ → Space) (o : Option ℕ)
    → First (in_slot c spaces) 0 max_user_spaces o
    → Counted spaces c (refs_at spaces o)
at-Counted c spaces none f = inl (refl, λ j h. slot_miss c spaces j (f j (omega arith) h))
at-Counted c spaces (some i) (hit, _, high, _) =
    let (at, pos) = slot_hit c spaces i hit in inr (i, high, at, refl, pos)

count-Counted : (spaces : ℕ → Space) (c : ℕ) → Counted spaces c (count spaces c)
unfolding count
count-Counted spaces c =
    at-Counted c spaces _
      (first_from-First (in_slot c spaces) max_user_spaces 0 max_user_spaces refl)

Counted-unique :
    (spaces : ℕ → Space) (c m n : ℕ)
    → IsUnique spaces
    → Counted spaces c m
    → Counted spaces c n
    → m ≡ n
Counted-unique spaces c m n u (inl (a, _)) (inl (b, _)) = a ∙ sym b
Counted-unique spaces c m n u (inl (a, z)) (inr (i, l, at, e, pos)) =
    omega (arith, z i l at, e, pos)
Counted-unique spaces c m n u (inr (i, l, at, e, pos)) (inl (b, z)) =
    omega (arith, z i l at, e, pos)
Counted-unique spaces c m n u (inr (i, l, at, e, pos)) (inr (i', l', at', e', pos')) =
    let same : i ≡ i' =
      u i i' l l' (omega (arith, e, pos)) (omega (arith, e', pos')) (at ∙ sym at') in
    sym e ∙ (ap (λ j. (spaces j).refs) same ∙ e')

-- Setting the one slot that has to do with a root c₀.
module _ (spaces : ℕ → Space) (i c₀ : ℕ) (s : Space) (unique : IsUnique spaces)
    (l : i < max_user_spaces) (old : 0 < (spaces i).refs → (spaces i).cr3 ≡ c₀)
    (new : 0 < s.refs → s.cr3 ≡ c₀)
    (other : (j : ℕ)
      → j < max_user_spaces
      → j ≢ i
      → (spaces j).cr3 ≡ c₀
      → (spaces j).refs ≡ 0) where
  abbrev spaces' : ℕ → Space
  spaces' = update spaces i s

  -- Of a live slot: the root is c₀ exactly at i.
  live :
      (j : ℕ)
      → j < max_user_spaces
      → 0 < (spaces' j).refs
      → ((j ≡ i) × ((spaces' j).cr3 ≡ c₀))
        ⊎ ((j ≢ i) × ((spaces' j).cr3 ≢ c₀) × (spaces' j ≡ spaces j))
  live j h pos = elim (Bool-cases (j == i)) [
    | inl e ↦
        inl (ground arith, rw e (new (subst (λ b. 0 < (if b then s else spaces j).refs) e pos)))
    | inr e ↦
        let ne : j ≢ i = λ z. ground (arith, z, e) in
        let was : 0 < (spaces j).refs = subst (λ b. 0 < (if b then s else spaces j).refs) e pos in
        inr (ne, rw e (λ at. omega (arith, other j h ne at, was)), rw e refl)
  ]

  pub put-IsUnique : IsUnique spaces'
  put-IsUnique j k a b x y e = elim (live j a x) [
    | inl (at, root) ↦ elim (live k b y) [
      | inl (at', _) ↦ at ∙ sym at'
      | inr (_, ne, _) ↦ absurd (ne (sym e ∙ root))
    ]
    | inr (_, ne, same) ↦ elim (live k b y) [
      | inl (_, root) ↦ absurd (ne (e ∙ root))
      | inr (_, _, same') ↦
          unique j k a b (subst (λ z. 0 < z.refs) same x) (subst (λ z. 0 < z.refs) same' y)
            (sym (ap (λ z. z.cr3) same) ∙ (e ∙ ap (λ z. z.cr3) same'))
    ]
  ]

  put-Counted : (c n : ℕ) → c ≢ c₀ → Counted spaces c n → Counted spaces' c n
  put-Counted c n ne (inl (z, miss)) = inl (z, λ j h at. gone j h at)
    where
      gone : (j : ℕ) → j < max_user_spaces → (spaces' j).cr3 ≡ c → (spaces' j).refs ≡ 0
      gone j h at = elim (Bool-cases ((spaces' j).refs == 0)) [
        | inl e ↦ ground (arith, e)
        | inr e ↦ elim (live j h (ground (arith, e))) [
          | inl (_, root) ↦ absurd (ne (sym at ∙ root))
          | inr (_, _, same) ↦ ap (λ z. z.refs) same ∙ miss j h (sym (ap (λ z. z.cr3) same) ∙ at)
        ]
      ]
  put-Counted c n ne (inr (j, h, at, e, pos)) = elim (Bool-cases (j == i)) [
    | inl z ↦
        let here : j ≡ i = ground arith in
        absurd (
          ne (
            sym at
            ∙ (ap (λ k. (spaces k).cr3) here
                ∙ old (subst (λ k. 0 < (spaces k).refs) here (omega (arith, e, pos))))))
    | inr z ↦ inr (j, h, rw z at, rw z e, pos)
  ]

  put_self : Counted spaces' c₀ s.refs
  put_self = elim (Bool-cases (s.refs == 0)) [
    | inl e ↦ inl (ground (arith, e), λ j h at. gone j h at (ground (arith, e)))
    | inr e ↦ inr (
      i,
      l,
      ap (λ z. z.cr3) here ∙ new (ground (arith, e)),
      ap (λ z. z.refs) here,
      ground (arith, e),
    )
  ]
    where
      here : spaces' i ≡ s
      here = let r : (i == i) ≡ true = ground arith in rw r refl

      gone :
          (j : ℕ) → j < max_user_spaces → (spaces' j).cr3 ≡ c₀ → s.refs ≡ 0 → (spaces' j).refs ≡ 0
      gone j h at z = elim (Bool-cases (j == i)) [
        | inl e ↦ rw e z
        | inr e ↦ rw e (
            other j h (λ w. ground (arith, w, e))
              (subst (λ b. (if b then s else spaces j).cr3 ≡ c₀) e at))
      ]

  pub put-count : (c : ℕ) → count spaces' c ≡ (if c == c₀ then s.refs else count spaces c)
  put-count c = elim (Bool-cases (c == c₀)) [
    | inl e ↦
        let here : c ≡ c₀ = ground arith in
        rw e (
          ap (count spaces') here
          ∙ Counted-unique spaces' c₀ _ _ put-IsUnique (count-Counted spaces' c₀) put_self)
    | inr e ↦ rw e (
        Counted-unique spaces' c _ _ put-IsUnique (count-Counted spaces' c)
          (put-Counted c _ (λ z. ground (arith, z, e)) (count-Counted spaces c)))
  ]
