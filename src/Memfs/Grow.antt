-- ===== src/Memfs/Grow.antt =====
-- The doubling of the capacity ends.
use myos.Base.{
  ℕ, zero, suc, ◌*◌, ◌%◌, ◌^◌, ◌≤◌, ◌<◌, ◌≡◌, ◌⊎◌, refl, ap, ◌∙◌, false, some, ltb, if◌then◌else◌,
  arith, inl, inr, Bool-cases,
}
use myos.Base.Align.{u64_mod}
use myos.Memfs.{double_cap}

-- A number doubled n times.
unfoldable pub doubled : ℕ → ℕ → ℕ
doubled zero c = c
doubled (suc n) c = doubled n (c * 2)

doubled_mono : (n a b : ℕ) → a ≤ b → doubled n a ≤ doubled n b
unfolding doubled
doubled_mono zero a b h = h
doubled_mono (suc n) a b h = doubled_mono n (a * 2) (b * 2) (omega (arith, h))

-- The capacity that the doubling gives: the first at least the need.
abbrev pub IsGrown : ℕ → ℕ → ℕ → Type 0
IsGrown cur need c = (k : ℕ) × (c ≡ doubled k cur) × (need ≤ c) × ((k ≡ 0) ⊎ (c < 2 * need))

double_cap-reaches :
    (n cur need : ℕ)
    → cur < u64_mod
    → need ≤ 2 ^ 63
    → need ≤ doubled n cur
    → (c : ℕ) × (double_cap (suc n) cur need ≡ some c)
      × IsGrown cur need c
      × (cur ≤ c)
      × (c < u64_mod)
unfolding double_cap doubled
double_cap-reaches zero cur need h small reach =
    let e : ltb cur need ≡ false = ground (arith, reach) in
    (cur, rw e refl, (0, refl, reach, inl refl), omega arith, h)
double_cap-reaches (suc n) cur need h small reach = elim (Bool-cases (ltb cur need)) [
  | inr e ↦ (cur, rw e refl, (0, refl, ground (arith, e), inl refl), omega arith, h)
  | inl e ↦
      let low : cur < need = ground (arith, e) in
      let wrap : cur * 2 % u64_mod ≡ cur * 2 = omega (arith, low, small) in
      let (c, r, (k, d, a, m), b, l) =
        double_cap-reaches n (cur * 2) need (omega (arith, low, small)) small reach in
      (
        c,
        ap (λ z. if z then double_cap (suc n) (cur * 2 % u64_mod) need else some cur) e
            ∙ (ap (λ z. double_cap (suc n) z need) wrap ∙ r),
        (suc k, d, a, inr (least c k cur need d m low)),
        omega (arith, b),
        l,
      )
]
  where
    least :
        (c k cur need : ℕ)
        → c ≡ doubled k (cur * 2)
        → ((k ≡ 0) ⊎ (c < 2 * need))
        → cur < need
        → c < 2 * need
    least c k cur need d (inr m) low = m
    least c k cur need d (inl z) low =
        let e : c ≡ cur * 2 = d ∙ ap (λ i. doubled i (cur * 2)) z in omega (arith, e, low)

-- The loop ends: from a capacity of at least 1 it comes, with the fuel of 65, to the first doubling of at least
-- the need, where the need is at most 2^63, and never shrinks. (Beyond 2^63 the code doubles to 0 and goes on.)
pub double_cap-ends :
    (cur need : ℕ)
    → 0 < cur
    → cur < u64_mod
    → need ≤ 2 ^ 63
    → (c : ℕ) × (double_cap 65 cur need ≡ some c) × IsGrown cur need c × (cur ≤ c) × (c < u64_mod)
unfolding doubled
double_cap-ends cur need pos h small =
    let one : 2 ^ 64 ≤ doubled 64 1 = omega arith in
    double_cap-reaches 64 cur need h small
      (omega (arith, one, doubled_mono 64 1 cur (omega (arith, pos)), small))
