-- ===== src/Base/Or.antt =====
-- Disjunction of words: its lowest digit, and how a mask falls on it.
use Prim.Native.Nat.{
  ℕ, zero, suc, ◌+◌, ◌-◌, ◌*◌, ◌/◌, ◌%◌, ◌≤◌, ◌<◌, max, bit_and, bit_or, digits, bit_or-bitwise,
}
use mathlib.Core.Path.{◌≡◌, refl, sym, ap, ap₂, subst, ◌∙◌}
use native.Mathlib.Omega.{arith}
use myos.Base.Bits.{bit_and_step, bit_and-zero, pow2}

-- The digits of a disjunction settle once the fuel reaches the first number.
disj : ℕ → ℕ → ℕ → ℕ
disj fuel x y = digits (λ b. b) max fuel x y

disj_settled : (fuel x y : ℕ) → x ≤ fuel → disj (suc fuel) x y ≡ disj fuel x y
unfolding disj
disj_settled fuel zero y enough = elim fuel as (λ f. disj (suc f) zero y ≡ disj f zero y) [
  | zero ↦ refl
  | suc _ ↦ refl
]
disj_settled zero (suc x) y enough = elim enough [ ]
disj_settled (suc fuel) (suc x) y enough =
    omega (arith, disj_settled fuel (suc x / 2) (y / 2) (omega arith))

disj_surplus : (spare fuel x y : ℕ) → x ≤ fuel → disj (spare + fuel) x y ≡ disj fuel x y
disj_surplus zero fuel x y enough = ap (λ f. disj f x y) (omega arith)
disj_surplus (suc spare) fuel x y enough =
    let count : suc spare + fuel ≡ suc (spare + fuel) = omega arith in
    ap (λ f. disj f x y) count
    ∙ (disj_settled (spare + fuel) x y (omega arith) ∙ disj_surplus spare fuel x y enough)

pub bit_or-zero_left : (y : ℕ) → bit_or 0 y ≡ y
bit_or-zero_left y = omega (arith, bit_or-bitwise 0 y)

-- The law for the lowest digit.
pub bit_or_step : (x y : ℕ) → bit_or x y ≡ bit_or (x / 2) (y / 2) * 2 + max (x % 2) (y % 2)
unfolding disj
bit_or_step zero y = omega (arith, bit_or-zero_left y, bit_or-zero_left (y / 2))
bit_or_step (suc x) y =
    let half = suc x / 2 in
    let surplus : disj x half (y / 2) ≡ disj half half (y / 2) =
      subst (λ f. disj f half (y / 2) ≡ disj half half (y / 2)) (omega arith)
        (disj_surplus (x - half) half half (y / 2) (omega arith)) in
    omega (arith, bit_or-bitwise (suc x) y, bit_or-bitwise half (y / 2), surplus)

pub bit_or-mod_two : (x y : ℕ) → bit_or x y % 2 ≡ max (x % 2) (y % 2)
bit_or-mod_two x y = omega (arith, bit_or_step x y)

lt_pow2 : (x : ℕ) → x < pow2 x
lt_pow2 zero = omega arith
lt_pow2 (suc x) = omega (arith, lt_pow2 x)

bit_or-zero_below : (k x : ℕ) → x < pow2 k → bit_or x 0 ≡ x
bit_or-zero_below zero x h = let e : 0 ≡ x = omega arith in subst (λ z. bit_or z 0 ≡ z) e refl
bit_or-zero_below (suc k) x h =
    omega (arith, bit_or_step x 0, bit_or-zero_below k (x / 2) (omega arith))

pub bit_or-zero : (x : ℕ) → bit_or x 0 ≡ x
bit_or-zero x = bit_or-zero_below x x (lt_pow2 x)

zero_and_below : (k m : ℕ) → m < pow2 k → bit_and 0 m ≡ 0
zero_and_below zero m h = let e : 0 ≡ m = omega arith in subst (λ z. bit_and 0 z ≡ 0) e refl
zero_and_below (suc k) m h = omega (arith, bit_and_step 0 m, zero_and_below k (m / 2) (omega arith))

-- A mask distributes over a disjunction.
distrib_below :
    (k x y m : ℕ) → m < pow2 k → bit_and (bit_or x y) m ≡ bit_or (bit_and x m) (bit_and y m)
distrib_below zero x y m h =
    let e : 0 ≡ m = omega arith in
    subst (λ z. bit_and (bit_or x y) z ≡ bit_or (bit_and x z) (bit_and y z)) e
      (omega (
        arith,
        bit_and-zero (bit_or x y),
        ap₂ bit_or (bit_and-zero x) (bit_and-zero y),
        bit_or-zero 0,
      ))
distrib_below (suc k) x y m h =
    let ih = distrib_below k (x / 2) (y / 2) (m / 2) (omega arith) in
    let half : bit_or x y / 2 ≡ bit_or (x / 2) (y / 2) = omega (arith, bit_or_step x y) in
    let left = bit_and_step (bit_or x y) m in
    let low_x : bit_and x m / 2 ≡ bit_and (x / 2) (m / 2) = omega (arith, bit_and_step x m) in
    let low_y : bit_and y m / 2 ≡ bit_and (y / 2) (m / 2) = omega (arith, bit_and_step y m) in
    let right = bit_or_step (bit_and x m) (bit_and y m) in
    let high : bit_and (bit_or x y / 2) (m / 2) ≡ bit_or (bit_and x m / 2) (bit_and y m / 2) =
      ap (λ z. bit_and z (m / 2)) half ∙ (ih ∙ ap₂ bit_or (sym low_x) (sym low_y)) in
    omega (arith, left, right, high, bit_and_step x m, bit_and_step y m, bit_or-mod_two x y)

pub bit_and-bit_or : (x y m : ℕ) → bit_and (bit_or x y) m ≡ bit_or (bit_and x m) (bit_and y m)
bit_and-bit_or x y m = distrib_below m x y m (lt_pow2 m)

idem_below : (k x m : ℕ) → m < pow2 k → bit_and (bit_and x m) m ≡ bit_and x m
idem_below zero x m h =
    let e : 0 ≡ m = omega arith in
    subst (λ z. bit_and (bit_and x z) z ≡ bit_and x z) e
      (bit_and-zero (bit_and x 0) ∙ sym (bit_and-zero x))
idem_below (suc k) x m h =
    let ih = idem_below k (x / 2) (m / 2) (omega arith) in
    let half : bit_and x m / 2 ≡ bit_and (x / 2) (m / 2) = omega (arith, bit_and_step x m) in
    let high : bit_and (bit_and x m / 2) (m / 2) ≡ bit_and (x / 2) (m / 2) =
      ap (λ z. bit_and z (m / 2)) half ∙ ih in
    omega (arith, bit_and_step (bit_and x m) m, bit_and_step x m, high)

pub bit_and_idem : (x m : ℕ) → bit_and (bit_and x m) m ≡ bit_and x m
bit_and_idem x m = idem_below m x m (lt_pow2 m)
