-- ===== src/Base/Bits.antt =====
-- Masks. `x & (2^k - 1)` is a remainder, and `x & (m * 2^k)` works on the digits above k.
use Prim.Native.Nat.{
  ℕ, zero, suc, ◌+◌, ◌-◌, ◌*◌, ◌/◌, ◌%◌, ◌≤◌, ◌<◌, min, bit_and, digits, bit_and-bitwise,
}
use mathlib.Core.Path.{◌≡◌, refl, ap, subst, ◌∙◌}
use mathlib.Core.Bool.{Bool, true, ◌&&◌}
use native.Mathlib.Omega.{arith}

-- 2^k - 1, 2^k, x << k, x >> k and the k lower digits of x, digit by digit.
abbrev pub ones : ℕ → ℕ
ones zero = 0
ones (suc k) = ones k * 2 + 1

abbrev pub pow2 : ℕ → ℕ
pow2 zero = 1
pow2 (suc k) = pow2 k * 2

abbrev pub shl : ℕ → ℕ → ℕ
shl zero x = x
shl (suc k) x = shl k x * 2 + 0

abbrev pub shr : ℕ → ℕ → ℕ
shr zero x = x
shr (suc k) x = shr k (x / 2)

abbrev pub low : ℕ → ℕ → ℕ
low zero x = 0
low (suc k) x = low k (x / 2) * 2 + x % 2

-- Whether a test holds for the numbers 0 to n - 1, decided by evaluation.
unfoldable pub holds_below : (ℕ → Bool) → ℕ → Bool
holds_below test zero = true
holds_below test (suc top) = holds_below test top && test top

pub holds_below→test :
    (test : ℕ → Bool) (n i : ℕ) → holds_below test n ≡ true → i < n → test i ≡ true
unfolding holds_below
holds_below→test test zero i all out = elim out [ ]
holds_below→test test (suc top) i all inside = ground (arith, holds_below→test test top i)

-- The digits of a conjunction settle once the fuel reaches the first number.
conj : ℕ → ℕ → ℕ → ℕ
conj fuel x y = digits (λ _. zero) min fuel x y

conj_settled : (fuel x y : ℕ) → x ≤ fuel → conj (suc fuel) x y ≡ conj fuel x y
unfolding conj
conj_settled fuel zero y enough = elim fuel as (λ f. conj (suc f) zero y ≡ conj f zero y) [
  | zero ↦ refl
  | suc _ ↦ refl
]
conj_settled zero (suc x) y enough = elim enough [ ]
conj_settled (suc fuel) (suc x) y enough =
    omega (arith, conj_settled fuel (suc x / 2) (y / 2) (omega arith))

conj_surplus : (spare fuel x y : ℕ) → x ≤ fuel → conj (spare + fuel) x y ≡ conj fuel x y
conj_surplus zero fuel x y enough = ap (λ f. conj f x y) (omega arith)
conj_surplus (suc spare) fuel x y enough =
    let count : suc spare + fuel ≡ suc (spare + fuel) = omega arith in
    rw count (conj_settled (spare + fuel) x y (omega arith) ∙ conj_surplus spare fuel x y enough)

-- The law for the lowest digit.
pub bit_and_step : (x y : ℕ) → bit_and x y ≡ bit_and (x / 2) (y / 2) * 2 + min (x % 2) (y % 2)
unfolding conj
bit_and_step zero y = omega (arith, bit_and-bitwise 0 y, bit_and-bitwise 0 (y / 2))
bit_and_step (suc x) y =
    let half = suc x / 2 in
    let surplus : conj x half (y / 2) ≡ conj half half (y / 2) =
      subst (λ f. conj f half (y / 2) ≡ conj half half (y / 2)) (omega arith)
        (conj_surplus (x - half) half half (y / 2) (omega arith)) in
    omega (arith, bit_and-bitwise (suc x) y, bit_and-bitwise half (y / 2), surplus)

-- Nothing is left under an empty mask, by the number of digits.
bit_and-zero_below : (k x : ℕ) → x < pow2 k → bit_and x 0 ≡ 0
bit_and-zero_below zero x h = let e : x ≡ 0 = omega arith in rw e
bit_and-zero_below (suc k) x h =
    omega (arith, bit_and_step x 0, bit_and-zero_below k (x / 2) (omega arith))

lt-pow2 : (x : ℕ) → x < pow2 x
lt-pow2 zero = omega arith
lt-pow2 (suc x) = omega (arith, lt-pow2 x)

pub bit_and-zero : (x : ℕ) → bit_and x 0 ≡ 0
bit_and-zero x = bit_and-zero_below x x (lt-pow2 x)

-- The same, the mask given by its lowest digit and the digits above.
pub bit_and-digit :
    (a m l : ℕ) → l < 2 → bit_and a (m * 2 + l) ≡ bit_and (a / 2) m * 2 + min (a % 2) l
bit_and-digit a m l h =
    let above : (m * 2 + l) / 2 ≡ m = omega arith in
    let lowest : (m * 2 + l) % 2 ≡ l = omega arith in rw (bit_and_step a (m * 2 + l), above, lowest)

-- A mask of k ones keeps the k lower digits.
pub bit_and-ones : (k a : ℕ) → bit_and a (ones k) ≡ low k a
bit_and-ones zero a = bit_and-zero a
bit_and-ones (suc k) a =
    omega (arith, bit_and-digit a (ones k) 1 (omega arith), bit_and-ones k (a / 2))

-- A mask of ones keeps a number that fits under it.
pub low_of_lt : (k a : ℕ) → a < pow2 k → low k a ≡ a
low_of_lt zero a h = omega arith
low_of_lt (suc k) a h = omega (arith, low_of_lt k (a / 2) (omega arith))

-- A mask that ends in k zeros drops the k lower digits.
pub bit_and-shl : (k a m : ℕ) → bit_and a (shl k m) ≡ shl k (bit_and (shr k a) m)
bit_and-shl zero a m = refl
bit_and-shl (suc k) a m =
    omega (arith, bit_and-digit a (shl k m) 0 (omega arith), bit_and-shl k (a / 2) m)
