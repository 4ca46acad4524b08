-- ===== src/Base/Search.antt =====
-- The loops over a table that look for the first place with some property.
use Prim.Native.Nat.{ℕ, zero, suc, ◌+◌, ◌≤◌, ◌<◌}
use mathlib.Core.Path.{◌≡◌, ap, sym, ◌∙◌}
use mathlib.Core.Logic.{inl, inr}
use mathlib.Core.Bool.{Bool, true, false, true≢false}
use mathlib.Core.Option.{Option, none, some}
use native.Mathlib.Omega.{arith}
use myos.Base.Tests.{◌==◌, Bool-cases, ltb}

-- The first index from i on, of n, that a test accepts.
unfoldable pub first_from : (ℕ → Bool) → ℕ → ℕ → Option ℕ
first_from test zero i = none
first_from test (suc n) i = elim (test i) [ true ↦ some i | false ↦ first_from test n (i + 1) ]

-- A search finds the first index that passes, and fails only where none does.
abbrev pub First : (ℕ → Bool) → ℕ → ℕ → Option ℕ → Type 0
First test lo hi none = (k : ℕ) → lo ≤ k → k < hi → test k ≡ false
First test lo hi (some i) =
    (test i ≡ true) × (lo ≤ i) × (i < hi) × ((k : ℕ) → lo ≤ k → k < i → test k ≡ false)

none_from :
    (test : ℕ → Bool) (lo hi : ℕ)
    → test lo ≡ false
    → ((k : ℕ) → lo + 1 ≤ k → k < hi → test k ≡ false)
    → (k : ℕ) → lo ≤ k
    → k < hi
    → test k ≡ false
none_from test lo hi miss rest k a b = elim (Bool-cases (k == lo)) [
  | inl here ↦ let e : k ≡ lo = ground arith in rw e miss
  | inr there ↦ rest k (ground arith) b
]

First-miss :
    (test : ℕ → Bool) (lo hi : ℕ) (o : Option ℕ)
    → test lo ≡ false
    → First test (lo + 1) hi o
    → First test lo hi o
First-miss test lo hi none miss f = none_from test lo hi miss f
First-miss test lo hi (some i) miss (hit, low, high, rest) =
    (hit, omega arith, high, none_from test lo i miss rest)

pub first_from-First :
    (test : ℕ → Bool) (n lo hi : ℕ) → lo + n ≡ hi → First test lo hi (first_from test n lo)
unfolding first_from
first_from-First test zero lo hi e = λ k a b. absurd (omega arith)
first_from-First test (suc n) lo hi e = elim (Bool-cases (test lo)) [
  | inl hit ↦ rw (hit, first_from) (hit, omega arith, omega arith, λ k a b. absurd (omega arith))
  | inr miss ↦
      rw (miss, first_from)
        (First-miss test lo hi (first_from test n (lo + 1)) miss
          (first_from-First test n (lo + 1) hi (omega arith)))
]

-- The search finds an index that is the first to pass.
pub first_from_unique :
    (test : ℕ → Bool) (n i : ℕ)
    → i < n
    → test i ≡ true
    → ((k : ℕ) → k < i → test k ≡ false)
    → first_from test n 0 ≡ some i
first_from_unique test n i h hit miss =
    only (first_from test n 0) (first_from-First test n 0 n (omega arith))
  where
    only : (o : Option ℕ) → First test 0 n o → o ≡ some i
    only none f = absurd (true≢false (sym hit ∙ f i (omega arith) h))
    only (some j) (hit', _, _, rest) = elim (Bool-cases (ltb j i)) [
      | inl a ↦ absurd (true≢false (sym hit' ∙ miss j (ground (arith, a))))
      | inr a ↦ elim (Bool-cases (ltb i j)) [
        | inl b ↦ absurd (true≢false (sym hit ∙ rest i (omega arith) (ground (arith, b))))
        | inr b ↦ ap some (ground (arith, a, b))
      ]
    ]
