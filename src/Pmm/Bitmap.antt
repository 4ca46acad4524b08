-- ===== src/Pmm/Bitmap.antt =====
-- The bit operations of src/pmm.c on the bytes of the bitmap.
use myos.Base.{
  ℕ, ◌-◌, ◌/◌, ◌%◌, ◌^◌, ◌<◌, bit_and, bit_or, ◌≡◌, refl, Bool, true, false, ◌&&◌, ◌==◌,
  if◌then◌else◌, ltb, arith,
}
use myos.Base.Bits.{holds_below, holds_below→test}
use myos.Pmm.{Pmm, bit_set, bit_clear, bit_test}

-- The bytes of the bitmap are bytes.
abbrev pub IsBytes : Pmm → Type 0
IsBytes p = (i : ℕ) → p.bitmap i < 256

bool_eq : Bool → Bool → Bool
bool_eq true b = b
bool_eq false true = false
bool_eq false false = true

bool_eq→eq : (a b : Bool) → bool_eq a b ≡ true → a ≡ b
unfolding bool_eq
bool_eq→eq a b h = ground arith

abbrev bit : ℕ → ℕ → Bool
bit b k = b / 2 ^ k % 2 == 1

set_row : ℕ → ℕ → ℕ → Bool
unfolding bool_eq
set_row b k j =
    bool_eq (bit (bit_or b (2 ^ k)) j) (if j == k then true else bit b j)
    && ltb (bit_or b (2 ^ k)) 256

clear_row : ℕ → ℕ → ℕ → Bool
unfolding bool_eq
clear_row b k j =
    bool_eq (bit (bit_and b (255 - 2 ^ k)) j) (if j == k then false else bit b j)
    && ltb (bit_and b (255 - 2 ^ k)) 256

abbrev all_bits : (ℕ → ℕ → ℕ → Bool) → ℕ → ℕ → Bool
all_bits row b k = holds_below (λ j. row b k j) 8

abbrev all_byte : (ℕ → ℕ → ℕ → Bool) → ℕ → Bool
all_byte row b = holds_below (λ k. all_bits row b k) 8

every : (ℕ → ℕ → ℕ → Bool) → Bool
every row = holds_below (all_byte row) 256

every→row :
    (row : ℕ → ℕ → ℕ → Bool) (b k j : ℕ)
    → every row ≡ true
    → b < 256
    → k < 8
    → j < 8
    → row b k j ≡ true
unfolding every
every→row row b k j h hb hk hj =
    let byte = holds_below→test (all_byte row) 256 b h hb in
    let bits = holds_below→test (λ k. all_bits row b k) 8 k byte hk in
    holds_below→test (λ j. row b k j) 8 j bits hj

set_table : every set_row ≡ true
unfolding every set_row holds_below
set_table = refl

clear_table : every clear_row ≡ true
unfolding every clear_row holds_below
clear_table = refl

bit_or-bit :
    (b k j : ℕ)
    → b < 256
    → k < 8
    → j < 8
    → (bit (bit_or b (2 ^ k)) j ≡ (if j == k then true else bit b j)) × (bit_or b (2 ^ k) < 256)
unfolding set_row
bit_or-bit b k j hb hk hj =
    let row = every→row set_row b k j set_table hb hk hj in
    let value : bool_eq (bit (bit_or b (2 ^ k)) j) (if j == k then true else bit b j) ≡ true =
      ground (arith, row) in
    (bool_eq→eq _ _ value, ground (arith, row))

bit_and-bit :
    (b k j : ℕ)
    → b < 256
    → k < 8
    → j < 8
    → (bit (bit_and b (255 - 2 ^ k)) j ≡ (if j == k then false else bit b j))
      × (bit_and b (255 - 2 ^ k) < 256)
unfolding clear_row
bit_and-bit b k j hb hk hj =
    let row = every→row clear_row b k j clear_table hb hk hj in
    let value : bool_eq (bit (bit_and b (255 - 2 ^ k)) j) (if j == k then false else bit b j)
        ≡ true =
      ground (arith, row) in
    (bool_eq→eq _ _ value, ground (arith, row))

-- Setting a bit sets that page's bit and no other.
pub bit_test-bit_set :
    (i j : ℕ) (p : Pmm)
    → IsBytes p
    → bit_test j (bit_set i p) ≡ (if j == i then true else bit_test j p)
unfolding bit_test bit_set
bit_test-bit_set i j p v =
    ground
      (arith, bit_or-bit (p.bitmap (i / 8)) (i % 8) (j % 8) (v (i / 8)) (omega arith) (omega arith))

-- Clearing a bit clears that page's bit and no other.
pub bit_test-bit_clear :
    (i j : ℕ) (p : Pmm)
    → IsBytes p
    → bit_test j (bit_clear i p) ≡ (if j == i then false else bit_test j p)
unfolding bit_test bit_clear
bit_test-bit_clear i j p v =
    ground (
      arith,
      bit_and-bit (p.bitmap (i / 8)) (i % 8) (j % 8) (v (i / 8)) (omega arith) (omega arith),
    )

pub bit_set-IsBytes : (i : ℕ) (p : Pmm) → IsBytes p → IsBytes (bit_set i p)
unfolding bit_set
bit_set-IsBytes i p v j =
    ground
      (arith, v j, bit_or-bit (p.bitmap (i / 8)) (i % 8) 0 (v (i / 8)) (omega arith) (omega arith))

pub bit_clear-IsBytes : (i : ℕ) (p : Pmm) → IsBytes p → IsBytes (bit_clear i p)
unfolding bit_clear
bit_clear-IsBytes i p v j =
    ground
      (arith, v j, bit_and-bit (p.bitmap (i / 8)) (i % 8) 0 (v (i / 8)) (omega arith) (omega arith))
